-- ===== src/Sync.antt =====
-- src/sync.rs: `ConcurrentPulseMap`. An operation runs here alone: the locks that it takes are free, and an
-- exchange succeeds. A method returns the new map; `none` is a panic.
pub mod Locks
pub mod State
pub mod Resize
pub mod Ops
pub mod View
pub mod Lookup
pub mod Deferred
pub mod Write
pub mod Insert
pub mod Laws
