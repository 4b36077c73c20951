-- ===== src/Tests.antt =====
-- Runs at concrete inputs: the map with a small hash in place of `wyhash`.
pub mod Buffer
pub mod Concurrent
pub mod Contention
pub mod Map
pub mod Iterators
pub mod Sync
pub mod Traits
pub mod Locks
pub mod Parts
