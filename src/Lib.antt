-- ===== src/Lib.antt =====
-- PulseMap: a cache-line hash table with eviction, and the structures around it.
--
-- A map is a vector of buckets. A bucket (src/engine/bucket.rs) is a metadata word of 64 bits and four slots of
-- 14 bytes. The word (src/engine/meta.rs) has for each slot a state, a fingerprint of 7 bits and a priority; a slot
-- (src/engine/slot.rs) holds a short pair inline, or two more fingerprints and an index into the slab pool
-- (src/engine/slab.rs). A key is hashed (src/engine/hash.rs), the low bits choose its bucket, and a loop over the
-- match mask (src/engine/meta.rs, src/simd.rs) compares fingerprints before keys. A full bucket gives up an expired
-- entry or the one of the least priority, so a map never grows by itself and may lose entries.
--
--   Base           numbers, words, bit fields, lists, bytes: what the other files share
--   Meta, Simd     src/engine/meta.rs (MetaWord) and src/simd.rs (match_mask_simd)
--   Probe          the loop over a match mask that src/raw.rs and src/sync.rs repeat
--   Hash           src/engine/hash.rs (compute_hash)
--   Slab           src/engine/slab.rs (SlabEntry, SlabPool)
--   Slot           src/engine/slot.rs (Slot)
--   Bucket         src/engine/bucket.rs, and the steps on one bucket of src/raw.rs and src/sync.rs
--   Raw            src/raw.rs (PulseMapRaw: new, insert_internal, get, peek, remove and the TTL)
--   AccessBuffer   src/engine/access_buffer.rs (the queue of deferred accesses)
--   Codec, Typed   src/lib.rs (PulseKey, PulseValue; TypedPulseMap and its entry API)
--   Traits         src/traits.rs (Extend, From<HashMap>)
--   Iter           src/iter.rs (RawIter, TypedIter)
--   Sync           src/sync.rs (ConcurrentPulseMap; Sync.Resize has resize, Sync.Locks BucketLocks)
--   Sharded        src/sharded.rs (ShardedPulseMap), with bucket_hash in Sync.State
--   Tests          runs at concrete inputs
--
-- State is passed explicitly: a method that changes `self` returns the new value, and so does `get`, which writes a
-- priority through a shared reference. A panic, as of an index out of range, is `none`. Integers are natural numbers
-- with their wrap-around written out, as in a release build; `usize` has 64 bits. The hash function `wyhash` comes
-- from another crate, so it is a parameter, about which nothing is assumed but, where it is said, that its result has
-- 64 bits.
--
-- The invariant of a map is Raw.Invariant.IsValid; the abstract map is Raw.Invariant.stored, which finds a key by
-- comparing whole keys, and Raw.Invariant.visible, which leaves out expired entries. The operations of Raw are stated
-- against these two. Slab indices are accounted for: each is owned by one full slot or is on the free list. A
-- concurrent map is seen as such a table by Sync.View.view; the two differ in the bits of the hash that choose the
-- bucket, which the parameter `spread` stands for, and Sync.View.IsConsistent adds the queue of deferred accesses,
-- each of which names a slot of the table. Sync.Locks.System has the threads of a program at the locks of the buckets:
-- each step is one access to a lock or a bucket. AccessBuffer.Concurrent likewise has the threads that push and pop: a
-- step is one access to the shared memory, and the sequence number of a cell says who may touch it.
--
-- Bounds and fuel: a map has at most 2 ^ 57 buckets, far above what memory holds; a slab entry notes lengths in 32
-- bits, so a pair whose lengths together reach 2 ^ 32 is outside the theorems (Slab.Entry.Fits). The loops over four
-- slots and over the bits of a mask run on the number of their rounds; `next_power_of_two` doubles at most 64 times.
-- The retry loop of `resize` runs on 64 doublings, past which no vector of buckets can be allocated (one round is
-- enough), and TypedIter::next on one round more than there are slots.
--
-- Not modelled: memory orderings; the interleaving of threads but for Sync.Locks, AccessBuffer.Concurrent and
-- Meta.Contention (an operation of Sync runs alone, with its locks free and its exchanges successful); the RwLock and
-- the mutexes by themselves; `load_factor`, the output for display, and the code that is tests, benchmarks, examples or
-- measurements.
pub mod Base
pub mod Meta
pub mod Probe
pub mod Simd
pub mod Hash
pub mod Slab
pub mod Slot
pub mod Bucket
pub mod Raw
pub mod AccessBuffer
pub mod Codec
pub mod Iter
pub mod Traits
pub mod Typed
pub mod Sync
pub mod Sharded
pub mod Tests
