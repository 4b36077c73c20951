-- ===== src/Sync/Locks.antt =====
-- src/sync.rs: `BucketLocks` and `BucketGuard`, one spinlock for each bucket; and the threads that take them.
pub mod System
pub mod Invariant
pub mod Safety
use pulse_map.Base.{
  ℕ, Bool, true, false, Option, some, List, ◌==◌, if◌then◌else◌, get_elem?, set_elem?, replicate,
  ◌>>=◌,
}

pub record BucketLocks : Type 0 where
  pub locks : List ℕ

unfoldable pub new_locks : ℕ → BucketLocks
unfolding replicate
new_locks num_buckets = record { locks = replicate num_buckets 0 }

-- The exchange in the loop of `lock`, where it does not fail without a reason: the answer is whether it was
-- made. The loop ends with it.
unfoldable pub try_lock : BucketLocks → ℕ → Option (Bool × BucketLocks)
unfolding set_elem?
try_lock l bucket_idx = do
  word ← get_elem? l.locks bucket_idx
  if word == 0
      then (do locks ← set_elem? l.locks bucket_idx 1; some (true, record { locks = locks }))
      else some (false, l)

-- `unlock`, which the drop of a guard calls
unfoldable pub unlock : BucketLocks → ℕ → Option BucketLocks
unfolding set_elem?
unlock l bucket_idx = do locks ← set_elem? l.locks bucket_idx 0; some (record { locks = locks })
