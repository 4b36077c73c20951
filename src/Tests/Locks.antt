-- ===== src/Tests/Locks.antt =====
-- Two threads at the lock of one bucket, which holds a number that changes by addition.
use pulse_map.Base.{ℕ, ◌+◌, ◌≡◌, refl, arith, true, some, ◌⊎◌, get_elem?, set}
use pulse_map.Sync.Locks.Safety.{mutual_exclusion, changes_in_order, no_deadlock}
use pulse_map.Sync.Locks.System.{
  put, spinning, loaded, System, guard_of, Step, take, win, read, Reach, start, later, replay,
}
use pulse_map.Sync.Locks.{BucketLocks, new_locks, try_lock}

abbrev add : ℕ → ℕ → ℕ
add n m = n + m

abbrev tens : ℕ → ℕ
tens _ = 10

-- Thread 0 has the guard of bucket 1 and has read the bucket; thread 1 spins there.
record Contended : Type 0 where
  state : System ℕ ℕ add
  reached : Reach ℕ ℕ add 4 tens state
  reader : state.pc 0 ≡ loaded 1 10
  waiter : state.pc 1 ≡ spinning 1

contended : Contended
unfolding put try_lock new_locks get_elem? set
contended = record {
  state = _;
  reached =
      later 1
        (later 0 (later 0 (later 0 start (take 1 (omega arith) refl)) (win 1 refl refl))
          (read 1 refl))
        (take 1 (omega arith) refl);
  reader = refl;
  waiter = refl;
}

reader_guard : guard_of ℕ ℕ add (contended.state.pc 0) ≡ some 1
unfolding guard_of
reader_guard = rw contended.reader

mutual_exclusion_example :
    (◌≡◌ {A = ℕ} 0 0) × ((a : ℕ) → contended.state.pc 0 ≡ loaded 1 a → contended.state.mem 1 ≡ a)
mutual_exclusion_example =
    mutual_exclusion ℕ ℕ add 4 tens contended.reached 0 0 1 reader_guard reader_guard

changes_in_order_example :
    contended.state.mem 1 ≡ replay ℕ ℕ add (contended.state.history 1) (tens 1)
changes_in_order_example = changes_in_order ℕ ℕ add 4 tens contended.reached 1

no_deadlock_example :
    ((l : BucketLocks) × (try_lock contended.state.locks 1 ≡ some (true, l)))
    ⊎ ((u : ℕ) × (guard_of ℕ ℕ add (contended.state.pc u) ≡ some 1)
        × (s' : System ℕ ℕ add) × Step ℕ ℕ add contended.state u s')
no_deadlock_example = no_deadlock ℕ ℕ add 4 tens contended.reached 1 1 contended.waiter
