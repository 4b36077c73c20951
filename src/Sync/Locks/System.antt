-- ===== src/Sync/Locks/System.antt =====
-- Threads that read and write buckets under their guards, a shared access at a time, in any order.
use pulse_map.Base.{
  ℕ, ◌<◌, ◌≡◌, true, Option, none, some, List, [], ◌∷◌, ◌==◌, if◌then◌else◌, length,
}
use pulse_map.Sync.Locks.{BucketLocks, new_locks, try_lock, unlock}

-- A family with one member replaced.
unfoldable pub put {ℓ} : {A : Type ℓ} → (ℕ → A) → ℕ → A → ℕ → A
put f i a j = if i == j then a else f j

-- `A` is what a bucket holds, `Op` the changes that are made to it.
module _ (A Op : Type 0) (run : Op → A → A) where
  -- Where a thread stands. No thread has two guards: `insert_internal` drops the guard of each deferred access
  -- before it takes the next one.
  pub data Pc : Type 0 where
    outside : Pc
    spinning : (i : ℕ) → Pc  -- in the loop of `lock`
    entered : (i : ℕ) → Pc  -- the guard is made
    loaded : (i : ℕ) (a : A) → Pc  -- the bucket has been read
    finished : (i : ℕ) → Pc  -- before the guard is dropped

  pub record System : Type 0 where
    pub locks : BucketLocks
    pub mem : ℕ → A
    pub history : ℕ → List Op  -- the changes made to each bucket, the latest first
    pub pc : ℕ → Pc

  -- The bucket whose guard a thread has.
  unfoldable pub guard_of : Pc → Option ℕ
  guard_of outside = none
  guard_of (spinning i) = none
  guard_of (entered i) = some i
  guard_of (loaded i a) = some i
  guard_of (finished i) = some i

  -- One step of thread `t`.
  pub data Step (s : System) (t : ℕ) : System → Type 0 where
    take :
        (i : ℕ)
        → i < length s.locks.locks
        → s.pc t ≡ outside
        → Step s t (record s { pc = put s.pc t (spinning i) })
    -- `compare_exchange_weak` fails, perhaps without a reason
    spin : (i : ℕ) → s.pc t ≡ spinning i → Step s t s
    win :
        (i : ℕ) {l : BucketLocks}
        → s.pc t ≡ spinning i
        → try_lock s.locks i ≡ some (true, l)
        → Step s t (record s { locks = l; pc = put s.pc t (entered i) })
    read :
        (i : ℕ) → s.pc t ≡ entered i → Step s t (record s { pc = put s.pc t (loaded i (s.mem i)) })
    write :
        (i : ℕ) (a : A) (op : Op)
        → s.pc t ≡ loaded i a
        → Step s t (record s {
          mem = put s.mem i (run op a);
          history = put s.history i (op ∷ s.history i);
          pc = put s.pc t (finished i);
        })
    leave :
        (i : ℕ) (a : A) → s.pc t ≡ loaded i a → Step s t (record s { pc = put s.pc t (finished i) })
    drop :
        (i : ℕ) {l : BucketLocks}
        → s.pc t ≡ finished i
        → unlock s.locks i ≡ some l
        → Step s t (record s { locks = l; pc = put s.pc t outside })

  abbrev pub init : ℕ → (ℕ → A) → System
  init num_buckets mem = record {
    locks = new_locks num_buckets;
    mem = mem;
    history = λ _. [];
    pc = λ _. outside;
  }

  pub data Reach (num_buckets : ℕ) (mem : ℕ → A) : System → Type 0 where
    start : Reach num_buckets mem (init num_buckets mem)
    later :
        {s s' : System} (t : ℕ) → Reach num_buckets mem s → Step s t s' → Reach num_buckets mem s'

  -- The changes in the order in which they were made.
  unfoldable pub replay : List Op → A → A
  replay [] a = a
  replay (op ∷ ops) a = run op (replay ops a)
