-- ===== src/Sync/Locks/Safety.antt =====
-- Every step keeps the invariant; what it says of every reachable state.
use pulse_map.Base.{
  ℕ, ◌<◌, ◌≡◌, refl, sym, ap, subst, ◌∙◌, true, some, List, ◌∷◌, ◌⊎◌, inl, inr, length,
  get_elem?-of_lt, set, set_elem?-of_lt, lt_of_get_elem?, ◌>>=◌,
}
use native.Mathlib.Decide.{ℕ_discrete}
use pulse_map.Sync.Locks.System.{
  put, Pc, outside, spinning, entered, loaded, finished, System, guard_of, Step, take, spin, win,
  read, write, leave, drop, Reach, start, later, replay,
}
use pulse_map.Sync.Locks.Invariant.{
  put-same, put-other, try_lock-true, unlock-some, Inv, init-Inv, still, win-Inv, drop-Inv,
}
use pulse_map.Sync.Locks.{BucketLocks, try_lock, unlock}

same_locks : {l : BucketLocks} {words : List ℕ} → l.locks ≡ words → record { locks = words } ≡ l
same_locks {l} e = rw (sym e)

module _ (A Op : Type 0) (run : Op → A → A) (n : ℕ) (mem₀ : ℕ → A) where
  abbrev Invariant : System A Op run → Type 0
  Invariant = Inv A Op run n mem₀

  module _ {s : System A Op run} (t : ℕ) (inv : Invariant s) where
    take-Inv :
        (i : ℕ)
        → i < length s.locks.locks
        → s.pc t ≡ outside
        → Invariant (record s { pc = put s.pc t (spinning i) })
    unfolding guard_of
    take-Inv i below at =
        still A Op run n mem₀ t inv (spinning i) (rw at) s.mem s.history
          (λ j e. let same : i ≡ j = cc in rw (sym same) below) (λ j a e. cc) (λ j _. refl) inv.made

    read-Inv :
        (i : ℕ) → s.pc t ≡ entered i → Invariant (record s { pc = put s.pc t (loaded i (s.mem i)) })
    unfolding guard_of
    read-Inv i at =
        still A Op run n mem₀ t inv (loaded i (s.mem i)) (rw at) s.mem s.history (λ j e. cc)
          (λ j a e. cc) (λ j _. refl) inv.made

    write-Inv :
        (i : ℕ) (a : A) (op : Op)
        → s.pc t ≡ loaded i a
        → Invariant (record s {
          mem = put s.mem i (run op a);
          history = put s.history i (op ∷ s.history i);
          pc = put s.pc t (finished i);
        })
    unfolding guard_of put replay
    write-Inv i a op at =
        still A Op run n mem₀ t inv (finished i) (rw at) (put s.mem i (run op a))
          (put s.history i (op ∷ s.history i)) (λ j e. cc) (λ j b e. cc)
          (λ j ne. put-other s.mem i (run op a) j (λ q. ne (rw at (ap some q)))) made'
      where
        made' :
            (j : ℕ)
            → put s.mem i (run op a) j
              ≡ replay A Op run (put s.history i (op ∷ s.history i) j) (mem₀ j)
        made' j = elim (ℕ_discrete i j) [
          | yes q ↦
              subst
                (λ (j : ℕ).
                  put s.mem i (run op a) j
                  ≡ replay A Op run (put s.history i (op ∷ s.history i) j) (mem₀ j))
                q
                (rw (put-same s.mem i (run op a), put-same s.history i (op ∷ s.history i))
                  (ap (run op) (sym (inv.current t i a at) ∙ inv.made i)))
          | no ne ↦
              rw (put-other s.mem i (run op a) j ne, put-other s.history i (op ∷ s.history i) j ne)
                (inv.made j)
        ]

    leave-Inv :
        (i : ℕ) (a : A)
        → s.pc t ≡ loaded i a
        → Invariant (record s { pc = put s.pc t (finished i) })
    unfolding guard_of
    leave-Inv i a at =
        still A Op run n mem₀ t inv (finished i) (rw at) s.mem s.history (λ j e. cc) (λ j b e. cc)
          (λ j _. refl) inv.made

  pub Step-Inv :
      {s : System A Op run} (t : ℕ) {s' : System A Op run}
      → Step A Op run s t s'
      → Invariant s
      → Invariant s'
  Step-Inv t (take i below at) inv = take-Inv t inv i below at
  Step-Inv t (spin i at) inv = inv
  Step-Inv {s} t (win i at exchange) inv =
      let (free, now) = try_lock-true s.locks i exchange in
      subst (λ (l : BucketLocks). Invariant (record s { locks = l; pc = put s.pc t (entered i) }))
        (same_locks now) (win-Inv A Op run n mem₀ t inv i at free)
  Step-Inv t (read i at) inv = read-Inv t inv i at
  Step-Inv t (write i a op at) inv = write-Inv t inv i a op at
  Step-Inv t (leave i a at) inv = leave-Inv t inv i a at
  Step-Inv {s} t (drop i at release) inv =
      let (_, now) = unlock-some s.locks i release in
      subst (λ (l : BucketLocks). Invariant (record s { locks = l; pc = put s.pc t outside }))
        (same_locks now) (drop-Inv A Op run n mem₀ t inv i at)

  pub Reach-Inv : {s : System A Op run} → Reach A Op run n mem₀ s → Invariant s
  Reach-Inv start = init-Inv A Op run n mem₀
  Reach-Inv (later t r st) = Step-Inv t st (Reach-Inv r)

  module _ {s : System A Op run} (r : Reach A Op run n mem₀ s) where
    -- In every reachable state of any number of threads, two threads that have the guard of the same bucket are
    -- one; and a thread that has read the bucket under its guard still sees there what it has read.
    pub mutual_exclusion :
        (t u i : ℕ)
        → guard_of A Op run (s.pc t) ≡ some i
        → guard_of A Op run (s.pc u) ≡ some i
        → (t ≡ u) × ((a : A) → s.pc u ≡ loaded i a → s.mem i ≡ a)
    mutual_exclusion t u i at au =
        let inv = Reach-Inv r in (inv.unique t u i at au, λ a e. inv.current u i a e)

    -- In every reachable state each bucket is what the changes made to it give, one after the other, in the
    -- order in which they were made: no change is lost or made to an older state of the bucket.
    pub changes_in_order : (i : ℕ) → s.mem i ≡ replay A Op run (s.history i) (mem₀ i)
    changes_in_order = (Reach-Inv r).made

    -- A thread that has a guard can move.
    moves :
        (u i : ℕ) (p : Pc A Op run)
        → s.pc u ≡ p
        → guard_of A Op run p ≡ some i
        → (s' : System A Op run) × Step A Op run s u s'
    unfolding guard_of unlock
    moves u i outside e g = absurd (cc g)
    moves u i (spinning j) e g = absurd (cc g)
    moves u i (entered j) e g = (_, read j e)
    moves u i (loaded j a) e g = (_, leave j a e)
    moves u i (finished j) e g =
        let below =
          lt_of_get_elem? s.locks.locks j ((Reach-Inv r).locked u j (ap (guard_of A Op run) e)) in
        let frees : unlock s.locks j ≡ some (record { locks = set s.locks.locks j 0 }) =
          rw (set_elem?-of_lt s.locks.locks j 0 below, ◌>>=◌) in
        (_, drop j e frees)

    -- In every reachable state, if a thread spins on a bucket, then its exchange succeeds at once, or another
    -- thread has the guard of the bucket; and the threads that have a guard can always move.
    pub no_deadlock :
        (t i : ℕ)
        → s.pc t ≡ spinning i
        → ((l : BucketLocks) × (try_lock s.locks i ≡ some (true, l)))
          ⊎ ((u : ℕ) × (guard_of A Op run (s.pc u) ≡ some i)
              × (s' : System A Op run) × Step A Op run s u s')
    unfolding try_lock
    no_deadlock t i at =
        let inv = Reach-Inv r in
        let below = inv.aims t i at in
        let (w, word) = get_elem?-of_lt s.locks.locks i below in
        elim (inv.owned i w word) [
          | inl z ↦ inl (
            record { locks = set s.locks.locks i 1 },
            rw (word, ◌>>=◌, z, set_elem?-of_lt s.locks.locks i 1 below),
          )
          | inr (u, g, _) ↦ let (s', step) = moves u i (s.pc u) refl g in inr (u, g, s', step)
        ]
