-- ===== src/Sync/Locks/Invariant.antt =====
-- What holds in every reachable state of the threads: a word is 1 exactly while one thread has its guard.
use pulse_map.Base.{
  ℕ, ◌<◌, ◌≡◌, ◌≢◌, refl, sym, ap, subst, ◌∙◌, arith, true, Option, none, some, List, ◌==◌, ◌⊎◌,
  inl, inr, if◌then◌else◌, length, length-replicate, get_elem?, get_elem?-replicate,
  lt_of_get_elem?, set, set_elem?, get_elem?-set, length-set, eq_of_some, Option-cases, replicate,
}
use native.Mathlib.Decide.{ℕ_discrete}
use pulse_map.Sync.Locks.System.{
  put, Pc, outside, spinning, entered, loaded, finished, System, guard_of, init, replay,
}
use pulse_map.Sync.Locks.{BucketLocks, new_locks, try_lock, unlock}

module _ {ℓ} {A : Type ℓ} (f : ℕ → A) (i : ℕ) (a : A) where
  pub put-same : put f i a i ≡ a
  unfolding put
  put-same = ground arith

  pub put-other : (j : ℕ) → i ≢ j → put f i a j ≡ f j
  unfolding put
  put-other j ne = ground arith

pub try_lock-true :
    (l : BucketLocks) (i : ℕ) {l' : BucketLocks}
    → try_lock l i ≡ some (true, l')
    → (get_elem? l.locks i ≡ some 0) × (l'.locks ≡ set l.locks i 1)
unfolding try_lock set_elem?
try_lock-true l i {l'} h = elim (Option-cases (get_elem? l.locks i)) [
  | inl e ↦ absurd (ground (arith, h))
  | inr (w, e) ↦
      let below = lt_of_get_elem? l.locks i e in (ground (arith, h, e), ground (arith, h, e, below))
]

pub unlock-some :
    (l : BucketLocks) (i : ℕ) {l' : BucketLocks}
    → unlock l i ≡ some l'
    → (i < length l.locks) × (l'.locks ≡ set l.locks i 0)
unfolding unlock set_elem?
unlock-some l i {l'} h = (ground (arith, h), ground (arith, h))

module _ (A Op : Type 0) (run : Op → A → A) (num_buckets : ℕ) (mem₀ : ℕ → A) where
  pub record Inv (s : System A Op run) : Type 0 where
    pub width : length s.locks.locks ≡ num_buckets
    pub locked :
        (t i : ℕ) → guard_of A Op run (s.pc t) ≡ some i → get_elem? s.locks.locks i ≡ some 1
    pub unique :
        (t u i : ℕ)
        → guard_of A Op run (s.pc t) ≡ some i
        → guard_of A Op run (s.pc u) ≡ some i
        → t ≡ u
    pub owned :
        (i w : ℕ)
        → get_elem? s.locks.locks i ≡ some w
        → (w ≡ 0) ⊎ ((t : ℕ) × (guard_of A Op run (s.pc t) ≡ some i) × (w ≡ 1))
    pub aims : (t i : ℕ) → s.pc t ≡ spinning i → i < length s.locks.locks
    pub current : (t i : ℕ) (a : A) → s.pc t ≡ loaded i a → s.mem i ≡ a
    pub made : (i : ℕ) → s.mem i ≡ replay A Op run (s.history i) (mem₀ i)

  pub init-Inv : Inv (init A Op run num_buckets mem₀)
  unfolding guard_of replay new_locks
  init-Inv = record {
    width = length-replicate num_buckets 0;
    locked = λ t i e. cc;
    unique = λ t u i e _. cc;
    owned = λ i w e.
        let inside : i < num_buckets = omega (
          arith,
          lt_of_get_elem? (replicate num_buckets 0) i e,
          length-replicate {A = ℕ} num_buckets 0,
        ) in
        inl (sym (eq_of_some (sym (get_elem?-replicate num_buckets i 0 inside) ∙ e)));
    aims = λ t i e. cc;
    current = λ t i a e. cc;
    made = λ i. refl;
  }

  module _ {s : System A Op run} (t : ℕ) (inv : Inv s) where
    abbrev pub guard : ℕ → Option ℕ
    guard u = guard_of A Op run (s.pc u)

    -- The threads after thread `t` has gone to `p`.
    abbrev pub moved : Pc A Op run → ℕ → Pc A Op run
    moved p = put s.pc t p

    -- A move that leaves the guards as they are.
    module _ (p : Pc A Op run) (same : guard_of A Op run p ≡ guard t) where
      guards : (u : ℕ) → guard_of A Op run (moved p u) ≡ guard u
      guards u = elim (ℕ_discrete t u) [
        | yes e ↦
            subst (λ u. guard_of A Op run (moved p u) ≡ guard u) e (rw (put-same s.pc t p) same)
        | no ne ↦ rw (put-other s.pc t p u ne)
      ]

      module _ (mem : ℕ → A) (history : ℕ → List Op)
          (aims' : (i : ℕ) → p ≡ spinning i → i < length s.locks.locks)
          (current_t : (i : ℕ) (a : A) → p ≡ loaded i a → mem i ≡ a)
          (mem_same : (i : ℕ) → guard t ≢ some i → mem i ≡ s.mem i)
          (made' : (i : ℕ) → mem i ≡ replay A Op run (history i) (mem₀ i)) where
        pub still : Inv (record { locks = s.locks; mem = mem; history = history; pc = moved p })
        unfolding guard_of
        still = record {
          width = inv.width;
          locked = λ u i e. inv.locked u i (sym (guards u) ∙ e);
          unique = λ u x i e d. inv.unique u x i (sym (guards u) ∙ e) (sym (guards x) ∙ d);
          owned = λ i w e. elim (inv.owned i w e) [
            | inl z ↦ inl z
            | inr (u, g, one) ↦ inr (u, guards u ∙ g, one)
          ];
          aims = λ u i e. elim (ℕ_discrete t u) [
            | yes q ↦ aims' i (sym (put-same s.pc t p) ∙ rw (sym q) at e)
            | no ne ↦ inv.aims u i (sym (put-other s.pc t p u ne) ∙ e)
          ];
          current = λ u i a e. elim (ℕ_discrete t u) [
            | yes q ↦ current_t i a (sym (put-same s.pc t p) ∙ rw (sym q) at e)
            | no ne ↦
                let before : s.pc u ≡ loaded i a = sym (put-other s.pc t p u ne) ∙ e in
                let has : guard u ≡ some i = rw before in
                mem_same i (λ g. ne (inv.unique t u i g has)) ∙ inv.current u i a before
          ];
          made = made';
        }

    -- The locks after word `i` has been set.
    word_after :
        (i w : ℕ)
        → i < length s.locks.locks
        → (j : ℕ)
        → get_elem? (set s.locks.locks i w) j
          ≡ (if i == j then some w else get_elem? s.locks.locks j)
    word_after i w inside j = get_elem?-set s.locks.locks i j w inside

    module _ (i : ℕ) (at : s.pc t ≡ spinning i) (free : get_elem? s.locks.locks i ≡ some 0) where
      inside : i < length s.locks.locks
      inside = lt_of_get_elem? s.locks.locks i free

      no_guard : guard t ≡ none
      unfolding guard_of
      no_guard = rw at

      -- Who has a guard after the exchange: thread `t` that of `i`, and every other thread its old one.
      winner :
          (u j : ℕ)
          → guard_of A Op run (moved (entered i) u) ≡ some j
          → ((u ≡ t) × (i ≡ j)) ⊎ ((t ≢ u) × (i ≢ j) × (guard u ≡ some j))
      unfolding guard_of
      winner u j e = elim (ℕ_discrete t u) [
        | yes q ↦
            let here : guard_of A Op run (entered i) ≡ some j =
              ap (guard_of A Op run) (sym (put-same s.pc t (entered i))) ∙ rw (sym q) at e in
            inl (sym q, eq_of_some here)
        | no ne ↦
            let old : guard u ≡ some j =
              ap (guard_of A Op run) (sym (put-other s.pc t (entered i) u ne)) ∙ e in
            inr (ne, (λ q. ground (arith, inv.locked u j old, free)), old)
      ]

      pub win-Inv : Inv (record {
        locks = record { locks = set s.locks.locks i 1 };
        mem = s.mem;
        history = s.history;
        pc = moved (entered i);
      })
      unfolding guard_of
      win-Inv = record {
        width = length-set s.locks.locks i 1 ∙ inv.width;
        locked = λ u j e. elim (winner u j e) [
          | inl (_, q) ↦ word_after i 1 inside j ∙ ground arith
          | inr (_, ne, old) ↦ word_after i 1 inside j ∙ ground (arith, inv.locked u j old)
        ];
        unique = λ u x j e d. elim (winner u j e) [
          | inl (p, q) ↦ elim (winner x j d) [
            | inl (p', _) ↦ p ∙ sym p'
            | inr (_, ne, _) ↦ absurd (ne q)
          ]
          | inr (_, ne, old) ↦ elim (winner x j d) [
            | inl (_, q) ↦ absurd (ne q)
            | inr (_, _, old') ↦ inv.unique u x j old old'
          ]
        ];
        owned = λ j w e. elim (ℕ_discrete i j) [
          | yes q ↦
              let one : 1 ≡ w = eq_of_some (sym (word_after i 1 inside j ∙ ground arith) ∙ e) in
              inr (t, ap (guard_of A Op run) (put-same s.pc t (entered i)) ∙ ap some q, sym one)
          | no ne ↦
              let before : get_elem? s.locks.locks j ≡ some w =
                ground (arith, word_after i 1 inside j, e) in
              elim (inv.owned j w before) [
                | inl z ↦ inl z
                | inr (u, g, one) ↦
                    let other : t ≢ u = λ q. cc (no_guard, g, q) in
                    inr (u, ap (guard_of A Op run) (put-other s.pc t (entered i) u other) ∙ g, one)
              ]
        ];
        aims = λ u j e. elim (ℕ_discrete t u) [
          | yes q ↦ cc (put-same s.pc t (entered i), rw (sym q) at e)
          | no ne ↦ omega (
            arith,
            inv.aims u j (sym (put-other s.pc t (entered i) u ne) ∙ e),
            length-set s.locks.locks i 1,
          )
        ];
        current = λ u j a e. elim (ℕ_discrete t u) [
          | yes q ↦ cc (put-same s.pc t (entered i), rw (sym q) at e)
          | no ne ↦ inv.current u j a (sym (put-other s.pc t (entered i) u ne) ∙ e)
        ];
        made = inv.made;
      }

    module _ (i : ℕ) (at : s.pc t ≡ finished i) where
      has_guard : guard t ≡ some i
      unfolding guard_of
      has_guard = rw at

      held_inside : i < length s.locks.locks
      held_inside = lt_of_get_elem? s.locks.locks i (inv.locked t i has_guard)

      -- The other threads keep their guards, which are of other buckets.
      loser :
          (u j : ℕ)
          → guard_of A Op run (moved outside u) ≡ some j
          → (t ≢ u) × (i ≢ j) × (guard u ≡ some j)
      unfolding guard_of
      loser u j e = elim (ℕ_discrete t u) [
        | yes q ↦ cc (put-same s.pc t outside, rw (sym q) at e)
        | no ne ↦
            let old : guard u ≡ some j =
              ap (guard_of A Op run) (sym (put-other s.pc t outside u ne)) ∙ e in
            (ne, (λ q. ne (inv.unique t u j (has_guard ∙ ap some q) old)), old)
      ]

      pub drop-Inv : Inv (record {
        locks = record { locks = set s.locks.locks i 0 };
        mem = s.mem;
        history = s.history;
        pc = moved outside;
      })
      unfolding guard_of
      drop-Inv = record {
        width = length-set s.locks.locks i 0 ∙ inv.width;
        locked = λ u j e.
            let (_, ne, old) = loser u j e in
            word_after i 0 held_inside j ∙ ground (arith, inv.locked u j old);
        unique = λ u x j e d. inv.unique u x j (loser u j e).2 (loser x j d).2;
        owned = λ j w e. elim (ℕ_discrete i j) [
          | yes q ↦ inl (sym (eq_of_some (sym (word_after i 0 held_inside j ∙ ground arith) ∙ e)))
          | no ne ↦
              let before : get_elem? s.locks.locks j ≡ some w =
                ground (arith, word_after i 0 held_inside j, e) in
              elim (inv.owned j w before) [
                | inl z ↦ inl z
                | inr (u, g, one) ↦
                    let other : t ≢ u = λ q. ne (eq_of_some (sym has_guard ∙ rw (sym q) at g)) in
                    inr (u, ap (guard_of A Op run) (put-other s.pc t outside u other) ∙ g, one)
              ]
        ];
        aims = λ u j e. elim (ℕ_discrete t u) [
          | yes q ↦ cc (put-same s.pc t outside, rw (sym q) at e)
          | no ne ↦ omega (
            arith,
            inv.aims u j (sym (put-other s.pc t outside u ne) ∙ e),
            length-set s.locks.locks i 0,
          )
        ];
        current = λ u j a e. elim (ℕ_discrete t u) [
          | yes q ↦ cc (put-same s.pc t outside, rw (sym q) at e)
          | no ne ↦ inv.current u j a (sym (put-other s.pc t outside u ne) ∙ e)
        ];
        made = inv.made;
      }
