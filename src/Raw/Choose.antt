-- ===== src/Raw/Choose.antt =====
-- Step 2 of `insert_internal`: which slot is chosen for a new key, and why.
use pulse_map.Base.{
  ℕ, zero, suc, ◌+◌, ◌*◌, ◌<◌, ◌≡◌, refl, sym, ap, ◌∙◌, arith, Option, none, some, length,
  get_elem?-of_lt, ◌>>=◌, Bool, true, false, if◌then◌else◌, Option-cases, Bool-cases, inl, inr,
  add64, subst,
}
use mathlib.Core.Bool.{false≢true}
use native.Mathlib.Decide.{ℕ_discrete}
use pulse_map.Bucket.Entries.{get_elem?-slot_of}
use pulse_map.Bucket.Fill.{vacated}
use pulse_map.Bucket.Refs.{is_occupied}
use pulse_map.Bucket.{Bucket}
use pulse_map.Meta.Policy.{Evicts, find_evict_target-some, find_evict_target-none}
use pulse_map.Meta.{is_full, get_state, find_evict_target}
use pulse_map.Raw.{
  PulseMapRaw, is_stale, is_expired, reusable_from, find_free_or_expired, evict, choose_slot,
}

module _ (m : PulseMapRaw) (k : ℕ) (b : Bucket) where
  -- A full slot whose entry is not expired.
  abbrev pub Busy : ℕ → Type 0
  Busy j = (is_occupied b j ≡ true) × (is_expired m k j ≡ some false)

  -- Why a slot is chosen: it is the first that is free or expired, or all are busy and it has the least
  -- priority.
  pub data Choice (t : ℕ) : Type 0 where
    vacant : is_occupied b t ≡ false → ((j : ℕ) → j < t → Busy j) → Choice t
    expired :
        is_occupied b t ≡ true
        → is_expired m k t ≡ some true
        → ((j : ℕ) → j < t → Busy j)
        → Choice t
    victim : ((j : ℕ) → j < 4 → Busy j) → Evicts b.meta t → Choice t

  -- The answer of `find_free_or_expired`.
  Reuses : Option ℕ → Type 0
  Reuses none = (j : ℕ) → j < 4 → Busy j
  Reuses (some t) = (t < 4) × Choice t

  module _ (inside : (j : ℕ) → j < 4 → k * 4 + j < length m.slots_ttl) where
    expired_test : (j : ℕ) → j < 4 → (x : Bool) × (is_expired m k j ≡ some x)
    unfolding is_expired
    expired_test j bj =
        let (entry, e) = get_elem?-of_lt m.slots_ttl (k * 4 + j) (inside j bj) in
        (is_stale m.default_ttl m.current_epoch entry, rw (e, ◌>>=◌))

    reusable-Reuses :
        (left i : ℕ)
        → i + left ≡ 4
        → ((j : ℕ) → j < i → Busy j)
        → (r : Option ℕ) × (reusable_from left i m k b ≡ some r) × Reuses r
    unfolding reusable_from Reuses is_occupied
    reusable-Reuses zero i e busy = (none, refl, λ j bj. busy j (omega arith))
    reusable-Reuses (suc left) i e busy = elim (Bool-cases (is_full (get_state b.meta i))) [
      | inr f ↦ (some i, rw (reusable_from, f), (omega arith, vacant f busy))
      | inl f ↦
          let (x, test) = expired_test i (omega arith) in
          elim (Bool-cases x) [
            | inl p ↦
                let now : is_expired m k i ≡ some true = test ∙ ap some p in
                (some i, rw (reusable_from, f, now), (omega arith, expired f now busy))
            | inr p ↦
                let now : is_expired m k i ≡ some false = test ∙ ap some p in
                let (r, runs, reuses) =
                  reusable-Reuses left (i + 1) (omega arith) (more i f now busy) in
                (r, rw (reusable_from, f, now) runs, reuses)
          ]
    ]
      where
        more :
            (i : ℕ)
            → is_occupied b i ≡ true
            → is_expired m k i ≡ some false
            → ((j : ℕ) → j < i → Busy j)
            → (j : ℕ) → j < i + 1
            → Busy j
        more i f now busy j bj = elim (ℕ_discrete j i) [
          | yes e ↦ subst Busy (sym e) (f, now)
          | no ne ↦ busy j (omega arith)
        ]

    -- The map once slot `t` has been made free.
    abbrev pub emptied : ℕ → PulseMapRaw
    emptied t = record m {
      slab_pool = vacated m.slab_pool b t;
      eviction_count = if is_occupied b t then add64 m.eviction_count 1 else m.eviction_count;
    }

    module _ (four : length b.slots ≡ 4) where
      -- The slot in the answer, with the map that has it free.
      Answers : ℕ → Type 0
      Answers t = choose_slot m k b ≡ some (some (t, is_occupied b t, emptied t))

      evicts : (t : ℕ) → t < 4 → is_occupied b t ≡ true → evict m b t ≡ some (emptied t)
      unfolding evict
      evicts t bt occ = rw (get_elem?-slot_of b t four bt, ◌>>=◌, occ)

      reused : (t : ℕ) → reusable_from 4 0 m k b ≡ some (some t) → t < 4 → Answers t
      unfolding choose_slot find_free_or_expired Answers
      reused t runs bt = elim (Bool-cases (is_occupied b t)) [
        | inl occ ↦
            let full : is_full (get_state b.meta t) ≡ true = unfold is_occupied in occ in
            rw (runs, ◌>>=◌, full, evicts t bt occ, occ)
        | inr vac ↦
            let free : is_full (get_state b.meta t) ≡ false = unfold is_occupied in vac in
            rw (runs, ◌>>=◌, free, vac)
      ]

      replaced :
          (t : ℕ)
          → reusable_from 4 0 m k b ≡ some none
          → find_evict_target b.meta ≡ some t
          → Evicts b.meta t
          → Answers t
      unfolding choose_slot find_free_or_expired Answers
      replaced t runs e p =
          let occ : is_occupied b t ≡ true = unfold is_occupied in p.occupied in
          rw (runs, ◌>>=◌, e, evicts t p.below occ, occ)

      chosen_slot :
          (r : Option ℕ)
          → reusable_from 4 0 m k b ≡ some r
          → Reuses r
          → (t : ℕ) × (t < 4) × Choice t × Answers t
      unfolding Reuses
      chosen_slot (some t) runs (bt, choice) = (t, bt, choice, reused t runs bt)
      chosen_slot none runs busy = elim (Option-cases (find_evict_target b.meta)) [
        | inl e ↦
            absurd
              (false≢true (sym (find_evict_target-none b.meta e 0 (omega arith)) ∙ full_first busy))
        | inr (t, e) ↦
            let p = find_evict_target-some b.meta e in
            (t, p.below, victim busy p, replaced t runs e p)
      ]
        where
          full_first : ((j : ℕ) → j < 4 → Busy j) → is_full (get_state b.meta 0) ≡ true
          full_first busy = unfold is_occupied in (busy 0 (omega arith)).0

      -- A slot is always found: the early return of step 2 is never taken.
      pub choose_slot_lem :
          (t : ℕ) × (t < 4)
          × Choice t
          × (choose_slot m k b ≡ some (some (t, is_occupied b t, emptied t)))
      unfolding Answers
      choose_slot_lem =
          let (r, runs, reuses) = reusable-Reuses 4 0 refl (λ j bj. absurd (omega arith)) in
          chosen_slot r runs reuses
