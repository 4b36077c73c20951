-- ===== src/Meta/Policy.antt =====
-- `find_free_slot` and `find_evict_target`: which slot they choose.
use pulse_map.Base.{
  ℕ, zero, suc, ◌+◌, ◌≤◌, ◌<◌, ◌≡◌, refl, arith, Option, none, some, Bool, true, false, below_four,
  subst, if◌then◌else◌,
}
use native.Mathlib.Nat.{add-zero}
use pulse_map.Meta.{
  SlotState, full, is_full, get_state, get_priority, find_free_slot, improves, evict_from,
  find_evict_target,
}

shift : (i left : ℕ) → i + suc left ≡ i + 1 + left
shift i left = omega arith

pub is_full→eq : (s : SlotState) → is_full s ≡ true → s ≡ full
unfolding is_full
is_full→eq s h = ground arith

pub is_full-full : is_full full ≡ true
unfolding is_full
is_full-full = refl

-- The answer of `find_free_slot`: the first slot that is not full, if there is one.
pub record Frees (v i : ℕ) : Type 0 where
  pub below : i < 4
  pub free : is_full (get_state v i) ≡ false
  pub first : (j : ℕ) → j < i → is_full (get_state v j) ≡ true

-- The slot that `find_free_slot` answers is not full, and every slot before it is.
pub find_free_slot-some : (v : ℕ) {i : ℕ} → find_free_slot v ≡ some i → Frees v i
unfolding find_free_slot
find_free_slot-some v {i} h = record {
  below = ground arith;
  free = ground arith;
  first = λ j hj.
      below_four (λ j. j < i → is_full (get_state v j) ≡ true) (λ g. ground arith)
        (λ g. ground arith) (λ g. ground arith) (λ g. ground arith) j (ground arith) hj;
}

pub find_free_slot-none :
    (v : ℕ) → find_free_slot v ≡ none → (j : ℕ) → j < 4 → is_full (get_state v j) ≡ true
unfolding find_free_slot
find_free_slot-none v h =
    below_four (λ j. is_full (get_state v j) ≡ true) (ground arith) (ground arith) (ground arith)
      (ground arith)

-- What the loop of `find_evict_target` knows before round `i`.
abbrev Best : ℕ → ℕ → ℕ → Option ℕ → Type 0
Best v i min_prio none = (j : ℕ) → j < i → is_full (get_state v j) ≡ false
Best v i min_prio (some s) =
    (s < i)
    × (is_full (get_state v s) ≡ true)
    × (get_priority v s ≡ min_prio)
    × ((j : ℕ) → j < i → is_full (get_state v j) ≡ true → min_prio ≤ get_priority v j)
    × ((j : ℕ) → j < s → is_full (get_state v j) ≡ true → min_prio < get_priority v j)

-- One round of the loop.
round-Best :
    (i v min_prio : ℕ) (min_slot : Option ℕ) (better : Bool)
    → better
      ≡ (if is_full (get_state v i) then improves min_slot min_prio (get_priority v i) else false)
    → Best v i min_prio min_slot
    → Best v
        (i + 1)
        (if better then get_priority v i else min_prio)
        (if better then some i else min_slot)
unfolding improves
round-Best i v min_prio none true e h = (
  omega arith,
  ground arith,
  refl,
  (λ j hj hf. ground (arith, h j)),
  (λ j hj hf. ground (arith, h j)),
)
round-Best i v min_prio none false e h = λ j hj. ground (arith, h j)
round-Best i v min_prio (some s) true e h = (
  omega arith,
  ground arith,
  refl,
  (λ j hj hf. ground (arith, h.3 j)),
  (λ j hj hf. ground (arith, h.3 j)),
)
round-Best i v min_prio (some s) false e h =
    (omega arith, h.1, h.2, (λ j hj hf. ground (arith, h.3 j)), h.4)

evict_from-Best :
    (left i v min_prio : ℕ) (min_slot : Option ℕ)
    → Best v i min_prio min_slot
    → (p : ℕ) × Best v (i + left) p (evict_from left i v min_prio min_slot)
unfolding evict_from
evict_from-Best zero i v min_prio min_slot h = (min_prio, rw add-zero h)
evict_from-Best (suc left) i v min_prio min_slot h =
    rw (shift i left)
      (evict_from-Best left (i + 1) v _ _ (round-Best i v min_prio min_slot _ refl h))

-- The answer of `find_evict_target`: the first full slot of the least priority.
pub record Evicts (v i : ℕ) : Type 0 where
  pub below : i < 4
  pub occupied : is_full (get_state v i) ≡ true
  pub least : (j : ℕ) → j < 4 → is_full (get_state v j) ≡ true → get_priority v i ≤ get_priority v j
  pub first : (j : ℕ) → j < i → is_full (get_state v j) ≡ true → get_priority v i < get_priority v j

Best→Evicts : (v p : ℕ) (r : Option ℕ) {i : ℕ} → Best v 4 p r → r ≡ some i → Evicts v i
Best→Evicts v p none h e = cc
Best→Evicts v p (some s) {i} h e =
    let same : s ≡ i = cc in
    subst (Evicts v) same
      (record { below = h.0; occupied = h.1; least = rw h.2 h.3; first = rw h.2 h.4 })

-- The slot that `find_evict_target` answers is full, no full slot has a lesser priority, and each full slot
-- before it has a greater one.
pub find_evict_target-some : (v : ℕ) {i : ℕ} → find_evict_target v ≡ some i → Evicts v i
unfolding find_evict_target
find_evict_target-some v h =
    let (p, b) = evict_from-Best 4 0 v 0xFF none (λ j hj. absurd (omega arith)) in
    Best→Evicts v p _ b h

Best→none :
    (v p : ℕ) (r : Option ℕ)
    → Best v 4 p r
    → r ≡ none
    → (j : ℕ) → j < 4
    → is_full (get_state v j) ≡ false
Best→none v p none h e = h
Best→none v p (some s) h e = cc

pub find_evict_target-none :
    (v : ℕ) → find_evict_target v ≡ none → (j : ℕ) → j < 4 → is_full (get_state v j) ≡ false
unfolding find_evict_target
find_evict_target-none v h =
    let (p, b) = evict_from-Best 4 0 v 0xFF none (λ j hj. absurd (omega arith)) in
    Best→none v p _ b h
