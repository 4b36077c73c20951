-- ===== src/Meta/Laws.antt =====
-- A reader after a writer: the twelve fields of a metadata word are independent.
use pulse_map.Base.{
  ℕ, ◌+◌, ◌*◌, ◌/◌, ◌%◌, ◌^◌, ◌<◌, ◌≡◌, refl, ap, arith, bit_and_mask, ◌==◌, if◌then◌else◌,
}
use native.Mathlib.Nat.{zero-add}
use pulse_map.Meta.{
  SlotState, empty, full, tombstone, state_bits, from_bits, get_state, set_state, get_h2, set_h2,
  get_priority, set_priority,
}
use pulse_map.Meta.Fields.{IsWord, set_state-replaced, set_h2-replaced, set_priority-replaced}
use pulse_map.Meta.Positions.{
  IsWord-state, IsWord-h2, IsWord-prio, state_after_state, state_after_h2, state_after_prio,
  h2_after_state, h2_after_h2, h2_after_prio, prio_after_state, prio_after_h2, prio_after_prio,
}

from_bits-state_bits : (st : SlotState) → from_bits (state_bits st) ≡ st
unfolding from_bits state_bits
from_bits-state_bits empty = refl
from_bits-state_bits full = refl
from_bits-state_bits tombstone = refl

state_bits-lt : (st : SlotState) → state_bits st < 2 ^ 2
unfolding state_bits
state_bits-lt empty = omega arith
state_bits-lt full = omega arith
state_bits-lt tombstone = omega arith

-- The readers in arithmetic.
pub get_state-field : (v j : ℕ) → get_state v j ≡ from_bits (v / 2 ^ (56 + j * 2) % 2 ^ 2)
unfolding get_state
get_state-field v j = ap from_bits (bit_and_mask 2 (v / 2 ^ (56 + j * 2)))

pub get_h2-field : (v j : ℕ) → get_h2 v j ≡ v / 2 ^ (28 + j * 7) % 2 ^ 7
unfolding get_h2
get_h2-field v j = bit_and_mask 7 (v / 2 ^ (28 + j * 7))

pub get_priority-field : (v j : ℕ) → get_priority v j ≡ v / 2 ^ (0 + j * 7) % 2 ^ 7
unfolding get_priority
get_priority-field v j = rw zero-add (bit_and_mask 7 (v / 2 ^ (j * 7)))

pub get_h2-lt : (v j : ℕ) → get_h2 v j < 128
get_h2-lt v j = omega (arith, get_h2-field v j)

pub get_priority-lt : (v j : ℕ) → get_priority v j < 128
get_priority-lt v j = omega (arith, get_priority-field v j)

-- Every writer keeps the word, sets its own field of its own slot and leaves all else alone.
module _ {v : ℕ} (word : IsWord v) {i : ℕ} (bi : i < 4) where
  pub set_state-IsWord : (st : SlotState) → IsWord (set_state v i st)
  set_state-IsWord st =
      rw (set_state-replaced word bi st)
        (IsWord-state v (state_bits st) word (state_bits-lt st) i bi)

  pub get_state-set_state :
      (st : SlotState) {j : ℕ}
      → j < 4
      → get_state (set_state v i st) j ≡ (if i == j then st else get_state v j)
  get_state-set_state st {j} bj =
      rw
        (
          get_state-field (set_state v i st) j,
          get_state-field v j,
          set_state-replaced word bi st,
          state_after_state v (state_bits st) word (state_bits-lt st) i bi j bj,
        )
        (ground (arith, from_bits-state_bits st))

  pub get_h2-set_state : (st : SlotState) {j : ℕ} → j < 4 → get_h2 (set_state v i st) j ≡ get_h2 v j
  get_h2-set_state st {j} bj = rw (
    get_h2-field (set_state v i st) j,
    get_h2-field v j,
    set_state-replaced word bi st,
    h2_after_state v (state_bits st) word (state_bits-lt st) i bi j bj,
  )

  pub get_priority-set_state :
      (st : SlotState) {j : ℕ} → j < 4 → get_priority (set_state v i st) j ≡ get_priority v j
  get_priority-set_state st {j} bj = rw (
    get_priority-field (set_state v i st) j,
    get_priority-field v j,
    set_state-replaced word bi st,
    prio_after_state v (state_bits st) word (state_bits-lt st) i bi j bj,
  )

  pub set_h2-IsWord : (h2 : ℕ) → IsWord (set_h2 v i h2)
  set_h2-IsWord h2 =
      rw (set_h2-replaced word bi h2) (IsWord-h2 v (h2 % 128) word (omega arith) i bi)

  pub get_state-set_h2 : (h2 : ℕ) {j : ℕ} → j < 4 → get_state (set_h2 v i h2) j ≡ get_state v j
  get_state-set_h2 h2 {j} bj = rw (
    get_state-field (set_h2 v i h2) j,
    get_state-field v j,
    set_h2-replaced word bi h2,
    state_after_h2 v (h2 % 128) word (omega arith) i bi j bj,
  )

  pub get_h2-set_h2 :
      (h2 : ℕ) {j : ℕ}
      → j < 4
      → get_h2 (set_h2 v i h2) j ≡ (if i == j then h2 % 128 else get_h2 v j)
  get_h2-set_h2 h2 {j} bj = rw (
    get_h2-field (set_h2 v i h2) j,
    get_h2-field v j,
    set_h2-replaced word bi h2,
    h2_after_h2 v (h2 % 128) word (omega arith) i bi j bj,
  )

  pub get_priority-set_h2 :
      (h2 : ℕ) {j : ℕ} → j < 4 → get_priority (set_h2 v i h2) j ≡ get_priority v j
  get_priority-set_h2 h2 {j} bj = rw (
    get_priority-field (set_h2 v i h2) j,
    get_priority-field v j,
    set_h2-replaced word bi h2,
    prio_after_h2 v (h2 % 128) word (omega arith) i bi j bj,
  )

  pub set_priority-IsWord : (prio : ℕ) → IsWord (set_priority v i prio)
  set_priority-IsWord prio =
      rw (set_priority-replaced word bi prio) (IsWord-prio v (prio % 128) word (omega arith) i bi)

  pub get_state-set_priority :
      (prio : ℕ) {j : ℕ} → j < 4 → get_state (set_priority v i prio) j ≡ get_state v j
  get_state-set_priority prio {j} bj = rw (
    get_state-field (set_priority v i prio) j,
    get_state-field v j,
    set_priority-replaced word bi prio,
    state_after_prio v (prio % 128) word (omega arith) i bi j bj,
  )

  pub get_h2-set_priority :
      (prio : ℕ) {j : ℕ} → j < 4 → get_h2 (set_priority v i prio) j ≡ get_h2 v j
  get_h2-set_priority prio {j} bj = rw (
    get_h2-field (set_priority v i prio) j,
    get_h2-field v j,
    set_priority-replaced word bi prio,
    h2_after_prio v (prio % 128) word (omega arith) i bi j bj,
  )

  pub get_priority-set_priority :
      (prio : ℕ) {j : ℕ}
      → j < 4
      → get_priority (set_priority v i prio) j ≡ (if i == j then prio % 128 else get_priority v j)
  get_priority-set_priority prio {j} bj = rw (
    get_priority-field (set_priority v i prio) j,
    get_priority-field v j,
    set_priority-replaced word bi prio,
    prio_after_prio v (prio % 128) word (omega arith) i bi j bj,
  )
