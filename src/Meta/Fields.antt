-- ===== src/Meta/Fields.antt =====
-- A metadata word as twelve numbers: what each writer computes, in arithmetic.
use pulse_map.Base.{
  ℕ, ◌+◌, ◌*◌, ◌/◌, ◌%◌, ◌^◌, ◌<◌, ◌≡◌, refl, ap, ap₂, ◌∙◌, arith, below_four, fields, low_mask,
  complement, ◌<<<◌, bit_and, bit_or, bit_and_mask, replace_field,
}
use pulse_map.Meta.{
  SlotState, empty, full, tombstone, state_bits, write_bits, set_state, set_h2, set_priority,
  state_shift, h2_shift, prio_shift,
}

abbrev pub IsWord : ℕ → Type 0
IsWord v = v < 2 ^ 64

-- `v` with the field of `w` bits at bit `s` replaced by `x`.
abbrev pub replaced : ℕ → ℕ → ℕ → ℕ → ℕ
replaced s w v x = fields s w (v / 2 ^ s / 2 ^ w) x (v % 2 ^ s)

-- What `write_bits` computes, from facts that hold by evaluation at each of the twelve positions.
write_bits-replaced :
    (s w h v mask x : ℕ)
    → x < 2 ^ w
    → v / 2 ^ s / 2 ^ w < 2 ^ h
    → v / 2 ^ s % 2 ^ w < 2 ^ w
    → v % 2 ^ s < 2 ^ s
    → v ≡ replaced s w v (v / 2 ^ s % 2 ^ w)
    → complement (mask <<< s) ≡ fields s w (low_mask h) 0 (low_mask s)
    → x <<< s ≡ fields s w 0 x 0
    → write_bits v s mask x ≡ replaced s w v x
unfolding write_bits
write_bits-replaced s w h v mask x hx hh hf hl cut holes here =
    let whole = replaced s w v (v / 2 ^ s % 2 ^ w) in
    ap (λ t. bit_or (bit_and t (complement (mask <<< s))) (x <<< s)) cut
    ∙ ap₂ (λ c y. bit_or (bit_and whole c) y) holes here
    ∙ replace_field s w h (v / 2 ^ s / 2 ^ w) (v / 2 ^ s % 2 ^ w) (v % 2 ^ s) x hh hf hx hl

state_bits-lt : (st : SlotState) → state_bits st < 2 ^ 2
unfolding state_bits
state_bits-lt empty = omega arith
state_bits-lt full = omega arith
state_bits-lt tombstone = omega arith

module _ (v x : ℕ) (word : IsWord v) (fits : x < 2 ^ 2) where
  write_state : (i : ℕ) → i < 4 → write_bits v (state_shift i) 0x03 x ≡ replaced (56 + i * 2) 2 v x
  unfolding state_shift
  write_state =
      below_four (λ i. write_bits v (state_shift i) 0x03 x ≡ replaced (56 + i * 2) 2 v x)
        (write_bits-replaced 56 2 6 v 0x03 x fits (omega arith) (omega arith) (omega arith)
          (omega arith) refl (omega arith))
        (write_bits-replaced 58 2 4 v 0x03 x fits (omega arith) (omega arith) (omega arith)
          (omega arith) refl (omega arith))
        (write_bits-replaced 60 2 2 v 0x03 x fits (omega arith) (omega arith) (omega arith)
          (omega arith) refl (omega arith))
        (write_bits-replaced 62 2 0 v 0x03 x fits (omega arith) (omega arith) (omega arith)
          (omega arith) refl (omega arith))

module _ (v x : ℕ) (word : IsWord v) (fits : x < 2 ^ 7) where
  write_h2 : (i : ℕ) → i < 4 → write_bits v (h2_shift i) 0x7F x ≡ replaced (28 + i * 7) 7 v x
  unfolding h2_shift
  write_h2 =
      below_four (λ i. write_bits v (h2_shift i) 0x7F x ≡ replaced (28 + i * 7) 7 v x)
        (write_bits-replaced 28 7 29 v 0x7F x fits (omega arith) (omega arith) (omega arith)
          (omega arith) refl (omega arith))
        (write_bits-replaced 35 7 22 v 0x7F x fits (omega arith) (omega arith) (omega arith)
          (omega arith) refl (omega arith))
        (write_bits-replaced 42 7 15 v 0x7F x fits (omega arith) (omega arith) (omega arith)
          (omega arith) refl (omega arith))
        (write_bits-replaced 49 7 8 v 0x7F x fits (omega arith) (omega arith) (omega arith)
          (omega arith) refl (omega arith))

module _ (v x : ℕ) (word : IsWord v) (fits : x < 2 ^ 7) where
  write_prio : (i : ℕ) → i < 4 → write_bits v (prio_shift i) 0x7F x ≡ replaced (0 + i * 7) 7 v x
  unfolding prio_shift
  write_prio =
      below_four (λ i. write_bits v (prio_shift i) 0x7F x ≡ replaced (0 + i * 7) 7 v x)
        (write_bits-replaced 0 7 57 v 0x7F x fits (omega arith) (omega arith) (omega arith)
          (omega arith) refl (omega arith))
        (write_bits-replaced 7 7 50 v 0x7F x fits (omega arith) (omega arith) (omega arith)
          (omega arith) refl (omega arith))
        (write_bits-replaced 14 7 43 v 0x7F x fits (omega arith) (omega arith) (omega arith)
          (omega arith) refl (omega arith))
        (write_bits-replaced 21 7 36 v 0x7F x fits (omega arith) (omega arith) (omega arith)
          (omega arith) refl (omega arith))

-- The writers, for a slot index below four.
module _ {v : ℕ} (word : IsWord v) {i : ℕ} (below : i < 4) where
  pub set_state-replaced :
      (st : SlotState) → set_state v i st ≡ replaced (56 + i * 2) 2 v (state_bits st)
  unfolding set_state
  set_state-replaced st = write_state v (state_bits st) word (state_bits-lt st) i below

  pub set_h2-replaced : (h2 : ℕ) → set_h2 v i h2 ≡ replaced (28 + i * 7) 7 v (h2 % 128)
  unfolding set_h2
  set_h2-replaced h2 = rw (bit_and_mask 7 h2) (write_h2 v (h2 % 128) word (omega arith) i below)

  pub set_priority-replaced :
      (prio : ℕ) → set_priority v i prio ≡ replaced (0 + i * 7) 7 v (prio % 128)
  unfolding set_priority
  set_priority-replaced prio =
      rw (bit_and_mask 7 prio) (write_prio v (prio % 128) word (omega arith) i below)
