-- ===== src/Probe.antt =====
-- The probe loop that src/raw.rs and src/sync.rs share: `while m != 0 { .. }` over a match mask.
pub mod Laws
use pulse_map.Base.{
  ℕ, zero, suc, ◌+◌, ◌-◌, ◌/◌, ◌%◌, Bool, true, false, Option, none, some, bit_and, ◌==◌,
  if◌then◌else◌,
}

-- `trailing_zeros` of a `u8`, with the bits left.
unfoldable pub zeros_from : ℕ → ℕ → ℕ
zeros_from zero m = 0
zeros_from (suc bits) m = if m % 2 == 1 then 0 else suc (zeros_from bits (m / 2))

unfoldable pub trailing_zeros : ℕ → ℕ
unfolding zeros_from
trailing_zeros m = zeros_from 8 m

-- The loop. `hit` is the test of a slot, which may panic. A `u8` has eight bits and each round clears
-- one, so that eight rounds are enough.
unfoldable pub probe_from : ℕ → ℕ → (ℕ → Option Bool) → Option (Option ℕ)
unfolding trailing_zeros
probe_from zero m hit = some none
probe_from (suc rounds) m hit = elim (m == 0) [
  | true ↦ some none
  | false ↦
      let slot = trailing_zeros m in
      elim (hit slot) [
        | none ↦ none
        | some true ↦ some (some slot)
        | some false ↦ probe_from rounds (bit_and m (m - 1)) hit
      ]
]

unfoldable pub probe : ℕ → (ℕ → Option Bool) → Option (Option ℕ)
unfolding probe_from
probe mask hit = probe_from 8 mask hit
