-- ===== src/Codec.antt =====
-- src/lib.rs: the traits `PulseKey` and `PulseValue` and their implementations for the numbers of fixed
-- width, `bool`, byte arrays and `Vec<u8>`; Codec.Utf8 has `String`. A number of an unsigned type is an ℕ below its bound.
-- `with_key_bytes` passes the bytes of `to_bytes`, also where it is overridden.
pub mod Errors
pub mod Utf8
pub mod Laws
use pulse_map.Base.{
  ℕ, zero, suc, ◌+◌, ◌-◌, ◌*◌, ◌^◌, ◌<◌, Bool, true, false, not, Option, none, some, List, [], ◌∷◌,
  ltb, ◌==◌, if◌then◌else◌, length, to_le_bytes, from_le_bytes,
}

pub record PulseKey {ℓ} (K : Type ℓ) : Type ℓ where
  pub to_bytes : K → List ℕ
  pub from_bytes : List ℕ → Option K

pub record PulseValue {ℓ} (V : Type ℓ) : Type ℓ where
  pub to_bytes : V → List ℕ
  pub from_bytes : List ℕ → Option V

-- `b.first().copied()`
unfoldable pub first : List ℕ → Option ℕ
first [] = none
first (b ∷ _) = some b

-- `b.try_into().ok()`, into an array of `n` bytes
unfoldable pub try_into : ℕ → List ℕ → Option (List ℕ)
try_into n b = if length b == n then some b else none

-- `b.try_into().ok().map(from_le_bytes)`
unfoldable pub unsigned_from : ℕ → List ℕ → Option ℕ
unfolding try_into
unsigned_from n b = elim (try_into n b) [ none ↦ none | some array ↦ some (from_le_bytes array) ]

unfoldable pub u8_key : PulseKey ℕ
unfolding first
u8_key = record { to_bytes = λ x. x ∷ []; from_bytes = first }

unfoldable pub u16_key : PulseKey ℕ
unfolding unsigned_from
u16_key = record { to_bytes = to_le_bytes 2; from_bytes = unsigned_from 2 }

unfoldable pub u32_key : PulseKey ℕ
unfolding unsigned_from
u32_key = record { to_bytes = to_le_bytes 4; from_bytes = unsigned_from 4 }

unfoldable pub u64_key : PulseKey ℕ
unfolding unsigned_from
u64_key = record { to_bytes = to_le_bytes 8; from_bytes = unsigned_from 8 }

-- A signed number: `pos n` is n, `negsuc n` is -(n + 1).
pub data ℤ : Type 0 where
  pos : ℕ → ℤ
  negsuc : ℕ → ℤ

-- Two's complement in `w` bits.
unfoldable pub to_bits : ℕ → ℤ → ℕ
to_bits w (pos n) = n
to_bits w (negsuc n) = 2 ^ w - 1 - n

unfoldable pub of_bits : ℕ → ℕ → ℤ
of_bits w x = if ltb (2 * x) (2 ^ w) then pos x else negsuc (2 ^ w - 1 - x)

-- `i32::from_le_bytes` and `i64::from_le_bytes` after `try_into`
unfoldable pub signed_from : ℕ → List ℕ → Option ℤ
unfolding unsigned_from of_bits
signed_from n b = elim (unsigned_from n b) [ none ↦ none | some x ↦ some (of_bits (8 * n) x) ]

unfoldable pub i32_key : PulseKey ℤ
unfolding to_bits signed_from
i32_key = record { to_bytes = λ x. to_le_bytes 4 (to_bits 32 x); from_bytes = signed_from 4 }

unfoldable pub i64_key : PulseKey ℤ
unfolding to_bits signed_from
i64_key = record { to_bytes = λ x. to_le_bytes 8 (to_bits 64 x); from_bytes = signed_from 8 }

-- `Vec<u8>`
unfoldable pub vec_key : PulseKey (List ℕ)
vec_key = record { to_bytes = λ b. b; from_bytes = λ b. some b }

-- `[u8; N]`, a list of that length
unfoldable pub array_key : ℕ → PulseKey (List ℕ)
unfolding try_into
array_key n = record { to_bytes = λ b. b; from_bytes = try_into n }

unfoldable pub u8_value : PulseValue ℕ
unfolding first
u8_value = record { to_bytes = λ x. x ∷ []; from_bytes = first }

unfoldable pub u16_value : PulseValue ℕ
unfolding unsigned_from
u16_value = record { to_bytes = to_le_bytes 2; from_bytes = unsigned_from 2 }

unfoldable pub u32_value : PulseValue ℕ
unfolding unsigned_from
u32_value = record { to_bytes = to_le_bytes 4; from_bytes = unsigned_from 4 }

unfoldable pub u64_value : PulseValue ℕ
unfolding unsigned_from
u64_value = record { to_bytes = to_le_bytes 8; from_bytes = unsigned_from 8 }

unfoldable pub i32_value : PulseValue ℤ
unfolding to_bits signed_from
i32_value = record { to_bytes = λ x. to_le_bytes 4 (to_bits 32 x); from_bytes = signed_from 4 }

unfoldable pub i64_value : PulseValue ℤ
unfolding to_bits signed_from
i64_value = record { to_bytes = λ x. to_le_bytes 8 (to_bits 64 x); from_bytes = signed_from 8 }

unfoldable pub vec_value : PulseValue (List ℕ)
vec_value = record { to_bytes = λ b. b; from_bytes = λ b. some b }

-- `b.first().map(|&v| v != 0)`
unfoldable pub bool_from : List ℕ → Option Bool
unfolding first
bool_from b = elim (first b) [ none ↦ none | some v ↦ some (not (v == 0)) ]

unfoldable pub bool_value : PulseValue Bool
unfolding bool_from
bool_value = record { to_bytes = λ x. (if x then 1 else 0) ∷ []; from_bytes = bool_from }
