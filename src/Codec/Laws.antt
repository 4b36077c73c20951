-- ===== src/Codec/Laws.antt =====
-- What is written as bytes is read back.
use pulse_map.Base.{
  ℕ, ◌+◌, ◌*◌, ◌^◌, ◌<◌, ◌≡◌, refl, ap, arith, Bool, true, false, Option, some, List, ◌==◌, length,
  to_le_bytes, length-to_le_bytes, from_le_bytes-to_le_bytes,
}
use native.Mathlib.Nat.{pow-suc, one-le-pow}
use pulse_map.Codec.{
  first, try_into, unsigned_from, ℤ, pos, negsuc, to_bits, of_bits, signed_from, u8_key, u16_key,
  u32_key, u64_key, i32_key, i64_key, vec_key, array_key, bool_from, bool_value,
}

-- An unsigned number of `n` bytes.
pub unsigned_from-to_le_bytes : (n x : ℕ) → x < 256 ^ n → unsigned_from n (to_le_bytes n x) ≡ some x
unfolding unsigned_from try_into
unsigned_from-to_le_bytes n x small =
    let same : (length (to_le_bytes n x) == n) ≡ true = ground (arith, length-to_le_bytes n x) in
    rw (unsigned_from, try_into, same) (ap some (from_le_bytes-to_le_bytes n x small))

-- A signed number that `w` bits hold.
abbrev pub InRange : ℕ → ℤ → Type 0
InRange w (pos n) = 2 * n < 2 ^ w
InRange w (negsuc n) = 2 * n < 2 ^ w

of_bits-to_bits : (w : ℕ) (x : ℤ) → InRange (1 + w) x → of_bits (1 + w) (to_bits (1 + w) x) ≡ x
unfolding of_bits to_bits
of_bits-to_bits w (pos n) small = ground arith
of_bits-to_bits w (negsuc n) small = ground (arith, pow-suc 2 w)

to_bits-lt : (w : ℕ) (x : ℤ) → InRange (1 + w) x → to_bits (1 + w) x < 2 ^ (1 + w)
unfolding to_bits
to_bits-lt w (pos n) small = omega arith
to_bits-lt w (negsuc n) small = omega (arith, one-le-pow (1 + w) 2)

pub signed_from-to_le_bytes :
    (n w : ℕ) (x : ℤ)
    → 8 * n ≡ 1 + w
    → 256 ^ n ≡ 2 ^ (1 + w)
    → InRange (1 + w) x
    → signed_from n (to_le_bytes n (to_bits (1 + w) x)) ≡ some x
unfolding signed_from
signed_from-to_le_bytes n w x e size small =
    rw
      (
        signed_from,
        unsigned_from-to_le_bytes n (to_bits (1 + w) x) (omega (arith, size, to_bits-lt w x small)),
        e,
      )
      (ap some (of_bits-to_bits w x small))

bool_round_trip : (x : Bool) → bool_value.from_bytes (bool_value.to_bytes x) ≡ some x
unfolding bool_value bool_from first
bool_round_trip true = refl
bool_round_trip false = refl

-- What a codec writes for a value of its type, it reads back.
pub record RoundTrips {ℓ} {A : Type ℓ} (to_bytes : A → List ℕ) (from_bytes : List ℕ → Option A)
    (InType : A → Type 0) : Type ℓ where
  pub reads : (x : A) → InType x → from_bytes (to_bytes x) ≡ some x

-- Each key type reads back what it writes: the unsigned numbers of 8, 16, 32 and 64 bits, the signed ones of
-- 32 and 64 bits, byte arrays and vectors. So does `bool` as a value.
pub round_trips :
    RoundTrips u8_key.to_bytes u8_key.from_bytes (λ x. x < 2 ^ 8)
    × RoundTrips u16_key.to_bytes u16_key.from_bytes (λ x. x < 2 ^ 16)
    × RoundTrips u32_key.to_bytes u32_key.from_bytes (λ x. x < 2 ^ 32)
    × RoundTrips u64_key.to_bytes u64_key.from_bytes (λ x. x < 2 ^ 64)
    × RoundTrips i32_key.to_bytes i32_key.from_bytes (InRange 32)
    × RoundTrips i64_key.to_bytes i64_key.from_bytes (InRange 64)
    × RoundTrips vec_key.to_bytes vec_key.from_bytes (λ _. Unit)
    × ((n : ℕ) → RoundTrips (array_key n).to_bytes (array_key n).from_bytes (λ b. length b ≡ n))
    × RoundTrips bool_value.to_bytes bool_value.from_bytes (λ _. Unit)
unfolding u8_key u16_key u32_key u64_key i32_key i64_key vec_key array_key bool_value first try_into
round_trips = (
  record { reads = λ x _. refl },
  record { reads = λ x small. unsigned_from-to_le_bytes 2 x small },
  record { reads = λ x small. unsigned_from-to_le_bytes 4 x small },
  record { reads = λ x small. unsigned_from-to_le_bytes 8 x small },
  record { reads = λ x small. signed_from-to_le_bytes 4 31 x refl refl small },
  record { reads = λ x small. signed_from-to_le_bytes 8 63 x refl refl small },
  record { reads = λ x _. refl },
  (λ n. record { reads = λ b e. ground arith }),
  record { reads = λ x _. bool_round_trip x },
)
