-- ===== src/Codec/Errors.antt =====
-- Which bytes are read as a value, and which are refused.
use pulse_map.Base.{
  ℕ, ◌+◌, ◌*◌, ◌^◌, ◌<◌, ◌≡◌, ◌↔◌, refl, sym, ap, ◌∙◌, arith, Bool, true, false, not, Bool-cases,
  inl, inr, Option, Option-cases, none, some, List, [], ◌∷◌, ◌++◌, ◌==◌, length, eq_of_some,
  to_le_bytes, from_le_bytes, ltb, IsBytes, to_le_bytes-from_le_bytes, subst,
}
use native.Mathlib.Decide.{ℕ_discrete}
use native.Mathlib.Nat.{pow-suc}
use pulse_map.Codec.Laws.{InRange, unsigned_from-to_le_bytes, signed_from-to_le_bytes}
use pulse_map.Codec.Utf8.Laws.{AllChars}
use pulse_map.Codec.Utf8.Sound.{from_utf8_iff}
use pulse_map.Codec.Utf8.{string_key, string_value, as_bytes, from_utf8}
use pulse_map.Codec.{
  first, try_into, unsigned_from, ℤ, to_bits, of_bits, signed_from, u8_key, u16_key, u32_key,
  u64_key, i32_key, i64_key, vec_key, array_key, bool_from, bool_value, u8_value, u16_value,
  u32_value, u64_value, i32_value, i64_value, vec_value,
}

-- Bytes are read as a value exactly if it is of the type and they are what is written for it.
abbrev pub ReadsWritten {ℓ} :
    {A : Type ℓ} → (A → List ℕ) → (List ℕ → Option A) → (A → Type 0) → Type ℓ
ReadsWritten to_bytes from_bytes InType =
    (b : List ℕ) → IsBytes b → (x : _) → (from_bytes b ≡ some x) ↔ (InType x × (b ≡ to_bytes x))

-- They are read as a value exactly if it is of the type and they begin with what is written for it.
abbrev pub ReadsFirst {ℓ} :
    {A : Type ℓ} → (A → List ℕ) → (List ℕ → Option A) → (A → Type 0) → Type ℓ
ReadsFirst to_bytes from_bytes InType =
    (b : List ℕ)
    → IsBytes b
    → (x : _) → (from_bytes b ≡ some x) ↔ (InType x × (rest : List ℕ) × (b ≡ to_bytes x ++ rest))

from_le_bytes-lt : (bs : List ℕ) → IsBytes bs → from_le_bytes bs < 256 ^ length bs
unfolding from_le_bytes
from_le_bytes-lt [] h = omega arith
from_le_bytes-lt (b ∷ bs) h = omega (arith, h.0, from_le_bytes-lt bs h.1, pow-suc 256 (length bs))

try_into_inv : (n : ℕ) (b array : List ℕ) → try_into n b ≡ some array → (length b ≡ n) × (b ≡ array)
unfolding try_into
try_into_inv n b array e = elim (Bool-cases (length b == n)) [
  | inl same ↦ (ground (arith, same), eq_of_some (sym (rw same) ∙ e))
  | inr other ↦ let never : none ≡ some array = sym (rw other) ∙ e in cc
]

-- An unsigned number of `n` bytes.
unsigned_from_inv :
    (n : ℕ) (b : List ℕ)
    → IsBytes b
    → (x : ℕ) → unsigned_from n b ≡ some x
    → (x < 256 ^ n) × (b ≡ to_le_bytes n x)
unfolding unsigned_from
unsigned_from_inv n b bytes x e = elim (Option-cases (try_into n b)) [
  | inl wrong ↦ let never : none ≡ some x = sym (rw (unsigned_from, wrong)) ∙ e in cc
  | inr (array, taken) ↦
      let (size, same) = try_into_inv n b array taken in
      let number : from_le_bytes b ≡ x =
        ap from_le_bytes same ∙ eq_of_some (sym (rw (unsigned_from, taken)) ∙ e) in
      let small = from_le_bytes-lt b bytes in
      (
        rw (sym number, sym size) small,
        rw (sym number, sym size) (sym (to_le_bytes-from_le_bytes b bytes)),
      )
]

-- A signed number of `n` bytes, in two's complement.
of_bits_inv :
    (w x : ℕ)
    → x < 2 ^ (1 + w)
    → InRange (1 + w) (of_bits (1 + w) x) × (to_bits (1 + w) (of_bits (1 + w) x) ≡ x)
unfolding of_bits to_bits
of_bits_inv w x small = elim (Bool-cases (ltb (2 * x) (2 ^ (1 + w)))) [
  | inl low ↦ rw low (ground (arith, low), refl)
  | inr high ↦ rw high (ground (arith, high, pow-suc 2 w), omega (arith, small))
]

signed_from_inv :
    (n w : ℕ)
    → 8 * n ≡ 1 + w
    → 256 ^ n ≡ 2 ^ (1 + w)
    → (b : List ℕ) → IsBytes b
    → (x : ℤ) → signed_from n b ≡ some x
    → InRange (1 + w) x × (b ≡ to_le_bytes n (to_bits (1 + w) x))
unfolding signed_from
signed_from_inv n w bits size b bytes x e = elim (Option-cases (unsigned_from n b)) [
  | inl wrong ↦ let never : none ≡ some x = sym (rw (signed_from, wrong)) ∙ e in cc
  | inr (u, taken) ↦
      let (small, written) = unsigned_from_inv n b bytes u taken in
      let same : of_bits (1 + w) u ≡ x =
        ap (λ k. of_bits k u) (sym bits) ∙ eq_of_some (sym (rw (signed_from, taken)) ∙ e) in
      let (range, back) = of_bits_inv w u (omega (arith, small, size)) in
      (
        subst (InRange (1 + w)) same range,
        written ∙ ap (to_le_bytes n) (sym back ∙ ap (to_bits (1 + w)) same),
      )
]

unsigned_lem : (n : ℕ) → ReadsWritten (to_le_bytes n) (unsigned_from n) (λ x. x < 256 ^ n)
unsigned_lem n b bytes x = (
  unsigned_from_inv n b bytes x,
  λ (small, same). ap (unsigned_from n) same ∙ unsigned_from-to_le_bytes n x small,
)

signed_lem :
    (n w : ℕ)
    → 8 * n ≡ 1 + w
    → 256 ^ n ≡ 2 ^ (1 + w)
    → ReadsWritten (λ x. to_le_bytes n (to_bits (1 + w) x)) (signed_from n) (InRange (1 + w))
signed_lem n w bits size b bytes x = (
  signed_from_inv n w bits size b bytes x,
  λ (range, same). ap (signed_from n) same ∙ signed_from-to_le_bytes n w x bits size range,
)

array_lem : (n : ℕ) → ReadsWritten (λ b. b) (try_into n) (λ b. length b ≡ n)
array_lem n b bytes x = (
  λ e. let (size, same) = try_into_inv n b x e in (ap length (sym same) ∙ size, same),
  λ (size, same). ap (try_into n) same ∙ exact x size,
)
  where
    exact : (x : List ℕ) → length x ≡ n → try_into n x ≡ some x
    exact x size = unfold try_into in ground (arith, size)

vec_lem : ReadsWritten (λ b. b) (λ b. some b) (λ _. Unit)
vec_lem b bytes x = (λ e. (tt, eq_of_some e), λ (_, same). ap some same)

string_lem : ReadsWritten as_bytes from_utf8 AllChars
string_lem b bytes x = from_utf8_iff b x

-- A single byte is the first one.
u8_lem : ReadsFirst (λ x. x ∷ []) first (λ x. x < 256)
unfolding first
u8_lem [] bytes x = (λ e. cc, λ (small, rest, same). cc)
u8_lem (b ∷ bs) bytes x = (
  λ e. let same : b ≡ x = eq_of_some e in (rw (sym same) bytes.0, bs, ap (λ c. c ∷ bs) same),
  λ (small, rest, same). ap first same,
)

zero_test : (v : ℕ) (x : Bool) → (not (v == 0) ≡ x) ↔ ((x ≡ false) ↔ (v ≡ 0))
zero_test v true = (
  λ e. (λ f. cc, λ z. ground (arith, e, z)),
  λ t. elim (ℕ_discrete v 0) [
    | yes z ↦ let f : true ≡ false = t.1 z in cc
    | no ne ↦ ground (arith, ne)
  ],
)
zero_test v false =
    (λ e. (λ _. ground (arith, e), λ _. refl), λ t. let z : v ≡ 0 = t.0 refl in ground (arith, z))

bool_lem :
    (b : List ℕ) (x : Bool)
    → (bool_from b ≡ some x)
      ↔ ((v : ℕ) × (rest : List ℕ) × (b ≡ v ∷ rest) × ((x ≡ false) ↔ (v ≡ 0)))
unfolding bool_from first
bool_lem [] x = (λ e. cc, λ (v, rest, same, test). cc)
bool_lem (b ∷ bs) x = (
  λ e. (b, bs, refl, (zero_test b x).0 (eq_of_some e)),
  λ (v, rest, same, test). ap bool_from same ∙ ap (λ y. some y) ((zero_test v x).1 test),
)

-- Which bytes are read and which are refused. A number of 16, 32 or 64 bits, with a sign or without, a vector or
-- a string, each as a key and as a value, or a byte array, is read from the bytes that are written for it, and
-- from no others: bytes that are too few or too many, or no string in UTF-8, are refused. A `u8` is read from
-- all bytes that begin with it, and a `bool` from all that begin with a byte that is 0 exactly if it is false;
-- where there is no byte they are refused.
pub decoding_iff :
    (ReadsWritten u16_key.to_bytes u16_key.from_bytes (λ x. x < 2 ^ 16)
      × ReadsWritten u16_value.to_bytes u16_value.from_bytes (λ x. x < 2 ^ 16))
    × (ReadsWritten u32_key.to_bytes u32_key.from_bytes (λ x. x < 2 ^ 32)
        × ReadsWritten u32_value.to_bytes u32_value.from_bytes (λ x. x < 2 ^ 32))
    × (ReadsWritten u64_key.to_bytes u64_key.from_bytes (λ x. x < 2 ^ 64)
        × ReadsWritten u64_value.to_bytes u64_value.from_bytes (λ x. x < 2 ^ 64))
    × (ReadsWritten i32_key.to_bytes i32_key.from_bytes (InRange 32)
        × ReadsWritten i32_value.to_bytes i32_value.from_bytes (InRange 32))
    × (ReadsWritten i64_key.to_bytes i64_key.from_bytes (InRange 64)
        × ReadsWritten i64_value.to_bytes i64_value.from_bytes (InRange 64))
    × ((n : ℕ) → ReadsWritten (array_key n).to_bytes (array_key n).from_bytes (λ b. length b ≡ n))
    × (ReadsWritten vec_key.to_bytes vec_key.from_bytes (λ _. Unit)
        × ReadsWritten vec_value.to_bytes vec_value.from_bytes (λ _. Unit))
    × (ReadsWritten string_key.to_bytes string_key.from_bytes AllChars
        × ReadsWritten string_value.to_bytes string_value.from_bytes AllChars)
    × (ReadsFirst u8_key.to_bytes u8_key.from_bytes (λ x. x < 2 ^ 8)
        × ReadsFirst u8_value.to_bytes u8_value.from_bytes (λ x. x < 2 ^ 8))
    × ((b : List ℕ) (x : Bool)
        → (bool_value.from_bytes b ≡ some x)
          ↔ ((v : ℕ) × (rest : List ℕ) × (b ≡ v ∷ rest) × ((x ≡ false) ↔ (v ≡ 0))))
unfolding u8_key u16_key u32_key u64_key i32_key i64_key vec_key array_key bool_value u8_value
    u16_value u32_value u64_value i32_value i64_value vec_value string_key string_value
decoding_iff = (
  (unsigned_lem 2, unsigned_lem 2),
  (unsigned_lem 4, unsigned_lem 4),
  (unsigned_lem 8, unsigned_lem 8),
  (signed_lem 4 31 refl refl, signed_lem 4 31 refl refl),
  (signed_lem 8 63 refl refl, signed_lem 8 63 refl refl),
  array_lem,
  (vec_lem, vec_lem),
  (string_lem, string_lem),
  (u8_lem, u8_lem),
  bool_lem,
)
