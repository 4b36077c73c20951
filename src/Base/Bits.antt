-- ===== src/Base/Bits.antt =====
-- `&` and `|` of words at variables, by cutting both operands at the same bit.
use Prim.Native.Nat.{
  ℕ, zero, suc, ◌+◌, ◌-◌, ◌*◌, ◌/◌, ◌%◌, ◌^◌, ◌≤◌, ◌<◌, min, max, bit_and, bit_or,
}
use Prim.Native.Nat.{digits, bit_and-bitwise, bit_or-bitwise}
use mathlib.Core.Path.{◌≡◌, refl, ap, ◌∙◌}
use native.Mathlib.Omega.{arith}
use native.Mathlib.Nat.{pow-suc, one-le-pow}
use pulse_map.Base.Words.{low_mask}

-- A round beyond those that the first operand needs changes nothing, and so do any number of them.
module _ (last : ℕ → ℕ) (digit : ℕ → ℕ → ℕ) where
  one_round_more :
      (rounds x y : ℕ)
      → x ≤ rounds
      → digits last digit (suc rounds) x y ≡ digits last digit rounds x y
  one_round_more (suc left) (suc x) y enough =
      ap (λ (rest : ℕ). rest * 2 + digit (suc x % 2) (y % 2))
        (one_round_more left (suc x / 2) (y / 2) (omega arith))
  one_round_more zero (suc x) y none_left = absurd (omega arith)
  one_round_more (suc left) zero y enough = refl
  one_round_more zero zero y enough = refl

  rounds_more :
      (extra rounds all x y : ℕ)
      → extra + rounds ≡ all
      → x ≤ rounds
      → digits last digit all x y ≡ digits last digit rounds x y
  rounds_more zero rounds all x y sum enough =
      let same : all ≡ rounds = omega arith in ap (λ n. digits last digit n x y) same
  rounds_more (suc extra) rounds zero x y sum enough = absurd (omega arith)
  rounds_more (suc extra) rounds (suc all) x y sum enough =
      one_round_more all x y (omega arith) ∙ rounds_more extra rounds all x y (omega arith) enough

  -- The rest of the digits after the lowest, with the rounds that they need.
  rounds_left :
      (x y : ℕ) → digits last digit x (suc x / 2) y ≡ digits last digit (suc x / 2) (suc x / 2) y
  rounds_left x y =
      rounds_more (x - suc x / 2) (suc x / 2) x (suc x / 2) y (omega arith) (omega arith)

-- The lowest digit of `&` and of `|`, beside the others.
bit_or-half : (x y : ℕ) → bit_or x y ≡ bit_or (x / 2) (y / 2) * 2 + max (x % 2) (y % 2)
bit_or-half (suc x) y =
    let rest = rounds_left (λ (d : ℕ). d) max x (y / 2) in
    omega (arith, rest, bit_or-bitwise (suc x / 2) (y / 2), bit_or-bitwise (suc x) y)
bit_or-half zero y = omega (arith, bit_or-bitwise 0 (y / 2), bit_or-bitwise 0 y)

bit_and-half : (x y : ℕ) → bit_and x y ≡ bit_and (x / 2) (y / 2) * 2 + min (x % 2) (y % 2)
bit_and-half (suc x) y =
    let rest = rounds_left (λ (d : ℕ). 0) min x (y / 2) in
    omega (arith, rest, bit_and-bitwise (suc x / 2) (y / 2), bit_and-bitwise (suc x) y)
bit_and-half zero y = omega (arith, bit_and-bitwise 0 (y / 2), bit_and-bitwise 0 y)

shift-suc : (p k : ℕ) → p * 2 ^ suc k ≡ 2 * (p * 2 ^ k)
shift-suc p k = omega (arith, ap (λ (t : ℕ). p * t) (pow-suc 2 k))

-- Operands cut at bit `k` are joined part by part.
pub bit_and_join :
    (k p q x y : ℕ)
    → x < 2 ^ k
    → y < 2 ^ k
    → bit_and (p * 2 ^ k + x) (q * 2 ^ k + y) ≡ bit_and p q * 2 ^ k + bit_and x y
bit_and_join zero p q x y hx hy = ground arith
bit_and_join (suc k) p q x y hx hy = ground (
  arith,
  bit_and-half (p * 2 ^ suc k + x) (q * 2 ^ suc k + y),
  bit_and-half x y,
  shift-suc p k,
  shift-suc q k,
  shift-suc (bit_and p q) k,
  pow-suc 2 k,
  bit_and_join k p q (x / 2) (y / 2),
)

pub bit_or_join :
    (k p q x y : ℕ)
    → x < 2 ^ k
    → y < 2 ^ k
    → bit_or (p * 2 ^ k + x) (q * 2 ^ k + y) ≡ bit_or p q * 2 ^ k + bit_or x y
bit_or_join zero p q x y hx hy = ground arith
bit_or_join (suc k) p q x y hx hy = ground (
  arith,
  bit_or-half (p * 2 ^ suc k + x) (q * 2 ^ suc k + y),
  bit_or-half x y,
  shift-suc p k,
  shift-suc q k,
  shift-suc (bit_or p q) k,
  pow-suc 2 k,
  bit_or_join k p q (x / 2) (y / 2),
)

bit_and-zero_below : (n a : ℕ) → a ≤ n → bit_and a 0 ≡ 0
bit_and-zero_below n zero h = refl
bit_and-zero_below zero (suc a) h = absurd (omega arith)
bit_and-zero_below (suc n) (suc a) h =
    omega (arith, bit_and-half (suc a) 0, bit_and-zero_below n (suc a / 2) (omega arith))

pub bit_and-zero : (a : ℕ) → bit_and a 0 ≡ 0
bit_and-zero a = bit_and-zero_below a a (omega arith)

bit_or-zero_below : (n a : ℕ) → a ≤ n → bit_or a 0 ≡ a
bit_or-zero_below n zero h = refl
bit_or-zero_below zero (suc a) h = absurd (omega arith)
bit_or-zero_below (suc n) (suc a) h =
    omega (arith, bit_or-half (suc a) 0, bit_or-zero_below n (suc a / 2) (omega arith))

pub bit_or-zero : (a : ℕ) → bit_or a 0 ≡ a
bit_or-zero a = bit_or-zero_below a a (omega arith)

pub zero-bit_or : (a : ℕ) → bit_or 0 a ≡ a
zero-bit_or a = omega (arith, bit_or-bitwise 0 a)

-- A mask of ones keeps what fits under it.
bit_and-ones : (k a : ℕ) → a < 2 ^ k → bit_and a (low_mask k) ≡ a
bit_and-ones zero a h = rw bit_and-zero (omega arith)
bit_and-ones (suc k) a h =
    ground (
      arith,
      bit_and-half a (low_mask (suc k)),
      pow-suc 2 k,
      one-le-pow k 2,
      bit_and-ones k (a / 2),
    )

-- `a & (2^k - 1)` is the remainder by `2^k`.
pub bit_and_mask : (k a : ℕ) → bit_and a (low_mask k) ≡ a % 2 ^ k
bit_and_mask k a = ground (
  arith,
  bit_and_join k (a / 2 ^ k) 0 (a % 2 ^ k) (low_mask k),
  bit_and-ones k (a % 2 ^ k),
  bit_and-zero (a / 2 ^ k),
  one-le-pow k 2,
)

-- The high parts `hi`, a field of `w` bits, and `s` low bits, of one word.
abbrev pub fields : ℕ → ℕ → ℕ → ℕ → ℕ → ℕ
fields s w hi f lo = (hi * 2 ^ w + f) * 2 ^ s + lo

-- Clearing a field with a mask and writing `x` into it replaces just that field. The mask has
-- `h` ones above the field and ones below it.
pub replace_field :
    (s w h hi f lo x : ℕ)
    → hi < 2 ^ h
    → f < 2 ^ w
    → x < 2 ^ w
    → lo < 2 ^ s
    → bit_or
        (bit_and (fields s w hi f lo) (fields s w (low_mask h) 0 (low_mask s)))
        (fields s w 0 x 0)
      ≡ fields s w hi x lo
replace_field s w h hi f lo x hh hf hx hl =
    rw
      (
        bit_and_join s (hi * 2 ^ w + f) (low_mask h * 2 ^ w + 0) lo (low_mask s) hl
            (omega (arith, one-le-pow s 2)),
        bit_and_join w hi (low_mask h) f 0 hf (omega (arith, one-le-pow w 2)),
        bit_and-ones h hi hh,
        bit_and-ones s lo hl,
        bit_and-zero f,
        bit_or_join s (hi * 2 ^ w + 0) (0 * 2 ^ w + x) lo 0 hl (omega (arith, one-le-pow s 2)),
        bit_or_join w hi 0 0 x (omega (arith, one-le-pow w 2)) hx,
        bit_or-zero hi,
        zero-bit_or x,
        bit_or-zero lo,
      )
      refl
