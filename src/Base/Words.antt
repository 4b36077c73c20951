-- ===== src/Base/Words.antt =====
-- Fixed-width unsigned arithmetic; `usize` has 64 bits.
use Prim.Native.Nat.{ℕ, ◌+◌, ◌-◌, ◌*◌, ◌/◌, ◌%◌, ◌^◌}

abbrev pub u64_max : ℕ
u64_max = 2 ^ 64 - 1

infixl 75 ◌<<<◌ ◌>>>◌
abbrev pub ◌>>>◌ : ℕ → ℕ → ℕ
x >>> k = x / 2 ^ k

-- `<<` on a `u64`: what leaves the word is lost.
abbrev pub ◌<<<◌ : ℕ → ℕ → ℕ
x <<< k = x * 2 ^ k % 2 ^ 64

-- `!x` on a `u64`
abbrev pub complement : ℕ → ℕ
complement x = 2 ^ 64 - 1 - x

-- `wrapping_add`, `wrapping_sub`, and the unchecked `+=`, `-=` of a release build
abbrev pub add64 : ℕ → ℕ → ℕ
add64 a b = (a + b) % 2 ^ 64

abbrev pub sub64 : ℕ → ℕ → ℕ
sub64 a b = (a + 2 ^ 64 - b) % 2 ^ 64

abbrev pub low_mask : ℕ → ℕ
low_mask k = 2 ^ k - 1
