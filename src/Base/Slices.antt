-- ===== src/Base/Slices.antt =====
-- Sub-slices, and `copy_from_slice` into one.
use Prim.Native.Nat.{ℕ, zero, suc, ◌+◌, ◌≤◌, min}
use mathlib.Core.Path.{◌≡◌, refl, ap}
use mathlib.Core.List.{List, [], ◌∷◌}
use native.Mathlib.Omega.{arith}
use pulse_map.Base.Lists.{length}

module _ {ℓ} {A : Type ℓ} where
  unfoldable pub take : ℕ → List A → List A
  take zero xs = []
  take (suc n) [] = []
  take (suc n) (x ∷ xs) = x ∷ take n xs

  unfoldable pub drop : ℕ → List A → List A
  drop zero xs = xs
  drop (suc n) [] = []
  drop (suc n) (x ∷ xs) = drop n xs

  -- `&xs[o..o + n]`
  unfoldable pub slice : List A → ℕ → ℕ → List A
  slice xs o n = take n (drop o xs)

  -- `xs[o..o + ys.len()].copy_from_slice(ys)`; what would fall outside is dropped
  unfoldable pub blit : List A → ℕ → List A → List A
  blit [] o ys = []
  blit (x ∷ xs) zero [] = x ∷ xs
  blit (x ∷ xs) zero (y ∷ ys) = y ∷ blit xs zero ys
  blit (x ∷ xs) (suc o) ys = x ∷ blit xs o ys

  pub length-blit : (xs : List A) (o : ℕ) (ys : List A) → length (blit xs o ys) ≡ length xs
  unfolding blit
  length-blit [] o ys = refl
  length-blit (x ∷ xs) zero [] = refl
  length-blit (x ∷ xs) zero (y ∷ ys) = ap suc (length-blit xs zero ys)
  length-blit (x ∷ xs) (suc o) ys = ap suc (length-blit xs o ys)

  take-blit : (xs ys : List A) → length ys ≤ length xs → take (length ys) (blit xs zero ys) ≡ ys
  unfolding take blit
  take-blit xs [] h = refl
  take-blit [] (y ∷ ys) h = absurd (omega arith)
  take-blit (x ∷ xs) (y ∷ ys) h = ap (◌∷◌ y) (take-blit xs ys (omega arith))

  -- A slice that was just written reads back.
  pub slice-blit_self :
      (xs : List A) (o : ℕ) (ys : List A)
      → o + length ys ≤ length xs
      → slice (blit xs o ys) o (length ys) ≡ ys
  unfolding slice drop blit
  slice-blit_self xs zero ys h = take-blit xs ys (omega arith)
  slice-blit_self [] (suc o) [] h = absurd (omega arith)
  slice-blit_self [] (suc o) (y ∷ ys) h = absurd (omega arith)
  slice-blit_self (x ∷ xs) (suc o) ys h = slice-blit_self xs o ys (omega arith)

  -- A write behind a slice leaves it alone.
  pub slice-blit_after :
      (xs : List A) (o n p : ℕ) (ys : List A) → o + n ≤ p → slice (blit xs p ys) o n ≡ slice xs o n
  unfolding slice take drop blit
  slice-blit_after [] o n p ys h = refl
  slice-blit_after (x ∷ xs) zero zero p ys h = refl
  slice-blit_after (x ∷ xs) zero (suc n) zero ys h = absurd (omega arith)
  slice-blit_after (x ∷ xs) zero (suc n) (suc p) ys h =
      ap (◌∷◌ x) (slice-blit_after xs zero n p ys (omega arith))
  slice-blit_after (x ∷ xs) (suc o) n zero ys h = absurd (omega arith)
  slice-blit_after (x ∷ xs) (suc o) n (suc p) ys h = slice-blit_after xs o n p ys (omega arith)

  pub length-take : (n : ℕ) (xs : List A) → length (take n xs) ≡ min n (length xs)
  unfolding take
  length-take zero xs = omega arith
  length-take (suc n) [] = omega arith
  length-take (suc n) (x ∷ xs) = omega (arith, length-take n xs)
