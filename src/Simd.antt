-- ===== src/Simd.antt =====
-- src/simd.rs: the SSE2 version of the fingerprint match. A 128-bit register is its 16 bytes, lowest
-- first; the three intrinsics are written out as they are documented.
use pulse_map.Base.{
  ℕ, ◌+◌, ◌*◌, ◌/◌, ◌≡◌, refl, arith, Bool, true, false, List, [], ◌∷◌, ◌&&◌, ==_iff, bit_and,
  bit_or, ◌==◌, replicate, if◌then◌else◌, ◌<<<◌,
}
use pulse_map.Meta.{read_bits, to_u8, lane, match_mask}

-- `_mm_set1_epi8`
unfoldable pub set1 : ℕ → List ℕ
unfolding replicate
set1 b = replicate 16 b

-- `_mm_cmpeq_epi8`
unfoldable pub cmpeq : List ℕ → List ℕ → List ℕ
cmpeq (x ∷ xs) (y ∷ ys) = (if x == y then 0xFF else 0) ∷ cmpeq xs ys
cmpeq _ _ = []

-- `_mm_movemask_epi8`: the top bit of each byte.
unfoldable pub movemask : List ℕ → ℕ
movemask [] = 0
movemask (x ∷ xs) = x / 128 + 2 * movemask xs

-- `match_mask_simd`
unfoldable pub match_mask_simd : ℕ → ℕ → ℕ
unfolding read_bits to_u8 set1 cmpeq movemask replicate
match_mask_simd v h2 =
    let t = bit_and h2 0x7F in
    let h2s =
      read_bits v 28 0x7F
      ∷ read_bits v 35 0x7F
      ∷ read_bits v 42 0x7F
      ∷ read_bits v 49 0x7F
      ∷ replicate 12 0 in
    let h2_match = bit_and (movemask (cmpeq h2s (set1 t))) 0x0F in
    let full_mask =
      bit_or
        (bit_or (bit_or (to_u8 (read_bits v 56 0x03 == 1)) (to_u8 (read_bits v 58 0x03 == 1) <<< 1))
          (to_u8 (read_bits v 60 0x03 == 1) <<< 2))
        (to_u8 (read_bits v 62 0x03 == 1) <<< 3) in
    bit_and h2_match full_mask

for_all : (Bool → Bool) → Bool
for_all p = p true && p false

for_all_sound : (p : Bool → Bool) → for_all p ≡ true → (b : Bool) → p b ≡ true
unfolding for_all
for_all_sound p h true = ground arith
for_all_sound p h false = ground arith

-- `z` tells whether the twelve lanes that hold no fingerprint compare equal; they are masked off.
abbrev byte : Bool → ℕ
byte b = if b then 0xFF else 0

abbrev vector_mask : Bool → Bool → Bool → Bool → Bool → Bool → Bool → Bool → Bool → ℕ
unfolding movemask replicate to_u8
vector_mask a b c d e f g h z =
    bit_and (bit_and (movemask (byte a ∷ byte b ∷ byte c ∷ byte d ∷ replicate 12 (byte z))) 0x0F)
      (bit_or (bit_or (bit_or (to_u8 e) (to_u8 f <<< 1)) (to_u8 g <<< 2)) (to_u8 h <<< 3))

abbrev scalar_mask : Bool → Bool → Bool → Bool → Bool → Bool → Bool → Bool → ℕ
unfolding to_u8
scalar_mask a b c d e f g h =
    bit_or
      (bit_or (bit_or (bit_or 0 (bit_and (to_u8 e) (to_u8 a))) (bit_and (to_u8 f) (to_u8 b) <<< 1))
        (bit_and (to_u8 g) (to_u8 c) <<< 2))
      (bit_and (to_u8 h) (to_u8 d) <<< 3)

abbrev agree : Bool → Bool → Bool → Bool → Bool → Bool → Bool → Bool → Bool → Bool
agree a b c d e f g h z = vector_mask a b c d e f g h z == scalar_mask a b c d e f g h

all_agree :
    for_all (λ a. for_all (λ b. for_all (λ c. for_all (λ d.
      for_all (λ e.
        for_all (λ f. for_all (λ g. for_all (λ h. for_all (λ z. agree a b c d e f g h z)))))))))
    ≡ true
unfolding for_all movemask replicate to_u8
all_agree = refl

combine : (a b c d e f g h z : Bool) → vector_mask a b c d e f g h z ≡ scalar_mask a b c d e f g h
combine a b c d e f g h z = (==_iff _ _).0 (
    for_all_sound _
      (for_all_sound _
        (for_all_sound _
          (for_all_sound _
            (for_all_sound _
              (for_all_sound _ (for_all_sound _ (for_all_sound _ (for_all_sound _ all_agree a) b) c)
                d)
              e)
            f)
          g)
        h)
      z)

-- The SSE2 version of `match_mask` agrees with the scalar one on every word and fingerprint.
pub match_mask_simd-match_mask : (v h2 : ℕ) → match_mask_simd v h2 ≡ match_mask v h2
unfolding match_mask_simd match_mask lane
match_mask_simd-match_mask v h2 = combine _ _ _ _ _ _ _ _ (0 == bit_and h2 0x7F)
