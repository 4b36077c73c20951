-- ===== src/Meta/Match.antt =====
-- `match_mask`: bit `i` of the mask is set exactly for a full slot with the fingerprint.
use pulse_map.Base.{
  ℕ, ◌+◌, ◌*◌, ◌/◌, ◌%◌, ◌^◌, ◌≡◌, ◌∙◌, sym, arith, Bool, ◌&&◌, ap₂, ◌==◌, bit_and, bit_or,
  bit_and_mask, ◌<<<◌,
}
use pulse_map.Meta.{is_full, from_bits, get_state, get_h2, to_u8, lane, match_mask}

-- Slot `i` is a candidate for fingerprint `h2`.
unfoldable pub is_candidate : ℕ → ℕ → ℕ → Bool
is_candidate v h2 i = is_full (get_state v i) && (get_h2 v i == h2 % 128)

-- The four-bit mask with these bits.
abbrev pub mask_of : Bool → Bool → Bool → Bool → ℕ
mask_of a b c d =
    bit_or (bit_or (bit_or (bit_or 0 (to_u8 a)) (to_u8 b <<< 1)) (to_u8 c <<< 2)) (to_u8 d <<< 3)

is_full-from_bits : (b : ℕ) → is_full (from_bits (bit_and b 3)) ≡ (bit_and b 3 == 1)
unfolding is_full from_bits
is_full-from_bits b = rw (bit_and_mask 2 (bit_and b 3), bit_and_mask 2 b) (ground arith)

lane-and : (s h h2 : ℕ) → lane s h h2 ≡ to_u8 ((s == 1) && (h == h2))
unfolding lane to_u8
lane-and s h h2 = ground arith

lane-candidate :
    (v h2 : ℕ) (i : ℕ)
    → lane
        (bit_and (v / 2 ^ (56 + i * 2)) 0x03)
        (bit_and (v / 2 ^ (28 + i * 7)) 0x7F)
        (bit_and h2 0x7F)
      ≡ to_u8 (is_candidate v h2 i)
unfolding is_candidate get_state get_h2
lane-candidate v h2 i =
    lane-and _ _ _
    ∙ ap₂ (λ a b. to_u8 (a && (bit_and (v / 2 ^ (28 + i * 7)) 0x7F == b)))
        (sym (is_full-from_bits (v / 2 ^ (56 + i * 2)))) (bit_and_mask 7 h2)

pub match_mask-mask_of :
    (v h2 : ℕ)
    → match_mask v h2
      ≡ mask_of
          (is_candidate v h2 0)
          (is_candidate v h2 1)
          (is_candidate v h2 2)
          (is_candidate v h2 3)
unfolding match_mask
match_mask-mask_of v h2 =
    rw (lane-candidate v h2 0, lane-candidate v h2 1, lane-candidate v h2 2, lane-candidate v h2 3)
