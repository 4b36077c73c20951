-- ===== src/Slot/RoundTrip.antt =====
-- What `set_inline` and `set_slab` store, the readers return.
use pulse_map.Base.{
  ℕ, ◌+◌, ◌*◌, ◌%◌, ◌^◌, ◌≤◌, ◌<◌, ◌≡◌, refl, arith, List, ◌∷◌, bit_and_mask, bit_or_join,
  bit_or-zero, zero-bit_or, length, get_or, set, replicate, take, drop, slice, blit, length-blit,
  slice-blit_self, slice-blit_after, to_le_bytes, from_le_bytes-to_le_bytes,
}
use pulse_map.Slot.{
  Slot, empty_slot, get_mode, inline_header, set_inline, inline_key_len, inline_key, inline_val_len,
  inline_value, set_slab, slab_idx, get_ext_fp, get_ext_fp_hi,
}

inline_header_lem : (k v : ℕ) → k ≤ 6 → v ≤ 7 → inline_header k v ≡ k * 16 + v * 2
unfolding inline_header
inline_header_lem k v hk hv = ground (
  arith,
  bit_and_mask 3 (v % 256),
  bit_or_join 4 k 0 0 (v * 2),
  bit_or-zero k,
  zero-bit_or (v * 2),
)

module _ (key value : List ℕ) (short_key : length key ≤ 6) (short_value : length value ≤ 7) where
  abbrev fresh : Slot
  fresh = set_inline key value

  first_byte : get_or fresh.bytes 0 0 ≡ length key * 16 + length value * 2
  unfolding set_inline get_or
  first_byte = inline_header_lem (length key) (length value) short_key short_value

  pub get_mode-set_inline : get_mode fresh ≡ 0
  unfolding get_mode
  get_mode-set_inline = rw (first_byte, bit_and_mask 1) (omega arith)

  inline_key_len-set_inline : inline_key_len fresh ≡ length key
  unfolding inline_key_len
  inline_key_len-set_inline = rw (first_byte, bit_and_mask 3) (omega arith)

  inline_val_len-set_inline : inline_val_len fresh ≡ length value
  unfolding inline_val_len
  inline_val_len-set_inline = rw (first_byte, bit_and_mask 3) (omega arith)

  pub inline_key-set_inline : inline_key fresh ≡ key
  unfolding inline_key set_inline
  inline_key-set_inline =
      rw (inline_key_len-set_inline, slice-blit_after _ 1 (length key) 7 value (omega arith))
        (slice-blit_self (inline_header (length key) (length value) ∷ replicate 13 0) 1 key
          (omega arith))

  pub inline_value-set_inline : inline_value fresh ≡ value
  unfolding inline_value set_inline
  inline_value-set_inline = rw inline_val_len-set_inline (
      slice-blit_self (blit (inline_header (length key) (length value) ∷ replicate 13 0) 1 key) 7
        value
        (omega
          (arith, length-blit (inline_header (length key) (length value) ∷ replicate 13 0) 1 key)))

module _ (hi fp idx : ℕ) (hi_fits : hi < 128) (fp_fits : fp < 2 ^ 32)
    (idx_fits : idx < 2 ^ 64) where
  abbrev pointer : Slot
  pointer = set_slab hi fp idx

  slab_header : get_or pointer.bytes 0 0 ≡ 128 + hi
  unfolding set_slab get_or
  slab_header = ground (arith, bit_and_mask 7 hi, bit_or_join 7 1 0 0 hi, zero-bit_or hi)

  pub get_mode-set_slab : get_mode pointer ≡ 1
  unfolding get_mode
  get_mode-set_slab = rw (slab_header, bit_and_mask 1) (omega arith)

  pub get_ext_fp_hi-set_slab : get_ext_fp_hi pointer ≡ hi
  unfolding get_ext_fp_hi
  get_ext_fp_hi-set_slab = rw (slab_header, bit_and_mask 7) (omega arith)

  pub slab_idx-set_slab : slab_idx pointer ≡ idx
  unfolding slab_idx set_slab to_le_bytes replicate set blit slice take drop
  slab_idx-set_slab = from_le_bytes-to_le_bytes 8 idx idx_fits

  pub get_ext_fp-set_slab : get_ext_fp pointer ≡ fp
  unfolding get_ext_fp set_slab to_le_bytes replicate set blit slice take drop
  get_ext_fp-set_slab = from_le_bytes-to_le_bytes 4 fp fp_fits

pub get_mode-empty_slot : get_mode empty_slot ≡ 0
unfolding get_mode empty_slot get_or
get_mode-empty_slot = refl

-- A slot written by `set_inline`, with a key of at most 6 bytes and a value of at most 7, is in inline mode
-- and reads back as that key and that value.
pub set_inline_lem :
    (key value : List ℕ)
    → length key ≤ 6
    → length value ≤ 7
    → (get_mode (set_inline key value) ≡ 0)
      × (inline_key (set_inline key value) ≡ key)
      × (inline_value (set_inline key value) ≡ value)
set_inline_lem key value k v = (
  get_mode-set_inline key value k v,
  inline_key-set_inline key value k v,
  inline_value-set_inline key value k v,
)

-- A slot written by `set_slab`, with fingerprints of 7 and 32 bits and an index of 64, is in slab mode and
-- reads back as those three.
pub set_slab_lem :
    (hi fp idx : ℕ)
    → hi < 128
    → fp < 2 ^ 32
    → idx < 2 ^ 64
    → (get_mode (set_slab hi fp idx) ≡ 1)
      × (get_ext_fp_hi (set_slab hi fp idx) ≡ hi)
      × (get_ext_fp (set_slab hi fp idx) ≡ fp)
      × (slab_idx (set_slab hi fp idx) ≡ idx)
set_slab_lem hi fp idx h f i = (
  get_mode-set_slab hi fp idx h f i,
  get_ext_fp_hi-set_slab hi fp idx h f i,
  get_ext_fp-set_slab hi fp idx h f i,
  slab_idx-set_slab hi fp idx h f i,
)
