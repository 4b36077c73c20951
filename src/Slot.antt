-- ===== src/Slot.antt =====
-- src/engine/slot.rs: a slot of fourteen bytes, in inline or in slab mode.
pub mod RoundTrip
use pulse_map.Base.{
  ℕ, ◌+◌, ◌*◌, ◌/◌, ◌%◌, ◌^◌, Bool, true, false, ◌||◌, not, Option, none, some, List, [], ◌∷◌,
  bit_and, bit_or, ◌==◌, if◌then◌else◌, length, get_or, set, replicate, slice, blit, bytes_eq,
  to_le_bytes, from_le_bytes, ◌>>>◌, ◌>>=◌,
}
use pulse_map.Hash.{HashResult}
use pulse_map.Slab.{SlabPool, entry_key, entry_value}
use pulse_map.Slab

pub record Slot : Type 0 where
  pub bytes : List ℕ

-- `Slot::empty` and `clear`
unfoldable pub empty_slot : Slot
unfolding replicate
empty_slot = record { bytes = replicate 14 0 }

unfoldable pub get_mode : Slot → ℕ
unfolding get_or
get_mode s = bit_and (get_or s.bytes 0 0 >>> 7) 1

-- The header of an inline slot; both casts and shifts are on a `u8`.
unfoldable pub inline_header : ℕ → ℕ → ℕ
inline_header key_len val_len =
    bit_or (key_len % 256 * 16 % 256) (bit_and (val_len % 256) 0x07 * 2 % 256)

-- Both callers test `key.len() <= 6 && value.len() <= 7` first, so that the assertion holds and the
-- two copies stay inside.
unfoldable pub set_inline : List ℕ → List ℕ → Slot
unfolding replicate set blit inline_header
set_inline key value = record {
  bytes =
      blit (blit (set (replicate 14 0) 0 (inline_header (length key) (length value))) 1 key) 7
        value;
}

unfoldable pub inline_key_len : Slot → ℕ
unfolding get_or
inline_key_len s = bit_and (get_or s.bytes 0 0 >>> 4) 0x07

unfoldable pub inline_key : Slot → List ℕ
unfolding inline_key_len
inline_key s = slice s.bytes 1 (inline_key_len s)

unfoldable pub inline_val_len : Slot → ℕ
unfolding get_or
inline_val_len s = bit_and (get_or s.bytes 0 0 >>> 1) 0x07

unfoldable pub inline_value : Slot → List ℕ
unfolding inline_val_len
inline_value s = slice s.bytes 7 (inline_val_len s)

unfoldable pub set_slab : ℕ → ℕ → ℕ → Slot
unfolding replicate set blit to_le_bytes
set_slab ext_fp_hi ext_fp slab_idx =
    let header = set (replicate 14 0) 0 (bit_or 0x80 (bit_and ext_fp_hi 0x7F)) in
    let flags = set (blit header 1 (to_le_bytes 4 ext_fp)) 5 0 in
    record { bytes = blit flags 6 (to_le_bytes 8 slab_idx) }

unfoldable pub slab_idx : Slot → ℕ
slab_idx s = from_le_bytes (slice s.bytes 6 8)

unfoldable pub get_ext_fp : Slot → ℕ
get_ext_fp s = from_le_bytes (slice s.bytes 1 4)

unfoldable pub get_ext_fp_hi : Slot → ℕ
unfolding get_or
get_ext_fp_hi s = bit_and (get_or s.bytes 0 0) 0x7F

-- `slab_key`
unfoldable pub slab_key : Slot → SlabPool → Option (List ℕ)
slab_key s pool = do e ← Slab.get pool (slab_idx s); some (entry_key e)

-- `get_key_bytes`
unfoldable pub get_key_bytes : Slot → SlabPool → Option (List ℕ)
unfolding slab_key
get_key_bytes s pool = if get_mode s == 0 then some (inline_key s) else slab_key s pool

-- `get_value` and `get_value_bytes`
unfoldable pub get_value : Slot → SlabPool → Option (List ℕ)
get_value s pool =
    if get_mode s == 0
    then some (inline_value s)
    else (do e ← Slab.get pool (slab_idx s); some (entry_value e))

unfoldable pub matches_key : Slot → List ℕ → HashResult → SlabPool → Option Bool
unfolding slab_key
matches_key s key hr pool =
    if get_mode s == 0
    then some (bytes_eq (inline_key s) key)
    else if not (get_ext_fp_hi s == hr.ext_fp_hi) || not (get_ext_fp s == hr.ext_fp)
    then some false
    else (do k ← slab_key s pool; some (bytes_eq k key))
