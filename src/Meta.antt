-- ===== src/Meta.antt =====
-- src/engine/meta.rs and `SlotState` of src/lib.rs: the packed 64-bit metadata word of a bucket.
-- A word is its `u64` value. A method that stores returns the new word. The casts to `u8` follow a
-- mask of at most seven bits and change nothing.
pub mod Contention
pub mod Fields
pub mod Positions
pub mod Laws
pub mod Policy
pub mod Access
pub mod Match
use pulse_map.Base.{
  ℕ, zero, suc, ◌+◌, ◌-◌, ◌*◌, Bool, true, false, Option, none, some, ◌||◌, bit_and, bit_or, ltb,
  ◌==◌, if◌then◌else◌, ◌<<<◌, ◌>>>◌, complement,
}

pub data SlotState : Type 0 where
  empty full tombstone : SlotState

-- The discriminants of `#[repr(u8)]`.
unfoldable pub state_bits : SlotState → ℕ
state_bits empty = 0
state_bits full = 1
state_bits tombstone = 2

unfoldable pub from_bits : ℕ → SlotState
from_bits bits =
    let b = bit_and bits 0x03 in if b == 1 then full else if b == 2 then tombstone else empty

unfoldable pub is_full : SlotState → Bool
is_full full = true
is_full empty = false
is_full tombstone = false

-- `MetaWord::empty()`
abbrev pub empty_word : ℕ
empty_word = 0

-- `(v >> shift) & mask`
unfoldable pub read_bits : ℕ → ℕ → ℕ → ℕ
read_bits v shift mask = bit_and (v >>> shift) mask

-- `v &= !(mask << shift); v |= x << shift`
unfoldable pub write_bits : ℕ → ℕ → ℕ → ℕ → ℕ
write_bits v shift mask x = bit_or (bit_and v (complement (mask <<< shift))) (x <<< shift)

unfoldable pub state_shift : ℕ → ℕ
state_shift slot = 56 + slot * 2

unfoldable pub h2_shift : ℕ → ℕ
h2_shift slot = 28 + slot * 7

unfoldable pub prio_shift : ℕ → ℕ
prio_shift slot = slot * 7

unfoldable pub get_state : ℕ → ℕ → SlotState
unfolding read_bits state_shift from_bits
get_state v slot = from_bits (read_bits v (state_shift slot) 0x03)

unfoldable pub set_state : ℕ → ℕ → SlotState → ℕ
unfolding write_bits state_shift state_bits
set_state v slot state = write_bits v (state_shift slot) 0x03 (state_bits state)

unfoldable pub get_h2 : ℕ → ℕ → ℕ
unfolding read_bits h2_shift
get_h2 v slot = read_bits v (h2_shift slot) 0x7F

unfoldable pub set_h2 : ℕ → ℕ → ℕ → ℕ
unfolding write_bits h2_shift
set_h2 v slot h2 = write_bits v (h2_shift slot) 0x7F (bit_and h2 0x7F)

unfoldable pub get_priority : ℕ → ℕ → ℕ
unfolding read_bits prio_shift
get_priority v slot = read_bits v (prio_shift slot) 0x7F

unfoldable pub set_priority : ℕ → ℕ → ℕ → ℕ
unfolding write_bits prio_shift
set_priority v slot prio = write_bits v (prio_shift slot) 0x7F (bit_and prio 0x7F)

-- `b as u8`
unfoldable pub to_u8 : Bool → ℕ
to_u8 true = 1
to_u8 false = 0

-- `(s == 1) as u8 & (h == h2) as u8`
unfoldable pub lane : ℕ → ℕ → ℕ → ℕ
unfolding to_u8
lane s h h2 = bit_and (to_u8 (s == 1)) (to_u8 (h == h2))

-- `match_mask_branchless_raw`
unfoldable pub match_mask : ℕ → ℕ → ℕ
unfolding read_bits lane
match_mask v h2 =
    let t = bit_and h2 0x7F in
    let m0 = lane (read_bits v 56 0x03) (read_bits v 28 0x7F) t in
    let m1 = lane (read_bits v 58 0x03) (read_bits v 35 0x7F) t in
    let m2 = lane (read_bits v 60 0x03) (read_bits v 42 0x7F) t in
    let m3 = lane (read_bits v 62 0x03) (read_bits v 49 0x7F) t in
    bit_or (bit_or (bit_or (bit_or 0 m0) (m1 <<< 1)) (m2 <<< 2)) (m3 <<< 3)

-- The loop `for i in 0..4` of `find_free_slot`, with the rounds left.
unfoldable pub free_from : ℕ → ℕ → ℕ → Option ℕ
unfolding get_state is_full
free_from zero i v = none
free_from (suc left) i v = if is_full (get_state v i) then free_from left (i + 1) v else some i

unfoldable pub find_free_slot : ℕ → Option ℕ
unfolding free_from
find_free_slot v = free_from 4 0 v

-- `min_slot.is_none() || p < min_prio`
unfoldable pub improves : Option ℕ → ℕ → ℕ → Bool
improves none min_prio p = true
improves (some _) min_prio p = ltb p min_prio

-- The loop of `find_evict_target`, with its two variables.
unfoldable pub evict_from : ℕ → ℕ → ℕ → ℕ → Option ℕ → Option ℕ
unfolding get_state get_priority is_full improves
evict_from zero i v min_prio min_slot = min_slot
evict_from (suc left) i v min_prio min_slot =
    let p = get_priority v i in
    let better = if is_full (get_state v i) then improves min_slot min_prio p else false in
    evict_from left (i + 1) v (if better then p else min_prio) (if better then some i else min_slot)

unfoldable pub find_evict_target : ℕ → Option ℕ
unfolding evict_from
find_evict_target v = evict_from 4 0 v 0xFF none

-- `freq + 1` capped at 15, recency 7.
unfoldable pub boosted : ℕ → ℕ
boosted prio =
    let freq = bit_and (prio >>> 3) 0x0F in
    let new_freq = if ltb freq 15 then freq + 1 else 15 in bit_or (new_freq <<< 3) 0x07

-- `(p & 0x78) | (r - 1)`, with `r` the recency.
unfoldable pub decayed : ℕ → ℕ
decayed p = let r = bit_and p 0x07 in if ltb 0 r then bit_or (bit_and p 0x78) (r - 1) else p

-- The decay loop of `on_access`. Where the recency is 0 the code stores nothing.
unfoldable pub decay_others : ℕ → ℕ → ℕ → ℕ → ℕ
unfolding get_state get_priority set_priority is_full decayed
decay_others zero i slot v = v
decay_others (suc left) i slot v =
    let p = get_priority v i in
    let stale =
      if i == slot
      then false
      else if is_full (get_state v i)
      then ltb 0 (bit_and p 0x07)
      else false in
    decay_others left (i + 1) slot (if stale then set_priority v i (decayed p) else v)

-- The new value that one round of the CAS loop of `on_access` computes from the loaded one; with a
-- single owner the exchange succeeds.
unfoldable pub on_access : ℕ → ℕ → ℕ
unfolding get_priority set_priority boosted decay_others
on_access v slot = decay_others 4 0 slot (set_priority v slot (boosted (get_priority v slot)))

unfoldable pub on_insert : ℕ → ℕ → ℕ
unfolding set_priority
on_insert v slot = set_priority v slot 0x01
