-- ===== src/Iter.antt =====
-- src/iter.rs: the iterators. They borrow the map, so it does not change while they run. `none` is a panic.
pub mod Slots
pub mod Pairs
pub mod Typed
use pulse_map.Base.{
  ℕ, zero, suc, ◌+◌, ◌-◌, Option, none, some, List, if◌then◌else◌, get_elem?, ◌>>=◌,
}
use pulse_map.Bucket.{Bucket}
use pulse_map.Codec.{PulseKey, PulseValue}
use pulse_map.Meta.{is_full, get_state}
use pulse_map.Raw.{PulseMapRaw, num_buckets, capacity}
use pulse_map.Slab.{SlabPool}
use pulse_map.Slot.{get_key_bytes, get_value}

pub record RawIter : Type 0 where
  pub bucket_idx : ℕ
  pub slot_idx : ℕ

-- `RawIter::new`
unfoldable pub raw_iter : RawIter
raw_iter = record { bucket_idx = 0; slot_idx = 0 }

-- The pair in a slot.
unfoldable pub read_pair : Bucket → ℕ → SlabPool → Option (List ℕ × List ℕ)
unfolding get_key_bytes
read_pair b i pool = do
  slot ← get_elem? b.slots i
  key ← get_key_bytes slot pool
  value ← get_value slot pool
  some (key, value)

-- `while self.slot_idx < 4`, with the rounds left: the first full slot from `i` on.
unfoldable pub scan_slots : ℕ → ℕ → Bucket → Option ℕ
scan_slots zero i b = none
scan_slots (suc left) i b =
    if is_full (get_state b.meta i) then some i else scan_slots left (i + 1) b

-- `while self.bucket_idx < num_buckets`, with the rounds left.
unfoldable pub scan_buckets : ℕ → ℕ → ℕ → PulseMapRaw → Option (Option (List ℕ × List ℕ) × RawIter)
unfolding scan_slots read_pair
scan_buckets zero bucket_idx slot_idx m =
    some (none, record { bucket_idx = bucket_idx; slot_idx = slot_idx })
scan_buckets (suc left) bucket_idx slot_idx m = do
  b ← get_elem? m.buckets bucket_idx
  elim (scan_slots (4 - slot_idx) slot_idx b) [
    | some i ↦ (do
      pair ← read_pair b i m.slab_pool
      some (some pair, record { bucket_idx = bucket_idx; slot_idx = i + 1 }))
    | none ↦ scan_buckets left (bucket_idx + 1) 0 m
  ]

unfoldable pub next : PulseMapRaw → RawIter → Option (Option (List ℕ × List ℕ) × RawIter)
unfolding scan_buckets num_buckets
next m it = scan_buckets (num_buckets m - it.bucket_idx) it.bucket_idx it.slot_idx m

module _ {ℓ κ} {K : Type ℓ} {V : Type κ} (key_codec : PulseKey K) (value_codec : PulseValue V) where
  -- Both halves of a pair, if both can be read.
  unfoldable pub decode : List ℕ × List ℕ → Option (K × V)
  decode (kb, vb) = do k ← key_codec.from_bytes kb; v ← value_codec.from_bytes vb; some (k, v)

  -- The loop of `TypedIter::next`, with the rounds left: pairs that fail are skipped.
  unfoldable pub decode_from : ℕ → PulseMapRaw → RawIter → Option (Option (K × V) × RawIter)
  unfolding next decode
  decode_from zero m it = none
  decode_from (suc left) m it = do
    (item, it') ← next m it
    elim item [
      | none ↦ some (none, it')
      | some pair ↦ elim (decode pair) [
        | some kv ↦ some (some kv, it')
        | none ↦ decode_from left m it'
      ]
    ]

  -- `TypedIter::next`; a round advances by a slot at least, so there are no more rounds than slots, and one.
  unfoldable pub typed_next : PulseMapRaw → RawIter → Option (Option (K × V) × RawIter)
  unfolding decode_from
  typed_next m it = decode_from (capacity m + 1) m it
