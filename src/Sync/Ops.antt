-- ===== src/Sync/Ops.antt =====
-- src/sync.rs: `insert_internal`, `get`, `peek` and `remove`.
use pulse_map.Base.{
  ℕ, ◌*◌, Bool, true, false, ◌&&◌, Option, none, some, List, ltb, if◌then◌else◌, get_elem?,
  set_elem?, ◌>>=◌, add64, sub64,
}
use pulse_map.AccessBuffer.{push, drain}
use pulse_map.Bucket.{Bucket, find_match, release, store_pair}
use pulse_map.Codec.{PulseKey, PulseValue}
use pulse_map.Hash.{HashResult, compute_hash}
use pulse_map.Meta.{
  full, tombstone, set_state, set_h2, on_access, on_insert, find_free_slot, find_evict_target,
}
use pulse_map.Raw.Clear.{is_some}
use pulse_map.Slab.{SlabPool}
use pulse_map.Slot.{empty_slot, get_value}
use pulse_map.Sync.Resize.{resize}
use pulse_map.Sync.State.{ConcurrentPulseMap, bucket_index, is_expired, stamp_epoch}

abbrev pub drain_batch : ℕ
drain_batch = 64

-- The callback of `drain`: an access is applied to its bucket.
unfoldable pub apply_access : List Bucket → ℕ → ℕ → Option (List Bucket)
unfolding set_elem?
apply_access buckets bucket_idx slot_idx = do
  b ← get_elem? buckets bucket_idx
  set_elem? buckets bucket_idx (record b { meta = on_access b.meta slot_idx })

-- Both writes to a slot of bucket `idx`: the slot, the pool and the metadata word.
unfoldable pub write_slot :
    ConcurrentPulseMap
    → ℕ
    → Bucket
    → ℕ
    → List ℕ
    → List ℕ
    → HashResult
    → ℕ
    → SlabPool
    → Option ConcurrentPulseMap
unfolding store_pair set_elem?
write_slot m idx b slot_idx key value hr word pool = do
  (s, after) ← store_pair pool key value hr
  slots ← set_elem? b.slots slot_idx s
  buckets ← set_elem? m.inner.buckets idx (record { meta = word; slots = slots })
  some (record m { inner = record m.inner { buckets = buckets; slab_pool = after } })

module _ (wyhash : List ℕ → ℕ) where
  -- The first step of `insert_internal`. `len as f64 / cap as f64 > 0.75` is exact, since `cap` is a power of
  -- two and `len` is far below `2 ^ 53`.
  unfoldable pub grow : ConcurrentPulseMap → Option ConcurrentPulseMap
  unfolding resize
  grow m =
      if m.auto_resize && ltb (3 * (m.inner.num_buckets * 4)) (4 * m.count)
      then resize wyhash m (m.inner.num_buckets * 2)
      else some m

  -- The hash, the bucket and the probe loop. `get` makes the comparisons of `matches_key` in the same order,
  -- and takes the lock of the pool later.
  unfoldable pub locate : ConcurrentPulseMap → List ℕ → Option (HashResult × ℕ × Bucket × Option ℕ)
  unfolding compute_hash bucket_index find_match
  locate m key = do
    let hr = compute_hash wyhash key
    let idx = bucket_index m.sharded_index hr.h1 m.inner.bucket_mask
    b ← get_elem? m.inner.buckets idx
    found ← find_match b key hr m.inner.slab_pool
    some (hr, idx, b, found)

  -- A batch of deferred accesses is applied.
  unfoldable pub apply_deferred : ConcurrentPulseMap → Option ConcurrentPulseMap
  unfolding drain apply_access
  apply_deferred m = do
    (buckets, access_buffer) ← drain apply_access drain_batch m.access_buffer m.inner.buckets
    some (record m { inner = record m.inner { buckets = buckets }; access_buffer = access_buffer })

  -- Steps 2 and 3: a new key.
  unfoldable pub add_entry :
      ConcurrentPulseMap → ℕ → Bucket → List ℕ → List ℕ → HashResult → ℕ → Option ConcurrentPulseMap
  unfolding write_slot release stamp_epoch
  add_entry m idx b key value hr ttl =
      let word = λ (t : ℕ). on_insert (set_h2 (set_state b.meta t full) t hr.h2) t in
      elim (find_free_slot b.meta) [
        | some free ↦ (do
          m₁ ← write_slot m idx b free key value hr (word free) m.inner.slab_pool
          m₂ ← stamp_epoch m₁ idx free ttl
          some (record m₂ { count = add64 m₂.count 1 }))
        | none ↦ elim (find_evict_target b.meta) [
          | none ↦ some m
          | some victim ↦ (do
            old ← get_elem? b.slots victim
            m₁ ←
                write_slot m idx b victim key value hr (word victim) (release m.inner.slab_pool old)
            m₂ ← stamp_epoch m₁ idx victim ttl
            some (record m₂ { eviction_count = add64 m₂.eviction_count 1 }))
        ]
      ]

  unfoldable pub insert_bytes : ConcurrentPulseMap → List ℕ → List ℕ → ℕ → Option ConcurrentPulseMap
  unfolding grow locate apply_deferred write_slot release stamp_epoch add_entry
  insert_bytes m key value ttl = do
    grown ← grow m
    m₁ ← apply_deferred (record grown { current_epoch = add64 grown.current_epoch 1 })
    (hr, idx, b, found) ← locate m₁ key
    elim found [
      | some slot_idx ↦ (do
        old ← get_elem? b.slots slot_idx
        m₂ ←
            write_slot m₁ idx b slot_idx key value hr (on_access b.meta slot_idx)
              (release m₁.inner.slab_pool old)
        stamp_epoch m₂ idx slot_idx ttl)
      | none ↦ add_entry m₁ idx b key value hr ttl
    ]

  unfoldable pub get_bytes :
      ConcurrentPulseMap → List ℕ → Option (Option (List ℕ) × ConcurrentPulseMap)
  unfolding locate is_expired push
  get_bytes m key = do
    (hr, idx, b, found) ← locate m key
    elim found [
      | none ↦ some (none, m)
      | some slot_idx ↦ (do
        expired ← is_expired m idx slot_idx
        if expired then some (none, m) else (do
          (_, access_buffer) ← push m.access_buffer idx slot_idx
          s ← get_elem? b.slots slot_idx
          value ← get_value s m.inner.slab_pool
          some (some value, record m { access_buffer = access_buffer })))
    ]

  unfoldable pub peek_bytes : ConcurrentPulseMap → List ℕ → Option (Option (List ℕ))
  unfolding locate is_expired
  peek_bytes m key = do
    (hr, idx, b, found) ← locate m key
    elim found [
      | none ↦ some none
      | some slot_idx ↦ (do
        expired ← is_expired m idx slot_idx
        if expired then some none else (do
          s ← get_elem? b.slots slot_idx
          value ← get_value s m.inner.slab_pool
          some (some value)))
    ]

  unfoldable pub remove_bytes : ConcurrentPulseMap → List ℕ → Option (Bool × ConcurrentPulseMap)
  unfolding locate release set_elem?
  remove_bytes m key = do
    (hr, idx, b, found) ← locate m key
    elim found [
      | none ↦ some (false, m)
      | some slot_idx ↦ (do
        old ← get_elem? b.slots slot_idx
        slots ← set_elem? b.slots slot_idx empty_slot
        let word = set_state b.meta slot_idx tombstone
        buckets ← set_elem? m.inner.buckets idx (record { meta = word; slots = slots })
        let pool = release m.inner.slab_pool old
        some (
          true,
          record m {
            inner = record m.inner { buckets = buckets; slab_pool = pool };
            count = sub64 m.count 1;
          },
        ))
    ]

-- The typed methods.
module _ {ℓ κ} (wyhash : List ℕ → ℕ) {K : Type ℓ} {V : Type κ} (key_codec : PulseKey K)
    (value_codec : PulseValue V) where
  unfoldable pub insert_internal : ConcurrentPulseMap → K → V → ℕ → Option ConcurrentPulseMap
  unfolding insert_bytes
  insert_internal m key value ttl =
      insert_bytes wyhash m (key_codec.to_bytes key) (value_codec.to_bytes value) ttl

  unfoldable pub insert : ConcurrentPulseMap → K → V → Option ConcurrentPulseMap
  unfolding insert_internal
  insert m key value = insert_internal m key value 0

  unfoldable pub insert_ttl : ConcurrentPulseMap → K → V → ℕ → Option ConcurrentPulseMap
  unfolding insert_internal
  insert_ttl m key value ttl = insert_internal m key value ttl

  unfoldable pub get : ConcurrentPulseMap → K → Option (Option V × ConcurrentPulseMap)
  unfolding get_bytes
  get m key = do
    (found, m') ← get_bytes wyhash m (key_codec.to_bytes key)
    some (found >>= value_codec.from_bytes, m')

  unfoldable pub peek : ConcurrentPulseMap → K → Option (Option V)
  unfolding peek_bytes
  peek m key = do
    found ← peek_bytes wyhash m (key_codec.to_bytes key)
    some (found >>= value_codec.from_bytes)

  unfoldable pub contains_key : ConcurrentPulseMap → K → Option Bool
  unfolding peek
  contains_key m key = do found ← peek m key; some (is_some found)

  unfoldable pub remove : ConcurrentPulseMap → K → Option (Bool × ConcurrentPulseMap)
  unfolding remove_bytes
  remove m key = remove_bytes wyhash m (key_codec.to_bytes key)
