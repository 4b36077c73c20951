-- ===== src/Raw.antt =====
-- src/raw.rs: the byte-level map. A method on `&mut self` returns the new map, and so does `get`, which
-- updates a priority through `&self`. `none` is a panic. `usize` has 64 bits, so `h1 as usize` is `h1`;
-- counters wrap as in a release build. Prefetching has no effect on the result.
pub mod Invariant
pub mod Lookup
pub mod Change
pub mod Keep
pub mod Clear
pub mod Remove
pub mod Place
pub mod Rewrite
pub mod Ttl
pub mod History
pub mod New
pub mod Get
pub mod Insert
pub mod Words
pub mod Choose
use pulse_map.Base.{
  ℕ, zero, suc, ◌+◌, ◌-◌, ◌*◌, max, Bool, true, false, ◌||◌, Option, none, some, List, [], ◌∷◌,
  bit_and, ltb, leb, ◌==◌, if◌then◌else◌, length, get_elem?, set_elem?, replicate, ◌>>=◌, add64,
  sub64, u64_max,
}
use pulse_map.Bucket.{Bucket, empty_bucket, find_match, release, store_pair}
use pulse_map.Hash.{HashResult, compute_hash}
use pulse_map.Meta.{
  full, tombstone, is_full, get_state, set_state, set_h2, on_access, on_insert, find_evict_target,
}
use pulse_map.Slab.{SlabPool, empty_pool}
use pulse_map.Slot.{empty_slot, get_value}

pub record SlotTtl : Type 0 where
  pub epoch : ℕ
  pub ttl : ℕ

-- `SlotTTL::default()`
abbrev pub default_slot_ttl : SlotTtl
default_slot_ttl = record { epoch = 0; ttl = 0 }

pub record PulseMapRaw : Type 0 where
  pub buckets : List Bucket
  pub slab_pool : SlabPool
  pub num_buckets : ℕ
  pub bucket_mask : ℕ
  pub count : ℕ
  pub eviction_count : ℕ
  pub slots_ttl : List SlotTtl
  pub current_epoch : ℕ
  pub default_ttl : ℕ

-- `usize::next_power_of_two`, by doubling; 64 doublings pass every `usize`.
unfoldable pub doubled_until : ℕ → ℕ → ℕ → ℕ
doubled_until zero p n = p
doubled_until (suc fuel) p n =
    let next = doubled_until fuel (2 * p) n in if leb n p then p else next

unfoldable pub next_power_of_two : ℕ → ℕ
unfolding doubled_until
next_power_of_two n = doubled_until 64 1 n

unfoldable pub new : ℕ → PulseMapRaw
unfolding next_power_of_two replicate
new num_buckets =
    let actual = next_power_of_two (max num_buckets 1) in
    record {
      buckets = replicate actual empty_bucket;
      slab_pool = empty_pool;
      num_buckets = actual;
      bucket_mask = actual - 1;
      count = 0;
      eviction_count = 0;
      slots_ttl = replicate (actual * 4) default_slot_ttl;
      current_epoch = 0;
      default_ttl = 0;
    }

unfoldable pub set_ttl : PulseMapRaw → ℕ → PulseMapRaw
set_ttl m ttl_epochs = record m { default_ttl = ttl_epochs }

unfoldable pub get_ttl : PulseMapRaw → ℕ
get_ttl m = m.default_ttl

unfoldable pub current_epoch : PulseMapRaw → ℕ
current_epoch m = m.current_epoch

-- The test of `is_expired` on the entry that it reads.
unfoldable pub is_stale : ℕ → ℕ → SlotTtl → Bool
is_stale default_ttl now entry =
    let effective_ttl = if entry.ttl == 0 then default_ttl else entry.ttl in
    if effective_ttl == 0 || effective_ttl == u64_max
    then false
    else ltb effective_ttl (sub64 now entry.epoch)

unfoldable pub is_expired : PulseMapRaw → ℕ → ℕ → Option Bool
unfolding is_stale
is_expired m bucket_idx slot_idx = do
  entry ← get_elem? m.slots_ttl (bucket_idx * 4 + slot_idx)
  some (is_stale m.default_ttl m.current_epoch entry)

unfoldable pub stamp_slot_ttl : PulseMapRaw → ℕ → ℕ → ℕ → Option PulseMapRaw
unfolding set_elem?
stamp_slot_ttl m bucket_idx slot_idx ttl = do
  stamped ←
      set_elem? m.slots_ttl (bucket_idx * 4 + slot_idx)
        (record { epoch = m.current_epoch; ttl = ttl })
  some (record m { slots_ttl = stamped })

-- The loop of `find_free_or_expired`, with the rounds left: empty, tombstone or expired.
unfoldable pub reusable_from : ℕ → ℕ → PulseMapRaw → ℕ → Bucket → Option (Option ℕ)
unfolding is_expired
reusable_from zero i m bucket_idx b = some none
reusable_from (suc left) i m bucket_idx b = elim (is_full (get_state b.meta i)) [
  | false ↦ some (some i)
  | true ↦ elim (is_expired m bucket_idx i) [
    | none ↦ none
    | some true ↦ some (some i)
    | some false ↦ reusable_from left (i + 1) m bucket_idx b
  ]
]

unfoldable pub find_free_or_expired : PulseMapRaw → ℕ → Bucket → Option (Option ℕ)
unfolding reusable_from
find_free_or_expired m bucket_idx b = reusable_from 4 0 m bucket_idx b

-- Step 1 of `insert_internal`, after a match: the value is written in place.
unfoldable pub update_slot :
    PulseMapRaw → ℕ → Bucket → ℕ → List ℕ → List ℕ → HashResult → ℕ → Option PulseMapRaw
unfolding release store_pair stamp_slot_ttl set_elem?
update_slot m bucket_idx b slot_idx key value hr ttl = do
  old ← get_elem? b.slots slot_idx
  (s, pool) ← store_pair (release m.slab_pool old) key value hr
  slots ← set_elem? b.slots slot_idx s
  buckets ←
      set_elem? m.buckets bucket_idx (record { meta = on_access b.meta slot_idx; slots = slots })
  stamp_slot_ttl (record m { buckets = buckets; slab_pool = pool }) bucket_idx slot_idx ttl

-- What step 2 does to a full slot that is to be reused.
unfoldable pub evict : PulseMapRaw → Bucket → ℕ → Option PulseMapRaw
unfolding release
evict m b slot_idx = do
  old ← get_elem? b.slots slot_idx
  some (record m { slab_pool = release m.slab_pool old; eviction_count = add64 m.eviction_count 1 })

-- Step 2: a free or expired slot, else the slot of the least priority; `none` of the inner option is the
-- early return. The Boolean is `is_eviction`.
unfoldable pub choose_slot : PulseMapRaw → ℕ → Bucket → Option (Option (ℕ × Bool × PulseMapRaw))
unfolding find_free_or_expired evict
choose_slot m bucket_idx b = do
  reusable ← find_free_or_expired m bucket_idx b
  elim reusable [
    | some free ↦
        if is_full (get_state b.meta free)
        then (do m' ← evict m b free; some (some (free, true, m')))
        else some (some (free, false, m))
    | none ↦ elim (find_evict_target b.meta) [
      | some victim ↦ (do m' ← evict m b victim; some (some (victim, true, m')))
      | none ↦ some none
    ]
  ]

-- Step 3: the pair goes into the target slot.
unfoldable pub fill_slot :
    PulseMapRaw → ℕ → Bucket → ℕ → Bool → List ℕ → List ℕ → HashResult → ℕ → Option PulseMapRaw
unfolding store_pair stamp_slot_ttl set_elem?
fill_slot m bucket_idx b target is_eviction key value hr ttl = do
  (s, pool) ← store_pair m.slab_pool key value hr
  slots ← set_elem? b.slots target s
  let word = on_insert (set_h2 (set_state b.meta target full) target hr.h2) target
  buckets ← set_elem? m.buckets bucket_idx (record { meta = word; slots = slots })
  m' ← stamp_slot_ttl (record m { buckets = buckets; slab_pool = pool }) bucket_idx target ttl
  some (if is_eviction then m' else record m' { count = add64 m'.count 1 })

-- `remove`, after a match.
unfoldable pub clear_slot : PulseMapRaw → ℕ → Bucket → ℕ → Option PulseMapRaw
unfolding release set_elem?
clear_slot m bucket_idx b slot_idx = do
  old ← get_elem? b.slots slot_idx
  slots ← set_elem? b.slots slot_idx empty_slot
  buckets ←
      set_elem? m.buckets bucket_idx
        (record { meta = set_state b.meta slot_idx tombstone; slots = slots })
  some
      (record m { buckets = buckets; slab_pool = release m.slab_pool old; count = sub64 m.count 1 })

module _ (wyhash : List ℕ → ℕ) where
  -- The start that `insert_internal`, `get`, `peek` and `remove` share: the hash, the bucket and the
  -- probe loop.
  unfoldable pub locate : PulseMapRaw → List ℕ → Option (HashResult × ℕ × Bucket × Option ℕ)
  unfolding compute_hash find_match
  locate m key = do
    let hr = compute_hash wyhash key
    let bucket_idx = bit_and hr.h1 m.bucket_mask
    b ← get_elem? m.buckets bucket_idx
    found ← find_match b key hr m.slab_pool
    some (hr, bucket_idx, b, found)

  unfoldable pub insert_internal : PulseMapRaw → List ℕ → List ℕ → ℕ → Option PulseMapRaw
  unfolding locate update_slot choose_slot fill_slot
  insert_internal m key value ttl = do
    let m₁ = record m { current_epoch = add64 m.current_epoch 1 }
    (hr, bucket_idx, b, found) ← locate m₁ key
    elim found [
      | some slot_idx ↦ update_slot m₁ bucket_idx b slot_idx key value hr ttl
      | none ↦ (do
        chosen ← choose_slot m₁ bucket_idx b
        elim chosen [
          | none ↦ some m₁
          | some (target, is_eviction, m₂) ↦
              fill_slot m₂ bucket_idx b target is_eviction key value hr ttl
        ])
    ]

  unfoldable pub insert : PulseMapRaw → List ℕ → List ℕ → Option PulseMapRaw
  unfolding insert_internal
  insert m key value = insert_internal m key value 0

  unfoldable pub insert_ttl : PulseMapRaw → List ℕ → List ℕ → ℕ → Option PulseMapRaw
  unfolding insert_internal
  insert_ttl m key value ttl = insert_internal m key value ttl

  unfoldable pub get : PulseMapRaw → List ℕ → Option (Option (List ℕ) × PulseMapRaw)
  unfolding locate is_expired set_elem?
  get m key = do
    (hr, bucket_idx, b, found) ← locate m key
    elim found [
      | none ↦ some (none, m)
      | some slot_idx ↦ (do
        expired ← is_expired m bucket_idx slot_idx
        if expired then some (none, m) else (do
          s ← get_elem? b.slots slot_idx
          buckets ← set_elem? m.buckets bucket_idx (record b { meta = on_access b.meta slot_idx })
          value ← get_value s m.slab_pool
          some (some value, record m { buckets = buckets })))
    ]

  unfoldable pub peek : PulseMapRaw → List ℕ → Option (Option (List ℕ))
  unfolding locate is_expired
  peek m key = do
    (hr, bucket_idx, b, found) ← locate m key
    elim found [
      | none ↦ some none
      | some slot_idx ↦ (do
        expired ← is_expired m bucket_idx slot_idx
        if expired then some none else (do
          s ← get_elem? b.slots slot_idx
          value ← get_value s m.slab_pool
          some (some value)))
    ]

  unfoldable pub remove : PulseMapRaw → List ℕ → Option (Bool × PulseMapRaw)
  unfolding locate clear_slot
  remove m key = do
    (hr, bucket_idx, b, found) ← locate m key
    elim found [
      | none ↦ some (false, m)
      | some slot_idx ↦ (do m' ← clear_slot m bucket_idx b slot_idx; some (true, m'))
    ]

unfoldable pub len : PulseMapRaw → ℕ
len m = m.count

unfoldable pub is_empty : PulseMapRaw → Bool
is_empty m = m.count == 0

unfoldable pub capacity : PulseMapRaw → ℕ
capacity m = m.num_buckets * 4

unfoldable pub num_buckets : PulseMapRaw → ℕ
num_buckets m = m.num_buckets

unfoldable pub eviction_count : PulseMapRaw → ℕ
eviction_count m = m.eviction_count
