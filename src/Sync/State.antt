-- ===== src/Sync/State.antt =====
-- src/sync.rs: the state of the map, its construction and its counters; and `bucket_hash` of src/sharded.rs.
use pulse_map.Base.{
  ℕ, ◌+◌, ◌-◌, ◌*◌, max, Bool, true, false, Option, some, List, bit_and, bit_or, complement, ◌>>>◌,
  ◌<<<◌, ◌==◌, if◌then◌else◌, get_elem?, set_elem?, replicate, ◌>>=◌,
}
use pulse_map.AccessBuffer.{AccessBuffer, new_buffer}
use pulse_map.Bucket.{Bucket, empty_bucket}
use pulse_map.Raw.{SlotTtl, default_slot_ttl, next_power_of_two, is_stale}
use pulse_map.Slab.{SlabPool, empty_pool}

-- The locks are left out, since they are free between operations.
pub record MapInner : Type 0 where
  pub buckets : List Bucket
  pub slab_pool : SlabPool
  pub num_buckets : ℕ
  pub bucket_mask : ℕ
  pub epochs : List SlotTtl

-- `MapInner::new`
unfoldable pub new_inner : ℕ → MapInner
unfolding replicate
new_inner num_buckets =
    let actual = next_power_of_two (max num_buckets 1) in
    record {
      buckets = replicate actual empty_bucket;
      slab_pool = empty_pool;
      num_buckets = actual;
      bucket_mask = actual - 1;
      epochs = replicate (actual * 4) default_slot_ttl;
    }

-- The threshold of the load, 0.75, is written where it is used.
pub record ConcurrentPulseMap : Type 0 where
  pub inner : MapInner
  pub count : ℕ
  pub eviction_count : ℕ
  pub auto_resize : Bool
  pub sharded_index : Bool
  pub current_epoch : ℕ
  pub default_ttl : ℕ
  pub access_buffer : AccessBuffer

unfoldable pub with_config : ℕ → Bool → Bool → ConcurrentPulseMap
unfolding new_inner new_buffer
with_config num_buckets auto_resize sharded_index = record {
  inner = new_inner num_buckets;
  count = 0;
  eviction_count = 0;
  auto_resize = auto_resize;
  sharded_index = sharded_index;
  current_epoch = 0;
  default_ttl = 0;
  access_buffer = new_buffer 4096;
}

unfoldable pub new : ℕ → ConcurrentPulseMap
unfolding with_config
new num_buckets = with_config num_buckets false false

unfoldable pub new_shard : ℕ → Bool → ConcurrentPulseMap
unfolding with_config
new_shard num_buckets auto_resize = with_config num_buckets auto_resize true

unfoldable pub with_auto_resize : ℕ → ConcurrentPulseMap
unfolding with_config
with_auto_resize num_buckets = with_config num_buckets true false

-- `LOW` of `bucket_hash`
abbrev pub low_bits : ℕ
low_bits = (1 <<< 14) - 1

-- `bucket_hash` of src/sharded.rs
unfoldable pub bucket_hash : ℕ → ℕ
bucket_hash hash = bit_or (bit_and hash low_bits) (bit_and (hash >>> 4) (complement low_bits))

-- `bucket_index`, by the flag `sharded_index`
unfoldable pub bucket_index : Bool → ℕ → ℕ → ℕ
unfolding bucket_hash
bucket_index sharded hash mask = bit_and (if sharded then bucket_hash hash else hash) mask

unfoldable pub set_ttl : ConcurrentPulseMap → ℕ → ConcurrentPulseMap
set_ttl m ttl = record m { default_ttl = ttl }

unfoldable pub get_ttl : ConcurrentPulseMap → ℕ
get_ttl m = m.default_ttl

unfoldable pub current_epoch : ConcurrentPulseMap → ℕ
current_epoch m = m.current_epoch

unfoldable pub is_expired : ConcurrentPulseMap → ℕ → ℕ → Option Bool
unfolding is_stale
is_expired m bucket_idx slot_idx = do
  entry ← get_elem? m.inner.epochs (bucket_idx * 4 + slot_idx)
  some (is_stale m.default_ttl m.current_epoch entry)

unfoldable pub stamp_epoch : ConcurrentPulseMap → ℕ → ℕ → ℕ → Option ConcurrentPulseMap
unfolding set_elem?
stamp_epoch m bucket_idx slot_idx ttl = do
  stamped ←
      set_elem? m.inner.epochs (bucket_idx * 4 + slot_idx)
        (record { epoch = m.current_epoch; ttl = ttl })
  some (record m { inner = record m.inner { epochs = stamped } })

unfoldable pub len : ConcurrentPulseMap → ℕ
len m = m.count

unfoldable pub is_empty : ConcurrentPulseMap → Bool
is_empty m = m.count == 0

unfoldable pub capacity : ConcurrentPulseMap → ℕ
capacity m = m.inner.num_buckets * 4

unfoldable pub eviction_count : ConcurrentPulseMap → ℕ
eviction_count m = m.eviction_count

unfoldable pub num_buckets : ConcurrentPulseMap → ℕ
num_buckets m = m.inner.num_buckets
