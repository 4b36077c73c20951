-- ===== src/Sharded.antt =====
-- src/sharded.rs: `ShardedPulseMap`, 16 concurrent maps that share the keys by four bits of the hash. A
-- method returns the new map; `none` is a panic.
pub mod Routing
pub mod Laws
use pulse_map.Base.{
  ℕ, zero, suc, ◌+◌, ◌-◌, max, Bool, true, false, ◌&&◌, Option, none, some, List, [], ◌∷◌, bit_and,
  ◌>>>◌, if◌then◌else◌, get_elem?, set_elem?, replicate, ◌>>=◌, add64,
}
use pulse_map.Codec.{PulseKey, PulseValue}
use pulse_map.Hash.{compute_hash}
use pulse_map.Raw.Clear.{is_some}
use pulse_map.Sync.Ops
use pulse_map.Sync.Resize
use pulse_map.Sync.State
use pulse_map.Sync.State.{ConcurrentPulseMap, new_shard}

abbrev pub num_shards : ℕ
num_shards = 16

pub record ShardedPulseMap : Type 0 where
  pub shards : List ConcurrentPulseMap

unfoldable pub new : ℕ → ShardedPulseMap
unfolding replicate
new buckets_per_shard = record { shards = replicate num_shards (new_shard buckets_per_shard false) }

unfoldable pub with_auto_resize : ℕ → ShardedPulseMap
unfolding replicate
with_auto_resize buckets_per_shard = record {
  shards = replicate num_shards (new_shard buckets_per_shard true);
}

-- `shards.iter().map(f).sum()`
unfoldable pub sum_of : (ConcurrentPulseMap → ℕ) → List ConcurrentPulseMap → ℕ
sum_of f [] = 0
sum_of f (s ∷ ss) = add64 (f s) (sum_of f ss)

-- `shards.iter().map(f).max().unwrap_or(0)`
unfoldable pub max_of : (ConcurrentPulseMap → ℕ) → List ConcurrentPulseMap → ℕ
max_of f [] = 0
max_of f (s ∷ ss) = max (f s) (max_of f ss)

-- `shards.iter().all(f)`
unfoldable pub all_of : (ConcurrentPulseMap → Bool) → List ConcurrentPulseMap → Bool
all_of f [] = true
all_of f (s ∷ ss) = f s && all_of f ss

-- `for shard in self.shards.iter() { f(shard) }`
unfoldable pub each :
    (ConcurrentPulseMap → Option ConcurrentPulseMap)
    → List ConcurrentPulseMap
    → Option (List ConcurrentPulseMap)
each f [] = some []
each f (s ∷ ss) = do s' ← f s; ss' ← each f ss; some (s' ∷ ss')

module _ (wyhash : List ℕ → ℕ) where
  unfoldable pub shard_for : List ℕ → ℕ
  unfolding compute_hash
  shard_for key_bytes = bit_and ((compute_hash wyhash key_bytes).h1 >>> 14) (num_shards - 1)

  unfoldable pub resize_all : ShardedPulseMap → ℕ → Option ShardedPulseMap
  unfolding each
  resize_all m new_buckets_per_shard = do
    shards ← each (λ s. Resize.resize wyhash s new_buckets_per_shard) m.shards
    some (record { shards = shards })

module _ {ℓ κ} (wyhash : List ℕ → ℕ) {K : Type ℓ} {V : Type κ} (key_codec : PulseKey K)
    (value_codec : PulseValue V) where
  -- The shard of a key.
  unfoldable pub shard_of : K → ℕ
  unfolding shard_for
  shard_of key = shard_for wyhash (key_codec.to_bytes key)

  unfoldable pub insert : ShardedPulseMap → K → V → Option ShardedPulseMap
  unfolding shard_of set_elem?
  insert m key value = do
    let idx = shard_of key
    shard ← get_elem? m.shards idx
    shard' ← Ops.insert wyhash key_codec value_codec shard key value
    shards ← set_elem? m.shards idx shard'
    some (record { shards = shards })

  unfoldable pub insert_ttl : ShardedPulseMap → K → V → ℕ → Option ShardedPulseMap
  unfolding shard_of set_elem?
  insert_ttl m key value ttl = do
    let idx = shard_of key
    shard ← get_elem? m.shards idx
    shard' ← Ops.insert_ttl wyhash key_codec value_codec shard key value ttl
    shards ← set_elem? m.shards idx shard'
    some (record { shards = shards })

  unfoldable pub get : ShardedPulseMap → K → Option (Option V × ShardedPulseMap)
  unfolding shard_of set_elem?
  get m key = do
    let idx = shard_of key
    shard ← get_elem? m.shards idx
    (found, shard') ← Ops.get wyhash key_codec value_codec shard key
    shards ← set_elem? m.shards idx shard'
    some (found, record { shards = shards })

  unfoldable pub peek : ShardedPulseMap → K → Option (Option V)
  unfolding shard_of
  peek m key = do
    shard ← get_elem? m.shards (shard_of key)
    Ops.peek wyhash key_codec value_codec shard key

  unfoldable pub contains_key : ShardedPulseMap → K → Option Bool
  unfolding peek
  contains_key m key = do found ← peek m key; some (is_some found)

  unfoldable pub remove : ShardedPulseMap → K → Option (Bool × ShardedPulseMap)
  unfolding shard_of set_elem?
  remove m key = do
    let idx = shard_of key
    shard ← get_elem? m.shards idx
    (found, shard') ← Ops.remove wyhash key_codec value_codec shard key
    shards ← set_elem? m.shards idx shard'
    some (found, record { shards = shards })

unfoldable pub set_ttl : ShardedPulseMap → ℕ → Option ShardedPulseMap
unfolding each
set_ttl m ttl = do
  shards ← each (λ s. some (State.set_ttl s ttl)) m.shards
  some (record { shards = shards })

unfoldable pub get_ttl : ShardedPulseMap → Option ℕ
get_ttl m = do first ← get_elem? m.shards 0; some (State.get_ttl first)

unfoldable pub current_epoch : ShardedPulseMap → ℕ
unfolding max_of
current_epoch m = max_of State.current_epoch m.shards

unfoldable pub len : ShardedPulseMap → ℕ
unfolding sum_of
len m = sum_of State.len m.shards

unfoldable pub is_empty : ShardedPulseMap → Bool
unfolding all_of
is_empty m = all_of State.is_empty m.shards

unfoldable pub capacity : ShardedPulseMap → ℕ
unfolding sum_of
capacity m = sum_of State.capacity m.shards

unfoldable pub eviction_count : ShardedPulseMap → ℕ
unfolding sum_of
eviction_count m = sum_of State.eviction_count m.shards
