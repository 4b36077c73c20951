-- ===== src/Tests/Sync.antt =====
-- Runs of the theorems on a small concurrent map, its resize, and a sharded map.
use pulse_map.Base.{
  ℕ, max, ◌≡◌, ◌≢◌, arith, Bool, true, false, none, some, List, get_elem?, get_elem?-replicate,
  eq_of_some, subst, sym, ◌∙◌,
}
use pulse_map.Codec.{u8_key, u16_value}
use pulse_map.Raw.Clear.{Removes, is_some}
use pulse_map.Raw.New.{IsLeast}
use pulse_map.Raw.{next_power_of_two}
use pulse_map.Sharded.Laws.{
  AllConsistent, new-AllConsistent, peek-insert_ttl_sharded, remove-sharded, held, shard_for-lt,
}
use pulse_map.Sharded.{ShardedPulseMap, shard_for, shard_of}
use pulse_map.Sharded
use pulse_map.Sync.Insert.{CanGrow, Prepares, insert_bytes-Writes}
use pulse_map.Sync.Laws.{with_config-IsConsistent, Inserts, insert_bytes-Inserts}
use pulse_map.Sync.Lookup.{get_bytes-shows, remove_bytes-Removes}
use pulse_map.Sync.Ops.{insert_bytes, get_bytes, remove_bytes}
use pulse_map.Sync.Resize.Laws.{Preserves, resize-Preserves}
use pulse_map.Sync.Resize.{resize}
use pulse_map.Sync.State.{ConcurrentPulseMap, with_config, new_shard}
use pulse_map.Sync.View.{view, spread_by, IsConsistent, holds, shows}
use pulse_map.Sync.Write.{Writes}
use pulse_map.Tests.Map.{
  test_hash, short_key, long_key, two_bytes, short-Fits, long-Fits, reads_back, bytes_fit,
}

with_config-IsConsistent_example :
    IsConsistent test_hash (with_config 3 true true)
    × IsLeast 0 (max 3 1) (with_config 3 true true).inner.num_buckets
    × ((key : List ℕ) → holds test_hash (with_config 3 true true) key ≡ none)
with_config-IsConsistent_example = with_config-IsConsistent test_hash 3 true true (omega arith)

empty-IsConsistent : IsConsistent test_hash (with_config 3 true true)
empty-IsConsistent = (with_config-IsConsistent test_hash 3 true true (omega arith)).0

empty-CanGrow : CanGrow (with_config 3 true true)
unfolding with_config next_power_of_two
empty-CanGrow = omega arith

insert_bytes-Inserts_example :
    (m' : ConcurrentPulseMap) × (insert_bytes test_hash
        (with_config 3 true true)
        short_key
        two_bytes
        0
      ≡ some m')
    × Inserts test_hash (with_config 3 true true) short_key two_bytes 0 m'
insert_bytes-Inserts_example =
    insert_bytes-Inserts test_hash empty-IsConsistent empty-CanGrow short_key two_bytes short-Fits 0

abbrev one_pair : ConcurrentPulseMap
one_pair =
    (insert_bytes-Inserts test_hash empty-IsConsistent empty-CanGrow short_key two_bytes short-Fits
      0).0

one-IsConsistent : IsConsistent test_hash one_pair
one-IsConsistent =
    (insert_bytes-Inserts test_hash empty-IsConsistent empty-CanGrow short_key two_bytes short-Fits
      0).2.consistent

get_bytes-shows_example :
    (m' : ConcurrentPulseMap) × (get_bytes test_hash one_pair short_key
      ≡ some (shows test_hash one_pair short_key, m'))
    × (view m' ≡ view one_pair)
    × (m'.sharded_index ≡ one_pair.sharded_index)
    × IsConsistent test_hash m'
get_bytes-shows_example = get_bytes-shows test_hash one-IsConsistent short_key

remove_bytes-Removes_example :
    (found : Bool) × (m' : ConcurrentPulseMap) × (remove_bytes test_hash one_pair short_key
      ≡ some (found, m'))
    × Removes test_hash (spread_by one_pair.sharded_index) (view one_pair) short_key found (view m')
    × (m'.sharded_index ≡ one_pair.sharded_index)
    × IsConsistent test_hash m'
remove_bytes-Removes_example = remove_bytes-Removes test_hash one-IsConsistent short_key

resize-Preserves_example :
    (m' : ConcurrentPulseMap) × (resize test_hash one_pair 17 ≡ some m')
    × Preserves test_hash one_pair m'
    × (m'.inner.num_buckets ≡ max one_pair.inner.num_buckets (next_power_of_two (max 17 1)))
resize-Preserves_example = resize-Preserves test_hash one-IsConsistent 17 (omega arith)

insert_bytes-Writes_example :
    (before m' : ConcurrentPulseMap) × (insert_bytes test_hash
        (with_config 3 true true)
        long_key
        two_bytes
        5
      ≡ some m')
    × Prepares test_hash (with_config 3 true true) before
    × Writes test_hash before long_key two_bytes 5 m'
insert_bytes-Writes_example =
    insert_bytes-Writes test_hash empty-IsConsistent empty-CanGrow long_key two_bytes long-Fits 5

abbrev sharded : ShardedPulseMap
sharded = Sharded.new 3

sharded-AllConsistent : AllConsistent test_hash sharded
sharded-AllConsistent = new-AllConsistent test_hash 3 (omega arith)

shard-CanGrow : CanGrow (new_shard 3 false)
unfolding new_shard next_power_of_two
shard-CanGrow = omega arith

sharded-CanGrow :
    (s : ConcurrentPulseMap)
    → get_elem? sharded.shards (shard_for test_hash (u8_key.to_bytes 5)) ≡ some s
    → CanGrow s
unfolding Sharded.new
sharded-CanGrow s at =
    let bound = shard_for-lt test_hash (u8_key.to_bytes 5) in
    let same : new_shard 3 false ≡ s =
      eq_of_some (sym (get_elem?-replicate 16 _ (new_shard 3 false) bound) ∙ at) in
    subst CanGrow same shard-CanGrow

peek-insert_ttl_sharded_example :
    (m' : ShardedPulseMap) × (Sharded.insert_ttl test_hash u8_key u16_value sharded 5 300 9
      ≡ some m')
    × (Sharded.peek test_hash u8_key u16_value m' 5 ≡ some (some 300))
    × ((other : ℕ)
        → shard_of test_hash u8_key u16_value other ≢ shard_for test_hash (u8_key.to_bytes 5)
        → Sharded.peek test_hash u8_key u16_value m' other
          ≡ Sharded.peek test_hash u8_key u16_value sharded other)
    × AllConsistent test_hash m'
peek-insert_ttl_sharded_example =
    peek-insert_ttl_sharded test_hash u8_key u16_value sharded-AllConsistent 5 300 reads_back
      bytes_fit sharded-CanGrow 9

remove-sharded_example :
    (found : Bool) × (m' : ShardedPulseMap) × (Sharded.remove test_hash u8_key u16_value sharded 5
      ≡ some (found, m'))
    × (found ≡ is_some (held test_hash sharded (u8_key.to_bytes 5)))
    × (Sharded.peek test_hash u8_key u16_value m' 5 ≡ some none)
    × ((other : ℕ)
        → shard_of test_hash u8_key u16_value other ≢ shard_for test_hash (u8_key.to_bytes 5)
        → Sharded.peek test_hash u8_key u16_value m' other
          ≡ Sharded.peek test_hash u8_key u16_value sharded other)
    × AllConsistent test_hash m'
remove-sharded_example = remove-sharded test_hash u8_key u16_value sharded-AllConsistent 5
