-- ===== src/Sync/Resize.antt =====
-- src/sync.rs: `resize`. Every pair of the old map is put into free slots of a new one, and if a bucket is
-- full, the new map is made twice as large and filled again from the start.
pub mod Entries
pub mod Collect
pub mod Gather
pub mod Room
pub mod Refill
pub mod Laws
use pulse_map.Base.{
  ℕ, zero, suc, ◌+◌, ◌-◌, ◌*◌, max, Bool, Option, none, some, List, [], ◌∷◌, ◌++◌, leb,
  if◌then◌else◌, get_elem?, set_elem?, get_or, replicate, ◌>>=◌,
}
use pulse_map.AccessBuffer.{clear}
use pulse_map.Bucket.{Bucket, empty_bucket, store_pair}
use pulse_map.Hash.{compute_hash}
use pulse_map.Meta.{full, is_full, get_state, set_state, set_h2, on_insert, find_free_slot}
use pulse_map.Raw.{SlotTtl, default_slot_ttl, next_power_of_two}
use pulse_map.Slab.{SlabPool, empty_pool}
use pulse_map.Slot.{get_key_bytes, get_value}
use pulse_map.Sync.State.{MapInner, ConcurrentPulseMap, bucket_index}

pub record EntryData : Type 0 where
  pub key_bytes : List ℕ
  pub val_bytes : List ℕ
  pub slot_ttl : SlotTtl

-- The loop over the slots of one bucket, with the rounds left.
unfoldable pub collect_slots :
    ℕ → ℕ → ℕ → Bucket → SlabPool → List SlotTtl → Option (List EntryData)
unfolding get_or
collect_slots zero i bucket_idx b pool epochs = some []
collect_slots (suc left) i bucket_idx b pool epochs = do
  rest ← collect_slots left (i + 1) bucket_idx b pool epochs
  if is_full (get_state b.meta i)
      then (do
        slot ← get_elem? b.slots i
        key ← get_key_bytes slot pool
        val ← get_value slot pool
        let ttl = get_or epochs (bucket_idx * 4 + i) default_slot_ttl
        some (record { key_bytes = key; val_bytes = val; slot_ttl = ttl } ∷ rest))
      else some rest

-- The loop over the buckets.
unfoldable pub collect : ℕ → List Bucket → SlabPool → List SlotTtl → Option (List EntryData)
unfolding collect_slots
collect bucket_idx [] pool epochs = some []
collect bucket_idx (b ∷ bs) pool epochs = do
  here ← collect_slots 4 0 bucket_idx b pool epochs
  rest ← collect (bucket_idx + 1) bs pool epochs
  some (here ++ rest)

-- The new map that one round of the retry loop fills.
pub record Rehash : Type 0 where
  pub buckets : List Bucket
  pub slab_pool : SlabPool
  pub epochs : List SlotTtl
  pub count : ℕ

module _ (wyhash : List ℕ → ℕ) (sharded : Bool) where
  -- One entry; the inner `none` is an overflow.
  unfoldable pub rehash_entry : ℕ → Rehash → EntryData → Option (Option Rehash)
  unfolding compute_hash bucket_index store_pair set_elem?
  rehash_entry new_mask r e = do
    let hr = compute_hash wyhash e.key_bytes
    let new_idx = bucket_index sharded hr.h1 new_mask
    b ← get_elem? r.buckets new_idx
    elim (find_free_slot b.meta) [
      | none ↦ some none
      | some free ↦ (do
        (s, pool) ← store_pair r.slab_pool e.key_bytes e.val_bytes hr
        slots ← set_elem? b.slots free s
        let word = on_insert (set_h2 (set_state b.meta free full) free hr.h2) free
        buckets ← set_elem? r.buckets new_idx (record { meta = word; slots = slots })
        epochs ← set_elem? r.epochs (new_idx * 4 + free) e.slot_ttl
        some (
            some (record {
              buckets = buckets;
              slab_pool = pool;
              epochs = epochs;
              count = r.count + 1;
            })))
    ]

  unfoldable pub rehash_all : ℕ → Rehash → List EntryData → Option (Option Rehash)
  unfolding rehash_entry
  rehash_all new_mask r [] = some (some r)
  rehash_all new_mask r (e ∷ es) = do
    next ← rehash_entry new_mask r e
    elim next [ none ↦ some none | some r' ↦ rehash_all new_mask r' es ]

  unfoldable pub empty_rehash : ℕ → Rehash
  unfolding replicate
  empty_rehash new_actual = record {
    buckets = replicate new_actual empty_bucket;
    slab_pool = empty_pool;
    epochs = replicate (new_actual * 4) default_slot_ttl;
    count = 0;
  }

  -- The retry loop. Its fuel is a number of doublings; past it no `Vec` of that many buckets can be had, and
  -- the code panics.
  unfoldable pub retry : ℕ → ℕ → List EntryData → Option (ℕ × Rehash)
  unfolding rehash_all empty_rehash
  retry zero new_actual es = none
  retry (suc fuel) new_actual es = do
    filled ← rehash_all (new_actual - 1) (empty_rehash new_actual) es
    elim filled [ some r ↦ some (new_actual, r) | none ↦ retry fuel (new_actual * 2) es ]

unfoldable pub resize : (List ℕ → ℕ) → ConcurrentPulseMap → ℕ → Option ConcurrentPulseMap
unfolding clear collect retry
resize wyhash m new_num_buckets =
    let new_actual = next_power_of_two (max new_num_buckets 1) in
    if leb new_actual m.inner.num_buckets then some m else (do
      access_buffer ← clear m.access_buffer
      entries ← collect 0 m.inner.buckets m.inner.slab_pool m.inner.epochs
      (actual, r) ← retry wyhash m.sharded_index 64 new_actual entries
      let inner : MapInner = record {
        buckets = r.buckets;
        slab_pool = r.slab_pool;
        num_buckets = actual;
        bucket_mask = actual - 1;
        epochs = r.epochs;
      }
      some (record m { inner = inner; count = r.count; access_buffer = access_buffer }))
