-- ===== src/Sync/View.antt =====
-- A concurrent map seen as a table of buckets, with its queue of deferred accesses; and the start that its
-- operations share.
use pulse_map.AccessBuffer.Queue.{Represents}
use pulse_map.Base.{ℕ, ◌<◌, ◌≡◌, Bool, Option, some, List, [], ◌∷◌, if◌then◌else◌, ◌>>=◌}
use pulse_map.Bucket.Entries.{position, find_match-position}
use pulse_map.Hash.{compute_hash}
use pulse_map.Raw.Invariant.{index, IsValid, stored, visible}
use pulse_map.Raw.Lookup.{home, home_at, home-IsSound}
use pulse_map.Raw.{PulseMapRaw, SlotTtl}
use pulse_map.Sync.Ops.{locate}
use pulse_map.Sync.State.{ConcurrentPulseMap, bucket_hash, bucket_index}

abbrev pub view : ConcurrentPulseMap → PulseMapRaw
view m = record {
  buckets = m.inner.buckets;
  slab_pool = m.inner.slab_pool;
  num_buckets = m.inner.num_buckets;
  bucket_mask = m.inner.bucket_mask;
  count = m.count;
  eviction_count = m.eviction_count;
  slots_ttl = m.inner.epochs;
  current_epoch = m.current_epoch;
  default_ttl = m.default_ttl;
}

-- The bits of the hash that choose the bucket.
abbrev pub spread_by : Bool → ℕ → ℕ
spread_by sharded hash = if sharded then bucket_hash hash else hash

-- Accesses that name a slot of a table with `n` buckets.
abbrev pub Inside : ℕ → List (ℕ × ℕ) → Type 0
Inside n [] = Unit
Inside n ((bucket, slot) ∷ q) = (bucket < n) × (slot < 4) × Inside n q

module _ (wyhash : List ℕ → ℕ) where
  pub record IsConsistent (m : ConcurrentPulseMap) : Type 0 where
    pub table : IsValid wyhash (spread_by m.sharded_index) (view m)
    pub exponent : ℕ
    pub taken : ℕ
    pub queue : List (ℕ × ℕ)
    pub represents : Represents exponent taken queue m.access_buffer
    pub inside : Inside m.inner.num_buckets queue

  -- The abstract map: the value and the TTL record under a key, and what a lookup shows of it.
  abbrev pub holds : ConcurrentPulseMap → List ℕ → Option (List ℕ × SlotTtl)
  holds m key = stored wyhash (spread_by m.sharded_index) (view m) key

  abbrev pub shows : ConcurrentPulseMap → List ℕ → Option (List ℕ)
  shows m key = visible wyhash (spread_by m.sharded_index) (view m) key

  pub locate_lem :
      (m : ConcurrentPulseMap) (v : IsValid wyhash (spread_by m.sharded_index) (view m))
      (key : List ℕ)
      → locate wyhash m key
        ≡ some (
          compute_hash wyhash key,
          index wyhash (spread_by m.sharded_index) (view m) key,
          home wyhash (spread_by m.sharded_index) v key,
          position m.inner.slab_pool (home wyhash (spread_by m.sharded_index) v key) key,
        )
  unfolding locate index bucket_index
  locate_lem m v key =
      let spread = spread_by m.sharded_index in
      rw (
        home_at wyhash spread v key,
        ◌>>=◌,
        find_match-position wyhash m.inner.slab_pool (home wyhash spread v key) key
            (home-IsSound wyhash spread v key),
      )
