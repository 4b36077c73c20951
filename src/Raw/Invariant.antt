-- ===== src/Raw/Invariant.antt =====
-- The representation invariant of a table of buckets, and the start that the operations share. The maps of
-- src/raw.rs and src/sync.rs differ in how they spread the hashes over the buckets: the first by the low bits
-- of the hash, the second, in a shard, by those of `bucket_hash`.
use pulse_map.Base.{
  ℕ, ◌+◌, ◌-◌, ◌*◌, ◌%◌, ◌^◌, ◌≤◌, ◌<◌, ◌≡◌, refl, ap, ◌∙◌, arith, Option, none, some, List,
  bit_and, bit_and_mask, length, get_elem?, get_elem?-of_lt, ◌>>=◌, if◌then◌else◌, add64,
}
use native.Mathlib.Nat.{one-le-pow}
use pulse_map.Bucket.Entries.{position, find_match-position}
use pulse_map.Bucket.Fill.{occupied}
use pulse_map.Bucket.Refs.{slot_of}
use pulse_map.Bucket.Replace.{refs, AllSound}
use pulse_map.Bucket.{Bucket}
use pulse_map.Hash.{compute_hash}
use pulse_map.Raw.{PulseMapRaw, SlotTtl, locate, is_stale}
use pulse_map.Slab.Pool.{IsBalanced}
use pulse_map.Slot.{get_value}

-- The map of src/raw.rs takes the hash as it is.
abbrev pub plain : ℕ → ℕ
plain hash = hash

module _ (wyhash : List ℕ → ℕ) (spread : ℕ → ℕ) where
  -- The home bucket of a key.
  unfoldable pub index : PulseMapRaw → List ℕ → ℕ
  index m key = bit_and (spread (compute_hash wyhash key).h1) m.bucket_mask

  pub record IsValid (m : PulseMapRaw) : Type 0 where
    pub exponent : ℕ
    pub sized : m.num_buckets ≡ 2 ^ exponent
    pub masked : m.bucket_mask ≡ m.num_buckets - 1
    pub bounded : m.num_buckets ≤ 2 ^ 57
    pub width : length m.buckets ≡ m.num_buckets
    pub ttl_width : length m.slots_ttl ≡ m.num_buckets * 4
    pub all : AllSound wyhash (index m) m.slab_pool m.buckets
    pub balanced : IsBalanced (refs m.buckets) m.slab_pool
    pub counted : m.count ≡ occupied m.buckets
    pub small : length m.slab_pool.entries ≤ 4 * length m.buckets
    pub epoch : m.current_epoch < 2 ^ 64

  module _ {m : PulseMapRaw} (v : IsValid m) (key : List ℕ) where
    pub index-lt : index m key < length m.buckets
    unfolding index
    index-lt =
        let hash = spread (compute_hash wyhash key).h1 in
        let e : bit_and hash m.bucket_mask ≡ hash % 2 ^ v.exponent =
          ap (bit_and hash) (v.masked ∙ ap (λ n. n - 1) v.sized) ∙ bit_and_mask v.exponent hash in
        omega (arith, e, v.sized, v.width, one-le-pow v.exponent 2)

    pub home_bucket : (b : Bucket) × (get_elem? m.buckets (index m key) ≡ some b)
    home_bucket = get_elem?-of_lt m.buckets (index m key) index-lt

    pub ttl_inside : (j : ℕ) → j < 4 → index m key * 4 + j < length m.slots_ttl
    ttl_inside j bj = omega (arith, index-lt, v.width, v.ttl_width)

  -- The abstract map: the value under a key with its TTL record, expired or not, found by whole keys.
  unfoldable pub stored : PulseMapRaw → List ℕ → Option (List ℕ × SlotTtl)
  stored m key = do
    b ← get_elem? m.buckets (index m key)
    i ← position m.slab_pool b key
    value ← get_value (slot_of b i) m.slab_pool
    entry ← get_elem? m.slots_ttl (index m key * 4 + i)
    some (value, entry)

  -- What a lookup shows of it.
  unfoldable pub visible : PulseMapRaw → List ℕ → Option (List ℕ)
  visible m key = elim (stored m key) [
    | none ↦ none
    | some (value, entry) ↦
        if is_stale m.default_ttl m.current_epoch entry then none else some value
  ]

pub locate_lem :
    (wyhash : List ℕ → ℕ) {m : PulseMapRaw} (v : IsValid wyhash plain m) (key : List ℕ)
    → locate wyhash m key
      ≡ some (
        compute_hash wyhash key,
        index wyhash plain m key,
        (home_bucket wyhash plain v key).0,
        position m.slab_pool (home_bucket wyhash plain v key).0 key,
      )
unfolding locate index
locate_lem wyhash {m} v key =
    let (b, at) = home_bucket wyhash plain v key in
    rw (
      at,
      ◌>>=◌,
      find_match-position wyhash m.slab_pool b key (v.all.sound (index wyhash plain m key) b at),
    )

-- The map once the epoch has advanced.
abbrev pub ticked : PulseMapRaw → PulseMapRaw
ticked m = record m { current_epoch = add64 m.current_epoch 1 }

-- The table under another clock, default TTL and number of evictions.
abbrev pub reclocked : PulseMapRaw → ℕ → ℕ → ℕ → PulseMapRaw
reclocked m evictions epoch ttl = record m {
  eviction_count = evictions;
  current_epoch = epoch;
  default_ttl = ttl;
}

module _ (wyhash : List ℕ → ℕ) (spread : ℕ → ℕ) where
  -- The entries and the invariant do not depend on the clock.
  pub reclocked-IsValid :
      {m : PulseMapRaw}
      → IsValid wyhash spread m
      → (evictions epoch ttl : ℕ) → epoch < 2 ^ 64
      → IsValid wyhash spread (reclocked m evictions epoch ttl)
  unfolding index
  reclocked-IsValid v evictions epoch ttl small = record {
    exponent = v.exponent;
    sized = v.sized;
    masked = v.masked;
    bounded = v.bounded;
    width = v.width;
    ttl_width = v.ttl_width;
    all = v.all;
    balanced = v.balanced;
    counted = v.counted;
    small = v.small;
    epoch = small;
  }

  pub stored-reclocked :
      (m : PulseMapRaw) (evictions epoch ttl : ℕ) (key : List ℕ)
      → stored wyhash spread (reclocked m evictions epoch ttl) key ≡ stored wyhash spread m key
  unfolding stored index
  stored-reclocked m evictions epoch ttl key = refl

  pub ticked-IsValid :
      {m : PulseMapRaw} → IsValid wyhash spread m → IsValid wyhash spread (ticked m)
  ticked-IsValid {m} v =
      reclocked-IsValid v m.eviction_count (add64 m.current_epoch 1) m.default_ttl (omega arith)
