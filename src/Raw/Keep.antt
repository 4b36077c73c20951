-- ===== src/Raw/Keep.antt =====
-- A change that no entry of the table notices, and that an access to any slot is one.
use pulse_map.Base.{
  ℕ, ◌<◌, ◌≡◌, refl, ◌∙◌, arith, some, List, get_elem?, get_elem?-set, lt_of_get_elem?, set, ◌>>=◌,
}
use native.Mathlib.Decide.{ℕ_discrete}
use pulse_map.Bucket.Fill.{Changed, occupancy}
use pulse_map.Bucket.Touch.{accessed, occupied_same, position_same, accessed-Changed}
use pulse_map.Bucket.Refs.{slot_of}
use pulse_map.Bucket.{Bucket}
use pulse_map.Raw.Change.{changed-IsValid}
use pulse_map.Raw.Invariant.{index, IsValid, stored}
use pulse_map.Raw.{PulseMapRaw}

pub record Keeps (wyhash : List ℕ → ℕ) (spread : ℕ → ℕ) (m m' : PulseMapRaw) : Type 0 where
  pub valid : IsValid wyhash spread m'
  pub same : (other : List ℕ) → stored wyhash spread m' other ≡ stored wyhash spread m other
  pub count : m'.count ≡ m.count
  pub evictions : m'.eviction_count ≡ m.eviction_count
  pub clock : (m'.current_epoch ≡ m.current_epoch) × (m'.default_ttl ≡ m.default_ttl)
  pub size : m'.num_buckets ≡ m.num_buckets

module _ (wyhash : List ℕ → ℕ) (spread : ℕ → ℕ) where
  pub Keeps-refl : {m : PulseMapRaw} → IsValid wyhash spread m → Keeps wyhash spread m m
  Keeps-refl v = record {
    valid = v;
    same = λ _. refl;
    count = refl;
    evictions = refl;
    clock = (refl, refl);
    size = refl;
  }

  pub Keeps-trans :
      {m m' m'' : PulseMapRaw}
      → Keeps wyhash spread m m'
      → Keeps wyhash spread m' m''
      → Keeps wyhash spread m m''
  Keeps-trans f g = record {
    valid = g.valid;
    same = λ other. g.same other ∙ f.same other;
    count = g.count ∙ f.count;
    evictions = g.evictions ∙ f.evictions;
    clock = (g.clock.0 ∙ f.clock.0, g.clock.1 ∙ f.clock.1);
    size = g.size ∙ f.size;
  }

  -- The table after an access to slot `t` of bucket `k`, which is `b`.
  abbrev pub accessed_at : PulseMapRaw → ℕ → ℕ → Bucket → PulseMapRaw
  accessed_at m k t b = record m { buckets = set m.buckets k (accessed b t) }

  module _ {m : PulseMapRaw} (v : IsValid wyhash spread m) (k t : ℕ) (b : Bucket)
      (at : get_elem? m.buckets k ≡ some b) (bt : t < 4) where
    c :
        Changed wyhash
          (index wyhash spread m)
          m.buckets
          k
          t
          m.slab_pool
          b
          (accessed b t)
          m.slab_pool
    c =
        accessed-Changed wyhash (index wyhash spread m) m.buckets k t m.slab_pool b at bt v.all
          v.balanced

    entries_same :
        (key : List ℕ) → stored wyhash spread (accessed_at m k t b) key ≡ stored wyhash spread m key
    unfolding stored index slot_of
    entries_same key =
        let l = index wyhash spread m key in
        let after = get_elem?-set m.buckets k l (accessed b t) (lt_of_get_elem? m.buckets k at) in
        elim (ℕ_discrete k l) [
          | no ne ↦
              let same : get_elem? (set m.buckets k (accessed b t)) l ≡ get_elem? m.buckets l =
                after ∙ ground arith in
              rw same
          | yes e ↦
              let same : get_elem? (set m.buckets k (accessed b t)) l ≡ some (accessed b t) =
                after ∙ ground arith in
              let before : get_elem? m.buckets l ≡ some b = rw e at at in
              let pos =
                position_same wyhash (index wyhash spread m) m.buckets k t m.slab_pool b at bt v.all
                  v.balanced key in
              rw (same, before, ◌>>=◌, pos)
        ]

    pub accessed-Keeps : Keeps wyhash spread m (accessed_at m k t b)
    accessed-Keeps = record {
      valid =
          changed-IsValid wyhash spread v k t b (accessed b t) m.slab_pool at bt m.slots_ttl m.count
            m.eviction_count m.current_epoch c refl
            (ground (arith, c.counted, same_occupancy, v.counted)) v.epoch;
      same = entries_same;
      count = refl;
      evictions = refl;
      clock = (refl, refl);
      size = refl;
    }
      where
        same_occupancy : occupancy (accessed b t) t ≡ occupancy b t
        same_occupancy = rw (
            occupied_same wyhash (index wyhash spread m) m.buckets k t m.slab_pool b at bt v.all
              v.balanced t bt)
