-- ===== src/Raw/Place.antt =====
-- The write that the two branches of an insertion share: a pair is put into one slot of the home bucket.
use pulse_map.Base.{
  ℕ, ◌+◌, ◌*◌, ◌^◌, ◌<◌, ◌≡◌, ◌≢◌, refl, sym, ap, ◌∙◌, arith, none, some, List, length, length-set,
  get_elem?-set, set, true, if◌then◌else◌, eq_of_some,
}
use pulse_map.Bucket.Fill.{
  occupancy, with_slot, WordElsewhere, vacated, vacated-IsBalanced, entries-vacated, fill_Changed,
  slot_of-with_slot,
}
use pulse_map.Bucket.Refs.{slot_of, is_occupied}
use pulse_map.Bucket.Replace.{rest_refs}
use pulse_map.Bucket.Write.{Puts, store_pair-Puts}
use pulse_map.Bucket.{Bucket, store_pair}
use pulse_map.Hash.{compute_hash}
use pulse_map.Meta.{full, is_full, get_state, get_h2}
use pulse_map.Raw.Change.{
  changed, changed-IsValid, resides, stored-changed_self, stored-changed_other,
}
use pulse_map.Raw.Invariant.{index, IsValid, ttl_inside, stored}
use pulse_map.Raw.Lookup.{home, home_at, home-IsSound}
use pulse_map.Raw.{PulseMapRaw, SlotTtl}
use pulse_map.Slab.Entry.{Fits}
use pulse_map.Slab.{SlabPool}
use pulse_map.Slot.{Slot, get_key_bytes}

-- The effect on the abstract map of writing a pair, with a TTL record, over slot `t` of its home bucket.
pub record Places (wyhash : List ℕ → ℕ) (spread : ℕ → ℕ) (m : PulseMapRaw) (key value : List ℕ)
    (entry : SlotTtl) (t : ℕ) (m' : PulseMapRaw) : Type 0 where
  pub valid : IsValid wyhash spread m'
  pub reads : stored wyhash spread m' key ≡ some (value, entry)
  pub others :
      (other : List ℕ)
      → other ≢ key
      → stored wyhash spread m' other ≡ (
          if resides wyhash spread m (index wyhash spread m key) t other
          then none
          else stored wyhash spread m other)
  pub clock : (m'.current_epoch ≡ m.current_epoch) × (m'.default_ttl ≡ m.default_ttl)
  pub size : m'.num_buckets ≡ m.num_buckets

module _ (wyhash : List ℕ → ℕ) (spread : ℕ → ℕ) {m : PulseMapRaw} (v : IsValid wyhash spread m)
    (key value : List ℕ) (fits : Fits key value) (entry : SlotTtl) where
  abbrev b : Bucket
  b = home wyhash spread v key

  abbrev k : ℕ
  k = index wyhash spread m key

  abbrev pub stamped : ℕ → List SlotTtl
  stamped t = set m.slots_ttl (k * 4 + t) entry

  module _ (t : ℕ) (bt : t < 4) (w : ℕ) (we : WordElsewhere t b.meta w)
      (is_set : get_state w t ≡ full) (tagged : get_h2 w t ≡ (compute_hash wyhash key).h2)
      (absent : (j : ℕ)
        → j < 4
        → j ≢ t
        → is_occupied b j ≡ true
        → get_key_bytes (slot_of b j) m.slab_pool ≢ some key)
      (count evictions : ℕ) (counts : count + occupancy b t ≡ m.count + 1) where
    -- The map with slot `s` and pool `pool'`.
    abbrev pub placed : Slot → SlabPool → PulseMapRaw
    placed s pool' =
        changed m k (with_slot b t w s) pool' (stamped t) count evictions m.current_epoch

    placed-Places :
        (s : Slot) (pool' : SlabPool)
        → Puts wyhash (rest_refs m.buckets k t) (vacated m.slab_pool b t) key value s pool'
        → Places wyhash spread m key value entry t (placed s pool')
    placed-Places s pool' p =
        let at = home_at wyhash spread v key in
        let four = (home-IsSound wyhash spread v key).four in
        let b' = with_slot b t w s in
        let small : length m.slab_pool.entries < 2 ^ 64 =
          omega (arith, v.small, v.width, v.bounded) in
        let c =
          fill_Changed wyhash (index wyhash spread m) m.buckets k t m.slab_pool b at bt v.all
            v.balanced w we key value fits small is_set tagged refl absent s pool' p in
        let new : slot_of b' t ≡ s = slot_of-with_slot b t w s four bt t ∙ ground arith in
        let occ : is_occupied b' t ≡ true = unfold is_occupied is_full in rw is_set in
        let inside = ttl_inside wyhash spread v key t bt in
        record {
          valid =
              changed-IsValid wyhash spread v k t b b' pool' at bt (stamped t) count evictions
                m.current_epoch c (length-set m.slots_ttl (k * 4 + t) _)
                (ground (arith, counts, c.counted, occ, v.counted)) v.epoch;
          reads =
              stored-changed_self wyhash spread v k t b b' pool' at bt (stamped t) count evictions
                m.current_epoch c key value _ refl occ (rw new p.key_reads) (rw new p.value_reads)
                (get_elem?-set m.slots_ttl (k * 4 + t) (k * 4 + t) _ inside ∙ ground arith);
          others = λ other ne.
              stored-changed_other wyhash spread v k t b b' pool' at bt (stamped t) count evictions
                m.current_epoch c other
                (λ _ reads. ne (eq_of_some (sym reads ∙ rw new p.key_reads)))
                (λ x nx. get_elem?-set m.slots_ttl (k * 4 + t) x _ inside ∙ ground arith);
          clock = (refl, refl);
          size = refl;
        }

    pub place :
        (s : Slot) × (pool' : SlabPool) × (store_pair
            (vacated m.slab_pool b t)
            key
            value
            (compute_hash wyhash key)
          ≡ some (s, pool'))
        × Places wyhash spread m key value entry t (placed s pool')
    place =
        let at = home_at wyhash spread v key in
        let small : length (vacated m.slab_pool b t).entries < 2 ^ 64 = omega (
          arith,
          v.small,
          v.width,
          v.bounded,
          ap {A = List _} length (entries-vacated m.slab_pool b t),
        ) in
        let (s, pool', runs, p) =
          store_pair-Puts wyhash (rest_refs m.buckets k t) (vacated m.slab_pool b t) key value fits
            (vacated-IsBalanced wyhash (index wyhash spread m) m.buckets k t m.slab_pool b at bt
              v.all v.balanced)
            small in
        (s, pool', runs, placed-Places s pool' p)
