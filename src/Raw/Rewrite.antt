-- ===== src/Raw/Rewrite.antt =====
-- The two writes of a pair into its home bucket: over its own slot, and into a slot for a new key.
use pulse_map.Base.{
  ℕ, ◌+◌, ◌<◌, ◌≡◌, ◌≢◌, sym, ap, ◌∙◌, arith, none, some, List, true, if◌then◌else◌, add64,
  eq_of_some,
}
use pulse_map.Bucket.Entries.{position}
use pulse_map.Bucket.Fill.{occupancy, with_slot, vacated}
use pulse_map.Bucket.Position.{position-none}
use pulse_map.Bucket.Refs.{slot_of, is_occupied}
use pulse_map.Bucket.{Bucket, store_pair}
use pulse_map.Hash.{HashResult, compute_hash, compute_hash_bounds}
use pulse_map.Meta.Access.{on_access-Accesses}
use pulse_map.Meta.Policy.{is_full→eq}
use pulse_map.Meta.{full, get_state, get_h2, on_access}
use pulse_map.Raw.Change.{changed}
use pulse_map.Raw.Invariant.{index, IsValid}
use pulse_map.Raw.Lookup.{home, home-IsSound, hit}
use pulse_map.Raw.Place.{Places, place, stamped}
use pulse_map.Raw.Words.{
  access-WordElsewhere, fresh_word, fresh-WordElsewhere, fresh-full, fresh-tagged,
}
use pulse_map.Raw.{PulseMapRaw, SlotTtl}
use pulse_map.Slab.Entry.{Fits}
use pulse_map.Slab.{SlabPool}
use pulse_map.Slot.{Slot, get_key_bytes}

module _ (wyhash : List ℕ → ℕ) (spread : ℕ → ℕ) {m : PulseMapRaw} (v : IsValid wyhash spread m)
    (key value : List ℕ) (fits : Fits key value) (entry : SlotTtl) where
  abbrev b : Bucket
  b = home wyhash spread v key

  abbrev k : ℕ
  k = index wyhash spread m key

  abbrev hr : HashResult
  hr = compute_hash wyhash key

  -- What both write.
  abbrev pub written : ℕ → ℕ → Slot → SlabPool → ℕ → ℕ → PulseMapRaw
  written t w s pool' count evictions =
      changed m k (with_slot b t w s) pool' (stamped wyhash spread v key value fits entry t) count
        evictions m.current_epoch

  module _ (i : ℕ) (e : position m.slab_pool b key ≡ some i) where
    accessed-full : get_state (on_access b.meta i) i ≡ full
    accessed-full =
        let h = hit wyhash spread v key e in
        (on_access-Accesses b.meta i (home-IsSound wyhash spread v key).word h.below).states i
          h.below
        ∙ is_full→eq (get_state b.meta i) (unfold is_occupied in h.occupied)

    accessed-tagged : get_h2 (on_access b.meta i) i ≡ hr.h2
    accessed-tagged =
        let h = hit wyhash spread v key e in
        let sound = home-IsSound wyhash spread v key in
        let held = sound.held i h.below h.occupied in
        let same_key : held.key ≡ key = eq_of_some (sym held.key_reads ∙ h.key_reads) in
        (on_access-Accesses b.meta i sound.word h.below).tags i h.below
        ∙ held.tagged
        ∙ ap (λ x. (compute_hash wyhash x).h2) same_key

    no_other :
        (j : ℕ)
        → j < 4
        → j ≢ i
        → is_occupied b j ≡ true
        → get_key_bytes (slot_of b j) m.slab_pool ≢ some key
    no_other j bj ne occ reads =
        let h = hit wyhash spread v key e in
        ne (
          (home-IsSound wyhash spread v key).distinct j i key bj h.below occ h.occupied reads
            h.key_reads)

    pub place_update :
        (s : Slot) × (pool' : SlabPool) × (store_pair (vacated m.slab_pool b i) key value hr
          ≡ some (s, pool'))
        × Places wyhash spread m key value entry i
            (written i (on_access b.meta i) s pool' m.count m.eviction_count)
    place_update =
        let h = hit wyhash spread v key e in
        let we = access-WordElsewhere b.meta i (home-IsSound wyhash spread v key).word h.below in
        let same : m.count + occupancy b i ≡ m.count + 1 = rw h.occupied in
        place wyhash spread v key value fits entry i h.below (on_access b.meta i) we accessed-full
          accessed-tagged no_other m.count m.eviction_count same

  module _ (e : position m.slab_pool b key ≡ none) (t : ℕ) (bt : t < 4) where
    -- A full slot is taken from another entry, which counts as an eviction.
    abbrev pub new_count : ℕ
    new_count = if is_occupied b t then m.count else m.count + 1

    abbrev pub new_evictions : ℕ
    new_evictions = if is_occupied b t then add64 m.eviction_count 1 else m.eviction_count

    pub place_new :
        (s : Slot) × (pool' : SlabPool) × (store_pair (vacated m.slab_pool b t) key value hr
          ≡ some (s, pool'))
        × Places wyhash spread m key value entry t
            (written t (fresh_word b.meta t hr.h2) s pool' new_count new_evictions)
    place_new =
        let word = (home-IsSound wyhash spread v key).word in
        let small = (compute_hash_bounds wyhash key).0 in
        let absent = λ (j : ℕ) (bj : j < 4) (_ : j ≢ t). position-none m.slab_pool b key e j bj in
        let counts : new_count + occupancy b t ≡ m.count + 1 = ground arith in
        place wyhash spread v key value fits entry t bt (fresh_word b.meta t hr.h2)
          (fresh-WordElsewhere b.meta t hr.h2 word bt) (fresh-full b.meta t hr.h2 word bt)
          (fresh-tagged b.meta t hr.h2 word bt small) absent new_count new_evictions counts
