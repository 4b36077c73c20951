-- ===== src/Bucket/Entries.antt =====
-- What the full slots of a bucket hold, and that the probe loop, which compares fingerprints first, finds
-- what a search that compares whole keys finds.
use pulse_map.Base.{
  ℕ, ◌<◌, ◌≡◌, ap, ◌∙◌, arith, Bool, true, false, ◌&&◌, Option, none, some, List, ◌⊎◌, inl, inr,
  length, get_elem?, get_elem?-get_or, bytes_eq, bytes_eq_sound, Bool-cases,
}
use pulse_map.Bucket.Refs.{slot_of, is_occupied}
use pulse_map.Bucket.{Bucket, slot_matches, find_match}
use pulse_map.Hash.{HashResult, compute_hash, compute_hash_bounds}
use pulse_map.Meta.Fields.{IsWord}
use pulse_map.Meta.Match.{is_candidate}
use pulse_map.Meta.{get_h2}
use pulse_map.Probe.Laws.{first_slot, first_slot_congr, probe-match_mask}
use pulse_map.Slab.Entry.{Fits}
use pulse_map.Slab.{SlabPool}
use pulse_map.Slot.{
  Slot, empty_slot, get_mode, get_key_bytes, get_value, matches_key, get_ext_fp, get_ext_fp_hi,
}

-- `slots[j]` does not panic.
pub get_elem?-slot_of :
    (b : Bucket) (j : ℕ) → length b.slots ≡ 4 → j < 4 → get_elem? b.slots j ≡ some (slot_of b j)
unfolding slot_of
get_elem?-slot_of b j four h = get_elem?-get_or b.slots j empty_slot (omega arith)

-- Whether a slot holds this key.
unfoldable pub key_is : SlabPool → Slot → List ℕ → Bool
key_is pool s key = elim (get_key_bytes s pool) [ some k ↦ bytes_eq k key | none ↦ false ]

-- The specification of the probe loop: the first full slot with the key, by whole keys alone.
unfoldable pub position : SlabPool → Bucket → List ℕ → Option ℕ
position pool b key = first_slot (λ j. is_occupied b j && key_is pool (slot_of b j) key)

module _ (wyhash : List ℕ → ℕ) where
  -- A stored pair: it can be read, its lengths fit in 32 bits, and the fingerprints beside it are those of its key.
  pub record Holds (pool : SlabPool) (b : Bucket) (j : ℕ) : Type 0 where
    pub key : List ℕ
    pub value : List ℕ
    pub key_reads : get_key_bytes (slot_of b j) pool ≡ some key
    pub value_reads : get_value (slot_of b j) pool ≡ some value
    pub fits : Fits key value
    pub tagged : get_h2 b.meta j ≡ (compute_hash wyhash key).h2
    pub printed :
        (get_mode (slot_of b j) ≡ 0)
        ⊎ ((get_mode (slot_of b j) ≡ 1)
            × (get_ext_fp_hi (slot_of b j) ≡ (compute_hash wyhash key).ext_fp_hi)
            × (get_ext_fp (slot_of b j) ≡ (compute_hash wyhash key).ext_fp))

  pub record IsSound (pool : SlabPool) (b : Bucket) : Type 0 where
    pub word : IsWord b.meta
    pub four : length b.slots ≡ 4
    pub held : (j : ℕ) → j < 4 → is_occupied b j ≡ true → Holds pool b j
    pub distinct :
        (i j : ℕ) (k : List ℕ)
        → i < 4
        → j < 4
        → is_occupied b i ≡ true
        → is_occupied b j ≡ true
        → get_key_bytes (slot_of b i) pool ≡ some k
        → get_key_bytes (slot_of b j) pool ≡ some k
        → i ≡ j

  module _ (pool : SlabPool) (b : Bucket) (key : List ℕ) where
    abbrev hr : HashResult
    hr = compute_hash wyhash key

    key_is-Holds : (j : ℕ) (h : Holds pool b j) → key_is pool (slot_of b j) key ≡ bytes_eq h.key key
    unfolding key_is
    key_is-Holds j h = rw (h.key_reads, key_is)

    -- The comparison in two stages answers as that of whole keys.
    matches_key-key_is :
        (j : ℕ) (h : Holds pool b j)
        → matches_key (slot_of b j) key hr pool ≡ some (bytes_eq h.key key)
    unfolding matches_key get_key_bytes
    matches_key-key_is j h = elim (Bool-cases (bytes_eq h.key key)) [
      | inl same ↦
          let e = bytes_eq_sound h.key key same in ground (arith, ap (compute_hash wyhash) e)
      | inr other ↦ ground arith
    ]

    candidate-key_is :
        (j : ℕ) (h : Holds pool b j)
        → is_occupied b j ≡ true
        → (is_candidate b.meta hr.h2 j && bytes_eq h.key key) ≡ bytes_eq h.key key
    unfolding is_candidate is_occupied
    candidate-key_is j h e = elim (Bool-cases (bytes_eq h.key key)) [
      | inl same ↦
          let k = bytes_eq_sound h.key key same in
          ground (arith, ap (compute_hash wyhash) k, (compute_hash_bounds wyhash key).0)
      | inr other ↦ ground arith
    ]

    module _ (sound : IsSound pool b) where
      passes : ℕ → Bool
      passes j = key_is pool (slot_of b j) key

      answers :
          (j : ℕ)
          → j < 4
          → is_candidate b.meta hr.h2 j ≡ true
          → slot_matches b key hr pool j ≡ some (passes j)
      unfolding slot_matches passes is_candidate
      answers j bj e =
          let h = sound.held j bj (occupied j e) in
          rw (get_elem?-slot_of b j sound.four bj, key_is-Holds j h) (matches_key-key_is j h)
        where
          occupied : (j : ℕ) → is_candidate b.meta hr.h2 j ≡ true → is_occupied b j ≡ true
          occupied j e = unfold is_occupied in ground arith

      same_test :
          (j : ℕ)
          → j < 4
          → (is_candidate b.meta hr.h2 j && passes j) ≡ (is_occupied b j && passes j)
      unfolding passes
      same_test j bj = elim (Bool-cases (is_occupied b j)) [
        | inl e ↦ let h = sound.held j bj e in rw (e, key_is-Holds j h) (candidate-key_is j h e)
        | inr e ↦ rw e (unfold is_candidate is_occupied in ground arith)
      ]

      -- On a sound bucket the probe loop, which compares fingerprints first, does not panic and finds the slot that a
      -- search by whole keys alone finds.
      pub find_match-position : find_match b key hr pool ≡ some (position pool b key)
      unfolding find_match position passes
      find_match-position =
          probe-match_mask b.meta hr.h2 (slot_matches b key hr pool) passes answers
          ∙ ap some (first_slot_congr _ _ same_test)
