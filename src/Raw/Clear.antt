-- ===== src/Raw/Clear.antt =====
-- The slot of a key is cleared: the invariant is kept, the key is gone and every other key untouched.
use pulse_map.Base.{
  ℕ, ◌+◌, ◌<◌, ◌^◌, ◌≡◌, refl, sym, ◌∙◌, arith, Option, none, some, List, set, Bool, true, false,
  if◌then◌else◌, ◌≢◌, sub64,
}
use mathlib.Core.Bool.{false≢true}
use pulse_map.Bucket.Entries.{position}
use pulse_map.Bucket.Fill.{occupied, with_slot, WordElsewhere, vacated, empty-Changed, occupied-le}
use pulse_map.Bucket.Refs.{is_occupied}
use pulse_map.Bucket.{Bucket}
use pulse_map.Meta.Fields.{IsWord}
use pulse_map.Meta.Laws.{set_state-IsWord, get_state-set_state, get_h2-set_state}
use pulse_map.Meta.{tombstone, is_full, get_state, set_state}
use pulse_map.Raw.Change.{
  changed, changed-IsValid, position→resides, resides-other, stored-changed_other,
}
use pulse_map.Raw.Invariant.{index, IsValid, stored}
use pulse_map.Raw.Lookup.{home, home_at, home-IsSound, hit, miss}
use pulse_map.Raw.{PulseMapRaw}
use pulse_map.Slot.{empty_slot}

abbrev pub is_some {ℓ} : {A : Type ℓ} → Option A → Bool
is_some none = false
is_some (some _) = true

-- The effect of a removal.
pub record Removes (wyhash : List ℕ → ℕ) (spread : ℕ → ℕ) (m : PulseMapRaw) (key : List ℕ)
    (found : Bool) (m' : PulseMapRaw) : Type 0 where
  pub valid : IsValid wyhash spread m'
  pub reports : found ≡ is_some (stored wyhash spread m key)
  pub gone : stored wyhash spread m' key ≡ none
  pub others :
      (other : List ℕ) → other ≢ key → stored wyhash spread m' other ≡ stored wyhash spread m other
  pub counted : m'.count + (if found then 1 else 0) ≡ m.count
  pub clock : (m'.current_epoch ≡ m.current_epoch) × (m'.default_ttl ≡ m.default_ttl)
  pub size : m'.num_buckets ≡ m.num_buckets

tombstone-WordElsewhere : (v t : ℕ) → IsWord v → t < 4 → WordElsewhere t v (set_state v t tombstone)
tombstone-WordElsewhere v t word bt = record {
  word = set_state-IsWord word bt tombstone;
  states = λ j bj ne. get_state-set_state word bt tombstone bj ∙ ground arith;
  tags = λ j bj ne. get_h2-set_state word bt tombstone bj;
}

tombstone-vacant :
    (v t : ℕ) → IsWord v → t < 4 → is_full (get_state (set_state v t tombstone) t) ≡ false
unfolding is_full
tombstone-vacant v t word bt = ground (arith, get_state-set_state word bt tombstone bt)

-- The counter goes down with the number of full slots.
count_less :
    {count before after : ℕ}
    → count ≡ before
    → before < 2 ^ 64
    → after + 1 ≡ before
    → sub64 count 1 ≡ after
count_less e small fewer = omega arith

module _ (wyhash : List ℕ → ℕ) (spread : ℕ → ℕ) {m : PulseMapRaw} (v : IsValid wyhash spread m)
    (key : List ℕ) where
  abbrev b : Bucket
  b = home wyhash spread v key

  abbrev k : ℕ
  k = index wyhash spread m key

  -- The table after slot `i` has been cleared.
  abbrev pub cleared : ℕ → PulseMapRaw
  cleared i =
      changed m k (with_slot b i (set_state b.meta i tombstone) empty_slot)
        (vacated m.slab_pool b i) m.slots_ttl (sub64 m.count 1) m.eviction_count m.current_epoch

  pub missing-Removes : position m.slab_pool b key ≡ none → Removes wyhash spread m key false m
  missing-Removes e =
      let none_stored = miss wyhash spread v key e in
      record {
        valid = v;
        reports = rw none_stored;
        gone = none_stored;
        others = λ _ _. refl;
        counted = omega arith;
        clock = (refl, refl);
        size = refl;
      }

  pub cleared-Removes :
      (i : ℕ) → position m.slab_pool b key ≡ some i → Removes wyhash spread m key true (cleared i)
  cleared-Removes i e =
      let h = hit wyhash spread v key e in
      let at = home_at wyhash spread v key in
      let sound = home-IsSound wyhash spread v key in
      let w = set_state b.meta i tombstone in
      let vacant : is_full (get_state w i) ≡ false = tombstone-vacant b.meta i sound.word h.below in
      let b' = with_slot b i w empty_slot in
      let pool' = vacated m.slab_pool b i in
      let c =
        empty-Changed wyhash (index wyhash spread m) m.buckets k i m.slab_pool b at h.below v.all
          v.balanced w (tombstone-WordElsewhere b.meta i sound.word h.below) vacant in
      let unoccupied : is_occupied b' i ≡ false = unfold is_occupied in vacant in
      let fewer : occupied (set m.buckets k b') + 1 ≡ occupied m.buckets =
        ground (arith, c.counted, h.occupied) in
      let count' = sub64 m.count 1 in
      let exact : count' ≡ occupied (set m.buckets k b') =
        count_less v.counted (omega (arith, occupied-le m.buckets, v.width, v.bounded)) fewer in
      let after = λ (other : List ℕ).
        stored-changed_other wyhash spread v k i b b' pool' at h.below m.slots_ttl count'
          m.eviction_count m.current_epoch c other (λ occ _. false≢true (sym unoccupied ∙ occ))
          (λ x _. refl) in
      record {
        valid =
            changed-IsValid wyhash spread v k i b b' pool' at h.below m.slots_ttl count'
              m.eviction_count m.current_epoch c refl exact v.epoch;
        reports = rw h.is_stored;
        gone = after key ∙ rw (position→resides wyhash spread m k i b key at refl e);
        others = λ other ne.
            after other
            ∙ rw (resides-other wyhash spread m k i b key at other ne (λ _. h.key_reads));
        counted = omega (arith, exact, fewer, v.counted);
        clock = (refl, refl);
        size = refl;
      }
