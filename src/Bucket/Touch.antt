-- ===== src/Bucket/Touch.antt =====
-- An access to a slot: the priorities change, and nothing else.
use pulse_map.Base.{
  ℕ, ◌<◌, ◌≡◌, ◌≢◌, refl, sym, ◌∙◌, arith, true, some, List, length-set, get_elem?, set,
}
use pulse_map.Bucket.Entries.{Holds, position}
use pulse_map.Bucket.Fill.{Changed, refs-after, refs-before, occupied-after}
use pulse_map.Bucket.Refs.{slot_of, is_occupied, slot_refs}
use pulse_map.Bucket.Replace.{refs, Elsewhere, AllSound, replace-AllSound}
use pulse_map.Bucket.Write.{IsBalanced-congr}
use pulse_map.Bucket.{Bucket}
use pulse_map.Meta.Access.{on_access-Accesses}
use pulse_map.Meta.{on_access}
use pulse_map.Slab.Pool.{IsBalanced}
use pulse_map.Probe.Laws.{first_slot_congr}
use pulse_map.Slab.{SlabPool}
use pulse_map.Slot.{get_key_bytes}

abbrev pub accessed : Bucket → ℕ → Bucket
accessed b t = record b { meta = on_access b.meta t }

module _ (wyhash : List ℕ → ℕ) (index : List ℕ → ℕ) (bs : List Bucket) (k t : ℕ) (pool : SlabPool)
    (b : Bucket) (at : get_elem? bs k ≡ some b) (bt : t < 4) (all : AllSound wyhash index pool bs)
    (balanced : IsBalanced (refs bs) pool) where
  pub slots_same : (j : ℕ) → slot_of (accessed b t) j ≡ slot_of b j
  unfolding slot_of
  slots_same j = refl

  pub occupied_same : (j : ℕ) → j < 4 → is_occupied (accessed b t) j ≡ is_occupied b j
  unfolding is_occupied
  occupied_same j bj = rw ((on_access-Accesses b.meta t (all.sound k b at).word bt).states j bj)

  accessed-Elsewhere : Elsewhere t b (accessed b t)
  accessed-Elsewhere =
      let a = on_access-Accesses b.meta t (all.sound k b at).word bt in
      record {
        word = a.word;
        four = (all.sound k b at).four;
        states = λ j bj _. a.states j bj;
        tags = λ j bj _. a.tags j bj;
        slots = λ j _ _. slots_same j;
      }

  refs_same : (i : ℕ) → refs bs i ≡ refs (set bs k (accessed b t)) i
  refs_same i =
      let here : slot_refs (accessed b t) t i ≡ slot_refs b t i =
        unfold slot_refs in rw (occupied_same t bt, slots_same t) in
      omega (
        arith,
        here,
        refs-before bs k t b (accessed b t) at bt accessed-Elsewhere i,
        refs-after bs k t b (accessed b t) at bt accessed-Elsewhere i,
      )

  pub position_same : (key : List ℕ) → position pool (accessed b t) key ≡ position pool b key
  unfolding position
  position_same key = first_slot_congr _ _ (λ j bj. rw (occupied_same j bj, slots_same j))

  pub accessed-Changed : Changed wyhash index bs k t pool b (accessed b t) pool
  accessed-Changed = record {
    elsewhere = accessed-Elsewhere;
    agrees = λ _ _. refl;
    all =
        replace-AllSound wyhash index bs k t pool pool (λ _ _. refl) all bt b (accessed b t) at
          accessed-Elsewhere (λ o. fresh (sym (occupied_same t bt) ∙ o));
    balanced = IsBalanced-congr (refs bs) (refs (set bs k (accessed b t))) pool refs_same balanced;
    counted = occupied-after bs k t b (accessed b t) at bt accessed-Elsewhere;
    size = length-set bs k (accessed b t);
    small = λ h. h;
  }
    where
      fresh :
          is_occupied b t ≡ true
          → (h : Holds wyhash pool (accessed b t) t) × (index h.key ≡ k)
            × ((j : ℕ)
                → j < 4
                → j ≢ t
                → is_occupied b j ≡ true
                → get_key_bytes (slot_of b j) pool ≢ some h.key)
      fresh occ =
          let sound = all.sound k b at in
          let h = sound.held t bt occ in
          (
            record {
              key = h.key;
              value = h.value;
              key_reads = rw (slots_same t) h.key_reads;
              value_reads = rw (slots_same t) h.value_reads;
              fits = h.fits;
              tagged = (on_access-Accesses b.meta t sound.word bt).tags t bt ∙ h.tagged;
              printed = rw (slots_same t) h.printed;
            },
            all.home k b t h.key at bt occ h.key_reads,
            λ j bj ne occ_j reads. ne (sound.distinct j t h.key bj bt occ_j occ reads h.key_reads),
          )
