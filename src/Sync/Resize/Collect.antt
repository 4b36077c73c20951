-- ===== src/Sync/Resize/Collect.antt =====
-- What the first part of `resize` collects from one bucket of a valid table: each full slot's entry, once.
use pulse_map.Base.{
  ℕ, zero, suc, ◌+◌, ◌*◌, ◌≤◌, ◌<◌, ◌≡◌, ◌≢◌, refl, sym, ◌∙◌, arith, true, false, some, List, [],
  ◌∷◌, if◌then◌else◌, length, get_elem?, get_or, get_elem?-get_or, lt_of_get_elem?, bytes_eq,
  bytes_eq_refl, bytes_eq_sound, eq_of_some, ◌>>=◌, Bool-cases, inl, inr,
}
use native.Mathlib.Decide.{ℕ_discrete}
use mathlib.Core.Bool.{false≢true}
use pulse_map.Bucket.Entries.{Holds, IsSound, get_elem?-slot_of}
use pulse_map.Bucket.Fill.{occupancy}
use pulse_map.Bucket.Refs.{slot_of, is_occupied, total}
use pulse_map.Bucket.{Bucket}
use pulse_map.Meta.{is_full, get_state}
use pulse_map.Raw.Invariant.{index, IsValid}
use pulse_map.Raw.{PulseMapRaw, SlotTtl, default_slot_ttl}
use pulse_map.Slot.{get_key_bytes, get_value}
use pulse_map.Sync.Resize.Entries.{uses, at_home, find_entry, AllFit}
use pulse_map.Sync.Resize.{EntryData, collect_slots}

-- The number of full slots among `left` from `i` on.
unfoldable pub tally : Bucket → ℕ → ℕ → ℕ
tally b zero i = 0
tally b (suc left) i = (if is_occupied b i then 1 else 0) + tally b left (i + 1)

pub tally-total : (b : Bucket) → tally b 4 0 ≡ total (occupancy b)
unfolding tally total
tally-total b = omega arith

module _ (wyhash : List ℕ → ℕ) (spread : ℕ → ℕ) {m : PulseMapRaw} (v : IsValid wyhash spread m)
    (k : ℕ) (b : Bucket) (at : get_elem? m.buckets k ≡ some b) where
  -- Slot `j` is full and holds this key.
  abbrev pub Keyed : ℕ → List ℕ → Type 0
  Keyed j key =
      (j < 4) × (is_occupied b j ≡ true) × (get_key_bytes (slot_of b j) m.slab_pool ≡ some key)

  -- The entries of the slots from `i` on.
  pub record Gathers (i : ℕ) (es : List EntryData) : Type 0 where
    pub few : length es + i ≤ 4
    pub fit : AllFit es
    pub homes :
        (index' : List ℕ → ℕ) (n : ℕ)
        → ((key : List ℕ) → index wyhash spread m key ≡ k → index' key ≢ n)
        → at_home index' n es ≡ 0
    pub once : (key : List ℕ) → uses key es ≤ 1
    pub finds :
        (j : ℕ) (key value : List ℕ) (entry : SlotTtl)
        → i ≤ j
        → Keyed j key
        → get_value (slot_of b j) m.slab_pool ≡ some value
        → get_elem? m.slots_ttl (k * 4 + j) ≡ some entry
        → find_entry key es ≡ some (value, entry)
    pub misses : (key : List ℕ) → ((j : ℕ) → i ≤ j → ¬ Keyed j key) → uses key es ≡ 0

  sound : IsSound wyhash m.slab_pool b
  sound = v.all.sound k b at

  module _ (i : ℕ) (bi : i < 4) (rest : List EntryData) (g : Gathers (i + 1) rest) where
    -- A slot that is not full adds nothing.
    skip-Gathers : is_occupied b i ≡ false → Gathers i rest
    skip-Gathers vac = record {
      few = omega (arith, g.few);
      fit = g.fit;
      homes = g.homes;
      once = g.once;
      finds = λ j key value entry le keyed. elim (ℕ_discrete i j) [
        | yes e ↦ absurd (false≢true (sym (rw e at vac) ∙ keyed.1))
        | no ne ↦ g.finds j key value entry (omega arith) keyed
      ];
      misses = λ key none_keyed. g.misses key (λ j le. none_keyed j (omega arith));
    }

    module _ (occ : is_occupied b i ≡ true) where
      h : Holds wyhash m.slab_pool b i
      h = sound.held i bi occ

      abbrev taken : EntryData
      taken = record {
        key_bytes = h.key;
        val_bytes = h.value;
        slot_ttl = get_or m.slots_ttl (k * 4 + i) default_slot_ttl;
      }

      -- No later slot has the key.
      later : (j : ℕ) → i + 1 ≤ j → ¬ Keyed j h.key
      later j le keyed =
          let same = sound.distinct i j h.key bi keyed.0 occ keyed.1 h.key_reads keyed.2 in
          omega arith

      same_key :
          (j : ℕ) (key : List ℕ)
          → i ≡ j
          → get_key_bytes (slot_of b j) m.slab_pool ≡ some key
          → h.key ≡ key
      same_key j key e reads = eq_of_some (sym h.key_reads ∙ rw (sym e) at reads)

      take-Gathers : Gathers i (taken ∷ rest)
      unfolding uses at_home find_entry
      take-Gathers = record {
        few = omega (arith, g.few);
        fit = (h.fits, g.fit);
        homes = λ index' n apart.
            let here = apart h.key (v.all.home k b i h.key at bi occ h.key_reads) in
            ground (arith, g.homes index' n apart);
        once = λ key. elim (Bool-cases (bytes_eq h.key key)) [
          | inl e ↦
              let same = bytes_eq_sound h.key key e in
              let gone : uses key rest ≡ 0 = g.misses key (λ j le. rw same at (later j le)) in
              ground (arith, gone)
          | inr e ↦ ground (arith, g.once key)
        ];
        finds = λ j key value entry le keyed value_reads entry_reads. elim (ℕ_discrete i j) [
          | yes e ↦
              let key_same = same_key j key e keyed.2 in
              let value_same : h.value ≡ value =
                eq_of_some (sym h.value_reads ∙ rw (sym e) at value_reads) in
              let entry_same : get_or m.slots_ttl (k * 4 + i) default_slot_ttl ≡ entry =
                eq_of_some (
                  sym (
                    get_elem?-get_or m.slots_ttl (k * 4 + i) default_slot_ttl
                      (lt_of_get_elem? m.slots_ttl (k * 4 + i) (rw (sym e) at entry_reads)))
                  ∙ rw (sym e) at entry_reads) in
              rw (key_same, bytes_eq_refl key, value_same, entry_same)
          | no ne ↦ elim (Bool-cases (bytes_eq h.key key)) [
            | inl q ↦
                let same = bytes_eq_sound h.key key q in
                absurd (later j (omega arith) (rw (sym same) at keyed))
            | inr q ↦ rw q (g.finds j key value entry (omega arith) keyed value_reads entry_reads)
          ]
        ];
        misses = λ key none_keyed. elim (Bool-cases (bytes_eq h.key key)) [
          | inl q ↦
              let same = bytes_eq_sound h.key key q in
              absurd (none_keyed i (omega arith) (bi, occ, rw same at h.key_reads))
          | inr q ↦
              let none_later = g.misses key (λ j le. none_keyed j (omega arith)) in
              ground (arith, none_later)
        ];
      }

  pub collect_slots-Gathers :
      (left i : ℕ)
      → i + left ≡ 4
      → (es : List EntryData) × (collect_slots left i k b m.slab_pool m.slots_ttl ≡ some es)
        × (length es ≡ tally b left i)
        × Gathers i es
  unfolding collect_slots sound h tally
  collect_slots-Gathers zero i e = (
    [],
    refl,
    refl,
    record {
      few = omega arith;
      fit = tt;
      homes = λ index' n apart. unfold at_home in refl;
      once = λ key. unfold uses in omega arith;
      finds = λ j key value entry le keyed. absurd (omega (arith, keyed.0));
      misses = λ key _. unfold uses in refl;
    },
  )
  collect_slots-Gathers (suc left) i e =
      let (rest, runs, some_rest, g) = collect_slots-Gathers left (i + 1) (omega arith) in
      let bi : i < 4 = omega arith in
      elim (Bool-cases (is_occupied b i)) [
        | inl occ ↦
            let full : is_full (get_state b.meta i) ≡ true = unfold is_occupied in occ in
            let h = sound.held i bi occ in
            (
              taken i bi rest g occ ∷ rest,
              rw (
                runs,
                ◌>>=◌,
                full,
                get_elem?-slot_of b i sound.four bi,
                h.key_reads,
                h.value_reads,
              ),
              ground (arith, some_rest),
              take-Gathers i bi rest g occ,
            )
        | inr vac ↦
            let free : is_full (get_state b.meta i) ≡ false = unfold is_occupied in vac in
            (rest, rw (runs, ◌>>=◌, free), ground (arith, some_rest), skip-Gathers i bi rest g vac)
      ]
