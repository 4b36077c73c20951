-- ===== src/Bucket/Replace.antt =====
-- A vector of sound buckets stays sound when one slot of one bucket changes.
use pulse_map.Base.{
  ℕ, ◌/◌, ◌^◌, ◌<◌, ◌≡◌, sym, ap, subst, ◌∙◌, arith, true, some, List, ◌≢◌, ◌⊎◌, inl, inr, length,
  get_elem?, get_or, set, get_elem?-set, lt_of_get_elem?, bit_and_mask, eq_of_some, eq_of_some,
}
use native.Mathlib.Decide.{ℕ_discrete}
use pulse_map.Bucket.Entries.{Holds, IsSound}
use pulse_map.Bucket.Refs.{slot_of, is_occupied, slot_refs, sum_all, sum_except, sum_except-le}
use pulse_map.Bucket.{Bucket}
use pulse_map.Meta.Fields.{IsWord}
use pulse_map.Meta.{is_full, get_state, get_h2}
use pulse_map.Slab.{SlabPool}
use pulse_map.Slab
use pulse_map.Slot.{Slot, get_mode, slab_idx, get_key_bytes, get_value}

-- The owners of slab index `i`, all of them and all but slot `t` of bucket `k`.
abbrev pub refs : List Bucket → ℕ → ℕ
refs bs i = sum_all (λ b j. slot_refs b j i) bs

abbrev pub rest_refs : List Bucket → ℕ → ℕ → ℕ → ℕ
rest_refs bs k t i = sum_except (λ b j. slot_refs b j i) bs k t

-- `b'` is `b` but for slot `t`.
pub record Elsewhere (t : ℕ) (b b' : Bucket) : Type 0 where
  pub word : IsWord b'.meta
  pub four : length b'.slots ≡ 4
  pub states : (j : ℕ) → j < 4 → j ≢ t → get_state b'.meta j ≡ get_state b.meta j
  pub tags : (j : ℕ) → j < 4 → j ≢ t → get_h2 b'.meta j ≡ get_h2 b.meta j
  pub slots : (j : ℕ) → j < 4 → j ≢ t → slot_of b' j ≡ slot_of b j

get_mode-cases : (s : Slot) → (get_mode s ≡ 0) ⊎ (get_mode s ≡ 1)
unfolding get_mode
get_mode-cases s = ground (arith, bit_and_mask 1 (get_or s.bytes 0 0 / 2 ^ 7))

-- A slot reads the same from two pools that agree on its index.
module _ (s : Slot) (pool pool' : SlabPool)
    (agree : get_mode s ≡ 1 → Slab.get pool' (slab_idx s) ≡ Slab.get pool (slab_idx s)) where
  pub get_key_bytes-agree : get_key_bytes s pool' ≡ get_key_bytes s pool
  unfolding get_key_bytes
  get_key_bytes-agree = elim (get_mode-cases s) [ inl e ↦ rw e | inr e ↦ rw (e, agree e) ]

  pub get_value-agree : get_value s pool' ≡ get_value s pool
  unfolding get_value
  get_value-agree = elim (get_mode-cases s) [ inl e ↦ rw e | inr e ↦ rw (e, agree e) ]

pub move-Holds :
    (wyhash : List ℕ → ℕ) (pool : SlabPool) (b b' : Bucket) (j : ℕ)
    → slot_of b' j ≡ slot_of b j
    → get_h2 b'.meta j ≡ get_h2 b.meta j
    → Holds wyhash pool b j
    → Holds wyhash pool b' j
move-Holds wyhash pool b b' j s t h = record {
  key = h.key;
  value = h.value;
  key_reads = rw s h.key_reads;
  value_reads = rw s h.value_reads;
  fits = h.fits;
  tagged = t ∙ h.tagged;
  printed = rw s h.printed;
}

module _ (wyhash : List ℕ → ℕ) (index : List ℕ → ℕ) where
  -- Every bucket is sound and holds only keys that belong there.
  pub record AllSound (pool : SlabPool) (bs : List Bucket) : Type 0 where
    pub sound : (k : ℕ) (b : Bucket) → get_elem? bs k ≡ some b → IsSound wyhash pool b
    pub home :
        (k : ℕ) (b : Bucket) (j : ℕ) (key : List ℕ)
        → get_elem? bs k ≡ some b
        → j < 4
        → is_occupied b j ≡ true
        → get_key_bytes (slot_of b j) pool ≡ some key
        → index key ≡ k

  module _ (bs : List Bucket) (k t : ℕ) (pool pool' : SlabPool)
      (agrees : (i : ℕ) → 0 < rest_refs bs k t i → Slab.get pool' i ≡ Slab.get pool i) where
    -- A slot other than the one that changes owns its index.
    agree_at :
        (l j : ℕ) (c : Bucket)
        → get_elem? bs l ≡ some c
        → j < 4
        → is_occupied c j ≡ true
        → (l ≢ k) ⊎ (j ≢ t)
        → get_mode (slot_of c j) ≡ 1
        → Slab.get pool' (slab_idx (slot_of c j)) ≡ Slab.get pool (slab_idx (slot_of c j))
    unfolding slot_refs
    agree_at l j c at bj occ other m =
        let i = slab_idx (slot_of c j) in
        agrees i (ground (arith, sum_except-le (λ b j. slot_refs b j i) bs k t l j at bj other))

    pub keep_key :
        (l j : ℕ) (c : Bucket)
        → get_elem? bs l ≡ some c
        → j < 4
        → is_occupied c j ≡ true
        → (l ≢ k) ⊎ (j ≢ t)
        → get_key_bytes (slot_of c j) pool' ≡ get_key_bytes (slot_of c j) pool
    keep_key l j c at bj occ other =
        get_key_bytes-agree (slot_of c j) pool pool' (agree_at l j c at bj occ other)

    pub keep_value :
        (l j : ℕ) (c : Bucket)
        → get_elem? bs l ≡ some c
        → j < 4
        → is_occupied c j ≡ true
        → (l ≢ k) ⊎ (j ≢ t)
        → get_value (slot_of c j) pool' ≡ get_value (slot_of c j) pool
    keep_value l j c at bj occ other =
        get_value-agree (slot_of c j) pool pool' (agree_at l j c at bj occ other)

    keep-Holds :
        (l j : ℕ) (c : Bucket)
        → get_elem? bs l ≡ some c
        → j < 4
        → is_occupied c j ≡ true
        → (l ≢ k) ⊎ (j ≢ t)
        → Holds wyhash pool c j
        → Holds wyhash pool' c j
    keep-Holds l j c at bj occ other h = record {
      key = h.key;
      value = h.value;
      key_reads = keep_key l j c at bj occ other ∙ h.key_reads;
      value_reads = keep_value l j c at bj occ other ∙ h.value_reads;
      fits = h.fits;
      tagged = h.tagged;
      printed = h.printed;
    }

    module _ (all : AllSound pool bs) (bt : t < 4) (b b' : Bucket) (at : get_elem? bs k ≡ some b)
        (elsewhere : Elsewhere t b b') where
      -- What is asked of the slot that changes, if it is full afterwards.
      abbrev pub Fresh : Type 0
      Fresh =
          is_occupied b' t ≡ true
          → (h : Holds wyhash pool' b' t) × (index h.key ≡ k)
            × ((j : ℕ)
                → j < 4
                → j ≢ t
                → is_occupied b j ≡ true
                → get_key_bytes (slot_of b j) pool ≢ some h.key)

      pub same_occupied : (j : ℕ) → j < 4 → j ≢ t → is_occupied b' j ≡ is_occupied b j
      unfolding is_occupied
      same_occupied j bj ne = ap is_full (elsewhere.states j bj ne)

      pub same_key :
          (j : ℕ)
          → j < 4
          → j ≢ t
          → is_occupied b' j ≡ true
          → get_key_bytes (slot_of b' j) pool' ≡ get_key_bytes (slot_of b j) pool
      same_key j bj ne occ =
          rw (elsewhere.slots j bj ne)
            (keep_key k j b at bj (sym (same_occupied j bj ne) ∙ occ) (inr ne))

      module _ (fresh : Fresh) where
        new_held : (j : ℕ) → j < 4 → is_occupied b' j ≡ true → Holds wyhash pool' b' j
        new_held j bj occ = elim (ℕ_discrete j t) [
          | yes same ↦ subst (Holds wyhash pool' b') (sym same) (fresh (rw same at occ)).0
          | no ne ↦
              let occ' = sym (same_occupied j bj ne) ∙ occ in
              move-Holds wyhash pool' b b' j (elsewhere.slots j bj ne) (elsewhere.tags j bj ne)
                (keep-Holds k j b at bj occ' (inr ne) ((all.sound k b at).held j bj occ'))
        ]

        -- The changed slot's key is nowhere else in the bucket.
        apart :
            (j : ℕ) (key : List ℕ)
            → j < 4
            → j ≢ t
            → is_occupied b' t ≡ true
            → is_occupied b' j ≡ true
            → get_key_bytes (slot_of b' t) pool' ≡ some key
            → get_key_bytes (slot_of b' j) pool' ≡ some key
            → ⊥
        apart j key bj ne occ_t occ_j reads_t reads_j =
            let (h, home, absent) = fresh occ_t in
            absent j bj ne (sym (same_occupied j bj ne) ∙ occ_j)
              (sym (same_key j bj ne occ_j) ∙ reads_j ∙ sym reads_t ∙ h.key_reads)

        new_distinct :
            (i j : ℕ) (key : List ℕ)
            → i < 4
            → j < 4
            → is_occupied b' i ≡ true
            → is_occupied b' j ≡ true
            → get_key_bytes (slot_of b' i) pool' ≡ some key
            → get_key_bytes (slot_of b' j) pool' ≡ some key
            → i ≡ j
        new_distinct i j key bi bj oi oj ri rj = elim (ℕ_discrete i t) [
          | yes p ↦ elim (ℕ_discrete j t) [
            | yes q ↦ p ∙ sym q
            | no q ↦ absurd (apart j key bj q (rw p at oi) oj (rw p at ri) rj)
          ]
          | no p ↦ elim (ℕ_discrete j t) [
            | yes q ↦ absurd (apart i key bi p (rw q at oj) oi (rw q at rj) ri)
            | no q ↦
                (all.sound k b at).distinct i j key bi bj (sym (same_occupied i bi p) ∙ oi)
                  (sym (same_occupied j bj q) ∙ oj) (sym (same_key i bi p oi) ∙ ri)
                  (sym (same_key j bj q oj) ∙ rj)
          ]
        ]

        new_home :
            (j : ℕ) (key : List ℕ)
            → j < 4
            → is_occupied b' j ≡ true
            → get_key_bytes (slot_of b' j) pool' ≡ some key
            → index key ≡ k
        new_home j key bj occ reads = elim (ℕ_discrete j t) [
          | yes same ↦
              let (h, home, absent) = fresh (rw same at occ) in
              let e : h.key ≡ key = eq_of_some (sym h.key_reads ∙ rw same at reads) in rw e at home
          | no ne ↦
              all.home k b j key at bj (sym (same_occupied j bj ne) ∙ occ)
                (sym (same_key j bj ne occ) ∙ reads)
        ]

        other-IsSound :
            (l : ℕ) (c : Bucket) → get_elem? bs l ≡ some c → l ≢ k → IsSound wyhash pool' c
        other-IsSound l c atc ne =
            let s = all.sound l c atc in
            record {
              word = s.word;
              four = s.four;
              held = λ j bj occ. keep-Holds l j c atc bj occ (inl ne) (s.held j bj occ);
              distinct = λ i j key bi bj oi oj ri rj.
                  s.distinct i j key bi bj oi oj (sym (keep_key l i c atc bi oi (inl ne)) ∙ ri)
                    (sym (keep_key l j c atc bj oj (inl ne)) ∙ rj);
            }

        new-IsSound : IsSound wyhash pool' b'
        new-IsSound = record {
          word = elsewhere.word;
          four = elsewhere.four;
          held = new_held;
          distinct = new_distinct;
        }

        -- The bucket found at an index after the change is the new one, or an old one elsewhere.
        after_set :
            (l : ℕ) (c : Bucket)
            → get_elem? (set bs k b') l ≡ some c
            → ((k ≡ l) × (b' ≡ c)) ⊎ ((l ≢ k) × (get_elem? bs l ≡ some c))
        after_set l c e =
            let split = get_elem?-set bs k l b' (lt_of_get_elem? bs k at) in
            elim (ℕ_discrete k l) [
              | yes p ↦ inl (p, ground arith)
              | no p ↦ inr ((λ q. p (sym q)), ground arith)
            ]

        pub replace-AllSound : AllSound pool' (set bs k b')
        replace-AllSound = record {
          sound = λ l c e. elim (after_set l c e) [
            | inl (p, q) ↦ subst (IsSound wyhash pool') q new-IsSound
            | inr (ne, old) ↦ other-IsSound l c old ne
          ];
          home = λ l c j key e bj occ reads. elim (after_set l c e) [
            | inl (p, q) ↦ new_home j key bj (rw (← q) at occ) (rw (← q) at reads) ∙ p
            | inr (ne, old) ↦
                all.home l c j key old bj occ (sym (keep_key l j c old bj occ (inl ne)) ∙ reads)
          ];
        }
