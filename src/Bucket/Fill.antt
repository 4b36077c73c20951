-- ===== src/Bucket/Fill.antt =====
-- One slot of one bucket is given a new pair, or is emptied: what happens to the whole vector and to the
-- pool. The first module has what both have in common.
use pulse_map.Base.{
  ℕ, ◌+◌, ◌*◌, ◌≤◌, ◌<◌, ◌^◌, ◌≡◌, sym, ap, ◌∙◌, arith, true, false, some, List, [], ◌∷◌, ◌≢◌, inl,
  inr, ◌==◌, if◌then◌else◌, length, length-set, get_elem?, get_or-set, set, get_elem?-set,
  lt_of_get_elem?, Bool-cases,
}
use mathlib.Core.Bool.{false≢true}
use pulse_map.Bucket.Entries.{Holds}
use pulse_map.Bucket.Refs.{
  slot_of, is_occupied, slot_refs, sum_all, sum_all-split, sum_except-set, total,
}
use pulse_map.Bucket.Replace.{refs, rest_refs, Elsewhere, AllSound, replace-AllSound}
use pulse_map.Bucket.Write.{
  owns, slot_refs-occupied, slot_refs-vacant, release-IsBalanced, get-release, entries-release,
  Puts, IsBalanced-congr,
}
use pulse_map.Bucket.Bound.{entries-le}
use pulse_map.Bucket.{Bucket, release}
use pulse_map.Hash.{compute_hash}
use pulse_map.Meta.Fields.{IsWord}
use pulse_map.Meta.{full, is_full, get_state, get_h2}
use pulse_map.Slab.Entry.{Fits}
use pulse_map.Slab.Pool.{IsBalanced}
use pulse_map.Slab.{SlabPool}
use pulse_map.Slab
use pulse_map.Slot.{Slot, empty_slot, get_key_bytes}

-- 1 for a full slot.
abbrev pub occupancy : Bucket → ℕ → ℕ
occupancy b j = if is_occupied b j then 1 else 0

-- The number of full slots.
abbrev pub occupied : List Bucket → ℕ
occupied bs = sum_all occupancy bs

-- `b` with slot `t` and the metadata word replaced.
abbrev pub with_slot : Bucket → ℕ → ℕ → Slot → Bucket
with_slot b t word s = record { meta = word; slots = set b.slots t s }

-- A metadata word that differs from another at most in the fields of slot `t`.
pub record WordElsewhere (t v w : ℕ) : Type 0 where
  pub word : IsWord w
  pub states : (j : ℕ) → j < 4 → j ≢ t → get_state w j ≡ get_state v j
  pub tags : (j : ℕ) → j < 4 → j ≢ t → get_h2 w j ≡ get_h2 v j

module _ (b : Bucket) (t w : ℕ) (s : Slot) (four : length b.slots ≡ 4) (bt : t < 4) where
  pub slot_of-with_slot :
      (j : ℕ) → slot_of (with_slot b t w s) j ≡ (if t == j then s else slot_of b j)
  unfolding slot_of
  slot_of-with_slot j = get_or-set b.slots t j s empty_slot (omega arith)

  pub with_slot-Elsewhere : WordElsewhere t b.meta w → Elsewhere t b (with_slot b t w s)
  with_slot-Elsewhere e = record {
    word = e.word;
    four = length-set b.slots t s ∙ four;
    states = e.states;
    tags = e.tags;
    slots = λ j bj ne. slot_of-with_slot j ∙ ground arith;
  }

module _ (bs : List Bucket) (k t : ℕ) (b b' : Bucket) (at : get_elem? bs k ≡ some b) (bt : t < 4)
    (e : Elsewhere t b b') where
  at_after : get_elem? (set bs k b') k ≡ some b'
  at_after = get_elem?-set bs k k b' (lt_of_get_elem? bs k at) ∙ ground arith

  -- The owners afterwards: those of the other slots, and the slot that changed.
  pub refs-after : (i : ℕ) → refs (set bs k b') i ≡ rest_refs bs k t i + slot_refs b' t i
  refs-after i =
      sum_all-split (λ c j. slot_refs c j i) (set bs k b') k t at_after bt
      ∙ ap (λ n. n + slot_refs b' t i)
          (sum_except-set (λ c j. slot_refs c j i) bs k t b' at
            (λ j bj ne. unfold slot_refs is_occupied in rw (e.states j bj ne, e.slots j bj ne)))

  pub refs-before : (i : ℕ) → refs bs i ≡ rest_refs bs k t i + slot_refs b t i
  refs-before i = sum_all-split (λ c j. slot_refs c j i) bs k t at bt

  pub occupied-after : occupied (set bs k b') + occupancy b t ≡ occupied bs + occupancy b' t
  occupied-after = omega (
    arith,
    sum_all-split occupancy (set bs k b') k t at_after bt,
    sum_all-split occupancy bs k t at bt,
    sum_except-set occupancy bs k t b' at (λ j bj ne. unfold is_occupied in rw (e.states j bj ne)),
  )

-- The pool once slot `t` owns nothing any more.
abbrev pub vacated : SlabPool → Bucket → ℕ → SlabPool
vacated pool b t = if is_occupied b t then release pool (slot_of b t) else pool

pub get-vacated :
    (pool : SlabPool) (b : Bucket) (t i : ℕ) → Slab.get (vacated pool b t) i ≡ Slab.get pool i
get-vacated pool b t i = elim (Bool-cases (is_occupied b t)) [
  | inl e ↦ rw e (get-release pool (slot_of b t) i)
  | inr e ↦ rw e
]

pub entries-vacated :
    (pool : SlabPool) (b : Bucket) (t : ℕ) → (vacated pool b t).entries ≡ pool.entries
entries-vacated pool b t = elim (Bool-cases (is_occupied b t)) [
  | inl e ↦ rw e (entries-release pool (slot_of b t))
  | inr e ↦ rw e
]

-- A vector, its pool and their account after a change of slot `t` of bucket `k`.
pub record Changed (wyhash : List ℕ → ℕ) (index : List ℕ → ℕ) (bs : List Bucket) (k t : ℕ)
    (pool : SlabPool) (b b' : Bucket) (pool' : SlabPool) : Type 0 where
  pub elsewhere : Elsewhere t b b'
  pub agrees : (i : ℕ) → 0 < rest_refs bs k t i → Slab.get pool' i ≡ Slab.get pool i
  pub all : AllSound wyhash index pool' (set bs k b')
  pub balanced : IsBalanced (refs (set bs k b')) pool'
  pub counted : occupied (set bs k b') + occupancy b t ≡ occupied bs + occupancy b' t
  pub size : length (set bs k b') ≡ length bs
  pub small : length pool.entries ≤ 4 * length bs → length pool'.entries ≤ 4 * length bs

module _ (wyhash : List ℕ → ℕ) (index : List ℕ → ℕ) (bs : List Bucket) (k t : ℕ) (pool : SlabPool)
    (b : Bucket) (at : get_elem? bs k ≡ some b) (bt : t < 4) (all : AllSound wyhash index pool bs)
    (balanced : IsBalanced (refs bs) pool) where
  pub vacated-IsBalanced : IsBalanced (rest_refs bs k t) (vacated pool b t)
  vacated-IsBalanced = elim (Bool-cases (is_occupied b t)) [
    | inl e ↦ rw e (
        release-IsBalanced (rest_refs bs k t) pool (slot_of b t) (
          IsBalanced-congr (refs bs) (λ i. rest_refs bs k t i + owns (slot_of b t) i) pool
            (λ i. split i ∙ ap (λ n. rest_refs bs k t i + n) (slot_refs-occupied b t i e))
            balanced))
    | inr e ↦ rw e (
        IsBalanced-congr (refs bs) (rest_refs bs k t) pool
          (λ i. omega (arith, split i, slot_refs-vacant b t i e)) balanced)
  ]
    where
      split : (i : ℕ) → refs bs i ≡ rest_refs bs k t i + slot_refs b t i
      split i = sum_all-split (λ c j. slot_refs c j i) bs k t at bt

  module _ (w : ℕ) (we : WordElsewhere t b.meta w) where
    b_four : length b.slots ≡ 4
    b_four = (all.sound k b at).four

    -- Slot `t` is emptied.
    pub empty-Changed :
        is_full (get_state w t) ≡ false
        → Changed wyhash index bs k t pool b (with_slot b t w empty_slot) (vacated pool b t)
    empty-Changed vacant =
        let b' = with_slot b t w empty_slot in
        let e = with_slot-Elsewhere b t w empty_slot b_four bt we in
        let unoccupied : is_occupied b' t ≡ false = unfold is_occupied in vacant in
        record {
          elsewhere = e;
          agrees = λ i h. get-vacated pool b t i;
          all =
              replace-AllSound wyhash index bs k t pool (vacated pool b t)
                (λ i h. get-vacated pool b t i) all bt b b' at e
                (λ occ. absurd (false≢true (sym unoccupied ∙ occ)));
          balanced =
              IsBalanced-congr (rest_refs bs k t) (refs (set bs k b')) (vacated pool b t)
                (λ i.
                  omega
                    (arith, refs-after bs k t b b' at bt e i, slot_refs-vacant b' t i unoccupied))
                vacated-IsBalanced;
          counted = occupied-after bs k t b b' at bt e;
          size = length-set bs k b';
          small = λ h. rw (entries-vacated pool b t) h;
        }

    module _ (key value : List ℕ) (fits : Fits key value) (small : length pool.entries < 2 ^ 64)
        (is_set : get_state w t ≡ full) (tagged : get_h2 w t ≡ (compute_hash wyhash key).h2)
        (here : index key ≡ k)
        (absent : (j : ℕ)
          → j < 4
          → j ≢ t
          → is_occupied b j ≡ true
          → get_key_bytes (slot_of b j) pool ≢ some key) where
      -- Slot `t` holds the new pair.
      pub fill_Changed :
          (s : Slot) (pool' : SlabPool)
          → Puts wyhash (rest_refs bs k t) (vacated pool b t) key value s pool'
          → Changed wyhash index bs k t pool b (with_slot b t w s) pool'
      fill_Changed s pool' p =
          let b' = with_slot b t w s in
          let e = with_slot-Elsewhere b t w s b_four bt we in
          let new : slot_of b' t ≡ s = slot_of-with_slot b t w s b_four bt t ∙ ground arith in
          let occ : is_occupied b' t ≡ true = unfold is_occupied is_full in rw is_set in
          let agrees =
            λ (i : ℕ) (h : 0 < rest_refs bs k t i). p.others i h ∙ get-vacated pool b t i in
          let balanced' =
            IsBalanced-congr (λ i. rest_refs bs k t i + owns s i) (refs (set bs k b')) pool'
              (λ i. sym (
                refs-after bs k t b b' at bt e i
                ∙ ap (λ n. rest_refs bs k t i + n)
                    (slot_refs-occupied b' t i occ ∙ ap (λ x. owns x i) new)))
              p.balanced in
          let holds : Holds wyhash pool' b' t = record {
            key = key;
            value = value;
            key_reads = rw new p.key_reads;
            value_reads = rw new p.value_reads;
            fits = fits;
            tagged = tagged;
            printed = rw new p.printed;
          } in
          record {
            elsewhere = e;
            agrees = agrees;
            all =
                replace-AllSound wyhash index bs k t pool pool' agrees all bt b b' at e
                  (λ o. (holds, here, absent));
            balanced = balanced';
            counted = occupied-after bs k t b b' at bt e;
            size = length-set bs k b';
            small = λ h. elim p.growth [
              | inl g ↦ omega (arith, g, ap {A = List _} length (entries-vacated pool b t))
              | inr g ↦
                  omega (arith, entries-le (set bs k b') pool' balanced' g, length-set bs k b')
            ];
          }

pub occupied-le : (bs : List Bucket) → occupied bs ≤ 4 * length bs
unfolding sum_all total
occupied-le [] = omega arith
occupied-le (b ∷ bs) = ground (arith, occupied-le bs)
