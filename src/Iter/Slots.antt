-- ===== src/Iter/Slots.antt =====
-- The pairs in the slots of a bucket, and the scan of `RawIter::next` that looks for the next one.
use pulse_map.Base.{
  ℕ, zero, suc, ◌+◌, ◌-◌, ◌<◌, ◌≤◌, ◌≡◌, refl, sym, ap, ◌∙◌, arith, true, false, Option, none, some,
  List, [], ◌∷◌, ◌++◌, if◌then◌else◌, length, get_elem?, drop, ◌>>=◌, Bool-cases, inl, inr,
}
use pulse_map.Bucket.Entries.{IsSound, get_elem?-slot_of}
use pulse_map.Bucket.Fill.{occupancy}
use pulse_map.Bucket.Refs.{is_occupied}
use pulse_map.Bucket.{Bucket}
use pulse_map.Iter.{RawIter, read_pair, scan_slots}
use pulse_map.Meta.{is_full, get_state}
use pulse_map.Raw.{PulseMapRaw}
use pulse_map.Slab.{SlabPool}

-- The pairs in the slots of a bucket from `i` on.
unfoldable pub slot_pairs : ℕ → ℕ → Bucket → SlabPool → Option (List (List ℕ × List ℕ))
slot_pairs zero i b pool = some []
slot_pairs (suc left) i b pool = do
  rest ← slot_pairs left (i + 1) b pool
  if is_full (get_state b.meta i)
      then (do pair ← read_pair b i pool; some (pair ∷ rest))
      else some rest

-- Those in a list of buckets, of the first one from slot `i` on.
unfoldable pub bucket_pairs : ℕ → List Bucket → SlabPool → Option (List (List ℕ × List ℕ))
unfolding slot_pairs
bucket_pairs i [] pool = some []
bucket_pairs i (b ∷ bs) pool = do
  here ← slot_pairs (4 - i) i b pool
  rest ← bucket_pairs 0 bs pool
  some (here ++ rest)

-- What an iterator has still to show.
unfoldable pub remaining : PulseMapRaw → RawIter → Option (List (List ℕ × List ℕ))
unfolding bucket_pairs
remaining m it = bucket_pairs it.slot_idx (drop it.bucket_idx m.buckets) m.slab_pool

-- The first of the pairs, and the others.
unfoldable pub uncons : List (List ℕ × List ℕ) → Option (List ℕ × List ℕ) × List (List ℕ × List ℕ)
uncons [] = (none, [])
uncons (pair ∷ rest) = (some pair, rest)

pub drop-cons :
    {A : Type 0} (xs : List A) (k : ℕ) {x : A}
    → get_elem? xs k ≡ some x
    → drop k xs ≡ x ∷ drop (k + 1) xs
unfolding drop get_elem?
drop-cons [] k e = cc
drop-cons (y ∷ xs) zero e = cc
drop-cons (y ∷ xs) (suc k) {x} e =
    let next : suc k + 1 ≡ suc (k + 1) = omega arith in
    drop-cons xs k e ∙ ap (λ n. x ∷ drop n (y ∷ xs)) (sym next)

pub drop-past : {A : Type 0} (xs : List A) (k : ℕ) → length xs ≤ k → drop k xs ≡ []
unfolding drop
drop-past [] zero h = refl
drop-past [] (suc k) h = refl
drop-past (x ∷ xs) zero h = absurd (omega arith)
drop-past (x ∷ xs) (suc k) h = drop-past xs k (omega arith)

pub bind_some : {A : Type 0} (m : Option A) → (m >>= λ x. some x) ≡ m
bind_some none = refl
bind_some (some x) = refl

-- A round of the inner loop: the pairs from `i` on start with that of the slot which it finds.
pub scan_slots-none :
    (left i : ℕ) (b : Bucket) (pool : SlabPool)
    → scan_slots left i b ≡ none
    → slot_pairs left i b pool ≡ some []
unfolding scan_slots slot_pairs
scan_slots-none zero i b pool e = refl
scan_slots-none (suc left) i b pool e = elim (Bool-cases (is_full (get_state b.meta i))) [
  | inl f ↦ absurd (ground arith)
  | inr f ↦ rw (scan_slots-none left (i + 1) b pool (ground arith), ◌>>=◌, f)
]

pub scan_slots-some :
    (left i : ℕ) (b : Bucket) (pool : SlabPool) {j : ℕ}
    → i + left ≡ 4
    → scan_slots left i b ≡ some j
    → (j < 4)
      × (slot_pairs left i b pool ≡ (do
        rest ← slot_pairs (4 - (j + 1)) (j + 1) b pool
        pair ← read_pair b j pool
        some (pair ∷ rest)))
unfolding scan_slots slot_pairs
scan_slots-some zero i b pool sum e = cc
scan_slots-some (suc left) i b pool {j} sum e = elim (Bool-cases (is_full (get_state b.meta i))) [
  | inl f ↦
      let same : i ≡ j = ground arith in
      let size : left ≡ 4 - (j + 1) = omega arith in (omega arith, rw (f, same, size) refl)
  | inr f ↦
      let (below, later) =
        scan_slots-some left (i + 1) b pool {j = j} (omega arith) (ground arith) in
      (below, rw f (bind_some (slot_pairs left (i + 1) b pool) ∙ later))
]

-- The number of full slots from `i` on.
unfoldable pub occupied_from : ℕ → ℕ → Bucket → ℕ
occupied_from zero i b = 0
occupied_from (suc left) i b = occupancy b i + occupied_from left (i + 1) b

-- Every slot of a bucket can be read.
module _ (wyhash : List ℕ → ℕ) (pool : SlabPool) (b : Bucket) (sound : IsSound wyhash pool b) where
  read_pair-some :
      (j : ℕ)
      → j < 4
      → is_occupied b j ≡ true
      → (pair : List ℕ × List ℕ) × (read_pair b j pool ≡ some pair)
  unfolding read_pair
  read_pair-some j bj occ =
      let h = sound.held j bj occ in
      (
        (h.key, h.value),
        rw (get_elem?-slot_of b j sound.four bj, ◌>>=◌, h.key_reads, h.value_reads),
      )

  pub slot_pairs-some :
      (left i : ℕ)
      → i + left ≡ 4
      → (l : List (List ℕ × List ℕ)) × (slot_pairs left i b pool ≡ some l)
        × (length l ≡ occupied_from left i b)
  unfolding slot_pairs occupied_from
  slot_pairs-some zero i sum = ([], refl, refl)
  slot_pairs-some (suc left) i sum =
      let (rest, runs, size) = slot_pairs-some left (i + 1) (omega arith) in
      elim (Bool-cases (is_occupied b i)) [
        | inl occ ↦
            let full : is_full (get_state b.meta i) ≡ true = unfold is_occupied in occ in
            let (pair, reads) = read_pair-some i (omega arith) occ in
            (pair ∷ rest, rw (runs, ◌>>=◌, full, reads), rw occ (omega (arith, size)))
        | inr vac ↦
            let free : is_full (get_state b.meta i) ≡ false = unfold is_occupied in vac in
            (rest, rw (runs, ◌>>=◌, free), rw vac (omega (arith, size)))
      ]
