-- ===== src/Iter/Pairs.antt =====
-- The iterators against the list of all stored pairs, expired ones included.
use pulse_map.Iter.Slots.{
  slot_pairs, bucket_pairs, remaining, uncons, drop-cons, drop-past, bind_some, scan_slots-none,
  scan_slots-some, occupied_from, slot_pairs-some,
}
use pulse_map.Base.{
  ℕ, zero, suc, ◌+◌, ◌-◌, ◌≤◌, ◌≡◌, refl, sym, ap, ◌∙◌, arith, Option, none, some, List, [], ◌∷◌,
  ◌++◌, length, length-append, get_elem?, get_elem?-of_lt, lt_of_get_elem?, drop, ◌>>=◌,
  >>=-eq-some, eq_of_some, Option-cases, inl, inr,
}
use pulse_map.Bucket.Entries.{IsSound}
use pulse_map.Bucket.Fill.{occupied, occupancy}
use pulse_map.Bucket.Refs.{total, sum_all}
use pulse_map.Bucket.{Bucket}
use pulse_map.Iter.{RawIter, raw_iter, read_pair, scan_slots, scan_buckets, next}
use pulse_map.Raw.Invariant.{plain, IsValid}
use pulse_map.Raw.{PulseMapRaw, num_buckets, len}
use pulse_map.Slab.{SlabPool}

-- Where an iterator stands within the buckets.
abbrev pub Inside : PulseMapRaw → RawIter → Type 0
Inside m it = (it.bucket_idx ≤ length m.buckets) × (it.slot_idx ≤ 4)

-- The effect of `next`.
pub record Advances (m : PulseMapRaw) (l : List (List ℕ × List ℕ)) (item : Option (List ℕ × List ℕ))
    (it' : RawIter) : Type 0 where
  pub shows : item ≡ (uncons l).0
  pub rest : remaining m it' ≡ some (uncons l).1
  pub inside : Inside m it'

module _ (m : PulseMapRaw) where
  finished :
      (k i : ℕ) {l : List (List ℕ × List ℕ)}
      → k ≡ length m.buckets
      → i ≤ 4
      → remaining m (record { bucket_idx = k; slot_idx = i }) ≡ some l
      → Advances m l none (record { bucket_idx = k; slot_idx = i })
  unfolding remaining bucket_pairs uncons
  finished k i {l} at_end bi e =
      let past = drop-past m.buckets k (omega arith) in
      let nothing : [] ≡ l = eq_of_some (rw past at e) in
      record {
        shows = ap (λ x. (uncons x).0) nothing;
        rest = e ∙ ap some (rw (sym nothing) refl);
        inside = (omega arith, bi);
      }

  found :
      (k i j : ℕ) {b : Bucket} {l : List (List ℕ × List ℕ)}
      → get_elem? m.buckets k ≡ some b
      → i ≤ 4
      → scan_slots (4 - i) i b ≡ some j
      → remaining m (record { bucket_idx = k; slot_idx = i }) ≡ some l
      → (pair : List ℕ × List ℕ) × (read_pair b j m.slab_pool ≡ some pair)
        × Advances m l (some pair) (record { bucket_idx = k; slot_idx = j + 1 })
  unfolding remaining bucket_pairs uncons
  found k i j {b} {l} at bi scan e =
      let (below, split) = scan_slots-some (4 - i) i b m.slab_pool {j = j} (omega arith) scan in
      let (here, e₁, e₂) =
        >>=-eq-some (slot_pairs (4 - i) i b m.slab_pool) _ (rw (drop-cons m.buckets k at) at e) in
      let (rest, e₃, e₄) = >>=-eq-some (bucket_pairs 0 (drop (k + 1) m.buckets) m.slab_pool) _ e₂ in
      let (tail, e₅, e₆) =
        >>=-eq-some (slot_pairs (4 - (j + 1)) (j + 1) b m.slab_pool) _ (sym split ∙ e₁) in
      let (pair, e₇, e₈) = >>=-eq-some (read_pair b j m.slab_pool) _ e₆ in
      let whole : pair ∷ (tail ++ rest) ≡ l = ap (λ x. x ++ rest) (eq_of_some e₈) ∙ eq_of_some e₄ in
      (
        pair,
        e₇,
        record {
          shows = ap (λ x. (uncons x).0) whole;
          rest = rw (drop-cons m.buckets k at, e₅, ◌>>=◌, e₃) (ap (λ x. some (uncons x).1) whole);
          inside = (omega (arith, lt_of_get_elem? m.buckets k at), omega arith);
        },
      )

  skipped :
      (k i : ℕ) {b : Bucket} {l : List (List ℕ × List ℕ)}
      → get_elem? m.buckets k ≡ some b
      → scan_slots (4 - i) i b ≡ none
      → remaining m (record { bucket_idx = k; slot_idx = i }) ≡ some l
      → remaining m (record { bucket_idx = k + 1; slot_idx = 0 }) ≡ some l
  unfolding remaining bucket_pairs
  skipped k i {b} at scan e =
      sym (bind_some (bucket_pairs 0 (drop (k + 1) m.buckets) m.slab_pool))
      ∙ (rw (drop-cons m.buckets k at, scan_slots-none (4 - i) i b m.slab_pool scan, ◌>>=◌) at e)

  scan_buckets-Advances :
      (left k i : ℕ) {l : List (List ℕ × List ℕ)}
      → k + left ≡ length m.buckets
      → i ≤ 4
      → remaining m (record { bucket_idx = k; slot_idx = i }) ≡ some l
      → (item : Option (List ℕ × List ℕ)) × (it' : RawIter) × (scan_buckets left k i m
          ≡ some (item, it'))
        × Advances m l item it'
  unfolding scan_buckets
  scan_buckets-Advances zero k i at_end bi e =
      (none, record { bucket_idx = k; slot_idx = i }, refl, finished k i (omega arith) bi e)
  scan_buckets-Advances (suc left) k i sum bi e =
      let (b, at) = get_elem?-of_lt m.buckets k (omega arith) in
      elim (Option-cases (scan_slots (4 - i) i b)) [
        | inr (j, scan) ↦
            let (pair, reads, a) = found k i j at bi scan e in
            (some pair, record { bucket_idx = k; slot_idx = j + 1 }, rw (at, ◌>>=◌, scan, reads), a)
        | inl scan ↦
            let (item, it', runs, a) =
              scan_buckets-Advances left (k + 1) 0 (omega arith) (omega arith)
                (skipped k i at scan e) in
            (item, it', rw (at, ◌>>=◌, scan) runs, a)
      ]

-- On a valid map an iterator that stands within the buckets does not panic: `next` shows the first of the pairs
-- that remain, if there is one, and then the others remain.
pub next-Advances :
    (wyhash : List ℕ → ℕ) {m : PulseMapRaw}
    → IsValid wyhash plain m
    → (it : RawIter) → Inside m it
    → {l : List (List ℕ × List ℕ)} → remaining m it ≡ some l
    → (item : Option (List ℕ × List ℕ)) × (it' : RawIter) × (next m it ≡ some (item, it'))
      × Advances m l item it'
unfolding next num_buckets
next-Advances wyhash {m} v it inside e =
    scan_buckets-Advances m (m.num_buckets - it.bucket_idx) it.bucket_idx it.slot_idx
      (omega (arith, v.width, inside.0)) inside.1 e

occupied_from-total : (b : Bucket) → occupied_from 4 0 b ≡ total (occupancy b)
unfolding occupied_from total
occupied_from-total b = omega arith

bucket_pairs-some :
    (wyhash : List ℕ → ℕ) (pool : SlabPool) (bs : List Bucket)
    → ((k : ℕ) (b : Bucket) → get_elem? bs k ≡ some b → IsSound wyhash pool b)
    → (l : List (List ℕ × List ℕ)) × (bucket_pairs 0 bs pool ≡ some l) × (length l ≡ occupied bs)
unfolding bucket_pairs sum_all get_elem?
bucket_pairs-some wyhash pool [] sound = ([], refl, refl)
bucket_pairs-some wyhash pool (b ∷ bs) sound =
    let (here, runs, size) = slot_pairs-some wyhash pool b (sound 0 b refl) 4 0 refl in
    let (rest, runs', size') = bucket_pairs-some wyhash pool bs (λ k c at. sound (suc k) c at) in
    (
      here ++ rest,
      rw (runs, ◌>>=◌, runs'),
      omega (arith, length-append here rest, size, size', occupied_from-total b),
    )

-- On a valid map a new iterator has as many pairs to show as `len` says.
pub raw_iter-len :
    (wyhash : List ℕ → ℕ) {m : PulseMapRaw}
    → IsValid wyhash plain m
    → (l : List (List ℕ × List ℕ)) × (remaining m raw_iter ≡ some l) × (length l ≡ len m)
unfolding remaining raw_iter len drop
raw_iter-len wyhash {m} v =
    let (l, runs, size) = bucket_pairs-some wyhash m.slab_pool m.buckets v.all.sound in
    (l, runs, size ∙ sym v.counted)
