-- ===== src/Bucket/Bound.antt =====
-- The pool never has more entries than the map has slots.
use pulse_map.Base.{
  ℕ, zero, suc, ◌+◌, ◌*◌, ◌≤◌, ◌<◌, ◌≡◌, refl, arith, List, [], ◌∷◌, length, ◌==◌, if◌then◌else◌,
  count, ◌&&◌, ltb, Bool-cases, inl, inr,
}
use pulse_map.Bucket.Refs.{slot_refs, is_occupied, slot_of, total, sum_all}
use pulse_map.Bucket.Replace.{refs}
use pulse_map.Bucket.{Bucket}
use pulse_map.Slab.Pool.{one_if, IsBalanced}
use pulse_map.Slab.{SlabPool}
use pulse_map.Slot.{get_mode, slab_idx}

range_sum : (ℕ → ℕ) → ℕ → ℕ
range_sum f zero = 0
range_sum f (suc n) = range_sum f n + f n

range_sum-add : (f g : ℕ → ℕ) (n : ℕ) → range_sum (λ i. f i + g i) n ≡ range_sum f n + range_sum g n
unfolding range_sum
range_sum-add f g zero = omega arith
range_sum-add f g (suc n) = omega (arith, range_sum-add f g n)

range_sum-one_if : (x n : ℕ) → range_sum (one_if x) n ≡ (if ltb x n then 1 else 0)
unfolding range_sum
range_sum-one_if x zero = ground arith
range_sum-one_if x (suc n) = ground (arith, range_sum-one_if x n)

range_sum-zero : (n : ℕ) → range_sum (λ i. 0) n ≡ 0
unfolding range_sum
range_sum-zero zero = refl
range_sum-zero (suc n) = omega (arith, range_sum-zero n)

range_sum-one : (f : ℕ → ℕ) (n : ℕ) → ((i : ℕ) → i < n → f i ≡ 1) → range_sum f n ≡ n
unfolding range_sum
range_sum-one f zero h = refl
range_sum-one f (suc n) h =
    omega (arith, h n (omega arith), range_sum-one f n (λ i hi. h i (omega arith)))

range_sum_congr : (f g : ℕ → ℕ) (n : ℕ) → ((i : ℕ) → f i ≡ g i) → range_sum f n ≡ range_sum g n
unfolding range_sum
range_sum_congr f g zero h = refl
range_sum_congr f g (suc n) h = omega (arith, h n, range_sum_congr f g n h)

slot-le : (b : Bucket) (j n : ℕ) → range_sum (slot_refs b j) n ≤ 1
unfolding slot_refs
slot-le b j n = elim (Bool-cases (is_occupied b j && (get_mode (slot_of b j) == 1))) [
  | inl e ↦
      let x = slab_idx (slot_of b j) in
      ground (arith, range_sum_congr (slot_refs b j) (one_if x) n (λ i. rw e), range_sum-one_if x n)
  | inr e ↦ ground (arith, range_sum_congr (slot_refs b j) (λ i. 0) n (λ i. rw e), range_sum-zero n)
]

bucket-le : (b : Bucket) (n : ℕ) → range_sum (λ i. total (λ j. slot_refs b j i)) n ≤ 4
unfolding total
bucket-le b n =
    let f = slot_refs b in
    omega (
      arith,
      range_sum-add (λ i. f 0 i + f 1 i + f 2 i) (f 3) n,
      range_sum-add (λ i. f 0 i + f 1 i) (f 2) n,
      range_sum-add (f 0) (f 1) n,
      slot-le b 0 n,
      slot-le b 1 n,
      slot-le b 2 n,
      slot-le b 3 n,
    )

refs-le : (bs : List Bucket) (n : ℕ) → range_sum (refs bs) n ≤ 4 * length bs
unfolding sum_all
refs-le [] n = omega (arith, range_sum-zero n)
refs-le (b ∷ bs) n = omega (
  arith,
  range_sum-add (λ i. total (λ j. slot_refs b j i)) (refs bs) n,
  bucket-le b n,
  refs-le bs n,
)

-- With an empty free list every index has one owner among the slots.
pub entries-le :
    (bs : List Bucket) (pool : SlabPool)
    → IsBalanced (refs bs) pool
    → pool.free_list ≡ []
    → length pool.entries ≤ 4 * length bs
unfolding count
entries-le bs pool b e = omega (
  arith,
  refs-le bs (length pool.entries),
  range_sum-one (refs bs) (length pool.entries) (λ i hi. ground (arith, b.account i)),
)
