-- ===== src/Bucket/Refs.antt =====
-- Which slab indices the full slots of a vector of buckets point to, and how many slots are full.
use pulse_map.Base.{
  ℕ, zero, suc, ◌+◌, ◌≤◌, ◌<◌, ◌≡◌, refl, arith, Bool, ◌&&◌, some, List, [], ◌∷◌, ◌≢◌, ◌⊎◌, ◌==◌,
  if◌then◌else◌, get_elem?, set, get_or, below_four,
}
use pulse_map.Bucket.{Bucket}
use pulse_map.Meta.{is_full, get_state}
use pulse_map.Slab.Pool.{one_if}
use pulse_map.Slot.{Slot, empty_slot, get_mode, slab_idx}

-- `slots[j]`, for an index below four.
unfoldable pub slot_of : Bucket → ℕ → Slot
unfolding get_or
slot_of b j = get_or b.slots j empty_slot

unfoldable pub is_occupied : Bucket → ℕ → Bool
is_occupied b j = is_full (get_state b.meta j)

-- How often slot `j` owns slab index `i`.
unfoldable pub slot_refs : Bucket → ℕ → ℕ → ℕ
slot_refs b j i =
    if is_occupied b j && (get_mode (slot_of b j) == 1)
    then one_if (slab_idx (slot_of b j)) i
    else 0

-- A sum over the four slots, with and without slot `t`.
unfoldable pub total : (ℕ → ℕ) → ℕ
total f = f 0 + f 1 + f 2 + f 3

unfoldable pub except : ℕ → (ℕ → ℕ) → ℕ → ℕ
except t f j = if j == t then 0 else f j

pub total-except : (f : ℕ → ℕ) (t : ℕ) → t < 4 → total f ≡ total (except t f) + f t
unfolding total except
total-except f =
    below_four (λ t. total f ≡ total (except t f) + f t) (omega arith) (omega arith) (omega arith)
      (omega arith)

pub total_congr : (f g : ℕ → ℕ) → ((j : ℕ) → j < 4 → f j ≡ g j) → total f ≡ total g
unfolding total
total_congr f g h =
    omega (arith, h 0 (omega arith), h 1 (omega arith), h 2 (omega arith), h 3 (omega arith))

pub except_congr :
    (f g : ℕ → ℕ) (t : ℕ)
    → ((j : ℕ) → j < 4 → j ≢ t → f j ≡ g j)
    → total (except t f) ≡ total (except t g)
unfolding except
except_congr f g t h = total_congr (except t f) (except t g) (λ j bj. ground (arith, h j bj))

pub total-le : (f : ℕ → ℕ) (j : ℕ) → j < 4 → f j ≤ total f
unfolding total
total-le f = below_four (λ j. f j ≤ total f) (omega arith) (omega arith) (omega arith) (omega arith)

except-other : (f : ℕ → ℕ) (t j : ℕ) → j ≢ t → except t f j ≡ f j
unfolding except
except-other f t j ne = ground arith

-- A sum over all slots of all buckets, for any weight of a slot.
module _ (weight : Bucket → ℕ → ℕ) where
  unfoldable pub sum_all : List Bucket → ℕ
  sum_all [] = 0
  sum_all (b ∷ bs) = total (weight b) + sum_all bs

  -- The same without slot `t` of bucket `k`.
  unfoldable pub sum_except : List Bucket → ℕ → ℕ → ℕ
  sum_except [] k t = 0
  sum_except (b ∷ bs) zero t = total (except t (weight b)) + sum_all bs
  sum_except (b ∷ bs) (suc k) t = total (weight b) + sum_except bs k t

  pub sum_all-split :
      (bs : List Bucket) (k t : ℕ) {b : Bucket}
      → get_elem? bs k ≡ some b
      → t < 4
      → sum_all bs ≡ sum_except bs k t + weight b t
  unfolding sum_all sum_except get_elem?
  sum_all-split [] k t e h = cc
  sum_all-split (c ∷ bs) zero t {b} e h =
      let same : c ≡ b = cc in rw same (omega (arith, total-except (weight b) t h))
  sum_all-split (c ∷ bs) (suc k) t e h = omega (arith, sum_all-split bs k t e h)

  pub sum_except-set :
      (bs : List Bucket) (k t : ℕ) (b' : Bucket) {b : Bucket}
      → get_elem? bs k ≡ some b
      → ((j : ℕ) → j < 4 → j ≢ t → weight b' j ≡ weight b j)
      → sum_except (set bs k b') k t ≡ sum_except bs k t
  unfolding sum_except get_elem? set
  sum_except-set [] k t b' e h = refl
  sum_except-set (c ∷ bs) zero t b' {b} e h =
      let same : c ≡ b = cc in rw same (omega (arith, except_congr (weight b') (weight b) t h))
  sum_except-set (c ∷ bs) (suc k) t b' e h = omega (arith, sum_except-set bs k t b' e h)

  pub sum_all-le :
      (bs : List Bucket) (k j : ℕ) {b : Bucket}
      → get_elem? bs k ≡ some b
      → j < 4
      → weight b j ≤ sum_all bs
  unfolding sum_all get_elem?
  sum_all-le [] k j e h = cc
  sum_all-le (c ∷ bs) zero j {b} e h =
      let same : c ≡ b = cc in rw same (omega (arith, total-le (weight b) j h))
  sum_all-le (c ∷ bs) (suc k) j e h = omega (arith, sum_all-le bs k j e h)

  -- Another slot than the one left out is still counted.
  pub sum_except-le :
      (bs : List Bucket) (k t l j : ℕ) {c : Bucket}
      → get_elem? bs l ≡ some c
      → j < 4
      → (l ≢ k) ⊎ (j ≢ t)
      → weight c j ≤ sum_except bs k t
  unfolding sum_all sum_except get_elem?
  sum_except-le [] k t l j e h ne = cc
  sum_except-le (b ∷ bs) zero t zero j {c} e h ne =
      let same : b ≡ c = cc in
      rw same (ground (arith, total-le (except t (weight c)) j h, except-other (weight c) t j))
  sum_except-le (b ∷ bs) zero t (suc l) j e h ne = omega (arith, sum_all-le bs l j e h)
  sum_except-le (b ∷ bs) (suc k) t zero j {c} e h ne =
      let same : b ≡ c = cc in rw same (omega (arith, total-le (weight c) j h))
  sum_except-le (b ∷ bs) (suc k) t (suc l) j e h ne = ground (arith, sum_except-le bs k t l j e h)
