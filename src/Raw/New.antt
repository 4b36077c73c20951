-- ===== src/Raw/New.antt =====
-- `PulseMapRaw::new`: the number of buckets, and a new map is valid and empty.
use pulse_map.Base.{
  ℕ, zero, suc, ◌+◌, ◌-◌, ◌*◌, ◌^◌, ◌<◌, ◌≤◌, max, ◌≡◌, refl, sym, ◌∙◌, arith, false, leb, none,
  some, List, length-replicate, get_elem?, get_elem?-replicate, lt_of_get_elem?, ◌>>=◌, replicate,
  below_four, eq_of_some, subst, Bool-cases, inl, inr,
}
use mathlib.Core.Bool.{false≢true}
use native.Mathlib.Nat.{pow-suc, add-zero, pow-le-pow_right}
use native.Mathlib.Decide.{ℕ_discrete}
use pulse_map.Bucket.Entries.{position, IsSound}
use pulse_map.Bucket.Fill.{occupancy}
use pulse_map.Bucket.Position.{position-absent}
use pulse_map.Bucket.Refs.{is_occupied, slot_refs, sum_all, total}
use pulse_map.Bucket.Replace.{refs, AllSound}
use pulse_map.Bucket.Write.{slot_refs-vacant, IsBalanced-congr}
use pulse_map.Bucket.{Bucket, empty_bucket}
use pulse_map.Meta.{is_full, get_state}
use pulse_map.Raw.Invariant.{plain, index, IsValid, stored, home_bucket}
use pulse_map.Raw.{PulseMapRaw, default_slot_ttl, doubled_until, next_power_of_two, new}
use pulse_map.Slab.Pool.{empty_pool-IsBalanced}
use pulse_map.Slab.{empty_pool}
use pulse_map.Slot.{empty_slot}

-- The least power of two from `2 ^ j` on that is at least `n`.
pub record IsLeast (j n p : ℕ) : Type 0 where
  pub exponent : ℕ
  pub power : p ≡ 2 ^ exponent
  pub enough : n ≤ p
  pub least : (c : ℕ) → j ≤ c → n ≤ 2 ^ c → exponent ≤ c

IsLeast-next : {j n p : ℕ} → leb n (2 ^ j) ≡ false → IsLeast (suc j) n p → IsLeast j n p
IsLeast-next {j} {n} big rest = record {
  exponent = rest.exponent;
  power = rest.power;
  enough = rest.enough;
  least = λ c hc hn. elim (ℕ_discrete j c) [
    | yes e ↦ absurd (ground (arith, big, rw (sym e) at hn))
    | no ne ↦ rest.least c (omega arith) hn
  ];
}

double : (j : ℕ) → 2 * 2 ^ j ≡ 2 ^ suc j
double j = omega (arith, pow-suc 2 j)

shift : (j fuel : ℕ) → j + suc fuel ≡ suc j + fuel
shift j fuel = omega arith

doubled_until-IsLeast :
    (fuel j n : ℕ) → n ≤ 2 ^ (j + fuel) → IsLeast j n (doubled_until fuel (2 ^ j) n)
unfolding doubled_until
doubled_until-IsLeast zero j n h = record {
  exponent = j;
  power = refl;
  enough = rw add-zero at h;
  least = λ c hc _. hc;
}
doubled_until-IsLeast (suc fuel) j n h = elim (Bool-cases (leb n (2 ^ j))) [
  | inl small ↦
      rw small (record { exponent = j; power = refl; enough = ground arith; least = λ c hc _. hc })
  | inr big ↦
      rw (big, double j)
        (IsLeast-next big (doubled_until-IsLeast fuel (suc j) n (rw (shift j fuel) at h)))
]

-- `next_power_of_two` is the least power of two that is at least `n`.
pub next_power_of_two-IsLeast : (n : ℕ) → n ≤ 2 ^ 64 → IsLeast 0 n (next_power_of_two n)
unfolding next_power_of_two
next_power_of_two-IsLeast n h = doubled_until-IsLeast 64 0 n h

empty-vacant : (j : ℕ) → j < 4 → is_occupied empty_bucket j ≡ false
unfolding is_occupied is_full get_state empty_bucket
empty-vacant = below_four (λ j. is_occupied empty_bucket j ≡ false) refl refl refl refl

sum_all-empty :
    (weight : Bucket → ℕ → ℕ) (n : ℕ)
    → ((j : ℕ) → j < 4 → weight empty_bucket j ≡ 0)
    → sum_all weight (replicate n empty_bucket) ≡ 0
unfolding sum_all replicate total
sum_all-empty weight zero h = refl
sum_all-empty weight (suc n) h = omega (
  arith,
  sum_all-empty weight n h,
  h 0 (omega arith),
  h 1 (omega arith),
  h 2 (omega arith),
  h 3 (omega arith),
)

pub empty-IsSound : (wyhash : List ℕ → ℕ) → IsSound wyhash empty_pool empty_bucket
unfolding empty_bucket
empty-IsSound wyhash = record {
  word = omega arith;
  four = length-replicate 4 empty_slot;
  held = λ j bj occ. absurd (false≢true (sym (empty-vacant j bj) ∙ occ));
  distinct = λ i j k bi bj occ _ _ _. absurd (false≢true (sym (empty-vacant i bi) ∙ occ));
}

module _ (wyhash : List ℕ → ℕ) (n : ℕ) where
  all_empty :
      (k : ℕ) {b : Bucket} → get_elem? (replicate n empty_bucket) k ≡ some b → empty_bucket ≡ b
  all_empty k e =
      let inside : k < n =
        omega (
          arith,
          lt_of_get_elem? (replicate n empty_bucket) k e,
          length-replicate n empty_bucket,
        ) in
      eq_of_some (sym (get_elem?-replicate n k empty_bucket inside) ∙ e)

  empty-AllSound :
      (index : List ℕ → ℕ) → AllSound wyhash index empty_pool (replicate n empty_bucket)
  empty-AllSound index = record {
    sound = λ k b e. subst (IsSound wyhash empty_pool) (all_empty k e) (empty-IsSound wyhash);
    home = λ k b j key e bj occ _.
        absurd (false≢true (sym (empty-vacant j bj) ∙ rw (sym (all_empty k e)) at occ));
  }

-- The map with `actual` empty buckets.
abbrev pub start : ℕ → PulseMapRaw
start actual = record {
  buckets = replicate actual empty_bucket;
  slab_pool = empty_pool;
  num_buckets = actual;
  bucket_mask = actual - 1;
  count = 0;
  eviction_count = 0;
  slots_ttl = replicate (actual * 4) default_slot_ttl;
  current_epoch = 0;
  default_ttl = 0;
}

module _ (wyhash : List ℕ → ℕ) (spread : ℕ → ℕ) (actual exponent : ℕ)
    (power : actual ≡ 2 ^ exponent) (small : actual ≤ 2 ^ 57) where
  pub start-IsValid : IsValid wyhash spread (start actual)
  start-IsValid = record {
    exponent = exponent;
    sized = power;
    masked = refl;
    bounded = small;
    width = length-replicate actual empty_bucket;
    ttl_width = length-replicate (actual * 4) default_slot_ttl;
    all = empty-AllSound wyhash actual (index wyhash spread (start actual));
    balanced =
        IsBalanced-congr (λ _. 0) (refs (replicate actual empty_bucket)) empty_pool
          (λ i. sym (
            sum_all-empty (λ b j. slot_refs b j i) actual
              (λ j bj. slot_refs-vacant empty_bucket j i (empty-vacant j bj))))
          empty_pool-IsBalanced;
    counted = sym (sum_all-empty occupancy actual (λ j bj. rw (empty-vacant j bj)));
    small = omega arith;
    epoch = omega arith;
  }

  pub start-stored : (key : List ℕ) → stored wyhash spread (start actual) key ≡ none
  unfolding stored
  start-stored key =
      let (b, at) = home_bucket wyhash spread start-IsValid key in
      let same = all_empty wyhash actual (index wyhash spread (start actual) key) at in
      let nowhere : position empty_pool b key ≡ none =
        position-absent empty_pool b key
          (λ j bj occ _. false≢true (sym (empty-vacant j bj) ∙ rw (sym same) at occ)) in
      rw (at, ◌>>=◌, nowhere)

-- `new` gives a valid map in which no key is stored, with the least power of two of buckets that is asked
-- for, at least one, if at most `2 ^ 57` are asked for.
pub new-IsValid :
    (wyhash : List ℕ → ℕ) (n : ℕ)
    → n ≤ 2 ^ 57
    → IsValid wyhash plain (new n)
      × IsLeast 0 (max n 1) (new n).num_buckets
      × ((key : List ℕ) → stored wyhash plain (new n) key ≡ none)
unfolding new
new-IsValid wyhash n small =
    let p = next_power_of_two-IsLeast (max n 1) (omega arith) in
    let actual = next_power_of_two (max n 1) in
    let bound : actual ≤ 2 ^ 57 = omega (
      arith,
      p.power,
      pow-le-pow_right {n = 2} (omega arith) (p.least 57 (omega arith) (omega arith)),
    ) in
    (
      start-IsValid wyhash plain actual p.exponent p.power bound,
      p,
      start-stored wyhash plain actual p.exponent p.power bound,
    )
