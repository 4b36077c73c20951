-- ===== src/Bucket/Write.antt =====
-- The writes to one slot, `release` and `store_pair`, and the account of slab indices.
use pulse_map.Base.{
  ℕ, ◌+◌, ◌≤◌, ◌<◌, ◌^◌, ◌≡◌, refl, arith, true, false, some, List, [], ◌⊎◌, inl, inr, ◌==◌,
  if◌then◌else◌, length, Bool-cases,
}
use pulse_map.Bucket.Refs.{slot_of, is_occupied, slot_refs}
use pulse_map.Bucket.{Bucket, release, is_inline, store_pair}
use pulse_map.Hash.{compute_hash, compute_hash_bounds}
use pulse_map.Slab.Entry.{Fits}
use pulse_map.Slab.Pool.{one_if, IsBalanced, Allocates, free-IsBalanced, get-free, alloc-Allocates}
use pulse_map.Slab.{SlabPool, free, alloc}
use pulse_map.Slab
use pulse_map.Slot.RoundTrip.{
  get_mode-set_inline, inline_key-set_inline, inline_value-set_inline, get_mode-set_slab,
  get_ext_fp_hi-set_slab, slab_idx-set_slab, get_ext_fp-set_slab,
}
use pulse_map.Slot.{
  Slot, get_mode, slab_idx, slab_key, set_inline, set_slab, get_key_bytes, get_value, get_ext_fp,
  get_ext_fp_hi,
}

-- How often a full slot owns slab index `i`.
unfoldable pub owns : Slot → ℕ → ℕ
owns s i = if get_mode s == 1 then one_if (slab_idx s) i else 0

pub slot_refs-occupied :
    (b : Bucket) (j i : ℕ) → is_occupied b j ≡ true → slot_refs b j i ≡ owns (slot_of b j) i
unfolding slot_refs owns
slot_refs-occupied b j i e = rw e

pub slot_refs-vacant : (b : Bucket) (j i : ℕ) → is_occupied b j ≡ false → slot_refs b j i ≡ 0
unfolding slot_refs
slot_refs-vacant b j i e = rw e

pub IsBalanced-congr :
    (f g : ℕ → ℕ) (pool : SlabPool) → ((i : ℕ) → f i ≡ g i) → IsBalanced f pool → IsBalanced g pool
IsBalanced-congr f g pool h b = record {
  entry = b.entry;
  account = λ i. omega (arith, h i, b.account i);
}

-- `release` gives up what a slot owns, and no entry changes.
pub release-IsBalanced :
    (rest : ℕ → ℕ) (pool : SlabPool) (s : Slot)
    → IsBalanced (λ i. rest i + owns s i) pool
    → IsBalanced rest (release pool s)
unfolding release
release-IsBalanced rest pool s b = elim (Bool-cases (get_mode s == 1)) [
  | inl e ↦ rw e (
      free-IsBalanced rest pool (slab_idx s) (
        IsBalanced-congr (λ i. rest i + owns s i) (λ i. rest i + one_if (slab_idx s) i) pool
          (λ i. unfold owns in ground arith) b))
  | inr e ↦
      rw e
        (IsBalanced-congr (λ i. rest i + owns s i) rest pool (λ i. unfold owns in ground arith) b)
]

pub get-release :
    (pool : SlabPool) (s : Slot) (i : ℕ) → Slab.get (release pool s) i ≡ Slab.get pool i
unfolding release
get-release pool s i = elim (Bool-cases (get_mode s == 1)) [
  | inl e ↦ rw e (get-free pool (slab_idx s) i)
  | inr e ↦ rw e
]

pub entries-release : (pool : SlabPool) (s : Slot) → (release pool s).entries ≡ pool.entries
unfolding release Slab.free
entries-release pool s = ground arith

-- The effect of `store_pair`.
pub record Puts (wyhash : List ℕ → ℕ) (rest : ℕ → ℕ) (pool : SlabPool) (key value : List ℕ)
    (s : Slot) (after : SlabPool) : Type 0 where
  pub key_reads : get_key_bytes s after ≡ some key
  pub value_reads : get_value s after ≡ some value
  pub printed :
      (get_mode s ≡ 0)
      ⊎ ((get_mode s ≡ 1)
          × (get_ext_fp_hi s ≡ (compute_hash wyhash key).ext_fp_hi)
          × (get_ext_fp s ≡ (compute_hash wyhash key).ext_fp))
  pub balanced : IsBalanced (λ i. rest i + owns s i) after
  pub others : (j : ℕ) → 0 < rest j → Slab.get after j ≡ Slab.get pool j
  pub growth : (length after.entries ≡ length pool.entries) ⊎ (after.free_list ≡ [])

module _ (wyhash : List ℕ → ℕ) (rest : ℕ → ℕ) (pool : SlabPool) (key value : List ℕ)
    (fits : Fits key value) (b : IsBalanced rest pool) (small : length pool.entries < 2 ^ 64) where
  short : is_inline key value ≡ true → (length key ≤ 6) × (length value ≤ 7)
  unfolding is_inline
  short e = ground arith

  inline_Puts :
      is_inline key value ≡ true → Puts wyhash rest pool key value (set_inline key value) pool
  inline_Puts e =
      let (k, v) = short e in
      let mode = get_mode-set_inline key value k v in
      record {
        key_reads = unfold get_key_bytes in rw (mode, inline_key-set_inline key value k v);
        value_reads = unfold get_value in rw (mode, inline_value-set_inline key value k v);
        printed = inl mode;
        balanced = IsBalanced-congr rest _ pool (λ i. unfold owns in rw mode (omega arith)) b;
        others = λ j h. refl;
        growth = inl refl;
      }

  slab_Puts :
      (idx : ℕ) (after : SlabPool)
      → Allocates rest pool key value idx after
      → Puts wyhash rest pool key value
          (set_slab (compute_hash wyhash key).ext_fp_hi (compute_hash wyhash key).ext_fp idx)
          after
  slab_Puts idx after a =
      let hr = compute_hash wyhash key in
      let (h2_lt, hi_lt, fp_lt) = compute_hash_bounds wyhash key in
      let idx_lt : idx < 2 ^ 64 = omega (arith, a.within) in
      let mode = get_mode-set_slab hr.ext_fp_hi hr.ext_fp idx hi_lt fp_lt idx_lt in
      let index = slab_idx-set_slab hr.ext_fp_hi hr.ext_fp idx hi_lt fp_lt idx_lt in
      let (e, reads, stores) = a.stored in
      let pointer = set_slab hr.ext_fp_hi hr.ext_fp idx in
      record {
        key_reads = unfold get_key_bytes slab_key in rw (mode, index, reads, stores.key_reads);
        value_reads = unfold get_value in rw (mode, index, reads, stores.value_reads);
        printed = inr (
          mode,
          get_ext_fp_hi-set_slab hr.ext_fp_hi hr.ext_fp idx hi_lt fp_lt idx_lt,
          get_ext_fp-set_slab hr.ext_fp_hi hr.ext_fp idx hi_lt fp_lt idx_lt,
        );
        balanced =
            IsBalanced-congr (λ i. rest i + one_if idx i) (λ i. rest i + owns pointer i) after
              (λ i. unfold owns in rw (mode, index)) a.balanced;
        others = a.others;
        growth = a.growth;
      }

  -- With a balanced pool of fewer than `2 ^ 64` entries, `store_pair` of a pair that fits does not panic; the slot
  -- that it returns reads as the pair, carries the fingerprints of the key if it is in slab mode, and owns what was
  -- allocated.
  pub store_pair-Puts :
      (s : Slot) × (after : SlabPool) × (store_pair pool key value (compute_hash wyhash key)
        ≡ some (s, after))
      × Puts wyhash rest pool key value s after
  unfolding store_pair
  store_pair-Puts = elim (Bool-cases (is_inline key value)) [
    | inl e ↦ (set_inline key value, pool, rw e, inline_Puts e)
    | inr e ↦
        let (idx, after, runs, a) = alloc-Allocates rest pool key value fits b in
        (_, after, rw (e, runs), slab_Puts idx after a)
  ]
