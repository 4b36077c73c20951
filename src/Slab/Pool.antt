-- ===== src/Slab/Pool.antt =====
-- The pool: allocation and release, and the account of indices. Each index is either owned by one
-- user or free, so nothing is freed twice, lost, or read after release.
use pulse_map.Base.{
  ℕ, suc, ◌+◌, ◌≤◌, ◌<◌, ◌≡◌, refl, ◌∙◌, arith, List, [], ◌∷◌, ◌++◌, some, ◌⊎◌, inl, inr, ltb, ◌==◌,
  if◌then◌else◌, length, length-append, length-set, set, get_elem?-set, get_elem?-append_left,
  get_elem?-append_end, count,
}
use native.Mathlib.Decide.{dec_lt, ℕ_discrete}
use pulse_map.Slab.{
  SlabEntry, SlabPool, empty_pool, get, alloc_from, alloc, free, rewrite, new_entry,
}
use pulse_map.Slab.Entry.{IsSized, Fits, Stores, rewrite-Stores, new_entry-Stores}

abbrev pub one_if : ℕ → ℕ → ℕ
one_if a b = if a == b then 1 else 0

-- 1 for an index of the pool, else 0.
abbrev pub exists_at : SlabPool → ℕ → ℕ
exists_at pool i = if ltb i (length pool.entries) then 1 else 0

-- Every index of the pool holds a sized entry; `owners` counts the users of an index.
pub record IsBalanced (owners : ℕ → ℕ) (pool : SlabPool) : Type 0 where
  pub entry :
      (i : ℕ) → i < length pool.entries → (e : SlabEntry) × (get pool i ≡ some e) × IsSized e
  pub account : (i : ℕ) → owners i + count i pool.free_list ≡ exists_at pool i

-- The effect of an allocation.
pub record Allocates (owners : ℕ → ℕ) (pool : SlabPool) (key value : List ℕ) (idx : ℕ)
    (after : SlabPool) : Type 0 where
  pub balanced : IsBalanced (λ i. owners i + one_if idx i) after
  pub unowned : owners idx ≡ 0
  pub stored : (e : SlabEntry) × (get after idx ≡ some e) × Stores e key value
  pub others : (j : ℕ) → 0 < owners j → get after j ≡ get pool j
  pub within : idx ≤ length pool.entries
  pub growth : (length after.entries ≡ length pool.entries) ⊎ (after.free_list ≡ [])

pub empty_pool-IsBalanced : IsBalanced (λ _. 0) empty_pool
unfolding count
empty_pool-IsBalanced = record { entry = λ i h. absurd (omega arith); account = λ i. ground arith }

-- If an index has an owner more, `free` takes that ownership and the account of the pool stays balanced.
pub free-IsBalanced :
    (owners : ℕ → ℕ) (pool : SlabPool) (idx : ℕ)
    → IsBalanced (λ i. owners i + one_if idx i) pool
    → IsBalanced owners (free pool idx)
unfolding free count get
free-IsBalanced owners pool idx b = record {
  entry = b.entry;
  account = λ i. omega (arith, b.account i);
}

pub get-free : (pool : SlabPool) (idx j : ℕ) → get (free pool idx) j ≡ get pool j
unfolding free get
get-free pool idx j = refl

module _ (owners : ℕ → ℕ) (pool : SlabPool) (key value : List ℕ) (fits : Fits key value)
    (b : IsBalanced owners pool) where
  get-set :
      (idx j : ℕ) (e : SlabEntry) (rest : List ℕ)
      → idx < length pool.entries
      → get (record { entries = set pool.entries idx (some e); free_list = rest }) j
        ≡ (if idx == j then some e else get pool j)
  unfolding get
  get-set idx j e rest h = rw (get_elem?-set pool.entries idx j (some e) h) (ground arith)

  get-append :
      (j : ℕ) (e : SlabEntry)
      → j < suc (length pool.entries)
      → get (record { entries = pool.entries ++ some e ∷ []; free_list = [] }) j
        ≡ (if length pool.entries == j then some e else get pool j)
  unfolding get
  get-append j e h = elim (dec_lt j (length pool.entries)) [
    | yes p ↦ rw (get_elem?-append_left pool.entries (some e ∷ []) j p) (ground arith)
    | no p ↦
        let last : j ≡ length pool.entries = omega arith in
        rw (last, get_elem?-append_end pool.entries (some e)) (ground arith)
  ]

  -- A free index is inside the pool and has no owner.
  free_index :
      (idx : ℕ) (rest : List ℕ)
      → pool.free_list ≡ idx ∷ rest
      → (idx < length pool.entries) × (owners idx ≡ 0)
  unfolding count
  free_index idx rest split = ground (arith, b.account idx)

  owned_index : (j : ℕ) → 0 < owners j → j < length pool.entries
  owned_index j h = ground (arith, b.account j)

  reuse :
      (idx : ℕ) (rest : List ℕ)
      → pool.free_list ≡ idx ∷ rest
      → (after : SlabPool) × (alloc_from (idx ∷ rest) pool key value ≡ some (idx, after))
        × Allocates owners pool key value idx after
  unfolding alloc_from count
  reuse idx rest split =
      let (inside, unowned) = free_index idx rest split in
      let (e, reads, sized) = b.entry idx inside in
      let e' = rewrite e key value in
      let stores = rewrite-Stores key value fits e sized in
      let after : SlabPool = record {
        entries = set pool.entries idx (some e');
        free_list = rest;
      } in
      let size = length-set pool.entries idx (some e') in
      (
        after,
        rw reads,
        record {
          balanced = record {
            entry = λ i h. elim (ℕ_discrete idx i) [
              | yes same ↦ (e', get-set idx i e' rest inside ∙ ground arith, stores.sized)
              | no other ↦
                  let (f, reads_f, sized_f) = b.entry i (omega (arith, size)) in
                  (f, get-set idx i e' rest inside ∙ ground arith, sized_f)
            ];
            account = λ i. ground (arith, b.account i, size);
          };
          unowned = unowned;
          stored = (e', get-set idx idx e' rest inside ∙ ground arith, stores);
          others = λ j h. get-set idx j e' rest inside ∙ ground arith;
          within = omega arith;
          growth = inl size;
        },
      )

  fresh :
      pool.free_list ≡ []
      → (after : SlabPool) × (alloc_from [] pool key value ≡ some (length pool.entries, after))
        × Allocates owners pool key value (length pool.entries) after
  unfolding alloc_from count
  fresh split =
      let e = new_entry key value in
      let stores = new_entry-Stores key value fits in
      let after : SlabPool = record { entries = pool.entries ++ some e ∷ []; free_list = [] } in
      let size = length-append pool.entries (some e ∷ []) in
      (
        after,
        refl,
        record {
          balanced = record {
            entry = λ i h. elim (ℕ_discrete (length pool.entries) i) [
              | yes same ↦ (e, get-append i e (omega (arith, size)) ∙ ground arith, stores.sized)
              | no other ↦
                  let (f, reads_f, sized_f) = b.entry i (omega (arith, size)) in
                  (f, get-append i e (omega (arith, size)) ∙ ground arith, sized_f)
            ];
            account = λ i. ground (arith, b.account i, size);
          };
          unowned = ground (arith, b.account (length pool.entries));
          stored = (e, get-append (length pool.entries) e (omega arith) ∙ ground arith, stores);
          others =
              λ j h. let inside = owned_index j h in get-append j e (omega arith) ∙ ground arith;
          within = omega arith;
          growth = inr refl;
        },
      )

  -- On a balanced pool, allocation of a pair that fits does not panic; the index that it returns had no owner and
  -- holds the pair, every owned entry keeps its contents, and the account stays balanced.
  pub alloc-Allocates :
      (idx : ℕ) × (after : SlabPool) × (alloc pool key value ≡ some (idx, after))
      × Allocates owners pool key value idx after
  unfolding alloc
  alloc-Allocates = go pool.free_list refl
    where
      go :
          (l : List ℕ)
          → pool.free_list ≡ l
          → (idx : ℕ) × (after : SlabPool) × (alloc_from l pool key value ≡ some (idx, after))
            × Allocates owners pool key value idx after
      go [] e = let (after, runs, a) = fresh e in (length pool.entries, after, runs, a)
      go (idx ∷ rest) e = let (after, runs, a) = reuse idx rest e in (idx, after, runs, a)
