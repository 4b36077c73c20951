-- ===== src/Sync/Resize/Gather.antt =====
-- What `resize` collects from a valid table: under each key, what the table holds, and no key twice.
use pulse_map.Base.{
  ℕ, suc, ◌+◌, ◌*◌, ◌≤◌, ◌<◌, ◌≡◌, ◌≢◌, refl, sym, ap, ◌∙◌, arith, some, List, [], ◌∷◌, ◌++◌, leb,
  if◌then◌else◌, length, length-append, get_elem?, get_elem?-of_lt, ◌>>=◌, Option-cases, inl, inr,
}
use native.Mathlib.Decide.{ℕ_discrete}
use pulse_map.Bucket.Entries.{position}
use pulse_map.Bucket.Position.{position-some, position-none}
use pulse_map.Bucket.Fill.{occupied}
use pulse_map.Bucket.Refs.{sum_all}
use pulse_map.Bucket.{Bucket}
use pulse_map.Raw.Invariant.{index, IsValid, index-lt, stored}
use pulse_map.Raw.{PulseMapRaw}
use pulse_map.Sync.Resize.Collect.{tally-total, Gathers, collect_slots-Gathers}
use pulse_map.Sync.Resize.Entries.{
  uses, uses-append, at_home, at_home-append, at_home-le, find_entry, find_entry-append,
  find_entry-unused, AllFit, AllFit-append, or_else-none,
}
use pulse_map.Sync.Resize.{EntryData, collect}

module _ (wyhash : List ℕ → ℕ) (spread : ℕ → ℕ) {m : PulseMapRaw}
    (v : IsValid wyhash spread m) where
  abbrev home_of : List ℕ → ℕ
  home_of = index wyhash spread m

  -- The entries of the buckets from `k` on.
  pub record Collects (k : ℕ) (es : List EntryData) : Type 0 where
    pub fit : AllFit es
    pub crowd :
        (index' : List ℕ → ℕ) (n x : ℕ)
        → ((key : List ℕ) → index' key ≡ n → home_of key ≡ x)
        → at_home index' n es ≤ (if leb k x then 4 else 0)
    pub once : (key : List ℕ) → uses key es ≤ (if leb k (home_of key) then 1 else 0)
    pub finds : (key : List ℕ) → k ≤ home_of key → find_entry key es ≡ stored wyhash spread m key

  module _ (k : ℕ) (b : Bucket) (at : get_elem? m.buckets k ≡ some b) (here rest : List EntryData)
      (g : Gathers wyhash spread v k b at 0 here) (c : Collects (k + 1) rest) where
    elsewhere : (key : List ℕ) → home_of key ≢ k → uses key here ≡ 0
    elsewhere key ne =
        g.misses key (λ j _ keyed. ne (v.all.home k b j key at keyed.0 keyed.1 keyed.2))

    finds_here : (key : List ℕ) → home_of key ≡ k → find_entry key here ≡ stored wyhash spread m key
    unfolding stored
    finds_here key e = elim (Option-cases (position m.slab_pool b key)) [
      | inl p ↦
          let gone : uses key here ≡ 0 =
            g.misses key
              (λ j _ keyed. position-none m.slab_pool b key p j keyed.0 keyed.1 keyed.2) in
          rw (find_entry-unused key here gone, e, at, ◌>>=◌, p)
      | inr (i, p) ↦
          let keyed = position-some m.slab_pool b key p in
          let held = (v.all.sound k b at).held i keyed.0 keyed.1 in
          let inside : k * 4 + i < length m.slots_ttl =
            omega (arith, keyed.0, index-lt wyhash spread v key, e, v.width, v.ttl_width) in
          let (entry, entry_reads) = get_elem?-of_lt m.slots_ttl (k * 4 + i) inside in
          rw (
            g.finds i key held.value entry (omega arith) keyed held.value_reads entry_reads,
            e,
            at,
            ◌>>=◌,
            p,
            held.value_reads,
            entry_reads,
          )
    ]

    more-Collects : Collects k (here ++ rest)
    more-Collects = record {
      fit = AllFit-append here rest g.fit c.fit;
      crowd = λ index' n x refines. elim (ℕ_discrete k x) [
        | yes e ↦ ground (
          arith,
          at_home-append index' n here rest,
          at_home-le index' n here,
          g.few,
          c.crowd index' n x refines,
        )
        | no ne ↦
            let none_here = g.homes index' n (λ key q p. ne (sym q ∙ refines key p)) in
            ground (arith, at_home-append index' n here rest, none_here, c.crowd index' n x refines)
      ];
      once = λ key. elim (ℕ_discrete (home_of key) k) [
        | yes e ↦ ground (arith, uses-append key here rest, g.once key, c.once key)
        | no ne ↦ ground (arith, uses-append key here rest, elsewhere key ne, c.once key)
      ];
      finds = λ key le. elim (ℕ_discrete (home_of key) k) [
        | yes e ↦
            let gone : uses key rest ≡ 0 = ground (arith, c.once key) in
            rw (find_entry-append key here rest, find_entry-unused key rest gone, finds_here key e)
              (or_else-none (stored wyhash spread m key))
        | no ne ↦
            rw (find_entry-append key here rest, find_entry-unused key here (elsewhere key ne))
              (c.finds key (omega arith))
      ];
    }

  collect_from-Collects :
      (bs : List Bucket) (k : ℕ)
      → k + length bs ≡ length m.buckets
      → ((l : ℕ) (b : Bucket) → get_elem? bs l ≡ some b → get_elem? m.buckets (k + l) ≡ some b)
      → (es : List EntryData) × (collect k bs m.slab_pool m.slots_ttl ≡ some es)
        × (length es ≡ occupied bs)
        × Collects k es
  unfolding collect sum_all
  collect_from-Collects [] k e suffix = (
    [],
    refl,
    refl,
    record {
      fit = tt;
      crowd = λ index' n x _. unfold at_home in omega arith;
      once = λ key. unfold uses in omega arith;
      finds = λ key le. absurd (omega (arith, index-lt wyhash spread v key));
    },
  )
  collect_from-Collects (b ∷ bs) k e suffix =
      let at : get_elem? m.buckets k ≡ some b =
        ap (get_elem? m.buckets) (omega arith) ∙ suffix 0 b (unfold get_elem? in refl) in
      let (here, one, some_here, g) = collect_slots-Gathers wyhash spread v k b at 4 0 refl in
      let (rest, two, some_rest, c) = collect_from-Collects bs (k + 1) (omega arith) (λ l d d_at.
        ap (get_elem? m.buckets) (omega arith) ∙ suffix (suc l) d (unfold get_elem? in d_at)) in
      (
        here ++ rest,
        rw (one, ◌>>=◌, two),
        omega (arith, length-append here rest, some_here, some_rest, tally-total b),
        more-Collects k b at here rest g c,
      )

  pub collect-Collects :
      (es : List EntryData) × (collect 0 m.buckets m.slab_pool m.slots_ttl ≡ some es)
      × (length es ≡ occupied m.buckets)
      × Collects 0 es
  collect-Collects =
      collect_from-Collects m.buckets 0 (omega arith)
        (λ l b at. ap (get_elem? m.buckets) (omega arith) ∙ at)
