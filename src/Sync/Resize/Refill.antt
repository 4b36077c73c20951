-- ===== src/Sync/Resize/Refill.antt =====
-- The refill: entries with different keys go into free slots, while there is room for them.
use pulse_map.Base.{
  ℕ, ◌+◌, ◌-◌, ◌*◌, ◌≤◌, ◌<◌, ◌≡◌, ◌≢◌, refl, sym, ◌∙◌, arith, Bool, false, Option, none, some,
  List, [], ◌∷◌, ◌==◌, if◌then◌else◌, length, get_elem?, set, set_elem?-of_lt, bytes_eq,
  bytes_eq_refl, bytes_eq_sound, ◌>>=◌, Option-cases, Bool-cases, inl, inr,
}
use mathlib.Core.Bool.{false≢true}
use pulse_map.Bucket.Entries.{position}
use pulse_map.Bucket.Fill.{with_slot}
use pulse_map.Bucket.Refs.{is_occupied}
use pulse_map.Bucket.{Bucket}
use pulse_map.Hash.{HashResult, compute_hash}
use pulse_map.Meta.Policy.{find_free_slot-some}
use pulse_map.Meta.{find_free_slot}
use pulse_map.Raw.Change.{resides, resides→reads}
use pulse_map.Raw.Invariant.{index, IsValid, index-lt, ttl_inside, stored}
use pulse_map.Raw.Lookup.{home, home_at, home-IsSound, hit}
use pulse_map.Raw.Rewrite.{place_new}
use pulse_map.Raw.Words.{fresh_word, fresh-WordElsewhere, fresh-full}
use pulse_map.Raw.{PulseMapRaw, SlotTtl}
use pulse_map.Slab.Entry.{Fits}
use pulse_map.Sync.Resize.Entries.{uses, at_home, find_entry, AllFit, or_else, or_else-none}
use pulse_map.Sync.Resize.Room.{
  full_at, full_slots-no_free, full_slots-with_slot, full_at-set, full_at-some,
}
use pulse_map.Sync.Resize.{EntryData, Rehash, rehash_entry, rehash_all}
use pulse_map.Sync.State.{bucket_index}
use pulse_map.Sync.View.{spread_by}

-- The new map of one round, as a table.
abbrev pub as_table : ℕ → Rehash → PulseMapRaw
as_table actual r = record {
  buckets = r.buckets;
  slab_pool = r.slab_pool;
  num_buckets = actual;
  bucket_mask = actual - 1;
  count = r.count;
  eviction_count = 0;
  slots_ttl = r.epochs;
  current_epoch = 0;
  default_ttl = 0;
}

module _ (wyhash : List ℕ → ℕ) (sharded : Bool) (actual : ℕ) where
  abbrev spread : ℕ → ℕ
  spread = spread_by sharded

  abbrev found : Rehash → List ℕ → Option (List ℕ × SlotTtl)
  found r key = stored wyhash spread (as_table actual r) key

  abbrev pub slot_home : Rehash → List ℕ → ℕ
  slot_home r = index wyhash spread (as_table actual r)

  -- One more entry in the table.
  record Adds (r : Rehash) (e : EntryData) (r' : Rehash) : Type 0 where
    valid : IsValid wyhash spread (as_table actual r')
    reads : found r' e.key_bytes ≡ some (e.val_bytes, e.slot_ttl)
    others : (other : List ℕ) → other ≢ e.key_bytes → found r' other ≡ found r other
    counts : r'.count ≡ r.count + 1
    fuller :
        (n : ℕ)
        → full_at r'.buckets n
          ≡ (if slot_home r e.key_bytes == n then 1 else 0) + full_at r.buckets n

  module _ (r : Rehash) (v : IsValid wyhash spread (as_table actual r)) (e : EntryData)
      (fits : Fits e.key_bytes e.val_bytes) (new : found r e.key_bytes ≡ none)
      (room : full_at r.buckets (slot_home r e.key_bytes) < 4) where
    abbrev key : List ℕ
    key = e.key_bytes

    abbrev b : Bucket
    b = home wyhash spread v key

    abbrev k : ℕ
    k = slot_home r key

    abbrev hr : HashResult
    hr = compute_hash wyhash key

    at : get_elem? r.buckets k ≡ some b
    at = home_at wyhash spread v key

    nowhere : position r.slab_pool b key ≡ none
    nowhere = elim (Option-cases (position r.slab_pool b key)) [
      | inl p ↦ p
      | inr (i, p) ↦ cc ((hit wyhash spread v key p).is_stored, new)
    ]

    has_room : find_free_slot b.meta ≢ none
    has_room f = omega (arith, room, full_at-some r.buckets k at, full_slots-no_free b f)

    rehash_entry-Adds :
        (r' : Rehash) × (rehash_entry wyhash sharded (actual - 1) r e ≡ some (some r'))
        × Adds r e r'
    unfolding rehash_entry bucket_index index
    rehash_entry-Adds = elim (Option-cases (find_free_slot b.meta)) [
      | inl f ↦ absurd (has_room f)
      | inr (t, f) ↦
          let frees = find_free_slot-some b.meta f in
          let bt = frees.below in
          let vacant : is_occupied b t ≡ false = unfold is_occupied in frees.free in
          let (s, pool', runs, p₀) =
            place_new wyhash spread v key e.val_bytes fits e.slot_ttl nowhere t bt in
          let p = rw vacant at p₀ in
          let w = fresh_word b.meta t hr.h2 in
          let word = (home-IsSound wyhash spread v key).word in
          let four = (home-IsSound wyhash spread v key).four in
          let b' = with_slot b t w s in
          (
            record {
              buckets = set r.buckets k b';
              slab_pool = pool';
              epochs = set r.epochs (k * 4 + t) e.slot_ttl;
              count = r.count + 1;
            },
            rw (
              rehash_entry,
              at,
              ◌>>=◌,
              f,
              rw vacant at runs,
              set_elem?-of_lt b.slots t s (omega (arith, four, bt)),
              set_elem?-of_lt r.buckets k b' (index-lt wyhash spread v key),
              set_elem?-of_lt r.epochs (k * 4 + t) e.slot_ttl (ttl_inside wyhash spread v key t bt),
            ),
            record {
              valid = p.valid;
              reads = p.reads;
              counts = refl;
              others = λ other ne. p.others other ne ∙ rw (not_there other t vacant);
              fuller = λ n. full_at-set r.buckets k n b' at (
                  full_slots-with_slot b t w s bt (fresh-WordElsewhere b.meta t hr.h2 word bt)
                    (fresh-full b.meta t hr.h2 word bt) vacant);
            },
          )
    ]
      where
        not_there :
            (other : List ℕ) (t : ℕ)
            → is_occupied b t ≡ false
            → resides wyhash spread (as_table actual r) k t other ≡ false
        not_there other t vacant =
            elim (Bool-cases (resides wyhash spread (as_table actual r) k t other)) [
              | inl q ↦
                  let (occ, _) = resides→reads wyhash spread (as_table actual r) k t b other at q in
                  absurd (false≢true (sym vacant ∙ occ))
              | inr q ↦ q
            ]

  -- All the entries of a list in the table.
  pub record Fills (r : Rehash) (es : List EntryData) (r' : Rehash) : Type 0 where
    pub valid : IsValid wyhash spread (as_table actual r')
    pub reads : (key : List ℕ) → found r' key ≡ or_else (found r key) (find_entry key es)
    pub counts : r'.count ≡ r.count + length es

  module _ (e : EntryData) (es : List EntryData) (r r' : Rehash) (a : Adds r e r')
      (once : (key : List ℕ) → uses key (e ∷ es) ≤ 1)
      (apart : (key : List ℕ) → 0 < uses key (e ∷ es) → found r key ≡ none) where
    still_apart : (key : List ℕ) → 0 < uses key es → found r' key ≡ none
    unfolding uses
    still_apart key more = elim (Bool-cases (bytes_eq e.key_bytes key)) [
      | inl q ↦ absurd (ground (arith, once key))
      | inr q ↦
          a.others key (λ same. false≢true (sym q ∙ rw same (bytes_eq_refl e.key_bytes)))
          ∙ apart key (ground arith)
    ]

    one_more : {r'' : Rehash} → Fills r' es r'' → Fills r (e ∷ es) r''
    unfolding uses find_entry
    one_more f = record {
      valid = f.valid;
      counts = omega (arith, f.counts, a.counts);
      reads = λ key. elim (Bool-cases (bytes_eq e.key_bytes key)) [
        | inl q ↦
            let same = bytes_eq_sound e.key_bytes key q in
            let now : found r' key ≡ some (e.val_bytes, e.slot_ttl) = rw same at a.reads in
            let before : found r key ≡ none = apart key (ground arith) in
            f.reads key ∙ rw (now, before, q)
        | inr q ↦
            let kept =
              a.others key (λ same. false≢true (sym q ∙ rw same (bytes_eq_refl e.key_bytes))) in
            f.reads key ∙ rw (kept, q)
      ];
    }

  -- With room for every entry in its bucket, no round overflows.
  pub rehash_all-Fills :
      (es : List EntryData) (r : Rehash) (v : IsValid wyhash spread (as_table actual r))
      → AllFit es
      → ((key : List ℕ) → uses key es ≤ 1)
      → ((key : List ℕ) → 0 < uses key es → found r key ≡ none)
      → ((n : ℕ) → full_at r.buckets n + at_home (slot_home r) n es ≤ 4)
      → (r' : Rehash) × (rehash_all wyhash sharded (actual - 1) r es ≡ some (some r'))
        × Fills r es r'
  unfolding rehash_all uses at_home find_entry index
  rehash_all-Fills [] r v fit once apart room = (
    r,
    refl,
    record { valid = v; reads = λ key. sym (or_else-none (found r key)); counts = omega arith },
  )
  rehash_all-Fills (e ∷ es) r v fit once apart room =
      let new = apart e.key_bytes (ground (arith, bytes_eq_refl e.key_bytes)) in
      let free : full_at r.buckets (slot_home r e.key_bytes) < 4 =
        ground (arith, room (slot_home r e.key_bytes)) in
      let (r', one, a) = rehash_entry-Adds r v e fit.0 new free in
      let (r'', rest, f) =
        rehash_all-Fills es r' a.valid fit.1 (λ key. omega (arith, once key))
          (still_apart e es r r' a once apart) (λ n. omega (arith, room n, a.fuller n)) in
      (r'', rw (one, ◌>>=◌) rest, one_more e es r r' a once apart f)
