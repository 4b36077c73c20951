-- ===== src/Sync/Write.antt =====
-- The part of an insertion that finds and writes the slot, once the deferred accesses have been applied.
use pulse_map.Base.{
  ℕ, ◌+◌, ◌*◌, ◌<◌, ◌≡◌, refl, sym, ◌∙◌, arith, true, false, none, some, List, get_elem?, set,
  set_elem?-of_lt, ◌>>=◌, add64, Option-cases, inl, inr,
}
use mathlib.Core.Bool.{false≢true}
use pulse_map.Bucket.Entries.{position, get_elem?-slot_of}
use pulse_map.Bucket.Fill.{occupied-le, with_slot}
use pulse_map.Bucket.Refs.{slot_of, is_occupied}
use pulse_map.Bucket.{Bucket, release, store_pair}
use pulse_map.Hash.{HashResult, compute_hash}
use pulse_map.Meta.Policy.{
  Frees, Evicts, find_free_slot-some, find_free_slot-none, find_evict_target-some,
  find_evict_target-none,
}
use pulse_map.Meta.{on_access, find_free_slot, find_evict_target}
use pulse_map.Raw.Change.{resides, position→resides}
use pulse_map.Raw.Insert.{stamp}
use pulse_map.Raw.Invariant.{index, index-lt, ttl_inside}
use pulse_map.Raw.Lookup.{home, home_at, home-IsSound, hit, miss}
use pulse_map.Raw.Place.{Places}
use pulse_map.Raw.Rewrite.{place_update, place_new}
use pulse_map.Raw.Words.{fresh_word}
use pulse_map.Slab.Entry.{Fits}
use pulse_map.Slab.{SlabPool}
use pulse_map.Slot.{Slot}
use pulse_map.Sync.Ops.{write_slot, add_entry}
use pulse_map.Sync.State.{ConcurrentPulseMap, stamp_epoch}
use pulse_map.Sync.View.{view, spread_by, IsConsistent, holds}

-- Why slot `t` is written: it holds the key, or it is the first that is free, or all four are full and it has
-- the least priority.
pub data Cause (wyhash : List ℕ → ℕ) (m : ConcurrentPulseMap) (key : List ℕ) (t : ℕ)
    (m' : ConcurrentPulseMap) : Type 0 where
  updated :
      resides wyhash
          (spread_by m.sharded_index)
          (view m)
          (index wyhash (spread_by m.sharded_index) (view m) key)
          t
          key
        ≡ true
      → m'.count ≡ m.count
      → m'.eviction_count ≡ m.eviction_count
      → Cause wyhash m key t m'
  filled :
      (b : Bucket)
      → get_elem? m.inner.buckets (index wyhash (spread_by m.sharded_index) (view m) key) ≡ some b
      → holds wyhash m key ≡ none
      → Frees b.meta t
      → m'.count ≡ m.count + 1
      → m'.eviction_count ≡ m.eviction_count
      → Cause wyhash m key t m'
  evicted :
      (b : Bucket)
      → get_elem? m.inner.buckets (index wyhash (spread_by m.sharded_index) (view m) key) ≡ some b
      → holds wyhash m key ≡ none
      → ((j : ℕ) → j < 4 → is_occupied b j ≡ true)
      → Evicts b.meta t
      → m'.count ≡ m.count
      → m'.eviction_count ≡ add64 m.eviction_count 1
      → Cause wyhash m key t m'

-- Slot `t` of the key's bucket and its TTL record are written, and no other slot of any bucket.
pub record OneSlot (wyhash : List ℕ → ℕ) (m : ConcurrentPulseMap) (key : List ℕ) (ttl t : ℕ)
    (m' : ConcurrentPulseMap) : Type 0 where
  pub bucket : Bucket
  pub word : ℕ
  pub slot : Slot
  pub at :
      get_elem? m.inner.buckets (index wyhash (spread_by m.sharded_index) (view m) key)
      ≡ some bucket
  pub buckets :
      m'.inner.buckets
      ≡ set m.inner.buckets
          (index wyhash (spread_by m.sharded_index) (view m) key)
          (with_slot bucket t word slot)
  pub epochs :
      m'.inner.epochs
      ≡ set m.inner.epochs
          (index wyhash (spread_by m.sharded_index) (view m) key * 4 + t)
          (stamp (view m) ttl)

pub record Writes (wyhash : List ℕ → ℕ) (m : ConcurrentPulseMap) (key value : List ℕ) (ttl : ℕ)
    (m' : ConcurrentPulseMap) : Type 0 where
  pub slot : ℕ
  pub below : slot < 4
  pub places :
      Places wyhash
        (spread_by m.sharded_index)
        (view m)
        key
        value
        (stamp (view m) ttl)
        slot
        (view m')
  pub cause : Cause wyhash m key slot m'
  pub one_slot : OneSlot wyhash m key ttl slot m'
  pub same_index : m'.sharded_index ≡ m.sharded_index
  pub consistent : IsConsistent wyhash m'

module _ (wyhash : List ℕ → ℕ) {m : ConcurrentPulseMap} (c : IsConsistent wyhash m)
    (key value : List ℕ) (fits : Fits key value) (ttl : ℕ) where
  abbrev spread : ℕ → ℕ
  spread = spread_by m.sharded_index

  abbrev b : Bucket
  b = home wyhash spread c.table key

  abbrev k : ℕ
  k = index wyhash spread (view m) key

  abbrev hr : HashResult
  hr = compute_hash wyhash key

  -- The map with the slot, the pool and the word written, and then with the epoch stamped.
  abbrev with_pair : ℕ → ℕ → Slot → SlabPool → ConcurrentPulseMap
  with_pair t w s pool' = record m {
    inner = record m.inner {
      buckets = set m.inner.buckets k (with_slot b t w s);
      slab_pool = pool';
    };
  }

  abbrev with_stamp : ℕ → ℕ → Slot → SlabPool → ℕ → ℕ → ConcurrentPulseMap
  with_stamp t w s pool' count evictions = record m {
    inner = record m.inner {
      buckets = set m.inner.buckets k (with_slot b t w s);
      slab_pool = pool';
      epochs = set m.inner.epochs (k * 4 + t) (stamp (view m) ttl);
    };
    count = count;
    eviction_count = evictions;
  }

  writes :
      (t : ℕ)
      → t < 4
      → (w : ℕ) (pool : SlabPool) {s : Slot} {pool' : SlabPool}
      → store_pair pool key value hr ≡ some (s, pool')
      → (write_slot m k b t key value hr w pool ≡ some (with_pair t w s pool'))
        × (stamp_epoch (with_pair t w s pool') k t ttl
            ≡ some (with_stamp t w s pool' m.count m.eviction_count))
  unfolding write_slot stamp_epoch
  writes t bt w pool {s} runs =
      let four = (home-IsSound wyhash spread c.table key).four in
      (
        rw (
          runs,
          ◌>>=◌,
          set_elem?-of_lt b.slots t s (omega (arith, four, bt)),
          set_elem?-of_lt m.inner.buckets k (with_slot b t w s)
              (index-lt wyhash spread c.table key),
        ),
        rw (
          set_elem?-of_lt m.inner.epochs (k * 4 + t) (stamp (view m) ttl)
              (ttl_inside wyhash spread c.table key t bt),
          ◌>>=◌,
        ),
      )

  -- The map that has been written is consistent, since no queued access is touched.
  written-Writes :
      (t : ℕ)
      → t < 4
      → (w : ℕ) (s : Slot) (pool' : SlabPool) (count evictions : ℕ)
      → Places wyhash spread
          (view m)
          key
          value
          (stamp (view m) ttl)
          t
          (view (with_stamp t w s pool' count evictions))
      → Cause wyhash m key t (with_stamp t w s pool' count evictions)
      → Writes wyhash m key value ttl (with_stamp t w s pool' count evictions)
  written-Writes t bt w s pool' count evictions p cause = record {
    slot = t;
    below = bt;
    places = p;
    cause = cause;
    one_slot = record {
      bucket = b;
      word = w;
      slot = s;
      at = home_at wyhash spread c.table key;
      buckets = refl;
      epochs = refl;
    };
    same_index = refl;
    consistent = record {
      table = p.valid;
      exponent = c.exponent;
      taken = c.taken;
      queue = c.queue;
      represents = c.represents;
      inside = c.inside;
    };
  }

  -- The key is there, in slot `i`.
  pub update-Writes :
      (i : ℕ)
      → position m.inner.slab_pool b key ≡ some i
      → (m₁ m' : ConcurrentPulseMap) × (write_slot m k b i key value hr
            (on_access b.meta i)
            (release m.inner.slab_pool (slot_of b i))
          ≡ some m₁)
        × (stamp_epoch m₁ k i ttl ≡ some m')
        × Writes wyhash m key value ttl m'
  update-Writes i e =
      let h = hit wyhash spread c.table key e in
      let (s, pool', runs, p) =
        place_update wyhash spread c.table key value fits (stamp (view m) ttl) i e in
      let w = on_access b.meta i in
      let (one, two) =
        writes i h.below w (release m.inner.slab_pool (slot_of b i)) (rw h.occupied at runs) in
      (
        with_pair i w s pool',
        with_stamp i w s pool' m.count m.eviction_count,
        one,
        two,
        written-Writes i h.below w s pool' m.count m.eviction_count p (
            updated
              (position→resides wyhash spread (view m) k i b key (home_at wyhash spread c.table key)
                refl e)
              refl refl),
      )

  module _ (e : position m.inner.slab_pool b key ≡ none) where
    none_held : holds wyhash m key ≡ none
    none_held = miss wyhash spread c.table key e

    at : get_elem? m.inner.buckets k ≡ some b
    at = home_at wyhash spread c.table key

    -- A slot is free.
    free-Writes :
        (t : ℕ)
        → find_free_slot b.meta ≡ some t
        → (m' : ConcurrentPulseMap) × (add_entry wyhash m k b key value hr ttl ≡ some m')
          × Writes wyhash m key value ttl m'
    unfolding add_entry
    free-Writes t f =
        let frees = find_free_slot-some b.meta f in
        let vacant : is_occupied b t ≡ false = unfold is_occupied in frees.free in
        let (s, pool', runs, p) =
          place_new wyhash spread c.table key value fits (stamp (view m) ttl) e t frees.below in
        let w = fresh_word b.meta t hr.h2 in
        let (one, two) = writes t frees.below w m.inner.slab_pool (rw vacant at runs) in
        let small : add64 m.count 1 ≡ m.count + 1 =
          omega
            (arith, c.table.counted, occupied-le m.inner.buckets, c.table.width, c.table.bounded) in
        (
          with_stamp t w s pool' (m.count + 1) m.eviction_count,
          rw (add_entry, f, one, ◌>>=◌, two, small),
          written-Writes t frees.below w s pool' (m.count + 1) m.eviction_count (rw vacant at p)
              (filled b at none_held frees refl refl),
        )

    -- All slots are full.
    full-Writes :
        find_free_slot b.meta ≡ none
        → (m' : ConcurrentPulseMap) × (add_entry wyhash m k b key value hr ttl ≡ some m')
          × Writes wyhash m key value ttl m'
    unfolding add_entry
    full-Writes f =
        let all : (j : ℕ) → j < 4 → is_occupied b j ≡ true =
          λ j bj. unfold is_occupied in find_free_slot-none b.meta f j bj in
        elim (Option-cases (find_evict_target b.meta)) [
          | inl none_full ↦ absurd (
              false≢true (
                sym (find_evict_target-none b.meta none_full 0 (omega arith))
                ∙ find_free_slot-none b.meta f 0 (omega arith)))
          | inr (t, g) ↦
              let evicts = find_evict_target-some b.meta g in
              let occ = all t evicts.below in
              let (s, pool', runs, p) =
                place_new wyhash spread c.table key value fits (stamp (view m) ttl) e t
                  evicts.below in
              let w = fresh_word b.meta t hr.h2 in
              let (one, two) =
                writes t evicts.below w (release m.inner.slab_pool (slot_of b t))
                  (rw occ at runs) in
              let four = (home-IsSound wyhash spread c.table key).four in
              (
                with_stamp t w s pool' m.count (add64 m.eviction_count 1),
                rw (add_entry, f, g, get_elem?-slot_of b t four evicts.below, one, ◌>>=◌, two),
                written-Writes t evicts.below w s pool' m.count (add64 m.eviction_count 1)
                    (rw occ at p) (evicted b at none_held all evicts refl refl),
              )
        ]

    -- The key is new.
    pub add_entry-Writes :
        (m' : ConcurrentPulseMap) × (add_entry wyhash m k b key value hr ttl ≡ some m')
        × Writes wyhash m key value ttl m'
    add_entry-Writes = elim (Option-cases (find_free_slot b.meta)) [
      | inl f ↦ full-Writes f
      | inr (t, f) ↦ free-Writes t f
    ]
