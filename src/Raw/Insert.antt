-- ===== src/Raw/Insert.antt =====
-- `insert_internal`: no panic, the invariant kept, the pair stored under the new epoch, and every other key
-- as it was, but for the one entry that may make room.
use pulse_map.Base.{
  ℕ, ◌+◌, ◌*◌, ◌<◌, ◌≡◌, refl, arith, none, some, List, get_elem?, set_elem?-of_lt, ◌>>=◌, true,
  if◌then◌else◌, add64, Option-cases, Bool-cases, inl, inr,
}
use pulse_map.Bucket.Entries.{position, get_elem?-slot_of}
use pulse_map.Bucket.Fill.{occupied-le, with_slot, vacated}
use pulse_map.Bucket.Refs.{slot_of, is_occupied}
use pulse_map.Bucket.{Bucket, release, store_pair}
use pulse_map.Hash.{HashResult, compute_hash}
use pulse_map.Meta.{on_access}
use pulse_map.Raw.Change.{position→resides, resides}
use pulse_map.Raw.Choose.{Choice, emptied, choose_slot_lem}
use pulse_map.Raw.Rewrite.{written, place_update, place_new, new_count, new_evictions}
use pulse_map.Raw.Invariant.{
  plain, ticked, ticked-IsValid, index, IsValid, index-lt, locate_lem, ttl_inside, stored,
}
use pulse_map.Raw.Lookup.{home, home_at, home-IsSound, hit, miss}
use pulse_map.Raw.Place.{Places}
use pulse_map.Raw.Words.{fresh_word}
use pulse_map.Raw.{PulseMapRaw, SlotTtl, update_slot, stamp_slot_ttl, fill_slot, insert_internal}
use pulse_map.Slab.Entry.{Fits}
use pulse_map.Slab.{SlabPool}
use pulse_map.Slot.{Slot}

-- What an insertion into `m`, whose epoch has advanced, does with slot `t`: it holds the key already, or it
-- is chosen for the key.
pub data Cause (wyhash : List ℕ → ℕ) (m : PulseMapRaw) (key : List ℕ) (t : ℕ) (m' : PulseMapRaw)
    : Type 0 where
  updated :
      resides wyhash plain m (index wyhash plain m key) t key ≡ true
      → m'.count ≡ m.count
      → m'.eviction_count ≡ m.eviction_count
      → Cause wyhash m key t m'
  added :
      (b : Bucket)
      → get_elem? m.buckets (index wyhash plain m key) ≡ some b
      → stored wyhash plain m key ≡ none
      → Choice m (index wyhash plain m key) b t
      → m'.count ≡ (if is_occupied b t then m.count else m.count + 1)
      → m'.eviction_count ≡ (if is_occupied b t then add64 m.eviction_count 1 else m.eviction_count)
      → Cause wyhash m key t m'

-- The TTL record of an entry that is written now.
abbrev pub stamp : PulseMapRaw → ℕ → SlotTtl
stamp m ttl = record { epoch = m.current_epoch; ttl = ttl }

pub record Inserts (wyhash : List ℕ → ℕ) (m : PulseMapRaw) (key value : List ℕ) (ttl : ℕ)
    (m' : PulseMapRaw) : Type 0 where
  pub slot : ℕ
  pub below : slot < 4
  pub places : Places wyhash plain m key value (stamp m ttl) slot m'
  pub cause : Cause wyhash m key slot m'

module _ (wyhash : List ℕ → ℕ) {m : PulseMapRaw} (v : IsValid wyhash plain m) (key value : List ℕ)
    (fits : Fits key value) (ttl : ℕ) where
  abbrev b : Bucket
  b = home wyhash plain v key

  abbrev k : ℕ
  k = index wyhash plain m key

  abbrev hr : HashResult
  hr = compute_hash wyhash key

  abbrev overwritten : ℕ → ℕ → Slot → SlabPool → ℕ → ℕ → PulseMapRaw
  overwritten = written wyhash plain v key value fits (stamp m ttl)

  module _ (i : ℕ) (e : position m.slab_pool b key ≡ some i) where
    update_slot_lem :
        {s : Slot} {pool' : SlabPool}
        → store_pair (vacated m.slab_pool b i) key value hr ≡ some (s, pool')
        → update_slot m k b i key value hr ttl
          ≡ some (overwritten i (on_access b.meta i) s pool' m.count m.eviction_count)
    unfolding update_slot stamp_slot_ttl
    update_slot_lem {s} {pool'} runs =
        let h = hit wyhash plain v key e in
        let four = (home-IsSound wyhash plain v key).four in
        let runs' : store_pair (release m.slab_pool (slot_of b i)) key value hr ≡ some (s, pool') =
          rw h.occupied at runs in
        rw (
          get_elem?-slot_of b i four h.below,
          ◌>>=◌,
          runs',
          set_elem?-of_lt b.slots i s (omega (arith, four, h.below)),
          set_elem?-of_lt m.buckets k (with_slot b i (on_access b.meta i) s)
              (index-lt wyhash plain v key),
          set_elem?-of_lt m.slots_ttl (k * 4 + i) (record { epoch = m.current_epoch; ttl = ttl })
              (ttl_inside wyhash plain v key i h.below),
        )

    -- The key is there.
    update_slot-Inserts :
        (m' : PulseMapRaw) × (update_slot m k b i key value hr ttl ≡ some m')
        × Inserts wyhash m key value ttl m'
    update_slot-Inserts =
        let (s, pool', runs, p) = place_update wyhash plain v key value fits (stamp m ttl) i e in
        (
          overwritten i (on_access b.meta i) s pool' m.count m.eviction_count,
          update_slot_lem runs,
          record {
            slot = i;
            below = (hit wyhash plain v key e).below;
            places = p;
            cause =
                updated
                  (position→resides wyhash plain m k i b key (home_at wyhash plain v key) refl e)
                  refl refl;
          },
        )

  module _ (e : position m.slab_pool b key ≡ none) (t : ℕ) (bt : t < 4) where
    abbrev count' : ℕ
    count' = new_count wyhash plain v key value fits (stamp m ttl) e t bt

    abbrev evictions' : ℕ
    evictions' = new_evictions wyhash plain v key value fits (stamp m ttl) e t bt

    abbrev map₂ : PulseMapRaw
    map₂ = emptied m k b (λ j bj. ttl_inside wyhash plain v key j bj) t

    fill_slot_lem :
        {s : Slot} {pool' : SlabPool}
        → store_pair (vacated m.slab_pool b t) key value hr ≡ some (s, pool')
        → fill_slot map₂ k b t (is_occupied b t) key value hr ttl
          ≡ some (overwritten t (fresh_word b.meta t hr.h2) s pool' count' evictions')
    unfolding fill_slot stamp_slot_ttl
    fill_slot_lem {s} {pool'} runs =
        let four = (home-IsSound wyhash plain v key).four in
        let w = fresh_word b.meta t hr.h2 in
        let small : add64 m.count 1 ≡ m.count + 1 =
          omega (arith, v.counted, occupied-le m.buckets, v.width, v.bounded) in
        rw
          (
            runs,
            ◌>>=◌,
            set_elem?-of_lt b.slots t s (omega (arith, four, bt)),
            set_elem?-of_lt m.buckets k (with_slot b t w s) (index-lt wyhash plain v key),
            set_elem?-of_lt m.slots_ttl (k * 4 + t) (record { epoch = m.current_epoch; ttl = ttl })
                (ttl_inside wyhash plain v key t bt),
          )
          (elim (Bool-cases (is_occupied b t)) [ inl o ↦ rw o | inr o ↦ rw (o, small) ])

    -- The key is new.
    fill_slot-Inserts :
        Choice m k b t
        → (m' : PulseMapRaw) × (fill_slot map₂ k b t (is_occupied b t) key value hr ttl ≡ some m')
          × Inserts wyhash m key value ttl m'
    fill_slot-Inserts choice =
        let (s, pool', runs, p) = place_new wyhash plain v key value fits (stamp m ttl) e t bt in
        (
          overwritten t (fresh_word b.meta t hr.h2) s pool' count' evictions',
          fill_slot_lem runs,
          record {
            slot = t;
            below = bt;
            places = p;
            cause =
                added b (home_at wyhash plain v key) (miss wyhash plain v key e) choice refl refl;
          },
        )

-- On a valid map, an insertion of a pair whose lengths fit in 32 bits does not panic. Afterwards the map is
-- valid; the key has the value, stamped with the advanced epoch and the given TTL; every other key has what
-- it had, except one that lived in the chosen slot of the same bucket, and that slot is either the key's own
-- or the first free or expired one, or, if all four are full and fresh, the first of the least priority.
pub insert_internal-Inserts :
    (wyhash : List ℕ → ℕ) {m : PulseMapRaw} (v : IsValid wyhash plain m) (key value : List ℕ)
    (fits : Fits key value) (ttl : ℕ)
    → (m' : PulseMapRaw) × (insert_internal wyhash m key value ttl ≡ some m')
      × Inserts wyhash (ticked m) key value ttl m'
unfolding insert_internal
insert_internal-Inserts wyhash {m} v₀ key value fits ttl =
    let v = ticked-IsValid wyhash plain v₀ in
    let b = home wyhash plain v key in
    let k = index wyhash plain (ticked m) key in
    elim (Option-cases (position m.slab_pool b key)) [
      | inr (i, e) ↦
          let (m', runs, p) = update_slot-Inserts wyhash v key value fits ttl i e in
          (m', rw (locate_lem wyhash v key, ◌>>=◌, e) runs, p)
      | inl e ↦
          let (t, bt, choice, chosen) =
            choose_slot_lem (ticked m) k b (λ j bj. ttl_inside wyhash plain v key j bj)
              (home-IsSound wyhash plain v key).four in
          let (m', runs, p) = fill_slot-Inserts wyhash v key value fits ttl e t bt choice in
          (m', rw (locate_lem wyhash v key, ◌>>=◌, e, chosen) runs, p)
    ]
