-- ===== src/Sync/Lookup.antt =====
-- `peek`, `get` and `remove` of a concurrent map against the abstract map.
use pulse_map.AccessBuffer.Refine.{push-offer, offer}
use pulse_map.AccessBuffer.{AccessBuffer, push}
use pulse_map.Base.{
  ℕ, ◌^◌, ◌<◌, ◌≡◌, refl, arith, Bool, true, false, some, List, [], ◌∷◌, ◌++◌, ltb, length, ◌>>=◌,
  set, set_elem?-of_lt, sub64, Option-cases, Bool-cases, inl, inr,
}
use pulse_map.Bucket.Entries.{position, get_elem?-slot_of}
use pulse_map.Bucket.Fill.{with_slot, vacated}
use pulse_map.Bucket.{Bucket}
use pulse_map.Meta.{tombstone, set_state}
use pulse_map.Raw.Clear.{Removes, missing-Removes, cleared-Removes}
use pulse_map.Raw.Invariant.{index, index-lt}
use pulse_map.Raw.Lookup.{Hit, home, home-IsSound, hit, miss, visible-miss, visible-hit}
use pulse_map.Raw.{is_stale}
use pulse_map.Slot.{empty_slot}
use pulse_map.Sync.Ops.{get_bytes, peek_bytes, remove_bytes}
use pulse_map.Sync.State.{ConcurrentPulseMap, is_expired}
use pulse_map.Sync.View.{view, spread_by, Inside, IsConsistent, shows, locate_lem}

Inside-append :
    (n : ℕ) (q : List (ℕ × ℕ)) (bucket slot : ℕ)
    → Inside n q
    → bucket < n
    → slot < 4
    → Inside n (q ++ (bucket, slot) ∷ [])
Inside-append n [] bucket slot h hb hs = (hb, hs, tt)
Inside-append n (a ∷ q) bucket slot h hb hs = (h.0, h.1, Inside-append n q bucket slot h.2 hb hs)

Inside-offer :
    (n room : ℕ) (q : List (ℕ × ℕ)) (bucket slot : ℕ)
    → Inside n q
    → bucket < n
    → slot < 4
    → Inside n (offer room q (bucket, slot)).1
unfolding offer
Inside-offer n room q bucket slot h hb hs = elim (Bool-cases (ltb (length q) room)) [
  | inl e ↦ rw e (Inside-append n q bucket slot h hb hs)
  | inr e ↦ rw e h
]

module _ (wyhash : List ℕ → ℕ) {m : ConcurrentPulseMap} (c : IsConsistent wyhash m)
    (key : List ℕ) where
  abbrev spread : ℕ → ℕ
  spread = spread_by m.sharded_index

  abbrev b : Bucket
  b = home wyhash spread c.table key

  abbrev k : ℕ
  k = index wyhash spread (view m) key

  sync_expired :
      (i : ℕ) (h : Hit wyhash spread c.table key i)
      → is_expired m k i ≡ some (is_stale m.default_ttl m.current_epoch h.entry)
  unfolding is_expired
  sync_expired i h = rw (h.entry_reads, ◌>>=◌)

  -- On a consistent concurrent map `peek` does not panic, and shows the abstract map but for expired entries.
  pub peek_bytes-shows : peek_bytes wyhash m key ≡ some (shows wyhash m key)
  unfolding peek_bytes
  peek_bytes-shows = elim (Option-cases (position m.inner.slab_pool b key)) [
    | inl e ↦ rw (
      locate_lem wyhash m c.table key,
      ◌>>=◌,
      e,
      visible-miss wyhash spread c.table key (miss wyhash spread c.table key e),
    )
    | inr (i, e) ↦
        let h = hit wyhash spread c.table key e in
        rw
          (
            locate_lem wyhash m c.table key,
            ◌>>=◌,
            e,
            sync_expired i h,
            get_elem?-slot_of b i (home-IsSound wyhash spread c.table key).four h.below,
            h.value_reads,
            visible-hit wyhash spread c.table key h.is_stored,
          )
          (ground arith)
  ]

  -- The map with the access queued, if there is room.
  queued :
      (i : ℕ)
      → i < 4
      → (pushed : Bool) × (q : AccessBuffer) × (push m.access_buffer k i ≡ some (pushed, q))
        × IsConsistent wyhash (record m { access_buffer = q })
  queued i bi =
      let below = index-lt wyhash spread c.table key in
      let inside : k < m.inner.num_buckets = omega (arith, below, c.table.width) in
      let (q, runs, r) = push-offer c.represents k i (omega (arith, inside, c.table.bounded), bi) in
      (
        _,
        q,
        runs,
        record {
          table = c.table;
          exponent = c.exponent;
          taken = c.taken;
          queue = (offer (2 ^ c.exponent) c.queue (k, i)).1;
          represents = r;
          inside = Inside-offer m.inner.num_buckets (2 ^ c.exponent) c.queue k i c.inside inside bi;
        },
      )

  -- On a consistent concurrent map `get` does not panic and shows the abstract map but for expired entries;
  -- it changes nothing of the table, only the queue of accesses, and the map stays consistent.
  pub get_bytes-shows :
      (m' : ConcurrentPulseMap) × (get_bytes wyhash m key ≡ some (shows wyhash m key, m'))
      × (view m' ≡ view m)
      × (m'.sharded_index ≡ m.sharded_index)
      × IsConsistent wyhash m'
  unfolding get_bytes
  get_bytes-shows = elim (Option-cases (position m.inner.slab_pool b key)) [
    | inl e ↦ (
      m,
      rw (
        locate_lem wyhash m c.table key,
        ◌>>=◌,
        e,
        visible-miss wyhash spread c.table key (miss wyhash spread c.table key e),
      ),
      refl,
      refl,
      c,
    )
    | inr (i, e) ↦
        let h = hit wyhash spread c.table key e in
        let (_, q, pushes, c') = queued i h.below in
        let four = (home-IsSound wyhash spread c.table key).four in
        let shown = visible-hit wyhash spread c.table key h.is_stored in
        elim (Bool-cases (is_stale m.default_ttl m.current_epoch h.entry)) [
          | inl s ↦ (
            m,
            rw (locate_lem wyhash m c.table key, ◌>>=◌, e, sync_expired i h, shown, s),
            refl,
            refl,
            c,
          )
          | inr s ↦ (
            record m { access_buffer = q },
            rw (
              locate_lem wyhash m c.table key,
              ◌>>=◌,
              e,
              sync_expired i h,
              shown,
              s,
              pushes,
              get_elem?-slot_of b i four h.below,
              h.value_reads,
            ),
            refl,
            refl,
            c',
          )
        ]
  ]

  -- The map after slot `i` has been cleared.
  abbrev removed : ℕ → ConcurrentPulseMap
  removed i =
      let b' = with_slot b i (set_state b.meta i tombstone) empty_slot in
      record m {
        inner = record m.inner {
          buckets = set m.inner.buckets k b';
          slab_pool = vacated m.inner.slab_pool b i;
        };
        count = sub64 m.count 1;
      }

  -- On a consistent concurrent map `remove` does not panic; it answers whether the key was held, and afterwards
  -- the key is gone, every other key has what it had, and the map is consistent, with one entry less if it
  -- answers yes.
  pub remove_bytes-Removes :
      (found : Bool) × (m' : ConcurrentPulseMap) × (remove_bytes wyhash m key ≡ some (found, m'))
      × Removes wyhash spread (view m) key found (view m')
      × (m'.sharded_index ≡ m.sharded_index)
      × IsConsistent wyhash m'
  unfolding remove_bytes
  remove_bytes-Removes = elim (Option-cases (position m.inner.slab_pool b key)) [
    | inl e ↦ (
      false,
      m,
      rw (locate_lem wyhash m c.table key, ◌>>=◌, e),
      missing-Removes wyhash spread c.table key e,
      refl,
      c,
    )
    | inr (i, e) ↦
        let h = hit wyhash spread c.table key e in
        let four = (home-IsSound wyhash spread c.table key).four in
        let b' = with_slot b i (set_state b.meta i tombstone) empty_slot in
        let r = cleared-Removes wyhash spread c.table key i e in
        (
          true,
          removed i,
          rw (
            locate_lem wyhash m c.table key,
            ◌>>=◌,
            e,
            get_elem?-slot_of b i four h.below,
            set_elem?-of_lt b.slots i empty_slot (omega (arith, four, h.below)),
            set_elem?-of_lt m.inner.buckets k b' (index-lt wyhash spread c.table key),
            h.occupied,
          ),
          r,
          refl,
          record {
            table = r.valid;
            exponent = c.exponent;
            taken = c.taken;
            queue = c.queue;
            represents = c.represents;
            inside = c.inside;
          },
        )
  ]
