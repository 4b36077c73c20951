-- ===== src/Raw/Lookup.antt =====
-- `peek` and `get` against the abstract map.
use pulse_map.Base.{
  ℕ, ◌+◌, ◌*◌, ◌<◌, ◌≡◌, arith, none, some, List, get_elem?, get_elem?-of_lt, ◌>>=◌, true,
  if◌then◌else◌, Option-cases, inl, inr,
}
use pulse_map.Bucket.Entries.{position, get_elem?-slot_of, IsSound}
use pulse_map.Bucket.Position.{position-some}
use pulse_map.Bucket.Refs.{slot_of, is_occupied}
use pulse_map.Bucket.{Bucket}
use pulse_map.Raw.Invariant.{
  plain, index, IsValid, home_bucket, locate_lem, ttl_inside, stored, visible,
}
use pulse_map.Raw.{PulseMapRaw, SlotTtl, is_expired, is_stale, peek}
use pulse_map.Slot.{get_value, get_key_bytes}

module _ (wyhash : List ℕ → ℕ) (spread : ℕ → ℕ) {m : PulseMapRaw} (v : IsValid wyhash spread m)
    (key : List ℕ) where
  abbrev pub home : Bucket
  home = (home_bucket wyhash spread v key).0

  abbrev k : ℕ
  k = index wyhash spread m key

  pub home_at : get_elem? m.buckets k ≡ some home
  home_at = (home_bucket wyhash spread v key).1

  pub home-IsSound : IsSound wyhash m.slab_pool home
  home-IsSound = v.all.sound k home home_at

  -- What a hit reads.
  pub record Hit (i : ℕ) : Type 0 where
    pub below : i < 4
    pub occupied : is_occupied home i ≡ true
    pub key_reads : get_key_bytes (slot_of home i) m.slab_pool ≡ some key
    pub value : List ℕ
    pub entry : SlotTtl
    pub value_reads : get_value (slot_of home i) m.slab_pool ≡ some value
    pub entry_reads : get_elem? m.slots_ttl (k * 4 + i) ≡ some entry
    pub is_stored : stored wyhash spread m key ≡ some (value, entry)

  pub hit : {i : ℕ} → position m.slab_pool home key ≡ some i → Hit i
  hit {i} e =
      let (below, occ, reads) = position-some m.slab_pool home key e in
      let h = home-IsSound.held i below occ in
      let (entry, entry_reads) =
        get_elem?-of_lt m.slots_ttl (k * 4 + i) (ttl_inside wyhash spread v key i below) in
      record {
        below = below;
        occupied = occ;
        key_reads = reads;
        value = h.value;
        entry = entry;
        value_reads = h.value_reads;
        entry_reads = entry_reads;
        is_stored = unfold stored in rw (home_at, ◌>>=◌, e, h.value_reads, entry_reads);
      }

  pub miss : position m.slab_pool home key ≡ none → stored wyhash spread m key ≡ none
  miss e = unfold stored in rw (home_at, ◌>>=◌, e)

  pub visible-miss : stored wyhash spread m key ≡ none → visible wyhash spread m key ≡ none
  unfolding visible
  visible-miss e = rw (e, visible)

  pub visible-hit :
      {value : List ℕ} {entry : SlotTtl}
      → stored wyhash spread m key ≡ some (value, entry)
      → visible wyhash spread m key
        ≡ (if is_stale m.default_ttl m.current_epoch entry then none else some value)
  unfolding visible
  visible-hit e = rw (e, visible)

  -- The test of the hit does not panic.
  pub expired-hit :
      {i : ℕ} (h : Hit i) → is_expired m k i ≡ some (is_stale m.default_ttl m.current_epoch h.entry)
  unfolding is_expired
  expired-hit h = rw (h.entry_reads, ◌>>=◌)

-- On a valid map `peek` does not panic, and shows the abstract map but for expired entries.
pub peek-visible :
    (wyhash : List ℕ → ℕ) {m : PulseMapRaw} (v : IsValid wyhash plain m) (key : List ℕ)
    → peek wyhash m key ≡ some (visible wyhash plain m key)
unfolding peek
peek-visible wyhash {m} v key =
    let b = home wyhash plain v key in
    elim (Option-cases (position m.slab_pool b key)) [
      | inl e ↦ rw (
        locate_lem wyhash v key,
        ◌>>=◌,
        e,
        visible-miss wyhash plain v key (miss wyhash plain v key e),
      )
      | inr (i, e) ↦
          let h = hit wyhash plain v key e in
          rw
            (
              locate_lem wyhash v key,
              ◌>>=◌,
              e,
              expired-hit wyhash plain v key h,
              get_elem?-slot_of b i (home-IsSound wyhash plain v key).four h.below,
              h.value_reads,
              visible-hit wyhash plain v key h.is_stored,
            )
            (ground arith)
    ]
