-- ===== src/Raw/Change.antt =====
-- A change of one slot of one bucket, seen by the whole map: the invariant, and the abstract map.
use pulse_map.Base.{
  ℕ, ◌+◌, ◌*◌, ◌<◌, ◌^◌, ◌≡◌, refl, sym, ◌∙◌, arith, none, some, List, length, get_elem?, set,
  get_elem?-set, lt_of_get_elem?, ◌>>=◌, Bool, true, false, ◌&&◌, if◌then◌else◌, ◌==◌, Option-cases,
  Bool-cases, inl, inr, ◌⊎◌, ◌≢◌, eq_of_some,
}
use native.Mathlib.Decide.{ℕ_discrete}
use pulse_map.Bucket.Entries.{position}
use pulse_map.Bucket.Fill.{occupied, Changed}
use pulse_map.Bucket.Position.{
  position-some, position-none, position-at, position-absent, position_congr,
}
use pulse_map.Bucket.Refs.{slot_of, is_occupied}
use pulse_map.Bucket.Replace.{keep_key, keep_value}
use pulse_map.Bucket.{Bucket}
use pulse_map.Raw.Invariant.{index, IsValid, home_bucket, stored}
use pulse_map.Raw.{PulseMapRaw, SlotTtl}
use pulse_map.Slab.{SlabPool}
use pulse_map.Slot.{get_value, get_key_bytes}

-- Whether a key lives in slot `t` of bucket `k`.
unfoldable pub resides : (List ℕ → ℕ) → (ℕ → ℕ) → PulseMapRaw → ℕ → ℕ → List ℕ → Bool
resides wyhash spread m k t key = index wyhash spread m key == k && elim (get_elem? m.buckets k) [
  | none ↦ false
  | some b ↦ elim (position m.slab_pool b key) [ none ↦ false | some i ↦ i == t ]
]

-- The map after a change of bucket `k`.
abbrev pub changed : PulseMapRaw → ℕ → Bucket → SlabPool → List SlotTtl → ℕ → ℕ → ℕ → PulseMapRaw
changed m k b' pool' ttls count evictions epoch = record {
  buckets = set m.buckets k b';
  slab_pool = pool';
  num_buckets = m.num_buckets;
  bucket_mask = m.bucket_mask;
  count = count;
  eviction_count = evictions;
  slots_ttl = ttls;
  current_epoch = epoch;
  default_ttl = m.default_ttl;
}

module _ (wyhash : List ℕ → ℕ) (spread : ℕ → ℕ) {m : PulseMapRaw} (v : IsValid wyhash spread m)
    (k t : ℕ) (b b' : Bucket) (pool' : SlabPool) (at : get_elem? m.buckets k ≡ some b) (bt : t < 4)
    (ttls : List SlotTtl) (count evictions epoch : ℕ)
    (c : Changed wyhash (index wyhash spread m) m.buckets k t m.slab_pool b b' pool') where
  abbrev after : PulseMapRaw
  after = changed m k b' pool' ttls count evictions epoch

  index-after : (key : List ℕ) → index wyhash spread after key ≡ index wyhash spread m key
  unfolding index
  index-after key = refl

  pub changed-IsValid :
      length ttls ≡ length m.slots_ttl
      → count ≡ occupied (set m.buckets k b')
      → epoch < 2 ^ 64
      → IsValid wyhash spread after
  changed-IsValid same_ttls counted small_epoch = record {
    exponent = v.exponent;
    sized = v.sized;
    masked = v.masked;
    bounded = v.bounded;
    width = c.size ∙ v.width;
    ttl_width = same_ttls ∙ v.ttl_width;
    all = record {
      sound = c.all.sound;
      home = λ l d j key e bj occ reads. index-after key ∙ c.all.home l d j key e bj occ reads;
    };
    balanced = c.balanced;
    counted = counted;
    small = omega (arith, c.small v.small, c.size);
    epoch = small_epoch;
  }

  -- A bucket at another index.
  other_at :
      (l : ℕ) (d : Bucket)
      → l ≢ k
      → get_elem? m.buckets l ≡ some d
      → get_elem? after.buckets l ≡ some d
  other_at l d ne e = get_elem?-set m.buckets k l b' (lt_of_get_elem? m.buckets k at) ∙ ground arith

  here_at : get_elem? after.buckets k ≡ some b'
  here_at = get_elem?-set m.buckets k k b' (lt_of_get_elem? m.buckets k at) ∙ ground arith

  -- The key of slot `t`, if it is full afterwards, is stored with its value and TTL record.
  pub stored-changed_self :
      (key value : List ℕ) (entry : SlotTtl)
      → index wyhash spread m key ≡ k
      → is_occupied b' t ≡ true
      → get_key_bytes (slot_of b' t) pool' ≡ some key
      → get_value (slot_of b' t) pool' ≡ some value
      → get_elem? ttls (k * 4 + t) ≡ some entry
      → stored wyhash spread after key ≡ some (value, entry)
  unfolding stored
  stored-changed_self key value entry here occ key_reads value_reads entry_reads = rw (
    index-after key,
    here,
    here_at,
    ◌>>=◌,
    position-at pool' b' key wyhash (c.all.sound k b' here_at) t bt occ key_reads,
    value_reads,
    entry_reads,
  )

  module _ (key : List ℕ)
      (not_new : is_occupied b' t ≡ true → get_key_bytes (slot_of b' t) pool' ≢ some key)
      (ttl_same : (x : ℕ) → x ≢ k * 4 + t → get_elem? ttls x ≡ get_elem? m.slots_ttl x) where
    abbrev l : ℕ
    l = index wyhash spread m key

    keys_kept :
        (x j : ℕ) (d : Bucket)
        → get_elem? m.buckets x ≡ some d
        → j < 4
        → is_occupied d j ≡ true
        → (x ≢ k) ⊎ (j ≢ t)
        → (get_key_bytes (slot_of d j) pool' ≡ get_key_bytes (slot_of d j) m.slab_pool)
          × (get_value (slot_of d j) pool' ≡ get_value (slot_of d j) m.slab_pool)
    keys_kept x j d d_at bj occ other = (
      keep_key wyhash (index wyhash spread m) m.buckets k t m.slab_pool pool' c.agrees x j d d_at bj
          occ other,
      keep_value wyhash (index wyhash spread m) m.buckets k t m.slab_pool pool' c.agrees x j d d_at
          bj occ other,
    )

    -- In another bucket nothing changes.
    elsewhere_same : l ≢ k → stored wyhash spread after key ≡ stored wyhash spread m key
    unfolding stored
    elsewhere_same ne =
        let (d, d_at) = home_bucket wyhash spread v key in
        let pos =
          position_congr m.slab_pool pool' d key
            (λ j bj occ. (keys_kept l j d d_at bj occ (inl ne)).0) in
        elim (Option-cases (position m.slab_pool d key)) [
          | inl e ↦ rw (index-after key, other_at l d ne d_at, d_at, ◌>>=◌, pos, e)
          | inr (i, e) ↦
              let (bi, occ, reads) = position-some m.slab_pool d key e in
              rw (
                index-after key,
                other_at l d ne d_at,
                d_at,
                ◌>>=◌,
                pos,
                e,
                (keys_kept l i d d_at bi occ (inl ne)).1,
                ttl_same (l * 4 + i) (λ q. ne (omega arith)),
              )
        ]

    here_some :
        (i : ℕ)
        → i ≢ t
        → l ≡ k
        → position m.slab_pool b key ≡ some i
        → stored wyhash spread after key ≡ stored wyhash spread m key
    unfolding stored
    here_some i ne e p =
        let (bi, occ, reads) = position-some m.slab_pool b key p in
        let (same_reads, same_value) = keys_kept k i b at bi occ (inr ne) in
        let slot = c.elsewhere.slots i bi ne in
        let p' =
          position-at pool' b' key wyhash (c.all.sound k b' here_at) i bi (now_occupied i bi ne occ)
            (rw slot (same_reads ∙ reads)) in
        rw (
          index-after key,
          e,
          here_at,
          at,
          ◌>>=◌,
          p,
          p',
          slot,
          same_value,
          ttl_same (k * 4 + i) (λ q. ne (omega arith)),
        )
      where
        now_occupied : (i : ℕ) → i < 4 → i ≢ t → is_occupied b i ≡ true → is_occupied b' i ≡ true
        now_occupied i bi ne occ =
            unfold is_occupied in rw (c.elsewhere.states i bi ne) (unfold is_occupied in occ)

    here_gone :
        l ≡ k
        → ((j : ℕ)
            → j < 4
            → j ≢ t
            → is_occupied b j ≡ true
            → get_key_bytes (slot_of b j) m.slab_pool ≢ some key)
        → stored wyhash spread after key ≡ none
    unfolding stored
    here_gone e absent = rw (index-after key, e, here_at, ◌>>=◌, position-absent pool' b' key gone)
      where
        gone :
            (j : ℕ)
            → j < 4
            → is_occupied b' j ≡ true
            → get_key_bytes (slot_of b' j) pool' ≢ some key
        gone j bj occ reads = elim (ℕ_discrete j t) [
          | yes q ↦ not_new (rw q at occ) (rw q at reads)
          | no ne ↦
              let occ' = before_occupied j bj ne occ in
              absent j bj ne occ' (
                sym (keys_kept k j b at bj occ' (inr ne)).0
                ∙ (rw (c.elsewhere.slots j bj ne) at reads))
        ]
          where
            before_occupied :
                (i : ℕ) → i < 4 → i ≢ t → is_occupied b' i ≡ true → is_occupied b i ≡ true
            before_occupied i bi ne occ =
                unfold is_occupied in rw (← c.elsewhere.states i bi ne) (unfold is_occupied in occ)

    -- Any other key keeps what is stored, unless it lived in the slot.
    pub stored-changed_other :
        stored wyhash spread after key
        ≡ (if resides wyhash spread m k t key then none else stored wyhash spread m key)
    unfolding resides
    stored-changed_other = elim (ℕ_discrete l k) [
      | no ne ↦ elsewhere_same ne ∙ ground arith
      | yes e ↦ elim (Option-cases (position m.slab_pool b key)) [
        | inl p ↦
            here_gone e (λ j bj ne occ. position-none m.slab_pool b key p j bj occ)
            ∙ sym (nothing e p)
        | inr (i, p) ↦ elim (ℕ_discrete i t) [
          | no ne ↦ here_some i ne e p ∙ ground (arith, at)
          | yes q ↦
              let (bi, occ_i, reads_i) = position-some m.slab_pool b key p in
              here_gone e (λ j bj ne occ reads.
                ne ((v.all.sound k b at).distinct j i key bj bi occ occ_i reads reads_i ∙ q))
              ∙ ground (arith, at)
        ]
      ]
    ]
      where
        nothing :
            l ≡ k
            → position m.slab_pool b key ≡ none
            → (if resides wyhash spread m k t key then none else stored wyhash spread m key) ≡ none
        nothing e p =
            let gone : stored wyhash spread m key ≡ none = unfold stored in rw (e, at, ◌>>=◌, p) in
            ground (arith, gone, at)

-- The slot where a key lives reads as the key.
pub resides→reads :
    (wyhash : List ℕ → ℕ) (spread : ℕ → ℕ) (m : PulseMapRaw) (k t : ℕ) (b : Bucket) (key : List ℕ)
    → get_elem? m.buckets k ≡ some b
    → resides wyhash spread m k t key ≡ true
    → (is_occupied b t ≡ true) × (get_key_bytes (slot_of b t) m.slab_pool ≡ some key)
unfolding resides
resides→reads wyhash spread m k t b key at h = elim (Option-cases (position m.slab_pool b key)) [
  | inl e ↦ absurd (ground (arith, at))
  | inr (i, e) ↦
      let (bi, occ, reads) = position-some m.slab_pool b key e in
      let same : i ≡ t = ground (arith, at) in (rw same at occ, rw same at reads)
]

module _ (wyhash : List ℕ → ℕ) (spread : ℕ → ℕ) (m : PulseMapRaw) (k t : ℕ) (b : Bucket)
    (key : List ℕ) (at : get_elem? m.buckets k ≡ some b) where
  pub position→resides :
      index wyhash spread m key ≡ k
      → position m.slab_pool b key ≡ some t
      → resides wyhash spread m k t key ≡ true
  unfolding resides
  position→resides here e = ground (arith, at)

  -- Only the key of the slot lives in it.
  pub resides-other :
      (other : List ℕ)
      → other ≢ key
      → (is_occupied b t ≡ true → get_key_bytes (slot_of b t) m.slab_pool ≡ some key)
      → resides wyhash spread m k t other ≡ false
  resides-other other ne reads = elim (Bool-cases (resides wyhash spread m k t other)) [
    | inl e ↦
        let (occ, reads') = resides→reads wyhash spread m k t b other at e in
        absurd (ne (eq_of_some (sym reads' ∙ reads occ)))
    | inr e ↦ e
  ]
