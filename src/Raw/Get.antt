-- ===== src/Raw/Get.antt =====
-- `get`: no panic, the answer of the abstract map, and a map that holds the same entries.
use pulse_map.Base.{
  ℕ, ◌≡◌, arith, none, some, List, ◌>>=◌, set_elem?-of_lt, if◌then◌else◌, Option-cases, Bool-cases,
  inl, inr,
}
use pulse_map.Bucket.Entries.{position, get_elem?-slot_of}
use pulse_map.Bucket.Touch.{accessed}
use pulse_map.Bucket.{Bucket}
use pulse_map.Raw.Invariant.{plain, index, IsValid, index-lt, locate_lem, stored, visible}
use pulse_map.Raw.Keep.{Keeps, Keeps-refl, accessed_at, accessed-Keeps}
use pulse_map.Raw.Lookup.{
  home, home_at, home-IsSound, hit, miss, visible-miss, visible-hit, expired-hit,
}
use pulse_map.Raw.{PulseMapRaw, is_stale, get}

module _ (wyhash : List ℕ → ℕ) {m : PulseMapRaw} (v : IsValid wyhash plain m) (key : List ℕ) where
  abbrev b : Bucket
  b = home wyhash plain v key

  abbrev k : ℕ
  k = index wyhash plain m key

  get-miss : stored wyhash plain m key ≡ none → get wyhash m key ≡ some (none, m)
  unfolding get
  get-miss none_stored = elim (Option-cases (position m.slab_pool b key)) [
    | inl e ↦ rw (locate_lem wyhash v key, ◌>>=◌, e)
    | inr (i, e) ↦ cc ((hit wyhash plain v key e).is_stored)
  ]

  get-hit :
      (i : ℕ) (e : position m.slab_pool b key ≡ some i)
      → get wyhash m key
        ≡ some (
          visible wyhash plain m key,
          (if is_stale m.default_ttl m.current_epoch (hit wyhash plain v key e).entry
              then m
              else accessed_at wyhash plain m k i b),
        )
  unfolding get
  get-hit i e =
      let h = hit wyhash plain v key e in
      rw
        (
          locate_lem wyhash v key,
          ◌>>=◌,
          e,
          expired-hit wyhash plain v key h,
          get_elem?-slot_of b i (home-IsSound wyhash plain v key).four h.below,
          set_elem?-of_lt m.buckets k (accessed b i) (index-lt wyhash plain v key),
          h.value_reads,
          visible-hit wyhash plain v key h.is_stored,
        )
        (ground arith)

  -- On a valid map `get` does not panic, shows the abstract map but for expired entries, and changes no
  -- entry, no count and not the clock.
  pub get-Keeps :
      (m' : PulseMapRaw) × (get wyhash m key ≡ some (visible wyhash plain m key, m'))
      × Keeps wyhash plain m m'
  get-Keeps = elim (Option-cases (position m.slab_pool b key)) [
    | inl e ↦
        let gone = miss wyhash plain v key e in
        (m, rw (get-miss gone, visible-miss wyhash plain v key gone), Keeps-refl wyhash plain v)
    | inr (i, e) ↦
        let h = hit wyhash plain v key e in
        elim (Bool-cases (is_stale m.default_ttl m.current_epoch h.entry)) [
          | inl s ↦ (m, rw (get-hit i e, s), Keeps-refl wyhash plain v)
          | inr s ↦ (
            accessed_at wyhash plain m k i b,
            rw (get-hit i e, s),
            accessed-Keeps wyhash plain v k i b (home_at wyhash plain v key) h.below,
          )
        ]
  ]
