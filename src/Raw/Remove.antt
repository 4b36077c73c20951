-- ===== src/Raw/Remove.antt =====
-- `remove`: no panic, the invariant kept, the key gone and every other key untouched.
use pulse_map.Base.{
  ℕ, ◌≡◌, arith, none, some, List, set_elem?-of_lt, ◌>>=◌, Bool, true, false, Option-cases, inl,
  inr,
}
use pulse_map.Bucket.Entries.{position, get_elem?-slot_of}
use pulse_map.Bucket.Fill.{with_slot}
use pulse_map.Bucket.{Bucket}
use pulse_map.Meta.{tombstone, set_state}
use pulse_map.Raw.Clear.{Removes, cleared, missing-Removes, cleared-Removes}
use pulse_map.Raw.Invariant.{plain, index, IsValid, index-lt, locate_lem}
use pulse_map.Raw.Lookup.{home, home-IsSound, hit}
use pulse_map.Raw.{PulseMapRaw, clear_slot, remove}
use pulse_map.Slot.{empty_slot}

module _ (wyhash : List ℕ → ℕ) {m : PulseMapRaw} (v : IsValid wyhash plain m) (key : List ℕ) where
  abbrev b : Bucket
  b = home wyhash plain v key

  abbrev k : ℕ
  k = index wyhash plain m key

  remove-hit :
      (i : ℕ)
      → position m.slab_pool b key ≡ some i
      → remove wyhash m key ≡ some (true, cleared wyhash plain v key i)
  unfolding remove clear_slot
  remove-hit i e =
      let h = hit wyhash plain v key e in
      let four = (home-IsSound wyhash plain v key).four in
      let b' = with_slot b i (set_state b.meta i tombstone) empty_slot in
      rw (
        locate_lem wyhash v key,
        ◌>>=◌,
        e,
        get_elem?-slot_of b i four h.below,
        set_elem?-of_lt b.slots i empty_slot (omega (arith, four, h.below)),
        set_elem?-of_lt m.buckets k b' (index-lt wyhash plain v key),
        h.occupied,
      )

  remove-miss : position m.slab_pool b key ≡ none → remove wyhash m key ≡ some (false, m)
  unfolding remove
  remove-miss e = rw (locate_lem wyhash v key, ◌>>=◌, e)

  -- On a valid map `remove` does not panic; it answers whether the key was stored, and afterwards the key
  -- is gone, every other key has what it had, and the map is valid, with one entry less if it answers yes.
  pub remove-Removes :
      (found : Bool) × (m' : PulseMapRaw) × (remove wyhash m key ≡ some (found, m'))
      × Removes wyhash plain m key found m'
  remove-Removes = elim (Option-cases (position m.slab_pool b key)) [
    | inl e ↦ (false, m, remove-miss e, missing-Removes wyhash plain v key e)
    | inr (i, e) ↦
        (true, cleared wyhash plain v key i, remove-hit i e, cleared-Removes wyhash plain v key i e)
  ]
