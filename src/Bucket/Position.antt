-- ===== src/Bucket/Position.antt =====
-- `position` on a sound bucket: it finds a key exactly where the key is.
use pulse_map.Base.{
  ℕ, ◌<◌, ◌≡◌, ap, ◌∙◌, arith, Bool, true, ◌&&◌, none, some, List, ◌≢◌, bytes_eq_refl,
  bytes_eq_sound, Bool-cases, inl, inr, Option-cases,
}
use pulse_map.Bucket.Entries.{key_is, position, IsSound}
use pulse_map.Bucket.Refs.{slot_of, is_occupied}
use pulse_map.Bucket.{Bucket}
use pulse_map.Probe.Laws.{first_slot-Finds, first_slot_congr}
use pulse_map.Slab.{SlabPool}
use pulse_map.Slot.{Slot, get_key_bytes}

pub key_is→reads :
    (pool : SlabPool) (s : Slot) (key : List ℕ)
    → key_is pool s key ≡ true
    → get_key_bytes s pool ≡ some key
unfolding key_is
key_is→reads pool s key h = elim (Option-cases (get_key_bytes s pool)) [
  | inl e ↦ absurd (ground arith)
  | inr (k, e) ↦ e ∙ ap some (bytes_eq_sound k key (ground arith))
]

pub reads→key_is :
    (pool : SlabPool) (s : Slot) (key : List ℕ)
    → get_key_bytes s pool ≡ some key
    → key_is pool s key ≡ true
unfolding key_is
reads→key_is pool s key h = ground (arith, bytes_eq_refl key)

module _ (pool : SlabPool) (b : Bucket) (key : List ℕ) where
  abbrev test : ℕ → Bool
  test j = is_occupied b j && key_is pool (slot_of b j) key

  pub position-some :
      {j : ℕ}
      → position pool b key ≡ some j
      → (j < 4) × (is_occupied b j ≡ true) × (get_key_bytes (slot_of b j) pool ≡ some key)
  unfolding position
  position-some {j} e =
      let f = rw e at (first_slot-Finds test) in
      (f.0, ground (arith, f.1), key_is→reads pool (slot_of b j) key (ground (arith, f.1)))

  pub position-none :
      position pool b key ≡ none
      → (j : ℕ) → j < 4
      → is_occupied b j ≡ true
      → get_key_bytes (slot_of b j) pool ≢ some key
  unfolding position
  position-none e j bj occ reads =
      let f = rw e at (first_slot-Finds test) in
      ground (arith, f j bj, reads→key_is pool (slot_of b j) key reads)

  pub position-absent :
      ((j : ℕ) → j < 4 → is_occupied b j ≡ true → get_key_bytes (slot_of b j) pool ≢ some key)
      → position pool b key ≡ none
  position-absent h = elim (Option-cases (position pool b key)) [
    | inl e ↦ e
    | inr (j, e) ↦ let (bj, occ, reads) = position-some e in absurd (h j bj occ reads)
  ]

  pub position-at :
      (wyhash : List ℕ → ℕ)
      → IsSound wyhash pool b
      → (j : ℕ) → j < 4
      → is_occupied b j ≡ true
      → get_key_bytes (slot_of b j) pool ≡ some key
      → position pool b key ≡ some j
  position-at wyhash sound j bj occ reads = elim (Option-cases (position pool b key)) [
    | inl e ↦ absurd (position-none e j bj occ reads)
    | inr (i, e) ↦
        let (bi, occ_i, reads_i) = position-some e in
        e ∙ ap some (sound.distinct i j key bi bj occ_i occ reads_i reads)
  ]

-- Slots that read the same give the same position.
pub position_congr :
    (pool pool' : SlabPool) (b : Bucket) (key : List ℕ)
    → ((j : ℕ)
        → j < 4
        → is_occupied b j ≡ true
        → get_key_bytes (slot_of b j) pool' ≡ get_key_bytes (slot_of b j) pool)
    → position pool' b key ≡ position pool b key
unfolding position key_is
position_congr pool pool' b key same = first_slot_congr _ _ (λ j bj.
    elim (Bool-cases (is_occupied b j)) [ inl e ↦ rw (e, key_is, same j bj e) | inr e ↦ rw e ])
