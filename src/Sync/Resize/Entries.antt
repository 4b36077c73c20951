-- ===== src/Sync/Resize/Entries.antt =====
-- Lists of entries, as `resize` collects them: how often a key stands in one, how many entries belong to a
-- bucket, and what is found under a key.
use pulse_map.Base.{
  ℕ, ◌+◌, ◌≤◌, ◌≡◌, refl, arith, Option, none, some, List, [], ◌∷◌, ◌++◌, ◌==◌, if◌then◌else◌,
  length, bytes_eq, Bool-cases, inl, inr,
}
use pulse_map.Raw.{SlotTtl}
use pulse_map.Slab.Entry.{Fits}
use pulse_map.Sync.Resize.{EntryData}

-- How often a key stands in the list.
unfoldable pub uses : List ℕ → List EntryData → ℕ
uses key [] = 0
uses key (e ∷ es) = (if bytes_eq e.key_bytes key then 1 else 0) + uses key es

-- How many entries belong to bucket `k`.
unfoldable pub at_home : (List ℕ → ℕ) → ℕ → List EntryData → ℕ
at_home index k [] = 0
at_home index k (e ∷ es) = (if index e.key_bytes == k then 1 else 0) + at_home index k es

-- The first entry of a key.
unfoldable pub find_entry : List ℕ → List EntryData → Option (List ℕ × SlotTtl)
find_entry key [] = none
find_entry key (e ∷ es) =
    if bytes_eq e.key_bytes key then some (e.val_bytes, e.slot_ttl) else find_entry key es

abbrev pub or_else {ℓ} : {A : Type ℓ} → Option A → Option A → Option A
or_else none y = y
or_else (some x) y = some x

pub or_else-none {ℓ} : {A : Type ℓ} (x : Option A) → or_else x none ≡ x
or_else-none none = refl
or_else-none (some x) = refl

abbrev pub AllFit : List EntryData → Type 0
AllFit [] = Unit
AllFit (e ∷ es) = Fits e.key_bytes e.val_bytes × AllFit es

pub uses-append :
    (key : List ℕ) (xs ys : List EntryData) → uses key (xs ++ ys) ≡ uses key xs + uses key ys
unfolding uses
uses-append key [] ys = omega arith
uses-append key (x ∷ xs) ys = omega (arith, uses-append key xs ys)

pub at_home-append :
    (index : List ℕ → ℕ) (k : ℕ) (xs ys : List EntryData)
    → at_home index k (xs ++ ys) ≡ at_home index k xs + at_home index k ys
unfolding at_home
at_home-append index k [] ys = omega arith
at_home-append index k (x ∷ xs) ys = omega (arith, at_home-append index k xs ys)

pub find_entry-append :
    (key : List ℕ) (xs ys : List EntryData)
    → find_entry key (xs ++ ys) ≡ or_else (find_entry key xs) (find_entry key ys)
unfolding find_entry
find_entry-append key [] ys = refl
find_entry-append key (x ∷ xs) ys = elim (Bool-cases (bytes_eq x.key_bytes key)) [
  | inl e ↦ rw e
  | inr e ↦ rw e (find_entry-append key xs ys)
]

pub AllFit-append : (xs ys : List EntryData) → AllFit xs → AllFit ys → AllFit (xs ++ ys)
AllFit-append [] ys h g = g
AllFit-append (x ∷ xs) ys h g = (h.0, AllFit-append xs ys h.1 g)

pub at_home-le : (index : List ℕ → ℕ) (k : ℕ) (xs : List EntryData) → at_home index k xs ≤ length xs
unfolding at_home
at_home-le index k [] = omega arith
at_home-le index k (x ∷ xs) = ground (arith, at_home-le index k xs)

pub find_entry-unused :
    (key : List ℕ) (xs : List EntryData) → uses key xs ≡ 0 → find_entry key xs ≡ none
unfolding uses find_entry
find_entry-unused key [] h = refl
find_entry-unused key (x ∷ xs) h = elim (Bool-cases (bytes_eq x.key_bytes key)) [
  | inl e ↦ absurd (ground arith)
  | inr e ↦ rw e (find_entry-unused key xs (ground arith))
]
