-- ===== src/Probe/Laws.antt =====
-- The probe loop visits the set bits from the lowest up and stops at the first hit.
use pulse_map.Base.{
  ℕ, ◌≡◌, refl, arith, Bool, true, false, Option, none, some, if◌then◌else◌, ◌&&◌, ◌<◌, below_four,
}
use pulse_map.Meta.Match.{is_candidate, mask_of, match_mask-mask_of}
use pulse_map.Meta.{to_u8, match_mask}
use pulse_map.Probe.{probe}

-- The slots in order, each with its candidate bit; the specification of the loop.
unfoldable pub try : Bool → ℕ → (ℕ → Option Bool) → Option (Option ℕ) → Option (Option ℕ)
try false i hit rest = rest
try true i hit rest = elim (hit i) [ none ↦ none | some true ↦ some (some i) | some false ↦ rest ]

probe-mask :
    (a b c d : Bool) (hit : ℕ → Option Bool)
    → probe (mask_of a b c d) hit
      ≡ try a 0 hit (try b 1 hit (try c 2 hit (try d 3 hit (some none))))
unfolding probe try to_u8
probe-mask true true true true hit = refl
probe-mask true true true false hit = refl
probe-mask true true false true hit = refl
probe-mask true true false false hit = refl
probe-mask true false true true hit = refl
probe-mask true false true false hit = refl
probe-mask true false false true hit = refl
probe-mask true false false false hit = refl
probe-mask false true true true hit = refl
probe-mask false true true false hit = refl
probe-mask false true false true hit = refl
probe-mask false true false false hit = refl
probe-mask false false true true hit = refl
probe-mask false false true false hit = refl
probe-mask false false false true hit = refl
probe-mask false false false false hit = refl

-- The lowest slot that passes a test.
unfoldable pub first_slot : (ℕ → Bool) → Option ℕ
first_slot test =
    if test 0
    then some 0
    else if test 1
    then some 1
    else if test 2
    then some 2
    else if test 3
    then some 3
    else none

try-answer :
    (b : Bool) (i : ℕ) (hit : ℕ → Option Bool) (h : Bool) (rest : Option ℕ)
    → (b ≡ true → hit i ≡ some h)
    → try b i hit (some rest) ≡ some (if b && h then some i else rest)
unfolding try
try-answer false i hit h rest e = refl
try-answer true i hit true rest e = rw (e refl, try)
try-answer true i hit false rest e = rw (e refl, try)

-- If the test of every candidate answers, the loop over the match mask of `v` and `h2` finds the
-- lowest candidate that passes.
pub probe-match_mask :
    (v h2 : ℕ) (hit : ℕ → Option Bool) (passes : ℕ → Bool)
    → ((i : ℕ) → i < 4 → is_candidate v h2 i ≡ true → hit i ≡ some (passes i))
    → probe (match_mask v h2) hit ≡ some (first_slot (λ i. is_candidate v h2 i && passes i))
unfolding first_slot
probe-match_mask v h2 hit passes answers =
    rw
      (
        match_mask-mask_of v h2,
        probe-mask _ _ _ _ hit,
        try-answer _ 3 hit (passes 3) none (answers 3 (omega arith)),
        try-answer _ 2 hit (passes 2) _ (answers 2 (omega arith)),
        try-answer _ 1 hit (passes 1) _ (answers 1 (omega arith)),
        try-answer _ 0 hit (passes 0) _ (answers 0 (omega arith)),
      )
      refl

pub first_slot_congr :
    (f g : ℕ → Bool) → ((i : ℕ) → i < 4 → f i ≡ g i) → first_slot f ≡ first_slot g
unfolding first_slot
first_slot_congr f g h =
    rw (h 0 (omega arith), h 1 (omega arith), h 2 (omega arith), h 3 (omega arith))

-- What the answer says of the slots.
abbrev pub Finds : (ℕ → Bool) → Option ℕ → Type 0
Finds test none = (j : ℕ) → j < 4 → test j ≡ false
Finds test (some i) = (i < 4) × (test i ≡ true) × ((j : ℕ) → j < i → test j ≡ false)

first_slot-none : (test : ℕ → Bool) → first_slot test ≡ none → (j : ℕ) → j < 4 → test j ≡ false
unfolding first_slot
first_slot-none test e =
    below_four (λ j. test j ≡ false) (ground arith) (ground arith) (ground arith) (ground arith)

first_slot-some :
    (test : ℕ → Bool) {i : ℕ}
    → first_slot test ≡ some i
    → (i < 4) × (test i ≡ true) × ((j : ℕ) → j < i → test j ≡ false)
unfolding first_slot
first_slot-some test {i} e = (
  ground arith,
  ground arith,
  λ j hj.
      below_four (λ j. j < i → test j ≡ false) (λ g. ground arith) (λ g. ground arith)
        (λ g. ground arith) (λ g. ground arith) j (ground arith) hj,
)

pub first_slot-Finds : (test : ℕ → Bool) → Finds test (first_slot test)
first_slot-Finds test = go (first_slot test) refl
  where
    go : (r : Option ℕ) → first_slot test ≡ r → Finds test r
    go none e = first_slot-none test e
    go (some i) e = first_slot-some test e
