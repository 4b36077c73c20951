-- ===== src/Meta/Access.antt =====
-- `on_access`: the boost of one slot and the decay of the others.
use pulse_map.Base.{
  ℕ, zero, suc, ◌+◌, ◌-◌, ◌*◌, ◌/◌, ◌%◌, ◌≤◌, ◌<◌, ◌≡◌, refl, arith, Bool, true, false, ltb, ◌==◌,
  leb, if◌then◌else◌, Bool-cases, inl, inr, bit_and, ◌&&◌, not, min, ◌∙◌, ◌≢◌,
}
use pulse_map.Meta.{
  is_full, get_state, get_h2, get_priority, set_priority, boosted, decayed, decay_others, on_access,
}
use pulse_map.Meta.Fields.{IsWord}
use native.Mathlib.Decide.{ℕ_discrete}
use pulse_map.Meta.Laws.{
  set_priority-IsWord, get_state-set_priority, get_h2-set_priority, get_priority-set_priority,
  get_priority-lt,
}

-- Two functions on priorities are compared at `left` priorities from `low` on.
module _ (f g : ℕ → ℕ) where
  agree_from : ℕ → ℕ → Bool
  agree_from (suc left) low = if f low == g low then agree_from left (low + 1) else false
  agree_from zero low = true

  agreed :
      (left low prio : ℕ)
      → low ≤ prio
      → prio < low + left
      → agree_from left low ≡ true
      → f prio ≡ g prio
  unfolding agree_from
  agreed (suc left) low prio from below same = elim (ℕ_discrete low prio) [
    | yes here ↦ let head : f low ≡ g low = ground arith in rw here at head
    | no later ↦ agreed left (low + 1) prio (omega arith) (omega arith) (ground arith)
  ]
  agreed zero low prio from below same = absurd (omega arith)

-- What a hit makes of a priority, and what another one's hit makes of it.
abbrev after_hit : ℕ → ℕ
after_hit prio = min (prio / 8 + 1) 15 * 8 + 7

abbrev after_other : ℕ → ℕ
after_other prio = if prio % 8 == 0 then prio else prio - 1

pub boosted_lem : (prio : ℕ) → prio < 128 → boosted prio ≡ after_hit prio
unfolding agree_from boosted
boosted_lem prio small = agreed boosted after_hit 128 0 prio (omega arith) (omega arith) refl

pub decayed_lem : (prio : ℕ) → prio < 128 → decayed prio ≡ after_other prio
unfolding agree_from decayed
decayed_lem prio small = agreed decayed after_other 128 0 prio (omega arith) (omega arith) refl

-- The priority of slot `j` after the decay loop has passed it.
unfoldable pub aged : ℕ → ℕ → ℕ → ℕ
aged v slot j =
    if j == slot
    then get_priority v j
    else if is_full (get_state v j)
    then decayed (get_priority v j)
    else get_priority v j

-- `w` is `v` after the rounds from `lo` on.
record Decays (lo hi slot v w : ℕ) : Type 0 where
  word : IsWord w
  states : (j : ℕ) → j < 4 → get_state w j ≡ get_state v j
  tags : (j : ℕ) → j < 4 → get_h2 w j ≡ get_h2 v j
  prios :
      (j : ℕ)
      → j < 4
      → get_priority w j ≡ (if leb lo j && ltb j hi then aged v slot j else get_priority v j)

decayed-still : (p : ℕ) → ltb 0 (bit_and p 0x07) ≡ false → decayed p ≡ p
unfolding decayed
decayed-still p h = rw h

decayed-lt : (p : ℕ) → p < 128 → decayed p < 128
decayed-lt p h = ground (arith, decayed_lem p h)

abbrev stale : ℕ → ℕ → ℕ → Bool
stale v i slot =
    if i == slot
    then false
    else if is_full (get_state v i)
    then ltb 0 (bit_and (get_priority v i) 0x07)
    else false

abbrev round : ℕ → ℕ → ℕ → ℕ
round v i slot = if stale v i slot then set_priority v i (decayed (get_priority v i)) else v

round-Decays : (v i slot : ℕ) → IsWord v → i < 4 → Decays i (i + 1) slot v (round v i slot)
unfolding aged
round-Decays v i slot word bi = elim (Bool-cases (stale v i slot)) [
  | inl t ↦ rw t (record {
    word = set_priority-IsWord word bi _;
    states = λ j bj. get_state-set_priority word bi _ bj;
    tags = λ j bj. get_h2-set_priority word bi _ bj;
    prios = λ j bj.
        rw (get_priority-set_priority word bi (decayed (get_priority v i)) bj)
          (ground (arith, decayed-lt (get_priority v i) (get_priority-lt v i)));
  })
  | inr f ↦ rw f (record {
    word = word;
    states = λ j bj. refl;
    tags = λ j bj. refl;
    prios = λ j bj. ground (arith, decayed-still (get_priority v i));
  })
]

aged-Decays :
    {lo hi slot v w : ℕ}
    → Decays lo hi slot v w
    → (j : ℕ) → j < 4
    → ltb j lo ≡ true
    → aged w slot j ≡ aged v slot j
unfolding aged
aged-Decays d j bj e = ground (arith, d.states j bj, d.prios j bj)

aged-later :
    {lo slot v w : ℕ}
    → Decays lo (lo + 1) slot v w
    → (j : ℕ) → j < 4
    → lo + 1 ≤ j
    → aged w slot j ≡ aged v slot j
unfolding aged
aged-later d j bj e = ground (arith, d.states j bj, d.prios j bj)

decay_others-Decays :
    (left i slot v : ℕ)
    → IsWord v
    → i + left ≡ 4
    → Decays i (i + left) slot v (decay_others left i slot v)
unfolding decay_others
decay_others-Decays zero i slot v word e = record {
  word = word;
  states = λ j bj. refl;
  tags = λ j bj. refl;
  prios = λ j bj. ground arith;
}
decay_others-Decays (suc left) i slot v word e =
    let here = round-Decays v i slot word (omega arith) in
    let rest = decay_others-Decays left (i + 1) slot (round v i slot) here.word (omega arith) in
    record {
      word = rest.word;
      states = λ j bj. rest.states j bj ∙ here.states j bj;
      tags = λ j bj. rest.tags j bj ∙ here.tags j bj;
      prios = λ j bj. ground (arith, rest.prios j bj, here.prios j bj, aged-later here j bj);
    }

aged-other :
    (v slot j : ℕ)
    → j ≢ slot
    → aged v slot j ≡ (
        if is_full (get_state v j) && not (get_priority v j % 8 == 0)
        then get_priority v j - 1
        else get_priority v j)
unfolding aged
aged-other v slot j ne = ground (arith, decayed_lem (get_priority v j) (get_priority-lt v j))

aged_congr :
    (v v' slot j : ℕ)
    → get_state v' j ≡ get_state v j
    → get_priority v' j ≡ get_priority v j
    → aged v' slot j ≡ aged v slot j
unfolding aged
aged_congr v v' slot j s p = rw (s, p)

-- The effect of `on_access`: recency 7 and one more access, up to 15, for the slot; one recency less,
-- down to 0, for each other full slot; no state and no fingerprint changes.
pub record Accesses (v slot w : ℕ) : Type 0 where
  pub word : IsWord w
  pub states : (j : ℕ) → j < 4 → get_state w j ≡ get_state v j
  pub tags : (j : ℕ) → j < 4 → get_h2 w j ≡ get_h2 v j
  pub boost : get_priority w slot ≡ min (get_priority v slot / 8 + 1) 15 * 8 + 7
  pub decay :
      (j : ℕ)
      → j < 4
      → j ≢ slot
      → get_priority w j ≡ (
          if is_full (get_state v j) && not (get_priority v j % 8 == 0)
          then get_priority v j - 1
          else get_priority v j)

-- `on_access` on a slot of a 64-bit word: the slot's recency becomes 7 and its frequency one more, up to 15;
-- every other full slot loses one recency, down to 0; no state and no fingerprint changes.
pub on_access-Accesses : (v slot : ℕ) → IsWord v → slot < 4 → Accesses v slot (on_access v slot)
unfolding on_access aged
on_access-Accesses v slot word below =
    let b = boosted (get_priority v slot) in
    let v' = set_priority v slot b in
    let word' = set_priority-IsWord word below b in
    let d = decay_others-Decays 4 0 slot v' word' refl in
    let bound = get_priority-lt v slot in
    record {
      word = d.word;
      states = λ j bj. d.states j bj ∙ get_state-set_priority word below b bj;
      tags = λ j bj. d.tags j bj ∙ get_h2-set_priority word below b bj;
      boost = ground (
        arith,
        d.prios slot below,
        get_priority-set_priority word below b below,
        boosted_lem (get_priority v slot) bound,
      );
      decay = λ j bj ne.
          ground (arith, d.prios j bj)
          ∙ aged_congr v v' slot j (get_state-set_priority word below b bj)
              (ground (arith, get_priority-set_priority word below b bj))
          ∙ aged-other v slot j ne;
    }
