-- ===== src/AccessBuffer/Concurrent/Safety.antt =====
-- Every reachable state has the invariant, as long as the positions can be counted in 64 bits.
use pulse_map.AccessBuffer.Concurrent.Invariant.{
  times, AllRight, claim_of, take_of, Local, Inv, init-Inv, next_cell,
}
use pulse_map.AccessBuffer.Concurrent.Moves.{Moves, Moves-Inv}
use pulse_map.AccessBuffer.Concurrent.Steps.{knows, reads}
use pulse_map.AccessBuffer.Concurrent.Steps.Producers.{claims, stores, publishes}
use pulse_map.AccessBuffer.Concurrent.Steps.Consumers.{takes, releases}
use pulse_map.AccessBuffer.Concurrent.{
  Shared, Pc, idle, head_loaded, free_seen, claimed, stored, tail_loaded, ready_seen, taken, copied,
  cell, Step, push_begin, push_full, push_free, push_lose, push_claim, push_store, push_publish,
  pop_begin, pop_empty, pop_ready, pop_lose, pop_take, pop_copy, pop_release, Reach, start, later,
}
use native.Mathlib.Nat.{one-le-pow}
use pulse_map.Base.{
  ℕ, ◌+◌, ◌^◌, ◌<◌, ◌≤◌, ◌≡◌, refl, sym, ap, ◌∙◌, arith, Option, none, some, List, length,
  length-append, get_elem?, [], ◌∷◌, zero, suc, ◌⊎◌, inl, inr,
}

-- Fewer places were claimed than 64 bits can count, less one round of the buffer.
abbrev pub Countable : ℕ → Shared → Type 0
Countable e s = length s.claims + 2 ^ e < 2 ^ 64

module _ (e : ℕ) (some_bits : 1 ≤ e) where
  more-claims : {s s' : Shared} {q p : Pc} → Step e s q s' p → length s.claims ≤ length s'.claims
  more-claims (push_begin a ok) = omega arith
  more-claims (push_full ne) = omega arith
  more-claims (push_free same) = omega arith
  more-claims (push_lose ne) = omega arith
  more-claims {s} (push_claim {a} same) = omega (arith, length-append s.claims (a ∷ []))
  more-claims push_store = omega arith
  more-claims push_publish = omega arith
  more-claims pop_begin = omega arith
  more-claims (pop_empty ne) = omega arith
  more-claims (pop_ready same) = omega arith
  more-claims (pop_lose ne) = omega arith
  more-claims (pop_take same) = omega arith
  more-claims pop_copy = omega arith
  more-claims pop_release = omega arith

  module _ {s : Shared} {pc : ℕ → Pc} (inv : Inv e s pc) (small : Countable e s) (i : ℕ) where
    open inv use {shared}

    Step-Moves : {q : Pc} {s' : Shared} {p : Pc} → Step e s q s' p → pc i ≡ q → Moves e s s' pc i p
    unfolding claim_of take_of
    Step-Moves (push_begin a ok) at =
        reads e some_bits inv i (head_loaded a s.head) (λ p f. cc) (λ p f. cc) (omega arith, ok)
    Step-Moves (push_full ne) at = reads e some_bits inv i idle (λ p f. cc) (λ p f. cc) tt
    Step-Moves (push_free {a} {h} same) at =
        let (le, ok) = knows e some_bits inv i at in
        reads e some_bits inv i (free_seen a h) (λ p f. cc) (λ p f. cc) (le, ok, λ _. same)
    Step-Moves (push_lose ne) at = reads e some_bits inv i idle (λ p f. cc) (λ p f. cc) tt
    Step-Moves (push_claim same) at =
        claims e some_bits inv i at same
          (omega (arith, small, shared.head, same, one-le-pow e 2 (omega arith)))
    Step-Moves push_store at = stores e some_bits inv i at
    Step-Moves push_publish at =
        publishes e some_bits inv i at
          (omega (arith, small, shared.head, (knows e some_bits inv i at).0))
    Step-Moves pop_begin at =
        reads e some_bits inv i (tail_loaded s.tail) (λ p f. cc) (λ p f. cc) (omega arith)
    Step-Moves (pop_empty ne) at = reads e some_bits inv i idle (λ p f. cc) (λ p f. cc) tt
    Step-Moves (pop_ready {t} same) at =
        let le = knows e some_bits inv i at in
        reads e some_bits inv i (ready_seen t) (λ p f. cc) (λ p f. cc)
          (
            le,
            λ _.
                same
                ∙ omega (arith, small, shared.head, shared.order, one-le-pow e 2 (omega arith)),
          )
    Step-Moves (pop_lose ne) at = reads e some_bits inv i idle (λ p f. cc) (λ p f. cc) tt
    Step-Moves (pop_take same) at =
        takes e some_bits inv i at same
          (omega (arith, small, shared.head, shared.order, same, one-le-pow e 2 (omega arith)))
    Step-Moves (pop_copy {t}) at =
        let (below, full) = knows e some_bits inv i at in
        let (a, found, holds) = shared.filled t full in
        reads e some_bits inv i (copied t (s.payload (cell e t))) (λ p f. cc) (λ p f. rw at f)
          (below, full, a, found, holds)
    Step-Moves pop_release at =
        let (below, full, _, _, _) = knows e some_bits inv i at in
        releases e some_bits inv i at (omega (arith, small, shared.head, shared.order, below))

  pub Reach-Inv : {s : Shared} {pc : ℕ → Pc} → Reach e s pc → Countable e s → Inv e s pc
  Reach-Inv start small = init-Inv e
  Reach-Inv (later {s} i {p} r st) small =
      let before : Countable e s = omega (arith, more-claims st, small) in
      let inv = Reach-Inv r before in Moves-Inv e s _ i p inv (Step-Moves inv before i st refl)

-- The cell that a thread may write to, or copy from.
abbrev pub touches : ℕ → Pc → Option ℕ
touches e (claimed a h) = some (cell e h)
touches e (stored a h) = some (cell e h)
touches e (taken t) = some (cell e t)
touches e (copied t d) = some (cell e t)
touches e _ = none

AllRight-get_elem? :
    (claims : List (ℕ × ℕ)) (tail : ℕ) (ds : List (ℕ × ℕ × ℕ))
    → AllRight claims tail ds
    → (n t bucket slot : ℕ) → get_elem? ds n ≡ some (t, bucket, slot)
    → (get_elem? claims t ≡ some (bucket, slot)) × (t < tail)
unfolding get_elem?
AllRight-get_elem? claims tail [] h n t bucket slot at = cc
AllRight-get_elem? claims tail ((t', b', k') ∷ ds) h zero t bucket slot at =
    let same_t : t' ≡ t = cc in
    let same_b : b' ≡ bucket = cc in
    let same_k : k' ≡ slot = cc in rw (sym same_t, sym same_b, sym same_k) (h.0, h.1)
AllRight-get_elem? claims tail (d ∷ ds) h (suc n) t bucket slot at =
    AllRight-get_elem? claims tail ds h.2 n t bucket slot at

-- The position of a thread that has a cell for itself, and which of the two sides it is.
module _ (e : ℕ) (s : Shared) where
  abbrev Owns : Pc → ℕ → Type 0
  Owns q c =
      (p : ℕ) × (cell e p ≡ c)
      × (((claim_of q ≡ some p) × (s.sequence c ≡ p))
          ⊎ ((take_of q ≡ some p) × (s.sequence c ≡ p + 1)))

  touches-Owns : (q : Pc) (c : ℕ) → touches e q ≡ some c → Local e s q → Owns q c
  unfolding claim_of take_of
  touches-Owns (claimed a h) c at l =
      let same : cell e h ≡ c = cc in (h, same, inl (refl, rw (sym same) l.2))
  touches-Owns (stored a h) c at l =
      let same : cell e h ≡ c = cc in (h, same, inl (refl, rw (sym same) l.2))
  touches-Owns (taken t) c at l =
      let same : cell e t ≡ c = cc in (t, same, inr (refl, rw (sym same) l.1))
  touches-Owns (copied t d) c at l =
      let same : cell e t ≡ c = cc in (t, same, inr (refl, rw (sym same) l.1))
  touches-Owns idle c at l = cc
  touches-Owns (head_loaded a h) c at l = cc
  touches-Owns (free_seen a h) c at l = cc
  touches-Owns (tail_loaded t) c at l = cc
  touches-Owns (ready_seen t) c at l = cc

module _ (e : ℕ) (some_bits : 1 ≤ e) {s : Shared} {pc : ℕ → Pc} (r : Reach e s pc)
    (small : Countable e s) where
  -- From a buffer of two cells or more, whatever the order of the steps of any number of threads, as long as
  -- fewer than 2^64 places were claimed, less one round: no two threads are at once between the exchange that
  -- gives them a cell and the store that gives the cell on; nor are a producer and a consumer.
  pub one_owner : (i j c : ℕ) → touches e (pc i) ≡ some c → touches e (pc j) ≡ some c → i ≡ j
  one_owner i j c at at' =
      let inv = Reach-Inv e some_bits r small in
      let (p, mine, side) = touches-Owns e s (pc i) c at (inv.threads i) in
      let (p', mine', side') = touches-Owns e s (pc j) c at' (inv.threads j) in
      elim side [
        | inl (owns, at_p) ↦ elim side' [
          | inl (owns', at_p') ↦ inv.one_producer i j p owns (owns' ∙ ap some (sym at_p' ∙ at_p))
          | inr (owns', at_p') ↦
              absurd (next_cell e some_bits p' (mine' ∙ sym mine ∙ ap (cell e) (sym at_p ∙ at_p')))
        ]
        | inr (owns, at_p) ↦ elim side' [
          | inl (owns', at_p') ↦
              absurd (next_cell e some_bits p (mine ∙ sym mine' ∙ ap (cell e) (sym at_p' ∙ at_p)))
          | inr (owns', at_p') ↦
              let same : p' ≡ p = omega (arith, at_p, at_p') in
              inv.one_consumer i j p owns (owns' ∙ ap some same)
        ]
      ]

  -- From a buffer of two cells or more, whatever the order of the steps of any number of threads, as long as
  -- fewer than 2^64 places were claimed, less one round: whatever was taken out of a place is the access for
  -- which that place was claimed, whole; and no place was taken out twice.
  pub delivered_once :
      ((n t bucket slot : ℕ)
        → get_elem? s.delivered n ≡ some (t, bucket, slot)
        → get_elem? s.claims t ≡ some (bucket, slot))
      × ((p : ℕ) → times p s.delivered ≤ 1)
  delivered_once =
      let inv = Reach-Inv e some_bits r small in
      (
        λ n t bucket slot at.
            (AllRight-get_elem? s.claims s.tail s.delivered inv.shared.right n t bucket slot at).0,
        inv.shared.once,
      )
