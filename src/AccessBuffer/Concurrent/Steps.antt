-- ===== src/AccessBuffer/Concurrent/Steps.antt =====
-- What the steps have in common, and the steps that change nothing.
pub mod Producers
pub mod Consumers
use pulse_map.AccessBuffer.Concurrent.Invariant.{
  put-same, put-other, next_cell, lap, times, AllRight, AllRight-claims, times-past, claim-Local,
  take-Local, claim_of, take_of, Filled, IsShared, Local, Inv,
}
use pulse_map.AccessBuffer.Concurrent.Moves.{Keeps, Later, Moves}
use pulse_map.AccessBuffer.Concurrent.{
  Shared, Pc, idle, head_loaded, free_seen, claimed, stored, tail_loaded, ready_seen, taken, copied,
  put, cell, word_of, event_of,
}
use pulse_map.AccessBuffer.Queue.{Access, packed, pack}
use pulse_map.Base.{
  ℕ, ◌+◌, ◌*◌, ◌/◌, ◌%◌, ◌^◌, ◌<◌, ◌≤◌, ◌≡◌, ◌≢◌, refl, sym, ap, ap₂, ◌∙◌, arith, Option, none,
  some, List, [], ◌∷◌, ◌++◌, ◌⊎◌, inl, inr, ◌==◌, if◌then◌else◌, length, length-append, get_elem?,
  get_elem?-append_left, get_elem?-append_end, lt_of_get_elem?, add64, bit_and, bit_and_mask,
  eq_of_some, subst,
}
use native.Mathlib.Decide.{ℕ_discrete}

module _ (e : ℕ) (some_bits : 1 ≤ e) {s : Shared} {pc : ℕ → Pc} (inv : Inv e s pc) (i : ℕ) where
  open inv use {shared}

  -- What thread `i` knows where it stands.
  pub knows : {q : Pc} → pc i ≡ q → Local e s q
  knows at = subst (Local e s) at (inv.threads i)

  same_Later : Later e s s
  same_Later = record { heads = omega arith; tails = omega arith; claims_kept = λ p a at. at }

  same_Keeps : (q : Pc) → Keeps e s s q
  same_Keeps q = record {
    free_kept = λ p h _. h;
    full_kept = λ p h _. h;
    data_kept = λ p _ _. refl;
    undelivered = λ p _ h. h;
  }

  -- A thread keeps the position that it has, or gives it up.
  module _ (q : Pc) (cq : (p : ℕ) → claim_of q ≡ some p → claim_of (pc i) ≡ some p)
      (tq : (p : ℕ) → take_of q ≡ some p → take_of (pc i) ≡ some p) where
    pub no_claim : (j p : ℕ) → i ≢ j → claim_of q ≡ some p → claim_of (pc j) ≢ some p
    no_claim j p ne h g = ne (inv.one_producer i j p (cq p h) g)

    no_take : (j p : ℕ) → i ≢ j → take_of q ≡ some p → take_of (pc j) ≢ some p
    no_take j p ne h g = ne (inv.one_consumer i j p (tq p h) g)

    -- A step that touches no shared memory, or only reads it.
    pub reads : Local e s q → Moves e s s pc i q
    reads mine = record {
      shared = shared;
      later = same_Later;
      mine = mine;
      others = λ j _. same_Keeps (pc j);
      new_claim = no_claim;
      new_take = no_take;
      waits = λ p h. inv.pending i p (tq p h);
    }

  -- Cells at which two positions are read differently are different.
  pub apart :
      (p q : ℕ) → s.sequence (cell e p) ≡ p → s.sequence (cell e q) ≡ q + 1 → cell e p ≢ cell e q
  apart p q free full same =
      let next : p ≡ q + 1 = sym free ∙ ap s.sequence same ∙ full in
      next_cell e some_bits q (sym same ∙ ap (cell e) next)

  pub free_same :
      (p q : ℕ)
      → s.sequence (cell e p) ≡ p
      → s.sequence (cell e q) ≡ q
      → cell e p ≡ cell e q
      → p ≡ q
  free_same p q hp hq same = sym hp ∙ ap s.sequence same ∙ hq
