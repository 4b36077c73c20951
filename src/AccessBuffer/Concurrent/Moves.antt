-- ===== src/AccessBuffer/Concurrent/Moves.antt =====
-- One thread moves: what has to be shown of the new state so that the invariant holds again.
use pulse_map.AccessBuffer.Concurrent.Invariant.{
  put-same, put-other, times, claim_of, take_of, IsShared, Local, Inv,
}
use pulse_map.AccessBuffer.Concurrent.{
  Shared, Pc, idle, head_loaded, free_seen, claimed, stored, tail_loaded, ready_seen, taken, copied,
  put, cell,
}
use pulse_map.Base.{
  ℕ, ◌+◌, ◌≤◌, ◌≡◌, ◌≢◌, refl, sym, ap, ◌∙◌, arith, Option, some, ◌⊎◌, inl, inr, get_elem?, subst,
}
use native.Mathlib.Decide.{ℕ_discrete}

module _ (e : ℕ) (s s' : Shared) where
  -- The shared memory after a move, as it concerns a thread that stands at `q`.
  pub record Keeps (q : Pc) : Type 0 where
    pub free_kept :
        (p : ℕ)
        → s.sequence (cell e p) ≡ p
        → (s.head ≡ p) ⊎ (claim_of q ≡ some p)
        → s'.sequence (cell e p) ≡ p
    pub full_kept :
        (p : ℕ)
        → s.sequence (cell e p) ≡ p + 1
        → (s.tail ≡ p) ⊎ (take_of q ≡ some p)
        → s'.sequence (cell e p) ≡ p + 1
    pub data_kept :
        (p : ℕ)
        → s.sequence (cell e p) ≡ p
        → claim_of q ≡ some p
        → s'.payload (cell e p) ≡ s.payload (cell e p)
    pub undelivered :
        (p : ℕ) → take_of q ≡ some p → times p s.delivered ≡ 0 → times p s'.delivered ≡ 0

  -- Nothing that was claimed is forgotten.
  pub record Later : Type 0 where
    pub heads : s.head ≤ s'.head
    pub tails : s.tail ≤ s'.tail
    pub claims_kept :
        (p : ℕ) (a : ℕ × ℕ) → get_elem? s.claims p ≡ some a → get_elem? s'.claims p ≡ some a

  -- A thread that does not move can rely on what it knew.
  pub Local-keep : (q : Pc) → Later → Keeps q → Local e s q → Local e s' q
  unfolding claim_of take_of
  Local-keep idle l k h = tt
  Local-keep (head_loaded a p) l k h = (omega (arith, h.0, l.heads), h.1)
  Local-keep (free_seen a p) l k h = (
    omega (arith, h.0, l.heads),
    h.1,
    λ same.
        let before : s.head ≡ p = omega (arith, h.0, l.heads) in
        k.free_kept p (h.2 before) (inl before),
  )
  Local-keep (claimed a p) l k h =
      (omega (arith, h.0, l.heads), l.claims_kept p a h.1, k.free_kept p h.2 (inr refl))
  Local-keep (stored a p) l k h = (
    omega (arith, h.0, l.heads),
    l.claims_kept p a h.1,
    k.free_kept p h.2 (inr refl),
    k.data_kept p h.2 refl ∙ h.3,
  )
  Local-keep (tail_loaded p) l k h = omega (arith, h, l.tails)
  Local-keep (ready_seen p) l k h = (
    omega (arith, h.0, l.tails),
    λ same.
        let before : s.tail ≡ p = omega (arith, h.0, l.tails) in
        k.full_kept p (h.1 before) (inl before),
  )
  Local-keep (taken p) l k h = (omega (arith, h.0, l.tails), k.full_kept p h.1 (inr refl))
  Local-keep (copied p d) l k (below, full, a, at, same) =
      (omega (arith, below, l.tails), k.full_kept p full (inr refl), a, l.claims_kept p a at, same)

  -- Thread `i` goes to `q`.
  pub record Moves (pc : ℕ → Pc) (i : ℕ) (q : Pc) : Type 0 where
    pub shared : IsShared e s'
    pub later : Later
    pub mine : Local e s' q
    pub others : (j : ℕ) → i ≢ j → Keeps (pc j)
    pub new_claim : (j p : ℕ) → i ≢ j → claim_of q ≡ some p → claim_of (pc j) ≢ some p
    pub new_take : (j p : ℕ) → i ≢ j → take_of q ≡ some p → take_of (pc j) ≢ some p
    pub waits : (p : ℕ) → take_of q ≡ some p → times p s'.delivered ≡ 0

  module _ {pc : ℕ → Pc} (i : ℕ) (q : Pc) (inv : Inv e s pc) (m : Moves pc i q) where
    -- No two threads have the same position of their own, whichever kind `f` says.
    one_owner :
        (f : Pc → Option ℕ)
        → ((j k p : ℕ) → f (pc j) ≡ some p → f (pc k) ≡ some p → j ≡ k)
        → ((j p : ℕ) → i ≢ j → f q ≡ some p → f (pc j) ≢ some p)
        → (j k p : ℕ) → f (put pc i q j) ≡ some p
        → f (put pc i q k) ≡ some p
        → j ≡ k
    one_owner f before new j k p hj hk = elim (ℕ_discrete i j) [
      | yes same_j ↦ elim (ℕ_discrete i k) [
        | yes same_k ↦ sym same_j ∙ same_k
        | no ne_k ↦ absurd (
            new k p ne_k (sym (ap f (put-same pc i q)) ∙ rw (sym same_j) at hj)
              (sym (ap f (put-other pc i q k ne_k)) ∙ hk))
      ]
      | no ne_j ↦ elim (ℕ_discrete i k) [
        | yes same_k ↦ absurd (
            new j p ne_j (sym (ap f (put-same pc i q)) ∙ rw (sym same_k) at hk)
              (sym (ap f (put-other pc i q j ne_j)) ∙ hj))
        | no ne_k ↦
            before j k p (sym (ap f (put-other pc i q j ne_j)) ∙ hj)
              (sym (ap f (put-other pc i q k ne_k)) ∙ hk)
      ]
    ]

    pub Moves-Inv : Inv e s' (put pc i q)
    Moves-Inv = record {
      shared = m.shared;
      threads = λ j. elim (ℕ_discrete i j) [
        | yes same ↦
            subst (λ j. Local e s' (put pc i q j)) same
              (subst (Local e s') (sym (put-same pc i q)) m.mine)
        | no ne ↦
            subst (Local e s') (sym (put-other pc i q j ne))
              (Local-keep (pc j) m.later (m.others j ne) (inv.threads j))
      ];
      one_producer = one_owner claim_of inv.one_producer m.new_claim;
      one_consumer = one_owner take_of inv.one_consumer m.new_take;
      pending = λ j p h. elim (ℕ_discrete i j) [
        | yes same ↦ m.waits p (sym (ap take_of (put-same pc i q)) ∙ rw (sym same) at h)
        | no ne ↦
            let before : take_of (pc j) ≡ some p = sym (ap take_of (put-other pc i q j ne)) ∙ h in
            (m.others j ne).undelivered p before (inv.pending j p before)
      ];
    }
