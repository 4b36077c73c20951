-- ===== src/AccessBuffer/Concurrent/Steps/Consumers.antt =====
-- The steps of `pop` that change the shared memory, while fewer than 2 ^ 64 positions have been counted.
use pulse_map.AccessBuffer.Concurrent.Steps.{knows, apart}
use pulse_map.AccessBuffer.Concurrent.Invariant.{
  put-same, put-other, next_cell, lap, times, AllRight-claims, times-past, take-Local, claim_of,
  take_of, Filled, Inv,
}
use pulse_map.AccessBuffer.Concurrent.Moves.{Keeps, Moves}
use pulse_map.AccessBuffer.Concurrent.{
  Shared, Pc, idle, ready_seen, taken, copied, put, cell, event_of,
}
use pulse_map.AccessBuffer.Queue.{Access, packed}
use pulse_map.Base.{
  ℕ, ◌+◌, ◌*◌, ◌/◌, ◌^◌, ◌<◌, ◌≤◌, ◌≡◌, ◌≢◌, refl, sym, ap, ap₂, ◌∙◌, arith, some, ◌∷◌, inl, inr,
  lt_of_get_elem?, add64, bit_and, bit_and_mask, eq_of_some,
}
use native.Mathlib.Decide.{ℕ_discrete}

module _ (e : ℕ) (some_bits : 1 ≤ e) {s : Shared} {pc : ℕ → Pc} (inv : Inv e s pc) (i : ℕ) where
  open inv use {shared}

  -- A position is taken.
  module _ {t : ℕ} (at : pc i ≡ ready_seen t) (here : s.tail ≡ t) (counted : t + 1 < 2 ^ 64) where
    pub takes : Moves e s (record s { tail = add64 t 1 }) pc i (taken t)
    unfolding claim_of take_of
    takes =
        let full = (knows e some_bits inv i at).1 here in
        let (a, found, holds) = shared.filled t full in
        let inside : t < s.head = omega (arith, lt_of_get_elem? s.claims t found, shared.head) in
        record {
          shared = record {
            head = shared.head;
            order = omega (arith, inside);
            valid = shared.valid;
            filled = shared.filled;
            right =
                AllRight-claims s.claims s.claims (λ p b f. f) (omega (arith, here)) s.delivered
                  shared.right;
            once = shared.once;
          };
          later = record {
            heads = omega arith;
            tails = omega (arith, here);
            claims_kept = λ p b f. f;
          };
          mine = (omega arith, full);
          others = λ j _. record {
            free_kept = λ p f _. f;
            full_kept = λ p f _. f;
            data_kept = λ p _ _. refl;
            undelivered = λ p _ f. f;
          };
          new_claim = λ j p ne f. cc;
          new_take = λ j p ne same other.
              let q : t ≡ p = eq_of_some same in
              omega (arith, (take-Local e s (pc j) p other (inv.threads j)).0, here, q);
          waits = λ p same.
              let q : t ≡ p = eq_of_some same in
              times-past s.claims p s.delivered shared.right (omega (arith, here, q));
        }

  event-packed : (a : ℕ × ℕ) → Access a → event_of (packed a) ≡ a
  event-packed (bucket, slot) ok =
      let high : (bucket * 4 + slot) / 2 ^ 2 ≡ bucket = omega (arith, ok.1) in
      let low : bit_and (bucket * 4 + slot) 3 ≡ slot =
        omega (arith, bit_and_mask 2 (bucket * 4 + slot), ok.1) in
      ap₂ (λ x y. (x, y)) high low

  -- The cell is given back, and the access handed on.
  module _ {t d : ℕ} (at : pc i ≡ copied t d) (counted : t + 2 ^ e < 2 ^ 64) where
    abbrev pub emptied : Shared
    emptied = record s {
      sequence = put s.sequence (cell e t) (add64 t (2 ^ e));
      delivered = (t, (event_of d).0, (event_of d).1) ∷ s.delivered;
    }

    taker : take_of (pc i) ≡ some t
    unfolding take_of
    taker = rw at

    left_alone : (p : ℕ) → cell e t ≢ cell e p → emptied.sequence (cell e p) ≡ s.sequence (cell e p)
    left_alone p ne = put-other s.sequence (cell e t) (add64 t (2 ^ e)) (cell e p) ne

    emptied-Filled : (p : ℕ) → Filled e emptied p
    emptied-Filled p full = elim (ℕ_discrete (cell e t) (cell e p)) [
      | yes same ↦
          let now : emptied.sequence (cell e p) ≡ t + 2 ^ e =
            ap (put s.sequence (cell e t) (add64 t (2 ^ e))) (sym same)
            ∙ put-same s.sequence (cell e t) (add64 t (2 ^ e))
            ∙ omega arith in
          let next : t + 2 ^ e ≡ p + 1 = sym now ∙ full in
          absurd (next_cell e some_bits p (sym same ∙ sym (lap e t) ∙ ap (cell e) next))
      | no ne ↦ shared.filled p (sym (left_alone p ne) ∙ full)
    ]

    emptied-Keeps : (j : ℕ) → i ≢ j → Keeps e s emptied (pc j)
    unfolding times
    emptied-Keeps j ne = record {
      free_kept = λ p free _.
          left_alone p
            (λ same. apart e some_bits inv i p t free (knows e some_bits inv i at).1 (sym same))
          ∙ free;
      full_kept = λ p full why. elim (ℕ_discrete (cell e t) (cell e p)) [
        | yes same ↦
            let q : t ≡ p =
              omega (arith, sym (knows e some_bits inv i at).1 ∙ ap s.sequence same ∙ full) in
            elim why [
              | inl last ↦ absurd (omega (arith, (knows e some_bits inv i at).0, last, q))
              | inr other ↦ absurd (ne (inv.one_consumer i j t taker (other ∙ ap some (sym q))))
            ]
        | no other ↦ left_alone p other ∙ full
      ];
      data_kept = λ p _ _. refl;
      undelivered = λ p other before. elim (ℕ_discrete t p) [
        | yes q ↦ absurd (ne (inv.one_consumer i j t taker (other ∙ ap some (sym q))))
        | no apart_t ↦ ground (arith, before)
      ];
    }

    pub releases : Moves e s emptied pc i idle
    unfolding claim_of take_of times
    releases =
        let (below, full, a, found, holds) = knows e some_bits inv i at in
        let event : event_of d ≡ a = ap event_of holds ∙ event-packed a (shared.valid t a found) in
        record {
          shared = record {
            head = shared.head;
            order = shared.order;
            valid = shared.valid;
            filled = emptied-Filled;
            right = (found ∙ ap some (sym event), below, shared.right);
            once = λ p. ground (arith, inv.pending i t taker, shared.once p);
          };
          later = record { heads = omega arith; tails = omega arith; claims_kept = λ p b f. f };
          mine = tt;
          others = emptied-Keeps;
          new_claim = λ j p ne f. cc;
          new_take = λ j p ne f. cc;
          waits = λ p f. cc;
        }
