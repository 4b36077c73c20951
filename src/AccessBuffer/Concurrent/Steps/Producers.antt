-- ===== src/AccessBuffer/Concurrent/Steps/Producers.antt =====
-- The steps of `push` that change the shared memory, while fewer than 2 ^ 64 positions have been counted.
use pulse_map.AccessBuffer.Concurrent.Steps.{knows, apart, free_same, no_claim}
use pulse_map.AccessBuffer.Concurrent.Invariant.{
  put-same, put-other, AllRight-claims, claim-Local, claim_of, take_of, Filled, Inv,
}
use pulse_map.AccessBuffer.Concurrent.Moves.{Keeps, Moves}
use pulse_map.AccessBuffer.Concurrent.{
  Shared, Pc, idle, free_seen, claimed, stored, put, cell, word_of,
}
use pulse_map.AccessBuffer.Queue.{Access, packed, pack}
use pulse_map.Base.{
  ℕ, ◌+◌, ◌^◌, ◌<◌, ◌≤◌, ◌≡◌, ◌≢◌, refl, sym, ap, ◌∙◌, arith, some, List, [], ◌∷◌, ◌++◌, inl, inr,
  length, length-append, get_elem?, get_elem?-append_left, get_elem?-append_end, lt_of_get_elem?,
  add64, eq_of_some, subst,
}
use native.Mathlib.Decide.{ℕ_discrete}

module _ (e : ℕ) (some_bits : 1 ≤ e) {s : Shared} {pc : ℕ → Pc} (inv : Inv e s pc) (i : ℕ) where
  open inv use {shared}

  -- A position is claimed.
  module _ {a : ℕ × ℕ} {h : ℕ} (at : pc i ≡ free_seen a h) (here : s.head ≡ h)
      (counted : h + 1 < 2 ^ 64) where
    abbrev grown : List (ℕ × ℕ)
    grown = s.claims ++ a ∷ []

    kept : (p : ℕ) (b : ℕ × ℕ) → get_elem? s.claims p ≡ some b → get_elem? grown p ≡ some b
    kept p b found =
        get_elem?-append_left s.claims (a ∷ []) p (lt_of_get_elem? s.claims p found) ∙ found

    newest : get_elem? grown h ≡ some a
    newest =
        ap (get_elem? grown) (omega (arith, here, shared.head)) ∙ get_elem?-append_end s.claims a

    grown-valid : (p : ℕ) (b : ℕ × ℕ) → get_elem? grown p ≡ some b → Access b
    grown-valid p b found = elim (ℕ_discrete p h) [
      | yes q ↦ subst Access (eq_of_some (sym (rw q newest) ∙ found)) (knows e some_bits inv i at).1
      | no ne ↦
          let inside : p < length s.claims = omega (
            arith,
            lt_of_get_elem? grown p found,
            length-append s.claims (a ∷ []),
            here,
            shared.head,
          ) in
          shared.valid p b (sym (get_elem?-append_left s.claims (a ∷ []) p inside) ∙ found)
    ]

    pub claims : Moves e s (record s { head = add64 h 1; claims = grown }) pc i (claimed a h)
    unfolding claim_of take_of
    claims = record {
      shared = record {
        head = omega (arith, length-append s.claims (a ∷ []), here, shared.head);
        order = omega (arith, shared.order, here);
        valid = grown-valid;
        filled =
            λ p full. let (b, found, holds) = shared.filled p full in (b, kept p b found, holds);
        right = AllRight-claims s.claims grown kept (omega arith) s.delivered shared.right;
        once = shared.once;
      };
      later = record { heads = omega (arith, here); tails = omega arith; claims_kept = kept };
      mine = (omega arith, newest, (knows e some_bits inv i at).2 here);
      others = λ j _. record {
        free_kept = λ p f _. f;
        full_kept = λ p f _. f;
        data_kept = λ p _ _. refl;
        undelivered = λ p _ f. f;
      };
      new_claim = λ j p ne same other.
          let q : h ≡ p = eq_of_some same in
          omega (arith, (claim-Local e s (pc j) p other (inv.threads j)).0, here, q);
      new_take = λ j p ne f. cc;
      waits = λ p f. cc;
    }

  word-packed : (a : ℕ × ℕ) → Access a → word_of a ≡ packed a
  word-packed (bucket, slot) ok = pack bucket slot ok.0 ok.1

  -- The payload is stored.
  module _ {a : ℕ × ℕ} {h : ℕ} (at : pc i ≡ claimed a h) where
    abbrev written : ℕ → ℕ
    written = put s.payload (cell e h) (word_of a)

    own : claim_of (pc i) ≡ some h
    unfolding claim_of
    own = rw at

    stored-Filled : (p : ℕ) → Filled e (record s { payload = written }) p
    stored-Filled p full =
        let (b, found, holds) = shared.filled p full in
        (
          b,
          found,
          put-other s.payload (cell e h) (word_of a) (cell e p)
                (apart e some_bits inv i h p (knows e some_bits inv i at).2 full)
              ∙ holds,
        )

    other_data :
        (j p : ℕ)
        → i ≢ j
        → s.sequence (cell e p) ≡ p
        → claim_of (pc j) ≡ some p
        → written (cell e p) ≡ s.payload (cell e p)
    other_data j p ne free other = put-other s.payload (cell e h) (word_of a) (cell e p) (λ same.
        let q = free_same e some_bits inv i h p (knows e some_bits inv i at).2 free same in
        ne (inv.one_producer i j h own (other ∙ ap some (sym q))))

    pub stores : Moves e s (record s { payload = written }) pc i (stored a h)
    unfolding claim_of take_of
    stores =
        let (below, found, free) = knows e some_bits inv i at in
        record {
          shared = record {
            head = shared.head;
            order = shared.order;
            valid = shared.valid;
            filled = stored-Filled;
            right = shared.right;
            once = shared.once;
          };
          later = record { heads = omega arith; tails = omega arith; claims_kept = λ p b f. f };
          mine = (
            below,
            found,
            free,
            put-same s.payload (cell e h) (word_of a) ∙ word-packed a (shared.valid h a found),
          );
          others = λ j ne. record {
            free_kept = λ p f _. f;
            full_kept = λ p f _. f;
            data_kept = λ p f other. other_data j p ne f other;
            undelivered = λ p _ f. f;
          };
          new_claim = no_claim e some_bits inv i (stored a h) (λ p f. own ∙ f) (λ p f. cc);
          new_take = λ j p ne f. cc;
          waits = λ p f. cc;
        }

  -- The cell is published.
  module _ {a : ℕ × ℕ} {h : ℕ} (at : pc i ≡ stored a h) (counted : h + 1 < 2 ^ 64) where
    abbrev pub published : ℕ → ℕ
    published = put s.sequence (cell e h) (add64 h 1)

    owner : claim_of (pc i) ≡ some h
    unfolding claim_of
    owner = rw at

    elsewhere : (p : ℕ) → cell e h ≢ cell e p → published (cell e p) ≡ s.sequence (cell e p)
    elsewhere p ne = put-other s.sequence (cell e h) (add64 h 1) (cell e p) ne

    now_full : (p : ℕ) → cell e h ≡ cell e p → published (cell e p) ≡ h + 1
    now_full p same =
        ap (put s.sequence (cell e h) (add64 h 1)) (sym same)
        ∙ put-same s.sequence (cell e h) (add64 h 1)
        ∙ omega arith

    published-Filled : (p : ℕ) → Filled e (record s { sequence = published }) p
    published-Filled p full = elim (ℕ_discrete (cell e h) (cell e p)) [
      | yes same ↦
          let q : h ≡ p = omega (arith, now_full p same, full) in
          let (below, found, free, holds) = knows e some_bits inv i at in
          (a, ap (get_elem? s.claims) (sym q) ∙ found, ap s.payload (sym same) ∙ holds)
      | no ne ↦ shared.filled p (sym (elsewhere p ne) ∙ full)
    ]

    published-Keeps : (j : ℕ) → i ≢ j → Keeps e s (record s { sequence = published }) (pc j)
    published-Keeps j ne = record {
      free_kept = λ p free why. elim (ℕ_discrete (cell e h) (cell e p)) [
        | yes same ↦
            let q = free_same e some_bits inv i h p (knows e some_bits inv i at).2 free same in
            elim why [
              | inl last ↦ absurd (omega (arith, (knows e some_bits inv i at).0, last, q))
              | inr other ↦ absurd (ne (inv.one_producer i j h owner (other ∙ ap some (sym q))))
            ]
        | no other ↦ elsewhere p other ∙ free
      ];
      full_kept = λ p full _.
          elsewhere p (apart e some_bits inv i h p (knows e some_bits inv i at).2 full) ∙ full;
      data_kept = λ p _ _. refl;
      undelivered = λ p _ f. f;
    }

    pub publishes : Moves e s (record s { sequence = published }) pc i idle
    unfolding claim_of take_of
    publishes = record {
      shared = record {
        head = shared.head;
        order = shared.order;
        valid = shared.valid;
        filled = published-Filled;
        right = shared.right;
        once = shared.once;
      };
      later = record { heads = omega arith; tails = omega arith; claims_kept = λ p b f. f };
      mine = tt;
      others = published-Keeps;
      new_claim = λ j p ne f. cc;
      new_take = λ j p ne f. cc;
      waits = λ p f. cc;
    }
