-- ===== src/AccessBuffer/Front.antt =====
-- The buffer as a bounded queue of accesses: what `pop` does at its front.
use pulse_map.AccessBuffer.Queue.{Access, packed, Cell, Represents, positive, tail_cell}
use pulse_map.AccessBuffer.Cells.{same_cell}
use pulse_map.AccessBuffer.{AccessEvent, AccessBuffer, pop}
use pulse_map.Base.{
  ℕ, suc, ◌+◌, ◌/◌, ◌%◌, ◌^◌, ◌<◌, ◌≡◌, ◌≢◌, sym, ap, ◌∙◌, arith, true, false, none, some, List, [],
  ◌∷◌, ◌==◌, length, length-set, get_elem?, lt_of_get_elem?, set, get_elem?-set, set_elem?-of_lt,
  ◌>>=◌, add64, bit_and, bit_and_mask,
}
use native.Mathlib.Decide.{ℕ_discrete}
use native.Mathlib.Nat.{mod-lt, add-mod_right, add-zero}

module _ {e t : ℕ} {q : List (ℕ × ℕ)} {b : AccessBuffer} (r : Represents e t q b) where
  abbrev n : ℕ
  n = 2 ^ e

  -- The queue is empty: nothing changes.
  pub pop-empty : q ≡ [] → pop b ≡ some (none, b)
  unfolding pop
  pop-empty none_left =
      let c = r.cells 0 (positive r) in
      let nothing : length q ≡ 0 = ap length none_left in
      let free : get_elem? b.buffer (t % n)
          ≡ some (record { sequence = t % 2 ^ 64; payload = c.payload }) =
        ap (λ x. get_elem? b.buffer (x % n)) (sym (add-zero t))
        ∙ c.reads
        ∙ ground (arith, nothing) in
      let early : (t % 2 ^ 64 == add64 b.tail 1) ≡ false = ground (arith, r.tail) in
      rw ((tail_cell r), free, ◌>>=◌, early)

  module _ (bucket slot : ℕ) (rest : List (ℕ × ℕ)) (at_front : q ≡ (bucket, slot) ∷ rest) where
    count_less : length q ≡ suc (length rest)
    count_less = ap length at_front

    abbrev oldest : AccessEvent
    oldest = record {
      sequence = add64 b.tail (length b.buffer);
      payload = (r.cells 0 (positive r)).payload;
    }

    abbrev pub popped : AccessBuffer
    popped = record b { buffer = set b.buffer (t % n) oldest; tail = add64 b.tail 1 }

    tail_inside : t % n < length b.buffer
    tail_inside = omega (arith, r.size, mod-lt t (positive r))

    unpacked : ((r.cells 0 (positive r)).payload ≡ packed (bucket, slot)) × Access (bucket, slot)
    unfolding get_elem?
    unpacked = (r.cells 0 (positive r)).holds (ap (λ l. get_elem? l 0) at_front)

    pop_runs : pop b ≡ some (some (bucket, slot), popped)
    unfolding pop
    pop_runs =
        let c = r.cells 0 (positive r) in
        let taken : get_elem? b.buffer (t % n)
            ≡ some (record { sequence = (t + 1) % 2 ^ 64; payload = c.payload }) =
          ap (λ x. get_elem? b.buffer (x % n)) (sym (add-zero t))
          ∙ c.reads
          ∙ ground (arith, count_less) in
        let due : ((t + 1) % 2 ^ 64 == add64 b.tail 1) ≡ true = ground (arith, r.tail) in
        let high : c.payload / 2 ^ 2 ≡ bucket = omega (arith, unpacked.0, unpacked.1.1) in
        let low : bit_and c.payload 3 ≡ slot =
          omega (arith, bit_and_mask 2 c.payload, unpacked.0, unpacked.1.1) in
        rw (
          (tail_cell r),
          taken,
          ◌>>=◌,
          due,
          high,
          low,
          set_elem?-of_lt b.buffer (t % n) oldest tail_inside,
        )

    popped-Cell : (j : ℕ) → j < n → Cell e (t + 1) rest popped.buffer j
    unfolding get_elem?
    popped-Cell j bj = elim (ℕ_discrete (j + 1) n) [
      | yes last ↦
          let around : (t + 1 + j) % n ≡ t % n =
            ap (λ x. x % n) (omega arith) ∙ ap (λ x. (t + x) % n) last ∙ add-mod_right t n in
          record {
            payload = (r.cells 0 (positive r)).payload;
            reads =
                ap (get_elem? popped.buffer) around
                ∙ get_elem?-set b.buffer (t % n) (t % n) oldest tail_inside
                ∙ ground (arith, r.tail, r.size, count_less, r.bounded, last);
            holds = λ {a} at.
                absurd (omega (arith, lt_of_get_elem? rest j at, count_less, r.bounded, last));
          }
      | no ne ↦
          let c = r.cells (suc j) (omega arith) in
          let moved : t + 1 + j ≡ t + suc j = omega arith in
          let away : t % n ≢ (t + suc j) % n = λ same. absurd (
            omega (
              arith,
              same_cell n t 0 (suc j) (positive r) (omega arith)
                  (ap (λ x. x % n) (add-zero t) ∙ same),
            )) in
          record {
            payload = c.payload;
            reads =
                ap (λ x. get_elem? popped.buffer (x % n)) moved
                ∙ get_elem?-set b.buffer (t % n) ((t + suc j) % n) oldest tail_inside
                ∙ ground (arith, away, c.reads, count_less);
            holds = λ {a} at. c.holds (ap (λ l. get_elem? l (suc j)) at_front ∙ at);
          }
    ]

    -- The oldest access is taken out.
    pub pop-some : (pop b ≡ some (some (bucket, slot), popped)) × Represents e (t + 1) rest popped
    pop-some = (
      pop_runs,
      record {
        exponent = r.exponent;
        size = length-set b.buffer (t % n) oldest ∙ r.size;
        mask = r.mask;
        bounded = omega (arith, count_less, r.bounded);
        tail = omega (arith, r.tail);
        head = omega (arith, count_less, r.head);
        cells = popped-Cell;
      },
    )
