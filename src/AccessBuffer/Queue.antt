-- ===== src/AccessBuffer/Queue.antt =====
-- The buffer as a bounded queue of accesses, and what `push` does at its end.
use pulse_map.AccessBuffer.Cells.{cursor, same_cell}
use pulse_map.AccessBuffer.{AccessEvent, AccessBuffer, push}
use pulse_map.Base.{
  ℕ, ◌+◌, ◌-◌, ◌*◌, ◌/◌, ◌%◌, ◌^◌, ◌<◌, ◌≤◌, ◌≡◌, ◌≢◌, sym, ap, ◌∙◌, arith, true, false, some, List,
  [], ◌∷◌, ◌++◌, ltb, leb, ◌||◌, subst, eq_of_some, ◌==◌, if◌then◌else◌, length, length-append,
  length-set, get_elem?, get_elem?-append_left, lt_of_get_elem?, get_elem?-append_end, set,
  get_elem?-set, set_elem?-of_lt, ◌>>=◌, add64, u64_max, bit_and, bit_or, bit_or_join, bit_or-zero,
  zero-bit_or, Bool-cases, inl, inr,
}
use native.Mathlib.Decide.{ℕ_discrete}
use native.Mathlib.Nat.{mod-lt, add-mod_right, one-le-pow, pow-le-pow_right, add-zero}

-- An access that can be recorded: a bucket index of 62 bits, and a slot.
abbrev pub Access : ℕ × ℕ → Type 0
Access (bucket, slot) = (bucket < 2 ^ 62) × (slot < 4)

-- The word that holds an access.
abbrev pub packed : ℕ × ℕ → ℕ
packed (bucket, slot) = bucket * 4 + slot

-- The cell at distance `j` from the tail: published, with the `j`-th access, or free for its next round.
pub record Cell (e t : ℕ) (q : List (ℕ × ℕ)) (events : List AccessEvent) (j : ℕ) : Type 0 where
  pub payload : ℕ
  pub reads :
      get_elem? events ((t + j) % 2 ^ e)
      ≡ some (record {
        sequence = (if ltb j (length q) then t + j + 1 else t + j) % 2 ^ 64;
        payload = payload;
      })
  pub holds : {a : ℕ × ℕ} → get_elem? q j ≡ some a → (payload ≡ packed a) × Access a

-- `t` counts what was ever taken out, without wrap-around.
pub record Represents (e t : ℕ) (q : List (ℕ × ℕ)) (b : AccessBuffer) : Type 0 where
  pub exponent : (1 ≤ e) × (e ≤ 62)
  pub size : length b.buffer ≡ 2 ^ e
  pub mask : b.mask ≡ 2 ^ e - 1
  pub bounded : length q ≤ 2 ^ e
  pub tail : b.tail ≡ t % 2 ^ 64
  pub head : b.head ≡ (t + length q) % 2 ^ 64
  pub cells : (j : ℕ) → j < 2 ^ e → Cell e t q b.buffer j

pub pack :
    (bucket slot : ℕ)
    → bucket < 2 ^ 62
    → slot < 4
    → bit_or (bucket * 2 ^ 2 % 2 ^ 64) slot ≡ packed (bucket, slot)
pack bucket slot hb hs =
    let whole : bucket * 2 ^ 2 % 2 ^ 64 ≡ bucket * 2 ^ 2 + 0 = omega arith in
    let low : slot ≡ 0 * 2 ^ 2 + slot = omega arith in
    ap (λ x. bit_or x slot) whole
    ∙ ap (λ x. bit_or (bucket * 2 ^ 2 + 0) x) low
    ∙ bit_or_join 2 bucket 0 0 slot (omega arith) (omega arith)
    ∙ omega (arith, bit_or-zero bucket, zero-bit_or slot)

module _ {e t : ℕ} {q : List (ℕ × ℕ)} {b : AccessBuffer} (r : Represents e t q b) where
  abbrev n : ℕ
  n = 2 ^ e

  pub positive : 0 < n
  positive = one-le-pow e 2 (omega arith)

  head_cell : bit_and b.head b.mask ≡ (t + length q) % n
  head_cell = rw (r.head, r.mask) (cursor e (t + length q) (omega (arith, r.exponent.1)))

  pub tail_cell : bit_and b.tail b.mask ≡ t % n
  tail_cell = rw (r.tail, r.mask) (cursor e t (omega (arith, r.exponent.1)))

  module _ (bucket slot : ℕ) (ok : Access (bucket, slot)) (room : length q < 2 ^ e) where
    abbrev cell : ℕ
    cell = (t + length q) % n

    abbrev published : AccessEvent
    published = record { sequence = add64 b.head 1; payload = packed (bucket, slot) }

    abbrev pub pushed : AccessBuffer
    pushed = record b { buffer = set b.buffer cell published; head = add64 b.head 1 }

    cell_inside : cell < length b.buffer
    cell_inside = omega (arith, r.size, mod-lt (t + length q) positive)

    longer : length (q ++ (bucket, slot) ∷ []) ≡ length q + 1
    longer = length-append q ((bucket, slot) ∷ [])

    push_runs : push b bucket slot ≡ some (true, pushed)
    unfolding push
    push_runs =
        let c = r.cells (length q) room in
        let free : get_elem? b.buffer cell
            ≡ some (record { sequence = (t + length q) % 2 ^ 64; payload = c.payload }) =
          c.reads ∙ ground arith in
        let valid : (leb 4 slot || ltb (u64_max / 2 ^ 2) bucket) ≡ false =
          ground (arith, ok.0, ok.1) in
        let matches : ((t + length q) % 2 ^ 64 == b.head) ≡ true = ground (arith, r.head) in
        rw (
          valid,
          head_cell,
          free,
          ◌>>=◌,
          matches,
          pack bucket slot ok.0 ok.1,
          set_elem?-of_lt b.buffer cell published cell_inside,
        )

    before_end :
        (j : ℕ) {a : ℕ × ℕ}
        → get_elem? (q ++ (bucket, slot) ∷ []) j ≡ some a
        → length q ≢ j
        → j < length q
    before_end j at ne = omega (arith, lt_of_get_elem? (q ++ (bucket, slot) ∷ []) j at, longer)

    pushed-Cell : (j : ℕ) → j < n → Cell e t (q ++ (bucket, slot) ∷ []) pushed.buffer j
    pushed-Cell j bj = elim (ℕ_discrete (length q) j) [
      | yes here ↦ subst (Cell e t (q ++ (bucket, slot) ∷ []) pushed.buffer) here (record {
        payload = packed (bucket, slot);
        reads =
            get_elem?-set b.buffer cell cell published cell_inside ∙ ground (arith, r.head, longer);
        holds = λ {a} at.
            let same = eq_of_some (sym (get_elem?-append_end q (bucket, slot)) ∙ at) in
            (ap packed same, subst Access same ok);
      })
      | no ne ↦
          let c = r.cells j bj in
          let away : cell ≢ (t + j) % n = λ same. ne (same_cell n t (length q) j room bj same) in
          record {
            payload = c.payload;
            reads =
                get_elem?-set b.buffer cell ((t + j) % n) published cell_inside
                ∙ ground (arith, away, c.reads, longer);
            holds = λ {a} at.
                c.holds
                  (sym (get_elem?-append_left q ((bucket, slot) ∷ []) j (before_end j at ne)) ∙ at);
          }
    ]

    -- There is room: the access goes to the end of the queue.
    pub push-room :
        (push b bucket slot ≡ some (true, pushed))
        × Represents e t (q ++ (bucket, slot) ∷ []) pushed
    push-room = (
      push_runs,
      record {
        exponent = r.exponent;
        size = length-set b.buffer cell published ∙ r.size;
        mask = r.mask;
        bounded = omega (arith, longer);
        tail = r.tail;
        head = omega (arith, longer, r.head);
        cells = pushed-Cell;
      },
    )

  small_ring : n ≤ 2 ^ 62
  small_ring = pow-le-pow_right {n = 2} (omega arith) r.exponent.1

  -- The ring is full: nothing changes.
  pub push-full : (bucket slot : ℕ) → length q ≡ 2 ^ e → push b bucket slot ≡ some (false, b)
  unfolding push
  push-full bucket slot full =
      let c = r.cells 0 positive in
      let same : (t + length q) % n ≡ (t + 0) % n =
        ap (λ x. (t + x) % n) full ∙ add-mod_right t n ∙ ap (λ x. x % n) (sym (add-zero t)) in
      let taken : get_elem? b.buffer ((t + length q) % n)
          ≡ some (record { sequence = (t + 1) % 2 ^ 64; payload = c.payload }) =
        ap (get_elem? b.buffer) same ∙ c.reads ∙ ground (arith, positive, full) in
      let two : 2 ≤ n = omega (arith, pow-le-pow_right {n = 2} (omega arith) r.exponent.0) in
      let differs : (t + 1) % 2 ^ 64 ≢ (t + length q) % 2 ^ 64 = λ x. absurd (
        omega (
          arith,
          same_cell (2 ^ 64) t 1 (length q) (omega arith) (omega (arith, small_ring)) x,
          two,
        )) in
      let later : ((t + 1) % 2 ^ 64 == b.head) ≡ false = ground (arith, r.head, differs) in
      elim (Bool-cases (leb 4 slot || ltb (u64_max / 2 ^ 2) bucket)) [
        | inl bad ↦ rw bad
        | inr good ↦ rw (good, head_cell, taken, ◌>>=◌, later)
      ]
