-- ===== src/AccessBuffer/Refine.antt =====
-- The operations of the buffer against those of a bounded queue, which a list of accesses is, the oldest first.
use pulse_map.AccessBuffer.Front.{popped, pop-empty, pop-some}
use pulse_map.AccessBuffer.Queue.{Access, Represents, Cell, pushed, push-room, push-full}
use pulse_map.AccessBuffer.{AccessBuffer, new_buffer, events_from, push, pop, drain}
use pulse_map.Base.{
  ℕ, zero, suc, ◌+◌, ◌-◌, ◌%◌, ◌^◌, ◌<◌, ◌≤◌, max, ◌≡◌, refl, ap, ◌∙◌, arith, Bool, true, false,
  Option, none, some, List, [], ◌∷◌, ◌++◌, ltb, if◌then◌else◌, length, get_elem?, lt_of_get_elem?,
  ◌>>=◌, >>=-eq-some, take, drop, subst, eq_of_some, Bool-cases, inl, inr,
}
use native.Mathlib.Nat.{add-zero, mod-eq_of_lt, pow-le-pow_right}
use pulse_map.Raw.New.{IsLeast, next_power_of_two-IsLeast}
use pulse_map.Raw.{next_power_of_two}

-- What a queue of `room` places takes.
unfoldable pub offer : ℕ → List (ℕ × ℕ) → ℕ × ℕ → Bool × List (ℕ × ℕ)
offer room q a = if ltb (length q) room then (true, q ++ a ∷ []) else (false, q)

-- What it gives.
unfoldable pub poll : List (ℕ × ℕ) → Option (ℕ × ℕ) × List (ℕ × ℕ)
poll [] = (none, [])
poll (a ∷ q) = (some a, q)

-- A buffer that represents a queue, with an access that can be recorded: `push` does not panic, answers as the
-- bounded queue does, and represents what the queue becomes.
pub push-offer :
    {e t : ℕ} {q : List (ℕ × ℕ)} {b : AccessBuffer}
    → Represents e t q b
    → (bucket slot : ℕ) → Access (bucket, slot)
    → (b' : AccessBuffer) × (push b bucket slot ≡ some ((offer (2 ^ e) q (bucket, slot)).0, b'))
      × Represents e t (offer (2 ^ e) q (bucket, slot)).1 b'
unfolding offer
push-offer {e} {t} {q} {b} r bucket slot ok = elim (Bool-cases (ltb (length q) (2 ^ e))) [
  | inl has ↦
      let room : length q < 2 ^ e = ground arith in
      let (runs, r') = push-room r bucket slot ok room in
      (pushed r bucket slot ok room, rw has runs, rw has r')
  | inr full ↦ (b, rw full (push-full r bucket slot (ground (arith, r.bounded))), rw full r)
]

-- A buffer that represents a queue: `pop` does not panic, answers the oldest access, if there is one, and
-- represents the rest.
pub pop-poll :
    {e t : ℕ} (q : List (ℕ × ℕ)) {b : AccessBuffer}
    → Represents e t q b
    → (t' : ℕ) × (b' : AccessBuffer) × (pop b ≡ some ((poll q).0, b'))
      × Represents e t' (poll q).1 b'
unfolding poll
pop-poll {t = t} [] {b} r = (t, b, pop-empty r refl, r)
pop-poll {t = t} ((bucket, slot) ∷ rest) r =
    let (runs, r') = pop-some r bucket slot rest refl in
    (t + 1, popped r bucket slot rest refl, runs, r')

-- The callback on a list of accesses, in order.
module _ {S : Type 0} (f : S → ℕ → ℕ → Option S) where
  unfoldable pub run_all : List (ℕ × ℕ) → S → Option S
  run_all [] s = some s
  run_all ((bucket, slot) ∷ rest) s = f s bucket slot >>= run_all rest

  -- `drain` runs the callback on the oldest accesses, at most as many as it is told, and keeps the rest, if
  -- the callback runs on all of them.
  pub drain-run_all :
      {e : ℕ} (left : ℕ) (q : List (ℕ × ℕ)) {t : ℕ} {b : AccessBuffer} (s : S) {s' : S}
      → Represents e t q b
      → run_all (take left q) s ≡ some s'
      → (t' : ℕ) × (b' : AccessBuffer) × (drain f left b s ≡ some (s', b'))
        × Represents e t' (drop left q) b'
  unfolding drain run_all take drop
  drain-run_all zero q {t} {b} s r runs = (t, b, ap (λ x. some (x, b)) (eq_of_some runs), r)
  drain-run_all (suc left) [] {t} {b} s r runs =
      (t, b, rw (pop-empty r refl, ◌>>=◌) (ap (λ x. some (x, b)) (eq_of_some runs)), r)
  drain-run_all (suc left) ((bucket, slot) ∷ rest) {t} {b} s r runs =
      let (one, r') = pop-some r bucket slot rest refl in
      let (s₁, step, later) = >>=-eq-some (f s bucket slot) (run_all (take left rest)) runs in
      let (t', b', all, done) = drain-run_all left rest s₁ r' later in
      (t', b', rw (one, ◌>>=◌, step) all, done)

get_elem?-events_from :
    (left i j : ℕ)
    → j < left
    → get_elem? (events_from left i) j ≡ some (record { sequence = i + j; payload = 0 })
unfolding events_from get_elem?
get_elem?-events_from zero i j below = absurd (omega arith)
get_elem?-events_from (suc left) i zero below = rw add-zero
get_elem?-events_from (suc left) i (suc j) below =
    let next : i + 1 + j ≡ i + suc j = omega arith in
    get_elem?-events_from left (i + 1) j (omega arith)
    ∙ ap (λ x. some (record { sequence = x; payload = 0 })) next

length-events_from : (left i : ℕ) → length (events_from left i) ≡ left
unfolding events_from
length-events_from zero i = refl
length-events_from (suc left) i = ap suc (length-events_from left (i + 1))

-- A new buffer represents the empty queue, with the least power of two of places that is asked for, at least
-- 64, if at most `2 ^ 62` are asked for.
pub new_buffer-Represents :
    (capacity : ℕ)
    → capacity ≤ 2 ^ 62
    → (e : ℕ) × IsLeast 0 (max capacity 64) (2 ^ e) × Represents e 0 [] (new_buffer capacity)
unfolding new_buffer
new_buffer-Represents capacity small =
    let p = next_power_of_two-IsLeast (max capacity 64) (omega arith) in
    let e = p.exponent in
    (
      e,
      subst (IsLeast 0 (max capacity 64)) p.power p,
      fresh e (next_power_of_two (max capacity 64)) p.power
          (at_least e (omega (arith, p.power, p.enough)), p.least 62 (omega arith) (omega arith)),
    )
  where
    at_least : (e : ℕ) → 64 ≤ 2 ^ e → 1 ≤ e
    at_least zero h = absurd (omega arith)
    at_least (suc e) h = omega arith

    cell : (e j : ℕ) → j < 2 ^ e → e ≤ 62 → Cell e 0 [] (events_from (2 ^ e) 0) j
    cell e j below e_small =
        let inside : (0 + j) % 2 ^ e ≡ j = mod-eq_of_lt (omega arith) ∙ omega arith in
        let bound = pow-le-pow_right {n = 2} (omega arith) e_small in
        record {
          payload = 0;
          reads =
              ap (get_elem? (events_from (2 ^ e) 0)) inside
              ∙ get_elem?-events_from (2 ^ e) 0 j below
              ∙ ground (arith, bound);
          holds = λ {a} at. absurd (omega (arith, lt_of_get_elem? {A = ℕ × ℕ} [] j at));
        }

    fresh :
        (e actual : ℕ)
        → actual ≡ 2 ^ e
        → (1 ≤ e) × (e ≤ 62)
        → Represents e 0 []
            (record { buffer = events_from actual 0; mask = actual - 1; head = 0; tail = 0 })
    fresh e actual power bounds = record {
      exponent = bounds;
      size = length-events_from actual 0 ∙ power;
      mask = ap (λ x. x - 1) power;
      bounded = omega arith;
      tail = refl;
      head = refl;
      cells = λ j below. rw power (cell e j below bounds.1);
    }
