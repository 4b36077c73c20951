-- ===== src/Tests/Concurrent.antt =====
-- Two threads at a buffer of four cells: one records an access, the other takes it out.
use pulse_map.AccessBuffer.Concurrent.Invariant.{times}
use pulse_map.AccessBuffer.Concurrent.Safety.{touches, one_owner, delivered_once}
use pulse_map.AccessBuffer.Concurrent.{
  Shared, Pc, claimed, cell, put, Reach, start, later, push_begin, push_free, push_claim,
  push_store, push_publish, pop_begin, pop_ready, pop_take, pop_copy, pop_release,
}
use pulse_map.Base.{ℕ, ◌≤◌, ◌≡◌, refl, arith, some, [], ◌∷◌, length, get_elem?}

-- A thread has claimed the first place.
record Halfway : Type 0 where
  state : Shared
  pc : ℕ → Pc
  reached : Reach 2 state pc
  producer : pc 0 ≡ claimed (5, 2) 0
  few : length state.claims ≡ 1

halfway : Halfway
unfolding put
halfway = record {
  state = _;
  pc = _;
  reached =
      later 0
        (later 0 (later 0 start (push_begin (5, 2) (omega arith, omega arith)))
          (push_free {h = 0} refl))
        (push_claim {h = 0} refl);
  producer = refl;
  few = refl;
}

-- Thread 0 has pushed the access (5, 2), and thread 1 has popped it.
record Emptied : Type 0 where
  state : Shared
  pc : ℕ → Pc
  reached : Reach 2 state pc
  few : length state.claims ≡ 1
  out : state.delivered ≡ (0, 5, 2) ∷ []

emptied : Emptied
unfolding put
emptied = record {
  state = _;
  pc = _;
  reached =
      later 1
        (later 1
          (later 1
            (later 1
              (later 1
                (later 0
                  (later 0
                    (later 0
                      (later 0 (later 0 start (push_begin (5, 2) (omega arith, omega arith)))
                        (push_free {h = 0} refl))
                      (push_claim {h = 0} refl))
                    push_store)
                  push_publish)
                pop_begin)
              (pop_ready {t = 0} refl))
            (pop_take {t = 0} refl))
          pop_copy)
        pop_release;
  few = refl;
  out = refl;
}

halfway-touches : touches 2 (halfway.pc 0) ≡ some (cell 2 0)
halfway-touches = rw halfway.producer

one_owner_example : ◌≡◌ {A = ℕ} 0 0
one_owner_example =
    one_owner 2 (omega arith) halfway.reached (omega (arith, halfway.few)) 0 0 (cell 2 0)
      halfway-touches halfway-touches

delivered_once_example :
    ((n t bucket slot : ℕ)
      → get_elem? emptied.state.delivered n ≡ some (t, bucket, slot)
      → get_elem? emptied.state.claims t ≡ some (bucket, slot))
    × ((p : ℕ) → times p emptied.state.delivered ≤ 1)
delivered_once_example = delivered_once 2 (omega arith) emptied.reached (omega (arith, emptied.few))
