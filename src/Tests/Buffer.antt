-- ===== src/Tests/Buffer.antt =====
-- The buffer of accesses at concrete inputs.
use pulse_map.AccessBuffer.Queue.{Represents, positive, pushed, push-room}
use pulse_map.AccessBuffer.Refine.{
  offer, poll, run_all, push-offer, pop-poll, drain-run_all, new_buffer-Represents,
}
use pulse_map.AccessBuffer.{AccessBuffer, new_buffer, push, pop, drain}
use pulse_map.Base.{
  ℕ, ◌+◌, ◌*◌, ◌^◌, ◌<◌, ◌≡◌, refl, arith, Option, some, List, [], ◌∷◌, drop, take,
}

abbrev exponent : ℕ
exponent = (new_buffer-Represents 100 (omega arith)).0

none-Represents : Represents exponent 0 [] (new_buffer 100)
none-Represents = (new_buffer-Represents 100 (omega arith)).2

push-offer_example :
    (b' : AccessBuffer) × (push (new_buffer 100) 5 2
      ≡ some ((offer (2 ^ exponent) [] (5, 2)).0, b'))
    × Represents exponent 0 (offer (2 ^ exponent) [] (5, 2)).1 b'
push-offer_example = push-offer none-Represents 5 2 (omega arith, omega arith)

room : 0 < 2 ^ exponent
room = positive none-Represents

abbrev one_access : AccessBuffer
one_access = pushed none-Represents 5 2 (omega arith, omega arith) room

abbrev one_queue : List (ℕ × ℕ)
one_queue = (5, 2) ∷ []

one-Represents : Represents exponent 0 one_queue one_access
one-Represents = (push-room none-Represents 5 2 (omega arith, omega arith) room).1

pop-poll_example :
    (t' : ℕ) × (b' : AccessBuffer) × (pop one_access ≡ some (some (5, 2), b'))
    × Represents exponent t' [] b'
unfolding poll
pop-poll_example = pop-poll one_queue one-Represents

abbrev add_slots : ℕ → ℕ → ℕ → Option ℕ
add_slots s bucket slot = some (s + bucket * 4 + slot)

one_runs : run_all add_slots (take 64 one_queue) 1 ≡ some 23
unfolding run_all take
one_runs = refl

drain-run_all_example :
    (t' : ℕ) × (b' : AccessBuffer) × (drain add_slots 64 one_access 1 ≡ some (23, b'))
    × Represents exponent t' (drop 64 one_queue) b'
drain-run_all_example = drain-run_all add_slots 64 one_queue 1 one-Represents one_runs
