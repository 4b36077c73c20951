-- ===== src/Tests/Iterators.antt =====
-- The iterators on the map with one pair.
use pulse_map.Base.{ℕ, ◌≡◌, arith, Option, some, List, length}
use pulse_map.Codec.{u8_key, u16_value}
use pulse_map.Iter.Pairs.{Inside, Advances, next-Advances, raw_iter-len}
use pulse_map.Iter.Slots.{remaining}
use pulse_map.Iter.Typed.{first_decoded, typed_next-first_decoded}
use pulse_map.Iter.{RawIter, raw_iter, next, typed_next}
use pulse_map.Raw.{len}
use pulse_map.Tests.Map.{test_hash, one_pair, one-IsValid}

raw_iter-len_example :
    (l : List (List ℕ × List ℕ)) × (remaining one_pair raw_iter ≡ some l)
    × (length l ≡ len one_pair)
raw_iter-len_example = raw_iter-len test_hash one-IsValid

abbrev all_pairs : List (List ℕ × List ℕ)
all_pairs = (raw_iter-len test_hash one-IsValid).0

start_remaining : remaining one_pair raw_iter ≡ some all_pairs
start_remaining = (raw_iter-len test_hash one-IsValid).1

start-Inside : Inside one_pair raw_iter
unfolding raw_iter
start-Inside = (omega arith, omega arith)

next-Advances_example :
    (item : Option (List ℕ × List ℕ)) × (it' : RawIter) × (next one_pair raw_iter
      ≡ some (item, it'))
    × Advances one_pair all_pairs item it'
next-Advances_example = next-Advances test_hash one-IsValid raw_iter start-Inside start_remaining

typed_next-first_decoded_example :
    (it' : RawIter) × (typed_next u8_key u16_value one_pair raw_iter
      ≡ some ((first_decoded u8_key u16_value all_pairs).0, it'))
    × (remaining one_pair it' ≡ some (first_decoded u8_key u16_value all_pairs).1)
typed_next-first_decoded_example =
    typed_next-first_decoded u8_key u16_value test_hash one-IsValid raw_iter start-Inside
      start_remaining
