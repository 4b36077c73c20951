-- ===== src/Tests/Traits.antt =====
-- A map made from two pairs of `u8` and `u16`.
use pulse_map.Base.{ℕ, ◌≡◌, arith, none, some, List, [], ◌∷◌, ◌⊎◌, length-to_le_bytes}
use pulse_map.Codec.{u8_key, u16_value}
use pulse_map.Slab.Entry.{Fits}
use pulse_map.Tests.Map.{test_hash, reads_back, bytes_fit}
use pulse_map.Traits.Laws.{AllGood, last_value, from_hashmap-peek}
use pulse_map.Traits.{from_hashmap}
use pulse_map.Typed.{TypedPulseMap}
use pulse_map.Typed

abbrev two_pairs : List (ℕ × ℕ)
two_pairs = (5, 300) ∷ (6, 300) ∷ []

other-Fits : Fits (u8_key.to_bytes 6) (u16_value.to_bytes 300)
unfolding u8_key u16_value
other-Fits = omega (arith, length-to_le_bytes 2 300)

two_pairs-AllGood : AllGood test_hash u8_key u16_value two_pairs
two_pairs-AllGood = (bytes_fit, reads_back, (other-Fits, reads_back, tt))

from_hashmap-peek_example :
    (m : TypedPulseMap) × (from_hashmap test_hash u8_key u16_value two_pairs ≡ some m)
    × ((key : ℕ)
        → (Typed.peek test_hash u8_key u16_value m key ≡ some none)
          ⊎ ((v : ℕ) × (Typed.peek test_hash u8_key u16_value m key ≡ some (some v))
              × (last_value test_hash u8_key u16_value two_pairs (u8_key.to_bytes key) ≡ some v)))
from_hashmap-peek_example =
    from_hashmap-peek test_hash u8_key u16_value two_pairs (omega arith) two_pairs-AllGood
