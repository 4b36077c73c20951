-- ===== src/Codec/Utf8.antt =====
-- src/lib.rs: the implementations for `String`, a list of characters. `as_bytes` and `core::str::from_utf8` of the
-- standard library are the encoding UTF-8 and its inverse, which takes only the shortest form of a character.
pub mod Laws
pub mod Sound
use pulse_map.Base.{
  ℕ, zero, suc, ◌+◌, ◌-◌, ◌*◌, ◌/◌, ◌%◌, ◌<◌, ◌≤◌, ◌≡◌, ◌⊎◌, Bool, true, false, ◌&&◌, ◌==◌, Option,
  none, some, List, [], ◌∷◌, ◌++◌, ltb, leb, if◌then◌else◌, ◌>>=◌,
}
use pulse_map.Codec.{PulseKey, PulseValue}

-- A character is a scalar value: not a surrogate, and below 2^20 + 2^16.
abbrev pub IsChar : ℕ → Type 0
IsChar c = (c < 0xD800) ⊎ ((0xE000 ≤ c) × (c < 0x110000))

unfoldable pub encode_char : ℕ → List ℕ
encode_char c =
    if ltb c 0x80
    then c ∷ []
    else if ltb c 0x800
    then (0xC0 + c / 64) ∷ (0x80 + c % 64) ∷ []
    else if ltb c 0x10000
    then (0xE0 + c / 4096) ∷ (0x80 + c / 64 % 64) ∷ (0x80 + c % 64) ∷ []
    else (0xF0 + c / 262144) ∷ (0x80 + c / 4096 % 64) ∷ (0x80 + c / 64 % 64) ∷ (0x80 + c % 64) ∷ []

-- `as_bytes`
unfoldable pub as_bytes : List ℕ → List ℕ
as_bytes [] = []
as_bytes (c ∷ cs) = encode_char c ++ as_bytes cs

-- What a byte that begins a character says: how many follow, its own bits, and the bounds of the next byte.
unfoldable pub lead : ℕ → Option (ℕ × ℕ × ℕ × ℕ)
lead b =
    if ltb b 0x80
    then some (0, b, 0x80, 0xBF)
    else if ltb b 0xC2
    then none
    else if ltb b 0xE0
    then some (1, b - 0xC0, 0x80, 0xBF)
    else if ltb b 0xF0
    then some (2, b - 0xE0, if b == 0xE0 then 0xA0 else 0x80, if b == 0xED then 0x9F else 0xBF)
    else if ltb b 0xF5
    then some (3, b - 0xF0, if b == 0xF0 then 0x90 else 0x80, if b == 0xF4 then 0x8F else 0xBF)
    else none

-- The characters of bytes, where `left` bytes are still to come of one whose bits so far are `c`.
unfoldable pub decode : (left c low high : ℕ) → List ℕ → Option (List ℕ)
decode zero c low high [] = some (c ∷ [])
decode (suc left) c low high [] = none
decode zero c low high (b ∷ bs) = elim (lead b) [
  | none ↦ none
  | some (n, c', low', high') ↦ (do rest ← decode n c' low' high' bs; some (c ∷ rest))
]
decode (suc left) c low high (b ∷ bs) =
    let rest = decode left (c * 64 + (b - 0x80)) 0x80 0xBF bs in
    if leb low b && leb b high then rest else none

-- `from_utf8(b).ok().map(String::from)`
unfoldable pub from_utf8 : List ℕ → Option (List ℕ)
from_utf8 [] = some []
from_utf8 (b ∷ bs) = elim (lead b) [ none ↦ none | some (n, c, low, high) ↦ decode n c low high bs ]

unfoldable pub string_key : PulseKey (List ℕ)
unfolding as_bytes from_utf8
string_key = record { to_bytes = as_bytes; from_bytes = from_utf8 }

unfoldable pub string_value : PulseValue (List ℕ)
unfolding as_bytes from_utf8
string_value = record { to_bytes = as_bytes; from_bytes = from_utf8 }
