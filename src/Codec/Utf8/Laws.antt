-- ===== src/Codec/Utf8/Laws.antt =====
-- Every string is read back from its bytes.
use pulse_map.Base.{
  ℕ, suc, ◌+◌, ◌-◌, ◌*◌, ◌/◌, ◌%◌, ◌<◌, ◌≤◌, ◌≡◌, refl, ap, ◌∙◌, arith, some, List, [], ◌∷◌, ◌++◌,
  ◌==◌, if◌then◌else◌, ◌>>=◌,
}
use native.Mathlib.Decide.{dec_lt}
use pulse_map.Codec.Utf8.{IsChar, encode_char, as_bytes, lead, decode, from_utf8}

-- A byte that follows is taken if it is within its bounds.
follows :
    (left c low high b : ℕ) (bs : List ℕ)
    → low ≤ b
    → b ≤ high
    → decode (suc left) c low high (b ∷ bs) ≡ decode left (c * 64 + (b - 0x80)) 0x80 0xBF bs
unfolding decode
follows left c low high b bs above below = ground arith

-- What `decode` makes of the bytes of a character and of more.
record Decodes (c : ℕ) : Type 0 where
  first : ℕ
  others : List ℕ
  starts : ℕ × ℕ × ℕ × ℕ
  bytes : encode_char c ≡ first ∷ others
  leads : lead first ≡ some starts
  goes_on :
      (bs : List ℕ)
      → decode starts.0 starts.1 starts.2 starts.3 (others ++ bs) ≡ decode 0 c 0x80 0xBF bs

one_byte : (c : ℕ) → c < 0x80 → Decodes c
unfolding encode_char lead decode
one_byte c small = record {
  first = c;
  others = [];
  starts = (0, c, 0x80, 0xBF);
  bytes = ground arith;
  leads = ground arith;
  goes_on = λ bs. refl;
}

two_bytes : (c : ℕ) → 0x80 ≤ c → c < 0x800 → Decodes c
unfolding encode_char lead
two_bytes c large small = record {
  first = 0xC0 + c / 64;
  others = (0x80 + c % 64) ∷ [];
  starts = (1, c / 64, 0x80, 0xBF);
  bytes = ground arith;
  leads = ground arith;
  goes_on = λ bs.
      follows 0 (c / 64) 0x80 0xBF (0x80 + c % 64) bs (omega arith) (omega arith)
      ∙ ap (λ x. decode 0 x 0x80 0xBF bs) (omega arith);
}

-- The bounds of the second byte, where the first alone does not tell.
abbrev pub low3 : ℕ → ℕ
low3 b = if b == 0xE0 then 0xA0 else 0x80

abbrev pub high3 : ℕ → ℕ
high3 b = if b == 0xED then 0x9F else 0xBF

abbrev pub low4 : ℕ → ℕ
low4 b = if b == 0xF0 then 0x90 else 0x80

abbrev pub high4 : ℕ → ℕ
high4 b = if b == 0xF4 then 0x8F else 0xBF

three_bytes : (c : ℕ) → IsChar c → 0x800 ≤ c → c < 0x10000 → Decodes c
unfolding encode_char lead
three_bytes c valid large small =
    let b = 0xE0 + c / 4096 in
    let s = 0x80 + c / 64 % 64 in
    let above : low3 b ≤ s = ground arith in
    let below : s ≤ high3 b = ground (arith, valid) in
    record {
      first = b;
      others = s ∷ (0x80 + c % 64) ∷ [];
      starts = (2, c / 4096, low3 b, high3 b);
      bytes = ground arith;
      leads = ground arith;
      goes_on = λ bs.
          follows 1 (c / 4096) (low3 b) (high3 b) s ((0x80 + c % 64) ∷ bs) above below
          ∙ follows 0 (c / 4096 * 64 + (s - 0x80)) 0x80 0xBF (0x80 + c % 64) bs (omega arith)
              (omega arith)
          ∙ ap (λ x. decode 0 x 0x80 0xBF bs) (omega arith);
    }

four_bytes : (c : ℕ) → 0x10000 ≤ c → c < 0x110000 → Decodes c
unfolding encode_char lead
four_bytes c large small =
    let b = 0xF0 + c / 262144 in
    let s = 0x80 + c / 4096 % 64 in
    let u = 0x80 + c / 64 % 64 in
    let above : low4 b ≤ s = ground arith in
    let below : s ≤ high4 b = ground arith in
    record {
      first = b;
      others = s ∷ u ∷ (0x80 + c % 64) ∷ [];
      starts = (3, c / 262144, low4 b, high4 b);
      bytes = ground arith;
      leads = ground arith;
      goes_on = λ bs.
          follows 2 (c / 262144) (low4 b) (high4 b) s (u ∷ (0x80 + c % 64) ∷ bs) above below
          ∙ follows 1 (c / 262144 * 64 + (s - 0x80)) 0x80 0xBF u ((0x80 + c % 64) ∷ bs)
              (omega arith) (omega arith)
          ∙ follows 0 ((c / 262144 * 64 + (s - 0x80)) * 64 + (u - 0x80)) 0x80 0xBF (0x80 + c % 64)
              bs (omega arith) (omega arith)
          ∙ ap (λ x. decode 0 x 0x80 0xBF bs) (omega arith);
    }

char_lem : (c : ℕ) → IsChar c → Decodes c
char_lem c valid = elim (dec_lt c 0x80) [
  | yes one ↦ one_byte c one
  | no over ↦ elim (dec_lt c 0x800) [
    | yes two ↦ two_bytes c (omega arith) two
    | no over' ↦ elim (dec_lt c 0x10000) [
      | yes three ↦ three_bytes c valid (omega arith) three
      | no over'' ↦ four_bytes c (omega arith) (omega (arith, valid))
    ]
  ]
]

abbrev pub AllChars : List ℕ → Type 0
AllChars [] = Unit
AllChars (c ∷ cs) = IsChar c × AllChars cs

-- The first byte of the next character ends the one before.
pub next_char :
    (c b : ℕ) (bs : List ℕ) (starts : ℕ × ℕ × ℕ × ℕ)
    → lead b ≡ some starts
    → decode 0 c 0x80 0xBF (b ∷ bs)
      ≡ (decode starts.0 starts.1 starts.2 starts.3 bs >>= λ rest. some (c ∷ rest))
unfolding decode
next_char c b bs starts e = rw (decode, e)

pub first_char :
    (b : ℕ) (bs : List ℕ) (starts : ℕ × ℕ × ℕ × ℕ)
    → lead b ≡ some starts
    → from_utf8 (b ∷ bs) ≡ decode starts.0 starts.1 starts.2 starts.3 bs
unfolding from_utf8
first_char b bs starts e = rw (from_utf8, e)

decode-as_bytes :
    (c : ℕ) (cs : List ℕ) → AllChars cs → decode 0 c 0x80 0xBF (as_bytes cs) ≡ some (c ∷ cs)
unfolding as_bytes decode
decode-as_bytes c [] all = refl
decode-as_bytes c (c' ∷ cs) all =
    let d = char_lem c' all.0 in
    ap (λ bs. decode 0 c 0x80 0xBF (bs ++ as_bytes cs)) d.bytes
    ∙ next_char c d.first (d.others ++ as_bytes cs) d.starts d.leads
    ∙ ap (λ o. o >>= (λ rest. some (c ∷ rest)))
        (d.goes_on (as_bytes cs) ∙ decode-as_bytes c' cs all.1)

pub from_utf8-as_bytes : (cs : List ℕ) → AllChars cs → from_utf8 (as_bytes cs) ≡ some cs
unfolding as_bytes from_utf8
from_utf8-as_bytes [] all = refl
from_utf8-as_bytes (c ∷ cs) all =
    let d = char_lem c all.0 in
    ap (λ bs. from_utf8 (bs ++ as_bytes cs)) d.bytes
    ∙ first_char d.first (d.others ++ as_bytes cs) d.starts d.leads
    ∙ d.goes_on (as_bytes cs)
    ∙ decode-as_bytes c cs all.1
