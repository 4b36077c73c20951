-- ===== src/Codec/Utf8/Sound.antt =====
-- Only the bytes of strings can be read.
use pulse_map.Base.{
  ℕ, zero, suc, ◌+◌, ◌-◌, ◌*◌, ◌<◌, ◌≤◌, ◌≡◌, refl, sym, ap, ◌∙◌, arith, none, some, List, [], ◌∷◌,
  ◌++◌, ◌>>=◌, ◌⊎◌, ◌↔◌, inl, inr, length, eq_of_some, Option-cases, subst,
}
use native.Mathlib.Decide.{dec_lt}
use pulse_map.Codec.Utf8.Laws.{
  AllChars, next_char, first_char, from_utf8-as_bytes, low3, high3, low4, high4,
}
use pulse_map.Codec.Utf8.{IsChar, encode_char, as_bytes, lead, decode, from_utf8}

-- A byte that was taken is within its bounds.
record Followed (left c low high : ℕ) (bs out : List ℕ) : Type 0 where
  byte : ℕ
  rest : List ℕ
  bytes : bs ≡ byte ∷ rest
  above : low ≤ byte
  below : byte ≤ high
  goes_on : decode left (c * 64 + (byte - 0x80)) 0x80 0xBF rest ≡ some out

follows_inv :
    (left c low high : ℕ) (bs out : List ℕ)
    → decode (suc left) c low high bs ≡ some out
    → Followed left c low high bs out
unfolding decode
follows_inv left c low high [] out e = cc
follows_inv left c low high (b ∷ bs) out e = record {
  byte = b;
  rest = bs;
  bytes = refl;
  above = ground (arith, e);
  below = ground (arith, e);
  goes_on = ground (arith, e);
}

-- A character that was read to its end.
record ReadChar (b : ℕ) (bs out : List ℕ) : Type 0 where
  char : ℕ
  rest : List ℕ
  valid : IsChar char
  bytes : b ∷ bs ≡ encode_char char ++ rest
  shorter : length rest ≤ length bs
  goes_on : decode 0 char 0x80 0xBF rest ≡ some out

one_read :
    (b : ℕ) (bs out : List ℕ) → b < 0x80 → decode 0 b 0x80 0xBF bs ≡ some out → ReadChar b bs out
unfolding encode_char
one_read b bs out small e = record {
  char = b;
  rest = bs;
  valid = inl (omega arith);
  bytes = ground arith;
  shorter = omega arith;
  goes_on = e;
}

two_read :
    (b : ℕ) (bs out : List ℕ)
    → 0xC2 ≤ b
    → b < 0xE0
    → decode 1 (b - 0xC0) 0x80 0xBF bs ≡ some out
    → ReadChar b bs out
unfolding encode_char
two_read b bs out large small e =
    let f = follows_inv 0 (b - 0xC0) 0x80 0xBF bs out e in
    let c = (b - 0xC0) * 64 + (f.byte - 0x80) in
    let spelled : encode_char c ≡ b ∷ f.byte ∷ [] = ground (arith, f.above, f.below) in
    record {
      char = c;
      rest = f.rest;
      valid = inl (omega (arith, f.above, f.below));
      bytes = ap (λ l. b ∷ l) f.bytes ∙ ap (λ l. l ++ f.rest) (sym spelled);
      shorter = omega (arith, ap length f.bytes);
      goes_on = f.goes_on;
    }

three_read :
    (b : ℕ) (bs out : List ℕ)
    → 0xE0 ≤ b
    → b < 0xF0
    → decode 2 (b - 0xE0) (low3 b) (high3 b) bs ≡ some out
    → ReadChar b bs out
unfolding encode_char
three_read b bs out large small e =
    let f = follows_inv 1 (b - 0xE0) (low3 b) (high3 b) bs out e in
    let g = follows_inv 0 ((b - 0xE0) * 64 + (f.byte - 0x80)) 0x80 0xBF f.rest out f.goes_on in
    let c = ((b - 0xE0) * 64 + (f.byte - 0x80)) * 64 + (g.byte - 0x80) in
    let low : 0x80 ≤ f.byte = ground (arith, f.above) in
    let high : f.byte ≤ 0xBF = ground (arith, f.below) in
    let at_least : 0x800 ≤ c = ground (arith, f.above, g.above) in
    let valid : IsChar c = ground (arith, f.above, f.below, g.above, g.below) in
    let spelled : encode_char c ≡ b ∷ f.byte ∷ g.byte ∷ [] =
      ground (arith, at_least, low, high, g.above, g.below) in
    record {
      char = c;
      rest = g.rest;
      valid = valid;
      bytes =
          ap (λ l. b ∷ l) (f.bytes ∙ ap (λ l. f.byte ∷ l) g.bytes)
          ∙ ap (λ l. l ++ g.rest) (sym spelled);
      shorter = omega (arith, ap length f.bytes, ap length g.bytes);
      goes_on = g.goes_on;
    }

four_read :
    (b : ℕ) (bs out : List ℕ)
    → 0xF0 ≤ b
    → b < 0xF5
    → decode 3 (b - 0xF0) (low4 b) (high4 b) bs ≡ some out
    → ReadChar b bs out
unfolding encode_char
four_read b bs out large small e =
    let f = follows_inv 2 (b - 0xF0) (low4 b) (high4 b) bs out e in
    let c₂ = (b - 0xF0) * 64 + (f.byte - 0x80) in
    let g = follows_inv 1 c₂ 0x80 0xBF f.rest out f.goes_on in
    let c₃ = c₂ * 64 + (g.byte - 0x80) in
    let h = follows_inv 0 c₃ 0x80 0xBF g.rest out g.goes_on in
    let c = c₃ * 64 + (h.byte - 0x80) in
    let low : 0x80 ≤ f.byte = ground (arith, f.above) in
    let high : f.byte ≤ 0xBF = ground (arith, f.below) in
    let at_least : 0x10000 ≤ c = ground (arith, f.above, g.above, h.above) in
    let below : c < 0x110000 =
      ground (arith, f.above, f.below, g.above, g.below, h.above, h.below) in
    let spelled : encode_char c ≡ b ∷ f.byte ∷ g.byte ∷ h.byte ∷ [] =
      ground (arith, at_least, low, high, g.above, g.below, h.above, h.below) in
    record {
      char = c;
      rest = h.rest;
      valid = inr (omega (arith, at_least), below);
      bytes =
          ap (λ l. b ∷ l) (f.bytes ∙ ap (λ l. f.byte ∷ l) (g.bytes ∙ ap (λ l. g.byte ∷ l) h.bytes))
          ∙ ap (λ l. l ++ h.rest) (sym spelled);
      shorter = omega (arith, ap length f.bytes, ap length g.bytes, ap length h.bytes);
      goes_on = h.goes_on;
    }

read_char :
    (b : ℕ) (bs out : List ℕ) (starts : ℕ × ℕ × ℕ × ℕ)
    → lead b ≡ some starts
    → decode starts.0 starts.1 starts.2 starts.3 bs ≡ some out
    → ReadChar b bs out
unfolding lead
read_char b bs out starts l e =
    let go : (ℕ × ℕ × ℕ × ℕ) → Type 0 = λ s. decode s.0 s.1 s.2 s.3 bs ≡ some out in
    elim (dec_lt b 0x80) [
      | yes one ↦
          let now : starts ≡ (0, b, 0x80, 0xBF) = eq_of_some (sym l ∙ ground arith) in
          one_read b bs out one (subst go now e)
      | no not_one ↦ elim (dec_lt b 0xC2) [
        | yes stray ↦ absurd (ground (arith, l))
        | no lead_byte ↦ elim (dec_lt b 0xE0) [
          | yes two ↦
              let now : starts ≡ (1, b - 0xC0, 0x80, 0xBF) = eq_of_some (sym l ∙ ground arith) in
              two_read b bs out (omega arith) two (subst go now e)
          | no not_two ↦ elim (dec_lt b 0xF0) [
            | yes three ↦
                let now : starts ≡ (2, b - 0xE0, low3 b, high3 b) =
                  eq_of_some (sym l ∙ ground arith) in
                three_read b bs out (omega arith) three (subst go now e)
            | no not_three ↦ elim (dec_lt b 0xF5) [
              | yes four ↦
                  let now : starts ≡ (3, b - 0xF0, low4 b, high4 b) =
                    eq_of_some (sym l ∙ ground arith) in
                  four_read b bs out (omega arith) four (subst go now e)
              | no over ↦ absurd (ground (arith, l))
            ]
          ]
        ]
      ]
    ]

-- After a character the bytes end, or another one begins.
next_inv :
    (c : ℕ) (bs out : List ℕ)
    → decode 0 c 0x80 0xBF bs ≡ some out
    → ((bs ≡ []) × (out ≡ c ∷ []))
      ⊎ ((b : ℕ) × (rest : List ℕ) × (starts : ℕ × ℕ × ℕ × ℕ) × (cs : List ℕ) × (bs ≡ b ∷ rest)
          × (lead b ≡ some starts)
          × (decode starts.0 starts.1 starts.2 starts.3 rest ≡ some cs)
          × (out ≡ c ∷ cs))
unfolding decode
next_inv c [] out e = inl (refl, sym (eq_of_some e))
next_inv c (b ∷ bs) out e = elim (Option-cases (lead b)) [
  | inl stray ↦ let never : none ≡ some out = sym (rw (decode, stray)) ∙ e in cc
  | inr (starts, l) ↦
      let now = sym (next_char c b bs starts l) ∙ e in
      elim (Option-cases (decode starts.0 starts.1 starts.2 starts.3 bs)) [
        | inl bad ↦ let never : none ≡ some out = rw (bad, ◌>>=◌) at now in cc
        | inr (cs, good) ↦
            let same : c ∷ cs ≡ out = eq_of_some (rw (good, ◌>>=◌) at now) in
            inr (b, bs, starts, cs, refl, l, good, sym same)
      ]
]

-- By the number of bytes.
chars_read :
    (n b : ℕ) (bs out : List ℕ) (starts : ℕ × ℕ × ℕ × ℕ)
    → length bs < n
    → lead b ≡ some starts
    → decode starts.0 starts.1 starts.2 starts.3 bs ≡ some out
    → AllChars out × (b ∷ bs ≡ as_bytes out)
unfolding as_bytes
chars_read zero b bs out starts few l e = absurd (omega (arith, few))
chars_read (suc n) b bs out starts few l e =
    let r = read_char b bs out starts l e in
    let Spelled : List ℕ → Type 0 = λ o. AllChars o × (b ∷ bs ≡ as_bytes o) in
    elim (next_inv r.char r.rest out r.goes_on) [
      | inl (ended, only) ↦
          subst Spelled (sym only)
            ((r.valid, tt), r.bytes ∙ ap (λ l. encode_char r.char ++ l) ended)
      | inr (b', rest, starts', cs, more, l', e', split) ↦
          let shorter : length rest < n = omega (arith, few, r.shorter, ap length more) in
          let (all, same) = chars_read n b' rest cs starts' shorter l' e' in
          subst Spelled (sym split)
            ((r.valid, all), r.bytes ∙ ap (λ l. encode_char r.char ++ l) (more ∙ same))
    ]

-- Bytes are read as a string exactly if they are its bytes: every string, of characters that are scalar values,
-- is read back; and bytes that are not those of a string, such as surrogates, forms that are too long, or a
-- character cut short, are refused.
pub from_utf8_iff : (b cs : List ℕ) → (from_utf8 b ≡ some cs) ↔ (AllChars cs × (b ≡ as_bytes cs))
unfolding from_utf8 as_bytes
from_utf8_iff b cs = (read b, λ (all, same). ap from_utf8 same ∙ from_utf8-as_bytes cs all)
  where
    read : (b : List ℕ) → from_utf8 b ≡ some cs → AllChars cs × (b ≡ as_bytes cs)
    read [] e =
        let none_left : [] ≡ cs = eq_of_some e in
        subst (λ l. AllChars l × ([] ≡ as_bytes l)) none_left (tt, refl)
    read (b ∷ bs) e = elim (Option-cases (lead b)) [
      | inl stray ↦ let never : none ≡ some cs = sym (rw (from_utf8, stray)) ∙ e in cc
      | inr (starts, l) ↦
          chars_read (suc (length bs)) b bs cs starts (omega arith) l
            (sym (first_char b bs starts l) ∙ e)
    ]
