-- ===== src/Iter/Typed.antt =====
-- The typed iterator: it shows the first pair that can be decoded, and does not run out of rounds.
use pulse_map.Base.{
  ℕ, zero, suc, ◌+◌, ◌-◌, ◌*◌, ◌<◌, ◌≤◌, ◌≡◌, refl, sym, ap, ◌∙◌, arith, Option, none, some, List,
  [], ◌∷◌, length, length-append, drop, ◌>>=◌, >>=-eq-some, eq_of_some, Option-cases, Bool-cases,
  inl, inr,
}
use pulse_map.Bucket.{Bucket}
use pulse_map.Codec.{PulseKey, PulseValue}
use pulse_map.Iter.Pairs.{Inside, next-Advances}
use pulse_map.Iter.Slots.{slot_pairs, bucket_pairs, remaining, uncons}
use pulse_map.Iter.{RawIter, read_pair, decode, decode_from, typed_next}
use pulse_map.Meta.{is_full, get_state}
use pulse_map.Raw.Invariant.{plain, IsValid}
use pulse_map.Raw.{PulseMapRaw, capacity}
use pulse_map.Slab.{SlabPool}

slot_pairs-le :
    (left i : ℕ) (b : Bucket) (pool : SlabPool) {l : List (List ℕ × List ℕ)}
    → slot_pairs left i b pool ≡ some l
    → length l ≤ left
unfolding slot_pairs
slot_pairs-le zero i b pool e = let same = eq_of_some e in rw (sym same) (omega arith)
slot_pairs-le (suc left) i b pool e =
    let (rest, e₁, e₂) = >>=-eq-some (slot_pairs left (i + 1) b pool) _ e in
    let small = slot_pairs-le left (i + 1) b pool e₁ in
    elim (Bool-cases (is_full (get_state b.meta i))) [
      | inl f ↦
          let (pair, _, e₃) = >>=-eq-some (read_pair b i pool) _ (rw f at e₂) in
          let same = eq_of_some e₃ in rw (sym same) (omega (arith, small))
      | inr f ↦ let same = eq_of_some (rw f at e₂) in rw (sym same) (omega (arith, small))
    ]

bucket_pairs-le :
    (i : ℕ) (bs : List Bucket) (pool : SlabPool) {l : List (List ℕ × List ℕ)}
    → bucket_pairs i bs pool ≡ some l
    → length l ≤ 4 * length bs
unfolding bucket_pairs
bucket_pairs-le i [] pool e = let same = eq_of_some e in rw (sym same) (omega arith)
bucket_pairs-le i (b ∷ bs) pool e =
    let (here, e₁, e₂) = >>=-eq-some (slot_pairs (4 - i) i b pool) _ e in
    let (rest, e₃, e₄) = >>=-eq-some (bucket_pairs 0 bs pool) _ e₂ in
    let same = eq_of_some e₄ in
    rw (sym same) (
      omega (
        arith,
        length-append here rest,
        slot_pairs-le (4 - i) i b pool e₁,
        bucket_pairs-le 0 bs pool e₃,
      ))

length-drop : {A : Type 0} (n : ℕ) (xs : List A) → length (drop n xs) ≤ length xs
unfolding drop
length-drop zero xs = omega arith
length-drop (suc n) [] = omega arith
length-drop (suc n) (x ∷ xs) = omega (arith, length-drop n xs)

remaining-le :
    (wyhash : List ℕ → ℕ) {m : PulseMapRaw}
    → IsValid wyhash plain m
    → (it : RawIter) {l : List (List ℕ × List ℕ)} → remaining m it ≡ some l
    → length l ≤ capacity m
unfolding remaining capacity
remaining-le wyhash {m} v it e = omega (
  arith,
  v.width,
  bucket_pairs-le it.slot_idx (drop it.bucket_idx m.buckets) m.slab_pool e,
  length-drop it.bucket_idx m.buckets,
)

module _ {ℓ κ} {K : Type ℓ} {V : Type κ} (key_codec : PulseKey K) (value_codec : PulseValue V) where
  -- The first pair that can be decoded, and those after it.
  unfoldable pub first_decoded : List (List ℕ × List ℕ) → Option (K × V) × List (List ℕ × List ℕ)
  first_decoded [] = (none, [])
  first_decoded (pair ∷ rest) = elim (decode key_codec value_codec pair) [
    | some kv ↦ (some kv, rest)
    | none ↦ first_decoded rest
  ]

  module _ (wyhash : List ℕ → ℕ) {m : PulseMapRaw} (v : IsValid wyhash plain m) where
    decode_from-first_decoded :
        (left : ℕ) (l : List (List ℕ × List ℕ)) (it : RawIter)
        → Inside m it
        → remaining m it ≡ some l
        → length l < left
        → (it' : RawIter) × (decode_from key_codec value_codec left m it
            ≡ some ((first_decoded l).0, it'))
          × (remaining m it' ≡ some (first_decoded l).1)
    unfolding decode_from first_decoded uncons
    decode_from-first_decoded zero l it inside e enough = absurd (omega arith)
    decode_from-first_decoded (suc left) [] it inside e enough =
        let (item, it', runs, a) = next-Advances wyhash v it inside e in
        let shows : item ≡ none = a.shows in (it', rw (runs, ◌>>=◌, shows), a.rest)
    decode_from-first_decoded (suc left) (pair ∷ rest) it inside e enough =
        let (item, it', runs, a) = next-Advances wyhash v it inside e in
        let shows : item ≡ some pair = a.shows in
        elim (Option-cases (decode key_codec value_codec pair)) [
          | inr (kv, d) ↦
              let stop : first_decoded (pair ∷ rest) ≡ (some kv, rest) =
                rw (first_decoded, d) refl in
              (
                it',
                rw (runs, ◌>>=◌, shows, d) (ap (λ x. some (x.0, it')) (sym stop)),
                a.rest ∙ ap (λ x. some x.1) (sym stop),
              )
          | inl d ↦
              let (it'', runs', more) =
                decode_from-first_decoded left rest it' a.inside a.rest (omega arith) in
              let skip : first_decoded (pair ∷ rest) ≡ first_decoded rest =
                rw (first_decoded, d) refl in
              (
                it'',
                rw (runs, ◌>>=◌, shows, d) (runs' ∙ ap (λ x. some (x.0, it'')) (sym skip)),
                more ∙ ap (λ x. some x.1) (sym skip),
              )
        ]

    -- On a valid map the typed iterator does not panic or run out of rounds: it shows the first of the pairs
    -- that remain which can be decoded, if there is one, and then those after it remain.
    pub typed_next-first_decoded :
        (it : RawIter)
        → Inside m it
        → {l : List (List ℕ × List ℕ)} → remaining m it ≡ some l
        → (it' : RawIter) × (typed_next key_codec value_codec m it
            ≡ some ((first_decoded l).0, it'))
          × (remaining m it' ≡ some (first_decoded l).1)
    unfolding typed_next
    typed_next-first_decoded it inside {l} e =
        decode_from-first_decoded (capacity m + 1) l it inside e
          (omega (arith, remaining-le wyhash v it e))
