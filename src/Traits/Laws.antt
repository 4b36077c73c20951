-- ===== src/Traits/Laws.antt =====
-- What a map shows after pairs are put into it one by one.
use pulse_map.Base.{
  ℕ, ◌/◌, ◌^◌, ◌≤◌, max, ◌≡◌, refl, sym, ap, ◌∙◌, arith, Bool, true, false, Bool-cases, Option,
  none, some, List, [], ◌∷◌, ◌>>=◌, Option-cases, ◌⊎◌, inl, inr, length, bytes_eq, if◌then◌else◌,
  eq_of_some,
}
use pulse_map.Codec.{PulseKey, PulseValue}
use pulse_map.Raw.History.{
  Op, insert_op, OpFits, run_op, Reaches, start, latest, Reaches-Tracks, Reaches-run,
}
use pulse_map.Raw.Invariant.{plain, stored, visible}
use pulse_map.Raw.Lookup.{peek-visible, visible-miss, visible-hit}
use pulse_map.Raw.{PulseMapRaw, is_stale}
use pulse_map.Raw
use pulse_map.Slab.Entry.{Fits}
use pulse_map.Traits.{extend, from_hashmap}
use pulse_map.Typed.{TypedPulseMap, new, insert, peek}

-- The first of two options that there is.
unfoldable pub or_else {ℓ} : {A : Type ℓ} → Option A → Option A → Option A
or_else (some a) other = some a
or_else none other = other

module _ {ℓ κ} (wyhash : List ℕ → ℕ) {K : Type ℓ} {V : Type κ} (key_codec : PulseKey K)
    (value_codec : PulseValue V) where
  -- The pairs fit, and their values read back.
  abbrev pub AllGood : List (K × V) → Type κ
  AllGood [] = Unit
  AllGood ((k, v) ∷ ps) =
      Fits (key_codec.to_bytes k) (value_codec.to_bytes v)
      × (value_codec.from_bytes (value_codec.to_bytes v) ≡ some v)
      × AllGood ps

  -- The value of the last pair whose key has these bytes.
  unfoldable pub last_value : List (K × V) → List ℕ → Option V
  last_value [] key = none
  last_value ((k, v) ∷ ps) key =
      or_else (last_value ps key) (if bytes_eq (key_codec.to_bytes k) key then some v else none)

  -- The pairs as operations after others, the latest first.
  unfoldable pub inserts : List (K × V) → List Op → List Op
  inserts [] ops = ops
  inserts ((k, v) ∷ ps) ops =
      inserts ps (insert_op (key_codec.to_bytes k) (value_codec.to_bytes v) 0 ∷ ops)

  settle :
      {B : Type 0} (f : V → B) (o : Option V) (t : Bool) (v : V) (rest : Option B)
      → or_else (o >>= (λ w. some (f w))) (if t then some (f v) else rest)
        ≡ or_else (or_else o (if t then some v else none) >>= (λ w. some (f w))) rest
  unfolding or_else
  settle f none true v rest = refl
  settle f none false v rest = refl
  settle f (some w) t v rest = refl

  latest-inserts :
      (ps : List (K × V)) (ops : List Op) (key : List ℕ)
      → latest (inserts ps ops) key
        ≡ or_else (last_value ps key >>= (λ w. some (value_codec.to_bytes w))) (latest ops key)
  unfolding latest last_value inserts or_else
  latest-inserts [] ops key = refl
  latest-inserts ((k, v) ∷ ps) ops key =
      latest-inserts ps (insert_op (key_codec.to_bytes k) (value_codec.to_bytes v) 0 ∷ ops) key
      ∙ settle value_codec.to_bytes (last_value ps key) (bytes_eq (key_codec.to_bytes k) key) v
          (latest ops key)

  last_value-good :
      (ps : List (K × V)) (key : List ℕ) (v : V)
      → AllGood ps
      → last_value ps key ≡ some v
      → value_codec.from_bytes (value_codec.to_bytes v) ≡ some v
  unfolding last_value or_else
  last_value-good [] key v good e = cc
  last_value-good ((k, w) ∷ ps) key v good e = elim (Option-cases (last_value ps key)) [
    | inr (u, there) ↦
        let same : u ≡ v = eq_of_some (rw there at e) in
        rw (sym same) (last_value-good ps key u good.2 there)
    | inl gone ↦ elim (Bool-cases (bytes_eq (key_codec.to_bytes k) key)) [
      | inl q ↦ let same : w ≡ v = eq_of_some (rw (gone, q) at e) in rw (sym same) good.1
      | inr q ↦ let never : none ≡ some v = rw (gone, q) at e in cc
    ]
  ]

  -- Insertions do not panic, and the map is then one that operations lead to.
  pub extend-Reaches :
      {n : ℕ} {ops : List Op} (m : TypedPulseMap) (ps : List (K × V))
      → n ≤ 2 ^ 57
      → Reaches wyhash n ops m.raw
      → AllGood ps
      → (m' : TypedPulseMap) × (extend wyhash key_codec value_codec m ps ≡ some m')
        × Reaches wyhash n (inserts ps ops) m'.raw
  unfolding extend inserts insert Raw.insert OpFits run_op
  extend-Reaches m [] small r good = (m, refl, r)
  extend-Reaches {n} {ops} m ((k, v) ∷ ps) small r good =
      let op = insert_op (key_codec.to_bytes k) (value_codec.to_bytes v) 0 in
      let (raw, runs, r') = Reaches-run wyhash small r op good.0 in
      let (m', rest, r'') =
        extend-Reaches {ops = op ∷ ops} (record { raw = raw }) ps small r' good.2 in
      (m', rw (runs, ◌>>=◌, rest), r'')

  fresh_value : {x y : List ℕ} (stale : Bool) → (if stale then none else some x) ≡ some y → x ≡ y
  fresh_value true e = cc
  fresh_value false e = eq_of_some e

  -- What such a map shows is the latest.
  shows-latest :
      {n : ℕ} {ops : List Op} {raw : PulseMapRaw} (key value : List ℕ)
      → n ≤ 2 ^ 57
      → Reaches wyhash n ops raw
      → visible wyhash plain raw key ≡ some value
      → latest ops key ≡ some value
  shows-latest {raw} key value small r shows =
      let t = Reaches-Tracks wyhash small r in
      elim (Option-cases (stored wyhash plain raw key)) [
        | inl gone ↦ let nothing = visible-miss wyhash plain t.valid key gone in cc
        | inr ((bytes, entry), there) ↦
            let same : bytes ≡ value =
              fresh_value (is_stale raw.default_ttl raw.current_epoch entry)
                (sym (visible-hit wyhash plain t.valid key there) ∙ shows) in
            t.agrees key bytes entry there ∙ ap some same
      ]

  -- If the latest value is that of a pair, it is read back.
  read_back :
      (ps : List (K × V)) (key value : List ℕ)
      → AllGood ps
      → latest (inserts ps []) key ≡ some value
      → (v : V) × (value_codec.from_bytes value ≡ some v) × (last_value ps key ≡ some v)
  unfolding latest or_else
  read_back ps key value good e = elim (Option-cases (last_value ps key)) [
    | inl gone ↦ let never : none ≡ some value = rw (latest-inserts ps [] key, gone) at e in cc
    | inr (v, there) ↦
        let same : value_codec.to_bytes v ≡ value =
          eq_of_some (rw (latest-inserts ps [] key, there) at e) in
        (v, rw (sym same) (last_value-good ps key v good there), there)
  ]

  -- `from` a `HashMap` whose pairs fit and whose values read back does not panic, in whatever order it yields
  -- them; and `peek` then shows, under each key, the value of the last pair with that key, or nothing. At most
  -- `2 ^ 57` pairs are given.
  pub from_hashmap-peek :
      (ps : List (K × V))
      → length ps ≤ 2 ^ 57
      → AllGood ps
      → (m : TypedPulseMap) × (from_hashmap wyhash key_codec value_codec ps ≡ some m)
        × ((key : K)
            → (peek wyhash key_codec value_codec m key ≡ some none)
              ⊎ ((v : V) × (peek wyhash key_codec value_codec m key ≡ some (some v))
                  × (last_value ps (key_codec.to_bytes key) ≡ some v)))
  unfolding from_hashmap new peek
  from_hashmap-peek ps small good =
      let n = max (length ps / 3) 16 in
      let few : n ≤ 2 ^ 57 = omega arith in
      let (m, runs, r) = extend-Reaches (new n) ps few start good in
      let sound = (Reaches-Tracks wyhash few r).valid in
      (
        m,
        runs,
        λ key. elim (Option-cases (visible wyhash plain m.raw (key_codec.to_bytes key))) [
          | inl nothing ↦
              inl (rw (peek-visible wyhash sound (key_codec.to_bytes key), ◌>>=◌, nothing))
          | inr (value, shows) ↦
              let (v, reads, last) =
                read_back ps (key_codec.to_bytes key) value good
                  (shows-latest (key_codec.to_bytes key) value few r shows) in
              inr (
                v,
                rw (peek-visible wyhash sound (key_codec.to_bytes key), ◌>>=◌, shows, reads),
                last,
              )
        ],
      )
