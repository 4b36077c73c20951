-- ===== src/Typed/Laws.antt =====
-- The typed map and its entry API against what the map under them shows.
use pulse_map.Base.{ℕ, ◌≡◌, refl, Option, none, some, List, ◌>>=◌, Option-cases, inl, inr}
use pulse_map.Codec.{PulseKey, PulseValue}
use pulse_map.Raw.Invariant.{plain, IsValid, visible}
use pulse_map.Raw.Lookup.{peek-visible}
use pulse_map.Raw.Ttl.{peek-insert_internal}
use pulse_map.Raw
use pulse_map.Slab.Entry.{Fits}
use pulse_map.Typed.{
  TypedPulseMap, Entry, occupied, vacant, insert, insert_ttl, peek, entry, or_insert, and_modify,
}

module _ {ℓ κ} (wyhash : List ℕ → ℕ) {K : Type ℓ} {V : Type κ} (key_codec : PulseKey K)
    (value_codec : PulseValue V) {m : TypedPulseMap} (v : IsValid wyhash plain m.raw) (key : K)
    (value : V) (round_trip : value_codec.from_bytes (value_codec.to_bytes value) ≡ some value)
    (fits : Fits (key_codec.to_bytes key) (value_codec.to_bytes value)) where
  -- On a valid map, a value that reads back from its bytes is what `peek` finds after `insert_ttl`, for a pair
  -- whose bytes fit.
  pub peek-insert_ttl :
      (ttl : ℕ)
      → (m' : TypedPulseMap) × (insert_ttl wyhash key_codec value_codec m key value ttl ≡ some m')
        × (peek wyhash key_codec value_codec m' key ≡ some (some value))
  unfolding insert_ttl peek Raw.insert_ttl
  peek-insert_ttl ttl =
      let (raw, runs, seen) =
        peek-insert_internal wyhash v (key_codec.to_bytes key) (value_codec.to_bytes value) fits
          ttl in
      (record { raw = raw }, rw (runs, ◌>>=◌), rw (seen, ◌>>=◌, round_trip))

  -- What the map shows under the key, decoded.
  abbrev shown : Option V
  shown = visible wyhash plain m.raw (key_codec.to_bytes key) >>= value_codec.from_bytes

  -- On a valid map `entry` and then `or_insert` of a value that reads back run, and `peek` then shows the value
  -- that was there, or the new one if there was none.
  pub or_insert-entry :
      (e : Entry wyhash key_codec value_codec) × (m' : TypedPulseMap) × (entry wyhash key_codec
          value_codec m key
        ≡ some e)
      × (or_insert wyhash key_codec value_codec e value ≡ some m')
      × (peek wyhash key_codec value_codec m' key
          ≡ some (some (elim shown [ none ↦ value | some old ↦ old ])))
  unfolding entry or_insert insert peek Raw.insert
  or_insert-entry = elim (Option-cases shown) [
    | inr (old, there) ↦ (
      occupied (record { map = m; key = key; value = old }),
      m,
      rw (peek-visible wyhash v (key_codec.to_bytes key), ◌>>=◌, there),
      refl,
      rw (peek-visible wyhash v (key_codec.to_bytes key), ◌>>=◌, there),
    )
    | inl missing ↦
        let (raw, runs, seen) =
          peek-insert_internal wyhash v (key_codec.to_bytes key) (value_codec.to_bytes value) fits
            0 in
        (
          vacant (record { map = m; key = key }),
          record { raw = raw },
          rw (peek-visible wyhash v (key_codec.to_bytes key), ◌>>=◌, missing),
          rw (runs, ◌>>=◌),
          rw (seen, ◌>>=◌, round_trip, missing),
        )
  ]

  -- On a valid map `entry`, then `and_modify`, then `or_insert` run, as where a count is kept, and `peek` then
  -- shows what the function makes of the value that was there, or the new value if there was none. Both read
  -- back, and their bytes fit.
  pub or_insert-and_modify :
      (f : V → V)
      → ((old : V)
          → shown ≡ some old
          → (value_codec.from_bytes (value_codec.to_bytes (f old)) ≡ some (f old))
            × Fits (key_codec.to_bytes key) (value_codec.to_bytes (f old)))
      → (e : Entry wyhash key_codec value_codec) × (e' : Entry wyhash key_codec value_codec)
        × (m' : TypedPulseMap) × (entry wyhash key_codec value_codec m key ≡ some e)
        × (and_modify wyhash key_codec value_codec e f ≡ some e')
        × (or_insert wyhash key_codec value_codec e' value ≡ some m')
        × (peek wyhash key_codec value_codec m' key
            ≡ some (some (elim shown [ none ↦ value | some old ↦ f old ])))
  unfolding entry and_modify or_insert insert peek Raw.insert
  or_insert-and_modify f good = elim (Option-cases shown) [
    | inr (old, there) ↦
        let (reads, fits') = good old there in
        let (raw, runs, seen) =
          peek-insert_internal wyhash v (key_codec.to_bytes key) (value_codec.to_bytes (f old))
            fits' 0 in
        (
          occupied (record { map = m; key = key; value = old }),
          occupied (record { map = record { raw = raw }; key = key; value = f old }),
          record { raw = raw },
          rw (peek-visible wyhash v (key_codec.to_bytes key), ◌>>=◌, there),
          rw (runs, ◌>>=◌),
          refl,
          rw (seen, ◌>>=◌, reads, there),
        )
    | inl missing ↦
        let (raw, runs, seen) =
          peek-insert_internal wyhash v (key_codec.to_bytes key) (value_codec.to_bytes value) fits
            0 in
        (
          vacant (record { map = m; key = key }),
          vacant (record { map = m; key = key }),
          record { raw = raw },
          rw (peek-visible wyhash v (key_codec.to_bytes key), ◌>>=◌, missing),
          refl,
          rw (runs, ◌>>=◌),
          rw (seen, ◌>>=◌, round_trip, missing),
        )
  ]
