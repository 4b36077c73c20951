-- ===== src/Typed.antt =====
-- src/lib.rs: `TypedPulseMap`, a map of typed pairs over `PulseMapRaw`, and its entry API. A method on
-- `&mut self` returns the new map, and so does `get`. `none` is a panic.
pub mod Laws
use pulse_map.Base.{ℕ, Bool, true, false, Option, none, some, List, ◌>>=◌}
use pulse_map.Codec.{PulseKey, PulseValue}
use pulse_map.Iter.{RawIter, raw_iter}
use pulse_map.Raw.{PulseMapRaw}
use pulse_map.Raw
use pulse_map.Raw.Clear.{is_some}

pub record TypedPulseMap : Type 0 where
  pub raw : PulseMapRaw

unfoldable pub new : ℕ → TypedPulseMap
new num_buckets = record { raw = Raw.new num_buckets }

module _ {ℓ κ} (wyhash : List ℕ → ℕ) {K : Type ℓ} {V : Type κ} (key_codec : PulseKey K)
    (value_codec : PulseValue V) where
  unfoldable pub insert : TypedPulseMap → K → V → Option TypedPulseMap
  insert m key value = do
    let kb = key_codec.to_bytes key
    let vb = value_codec.to_bytes value
    raw ← Raw.insert wyhash m.raw kb vb
    some (record { raw = raw })

  unfoldable pub insert_ttl : TypedPulseMap → K → V → ℕ → Option TypedPulseMap
  insert_ttl m key value ttl = do
    let kb = key_codec.to_bytes key
    let vb = value_codec.to_bytes value
    raw ← Raw.insert_ttl wyhash m.raw kb vb ttl
    some (record { raw = raw })

  unfoldable pub get : TypedPulseMap → K → Option (Option V × TypedPulseMap)
  get m key = do
    (found, raw) ← Raw.get wyhash m.raw (key_codec.to_bytes key)
    some (found >>= value_codec.from_bytes, record { raw = raw })

  unfoldable pub peek : TypedPulseMap → K → Option (Option V)
  peek m key = do
    found ← Raw.peek wyhash m.raw (key_codec.to_bytes key)
    some (found >>= value_codec.from_bytes)

  unfoldable pub remove : TypedPulseMap → K → Option (Bool × TypedPulseMap)
  remove m key = do
    (found, raw) ← Raw.remove wyhash m.raw (key_codec.to_bytes key)
    some (found, record { raw = raw })

  unfoldable pub contains_key : TypedPulseMap → K → Option Bool
  contains_key m key = do
    found ← Raw.peek wyhash m.raw (key_codec.to_bytes key)
    some (is_some found)

  -- `OccupiedEntry` and `VacantEntry`; the map that they borrow is a field.
  pub record OccupiedEntry : Type (ℓ ⊔ κ) where
    pub map : TypedPulseMap
    pub key : K
    pub value : V

  pub record VacantEntry : Type ℓ where
    pub map : TypedPulseMap
    pub key : K

  pub data Entry : Type (ℓ ⊔ κ) where
    occupied : OccupiedEntry → Entry
    vacant : VacantEntry → Entry

  -- `TypedPulseMap::entry`
  unfoldable pub entry : TypedPulseMap → K → Option Entry
  entry m key = do
    existing ← Raw.peek wyhash m.raw (key_codec.to_bytes key)
    elim (existing >>= value_codec.from_bytes) [
      | some val ↦ some (occupied (record { map = m; key = key; value = val }))
      | none ↦ some (vacant (record { map = m; key = key }))
    ]

  -- The map that an entry borrows is free again afterwards.
  unfoldable pub or_insert : Entry → V → Option TypedPulseMap
  unfolding insert
  or_insert (vacant e) default = insert e.map e.key default
  or_insert (occupied e) default = some e.map

  unfoldable pub or_insert_with : Entry → (Unit {0} → V) → Option TypedPulseMap
  unfolding insert
  or_insert_with (vacant e) f = insert e.map e.key (f tt)
  or_insert_with (occupied e) f = some e.map

  unfoldable pub and_modify : Entry → (V → V) → Option Entry
  and_modify (occupied e) f = do
    let value = f e.value
    let kb = key_codec.to_bytes e.key
    let vb = value_codec.to_bytes value
    raw ← Raw.insert wyhash e.map.raw kb vb
    some (occupied (record { map = record { raw = raw }; key = e.key; value = value }))
  and_modify (vacant e) f = some (vacant e)

  unfoldable pub insert_occupied : OccupiedEntry → V → Option (V × TypedPulseMap)
  unfolding insert
  insert_occupied e value = do map ← insert e.map e.key value; some (e.value, map)

  unfoldable pub remove_occupied : OccupiedEntry → Option (V × TypedPulseMap)
  unfolding remove
  remove_occupied e = do (_, map) ← remove e.map e.key; some (e.value, map)

  unfoldable pub insert_vacant : VacantEntry → V → Option TypedPulseMap
  unfolding insert
  insert_vacant e value = insert e.map e.key value

-- `iter`, and the methods that pass on those of the raw map.
unfoldable pub iter : TypedPulseMap → RawIter
iter m = raw_iter

unfoldable pub len : TypedPulseMap → ℕ
len m = Raw.len m.raw

unfoldable pub is_empty : TypedPulseMap → Bool
is_empty m = Raw.is_empty m.raw

unfoldable pub capacity : TypedPulseMap → ℕ
capacity m = Raw.capacity m.raw

unfoldable pub eviction_count : TypedPulseMap → ℕ
eviction_count m = Raw.eviction_count m.raw

unfoldable pub set_ttl : TypedPulseMap → ℕ → TypedPulseMap
set_ttl m ttl_epochs = record { raw = Raw.set_ttl m.raw ttl_epochs }

unfoldable pub get_ttl : TypedPulseMap → ℕ
get_ttl m = Raw.get_ttl m.raw

unfoldable pub current_epoch : TypedPulseMap → ℕ
current_epoch m = Raw.current_epoch m.raw
