-- ===== src/Traits.antt =====
-- src/traits.rs: `Extend` and `From<HashMap>` for `TypedPulseMap`. An iterator is the list of what it yields;
-- a `HashMap` is the list of its pairs, in the order in which it yields them.
pub mod Laws
use pulse_map.Base.{ℕ, ◌/◌, max, Option, some, List, [], ◌∷◌, ◌>>=◌, length}
use pulse_map.Codec.{PulseKey, PulseValue}
use pulse_map.Typed.{TypedPulseMap, new, insert}

module _ {ℓ κ} (wyhash : List ℕ → ℕ) {K : Type ℓ} {V : Type κ} (key_codec : PulseKey K)
    (value_codec : PulseValue V) where
  unfoldable pub extend : TypedPulseMap → List (K × V) → Option TypedPulseMap
  extend m [] = some m
  extend m ((k, v) ∷ iter) = do m' ← insert wyhash key_codec value_codec m k v; extend m' iter

  -- `TypedPulseMap::from`; its loop is that of `extend`.
  unfoldable pub from_hashmap : List (K × V) → Option TypedPulseMap
  unfolding extend
  from_hashmap map = let num_buckets = max (length map / 3) 16 in extend (new num_buckets) map
