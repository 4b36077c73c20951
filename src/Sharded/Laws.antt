-- ===== src/Sharded/Laws.antt =====
-- The sharded map: each operation runs on the shard of its key and leaves the other shards alone.
use pulse_map.Base.{
  ℕ, ◌/◌, ◌≤◌, ◌<◌, ◌^◌, ◌≡◌, ◌≢◌, sym, ◌∙◌, arith, Bool, true, false, Option, none, some, List,
  length, length-set, length-replicate, replicate, set, get_elem?, get_elem?-of_lt, set_elem?,
  get_elem?-set, get_elem?-replicate, lt_of_get_elem?, set_elem?-of_lt, bit_and_mask, eq_of_some,
  subst, ◌>>=◌,
}
use native.Mathlib.Decide.{ℕ_discrete}
use pulse_map.Codec.{PulseKey, PulseValue}
use pulse_map.Hash.{compute_hash}
use pulse_map.Raw.Clear.{is_some}
use pulse_map.Raw.Lookup.{visible-miss}
use pulse_map.Raw.{SlotTtl}
use pulse_map.Sharded.{ShardedPulseMap, shard_for, shard_of, new, insert_ttl, peek, remove}
use pulse_map.Slab.Entry.{Fits}
use pulse_map.Sync.Insert.{CanGrow}
use pulse_map.Sync.Laws.{peek-insert_bytes, with_config-IsConsistent}
use pulse_map.Sync.Lookup.{peek_bytes-shows, remove_bytes-Removes}
use pulse_map.Sync.Ops
use pulse_map.Sync.State.{ConcurrentPulseMap, new_shard}
use pulse_map.Sync.View.{IsConsistent, shows, holds, spread_by}

module _ (wyhash : List ℕ → ℕ) where
  pub record AllConsistent (m : ShardedPulseMap) : Type 0 where
    pub sixteen : length m.shards ≡ 16
    pub shard :
        (i : ℕ) (s : ConcurrentPulseMap) → get_elem? m.shards i ≡ some s → IsConsistent wyhash s

  -- What the shard of a key holds under it, expired or not.
  abbrev pub held : ShardedPulseMap → List ℕ → Option (List ℕ × SlotTtl)
  held m key = get_elem? m.shards (shard_for wyhash key) >>= λ s. holds wyhash s key

  pub shard_for-lt : (key : List ℕ) → shard_for wyhash key < 16
  unfolding shard_for
  shard_for-lt key = omega (arith, bit_and_mask 4 ((compute_hash wyhash key).h1 / 2 ^ 14))

  -- A new sharded map has 16 consistent shards.
  pub new-AllConsistent : (n : ℕ) → n ≤ 2 ^ 57 → AllConsistent (new n)
  unfolding new new_shard
  new-AllConsistent n small = record {
    sixteen = length-replicate 16 (new_shard n false);
    shard = λ i s at.
        let inside : i < 16 = omega (
          arith,
          lt_of_get_elem? (replicate 16 (new_shard n false)) i at,
          length-replicate 16 (new_shard n false),
        ) in
        let same : new_shard n false ≡ s =
          eq_of_some (sym (get_elem?-replicate 16 i (new_shard n false) inside) ∙ at) in
        subst (IsConsistent wyhash) same (with_config-IsConsistent wyhash n false true small).0;
  }

  module _ {m : ShardedPulseMap} (c : AllConsistent m) (i : ℕ) (bi : i < 16) where
    inside : i < length m.shards
    inside = omega (arith, c.sixteen)

    pub shard_at :
        (s : ConcurrentPulseMap) × (get_elem? m.shards i ≡ some s) × IsConsistent wyhash s
    shard_at = let (s, at) = get_elem?-of_lt m.shards i inside in (s, at, c.shard i s at)

    -- The map with one shard replaced.
    abbrev pub with_shard : ConcurrentPulseMap → ShardedPulseMap
    with_shard s = record { shards = set m.shards i s }

    pub with_shard-AllConsistent :
        (s : ConcurrentPulseMap) → IsConsistent wyhash s → AllConsistent (with_shard s)
    with_shard-AllConsistent s consistent = record {
      sixteen = length-set m.shards i s ∙ c.sixteen;
      shard = λ j d at. elim (ℕ_discrete i j) [
        | yes e ↦
            let same : s ≡ d = eq_of_some (sym (here j e) ∙ at) in
            subst (IsConsistent wyhash) same consistent
        | no ne ↦ c.shard j d (sym (there j ne) ∙ at)
      ];
    }
      where
        here : (j : ℕ) → i ≡ j → get_elem? (set m.shards i s) j ≡ some s
        here j e = get_elem?-set m.shards i j s inside ∙ ground arith

        there : (j : ℕ) → i ≢ j → get_elem? (set m.shards i s) j ≡ get_elem? m.shards j
        there j ne = get_elem?-set m.shards i j s inside ∙ ground arith

    pub with_shard-here : (s : ConcurrentPulseMap) → get_elem? (with_shard s).shards i ≡ some s
    with_shard-here s = get_elem?-set m.shards i i s inside ∙ ground arith

    pub with_shard-there :
        (s : ConcurrentPulseMap) (j : ℕ)
        → j ≢ i
        → get_elem? (with_shard s).shards j ≡ get_elem? m.shards j
    with_shard-there s j ne = get_elem?-set m.shards i j s inside ∙ ground arith

    pub set_shard : (s : ConcurrentPulseMap) → set_elem? m.shards i s ≡ some (set m.shards i s)
    set_shard s = set_elem?-of_lt m.shards i s inside

module _ {ℓ κ} (wyhash : List ℕ → ℕ) {K : Type ℓ} {V : Type κ} (key_codec : PulseKey K)
    (value_codec : PulseValue V) {m : ShardedPulseMap} (c : AllConsistent wyhash m) (key : K) where
  abbrev bytes : List ℕ
  bytes = key_codec.to_bytes key

  abbrev k : ℕ
  k = shard_for wyhash bytes

  -- Keys of other shards see nothing of a change of this one.
  other_peek :
      (s : ConcurrentPulseMap) (other : K)
      → shard_of wyhash key_codec value_codec other ≢ k
      → peek wyhash key_codec value_codec
          (with_shard wyhash c k (shard_for-lt wyhash bytes) s)
          other
        ≡ peek wyhash key_codec value_codec m other
  unfolding peek
  other_peek s other ne = rw (
      with_shard-there wyhash c k (shard_for-lt wyhash bytes) s
        (shard_of wyhash key_codec value_codec other) ne)

  -- On a sharded map whose shards are consistent and can grow, an insertion of a pair that fits and whose value
  -- reads back does not panic; the next `peek` of the key shows the value, `peek` of any key of another shard
  -- shows what it showed, and the shards are consistent.
  pub peek-insert_ttl_sharded :
      (value : V)
      → value_codec.from_bytes (value_codec.to_bytes value) ≡ some value
      → Fits bytes (value_codec.to_bytes value)
      → ((s : ConcurrentPulseMap) → get_elem? m.shards k ≡ some s → CanGrow s)
      → (ttl : ℕ)
      → (m' : ShardedPulseMap) × (insert_ttl wyhash key_codec value_codec m key value ttl ≡ some m')
        × (peek wyhash key_codec value_codec m' key ≡ some (some value))
        × ((other : K)
            → shard_of wyhash key_codec value_codec other ≢ k
            → peek wyhash key_codec value_codec m' other
              ≡ peek wyhash key_codec value_codec m other)
        × AllConsistent wyhash m'
  unfolding insert_ttl peek shard_of Ops.insert_ttl Ops.insert_internal Ops.peek
  peek-insert_ttl_sharded value round_trip fits few ttl =
      let bk = shard_for-lt wyhash bytes in
      let (s, at, consistent) = shard_at wyhash c k bk in
      let (s', runs, seen, after) =
        peek-insert_bytes wyhash consistent (few s at) bytes (value_codec.to_bytes value) fits
          ttl in
      (
        with_shard wyhash c k bk s',
        rw (at, ◌>>=◌, runs, set_shard wyhash c k bk s'),
        rw (with_shard-here wyhash c k bk s', ◌>>=◌, seen, round_trip),
        other_peek s',
        with_shard-AllConsistent wyhash c k bk s' after,
      )

  -- On a sharded map whose shards are consistent, `remove` does not panic and answers whether the shard of the
  -- key holds it; afterwards `peek` of the key shows nothing, `peek` of any key of another shard shows what it
  -- showed, and the shards are consistent.
  pub remove-sharded :
      (found : Bool) × (m' : ShardedPulseMap) × (remove wyhash key_codec value_codec m key
        ≡ some (found, m'))
      × (found ≡ is_some (held wyhash m bytes))
      × (peek wyhash key_codec value_codec m' key ≡ some none)
      × ((other : K)
          → shard_of wyhash key_codec value_codec other ≢ k
          → peek wyhash key_codec value_codec m' other ≡ peek wyhash key_codec value_codec m other)
      × AllConsistent wyhash m'
  unfolding remove peek shard_of Ops.remove Ops.peek
  remove-sharded =
      let bk = shard_for-lt wyhash bytes in
      let (s, at, consistent) = shard_at wyhash c k bk in
      let (found, s', runs, r, kind, after) = remove_bytes-Removes wyhash consistent bytes in
      let gone : shows wyhash s' bytes ≡ none =
        visible-miss wyhash (spread_by s'.sharded_index) after.table bytes (rw kind r.gone) in
      (
        found,
        with_shard wyhash c k bk s',
        rw (at, ◌>>=◌, runs, set_shard wyhash c k bk s'),
        rw (at, ◌>>=◌) r.reports,
        rw (with_shard-here wyhash c k bk s', ◌>>=◌, peek_bytes-shows wyhash after bytes, gone),
        other_peek s',
        with_shard-AllConsistent wyhash c k bk s' after,
      )
