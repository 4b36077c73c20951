-- ===== src/Sync/Laws.antt =====
-- What the operations of a concurrent map show of one another: a new map is empty, and an insertion is seen.
use pulse_map.AccessBuffer.Refine.{new_buffer-Represents}
use pulse_map.Base.{
  ℕ, ◌^◌, ◌≤◌, max, ◌≡◌, ◌≢◌, ap, ◌∙◌, arith, Bool, none, some, List, false, if◌then◌else◌, [],
  add64, ◌⊎◌, inl, inr, Bool-cases,
}
use native.Mathlib.Nat.{pow-le-pow_right}
use pulse_map.Raw.Change.{resides}
use pulse_map.Raw.Invariant.{index}
use pulse_map.Raw.Lookup.{visible-hit}
use pulse_map.Raw.New.{IsLeast, next_power_of_two-IsLeast, start-IsValid, start-stored}
use pulse_map.Raw.{is_stale, next_power_of_two}
use pulse_map.Raw.Ttl.{fresh}
use pulse_map.Slab.Entry.{Fits}
use pulse_map.Sync.Insert.{CanGrow, Prepares, insert_bytes-Writes}
use pulse_map.Sync.Lookup.{peek_bytes-shows}
use pulse_map.Sync.Ops.{insert_bytes, peek_bytes}
use pulse_map.Sync.State.{ConcurrentPulseMap, with_config}
use pulse_map.Sync.View.{view, spread_by, IsConsistent, holds}
use pulse_map.Sync.Write.{Writes}

-- A new concurrent map, fixed or growing, of the low bits of the hash or of a shard, is consistent and holds
-- nothing, in the least power of two of buckets that is asked for, if at most `2 ^ 57` are asked for.
pub with_config-IsConsistent :
    (wyhash : List ℕ → ℕ) (n : ℕ) (auto_resize sharded : Bool)
    → n ≤ 2 ^ 57
    → IsConsistent wyhash (with_config n auto_resize sharded)
      × IsLeast 0 (max n 1) (with_config n auto_resize sharded).inner.num_buckets
      × ((key : List ℕ) → holds wyhash (with_config n auto_resize sharded) key ≡ none)
unfolding with_config
with_config-IsConsistent wyhash n auto_resize sharded small =
    let p = next_power_of_two-IsLeast (max n 1) (omega arith) in
    let actual = next_power_of_two (max n 1) in
    let bound : actual ≤ 2 ^ 57 = omega (
      arith,
      p.power,
      pow-le-pow_right {n = 2} (omega arith) (p.least 57 (omega arith) (omega arith)),
    ) in
    let (e, _, represents) = new_buffer-Represents 4096 (omega arith) in
    (
      record {
        table = start-IsValid wyhash (spread_by sharded) actual p.exponent p.power bound;
        exponent = e;
        taken = 0;
        queue = [];
        represents = represents;
        inside = tt;
      },
      p,
      start-stored wyhash (spread_by sharded) actual p.exponent p.power bound,
    )

-- The effect of an insertion on what the map holds, as it is seen from outside.
pub record Inserts (wyhash : List ℕ → ℕ) (m : ConcurrentPulseMap) (key value : List ℕ) (ttl : ℕ)
    (m' : ConcurrentPulseMap) : Type 0 where
  pub consistent : IsConsistent wyhash m'
  pub reads :
      holds wyhash m' key ≡ some (value, record { epoch = add64 m.current_epoch 1; ttl = ttl })
  pub others :
      (other : List ℕ)
      → other ≢ key
      → (holds wyhash m' other ≡ holds wyhash m other) ⊎ (holds wyhash m' other ≡ none)
  pub clock : (m'.current_epoch ≡ add64 m.current_epoch 1) × (m'.default_ttl ≡ m.default_ttl)

module _ (wyhash : List ℕ → ℕ) {m : ConcurrentPulseMap} (c : IsConsistent wyhash m)
    (few : CanGrow m) (key value : List ℕ) (fits : Fits key value) (ttl : ℕ) where
  written-Inserts :
      {before m' : ConcurrentPulseMap}
      → Prepares wyhash m before
      → Writes wyhash before key value ttl m'
      → Inserts wyhash m key value ttl m'
  written-Inserts {before} {m'} p w = record {
    consistent = w.consistent;
    reads =
        rw w.same_index w.places.reads
        ∙ ap (λ x. some (value, record { epoch = x; ttl = ttl })) p.clock.0;
    others = λ other ne.
        let spread = spread_by before.sharded_index in
        let place = index wyhash spread (view before) key in
        let after : holds wyhash m' other ≡ (
            if resides wyhash spread (view before) place w.slot other
            then none
            else holds wyhash before other) =
          rw w.same_index (w.places.others other ne) in
        elim (Bool-cases (resides wyhash spread (view before) place w.slot other)) [
          | inl q ↦ inr (after ∙ rw q)
          | inr q ↦ inl (after ∙ rw q (p.same other))
        ];
    clock = (w.places.clock.0 ∙ p.clock.0, w.places.clock.1 ∙ p.clock.1);
  }

  -- On a consistent map that can grow, an insertion of a pair that fits does not panic, whether the map grows or
  -- not. Afterwards the key holds the value, with the next epoch and the given TTL; each other key holds what
  -- it held, or nothing any more; the map is consistent.
  pub insert_bytes-Inserts :
      (m' : ConcurrentPulseMap) × (insert_bytes wyhash m key value ttl ≡ some m')
      × Inserts wyhash m key value ttl m'
  insert_bytes-Inserts =
      let (before, m', runs, p, w) = insert_bytes-Writes wyhash c few key value fits ttl in
      (m', runs, written-Inserts p w)

  -- The entry just written is not stale.
  peek-Inserts :
      {m' : ConcurrentPulseMap}
      → Inserts wyhash m key value ttl m'
      → peek_bytes wyhash m' key ≡ some (some value)
  peek-Inserts {m'} i =
      let now : is_stale m'.default_ttl m'.current_epoch
            (record { epoch = add64 m.current_epoch 1; ttl = ttl })
          ≡ false =
        rw (i.clock.0) (fresh m'.default_ttl (add64 m.current_epoch 1) ttl (omega arith)) in
      peek_bytes-shows wyhash i.consistent key
      ∙ ap some
          (visible-hit wyhash (spread_by m'.sharded_index) i.consistent.table key i.reads ∙ rw now)

  pub peek-insert_bytes :
      (m' : ConcurrentPulseMap) × (insert_bytes wyhash m key value ttl ≡ some m')
      × (peek_bytes wyhash m' key ≡ some (some value))
      × IsConsistent wyhash m'
  peek-insert_bytes =
      let (m', runs, i) = insert_bytes-Inserts in (m', runs, peek-Inserts i, i.consistent)
