-- ===== src/Sync/Insert.antt =====
-- `insert_internal` of a concurrent map: the growth, the deferred accesses, and the write.
use pulse_map.Base.{
  ℕ, ◌*◌, ◌^◌, ◌≤◌, ◌<◌, max, ◌≡◌, true, false, ◌⊎◌, refl, ap, ◌∙◌, arith, ◌&&◌, some, List, ltb,
  add64, ◌>>=◌, Option-cases, Bool-cases, inl, inr,
}
use pulse_map.Bucket.Entries.{position, get_elem?-slot_of}
use pulse_map.Raw.Invariant.{stored-reclocked, ticked-IsValid}
use pulse_map.Raw.Lookup.{home, home-IsSound, hit}
use pulse_map.Raw.{next_power_of_two}
use pulse_map.Slab.Entry.{Fits}
use pulse_map.Sync.Deferred.{Drains, apply_deferred-Keeps}
use pulse_map.Sync.Ops.{grow, apply_deferred, insert_bytes}
use pulse_map.Sync.Resize.Laws.{Preserves, resize-Preserves}
use pulse_map.Sync.State.{ConcurrentPulseMap}
use pulse_map.Sync.View.{view, spread_by, IsConsistent, holds, locate_lem}
use pulse_map.Sync.Write.{Writes, update-Writes, add_entry-Writes}

-- A table of at most `2 ^ 56` buckets can double; a larger one does not fit into memory.
abbrev pub CanGrow : ConcurrentPulseMap → Type 0
CanGrow m = m.inner.num_buckets ≤ 2 ^ 56

-- The clock is advanced by one.
abbrev pub clocked : ConcurrentPulseMap → ConcurrentPulseMap
clocked m = record m { current_epoch = add64 m.current_epoch 1 }

-- The growth: a map that may grow and is more than three quarters full doubles; any other stays as it is.
pub record Grows (wyhash : List ℕ → ℕ) (m grown : ConcurrentPulseMap) : Type 0 where
  pub runs : grow wyhash m ≡ some grown
  pub doubled :
      m.auto_resize ≡ true
      → 3 * (m.inner.num_buckets * 4) < 4 * m.count
      → grown.inner.num_buckets
        ≡ max m.inner.num_buckets (next_power_of_two (max (m.inner.num_buckets * 2) 1))
  pub kept : (m.auto_resize ≡ false) ⊎ (4 * m.count ≤ 3 * (m.inner.num_buckets * 4)) → grown ≡ m

-- The state `before` that the code has when it looks for the slot: the map has grown, if it had to, the clock
-- has advanced, and the deferred accesses have been applied to the priorities. It holds the same entries.
pub record Prepares (wyhash : List ℕ → ℕ) (m before : ConcurrentPulseMap) : Type 0 where
  pub grown : ConcurrentPulseMap
  pub grows : Grows wyhash m grown
  pub applies : apply_deferred wyhash (clocked grown) ≡ some before
  pub drains : Drains (clocked grown) before
  pub consistent : IsConsistent wyhash before
  pub same : (key : List ℕ) → holds wyhash before key ≡ holds wyhash m key
  pub count : before.count ≡ m.count
  pub evictions : before.eviction_count ≡ m.eviction_count
  pub clock :
      (before.current_epoch ≡ add64 m.current_epoch 1) × (before.default_ttl ≡ m.default_ttl)
  pub kind : before.sharded_index ≡ m.sharded_index

module _ (wyhash : List ℕ → ℕ) {m : ConcurrentPulseMap} (c : IsConsistent wyhash m)
    (few : CanGrow m) where
  unchanged : Preserves wyhash m m
  unchanged = record {
    consistent = c;
    same = λ _. refl;
    count = refl;
    evictions = refl;
    clock = (refl, refl);
    kind = (refl, refl);
  }

  grow-Preserves : (m' : ConcurrentPulseMap) × Grows wyhash m m' × Preserves wyhash m m'
  unfolding grow
  grow-Preserves =
      let loaded = m.auto_resize && ltb (3 * (m.inner.num_buckets * 4)) (4 * m.count) in
      elim (Bool-cases loaded) [
        | inl e ↦
            let (m', runs, p, size) =
              resize-Preserves wyhash c (m.inner.num_buckets * 2) (omega arith) in
            (
              m',
              record {
                runs = rw e runs;
                doubled = λ auto full. size;
                kept = λ why. ground (arith, e, why);
              },
              p,
            )
        | inr e ↦ (
          m,
          record {
            runs = rw e;
            doubled = λ auto full. ground (arith, e, auto, full);
            kept = λ _. refl;
          },
          unchanged,
        )
      ]

  clocked-IsConsistent :
      {m₁ : ConcurrentPulseMap} → IsConsistent wyhash m₁ → IsConsistent wyhash (clocked m₁)
  clocked-IsConsistent {m₁} c₁ = record {
    table = ticked-IsValid wyhash (spread_by m₁.sharded_index) c₁.table;
    exponent = c₁.exponent;
    taken = c₁.taken;
    queue = c₁.queue;
    represents = c₁.represents;
    inside = c₁.inside;
  }

  -- The steps before the slot is looked for.
  prepare : (before : ConcurrentPulseMap) × Prepares wyhash m before
  prepare =
      let (grown, grows, p) = grow-Preserves in
      let (before, applies, k, kind, c', drains) =
        apply_deferred-Keeps wyhash (clocked-IsConsistent p.consistent) in
      (
        before,
        record {
          grown = grown;
          grows = grows;
          applies = applies;
          drains = drains;
          consistent = c';
          same = λ key.
              rw kind (k.same key)
              ∙ stored-reclocked wyhash (spread_by grown.sharded_index) (view grown)
                  grown.eviction_count (add64 grown.current_epoch 1) grown.default_ttl key
              ∙ p.same key;
          count = k.count ∙ p.count;
          evictions = k.evictions ∙ p.evictions;
          clock = (k.clock.0 ∙ ap (λ x. add64 x 1) p.clock.0, k.clock.1 ∙ p.clock.1);
          kind = kind ∙ p.kind.0;
        },
      )

  -- On a consistent map of at most `2 ^ 56` buckets, an insertion of a pair whose lengths fit in 32 bits does not
  -- panic. First the map grows, exactly if it may and is more than three quarters full, the clock advances by
  -- one, and the accesses that wait, at most 64 of them, are applied to the priorities, the oldest first: this
  -- is the state that `grow` and `apply_deferred` give, and it holds the same entries. Then one slot of the key's
  -- bucket there is written, with its TTL record, and no other slot: that of the key, or the first free one,
  -- or, only if all four are full, the first of the least priority that the accesses have left. Afterwards the
  -- key holds the value with the new epoch and the given TTL, every key that did not live in that slot holds
  -- what it held, and the map is consistent.
  pub insert_bytes-Writes :
      (key value : List ℕ)
      → Fits key value
      → (ttl : ℕ)
      → (before m' : ConcurrentPulseMap) × (insert_bytes wyhash m key value ttl ≡ some m')
        × Prepares wyhash m before
        × Writes wyhash before key value ttl m'
  unfolding insert_bytes
  insert_bytes-Writes key value fits ttl =
      let (before, p) = prepare in
      let grows = p.grows.runs in
      let applies = p.applies in
      let t = p.consistent.table in
      let spread = spread_by before.sharded_index in
      let b = home wyhash spread t key in
      elim (Option-cases (position before.inner.slab_pool b key)) [
        | inl e ↦
            let (m', runs, w) = add_entry-Writes wyhash p.consistent key value fits ttl e in
            (before, m', rw (grows, ◌>>=◌, applies, locate_lem wyhash before t key, e) runs, p, w)
        | inr (i, e) ↦
            let (m₁, m', one, two, w) = update-Writes wyhash p.consistent key value fits ttl i e in
            let h = hit wyhash spread t key e in
            let four = (home-IsSound wyhash spread t key).four in
            (
              before,
              m',
              rw (
                grows,
                ◌>>=◌,
                applies,
                locate_lem wyhash before t key,
                e,
                get_elem?-slot_of b i four h.below,
                one,
                two,
              ),
              p,
              w,
            )
      ]
