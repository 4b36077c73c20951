-- ===== src/Sync/Deferred.antt =====
-- The deferred accesses, which an insertion applies before it looks for its key: no entry changes.
use pulse_map.AccessBuffer.Queue.{Represents}
use pulse_map.AccessBuffer.Refine.{run_all, drain-run_all}
use pulse_map.Base.{
  ℕ, zero, suc, ◌<◌, ◌≡◌, refl, arith, some, List, [], ◌∷◌, ◌>>=◌, take, drop, get_elem?-of_lt,
  set_elem?-of_lt, length,
}
use pulse_map.Bucket.Touch.{accessed}
use pulse_map.Bucket.{Bucket}
use pulse_map.Raw.Invariant.{IsValid}
use pulse_map.Raw.Keep.{Keeps, Keeps-refl, Keeps-trans, accessed-Keeps}
use pulse_map.Raw.{PulseMapRaw}
use pulse_map.Sync.Ops.{drain_batch, apply_access, apply_deferred}
use pulse_map.Sync.State.{ConcurrentPulseMap}
use pulse_map.Sync.View.{view, spread_by, Inside, IsConsistent}

Inside-take : (n left : ℕ) (q : List (ℕ × ℕ)) → Inside n q → Inside n (take left q)
unfolding take
Inside-take n zero q h = tt
Inside-take n (suc left) [] h = tt
Inside-take n (suc left) (a ∷ q) h = (h.0, h.1, Inside-take n left q h.2)

Inside-drop : (n left : ℕ) (q : List (ℕ × ℕ)) → Inside n q → Inside n (drop left q)
unfolding drop
Inside-drop n zero q h = h
Inside-drop n (suc left) [] h = tt
Inside-drop n (suc left) (a ∷ q) h = Inside-drop n left q h.2

module _ (wyhash : List ℕ → ℕ) (spread : ℕ → ℕ) where
  abbrev with_buckets : PulseMapRaw → List Bucket → PulseMapRaw
  with_buckets m bs = record m { buckets = bs }

  apply_access-Keeps :
      {m : PulseMapRaw} (v : IsValid wyhash spread m) (bucket slot : ℕ)
      → bucket < m.num_buckets
      → slot < 4
      → (bs : List Bucket) × (apply_access m.buckets bucket slot ≡ some bs)
        × Keeps wyhash spread m (with_buckets m bs)
  unfolding apply_access
  apply_access-Keeps {m} v bucket slot hb hs =
      let inside : bucket < length m.buckets = omega (arith, v.width) in
      let (b, at) = get_elem?-of_lt m.buckets bucket inside in
      (
        _,
        rw (at, ◌>>=◌, set_elem?-of_lt m.buckets bucket (accessed b slot) inside),
        accessed-Keeps wyhash spread v bucket slot b at hs,
      )

  -- Any number of accesses leaves every entry alone.
  run_all-Keeps :
      (q : List (ℕ × ℕ)) {m : PulseMapRaw} (v : IsValid wyhash spread m)
      → Inside m.num_buckets q
      → (bs : List Bucket) × (run_all apply_access q m.buckets ≡ some bs)
        × Keeps wyhash spread m (with_buckets m bs)
  unfolding run_all
  run_all-Keeps [] {m} v h = (m.buckets, refl, Keeps-refl wyhash spread v)
  run_all-Keeps ((bucket, slot) ∷ q) {m} v h =
      let (bs, one, keeps) = apply_access-Keeps v bucket slot h.0 h.1 in
      let (bs', rest, more) = run_all-Keeps q keeps.valid h.2 in
      (bs', rw (one, ◌>>=◌) rest, Keeps-trans wyhash spread keeps more)

-- What the batch does to the buckets: the oldest accesses that wait, at most `drain_batch` of them, are applied
-- in order, each by `on_access` of its slot; the pool, the TTL records and the size are left alone.
pub record Drains (m m' : ConcurrentPulseMap) : Type 0 where
  pub exponent : ℕ
  pub taken : ℕ
  pub waiting : List (ℕ × ℕ)
  pub represents : Represents exponent taken waiting m.access_buffer
  pub touched :
      run_all apply_access (take drain_batch waiting) m.inner.buckets ≡ some m'.inner.buckets
  pub rest : m'.inner ≡ record m.inner { buckets = m'.inner.buckets }

-- On a consistent map, the batch of deferred accesses is applied without a panic, and no entry, count or
-- clock changes.
pub apply_deferred-Keeps :
    (wyhash : List ℕ → ℕ) {m : ConcurrentPulseMap}
    → IsConsistent wyhash m
    → (m' : ConcurrentPulseMap) × (apply_deferred wyhash m ≡ some m')
      × Keeps wyhash (spread_by m.sharded_index) (view m) (view m')
      × (m'.sharded_index ≡ m.sharded_index)
      × IsConsistent wyhash m'
      × Drains m m'
unfolding apply_deferred
apply_deferred-Keeps wyhash {m} c =
    let spread = spread_by m.sharded_index in
    let n = m.inner.num_buckets in
    let (bs, runs, keeps) =
      run_all-Keeps wyhash spread (take drain_batch c.queue) c.table
        (Inside-take n drain_batch c.queue c.inside) in
    let (taken', q', drains, r) =
      drain-run_all apply_access drain_batch c.queue m.inner.buckets c.represents runs in
    (
      record m { inner = record m.inner { buckets = bs }; access_buffer = q' },
      rw (drains, ◌>>=◌),
      keeps,
      refl,
      record {
        table = keeps.valid;
        exponent = c.exponent;
        taken = taken';
        queue = drop drain_batch c.queue;
        represents = r;
        inside = Inside-drop n drain_batch c.queue c.inside;
      },
      record {
        exponent = c.exponent;
        taken = c.taken;
        waiting = c.queue;
        represents = c.represents;
        touched = runs;
        rest = refl;
      },
    )
