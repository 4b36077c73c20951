-- ===== src/Sync/Resize/Laws.antt =====
-- `resize` as a whole: the map afterwards holds what it held, in the number of buckets that is asked for.
use pulse_map.AccessBuffer.Cells.{power_dvd}
use pulse_map.AccessBuffer.Queue.{Represents}
use pulse_map.AccessBuffer.Refine.{run_all, drain-run_all}
use pulse_map.AccessBuffer.{AccessBuffer, clear}
use pulse_map.Base.{
  ℕ, zero, suc, ◌-◌, ◌%◌, ◌^◌, ◌≤◌, ◌<◌, max, ◌≡◌, refl, sym, ap, subst, ◌∙◌, arith, none, some,
  List, [], ◌∷◌, leb, length, bit_and, bit_and_mask, drop, ◌>>=◌, Bool-cases, inl, inr,
}
use native.Mathlib.Decide.{dec_le}
use native.Mathlib.Nat.{mod-mod_of_dvd, pow-le-pow_right}
use pulse_map.Bucket.Fill.{occupied}
use pulse_map.Hash.{compute_hash}
use pulse_map.Raw.Invariant.{index, IsValid, stored, reclocked-IsValid, stored-reclocked}
use pulse_map.Raw.New.{next_power_of_two-IsLeast, start-IsValid, start-stored}
use pulse_map.Raw.{next_power_of_two}
use pulse_map.Sync.Resize.Gather.{Collects, collect-Collects}
use pulse_map.Sync.Resize.Refill.{as_table, slot_home, Fills, rehash_all-Fills}
use pulse_map.Sync.Resize.Room.{full_at-empty}
use pulse_map.Sync.Resize.{EntryData, Rehash, empty_rehash, retry, resize}
use pulse_map.Sync.State.{ConcurrentPulseMap}
use pulse_map.Sync.View.{view, spread_by, IsConsistent, holds}

-- The effect of a resize on everything but the layout.
pub record Preserves (wyhash : List ℕ → ℕ) (m m' : ConcurrentPulseMap) : Type 0 where
  pub consistent : IsConsistent wyhash m'
  pub same : (key : List ℕ) → holds wyhash m' key ≡ holds wyhash m key
  pub count : m'.count ≡ m.count
  pub evictions : m'.eviction_count ≡ m.eviction_count
  pub clock : (m'.current_epoch ≡ m.current_epoch) × (m'.default_ttl ≡ m.default_ttl)
  pub kind : (m'.sharded_index ≡ m.sharded_index) × (m'.auto_resize ≡ m.auto_resize)

run_nothing : (q : List (ℕ × ℕ)) → run_all (λ (s : Unit) _ _. some s) q tt ≡ some tt
unfolding run_all
run_nothing [] = refl
run_nothing (a ∷ q) = run_nothing q

drop-all : (n : ℕ) (q : List (ℕ × ℕ)) → length q ≤ n → drop n q ≡ []
unfolding drop
drop-all zero [] h = refl
drop-all (suc n) [] h = refl
drop-all zero (a ∷ q) h = absurd (omega arith)
drop-all (suc n) (a ∷ q) h = drop-all n q (omega arith)

-- `clear` empties the queue.
pub clear-Represents :
    {e t : ℕ} {q : List (ℕ × ℕ)} {b : AccessBuffer}
    → Represents e t q b
    → (t' : ℕ) × (b' : AccessBuffer) × (clear b ≡ some b') × Represents e t' [] b'
unfolding clear
clear-Represents {e} {t} {q} {b} r =
    let (t', b', runs, r') =
      drain-run_all (λ (s : Unit) _ _. some s) (length b.buffer) q tt r (run_nothing _) in
    (
      t',
      b',
      rw (runs, ◌>>=◌),
      subst (λ x. Represents e t' x b')
          (drop-all (length b.buffer) q (omega (arith, r.bounded, r.size))) r',
    )

-- The bucket under a longer mask determines that under a shorter one.
refined : (e e' hash n : ℕ) → e ≤ e' → hash % 2 ^ e' ≡ n → hash % 2 ^ e ≡ n % 2 ^ e
refined e e' hash n le h =
    sym (mod-mod_of_dvd (2 ^ e) hash (power_dvd (e' - e) e e' (omega arith)))
    ∙ ap (λ x. x % 2 ^ e) h

shorter : (e e' : ℕ) → 2 ^ e < 2 ^ e' → e ≤ e'
shorter e e' h = elim (dec_le e e') [
  | yes le ↦ le
  | no gt ↦
      let lower : e' ≤ e = omega arith in
      absurd (omega (arith, pow-le-pow_right {n = 2} (omega arith) lower))
]

module _ (wyhash : List ℕ → ℕ) {m : ConcurrentPulseMap} (c : IsConsistent wyhash m) where
  abbrev spread : ℕ → ℕ
  spread = spread_by m.sharded_index

  module _ (actual exponent : ℕ) (power : actual ≡ 2 ^ exponent) (small : actual ≤ 2 ^ 57)
      (grows : m.inner.num_buckets < actual) (es : List EntryData)
      (g : Collects wyhash spread c.table 0 es) where
    abbrev fresh : Rehash
    fresh = empty_rehash wyhash m.sharded_index actual

    fresh-IsValid : IsValid wyhash spread (as_table actual fresh)
    unfolding empty_rehash
    fresh-IsValid = start-IsValid wyhash spread actual exponent power small

    -- Entries of one new bucket come from one old bucket.
    refines :
        (key : List ℕ) (n : ℕ)
        → slot_home wyhash m.sharded_index actual fresh key ≡ n
        → index wyhash spread (view m) key ≡ n % 2 ^ c.table.exponent
    unfolding index
    refines key n h =
        let hash = spread (compute_hash wyhash key).h1 in
        let e = c.table.exponent in
        let le : e ≤ exponent = shorter e exponent (omega (arith, c.table.sized, grows)) in
        let old : bit_and hash m.inner.bucket_mask ≡ hash % 2 ^ e =
          ap (bit_and hash) (c.table.masked ∙ ap (λ x. x - 1) c.table.sized)
          ∙ bit_and_mask e hash in
        let new : bit_and hash (actual - 1) ≡ hash % 2 ^ exponent =
          ap (λ x. bit_and hash (x - 1)) power ∙ bit_and_mask exponent hash in
        old ∙ refined e exponent hash n le (sym new ∙ h)

    -- The first round already has room for all.
    first_round :
        (r : Rehash) × (retry wyhash m.sharded_index 64 actual es ≡ some (actual, r))
        × Fills wyhash m.sharded_index actual fresh es r
    unfolding retry empty_rehash
    first_round =
        let (r, runs, f) =
          rehash_all-Fills wyhash m.sharded_index actual es fresh fresh-IsValid g.fit
            (λ key. ground (arith, g.once key))
            (λ key _. start-stored wyhash spread actual exponent power small key)
            (λ n. ground (
              arith,
              full_at-empty actual n,
              g.crowd (slot_home wyhash m.sharded_index actual fresh) n (n % 2 ^ c.table.exponent)
                  (λ key h. refines key n h),
            )) in
        (r, rw (runs, ◌>>=◌), f)

    -- The map that takes over the new buckets.
    abbrev grown : Rehash → AccessBuffer → ConcurrentPulseMap
    grown r access_buffer = record m {
      inner = record {
        buckets = r.buckets;
        slab_pool = r.slab_pool;
        num_buckets = actual;
        bucket_mask = actual - 1;
        epochs = r.epochs;
      };
      count = r.count;
      access_buffer = access_buffer;
    }

    grown-Preserves :
        (r : Rehash) (b : AccessBuffer) (t : ℕ)
        → length es ≡ occupied m.inner.buckets
        → Represents c.exponent t [] b
        → Fills wyhash m.sharded_index actual fresh es r
        → Preserves wyhash m (grown r b)
    unfolding empty_rehash
    grown-Preserves r b t size rep f = record {
      consistent = record {
        table =
            reclocked-IsValid wyhash spread f.valid m.eviction_count m.current_epoch m.default_ttl
              c.table.epoch;
        exponent = c.exponent;
        taken = t;
        queue = [];
        represents = rep;
        inside = tt;
      };
      same = λ key.
          let empty : stored wyhash spread (as_table actual fresh) key ≡ none =
            start-stored wyhash spread actual exponent power small key in
          stored-reclocked wyhash spread (as_table actual r) m.eviction_count m.current_epoch
            m.default_ttl key
          ∙ f.reads key
          ∙ rw empty (g.finds key (omega arith));
      count = omega (arith, f.counts, size, c.table.counted);
      evictions = refl;
      clock = (refl, refl);
      kind = (refl, refl);
    }

  -- On a consistent map, a resize to at most `2 ^ 57` buckets does not panic, and it needs no second round. The
  -- map has the buckets that were asked for, rounded up to a power of two, if these are more than before;
  -- each key, expired or not, holds the value and the TTL record that it held; the counters are the same.
  pub resize-Preserves :
      (new_num_buckets : ℕ)
      → new_num_buckets ≤ 2 ^ 57
      → (m' : ConcurrentPulseMap) × (resize wyhash m new_num_buckets ≡ some m')
        × Preserves wyhash m m'
        × (m'.inner.num_buckets
            ≡ max m.inner.num_buckets (next_power_of_two (max new_num_buckets 1)))
  unfolding resize
  resize-Preserves new_num_buckets few =
      let p = next_power_of_two-IsLeast (max new_num_buckets 1) (omega arith) in
      let actual = next_power_of_two (max new_num_buckets 1) in
      let small : actual ≤ 2 ^ 57 = omega (
        arith,
        p.power,
        pow-le-pow_right {n = 2} (omega arith) (p.least 57 (omega arith) (omega arith)),
      ) in
      elim (Bool-cases (leb actual m.inner.num_buckets)) [
        | inl large ↦ (
          m,
          rw large,
          record {
            consistent = c;
            same = λ _. refl;
            count = refl;
            evictions = refl;
            clock = (refl, refl);
            kind = (refl, refl);
          },
          ground arith,
        )
        | inr less ↦
            let grows : m.inner.num_buckets < actual = ground arith in
            let (t, b, clears, rep) = clear-Represents c.represents in
            let (es, collects, size, g) = collect-Collects wyhash spread c.table in
            let (r, runs, f) = first_round actual p.exponent p.power small grows es g in
            (
              grown actual p.exponent p.power small grows es g r b,
              rw (less, clears, ◌>>=◌, collects, runs),
              grown-Preserves actual p.exponent p.power small grows es g r b t size rep f,
              omega arith,
            )
      ]
