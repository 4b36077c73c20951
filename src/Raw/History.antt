-- ===== src/Raw/History.antt =====
-- Sequences of operations on a map from `new`: what a lookup may show, against the operations themselves.
-- The map is lossy, so a key that was inserted may be gone; but it never shows an older or another value.
use pulse_map.Base.{
  ℕ, ◌^◌, ◌≤◌, ◌≡◌, ◌≢◌, refl, sym, ap, ◌∙◌, arith, Option, none, some, List, [], ◌∷◌, ◌>>=◌, Bool,
  true, false, if◌then◌else◌, add64, bytes_eq, bytes_eq_refl, bytes_eq_sound, eq_of_some, subst,
  Bool-cases, inl, inr,
}
use mathlib.Core.Bool.{false≢true}
use pulse_map.Bucket.Fill.{occupied-le}
use pulse_map.Raw.Get.{get-Keeps}
use pulse_map.Raw.Change.{resides}
use pulse_map.Raw.Insert.{Inserts, insert_internal-Inserts}
use pulse_map.Raw.Invariant.{
  plain, reclocked-IsValid, stored-reclocked, ticked, index, IsValid, stored,
}
use pulse_map.Raw.New.{new-IsValid}
use pulse_map.Raw.Clear.{Removes}
use pulse_map.Raw.Remove.{remove-Removes}
use pulse_map.Raw.{PulseMapRaw, SlotTtl, new, insert_internal, get, remove, set_ttl, len, capacity}
use pulse_map.Slab.Entry.{Fits}

-- The operations that change a map.
pub data Op : Type 0 where
  insert_op : List ℕ → List ℕ → ℕ → Op
  get_op : List ℕ → Op
  remove_op : List ℕ → Op
  set_ttl_op : ℕ → Op

-- An insertion within the lengths that the slab can note.
unfoldable pub OpFits : Op → Type 0
OpFits (insert_op key value _) = Fits key value
OpFits (get_op _) = Unit
OpFits (remove_op _) = Unit
OpFits (set_ttl_op _) = Unit

unfoldable pub run_op : (List ℕ → ℕ) → PulseMapRaw → Op → Option PulseMapRaw
run_op wyhash m (insert_op key value ttl) = insert_internal wyhash m key value ttl
run_op wyhash m (get_op key) = do (_, m') ← get wyhash m key; some m'
run_op wyhash m (remove_op key) = do (_, m') ← remove wyhash m key; some m'
run_op wyhash m (set_ttl_op ttl) = some (set_ttl m ttl)

-- The maps that a list of operations, the latest first, leads to from `new n`.
pub data Reaches (wyhash : List ℕ → ℕ) (n : ℕ) : List Op → PulseMapRaw → Type 0 where
  start : Reaches wyhash n [] (new n)
  step :
      {ops : List Op} {m m' : PulseMapRaw}
      → Reaches wyhash n ops m
      → (op : Op) → OpFits op
      → run_op wyhash m op ≡ some m'
      → Reaches wyhash n (op ∷ ops) m'

-- The value of the latest insertion of a key that no removal followed.
unfoldable pub latest : List Op → List ℕ → Option (List ℕ)
latest [] key = none
latest (insert_op k value _ ∷ ops) key = if bytes_eq k key then some value else latest ops key
latest (remove_op k ∷ ops) key = if bytes_eq k key then none else latest ops key
latest (get_op _ ∷ ops) key = latest ops key
latest (set_ttl_op _ ∷ ops) key = latest ops key

-- The map holds nothing but latest values, in no more slots than it has.
pub record Tracks (wyhash : List ℕ → ℕ) (ops : List Op) (m : PulseMapRaw) : Type 0 where
  pub valid : IsValid wyhash plain m
  pub agrees :
      (key value : List ℕ) (entry : SlotTtl)
      → stored wyhash plain m key ≡ some (value, entry)
      → latest ops key ≡ some value
  pub bounded : len m ≤ capacity m

valid-bounded :
    (wyhash : List ℕ → ℕ) {m : PulseMapRaw} → IsValid wyhash plain m → len m ≤ capacity m
unfolding len capacity
valid-bounded wyhash {m} v = omega (arith, v.counted, occupied-le m.buckets, v.width)

stored-ticked :
    (wyhash : List ℕ → ℕ) (m : PulseMapRaw) (key : List ℕ)
    → stored wyhash plain (ticked m) key ≡ stored wyhash plain m key
stored-ticked wyhash m key =
    stored-reclocked wyhash plain m m.eviction_count (add64 m.current_epoch 1) m.default_ttl key

stored-set_ttl :
    (wyhash : List ℕ → ℕ) (m : PulseMapRaw) (ttl : ℕ) (key : List ℕ)
    → stored wyhash plain (set_ttl m ttl) key ≡ stored wyhash plain m key
unfolding set_ttl
stored-set_ttl wyhash m ttl key =
    stored-reclocked wyhash plain m m.eviction_count m.current_epoch ttl key

set_ttl-IsValid :
    (wyhash : List ℕ → ℕ) {m : PulseMapRaw} (ttl : ℕ)
    → IsValid wyhash plain m
    → IsValid wyhash plain (set_ttl m ttl)
unfolding set_ttl
set_ttl-IsValid wyhash {m} ttl v =
    reclocked-IsValid wyhash plain v m.eviction_count m.current_epoch ttl v.epoch

different : {k key : List ℕ} → bytes_eq k key ≡ false → key ≢ k
different {k} q e = false≢true (sym q ∙ rw e (bytes_eq_refl k))

module _ (wyhash : List ℕ → ℕ) (ops : List Op) {m : PulseMapRaw} (t : Tracks wyhash ops m) where
  insert_agrees :
      {m' : PulseMapRaw} (k v : List ℕ) (ttl : ℕ)
      → Inserts wyhash (ticked m) k v ttl m'
      → (key value : List ℕ) (entry : SlotTtl) → stored wyhash plain m' key ≡ some (value, entry)
      → latest (insert_op k v ttl ∷ ops) key ≡ some value
  unfolding latest
  insert_agrees k v ttl r key value entry e = elim (Bool-cases (bytes_eq k key)) [
    | inl q ↦
        let same : k ≡ key = bytes_eq_sound k key q in
        let both = eq_of_some (sym (rw same at r.places.reads) ∙ e) in
        rw q (ap (λ x. some x.0) both)
    | inr q ↦
        let other = r.places.others key (different q) in
        let old =
          kept (resides wyhash plain (ticked m) (index wyhash plain (ticked m) k) r.slot key)
            (sym other ∙ e) in
        rw q (t.agrees key value entry (sym (stored-ticked wyhash m key) ∙ old))
  ]
    where
      kept :
          {x : Option (List ℕ × SlotTtl)} {y : List ℕ × SlotTtl} (gone : Bool)
          → (if gone then none else x) ≡ some y
          → x ≡ some y
      kept true e = cc
      kept false e = e

  remove_agrees :
      {m' : PulseMapRaw} {found : Bool} (k : List ℕ)
      → Removes wyhash plain m k found m'
      → (key value : List ℕ) (entry : SlotTtl) → stored wyhash plain m' key ≡ some (value, entry)
      → latest (remove_op k ∷ ops) key ≡ some value
  unfolding latest
  remove_agrees {m'} k r key value entry e = elim (Bool-cases (bytes_eq k key)) [
    | inl q ↦
        let same : k ≡ key = bytes_eq_sound k key q in
        let gone : stored wyhash plain m' key ≡ none = rw same at r.gone in cc
    | inr q ↦ rw q (t.agrees key value entry (sym (r.others key (different q)) ∙ e))
  ]

  -- Each operation runs, and keeps track.
  run_op-Tracks :
      (op : Op)
      → OpFits op
      → (m' : PulseMapRaw) × (run_op wyhash m op ≡ some m') × Tracks wyhash (op ∷ ops) m'
  unfolding OpFits run_op latest
  run_op-Tracks (insert_op k v ttl) fits =
      let (m', runs, r) = insert_internal-Inserts wyhash t.valid k v fits ttl in
      (
        m',
        runs,
        record {
          valid = r.places.valid;
          agrees = insert_agrees k v ttl r;
          bounded = valid-bounded wyhash r.places.valid;
        },
      )
  run_op-Tracks (get_op k) fits =
      let (m', runs, r) = get-Keeps wyhash t.valid k in
      (
        m',
        rw (runs, ◌>>=◌),
        record {
          valid = r.valid;
          agrees = λ key value entry e. t.agrees key value entry (sym (r.same key) ∙ e);
          bounded = valid-bounded wyhash r.valid;
        },
      )
  run_op-Tracks (remove_op k) fits =
      let (found, m', runs, r) = remove-Removes wyhash t.valid k in
      (
        m',
        rw (runs, ◌>>=◌),
        record {
          valid = r.valid;
          agrees = remove_agrees k r;
          bounded = valid-bounded wyhash r.valid;
        },
      )
  run_op-Tracks (set_ttl_op ttl) fits =
      let valid = set_ttl-IsValid wyhash ttl t.valid in
      (
        set_ttl m ttl,
        refl,
        record {
          valid = valid;
          agrees = λ key value entry e.
              t.agrees key value entry (sym (stored-set_ttl wyhash m ttl key) ∙ e);
          bounded = valid-bounded wyhash valid;
        },
      )

-- Every map that operations lead to from `new` of at most `2 ^ 57` buckets, with insertions that fit, is valid,
-- has at most as many entries as slots, and holds under a key only the value of the latest insertion, if no
-- removal followed it.
pub Reaches-Tracks :
    (wyhash : List ℕ → ℕ) {n : ℕ} {ops : List Op} {m : PulseMapRaw}
    → n ≤ 2 ^ 57
    → Reaches wyhash n ops m
    → Tracks wyhash ops m
Reaches-Tracks wyhash {n} small start =
    let (valid, _, nothing) = new-IsValid wyhash n small in
    record {
      valid = valid;
      agrees = λ key value entry e. let gone = nothing key in cc;
      bounded = valid-bounded wyhash valid;
    }
Reaches-Tracks wyhash small (step {ops} {m} {m'} r op fits runs) =
    let (m'', runs', t) = run_op-Tracks wyhash ops (Reaches-Tracks wyhash small r) op fits in
    subst (Tracks wyhash (op ∷ ops)) (eq_of_some (sym runs' ∙ runs)) t

-- No sequence of operations gets stuck: in every map that is reached from `new` of at most `2 ^ 57` buckets,
-- every operation that fits runs, and leads to a map that is reached.
pub Reaches-run :
    (wyhash : List ℕ → ℕ) {n : ℕ} {ops : List Op} {m : PulseMapRaw}
    → n ≤ 2 ^ 57
    → Reaches wyhash n ops m
    → (op : Op) → OpFits op
    → (m' : PulseMapRaw) × (run_op wyhash m op ≡ some m') × Reaches wyhash n (op ∷ ops) m'
Reaches-run wyhash {n} {ops} small r op fits =
    let (m', runs, _) = run_op-Tracks wyhash ops (Reaches-Tracks wyhash small r) op fits in
    (m', runs, step r op fits runs)
