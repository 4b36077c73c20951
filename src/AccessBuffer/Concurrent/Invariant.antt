-- ===== src/AccessBuffer/Concurrent/Invariant.antt =====
-- What holds in every reachable state: a cell's sequence number says who may touch it.
use pulse_map.AccessBuffer.Cells.{same_cell}
use pulse_map.AccessBuffer.Concurrent.{
  Shared, Pc, idle, head_loaded, free_seen, claimed, stored, tail_loaded, ready_seen, taken, copied,
  put, cell, init,
}
use pulse_map.AccessBuffer.Queue.{Access, packed}
use pulse_map.Base.{
  ℕ, ◌+◌, ◌%◌, ◌^◌, ◌<◌, ◌≤◌, ◌≡◌, ◌≢◌, refl, sym, ap, ◌∙◌, arith, Option, none, some, List, [],
  ◌∷◌, ◌==◌, if◌then◌else◌, length, get_elem?, bit_and_mask,
}
use native.Mathlib.Nat.{add-mod_right, pow-le-pow_right, mod-le}

module _ {ℓ} {A : Type ℓ} (f : ℕ → A) (i : ℕ) (a : A) where
  pub put-same : put f i a i ≡ a
  unfolding put
  put-same = ground arith

  pub put-other : (j : ℕ) → i ≢ j → put f i a j ≡ f j
  unfolding put
  put-other j ne = ground arith

module _ (e : ℕ) where
  cell-mod : (p : ℕ) → cell e p ≡ p % 2 ^ e
  cell-mod p = bit_and_mask e p

  -- The next position has another cell; after a lap it is the same again.
  pub next_cell : 1 ≤ e → (p : ℕ) → cell e p ≢ cell e (p + 1)
  next_cell some_bits p same =
      let two : 2 ≤ 2 ^ e = omega (arith, pow-le-pow_right {n = 2} (omega arith) some_bits) in
      let zero_eq_one : (p + 0) % 2 ^ e ≡ (p + 1) % 2 ^ e =
        ap (λ x. x % 2 ^ e) (omega arith) ∙ sym (cell-mod p) ∙ same ∙ cell-mod (p + 1) in
      omega (arith, same_cell (2 ^ e) p 0 1 (omega arith) (omega arith) zero_eq_one)

  pub lap : (p : ℕ) → cell e (p + 2 ^ e) ≡ cell e p
  lap p = cell-mod (p + 2 ^ e) ∙ add-mod_right p (2 ^ e) ∙ sym (cell-mod p)

-- How often a place was taken out.
unfoldable pub times : ℕ → List (ℕ × ℕ × ℕ) → ℕ
times p [] = 0
times p ((t, _, _) ∷ ds) = (if t == p then 1 else 0) + times p ds

-- What was taken out are the accesses of their places, all before `tail`.
abbrev pub AllRight : List (ℕ × ℕ) → ℕ → List (ℕ × ℕ × ℕ) → Type 0
AllRight claims tail [] = Unit
AllRight claims tail ((t, bucket, slot) ∷ ds) =
    (get_elem? claims t ≡ some (bucket, slot)) × (t < tail) × AllRight claims tail ds

-- It stays so when more is claimed and taken.
pub AllRight-claims :
    (claims claims' : List (ℕ × ℕ)) {tail tail' : ℕ}
    → ((p : ℕ) (a : ℕ × ℕ) → get_elem? claims p ≡ some a → get_elem? claims' p ≡ some a)
    → tail ≤ tail'
    → (ds : List (ℕ × ℕ × ℕ)) → AllRight claims tail ds
    → AllRight claims' tail' ds
AllRight-claims claims claims' kept le [] h = tt
AllRight-claims claims claims' kept le ((t, bucket, slot) ∷ ds) h =
    (kept t (bucket, slot) h.0, omega (arith, h.1), AllRight-claims claims claims' kept le ds h.2)

pub times-past :
    (claims : List (ℕ × ℕ)) {tail : ℕ} (p : ℕ) (ds : List (ℕ × ℕ × ℕ))
    → AllRight claims tail ds
    → tail ≤ p
    → times p ds ≡ 0
unfolding times
times-past claims p [] h le = refl
times-past claims p ((t, _, _) ∷ ds) h le = ground (arith, h.1, times-past claims p ds h.2 le)

-- The position that a producer, or a consumer, has for itself.
unfoldable pub claim_of : Pc → Option ℕ
claim_of (claimed a h) = some h
claim_of (stored a h) = some h
claim_of _ = none

unfoldable pub take_of : Pc → Option ℕ
take_of (taken t) = some t
take_of (copied t d) = some t
take_of _ = none

module _ (e : ℕ) (s : Shared) where
  -- A published cell holds the access of its position.
  abbrev pub Filled : ℕ → Type 0
  Filled p =
      s.sequence (cell e p) ≡ p + 1
      → (a : ℕ × ℕ) × (get_elem? s.claims p ≡ some a) × (s.payload (cell e p) ≡ packed a)

  pub record IsShared : Type 0 where
    pub head : s.head ≡ length s.claims
    pub order : s.tail ≤ s.head
    pub valid : (p : ℕ) (a : ℕ × ℕ) → get_elem? s.claims p ≡ some a → Access a
    pub filled : (p : ℕ) → Filled p
    pub right : AllRight s.claims s.tail s.delivered
    pub once : (p : ℕ) → times p s.delivered ≤ 1

  -- What the locals of a thread say about the shared memory.
  abbrev pub Local : Pc → Type 0
  Local idle = Unit
  Local (head_loaded a h) = (h ≤ s.head) × Access a
  Local (free_seen a h) = (h ≤ s.head) × Access a × (s.head ≡ h → s.sequence (cell e h) ≡ h)
  Local (claimed a h) = (h < s.head) × (get_elem? s.claims h ≡ some a) × (s.sequence (cell e h) ≡ h)
  Local (stored a h) =
      (h < s.head)
      × (get_elem? s.claims h ≡ some a)
      × (s.sequence (cell e h) ≡ h)
      × (s.payload (cell e h) ≡ packed a)
  Local (tail_loaded t) = t ≤ s.tail
  Local (ready_seen t) = (t ≤ s.tail) × (s.tail ≡ t → s.sequence (cell e t) ≡ t + 1)
  Local (taken t) = (t < s.tail) × (s.sequence (cell e t) ≡ t + 1)
  Local (copied t d) =
      (t < s.tail)
      × (s.sequence (cell e t) ≡ t + 1)
      × (a : ℕ × ℕ) × (get_elem? s.claims t ≡ some a)
      × (d ≡ packed a)

  -- The cell of a position that a thread has for itself.
  pub claim-Local :
      (q : Pc) (p : ℕ) → claim_of q ≡ some p → Local q → (p < s.head) × (s.sequence (cell e p) ≡ p)
  unfolding claim_of
  claim-Local (claimed a h) p f l = let same : h ≡ p = cc in rw (sym same) (l.0, l.2)
  claim-Local (stored a h) p f l = let same : h ≡ p = cc in rw (sym same) (l.0, l.2)
  claim-Local idle p f l = cc
  claim-Local (head_loaded a h) p f l = cc
  claim-Local (free_seen a h) p f l = cc
  claim-Local (tail_loaded t) p f l = cc
  claim-Local (ready_seen t) p f l = cc
  claim-Local (taken t) p f l = cc
  claim-Local (copied t d) p f l = cc

  pub take-Local :
      (q : Pc) (p : ℕ)
      → take_of q ≡ some p
      → Local q
      → (p < s.tail) × (s.sequence (cell e p) ≡ p + 1)
  unfolding take_of
  take-Local (taken t) p f l = let same : t ≡ p = cc in rw (sym same) (l.0, l.1)
  take-Local (copied t d) p f l = let same : t ≡ p = cc in rw (sym same) (l.0, l.1)
  take-Local idle p f l = cc
  take-Local (head_loaded a h) p f l = cc
  take-Local (free_seen a h) p f l = cc
  take-Local (claimed a h) p f l = cc
  take-Local (stored a h) p f l = cc
  take-Local (tail_loaded t) p f l = cc
  take-Local (ready_seen t) p f l = cc

  pub record Inv (pc : ℕ → Pc) : Type 0 where
    pub shared : IsShared
    pub threads : (i : ℕ) → Local (pc i)
    pub one_producer : (i j p : ℕ) → claim_of (pc i) ≡ some p → claim_of (pc j) ≡ some p → i ≡ j
    pub one_consumer : (i j p : ℕ) → take_of (pc i) ≡ some p → take_of (pc j) ≡ some p → i ≡ j
    pub pending : (i p : ℕ) → take_of (pc i) ≡ some p → times p s.delivered ≡ 0

pub init-Inv : (e : ℕ) → Inv e init (λ _. idle)
unfolding claim_of take_of times get_elem?
init-Inv e = record {
  shared = record {
    head = refl;
    order = omega arith;
    valid = λ p a at. cc;
    filled = λ p same. absurd (omega (arith, same, cell-mod e p, mod-le p (2 ^ e)));
    right = tt;
    once = λ p. omega arith;
  };
  threads = λ i. tt;
  one_producer = λ i j p h. cc;
  one_consumer = λ i j p h. cc;
  pending = λ i p h. cc;
}
