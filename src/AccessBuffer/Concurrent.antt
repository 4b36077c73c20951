-- ===== src/AccessBuffer/Concurrent.antt =====
-- src/engine/access_buffer.rs: `push` and `pop` of several threads, a shared access at a time, in any order.
-- Memory orderings are left out: each access is seen by all threads at once. `e` is the exponent of the size.
pub mod Invariant
pub mod Moves
pub mod Steps
pub mod Safety
use pulse_map.Base.{
  ℕ, ◌+◌, ◌-◌, ◌^◌, ◌<◌, ◌≡◌, ◌≢◌, Bool, Option, none, some, List, [], ◌∷◌, ◌++◌, bit_and, bit_or,
  ◌<<<◌, ◌>>>◌, ◌==◌, if◌then◌else◌, add64,
}
use pulse_map.AccessBuffer.Queue.{Access}

-- The shared memory, and two histories that no thread reads: the accesses for which a place was claimed, the
-- first at 0, and what was taken out, with its place, the latest first.
pub record Shared : Type 0 where
  pub sequence : ℕ → ℕ
  pub payload : ℕ → ℕ
  pub head : ℕ
  pub tail : ℕ
  pub claims : List (ℕ × ℕ)
  pub delivered : List (ℕ × ℕ × ℕ)

-- Where a thread stands, with the local variables that are live there.
pub data Pc : Type 0 where
  idle : Pc
  head_loaded : (a : ℕ × ℕ) (h : ℕ) → Pc
  free_seen : (a : ℕ × ℕ) (h : ℕ) → Pc  -- before the exchange of `head`
  claimed : (a : ℕ × ℕ) (h : ℕ) → Pc  -- before the payload is stored
  stored : (a : ℕ × ℕ) (h : ℕ) → Pc  -- before the cell is published
  tail_loaded : (t : ℕ) → Pc
  ready_seen : (t : ℕ) → Pc  -- before the exchange of `tail`
  taken : (t : ℕ) → Pc  -- before the payload is loaded
  copied : (t d : ℕ) → Pc  -- before the cell is given back

-- A family with one member replaced.
unfoldable pub put {ℓ} : {A : Type ℓ} → (ℕ → A) → ℕ → A → ℕ → A
put f i a j = if i == j then a else f j

-- The cell of a position.
abbrev pub cell : ℕ → ℕ → ℕ
cell e h = bit_and h (2 ^ e - 1)

abbrev pub word_of : ℕ × ℕ → ℕ
word_of (bucket, slot) = bit_or (bucket <<< 2) slot

abbrev pub event_of : ℕ → ℕ × ℕ
event_of d = (d >>> 2, bit_and d 3)

-- One step of a thread that stands at the second argument. A `push` of an event that cannot be recorded
-- returns before its first access.
pub data Step (e : ℕ) (s : Shared) : Pc → Shared → Pc → Type 0 where
  push_begin : (a : ℕ × ℕ) → Access a → Step e s idle s (head_loaded a s.head)
  push_full : {a : ℕ × ℕ} {h : ℕ} → s.sequence (cell e h) ≢ h → Step e s (head_loaded a h) s idle
  push_free :
      {a : ℕ × ℕ} {h : ℕ} → s.sequence (cell e h) ≡ h → Step e s (head_loaded a h) s (free_seen a h)
  push_lose : {a : ℕ × ℕ} {h : ℕ} → s.head ≢ h → Step e s (free_seen a h) s idle
  push_claim :
      {a : ℕ × ℕ} {h : ℕ}
      → s.head ≡ h
      → Step e s
          (free_seen a h)
          (record s { head = add64 h 1; claims = s.claims ++ a ∷ [] })
          (claimed a h)
  push_store :
      {a : ℕ × ℕ} {h : ℕ}
      → Step e s
          (claimed a h)
          (record s { payload = put s.payload (cell e h) (word_of a) })
          (stored a h)
  push_publish :
      {a : ℕ × ℕ} {h : ℕ}
      → Step e s (stored a h) (record s { sequence = put s.sequence (cell e h) (add64 h 1) }) idle
  pop_begin : Step e s idle s (tail_loaded s.tail)
  pop_empty : {t : ℕ} → s.sequence (cell e t) ≢ add64 t 1 → Step e s (tail_loaded t) s idle
  pop_ready :
      {t : ℕ} → s.sequence (cell e t) ≡ add64 t 1 → Step e s (tail_loaded t) s (ready_seen t)
  pop_lose : {t : ℕ} → s.tail ≢ t → Step e s (ready_seen t) s idle
  pop_take :
      {t : ℕ} → s.tail ≡ t → Step e s (ready_seen t) (record s { tail = add64 t 1 }) (taken t)
  pop_copy : {t : ℕ} → Step e s (taken t) s (copied t (s.payload (cell e t)))
  pop_release :
      {t d : ℕ}
      → Step e s
          (copied t d)
          (record s {
            sequence = put s.sequence (cell e t) (add64 t (2 ^ e));
            delivered = (t, (event_of d).0, (event_of d).1) ∷ s.delivered;
          })
          idle

-- The buffer that `new` makes.
abbrev pub init : Shared
init = record {
  sequence = λ i. i;
  payload = λ _. 0;
  head = 0;
  tail = 0;
  claims = [];
  delivered = [];
}

pub data Reach (e : ℕ) : Shared → (ℕ → Pc) → Type 0 where
  start : Reach e init (λ _. idle)
  later :
      {s s' : Shared} {pc : ℕ → Pc} (i : ℕ) {p : Pc}
      → Reach e s pc
      → Step e s (pc i) s' p
      → Reach e s' (put pc i p)
