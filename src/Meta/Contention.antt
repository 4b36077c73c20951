-- ===== src/Meta/Contention.antt =====
-- src/engine/meta.rs: the loop of `MetaWord::on_access` as several threads run it on one word, a load or an
-- exchange at a time, in any order. An exchange, which is a weak one, may also fail where the word is the same.
pub mod Laws
use pulse_map.Base.{ℕ, ◌<◌, ◌≡◌, List, [], ◌∷◌, ◌==◌, if◌then◌else◌}
use pulse_map.Meta.{on_access}

-- The word, and the slots of the accesses that are done, the latest first, which no thread reads.
pub record Shared : Type 0 where
  pub word : ℕ
  pub done : List ℕ

-- Where a thread stands.
pub data Pc : Type 0 where
  idle : Pc
  looping : (slot : ℕ) → Pc  -- before the load
  loaded : (slot current : ℕ) → Pc  -- before the exchange

-- A family with one member replaced.
unfoldable pub put : (ℕ → Pc) → ℕ → Pc → ℕ → Pc
put pc i p j = if i == j then p else pc j

pub data Step (s : Shared) : Pc → Shared → Pc → Type 0 where
  call : (slot : ℕ) → slot < 4 → Step s idle s (looping slot)
  load : {slot : ℕ} → Step s (looping slot) s (loaded slot s.word)
  fail : {slot current : ℕ} → Step s (loaded slot current) s (looping slot)
  succeed :
      {slot current : ℕ}
      → s.word ≡ current
      → Step s
          (loaded slot current)
          (record { word = on_access current slot; done = slot ∷ s.done })
          idle

-- What threads do that start with the word `v`.
pub data Reach (v : ℕ) : Shared → (ℕ → Pc) → Type 0 where
  start : Reach v (record { word = v; done = [] }) (λ _. idle)
  later :
      {s s' : Shared} {pc : ℕ → Pc} (i : ℕ) {p : Pc}
      → Reach v s pc
      → Step s (pc i) s' p
      → Reach v s' (put pc i p)
