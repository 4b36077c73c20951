-- ===== src/AccessBuffer.antt =====
-- src/engine/access_buffer.rs: the bounded queue of accesses to be applied later. An operation runs here
-- without another one between its steps, so its exchange of `head` or `tail` succeeds. `none` is an index
-- out of range.
pub mod Cells
pub mod Queue
pub mod Front
pub mod Refine
pub mod Concurrent
use pulse_map.Base.{
  ℕ, zero, suc, ◌+◌, ◌-◌, max, Bool, true, false, not, ◌||◌, Option, none, some, List, [], ◌∷◌,
  bit_and, bit_or, leb, ltb, ◌==◌, if◌then◌else◌, length, get_elem?, set_elem?, ◌>>=◌, add64,
  u64_max, ◌<<<◌, ◌>>>◌,
}
use pulse_map.Raw.{next_power_of_two}

-- `payload` is the field `data`.
pub record AccessEvent : Type 0 where
  pub sequence : ℕ
  pub payload : ℕ

pub record AccessBuffer : Type 0 where
  pub buffer : List AccessEvent
  pub mask : ℕ
  pub head : ℕ
  pub tail : ℕ

-- `(i..i + left).map(..)`
unfoldable pub events_from : ℕ → ℕ → List AccessEvent
events_from zero i = []
events_from (suc left) i = record { sequence = i; payload = 0 } ∷ events_from left (i + 1)

unfoldable pub new_buffer : ℕ → AccessBuffer
unfolding events_from
new_buffer capacity =
    let actual = next_power_of_two (max capacity 64) in
    record { buffer = events_from actual 0; mask = actual - 1; head = 0; tail = 0 }

unfoldable pub push : AccessBuffer → ℕ → ℕ → Option (Bool × AccessBuffer)
unfolding set_elem?
push q bucket_idx slot_idx =
    if leb 4 slot_idx || ltb (u64_max >>> 2) bucket_idx then some (false, q) else (do
      slot ← get_elem? q.buffer (bit_and q.head q.mask)
      if not (slot.sequence == q.head) then some (false, q) else (do
        let event : AccessEvent = record {
          sequence = add64 q.head 1;
          payload = bit_or (bucket_idx <<< 2) slot_idx;
        }
        buffer ← set_elem? q.buffer (bit_and q.head q.mask) event
        some (true, record q { buffer = buffer; head = add64 q.head 1 })))

unfoldable pub pop : AccessBuffer → Option (Option (ℕ × ℕ) × AccessBuffer)
unfolding set_elem?
pop q = do
  slot ← get_elem? q.buffer (bit_and q.tail q.mask)
  if not (slot.sequence == add64 q.tail 1) then some (none, q) else (do
    let event : AccessEvent = record {
      sequence = add64 q.tail (length q.buffer);
      payload = slot.payload;
    }
    buffer ← set_elem? q.buffer (bit_and q.tail q.mask) event
    some (
      some (slot.payload >>> 2, bit_and slot.payload 3),
      record q { buffer = buffer; tail = add64 q.tail 1 },
    ))

-- `drain`, whose callback changes a state `s`.
module _ {S : Type 0} (f : S → ℕ → ℕ → Option S) where
  unfoldable pub drain : ℕ → AccessBuffer → S → Option (S × AccessBuffer)
  unfolding pop
  drain zero q s = some (s, q)
  drain (suc left) q s = do
    (event, q') ← pop q
    elim event [
      | none ↦ some (s, q')
      | some (bucket, slot) ↦ (do s' ← f s bucket slot; drain left q' s')
    ]

unfoldable pub clear : AccessBuffer → Option AccessBuffer
unfolding drain
clear q = do (_, q') ← drain (λ (s : Unit) _ _. some s) (length q.buffer) q tt; some q'
