-- ===== src/Sync/Resize/Room.antt =====
-- The number of full slots of one bucket, which decides whether the refill of `resize` finds room.
use pulse_map.Base.{
  ℕ, zero, suc, ◌+◌, ◌<◌, ◌≡◌, refl, arith, true, false, none, some, List, ◌==◌, if◌then◌else◌,
  get_elem?, get_elem?-set, lt_of_get_elem?, set, replicate,
}
use pulse_map.Bucket.Fill.{occupancy, with_slot, WordElsewhere}
use pulse_map.Bucket.Refs.{is_occupied, total, total-except, except_congr}
use pulse_map.Bucket.{Bucket, empty_bucket}
use pulse_map.Meta.Policy.{find_free_slot-none}
use pulse_map.Meta.{full, is_full, get_state, find_free_slot}
use pulse_map.Slot.{Slot}

abbrev pub full_slots : Bucket → ℕ
full_slots b = total (occupancy b)

unfoldable pub full_at : List Bucket → ℕ → ℕ
full_at bs n = elim (get_elem? bs n) [ none ↦ 0 | some b ↦ full_slots b ]

pub full_slots-no_free : (b : Bucket) → find_free_slot b.meta ≡ none → full_slots b ≡ 4
unfolding total is_occupied
full_slots-no_free b e =
    let all = find_free_slot-none b.meta e in
    rw (all 0 (omega arith), all 1 (omega arith), all 2 (omega arith), all 3 (omega arith))

-- A free slot is filled.
pub full_slots-with_slot :
    (b : Bucket) (t w : ℕ) (s : Slot)
    → t < 4
    → WordElsewhere t b.meta w
    → get_state w t ≡ full
    → is_occupied b t ≡ false
    → full_slots (with_slot b t w s) ≡ full_slots b + 1
full_slots-with_slot b t w s bt we is_set vacant =
    let b' = with_slot b t w s in
    let occ : is_occupied b' t ≡ true = unfold is_occupied is_full in rw is_set in
    let others =
      except_congr (occupancy b') (occupancy b) t
        (λ j bj ne. unfold is_occupied in rw (we.states j bj ne)) in
    ground (arith, total-except (occupancy b') t bt, total-except (occupancy b) t bt, others)

pub full_at-set :
    (bs : List Bucket) (k n : ℕ) {b : Bucket} (b' : Bucket)
    → get_elem? bs k ≡ some b
    → full_slots b' ≡ full_slots b + 1
    → full_at (set bs k b') n ≡ (if k == n then 1 else 0) + full_at bs n
unfolding full_at
full_at-set bs k n b' at more =
    ground (arith, get_elem?-set bs k n b' (lt_of_get_elem? bs k at), at)

pub full_at-some :
    (bs : List Bucket) (k : ℕ) {b : Bucket} → get_elem? bs k ≡ some b → full_at bs k ≡ full_slots b
unfolding full_at
full_at-some bs k at = rw (full_at, at)

pub full_at-empty : (n k : ℕ) → full_at (replicate n empty_bucket) k ≡ 0
unfolding full_at replicate get_elem? total is_occupied is_full get_state empty_bucket
full_at-empty zero k = refl
full_at-empty (suc n) zero = refl
full_at-empty (suc n) (suc k) = full_at-empty n k
