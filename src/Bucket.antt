-- ===== src/Bucket.antt =====
-- src/engine/bucket.rs: one cache line, a metadata word and four slots; and the steps on one bucket
-- that src/raw.rs and src/sync.rs share.
pub mod Refs
pub mod Entries
pub mod Replace
pub mod Write
pub mod Bound
pub mod Fill
pub mod Position
pub mod Touch
use pulse_map.Base.{
  ℕ, ◌+◌, ◌-◌, ◌%◌, ◌≤◌, Bool, true, false, ◌&&◌, Option, none, some, List, [], ◌∷◌, leb, ◌==◌,
  if◌then◌else◌, length, get_elem?, set_elem?, replicate, ◌>>=◌,
}
use pulse_map.Hash.{HashResult}
use pulse_map.Meta.{empty_word, match_mask}
use pulse_map.Probe.{probe}
use pulse_map.Slab.{SlabPool, free, alloc}
use pulse_map.Slot.{Slot, empty_slot, get_mode, set_inline, set_slab, slab_idx, matches_key}

pub record Bucket : Type 0 where
  pub meta : ℕ
  pub slots : List Slot

-- `Bucket::empty`
unfoldable pub empty_bucket : Bucket
unfolding replicate
empty_bucket = record { meta = empty_word; slots = replicate 4 empty_slot }

-- The test that the probe loop makes of slot `i`.
unfoldable pub slot_matches : Bucket → List ℕ → HashResult → SlabPool → ℕ → Option Bool
slot_matches b key hr pool i = do s ← get_elem? b.slots i; matches_key s key hr pool

-- The probe loop over one bucket: the first slot whose key matches.
unfoldable pub find_match : Bucket → List ℕ → HashResult → SlabPool → Option (Option ℕ)
unfolding slot_matches
find_match b key hr pool = probe (match_mask b.meta hr.h2) (slot_matches b key hr pool)

-- `if slot.get_mode() == 1 { slab_pool.free(slot.slab_idx()) }`
unfoldable pub release : SlabPool → Slot → SlabPool
release pool s = if get_mode s == 1 then free pool (slab_idx s) else pool

-- `key.len() <= 6 && value.len() <= 7`
unfoldable pub is_inline : List ℕ → List ℕ → Bool
is_inline key value = leb (length key) 6 && leb (length value) 7

-- The new contents of a slot: inline if they are short, else through the pool.
unfoldable pub store_pair : SlabPool → List ℕ → List ℕ → HashResult → Option (Slot × SlabPool)
unfolding is_inline
store_pair pool key value hr =
    if is_inline key value
    then some (set_inline key value, pool)
    else (do (idx, after) ← alloc pool key value; some (set_slab hr.ext_fp_hi hr.ext_fp idx, after))
