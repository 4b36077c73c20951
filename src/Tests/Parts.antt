-- ===== src/Tests/Parts.antt =====
-- The parts at concrete inputs.
use pulse_map.Codec.Utf8.Laws.{AllChars}
use pulse_map.Codec.Utf8.Sound.{from_utf8_iff}
use pulse_map.Codec.Utf8.{as_bytes, from_utf8, lead, decode}
use pulse_map.Base.{
  ℕ, ◌+◌, ◌*◌, ◌/◌, ◌%◌, ◌^◌, ◌<◌, ◌≡◌, ◌↔◌, refl, arith, none, some, List, [], ◌∷◌, length,
}
use pulse_map.Bucket.Entries.{position, find_match-position}
use pulse_map.Bucket.{find_match, empty_bucket}
use pulse_map.Hash.{compute_hash}
use pulse_map.Meta.Access.{Accesses, on_access-Accesses}
use pulse_map.Meta.Policy.{Evicts, find_evict_target-some}
use pulse_map.Meta.{on_access, find_evict_target, match_mask}
use pulse_map.Raw.New.{empty-IsSound}
use pulse_map.Sharded.Routing.{routing_lem}
use pulse_map.Sharded.{shard_for}
use pulse_map.Simd.{match_mask_simd, match_mask_simd-match_mask}
use pulse_map.Slab.Pool.{Allocates, empty_pool-IsBalanced, alloc-Allocates}
use pulse_map.Slab.{SlabPool, empty_pool, alloc}
use pulse_map.Sync.State.{bucket_hash}

-- A word with four full slots, of fingerprints 1 to 4 and priorities 13, 0, 9 and 7.
abbrev four_full : ℕ
four_full =
    0x55 * 2 ^ 56
    + (1 + 2 * 2 ^ 7 + 3 * 2 ^ 14 + 4 * 2 ^ 21) * 2 ^ 28
    + (13 + 9 * 2 ^ 14 + 7 * 2 ^ 21)

on_access-Accesses_example : Accesses four_full 2 (on_access four_full 2)
on_access-Accesses_example = on_access-Accesses four_full 2 (omega arith) (omega arith)

evicts_second : find_evict_target four_full ≡ some 1
unfolding find_evict_target
evicts_second = refl

find_evict_target-some_example : Evicts four_full 1
find_evict_target-some_example = find_evict_target-some four_full evicts_second

-- Slots 0 and 1 full, slot 2 a tombstone.
match_mask_simd-match_mask_example : match_mask_simd four_full 3 ≡ match_mask four_full 3
match_mask_simd-match_mask_example = match_mask_simd-match_mask four_full 3

abbrev test_hash : List ℕ → ℕ
test_hash key = length key * 2 ^ 57 % 2 ^ 64

abbrev some_key : List ℕ
some_key = 1 ∷ 2 ∷ 3 ∷ []

find_match-position_example :
    find_match empty_bucket some_key (compute_hash test_hash some_key) empty_pool
    ≡ some (position empty_pool empty_bucket some_key)
find_match-position_example =
    find_match-position test_hash empty_pool empty_bucket some_key (empty-IsSound test_hash)

alloc-Allocates_example :
    (idx : ℕ) × (after : SlabPool) × (alloc empty_pool some_key some_key ≡ some (idx, after))
    × Allocates (λ _. 0) empty_pool some_key some_key idx after
alloc-Allocates_example =
    alloc-Allocates (λ _. 0) empty_pool some_key some_key (omega arith) empty_pool-IsBalanced

routing_lem_example :
    (shard_for test_hash some_key < 16)
    × (test_hash some_key
        ≡ bucket_hash (test_hash some_key) / 2 ^ 14 * 2 ^ 18
          + shard_for test_hash some_key * 2 ^ 14
          + bucket_hash (test_hash some_key) % 2 ^ 14)
routing_lem_example = routing_lem test_hash some_key (omega arith)

from_utf8_iff_example :
    (from_utf8 (0xC3 ∷ 0xA9 ∷ 0x21 ∷ []) ≡ some (0xE9 ∷ 0x21 ∷ []))
    ↔ (AllChars (0xE9 ∷ 0x21 ∷ []) × (0xC3 ∷ 0xA9 ∷ 0x21 ∷ [] ≡ as_bytes (0xE9 ∷ 0x21 ∷ [])))
from_utf8_iff_example = from_utf8_iff (0xC3 ∷ 0xA9 ∷ 0x21 ∷ []) (0xE9 ∷ 0x21 ∷ [])

reads_two_bytes : from_utf8 (0xC3 ∷ 0xA9 ∷ 0x21 ∷ []) ≡ some (0xE9 ∷ 0x21 ∷ [])
unfolding from_utf8 lead decode
reads_two_bytes = refl

refuses_surrogate : from_utf8 (0xED ∷ 0xA0 ∷ 0x80 ∷ []) ≡ none
unfolding from_utf8 lead decode
refuses_surrogate = refl
