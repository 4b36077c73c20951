-- ===== src/Sharded/Routing.antt =====
-- The bits of a hash: four choose the shard, and `bucket_hash` closes the gap that they leave.
use pulse_map.Base.{
  ℕ, ◌+◌, ◌-◌, ◌*◌, ◌/◌, ◌%◌, ◌^◌, ◌<◌, ◌≡◌, ap, ap₂, ◌∙◌, arith, List, bit_and, bit_or,
  bit_and_join, bit_or_join, bit_and_mask, bit_and-zero, zero-bit_or, bit_or-zero,
}
use pulse_map.Hash.{compute_hash}
use pulse_map.Sharded.{shard_for}
use pulse_map.Sync.State.{bucket_hash}

high_part :
    (q r : ℕ)
    → q < 2 ^ 50
    → r < 2 ^ 14
    → bit_and (q * 2 ^ 14 + r) ((2 ^ 50 - 1) * 2 ^ 14 + 0) ≡ q * 2 ^ 14 + 0
high_part q r bq br =
    omega (
      arith,
      bit_and_join 14 q (2 ^ 50 - 1) r 0 br (omega arith),
      bit_and_mask 50 q,
      bit_and-zero r,
    )

-- The low 14 bits stay, and the bits from 18 on move down by four.
pub bucket_hash_lem :
    (hash : ℕ) → hash < 2 ^ 64 → bucket_hash hash ≡ hash / 2 ^ 18 * 2 ^ 14 + hash % 2 ^ 14
unfolding bucket_hash
bucket_hash_lem hash small =
    ap₂ bit_or low high
    ∙ bit_or_join 14 0 (hash / 2 ^ 18) (hash % 2 ^ 14) 0 (omega arith) (omega arith)
    ∙ omega (arith, zero-bit_or (hash / 2 ^ 18), bit_or-zero (hash % 2 ^ 14))
  where
    low : bit_and hash (2 ^ 14 - 1) ≡ 0 * 2 ^ 14 + hash % 2 ^ 14
    low = omega (arith, bit_and_mask 14 hash)

    split : hash / 2 ^ 4 ≡ hash / 2 ^ 18 * 2 ^ 14 + hash / 2 ^ 4 % 2 ^ 14
    split = omega arith

    high : bit_and (hash / 2 ^ 4) (2 ^ 64 - 1 - (2 ^ 14 - 1)) ≡ hash / 2 ^ 18 * 2 ^ 14 + 0
    high =
        ap (λ x. bit_and x ((2 ^ 50 - 1) * 2 ^ 14 + 0)) split
        ∙ high_part (hash / 2 ^ 18) (hash / 2 ^ 4 % 2 ^ 14) (omega arith) (omega arith)

-- A key's shard is one of the 16, and the shard and the bucket hash together determine the whole hash of 64
-- bits: keys whose hashes differ are told apart by the shard or by some number of buckets.
pub routing_lem :
    (wyhash : List ℕ → ℕ) (key : List ℕ)
    → wyhash key < 2 ^ 64
    → (shard_for wyhash key < 16)
      × (wyhash key
          ≡ bucket_hash (wyhash key) / 2 ^ 14 * 2 ^ 18
            + shard_for wyhash key * 2 ^ 14
            + bucket_hash (wyhash key) % 2 ^ 14)
unfolding shard_for compute_hash
routing_lem wyhash key small =
    let shard = bit_and_mask 4 (wyhash key / 2 ^ 14) in
    let bucket = bucket_hash_lem (wyhash key) small in
    (omega (arith, shard), omega (arith, shard, bucket))
