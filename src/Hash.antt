-- ===== src/Hash.antt =====
-- src/engine/hash.rs: the hash of a key and its parts. `wyhash` stands for the crate's
-- `WyHash::with_seed(0)` fed with the key bytes and finished.
use pulse_map.Base.{ℕ, ◌/◌, ◌^◌, ◌<◌, arith, List, bit_and, bit_and_mask, ◌>>>◌}

pub record HashResult : Type 0 where
  pub h1 : ℕ
  pub h2 : ℕ
  pub ext_fp_hi : ℕ
  pub ext_fp : ℕ

module _ (wyhash : List ℕ → ℕ) where
  unfoldable pub compute_hash : List ℕ → HashResult
  compute_hash key =
      let full = wyhash key in
      record {
        h1 = full;
        h2 = bit_and (full >>> 57) 0x7F;
        ext_fp_hi = bit_and (full >>> 50) 0x7F;
        ext_fp = bit_and (full >>> 18) 0xFFFFFFFF;
      }

  -- The parts fit their fields.
  pub compute_hash_bounds :
      (key : List ℕ)
      → let hr = compute_hash key in (hr.h2 < 128) × (hr.ext_fp_hi < 128) × (hr.ext_fp < 2 ^ 32)
  unfolding compute_hash
  compute_hash_bounds key =
      let full = wyhash key in
      (
        omega (arith, bit_and_mask 7 (full / 2 ^ 57)),
        omega (arith, bit_and_mask 7 (full / 2 ^ 50)),
        omega (arith, bit_and_mask 32 (full / 2 ^ 18)),
      )
