-- ===== src/Bucket.antt =====
-- include/l0_sampling/bucket.h: one bucket of a sketch, a pair (a, c) of an index and a checksum.
-- `XXH3_64bits_withSeed` is not part of the repository: it is a parameter, as is the width of
-- `vec_hash_t`, a type of the guttering library.
pub mod Depth
use native.Mathlib.Nat.{mod-lt, one-le-pow}
use anon_graphzeppelin.Base.{
  ℕ, zero, suc, ◌/◌, ◌%◌, ◌^◌, ◌*◌, bit_or, bit_xor, Bool, ◌==◌, if◌then◌else◌, u64, ◌≡◌, refl,
  true, ◌↔◌, ==_iff, ◌<◌, arith,
}

pub record Hashing : Type 0 where
  pub xxh : ℕ → ℕ → ℕ  -- XXH3_64bits_withSeed of an 8-byte index, at a seed
  pub hash_bytes : ℕ  -- sizeof(vec_hash_t)

-- `__builtin_ctzll`: the number of trailing zeros, for a number below `2 ^ fuel`. It is undefined
-- at 0, where this gives `fuel`.
pub ctz : ℕ → ℕ → ℕ
ctz zero n = 0
ctz (suc fuel) n = let rest = suc (ctz fuel (n / 2)) in if n % 2 == 1 then 0 else rest

module _ (h : Hashing) where
  -- `1ull << max_depth` is defined for a shift below 64.
  pub get_index_depth : ℕ → ℕ → ℕ → ℕ
  get_index_depth update_idx seed_and_col max_depth =
      let depth_hash = bit_or (u64 (h.xxh update_idx seed_and_col)) (2 ^ max_depth) in
      ctz 64 depth_hash

  pub get_index_hash : ℕ → ℕ → ℕ
  get_index_hash index sketch_seed = u64 (h.xxh index sketch_seed) % 256 ^ h.hash_bytes

  pub is_good : ℕ → ℕ → ℕ → Bool
  is_good a c sketch_seed = c == get_index_hash a sketch_seed

-- A bucket passes the test exactly when its checksum is that of its index.
pub is_good_iff :
    (h : Hashing) (a c sd : ℕ) → (is_good h a c sd ≡ true) ↔ (c ≡ get_index_hash h a sd)
unfolding is_good
is_good_iff h a c sd = ==_iff c (get_index_hash h a sd)

pub get_index_hash-lt :
    (h : Hashing) (index sd : ℕ) → get_index_hash h index sd < 256 ^ h.hash_bytes
unfolding get_index_hash
get_index_hash-lt h index sd = mod-lt _ (one-le-pow h.hash_bytes 256 (omega arith))

-- The value of a checksum.
pub get_index_hash_lem :
    (h : Hashing) (index sd : ℕ)
    → get_index_hash h index sd ≡ u64 (h.xxh index sd) % 256 ^ h.hash_bytes
unfolding get_index_hash
get_index_hash_lem h index sd = refl
