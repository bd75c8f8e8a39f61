-- ===== src/Util.antt =====
-- include/util.h and src/util.cpp: edge ids of pairs of node ids. A `node_id_t` has 32 bits and an
-- `edge_id_t` 64.
pub mod Concat
pub mod Triangle
use anon_graphzeppelin.Base.{
  ℕ, ◌+◌, ◌-◌, ◌*◌, ◌/◌, ◌%◌, ◌^◌, bit_and, bit_or, ltb, ◌==◌, if◌then◌else◌, u32, u64,
}
use anon_graphzeppelin.Types.{Edge}

-- `concat_pairing_fn` behind the swap: `((edge_id_t)i << 32) | j`.
unfoldable pub concat : ℕ → ℕ → ℕ
concat i j = bit_or (u64 (i * 2 ^ 32)) j

unfoldable pub concat_pairing_fn : ℕ → ℕ → ℕ
concat_pairing_fn i j = if ltb j i then concat j i else concat i j

unfoldable pub inv_concat_pairing_fn : ℕ → Edge
inv_concat_pairing_fn idx = record {
  src = u32 (idx / 2 ^ 32);
  dst = u32 (bit_and idx (2 ^ 32 - 1));
}

-- `nondirectional_non_self_edge_pairing_fn` behind the swap. `jm` has 64 bits; `j *= jm` and `i + j`
-- are cut to the 32 bits of `node_id_t`.
pub triangle_index : ℕ → ℕ → ℕ
triangle_index i j =
    let jm = u64 (j + 2 ^ 64 - 1) in
    if bit_and j 1 == 0 then u32 (i + u32 (j / 2 * jm)) else u32 (i + u32 (j * (jm / 2)))

pub nondirectional_non_self_edge_pairing_fn : ℕ → ℕ → ℕ
nondirectional_non_self_edge_pairing_fn i j =
    if ltb j i then triangle_index j i else triangle_index i j

-- `(ull)(sqrt(x) + 1)` is computed with a `double`: `root` stands for the truncated square root.
pub inv_nondir_non_self_edge_pairing_fn : (ℕ → ℕ) → ℕ → Edge
inv_nondir_non_self_edge_pairing_fn root idx =
    let j = u64 (root (u64 (u64 (8 * idx) + 1)) + 1) / 2 in
    let i =
      if bit_and j 1 == 0
      then u64 (idx + 2 ^ 64 - u64 (j / 2 * u64 (j + 2 ^ 64 - 1)))
      else u64 (idx + 2 ^ 64 - u64 (j * (u64 (j + 2 ^ 64 - 1) / 2))) in
    record { src = u32 i; dst = u32 j }
