-- ===== src/Tests/UtilRuns.antt =====
-- The numbering of the edges at fixed inputs.
use anon_graphzeppelin.Base.{
  ℕ, zero, suc, ◌+◌, ◌*◌, ◌<◌, ◌≤◌, ◌≡◌, ◌↔◌, ◌%◌, ◌^◌, arith, min, max, leb, if◌then◌else◌,
}
use anon_graphzeppelin.Util.{
  concat_pairing_fn, inv_concat_pairing_fn, nondirectional_non_self_edge_pairing_fn,
  inv_nondir_non_self_edge_pairing_fn,
}
use anon_graphzeppelin.Util.Concat.{inv_concat-concat}
use anon_graphzeppelin.Util.Triangle.{
  triangle, IsRoot, inv_nondir-nondirectional, nondirectional-overflow,
}

-- The integer root, one number at a time.
abbrev isqrt : ℕ → ℕ
isqrt zero = 0
isqrt (suc x) = let r = isqrt x in if leb ((r + 1) * (r + 1)) (suc x) then r + 1 else r

isqrt_below : (x : ℕ) → isqrt x * isqrt x ≤ x
isqrt_below zero = omega arith
isqrt_below (suc x) = ground (arith, isqrt_below x)

isqrt_above : (x : ℕ) → x < (isqrt x + 1) * (isqrt x + 1)
isqrt_above zero = omega arith
isqrt_above (suc x) = ground (arith, isqrt_above x)

isqrt-IsRoot : IsRoot isqrt
isqrt-IsRoot = record { below = isqrt_below; above = isqrt_above }

inv_concat-concat_example :
    inv_concat_pairing_fn (concat_pairing_fn 9 4) ≡ record { src = min 9 4; dst = max 9 4 }
inv_concat-concat_example = inv_concat-concat 9 4 (omega arith) (omega arith)

inv_nondir-nondirectional_example :
    (inv_nondir_non_self_edge_pairing_fn isqrt (nondirectional_non_self_edge_pairing_fn 2 5)
      ≡ record { src = 2; dst = 5 })
    × (inv_nondir_non_self_edge_pairing_fn isqrt (nondirectional_non_self_edge_pairing_fn 5 2)
        ≡ record { src = 2; dst = 5 })
inv_nondir-nondirectional_example =
    inv_nondir-nondirectional isqrt 2 5 isqrt-IsRoot (omega arith) (omega arith) (omega arith)

nondirectional-overflow_example :
    (nondirectional_non_self_edge_pairing_fn 3 92683 ≡ (3 + triangle 92683) % 2 ^ 32)
    × (nondirectional_non_self_edge_pairing_fn 92683 3 ≡ (3 + triangle 92683) % 2 ^ 32)
    × ((nondirectional_non_self_edge_pairing_fn 3 92683 ≡ 3 + triangle 92683)
        ↔ (3 + triangle 92683 < 2 ^ 32))
    × ((k m : ℕ)
        → k < m
        → m < 2 ^ 32
        → (k + triangle m) % 2 ^ 32 ≡ (3 + triangle 92683) % 2 ^ 32
        → nondirectional_non_self_edge_pairing_fn k m
          ≡ nondirectional_non_self_edge_pairing_fn 3 92683)
nondirectional-overflow_example = nondirectional-overflow 3 92683 (omega arith) (omega arith)
