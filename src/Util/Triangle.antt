-- ===== src/Util/Triangle.antt =====
-- `nondirectional_non_self_edge_pairing_fn` numbers the edges without gaps, where the number fits
-- the 32 bits in which it is computed, and its inverse reads the number.
use anon_graphzeppelin.Base.{
  ℕ, zero, suc, ◌+◌, ◌-◌, ◌*◌, ◌/◌, ◌%◌, ◌^◌, ◌<◌, ◌≤◌, ◌≡◌, ◌↔◌, ◌∙◌, refl, sym, ap, inl, inr,
  Bool-cases, arith, bit_and, u64, u32, ◌==◌,
}
use native.Mathlib.Decide.{dec_lt}
use native.Mathlib.Nat.{mul-le-mul}
use anon_graphzeppelin.Bits.Fields.{bit_and-mask}
use anon_graphzeppelin.Util.{
  triangle_index, nondirectional_non_self_edge_pairing_fn, inv_nondir_non_self_edge_pairing_fn,
}

-- 0 + 1 + … + (j - 1)
abbrev pub triangle : ℕ → ℕ
triangle zero = 0
triangle (suc j) = triangle j + j

pub triangle_double : (j : ℕ) → 2 * triangle j + j ≡ j * j
triangle_double zero = refl
triangle_double (suc j) = omega (arith, triangle_double j)

bit_and-one : (x : ℕ) → bit_and x 1 ≡ x % 2
bit_and-one x = bit_and-mask 1 x

even_half : (j : ℕ) → j % 2 ≡ 0 → j / 2 * (j - 1) ≡ triangle j
even_half zero e = refl
even_half (suc m) e =
    let double : suc m / 2 * 2 ≡ suc m = omega arith in
    let less : suc m - 1 ≡ m = omega arith in
    rw less (omega (arith, triangle_double (suc m), ap (λ (t : ℕ). t * m) double))

odd_half : (j : ℕ) → j % 2 ≡ 1 → j * ((j - 1) / 2) ≡ triangle j
odd_half zero e = refl
odd_half (suc m) e =
    let less : suc m - 1 ≡ m = omega arith in
    let double : m / 2 * 2 ≡ m = omega arith in
    rw less (omega (arith, triangle_double (suc m), ap (λ (t : ℕ). t * suc m) double))

less_one : (j : ℕ) → 0 < j → j < 2 ^ 32 → u64 (j + 2 ^ 64 - 1) ≡ j - 1
less_one j pos small = omega arith

-- What is computed, with the cut to 32 bits: i + j * (j - 1) / 2.
pub triangle_index-sum : (i j : ℕ) → j < 2 ^ 32 → triangle_index i j ≡ u32 (i + triangle j)
unfolding triangle_index
triangle_index-sum i zero small = omega (arith, bit_and-one 0)
triangle_index-sum i (suc m) small =
    rw (bit_and-one (suc m), less_one (suc m) (omega arith) small)
      (elim (Bool-cases (suc m % 2 == 0)) [
        | inl even ↦ rw (even, even_half (suc m) (ground arith)) (omega arith)
        | inr odd ↦ rw (odd, odd_half (suc m) (ground arith)) (omega arith)
      ])

-- An integer root: the largest number whose square is not above.
pub record IsRoot (root : ℕ → ℕ) : Type 0 where
  pub below : (x : ℕ) → root x * root x ≤ x
  pub above : (x : ℕ) → x < (root x + 1) * (root x + 1)

square-lt : (a b c : ℕ) → a * a ≤ c → c < b * b → a < b
square-lt a b c p q = elim (dec_lt a b) [
  | yes less ↦ less
  | no more ↦ let b≤a : b ≤ a = omega arith in absurd (omega (arith, mul-le-mul b≤a b≤a))
]

-- The root that the inverse takes lies between 2 * j - 1 and 2 * j.
root_near :
    (root : ℕ → ℕ) (i j : ℕ) → IsRoot root → i < j → (root (8 * (i + triangle j) + 1) + 1) / 2 ≡ j
root_near root i zero r p = absurd (omega arith)
root_near root i (suc m) r p =
    let x = 8 * (i + triangle (suc m)) + 1 in
    let double = triangle_double (suc m) in
    let upper = square-lt (root x) (2 * suc m + 1) x (r.below x) (omega (arith, double)) in
    let lower = square-lt (2 * m + 1) (root x + 1) x (omega (arith, double)) (r.above x) in
    omega (arith, upper, lower)

nondirectional-cut :
    (i j : ℕ)
    → i < j
    → j < 2 ^ 32
    → (nondirectional_non_self_edge_pairing_fn i j ≡ (i + triangle j) % 2 ^ 32)
      × (nondirectional_non_self_edge_pairing_fn j i ≡ (i + triangle j) % 2 ^ 32)
unfolding nondirectional_non_self_edge_pairing_fn
nondirectional-cut i j p s =
    (ground (arith, triangle_index-sum i j s), ground (arith, triangle_index-sum i j s))

nondirectional-number :
    (i j : ℕ)
    → i < j
    → j < 2 ^ 32
    → i + triangle j < 2 ^ 32
    → (nondirectional_non_self_edge_pairing_fn i j ≡ i + triangle j)
      × (nondirectional_non_self_edge_pairing_fn j i ≡ i + triangle j)
unfolding nondirectional_non_self_edge_pairing_fn
nondirectional-number i j p s q =
    (ground (arith, triangle_index-sum i j s), ground (arith, triangle_index-sum i j s))

inv_nondir-number :
    (root : ℕ → ℕ) (i j : ℕ)
    → IsRoot root
    → i < j
    → i + triangle j < 2 ^ 32
    → j < 2 ^ 32
    → inv_nondir_non_self_edge_pairing_fn root (i + triangle j) ≡ record { src = i; dst = j }
unfolding inv_nondir_non_self_edge_pairing_fn
inv_nondir-number root i j r p q s =
    let arg : u64 (u64 (8 * (i + triangle j)) + 1) ≡ 8 * (i + triangle j) + 1 = omega arith in
    let near = root_near root i j r p in
    let end : u64 (root (8 * (i + triangle j) + 1) + 1) / 2 ≡ j = omega (arith, near) in
    rw (arg, end, bit_and-one j, less_one j (omega arith) s)
      (elim (Bool-cases (j % 2 == 0)) [
        | inl even ↦
            rw (even, even_half j (ground arith)) (λ k. record { src = start k; dst = small k })
        | inr odd ↦
            let half : u64 (j - 1) ≡ j - 1 = omega arith in
            rw (odd, odd_half j (ground arith)) (λ k. record { src = start k; dst = small k })
      ])
  where
    start : u32 (u64 (i + triangle j + 2 ^ 64 - u64 (triangle j))) ≡ i
    start = omega arith

    small : u32 j ≡ j
    small = omega arith

-- The two ends of an edge are read from its number, the lower one first: as long as the number
-- fits 32 bits, and the square root is exact.
pub inv_nondir-nondirectional :
    (root : ℕ → ℕ) (i j : ℕ)
    → IsRoot root
    → i < j
    → i + triangle j < 2 ^ 32
    → j < 2 ^ 32
    → (inv_nondir_non_self_edge_pairing_fn root (nondirectional_non_self_edge_pairing_fn i j)
        ≡ record { src = i; dst = j })
      × (inv_nondir_non_self_edge_pairing_fn root (nondirectional_non_self_edge_pairing_fn j i)
          ≡ record { src = i; dst = j })
inv_nondir-nondirectional root i j r p q s =
    let (forth, back) = nondirectional-number i j p s q in
    (rw forth (inv_nondir-number root i j r p q s), rw back (inv_nondir-number root i j r p q s))

-- The number of an edge, in either order of its ends, is the index i + (0 + 1 + … + (j - 1)) cut to 32
-- bits: it is the index itself if and only if the index fits 32 bits, and two edges whose indices
-- differ by a multiple of 2 ^ 32 have one number.
pub nondirectional-overflow :
    (i j : ℕ)
    → i < j
    → j < 2 ^ 32
    → (nondirectional_non_self_edge_pairing_fn i j ≡ (i + triangle j) % 2 ^ 32)
      × (nondirectional_non_self_edge_pairing_fn j i ≡ (i + triangle j) % 2 ^ 32)
      × ((nondirectional_non_self_edge_pairing_fn i j ≡ i + triangle j) ↔ (i + triangle j < 2 ^ 32))
      × ((k m : ℕ)
          → k < m
          → m < 2 ^ 32
          → (k + triangle m) % 2 ^ 32 ≡ (i + triangle j) % 2 ^ 32
          → nondirectional_non_self_edge_pairing_fn k m
            ≡ nondirectional_non_self_edge_pairing_fn i j)
nondirectional-overflow i j p q =
    let (forth, back) = nondirectional-cut i j p q in
    (
      forth,
      back,
      (λ e. omega (arith, forth, e), λ small. omega (arith, forth, small)),
      λ k m r s same. (nondirectional-cut k m r s).0 ∙ same ∙ sym forth,
    )
