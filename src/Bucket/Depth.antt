-- ===== src/Bucket/Depth.antt =====
-- The depth of an index: the number of trailing zeros of its hash, cut off at `max_depth`.
use native.Mathlib.Nat.{pow-suc, div-div-eq-div-mul}
use anon_graphzeppelin.Base.{
  ℕ, zero, suc, ◌/◌, ◌%◌, ◌^◌, ◌<◌, ◌≤◌, bit_or, ◌≡◌, ap, sym, ◌∙◌, inl, inr, true, ◌==◌,
  Bool-cases, u64, arith,
}
use anon_graphzeppelin.Bits.Step.{or_digits}
use anon_graphzeppelin.Bucket.{Hashing, ctz, get_index_depth}

-- The binary digit of `n` at a place.
abbrev pub digit : ℕ → ℕ → ℕ
digit n k = n / 2 ^ k % 2

-- `depth` is the place of the lowest digit 1 of `n`, or `most` if that lies at `most` or above.
pub record IsDepth (n most depth : ℕ) : Type 0 where
  pub bounded : depth ≤ most
  pub zeros : (k : ℕ) → k < depth → digit n k ≡ 0
  pub one : depth < most → digit n depth ≡ 1

digit-half : (n k : ℕ) → digit n (suc k) ≡ digit (n / 2) k
digit-half n k =
    ap (λ m. m % 2)
      (ap (λ p. n / p) (pow-suc 2 k ∙ omega arith) ∙ sym (div-div-eq-div-mul n 2 (2 ^ k)))

or_half : (n m : ℕ) → bit_or n (2 ^ suc m) / 2 ≡ bit_or (n / 2) (2 ^ m)
or_half n m = omega (arith, or_digits n (2 ^ suc m), pow-suc 2 m, ap (bit_or (n / 2)) (half m))
  where
    half : (m : ℕ) → 2 ^ suc m / 2 ≡ 2 ^ m
    half m = omega (arith, pow-suc 2 m)

or_low : (n m : ℕ) → bit_or n (2 ^ suc m) % 2 ≡ n % 2
or_low n m = omega (arith, or_digits n (2 ^ suc m), pow-suc 2 m)

IsDepth-half : (n m d : ℕ) → n % 2 ≡ 0 → IsDepth (n / 2) m d → IsDepth n (suc m) (suc d)
IsDepth-half n m d even p = record {
  bounded = omega (arith, p.bounded);
  zeros = zeros;
  one = λ lt. digit-half n d ∙ p.one (omega arith);
}
  where
    zeros : (k : ℕ) → k < suc d → digit n k ≡ 0
    zeros zero lt = omega arith
    zeros (suc k) lt = digit-half n k ∙ p.zeros k (omega arith)

ctz-IsDepth : (m fuel n : ℕ) → m < fuel → IsDepth n m (ctz fuel (bit_or n (2 ^ m)))
unfolding ctz
ctz-IsDepth m zero n h = absurd (omega arith)
ctz-IsDepth zero (suc fuel) n h =
    let odd : (bit_or n 1 % 2 == 1) ≡ true = ground (arith, or_digits n 1) in
    rw odd (record {
      bounded = omega arith;
      zeros = λ k lt. absurd (omega arith);
      one = λ lt. absurd (omega arith);
    })
ctz-IsDepth (suc m) (suc fuel) n h = elim (Bool-cases (bit_or n (2 ^ suc m) % 2 == 1)) [
  | inl odd ↦ rw odd (record {
    bounded = omega arith;
    zeros = λ k lt. absurd (omega arith);
    one = λ lt. ground (arith, or_low n m);
  })
  | inr even ↦
      rw (even, or_half n m)
        (IsDepth-half n m _ (ground (arith, or_low n m)) (ctz-IsDepth m fuel (n / 2) (omega arith)))
]

-- The depth of an index is the number of trailing zeros of its hash, and `max_depth` at most.
pub get_index_depth-IsDepth :
    (h : Hashing) (update_idx seed_and_col max_depth : ℕ)
    → max_depth < 64
    → IsDepth
        (u64 (h.xxh update_idx seed_and_col))
        max_depth
        (get_index_depth h update_idx seed_and_col max_depth)
unfolding get_index_depth
get_index_depth-IsDepth h update_idx seed_and_col max_depth p =
    ctz-IsDepth max_depth 64 (u64 (h.xxh update_idx seed_and_col)) p
