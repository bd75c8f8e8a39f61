-- ===== src/Forest/Sum.antt =====
-- Sums over the first indices.
use anon_graphzeppelin.Base.{ℕ, zero, suc, ◌+◌, ◌<◌, ◌≤◌, ◌≡◌, ◌≢◌, refl, ap, arith}
use native.Mathlib.Decide.{ℕ_discrete}

abbrev pub sum : (ℕ → ℕ) → ℕ → ℕ
sum f zero = 0
sum f (suc k) = sum f k + f k

pub sum-ext : (f g : ℕ → ℕ) (k : ℕ) → ((i : ℕ) → i < k → f i ≡ g i) → sum f k ≡ sum g k
sum-ext f g zero e = refl
sum-ext f g (suc k) e = omega (arith, sum-ext f g k (λ i p. e i (omega arith)), e k (omega arith))

-- Two functions that differ at one index have sums that differ as they do there.
pub sum-change :
    (f g : ℕ → ℕ) (k a : ℕ)
    → a < k
    → ((i : ℕ) → i < k → a ≢ i → f i ≡ g i)
    → sum f k + g a ≡ sum g k + f a
sum-change f g zero a p e = absurd (omega arith)
sum-change f g (suc k) a p e = elim (ℕ_discrete a k) [
  | yes same ↦ omega (
    arith,
    sum-ext f g k (λ i q. e i (omega arith) (λ s. absurd (omega (arith, s, same)))),
    ap f same,
    ap g same,
  )
  | no ne ↦
      omega
        (arith, sum-change f g k a (omega arith) (λ i q. e i (omega arith)), e k (omega arith) ne)
]

sum-one : (f : ℕ → ℕ) (k a : ℕ) → a < k → f a ≤ sum f k
sum-one f zero a p = absurd (omega arith)
sum-one f (suc k) a p = elim (ℕ_discrete a k) [
  | yes e ↦ omega (arith, ap f e)
  | no a_ne ↦ omega (arith, sum-one f k a (omega arith))
]

-- Two indices of a sum.
pub sum-two : (f : ℕ → ℕ) (k a b : ℕ) → a < k → b < k → a ≢ b → f a + f b ≤ sum f k
sum-two f zero a b p q ne = absurd (omega arith)
sum-two f (suc k) a b p q ne = elim (ℕ_discrete a k) [
  | yes e ↦ omega (arith, ap f e, sum-one f k b (omega (arith, e, ne)))
  | no a_ne ↦ elim (ℕ_discrete b k) [
    | yes e ↦ omega (arith, ap f e, sum-one f k a (omega (arith, e, ne)))
    | no b_ne ↦ omega (arith, sum-two f k a b (omega arith) (omega arith) ne)
  ]
]
