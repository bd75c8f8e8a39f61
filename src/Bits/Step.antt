-- ===== src/Bits/Step.antt =====
-- How the lowest binary digits of two numbers, and what is above them, determine the value of
-- each bit operation. The native operations stand for a recursion that counts its rounds; a
-- surplus of rounds is shown to be harmless first.
use Prim.Native.Nat.{differ, digits, bitwise, bit_and-bitwise, bit_or-bitwise, bit_xor-bitwise}
use native.Mathlib.Decide.{ℕ_discrete}
use anon_graphzeppelin.Base.{
  ℕ, zero, suc, ◌+◌, ◌*◌, ◌/◌, ◌%◌, ◌≤◌, ◌<◌, min, max, bit_and, bit_or, bit_xor, ◌≡◌, refl, ap,
  sym, ◌∙◌, arith,
}

module _ (end : ℕ → ℕ) (op : ℕ → ℕ → ℕ) where
  one_round_more :
      (rounds x y : ℕ) → x ≤ rounds → digits end op (suc rounds) x y ≡ digits end op rounds x y
  one_round_more zero zero y fits = refl
  one_round_more (suc rounds) zero y fits = refl
  one_round_more zero (suc x) y fits = elim fits [ ]
  one_round_more (suc rounds) (suc x) y fits =
      ap (λ above. above * 2 + op (suc x % 2) (y % 2))
        (one_round_more rounds (suc x / 2) (y / 2) (omega arith))

  surplus_rounds : (rounds x y : ℕ) → x ≤ rounds → digits end op rounds x y ≡ bitwise end op x y
  surplus_rounds zero zero y fits = refl
  surplus_rounds zero (suc x) y fits = elim fits [ ]
  surplus_rounds (suc rounds) x y fits = elim (ℕ_discrete x (suc rounds)) [
    | yes tight ↦ ap (λ r. digits end op r x y) (sym tight)
    | no loose ↦ one_round_more rounds x y (omega arith) ∙ surplus_rounds rounds x y (omega arith)
  ]

  lowest_digit :
      (x y : ℕ)
      → bitwise end op (suc x) y ≡ op (suc x % 2) (y % 2) + 2 * bitwise end op (suc x / 2) (y / 2)
  lowest_digit x y = omega (arith, surplus_rounds x (suc x / 2) (y / 2) (omega arith))

differ-digits : (x y : ℕ) → x < 2 → y < 2 → differ x y ≡ (x + y) % 2
differ-digits zero y p q = omega arith
differ-digits (suc x) zero p q = omega arith
differ-digits (suc zero) (suc zero) p q = refl
differ-digits (suc zero) (suc (suc y)) p q = absurd (omega arith)
differ-digits (suc (suc x)) (suc y) p q = absurd (omega arith)

pub or_digits : (x y : ℕ) → bit_or x y ≡ max (x % 2) (y % 2) + 2 * bit_or (x / 2) (y / 2)
or_digits zero y = simp bit_or-bitwise (omega arith)
or_digits (suc x) y = simp bit_or-bitwise (lowest_digit (λ d. d) max x y)

pub and_digits : (x y : ℕ) → bit_and x y ≡ min (x % 2) (y % 2) + 2 * bit_and (x / 2) (y / 2)
and_digits zero y = simp bit_and-bitwise (omega arith)
and_digits (suc x) y = simp bit_and-bitwise (lowest_digit (λ _. 0) min x y)

-- The digits of a sum without carry: 1 where exactly one of the two digits is.
pub xor_digits : (x y : ℕ) → bit_xor x y ≡ (x + y) % 2 + 2 * bit_xor (x / 2) (y / 2)
xor_digits zero y = simp bit_xor-bitwise (omega arith)
xor_digits (suc x) y = simp bit_xor-bitwise (
    omega (
      arith,
      lowest_digit (λ d. d) differ x y,
      differ-digits (suc x % 2) (y % 2) (omega arith) (omega arith),
    ))
