-- ===== src/Bits/Fields.antt =====
-- `|` of disjoint fields and `&` with a mask of low bits, as arithmetic: the form in which node ids
-- are joined to an edge id and split again.
use native.Mathlib.Nat.{
  pow-suc, one-le-pow, add-mul-mod_self_left, mod-eq_of_lt, mod-lt, div-add-mod,
}
use anon_graphzeppelin.Base.{
  ℕ, zero, suc, ◌+◌, ◌-◌, ◌*◌, ◌/◌, ◌%◌, ◌^◌, ◌≤◌, ◌<◌, bit_and, bit_or, ◌≡◌, refl, ap, ◌∙◌, arith,
}
use anon_graphzeppelin.Bits.Step.{or_digits, and_digits}

or_zero_below : (n x : ℕ) → x ≤ n → bit_or x 0 ≡ x
or_zero_below n zero p = refl
or_zero_below zero (suc x) p = elim p [ ]
or_zero_below (suc n) (suc x) p =
    omega (arith, or_digits (suc x) 0, or_zero_below n (suc x / 2) (omega arith))

pub bit_or-zero : (x : ℕ) → bit_or x 0 ≡ x
bit_or-zero x = or_zero_below x x (omega arith)

and_zero_below : (n x : ℕ) → x ≤ n → bit_and x 0 ≡ 0
and_zero_below n zero p = refl
and_zero_below zero (suc x) p = elim p [ ]
and_zero_below (suc n) (suc x) p =
    omega (arith, and_digits (suc x) 0, and_zero_below n (suc x / 2) (omega arith))

pub bit_and-zero : (x : ℕ) → bit_and x 0 ≡ 0
bit_and-zero x = and_zero_below x x (omega arith)

twice_shifted : (w high : ℕ) → high * 2 ^ suc w ≡ 2 * (high * 2 ^ w)
twice_shifted w high = omega (arith, ap (λ (p : ℕ). high * p) (pow-suc 2 w))

-- `(high << w) | low` for a `low` of `w` bits.
pub bit_or-shifted : (w high low : ℕ) → low < 2 ^ w → bit_or (high * 2 ^ w) low ≡ high * 2 ^ w + low
bit_or-shifted zero high low fits = ground (arith, bit_or-zero high)
bit_or-shifted (suc w) high low fits =
    let rest = bit_or-shifted w high (low / 2) (omega (arith, pow-suc 2 w)) in
    ground (arith, rest, twice_shifted w high, or_digits (high * 2 ^ suc w) low)

mask_half : (w : ℕ) → (2 ^ suc w - 1) / 2 ≡ 2 ^ w - 1
mask_half w = omega (arith, pow-suc 2 w, one-le-pow w 2 (omega arith))

-- The remainder by an even number, digit by digit.
mod-double : (m x : ℕ) → 0 < m → x % (2 * m) ≡ x % 2 + 2 * (x / 2 % m)
mod-double m x pos =
    ap (λ y. y % (2 * m)) split
    ∙ add-mul-mod_self_left low (2 * m) (x / 2 / m)
    ∙ mod-eq_of_lt (omega (arith, mod-lt (x / 2) pos))
  where
    low : ℕ
    low = x % 2 + 2 * (x / 2 % m)

    split : x ≡ low + 2 * m * (x / 2 / m)
    split = omega (arith, div-add-mod (x / 2) m)

-- A mask of `w` low bits is the remainder by `2 ^ w`.
pub bit_and-mask : (w x : ℕ) → bit_and x (2 ^ w - 1) ≡ x % 2 ^ w
bit_and-mask zero x = omega (arith, bit_and-zero x)
bit_and-mask (suc w) x = omega (
  arith,
  and_digits x (2 ^ suc w - 1),
  ap (bit_and (x / 2)) (mask_half w),
  bit_and-mask w (x / 2),
  mod-double (2 ^ w) x (one-le-pow w 2 (omega arith)),
  ap (λ (p : ℕ). x % p) (pow-suc 2 w),
  ap (λ (p : ℕ). x % p) (pow-two w),
  pow-suc 2 w,
  one-le-pow w 2 (omega arith),
)
  where
    pow-two : (w : ℕ) → 2 ^ w * 2 ≡ 2 * 2 ^ w
    pow-two w = omega arith
