-- ===== src/Sketch/Arrays.antt =====
-- The bucket arrays under `^=`: the order of writes is immaterial, and a write undoes itself.
use anon_graphzeppelin.Base.{
  ℕ, zero, suc, ◌<◌, bit_xor, ◌≡◌, refl, ap, ap₂, sym, ◌∙◌, ◌≢◌, List, [], ◌∷◌, arith, length,
  get_or, replicate, length-set,
}
use anon_graphzeppelin.Bits.Xor.{
  bit_xor_cancel, bit_xor_right_comm, bit_xor_assoc, bit_xor-zero, bit_xor_self, bit_xor_comm,
}
use anon_graphzeppelin.Sketch.{xor_at, xor_arrays}

pub length-xor_at : (xs : List ℕ) (i v : ℕ) → length (xor_at xs i v) ≡ length xs
unfolding xor_at
length-xor_at xs i v = length-set xs i _

pub xor_at_comm :
    (xs : List ℕ) (i j v w : ℕ) → xor_at (xor_at xs i v) j w ≡ xor_at (xor_at xs j w) i v
unfolding xor_at
xor_at_comm [] i j v w = refl
xor_at_comm (x ∷ xs) zero zero v w = ap (λ y. y ∷ xs) (bit_xor_right_comm x v w)
xor_at_comm (x ∷ xs) zero (suc j) v w = refl
xor_at_comm (x ∷ xs) (suc i) zero v w = refl
xor_at_comm (x ∷ xs) (suc i) (suc j) v w = ap (λ ys. x ∷ ys) (xor_at_comm xs i j v w)

pub xor_at_cancel : (xs : List ℕ) (i v : ℕ) → xor_at (xor_at xs i v) i v ≡ xs
unfolding xor_at
xor_at_cancel [] i v = refl
xor_at_cancel (x ∷ xs) zero v = ap (λ y. y ∷ xs) (bit_xor_cancel x v)
xor_at_cancel (x ∷ xs) (suc i) v = ap (λ ys. x ∷ ys) (xor_at_cancel xs i v)

pub get_or-xor_at_self :
    (xs : List ℕ) (i v : ℕ) → i < length xs → get_or (xor_at xs i v) i 0 ≡ bit_xor (get_or xs i 0) v
unfolding xor_at
get_or-xor_at_self [] i v h = absurd (omega arith)
get_or-xor_at_self (x ∷ xs) zero v h = refl
get_or-xor_at_self (x ∷ xs) (suc i) v h = get_or-xor_at_self xs i v (omega arith)

pub get_or-xor_at_ne :
    (xs : List ℕ) (i j v : ℕ) → i ≢ j → get_or (xor_at xs i v) j 0 ≡ get_or xs j 0
unfolding xor_at
get_or-xor_at_ne [] i j v h = refl
get_or-xor_at_ne (x ∷ xs) zero zero v h = absurd (h refl)
get_or-xor_at_ne (x ∷ xs) zero (suc j) v h = refl
get_or-xor_at_ne (x ∷ xs) (suc i) zero v h = refl
get_or-xor_at_ne (x ∷ xs) (suc i) (suc j) v h = get_or-xor_at_ne xs i j v (λ e. h (ap suc e))

pub length-xor_arrays : (xs ys : List ℕ) → length (xor_arrays xs ys) ≡ length xs
unfolding xor_arrays
length-xor_arrays [] ys = refl
length-xor_arrays (x ∷ xs) [] = refl
length-xor_arrays (x ∷ xs) (y ∷ ys) = ap suc (length-xor_arrays xs ys)

pub xor_arrays-xor_at :
    (xs ys : List ℕ) (i v : ℕ)
    → length xs ≡ length ys
    → xor_arrays xs (xor_at ys i v) ≡ xor_at (xor_arrays xs ys) i v
unfolding xor_arrays xor_at
xor_arrays-xor_at [] ys i v e = refl
xor_arrays-xor_at (x ∷ xs) [] i v e = absurd (omega arith)
xor_arrays-xor_at (x ∷ xs) (y ∷ ys) zero v e =
    ap (λ z. z ∷ xor_arrays xs ys) (sym (bit_xor_assoc x y v))
xor_arrays-xor_at (x ∷ xs) (y ∷ ys) (suc i) v e =
    ap (λ zs. bit_xor x y ∷ zs) (xor_arrays-xor_at xs ys i v (omega arith))

pub xor_arrays-replicate : (n : ℕ) (xs : List ℕ) → xor_arrays xs (replicate n 0) ≡ xs
unfolding xor_arrays
xor_arrays-replicate n [] = refl
xor_arrays-replicate zero (x ∷ xs) = refl
xor_arrays-replicate (suc n) (x ∷ xs) = ap₂ ◌∷◌ (bit_xor-zero x) (xor_arrays-replicate n xs)

pub xor_arrays_self : (xs : List ℕ) → xor_arrays xs xs ≡ replicate (length xs) 0
unfolding xor_arrays
xor_arrays_self [] = refl
xor_arrays_self (x ∷ xs) = ap₂ ◌∷◌ (bit_xor_self x) (xor_arrays_self xs)

-- Adding an array that is not all zeros changes the array.
pub xor_arrays-fixed :
    (xs ys : List ℕ) → length xs ≡ length ys → xor_arrays xs ys ≡ xs → ys ≡ replicate (length ys) 0
unfolding xor_arrays
xor_arrays-fixed xs [] e h = refl
xor_arrays-fixed [] (y ∷ ys) e h = absurd (omega arith)
xor_arrays-fixed (x ∷ xs) (y ∷ ys) e h =
    ap₂ ◌∷◌ (own_inverse (cc h)) (xor_arrays-fixed xs ys (omega arith) (cc h))
  where
    own_inverse : bit_xor x y ≡ x → y ≡ 0
    own_inverse p =
        sym (bit_xor_cancel y x) ∙ ap (λ z. bit_xor z x) (bit_xor_comm y x ∙ p) ∙ bit_xor_self x
