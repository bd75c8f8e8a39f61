-- ===== src/Stream.antt =====
-- Binary streams: `std::ostream::write` and `std::istream::read` of little-endian integers, as the
-- program uses them on `seed`, `num_nodes`, bucket arrays and the like.
-- A stream is the list of its bytes. A read past the end leaves the destination with bytes that
-- the program does not determine, which is `none` here.
use anon_graphzeppelin.Base.{
  ℕ, zero, suc, ◌+◌, ◌*◌, ◌/◌, ◌%◌, ◌^◌, ◌<◌, ◌≡◌, refl, List, [], ◌∷◌, ◌++◌, Option, none, some,
  arith, length, ap, length-append,
}
use mathlib.Core.List.{append_assoc}
use native.Mathlib.Nat.{pow-suc}

abbrev pub Reader {ℓ} : Type ℓ → Type ℓ
Reader A = List ℕ → Option (A × List ℕ)

infixl 5 ◌>>=◌
abbrev pub ◌>>=◌ {ℓ κ} : {A : Type ℓ} {B : Type κ} → Reader A → (A → Reader B) → Reader B
◌>>=◌ m f bytes = elim (m bytes) [ none ↦ none | some (a, rest) ↦ f a rest ]

abbrev pub done {ℓ} : {A : Type ℓ} → A → Reader A
done a bytes = some (a, bytes)

-- The `k` bytes of `v`, lowest first.
pub write_uint : ℕ → ℕ → List ℕ
write_uint zero v = []
write_uint (suc k) v = v % 256 ∷ write_uint k (v / 256)

pub read_uint : ℕ → Reader ℕ
read_uint zero bytes = some (0, bytes)
read_uint (suc k) [] = none
read_uint (suc k) (b ∷ bytes) = elim (read_uint k bytes) [
  | none ↦ none
  | some (high, rest) ↦ some (b + 256 * high, rest)
]

-- `count` elements of `k` bytes each.
pub write_array : ℕ → List ℕ → List ℕ
write_array k [] = []
write_array k (v ∷ vs) = write_uint k v ++ write_array k vs

pub read_array : ℕ → ℕ → Reader (List ℕ)
read_array k zero bytes = some ([], bytes)
read_array k (suc count) bytes = elim (read_uint k bytes) [
  | none ↦ none
  | some (v, rest) ↦ elim (read_array k count rest) [
    | none ↦ none
    | some (vs, end) ↦ some (v ∷ vs, end)
  ]
]

-- Every element fits `k` bytes.
abbrev pub Fits : ℕ → List ℕ → Type 0
Fits k [] = Unit {0}
Fits k (v ∷ vs) = (v < 256 ^ k) × Fits k vs

pub read_uint-write_uint :
    (k v : ℕ) (rest : List ℕ) → v < 256 ^ k → read_uint k (write_uint k v ++ rest) ≡ some (v, rest)
unfolding read_uint write_uint
read_uint-write_uint zero v rest h = ground arith
read_uint-write_uint (suc k) v rest h =
    rw (read_uint-write_uint k (v / 256) rest (omega (arith, pow-suc 256 k))) (ground arith)

pub read_array-write_array :
    (k : ℕ) (vs rest : List ℕ)
    → Fits k vs
    → read_array k (length vs) (write_array k vs ++ rest) ≡ some (vs, rest)
unfolding read_array write_array
read_array-write_array k [] rest h = refl
read_array-write_array k (v ∷ vs) rest h =
    rw
      (
        append_assoc,
        read_array,
        read_uint-write_uint k v (write_array k vs ++ rest) h.0,
        read_array-write_array k vs rest h.1,
      )
      refl

pub length-write_uint : (k v : ℕ) → length (write_uint k v) ≡ k
unfolding write_uint
length-write_uint zero v = refl
length-write_uint (suc k) v = ap suc (length-write_uint k (v / 256))

pub length-write_array : (k : ℕ) (vs : List ℕ) → length (write_array k vs) ≡ length vs * k
unfolding write_array
length-write_array k [] = omega arith
length-write_array k (v ∷ vs) = omega (
  arith,
  length-append (write_uint k v) (write_array k vs),
  length-write_uint k v,
  length-write_array k vs,
)
