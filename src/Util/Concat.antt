-- ===== src/Util/Concat.antt =====
-- `concat_pairing_fn` numbers the undirected edges, and `inv_concat_pairing_fn` reads the number.
use native.Mathlib.Decide.{ℕ_discrete}
use anon_graphzeppelin.Base.{
  ℕ, ◌+◌, ◌*◌, ◌/◌, ◌%◌, ◌^◌, ◌<◌, ◌≤◌, ◌≡◌, ap, ap₂, sym, ◌∙◌, min, max, arith, u64, u32,
}
use anon_graphzeppelin.Bits.Fields.{bit_or-shifted, bit_and-mask}
use anon_graphzeppelin.Types.{Edge}
use anon_graphzeppelin.Util.{concat, concat_pairing_fn, inv_concat_pairing_fn}

concat-sum : (i j : ℕ) → i < 2 ^ 32 → j < 2 ^ 32 → concat i j ≡ i * 2 ^ 32 + j
unfolding concat
concat-sum i j p q =
    let same : u64 (i * 2 ^ 32) ≡ i * 2 ^ 32 = omega arith in rw same (bit_or-shifted 32 i j q)

pub concat_pairing_fn-sum :
    (i j : ℕ) → i < 2 ^ 32 → j < 2 ^ 32 → concat_pairing_fn i j ≡ min i j * 2 ^ 32 + max i j
unfolding concat_pairing_fn
concat_pairing_fn-sum i j p q = ground (arith, concat-sum i j, concat-sum j i)

pub inv_concat_pairing_fn-parts :
    (idx : ℕ) → inv_concat_pairing_fn idx ≡ record { src = u32 (idx / 2 ^ 32); dst = idx % 2 ^ 32 }
unfolding inv_concat_pairing_fn
inv_concat_pairing_fn-parts idx =
    ap (λ d. record { src = u32 (idx / 2 ^ 32); dst = d }) (omega (arith, bit_and-mask 32 idx))

-- The id of an edge gives back its two ends, the lower one first, in whichever order they were.
pub inv_concat-concat :
    (i j : ℕ)
    → i < 2 ^ 32
    → j < 2 ^ 32
    → inv_concat_pairing_fn (concat_pairing_fn i j) ≡ record { src = min i j; dst = max i j }
inv_concat-concat i j p q =
    let sum = concat_pairing_fn-sum i j p q in
    let low : u32 (concat_pairing_fn i j / 2 ^ 32) ≡ min i j = omega (arith, sum) in
    let high : concat_pairing_fn i j % 2 ^ 32 ≡ max i j = omega (arith, sum) in
    inv_concat_pairing_fn-parts (concat_pairing_fn i j) ∙ λ k. record { src = low k; dst = high k }

-- Every number of 64 bits whose halves are in order is the id of the edge that is read from it.
concat-inv_concat :
    (idx : ℕ)
    → idx < 2 ^ 64
    → (inv_concat_pairing_fn idx).src ≤ (inv_concat_pairing_fn idx).dst
    → concat_pairing_fn (inv_concat_pairing_fn idx).src (inv_concat_pairing_fn idx).dst ≡ idx
concat-inv_concat idx p q =
    let parts = inv_concat_pairing_fn-parts idx in
    let high : (inv_concat_pairing_fn idx).src ≡ u32 (idx / 2 ^ 32) =
      ap (λ (e : Edge). e.src) parts in
    let low : (inv_concat_pairing_fn idx).dst ≡ idx % 2 ^ 32 = ap (λ (e : Edge). e.dst) parts in
    omega (
      arith,
      high,
      low,
      concat_pairing_fn-sum (inv_concat_pairing_fn idx).src (inv_concat_pairing_fn idx).dst
          (omega (arith, high)) (omega (arith, low)),
    )

-- The id of an edge does not depend on the order of its ends.
pub concat_pairing_fn_comm : (i j : ℕ) → concat_pairing_fn i j ≡ concat_pairing_fn j i
unfolding concat_pairing_fn
concat_pairing_fn_comm i j = elim (ℕ_discrete i j) [
  | yes e ↦ ap₂ concat_pairing_fn e (sym e)
  | no ne ↦ ground (arith, ne)
]
