-- ===== src/Dsu/Find.antt =====
-- `find_root` finds the root, and leaves the classes as they are.
use anon_graphzeppelin.Base.{
  ℕ, zero, suc, ◌*◌, ◌^◌, ◌<◌, ◌≤◌, ◌≡◌, ◌≢◌, sym, ap, ◌∙◌, inl, inr, arith, false, some, set, ◌==◌,
}
use native.Mathlib.Decide.{ℕ_discrete}
use native.Mathlib.Nat.{mul-le-mul_right, pow-succ', mul_assoc, mul_comm}
use anon_graphzeppelin.Forest.{at, Represents, Represents-compress}
use anon_graphzeppelin.Dsu.{DisjointSetUnion, Found, find_root}

-- The object stands for the classes of `root`.
abbrev pub Stands : ℕ → DisjointSetUnion → (ℕ → ℕ) → Type 0
Stands n d root = Represents n d.parent d.size root

-- The condition of the loop holds at the roots alone.
grand-root :
    {n : ℕ} {d : DisjointSetUnion} {root : ℕ → ℕ}
    → Stands n d root
    → (u : ℕ) → u < n
    → at d.parent (at d.parent u) ≡ u
    → at d.parent u ≡ u
grand-root {d = d} rep u p e = elim (rep.up u p) [
  | inl is_root ↦ is_root
  | inr less ↦ elim (rep.up (at d.parent u) (rep.inside u p)) [
    | inl is_root ↦ sym is_root ∙ e
    | inr more ↦ absurd (omega (arith, less, more, rep.positive u p, ap (at d.size) e))
  ]
]

-- What one round of the loop leaves behind.
round-Represents :
    {n : ℕ} {d : DisjointSetUnion} {root : ℕ → ℕ}
    → Stands n d root
    → (u : ℕ) → u < n
    → at d.parent (at d.parent u) ≢ u
    → Represents n (set d.parent u (at d.parent (at d.parent u))) d.size root
      × (2 * at d.size u ≤ at d.size (at d.parent (at d.parent u)))
round-Represents {d = d} {root = root} rep u p ne = elim (rep.up u p) [
  | inl is_root ↦ absurd (ne (ap (at d.parent) is_root ∙ is_root))
  | inr less ↦
      let doubled = doubled_again less in
      (
        Represents-compress rep u (at d.parent (at d.parent u)) p
            (rep.inside (at d.parent u) (rep.inside u p)) doubled
            (rep.kept (at d.parent u) (rep.inside u p) ∙ rep.kept u p)
            (λ e. ne (ap (at d.parent) e ∙ e)),
        doubled,
      )
]
  where
    doubled_again :
        2 * at d.size u ≤ at d.size (at d.parent u)
        → 2 * at d.size u ≤ at d.size (at d.parent (at d.parent u))
    doubled_again less = elim (rep.up (at d.parent u) (rep.inside u p)) [
      | inl is_root ↦ omega (arith, less, ap (at d.size) is_root)
      | inr more ↦ omega (arith, less, more)
    ]

pub more_than : (n s g fuel : ℕ) → n < s * 2 ^ suc fuel → 2 * s ≤ g → n < g * 2 ^ fuel
more_than n s g fuel enough doubled =
    let twice : s * 2 ^ suc fuel ≡ 2 * s * 2 ^ fuel =
      ap (λ k. s * k) (pow-succ' 2 fuel)
      ∙ sym (mul_assoc s 2 (2 ^ fuel))
      ∙ ap (λ k. k * 2 ^ fuel) (mul_comm s 2) in
    omega (arith, mul-le-mul_right (2 ^ fuel) doubled, twice, enough)

-- In a forest of `n` nodes the loop ends after at most `fuel` tests, if n < 2 ^ fuel: it returns
-- the root of the node, and the object stands for the same classes.
pub find_root-Represents :
    (n : ℕ) (root : ℕ → ℕ) (fuel : ℕ) (d : DisjointSetUnion) (u : ℕ)
    → Stands n d root
    → u < n
    → n < at d.size u * 2 ^ fuel
    → (f : Found ℕ) × (find_root fuel d u ≡ some f) × (f.value ≡ root u) × Stands n f.dsu root
unfolding find_root
find_root-Represents n root zero d u rep p enough = absurd (omega (arith, rep.small u p))
find_root-Represents n root (suc fuel) d u rep p enough =
    elim (ℕ_discrete (at d.parent (at d.parent u)) u) [
      | yes e ↦ (
        record { dsu = d; value = u },
        ground (arith, e),
        sym (rep.own u p (grand-root rep u p e)),
        rep,
      )
      | no ne ↦
          let (next, doubled) = round-Represents {d = d} rep u p ne in
          let grand = at d.parent (at d.parent u) in
          let grand-lt : grand < n = rep.inside (at d.parent u) (rep.inside u p) in
          let (f, run, is_root, after) =
            find_root-Represents n root fuel (record d { parent = set d.parent u grand }) grand next
              grand-lt (more_than n (at d.size u) (at d.size grand) fuel enough doubled) in
          (
            f,
            (let off : (grand == u) ≡ false = ground (arith, ne) in rw off run),
            is_root ∙ rep.kept (at d.parent u) (rep.inside u p) ∙ rep.kept u p,
            after,
          )
    ]
