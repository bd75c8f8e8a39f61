-- ===== src/Forest.antt =====
-- The parent and size arrays that include/dsu.h and src/graph.cpp keep, and what they stand for: a
-- map from each node to the root of its tree.
pub mod Sum
pub mod Link
use anon_graphzeppelin.Base.{
  ℕ, zero, suc, ◌+◌, ◌-◌, ◌*◌, ◌<◌, ◌≤◌, ◌≡◌, ◌≢◌, refl, sym, ap, subst, ◌∙◌, ◌⊎◌, inl, inr, arith,
  List, length, get_or, set, length-set, get_or-set_self, get_or-set_ne, ◌==◌, if◌then◌else◌, Bool,
  true, false,
}
use native.Mathlib.Decide.{ℕ_discrete, dec_lt}
use Sum.{sum, sum-ext}

abbrev pub at : List ℕ → ℕ → ℕ
at xs i = get_or xs i 0

-- The size of a tree, counted at its root.
abbrev pub root_term : List ℕ → List ℕ → ℕ → ℕ
root_term parent size i = if at parent i == i then at size i else 0

-- The arrays of `n` nodes are a forest in which `root` leads each node to its root: a parent has at
-- least twice the size of its child, and the sizes of the roots sum up to `n`.
pub record Represents (n : ℕ) (parent size : List ℕ) (root : ℕ → ℕ) : Type 0 where
  pub parents : length parent ≡ n
  pub sizes : length size ≡ n
  pub inside : (i : ℕ) → i < n → at parent i < n
  pub up : (i : ℕ) → i < n → (at parent i ≡ i) ⊎ (2 * at size i ≤ at size (at parent i))
  pub kept : (i : ℕ) → i < n → root (at parent i) ≡ root i
  pub own : (i : ℕ) → i < n → at parent i ≡ i → root i ≡ i
  pub top : (i : ℕ) → i < n → at parent (root i) ≡ root i
  pub root_inside : (i : ℕ) → i < n → root i < n
  pub positive : (i : ℕ) → i < n → 1 ≤ at size i
  pub small : (i : ℕ) → i < n → at size i ≤ n
  pub total : sum (root_term parent size) n ≡ n

module _ {n : ℕ} {parent size : List ℕ} {root : ℕ → ℕ} (rep : Represents n parent size root) where
  pub root_root : (i : ℕ) → i < n → root (root i) ≡ root i
  root_root i p = rep.own (root i) (rep.root_inside i p) (rep.top i p)

  size_up : (left i : ℕ) → i < n → n < at size i + left → at size i ≤ at size (root i)
  size_up zero i p q = absurd (omega (arith, rep.small i p))
  size_up (suc left) i p q = elim (rep.up i p) [
    | inl is_root ↦ omega (arith, ap (at size) (rep.own i p is_root))
    | inr less ↦
        let higher =
          size_up left (at parent i) (rep.inside i p) (omega (arith, less, rep.positive i p)) in
        omega (arith, less, higher, ap (at size) (rep.kept i p))
  ]

  -- No size is above that of the root.
  pub size_root : (i : ℕ) → i < n → at size i ≤ at size (root i)
  size_root i p = size_up (suc n) i p (omega arith)

  -- A node may get another parent in its tree, of at least twice the size.
  pub Represents-compress :
      (u x : ℕ)
      → u < n
      → x < n
      → 2 * at size u ≤ at size x
      → root x ≡ root u
      → at parent u ≢ u
      → Represents n (set parent u x) size root
  Represents-compress u x p q less same not_root = record {
    parents = length-set parent u x ∙ rep.parents;
    sizes = rep.sizes;
    inside = λ i pi. elim (ℕ_discrete u i) [
      | yes e ↦ rw (at_this i e) q
      | no ne ↦ rw (at_other i ne) (rep.inside i pi)
    ];
    up = λ i pi. elim (ℕ_discrete u i) [
      | yes e ↦ rw (at_this i e) (inr (subst (λ k. 2 * at size k ≤ at size x) e less))
      | no ne ↦ rw (at_other i ne) (rep.up i pi)
    ];
    kept = λ i pi. elim (ℕ_discrete u i) [
      | yes e ↦ rw (at_this i e) (same ∙ ap root e)
      | no ne ↦ rw (at_other i ne) (rep.kept i pi)
    ];
    own = λ i pi e'. elim (ℕ_discrete u i) [
      | yes e ↦
          absurd
            (omega (arith, less, rep.positive u p, ap (at size) (sym (at_this i e) ∙ e' ∙ sym e)))
      | no ne ↦ rep.own i pi (sym (at_other i ne) ∙ e')
    ];
    top = λ i pi. at_other (root i) (off_root i pi) ∙ rep.top i pi;
    root_inside = rep.root_inside;
    positive = rep.positive;
    small = rep.small;
    total = sum-ext _ _ n same_term ∙ rep.total;
  }
    where
      at_this : (i : ℕ) → u ≡ i → at (set parent u x) i ≡ x
      at_this i e =
          ap (at (set parent u x)) (sym e)
          ∙ get_or-set_self parent u x 0 (omega (arith, rep.parents))

      at_other : (i : ℕ) → u ≢ i → at (set parent u x) i ≡ at parent i
      at_other i ne = get_or-set_ne parent u i x 0 ne

      off_root : (i : ℕ) → i < n → u ≢ root i
      off_root i pi e = not_root (ap (at parent) e ∙ rep.top i pi ∙ sym e)

      same_term : (i : ℕ) → i < n → root_term (set parent u x) size i ≡ root_term parent size i
      same_term i pi = elim (ℕ_discrete u i) [
        | yes e ↦ ground (arith, at_this i e, less, not_root, e, ap (at parent) e, ap (at size) e)
        | no ne ↦ rw (at_other i ne) refl
      ]

-- The arrays stand for one map only.
pub root_unique :
    {n : ℕ} {parent size : List ℕ} {root root' : ℕ → ℕ}
    → Represents n parent size root
    → Represents n parent size root'
    → (i : ℕ) → i < n
    → root i ≡ root' i
root_unique {n = n} {parent = parent} {size = size} {root = root} {root' = root'} p q i lt =
    from (suc n) i lt (omega arith)
  where
    from : (left i : ℕ) → i < n → n < at size i + left → root i ≡ root' i
    from zero i lt enough = absurd (omega (arith, p.small i lt))
    from (suc left) i lt enough = elim (p.up i lt) [
      | inl top ↦ p.own i lt top ∙ sym (q.own i lt top)
      | inr less ↦
          sym (p.kept i lt)
          ∙ from left (at parent i) (p.inside i lt) (omega (arith, less, p.positive i lt))
          ∙ q.kept i lt
    ]
