-- ===== src/Forest/Link.antt =====
-- A root that is put below another root: the classes of the two become one.
use anon_graphzeppelin.Base.{
  ℕ, ◌+◌, ◌*◌, ◌<◌, ◌≤◌, ◌≡◌, ◌≢◌, refl, sym, ap, ◌∙◌, ◌⊎◌, inl, inr, arith, List, set, length-set,
  get_or-set_self, get_or-set_ne, ◌==◌, if◌then◌else◌,
}
use native.Mathlib.Decide.{ℕ_discrete}
use anon_graphzeppelin.Forest.{at, root_term, Represents}
use anon_graphzeppelin.Forest.Sum.{sum, sum-change, sum-two}

-- The class of `b` joins that of `a`.
abbrev pub join : (ℕ → ℕ) → ℕ → ℕ → ℕ → ℕ
join root a b i = if root i == b then a else root i

module _ {n : ℕ} {parent size : List ℕ} {root : ℕ → ℕ} (rep : Represents n parent size root)
    (a b : ℕ) (pa : a < n) (pb : b < n) (ra : at parent a ≡ a) (rb : at parent b ≡ b)
    (ne : a ≢ b) where
  -- The sizes of two roots do not exceed the number of nodes together.
  pub sizes-le : at size a + at size b ≤ n
  sizes-le = ground (arith, sum-two (root_term parent size) n a b pa pb ne, rep.total, ra, rb)

  abbrev parent' : List ℕ
  parent' = set parent b a

  abbrev size' : List ℕ
  size' = set size a (at size a + at size b)

  parent_b : (i : ℕ) → b ≡ i → at parent' i ≡ a
  parent_b i e = ap (at parent') (sym e) ∙ get_or-set_self parent b a 0 (omega (arith, rep.parents))

  parent_other : (i : ℕ) → b ≢ i → at parent' i ≡ at parent i
  parent_other i e = get_or-set_ne parent b i a 0 e

  size_a : (i : ℕ) → a ≡ i → at size' i ≡ at size a + at size b
  size_a i e =
      ap (at size') (sym e)
      ∙ get_or-set_self size a (at size a + at size b) 0 (omega (arith, rep.sizes))

  size_other : (i : ℕ) → a ≢ i → at size' i ≡ at size i
  size_other i e = get_or-set_ne size a i (at size a + at size b) 0 e

  total_joined : sum (root_term parent' size') n ≡ n
  total_joined =
      let without =
        sum-change (root_term parent size) (λ i. if i == b then 0 else root_term parent size i) n b
          pb (λ i p e. ground arith) in
      let joined =
        sum-change (λ i. if i == b then 0 else root_term parent size i) (root_term parent' size') n
          a pa other_terms in
      ground
        (arith, without, joined, rep.total, ra, rb, size_a a refl, parent_other a (λ e. ne (sym e)))
    where
      other_terms :
          (i : ℕ)
          → i < n
          → a ≢ i
          → (if i == b then 0 else root_term parent size i) ≡ root_term parent' size' i
      other_terms i p e = elim (ℕ_discrete b i) [
        | yes same ↦ ground (arith, parent_b i same)
        | no other ↦ ground (arith, parent_other i other, size_other i e)
      ]

  -- The forest with `b` below `a` stands for the classes with those of `a` and `b` made one.
  pub Represents-link :
      at size b ≤ at size a
      → Represents n (set parent b a) (set size a (at size a + at size b)) (join root a b)
  Represents-link le = record {
    parents = length-set parent b a ∙ rep.parents;
    sizes = length-set size a (at size a + at size b) ∙ rep.sizes;
    inside = λ i p. elim (ℕ_discrete b i) [
      | yes e ↦ rw (parent_b i e) pa
      | no e ↦ rw (parent_other i e) (rep.inside i p)
    ];
    up = up';
    kept = λ i p. elim (ℕ_discrete b i) [
      | yes e ↦
          ap (join root a b) (parent_b i e)
          ∙ ground (arith, rep.own a pa ra, rep.own b pb rb, ap root e, e, ne)
      | no e ↦ ap (join root a b) (parent_other i e) ∙ ground (arith, rep.kept i p)
    ];
    own = λ i p top. elim (ℕ_discrete b i) [
      | yes e ↦ absurd (ne (sym (parent_b i e) ∙ top ∙ sym e))
      | no e ↦ ground (arith, rep.own i p (sym (parent_other i e) ∙ top))
    ];
    top = top';
    root_inside = λ i p. ground (arith, rep.root_inside i p);
    positive = λ i p. elim (ℕ_discrete a i) [
      | yes e ↦ omega (arith, size_a i e, rep.positive a pa)
      | no e ↦ omega (arith, size_other i e, rep.positive i p)
    ];
    small = λ i p. elim (ℕ_discrete a i) [
      | yes e ↦ omega (arith, size_a i e, sizes-le)
      | no e ↦ omega (arith, size_other i e, rep.small i p)
    ];
    total = total_joined;
  }
    where
      grown : (i : ℕ) → at size i ≤ at size' i
      grown i = elim (ℕ_discrete a i) [
        | yes e ↦ omega (arith, size_a i e, ap (at size) e)
        | no e ↦ omega (arith, size_other i e)
      ]

      up' : (i : ℕ) → i < n → (at parent' i ≡ i) ⊎ (2 * at size' i ≤ at size' (at parent' i))
      up' i p = elim (ℕ_discrete b i) [
        | yes e ↦ rw (parent_b i e) (
            inr (
              omega (arith, size_a a refl, size_other i (λ s. ne (s ∙ sym e)), ap (at size) e, le)))
        | no e ↦ rw (parent_other i e) (elim (rep.up i p) [
          | inl is_root ↦ inl is_root
          | inr less ↦ inr (
              omega (
                arith,
                less,
                grown (at parent i),
                size_other i (λ s. omega (
                  arith,
                  less,
                  rep.positive i p,
                  ap (at size) (ap (at parent) (sym s) ∙ ra ∙ s),
                )),
              ))
        ])
      ]

      top' : (i : ℕ) → i < n → at parent' (join root a b i) ≡ join root a b i
      top' i p = elim (ℕ_discrete (root i) b) [
        | yes e ↦
            let joined : join root a b i ≡ a = ground (arith, e) in
            rw joined (parent_other a (λ s. ne (sym s)) ∙ ra)
        | no e ↦
            let same : join root a b i ≡ root i = ground (arith, e) in
            rw same (parent_other (root i) (λ s. e (sym s)) ∙ rep.top i p)
      ]
