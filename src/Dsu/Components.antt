-- ===== src/Dsu/Components.antt =====
-- A sequence of merges computes the connected components of the edges that it is given.
use anon_graphzeppelin.Base.{
  Distinct, Below, ◌≤◌, ℕ, zero, suc, ◌+◌, ◌^◌, ◌<◌, ◌≡◌, refl, sym, ap, ◌∙◌, ◌⊎◌, inl, inr, ◌↔◌,
  arith, Option, some, and_then, List, [], ◌∷◌, length, length-replicate, replicate,
}
use mathlib.Core.List.{Memᴰ}
use native.Mathlib.Decide.{ℕ_discrete}
use anon_graphzeppelin.Types.{Edge}
use anon_graphzeppelin.Forest.{Represents, at, root_term}
use anon_graphzeppelin.Forest.Sum.{sum, sum-ext}
use anon_graphzeppelin.Forest.Link.{join}
use anon_graphzeppelin.Dsu.{DisjointSetUnion, DsuMergeRet, Found, merge, make, reset, identity}
use anon_graphzeppelin.Dsu.Find.{Stands}
use anon_graphzeppelin.Dsu.Merge.{Merged, merge-Merged}
use anon_graphzeppelin.Dsu.Merge.Classes.{
  Linked, Linked-none, Linked-drop, Linked-keep, Linked-join, Linked-split,
}

pub length-identity : (left i : ℕ) → length (identity left i) ≡ left
unfolding identity
length-identity zero i = refl
length-identity (suc left) i = ap suc (length-identity left (i + 1))

at-identity : (left i k : ℕ) → k < left → at (identity left i) k ≡ i + k
unfolding identity
at-identity zero i k p = absurd (omega arith)
at-identity (suc left) i zero p = omega arith
at-identity (suc left) i (suc k) p = omega (arith, at-identity left (i + 1) k (omega arith))

own_parent : (n i : ℕ) → i < n → at (identity n 0) i ≡ i
own_parent n i p = omega (arith, at-identity n 0 i p)

at-ones : (n k : ℕ) → k < n → at (replicate n 1) k ≡ 1
at-ones zero k p = absurd (omega arith)
at-ones (suc n) zero p = refl
at-ones (suc n) (suc k) p = at-ones n k (omega arith)

sum-ones : (n : ℕ) → sum (λ _. 1) n ≡ n
sum-ones zero = refl
sum-ones (suc n) = omega (arith, sum-ones n)

-- In a new object each node is a class of its own.
pub make-Stands : (n : ℕ) → Stands n (make n) (λ i. i)
unfolding make
make-Stands n = record {
  parents = length-identity n 0;
  sizes = length-replicate n 1;
  inside = λ i p. omega (arith, at-identity n 0 i p);
  up = λ i p. inl (own_parent n i p);
  kept = λ i p. own_parent n i p;
  own = λ i p e. refl;
  top = λ i p. own_parent n i p;
  root_inside = λ i p. p;
  positive = λ i p. omega (arith, at-ones n i p);
  small = λ i p. omega (arith, at-ones n i p);
  total =
      sum-ext (root_term (identity n 0) (replicate n 1)) (λ _. 1) n
        (λ i p. ground (arith, at-identity n 0 i p, at-ones n i p))
      ∙ sum-ones n;
}

pub identity-Below : (n left i : ℕ) → i + left ≤ n → Below n (identity left i)
unfolding identity
identity-Below n zero i p = tt
identity-Below n (suc left) i p = (omega arith, identity-Below n left (i + 1) (omega arith))

-- The list has all the nodes.
pub Memᴰ-identity : (left i k : ℕ) → i ≤ k → k < i + left → Memᴰ k (identity left i)
unfolding identity
Memᴰ-identity zero i k p q = absurd (omega arith)
Memᴰ-identity (suc left) i k p q = elim (ℕ_discrete k i) [
  | yes e ↦ Memᴰ.head e
  | no ne ↦ Memᴰ.tail (Memᴰ-identity left (i + 1) k (omega arith) (omega arith))
]

identity-has : (left i k : ℕ) → Memᴰ k (identity left i) → (i ≤ k) × (k < i + left)
unfolding identity
identity-has zero i k m = elim m [ ]
identity-has (suc left) i k (Memᴰ.head e) = (omega (arith, e), omega (arith, e))
identity-has (suc left) i k (Memᴰ.tail m) =
    let (le, lt) = identity-has left (i + 1) k m in (omega (arith, le), omega (arith, lt))

pub identity-lt : (n k : ℕ) → Memᴰ k (identity n 0) → k < n
identity-lt n k m = omega (arith, (identity-has n 0 k m).1)

pub identity-Distinct : (left i : ℕ) → Distinct (identity left i)
unfolding identity
identity-Distinct zero i = tt
identity-Distinct (suc left) i =
    (λ m. absurd (omega (arith, (identity-has left (i + 1) i m).0)), identity-Distinct left (i + 1))

pub identity-Represents : (n : ℕ) → Represents n (identity n 0) (replicate n 1) (λ i. i)
identity-Represents n = unfold make in make-Stands n

-- A reset makes each node a class of its own again.
reset-Stands :
    (n : ℕ) (d : DisjointSetUnion) (root : ℕ → ℕ) → Stands n d root → Stands n (reset d) (λ i. i)
unfolding reset
reset-Stands n d root rep = rw rep.parents (make-Stands n)

-- The ends of each edge are nodes.
pub data InRange (n : ℕ) : List Edge → Type 0 where
  none_left : InRange n []
  one_more :
      {e : Edge} {edges : List Edge}
      → e.src < n
      → e.dst < n
      → InRange n edges
      → InRange n (e ∷ edges)

module _ (bits fuel : ℕ) where
  -- One merge for each edge.
  abbrev pub merge_all : DisjointSetUnion → List Edge → Option DisjointSetUnion
  merge_all d [] = some d
  merge_all d (e ∷ edges) = and_then (merge bits fuel d e.src e.dst) (λ f. merge_all f.dsu edges)

  module _ (n : ℕ) (small : n < 2 ^ bits) (fits : n < 2 ^ fuel) where
    -- What the merges of `edges` make of the classes of `root`.
    abbrev pub Joins : DisjointSetUnion → (ℕ → ℕ) → List Edge → Type 0
    Joins d root edges =
        (d' : DisjointSetUnion) × (root' : ℕ → ℕ) × (merge_all d edges ≡ some d')
        × Stands n d' root'
        × ((i j : ℕ) → (root' i ≡ root' j) ↔ Linked root edges i j)

    Joins-first :
        (d : DisjointSetUnion) (root next : ℕ → ℕ) (f : Found DsuMergeRet) (e : Edge)
        (edges : List Edge)
        → merge bits fuel d e.src e.dst ≡ some f
        → ((i j : ℕ) → Linked next edges i j ↔ Linked root (e ∷ edges) i j)
        → Joins f.dsu next edges
        → Joins d root (e ∷ edges)
    Joins-first d root next f e edges run same (d', root', runs, rep, classes) = (
      d',
      root',
      ap (λ o. and_then o (λ f. merge_all f.dsu edges)) run ∙ runs,
      rep,
      λ i j. (λ p. (same i j).0 ((classes i j).0 p), λ l. (classes i j).1 ((same i j).1 l)),
    )

    Joins-all :
        (edges : List Edge) (d : DisjointSetUnion) (root : ℕ → ℕ)
        → Stands n d root
        → InRange n edges
        → Joins d root edges
    Joins-all [] d root rep range =
        (d, root, refl, rep, λ i j. (λ p. Linked.before i j p, λ l. Linked-none l))
    Joins-all (e ∷ edges) d root rep (one_more ps pd range) =
        let (f, run, did) = merge-Merged bits n d root fuel e.src e.dst rep small fits ps pd in
        elim did [
          | Merged.same eq _ next ↦
              Joins-first d root root f e edges run
                (λ i j. (λ l. Linked-keep e l, λ l. Linked-drop e eq l))
                (Joins-all edges f.dsu root next range)
          | Merged.joined _ _ ends next ↦
              Joins-first d root (join root f.value.root f.value.child) f e edges run
                (λ i j. (
                  λ l. Linked-split root f.value.root f.value.child e (turned f ends) l,
                  λ l. Linked-join root f.value.root f.value.child e (turned f ends) l,
                ))
                (Joins-all edges f.dsu (join root f.value.root f.value.child) next range)
        ]
      where
        turned :
            (f : Found DsuMergeRet)
            → ((f.value.root ≡ root e.src) × (f.value.child ≡ root e.dst))
              ⊎ ((f.value.root ≡ root e.dst) × (f.value.child ≡ root e.src))
            → ((root e.src ≡ f.value.root) × (root e.dst ≡ f.value.child))
              ⊎ ((root e.src ≡ f.value.child) × (root e.dst ≡ f.value.root))
        turned f (inl (p, q)) = inl (sym p, sym q)
        turned f (inr (p, q)) = inr (sym q, sym p)

    -- Merges along a list of edges, from a new object, return; the roots of two nodes are then the
    -- same exactly where the edges lead from one to the other.
    pub merge_all-Linked :
        (edges : List Edge)
        → InRange n edges
        → (d : DisjointSetUnion) × (root : ℕ → ℕ) × (merge_all (make n) edges ≡ some d)
          × Stands n d root
          × ((i j : ℕ) → (root i ≡ root j) ↔ Linked (λ k. k) edges i j)
    merge_all-Linked edges range = Joins-all edges (make n) (λ i. i) (make-Stands n) range
