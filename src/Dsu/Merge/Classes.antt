-- ===== src/Dsu/Merge/Classes.antt =====
-- The classes that a list of edges makes, from those that are there before.
use mathlib.Core.List.{Memᴰ}
use anon_graphzeppelin.Base.{
  ℕ, ◌≡◌, refl, sym, ap, subst, ◌∙◌, ◌⊎◌, inl, inr, arith, List, [], ◌∷◌, ◌==◌, if◌then◌else◌,
}
use native.Mathlib.Decide.{ℕ_discrete}
use anon_graphzeppelin.Types.{Edge}
use anon_graphzeppelin.Forest.Link.{join}

-- Two nodes are linked where edges, or the classes that are there before, lead from one to the other.
pub data Linked (root : ℕ → ℕ) (edges : List Edge) : ℕ → ℕ → Type 0 where
  before : (i j : ℕ) → root i ≡ root j → Linked root edges i j
  edge : (e : Edge) → Memᴰ e edges → Linked root edges e.src e.dst
  back : (i j : ℕ) → Linked root edges i j → Linked root edges j i
  path : (i j k : ℕ) → Linked root edges i j → Linked root edges j k → Linked root edges i k

-- Without edges only the old classes are left.
pub Linked-none : {root : ℕ → ℕ} {i j : ℕ} → Linked root [] i j → root i ≡ root j
Linked-none (before i j e) = e
Linked-none (edge e m) = elim m [ ]
Linked-none (back i j l) = sym (Linked-none l)
Linked-none (path i j k l m) = Linked-none l ∙ Linked-none m

-- An edge within a class adds nothing.
pub Linked-drop :
    {root : ℕ → ℕ} {edges : List Edge} (e : Edge) {i j : ℕ}
    → root e.src ≡ root e.dst
    → Linked root (e ∷ edges) i j
    → Linked root edges i j
Linked-drop e same (before i j p) = before i j p
Linked-drop {root = root} e same (edge e' m) = elim m [
  | Memᴰ.head p ↦ before e'.src e'.dst (subst (λ x. root x.src ≡ root x.dst) (sym p) same)
  | Memᴰ.tail m' ↦ edge e' m'
]
Linked-drop e same (back i j l) = back i j (Linked-drop e same l)
Linked-drop e same (path i j k l m) = path i j k (Linked-drop e same l) (Linked-drop e same m)

pub Linked-keep :
    {root : ℕ → ℕ} {edges : List Edge} (e : Edge) {i j : ℕ}
    → Linked root edges i j
    → Linked root (e ∷ edges) i j
Linked-keep e (before i j p) = before i j p
Linked-keep e (edge e' m) = edge e' (Memᴰ.tail m)
Linked-keep e (back i j l) = back i j (Linked-keep e l)
Linked-keep e (path i j k l m) = path i j k (Linked-keep e l) (Linked-keep e m)

module _ (root : ℕ → ℕ) (a b : ℕ) (e : Edge)
    (ends : ((root e.src ≡ a) × (root e.dst ≡ b)) ⊎ ((root e.src ≡ b) × (root e.dst ≡ a))) where
  join-ends : join root a b e.src ≡ join root a b e.dst
  join-ends = ground (arith, ends)

  join-before : (i j : ℕ) → root i ≡ root j → join root a b i ≡ join root a b j
  join-before i j p = ap (λ r. if r == b then a else r) p

  -- The first edge joins the classes of its ends.
  pub Linked-join :
      {edges : List Edge} {i j : ℕ} → Linked root (e ∷ edges) i j → Linked (join root a b) edges i j
  Linked-join (before i j p) = before i j (join-before i j p)
  Linked-join (edge e' m) = elim m [
    | Memᴰ.head p ↦
        before e'.src e'.dst
          (subst (λ x. join root a b x.src ≡ join root a b x.dst) (sym p) join-ends)
    | Memᴰ.tail m' ↦ edge e' m'
  ]
  Linked-join (back i j l) = back i j (Linked-join l)
  Linked-join (path i j k l m) = path i j k (Linked-join l) (Linked-join m)

  across : {edges : List Edge} (i j : ℕ) → root i ≡ a → root j ≡ b → Linked root (e ∷ edges) i j
  across i j p q = elim ends [
    | inl (s, d) ↦
        path i e.src j (before i e.src (p ∙ sym s))
          (path e.src e.dst j (edge e (Memᴰ.head refl)) (before e.dst j (d ∙ sym q)))
    | inr (s, d) ↦ path i e.dst j (before i e.dst (p ∙ sym d)) (
        path e.dst e.src j (back e.src e.dst (edge e (Memᴰ.head refl)))
          (before e.src j (s ∙ sym q)))
  ]

  split :
      {edges : List Edge} (i j : ℕ)
      → join root a b i ≡ join root a b j
      → Linked root (e ∷ edges) i j
  split i j p = elim (ℕ_discrete (root i) b) [
    | yes ib ↦ elim (ℕ_discrete (root j) b) [
      | yes jb ↦ before i j (ib ∙ sym jb)
      | no jn ↦ back j i (across j i (ground arith) ib)
    ]
    | no in' ↦ elim (ℕ_discrete (root j) b) [
      | yes jb ↦ across i j (ground arith) jb
      | no jn ↦ before i j (ground arith)
    ]
  ]

  pub Linked-split :
      {edges : List Edge} {i j : ℕ} → Linked (join root a b) edges i j → Linked root (e ∷ edges) i j
  Linked-split (before i j p) = split i j p
  Linked-split (edge e' m) = edge e' (Memᴰ.tail m)
  Linked-split (back i j l) = back i j (Linked-split l)
  Linked-split (path i j k l m) = path i j k (Linked-split l) (Linked-split m)
