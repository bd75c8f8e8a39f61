-- ===== src/StreamTools/Convert.antt =====
-- The types that to_binary_format.cpp writes.
use anon_graphzeppelin.Base.{
  ℕ, zero, suc, ◌+◌, ◌-◌, ◌<◌, ◌≤◌, ◌≡◌, ◌≢◌, refl, sym, ap, ap₂, subst, ◌∙◌, ◌⊎◌, inl, inr, min,
  max, Bool, true, false, not, ◌&&◌, List, [], ◌∷◌, map, none, some, length, get_or, set,
  length-set, length-replicate, get_or-set_self, get_or-set_ne, get_or-replicate, ltb, ltb→lt,
  lt→ltb, ltb→le, ◌==◌, ==_iff, Bool-cases, if◌then◌else◌, arith,
}
use anon_graphzeppelin.Types.{UpdateType, Edge, GraphUpdate}
use anon_graphzeppelin.StreamTools.{
  make_rows, make_adj_mat, element, set_element, type_of, Corrected, correct_at, correct,
  correct_all,
}

-- Which edges are there, by their smaller and their larger node.
abbrev pub Present : Type 0
Present = ℕ → ℕ → Bool

abbrev pub toggle : Present → ℕ → ℕ → Present
toggle f i j a b = if a == i && b == j then not (f a b) else f a b

-- Each update inserts its edge if it is not there and deletes it if it is.
abbrev pub Alternates : Present → List GraphUpdate → Type 0
Alternates f [] = Unit {0}
Alternates f (u ∷ us) =
    (u.type ≡ (
      if f (min u.edge.src u.edge.dst) (max u.edge.src u.edge.dst)
      then UpdateType.delete
      else UpdateType.insert))
    × Alternates (toggle f (min u.edge.src u.edge.dst) (max u.edge.src u.edge.dst)) us

abbrev pub InGraph : ℕ → List Edge → Type 0
InGraph n [] = Unit {0}
InGraph n (e ∷ es) = (e.src < n) × (e.dst < n) × InGraph n es

-- The matrix shows the edges among `n` nodes.
record Shows (adj_mat : List (List Bool)) (n : ℕ) (f : Present) : Type 0 where
  shows : (i j : ℕ) → i ≤ j → j < n → element adj_mat i (j - i) ≡ some (f i j)

row_in : (m : List (List Bool)) (i : ℕ) → 0 < length (get_or m i []) → i < length m
row_in [] i h = absurd (omega arith)
row_in (x ∷ m) zero h = omega arith
row_in (x ∷ m) (suc i) h = omega (arith, row_in m i h)

some_injective : {a b : Bool} → some a ≡ some b → a ≡ b
some_injective {a = a} e = ap (λ o. elim o [ none ↦ a | some c ↦ c ]) e

none-some : {b : Bool} → none ≡ some b → ⊥
none-some e = ground arith

element-bounds :
    (m : List (List Bool)) (i j : ℕ) (b : Bool)
    → element m i j ≡ some b
    → (i < length m) × (j < length (get_or m i [])) × (get_or (get_or m i []) j false ≡ b)
unfolding element
element-bounds m i j b e = elim (Bool-cases (ltb j (length (get_or m i [])))) [
  | inl inside ↦
      let j_lt = ltb→lt j (length (get_or m i [])) inside in
      (row_in m i (omega (arith, j_lt)), j_lt, some_injective (rw (inside) at e))
  | inr outside ↦ absurd (none-some (rw (outside) at e))
]

element-set_self :
    (m : List (List Bool)) (i j : ℕ) (b c : Bool)
    → element m i j ≡ some b
    → element (set_element m i j c) i j ≡ some c
unfolding element set_element
element-set_self m i j b c e =
    let (i_lt, j_lt, _) = element-bounds m i j b e in
    let row = get_or-set_self m i (set (get_or m i []) j c) [] i_lt in
    let inside =
      lt→ltb j (length (set (get_or m i []) j c))
        (omega (arith, j_lt, length-set (get_or m i []) j c)) in
    rw (row, inside, get_or-set_self (get_or m i []) j c false j_lt) refl

element-set_ne :
    (m : List (List Bool)) (i j i' j' : ℕ) (b c : Bool)
    → element m i j ≡ some b
    → (i ≢ i') ⊎ (j ≢ j')
    → element (set_element m i j c) i' j' ≡ element m i' j'
unfolding element set_element
element-set_ne m i j i' j' b c e (inl rows) =
    rw (get_or-set_ne m i i' (set (get_or m i []) j c) [] rows) refl
element-set_ne m i j i' j' b c e (inr columns) = elim (Bool-cases (i == i')) [
  | inl same ↦
      subst (λ k. element (set_element m i j c) k j' ≡ element m k j') ((==_iff i i').0 same)
        (same_row (element-bounds m i j b e).0)
  | inr rows ↦ rw (get_or-set_ne m i i' (set (get_or m i []) j c) [] (differ rows)) refl
]
  where
    same_row : i < length m → element (set_element m i j c) i j' ≡ element m i j'
    same_row lt =
        rw
          (
            get_or-set_self m i (set (get_or m i []) j c) [] lt,
            length-set (get_or m i []) j c,
            get_or-set_ne (get_or m i []) j j' c false columns,
          )
          refl

    differ : (i == i') ≡ false → i ≢ i'
    differ h k = ground arith

element-make_rows : (left i j : ℕ) → i + j < left → element (make_rows left) i j ≡ some false
unfolding element make_rows
element-make_rows zero i j h = absurd (omega arith)
element-make_rows (suc left) zero j h =
    rw
      (
        length-replicate left false,
        lt→ltb j (suc left) (omega (arith, h)),
        get_or-replicate (suc left) j false,
      )
      refl
element-make_rows (suc left) (suc i) j h = element-make_rows left i j (omega (arith, h))

start-Shows : (n : ℕ) → Shows (make_adj_mat n) n (λ i j. false)
unfolding make_adj_mat
start-Shows n = record {
  shows = λ i j le lt. element-make_rows n i (j - i) (omega (arith, le, lt));
}

-- One element is flipped.
flip-Shows :
    (m : List (List Bool)) (n : ℕ) (f : Present) (i j : ℕ)
    → i ≤ j
    → j < n
    → Shows m n f
    → Shows (set_element m i (j - i) (not (f i j))) n (toggle f i j)
flip-Shows m n f i j le lt s = record {
  shows = λ a b le' lt'. elim (Bool-cases (a == i && b == j)) [
    | inl same ↦
        let (at_i, at_j) = both a b same in
        ap₂ (λ x y. element (set_element m i (j - i) (not (f i j))) x (y - x)) at_i at_j
        ∙ element-set_self m i (j - i) (f i j) (not (f i j)) (s.shows i j le lt)
        ∙ ap some (
            sym (
              ap (λ t. if t then not (f a b) else f a b) same ∙ ap₂ (λ x y. not (f x y)) at_i at_j))
    | inr other ↦
        element-set_ne m i (j - i) a (b - a) (f i j) (not (f i j)) (s.shows i j le lt)
          (apart a b le' other)
        ∙ s.shows a b le' lt'
        ∙ ap some (sym (ap (λ t. if t then not (f a b) else f a b) other))
  ];
}
  where
    both : (a b : ℕ) → (a == i && b == j) ≡ true → (a ≡ i) × (b ≡ j)
    both a b h = ground arith

    apart : (a b : ℕ) → a ≤ b → (a == i && b == j) ≡ false → (i ≢ a) ⊎ (j - i ≢ b - a)
    apart a b h k = ground arith

correct_at-Shows :
    (m : List (List Bool)) (n : ℕ) (f : Present) (e : Edge) (i j : ℕ)
    → i ≤ j
    → j < n
    → Shows m n f
    → (c : Corrected) × (correct_at m i (j - i) e ≡ some c)
      × (c.update.edge ≡ e)
      × (c.update.type ≡ type_of (f i j))
      × Shows c.adj_mat n (toggle f i j)
unfolding correct_at
correct_at-Shows m n f e i j le lt s = (
  record {
    adj_mat = set_element m i (j - i) (not (f i j));
    update = record { edge = e; type = type_of (f i j) };
  },
  rw (s.shows i j le lt) refl,
  refl,
  refl,
  flip-Shows m n f i j le lt s,
)

-- One update is written.
correct-Shows :
    (m : List (List Bool)) (n : ℕ) (f : Present) (e : Edge)
    → e.src < n
    → e.dst < n
    → Shows m n f
    → (c : Corrected) × (correct m e ≡ some c)
      × (c.update.edge ≡ e)
      × (c.update.type ≡ type_of (f (min e.src e.dst) (max e.src e.dst)))
      × Shows c.adj_mat n (toggle f (min e.src e.dst) (max e.src e.dst))
unfolding correct
correct-Shows m n f e src_lt dst_lt s = elim (Bool-cases (ltb e.dst e.src)) [
  | inl swapped ↦
      let lt = ltb→lt e.dst e.src swapped in
      let least : min e.src e.dst ≡ e.dst = omega (arith, lt) in
      let most : max e.src e.dst ≡ e.src = omega (arith, lt) in
      rw (swapped, least, most) (correct_at-Shows m n f e e.dst e.src (omega (arith, lt)) src_lt s)
  | inr ordered ↦
      let le = ltb→le e.dst e.src ordered in
      let least : min e.src e.dst ≡ e.src = omega (arith, le) in
      let most : max e.src e.dst ≡ e.dst = omega (arith, le) in
      rw (ordered, least, most) (correct_at-Shows m n f e e.src e.dst le dst_lt s)
]

correct_all-Shows :
    (m : List (List Bool)) (n : ℕ) (f : Present) (es : List Edge)
    → InGraph n es
    → Shows m n f
    → (us : List GraphUpdate) × (correct_all m es ≡ some us)
      × (map (λ u. u.edge) us ≡ es)
      × Alternates f us
unfolding correct_all type_of
correct_all-Shows m n f [] h s = ([], refl, refl, _)
correct_all-Shows m n f (e ∷ es) (src_lt, dst_lt, h) s =
    let (c, done, same, type, after) = correct-Shows m n f e src_lt dst_lt s in
    let (us, all_done, edges, alternates) =
      correct_all-Shows c.adj_mat n (toggle f (min e.src e.dst) (max e.src e.dst)) es h after in
    (
      c.update ∷ us,
      rw (done, all_done) refl,
      ap₂ ◌∷◌ same edges,
      subst
          (λ d.
            (c.update.type ≡ (
              if f (min d.src d.dst) (max d.src d.dst)
              then UpdateType.delete
              else UpdateType.insert))
            × Alternates (toggle f (min d.src d.dst) (max d.src d.dst)) us)
          (sym same) (type, alternates),
    )

-- Of a text whose nodes are below its number of nodes, the tool writes the same edges in the same
-- order, without an access out of bounds of its matrix, and each update inserts its edge if the
-- updates before it left the edge out, and deletes it if they left it in, whichever node comes first.
pub correct_all-Alternates :
    (n : ℕ) (es : List Edge)
    → InGraph n es
    → (us : List GraphUpdate) × (correct_all (make_adj_mat n) es ≡ some us)
      × (map (λ u. u.edge) us ≡ es)
      × Alternates (λ i j. false) us
correct_all-Alternates n es h =
    correct_all-Shows (make_adj_mat n) n (λ i j. false) es h (start-Shows n)
