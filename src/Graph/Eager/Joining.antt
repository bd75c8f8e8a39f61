-- ===== src/Graph/Eager/Joining.antt =====
-- An update keeps the components that are valid, or says that they are not.
use anon_graphzeppelin.Base.{
  Bool, ℕ, zero, suc, ◌≤◌, set, ◌^◌, ◌<◌, ◌≡◌, ◌≢◌, refl, sym, ap, ◌∙◌, inl, inr, ◌↔◌, ◌⊎◌, min,
  max, arith, false, true, [], ◌∷◌, Option, some, ◌==◌, ltb, get_or, if◌then◌else◌, Bool-cases,
  ltb→le, ltb→lt, ok,
}
use native.Mathlib.Decide.{ℕ_discrete}
use anon_graphzeppelin.Types.{Edge, GraphUpdate}
use anon_graphzeppelin.Forest.{at, root_root}
use anon_graphzeppelin.Dsu.Merge.{enough_fuel}
use anon_graphzeppelin.Dsu.Merge.Classes.{Linked, Linked-none, Linked-drop, Linked-keep}
use anon_graphzeppelin.Sketch.Query.{contains, insert}
use anon_graphzeppelin.Graph.{Graph, Merging, link_supernodes}
use anon_graphzeppelin.Graph.Parent.{GraphStands, get_parent-GraphStands}
use anon_graphzeppelin.Graph.Rounds.{Joined, link_supernodes-Joined}
use anon_graphzeppelin.Graph.Query.{Engine}
use anon_graphzeppelin.Graph.Eager.{
  larger_first, link, exchanged, join_trees, eager_dsu, Updated, insert_both, update_eagerly,
}

-- Two nodes are the ends of an edge, in one order or the other.
abbrev Ends : ℕ → ℕ → ℕ → ℕ → Type 0
Ends s d x y = ((s ≡ x) × (d ≡ y)) ⊎ ((s ≡ y) × (d ≡ x))

module _ (n : ℕ) (narrow : n < 2 ^ 32) (fuel : ℕ) (fits : n < 2 ^ fuel) (root : ℕ → ℕ)
    (spurious : ℕ → Bool) (edge : Edge) where
  -- What the loop leaves of `g`: its classes are joined along the edge, and the edge is put into the
  -- spanning forest where it joins two of them.
  abbrev LoopLeaves : Graph → Graph → Type 0
  LoopLeaves g g' =
      (g'.dsu_valid ≡ g.dsu_valid)
      × (g'.num_nodes ≡ g.num_nodes)
      × (g'.spanning_forest ≡ (
          if root edge.src == root edge.dst
          then g.spanning_forest
          else set g.spanning_forest edge.src
              (insert edge.dst (get_or g.spanning_forest edge.src []))))
      × Joined n root (edge ∷ []) g'

  LoopLeaves-same :
      (g h g' : Graph)
      → h.dsu_valid ≡ g.dsu_valid
      → h.num_nodes ≡ g.num_nodes
      → h.spanning_forest ≡ g.spanning_forest
      → LoopLeaves h g'
      → LoopLeaves g g'
  LoopLeaves-same g h g' valid nodes forest (valid', nodes', forest', joined) = (
    valid' ∙ valid,
    nodes' ∙ nodes,
    forest'
        ∙ ap
            (λ f.
              if root edge.src == root edge.dst
              then f
              else set f edge.src (insert edge.dst (get_or f edge.src [])))
            forest,
    joined,
  )

  -- An exchange that does not fail links two roots.
  linked :
      (g : Graph) (x y : ℕ)
      → GraphStands n g root
      → x < n
      → y < n
      → at g.parent x ≡ x
      → at g.parent y ≡ y
      → x ≢ y
      → at g.size y ≤ at g.size x
      → Ends (root edge.src) (root edge.dst) x y
      → LoopLeaves g (link g x y edge)
  unfolding link link_supernodes
  linked g x y rep px py own_x own_y ne le ends =
      let differ : (root edge.src == root edge.dst) ≡ false = ground (arith, ends, ne) in
      let m : Merging = record { graph = g; to_merge = []; new_reps = [] } in
      (
        refl,
        refl,
        ap
            (λ t.
              if t
              then g.spanning_forest
              else set g.spanning_forest edge.src
                  (insert edge.dst (get_or g.spanning_forest edge.src [])))
            (sym differ),
        link_supernodes-Joined n root m x y edge rep narrow px py own_x own_y ne le ends,
      )

  -- One exchange, of two roots: it links them, or the next round starts with the roots.
  exchanged-cases :
      (fails : Bool) (next : ℕ → ℕ → Graph → Option Graph) (g : Graph) (x y : ℕ)
      → GraphStands n g root
      → x < n
      → y < n
      → at g.parent x ≡ x
      → at g.parent y ≡ y
      → x ≢ y
      → Ends (root edge.src) (root edge.dst) x y
      → ((g' : Graph) × (exchanged fuel spurious fails next g (larger_first g x y) edge ≡ some g')
          × LoopLeaves g g')
        ⊎ ((fails ≡ true)
            × ((a : ℕ) × (b : ℕ) × (exchanged fuel spurious fails next g (larger_first g x y) edge
                  ≡ next a b g)
                × (((a ≡ x) × (b ≡ y)) ⊎ ((a ≡ y) × (b ≡ x)))))
  unfolding exchanged larger_first
  exchanged-cases true next g x y rep px py own_x own_y ne ends =
      elim (Bool-cases (ltb (at g.size x) (at g.size y))) [
        | inl less ↦ inr (refl, (y, x, rw (less, own_x) refl, inr (refl, refl)))
        | inr more ↦ inr (refl, (x, y, rw (more, own_y) refl, inl (refl, refl)))
      ]
  exchanged-cases false next g x y rep px py own_x own_y ne ends =
      let is_x : (at g.parent x == x) ≡ true = ground (arith, own_x) in
      let is_y : (at g.parent y == y) ≡ true = ground (arith, own_y) in
      elim (Bool-cases (ltb (at g.size x) (at g.size y))) [
        | inl less ↦ inl (
          link g y x edge,
          rw (less, is_x) refl,
          linked g y x rep py px own_y own_x (λ e. ne (sym e)) (omega (arith, ltb→lt _ _ less))
              (swapped ends),
        )
        | inr more ↦ inl (
          link g x y edge,
          rw (more, is_y) refl,
          linked g x y rep px py own_x own_y ne (ltb→le _ _ more) ends,
        )
      ]
    where
      swapped : Ends (root edge.src) (root edge.dst) x y → Ends (root edge.src) (root edge.dst) y x
      swapped (inl (s, d)) = inr (s, d)
      swapped (inr (s, d)) = inl (s, d)

  -- The loop returns where one of its exchanges does not fail spuriously.
  join_trees-Joined :
      (rounds k : ℕ) (g : Graph) (a b : ℕ)
      → GraphStands n g root
      → a < n
      → b < n
      → Ends (root edge.src) (root edge.dst) (root a) (root b)
      → k < rounds
      → spurious k ≡ false
      → (g' : Graph) × (join_trees fuel spurious rounds a b edge g ≡ some g') × LoopLeaves g g'
  unfolding join_trees
  join_trees-Joined zero k g a b rep pa pb ends le calm = absurd (omega (arith, le))
  join_trees-Joined (suc rounds) k g a b rep pa pb ends le calm =
      let (r, run_a, root_a, same_a, rep_a) =
        get_parent-GraphStands n root fuel g a rep pa
          (enough_fuel n (at g.size a) fuel fits (rep.positive a pa)) in
      let (t, run_b, root_b, same_b, rep_b) =
        get_parent-GraphStands n root fuel r.graph b rep_a pb
          (enough_fuel n (at r.graph.size b) fuel fits (rep_a.positive b pb)) in
      let valid = same_b.dsu_valid ∙ same_a.dsu_valid in
      let nodes = same_b.num_nodes ∙ same_a.num_nodes in
      let forest = same_b.spanning_forest ∙ same_a.spanning_forest in
      elim (ℕ_discrete (root a) (root b)) [
        | yes e ↦
            let test : (root a == root b) ≡ true = ground (arith, e) in
            let one : root edge.src ≡ root edge.dst = ground (arith, ends, e) in
            let own : (root edge.src == root edge.dst) ≡ true = ground (arith, one) in
            (
              t.graph,
              rw (run_a, run_b, root_a, root_b, test) refl,
              (
                valid,
                nodes,
                forest
                    ∙ ap
                        (λ u.
                          if u
                          then g.spanning_forest
                          else set g.spanning_forest edge.src
                              (insert edge.dst (get_or g.spanning_forest edge.src [])))
                        (sym own),
                (root, rep_b, λ more i j. (λ l. Linked-keep edge l, λ l. Linked-drop edge one l)),
              ),
            )
        | no ne ↦
            let test : (root a == root b) ≡ false = ground (arith, ne) in
            let next : ℕ → ℕ → Graph → Option Graph =
              λ a' b' h. join_trees fuel spurious rounds a' b' edge h in
            elim (exchanged-cases (spurious rounds) next t.graph (root a) (root b) rep_b
              (rep.root_inside a pa) (rep.root_inside b pb) (rep_b.top a pa) (rep_b.top b pb) ne
              ends) [
                | inl (g', run, leaves) ↦ (
                  g',
                  rw (run_a, run_b, root_a, root_b, test) run,
                  LoopLeaves-same g t.graph g' valid nodes forest leaves,
                )
                | inr (failed, (a', b', run, order)) ↦
                    let later : k ≢ rounds = λ e. differ (sym calm ∙ ap spurious e ∙ failed) in
                    let (pa', pb', ends') = again t.graph a b a' b' rep_b pa pb order ends in
                    let (g', run', leaves) =
                      join_trees-Joined rounds k t.graph a' b' rep_b pa' pb' ends'
                        (omega (arith, le, later)) calm in
                    (
                      g',
                      rw (run_a, run_b, root_a, root_b, test) (run ∙ run'),
                      LoopLeaves-same g t.graph g' valid nodes forest leaves,
                    )
              ]
      ]
    where
      differ : false ≡ true → ⊥
      differ e = cc

      again :
          (g : Graph) (a b a' b' : ℕ)
          → GraphStands n g root
          → a < n
          → b < n
          → ((a' ≡ root a) × (b' ≡ root b)) ⊎ ((a' ≡ root b) × (b' ≡ root a))
          → Ends (root edge.src) (root edge.dst) (root a) (root b)
          → (a' < n) × (b' < n) × Ends (root edge.src) (root edge.dst) (root a') (root b')
      again g a b a' b' rep pa pb order ends =
          let top_a = root_root rep a pa in
          let top_b = root_root rep b pb in
          elim order [
            | inl (ea, eb) ↦
                rw (ea, eb, top_a, top_b) (rep.root_inside a pa, rep.root_inside b pb, ends)
            | inr (ea, eb) ↦
                rw (ea, eb, top_a, top_b)
                  (
                    rep.root_inside b pb,
                    rep.root_inside a pa,
                    (elim ends [ inl (s, d) ↦ inr (s, d) | inr (s, d) ↦ inl (s, d) ]),
                  )
          ]

-- The edge that `update` looks up, its smaller node first.
abbrev pub ordered : Edge → Edge
ordered e = record { src = min e.src e.dst; dst = max e.src e.dst }

-- Whether the set of its smaller node has the edge.
abbrev pub in_forest : Graph → Edge → Bool
in_forest g e = contains (ordered e).dst (get_or g.spanning_forest (ordered e).src [])

-- The state after an update: the components were given up, or they are joined along the edge, which is
-- in the spanning forest if it joined two of them.
abbrev pub EagerlyJoined : ℕ → (ℕ → ℕ) → Graph → Edge → Graph → Type 0
EagerlyJoined n root g e g' =
    ((in_forest g e ≡ true) × (g' ≡ record g { dsu_valid = false }))
    ⊎ ((in_forest g e ≡ false)
        × (g'.dsu_valid ≡ true)
        × (g'.num_nodes ≡ g.num_nodes)
        × (g'.spanning_forest ≡ (
            if root (ordered e).src == root (ordered e).dst
            then g.spanning_forest
            else set g.spanning_forest (ordered e).src
                (insert (ordered e).dst (get_or g.spanning_forest (ordered e).src []))))
        × ((root' : ℕ → ℕ) × GraphStands n g' root'
            × ((i j : ℕ) → (root' i ≡ root' j) ↔ Linked root (ordered e ∷ []) i j)))

eager_dsu-EagerlyJoined :
    (n fuel rounds k : ℕ) (spurious : ℕ → Bool) (root : ℕ → ℕ) (g : Graph) (e : Edge)
    → n < 2 ^ 32
    → n < 2 ^ fuel
    → GraphStands n g root
    → g.dsu_valid ≡ true
    → e.src < n
    → e.dst < n
    → k < rounds
    → spurious k ≡ false
    → (g' : Graph) × (eager_dsu fuel spurious rounds g e ≡ some g') × EagerlyJoined n root g e g'
unfolding eager_dsu
eager_dsu-EagerlyJoined n fuel rounds k spurious root g e narrow fits rep valid ps pd le calm =
    let stale = record g { dsu_valid = false } in
    let known = contains (ordered e).dst (get_or g.spanning_forest (ordered e).src []) in
    let joined = join_trees fuel spurious rounds (ordered e).src (ordered e).dst (ordered e) g in
    let looks = ap (λ b. if b then if known then some stale else joined else some g) valid in
    elim (Bool-cases known) [
      | inl there ↦
          (stale, looks ∙ ap (λ b. if b then some stale else joined) there, inl (there, refl))
      | inr new ↦
          let (g', run, (valid', nodes', forest', (root', rep', same))) =
            join_trees-Joined n narrow fuel fits root spurious (ordered e) rounds k g
              (ordered e).src (ordered e).dst rep (omega (arith, ps, pd)) (omega (arith, ps, pd))
              (inl (refl, refl)) le calm in
          (
            g',
            looks ∙ ap (λ b. if b then some stale else joined) new ∙ run,
            inr (
              new,
              valid' ∙ valid,
              nodes',
              forest',
              (
                root',
                rep',
                λ i j. (
                  λ p. (same [] i j).0 (Linked.before i j p),
                  λ l. Linked-none ((same [] i j).1 l),
                ),
              ),
            ),
          )
    ]

-- With USE_EAGER_DSU, an update whose nodes are in the graph, of a graph with fewer than 2^32
-- nodes whose components are valid and that is not locked, returns as soon as one weak exchange of
-- the loop does not fail spuriously, given calls of `get_parent` as deep as log2 of the number of
-- nodes. It inserts both directions of its edge; it marks the components as not valid if the spanning
-- forest has the edge. Else the components stay valid and are joined along the edge, and the edge is
-- put into the spanning forest if and only if it joined two of them.
pub update_eagerly-EagerlyJoined :
    {A G : Type 0} (gts_insert : ℕ → ℕ → G → G) (n fuel rounds k : ℕ) (spurious : ℕ → Bool)
    (root : ℕ → ℕ) (e : Engine A) (gts : G) (upd : GraphUpdate)
    → n < 2 ^ 32
    → n < 2 ^ fuel
    → GraphStands n e.graph root
    → e.graph.dsu_valid ≡ true
    → e.update_locked ≡ false
    → upd.edge.src < n
    → upd.edge.dst < n
    → k < rounds
    → spurious k ≡ false
    → (u : Updated A G) × (update_eagerly gts_insert fuel spurious rounds e gts upd ≡ some (ok u))
      × (u.gutters
          ≡ gts_insert upd.edge.dst upd.edge.src (gts_insert upd.edge.src upd.edge.dst gts))
      × EagerlyJoined n root e.graph upd.edge u.engine.graph
unfolding update_eagerly insert_both
update_eagerly-EagerlyJoined gts_insert n fuel rounds k spurious root e gts upd narrow fits rep
      valid free ps pd le calm =
    let (g', run, joined) =
      eager_dsu-EagerlyJoined n fuel rounds k spurious root e.graph upd.edge narrow fits rep valid
        ps pd le calm in
    (
      record { engine = record e { graph = g' }; gutters = insert_both gts_insert upd.edge gts },
      rw (free, run) refl,
      refl,
      joined,
    )
