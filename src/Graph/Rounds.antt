-- ===== src/Graph/Rounds.antt =====
-- A round of the algorithm of Boruvka on the classes: `supernodes_to_merge` joins them along the edges
-- that were sampled.
use mathlib.Core.List.{append_assoc, append-nil}
use anon_graphzeppelin.Dsu.Components.{InRange, none_left, one_more}
use anon_graphzeppelin.Base.{
  Below, Below-append, zero, suc, length, get_or, Bool-cases, inl, inr, ℕ, ◌+◌, ◌^◌, ◌<◌, ◌≤◌, ◌≡◌,
  ◌≢◌, refl, sym, subst, ap, ◌∙◌, inl, inr, ◌↔◌, ◌⊎◌, arith, false, true, List, [], ◌∷◌, ◌++◌, some,
  ◌==◌, and_then, ltb, replicate, u32,
}
use native.Mathlib.Decide.{ℕ_discrete, dec_lt}
use native.Mathlib.Nat.{mod-eq_of_lt}
use anon_graphzeppelin.Types.{Edge, SampleSketchRet}
use anon_graphzeppelin.Forest.{at}
use anon_graphzeppelin.Forest.Link.{join, Represents-link, sizes-le}
use anon_graphzeppelin.Dsu.Merge.{enough_fuel}
use anon_graphzeppelin.Dsu.Merge.Classes.{
  Linked, Linked-none, Linked-drop, Linked-keep, Linked-join, Linked-split,
}
use anon_graphzeppelin.Graph.{
  still_failed, merged_into, Graph, Merging, get_parent, link_supernodes, merge_parents,
  first_parent, second_parent, merge_sample, merge_samples, finish_merging, after_loop,
  supernodes_to_merge,
}
use anon_graphzeppelin.Graph.Parent.{GraphStands, get_parent-GraphStands}

-- The classes of `g` are those of `root`, joined along `edges`.
abbrev pub Joined : ℕ → (ℕ → ℕ) → List Edge → Graph → Type 0
Joined n root edges g =
    (root' : ℕ → ℕ) × GraphStands n g root'
    × ((more : List Edge) (i j : ℕ) → Linked root' more i j ↔ Linked root (edges ++ more) i j)

-- The edge of a sample, where it has one.
abbrev pub sampled : Edge → SampleSketchRet → List Edge
sampled e SampleSketchRet.good = e ∷ []
sampled e SampleSketchRet.zero = []
sampled e SampleSketchRet.fail = []

abbrev pub sampled_edges : (ℕ → Edge × SampleSketchRet) → List ℕ → List Edge
sampled_edges query [] = []
sampled_edges query (i ∷ reps) = sampled (query i).0 (query i).1 ++ sampled_edges query reps

module _ (n : ℕ) (root : ℕ → ℕ) where
  pub link_supernodes-Joined :
      (m : Merging) (a b : ℕ) (edge : Edge)
      → GraphStands n m.graph root
      → n < 2 ^ 32
      → a < n
      → b < n
      → at m.graph.parent a ≡ a
      → at m.graph.parent b ≡ b
      → a ≢ b
      → at m.graph.size b ≤ at m.graph.size a
      → ((root edge.src ≡ a) × (root edge.dst ≡ b)) ⊎ ((root edge.src ≡ b) × (root edge.dst ≡ a))
      → Joined n root (edge ∷ []) (link_supernodes m a b edge).graph
  unfolding link_supernodes
  link_supernodes-Joined m a b edge rep narrow pa pb ra rb ne le ends =
      let sum-le = sizes-le rep a b pa pb ra rb ne in
      let exact : u32 (at m.graph.size a + at m.graph.size b)
          ≡ at m.graph.size a + at m.graph.size b =
        mod-eq_of_lt (omega (arith, sum-le, narrow)) in
      (
        join root a b,
        rw exact (Represents-link rep a b pa pb ra rb ne le),
        λ more i j. (λ l. Linked-split root a b edge ends l, λ l. Linked-join root a b edge ends l),
      )

  merge_parents-Joined :
      (m : Merging) (edge : Edge)
      → GraphStands n m.graph root
      → n < 2 ^ 32
      → edge.src < n
      → edge.dst < n
      → Joined n root (edge ∷ []) (merge_parents m (root edge.src) (root edge.dst) edge).graph
  unfolding merge_parents
  merge_parents-Joined m edge rep narrow ps pd = elim (ℕ_discrete (root edge.src) (root edge.dst)) [
    | yes e ↦
        let test : (root edge.src == root edge.dst) ≡ true = ground (arith, e) in
        rw test (root, rep, λ more i j. (λ l. Linked-keep edge l, λ l. Linked-drop edge e l))
    | no ne ↦
        let test : (root edge.src == root edge.dst) ≡ false = ground (arith, ne) in
        elim (dec_lt (at m.graph.size (root edge.src)) (at m.graph.size (root edge.dst))) [
          | yes less ↦
              let swap : ltb (at m.graph.size (root edge.src)) (at m.graph.size (root edge.dst))
                  ≡ true =
                ground arith in
              rw (test, swap)
                (link_supernodes-Joined m (root edge.dst) (root edge.src) edge rep narrow
                  (rep.root_inside edge.dst pd) (rep.root_inside edge.src ps) (rep.top edge.dst pd)
                  (rep.top edge.src ps) (λ e. ne (sym e)) (omega arith) (inr (refl, refl)))
          | no more ↦
              let keep : ltb (at m.graph.size (root edge.src)) (at m.graph.size (root edge.dst))
                  ≡ false =
                ground arith in
              rw (test, keep)
                (link_supernodes-Joined m (root edge.src) (root edge.dst) edge rep narrow
                  (rep.root_inside edge.src ps) (rep.root_inside edge.dst pd) (rep.top edge.src ps)
                  (rep.top edge.dst pd) ne (omega arith) (inl (refl, refl)))
        ]
  ]

still_failed-Below :
    (n : ℕ) (to_merge : List (List ℕ)) (is : List ℕ)
    → Below n is
    → Below n (still_failed to_merge is)
unfolding still_failed
still_failed-Below n to_merge [] p = p
still_failed-Below n to_merge (i ∷ is) p = elim (Bool-cases (length (get_or to_merge i []) == 0)) [
  | inl e ↦ rw e (p.0, still_failed-Below n to_merge is p.1)
  | inr e ↦ rw e (still_failed-Below n to_merge is p.1)
]

merged_into-Below :
    (n : ℕ) (to_merge : List (List ℕ)) (left a : ℕ)
    → a + left ≤ n
    → Below n (merged_into to_merge left a)
unfolding merged_into
merged_into-Below n to_merge zero a p = tt
merged_into-Below n to_merge (suc left) a p =
    elim (Bool-cases (length (get_or to_merge a []) == 0)) [
      | inl e ↦ rw e (merged_into-Below n to_merge left (a + 1) (omega arith))
      | inr e ↦ rw e (omega arith, merged_into-Below n to_merge left (a + 1) (omega arith))
    ]

-- The number of nodes stays, and the representatives that are kept stay below `n`.
abbrev pub Keeps : ℕ → Merging → Merging → Type 0
Keeps n m m' = (m'.graph.num_nodes ≡ m.graph.num_nodes) × (Below n m.new_reps → Below n m'.new_reps)

merge_parents-Keeps :
    (n : ℕ) (m : Merging) (a b : ℕ) (edge : Edge) → Keeps n m (merge_parents m a b edge)
unfolding merge_parents link_supernodes
merge_parents-Keeps n m a b edge = elim (Bool-cases (a == b)) [
  | inl e ↦ rw e (refl, λ p. p)
  | inr e ↦ elim (Bool-cases (ltb (at m.graph.size a) (at m.graph.size b))) [
    | inl less ↦ rw (e, less) (refl, λ p. p)
    | inr more ↦ rw (e, more) (refl, λ p. p)
  ]
]

module _ (n : ℕ) (narrow : n < 2 ^ 32) (fuel : ℕ) (fits : n < 2 ^ fuel) where
  good-Joined :
      (root : ℕ → ℕ) (m : Merging) (edge : Edge)
      → GraphStands n m.graph root
      → edge.src < n
      → edge.dst < n
      → (m' : Merging) × (first_parent fuel m edge (get_parent fuel m.graph edge.src) ≡ some m')
        × Keeps n m m'
        × Joined n root (edge ∷ []) m'.graph
  unfolding first_parent second_parent
  good-Joined root m edge rep ps pd =
      let (a, run_a, root_a, same_a, rep_a) =
        get_parent-GraphStands n root fuel m.graph edge.src rep ps
          (enough_fuel n (at m.graph.size edge.src) fuel fits (rep.positive edge.src ps)) in
      let (b, run_b, root_b, same_b, rep_b) =
        get_parent-GraphStands n root fuel a.graph edge.dst rep_a pd
          (enough_fuel n (at a.graph.size edge.dst) fuel fits (rep_a.positive edge.dst pd)) in
      let m' = record m { graph = b.graph } in
      let kept = merge_parents-Keeps n m' a.value b.value edge in
      (
        merge_parents m' a.value b.value edge,
        ap (first_parent fuel m edge) run_a
            ∙ ap (second_parent (record m { graph = a.graph }) a.value edge) run_b,
        (kept.0 ∙ same_b.num_nodes ∙ same_a.num_nodes, kept.1),
        rw (root_a, root_b) (merge_parents-Joined n root m' edge rep_b narrow ps pd),
      )

  merge_sample-Joined :
      (root : ℕ → ℕ) (m : Merging) (i : ℕ) (edge : Edge) (code : SampleSketchRet)
      → GraphStands n m.graph root
      → i < n
      → InRange n (sampled edge code)
      → (m' : Merging) × (merge_sample fuel m i edge code ≡ some m')
        × Keeps n m m'
        × Joined n root (sampled edge code) m'.graph
  unfolding merge_sample
  merge_sample-Joined root m i edge SampleSketchRet.good rep pi (one_more ps pd _) =
      good-Joined root m edge rep ps pd
  merge_sample-Joined root m i edge SampleSketchRet.zero rep pi range =
      (m, refl, (refl, λ p. p), (root, rep, λ more j k. (λ l. l, λ l. l)))
  merge_sample-Joined root m i edge SampleSketchRet.fail rep pi range = (
    _,
    refl,
    (refl, λ p. Below-append n m.new_reps (i ∷ []) p (pi, tt)),
    (root, rep, λ more j k. (λ l. l, λ l. l)),
  )

  pub InRange-split :
      (edge : Edge) (code : SampleSketchRet) (edges : List Edge)
      → InRange n (sampled edge code ++ edges)
      → InRange n (sampled edge code) × InRange n edges
  InRange-split edge SampleSketchRet.good edges (one_more p q range) =
      (one_more p q none_left, range)
  InRange-split edge SampleSketchRet.zero edges range = (none_left, range)
  InRange-split edge SampleSketchRet.fail edges range = (none_left, range)

  merge_samples-Joined :
      (query : ℕ → Edge × SampleSketchRet) (reps : List ℕ) (root : ℕ → ℕ) (m : Merging)
      → GraphStands n m.graph root
      → Below n reps
      → InRange n (sampled_edges query reps)
      → (m' : Merging) × (merge_samples fuel query m reps ≡ some m')
        × Keeps n m m'
        × Joined n root (sampled_edges query reps) m'.graph
  unfolding merge_samples
  merge_samples-Joined query [] root m rep below range =
      (m, refl, (refl, λ p. p), (root, rep, λ more j k. (λ l. l, λ l. l)))
  merge_samples-Joined query (i ∷ reps) root m rep below range =
      let (first, others) =
        InRange-split (query i).0 (query i).1 (sampled_edges query reps) range in
      let (m', run, kept, (root', rep', here)) =
        merge_sample-Joined root m i (query i).0 (query i).1 rep below.0 first in
      let (m'', runs, kept', (root'', rep'', there)) =
        merge_samples-Joined query reps root' m' rep' below.1 others in
      (
        m'',
        ap (λ o. and_then o (λ t. merge_samples fuel query t reps)) run ∙ runs,
        (kept'.0 ∙ kept.0, λ p. kept'.1 (kept.1 p)),
        (
          root'',
          rep'',
          λ more j k.
              let assoc =
                append_assoc (sampled (query i).0 (query i).1) (sampled_edges query reps) more in
              (
                λ l.
                    subst (λ es. Linked root es j k) (sym assoc)
                      ((here (sampled_edges query reps ++ more) j k).0 ((there more j k).0 l)),
                λ l. (there more j k).1 (
                    (here (sampled_edges query reps ++ more) j k).1
                      (subst (λ es. Linked root es j k) assoc l)),
              ),
        ),
      )

  module _ (query : ℕ → Edge × SampleSketchRet) (g : Graph) (reps : List ℕ) (root : ℕ → ℕ)
      (nodes : g.num_nodes ≡ n) (rep : GraphStands n g root) (below : Below n reps)
      (range : InRange n (sampled_edges query reps)) where
    -- What a round makes of the classes, for the rounds that follow.
    pub supernodes_to_merge-Keeps :
        (m : Merging) × (supernodes_to_merge fuel query g reps ≡ some m)
        × (m.graph.num_nodes ≡ n)
        × Below n m.new_reps
        × Joined n root (sampled_edges query reps) m.graph
    unfolding supernodes_to_merge after_loop finish_merging
    supernodes_to_merge-Keeps =
        let (m, run, kept, joined) =
          merge_samples-Joined query reps root
            (record { graph = g; to_merge = replicate g.num_nodes []; new_reps = [] }) rep below
            range in
        (
          finish_merging m,
          ap after_loop run,
          kept.0 ∙ nodes,
          Below-append n (still_failed m.to_merge m.new_reps)
              (merged_into m.to_merge m.graph.num_nodes 0)
              (still_failed-Below n m.to_merge m.new_reps (kept.1 tt))
              (merged_into-Below n m.to_merge m.graph.num_nodes 0 (omega (arith, kept.0, nodes))),
          joined,
        )

    -- One round: `supernodes_to_merge` returns, and the classes of the graph are then those of
    -- before, joined along the edges that the supernodes of `reps` were sampled for.
    pub supernodes_to_merge-Joined :
        (m : Merging) × (root' : ℕ → ℕ) × (supernodes_to_merge fuel query g reps ≡ some m)
        × GraphStands n m.graph root'
        × ((i j : ℕ) → (root' i ≡ root' j) ↔ Linked root (sampled_edges query reps) i j)
    supernodes_to_merge-Joined =
        let (m, run, _, _, (root', rep', same)) = supernodes_to_merge-Keeps in
        (
          m,
          root',
          run,
          rep',
          λ i j.
              let none_after = append-nil (sampled_edges query reps) in
              (
                λ p.
                    subst (λ es. Linked root es i j) none_after
                      ((same [] i j).0 (Linked.before i j p)),
                λ l.
                    Linked-none
                      ((same [] i j).1 (subst (λ es. Linked root es i j) (sym none_after) l)),
              ),
        )
