-- ===== src/Graph/Query/Flags.antt =====
-- What a query leaves in the flags of the graph, and what the next query makes of it.
use anon_graphzeppelin.Base.{
  length, ◌↔◌, ℕ, ◌^◌, ◌<◌, ◌≡◌, refl, ap, ◌∙◌, ◌⊎◌, inl, inr, Bool, true, false, not, ◌&&◌, List,
  Option, some, and_then, if◌then◌else◌, ◌==◌, Exception, ok, throw,
}
use anon_graphzeppelin.Dsu.Merge.{enough_fuel}
use anon_graphzeppelin.Dsu.Components.{identity-Represents}
use anon_graphzeppelin.Graph.{Graph}
use anon_graphzeppelin.Graph.Parent.{
  GraphStands, SameButParent, SameButParent-trans, get_parent-GraphStands,
}
use anon_graphzeppelin.Graph.Sampler.{Sampler, IsFair}
use anon_graphzeppelin.Types.{Edge}
use anon_graphzeppelin.Dsu.Merge.Classes.{Linked}
use anon_graphzeppelin.Graph.Boruvka.Samples.{AllGood, total_remaining}
use anon_graphzeppelin.Graph.Boruvka.Rounds.{Each}
use anon_graphzeppelin.Graph.Query.Components.{Answered, boruvka_emulation-Answered}
use anon_graphzeppelin.Graph.Query.{
  Engine, Reply, resume, reset_dsu, boruvka_emulation, cached_point, same_parent, point_answer,
  connected_components, point_query,
}

module _ (S : Sampler) (fuel rounds : ℕ) where
  -- On a graph that stands for classes, the cached answer of a point query is whether the two roots
  -- are the same.
  pub cached_point-GraphStands :
      (n : ℕ) (root : ℕ → ℕ) (e : Engine S.State) (a b : ℕ)
      → n < 2 ^ fuel
      → GraphStands n e.graph root
      → a < n
      → b < n
      → (g : Graph) × (cached_point S fuel rounds e a b
          ≡ some (record { engine = record e { graph = g }; result = ok (root a == root b) }))
        × GraphStands n g root
        × SameButParent e.graph g
  unfolding cached_point same_parent
  cached_point-GraphStands n root e a b fits rep pa pb =
      let (r, run_a, root_a, same_a, rep_a) =
        get_parent-GraphStands n root fuel e.graph a rep pa
          (enough_fuel n _ fuel fits (rep.positive a pa)) in
      let (t, run_b, root_b, same_b, rep_b) =
        get_parent-GraphStands n root fuel r.graph b rep_a pb
          (enough_fuel n _ fuel fits (rep_a.positive b pb)) in
      (t.graph, rw (run_a, run_b, root_a, root_b) refl, rep_b, SameButParent-trans same_a same_b)

  -- In a graph whose array of parents is as the constructor sets it, each node is its own parent.
  cached_point-reset :
      (n : ℕ) (e : Engine S.State) (c d : ℕ)
      → n < 2 ^ fuel
      → e.graph.num_nodes ≡ n
      → c < n
      → d < n
      → (g : Graph) × (cached_point S fuel rounds
            (resume S fuel rounds (reset_dsu S fuel rounds e))
            c
            d
          ≡ some (record {
            engine = record (resume S fuel rounds (reset_dsu S fuel rounds e)) { graph = g };
            result = ok (c == d);
          }))
  unfolding resume reset_dsu
  cached_point-reset n e c d fits nodes pc pd =
      let (g, run, _, _) =
        cached_point-GraphStands n (λ i. i) (resume S fuel rounds (reset_dsu S fuel rounds e)) c d
          fits (rw nodes (identity-Represents n)) pc pd in
      (g, run)

  point_query-valid :
      (flush : List S.State → List S.State) (e : Engine S.State) (a b : ℕ)
      → e.graph.dsu_valid ≡ true
      → point_query S fuel rounds flush e a b ≡ cached_point S fuel rounds e a b
  unfolding point_query
  point_query-valid flush e a b valid =
      ap
        (λ v.
          if v
          then cached_point S fuel rounds e a b
          else and_then
              (boruvka_emulation S fuel rounds true (record e { supernodes = flush e.supernodes }))
              (λ r. and_then (point_answer S fuel rounds a b r.engine r.result) (λ p.
                some
                  (record p { engine = resume S fuel rounds (reset_dsu S fuel rounds p.engine) }))))
        valid

  -- A point query that runs the algorithm, which gives `r`.
  pub point_query-stale :
      (flush : List S.State → List S.State) (e : Engine S.State) (a b : ℕ)
      (r : Reply S.State (List (List ℕ))) (p : Reply S.State Bool)
      → e.graph.dsu_valid ≡ false
      → boruvka_emulation S fuel rounds true (record e { supernodes = flush e.supernodes }) ≡ some r
      → point_answer S fuel rounds a b r.engine r.result ≡ some p
      → point_query S fuel rounds flush e a b
        ≡ some (record p { engine = resume S fuel rounds (reset_dsu S fuel rounds p.engine) })
  unfolding point_query
  point_query-stale flush e a b r p stale run answer =
      ap
        (λ v.
          if v
          then cached_point S fuel rounds e a b
          else and_then
              (boruvka_emulation S fuel rounds true (record e { supernodes = flush e.supernodes }))
              ends)
        stale
      ∙ ap (λ o. and_then o ends) run
      ∙ ap
          (λ (o : Option (Reply S.State Bool)). and_then o (λ p.
            some (record p { engine = resume S fuel rounds (reset_dsu S fuel rounds p.engine) })))
          answer
    where
      ends : Reply S.State (List (List ℕ)) → Option (Reply S.State Bool)
      ends r = and_then (point_answer S fuel rounds a b r.engine r.result) (λ p.
          some (record p { engine = resume S fuel rounds (reset_dsu S fuel rounds p.engine) }))

module _ (S : Sampler) (n : ℕ) (Good : S.State → Type 0) (IsEdge : Edge → Type 0)
    (fair : IsFair S n Good IsEdge) (narrow : n < 2 ^ 32) (fuel : ℕ) (fits : n < 2 ^ fuel)
    (flush : List S.State → List S.State) (rounds : ℕ) (e : Engine S.State)
    (nodes : e.graph.num_nodes ≡ n) (size : length (flush e.supernodes) ≡ n)
    (good : AllGood S n Good IsEdge fair (flush e.supernodes))
    (enough : total_remaining S n Good IsEdge fair (flush e.supernodes) < rounds) where
  -- What a point query answered that ran the algorithm, and what the next one will.
  abbrev pub PointAnswered : ℕ → ℕ → Reply S.State Bool → Type 0
  PointAnswered a b r =
      ((root : ℕ → ℕ) × (edges : List Edge) × Each IsEdge edges
        × ((i j : ℕ) → (root i ≡ root j) ↔ Linked (λ k. k) edges i j)
        × (r.result ≡ ok (root a == root b))
        × ((c d : ℕ)
            → c < n
            → d < n
            → (g : Graph) × (point_query S fuel rounds flush r.engine c d
                ≡ some (record { engine = record r.engine { graph = g }; result = ok (c == d) }))))
      ⊎ ((x : Exception) × (r.result ≡ throw x))

  -- A point query that runs the algorithm, with more rounds than there are samples left, on good
  -- supernodes: it returns and lifts the lock on updates, also where a sample threw. Its answer is
  -- whether some of the edges lead from one node to the other. But it leaves the array of parents
  -- reset and marked as valid: the next point query, without an update in between, answers whether
  -- its two nodes are the same node.
  pub point_query-PointAnswered :
      (a b : ℕ)
      → e.graph.dsu_valid ≡ false
      → a < n
      → b < n
      → (r : Reply S.State Bool) × (point_query S fuel rounds flush e a b ≡ some r)
        × (r.engine.update_locked ≡ false)
        × PointAnswered a b r
  unfolding point_answer resume reset_dsu
  point_query-PointAnswered a b stale pa pb =
      let flushed = record e { supernodes = flush e.supernodes } in
      let (r, run, locked, nodes', answered) =
        boruvka_emulation-Answered S n Good IsEdge fair narrow fuel fits rounds true flushed nodes
          size good enough in
      elim answered [
        | inr (x, thrown) ↦ (
          record {
            engine = resume S fuel rounds (reset_dsu S fuel rounds r.engine);
            result = throw x;
          },
          point_query-stale S fuel rounds flush e a b r
              (record { engine = r.engine; result = throw x }) stale run
              (ap (point_answer S fuel rounds a b r.engine) thrown),
          refl,
          inr (x, refl),
        )
        | inl (root, temp, done, lists, (rep, (edges, each, same)), valid) ↦
            let (g, cached, rep', kept) =
              cached_point-GraphStands S fuel rounds n root r.engine a b fits rep pa pb in
            let left = record r.engine { graph = g } in
            let reset = resume S fuel rounds (reset_dsu S fuel rounds left) in
            (
              record { engine = reset; result = ok (root a == root b) },
              point_query-stale S fuel rounds flush e a b r
                  (record { engine = left; result = ok (root a == root b) }) stale run
                  (ap (point_answer S fuel rounds a b r.engine) done ∙ cached),
              refl,
              inl (
                root,
                edges,
                each,
                same,
                refl,
                λ c d pc pd.
                    let (g', again) =
                      cached_point-reset S fuel rounds n left c d fits (kept.num_nodes ∙ nodes') pc
                        pd in
                    (
                      g',
                      point_query-valid S fuel rounds flush reset c d (kept.dsu_valid ∙ valid)
                          ∙ again,
                    ),
              ),
            )
      ]

  -- A query for the components that runs the algorithm, with more rounds than there are samples left,
  -- on good supernodes: it returns or throws what a sample threw; updates stay locked if and only
  -- if the graph is not to be continued. The sets are the classes of nodes that some of the edges
  -- link.
  pub connected_components-Answered :
      (cont : Bool)
      → (e.graph.dsu_valid && cont) ≡ false
      → (r : Reply S.State (List (List ℕ))) × (connected_components S fuel rounds flush cont e
          ≡ some r)
        × (r.engine.update_locked ≡ not cont)
        × Answered S n Good IsEdge fair narrow fuel fits r
  unfolding connected_components resume
  connected_components-Answered false stale =
      let (r, run, locked, _, answered) =
        boruvka_emulation-Answered S n Good IsEdge fair narrow fuel fits rounds false
          (record e { supernodes = flush e.supernodes }) nodes size good enough in
      (r, rw stale run, locked, answered)
  connected_components-Answered true stale =
      let (r, run, _, _, answered) =
        boruvka_emulation-Answered S n Good IsEdge fair narrow fuel fits rounds true
          (record e { supernodes = flush e.supernodes }) nodes size good enough in
      (
        record r { engine = resume S fuel rounds r.engine },
        rw stale (
            ap
              (λ (o : Option (Reply S.State (List (List ℕ)))).
                and_then o (λ r. some (record r { engine = resume S fuel rounds r.engine })))
              run),
        refl,
        answered,
      )
