-- ===== src/Graph/Query/Exact/Calls.antt =====
-- `connected_components` and `point_query` where they run the algorithm: the answers are those of the
-- connected components.
use anon_graphzeppelin.Base.{
  ℕ, ◌^◌, ◌<◌, ◌≡◌, refl, ap, ◌∙◌, ◌⊎◌, inl, inr, ◌↔◌, Bool, true, false, not, ◌&&◌, List, Option,
  some, and_then, length, get_or, ◌==◌, ==_iff, Exception, ok, throw,
}
use anon_graphzeppelin.Types.{Edge}
use anon_graphzeppelin.Graph.Sampler.{Sampler, IsFair}
use anon_graphzeppelin.Graph.Boruvka.Samples.{AllGood, total_remaining}
use anon_graphzeppelin.Graph.Boruvka.Cut.{IsCut}
use anon_graphzeppelin.Graph.Query.{
  Engine, Reply, resume, reset_dsu, point_answer, connected_components, point_query,
}
use anon_graphzeppelin.Graph.Query.Flags.{cached_point-GraphStands, point_query-stale}
use anon_graphzeppelin.Graph.Query.Exact.{Connected, Exact, boruvka_emulation-Exact}

module _ (S : Sampler) (n : ℕ) (Good : S.State → Type 0) (IsEdge : Edge → Type 0)
    (fair : IsFair S n Good IsEdge) (cut : IsCut S n IsEdge) (narrow : n < 2 ^ 32) (fuel : ℕ)
    (fits : n < 2 ^ fuel) (flush : List S.State → List S.State) (rounds : ℕ) (e : Engine S.State)
    (nodes : e.graph.num_nodes ≡ n) (size : length (flush e.supernodes) ≡ n)
    (good : AllGood S n Good IsEdge fair (flush e.supernodes))
    (shows : (c : ℕ) → c < n → cut.Shows (get_or (flush e.supernodes) c S.absent) (λ i. i ≡ c))
    (enough : total_remaining S n Good IsEdge fair (flush e.supernodes) < rounds) where
  -- A query for the components that runs the algorithm, with more rounds than there are samples left,
  -- of fewer than 2 ^ 32 nodes, on good supernodes, the flushed ones, that each stand for one node: it returns or throws what a
  -- sample threw; updates stay locked if and only if the graph is not to be continued. The sets that
  -- it returns are the connected components of the graph: two nodes are in one set if and only if
  -- edges lead from one to the other. The samples are taken to come from the edges that leave a
  -- supernode, and to say ZERO only where no edge does.
  pub connected_components-Exact :
      (cont : Bool)
      → (e.graph.dsu_valid && cont) ≡ false
      → (r : Reply S.State (List (List ℕ))) × (connected_components S fuel rounds flush cont e
          ≡ some r)
        × (r.engine.update_locked ≡ not cont)
        × Exact S n Good IsEdge fair cut narrow fuel fits r
  unfolding connected_components resume
  connected_components-Exact false stale =
      let (r, run, locked, _, exact) =
        boruvka_emulation-Exact S n Good IsEdge fair cut narrow fuel fits rounds false
          (record e { supernodes = flush e.supernodes }) nodes size good shows enough in
      (r, rw stale run, locked, exact)
  connected_components-Exact true stale =
      let (r, run, _, _, exact) =
        boruvka_emulation-Exact S n Good IsEdge fair cut narrow fuel fits rounds true
          (record e { supernodes = flush e.supernodes }) nodes size good shows enough in
      (
        record r { engine = resume S fuel rounds r.engine },
        rw stale (
            ap
              (λ (o : Option (Reply S.State (List (List ℕ)))).
                and_then o (λ r. some (record r { engine = resume S fuel rounds r.engine })))
              run),
        refl,
        exact,
      )

  -- A point query that runs the algorithm, on the same conditions, between two nodes: it returns or
  -- throws what a sample threw, and lifts the lock on updates; its answer is true if and only if
  -- edges of the graph lead from one node to the other.
  pub point_query-Exact :
      (a b : ℕ)
      → e.graph.dsu_valid ≡ false
      → a < n
      → b < n
      → (r : Reply S.State Bool) × (point_query S fuel rounds flush e a b ≡ some r)
        × (r.engine.update_locked ≡ false)
        × (((same : Bool) × (r.result ≡ ok same) × ((same ≡ true) ↔ Connected IsEdge a b))
            ⊎ ((x : Exception) × (r.result ≡ throw x)))
  unfolding point_answer resume
  point_query-Exact a b stale pa pb =
      let (r, run, locked, nodes', exact) =
        boruvka_emulation-Exact S n Good IsEdge fair cut narrow fuel fits rounds true
          (record e { supernodes = flush e.supernodes }) nodes size good shows enough in
      elim exact [
        | inr (x, thrown) ↦ (
          record {
            engine = resume S fuel rounds (reset_dsu S fuel rounds r.engine);
            result = throw x;
          },
          point_query-stale S fuel rounds flush e a b r
              (record { engine = r.engine; result = throw x }) stale run
              (ap (point_answer S fuel rounds a b r.engine) thrown),
          refl,
          inr (x, refl),
        )
        | inl (root, temp, done, lists, components, stands, valid) ↦
            let (g, cached, _, _) =
              cached_point-GraphStands S fuel rounds n root r.engine a b fits stands pa pb in
            let same = root a == root b in
            (
              record {
                engine =
                    resume S fuel rounds (reset_dsu S fuel rounds (record r.engine { graph = g }));
                result = ok same;
              },
              point_query-stale S fuel rounds flush e a b r
                  (record { engine = record r.engine { graph = g }; result = ok same }) stale run
                  (ap (point_answer S fuel rounds a b r.engine) done ∙ cached),
              refl,
              inl (
                same,
                refl,
                (
                  λ t. (components a b pa pb).0 ((==_iff (root a) (root b)).0 t),
                  λ l. (==_iff (root a) (root b)).1 ((components a b pa pb).1 l),
                ),
              ),
            )
      ]
