-- ===== src/Graph/Query/Components.antt =====
-- `boruvka_emulation` as a whole returns, and joins nodes along edges alone.
use mathlib.Core.List.{append-nil}
use anon_graphzeppelin.Base.{
  ℕ, ◌^◌, ◌<◌, ◌≡◌, refl, sym, ap, subst, ◌∙◌, ◌⊎◌, inl, inr, ◌↔◌, Bool, true, List, [], map,
  Option, none, some, and_then, length, Exception, ok, throw,
}
use anon_graphzeppelin.Types.{Edge}
use anon_graphzeppelin.Dsu.Merge.Classes.{Linked, Linked-none}
use anon_graphzeppelin.Graph.{Graph}
use anon_graphzeppelin.Graph.Parent.{GraphStands}
use anon_graphzeppelin.Graph.Rounds.{Joined}
use anon_graphzeppelin.Graph.Answer.{Entry}
use anon_graphzeppelin.Graph.Answer.Classes.{class_below, Lists, cc_from_dsu-Lists}
use anon_graphzeppelin.Graph.Sampler.{Sampler, IsFair}
use anon_graphzeppelin.Graph.Boruvka.{first_run, cleanup_copy}
use anon_graphzeppelin.Graph.Boruvka.Samples.{AllGood, total_remaining}
use anon_graphzeppelin.Graph.Boruvka.Backup.{cleanup-some, first_run-Inv}
use anon_graphzeppelin.Graph.Boruvka.Rounds.{Each, boruvka_rounds-Inv}
use anon_graphzeppelin.Graph.Query.{Engine, Reply, finish_boruvka, boruvka_emulation}

module _ (S : Sampler) (n : ℕ) (Good : S.State → Type 0) (IsEdge : Edge → Type 0)
    (fair : IsFair S n Good IsEdge) (narrow : n < 2 ^ 32) (fuel : ℕ) (fits : n < 2 ^ fuel) where
  -- The graph stands for classes of nodes that some of the edges link.
  abbrev pub StandsLinked : Graph → (ℕ → ℕ) → Type 0
  StandsLinked g root =
      GraphStands n g root
      × ((edges : List Edge) × Each IsEdge edges
          × ((i j : ℕ) → (root i ≡ root j) ↔ Linked (λ k. k) edges i j))

  -- A call of `boruvka_emulation` threw, or the graph is left with its classes, and the sets that
  -- are returned are those classes.
  abbrev pub Answered : Reply S.State (List (List ℕ)) → Type 0
  Answered r =
      ((root : ℕ → ℕ) × (temp : List Entry) × (r.result ≡ ok (map (λ e. e.nodes) temp))
        × Lists (λ k. class_below root k n) 0 temp
        × StandsLinked r.engine.graph root
        × (r.engine.graph.dsu_valid ≡ true))
      ⊎ ((x : Exception) × (r.result ≡ throw x))

  finish-Answered :
      (rounds : ℕ) (err : Option Exception) (e : Engine S.State)
      → e.graph.num_nodes ≡ n
      → (edges : List Edge) × Each IsEdge edges × Joined n (λ i. i) edges e.graph
      → (r : Reply S.State (List (List ℕ))) × (finish_boruvka S fuel rounds e err ≡ some r)
        × (r.engine.update_locked ≡ e.update_locked)
        × (r.engine.graph.num_nodes ≡ n)
        × Answered r
  unfolding finish_boruvka
  finish-Answered rounds (some x) e nodes classes =
      (record { engine = e; result = throw x }, refl, refl, nodes, inr (x, refl))
  finish-Answered rounds none e nodes (edges, each, (root, stands, same)) =
      let (temp, r, run, sets, lists, rep, kept) =
        cc_from_dsu-Lists n root fuel fits (record e.graph { dsu_valid = true }) nodes stands in
      (
        record { engine = record e { graph = r.graph }; result = ok r.value },
        ap
            (λ o.
              and_then o
                (λ r. some (record { engine = record e { graph = r.graph }; result = ok r.value })))
            run,
        refl,
        kept.num_nodes ∙ nodes,
        inl (
          root,
          temp,
          ap ok sets,
          lists,
          (
            rep,
            (
              edges,
              each,
              λ i j.
                  let none_after = append-nil edges in
                  (
                    λ p.
                        subst (λ es. Linked (λ k. k) es i j) none_after
                          ((same [] i j).0 (Linked.before i j p)),
                    λ l.
                        Linked-none (
                          (same [] i j).1
                            (subst (λ es. Linked (λ k. k) es i j) (sym none_after) l)),
                  ),
            ),
          ),
          kept.dsu_valid,
        ),
      )

  -- The algorithm of Boruvka, with more rounds than there are samples left, on good supernodes:
  -- it returns, or throws what a sample threw; updates are locked then. The sets that it returns
  -- are the classes of nodes that some of the edges link: no two nodes are in one set unless edges
  -- lead from one to the other.
  pub boruvka_emulation-Answered :
      (rounds : ℕ) (make_copy : Bool) (e : Engine S.State)
      → e.graph.num_nodes ≡ n
      → length e.supernodes ≡ n
      → AllGood S n Good IsEdge fair e.supernodes
      → total_remaining S n Good IsEdge fair e.supernodes < rounds
      → (r : Reply S.State (List (List ℕ))) × (boruvka_emulation S fuel rounds make_copy e ≡ some r)
        × (r.engine.update_locked ≡ true)
        × (r.engine.graph.num_nodes ≡ n)
        × Answered r
  unfolding boruvka_emulation first_run
  boruvka_emulation-Answered rounds make_copy e nodes size good enough =
      let start = first_run S fuel make_copy e.backup_in_mem e.graph e.supernodes in
      let (ended, run, inv) =
        boruvka_rounds-Inv S n Good IsEdge fair narrow fuel fits make_copy e.backup_in_mem rounds
          start
          (first_run-Inv S n Good IsEdge fair narrow fuel fits make_copy e.backup_in_mem e.graph
            e.supernodes nodes size good)
          enough in
      let (sn, clean) =
        cleanup-some S n Good IsEdge fair narrow fuel fits make_copy e.backup_in_mem ended.run
          inv in
      let engine = record e { graph = ended.run.graph; supernodes = sn; update_locked = true } in
      let (r, finish, locked, nodes', answered) =
        finish-Answered rounds ended.err engine inv.nodes inv.classes in
      (
        r,
        ap
              (λ o. and_then o (λ ended.
                and_then (cleanup_copy S fuel make_copy e.backup_in_mem ended.run) (λ supernodes.
                  finish_boruvka S fuel rounds
                    (record e {
                      graph = ended.run.graph;
                      supernodes = supernodes;
                      update_locked = true;
                    })
                    ended.err)))
              run
            ∙ ap
                (λ o. and_then o (λ supernodes.
                  finish_boruvka S fuel rounds
                    (record e {
                      graph = ended.run.graph;
                      supernodes = supernodes;
                      update_locked = true;
                    })
                    ended.err))
                clean
            ∙ finish,
        locked,
        nodes',
        answered,
      )
