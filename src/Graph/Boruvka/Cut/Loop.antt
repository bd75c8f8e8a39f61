-- ===== src/Graph/Boruvka/Cut/Loop.antt =====
-- The `do` loop of `boruvka_emulation`, where no sample throws: it ends with classes that no edge
-- leaves, and where no sample fails it ends after log2(n) + 1 rounds.
use mathlib.Core.Option.{some-injective}
use anon_graphzeppelin.Base.{
  ℕ, zero, suc, ◌^◌, ◌<◌, ◌≡◌, sym, ap, subst, ◌∙◌, inl, inr, Bool, List, Option, none, some,
  and_then, get_or, Option-cases, Bool-cases, Exception, arith,
}
use anon_graphzeppelin.Types.{Edge}
use anon_graphzeppelin.Dsu.Components.{Memᴰ-identity, identity-Represents}
use anon_graphzeppelin.Graph.{Graph}
use anon_graphzeppelin.Graph.Parent.{GraphStands}
use anon_graphzeppelin.Graph.Sampler.{Sampler, IsFair}
use anon_graphzeppelin.Graph.Boruvka.{Run, Ended, go_on, boruvka_rounds, first_run}
use anon_graphzeppelin.Graph.Boruvka.Rounds.{Inv, round-Advance}
use anon_graphzeppelin.Graph.Boruvka.Cut.{IsCut}
use anon_graphzeppelin.Graph.Boruvka.Cut.Covered.{AllClosed, Covered}
use anon_graphzeppelin.Graph.Boruvka.Cut.Rounds.{Standing, round-Covers}

module _ (S : Sampler) (n : ℕ) (Good : S.State → Type 0) (IsEdge : Edge → Type 0)
    (fair : IsFair S n Good IsEdge) (cut : IsCut S n IsEdge) (narrow : n < 2 ^ 32) (fuel : ℕ)
    (fits : n < 2 ^ fuel) (make_copy in_mem : Bool) where
  -- The loop ends after a round that modified nothing, where no sample threw.
  pub boruvka_rounds-AllClosed :
      (rounds : ℕ) (r : Run S.State) (last : Ended S.State)
      → Inv S n Good IsEdge fair narrow fuel fits make_copy in_mem r
      → Standing S n Good IsEdge fair cut narrow fuel fits make_copy in_mem r
      → boruvka_rounds S fuel make_copy in_mem rounds r ≡ some last
      → last.err ≡ none
      → AllClosed S n IsEdge cut last.run.graph
  unfolding boruvka_rounds go_on
  boruvka_rounds-AllClosed zero r last inv standing run quiet = cc
  boruvka_rounds-AllClosed (suc rounds) r last inv standing run quiet =
      let (ended, one, _, covers) =
        round-Covers S n Good IsEdge fair cut narrow fuel fits make_copy in_mem r inv standing in
      let (ended', one', inv', _) =
        round-Advance S n Good IsEdge fair narrow fuel fits make_copy in_mem r inv in
      let same : ended' ≡ ended = cc in
      let then_ : Option Exception → Bool → Option (Ended S.State) = λ o b.
        go_on S fuel make_copy in_mem o b ended (boruvka_rounds S fuel make_copy in_mem rounds) in
      let rest : then_ ended.err ended.run.graph.modified ≡ some last =
        ap
          (λ o. and_then o (λ ended.
            go_on S fuel make_copy in_mem ended.err ended.run.graph.modified ended
              (boruvka_rounds S fuel make_copy in_mem rounds)))
          (sym one)
        ∙ run in
      elim (Option-cases ended.err) [
        | inr (x, e) ↦
            let is : ended ≡ last =
              some-injective ended last
                (ap (λ o. then_ o ended.run.graph.modified) (sym e) ∙ rest) in
            cc
        | inl none_thrown ↦
            let rest' = ap (λ o. then_ o ended.run.graph.modified) (sym none_thrown) ∙ rest in
            let after = covers none_thrown in
            elim (Bool-cases ended.run.graph.modified) [
              | inr still ↦
                  let is : ended ≡ last =
                    some-injective ended last (ap (then_ none) (sym still) ∙ rest') in
                  subst (λ e. AllClosed S n IsEdge cut e.run.graph) is
                    (after.root, after.stands, after.closed still)
              | inl more ↦
                  boruvka_rounds-AllClosed rounds ended.run last
                    (subst (λ e. Inv S n Good IsEdge fair narrow fuel fits make_copy in_mem e.run)
                      same inv')
                    (after.root, after.stands, after.covered) (ap (then_ none) (sym more) ∙ rest')
                    quiet
            ]
      ]

  -- In front of the loop each node is a class of its own.
  pub first_run-Covered :
      (g : Graph) (sn : List S.State)
      → g.num_nodes ≡ n
      → ((c : ℕ) → c < n → cut.Shows (get_or sn c S.absent) (λ i. i ≡ c))
      → GraphStands n (first_run S fuel make_copy in_mem g sn).graph (λ i. i)
        × Covered S n IsEdge cut
            (first_run S fuel make_copy in_mem g sn).supernodes
            (first_run S fuel make_copy in_mem g sn).reps
            (λ i. i)
  unfolding first_run
  first_run-Covered g sn nodes shows = (
    rw nodes (identity-Represents n),
    record {
      shows = λ c p _. shows c p;
      active = λ c p _. inl (Memᴰ-identity g.num_nodes 0 c (omega arith) (omega (arith, nodes, p)));
    },
  )
