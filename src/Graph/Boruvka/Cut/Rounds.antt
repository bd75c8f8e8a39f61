-- ===== src/Graph/Boruvka/Cut/Rounds.antt =====
-- One round of `boruvka_emulation`, where no sample throws.
use mathlib.Core.List.{Memᴰ}
use anon_graphzeppelin.Base.{
  ℕ, ◌^◌, ◌<◌, ◌≡◌, refl, sym, ap, ◌∙◌, inl, inr, Bool, false, ◌&&◌, List, [], none, some, and_then,
  replicate, Option-cases,
}
use anon_graphzeppelin.Types.{Edge, SampleSketchRet}
use anon_graphzeppelin.Graph.{
  Graph, Merging, merge_samples, supernodes_to_merge, after_loop, finish_merging,
}
use anon_graphzeppelin.Graph.Parent.{GraphStands}
use anon_graphzeppelin.Graph.Rounds.{sampled_edges}
use anon_graphzeppelin.Graph.Sampler.{Sampler, IsFair}
use anon_graphzeppelin.Graph.Boruvka.{
  Run, Ended, Sampling, sample_supernodes, merge_round, sampled_round, round,
}
use anon_graphzeppelin.Graph.Boruvka.Samples.{Honest, sample_supernodes-Samplings}
use anon_graphzeppelin.Graph.Boruvka.Rounds.{Inv, Each-sampled, Each-InRange}
use anon_graphzeppelin.Graph.Boruvka.Cut.{IsCut}
use anon_graphzeppelin.Graph.Boruvka.Cut.Joining.{merge_samples-Merged, empty-Merged}
use anon_graphzeppelin.Graph.Boruvka.Cut.Telling.{Told, Tells, sample_supernodes-Tells}
use anon_graphzeppelin.Graph.Boruvka.Cut.Covered.{Closed, Covered, Closed-after, Covered-after}

-- `supernodes_to_merge`, where its loop returns.
supernodes_to_merge-loop :
    (fuel : ℕ) (query : ℕ → Edge × SampleSketchRet) (g : Graph) (reps : List ℕ) (m : Merging)
    → merge_samples fuel query
        (record { graph = g; to_merge = replicate g.num_nodes []; new_reps = [] })
        reps
      ≡ some m
    → supernodes_to_merge fuel query g reps ≡ some (finish_merging m)
unfolding supernodes_to_merge after_loop
supernodes_to_merge-loop fuel query g reps m run = ap after_loop run

module _ (S : Sampler) (n : ℕ) (Good : S.State → Type 0) (IsEdge : Edge → Type 0)
    (fair : IsFair S n Good IsEdge) (cut : IsCut S n IsEdge) (narrow : n < 2 ^ 32) (fuel : ℕ)
    (fits : n < 2 ^ fuel) (make_copy in_mem : Bool) where
  -- The classes of a run are covered.
  abbrev pub Standing : Run S.State → Type 0
  Standing r =
      (root : ℕ → ℕ) × GraphStands n r.graph root × Covered S n IsEdge cut r.supernodes r.reps root

  -- What `sample_supernodes` makes of a run.
  abbrev pub sampled_run : Run S.State → Sampling S.State
  sampled_run r =
      sample_supernodes S (record { supernodes = r.supernodes; query = r.query; err = none }) r.reps

  -- What a round that does not throw leaves: new classes, that its supernodes cover.
  pub record Covers (old : ℕ → ℕ) (reps : List ℕ) (sn : List S.State) (ended : Ended S.State)
      : Type 0 where
    pub root : ℕ → ℕ
    pub stands : GraphStands n ended.run.graph root
    pub covered : Covered S n IsEdge cut ended.run.supernodes ended.run.reps root
    pub closed :
        ended.run.graph.modified ≡ false
        → (c : ℕ) → c < n
        → root c ≡ c
        → Closed S n IsEdge cut root c

  -- A round throws what a sample threw, or its classes are covered.
  pub round-Covers :
      (r : Run S.State)
      → Inv S n Good IsEdge fair narrow fuel fits make_copy in_mem r
      → (standing : Standing r)
      → (ended : Ended S.State) × (round S fuel make_copy in_mem r ≡ some ended)
        × (ended.err ≡ (sampled_run r).err)
        × (ended.err ≡ none → Covers standing.0 r.reps (sampled_run r).supernodes ended)
  unfolding round merge_round finish_merging
  round-Covers r inv (old, stands, covered) =
      let t0 : Sampling S.State = record {
        supernodes = r.supernodes;
        query = r.query;
        err = none;
      } in
      let t = sample_supernodes S t0 r.reps in
      let done =
        sample_supernodes-Samplings S n Good IsEdge fair r.reps t0 inv.size inv.reps inv.good in
      let r' : Run S.State = record r {
        graph = record r.graph { modified = false };
        supernodes = t.supernodes;
        query = t.query;
      } in
      let tells : (c : ℕ)
          → c < n
          → old c ≡ c
          → Tells S n IsEdge cut (λ i. old i ≡ c) c t0 t r.reps =
        λ c p own.
          sample_supernodes-Tells S n IsEdge cut (λ i. old i ≡ c) c r.reps t0
            (covered.shows c p own) in
      elim (Option-cases t.err) [
        | inr (x, e) ↦ (
          record { run = r'; err = some x },
          ap (sampled_round S fuel make_copy in_mem r') e ∙ (unfold sampled_round in refl),
          sym e,
          λ quiet. cc,
        )
        | inl quiet ↦
            let honest : (j : ℕ) → Memᴰ j r.reps → Honest S n Good IsEdge fair (t.query j) =
              λ j l. done.honest j quiet (inr l) in
            let each = Each-sampled S n Good IsEdge fair narrow fuel fits t.query r.reps honest in
            let range =
              Each-InRange S n Good IsEdge fair narrow fuel fits (sampled_edges t.query r.reps)
                each in
            let (m, root, run, merged, _, settled) =
              merge_samples-Merged n narrow old fuel fits t.query r.reps
                (record {
                  graph = r'.graph;
                  to_merge = replicate r'.graph.num_nodes [];
                  new_reps = [];
                })
                old (empty-Merged n narrow old r'.graph inv.nodes stands) range in
            let told : (c : ℕ)
                → c < n
                → old c ≡ c
                → Memᴰ c r.reps
                → Told S n IsEdge cut (λ i. old i ≡ c) (t.query c) =
              λ c p own rep. (tells c p own).told quiet (inr rep) in
            let inside : (i : ℕ)
                → Memᴰ i r.reps
                → (t.query i).1 ≡ SampleSketchRet.good
                → ((t.query i).0.src < n) × ((t.query i).0.dst < n) =
              λ i l good. fair.inside (t.query i).0 (honest i l good) in
            (
              merge_round S fuel make_copy in_mem r' (finish_merging m),
              ap (sampled_round S fuel make_copy in_mem r') quiet
                  ∙ (unfold sampled_round in
                      ap (λ o. and_then o (λ m. some (merge_round S fuel make_copy in_mem r' m)))
                        (supernodes_to_merge-loop fuel t.query r'.graph r.reps m run)),
              sym quiet,
              λ _. record {
                root = root;
                stands = merged.stands;
                covered =
                    Covered-after S n IsEdge cut fair.inside m old root r'.graph stands merged
                      r.reps t.query covered.active told settled inside t.supernodes r.copies
                      ((make_copy && r.first_round) && in_mem) (done.size ∙ inv.size)
                      (λ c p own. (tells c p own).shows);
                closed =
                    Closed-after S n IsEdge cut fair.inside m old root r'.graph stands merged r.reps
                      t.query covered.active told settled inside;
              },
            )
      ]
