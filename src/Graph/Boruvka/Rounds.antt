-- ===== src/Graph/Boruvka/Rounds.antt =====
-- The `do` loop of `boruvka_emulation`: it ends, and the classes that it leaves are those of edges
-- that were sampled.
use mathlib.Core.List.{append_assoc, Memᴰ}
use anon_graphzeppelin.Base.{
  Below, ℕ, zero, suc, ◌^◌, ◌<◌, ◌≤◌, ◌≡◌, refl, sym, ap, subst, ◌∙◌, inl, inr, arith, Bool, true,
  false, ◌&&◌, List, [], ◌∷◌, ◌++◌, none, some, and_then, length, Option-cases, Bool-cases,
}
use anon_graphzeppelin.Types.{Edge, SampleSketchRet}
use anon_graphzeppelin.Dsu.Components.{InRange, none_left, one_more}
use anon_graphzeppelin.Dsu.Merge.Classes.{Linked}
use anon_graphzeppelin.Graph.{
  Graph, Merging, supernodes_to_merge, merge_samples, after_loop, finish_merging,
}
use anon_graphzeppelin.Graph.Rounds.{sampled, sampled_edges, Joined, supernodes_to_merge-Keeps}
use anon_graphzeppelin.Graph.Sampler.{Sampler, IsFair}
use anon_graphzeppelin.Graph.Boruvka.{
  Run, Ended, sample_supernodes, merge_round, sampled_round, round, go_on, boruvka_rounds,
  backup_to_disk,
}
use anon_graphzeppelin.Graph.Boruvka.Samples.{
  AllGood, total_remaining, Honest, sample_supernodes-Samplings, merge_supernodes-Merges,
}

abbrev pub Each : (Edge → Type 0) → List Edge → Type 0
Each P [] = Unit
Each P (e ∷ es) = P e × Each P es

pub Each-Memᴰ : (P : Edge → Type 0) (es : List Edge) (e : Edge) → Each P es → Memᴰ e es → P e
Each-Memᴰ P [] e each l = elim l [ ]
Each-Memᴰ P (f ∷ es) e each (Memᴰ.head same) = subst P (sym same) each.0
Each-Memᴰ P (f ∷ es) e each (Memᴰ.tail l) = Each-Memᴰ P es e each.1 l

Each-append : (P : Edge → Type 0) (es fs : List Edge) → Each P es → Each P fs → Each P (es ++ fs)
Each-append P [] fs p q = q
Each-append P (e ∷ es) fs p q = (p.0, Each-append P es fs p.1 q)

-- A list of edges that is joined behind another.
Joined-trans :
    (n : ℕ) (root : ℕ → ℕ) (first rest : List Edge) (g g' : Graph)
    → (joined : Joined n root first g) → Joined n joined.0 rest g'
    → Joined n root (first ++ rest) g'
Joined-trans n root first rest g g' (mid, _, here) (end, stands, there) = (
  end,
  stands,
  λ more i j.
      let assoc = append_assoc first rest more in
      (
        λ l.
            subst (λ es. Linked root es i j) (sym assoc)
              ((here (rest ++ more) i j).0 ((there more i j).0 l)),
        λ l.
            (there more i j).1
              ((here (rest ++ more) i j).1 (subst (λ es. Linked root es i j) assoc l)),
      ),
)

-- Without representatives a round changes nothing.
pub idle_round :
    (fuel : ℕ) (query : ℕ → Edge × SampleSketchRet) (g : Graph) (reps : List ℕ) (m : Merging)
    → reps ≡ []
    → supernodes_to_merge fuel query g reps ≡ some m
    → m.graph.modified ≡ g.modified
unfolding supernodes_to_merge merge_samples after_loop finish_merging
idle_round fuel query g reps m e run = sym (
    ap (λ o. elim o [ none ↦ false | some t ↦ t.graph.modified ])
      (ap (supernodes_to_merge fuel query g) (sym e) ∙ run))

module _ (S : Sampler) (n : ℕ) (Good : S.State → Type 0) (IsEdge : Edge → Type 0)
    (fair : IsFair S n Good IsEdge) (narrow : n < 2 ^ 32) (fuel : ℕ) (fits : n < 2 ^ fuel) where
  pub Each-sampled :
      (query : ℕ → Edge × SampleSketchRet) (reps : List ℕ)
      → ((j : ℕ) → Memᴰ j reps → Honest S n Good IsEdge fair (query j))
      → Each IsEdge (sampled_edges query reps)
  Each-sampled query [] honest = tt
  Each-sampled query (i ∷ reps) honest =
      Each-append IsEdge (sampled (query i).0 (query i).1) (sampled_edges query reps)
        (one (query i).0 (query i).1 (honest i (Memᴰ.head refl)))
        (Each-sampled query reps (λ j m. honest j (Memᴰ.tail m)))
    where
      one :
          (e : Edge) (code : SampleSketchRet)
          → (code ≡ SampleSketchRet.good → IsEdge e)
          → Each IsEdge (sampled e code)
      one e SampleSketchRet.good h = (h refl, tt)
      one e SampleSketchRet.zero h = tt
      one e SampleSketchRet.fail h = tt

  pub Each-InRange : (es : List Edge) → Each IsEdge es → InRange n es
  Each-InRange [] p = none_left
  Each-InRange (e ∷ es) p =
      one_more (fair.inside e p.0).0 (fair.inside e p.0).1 (Each-InRange es p.1)

  module _ (make_copy in_mem : Bool) where
    -- What holds at the head of the loop, and behind it.
    pub record Inv (r : Run S.State) : Type 0 where
      pub nodes : r.graph.num_nodes ≡ n
      pub size : length r.supernodes ≡ n
      pub good : AllGood S n Good IsEdge fair r.supernodes
      pub reps : Below n r.reps
      pub classes : (edges : List Edge) × Each IsEdge edges × Joined n (λ i. i) edges r.graph
      pub file :
          in_mem ≡ false
          → (old : List S.State) × AllGood S n Good IsEdge fair old
            × (r.backup_file ≡ backup_to_disk S r.backed_up old)

    merge_round-Inv :
        (r : Run S.State) (m : Merging) (edges : List Edge)
        → Inv r
        → m.graph.num_nodes ≡ n
        → Below n m.new_reps
        → Each IsEdge edges
        → Joined n (λ i. i) edges m.graph
        → Inv (merge_round S fuel make_copy in_mem r m).run
          × (total_remaining S n Good IsEdge fair
                (merge_round S fuel make_copy in_mem r m).run.supernodes
              ≤ total_remaining S n Good IsEdge fair r.supernodes)
    unfolding merge_round
    merge_round-Inv r m edges inv nodes below each joined =
        let merged =
          merge_supernodes-Merges S n Good IsEdge fair ((make_copy && r.first_round) && in_mem)
            m.to_merge m.new_reps r.copies r.supernodes inv.size below inv.good in
        (
          record {
            nodes = nodes;
            size = merged.size ∙ inv.size;
            good = merged.good;
            reps = below;
            classes = (edges, each, joined);
            file = λ disk. elim (Bool-cases (make_copy && r.first_round)) [
              | inl e ↦ rw (e, disk) (r.supernodes, inv.good, refl)
              | inr e ↦ rw e (inv.file disk)
            ];
          },
          merged.le,
        )

    -- A round returns, keeps the invariant, and where it merged or failed, a sample was used up.
    abbrev pub Advance : Run S.State → Type 0
    Advance r =
        (ended : Ended S.State) × (round S fuel make_copy in_mem r ≡ some ended)
        × Inv ended.run
        × (ended.err ≡ none
            → ended.run.graph.modified ≡ true
            → total_remaining S n Good IsEdge fair ended.run.supernodes
              < total_remaining S n Good IsEdge fair r.supernodes)

    pub round-Advance : (r : Run S.State) → Inv r → Advance r
    unfolding round merge_round
    round-Advance r inv =
        let t =
          sample_supernodes S (record { supernodes = r.supernodes; query = r.query; err = none })
            r.reps in
        let done =
          sample_supernodes-Samplings S n Good IsEdge fair r.reps
            (record { supernodes = r.supernodes; query = r.query; err = none }) inv.size inv.reps
            inv.good in
        let r' : Run S.State = record r {
          graph = record r.graph { modified = false };
          supernodes = t.supernodes;
          query = t.query;
        } in
        let inv' : Inv r' = record {
          nodes = inv.nodes;
          size = done.size ∙ inv.size;
          good = done.good;
          reps = inv.reps;
          classes = inv.classes;
          file = inv.file;
        } in
        elim (Option-cases t.err) [
          | inl quiet ↦
              let each = Each-sampled t.query r.reps (λ j m. done.honest j quiet (inr m)) in
              let (edges, each_before, before) = inv.classes in
              let (m, run, nodes, below, joined) =
                supernodes_to_merge-Keeps n narrow fuel fits t.query r'.graph r.reps before.0
                  inv.nodes before.1 inv.reps (Each-InRange (sampled_edges t.query r.reps) each) in
              let all = edges ++ sampled_edges t.query r.reps in
              let (inv'', le) =
                merge_round-Inv r' m all inv' nodes below
                  (Each-append IsEdge edges (sampled_edges t.query r.reps) each_before each)
                  (Joined-trans n (λ i. i) edges (sampled_edges t.query r.reps) r'.graph m.graph
                    before joined) in
              (
                merge_round S fuel make_copy in_mem r' m,
                ap (sampled_round S fuel make_copy in_mem r') quiet
                    ∙ (unfold sampled_round in
                        ap (λ o. and_then o (λ m. some (merge_round S fuel make_copy in_mem r' m)))
                          run),
                inv'',
                λ _ modified. omega (
                  arith,
                  le,
                  done.less quiet (λ idle.
                      true_or_false m modified
                        (idle_round fuel t.query r'.graph r.reps m idle run)),
                ),
              )
          | inr (x, e) ↦ (
            record { run = r'; err = some x },
            ap (sampled_round S fuel make_copy in_mem r') e ∙ (unfold sampled_round in refl),
            inv',
            λ quiet _. cc,
          )
        ]
      where
        true_or_false : (m : Merging) → m.graph.modified ≡ true → m.graph.modified ≡ false → ⊥
        true_or_false m p q = cc

    -- With more rounds than there are samples left the loop returns. It stops with an exception of a
    -- sample, or after a round without a failure or a merge.
    pub boruvka_rounds-Inv :
        (rounds : ℕ) (r : Run S.State)
        → Inv r
        → total_remaining S n Good IsEdge fair r.supernodes < rounds
        → (ended : Ended S.State) × (boruvka_rounds S fuel make_copy in_mem rounds r ≡ some ended)
          × Inv ended.run
    unfolding boruvka_rounds go_on
    boruvka_rounds-Inv zero r inv enough = absurd (omega arith)
    boruvka_rounds-Inv (suc rounds) r inv enough =
        let (ended, run, inv', less) = round-Advance r inv in
        let first =
          ap
            (λ o. and_then o (λ ended.
              go_on S fuel make_copy in_mem ended.err ended.run.graph.modified ended
                (boruvka_rounds S fuel make_copy in_mem rounds)))
            run in
        elim (Option-cases ended.err) [
          | inr (x, e) ↦ (
            ended,
            first
                ∙ ap
                    (λ o.
                      go_on S fuel make_copy in_mem o ended.run.graph.modified ended
                        (boruvka_rounds S fuel make_copy in_mem rounds))
                    e,
            inv',
          )
          | inl quiet ↦
              let second =
                first
                ∙ ap
                    (λ o.
                      go_on S fuel make_copy in_mem o ended.run.graph.modified ended
                        (boruvka_rounds S fuel make_copy in_mem rounds))
                    quiet in
              elim (Bool-cases ended.run.graph.modified) [
                | inr stop ↦ (
                  ended,
                  second
                      ∙ ap
                          (λ b.
                            go_on S fuel make_copy in_mem none b ended
                              (boruvka_rounds S fuel make_copy in_mem rounds))
                          stop,
                  inv',
                )
                | inl more ↦
                    let (last, runs, inv_last) =
                      boruvka_rounds-Inv rounds ended.run inv' (omega (arith, less quiet more)) in
                    (
                      last,
                      second
                          ∙ ap
                              (λ b.
                                go_on S fuel make_copy in_mem none b ended
                                  (boruvka_rounds S fuel make_copy in_mem rounds))
                              more
                          ∙ runs,
                      inv_last,
                    )
              ]
        ]
