-- ===== src/Graph/Boruvka/Cut/Joining.antt =====
-- The loop of `supernodes_to_merge`, with the lists that it leaves.
use anon_graphzeppelin.Base.{
  Distinct, ℕ, ◌+◌, ◌^◌, ◌<◌, ◌≤◌, ◌≡◌, ◌≢◌, refl, sym, ap, subst, ◌∙◌, inl, arith, true, false,
  List, [], ◌∷◌, ◌++◌, some, and_then, replicate, length-replicate, get_or-replicate, ◌==◌, ltb,
  u32, if◌then◌else◌,
}
use mathlib.Core.List.{Memᴰ}
use native.Mathlib.Decide.{ℕ_discrete, dec_lt}
use native.Mathlib.Nat.{mod-eq_of_lt}
use anon_graphzeppelin.Types.{Edge, SampleSketchRet}
use anon_graphzeppelin.Forest.{at, root_root}
use anon_graphzeppelin.Forest.Link.{join, Represents-link, sizes-le}
use anon_graphzeppelin.Dsu.Components.{InRange, one_more}
use anon_graphzeppelin.Dsu.Merge.{enough_fuel}
use anon_graphzeppelin.Graph.{
  Graph, Merging, get_parent, link_supernodes, merge_parents, first_parent, second_parent,
  merge_sample, merge_samples,
}
use anon_graphzeppelin.Graph.Parent.{GraphStands, get_parent-GraphStands}
use anon_graphzeppelin.Graph.Rounds.{sampled, sampled_edges, InRange-split}
use anon_graphzeppelin.Graph.Boruvka.Cut.Families.{Family, Family-link, Memᴰ-left, Memᴰ-right}

-- The graph stands for `root`, whose classes are those of `old` as the lists tell.
pub record Merged (n : ℕ) (old : ℕ → ℕ) (m : Merging) (root : ℕ → ℕ) : Type 0 where
  pub stands : GraphStands n m.graph root
  pub family : Family n old root m.to_merge
  pub nodes : m.graph.num_nodes ≡ n
  pub still : m.graph.modified ≡ false → (i : ℕ) → i < n → root i ≡ old i

-- What a part of the loop keeps of what was there.
pub record Later (m : Merging) (root : ℕ → ℕ) (m' : Merging) (root' : ℕ → ℕ) : Type 0 where
  pub coarser : (i j : ℕ) → root i ≡ root j → root' i ≡ root' j
  pub modified : m.graph.modified ≡ true → m'.graph.modified ≡ true
  pub failed : (i : ℕ) → Memᴰ i m.new_reps → Memᴰ i m'.new_reps

Later-refl : (m : Merging) (root : ℕ → ℕ) → Later m root m root
Later-refl m root = record { coarser = λ i j e. e; modified = λ e. e; failed = λ i p. p }

Later-trans :
    {m m' m'' : Merging} {root root' root'' : ℕ → ℕ}
    → Later m root m' root'
    → Later m' root' m'' root''
    → Later m root m'' root''
Later-trans p q = record {
  coarser = λ i j e. q.coarser i j (p.coarser i j e);
  modified = λ e. q.modified (p.modified e);
  failed = λ i h. q.failed i (p.failed i h);
}

-- The sample of `i` was dealt with: an edge has its ends in one class, a failure is kept.
abbrev pub Settled : Merging → (ℕ → ℕ) → ℕ → Edge × SampleSketchRet → Type 0
Settled m root i q =
    (q.1 ≡ SampleSketchRet.good → root q.0.src ≡ root q.0.dst)
    × (q.1 ≡ SampleSketchRet.fail → (m.graph.modified ≡ true) × Memᴰ i m.new_reps)

module _ (n : ℕ) (narrow : n < 2 ^ 32) (old : ℕ → ℕ) where
  join-coarser : (root : ℕ → ℕ) (a b i j : ℕ) → root i ≡ root j → join root a b i ≡ join root a b j
  join-coarser root a b i j e = ap (λ k. if k == b then a else k) e

  link_supernodes-Merged :
      (m : Merging) (root : ℕ → ℕ) (a b : ℕ) (edge : Edge)
      → Merged n old m root
      → a < n
      → b < n
      → at m.graph.parent a ≡ a
      → at m.graph.parent b ≡ b
      → a ≢ b
      → at m.graph.size b ≤ at m.graph.size a
      → Merged n old (link_supernodes m a b edge) (join root a b)
        × Later m root (link_supernodes m a b edge) (join root a b)
  unfolding link_supernodes
  link_supernodes-Merged m root a b edge h pa pb ra rb ne le =
      let rep = h.stands in
      let sum-le = sizes-le rep a b pa pb ra rb ne in
      let exact : u32 (at m.graph.size a + at m.graph.size b)
          ≡ at m.graph.size a + at m.graph.size b =
        mod-eq_of_lt (omega (arith, sum-le, narrow)) in
      (
        record {
          stands = rw exact (Represents-link rep a b pa pb ra rb ne le);
          family =
              Family-link n old root m.to_merge h.family a b pa pb (rep.own a pa ra)
                (rep.own b pb rb) ne;
          nodes = h.nodes;
          still = λ e. cc;
        },
        record { coarser = join-coarser root a b; modified = λ e. refl; failed = λ i p. p },
      )

  -- The two ends of a sampled edge.
  merge_parents-Merged :
      (m : Merging) (root : ℕ → ℕ) (edge : Edge)
      → Merged n old m root
      → edge.src < n
      → edge.dst < n
      → (root' : ℕ → ℕ) × Merged n old (merge_parents m (root edge.src) (root edge.dst) edge) root'
        × Later m root (merge_parents m (root edge.src) (root edge.dst) edge) root'
        × (root' edge.src ≡ root' edge.dst)
  unfolding merge_parents
  merge_parents-Merged m root edge h ps pd = elim (ℕ_discrete (root edge.src) (root edge.dst)) [
    | yes e ↦
        let test : (root edge.src == root edge.dst) ≡ true = ground (arith, e) in
        rw test (root, h, Later-refl m root, e)
    | no ne ↦
        let rep = h.stands in
        let test : (root edge.src == root edge.dst) ≡ false = ground (arith, ne) in
        elim (dec_lt (at m.graph.size (root edge.src)) (at m.graph.size (root edge.dst))) [
          | yes less ↦
              let swap : ltb (at m.graph.size (root edge.src)) (at m.graph.size (root edge.dst))
                  ≡ true =
                ground arith in
              let (merged, later) =
                link_supernodes-Merged m root (root edge.dst) (root edge.src) edge h
                  (rep.root_inside edge.dst pd) (rep.root_inside edge.src ps) (rep.top edge.dst pd)
                  (rep.top edge.src ps) (λ e. ne (sym e)) (omega arith) in
              rw (test, swap)
                (join root (root edge.dst) (root edge.src), merged, later, ground (arith, ne))
          | no more ↦
              let keep : ltb (at m.graph.size (root edge.src)) (at m.graph.size (root edge.dst))
                  ≡ false =
                ground arith in
              let (merged, later) =
                link_supernodes-Merged m root (root edge.src) (root edge.dst) edge h
                  (rep.root_inside edge.src ps) (rep.root_inside edge.dst pd) (rep.top edge.src ps)
                  (rep.top edge.dst pd) ne (omega arith) in
              rw (test, keep)
                (join root (root edge.src) (root edge.dst), merged, later, ground (arith, ne))
        ]
  ]

  module _ (fuel : ℕ) (fits : n < 2 ^ fuel) where
    good-Merged :
        (m : Merging) (root : ℕ → ℕ) (edge : Edge)
        → Merged n old m root
        → edge.src < n
        → edge.dst < n
        → (m' : Merging) × (root' : ℕ → ℕ) × (first_parent fuel m edge
              (get_parent fuel m.graph edge.src)
            ≡ some m')
          × Merged n old m' root'
          × Later m root m' root'
          × (root' edge.src ≡ root' edge.dst)
    unfolding first_parent second_parent
    good-Merged m root edge h ps pd =
        let rep = h.stands in
        let (a, run_a, root_a, same_a, rep_a) =
          get_parent-GraphStands n root fuel m.graph edge.src rep ps
            (enough_fuel n (at m.graph.size edge.src) fuel fits (rep.positive edge.src ps)) in
        let (b, run_b, root_b, same_b, rep_b) =
          get_parent-GraphStands n root fuel a.graph edge.dst rep_a pd
            (enough_fuel n (at a.graph.size edge.dst) fuel fits (rep_a.positive edge.dst pd)) in
        let m' = record m { graph = b.graph } in
        let h' : Merged n old m' root = record {
          stands = rep_b;
          family = h.family;
          nodes = same_b.num_nodes ∙ same_a.num_nodes ∙ h.nodes;
          still = λ e. h.still (sym same_a.modified ∙ sym same_b.modified ∙ e);
        } in
        let (root', merged, later, same) = merge_parents-Merged m' root edge h' ps pd in
        (
          merge_parents m' a.value b.value edge,
          root',
          ap (first_parent fuel m edge) run_a
              ∙ ap (second_parent (record m { graph = a.graph }) a.value edge) run_b,
          rw (root_a, root_b) merged,
          rw (root_a, root_b)
              (record {
                coarser = later.coarser;
                modified = λ e. later.modified (same_b.modified ∙ same_a.modified ∙ e);
                failed = later.failed;
              }),
          same,
        )

    merge_sample-Merged :
        (m : Merging) (root : ℕ → ℕ) (i : ℕ) (edge : Edge) (code : SampleSketchRet)
        → Merged n old m root
        → InRange n (sampled edge code)
        → (m' : Merging) × (root' : ℕ → ℕ) × (merge_sample fuel m i edge code ≡ some m')
          × Merged n old m' root'
          × Later m root m' root'
          × Settled m' root' i (edge, code)
    unfolding merge_sample
    merge_sample-Merged m root i edge SampleSketchRet.good h (one_more ps pd _) =
        let (m', root', run, merged, later, same) = good-Merged m root edge h ps pd in
        (m', root', run, merged, later, (λ e. same, λ e. cc))
    merge_sample-Merged m root i edge SampleSketchRet.zero h range =
        (m, root, refl, h, Later-refl m root, (λ e. cc, λ e. cc))
    merge_sample-Merged m root i edge SampleSketchRet.fail h range = (
      record m { graph = record m.graph { modified = true }; new_reps = m.new_reps ++ i ∷ [] },
      root,
      refl,
      record { stands = h.stands; family = h.family; nodes = h.nodes; still = λ e. cc },
      record {
        coarser = λ i j e. e;
        modified = λ e. refl;
        failed = λ j p. Memᴰ-left m.new_reps (i ∷ []) p;
      },
      (λ e. cc, λ e. (refl, Memᴰ-right m.new_reps (i ∷ []) (Memᴰ.head refl))),
    )

    Settled-Later :
        (m m' : Merging) (root root' : ℕ → ℕ) (i : ℕ) (q : Edge × SampleSketchRet)
        → Later m root m' root'
        → Settled m root i q
        → Settled m' root' i q
    Settled-Later m m' root root' i q later h = (
      λ e. later.coarser q.0.src q.0.dst (h.0 e),
      λ e. (later.modified (h.1 e).0, later.failed i (h.1 e).1),
    )

    -- The whole loop: every sample is settled.
    pub merge_samples-Merged :
        (query : ℕ → Edge × SampleSketchRet) (reps : List ℕ) (m : Merging) (root : ℕ → ℕ)
        → Merged n old m root
        → InRange n (sampled_edges query reps)
        → (m' : Merging) × (root' : ℕ → ℕ) × (merge_samples fuel query m reps ≡ some m')
          × Merged n old m' root'
          × Later m root m' root'
          × ((i : ℕ) → Memᴰ i reps → Settled m' root' i (query i))
    unfolding merge_samples
    merge_samples-Merged query [] m root h range =
        (m, root, refl, h, Later-refl m root, λ i p. elim p [ ])
    merge_samples-Merged query (i ∷ reps) m root h range =
        let (first, others) =
          InRange-split n narrow fuel fits (query i).0 (query i).1 (sampled_edges query reps)
            range in
        let (m', root', run, h', later, settled) =
          merge_sample-Merged m root i (query i).0 (query i).1 h first in
        let (m'', root'', runs, h'', later', rest) =
          merge_samples-Merged query reps m' root' h' others in
        (
          m'',
          root'',
          ap (λ o. and_then o (λ t. merge_samples fuel query t reps)) run ∙ runs,
          h'',
          Later-trans later later',
          λ j p. elim p [
            | Memᴰ.head e ↦
                subst (λ k. Settled m'' root'' k (query k)) (sym e)
                  (Settled-Later m' m'' root' root'' i (query i) later' settled)
            | Memᴰ.tail p' ↦ rest j p'
          ],
        )

  -- The lists in front of the loop.
  pub empty-Merged :
      (g : Graph)
      → g.num_nodes ≡ n
      → GraphStands n g old
      → Merged n old (record { graph = g; to_merge = replicate g.num_nodes []; new_reps = [] }) old
  empty-Merged g nodes stands = record {
    stands = stands;
    family = record {
      size = length-replicate g.num_nodes [] ∙ nodes;
      coarse = λ i p. root_root stands i p;
      own = λ r p e. e;
      empty = λ b p e. get_or-replicate g.num_nodes b [];
      member = λ r c p m. elim (subst (Memᴰ c) (get_or-replicate g.num_nodes r []) m) [ ];
      complete = λ c p e. inl (sym e);
      distinct = λ r p. subst Distinct (sym (get_or-replicate g.num_nodes r [])) tt;
    };
    nodes = nodes;
    still = λ e i p. refl;
  }
