-- ===== src/Supernode/Sampling/Kept.antt =====
-- The supernodes of one graph hold the numbers of its edges; sampling and merging keep that.
use anon_graphzeppelin.Base.{
  ℕ, ◌<◌, ◌≤◌, ◌≡◌, refl, sym, ap, ap₂, subst, ◌∙◌, ◌⊎◌, inl, inr, true, false, List, [], ◌++◌, max,
  min, arith, ok, throw, out_of_queries,
}
use native.Mathlib.Decide.{ℕ_discrete, dec_lt}
use anon_graphzeppelin.Types.{Edge}
use anon_graphzeppelin.Util.{concat_pairing_fn}
use anon_graphzeppelin.Bucket.{Hashing, get_index_hash}
use anon_graphzeppelin.Sketch.{Statics, Sketch, batch_update, add_assign}
use anon_graphzeppelin.Sketch.LastBucket.{IsConfigured, xor_all}
use anon_graphzeppelin.Sketch.Content.{odd, SameOdd}
use anon_graphzeppelin.Sketch.Query.Marked.{mark_queried-queried}
use anon_graphzeppelin.Sketch.Sifted.{held-last}
use anon_graphzeppelin.Sketch.Held.{AllIn, AllIn-append, held, add_assign-held}
use anon_graphzeppelin.Sketch.Query.{Answer, mark_queried}
use anon_graphzeppelin.Sketch.Query.Correct
use anon_graphzeppelin.Sketch.Query.Correct.{query-Answers}
use anon_graphzeppelin.Supernode.{
  Supernode, get_sketch, set_sketch, make_supernode, sample, sample_answer, merge,
}
use anon_graphzeppelin.Supernode.Delta.{seed_of, get_sketch-make}
use anon_graphzeppelin.Supernode.Fields.{get_sketch-set_self, get_sketch-set_ne}
use anon_graphzeppelin.Supernode.Sampling.{
  IsReady, make_supernode-IsReady, sample_exhausted, sample-ok, sample_answer-IsReady,
  merge-IsReady, merge-SameFields, merge_start, merge-out,
}

-- The number of an edge of the graph.
abbrev pub IsNumber : (Edge → Type 0) → ℕ → Type 0
IsNumber IsEdge v = (e : Edge) × IsEdge e × (v ≡ concat_pairing_fn e.src e.dst)

-- The edges of a graph of `n` nodes, the lower end first.
abbrev pub Inside : ℕ → (Edge → Type 0) → Type 0
Inside n IsEdge = (e : Edge) → IsEdge e → (e.src < e.dst) × (e.dst < n)

-- What the checksums are for, among the edges of one graph and at the seeds of its sketches: where the
-- checksum of a sum of edges is the sum of their checksums, the sum is one of the edges that are left;
-- and where both sums are zero no edge is left.
pub record IsSeparating (h : Hashing) (width max_sketches seed : ℕ) (IsEdge : Edge → Type 0)
    : Type 0 where
  pub matching :
      (i : ℕ) (l : List ℕ)
      → i < max_sketches
      → AllIn (IsNumber IsEdge) l
      → xor_all (λ v. get_index_hash h v (seed_of width i seed)) 0 l
        ≡ get_index_hash h (xor_all (λ v. v) 0 l) (seed_of width i seed)
      → odd (xor_all (λ v. v) 0 l) l ≡ true
  pub none_left :
      (i : ℕ) (l : List ℕ)
      → i < max_sketches
      → AllIn (IsNumber IsEdge) l
      → xor_all (λ v. v) 0 l ≡ 0
      → xor_all (λ v. get_index_hash h v (seed_of width i seed)) 0 l ≡ 0
      → SameOdd l []

module _ (h : Hashing) (st : Statics) (width max_sketches n seed : ℕ) (IsEdge : Edge → Type 0) where
  -- Sketch `i` holds edges of the graph; it may have been queried.
  abbrev pub HoldsEdges : ℕ → Sketch → Type 0
  HoldsEdges i x =
      (l : List ℕ) × AllIn (IsNumber IsEdge) l
      × ((x ≡ held h st (seed_of width i seed) l)
          ⊎ (x ≡ mark_queried (held h st (seed_of width i seed) l)))

  -- A supernode of the graph.
  pub record IsKept (s : Supernode) : Type 0 where
    pub same_n : s.n ≡ n
    pub same_seed : s.seed ≡ seed
    pub all : s.num_sketches ≡ max_sketches
    pub ready : IsReady s
    pub holds : (i : ℕ) → i < max_sketches → HoldsEdges i (get_sketch s i)

module _ (h : Hashing) (st : Statics) (width max_sketches n seed : ℕ) (IsEdge : Edge → Type 0) where
  abbrev EdgeBatch : ℕ → Sketch → Type 0
  EdgeBatch i x =
      (l : List ℕ) × AllIn (IsNumber IsEdge) l × (x ≡ held h st (seed_of width i seed) l)

  -- A sketch that was not queried is the sketch of a batch of edges.
  pub HoldsEdges-fresh :
      (i : ℕ) (x : Sketch)
      → HoldsEdges h st width max_sketches n seed IsEdge i x
      → x.already_queried ≡ false
      → EdgeBatch i x
  HoldsEdges-fresh i x (l, edges, inl e) fresh = (l, edges, e)
  HoldsEdges-fresh i x (l, edges, inr e) fresh = cc (
    fresh,
    ap (λ y. y.already_queried) e,
    mark_queried-queried (held h st (seed_of width i seed) l),
  )

  -- A new supernode is one of the graph.
  pub make_supernode-IsKept :
      IsKept h st width max_sketches n seed IsEdge (make_supernode st max_sketches width n seed)
  unfolding batch_update
  make_supernode-IsKept = record {
    same_n = unfold make_supernode in refl;
    same_seed = unfold make_supernode in refl;
    all = unfold make_supernode in refl;
    ready = make_supernode-IsReady st max_sketches width n seed;
    holds = λ i p. ([], tt, inl (get_sketch-make st width max_sketches n seed i p));
  }

  module _ (conf : IsConfigured st) (s : Supernode)
      (kept : IsKept h st width max_sketches n seed IsEdge s) where
    -- What a sample does: it throws where no sketch is left, and else gives the answer of the next one.
    pub sample-cases :
        ((s.merged_sketches ≤ s.sample_idx)
          × (sample h st s ≡ record { node = s; result = throw out_of_queries }))
        ⊎ ((s.sample_idx < s.merged_sketches)
            × ((a : Answer ℕ) × (sample h st s ≡ sample_answer s (ok a))
                × (a.sketch ≡ mark_queried (get_sketch s s.sample_idx))
                × Correct.Answers h st (get_sketch s s.sample_idx) a.value a.code))
    sample-cases = elim (dec_lt s.sample_idx s.merged_sketches) [
      | no none_left ↦
          inl (omega (arith, none_left), sample_exhausted h st s (omega (arith, none_left)))
      | yes left ↦
          let (a, e, marked, right) = query-Answers h st (get_sketch s s.sample_idx) conf (
            kept.ready.fresh s.sample_idx (omega arith) (omega (arith, left, kept.ready.usable))) in
          inr (left, (a, sample-ok h st s a left e, marked, right))
    ]

    -- The sketch that is sampled next.
    pub next-EdgeBatch :
        s.sample_idx < s.merged_sketches → EdgeBatch s.sample_idx (get_sketch s s.sample_idx)
    next-EdgeBatch left =
        let few : s.sample_idx < s.num_sketches = omega (arith, left, kept.ready.usable) in
        HoldsEdges-fresh s.sample_idx (get_sketch s s.sample_idx)
          (kept.holds s.sample_idx (omega (arith, few, kept.all)))
          (kept.ready.fresh s.sample_idx (omega arith) few)

    answered-get :
        (a : Answer ℕ) (i : ℕ)
        → s.sample_idx < s.merged_sketches
        → (s.sample_idx ≡ i × (get_sketch (sample_answer s (ok a)).node i ≡ a.sketch))
          ⊎ (get_sketch (sample_answer s (ok a)).node i ≡ get_sketch s i)
    unfolding sample_answer get_sketch
    answered-get a i left = elim (ℕ_discrete s.sample_idx i) [
      | yes same ↦ inl (
        same,
        subst (λ k. get_sketch (set_sketch s s.sample_idx a.sketch) k ≡ a.sketch) same
            (get_sketch-set_self s s.sample_idx a.sketch
              (omega (arith, left, kept.ready.usable, kept.ready.room))),
      )
      | no other ↦ inr (get_sketch-set_ne s s.sample_idx i a.sketch other)
    ]

    pub answered-outside :
        (a : Answer ℕ) (i : ℕ)
        → s.sample_idx < s.merged_sketches
        → s.sample_idx < i
        → get_sketch (sample_answer s (ok a)).node i ≡ get_sketch s i
    answered-outside a i left later = elim (answered-get a i left) [
      | inl (same, e) ↦ absurd (omega (arith, same))
      | inr e ↦ e
    ]

    answered-IsKept :
        (a : Answer ℕ)
        → s.sample_idx < s.merged_sketches
        → a.sketch ≡ mark_queried (get_sketch s s.sample_idx)
        → IsKept h st width max_sketches n seed IsEdge (sample_answer s (ok a)).node
    answered-IsKept a left marked = record {
      same_n = unfold sample_answer set_sketch in kept.same_n;
      same_seed = unfold sample_answer set_sketch in kept.same_seed;
      all = unfold sample_answer set_sketch in kept.all;
      ready = sample_answer-IsReady h st s a kept.ready;
      holds = λ i p. elim (answered-get a i left) [
        | inl (same, e) ↦
            let (l, edges, is) = next-EdgeBatch left in
            (
              l,
              edges,
              inr (
                  e
                  ∙ marked
                  ∙ ap mark_queried is
                  ∙ ap (λ k. mark_queried (held h st (seed_of width k seed) l)) same),
            )
        | inr e ↦
            subst (HoldsEdges h st width max_sketches n seed IsEdge i) (sym e) (kept.holds i p)
      ];
    }

    pub sample-IsKept : IsKept h st width max_sketches n seed IsEdge (sample h st s).node
    sample-IsKept = elim sample-cases [
      | inl (none_left, e) ↦ rw e kept
      | inr (left, (a, e, marked, right)) ↦ rw e (answered-IsKept a left marked)
    ]

  module _ (conf : IsConfigured st) (sep : IsSeparating h width max_sketches seed IsEdge) where
    -- The sum of two sketches that were not queried is that of both batches.
    pub sum-held :
        (i : ℕ) (x y : Sketch) (l m : List ℕ)
        → i < max_sketches
        → AllIn (IsNumber IsEdge) m
        → x ≡ held h st (seed_of width i seed) l
        → y ≡ held h st (seed_of width i seed) m
        → add_assign st x y ≡ held h st (seed_of width i seed) (l ++ m)
    sum-held i x y l m p edges e f =
        ap₂ (add_assign st) e f
        ∙ add_assign-held h st (seed_of width i seed) l m (λ zero_last.
          let (sum, hashes) = held-last h st conf (seed_of width i seed) m zero_last in
          sep.none_left i m p edges sum hashes)

    module _ (s t : Supernode) (kept : IsKept h st width max_sketches n seed IsEdge s)
        (kept' : IsKept h st width max_sketches n seed IsEdge t) where
      fresh-EdgeBatch :
          (u : Supernode) (i : ℕ)
          → IsKept h st width max_sketches n seed IsEdge u
          → u.sample_idx ≤ i
          → i < max_sketches
          → EdgeBatch i (get_sketch u i)
      fresh-EdgeBatch u i k p q =
          HoldsEdges-fresh i (get_sketch u i) (k.holds i q)
            (k.ready.fresh i p (omega (arith, q, k.all)))

      merged :
          IsReady (merge st s t)
          × ((merge st s t).sample_idx ≡ max s.sample_idx t.sample_idx)
          × ((merge st s t).merged_sketches ≡ min s.merged_sketches t.merged_sketches)
          × ((i : ℕ)
              → max s.sample_idx t.sample_idx ≤ i
              → i < min s.merged_sketches t.merged_sketches
              → get_sketch (merge st s t) i ≡ add_assign st (get_sketch s i) (get_sketch t i))
      merged = merge-IsReady st s t kept.ready kept'.ready (kept.all ∙ sym kept'.all)

      pub merge-get :
          (i : ℕ)
          → max s.sample_idx t.sample_idx ≤ i
          → i < min s.merged_sketches t.merged_sketches
          → get_sketch (merge st s t) i ≡ add_assign st (get_sketch s i) (get_sketch t i)
      merge-get = let (ready, idx, last, sums) = merged in sums

      merge-holds :
          (i : ℕ)
          → i < max_sketches
          → HoldsEdges h st width max_sketches n seed IsEdge i (get_sketch (merge st s t) i)
      merge-holds i p = elim (dec_lt i (max s.sample_idx t.sample_idx)) [
        | yes used ↦
            subst (HoldsEdges h st width max_sketches n seed IsEdge i) (sym (unchanged (inl used)))
              (kept.holds i p)
        | no later ↦ elim (dec_lt i (min s.merged_sketches t.merged_sketches)) [
          | no out ↦
              subst (HoldsEdges h st width max_sketches n seed IsEdge i)
                (sym (unchanged (inr (omega (arith, out))))) (kept.holds i p)
          | yes inside ↦
              let (l, edges, e) = fresh-EdgeBatch s i kept (omega (arith, later)) p in
              let (m, edges', e') = fresh-EdgeBatch t i kept' (omega (arith, later)) p in
              (
                l ++ m,
                AllIn-append (IsNumber IsEdge) l m edges edges',
                inl (merge-get i (omega (arith, later)) inside ∙ sum-held i _ _ l m p edges' e e'),
              )
        ]
      ]
        where
          unchanged :
              (i < max s.sample_idx t.sample_idx) ⊎ (min s.merged_sketches t.merged_sketches ≤ i)
              → get_sketch (merge st s t) i ≡ get_sketch s i
          unchanged out = merge-out st s t i out

      pub merge-IsKept : IsKept h st width max_sketches n seed IsEdge (merge st s t)
      merge-IsKept =
          let same = merge-SameFields st s t in
          record {
            same_n = same.n ∙ (unfold merge_start in kept.same_n);
            same_seed = same.seed ∙ (unfold merge_start in kept.same_seed);
            all = same.num_sketches ∙ (unfold merge_start in kept.all);
            ready = let (ready, idx, last, sums) = merged in ready;
            holds = merge-holds;
          }
