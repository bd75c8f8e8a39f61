-- ===== src/Graph/Supernodes/Fair.antt =====
-- The supernodes satisfy the first interface of the queries: each sketch answers once, and a sampled
-- edge is an edge of the graph.
use anon_graphzeppelin.Base.{
  ℕ, false, get_or, ◌<◌, ◌≤◌, ◌-◌, ◌^◌, ◌≡◌, refl, sym, ◌∙◌, inl, inr, List, [], ◌++◌, none, some,
  ok, arith,
}
use anon_graphzeppelin.Types.{Edge, SampleSketchRet}
use anon_graphzeppelin.Bucket.{Hashing}
use anon_graphzeppelin.Sketch.{Statics}
use anon_graphzeppelin.Sketch.LastBucket.{IsConfigured}
use anon_graphzeppelin.Supernode.{Supernode, make_supernode, sample, merge}
use anon_graphzeppelin.Supernode.Sampling.{merge-IsReady}
use anon_graphzeppelin.Supernode.Sampling.Kept.{
  Inside, IsSeparating, IsKept, make_supernode-IsKept, sample-cases, sample-IsKept, merge-IsKept,
  next-EdgeBatch,
}
use anon_graphzeppelin.Supernode.Sampling.Edges.{sample-told, sample-odd, sample-keeps}
use anon_graphzeppelin.Supernode.Sampling.Stored.{read-write}
use anon_graphzeppelin.Supernode.Serial.{write_binary, read_supernode}
use anon_graphzeppelin.Supernode.Serial.RoundTrip.{copies_from}
use anon_graphzeppelin.Forest.Sum.{sum}
use anon_graphzeppelin.Graph.Boruvka.Samples.{total_remaining}
use anon_graphzeppelin.Graph.Sampler.{IsFair}
use anon_graphzeppelin.Graph.Supernodes.{supernodes}

-- The sketches that the supernodes of `n` nodes have left for samples.
abbrev pub sketches_left : Supernode → ℕ → List Supernode → ℕ
sketches_left absent n sn =
    sum (λ i. (get_or sn i absent).merged_sketches - (get_or sn i absent).sample_idx) n

module _ (h : Hashing) (st : Statics) (fuel width max_sketches n seed : ℕ) (IsEdge : Edge → Type 0)
    (conf : IsConfigured st) (narrow : n < 2 ^ 32) (few : max_sketches < 2 ^ 32)
    (inside : Inside n IsEdge) (sep : IsSeparating h width max_sketches seed IsEdge) where
  abbrev Kept : Supernode → Type 0
  Kept = IsKept h st width max_sketches n seed IsEdge

  used :
      (s : Supernode)
      → Kept s
      → s.sample_idx < s.merged_sketches
      → (sample h st s).node.merged_sketches - (sample h st s).node.sample_idx
        < s.merged_sketches - s.sample_idx
  used s kept left =
      let (last, _, next, _) = sample-keeps h st width max_sketches n seed IsEdge conf s kept in
      omega (arith, last, next left, left)

  not_more :
      (s : Supernode)
      → Kept s
      → (sample h st s).node.merged_sketches - (sample h st s).node.sample_idx
        ≤ s.merged_sketches - s.sample_idx
  not_more s kept = elim (sample-cases h st width max_sketches n seed IsEdge conf s kept) [
    | inl (none_left, e) ↦ rw e (omega arith)
    | inr (left, _) ↦ omega (arith, used s kept left)
  ]

  merged_less :
      (s t : Supernode)
      → Kept s
      → Kept t
      → (merge st s t).merged_sketches - (merge st s t).sample_idx
        ≤ s.merged_sketches - s.sample_idx
  merged_less s t kept kept' =
      let (ready, idx, last, sums) =
        merge-IsReady st s t kept.ready kept'.ready (kept.all ∙ sym kept'.all) in
      omega (arith, idx, last)

  sampled-edge :
      (s : Supernode) (e : Edge)
      → Kept s
      → (sample h st s).result ≡ ok (e, SampleSketchRet.good)
      → IsEdge e
  sampled-edge s e kept run =
      let (left, _) =
        sample-told h st width max_sketches n seed IsEdge conf s kept e SampleSketchRet.good run in
      let (l, edges, is) = next-EdgeBatch h st width max_sketches n seed IsEdge conf s kept left in
      (sample-odd h st width max_sketches n seed IsEdge conf s kept sep l edges is e narrow inside
        run).0

  -- What is read back of a supernode: no sketch is used up.
  stored : Supernode → Supernode
  stored s = record {
    sample_idx = 0;
    n = n;
    seed = seed;
    num_sketches = max_sketches;
    merged_sketches = max_sketches;
    sketches = copies_from s max_sketches 0;
  }

  stored-read :
      (s : Supernode) (rest : List ℕ)
      → Kept s
      → read_supernode h st fuel max_sketches width n seed
          ((elim (write_binary h st fuel s false) [ none ↦ [] | some bytes ↦ bytes ]) ++ rest)
        ≡ some (stored s, rest)
  unfolding stored
  stored-read s rest kept =
      let (bytes, wrote, read) =
        read-write h st width max_sketches n seed IsEdge fuel s rest narrow few inside kept in
      rw wrote read

  pub supernodes-IsFair : IsFair (supernodes h st fuel width max_sketches n seed) n Kept IsEdge
  supernodes-IsFair = record {
    remaining = λ s. s.merged_sketches - s.sample_idx;
    absent-Good = make_supernode-IsKept h st width max_sketches n seed IsEdge;
    sample-Good = λ s kept. sample-IsKept h st width max_sketches n seed IsEdge conf s kept;
    merge-Good = λ s t kept kept'.
        merge-IsKept h st width max_sketches n seed IsEdge conf sep s t kept kept';
    sample-lt = λ s r kept run.
        used s kept (sample-told h st width max_sketches n seed IsEdge conf s kept r.0 r.1 run).0;
    sample-le = not_more;
    merge-le = merged_less;
    sample-IsEdge = λ s e kept run. sampled-edge s e kept run;
    inside = λ e edge. let ends = inside e edge in (omega (arith, ends), ends.1);
    restored = stored;
    load-save = λ s rest kept. stored-read s rest kept;
  }

  -- The samples that are left are the sketches that are.
  pub total_remaining-supernodes :
      (sn : List Supernode)
      → total_remaining
          (supernodes h st fuel width max_sketches n seed)
          n
          Kept
          IsEdge
          supernodes-IsFair
          sn
        ≡ sketches_left (make_supernode st max_sketches width n seed) n sn
  unfolding supernodes-IsFair
  total_remaining-supernodes sn = refl
