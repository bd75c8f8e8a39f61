-- ===== src/Supernode/Sampling/Stored.antt =====
-- A supernode of the graph that is written to a stream is read back.
use anon_graphzeppelin.Base.{
  ℕ, ◌<◌, ◌^◌, ◌≡◌, sym, ap, subst, ◌∙◌, inl, inr, false, List, [], ◌∷◌, ◌++◌, some, arith,
}
use anon_graphzeppelin.Types.{Edge}
use anon_graphzeppelin.Bucket.{Hashing}
use anon_graphzeppelin.Sketch.{Statics, Sketch}
use anon_graphzeppelin.Sketch.Merge.{IsSized}
use anon_graphzeppelin.Sketch.Held.{AllIn, held-seed, held-IsSized, held-IsWords}
use anon_graphzeppelin.Sketch.Query.Marked.{
  mark_queried-seed, mark_queried-IsSized, mark_queried-IsWords,
}
use anon_graphzeppelin.Sketch.Serial.Dense.{IsWords}
use anon_graphzeppelin.Supernode.{Supernode, get_sketch}
use anon_graphzeppelin.Supernode.Delta.{seed_of}
use anon_graphzeppelin.Supernode.Sampling.Kept.{IsNumber, Inside, HoldsEdges, IsKept}
use anon_graphzeppelin.Supernode.Sampling.Edges.{concat-narrow}
use anon_graphzeppelin.Supernode.Serial.{write_binary, read_supernode}
use anon_graphzeppelin.Supernode.Serial.RoundTrip.{copies_from, read_supernode-write_binary}

numbers-narrow :
    (n : ℕ) (IsEdge : Edge → Type 0) (l : List ℕ)
    → n < 2 ^ 32
    → Inside n IsEdge
    → AllIn (IsNumber IsEdge) l
    → AllIn (λ v. v < 2 ^ 64) l
numbers-narrow n IsEdge [] narrow inside edges = tt
numbers-narrow n IsEdge (v ∷ l) narrow inside ((e, edge, number), edges) =
    let ends = inside e edge in
    (
      subst (λ k. k < 2 ^ 64) (sym number) (concat-narrow e ends.0 (omega (arith, ends, narrow))),
      numbers-narrow n IsEdge l narrow inside edges,
    )

module _ (h : Hashing) (st : Statics) (width max_sketches n seed : ℕ) (IsEdge : Edge → Type 0) where
  HoldsEdges-IsWords :
      (i : ℕ) (x : Sketch)
      → n < 2 ^ 32
      → Inside n IsEdge
      → HoldsEdges h st width max_sketches n seed IsEdge i x
      → (x.seed ≡ seed_of width i seed) × IsSized st x × IsWords h x
  HoldsEdges-IsWords i x narrow inside (l, edges, same) =
      let sd = seed_of width i seed in
      let words = held-IsWords h st sd l (numbers-narrow n IsEdge l narrow inside edges) in
      let sized = held-IsSized h st sd l in
      elim same [
        | inl e ↦ subst Whole (sym e) (held-seed h st sd l, sized, words)
        | inr e ↦ subst Whole (sym e) (
          mark_queried-seed _ ∙ held-seed h st sd l,
          mark_queried-IsSized st _ sized,
          mark_queried-IsWords h _ words,
        )
      ]
    where
      Whole : Sketch → Type 0
      Whole x = (x.seed ≡ seed_of width i seed) × IsSized st x × IsWords h x

  pub read-write :
      (fuel : ℕ) (s : Supernode) (rest : List ℕ)
      → n < 2 ^ 32
      → max_sketches < 2 ^ 32
      → Inside n IsEdge
      → IsKept h st width max_sketches n seed IsEdge s
      → (bytes : List ℕ) × (write_binary h st fuel s false ≡ some bytes)
        × (read_supernode h st fuel max_sketches width n seed (bytes ++ rest)
            ≡ some (
              record {
                sample_idx = 0;
                n = n;
                seed = seed;
                num_sketches = max_sketches;
                merged_sketches = max_sketches;
                sketches = copies_from s max_sketches 0;
              },
              rest,
            ))
  read-write fuel s rest narrow few inside kept =
      let whole : (i : ℕ)
          → i < s.num_sketches
          → ((get_sketch s i).seed ≡ seed_of width i seed)
            × IsSized st (get_sketch s i)
            × IsWords h (get_sketch s i) =
        λ i p.
          HoldsEdges-IsWords i (get_sketch s i) narrow inside
            (kept.holds i (omega (arith, p, kept.all))) in
      let (bytes, wrote, read) =
        read_supernode-write_binary h st width s
          (record {
            room = kept.ready.room;
            seeds = λ i p. (whole i p).0 ∙ ap (seed_of width i) (sym kept.same_seed);
            sizes = λ i p. let (a, b, c) = whole i p in b;
          })
          (λ i p. let (a, b, c) = whole i p in c) fuel max_sketches rest kept.all few in
      (
        bytes,
        wrote,
        subst (λ k. Reads k seed bytes) kept.same_n
            (subst (λ k. Reads s.n k bytes) kept.same_seed read),
      )
    where
      Reads : ℕ → ℕ → List ℕ → Type 0
      Reads k sd bytes =
          read_supernode h st fuel max_sketches width k sd (bytes ++ rest)
          ≡ some (
            record {
              sample_idx = 0;
              n = k;
              seed = sd;
              num_sketches = max_sketches;
              merged_sketches = max_sketches;
              sketches = copies_from s max_sketches 0;
            },
            rest,
          )
