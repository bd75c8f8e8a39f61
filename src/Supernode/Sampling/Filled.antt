-- ===== src/Supernode/Sampling/Filled.antt =====
-- A new supernode after updates by numbers of edges.
use anon_graphzeppelin.Base.{ℕ, ◌<◌, ◌≡◌, refl, ap, ◌∙◌, inl, List, arith, length}
use anon_graphzeppelin.Types.{Edge}
use anon_graphzeppelin.Bucket.{Hashing}
use anon_graphzeppelin.Sketch.{Statics, batch_update}
use anon_graphzeppelin.Sketch.Held.{AllIn, held, held-fresh}
use anon_graphzeppelin.Supernode.{Supernode, get_sketch, make_supernode}
use anon_graphzeppelin.Supernode.Delta.{
  seed_of, length-make_sketches, get_sketch-make, update_all, update_all-SameFields,
  get_sketch-update_all,
}
use anon_graphzeppelin.Supernode.Fields.{SameFields}
use anon_graphzeppelin.Supernode.Sampling.Kept.{IsNumber, IsKept}

module _ (h : Hashing) (st : Statics) (width max_sketches n seed : ℕ) (l : List ℕ) where
  abbrev pub filled : Supernode
  filled = update_all h st (make_supernode st max_sketches width n seed) l

  same : SameFields (make_supernode st max_sketches width n seed) filled
  same = update_all-SameFields h st (make_supernode st max_sketches width n seed) l

  pub filled-idx : filled.sample_idx ≡ 0
  unfolding make_supernode
  filled-idx = (unfold make_supernode in same.sample_idx)

  pub filled-merged : filled.merged_sketches ≡ max_sketches
  unfolding make_supernode
  filled-merged = (unfold make_supernode in same.merged_sketches)

  filled-num : filled.num_sketches ≡ max_sketches
  unfolding make_supernode
  filled-num = (unfold make_supernode in same.num_sketches)

  pub filled-get :
      (i : ℕ) → i < max_sketches → get_sketch filled i ≡ held h st (seed_of width i seed) l
  filled-get i p =
      get_sketch-update_all h st (make_supernode st max_sketches width n seed) l i
        (unfold make_supernode in p)
        (unfold make_supernode in omega (arith, length-make_sketches st width max_sketches seed))
      ∙ ap (λ x. batch_update h st x l) (get_sketch-make st width max_sketches n seed i p)

  length-made : length (make_supernode st max_sketches width n seed).sketches ≡ max_sketches
  unfolding make_supernode
  length-made = length-make_sketches st width max_sketches seed

  pub filled-IsKept :
      (IsEdge : Edge → Type 0)
      → AllIn (IsNumber IsEdge) l
      → IsKept h st width max_sketches n seed IsEdge filled
  filled-IsKept IsEdge edges = record {
    same_n = same.n ∙ unfold make_supernode in refl;
    same_seed = same.seed ∙ unfold make_supernode in refl;
    all = filled-num;
    ready = record {
      room = omega (arith, filled-num, same.size, length-made);
      usable = omega (arith, filled-num, filled-merged);
      fresh = λ i p q.
          let few : i < max_sketches = omega (arith, q, filled-num) in
          ap (λ x. x.already_queried) (filled-get i few) ∙ held-fresh h st (seed_of width i seed) l;
    };
    holds = λ i p. (l, edges, inl (filled-get i p));
  }
