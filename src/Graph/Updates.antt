-- ===== src/Graph/Updates.antt =====
-- The updates of src/graph.cpp: `generate_delta_node` and `batch_update`. What `Graph` keeps for them
-- is its supernodes, a flag and a counter; a supernode is found at its node's index. The delta's place
-- in memory is not modelled: the constructor writes all of it.
use anon_graphzeppelin.Base.{
  ℕ, ◌+◌, ◌≤◌, ◌≡◌, refl, ap, ap₂, sym, ◌∙◌, arith, Bool, List, [], ◌∷◌, map, length, get_or, set,
  u64, ltb, if◌then◌else◌, Result, ok, throw, update_locked,
}
use anon_graphzeppelin.Util.{concat_pairing_fn}
use anon_graphzeppelin.Util.Concat.{concat_pairing_fn_comm}
use anon_graphzeppelin.Bucket.{Hashing}
use anon_graphzeppelin.Sketch.{Statics}
use anon_graphzeppelin.Supernode.{Supernode, apply_delta_update, delta_supernode}
use anon_graphzeppelin.Supernode.Delta.{IsBuilt, update_all, NoCollision, apply_delta_update-delta}

pub record Ingest : Type 0 where
  pub supernodes : List Supernode
  pub locked : Bool
  pub num_updates : ℕ

-- The loop of `generate_delta_node`: the ids of the edges from `src`.
pub edge_updates : ℕ → List ℕ → List ℕ
edge_updates src [] = []
edge_updates src (edge ∷ edges) =
    (if ltb src edge then concat_pairing_fn src edge else concat_pairing_fn edge src)
    ∷ edge_updates src edges

-- What a read behind the supernodes would give; `src` is a node.
abbrev pub no_supernode : Supernode
no_supernode = record {
  sample_idx = 0;
  n = 0;
  seed = 0;
  num_sketches = 0;
  merged_sketches = 0;
  sketches = [];
}

module _ (h : Hashing) (st : Statics) (width max_sketches : ℕ) where
  pub generate_delta_node : ℕ → ℕ → ℕ → List ℕ → Supernode
  generate_delta_node node_n node_seed src edges =
      delta_supernode h st max_sketches width node_n node_seed (edge_updates src edges)

  -- `Graph::batch_update`
  pub ingest_batch : Ingest → ℕ → List ℕ → Result Ingest
  ingest_batch g src edges =
      let node = get_or g.supernodes src no_supernode in
      let delta = generate_delta_node node.n node.seed src edges in
      if g.locked
      then throw update_locked
      else ok (record g {
        num_updates = u64 (g.num_updates + length edges);
        supernodes = set g.supernodes src (apply_delta_update st node delta);
      })

edge_updates-map :
    (src : ℕ) (edges : List ℕ) → edge_updates src edges ≡ map (concat_pairing_fn src) edges
unfolding edge_updates
edge_updates-map src [] = refl
edge_updates-map src (edge ∷ edges) =
    ap₂ ◌∷◌ (ground (arith, concat_pairing_fn_comm edge src)) (edge_updates-map src edges)

module _ (h : Hashing) (st : Statics) (width max_sketches : ℕ) where
  -- A batch for node `src`: while updates are locked the call throws. Else the supernode of `src` is
  -- as after the updates by the edges' ids, one by one, provided that on no sketch of the delta the
  -- test of the deterministic bucket errs; the others stay, and the edges are counted. The id of an
  -- edge is the same whichever end the batch is for.
  pub ingest_batch-edges :
      (g : Ingest) (src : ℕ) (edges : List ℕ)
      → IsBuilt st width (get_or g.supernodes src no_supernode)
      → (get_or g.supernodes src no_supernode).num_sketches ≤ max_sketches
      → NoCollision h st width max_sketches
          (get_or g.supernodes src no_supernode)
          (map (concat_pairing_fn src) edges)
      → (ingest_batch h st width max_sketches g src edges ≡ (
          if g.locked
          then throw update_locked
          else ok (record g {
            num_updates = u64 (g.num_updates + length edges);
            supernodes = set g.supernodes src (
                update_all h st
                  (get_or g.supernodes src no_supernode)
                  (map (concat_pairing_fn src) edges));
          })))
        × ((v : ℕ) → edge_updates src (v ∷ []) ≡ edge_updates v (src ∷ []))
  unfolding ingest_batch generate_delta_node
  ingest_batch-edges g src edges built fits no_collision =
      let node = get_or g.supernodes src no_supernode in
      let added : apply_delta_update st node
            (delta_supernode h st max_sketches width node.n node.seed (edge_updates src edges))
          ≡ update_all h st node (map (concat_pairing_fn src) edges) =
        ap
          (λ l.
            apply_delta_update st node (delta_supernode h st max_sketches width node.n node.seed l))
          (edge_updates-map src edges)
        ∙ apply_delta_update-delta h st width max_sketches node (map (concat_pairing_fn src) edges)
            built fits no_collision in
      (
        ap
            (λ s.
              if g.locked
              then throw update_locked
              else ok (record g {
                num_updates = u64 (g.num_updates + length edges);
                supernodes = set g.supernodes src s;
              }))
            added,
        λ v.
            edge_updates-map src (v ∷ [])
            ∙ ap (λ x. x ∷ []) (concat_pairing_fn_comm src v)
            ∙ sym (edge_updates-map v (src ∷ [])),
      )
