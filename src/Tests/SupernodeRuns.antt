-- ===== src/Tests/SupernodeRuns.antt =====
-- The supernode at fixed inputs.
use anon_graphzeppelin.Sketch.Serial.Dense.{IsWords}
use anon_graphzeppelin.Supernode.Serial.{write_binary, read_supernode}
use anon_graphzeppelin.Supernode.Serial.RoundTrip.{copies_from, read_supernode-write_binary}
use anon_graphzeppelin.Base.{
  List, [], ◌∷◌, false, sym, subst, some, ◌++◌, ℕ, ◌+◌, ◌<◌, ◌≤◌, ◌≡◌, refl, arith, ok, min, max,
}
use anon_graphzeppelin.Types.{SampleSketchRet}
use anon_graphzeppelin.Util.{inv_concat_pairing_fn}
use anon_graphzeppelin.Sketch.{add_assign, make}
use anon_graphzeppelin.Sketch.Query.Correct.{Answers}
use anon_graphzeppelin.Supernode.{
  get_sketch, make_supernode, apply_delta_update, delta_supernode, sample, merge,
}
use anon_graphzeppelin.Supernode.Delta.{
  get_sketch-make, seed_of, make_supernode-IsBuilt, update_all, NoCollision,
  apply_delta_update-delta,
}
use anon_graphzeppelin.Supernode.Sampling.{
  IsReady, make_supernode-IsReady, sample-Answers, merge-IsReady,
}
use anon_graphzeppelin.Tests.Data.{
  toy_hash, toy_statics, toy_statics-IsConfigured, toy_stream, NoCollision-of, toy_node,
}

no_collision : NoCollision toy_hash toy_statics 2 2 toy_node toy_stream
no_collision = NoCollision-of toy_node toy_stream (λ e. absurd (omega (arith, e)))

apply_delta_update-delta_example :
    apply_delta_update toy_statics toy_node
      (delta_supernode toy_hash toy_statics 2 2 toy_node.n toy_node.seed toy_stream)
    ≡ update_all toy_hash toy_statics toy_node toy_stream
apply_delta_update-delta_example =
    apply_delta_update-delta toy_hash toy_statics 2 2 toy_node toy_stream
      (make_supernode-IsBuilt toy_statics 2 2 32 5) (unfold make_supernode in omega arith)
      no_collision

left : toy_node.sample_idx < toy_node.merged_sketches
unfolding make_supernode
left = omega arith

sample-Answers_example :
    (v : ℕ) × (r : SampleSketchRet) × ((sample toy_hash toy_statics toy_node).result
      ≡ ok (inv_concat_pairing_fn v, r))
    × Answers toy_hash toy_statics (get_sketch toy_node toy_node.sample_idx) v r
    × ((sample toy_hash toy_statics toy_node).node.sample_idx ≡ toy_node.sample_idx + 1)
    × IsReady (sample toy_hash toy_statics toy_node).node
sample-Answers_example =
    sample-Answers toy_hash toy_statics toy_node toy_statics-IsConfigured
      (make_supernode-IsReady toy_statics 2 2 32 5) left

sampled-IsReady : IsReady (sample toy_hash toy_statics toy_node).node
sampled-IsReady =
    let (v, r, e, answers, idx, ready) =
      sample-Answers toy_hash toy_statics toy_node toy_statics-IsConfigured
        (make_supernode-IsReady toy_statics 2 2 32 5) left in
    ready

merge-IsReady_example :
    IsReady (merge toy_statics toy_node toy_node)
    × ((merge toy_statics toy_node toy_node).sample_idx
        ≡ max toy_node.sample_idx toy_node.sample_idx)
    × ((merge toy_statics toy_node toy_node).merged_sketches
        ≡ min toy_node.merged_sketches toy_node.merged_sketches)
    × ((i : ℕ)
        → max toy_node.sample_idx toy_node.sample_idx ≤ i
        → i < min toy_node.merged_sketches toy_node.merged_sketches
        → get_sketch (merge toy_statics toy_node toy_node) i
          ≡ add_assign toy_statics (get_sketch toy_node i) (get_sketch toy_node i))
merge-IsReady_example =
    merge-IsReady toy_statics toy_node toy_node (make_supernode-IsReady toy_statics 2 2 32 5)
      (make_supernode-IsReady toy_statics 2 2 32 5) refl

toy-IsWords : (i : ℕ) → i < 2 → IsWords toy_hash (get_sketch toy_node i)
toy-IsWords i p =
    subst (IsWords toy_hash) (sym (get_sketch-make toy_statics 2 2 32 5 i p))
      (empty (seed_of 2 i 5))
  where
    empty : (sd : ℕ) → IsWords toy_hash (make toy_statics sd)
    empty sd = record { a_words = unfold make in omega arith; c_words = unfold make in omega arith }

read_supernode-write_binary_example :
    (bytes : List ℕ) × (write_binary toy_hash toy_statics 1 toy_node false ≡ some bytes)
    × (read_supernode toy_hash toy_statics 1 2 2 32 5 (bytes ++ 7 ∷ [])
        ≡ some (
          record {
            sample_idx = 0;
            n = 32;
            seed = 5;
            num_sketches = 2;
            merged_sketches = 2;
            sketches = copies_from toy_node 2 0;
          },
          7 ∷ [],
        ))
unfolding make_supernode
read_supernode-write_binary_example =
    read_supernode-write_binary toy_hash toy_statics 2 toy_node
      (make_supernode-IsBuilt toy_statics 2 2 32 5) toy-IsWords 1 2 (7 ∷ []) refl (omega arith)
