-- ===== src/Tests/GraphRuns.antt =====
-- The components of a graph at fixed inputs.
use anon_graphzeppelin.Base.{
  Below, ok, ◌≤◌, ◌≢◌, List, refl, ℕ, zero, suc, ◌≡◌, ◌↔◌, [], ◌∷◌, some, arith, map, true, false,
  replicate,
}
use anon_graphzeppelin.Types.{Edge, SampleSketchRet}
use anon_graphzeppelin.Dsu.{make}
use anon_graphzeppelin.Dsu.Merge.Classes.{Linked}
use anon_graphzeppelin.Dsu.Components.{make-Stands, InRange, none_left, one_more}
use anon_graphzeppelin.Graph.{Graph, Step, Merging, supernodes_to_merge}
use anon_graphzeppelin.Graph.Parent.{GraphStands, SameButParent}
use anon_graphzeppelin.Graph.Answer.{Entry, cc_from_dsu}
use anon_graphzeppelin.Graph.Answer.Classes.{class_below, Lists, cc_from_dsu-Lists}
use anon_graphzeppelin.Util.{concat, concat_pairing_fn}
use anon_graphzeppelin.Sketch.LastBucket.{xor_all}
use anon_graphzeppelin.Supernode.{make_supernode}
use anon_graphzeppelin.Supernode.Delta.{update_all, make_supernode-IsBuilt}
use anon_graphzeppelin.Graph.Updates.{Ingest, edge_updates, ingest_batch, ingest_batch-edges}
use anon_graphzeppelin.Tests.Data.{toy_hash, toy_statics, toy_node, NoCollision-of}
use anon_graphzeppelin.Graph.Rounds.{sampled_edges, supernodes_to_merge-Joined}

abbrev toy_graph : Graph
toy_graph = record {
  num_nodes = 6;
  parent = (make 6).parent;
  size = (make 6).size;
  spanning_forest = replicate 6 [];
  modified = false;
  dsu_valid = true;
}

toy_graph-GraphStands : GraphStands 6 toy_graph (λ i. i)
toy_graph-GraphStands = make-Stands 6

abbrev toy_samples : ℕ → Edge × SampleSketchRet
toy_samples zero = (record { src = 0; dst = 3 }, SampleSketchRet.good)
toy_samples (suc zero) = (record { src = 0; dst = 0 }, SampleSketchRet.fail)
toy_samples (suc (suc zero)) = (record { src = 2; dst = 5 }, SampleSketchRet.good)
toy_samples (suc (suc (suc zero))) = (record { src = 3; dst = 0 }, SampleSketchRet.good)
toy_samples _ = (record { src = 0; dst = 0 }, SampleSketchRet.zero)

toy_samples-InRange : InRange 6 (sampled_edges toy_samples (0 ∷ 1 ∷ 2 ∷ 3 ∷ 4 ∷ []))
toy_samples-InRange =
    one_more (omega arith) (omega arith)
      (one_more (omega arith) (omega arith) (one_more (omega arith) (omega arith) none_left))

toy_reps-Below : Below 6 (0 ∷ 1 ∷ 2 ∷ 3 ∷ 4 ∷ [])
toy_reps-Below = (omega arith, (omega arith, (omega arith, (omega arith, (omega arith, tt)))))

supernodes_to_merge-Joined_example :
    (m : Merging) × (root' : ℕ → ℕ) × (supernodes_to_merge 3 toy_samples toy_graph
        (0 ∷ 1 ∷ 2 ∷ 3 ∷ 4 ∷ [])
      ≡ some m)
    × GraphStands 6 m.graph root'
    × ((i j : ℕ)
        → (root' i ≡ root' j)
          ↔ Linked (λ k. k) (sampled_edges toy_samples (0 ∷ 1 ∷ 2 ∷ 3 ∷ 4 ∷ [])) i j)
supernodes_to_merge-Joined_example =
    supernodes_to_merge-Joined 6 (omega arith) 3 (omega arith) toy_samples toy_graph
      (0 ∷ 1 ∷ 2 ∷ 3 ∷ 4 ∷ []) (λ i. i) refl toy_graph-GraphStands toy_reps-Below
      toy_samples-InRange

cc_from_dsu-Lists_example :
    (temp : List Entry) × (r : Step (List (List ℕ))) × (cc_from_dsu 3 toy_graph ≡ some r)
    × (r.value ≡ map (λ e. e.nodes) temp)
    × Lists (λ k. class_below (λ i. i) k 6) 0 temp
    × GraphStands 6 r.graph (λ i. i)
    × SameButParent toy_graph r.graph
cc_from_dsu-Lists_example =
    cc_from_dsu-Lists 6 (λ i. i) 3 (omega arith) toy_graph refl toy_graph-GraphStands

abbrev toy_ingest : Ingest
toy_ingest = record { supernodes = toy_node ∷ toy_node ∷ []; locked = false; num_updates = 7 }

ids_left : xor_all (λ x. x) 0 (map (concat_pairing_fn 0) (1 ∷ 3 ∷ [])) ≢ 0
unfolding concat_pairing_fn concat
ids_left e = absurd (omega (arith, e))

ingest_batch-edges_example :
    (ingest_batch toy_hash toy_statics 2 2 toy_ingest 0 (1 ∷ 3 ∷ [])
      ≡ ok (record toy_ingest {
        num_updates = 9;
        supernodes =
            update_all toy_hash toy_statics toy_node (map (concat_pairing_fn 0) (1 ∷ 3 ∷ []))
            ∷ toy_node
            ∷ [];
      }))
    × ((v : ℕ) → edge_updates 0 (v ∷ []) ≡ edge_updates v (0 ∷ []))
ingest_batch-edges_example =
    ingest_batch-edges toy_hash toy_statics 2 2 toy_ingest 0 (1 ∷ 3 ∷ [])
      (make_supernode-IsBuilt toy_statics 2 2 32 5) toy_fits
      (NoCollision-of toy_node (map (concat_pairing_fn 0) (1 ∷ 3 ∷ [])) ids_left)
  where
    toy_fits : toy_node.num_sketches ≤ 2
    toy_fits = unfold make_supernode in omega arith
