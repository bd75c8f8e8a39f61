-- ===== src/Tests/FileRuns.antt =====
-- A graph of two nodes that is written and opened again.
use anon_graphzeppelin.Base.{
  ℕ, ◌≡◌, refl, sym, subst, List, [], ◌∷◌, map, some, ok, true, false, arith,
}
use anon_graphzeppelin.Sketch.{Statics, make, configure}
use anon_graphzeppelin.Sketch.Serial.Dense.{IsWords}
use anon_graphzeppelin.Supernode.{Supernode, make_supernode}
use anon_graphzeppelin.Supernode.Delta.{get_sketch-make, seed_of, make_supernode-IsBuilt}
use anon_graphzeppelin.Graph.File.{
  Opened, start_engine, configure_supernodes, write_graph, open_file,
}
use anon_graphzeppelin.Graph.File.RoundTrip.{IsWhole, unused_copy, open_file-write_graph}
use anon_graphzeppelin.Tests.Data.{toy_hash}

abbrev file_statics : Statics
file_statics = record { failure_factor = 2; n = 4; num_elems = 7; num_columns = 2; num_guesses = 3 }

abbrev file_node : Supernode
file_node = make_supernode file_statics 2 2 2 5

abbrev file_graph : Opened
file_graph = record {
  engine = start_engine 2 true true (file_node ∷ file_node ∷ []);
  seed = 5;
  fail_factor = 2;
}

file_node-IsWhole : IsWhole toy_hash file_statics 2 2 2 5 file_node
unfolding make_supernode
file_node-IsWhole = record {
  built = make_supernode-IsBuilt file_statics 2 2 2 5;
  words = λ i p.
      subst (IsWords toy_hash) (sym (get_sketch-make file_statics 2 2 2 5 i p))
        (empty (seed_of 2 i 5));
  all = refl;
  same_n = refl;
  same_seed = refl;
}
  where
    empty : (sd : ℕ) → IsWords toy_hash (make file_statics sd)
    empty sd = record { a_words = unfold make in omega arith; c_words = unfold make in omega arith }

open_file-write_graph_example :
    (bytes : List ℕ) × (write_graph toy_hash (λ k. 2) (λ k. 3) (λ k. 2) 1 file_graph ≡ some bytes)
    × (open_file toy_hash (λ k. 2) (λ k. 3) (λ k. 2) 1 false true bytes
        ≡ some (
            ok (record {
              engine =
                  start_engine 2 false true (map (unused_copy 2 2 5) (file_node ∷ file_node ∷ []));
              seed = 5;
              fail_factor = 2;
            })))
unfolding configure_supernodes configure start_engine
open_file-write_graph_example =
    open_file-write_graph toy_hash (λ k. 2) (λ k. 3) (λ k. 2) 1 2 (omega arith) file_graph true refl
      refl (omega arith) (omega arith) (omega arith) (file_node-IsWhole, (file_node-IsWhole, _))
