-- ===== src/Tests/SupernodeQueries.antt =====
-- Queries of a graph of three nodes with one edge, over the supernodes that its updates leave.
use anon_graphzeppelin.Base.{ℕ, zero, suc, ◌≡◌, List, [], ◌∷◌, false, replicate}
use anon_graphzeppelin.Types.{Edge}
use anon_graphzeppelin.Util.{concat_pairing_fn}
use anon_graphzeppelin.Sketch.Held.{AllIn}
use anon_graphzeppelin.Supernode.{Supernode}
use anon_graphzeppelin.Supernode.Sampling.Kept.{IsNumber}
use anon_graphzeppelin.Supernode.Sampling.Filled.{filled}
use anon_graphzeppelin.Graph.{Graph}
use anon_graphzeppelin.Graph.Query.{Engine}
use anon_graphzeppelin.Graph.Supernodes.{supernodes}
use anon_graphzeppelin.Tests.Data.{toy_hash, toy_statics}

abbrev the_edge : Edge
the_edge = record { src = 0; dst = 1 }

abbrev IsOne : Edge → Type 0
IsOne e = e ≡ the_edge

abbrev number : ℕ
number = concat_pairing_fn 0 1

abbrev Ones : List ℕ → Type 0
Ones = AllIn (IsNumber IsOne)

-- The updates of the supernode of a node.
abbrev updates_of : ℕ → List ℕ
updates_of zero = number ∷ []
updates_of (suc zero) = number ∷ []
updates_of (suc (suc c)) = []

abbrev node : ℕ → Supernode
node c = filled toy_hash toy_statics 2 2 3 5 (updates_of c)

abbrev one_edge_engine : Engine Supernode
one_edge_engine = record {
  graph = record {
    num_nodes = 3;
    parent = 0 ∷ 1 ∷ 2 ∷ [];
    size = 1 ∷ 1 ∷ 1 ∷ [];
    spanning_forest = replicate 3 [];
    modified = false;
    dsu_valid = false;
  };
  supernodes = node 0 ∷ node 1 ∷ node 2 ∷ [];
  update_locked = false;
  backup_in_mem = false;
}
