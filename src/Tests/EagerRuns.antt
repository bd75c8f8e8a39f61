-- ===== src/Tests/EagerRuns.antt =====
-- An update of a graph of three nodes, with a guttering system that lists what it is given.
use anon_graphzeppelin.Base.{
  ℕ, zero, suc, Bool, ◌≡◌, refl, List, [], ◌∷◌, some, ok, true, false, replicate, arith,
}
use anon_graphzeppelin.Types.{UpdateType, Edge, GraphUpdate}
use anon_graphzeppelin.Dsu.{identity}
use anon_graphzeppelin.Dsu.Components.{identity-Represents}
use anon_graphzeppelin.Graph.Query.{Engine}
use anon_graphzeppelin.Graph.Eager.{Updated, update_eagerly}
use anon_graphzeppelin.Graph.Eager.Joining.{EagerlyJoined, update_eagerly-EagerlyJoined}

abbrev small_engine : Engine ℕ
small_engine = record {
  graph = record {
    num_nodes = 3;
    parent = identity 3 0;
    size = replicate 3 1;
    spanning_forest = replicate 3 [];
    modified = false;
    dsu_valid = true;
  };
  supernodes = [];
  update_locked = false;
  backup_in_mem = true;
}

abbrev listed : ℕ → ℕ → List Edge → List Edge
listed a b edges = record { src = a; dst = b } ∷ edges

abbrev new_edge : GraphUpdate
new_edge = record { edge = record { src = 2; dst = 0 }; type = UpdateType.insert }

-- The first exchange fails spuriously.
abbrev fails_once : ℕ → Bool
fails_once zero = false
fails_once (suc k) = true

update_eagerly-EagerlyJoined_example :
    (u : Updated ℕ (List Edge)) × (update_eagerly listed 2 fails_once 2 small_engine [] new_edge
      ≡ some (ok u))
    × (u.gutters ≡ record { src = 0; dst = 2 } ∷ record { src = 2; dst = 0 } ∷ [])
    × EagerlyJoined 3 (λ i. i) small_engine.graph new_edge.edge u.engine.graph
update_eagerly-EagerlyJoined_example =
    update_eagerly-EagerlyJoined listed 3 2 2 0 fails_once (λ i. i) small_engine [] new_edge
      (omega arith) (omega arith) (identity-Represents 3) refl refl (omega arith) (omega arith)
      (omega arith) refl
