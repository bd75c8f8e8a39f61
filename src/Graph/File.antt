-- ===== src/Graph/File.antt =====
-- The two constructors of `Graph` in src/graph.cpp, and `write_binary`. The random seed, and the
-- logarithms that `Supernode::configure` takes, are parameters; the file is its bytes. What the
-- constructors do for the guttering system and the workers is not modelled.
pub mod RoundTrip
use anon_graphzeppelin.Base.{
  ℕ, zero, suc, ◌*◌, Bool, true, false, List, [], ◌∷◌, ◌++◌, Option, none, some, and_then,
  replicate, u64, Result, ok, throw, Exception, if◌then◌else◌,
}
use anon_graphzeppelin.Stream.{Reader, ◌>>=◌, done, write_uint, read_uint}
use anon_graphzeppelin.Bucket.{Hashing}
use anon_graphzeppelin.Sketch.{Statics, configure}
use anon_graphzeppelin.Supernode.{Supernode, make_supernode}
use anon_graphzeppelin.Supernode.Serial
use anon_graphzeppelin.Supernode.Serial.{append_some, read_supernode}
use anon_graphzeppelin.Dsu.{identity}
use anon_graphzeppelin.Graph.{Graph}
use anon_graphzeppelin.Graph.Query.{Engine}

-- A graph with the variables that its file keeps.
pub record Opened : Type 0 where
  pub engine : Engine Supernode
  pub seed : ℕ
  pub fail_factor : ℕ

-- Every node on its own.
unfoldable pub start_engine : ℕ → Bool → Bool → List Supernode → Engine Supernode
start_engine num_nodes dsu_valid backup_in_mem supernodes = record {
  graph = record {
    num_nodes = num_nodes;
    parent = identity num_nodes 0;
    size = replicate num_nodes 1;
    spanning_forest = replicate num_nodes [];
    modified = false;
    dsu_valid = dsu_valid;
  };
  supernodes = supernodes;
  update_locked = false;
  backup_in_mem = backup_in_mem;
}

module _ (h : Hashing) (column_gen guess_gen max_of : ℕ → ℕ) (fuel : ℕ) where
  -- `Supernode::configure`, of which `max_of` gives `max_sketches`
  unfoldable pub configure_supernodes : ℕ → ℕ → Statics
  configure_supernodes n fail_factor = configure column_gen guess_gen (u64 (n * n)) fail_factor

  pub new_graph : Bool → ℕ → ℕ → ℕ → Bool → Result Opened
  new_graph open_graph fail_factor seed num_nodes backup_in_mem =
      if open_graph
      then throw Exception.multiple_graphs
      else ok (record {
        engine = start_engine num_nodes true backup_in_mem (
            replicate num_nodes (
              make_supernode (configure_supernodes num_nodes fail_factor) (max_of num_nodes)
                (column_gen fail_factor) num_nodes seed));
        seed = seed;
        fail_factor = fail_factor;
      })

  -- The loop of `write_binary`.
  pub write_supernodes : Statics → List Supernode → Option (List ℕ)
  write_supernodes st [] = some []
  write_supernodes st (s ∷ supernodes) =
      append_some (Serial.write_binary h st fuel s false) (write_supernodes st supernodes)

  pub write_graph : Opened → Option (List ℕ)
  write_graph g =
      append_some
        (some (
          write_uint 8 g.seed
          ++ (write_uint 4 g.engine.graph.num_nodes ++ write_uint 8 g.fail_factor)))
        (write_supernodes (configure_supernodes g.engine.graph.num_nodes g.fail_factor)
          g.engine.supernodes)

  -- The loop of the constructor from a file.
  pub read_supernodes : Statics → ℕ → ℕ → ℕ → ℕ → Reader (List Supernode)
  read_supernodes st width n seed zero = done []
  read_supernodes st width n seed (suc left) = do
    s ← read_supernode h st fuel (max_of n) width n seed
    supernodes ← read_supernodes st width n seed left
    done (s ∷ supernodes)

  pub read_opened : Bool → Reader Opened
  read_opened backup_in_mem = do
    seed ← read_uint 8
    num_nodes ← read_uint 4
    fail_factor ← read_uint 8
    supernodes ←
        read_supernodes (configure_supernodes num_nodes fail_factor) (column_gen fail_factor)
          num_nodes seed num_nodes
    done (record {
      engine = start_engine num_nodes false backup_in_mem supernodes;
      seed = seed;
      fail_factor = fail_factor;
    })

  pub open_file : Bool → Bool → List ℕ → Option (Result Opened)
  open_file open_graph backup_in_mem bytes =
      if open_graph
      then some (throw Exception.multiple_graphs)
      else and_then (read_opened backup_in_mem bytes) (λ r. some (ok r.0))
