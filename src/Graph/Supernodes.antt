-- ===== src/Graph/Supernodes.antt =====
-- The supernodes of src/supernode.cpp as the supernodes that the queries of src/graph.cpp use.
pub mod Fair
pub mod Crossing
pub mod Answers
use anon_graphzeppelin.Base.{ℕ, false, [], none, some}
use anon_graphzeppelin.Bucket.{Hashing}
use anon_graphzeppelin.Sketch.{Statics}
use anon_graphzeppelin.Supernode.{
  Supernode, make_supernode, sample, merge, copy_supernode, reset_query_state,
}
use anon_graphzeppelin.Supernode.Serial.{write_binary, read_supernode}
use anon_graphzeppelin.Graph.Sampler.{Sampler}

module _ (h : Hashing) (st : Statics) (fuel width max n seed : ℕ) where
  -- The operations of a supernode with `max` sketches of `width` bytes, in a graph of `n` nodes with
  -- one seed. `fuel` is that of the sparse format, which a graph does not use.
  abbrev pub supernodes : Sampler
  supernodes = record {
    State = Supernode;
    absent = make_supernode st max width n seed;
    sample = λ s. record { state = (sample h st s).node; result = (sample h st s).result };
    merge = merge st;
    copy = copy_supernode;
    reset_query_state = reset_query_state;
    save = λ s. elim (write_binary h st fuel s false) [ none ↦ [] | some bytes ↦ bytes ];
    load = read_supernode h st fuel max width n seed;
  }
