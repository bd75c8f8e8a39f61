-- ===== src/Graph/Supernodes/Answers.antt =====
-- The queries of a graph whose supernodes are those of src/supernode.cpp.
use anon_graphzeppelin.Base.{ℕ, ◌<◌, ◌^◌, ◌≡◌, List, length, get_or}
use anon_graphzeppelin.Types.{Edge}
use anon_graphzeppelin.Bucket.{Hashing}
use anon_graphzeppelin.Sketch.{Statics}
use anon_graphzeppelin.Sketch.LastBucket.{IsConfigured}
use anon_graphzeppelin.Supernode.{Supernode, make_supernode}
use anon_graphzeppelin.Supernode.Sampling.Kept.{Inside, IsSeparating, IsKept}
use anon_graphzeppelin.Graph.{Graph}
use anon_graphzeppelin.Graph.Query.{Engine, Reply}
use anon_graphzeppelin.Graph.Query.Exact.{Exact}
use anon_graphzeppelin.Graph.Supernodes.{supernodes}
use anon_graphzeppelin.Graph.Supernodes.Fair.{sketches_left, supernodes-IsFair}
use anon_graphzeppelin.Graph.Supernodes.Crossing.{StandsFor, supernodes-IsCut}

module _ (h : Hashing) (st : Statics) (fuel width max_sketches n seed : ℕ) (IsEdge : Edge → Type 0)
    (conf : IsConfigured st) (narrow : n < 2 ^ 32) (few : max_sketches < 2 ^ 32)
    (inside : Inside n IsEdge) (sep : IsSeparating h width max_sketches seed IsEdge) (depth : ℕ)
    (fits : n < 2 ^ depth) (flush : List Supernode → List Supernode) (rounds : ℕ)
    (e : Engine Supernode) (nodes : e.graph.num_nodes ≡ n) (size : length (flush e.supernodes) ≡ n)
    (stand : (c : ℕ)
      → c < n
      → StandsFor h st width max_sketches n seed IsEdge
          (get_or (flush e.supernodes) c (make_supernode st max_sketches width n seed))
          (λ i. i ≡ c))
    (enough : sketches_left (make_supernode st max_sketches width n seed) n (flush e.supernodes)
      < rounds) where
  -- What a query for the components replies: the connected components, with a graph that stands for
  -- them, or an exception.
  abbrev pub ExactReply : Reply Supernode (List (List ℕ)) → Type 0
  ExactReply r =
      Exact (supernodes h st fuel width max_sketches n seed) n
        (IsKept h st width max_sketches n seed IsEdge) IsEdge
        (supernodes-IsFair h st fuel width max_sketches n seed IsEdge conf narrow few inside sep)
        (supernodes-IsCut h st width max_sketches n seed IsEdge fuel conf narrow inside sep) narrow
        depth fits r
