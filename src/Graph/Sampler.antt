-- ===== src/Graph/Sampler.antt =====
-- What `Graph` uses of its supernodes, as an interface: the queries see `Supernode` through these
-- operations alone.
use anon_graphzeppelin.Base.{ℕ, ◌<◌, ◌≤◌, ◌≡◌, List, ◌++◌, some, Result, ok}
use anon_graphzeppelin.Types.{Edge, SampleSketchRet}
use anon_graphzeppelin.Stream.{Reader}

-- What `sample` leaves behind, and what it returns or throws.
pub record Sampled (A : Type 0) : Type 0 where
  pub state : A
  pub result : Result (Edge × SampleSketchRet)

pub record Sampler : Type 1 where
  pub State : Type 0
  pub absent : State  -- what stands where there is no supernode
  pub sample : State → Sampled State
  pub merge : State → State → State
  pub copy : State → State  -- makeSupernode(const Supernode&)
  pub reset_query_state : State → State
  pub save : State → List ℕ  -- write_binary(binary_out)
  pub load : Reader State  -- makeSupernode(num_nodes, seed, binary_in)

-- What the rounds of a query rely on: on the states in `Good` a sample uses up one of the
-- `remaining` samples or throws, an edge that is sampled is one of `IsEdge`, merging gives no samples
-- back, and what is saved can be loaded.
pub record IsFair (S : Sampler) (n : ℕ) (Good : S.State → Type 0) (IsEdge : Edge → Type 0)
    : Type 0 where
  pub remaining : S.State → ℕ
  pub absent-Good : Good S.absent
  pub sample-Good : (s : S.State) → Good s → Good (S.sample s).state
  pub merge-Good : (s t : S.State) → Good s → Good t → Good (S.merge s t)
  pub sample-lt :
      (s : S.State) (r : Edge × SampleSketchRet)
      → Good s
      → (S.sample s).result ≡ ok r
      → remaining (S.sample s).state < remaining s
  pub sample-le : (s : S.State) → Good s → remaining (S.sample s).state ≤ remaining s
  pub merge-le : (s t : S.State) → Good s → Good t → remaining (S.merge s t) ≤ remaining s
  pub sample-IsEdge :
      (s : S.State) (e : Edge)
      → Good s
      → (S.sample s).result ≡ ok (e, SampleSketchRet.good)
      → IsEdge e
  pub inside : (e : Edge) → IsEdge e → (e.src < n) × (e.dst < n)
  pub restored : S.State → S.State
  pub load-save :
      (s : S.State) (rest : List ℕ) → Good s → S.load (S.save s ++ rest) ≡ some (restored s, rest)
