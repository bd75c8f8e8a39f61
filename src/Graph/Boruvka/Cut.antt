-- ===== src/Graph/Boruvka/Cut.antt =====
-- What completeness of the components relies on: a supernode stands for a set of nodes, and its
-- samples come from the edges that leave the set.
pub mod Families
pub mod Gather
pub mod Joining
pub mod Telling
pub mod Covered
pub mod Failing
pub mod Rounds
pub mod Loop
use anon_graphzeppelin.Base.{ℕ, suc, ◌<◌, ◌≡◌, ◌≢◌, ◌↔◌, ◌⊎◌, Result, ok, throw, Exception}
use anon_graphzeppelin.Types.{Edge, SampleSketchRet}
use anon_graphzeppelin.Graph.Sampler.{Sampler}

-- `Shows s X`: the state `s` is that of the nodes of `X`. Sampling keeps it; merging two states with
-- no common node shows all their nodes; a sampled edge has one end in the set; and no edge leaves a
-- set whose sample is ZERO.
pub record IsCut (S : Sampler) (n : ℕ) (IsEdge : Edge → Type 0) : Type 1 where
  pub Shows : S.State → (ℕ → Type 0) → Type 0
  pub same_nodes :
      (s : S.State) (X Y : ℕ → Type 0) → ((i : ℕ) → i < n → X i ↔ Y i) → Shows s X → Shows s Y
  pub sample-Shows : (s : S.State) (X : ℕ → Type 0) → Shows s X → Shows (S.sample s).state X
  pub merge-Shows :
      (s t : S.State) (X Y : ℕ → Type 0)
      → ((i : ℕ) → i < n → X i → Y i → ⊥)
      → Shows s X
      → Shows t Y
      → Shows (S.merge s t) (λ i. X i ⊎ Y i)
  pub leaves :
      (s : S.State) (X : ℕ → Type 0) (e : Edge)
      → Shows s X
      → (S.sample s).result ≡ ok (e, SampleSketchRet.good)
      → (X e.src × (X e.dst → ⊥)) ⊎ ((X e.src → ⊥) × X e.dst)
  pub closed :
      (s : S.State) (X : ℕ → Type 0) (e : Edge)
      → Shows s X
      → (S.sample s).result ≡ ok (e, SampleSketchRet.zero)
      → (f : Edge) → IsEdge f
      → X f.src ↔ X f.dst
