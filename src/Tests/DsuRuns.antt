-- ===== src/Tests/DsuRuns.antt =====
-- The disjoint sets at fixed inputs.
use anon_graphzeppelin.Base.{ℕ, ◌≡◌, ◌↔◌, List, [], ◌∷◌, some, arith, false}
use anon_graphzeppelin.Types.{Edge}
use anon_graphzeppelin.Dsu.{DisjointSetUnion, Found, make, find_root}
use anon_graphzeppelin.Dsu.Find.{Stands, find_root-Represents}
use anon_graphzeppelin.Dsu.Merge.Classes.{Linked}
use anon_graphzeppelin.Dsu.Components.{make-Stands, InRange, merge_all, merge_all-Linked}
use anon_graphzeppelin.Dsu.Concurrent.{mt_merge, DoesNothing, mt_merge-DoesNothing}

abbrev toy_edges : List Edge
toy_edges =
    record { src = 0; dst = 1 } ∷ record { src = 2; dst = 1 } ∷ record { src = 4; dst = 3 } ∷ []

toy_edges-InRange : InRange 6 toy_edges
toy_edges-InRange = InRange.one_more (omega arith) (omega arith) (
    InRange.one_more (omega arith) (omega arith)
      (InRange.one_more (omega arith) (omega arith) InRange.none_left))

merge_all-Linked_example :
    (d : DisjointSetUnion) × (root : ℕ → ℕ) × (merge_all 32 3 (make 6) toy_edges ≡ some d)
    × Stands 6 d root
    × ((i j : ℕ) → (root i ≡ root j) ↔ Linked (λ k. k) toy_edges i j)
merge_all-Linked_example =
    merge_all-Linked 32 3 6 (omega arith) (omega arith) toy_edges toy_edges-InRange

find_root-Represents_example :
    (f : Found ℕ) × (find_root 3 (make 6) 4 ≡ some f) × (f.value ≡ 4) × Stands 6 f.dsu (λ i. i)
find_root-Represents_example =
    find_root-Represents 6 (λ i. i) 3 (make 6) 4 (make-Stands 6) (omega arith)
      (omega (arith, (make-Stands 6).positive 4 (omega arith)))

mt_merge-DoesNothing_example :
    DoesNothing 32 3 (λ _. false) 6 (λ i. i) (mt_merge 32 3 (λ _. false) 2 (make 6) 4 2)
mt_merge-DoesNothing_example =
    mt_merge-DoesNothing 32 3 (λ _. false) 6 (λ i. i) (omega arith) 0 (make 6) 4 2 (make-Stands 6)
      (omega arith) (omega arith)
