-- ===== src/Tests/ToolRuns.antt =====
-- The stream tools at fixed inputs.
use anon_graphzeppelin.Base.{
  ℕ, ◌≡◌, ◌-◌, ◌*◌, ◌%◌, false, List, [], ◌∷◌, map, some, ok, length, replicate, length-replicate,
  arith,
}
use anon_graphzeppelin.Types.{Edge, GraphUpdate}
use anon_graphzeppelin.BinaryStream.Calls.{fresh}
use anon_graphzeppelin.StreamTools.{make_adj_mat, correct_all, to_binary_format, validate}
use anon_graphzeppelin.StreamTools.Convert.{Alternates, InGraph, correct_all-Alternates}
use anon_graphzeppelin.StreamTools.Accepted.{NoLoops, validate-to_binary_format}

abbrev edge_of : ℕ → ℕ → Edge
edge_of a b = record { src = a; dst = b }

-- The first edge is repeated the other way around.
abbrev text_edges : List Edge
text_edges = edge_of 0 2 ∷ edge_of 1 2 ∷ edge_of 2 0 ∷ []

text_edges-InGraph : InGraph 3 text_edges
text_edges-InGraph =
    (omega arith, omega arith, (omega arith, omega arith, (omega arith, omega arith, _)))

text_edges-NoLoops : NoLoops text_edges
text_edges-NoLoops = (
  λ e. absurd (omega (arith, e)),
  (λ e. absurd (omega (arith, e)), (λ e. absurd (omega (arith, e)), _)),
)

correct_all-Alternates_example :
    (us : List GraphUpdate) × (correct_all (make_adj_mat 3) text_edges ≡ some us)
    × (map (λ u. u.edge) us ≡ text_edges)
    × Alternates (λ i j. false) us
correct_all-Alternates_example = correct_all-Alternates 3 text_edges text_edges-InGraph

zeros : ℕ → List ℕ
zeros k = replicate k 0

length-zeros : (k : ℕ) → length (zeros k) ≡ k
unfolding zeros
length-zeros k = length-replicate k 0

validate-to_binary_format_example :
    (bytes : List ℕ) × (to_binary_format 3 text_edges ≡ some bytes)
    × (validate (some (fresh bytes)) [] [] (zeros (1024 * 1024 - 1024 * 1024 % 9))
        ≡ some (ok false))
validate-to_binary_format_example =
    validate-to_binary_format 3 text_edges [] [] (zeros (1024 * 1024 - 1024 * 1024 % 9))
      text_edges-InGraph text_edges-NoLoops (omega arith) (omega arith)
      (length-zeros (1024 * 1024 - 1024 * 1024 % 9))
