-- ===== src/Graph/Answer.antt =====
-- `cc_from_dsu` of src/graph.cpp: the sets of nodes with one root, in the order of the roots.
pub mod Classes
use anon_graphzeppelin.Base.{
  ℕ, zero, suc, ◌+◌, Bool, true, false, List, [], ◌∷◌, ◌++◌, map, Option, none, some, and_then, ltb,
  ◌==◌, if◌then◌else◌,
}
use anon_graphzeppelin.Graph.{Graph, Step, get_parent}

-- An entry of `std::map<node_id_t, std::set<node_id_t>> temp`; the nodes of a set are inserted in
-- rising order.
pub record Entry : Type 0 where
  pub key : ℕ
  pub nodes : List ℕ

-- `temp[key].insert(i)`, in a map that is kept in the order of its keys.
pub insert_node : ℕ → ℕ → List Entry → List Entry
insert_node key i [] = record { key = key; nodes = i ∷ [] } ∷ []
insert_node key i (e ∷ temp) =
    let rest = insert_node key i temp in
    if key == e.key
    then record { key = e.key; nodes = e.nodes ++ i ∷ [] } ∷ temp
    else if ltb key e.key
    then record { key = key; nodes = i ∷ [] } ∷ e ∷ temp
    else e ∷ rest

-- The loop at node `i`, with `left` nodes to go.
pub group_nodes : ℕ → ℕ → ℕ → Graph → List Entry → Option (Step (List Entry))
group_nodes fuel zero i g temp = some (record { graph = g; value = temp })
group_nodes fuel (suc left) i g temp =
    and_then (get_parent fuel g i)
      (λ r. group_nodes fuel left (i + 1) r.graph (insert_node r.value i temp))

pub sets_of : Option (Step (List Entry)) → Option (Step (List (List ℕ)))
sets_of none = none
sets_of (some r) = some (record { graph = r.graph; value = map (λ e. e.nodes) r.value })

pub cc_from_dsu : ℕ → Graph → Option (Step (List (List ℕ)))
cc_from_dsu fuel g = sets_of (group_nodes fuel g.num_nodes 0 g [])
