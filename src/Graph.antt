-- ===== src/Graph.antt =====
-- include/graph.h and src/graph.cpp: the part of `Graph` that keeps the components. `parent` is an
-- array of plain node ids, as without USE_EAGER_DSU; a node id has 32 bits, and VERIFY_SAMPLES_F is
-- not defined.
pub mod Parent
pub mod Rounds
pub mod Answer
pub mod Updates
pub mod Sampler
pub mod Supernodes
pub mod Boruvka
pub mod Query
pub mod Eager
pub mod File
use anon_graphzeppelin.Base.{
  ℕ, zero, suc, ◌+◌, min, max, u32, Bool, true, false, not, ◌&&◌, List, [], ◌∷◌, ◌++◌, Option, none,
  some, and_then, ltb, ◌==◌, if◌then◌else◌, length, get_or, set, replicate,
}
use anon_graphzeppelin.Types.{Edge, SampleSketchRet}
use anon_graphzeppelin.Forest.{at}
use anon_graphzeppelin.Sketch.Query.{insert}

-- The variables that the components are computed with. An element of `spanning_forest` is a set of
-- node ids, listed in the order of insertion.
pub record Graph : Type 0 where
  pub num_nodes : ℕ
  pub parent : List ℕ
  pub size : List ℕ
  pub spanning_forest : List (List ℕ)
  pub modified : Bool
  pub dsu_valid : Bool

-- A call's result, with the graph that it leaves.
pub record Step (A : Type 0) : Type 0 where
  pub graph : Graph
  pub value : A

-- `return parent[node] = root`
pub set_parent : Graph → ℕ → Option (Step ℕ) → Option (Step ℕ)
set_parent g node none = none
set_parent g node (some r) = some (record {
  graph = record r.graph { parent = set r.graph.parent node r.value };
  value = r.value;
})

-- `get_parent`, at most `fuel` calls deep.
unfoldable pub get_parent : ℕ → Graph → ℕ → Option (Step ℕ)
get_parent zero g node = none
get_parent (suc fuel) g node =
    let rest = set_parent g node (get_parent fuel g (at g.parent node)) in
    if at g.parent node == node then some (record { graph = g; value = node }) else rest

-- The two vectors that the loop of `supernodes_to_merge` fills, with the graph.
pub record Merging : Type 0 where
  pub graph : Graph
  pub to_merge : List (List ℕ)
  pub new_reps : List ℕ

-- `b` goes below `a`, and is put on the list of `a` with the nodes on its own list.
pub link_supernodes : Merging → ℕ → ℕ → Edge → Merging
link_supernodes m a b edge =
    let g = m.graph in
    let list_b = get_or m.to_merge b [] in
    let list_a = get_or m.to_merge a [] ++ b ∷ list_b in
    let src = min edge.src edge.dst in
    let dst = max edge.src edge.dst in
    record m {
      graph = record g {
        parent = set g.parent b a;
        size = set g.size a (u32 (at g.size a + at g.size b));
        modified = true;
        spanning_forest = set g.spanning_forest src (insert dst (get_or g.spanning_forest src []));
      };
      to_merge = set (set m.to_merge a list_a) b [];
    }

-- The body behind the two calls of `get_parent`.
pub merge_parents : Merging → ℕ → ℕ → Edge → Merging
merge_parents m a b edge =
    if a == b
    then m
    else if ltb (at m.graph.size a) (at m.graph.size b)
    then link_supernodes m b a edge
    else link_supernodes m a b edge

pub second_parent : Merging → ℕ → Edge → Option (Step ℕ) → Option Merging
second_parent m a edge none = none
second_parent m a edge (some b) = some (merge_parents (record m { graph = b.graph }) a b.value edge)

pub first_parent : ℕ → Merging → Edge → Option (Step ℕ) → Option Merging
first_parent fuel m edge none = none
first_parent fuel m edge (some a) =
    second_parent (record m { graph = a.graph }) a.value edge (get_parent fuel a.graph edge.dst)

-- The body of the loop, for representative `i` and its sample.
pub merge_sample : ℕ → Merging → ℕ → Edge → SampleSketchRet → Option Merging
merge_sample fuel m i edge SampleSketchRet.fail =
    some (record m { graph = record m.graph { modified = true }; new_reps = m.new_reps ++ i ∷ [] })
merge_sample fuel m i edge SampleSketchRet.zero = some m
merge_sample fuel m i edge SampleSketchRet.good =
    first_parent fuel m edge (get_parent fuel m.graph edge.src)

-- The loop over the representatives.
pub merge_samples : ℕ → (ℕ → Edge × SampleSketchRet) → Merging → List ℕ → Option Merging
merge_samples fuel query m [] = some m
merge_samples fuel query m (i ∷ reps) =
    and_then (merge_sample fuel m i (query i).0 (query i).1)
      (λ m'. merge_samples fuel query m' reps)

-- The representatives that failed and that no node was merged into.
pub still_failed : List (List ℕ) → List ℕ → List ℕ
still_failed to_merge [] = []
still_failed to_merge (a ∷ reps) =
    let rest = still_failed to_merge reps in
    if length (get_or to_merge a []) == 0 then a ∷ rest else rest

-- The nodes, of the `left` ones from `a` on, that others are merged into.
pub merged_into : List (List ℕ) → ℕ → ℕ → List ℕ
merged_into to_merge zero a = []
merged_into to_merge (suc left) a =
    let rest = merged_into to_merge left (a + 1) in
    if length (get_or to_merge a []) == 0 then rest else a ∷ rest

-- What `supernodes_to_merge` makes of its vectors behind the loop.
pub finish_merging : Merging → Merging
finish_merging m = record m {
  new_reps = still_failed m.to_merge m.new_reps ++ merged_into m.to_merge m.graph.num_nodes 0;
}

pub after_loop : Option Merging → Option Merging
after_loop none = none
after_loop (some m) = some (finish_merging m)

-- `supernodes_to_merge`: `new_reps` of the result is what `reps` is set to.
pub supernodes_to_merge : ℕ → (ℕ → Edge × SampleSketchRet) → Graph → List ℕ → Option Merging
supernodes_to_merge fuel query g reps = after_loop (
    merge_samples fuel query
      (record { graph = g; to_merge = replicate g.num_nodes []; new_reps = [] }) reps)
