-- ===== src/Graph/Eager.antt =====
-- `Graph::update` of include/graph.h, with USE_EAGER_DSU and without it. `gts` is the guttering
-- system, whose `insert` is a parameter. One thread calls it, so that the lock of a set of
-- `spanning_forest` is free; the weak exchange may still fail.
pub mod Joining
use anon_graphzeppelin.Base.{
  ℕ, zero, suc, ◌+◌, min, max, u32, Bool, true, false, not, ◌&&◌, List, [], Option, none, some,
  and_then, ltb, ◌==◌, if◌then◌else◌, get_or, set, Result, ok, throw, Exception,
}
use anon_graphzeppelin.Types.{Edge, GraphUpdate}
use anon_graphzeppelin.Forest.{at}
use anon_graphzeppelin.Sketch.Query.{contains, insert}
use anon_graphzeppelin.Graph.{Graph, Step, get_parent}
use anon_graphzeppelin.Graph.Query.{Engine}

-- `a` and `b` of the loop.
pub record Pair : Type 0 where
  pub a : ℕ
  pub b : ℕ

-- `if (size[a] < size[b]) std::swap(a, b);`
pub larger_first : Graph → ℕ → ℕ → Pair
larger_first g a b =
    if ltb (at g.size a) (at g.size b) then record { a = b; b = a } else record { a = a; b = b }

-- After the exchange has put `b` below `a`.
pub link : Graph → ℕ → ℕ → Edge → Graph
link g a b edge = record g {
  parent = set g.parent b a;
  size = set g.size a (u32 (at g.size a + at g.size b));
  spanning_forest =
      set g.spanning_forest edge.src (insert edge.dst (get_or g.spanning_forest edge.src []));
}

-- The loop, at most `rounds` times; `fuel` is that of `get_parent`. `exchanged` is its body. A weak
-- exchange may fail spuriously: `spurious k` says whether it does with `k` rounds to go. Where it
-- fails, `b` gets the parent that was found.
module _ (fuel : ℕ) (spurious : ℕ → Bool) where
  pub exchanged : Bool → (ℕ → ℕ → Graph → Option Graph) → Graph → Pair → Edge → Option Graph
  exchanged spurious next g p edge =
      if not spurious && at g.parent p.b == p.b
      then some (link g p.a p.b edge)
      else next p.a (at g.parent p.b) g

  pub join_trees : ℕ → ℕ → ℕ → Edge → Graph → Option Graph
  join_trees zero a b edge g = none
  join_trees (suc rounds) a b edge g = and_then (get_parent fuel g a) (λ r.
      and_then (get_parent fuel r.graph b) (λ t.
        if r.value == t.value
        then some t.graph
        else exchanged (spurious rounds) (λ a' b' g'. join_trees rounds a' b' edge g') t.graph
            (larger_first t.graph r.value t.value) edge))

  -- The part under USE_EAGER_DSU.
  pub eager_dsu : ℕ → Graph → Edge → Option Graph
  eager_dsu rounds g e =
      let edge : Edge = record { src = min e.src e.dst; dst = max e.src e.dst } in
      if g.dsu_valid
      then if contains edge.dst (get_or g.spanning_forest edge.src [])
        then some (record g { dsu_valid = false })
        else join_trees rounds edge.src edge.dst edge g
      else some g

-- What `update` leaves: the graph and the guttering system.
pub record Updated (A G : Type 0) : Type 0 where
  pub engine : Engine A
  pub gutters : G

-- Both directions of the edge are inserted.
pub insert_both : {G : Type 0} → (ℕ → ℕ → G → G) → Edge → G → G
insert_both gts_insert e gts = gts_insert e.dst e.src (gts_insert e.src e.dst gts)

module _ {A G : Type 0} (gts_insert : ℕ → ℕ → G → G) where
  -- Without USE_EAGER_DSU
  pub update : Engine A → G → GraphUpdate → Result (Updated A G)
  update g gts upd =
      if g.update_locked
      then throw Exception.update_locked
      else ok (record {
        engine = record g { graph = record g.graph { dsu_valid = false } };
        gutters = insert_both gts_insert upd.edge gts;
      })

  -- With USE_EAGER_DSU
  pub update_eagerly :
      ℕ → (ℕ → Bool) → ℕ → Engine A → G → GraphUpdate → Option (Result (Updated A G))
  update_eagerly fuel spurious rounds g gts upd =
      if g.update_locked
      then some (throw Exception.update_locked)
      else and_then (eager_dsu fuel spurious rounds g.graph upd.edge) (λ graph. some (
          ok (record {
            engine = record g { graph = graph };
            gutters = insert_both gts_insert upd.edge gts;
          })))
