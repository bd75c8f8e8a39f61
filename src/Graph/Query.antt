-- ===== src/Graph/Query.antt =====
-- `connected_components` and `point_query` of src/graph.cpp. What `force_flush` of the guttering
-- system and the workers behind it do to the supernodes is a parameter, `flush`; between
-- `pause_workers` and `unpause_workers` no worker changes a supernode. The clocks are not modelled.
pub mod Components
pub mod Flags
pub mod Exact
use anon_graphzeppelin.Base.{
  ℕ, zero, suc, Bool, true, false, not, ◌&&◌, List, [], ◌∷◌, map, Option, none, some, and_then,
  ◌==◌, if◌then◌else◌, replicate, Result, ok, throw, Exception,
}
use anon_graphzeppelin.Dsu.{identity}
use anon_graphzeppelin.Graph.{Graph, Step, get_parent}
use anon_graphzeppelin.Graph.Answer.{cc_from_dsu}
use anon_graphzeppelin.Graph.Sampler.{Sampler}
use anon_graphzeppelin.Graph.Boruvka.{Run, Ended, first_run, boruvka_rounds, cleanup_copy}

-- `Graph` with its supernodes; `backup_in_mem` is that of its configuration.
pub record Engine (A : Type 0) : Type 0 where
  pub graph : Graph
  pub supernodes : List A
  pub update_locked : Bool
  pub backup_in_mem : Bool

-- What a call leaves behind, and what it returns or throws.
pub record Reply (A B : Type 0) : Type 0 where
  pub engine : Engine A
  pub result : Result B

module _ (S : Sampler) (fuel rounds : ℕ) where
  -- `dsu_valid = true` and `cc_from_dsu`, where no exception was thrown.
  pub finish_boruvka : Engine S.State → Option Exception → Option (Reply S.State (List (List ℕ)))
  finish_boruvka e (some x) = some (record { engine = e; result = throw x })
  finish_boruvka e none =
      and_then (cc_from_dsu fuel (record e.graph { dsu_valid = true }))
        (λ r. some (record { engine = record e { graph = r.graph }; result = ok r.value }))

  pub boruvka_emulation : Bool → Engine S.State → Option (Reply S.State (List (List ℕ)))
  boruvka_emulation make_copy e =
      and_then
        (boruvka_rounds S fuel make_copy e.backup_in_mem rounds
          (first_run S fuel make_copy e.backup_in_mem e.graph e.supernodes))
        (λ ended. and_then (cleanup_copy S fuel make_copy e.backup_in_mem ended.run) (λ supernodes.
          finish_boruvka
            (record e { graph = ended.run.graph; supernodes = supernodes; update_locked = true })
            ended.err))

  -- The loop over `reset_query_state`, and the end of the lock.
  pub resume : Engine S.State → Engine S.State
  resume e = record e { supernodes = map S.reset_query_state e.supernodes; update_locked = false }

  -- `parent[i] = i; size[i] = 1;`
  pub reset_dsu : Engine S.State → Engine S.State
  reset_dsu e = record e {
    graph = record e.graph {
      parent = identity e.graph.num_nodes 0;
      size = replicate e.graph.num_nodes 1;
    };
  }

  pub cached_components : Engine S.State → Option (Reply S.State (List (List ℕ)))
  cached_components e =
      and_then (cc_from_dsu fuel e.graph)
        (λ r. some (record { engine = record e { graph = r.graph }; result = ok r.value }))

  -- `get_parent(a) == get_parent(b)`
  pub same_parent : Graph → ℕ → ℕ → Option (Step Bool)
  same_parent g a b = and_then (get_parent fuel g a) (λ r.
      and_then (get_parent fuel r.graph b)
        (λ t. some (record { graph = t.graph; value = r.value == t.value })))

  pub cached_point : Engine S.State → ℕ → ℕ → Option (Reply S.State Bool)
  cached_point e a b =
      and_then (same_parent e.graph a b)
        (λ r. some (record { engine = record e { graph = r.graph }; result = ok r.value }))

  -- The `try` block of `point_query`.
  pub point_answer : ℕ → ℕ → Engine S.State → Result (List (List ℕ)) → Option (Reply S.State Bool)
  point_answer a b e (throw x) = some (record { engine = e; result = throw x })
  point_answer a b e (ok _) = cached_point e a b

  module _ (flush : List S.State → List S.State) where
    pub connected_components : Bool → Engine S.State → Option (Reply S.State (List (List ℕ)))
    connected_components cont e =
        let flushed = record e { supernodes = flush e.supernodes } in
        if e.graph.dsu_valid && cont
        then cached_components e
        else if not cont
        then boruvka_emulation false flushed
        else and_then (boruvka_emulation true flushed)
            (λ r. some (record r { engine = resume r.engine }))

    pub point_query : Engine S.State → ℕ → ℕ → Option (Reply S.State Bool)
    point_query e a b =
        let flushed = record e { supernodes = flush e.supernodes } in
        if e.graph.dsu_valid
        then cached_point e a b
        else and_then (boruvka_emulation true flushed) (λ r.
          and_then (point_answer a b r.engine r.result)
            (λ p. some (record p { engine = resume (reset_dsu p.engine) })))
