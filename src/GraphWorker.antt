-- ===== src/GraphWorker.antt =====
-- src/graph_worker.cpp: the worker threads and the thread that pauses, resumes and stops them.
-- Each read or write of a shared variable is a step of its own where another thread may come in
-- between; a wait may wake up at any time, by a notification or without one. What `get_data` of the
-- guttering system returns is left open.
pub mod Standing
pub mod Pausing
use anon_graphzeppelin.Base.{
  ℕ, zero, suc, ◌<◌, ◌≡◌, Bool, true, false, ◌⊎◌, List, [], ◌∷◌, length, get_or, set, replicate,
}

-- A batch of updates of the guttering system.
pub record Batch : Type 0 where
  pub node_idx : ℕ
  pub upd_vec : List ℕ

-- The loop of `do_work` over the batches; `batch_update` is that of the graph.
pub apply_batches {ℓ} : {G : Type ℓ} → (ℕ → List ℕ → G → G) → List Batch → G → G
apply_batches batch_update [] g = g
apply_batches batch_update (batch ∷ batches) g =
    apply_batches batch_update batches
      (elim batch.upd_vec [ [] ↦ g | u ∷ us ↦ batch_update batch.node_idx (u ∷ us) g ])

-- Where a worker stands in `do_work`.
pub data Pc : Type 0 where
  getting : Pc  -- before `get_data`
  working : Pc  -- it has data, and updates the graph
  no_data : Pc  -- before the test of `shutdown`
  alive : Pc  -- before the test of `paused`
  locking : Pc  -- before it takes `pause_lock`
  testing : Pc  -- before the test of the wait
  blocking : Pc  -- the test failed
  sleeping : Pc
  woken : Pc  -- before it takes `pause_lock` again
  leaving : Pc  -- before `lk.unlock()`
  exited : Pc

pub record Worker : Type 0 where
  pub pc : Pc
  pub thr_paused : Bool

-- The static variables; `locked` is `pause_lock`.
pub record Shared : Type 0 where
  pub shutdown : Bool
  pub paused : Bool
  pub locked : Bool

abbrev pub at : Pc → Bool → Worker
at p b = record { pc = p; thr_paused = b }

-- A step of a worker.
pub data Move (s : Shared) : Worker → Shared → Worker → Type 0 where
  data_found : {b : Bool} → Move s (at Pc.getting b) s (at Pc.working b)
  applied : {b : Bool} → Move s (at Pc.working b) s (at Pc.getting b)
  none_found : {b : Bool} → Move s (at Pc.getting b) s (at Pc.no_data b)
  quit : {b : Bool} → s.shutdown ≡ true → Move s (at Pc.no_data b) s (at Pc.exited b)
  stay : {b : Bool} → s.shutdown ≡ false → Move s (at Pc.no_data b) s (at Pc.alive b)
  again : {b : Bool} → s.paused ≡ false → Move s (at Pc.alive b) s (at Pc.getting b)
  see : {b : Bool} → s.paused ≡ true → Move s (at Pc.alive b) s (at Pc.locking b)
  lock :
      {b : Bool}
      → s.locked ≡ false
      → Move s (at Pc.locking b) (record s { locked = true }) (at Pc.testing true)
  still :
      {b : Bool}
      → s.paused ≡ true
      → s.shutdown ≡ false
      → Move s (at Pc.testing b) s (at Pc.blocking b)
  sleep : {b : Bool} → Move s (at Pc.blocking b) (record s { locked = false }) (at Pc.sleeping b)
  wake : {b : Bool} → Move s (at Pc.sleeping b) s (at Pc.woken b)
  relock :
      {b : Bool}
      → s.locked ≡ false
      → Move s (at Pc.woken b) (record s { locked = true }) (at Pc.testing b)
  resumed : {b : Bool} → s.paused ≡ false → Move s (at Pc.testing b) s (at Pc.leaving false)
  ended : {b : Bool} → s.shutdown ≡ true → Move s (at Pc.testing b) s (at Pc.leaving false)
  unlock : {b : Bool} → Move s (at Pc.leaving b) (record s { locked = false }) (at Pc.getting b)

-- What the other thread does: `running` after `start_workers` or `unpause_workers` returned, and
-- `quiet` after `pause_workers` returned.
pub data Phase : Type 0 where
  running pausing quiet resuming stopping stopped : Phase

pub record World : Type 0 where
  pub shared : Shared
  pub phase : Phase
  pub workers : List Worker

abbrev pub Each : (Worker → Type 0) → List Worker → Type 0
Each P [] = Unit {0}
Each P (w ∷ ws) = P w × Each P ws

abbrev pub fresh : Worker
fresh = record { pc = Pc.getting; thr_paused = false }

-- `start_workers` with `num_groups` workers
unfoldable pub start_workers : ℕ → World
start_workers num_groups = record {
  shared = record { shutdown = false; paused = false; locked = false };
  phase = Phase.running;
  workers = replicate num_groups fresh;
}

-- The test of all workers is one step, since it holds `pause_lock`.
pub data Step (w : World) : World → Type 0 where
  work :
      {s : Shared} {wk : Worker} (i : ℕ)
      → i < length w.workers
      → Move w.shared (get_or w.workers i fresh) s wk
      → Step w (record w { shared = s; workers = set w.workers i wk })
  pause :
      (w.phase ≡ Phase.running) ⊎ (w.phase ≡ Phase.quiet)
      → Step w (record w { shared = record w.shared { paused = true }; phase = Phase.pausing })
  all_paused :
      w.phase ≡ Phase.pausing
      → w.shared.locked ≡ false
      → Each (λ wk. wk.thr_paused ≡ true) w.workers
      → Step w (record w { phase = Phase.quiet })
  unpause :
      w.phase ≡ Phase.quiet
      → Step w (record w { shared = record w.shared { paused = false }; phase = Phase.resuming })
  all_unpaused :
      w.phase ≡ Phase.resuming
      → w.shared.locked ≡ false
      → Each (λ wk. wk.thr_paused ≡ false) w.workers
      → Step w (record w { phase = Phase.running })
  -- `stop_workers`, also while the workers are paused
  stop :
      (w.phase ≡ Phase.running) ⊎ (w.phase ≡ Phase.quiet)
      → Step w (record w { shared = record w.shared { shutdown = true }; phase = Phase.stopping })
  joined :
      w.phase ≡ Phase.stopping
      → Each (λ wk. wk.pc ≡ Pc.exited) w.workers
      → Step w (record w { phase = Phase.stopped })

pub data Reach (n : ℕ) : World → Type 0 where
  start : Reach n (start_workers n)
  later : {w w' : World} → Reach n w → Step w w' → Reach n w'
