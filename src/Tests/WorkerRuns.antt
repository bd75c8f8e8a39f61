-- ===== src/Tests/WorkerRuns.antt =====
-- One worker that is paused, at a fixed order of the steps.
use anon_graphzeppelin.Base.{◌≡◌, refl, inl, arith, false}
use anon_graphzeppelin.GraphWorker.{World, Move, Step, Reach, Each, start_workers}
use anon_graphzeppelin.GraphWorker.Pausing.{Waits, Works, quiet-Waits, running-Works}

abbrev at_work : (w : World) × Reach 1 w
unfolding start_workers
at_work = (_, Reach.later Reach.start (Step.work 0 (omega arith) Move.data_found))

abbrev paused_worker : (w : World) × Reach 1 w
unfolding start_workers
paused_worker = (
  _,
  Reach.later
      (Reach.later
        (Reach.later
          (Reach.later
            (Reach.later
              (Reach.later
                (Reach.later
                  (Reach.later (Reach.later at_work.1 (Step.work 0 (omega arith) Move.applied))
                    (Step.work 0 (omega arith) Move.none_found))
                  (Step.pause (inl refl)))
                (Step.work 0 (omega arith) (Move.stay refl)))
              (Step.work 0 (omega arith) (Move.see refl)))
            (Step.work 0 (omega arith) (Move.lock refl)))
          (Step.work 0 (omega arith) (Move.still refl refl)))
        (Step.work 0 (omega arith) Move.sleep))
      (Step.all_paused refl refl (refl, _)),
)

quiet-Waits_example : Each Waits paused_worker.0.workers
unfolding paused_worker start_workers
quiet-Waits_example = quiet-Waits 1 paused_worker.0 paused_worker.1 refl

running-Works_example :
    Each Works at_work.0.workers
    × (at_work.0.shared.paused ≡ false)
    × (at_work.0.shared.shutdown ≡ false)
unfolding at_work start_workers
running-Works_example = running-Works 1 at_work.0 at_work.1 refl
