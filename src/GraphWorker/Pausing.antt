-- ===== src/GraphWorker/Pausing.antt =====
-- What holds between `pause_workers` and `unpause_workers`.
use anon_graphzeppelin.Base.{ℕ, ◌≡◌, ◌≢◌, refl, sym, ap, subst, ◌∙◌, ◌⊎◌, inl, inr, true, false}
use anon_graphzeppelin.GraphWorker.{
  Pc, Worker, Shared, Phase, World, Each, start_workers, Step, Reach,
}
use anon_graphzeppelin.GraphWorker.Standing.{
  waiting, late, gone, MayStand, Flags, Stands, true_false, Move-MayStand, Move-thr_paused,
  Move-Flags, Each-set, Each-get, Each-replicate, Each-map, Each-both,
}

pub record Ordered (w : World) : Type 0 where
  pub flags : Flags w.phase w.shared
  pub stand : Each (Stands w.phase) w.workers

start-Ordered : (n : ℕ) → Ordered (start_workers n)
unfolding start_workers
start-Ordered n = record {
  flags = (refl, refl);
  stand = Each-replicate (Stands Phase.running) n (refl, (refl, refl));
}

-- Another phase.
to_phase :
    (p : Phase) (s : Shared) (w : World)
    → Flags p s
    → ((wk : Worker) → Stands w.phase wk → MayStand p wk.pc)
    → Ordered w
    → Ordered (record w { shared = s; phase = p })
to_phase p s w f g o = record {
  flags = f;
  stand = Each-map (Stands w.phase) (Stands p) w.workers (λ wk h. (h.0, g wk h)) o.stand;
}

-- A waiting worker is behind its test of `paused`.
waiting-late : (p : Pc) → waiting p ≡ true → late p ≡ false
waiting-late Pc.getting h = true_false h refl
waiting-late Pc.working h = true_false h refl
waiting-late Pc.no_data h = true_false h refl
waiting-late Pc.alive h = true_false h refl
waiting-late Pc.locking h = true_false h refl
waiting-late Pc.testing h = refl
waiting-late Pc.blocking h = refl
waiting-late Pc.sleeping h = refl
waiting-late Pc.woken h = refl
waiting-late Pc.leaving h = true_false h refl
waiting-late Pc.exited h = true_false h refl

not_shut :
    (p : Phase) (s : Shared)
    → (p ≡ Phase.running) ⊎ (p ≡ Phase.quiet)
    → Flags p s
    → s.shutdown ≡ false
not_shut p s (inl e) f = (subst (λ q. Flags q s) e f).1
not_shut p s (inr e) f = (subst (λ q. Flags q s) e f).1

not_gone :
    (p : Phase) (pc : Pc)
    → (p ≡ Phase.running) ⊎ (p ≡ Phase.quiet)
    → MayStand p pc
    → gone pc ≡ false
not_gone p pc (inl e) h = not_late pc (subst (λ q. MayStand q pc) e h).1
  where
    not_late : (pc : Pc) → late pc ≡ false → gone pc ≡ false
    not_late Pc.exited h = true_false refl h
    not_late Pc.getting h = refl
    not_late Pc.working h = refl
    not_late Pc.no_data h = refl
    not_late Pc.alive h = refl
    not_late Pc.locking h = refl
    not_late Pc.testing h = refl
    not_late Pc.blocking h = refl
    not_late Pc.sleeping h = refl
    not_late Pc.woken h = refl
    not_late Pc.leaving h = refl
not_gone p pc (inr e) h = waiting_gone pc (subst (λ q. MayStand q pc) e h)
  where
    waiting_gone : (pc : Pc) → waiting pc ≡ true → gone pc ≡ false
    waiting_gone Pc.exited h = true_false h refl
    waiting_gone Pc.getting h = refl
    waiting_gone Pc.working h = refl
    waiting_gone Pc.no_data h = refl
    waiting_gone Pc.alive h = refl
    waiting_gone Pc.locking h = refl
    waiting_gone Pc.testing h = refl
    waiting_gone Pc.blocking h = refl
    waiting_gone Pc.sleeping h = refl
    waiting_gone Pc.woken h = refl
    waiting_gone Pc.leaving h = refl

step-Ordered : (w w' : World) → Step w w' → Ordered w → Ordered w'
step-Ordered w w' (Step.work {s = s} {wk = wk} i lt m) o =
    let (agrees, place) = Each-get (Stands w.phase) w.workers i lt o.stand in
    record {
      flags = Move-Flags w.phase w.shared s m o.flags;
      stand =
          Each-set (Stands w.phase) w.workers i wk o.stand
            (Move-thr_paused m agrees, Move-MayStand w.phase m o.flags place);
    }
step-Ordered w w' (Step.pause e) o =
    to_phase Phase.pausing (record w.shared { paused = true }) w
      (refl, not_shut w.phase w.shared e o.flags) (λ wk h. not_gone w.phase wk.pc e h.1) o
step-Ordered w w' (Step.all_paused e free all) o = record {
  flags = subst (λ p. Flags p w.shared) e o.flags;
  stand =
      Each-map (λ wk. Stands w.phase wk × (wk.thr_paused ≡ true)) (Stands Phase.quiet) w.workers
        (λ wk h. (h.0.0, sym h.0.0 ∙ h.1))
        (Each-both (Stands w.phase) (λ wk. wk.thr_paused ≡ true) w.workers o.stand all);
}
step-Ordered w w' (Step.unpause e) o =
    to_phase Phase.resuming (record w.shared { paused = false }) w
      (refl, not_shut w.phase w.shared (inr e) o.flags)
      (λ wk h. waiting-late wk.pc (subst (λ p. MayStand p wk.pc) e h.1)) o
step-Ordered w w' (Step.all_unpaused e free all) o = record {
  flags = subst (λ p. Flags p w.shared) e o.flags;
  stand =
      Each-map (λ wk. Stands w.phase wk × (wk.thr_paused ≡ false)) (Stands Phase.running) w.workers
        (λ wk h. (h.0.0, (sym h.0.0 ∙ h.1, subst (λ p. MayStand p wk.pc) e h.0.1)))
        (Each-both (Stands w.phase) (λ wk. wk.thr_paused ≡ false) w.workers o.stand all);
}
step-Ordered w w' (Step.stop e) o =
    to_phase Phase.stopping (record w.shared { shutdown = true }) w _ (λ wk h. _) o
step-Ordered w w' (Step.joined e all) o = to_phase Phase.stopped w.shared w _ (λ wk h. _) o

pub Reach-Ordered : (n : ℕ) (w : World) → Reach n w → Ordered w
Reach-Ordered n w Reach.start = start-Ordered n
Reach-Ordered n w (Reach.later {w = v} h step) = step-Ordered v w step (Reach-Ordered n v h)

abbrev pub Waits : Worker → Type 0
Waits wk = (wk.thr_paused ≡ true) × (waiting wk.pc ≡ true)

-- After `pause_workers` returned, and until `unpause_workers` or `stop_workers` is called, every
-- worker stands between the two writes of its `thr_paused`, so that none applies a batch.
pub quiet-Waits : (n : ℕ) (w : World) → Reach n w → w.phase ≡ Phase.quiet → Each Waits w.workers
quiet-Waits n w h e =
    Each-map (Stands w.phase) Waits w.workers
      (λ wk s. let place = subst (λ p. MayStand p wk.pc) e s.1 in (s.0 ∙ place, place))
      (Reach-Ordered n w h).stand

abbrev pub Works : Worker → Type 0
Works wk = (wk.thr_paused ≡ false) × (waiting wk.pc ≡ false) × (wk.pc ≢ Pc.exited)

-- After `unpause_workers` returned, and until the next `pause_workers` or `stop_workers` is called,
-- no worker waits and none has ended, and `paused` and `shutdown` are false.
pub running-Works :
    (n : ℕ) (w : World)
    → Reach n w
    → w.phase ≡ Phase.running
    → Each Works w.workers × (w.shared.paused ≡ false) × (w.shared.shutdown ≡ false)
running-Works n w h e =
    let o = Reach-Ordered n w h in
    let flags = subst (λ p. Flags p w.shared) e o.flags in
    (
      Each-map (Stands w.phase) Works w.workers
          (λ wk s.
            let place = subst (λ p. MayStand p wk.pc) e s.1 in
            (s.0 ∙ place.0, place.0, λ gone. true_false {A = ⊥} (ap late gone) place.1))
          o.stand,
      flags.0,
      flags.1,
    )
