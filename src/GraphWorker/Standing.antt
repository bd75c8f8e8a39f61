-- ===== src/GraphWorker/Standing.antt =====
-- Where a worker may stand in each phase of the other thread, and that its steps keep it there.
use anon_graphzeppelin.Base.{
  ℕ, zero, suc, ◌<◌, ◌≡◌, refl, sym, subst, Bool, true, false, List, [], ◌∷◌, length, get_or, set,
  replicate, arith,
}
use anon_graphzeppelin.GraphWorker.{Pc, Worker, Shared, Move, Phase, Each, fresh}

-- From `thr_paused = true` to `thr_paused = false`.
abbrev pub waiting : Pc → Bool
waiting Pc.testing = true
waiting Pc.blocking = true
waiting Pc.sleeping = true
waiting Pc.woken = true
waiting Pc.getting = false
waiting Pc.working = false
waiting Pc.no_data = false
waiting Pc.alive = false
waiting Pc.locking = false
waiting Pc.leaving = false
waiting Pc.exited = false

-- Before `lock`.
abbrev pub late : Pc → Bool
late Pc.locking = true
late Pc.exited = true
late Pc.testing = false
late Pc.blocking = false
late Pc.sleeping = false
late Pc.woken = false
late Pc.getting = false
late Pc.working = false
late Pc.no_data = false
late Pc.alive = false
late Pc.leaving = false

abbrev pub gone : Pc → Bool
gone Pc.exited = true
gone Pc.testing = false
gone Pc.blocking = false
gone Pc.sleeping = false
gone Pc.woken = false
gone Pc.getting = false
gone Pc.working = false
gone Pc.no_data = false
gone Pc.alive = false
gone Pc.locking = false
gone Pc.leaving = false

-- Where a worker may stand in each phase.
abbrev pub MayStand : Phase → Pc → Type 0
MayStand Phase.running p = (waiting p ≡ false) × (late p ≡ false)
MayStand Phase.pausing p = gone p ≡ false
MayStand Phase.quiet p = waiting p ≡ true
MayStand Phase.resuming p = late p ≡ false
MayStand Phase.stopping p = Unit {0}
MayStand Phase.stopped p = Unit {0}

abbrev pub Flags : Phase → Shared → Type 0
Flags Phase.running s = (s.paused ≡ false) × (s.shutdown ≡ false)
Flags Phase.pausing s = (s.paused ≡ true) × (s.shutdown ≡ false)
Flags Phase.quiet s = (s.paused ≡ true) × (s.shutdown ≡ false)
Flags Phase.resuming s = (s.paused ≡ false) × (s.shutdown ≡ false)
Flags Phase.stopping s = Unit {0}
Flags Phase.stopped s = Unit {0}

abbrev pub Stands : Phase → Worker → Type 0
Stands p wk = (wk.thr_paused ≡ waiting wk.pc) × MayStand p wk.pc

pub true_false : {A : Type 0} {b : Bool} → b ≡ true → b ≡ false → A
true_false e f = ground arith

pub Move-MayStand :
    (p : Phase) {s s' : Shared} {w w' : Worker}
    → Move s w s' w'
    → Flags p s
    → MayStand p w.pc
    → MayStand p w'.pc
Move-MayStand Phase.pausing Move.data_found f h = refl
Move-MayStand Phase.pausing Move.applied f h = refl
Move-MayStand Phase.pausing Move.none_found f h = refl
Move-MayStand Phase.pausing (Move.quit e) f h = true_false e f.1
Move-MayStand Phase.pausing (Move.stay e) f h = refl
Move-MayStand Phase.pausing (Move.again e) f h = refl
Move-MayStand Phase.pausing (Move.see e) f h = refl
Move-MayStand Phase.pausing (Move.lock e) f h = refl
Move-MayStand Phase.pausing (Move.still e e') f h = refl
Move-MayStand Phase.pausing Move.sleep f h = refl
Move-MayStand Phase.pausing Move.wake f h = refl
Move-MayStand Phase.pausing (Move.relock e) f h = refl
Move-MayStand Phase.pausing (Move.resumed e) f h = refl
Move-MayStand Phase.pausing (Move.ended e) f h = refl
Move-MayStand Phase.pausing Move.unlock f h = refl
Move-MayStand Phase.stopping m f h = _
Move-MayStand Phase.stopped m f h = _
Move-MayStand Phase.running Move.data_found f h = (refl, refl)
Move-MayStand Phase.running Move.applied f h = (refl, refl)
Move-MayStand Phase.running Move.none_found f h = (refl, refl)
Move-MayStand Phase.running (Move.quit e) f h = true_false e f.1
Move-MayStand Phase.running (Move.stay e) f h = (refl, refl)
Move-MayStand Phase.running (Move.again e) f h = (refl, refl)
Move-MayStand Phase.running (Move.see e) f h = true_false e f.0
Move-MayStand Phase.running (Move.lock e) f h = true_false refl h.1
Move-MayStand Phase.running (Move.still e e') f h = true_false refl h.0
Move-MayStand Phase.running Move.sleep f h = true_false refl h.0
Move-MayStand Phase.running Move.wake f h = true_false refl h.0
Move-MayStand Phase.running (Move.relock e) f h = true_false refl h.0
Move-MayStand Phase.running (Move.resumed e) f h = true_false refl h.0
Move-MayStand Phase.running (Move.ended e) f h = true_false refl h.0
Move-MayStand Phase.running Move.unlock f h = (refl, refl)
Move-MayStand Phase.quiet Move.data_found f h = true_false h refl
Move-MayStand Phase.quiet Move.applied f h = true_false h refl
Move-MayStand Phase.quiet Move.none_found f h = true_false h refl
Move-MayStand Phase.quiet (Move.quit e) f h = true_false h refl
Move-MayStand Phase.quiet (Move.stay e) f h = true_false h refl
Move-MayStand Phase.quiet (Move.again e) f h = true_false h refl
Move-MayStand Phase.quiet (Move.see e) f h = true_false h refl
Move-MayStand Phase.quiet (Move.lock e) f h = true_false h refl
Move-MayStand Phase.quiet (Move.still e e') f h = refl
Move-MayStand Phase.quiet Move.sleep f h = refl
Move-MayStand Phase.quiet Move.wake f h = refl
Move-MayStand Phase.quiet (Move.relock e) f h = refl
Move-MayStand Phase.quiet (Move.resumed e) f h = true_false f.0 e
Move-MayStand Phase.quiet (Move.ended e) f h = true_false e f.1
Move-MayStand Phase.quiet Move.unlock f h = true_false h refl
Move-MayStand Phase.resuming Move.data_found f h = refl
Move-MayStand Phase.resuming Move.applied f h = refl
Move-MayStand Phase.resuming Move.none_found f h = refl
Move-MayStand Phase.resuming (Move.quit e) f h = true_false e f.1
Move-MayStand Phase.resuming (Move.stay e) f h = refl
Move-MayStand Phase.resuming (Move.again e) f h = refl
Move-MayStand Phase.resuming (Move.see e) f h = true_false e f.0
Move-MayStand Phase.resuming (Move.lock e) f h = true_false refl h
Move-MayStand Phase.resuming (Move.still e e') f h = refl
Move-MayStand Phase.resuming Move.sleep f h = refl
Move-MayStand Phase.resuming Move.wake f h = refl
Move-MayStand Phase.resuming (Move.relock e) f h = refl
Move-MayStand Phase.resuming (Move.resumed e) f h = refl
Move-MayStand Phase.resuming (Move.ended e) f h = refl
Move-MayStand Phase.resuming Move.unlock f h = refl

-- `thr_paused` tells where a worker stands.
pub Move-thr_paused :
    {s s' : Shared} {w w' : Worker}
    → Move s w s' w'
    → w.thr_paused ≡ waiting w.pc
    → w'.thr_paused ≡ waiting w'.pc
Move-thr_paused Move.data_found h = h
Move-thr_paused Move.applied h = h
Move-thr_paused Move.none_found h = h
Move-thr_paused (Move.quit e) h = h
Move-thr_paused (Move.stay e) h = h
Move-thr_paused (Move.again e) h = h
Move-thr_paused (Move.see e) h = h
Move-thr_paused (Move.lock e) h = refl
Move-thr_paused (Move.still e e') h = h
Move-thr_paused Move.sleep h = h
Move-thr_paused Move.wake h = h
Move-thr_paused (Move.relock e) h = h
Move-thr_paused (Move.resumed e) h = refl
Move-thr_paused (Move.ended e) h = refl
Move-thr_paused Move.unlock h = h

-- No worker changes what the other thread writes.
Move-shared :
    {s s' : Shared} {w w' : Worker} → Move s w s' w' → s' ≡ record s { locked = s'.locked }
Move-shared Move.data_found = refl
Move-shared Move.applied = refl
Move-shared Move.none_found = refl
Move-shared (Move.quit e) = refl
Move-shared (Move.stay e) = refl
Move-shared (Move.again e) = refl
Move-shared (Move.see e) = refl
Move-shared (Move.lock e) = refl
Move-shared (Move.still e e') = refl
Move-shared Move.sleep = refl
Move-shared Move.wake = refl
Move-shared (Move.relock e) = refl
Move-shared (Move.resumed e) = refl
Move-shared (Move.ended e) = refl
Move-shared Move.unlock = refl

Flags-locked : (p : Phase) (s : Shared) (l : Bool) → Flags p s → Flags p (record s { locked = l })
Flags-locked Phase.running s l h = h
Flags-locked Phase.pausing s l h = h
Flags-locked Phase.quiet s l h = h
Flags-locked Phase.resuming s l h = h
Flags-locked Phase.stopping s l h = h
Flags-locked Phase.stopped s l h = h

pub Move-Flags :
    (p : Phase) (s s' : Shared) {w w' : Worker} → Move s w s' w' → Flags p s → Flags p s'
Move-Flags p s s' m f = subst (Flags p) (sym (Move-shared m)) (Flags-locked p s s'.locked f)

pub Each-set :
    (P : Worker → Type 0) (ws : List Worker) (i : ℕ) (w : Worker)
    → Each P ws
    → P w
    → Each P (set ws i w)
Each-set P [] i w h q = h
Each-set P (x ∷ ws) zero w h q = (q, h.1)
Each-set P (x ∷ ws) (suc i) w h q = (h.0, Each-set P ws i w h.1 q)

pub Each-get :
    (P : Worker → Type 0) (ws : List Worker) (i : ℕ)
    → i < length ws
    → Each P ws
    → P (get_or ws i fresh)
Each-get P [] i lt h = absurd (omega arith)
Each-get P (x ∷ ws) zero lt h = h.0
Each-get P (x ∷ ws) (suc i) lt h = Each-get P ws i (omega arith) h.1

pub Each-replicate : (P : Worker → Type 0) (n : ℕ) → P fresh → Each P (replicate n fresh)
Each-replicate P zero d = _
Each-replicate P (suc n) d = (d, Each-replicate P n d)

pub Each-map :
    (P Q : Worker → Type 0) (ws : List Worker) → ((w : Worker) → P w → Q w) → Each P ws → Each Q ws
Each-map P Q [] f h = h
Each-map P Q (x ∷ ws) f h = (f x h.0, Each-map P Q ws f h.1)

pub Each-both :
    (P Q : Worker → Type 0) (ws : List Worker) → Each P ws → Each Q ws → Each (λ w. P w × Q w) ws
Each-both P Q [] h k = h
Each-both P Q (x ∷ ws) h k = ((h.0, k.0), Each-both P Q ws h.1 k.1)
