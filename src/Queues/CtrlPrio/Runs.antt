-- ===== src/Queues/CtrlPrio/Runs.antt =====
-- The control-priority queue over a whole run. `drand() < 0.5` is a function of the time.
use frontier_htsim.Prelude.{
  ℕ, zero, suc, ◌+◌, ◌≡◌, ◌⊎◌, inl, inr, refl, Bool, true, false, Bool-cases, List, [], ◌∷◌, none,
  some, sym, ◌∙◌, ap, subst, Outcome, done, aborted, Ensures,
}
use frontier_htsim.Network.{Packet}
use frontier_htsim.Queues.Effects.{Effect, scheduled}
use frontier_htsim.Queues.Utilization.{BaseQueue}
use frontier_htsim.Queues.Port.{
  Discipline, Port, Input, arrives, expires, All, arrivals, settle, fire, step, run,
}
use frontier_htsim.Queues.CtrlPrio.{CtrlPrioQueue, init, reported, receive_packet, complete_service}
use frontier_htsim.Queues.CtrlPrio.Laws.{Inv, full_for, complete_service-Inv}
use frontier_htsim.Queues.CtrlPrio.Arrivals.{Fits, receive_packet-Inv}
use frontier_htsim.Queues.CtrlPrio.Drops.{receive_packet-aborted}

abbrev pub drawing : (ℕ → Bool) → Discipline CtrlPrioQueue
drawing coin = record {
  receive = λ q now p. receive_packet q (coin now) p;
  complete = λ q now. complete_service q;
}

abbrev pub unused : BaseQueue → ℕ → Port CtrlPrioQueue
unused base m = record { queue = init base m; pending = 0; log = [] }

init-Inv : (base : BaseQueue) (m : ℕ) → Inv m (init base m) 0
unfolding init
init-Inv base m =
    (record { limit = refl; low = refl; high = refl; control = tt }, (refl, refl, refl))

abbrev Sound : ℕ → Port CtrlPrioQueue → Type 0
Sound m s = Inv m s.queue s.pending

-- Some packet finds the queue for its priority full, and the code knows no report of its drop.
abbrev pub Unreported : (ℕ → Bool) → Port CtrlPrioQueue → List Input → Type 0
Unreported coin s [] = ⊥
Unreported coin s (arrives now p ∷ is) =
    ((full_for s.queue p.priority p ≡ true) × (reported p.type ≡ false))
    ⊎ ((t : Port CtrlPrioQueue) × (step (drawing coin) s (arrives now p) ≡ some t)
        × Unreported coin t is)
Unreported coin s (expires now ∷ is) =
    (t : Port CtrlPrioQueue) × (step (drawing coin) s (expires now) ≡ some t) × Unreported coin t is

-- The run ends soundly, or it aborts on such a packet.
abbrev pub Comes : (ℕ → Bool) → ℕ → Port CtrlPrioQueue → List Input → Type 0
Comes coin m s is =
    ((t : Port CtrlPrioQueue) × (run (drawing coin) s is ≡ some t) × Inv m t.queue t.pending)
    ⊎ ((run (drawing coin) s is ≡ none) × Unreported coin s is)

settle-Sound :
    (m n : ℕ) (log : List Effect) (o : Outcome Effect CtrlPrioQueue)
    → Ensures (λ q es. Inv m q (n + scheduled es)) o
    → (t : Port CtrlPrioQueue) × (settle n log o ≡ some t) × Sound m t
settle-Sound m n log (done q es) h = (_, refl, h)
settle-Sound m n log aborted h = absurd h

fire-Sound :
    (coin : ℕ → Bool) (m now : ℕ) (s : Port CtrlPrioQueue) (n : ℕ)
    → s.pending ≡ n
    → Sound m s
    → (t : Port CtrlPrioQueue) × (fire (drawing coin) now s n ≡ some t) × Sound m t
fire-Sound coin m now s zero e h = (s, refl, h)
fire-Sound coin m now s (suc n) e h =
    settle-Sound m n s.log (complete_service s.queue)
      (complete_service-Inv m s.queue n (subst (Inv m s.queue) e h))

-- An arrival goes on soundly, or it aborts on such a packet.
arrival-Sound :
    (coin : ℕ → Bool) (m now : ℕ) (p : Packet) (s : Port CtrlPrioQueue)
    → Fits m p
    → Sound m s
    → ((t : Port CtrlPrioQueue) × (step (drawing coin) s (arrives now p) ≡ some t) × Sound m t)
      ⊎ ((step (drawing coin) s (arrives now p) ≡ none)
          × (full_for s.queue p.priority p ≡ true)
          × (reported p.type ≡ false))
unfolding step
arrival-Sound coin m now p s f h = elim (Bool-cases (full_for s.queue p.priority p)) [
  | inl o ↦ elim (Bool-cases (reported p.type)) [
    | inl r ↦ inl (kept (λ q. r))
    | inr r ↦
        inr (ap (settle s.pending s.log) (receive_packet-aborted s.queue (coin now) p o r), o, r)
  ]
  | inr o ↦ inl (kept (λ q. absurd (let c : true ≡ false = sym q ∙ o in cc)))
]
  where
    kept :
        (full_for s.queue p.priority p ≡ true → reported p.type ≡ true)
        → (t : Port CtrlPrioQueue) × (settle s.pending s.log (receive_packet s.queue (coin now) p)
            ≡ some t)
          × Sound m t
    kept r =
        settle-Sound m s.pending s.log (receive_packet s.queue (coin now) p)
          (receive_packet-Inv m s.queue s.pending (coin now) p f r h)

-- A run goes on from its first step.
goes_on :
    (coin : ℕ → Bool) (m : ℕ) (s t : Port CtrlPrioQueue) (i : Input) (is : List Input)
    → step (drawing coin) s i ≡ some t
    → (Unreported coin t is → Unreported coin s (i ∷ is))
    → Comes coin m t is
    → Comes coin m s (i ∷ is)
unfolding run
goes_on coin m s t i is e f (inl (u, g, h)) = inl (u, rw (e, run) g, h)
goes_on coin m s t i is e f (inr (g, h)) = inr (rw (e, run) g, f h)

run-Comes :
    (coin : ℕ → Bool) (m : ℕ) (is : List Input) (s : Port CtrlPrioQueue)
    → All (Fits m) (arrivals is)
    → Sound m s
    → Comes coin m s is
unfolding run step
run-Comes coin m [] s a h = inl (s, refl, h)
run-Comes coin m (arrives now p ∷ is) s a h = elim (arrival-Sound coin m now p s a.0 h) [
  | inl (t, e, k) ↦
      goes_on coin m s t (arrives now p) is e (λ u. inr (t, e, u)) (run-Comes coin m is t a.1 k)
  | inr (e, o, r) ↦ inr (rw (e, run) refl, inl (o, r))
]
run-Comes coin m (expires now ∷ is) s a h =
    let (t, e, k) = fire-Sound coin m now s s.pending refl h in
    goes_on coin m s t (expires now) is e (λ u. (t, e, u)) (run-Comes coin m is t a k)

-- Packets arrive at a new control-priority queue of some size, with events between them, whichever
-- way the draws fall. Each packet is within that size, of high or low priority, and, if it is of
-- high priority, of a type that the service of the high queue counts. Either nothing aborts, and
-- then both sizes count the bytes that are held, and one event is pending while there are packets,
-- for the queue that `_serv` names, and none otherwise; or the run aborts, and one of the packets
-- finds the queue for its priority full and is of a type whose drop the code cannot report.
pub run-unused :
    (coin : ℕ → Bool) (base : BaseQueue) (m : ℕ) (is : List Input)
    → All (Fits m) (arrivals is)
    → Comes coin m (unused base m) is
run-unused coin base m is a = run-Comes coin m is (unused base m) a (init-Inv base m)
