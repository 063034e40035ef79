-- ===== src/Eqds/Pacer/Runs.antt =====
-- The pacer and its sinks over a whole run: packets arrive, and the pacer's events come.
use frontier_htsim.Prelude.{
  ℕ, zero, suc, ◌+◌, ◌<◌, ◌≡◌, refl, ap, ◌∙◌, List, [], ◌∷◌, Option, none, some, Outcome, done,
  aborted, ◌>>=◌, Ensures,
}
use frontier_htsim.Eqds.Pulls
use frontier_htsim.Eqds.Pulls.{PullState, handle_pull_target, retransmit, rts}
use frontier_htsim.Eqds.Pacer.{PacerEffect, Pulling, init, is_in, sink_asks, do_next_event}
use frontier_htsim.Eqds.Pacer.Laws.{
  scheduled, Inv, handle_pull_target-Asks, retransmit-Asks, rts-Asks,
}
use frontier_htsim.Eqds.Pacer.Requests.{sink_asks-Inv}
use frontier_htsim.Eqds.Pacer.Turns.{do_next_event-Inv}

-- A packet of data with its pull target, one that was trimmed with also the quanta of an MTU, or an RTS
-- with also its backlog, arrives at a sink; or the pacer's event comes, if one is pending.
pub data PullInput : Type 0 where
  gets_data : ℕ → ℕ → PullInput
  gets_trimmed gets_rts : ℕ → ℕ → ℕ → PullInput
  fires : PullInput

abbrev handle : Pulling → PullInput → Outcome PacerEffect Pulling
handle w (gets_data i pt) = sink_asks w i (handle_pull_target (w.sinks i) pt)
handle w (gets_trimmed i pt quanta) =
    sink_asks w i (handle_pull_target (w.sinks i) pt >>= (λ s. retransmit s quanta))
handle w (gets_rts i pt backlog) = sink_asks w i (rts (w.sinks i) pt backlog)
handle w fires = do_next_event w

-- The events that are left when the input has been taken.
abbrev left : PullInput → ℕ → Option ℕ
left (gets_data i pt) n = some n
left (gets_trimmed i pt quanta) n = some n
left (gets_rts i pt backlog) n = some n
left fires zero = none
left fires (suc n) = some n

abbrev go_on : ℕ → Outcome PacerEffect Pulling → Option (Pulling × ℕ)
go_on n (done w es) = some (w, n + scheduled es)
go_on n aborted = none

-- What is left of the events; where none is pending none comes.
abbrev take : Pulling → ℕ → PullInput → Option ℕ → Option (Pulling × ℕ)
take w n i none = some (w, n)
take w n i (some n') = go_on n' (handle w i)

abbrev follow : (Pulling × ℕ → Option (Pulling × ℕ)) → Option (Pulling × ℕ) → Option (Pulling × ℕ)
follow f none = none
follow f (some q) = f q

-- The state and the number of pending events; `none` is a failed assertion.
pub run : Pulling × ℕ → List PullInput → Option (Pulling × ℕ)
run q [] = some q
run q (i ∷ is) = follow (λ r. run r is) (take q.0 q.1 i (left i q.1))

-- No packet asks for nothing to be sent again.
abbrev pub Positive : List PullInput → Type 0
Positive [] = Unit {0}
Positive (gets_data i pt ∷ is) = Positive is
Positive (gets_trimmed i pt quanta ∷ is) = (0 < quanta) × Positive is
Positive (gets_rts i pt backlog ∷ is) = (0 < backlog) × Positive is
Positive (fires ∷ is) = Positive is

abbrev pub quiet : ℕ → ℕ → (ℕ → ℕ) → Pulling
quiet pkt_time credit_per_pull max_cwnd = record {
  pacer = init pkt_time;
  sinks = λ i. Pulls.init;
  credit_per_pull = credit_per_pull;
  max_cwnd = max_cwnd;
}

quiet-Inv : (t c : ℕ) (m : ℕ → ℕ) → Inv (quiet t c m).pacer (quiet t c m).sinks 0
unfolding init Pulls.init is_in
quiet-Inv t c m = record {
  pulling = λ i. refl;
  retransmitting = λ i. refl;
  distinct_active = tt;
  distinct_rtx = tt;
  awake = refl;
  asleep = λ q. (refl, refl, refl);
}

abbrev Holds : Pulling × ℕ → Type 0
Holds q = Inv q.0.pacer q.0.sinks q.1

go_on-Holds :
    (n : ℕ) (m : Outcome PacerEffect Pulling)
    → Ensures (λ w es. Holds (w, n + scheduled es)) m
    → (q : Pulling × ℕ) × (go_on n m ≡ some q) × Holds q
go_on-Holds n (done w es) v = ((w, n + scheduled es), refl, v)
go_on-Holds n aborted v = absurd v

abbrev Admits : PullInput → Type 0
Admits i = Positive (i ∷ [])

take-Holds :
    (i : PullInput) (w : Pulling) (n : ℕ)
    → Admits i
    → Holds (w, n)
    → (q : Pulling × ℕ) × (take w n i (left i n) ≡ some q) × Holds q
take-Holds (gets_data i pt) w n p v =
    go_on-Holds n _ (sink_asks-Inv w n i _ (handle_pull_target-Asks (w.sinks i) pt) v)
take-Holds (gets_trimmed i pt quanta) w n p v =
    go_on-Holds n _ (sink_asks-Inv w n i _ (retransmit-Asks (w.sinks i) pt quanta p.0) v)
take-Holds (gets_rts i pt backlog) w n p v =
    go_on-Holds n _ (sink_asks-Inv w n i _ (rts-Asks (w.sinks i) pt backlog p.0) v)
take-Holds fires w zero p v = ((w, zero), refl, v)
take-Holds fires w (suc n) p v = go_on-Holds n _ (do_next_event-Inv w n v)

first_and_rest : (i : PullInput) (is : List PullInput) → Positive (i ∷ is) → Admits i × Positive is
first_and_rest (gets_data i pt) is p = (tt, p)
first_and_rest (gets_trimmed i pt quanta) is p = ((p.0, tt), p.1)
first_and_rest (gets_rts i pt backlog) is p = ((p.0, tt), p.1)
first_and_rest fires is p = (tt, p)

run-Holds :
    (is : List PullInput) (q : Pulling × ℕ)
    → Positive is
    → Holds q
    → (r : Pulling × ℕ) × (run q is ≡ some r) × Holds r
unfolding run
run-Holds [] q p v = (q, refl, v)
run-Holds (i ∷ is) q p v =
    let (a, b) = first_and_rest i is p in
    let (t, e, u) = take-Holds i q.0 q.1 a v in
    let (r, f, h) = run-Holds is t b u in (r, ap (follow (λ s. run s is)) e ∙ f, h)

-- A pacer is idle, and its sinks are new. Packets of data, trimmed ones and RTS arrive at the sinks
-- in any order, with the events that the pacer has asked for between them, where each trimmed packet
-- and each RTS asks for more than nothing. No assertion fails and nothing aborts. After it each sink
-- is in the list of active senders exactly if it notes so, and in the one of retransmissions exactly
-- if it has some to ask for, at most once in each; one event is pending while the pacer is active
-- and none otherwise; and while it is not active no sink waits.
pub run-quiet :
    (pkt_time credit_per_pull : ℕ) (max_cwnd : ℕ → ℕ) (is : List PullInput)
    → Positive is
    → (q : Pulling × ℕ) × (run (quiet pkt_time credit_per_pull max_cwnd, 0) is ≡ some q)
      × Inv q.0.pacer q.0.sinks q.1
run-quiet t c m is p = run-Holds is (quiet t c m, 0) p (quiet-Inv t c m)
