-- ===== src/Eqds/Pacer.antt =====
-- `EqdsPullPacer` of sim/eqds.h and sim/eqds.cpp with the sinks that it serves, which are named by
-- numbers.
pub mod Laws
pub mod Requests
pub mod Turns
pub mod Runs
use frontier_htsim.Prelude.{
  ℕ, zero, suc, ◌+◌, ◌-◌, Bool, true, false, not, ◌&&◌, ◌||◌, List, [], ◌∷◌, ◌++◌, Option, none,
  some, ltb, ◌==◌, if◌then◌else◌, Outcome, done, aborted, ◌>>=◌, ◌>>◌, emit, assert, return,
}
use frontier_htsim.Eqds.Packets.{EqdsPullPacket, quantize_floor}
use frontier_htsim.Eqds.Pulls.{
  PullState, Request, requests_pull, requests_retransmit, handle_pull_target, retransmit, rts, pull,
  backlog, slow_credit, remove_from_pull_queue, add_to_slow_pull_queue, remove_from_slow_pull_queue,
}

pub record EqdsPullPacer : Type 0 where
  pub rtx_senders : List ℕ
  pub active_senders : List ℕ
  pub idle_senders : List ℕ
  pub pkt_time : ℕ
  pub active : Bool

unfoldable pub init : ℕ → EqdsPullPacer
init pkt_time = record {
  rtx_senders = [];
  active_senders = [];
  idle_senders = [];
  pkt_time = pkt_time;
  active = false;
}

-- `pends` is `sourceIsPendingRel`, and `sends_pull` the `sendControlPacket` of a sink's NIC.
pub data PacerEffect : Type 0 where
  pends : ℕ → PacerEffect
  sends_pull : ℕ → EqdsPullPacket → PacerEffect

-- `isActive`, `isRetransmitting` and `isIdle` of a list of senders.
unfoldable pub is_in : ℕ → List ℕ → Bool
is_in sink [] = false
is_in sink (x ∷ xs) = x == sink || is_in sink xs

-- The end of `requestPull` and of `requestRetransmit`.
unfoldable pub wake : EqdsPullPacer → Outcome PacerEffect EqdsPullPacer
wake p = if not p.active then (do emit (pends 0); return (record p { active = true })) else return p

unfoldable pub request_pull : EqdsPullPacer → PullState → ℕ → Outcome PacerEffect EqdsPullPacer
unfolding is_in wake
request_pull p s sink =
    if is_in sink p.active_senders
    then aborted
    else (do assert s.in_pull; wake (record p { active_senders = p.active_senders ++ sink ∷ [] }))

unfoldable pub request_retransmit : EqdsPullPacer → ℕ → Outcome PacerEffect EqdsPullPacer
unfolding is_in wake
request_retransmit p sink = do
  assert (not (is_in sink p.rtx_senders))
  wake (record p { rtx_senders = p.rtx_senders ++ sink ∷ [] })

-- The calls that a sink has made.
unfoldable pub answer_requests :
    ℕ → PullState → List Request → EqdsPullPacer → Outcome PacerEffect EqdsPullPacer
unfolding request_pull request_retransmit
answer_requests sink s [] p = return p
answer_requests sink s (requests_pull ∷ rs) p = do
  p' ← request_pull p s sink
  answer_requests sink s rs p'
answer_requests sink s (requests_retransmit ∷ rs) p = do
  p' ← request_retransmit p sink
  answer_requests sink s rs p'

abbrev pub update {ℓ} : {A : Type ℓ} → (ℕ → A) → ℕ → A → ℕ → A
update f i a j = if j == i then a else f j

-- The pacer and its sinks; `max_cwnd` is `getMaxCwnd` of a sink.
pub record Pulling : Type 0 where
  pub pacer : EqdsPullPacer
  pub sinks : ℕ → PullState
  pub credit_per_pull : ℕ
  pub max_cwnd : ℕ → ℕ

-- The end of `doNextEvent`: a sink's credit is on its way.
unfoldable pub send_pull :
    Pulling → ℕ → PullState → Bool → EqdsPullPacer → Outcome PacerEffect Pulling
send_pull w sink s slow p = do
  emit (sends_pull sink (record { pullno = s.latest_pull; slow_pull = slow }))
  emit (pends p.pkt_time)
  return (record w { pacer = record p { active = true }; sinks = update w.sinks sink s })

-- The branch for a sink that waits for retransmissions.
unfoldable pub serve_rtx : Pulling → ℕ → List ℕ → Outcome PacerEffect Pulling
unfolding send_pull
serve_rtx w sink rest =
    let s = pull (w.sinks sink) w.credit_per_pull in
    send_pull w sink s false
      (record w.pacer { rtx_senders = if ltb 0 s.retx_backlog then rest ++ sink ∷ [] else rest })

-- The branch for a sink that waits for pulls.
unfoldable pub serve_active : Pulling → ℕ → List ℕ → Outcome PacerEffect Pulling
unfolding send_pull remove_from_pull_queue add_to_slow_pull_queue
serve_active w sink rest = do
  assert (w.sinks sink).in_pull
  let s = pull (w.sinks sink) w.credit_per_pull
  if ltb 0 (backlog s)
      then send_pull w sink s false (record w.pacer { active_senders = rest ++ sink ∷ [] })
      else send_pull w sink (add_to_slow_pull_queue (remove_from_pull_queue s)) false
          (record w.pacer {
            active_senders = rest;
            idle_senders = w.pacer.idle_senders ++ sink ∷ [];
          })

-- The branch for a sink that asks for nothing.
unfoldable pub serve_idle : Pulling → ℕ → List ℕ → Outcome PacerEffect Pulling
unfolding send_pull add_to_slow_pull_queue remove_from_slow_pull_queue
serve_idle w sink rest =
    let before = w.sinks sink in
    let slow = if not before.in_slow_pull then add_to_slow_pull_queue before else before in
    let s = pull slow w.credit_per_pull in
    if backlog s == 0 && ltb (slow_credit s) (quantize_floor (w.max_cwnd sink))
    then send_pull w sink s true (record w.pacer { idle_senders = rest ++ sink ∷ [] })
    else send_pull w sink (remove_from_slow_pull_queue s) true
        (record w.pacer { idle_senders = rest })

-- `doNextEvent` for the three lists.
unfoldable pub serve : Pulling → List ℕ → List ℕ → List ℕ → Outcome PacerEffect Pulling
unfolding serve_rtx serve_active serve_idle
serve w [] [] [] = return (record w { pacer = record w.pacer { active = false } })
serve w (sink ∷ rest) active idle = serve_rtx w sink rest
serve w [] (sink ∷ rest) idle = serve_active w sink rest
serve w [] [] (sink ∷ rest) = serve_idle w sink rest

unfoldable pub do_next_event : Pulling → Outcome PacerEffect Pulling
unfolding serve
do_next_event w = serve w w.pacer.rtx_senders w.pacer.active_senders w.pacer.idle_senders

-- A sink's handler, and then the pacer's for what it asks.
unfoldable pub sink_asks : Pulling → ℕ → Outcome Request PullState → Outcome PacerEffect Pulling
unfolding answer_requests
sink_asks w sink aborted = aborted
sink_asks w sink (done s rs) = do
  p ← answer_requests sink s rs w.pacer
  return (record w { pacer = p; sinks = update w.sinks sink s })
