-- ===== src/Queues/Priority/Pauses.antt =====
-- PAUSE frames at the host's priority queue.
use frontier_htsim.Prelude.{ℕ, ◌<◌, ◌≡◌, refl, List, [], ◌∷◌, ◌++◌, arith, Ensures, Ensures-bind}
use frontier_htsim.Network.{Packet}
use frontier_htsim.Queues.Effects.{scheduled, scheduled-append, frees}
use frontier_htsim.Queues.Pause.{paused, ready}
use frontier_htsim.Queues.Priority.{
  PriorityQueue, receive_pause, obey_pause, begin_service, serve, relay, queuesize,
}

relay_lem : (is : List ℕ) (t s : ℕ) → Ensures (λ u es. scheduled es ≡ 0) (relay is t s)
unfolding relay
relay_lem [] t s = refl
relay_lem (i ∷ is) t s = ground (arith, relay_lem is t s)

obeyed :
    (q : PriorityQueue) (p : Packet) (x : Packet) (xs : List Packet)
    → q.state_send ≡ paused
    → q.hi.held ≡ x ∷ xs
    → 0 < q.hi.size
    → Ensures (λ q' es. (q'.state_send ≡ ready) × (scheduled es ≡ 1)) (obey_pause q p)
unfolding obey_pause begin_service serve queuesize
obeyed q p x xs e f h = ground arith

-- A host's queue is paused and holds a packet of high priority, not all of size 0. A frame that
-- arrives then, whatever its sleep time, leaves the queue ready, with an event scheduled: a second
-- PAUSE frame ends the pause.
pub second_pause_resumes :
    (q : PriorityQueue) (p : Packet) (x : Packet) (xs : List Packet)
    → q.state_send ≡ paused
    → q.hi.held ≡ x ∷ xs
    → 0 < q.hi.size
    → Ensures (λ q' es. (q'.state_send ≡ ready) × (scheduled es ≡ 1)) (receive_pause q p)
unfolding receive_pause
second_pause_resumes q p x xs e f h =
    Ensures-bind _ _ (obey_pause q p) _ (obeyed q p x xs e f h) (λ q' es k.
      Ensures-bind _ _ (relay q'.senders p.sleep_time p.sender_id) _
        (relay_lem q'.senders p.sleep_time p.sender_id)
        (λ u fs r. (
          k.0,
          omega (
            arith,
            scheduled-append es (fs ++ frees p ∷ []),
            scheduled-append fs (frees p ∷ []),
            r,
            k.1,
          ),
        )))
