-- ===== src/Queues/Ecn/Resume.antt =====
-- A PAUSE frame and the frame that ends it, both while a packet is being sent.
use frontier_htsim.Prelude.{
  ℕ, suc, ◌+◌, ◌<◌, ◌≡◌, refl, true, List, [], ◌∷◌, ◌++◌, none, some, arith, length, replicate,
  done, if◌then◌else◌, Ensures, Ensures-done, Ensures, Ensures-done,
}
use frontier_htsim.Fifo
use frontier_htsim.Network.{Packet}
use frontier_htsim.Queues.Effects.{Effect, scheduled, pends, frees}
use frontier_htsim.Queues.Utilization.{drain_time}
use frontier_htsim.Queues.Pause.{ready, pause_received, is_pause}
use frontier_htsim.Queues.Port.{Port, arrives, expires, step, run}
use frontier_htsim.Queues.Ecn.{EcnQueue, discipline, receive_packet, complete_service}

-- The holder of `xs`, ready to send, with `n` events pending.
abbrev Sending : Port EcnQueue → List Packet → ℕ → Type 0
Sending s xs n = (s.queue.queue.enqueued ≡ xs) × (s.queue.state_send ≡ ready) × (s.pending ≡ n)

complete_service-Sending :
    (q : EcnQueue) (x : Packet) (xs : List Packet)
    → q.queue.enqueued ≡ x ∷ xs
    → q.state_send ≡ ready
    → Ensures
        (λ q' es.
          (q'.queue.enqueued ≡ xs)
          × (q'.state_send ≡ ready)
          × (scheduled es ≡ (if Fifo.empty xs then 0 else 1)))
        (complete_service q)
unfolding complete_service
complete_service-Sending q x [] e r = ground arith
complete_service-Sending q x (y ∷ xs) e r = ground arith

expires-Sending :
    (now m : ℕ) (s : Port EcnQueue) (x : Packet) (xs : List Packet)
    → Sending s (x ∷ xs) (suc m)
    → (s' : Port EcnQueue) × (step discipline s (expires now) ≡ some s')
      × Sending s' xs (m + (if Fifo.empty xs then 0 else 1))
unfolding step discipline
expires-Sending now m s x xs h =
    let (q', es, p, (e, r, n)) =
      Ensures-done _ (complete_service s.queue) (complete_service-Sending s.queue x xs h.0 h.1) in
    (
      record { queue = q'; pending = m + scheduled es; log = s.log ++ es },
      rw h.2 (rw p),
      (e, r, rw n),
    )

expires_empty :
    (now m : ℕ) (s : Port EcnQueue) → Sending s [] (suc m) → step discipline s (expires now) ≡ none
unfolding step discipline complete_service
expires_empty now m s h = ground arith

-- The events of a queue that is sending with one event too many: when the packets run out, the event
-- that is left finds an empty buffer.
drain_aborts :
    (now m : ℕ) (s : Port EcnQueue) (xs : List Packet)
    → Sending s xs (suc (m + (if Fifo.empty xs then 0 else 1)))
    → run discipline s (replicate (suc (length xs)) (expires now)) ≡ none
unfolding run
drain_aborts now m s [] h = rw (expires_empty now m s (h.0, h.1, omega arith), run)
drain_aborts now m s (x ∷ xs) h =
    let (s', e, h') = expires-Sending now (suc m) s x xs (h.0, h.1, omega arith) in
    rw (e, run) (drain_aborts now m s' xs (h'.0, h'.1, omega arith))

stop_lem :
    (q : EcnQueue) (stop : Packet)
    → 0 < q.queue.queuesize
    → is_pause stop ≡ true
    → 0 < stop.sleep_time
    → receive_packet q stop ≡ done (record q { state_send = pause_received }) (frees stop ∷ [])
unfolding receive_packet
stop_lem q stop b hs ts = ground arith

go_lem :
    (q : EcnQueue) (x : Packet) (xs : List Packet) (go : Packet)
    → q.queue.enqueued ≡ x ∷ xs
    → 0 < q.queue.queuesize
    → is_pause go ≡ true
    → go.sleep_time ≡ 0
    → receive_packet q go
      ≡ done (record q { state_send = ready }) (pends (drain_time q.queue.base x) ∷ frees go ∷ [])
unfolding receive_packet
go_lem q x xs go e b hg tg = ground arith

-- A queue is ready and sends the oldest of its packets, with one event pending. It gets a PAUSE
-- frame and then the frame that ends it, before that packet has left. If nothing else arrives, then
-- by one event more than it holds packets the program has aborted.
pub resume_aborts :
    (now : ℕ) (q : EcnQueue) (x : Packet) (xs : List Packet) (stop go : Packet) (log : List Effect)
    → q.queue.enqueued ≡ x ∷ xs
    → 0 < q.queue.queuesize
    → q.state_send ≡ ready
    → is_pause stop ≡ true
    → 0 < stop.sleep_time
    → is_pause go ≡ true
    → go.sleep_time ≡ 0
    → run discipline
        (record { queue = q; pending = 1; log = log })
        (arrives now stop ∷ arrives now go ∷ replicate (suc (suc (length xs))) (expires now))
      ≡ none
unfolding run discipline
resume_aborts now q x xs stop go log e b r hs ts hg tg =
    rw (stop_lem q stop b hs ts, run)
      (rw (go_lem (record q { state_send = pause_received }) x xs go e b hg tg, run)
        (drain_aborts now 0 _ (x ∷ xs) (e, refl, refl)))
