-- ===== src/Queues/Lossless/Runs.antt =====
-- The lossless queue over a whole run.
use mathlib.Core.List.{Sublist}
use mathlib.Core.List.Sublist
use frontier_htsim.Prelude.{
  ℕ, suc, ◌+◌, ◌≡◌, refl, ap, ◌∙◌, sym, subst, false, List, [], ◌∷◌, ◌++◌, some, arith,
  if◌then◌else◌, Ensures, Ensures-both, Ensures-mono, length, Bool-cases, inl, inr,
}
use frontier_htsim.Fifo
use frontier_htsim.Network.{Packet}
use frontier_htsim.Queues.Effects.{Effect, scheduled, departed}
use frontier_htsim.Queues.Utilization.{BaseQueue}
use frontier_htsim.Queues.Pause.{
  is_pause, payload, payload-push_pause, payload-push_data, told, told-append,
}
use frontier_htsim.Queues.History.{IsHistory, IsHistory-arrival, IsHistory-service, IsHistory-idle}
use frontier_htsim.Queues.Port.{Port, Input, Lawful, All, arrivals, run, run-Inv}
use frontier_htsim.Queues.Lossless.{
  LosslessQueue, init, init_thresholds, receive_packet, complete_service, discipline,
}
use frontier_htsim.Queues.Lossless.Laws.{Inv, receive_packet-Inv, complete_service-Inv}

-- A PAUSE frame changes neither what is held nor what the senders were told; any other packet is put
-- behind the packets that are held, and the senders are told what the queue notes down.
receive_packet_lem :
    (q : LosslessQueue) (n : ℕ) (xs : List Packet) (p : Packet)
    → q.queue.enqueued ≡ xs
    → Inv q n
    → Ensures
        (λ q' es.
          (departed es ≡ [])
          × (q'.queue.enqueued
              ≡ (if is_pause p then q.queue.enqueued else Fifo.push q.queue.enqueued p))
          × (told q.pausing es ≡ q'.pausing))
        (receive_packet q p)
unfolding receive_packet
receive_packet_lem q n [] p e v = ground arith
receive_packet_lem q n (x ∷ xs) p e v = ground arith

-- A service sends the oldest packet, and tells the senders what the queue notes down.
complete_service_lem :
    (q : LosslessQueue) (n : ℕ) (x : Packet) (xs : List Packet)
    → q.queue.enqueued ≡ x ∷ xs
    → Inv q (suc n)
    → Ensures
        (λ q' es.
          (q'.queue.enqueued ≡ xs) × (departed es ≡ x ∷ []) × (told q.pausing es ≡ q'.pausing))
        (complete_service q)
unfolding complete_service
complete_service_lem q n x [] e v = ground arith
complete_service_lem q n x (y ∷ xs) e v = ground arith

-- An event is pending only while there is a packet to send.
oldest :
    (q : LosslessQueue) (n : ℕ) (held : List Packet)
    → q.queue.enqueued ≡ held
    → Inv q (suc n)
    → (x : Packet) × (xs : List Packet) × (q.queue.enqueued ≡ x ∷ xs)
oldest q n [] e v = ground arith
oldest q n (x ∷ xs) e v = (x, xs, e)

-- What holds of a queue after `log` and the arrivals `ps`.
abbrev pub Holds : LosslessQueue → ℕ → List Effect → List Packet → Type 0
Holds q n log ps =
    Inv q n × IsHistory q.queue.enqueued 0 log (payload ps) × (told false log ≡ q.pausing)

told_next :
    (q q' : LosslessQueue) (log es : List Effect)
    → told false log ≡ q.pausing
    → told q.pausing es ≡ q'.pausing
    → told false (log ++ es) ≡ q'.pausing
told_next q q' log es h k = told-append false log es ∙ ap (λ b. told b es) h ∙ k

IsHistory-next :
    (q q' : LosslessQueue) (log es : List Effect) (ps : List Packet) (p : Packet)
    → IsHistory q.queue.enqueued 0 log (payload ps)
    → departed es ≡ []
    → q'.queue.enqueued ≡ (if is_pause p then q.queue.enqueued else Fifo.push q.queue.enqueued p)
    → IsHistory q'.queue.enqueued 0 (log ++ es) (payload (ps ++ p ∷ []))
IsHistory-next q q' log es ps p h sent e = elim (Bool-cases (is_pause p)) [
  | inl y ↦ subst (IsHistory q'.queue.enqueued 0 (log ++ es)) (sym (payload-push_pause ps p y)) (
      IsHistory-idle q.queue.enqueued q'.queue.enqueued 0 log es (payload ps) h sent
        (e ∙ ap (λ b. if b then q.queue.enqueued else Fifo.push q.queue.enqueued p) y))
  | inr y ↦ subst (IsHistory q'.queue.enqueued 0 (log ++ es)) (sym (payload-push_data ps p y)) (
      IsHistory-arrival p q.queue.enqueued q'.queue.enqueued 0 0 log es (payload ps) h (
        sent,
        inl (e ∙ ap (λ b. if b then q.queue.enqueued else Fifo.push q.queue.enqueued p) y, refl),
      ))
]

receive_packet-Holds :
    (q : LosslessQueue) (n : ℕ) (log : List Effect) (ps : List Packet) (p : Packet)
    → Holds q n log ps
    → Ensures (λ q' es. Holds q' (n + scheduled es) (log ++ es) (ps ++ p ∷ [])) (receive_packet q p)
receive_packet-Holds q n log ps p (v, h, t) =
    Ensures-mono _ _ (receive_packet q p)
      (λ q' es k.
        (k.0, IsHistory-next q q' log es ps p h k.1.0 k.1.1, told_next q q' log es t k.1.2))
      (Ensures-both _ _ (receive_packet q p) (receive_packet-Inv q n q.queue.enqueued p refl v)
        (receive_packet_lem q n q.queue.enqueued p refl v))

complete_service-Holds :
    (q : LosslessQueue) (n : ℕ) (log : List Effect) (ps : List Packet)
    → Holds q (suc n) log ps
    → Ensures (λ q' es. Holds q' (n + scheduled es) (log ++ es) ps) (complete_service q)
complete_service-Holds q n log ps (v, h, t) =
    let (x, xs, e) = oldest q n q.queue.enqueued refl v in
    Ensures-mono _ _ (complete_service q)
      (λ q' es k. (
        k.0,
        IsHistory-service q.queue.enqueued q'.queue.enqueued 0 0 log es (payload ps) h
            (x, e ∙ ap (◌∷◌ x) (sym k.1.0), k.1.1, refl),
        told_next q q' log es t k.1.2,
      ))
      (Ensures-both _ _ (complete_service q) (complete_service-Inv q n q.queue.enqueued refl v)
        (complete_service_lem q n x xs e v))

lawful : Lawful discipline
unfolding discipline
lawful = record {
  Inv = Holds;
  Admits = λ p. Unit {0};
  receive-Inv = λ q n log ps now p v a. receive_packet-Holds q n log ps p v;
  complete-Inv = λ q n log ps now v. complete_service-Holds q n log ps v;
}

everyone : (ps : List Packet) → All (λ p. Unit {0}) ps
everyone [] = tt
everyone (p ∷ ps) = (tt, everyone ps)

abbrev pub start : LosslessQueue → Port LosslessQueue
start q = record { queue = q; pending = 0; log = [] }

start-Holds :
    (base : BaseQueue) (maxsize ports packet_size : ℕ) (q : LosslessQueue)
    → init_thresholds (init base maxsize) ports packet_size ≡ some q
    → Inv q 0 × (q.queue.enqueued ≡ []) × (q.pausing ≡ false)
unfolding init_thresholds init
start-Holds base maxsize ports packet_size q h = ground arith

-- From an empty queue with the thresholds of `initThresholds` no sequence of packets, PAUSE frames and
-- events fails an assertion. After it one event is pending exactly while a packet is being sent, a
-- packet is being sent whenever the queue is ready and holds one, and none is while the queue is
-- paused; no packet was dropped, and all leave in the order of arrival; and the previous hop was last
-- told to pause exactly if the queue notes so, as it does whenever it holds more than the high
-- threshold, and only while it holds at least the low one.
pub run-start :
    (base : BaseQueue) (maxsize ports packet_size : ℕ) (q : LosslessQueue) (is : List Input)
    → init_thresholds (init base maxsize) ports packet_size ≡ some q
    → (s : Port LosslessQueue) × (run discipline (start q) is ≡ some s)
      × Holds s.queue s.pending s.log (arrivals is)
unfolding lawful payload
run-start base maxsize ports packet_size q is h =
    let (v, e, b) = start-Holds base maxsize ports packet_size q h in
    run-Inv discipline lawful (start q) [] is
      (
        v,
        record {
          accounted = omega (arith, ap length e);
          in_order = subst (λ xs. Sublist xs []) (sym e) (Sublist.refl []);
        },
        sym b,
      )
      (everyone (arrivals is))
