-- ===== src/Queues/LosslessOutput/Runs.antt =====
-- The egress queue over a whole run.
use frontier_htsim.Prelude.{
  ℕ, suc, ◌+◌, ◌<◌, ◌≡◌, refl, false, true, List, [], ◌∷◌, some, none, arith, length, inl, inr,
  Ensures, Ensures-mono, Ensures-after, ◌⊎◌, Bool,
}
use frontier_htsim.Network.{Packet}
use frontier_htsim.Queues.Effects.{scheduled}
use frontier_htsim.Queues.Utilization.{BaseQueue}
use frontier_htsim.Queues.Utilization.Paired.{IsPaired}
use frontier_htsim.Queues.Pause.{is_pause}
use frontier_htsim.Queues.Port.{Discipline, Port, Input, Lawful, All, arrivals, run, run-Inv}
use frontier_htsim.Queues.LosslessOutput.{
  LosslessOutputQueue, init, receive_packet, receive_packet_from, receive_pause, receive_data,
  complete_service,
}
use frontier_htsim.Queues.LosslessOutput.Laws.{
  Inv, receive_pause-egress, receive_data-egress, complete_service-egress,
}

abbrev pub discipline : Discipline LosslessOutputQueue
discipline = record { receive = λ q now p. receive_packet q p; complete = complete_service }

-- A PAUSE frame, or a packet from an ingress queue, with room for telemetry.
abbrev pub Forwarded : Packet → Type 0
Forwarded p =
    (is_pause p ≡ true)
    ⊎ ((is_pause p ≡ false) × (v : ℕ) × (p.ingressqueue ≡ some v) × (length p.int_info < 5))

receive_packet-egress :
    (q : LosslessOutputQueue) (n : ℕ) (p : Packet)
    → Inv q n
    → Forwarded p
    → Ensures (λ q' es. Inv q' (n + scheduled es)) (receive_packet q p)
unfolding receive_packet receive_packet_from
receive_packet-egress q n p h (inl y) = simp y (
    Ensures-mono _ _ (receive_pause q p) (λ q' es k. k.0)
      (receive_pause-egress q n q.queue.enqueued p refl h))
receive_packet-egress q n p h (inr (y, v, e, r)) =
    let p' = record p { ingressqueue = none } in
    simp (y, e)
      (Ensures-after (λ q' es. Inv q' (n + scheduled es)) [] (receive_data q p' (some v))
        (Ensures-mono _ _ (receive_data q p' (some v)) (λ q' es k. k.0)
          (receive_data-egress q n q.queue.enqueued p' v refl r h)))

service :
    (q : LosslessOutputQueue) (n now : ℕ) (xs : List Packet) (vs : List ℕ)
    → q.queue.enqueued ≡ xs
    → q.vq ≡ vs
    → Inv q (suc n)
    → Ensures (λ q' es. Inv q' (n + scheduled es)) (complete_service q now)
service q n now [] vs e f h = absurd (ground arith)
service q n now (x ∷ xs) [] e f h = absurd (ground arith)
service q n now (x ∷ xs) (v ∷ vs) e f h =
    Ensures-mono _ _ (complete_service q now) (λ q' es k. k.0)
      (complete_service-egress q n now x xs v vs e f h)

lawful : Lawful discipline
lawful = record {
  Inv = λ q n log ps. Inv q n;
  Admits = Forwarded;
  receive-Inv = λ q n log ps now p v a. receive_packet-egress q n p v a;
  complete-Inv = λ q n log ps now v. service q n now q.queue.enqueued q.vq refl refl v;
}

abbrev pub idle_port : LosslessOutputQueue → Port LosslessOutputQueue
idle_port q = record { queue = q; pending = 0; log = [] }

init-Inv :
    (base : BaseQueue) (bitrate maxsize : ℕ) (ecn : Bool) (k : ℕ)
    → IsPaired base
    → Inv (init base bitrate maxsize ecn k) 0
unfolding init
init-Inv base bitrate maxsize ecn k h = ground arith

-- From a new egress queue, whose two buffers of busy times are as long as one another, no sequence of
-- events, PAUSE frames and packets that come from an ingress queue with room for telemetry fails an
-- assertion. After it the queue counts its bytes and has an ingress queue for each packet; one event is
-- pending exactly while it sends, it sends whenever it is ready and holds packets, and never while it is
-- paused.
pub run-idle_port :
    (base : BaseQueue) (bitrate maxsize : ℕ) (ecn : Bool) (k : ℕ) (is : List Input)
    → IsPaired base
    → All Forwarded (arrivals is)
    → (s : Port LosslessOutputQueue) × (run discipline
          (idle_port (init base bitrate maxsize ecn k))
          is
        ≡ some s)
      × Inv s.queue s.pending
unfolding lawful
run-idle_port base bitrate maxsize ecn k is h a =
    run-Inv discipline lawful (idle_port (init base bitrate maxsize ecn k)) [] is
      (init-Inv base bitrate maxsize ecn k h) a
