-- ===== src/Queues/DropTail/Laws.antt =====
-- The drop-tail queue: its size, its service and its drops.
use mathlib.Core.List.Sublist
use frontier_htsim.Prelude.{
  ℕ, suc, ◌+◌, ◌≤◌, ◌≡◌, refl, List, [], ◌∷◌, some, arith, if◌then◌else◌, Ensures, Ensures-both,
  Ensures-mono,
}
use frontier_htsim.Fifo
use frontier_htsim.Network.{Packet}
use frontier_htsim.Queues.Effects.{scheduled, bytes, bytes-append}
use frontier_htsim.Queues.Utilization.{BaseQueue, drain_time}
use frontier_htsim.Queues.Utilization.Paired.{IsPaired, log_packet_send_total}
use frontier_htsim.Queues.Port.{Lawful, Port, Input, run, run-Inv, All, arrivals}
use frontier_htsim.Queues.History.{Accepts, Serves, IsHistory, IsHistory-arrival, IsHistory-service}
use frontier_htsim.Queues.DropTail.{Queue, init, receive_packet, complete_service, discipline}

-- With `n` events pending: one while there are packets, and none otherwise.
pub record Inv (q : Queue) (n : ℕ) : Type 0 where
  pub counted : q.queuesize ≡ bytes q.enqueued
  pub bounded : q.queuesize ≤ q.maxsize
  pub paired : IsPaired q.base
  pub served : n ≡ (if Fifo.empty q.enqueued then 0 else 1)

-- A packet that does not fit is dropped, any other is put behind the packets that are held.
receive_packet_lem :
    (q : Queue) (xs : List Packet) (p : Packet)
    → q.enqueued ≡ xs
    → Ensures
        (λ q' es. Accepts p q.enqueued q.num_drops q'.enqueued q'.num_drops es)
        (receive_packet q p)
unfolding receive_packet
receive_packet_lem q [] p e = ground arith
receive_packet_lem q (x ∷ xs) p e = ground arith

pub receive_packet-Inv :
    (q : Queue) (n : ℕ) (xs : List Packet) (p : Packet)
    → q.enqueued ≡ xs
    → Inv q n
    → Ensures (λ q' es. Inv q' (n + scheduled es)) (receive_packet q p)
unfolding receive_packet
receive_packet-Inv q n [] p e v = ground (arith, bytes-append q.enqueued (p ∷ []))
receive_packet-Inv q n (x ∷ xs) p e v = ground (arith, bytes-append q.enqueued (p ∷ []))

pub complete_service-Inv :
    (q : Queue) (n now : ℕ) (xs : List Packet)
    → q.enqueued ≡ xs
    → Inv q (suc n)
    → Ensures
        (λ q' es.
          Inv q' (n + scheduled es) × Serves q.enqueued q.num_drops q'.enqueued q'.num_drops es)
        (complete_service q now)
unfolding complete_service
complete_service-Inv q n now [] e v = ground arith
complete_service-Inv q n now (x ∷ xs) e v =
    ground (arith, log_packet_send_total q.base now (drain_time q.base x) v.paired)

lawful : Lawful discipline
unfolding discipline
lawful = record {
  Inv = λ q n log ps. Inv q n × IsHistory q.enqueued q.num_drops log ps;
  Admits = λ p. Unit {0};
  receive-Inv = λ q n log ps now p v a.
      Ensures-mono _ _ (receive_packet q p)
        (λ q' es h. (
          h.0,
          IsHistory-arrival p q.enqueued q'.enqueued q.num_drops q'.num_drops log es ps v.1 h.1,
        ))
        (Ensures-both _ _ (receive_packet q p) (receive_packet-Inv q n q.enqueued p refl v.0)
          (receive_packet_lem q q.enqueued p refl));
  complete-Inv = λ q n log ps now v.
      Ensures-mono _ _ (complete_service q now)
        (λ q' es h. (
          h.0,
          IsHistory-service q.enqueued q'.enqueued q.num_drops q'.num_drops log es ps v.1 h.1,
        ))
        (complete_service-Inv q n now q.enqueued refl v.0);
}

abbrev pub fresh : BaseQueue → ℕ → Port Queue
fresh base maxsize = record { queue = init base maxsize; pending = 0; log = [] }

everyone : (ps : List Packet) → All (λ p. Unit {0}) ps
everyone [] = tt
everyone (p ∷ ps) = (tt, everyone ps)

-- From an empty queue, whose two buffers of busy times are as long as one another, no sequence of
-- arrivals and events fails an assertion. After it the queue counts the bytes that it holds, within
-- its size, and has one event pending while it holds packets and none otherwise; every arrival was
-- sent, is held or was counted as a drop, and what was not dropped was sent, or is held behind that,
-- in the order of arrival.
pub run-fresh :
    (base : BaseQueue) (maxsize : ℕ) (is : List Input)
    → IsPaired base
    → (s : Port Queue) × (run discipline (fresh base maxsize) is ≡ some s)
      × Inv s.queue s.pending
      × IsHistory s.queue.enqueued s.queue.num_drops s.log (arrivals is)
unfolding lawful init
run-fresh base maxsize is h =
    let (s, e, v) =
      run-Inv discipline lawful (fresh base maxsize) [] is
        (
          record { counted = refl; bounded = omega arith; paired = h; served = refl },
          record { accounted = refl; in_order = Sublist.refl [] },
        )
        (everyone (arrivals is)) in
    (s, e, v.0, v.1)
