-- ===== src/Queues/LosslessOutput/Laws.antt =====
-- The handlers of the egress queue, one at a time, and what holds between them.
use frontier_htsim.Prelude.{
  ℕ, suc, ◌+◌, ◌<◌, ◌≡◌, subst, inl, inr, Bool-cases, true, false, List, [], ◌∷◌, some, arith,
  if◌then◌else◌, length, length-append, Ensures, done,
}
use frontier_htsim.Fifo
use frontier_htsim.Network.{Packet, mark_ce, has_type, hpcc}
use frontier_htsim.Queues.Effects.{scheduled, bytes, bytes-append}
use frontier_htsim.Queues.Utilization.{drain_time}
use frontier_htsim.Queues.Utilization.Paired.{IsPaired, log_packet_send_total}
use frontier_htsim.Queues.Pause.{paused, ready, pause_received}
use frontier_htsim.Queues.LosslessOutput.{
  LosslessOutputQueue, receive_pause, receive_data, complete_service, add_int_info, int_entry, mark,
}

-- An HPCC packet has room for the entry of one more hop.
abbrev pub HasRoom : List Packet → Type 0
HasRoom [] = Unit {0}
HasRoom (p ∷ ps) = (length p.int_info < 5) × HasRoom ps

pub HasRoom-push :
    (ps : List Packet) (p : Packet) → HasRoom ps → length p.int_info < 5 → HasRoom (Fifo.push ps p)
HasRoom-push [] p h k = (k, tt)
HasRoom-push (x ∷ ps) p h k = (h.0, HasRoom-push ps p h.1 k)

-- With `n` events pending: one exactly while a packet is being sent, and one is being sent whenever the
-- queue is ready and holds packets, or has not yet stopped for a PAUSE.
pub record Inv (q : LosslessOutputQueue) (n : ℕ) : Type 0 where
  pub counted : q.queue.queuesize ≡ bytes q.queue.enqueued
  pub paired : IsPaired q.queue.base
  pub tracked : length q.vq ≡ length q.queue.enqueued
  pub has_room : HasRoom q.queue.enqueued
  pub served : n ≡ (if q.sending then 1 else 0)
  pub busy : q.sending ≡ true → Fifo.empty q.queue.enqueued ≡ false
  pub serving : q.state_send ≡ ready → Fifo.empty q.queue.enqueued ≡ false → q.sending ≡ true
  pub waiting : q.state_send ≡ pause_received → q.sending ≡ true
  pub stopped : q.state_send ≡ paused → q.sending ≡ false

pub receive_pause-egress :
    (q : LosslessOutputQueue) (n : ℕ) (xs : List Packet) (p : Packet)
    → q.queue.enqueued ≡ xs
    → Inv q n
    → Ensures
        (λ q' es. Inv q' (n + scheduled es) × (q'.queue.enqueued ≡ q.queue.enqueued))
        (receive_pause q p)
unfolding receive_pause
receive_pause-egress q n [] p e v = ground arith
receive_pause-egress q n (x ∷ xs) p e v = ground arith

pub receive_data-egress :
    (q : LosslessOutputQueue) (n : ℕ) (xs : List Packet) (p : Packet) (v : ℕ)
    → q.queue.enqueued ≡ xs
    → length p.int_info < 5
    → Inv q n
    → Ensures
        (λ q' es. Inv q' (n + scheduled es) × (q'.queue.enqueued ≡ Fifo.push q.queue.enqueued p))
        (receive_data q p (some v))
unfolding receive_data
receive_data-egress q n [] p v e r h = ground (
  arith,
  bytes-append q.queue.enqueued (p ∷ []),
  length-append q.queue.enqueued (p ∷ []),
  length-append q.vq (v ∷ []),
  HasRoom-push q.queue.enqueued p h.has_room r,
)
receive_data-egress q n (x ∷ xs) p v e r h = ground (
  arith,
  bytes-append q.queue.enqueued (p ∷ []),
  length-append q.queue.enqueued (p ∷ []),
  length-append q.vq (v ∷ []),
  HasRoom-push q.queue.enqueued p h.has_room r,
)

mark_lem :
    (q : LosslessOutputQueue) (p : Packet)
    → ((mark q p).size ≡ p.size) × ((mark q p).int_info ≡ p.int_info)
unfolding mark mark_ce
mark_lem q p = ground arith

-- Telemetry and the mark leave a packet's size alone.
pub add_int_info_lem :
    (q : LosslessOutputQueue) (now : ℕ) (p : Packet)
    → length p.int_info < 5
    → (sent : Packet) × (add_int_info q now (mark q p) ≡ done sent []) × (sent.size ≡ p.size)
unfolding add_int_info
add_int_info_lem q now p h = elim (Bool-cases (has_type (mark q p).type hpcc)) [
  | inl y ↦ (
    record (mark q p) { int_info = Fifo.push (mark q p).int_info (int_entry q now) },
    ground (arith, mark_lem q p),
    (mark_lem q p).0,
  )
  | inr y ↦ (mark q p, rw y, (mark_lem q p).0)
]

-- An egress queue counts its bytes and has an ingress queue for each packet, and room for telemetry
-- in each; one event is pending exactly while it sends, it sends whenever it is ready and holds
-- packets, and never while it is paused. An event while it sends fails no assertion, the oldest
-- packet leaves, and the same holds afterwards.
pub complete_service-egress :
    (q : LosslessOutputQueue) (n now : ℕ) (x : Packet) (xs : List Packet) (v : ℕ) (vs : List ℕ)
    → q.queue.enqueued ≡ x ∷ xs
    → q.vq ≡ v ∷ vs
    → Inv q (suc n)
    → Ensures
        (λ q' es. Inv q' (n + scheduled es) × (q'.queue.enqueued ≡ xs))
        (complete_service q now)
unfolding complete_service
complete_service-egress q n now x [] v vs e f h =
    let room : length x.int_info < 5 = (subst HasRoom e h.has_room).0 in
    let (sent, s, z) = add_int_info_lem q now x room in
    let (b, l, pb) =
      log_packet_send_total q.queue.base now (drain_time q.queue.base sent) h.paired in
    ground (arith, s, z, l, pb)
complete_service-egress q n now x (y ∷ xs) v vs e f h =
    let room : length x.int_info < 5 = (subst HasRoom e h.has_room).0 in
    let (sent, s, z) = add_int_info_lem q now x room in
    let (b, l, pb) =
      log_packet_send_total q.queue.base now (drain_time q.queue.base sent) h.paired in
    ground (arith, s, z, l, pb)
