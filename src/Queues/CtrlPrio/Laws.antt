-- ===== src/Queues/CtrlPrio/Laws.antt =====
-- The control-priority queue: what its lists hold, its service and its drops.
use frontier_htsim.Prelude.{
  ℕ, suc, ◌+◌, ◌-◌, ◌≡◌, refl, true, false, Bool, List, [], ◌∷◌, arith, ltb, if_cases, ◌||◌, subst,
  ap, return, ◌>>=◌, Ensures, Ensures-bind, Ensures-after,
}
use frontier_htsim.Fifo
use frontier_htsim.Network.{
  Packet, PacketType, has_type, ndpnack, PktPriority, prio_lo, prio_mid, prio_hi, prio_none,
}
use frontier_htsim.Queues.Effects.{scheduled, bytes, sends_on}
use frontier_htsim.Queues.Port.{All}
use frontier_htsim.Queues.CtrlPrio.{
  CtrlPrioQueue, CtrlServ, queue_invalid, queue_low, queue_high, serve_ctrl, begin_service,
  count_control, is_ack, is_pull, take, serve_next, complete_service,
}

-- The high queue counts the packet when it is sent.
unfoldable pub counts : PacketType → Bool
counts t = is_ack t || (has_type t ndpnack || is_pull t)

abbrev pub IsControl : Packet → Type 0
IsControl p = counts p.type ≡ true

-- Both sizes count the bytes that are held, and the high queue holds what its service counts.
pub record Counted (m : ℕ) (q : CtrlPrioQueue) : Type 0 where
  pub limit : q.maxsize ≡ m
  pub low : q.low.size ≡ bytes q.low.enqueued
  pub high : q.high.size ≡ bytes q.high.enqueued
  pub control : All IsControl q.high.enqueued

-- One event is pending while a packet is served, and none otherwise.
abbrev pub Served : CtrlPrioQueue → CtrlServ → ℕ → Type 0
Served q queue_invalid n = (n ≡ 0) × (q.low.enqueued ≡ []) × (q.high.enqueued ≡ [])
Served q queue_low n = (n ≡ 1) × (Fifo.empty q.low.enqueued ≡ false)
Served q queue_high n = (n ≡ 1) × (Fifo.empty q.high.enqueued ≡ false)

-- The bytes in the queue for a priority.
unfoldable pub held : CtrlPrioQueue → PktPriority → ℕ
held q prio_lo = q.low.size
held q prio_mid = 0
held q prio_hi = q.high.size
held q prio_none = 0

-- The packet finds the queue for a priority full.
abbrev pub full_for : CtrlPrioQueue → PktPriority → Packet → Bool
full_for q prio p = ltb q.maxsize (held q prio + p.size)

abbrev pub Inv : ℕ → CtrlPrioQueue → ℕ → Type 0
Inv m q n = Counted m q × Served q q.serv n

count_control_lem :
    (m : ℕ) (q : CtrlPrioQueue) (t : PacketType)
    → counts t ≡ true
    → Counted m q
    → Ensures (λ q' es. Counted m q' × (es ≡ [])) (count_control q t)
unfolding count_control counts
count_control_lem m q t e v =
    if_cases (Ensures (λ q' es. Counted m q' × (es ≡ []))) (is_ack t) (λ a. ground arith)
      (λ a.
        if_cases (Ensures (λ q' es. Counted m q' × (es ≡ []))) (has_type t ndpnack)
          (λ b. ground arith)
          (λ b.
            if_cases (Ensures (λ q' es. Counted m q' × (es ≡ []))) (is_pull t) (λ c. ground arith)
              (λ c. ground (arith, a, b, c, e))))

take_lem :
    (m : ℕ) (q : CtrlPrioQueue) (b : CtrlServ) (n : ℕ) (l h : List Packet)
    → q.low.enqueued ≡ l
    → q.high.enqueued ≡ h
    → Counted m q
    → Served q b (suc n)
    → Ensures (λ (q', p) es. Counted m q' × (n ≡ 0) × (es ≡ [])) (take b q)
unfolding take
take_lem m q queue_invalid n l h e f v s = ground arith
take_lem m q queue_low n [] h e f v s = ground arith
take_lem m q queue_low n (x ∷ l) h e f v s = ground arith
take_lem m q queue_high n l [] e f v s = ground arith
take_lem m q queue_high n l (y ∷ h) e f v s = rw f (
    Ensures-after (λ (q', p) es. Counted m q' × (n ≡ 0) × (es ≡ [])) []
      (count_control (record q { high = record { enqueued = h; size = q.high.size - y.size } })
          y.type
        >>= λ q'. return (q', y))
      (Ensures-bind (λ q' es. Counted m q' × (es ≡ [])) _
        (count_control (record q { high = record { enqueued = h; size = q.high.size - y.size } })
          y.type)
        _
        (count_control_lem m _ y.type (subst (All IsControl) f v.control).0 (record {
          limit = v.limit;
          low = v.low;
          high = omega (arith, v.high, ap bytes f);
          control = (subst (All IsControl) f v.control).1;
        }))
        (λ q' es k. (k.0, omega (arith, s.0), ground (arith, k.1)))))

serve_next-Inv :
    (m : ℕ) (q : CtrlPrioQueue) (n : ℕ) (l h : List Packet)
    → q.low.enqueued ≡ l
    → q.high.enqueued ≡ h
    → q.serv ≡ queue_invalid
    → n ≡ 0
    → Counted m q
    → Ensures (λ q' es. Inv m q' (n + scheduled es)) (serve_next q)
unfolding serve_next begin_service serve_ctrl
serve_next-Inv m q n [] [] e f d z v = ground arith
serve_next-Inv m q n (x ∷ l) [] e f d z v = ground arith
serve_next-Inv m q n [] (y ∷ h) e f d z v = ground arith
serve_next-Inv m q n (x ∷ l) (y ∷ h) e f d z v = ground arith

pub complete_service-Inv :
    (m : ℕ) (q : CtrlPrioQueue) (n : ℕ)
    → Inv m q (suc n)
    → Ensures (λ q' es. Inv m q' (n + scheduled es)) (complete_service q)
unfolding complete_service
complete_service-Inv m q n (v, s) =
    Ensures-bind (λ (q', p) es. Counted m q' × (n ≡ 0) × (es ≡ [])) _ (take q.serv q) _
      (take_lem m q q.serv n q.low.enqueued q.high.enqueued refl refl v s)
      (λ (q', p) es (c, z, k). rw k (
        Ensures-after (λ b fs. Inv m b (n + scheduled fs)) (sends_on p ∷ [])
          (serve_next (record q' { serv = queue_invalid }))
          (serve_next-Inv m (record q' { serv = queue_invalid }) n q'.low.enqueued q'.high.enqueued
            refl refl refl z
            (record { limit = c.limit; low = c.low; high = c.high; control = c.control }))))
