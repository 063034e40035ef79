-- ===== src/Queues/EcnPrio/Laws.antt =====
-- The ECN queue with two priorities: its sizes, its service and its assertions.
use frontier_htsim.Prelude.{
  ℕ, suc, ◌+◌, ◌≤◌, ◌≡◌, ◌≢◌, refl, false, Bool, List, [], ◌∷◌, arith, if◌then◌else◌, if_cases,
  ◌&&◌, Ensures, Ensures-bind, Ensures-after,
}
use frontier_htsim.Fifo
use frontier_htsim.Network.{Packet, PktPriority, mark_ce, prio_lo, prio_mid, prio_hi, prio_none}
use frontier_htsim.Queues.Effects.{scheduled, bytes, bytes-append, sends_on}
use frontier_htsim.Queues.EcnPrio.{
  EcnPrioQueue, Lane, Band, band_lo, band_hi, band_none, serve_lane, begin_service, take,
  serve_next, complete_service, band_of, overflows, push_lane, start_if_idle, drop_packet,
  receive_at, receive_packet,
}

-- A queue counts its bytes, within its size.
pub record Filled (l : Lane) : Type 0 where
  pub counted : l.size ≡ bytes l.enqueued
  pub bounded : l.size ≤ l.maxsize

pub record Counted (q : EcnPrioQueue) : Type 0 where
  pub lo : Filled q.lo
  pub hi : Filled q.hi

-- One event is pending while a packet is served, and none otherwise.
abbrev pub Served : EcnPrioQueue → Band → ℕ → Type 0
Served q band_none n = (n ≡ 0) × (q.lo.enqueued ≡ []) × (q.hi.enqueued ≡ [])
Served q band_lo n = (n ≡ 1) × (Fifo.empty q.lo.enqueued ≡ false)
Served q band_hi n = (n ≡ 1) × (Fifo.empty q.hi.enqueued ≡ false)

abbrev pub Inv : EcnPrioQueue → ℕ → Type 0
Inv q n = Counted q × Served q q.serv n

take_lem :
    (q : EcnPrioQueue) (b : Band) (n : ℕ) (l h : List Packet)
    → q.serv ≡ b
    → q.lo.enqueued ≡ l
    → q.hi.enqueued ≡ h
    → Counted q
    → Served q b (suc n)
    → Ensures (λ (q', p) es. Counted q' × (n ≡ 0) × (es ≡ [])) (take b q)
unfolding take
take_lem q band_none n l h d e f v s = ground arith
take_lem q band_lo n [] h d e f v s = ground arith
take_lem q band_lo n (x ∷ l) h d e f v s = ground arith
take_lem q band_hi n l [] d e f v s = ground arith
take_lem q band_hi n l (y ∷ h) d e f v s = ground arith

-- High priority is served before low, and the invariant holds.
abbrev pub First : EcnPrioQueue → Type 0
First q = q.serv ≡ (
    if Fifo.empty q.hi.enqueued
    then (if Fifo.empty q.lo.enqueued then band_none else band_lo)
    else band_hi)

serve_next-Inv :
    (q : EcnPrioQueue) (n : ℕ) (l h : List Packet)
    → q.lo.enqueued ≡ l
    → q.hi.enqueued ≡ h
    → q.serv ≡ band_none
    → n ≡ 0
    → Counted q
    → Ensures (λ q' es. Inv q' (n + scheduled es) × First q') (serve_next q)
unfolding serve_next begin_service serve_lane
serve_next-Inv q n [] [] e f d z v = ground arith
serve_next-Inv q n (x ∷ l) [] e f d z v = ground arith
serve_next-Inv q n [] (y ∷ h) e f d z v = ground arith
serve_next-Inv q n (x ∷ l) (y ∷ h) e f d z v = ground arith

-- In an ECN queue with two priorities let the sizes count the bytes that are held, within their
-- limits, and one event be pending exactly while there are packets, for the queue that `_serv`
-- names. After that event no assertion has failed, the same holds, and the high queue is served if
-- it holds packets, the low one if only that does, and none otherwise.
pub complete_service-First :
    (q : EcnPrioQueue) (n : ℕ)
    → Inv q (suc n)
    → Ensures (λ q' es. Inv q' (n + scheduled es) × First q') (complete_service q)
unfolding complete_service
complete_service-First q n (v, s) =
    Ensures-bind (λ (q', p) es. Counted q' × (n ≡ 0) × (es ≡ [])) _ (take q.serv q) _
      (take_lem q q.serv n q.lo.enqueued q.hi.enqueued refl refl refl v s)
      (λ (q', p) es (c, z, k). rw k (
        Ensures-after (λ b fs. Inv b (n + scheduled fs) × First b)
          (sends_on (if q.ecn then mark_ce p else p) ∷ [])
          (serve_next (record q' { serv = band_none }))
          (serve_next-Inv (record q' { serv = band_none }) n q'.lo.enqueued q'.hi.enqueued refl refl
            refl z (record { lo = c.lo; hi = c.hi }))))

-- What holds before `start_if_idle`: where no packet is served, there is one to serve.
abbrev Ready : EcnPrioQueue → Band → ℕ → Type 0
Ready q band_none n = (n ≡ 0) × (Fifo.empty q.lo.enqueued && Fifo.empty q.hi.enqueued ≡ false)
Ready q band_lo n = Served q band_lo n
Ready q band_hi n = Served q band_hi n

start_if_idle-Inv :
    (q : EcnPrioQueue) (b : Band) (n : ℕ) (l h : List Packet)
    → q.serv ≡ b
    → q.lo.enqueued ≡ l
    → q.hi.enqueued ≡ h
    → Counted q
    → Ready q b n
    → Ensures (λ q' es. Inv q' (n + scheduled es)) (start_if_idle q)
unfolding start_if_idle begin_service serve_lane
start_if_idle-Inv q band_none n [] [] d e f v r = ground arith
start_if_idle-Inv q band_none n (x ∷ l) [] d e f v r = ground arith
start_if_idle-Inv q band_none n [] (y ∷ h) d e f v r = ground arith
start_if_idle-Inv q band_none n (x ∷ l) (y ∷ h) d e f v r = ground arith
start_if_idle-Inv q band_lo n l h d e f v r = ground arith
start_if_idle-Inv q band_hi n l h d e f v r = ground arith

empty-push : (xs : List Packet) (p : Packet) → Fifo.empty (Fifo.push xs p) ≡ false
empty-push [] p = refl
empty-push (x ∷ xs) p = refl

Ready-hi :
    (q : EcnPrioQueue) (p : Packet) (b : Band) (n : ℕ)
    → Served q b n
    → Ready (record q { hi = push_lane q.hi p }) b n
Ready-hi q p band_none n s = ground (arith, empty-push q.hi.enqueued p)
Ready-hi q p band_lo n s = s
Ready-hi q p band_hi n s = (s.0, empty-push q.hi.enqueued p)

Ready-lo :
    (q : EcnPrioQueue) (p : Packet) (b : Band) (n : ℕ)
    → Served q b n
    → Ready (record q { lo = push_lane q.lo p }) b n
Ready-lo q p band_none n s = ground (arith, empty-push q.lo.enqueued p)
Ready-lo q p band_lo n s = (s.0, empty-push q.lo.enqueued p)
Ready-lo q p band_hi n s = s

push_lane-Filled :
    (l : Lane) (p : Packet) (coin : Bool)
    → Filled l
    → overflows l p.size coin ≡ false
    → Filled (push_lane l p)
unfolding overflows
push_lane-Filled l p coin f e = record {
  counted = omega (arith, f.counted, bytes-append l.enqueued (p ∷ []));
  bounded = ground (arith, e);
}

unchanged : (q : EcnPrioQueue) (n : ℕ) (b : Band) → Served q b n → Served q b (n + 0)
unchanged q n band_none s = ground arith
unchanged q n band_lo s = ground arith
unchanged q n band_hi s = ground arith

drop_packet-Inv :
    (q : EcnPrioQueue) (n : ℕ) (p : Packet)
    → Inv q n
    → Ensures (λ q' es. Inv q' (n + scheduled es)) (drop_packet q p)
unfolding drop_packet
drop_packet-Inv q n p (v, s) = (record { lo = v.lo; hi = v.hi }, unchanged q n q.serv s)

receive_at-Inv :
    (q : EcnPrioQueue) (n : ℕ) (prio : PktPriority) (coin : Bool) (p : Packet)
    → prio ≢ prio_none
    → prio ≢ prio_mid
    → Inv q n
    → Ensures (λ q' es. Inv q' (n + scheduled es)) (receive_at (band_of prio) q coin p)
unfolding receive_at band_of
receive_at-Inv q n prio_none coin p a b i = absurd (a refl)
receive_at-Inv q n prio_mid coin p a b i = absurd (b refl)
receive_at-Inv q n prio_lo coin p a b i =
    if_cases (Ensures (λ q' es. Inv q' (n + scheduled es))) (overflows q.lo p.size coin)
      (λ e. drop_packet-Inv q n p i)
      (λ e.
        start_if_idle-Inv (record q { lo = push_lane q.lo p }) q.serv n _ _ refl refl refl
          (record { lo = push_lane-Filled q.lo p coin i.0.lo e; hi = i.0.hi })
          (Ready-lo q p q.serv n i.1))
receive_at-Inv q n prio_hi coin p a b i =
    if_cases (Ensures (λ q' es. Inv q' (n + scheduled es))) (overflows q.hi p.size coin)
      (λ e. drop_packet-Inv q n p i)
      (λ e.
        start_if_idle-Inv (record q { hi = push_lane q.hi p }) q.serv n _ _ refl refl refl
          (record { lo = i.0.lo; hi = push_lane-Filled q.hi p coin i.0.hi e })
          (Ready-hi q p q.serv n i.1))

-- What an arrival of high or low priority keeps.
pub receive_packet-Inv :
    (q : EcnPrioQueue) (n : ℕ) (coin : Bool) (p : Packet)
    → p.priority ≢ prio_none
    → p.priority ≢ prio_mid
    → Inv q n
    → Ensures (λ q' es. Inv q' (n + scheduled es)) (receive_packet q coin p)
unfolding receive_packet
receive_packet-Inv q n coin p a b i = receive_at-Inv q n p.priority coin p a b i
