-- ===== src/Queues/CtrlPrio/Arrivals.antt =====
-- The control-priority queue: what an arrival keeps, with its replacements and drops.
use frontier_htsim.Prelude.{
  ℕ, ◌+◌, ◌-◌, ◌<◌, ◌≤◌, ◌≡◌, ◌≢◌, refl, true, false, Bool, List, [], ◌∷◌, some, arith, if_cases,
  ◌&&◌, ltb, subst, sym, Ensures, Ensures-bind, Ensures-mono,
}
use frontier_htsim.Fifo
use frontier_htsim.Network.{Packet, PktPriority, prio_lo, prio_mid, prio_hi, prio_none}
use frontier_htsim.Queues.Effects.{scheduled, bytes, bytes-append, scheduled-append}
use frontier_htsim.Queues.Port.{All}
use frontier_htsim.Queues.CtrlPrio.{
  CtrlPrioQueue, CtrlLane, CtrlServ, queue_invalid, queue_low, queue_high, serve_ctrl,
  begin_service, ctrl_band, reported, push_ctrl, evict, store, start_if_idle, receive_at,
  receive_packet,
}
use frontier_htsim.Queues.CtrlPrio.Laws.{IsControl, Counted, Served, Inv, held, full_for}

All-push :
    (P : Packet → Type 0) (xs : List Packet) (p : Packet) → All P xs → P p → All P (Fifo.push xs p)
All-push P [] p a b = (b, tt)
All-push P (x ∷ xs) p a b = (a.0, All-push P xs p a.1 b)

empty-push : (xs : List Packet) (p : Packet) → Fifo.empty (Fifo.push xs p) ≡ false
empty-push [] p = refl
empty-push (x ∷ xs) p = refl

-- The newest packet of a list that holds one, and the others.
pop_front_lem :
    (P : Packet → Type 0) (x : Packet) (xs : List Packet)
    → All P (x ∷ xs)
    → (y : Packet) × (ys : List Packet) × (Fifo.pop_front (x ∷ xs) ≡ some (y, ys))
      × (bytes (x ∷ xs) ≡ y.size + bytes ys)
      × All P ys
pop_front_lem P x [] a = (x, [], refl, refl, tt)
pop_front_lem P x (z ∷ zs) a =
    let (y, ys, e, f, b) = pop_front_lem P z zs a.1 in
    (y, x ∷ ys, rw e refl, omega (arith, f), (a.0, b))

-- What an arrival makes of a lane.
abbrev pub Kept : (Packet → Type 0) → CtrlLane → Type 0
Kept P l = (l.size ≡ bytes l.enqueued) × (Fifo.empty l.enqueued ≡ false) × All P l.enqueued

push_ctrl-Kept :
    (P : Packet → Type 0) (l : CtrlLane) (p : Packet)
    → l.size ≡ bytes l.enqueued
    → All P l.enqueued
    → P p
    → Kept P (push_ctrl l p)
push_ctrl-Kept P l p e a b = (
  omega (arith, e, bytes-append l.enqueued (p ∷ [])),
  empty-push l.enqueued p,
  All-push P l.enqueued p a b,
)

evict-Kept :
    (P : Packet → Type 0) (l : CtrlLane) (coin : Bool) (p : Packet) (xs : List Packet)
    → l.enqueued ≡ xs
    → xs ≢ []
    → l.size ≡ bytes xs
    → All P xs
    → P p
    → (l' : CtrlLane) × (d : Packet) × (evict l coin p ≡ some (l', d)) × Kept P l'
unfolding evict
evict-Kept P l coin p [] e n s a b = absurd (n refl)
evict-Kept P l true p (x ∷ xs) e n s a b =
    (l, p, refl, (ground (arith, s, e), ground (arith, e), subst (All P) (sym e) a))
evict-Kept P l false p (x ∷ xs) e n s a b =
    let (y, ys, f, g, c) = pop_front_lem P x xs a in
    (
      push_ctrl (record { enqueued = ys; size = l.size - y.size }) p,
      y,
      ground (arith, e, f),
      push_ctrl-Kept P (record { enqueued = ys; size = l.size - y.size }) p (omega (arith, s, g)) c
          b,
    )

filled :
    (l : CtrlLane) (m k : ℕ) → k ≤ m → m < l.size + k → l.size ≡ bytes l.enqueued → l.enqueued ≢ []
filled l m k a b c e = ground (arith, e)

store-Kept :
    (P : Packet → Type 0) (m : ℕ) (l : CtrlLane) (coin : Bool) (p : Packet)
    → l.size ≡ bytes l.enqueued
    → All P l.enqueued
    → P p
    → p.size ≤ m
    → (ltb m (l.size + p.size) ≡ true → reported p.type ≡ true)
    → Ensures (λ (l', k) es. Kept P l' × (scheduled es ≡ 0)) (store m l coin p)
unfolding store
store-Kept P m l coin p e a b u r =
    if_cases (Ensures (λ (l', k) es. Kept P l' × (scheduled es ≡ 0))) (ltb m (l.size + p.size))
      (λ t.
        let (l', d, f, k) =
          evict-Kept P l coin p l.enqueued refl (filled l m p.size u (ground (arith, t)) e) e a b in
        ground (arith, f, r t, k))
      (λ t. (push_ctrl-Kept P l p e a b, refl))

-- What holds before `start_if_idle`: where no packet is served, there is one to serve.
abbrev Ready : CtrlPrioQueue → CtrlServ → ℕ → Type 0
Ready q queue_invalid n =
    (n ≡ 0) × (Fifo.empty q.low.enqueued && Fifo.empty q.high.enqueued ≡ false)
Ready q queue_low n = Served q queue_low n
Ready q queue_high n = Served q queue_high n

start_if_idle-Inv :
    (m : ℕ) (q : CtrlPrioQueue) (b : CtrlServ) (n : ℕ) (l h : List Packet)
    → q.serv ≡ b
    → q.low.enqueued ≡ l
    → q.high.enqueued ≡ h
    → Counted m q
    → Ready q b n
    → Ensures (λ q' es. Inv m q' (n + scheduled es)) (start_if_idle q)
unfolding start_if_idle begin_service serve_ctrl
start_if_idle-Inv m q queue_invalid n [] [] d e f v r = ground arith
start_if_idle-Inv m q queue_invalid n (x ∷ l) [] d e f v r = ground arith
start_if_idle-Inv m q queue_invalid n [] (y ∷ h) d e f v r = ground arith
start_if_idle-Inv m q queue_invalid n (x ∷ l) (y ∷ h) d e f v r = ground arith
start_if_idle-Inv m q queue_low n l h d e f v r = ground arith
start_if_idle-Inv m q queue_high n l h d e f v r = ground arith

Ready-high :
    (q : CtrlPrioQueue) (l : CtrlLane) (k : ℕ) (b : CtrlServ) (n : ℕ)
    → Fifo.empty l.enqueued ≡ false
    → Served q b n
    → Ready (record q { high = l; num_drops = k }) b n
Ready-high q l k queue_invalid n e s = ground (arith, e)
Ready-high q l k queue_low n e s = s
Ready-high q l k queue_high n e s = (s.0, e)

Ready-low :
    (q : CtrlPrioQueue) (l : CtrlLane) (k : ℕ) (b : CtrlServ) (n : ℕ)
    → Fifo.empty l.enqueued ≡ false
    → Served q b n
    → Ready (record q { low = l; num_drops = k }) b n
Ready-low q l k queue_invalid n e s = ground (arith, e)
Ready-low q l k queue_low n e s = (s.0, e)
Ready-low q l k queue_high n e s = s

Anything : Packet → Type 0
Anything p = Unit

All-Anything : (ps : List Packet) → All Anything ps
unfolding Anything
All-Anything [] = tt
All-Anything (p ∷ ps) = (tt, All-Anything ps)

-- The packets that the queue handles without an `abort`, if its limit is `m` bytes and none finds it
-- full.
pub record Fits (m : ℕ) (p : Packet) : Type 0 where
  pub size : p.size ≤ m
  pub two_levels : (p.priority ≢ prio_none) × (p.priority ≢ prio_mid)
  pub control : p.priority ≡ prio_hi → IsControl p

receive_low-Inv :
    (m : ℕ) (q : CtrlPrioQueue) (n : ℕ) (coin : Bool) (p : Packet)
    → p.size ≤ m
    → (full_for q prio_lo p ≡ true → reported p.type ≡ true)
    → Inv m q n
    → Ensures (λ q' es. Inv m q' (n + scheduled es)) (receive_at (ctrl_band prio_lo) q coin p)
unfolding receive_at ctrl_band Anything held
receive_low-Inv m q n coin p u r (v, s) =
    Ensures-bind (λ (l', k) es. Kept Anything l' × (scheduled es ≡ 0)) _
      (store q.maxsize q.low coin p) _
      (store-Kept Anything q.maxsize q.low coin p v.low (All-Anything q.low.enqueued) tt
        (omega (arith, u, v.limit)) r)
      (λ (l, k) es ((c, e, a), z).
        Ensures-mono _ _ (start_if_idle (record q { low = l; num_drops = q.num_drops + k }))
          (λ q' fs i. subst (Inv m q') (omega (arith, z, scheduled-append es fs)) i)
          (start_if_idle-Inv m (record q { low = l; num_drops = q.num_drops + k }) q.serv n _ _ refl
            refl refl (record { limit = v.limit; low = c; high = v.high; control = v.control })
            (Ready-low q l (q.num_drops + k) q.serv n e s)))

receive_high-Inv :
    (m : ℕ) (q : CtrlPrioQueue) (n : ℕ) (coin : Bool) (p : Packet)
    → p.size ≤ m
    → (full_for q prio_hi p ≡ true → reported p.type ≡ true)
    → IsControl p
    → Inv m q n
    → Ensures (λ q' es. Inv m q' (n + scheduled es)) (receive_at (ctrl_band prio_hi) q coin p)
unfolding receive_at ctrl_band held
receive_high-Inv m q n coin p u r b (v, s) =
    Ensures-bind (λ (l', k) es. Kept IsControl l' × (scheduled es ≡ 0)) _
      (store q.maxsize q.high coin p) _
      (store-Kept IsControl q.maxsize q.high coin p v.high v.control b (omega (arith, u, v.limit))
        r)
      (λ (l, k) es ((c, e, a), z).
        Ensures-mono _ _ (start_if_idle (record q { high = l; num_drops = q.num_drops + k }))
          (λ q' fs i. subst (Inv m q') (omega (arith, z, scheduled-append es fs)) i)
          (start_if_idle-Inv m (record q { high = l; num_drops = q.num_drops + k }) q.serv n _ _
            refl refl refl (record { limit = v.limit; low = v.low; high = c; control = a })
            (Ready-high q l (q.num_drops + k) q.serv n e s)))

receive_at-Inv :
    (m : ℕ) (q : CtrlPrioQueue) (n : ℕ) (prio : PktPriority) (coin : Bool) (p : Packet)
    → p.priority ≡ prio
    → Fits m p
    → (full_for q prio p ≡ true → reported p.type ≡ true)
    → Inv m q n
    → Ensures (λ q' es. Inv m q' (n + scheduled es)) (receive_at (ctrl_band prio) q coin p)
receive_at-Inv m q n prio_none coin p e f r i = absurd (f.two_levels.0 e)
receive_at-Inv m q n prio_mid coin p e f r i = absurd (f.two_levels.1 e)
receive_at-Inv m q n prio_lo coin p e f r i = receive_low-Inv m q n coin p f.size r i
receive_at-Inv m q n prio_hi coin p e f r i = receive_high-Inv m q n coin p f.size r (f.control e) i

-- What an arrival keeps, unless the code knows no report of its drop.
pub receive_packet-Inv :
    (m : ℕ) (q : CtrlPrioQueue) (n : ℕ) (coin : Bool) (p : Packet)
    → Fits m p
    → (full_for q p.priority p ≡ true → reported p.type ≡ true)
    → Inv m q n
    → Ensures (λ q' es. Inv m q' (n + scheduled es)) (receive_packet q coin p)
unfolding receive_packet
receive_packet-Inv m q n coin p f r i = receive_at-Inv m q n p.priority coin p refl f r i
