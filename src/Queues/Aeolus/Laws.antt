-- ===== src/Queues/Aeolus/Laws.antt =====
-- The Aeolus queue: its sizes, its service and its assertions.
use frontier_htsim.Prelude.{
  ℕ, suc, ◌+◌, ◌≤◌, ◌<◌, ◌≡◌, ◌≢◌, refl, true, false, List, [], ◌∷◌, arith, leb, Bool-cases, inl,
  inr, ◌&&◌, Ensures, Ensures-bind, Ensures-after,
}
use frontier_htsim.Fifo
use frontier_htsim.Network.{Packet, PktPriority, prio_lo, prio_mid, prio_hi, prio_none}
use frontier_htsim.Queues.Effects.{scheduled, bytes, bytes-append, sends_on}
use frontier_htsim.Queues.Aeolus.{
  AeolusQueue, Service, invalid, serves_low, serves_high, begin_service, take_turns, serve_next,
  serve_low, serve_high, take_low, take_high, take, complete_service, start_if_idle, push_low,
  push_high, receive_high, receive_low, receive_at, receive_packet, admits_low,
}

-- Both queues are counted and within their size.
pub record Counted (q : AeolusQueue) : Type 0 where
  pub low : q.queuesize_low ≡ bytes q.enqueued_low
  pub high : q.queuesize_high ≡ bytes q.enqueued_high
  pub high_bounded : q.queuesize_high ≤ q.maxsize
  pub low_bounded : q.queuesize_low ≤ q.maxsize
  pub speculative : q.speculative_thresh ≤ q.maxsize
  pub ratio : q.crt < q.ratio_high + q.ratio_low

-- One event is pending while a packet is served, and none otherwise.
abbrev pub Served : AeolusQueue → Service → ℕ → Type 0
Served q invalid n = (n ≡ 0) × (q.enqueued_low ≡ []) × (q.enqueued_high ≡ [])
Served q serves_low n = (n ≡ 1) × (Fifo.empty q.enqueued_low ≡ false)
Served q serves_high n = (n ≡ 1) × (Fifo.empty q.enqueued_high ≡ false)

abbrev pub Inv : AeolusQueue → ℕ → Type 0
Inv q n = Counted q × Served q q.serv n

serve_lem :
    (q : AeolusQueue) (sv : Service) (n : ℕ) (random : ℕ) (l h : List Packet)
    → q.serv ≡ sv
    → q.enqueued_low ≡ l
    → q.enqueued_high ≡ h
    → Counted q
    → Served q sv (suc n)
    → Ensures (λ (q', p) es. Counted q' × (n ≡ 0) × (es ≡ [])) (take sv q random)
unfolding take take_low take_high
serve_lem q invalid n random l h d e f v s = ground arith
serve_lem q serves_low n random [] h d e f v s = ground arith
serve_lem q serves_low n random (x ∷ l) h d e f v s = ground arith
serve_lem q serves_high n random l [] d e f v s = ground arith
serve_lem q serves_high n random l (y ∷ h) d e f v s = ground arith

serve_next-Inv :
    (q : AeolusQueue) (n : ℕ) (l h : List Packet)
    → q.enqueued_low ≡ l
    → q.enqueued_high ≡ h
    → q.serv ≡ invalid
    → n ≡ 0
    → Counted q
    → Ensures (λ q' es. Inv q' (n + scheduled es)) (serve_next q)
unfolding serve_next begin_service take_turns serve_low serve_high
serve_next-Inv q n [] [] e f d z v = ground arith
serve_next-Inv q n (x ∷ l) [] e f d z v = ground arith
serve_next-Inv q n [] (y ∷ h) e f d z v = ground arith
serve_next-Inv q n (x ∷ l) (y ∷ h) e f d z v = ground arith

uncounted : (q : AeolusQueue) → Counted q → Counted (record q { serv = invalid })
uncounted q v = record {
  low = v.low;
  high = v.high;
  high_bounded = v.high_bounded;
  low_bounded = v.low_bounded;
  speculative = v.speculative;
  ratio = v.ratio;
}

-- What holds of an Aeolus queue at an arrival (`Inv`: its sizes are counted and bounded, and one
-- event is pending exactly while it holds packets) holds again after an event of its own, which
-- fails no assertion; so the queue is served again if it still holds packets.
pub complete_service-shares :
    (q : AeolusQueue) (n random : ℕ)
    → Inv q (suc n)
    → Ensures (λ q' es. Inv q' (n + scheduled es)) (complete_service q random)
unfolding complete_service
complete_service-shares q n random (v, s) =
    Ensures-bind _ _ (take q.serv q random) _
      (serve_lem q q.serv n random q.enqueued_low q.enqueued_high refl refl refl v s)
      (λ (q', p) es (c, z, k). rw k (
        Ensures-after (λ b fs. Inv b (n + scheduled fs)) (sends_on p ∷ [])
          (serve_next (record q' { serv = invalid }))
          (serve_next-Inv (record q' { serv = invalid }) n q'.enqueued_low q'.enqueued_high refl
            refl refl z (uncounted q' c))))

-- What holds before `start_if_idle`: where no packet is served, there is one to serve.
abbrev Ready : AeolusQueue → Service → ℕ → Type 0
Ready q invalid n = (n ≡ 0) × (Fifo.empty q.enqueued_low && Fifo.empty q.enqueued_high ≡ false)
Ready q serves_low n = Served q serves_low n
Ready q serves_high n = Served q serves_high n

start_if_idle-Inv :
    (q : AeolusQueue) (sv : Service) (n : ℕ) (l h : List Packet)
    → q.serv ≡ sv
    → q.enqueued_low ≡ l
    → q.enqueued_high ≡ h
    → Counted q
    → Ready q sv n
    → Ensures (λ q' es. Inv q' (n + scheduled es)) (start_if_idle q)
unfolding start_if_idle begin_service take_turns serve_low serve_high
start_if_idle-Inv q invalid n [] [] d e f v r = ground arith
start_if_idle-Inv q invalid n (x ∷ l) [] d e f v r = ground arith
start_if_idle-Inv q invalid n [] (y ∷ h) d e f v r = ground arith
start_if_idle-Inv q invalid n (x ∷ l) (y ∷ h) d e f v r = ground arith
start_if_idle-Inv q serves_low n l h d e f v r = ground arith
start_if_idle-Inv q serves_high n l h d e f v r = ground arith

empty-push : (xs : List Packet) (p : Packet) → Fifo.empty (Fifo.push xs p) ≡ false
empty-push [] p = refl
empty-push (x ∷ xs) p = refl

Ready-high :
    (q : AeolusQueue) (p : Packet) (sv : Service) (n : ℕ)
    → Served q sv n
    → Ready (push_high q p) sv n
unfolding push_high
Ready-high q p invalid n s = ground (arith, empty-push q.enqueued_high p)
Ready-high q p serves_low n s = s
Ready-high q p serves_high n s = (s.0, empty-push q.enqueued_high p)

Ready-low :
    (q : AeolusQueue) (p : Packet) (sv : Service) (n : ℕ)
    → Served q sv n
    → Ready (push_low q p) sv n
unfolding push_low
Ready-low q p invalid n s = ground (arith, empty-push q.enqueued_low p)
Ready-low q p serves_low n s = (s.0, empty-push q.enqueued_low p)
Ready-low q p serves_high n s = s

push_high-Counted :
    (q : AeolusQueue) (p : Packet)
    → Counted q
    → q.queuesize_high + p.size ≤ q.maxsize
    → Counted (push_high q p)
unfolding push_high
push_high-Counted q p v h = ground (arith, bytes-append q.enqueued_high (p ∷ []))

push_low-Counted :
    (q : AeolusQueue) (p : Packet)
    → Counted q
    → q.queuesize_low + p.size ≤ q.maxsize
    → Counted (push_low q p)
unfolding push_low
push_low-Counted q p v h = ground (arith, bytes-append q.enqueued_low (p ∷ []))

unchanged : (q : AeolusQueue) (n : ℕ) (sv : Service) → Served q sv n → Served q sv (n + 0)
unchanged q n invalid s = ground arith
unchanged q n serves_low s = ground arith
unchanged q n serves_high s = ground arith

receive_high-Inv :
    (q : AeolusQueue) (n : ℕ) (p : Packet)
    → Inv q n
    → Ensures (λ q' es. Inv q' (n + scheduled es)) (receive_high q p)
unfolding receive_high push_high
receive_high-Inv q n p (v, s) = elim (Bool-cases (leb (q.queuesize_high + p.size) q.maxsize)) [
  | inl b ↦ rw b (
      start_if_idle-Inv (push_high q p) q.serv n (push_high q p).enqueued_low
        (push_high q p).enqueued_high refl refl refl (push_high-Counted q p v (ground arith))
        (Ready-high q p q.serv n s))
  | inr b ↦ rw b (v, unchanged q n q.serv s)
]

admits_low_lem :
    (q : AeolusQueue) (prio : PktPriority) (size : ℕ)
    → Counted q
    → admits_low q prio size ≡ true
    → q.queuesize_low + size ≤ q.maxsize
unfolding admits_low
admits_low_lem q prio_lo size v e = ground arith
admits_low_lem q prio_mid size v e = ground arith
admits_low_lem q prio_hi size v e = ground arith
admits_low_lem q prio_none size v e = ground arith

receive_low-Inv :
    (q : AeolusQueue) (n : ℕ) (p : Packet)
    → Inv q n
    → Ensures (λ q' es. Inv q' (n + scheduled es)) (receive_low q p)
unfolding receive_low push_low
receive_low-Inv q n p (v, s) = elim (Bool-cases (admits_low q p.priority p.size)) [
  | inl b ↦ rw b (
      start_if_idle-Inv (push_low q p) q.serv n (push_low q p).enqueued_low
        (push_low q p).enqueued_high refl refl refl
        (push_low-Counted q p v (admits_low_lem q p.priority p.size v b))
        (Ready-low q p q.serv n s))
  | inr b ↦ rw b (v, unchanged q n q.serv s)
]

receive_at-Inv :
    (q : AeolusQueue) (n : ℕ) (prio : PktPriority) (p : Packet)
    → prio ≢ prio_none
    → Inv q n
    → Ensures (λ q' es. Inv q' (n + scheduled es)) (receive_at prio q p)
unfolding receive_at
receive_at-Inv q n prio_none p h v = absurd (h refl)
receive_at-Inv q n prio_hi p h v = receive_high-Inv q n p v
receive_at-Inv q n prio_mid p h v = receive_low-Inv q n p v
receive_at-Inv q n prio_lo p h v = receive_low-Inv q n p v

-- Let both sizes count the bytes that are held, each within the queue's size, which the speculative
-- threshold does not exceed, and one event be pending while there are packets, for the queue that
-- `_serv` names, and none otherwise. A packet that has a priority then fails no assertion, and the
-- same holds afterwards.
pub receive_packet-admission :
    (q : AeolusQueue) (n : ℕ) (p : Packet)
    → p.priority ≢ prio_none
    → Inv q n
    → Ensures (λ q' es. Inv q' (n + scheduled es)) (receive_packet q p)
unfolding receive_packet
receive_packet-admission q n p h v = receive_at-Inv q n p.priority p h v
