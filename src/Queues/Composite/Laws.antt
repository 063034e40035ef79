-- ===== src/Queues/Composite/Laws.antt =====
-- The trimming queue: its sizes, its service and its assertions.
use frontier_htsim.Prelude.{
  ℕ, suc, ◌+◌, ◌*◌, ◌≤◌, ◌<◌, ◌≡◌, refl, false, List, [], ◌∷◌, arith, Ensures, Ensures-bind,
  Ensures-after,
}
use frontier_htsim.Fifo
use frontier_htsim.Network.{Packet}
use frontier_htsim.Queues.Effects.{scheduled, bytes, sends_on}
use frontier_htsim.Queues.Port.{All}
use frontier_htsim.Queues.Composite.{
  CompositeQueue, Service, invalid, serves_low, serves_high, begin_service, take_turns, serve_next,
  serve_low, serve_high, take_low, take_high, count_high, complete_service, take,
}

-- A packet with its payload, of size at most `m`.
abbrev pub Whole : ℕ → Packet → Type 0
Whole m p = (p.is_header ≡ false) × (p.size ≤ m)

-- Both queues are counted, the low one holds packets with their payload, and it is whose turn it is.
pub record Counted (q : CompositeQueue) : Type 0 where
  pub low : q.queuesize_low ≡ bytes q.enqueued_low
  pub high : q.queuesize_high ≡ bytes q.enqueued_high
  pub high_bounded : q.queuesize_high ≤ 2 * q.maxsize
  pub whole : All (Whole q.maxsize) q.enqueued_low
  pub ratio : q.crt < q.ratio_high + q.ratio_low
  pub no_return : q.return_to_sender ≡ false

-- One event is pending while a packet is served, and none otherwise.
abbrev pub Served : CompositeQueue → Service → ℕ → Type 0
Served q invalid n = (n ≡ 0) × (q.enqueued_low ≡ []) × (q.enqueued_high ≡ [])
Served q serves_low n = (n ≡ 1) × (Fifo.empty q.enqueued_low ≡ false)
Served q serves_high n = (n ≡ 1) × (Fifo.empty q.enqueued_high ≡ false)

abbrev pub Inv : CompositeQueue → ℕ → Type 0
Inv q n = Counted q × Served q q.serv n

serve_lem :
    (q : CompositeQueue) (sv : Service) (n : ℕ) (random : ℕ) (l h : List Packet)
    → q.serv ≡ sv
    → q.enqueued_low ≡ l
    → q.enqueued_high ≡ h
    → Counted q
    → Served q sv (suc n)
    → Ensures (λ (q', p) es. Counted q' × (n ≡ 0) × (es ≡ [])) (take sv q random)
unfolding take take_low take_high count_high
serve_lem q invalid n random l h d e f v s = ground arith
serve_lem q serves_low n random [] h d e f v s = ground arith
serve_lem q serves_low n random (x ∷ l) h d e f v s = ground arith
serve_lem q serves_high n random l [] d e f v s = ground arith
serve_lem q serves_high n random l (y ∷ h) d e f v s = ground arith

serve_next-Inv :
    (q : CompositeQueue) (n : ℕ) (l h : List Packet)
    → q.enqueued_low ≡ l
    → q.enqueued_high ≡ h
    → q.serv ≡ invalid
    → n ≡ 0
    → Counted q
    → Ensures (λ q' es. Inv q' (n + scheduled es)) (serve_next q)
unfolding serve_next begin_service take_turns serve_low serve_high
serve_next-Inv q n [] [] e f d z v = ground arith
serve_next-Inv q n (x ∷ l) [] e f d z v = ground arith
serve_next-Inv q n [] (y ∷ h) e f d z v = ground arith
serve_next-Inv q n (x ∷ l) (y ∷ h) e f d z v = ground arith

uncounted : (q : CompositeQueue) → Counted q → Counted (record q { serv = invalid })
uncounted q v = record {
  low = v.low;
  high = v.high;
  high_bounded = v.high_bounded;
  whole = v.whole;
  ratio = v.ratio;
  no_return = v.no_return;
}

-- What holds of a trimming queue at an arrival (`Inv`: its sizes are counted, one event is pending
-- exactly while it holds packets, and it does not return packets) holds again after an event of its
-- own, which fails no assertion; so the queue is served again if it still holds packets.
pub complete_service-turns :
    (q : CompositeQueue) (n random : ℕ)
    → Inv q (suc n)
    → Ensures (λ q' es. Inv q' (n + scheduled es)) (complete_service q random)
unfolding complete_service
complete_service-turns q n random (v, s) =
    Ensures-bind _ _ (take q.serv q random) _
      (serve_lem q q.serv n random q.enqueued_low q.enqueued_high refl refl refl v s)
      (λ (q', p) es (c, z, k). rw k (
        Ensures-after (λ b fs. Inv b (n + scheduled fs)) (sends_on p ∷ [])
          (serve_next (record q' { serv = invalid }))
          (serve_next-Inv (record q' { serv = invalid }) n q'.enqueued_low q'.enqueued_high refl
            refl refl z (uncounted q' c))))
