-- ===== src/Queues/Composite/Trim.antt =====
-- What arrives at the trimming queue: packets that are kept, trimmed or refused.
use frontier_htsim.Prelude.{ℕ, ◌≡◌, false, List, ◌&&◌}
use frontier_htsim.Fifo
use frontier_htsim.Queues.Effects.{Effect, scheduled}
use frontier_htsim.Queues.Composite.{CompositeQueue, Service, invalid, serves_low, serves_high}
use frontier_htsim.Queues.Composite.Laws.{Counted, Served}

-- What holds before `start_if_idle`: where no packet is served, there is one to serve.
abbrev Ready : CompositeQueue → Service → ℕ → Type 0
Ready q invalid n = (n ≡ 0) × (Fifo.empty q.enqueued_low && Fifo.empty q.enqueued_high ≡ false)
Ready q serves_low n = Served q serves_low n
Ready q serves_high n = Served q serves_high n

-- What placing the header of a booted packet leaves as it was.
abbrev Kept : CompositeQueue → CompositeQueue → List Effect → Type 0
Kept q q' es =
    Counted q'
    × (scheduled es ≡ 0)
    × (q'.serv ≡ q.serv)
    × (q'.maxsize ≡ q.maxsize)
    × (Fifo.empty q.enqueued_high ≡ false → Fifo.empty q'.enqueued_high ≡ false)
