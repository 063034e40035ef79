-- ===== src/Tests/Turns.antt =====
-- The queues that take turns over their flows.
use frontier_htsim.Prelude.{
  ℕ, ◌≤◌, ◌≡◌, refl, true, false, List, [], ◌∷◌, ◌+◌, none, some, arith, Ensures,
}
use frontier_htsim.Queues.Pause.{ready, is_pause}
use frontier_htsim.Queues.Priority.{q_hi}
use frontier_htsim.Queues.Pull.{FairPullQueue}
use frontier_htsim.Queues.Pull.Waits.{dequeued, waits_turns}
use frontier_htsim.Queues.Fair
use frontier_htsim.Queues.Fair.{FairPriorityQueue, FairLevel}
use frontier_htsim.Queues.Fair.Frames.{Overwritten, frame_overwrites}
use frontier_htsim.Queues.Effects.{scheduled}
use frontier_htsim.Queues.FifoPull
use frontier_htsim.Queues.FifoPull.Runs as FifoRuns
use frontier_htsim.Queues.FifoPull.Runs.{
  Counted, prefers_flow, enqueues, dequeues, flushes, run-init_count,
}
use frontier_htsim.Queues.Port.{Port, Input, arrives, expires, run}
use frontier_htsim.Queues.EcnPrio
use frontier_htsim.Queues.EcnPrio.{EcnPrioQueue, band_lo}
use frontier_htsim.Queues.EcnPrio.Laws.{Inv, First, complete_service-First}
use frontier_htsim.Queues.EcnPrio.Runs.{tossing, idle, run-idle_lanes}
use frontier_htsim.Queues.CtrlPrio.Laws.{counts}
use frontier_htsim.Queues.CtrlPrio.Arrivals.{Fits}
use frontier_htsim.Queues.CtrlPrio.Runs.{Comes, unused, run-unused}
use frontier_htsim.Network.{Packet, has_type, ndpack, prio_hi}
use frontier_htsim.Tests.Samples.{link, packet, whole, urgent, go}

-- Flow 2 is next; it has three packets, and then flow 5 and flow 1 one each.
abbrev three_flows : FairPullQueue
three_flows = record {
  pull_count = 5;
  preferred_flow = none;
  before = (1, whole ∷ []) ∷ [];
  ahead = (2, whole ∷ whole ∷ whole ∷ []) ∷ (4, []) ∷ (5, whole ∷ []) ∷ [];
}

waits_turns_example : (n : ℕ) × (n ≤ 3) × Ensures (λ o fx. o ≡ some whole) (dequeued n three_flows)
waits_turns_example =
    waits_turns ((2, whole ∷ whole ∷ whole ∷ []) ∷ (4, []) ∷ (5, whole ∷ []) ∷ []) [] three_flows 1
      whole [] refl refl

abbrev empty_level : FairLevel
empty_level = record {
  queue = record { pull_count = 0; preferred_flow = none; before = []; ahead = [] };
  size = 0;
}

-- A packet is in service, and another is held.
abbrev serving : FairPriorityQueue
serving = record {
  base = link;
  lo = empty_level;
  mid = empty_level;
  hi = record {
    queue = record {
      pull_count = 1;
      preferred_flow = none;
      before = [];
      ahead = (1, urgent ∷ []) ∷ [];
    };
    size = 128;
  };
  sending = some urgent;
  servicing = q_hi;
  state_send = ready;
  senders = 3 ∷ [];
}

go-is_pause : is_pause go ≡ true
unfolding is_pause
go-is_pause = refl

frame_overwrites_example :
    Ensures (Overwritten serving 1 [] [] [] urgent) (Fair.receive_packet serving go)
frame_overwrites_example =
    frame_overwrites serving go urgent urgent [] [] 1 [] refl (omega arith) (omega arith) refl tt
      go-is_pause refl

-- The packet in service is the only one.
abbrev last_one : FairPriorityQueue
last_one = record serving { hi = record { queue = empty_level.queue; size = 64 } }

-- The calls of a queue for all flows, with a preferred flow.
run-init_count_example :
    Ensures
      (λ q' fx. Counted q')
      (FifoRuns.run
        (prefers_flow 1 ∷ enqueues whole ∷ enqueues urgent ∷ dequeues ∷ flushes 1 ∷ [])
        FifoPull.init)
run-init_count_example =
    run-init_count (prefers_flow 1 ∷ enqueues whole ∷ enqueues urgent ∷ dequeues ∷ flushes 1 ∷ [])

-- A packet of each priority; the second of low priority is dropped.
abbrev two_levels : List Input
two_levels = arrives 1 whole ∷ arrives 2 urgent ∷ arrives 3 whole ∷ expires 1200001 ∷ []

run-idle_lanes_example :
    (s : Port EcnPrioQueue) × (run
        (tossing (λ now. true))
        (idle (EcnPrio.init link 3000 2000 500 1000))
        two_levels
      ≡ some s)
    × Inv s.queue s.pending
run-idle_lanes_example =
    run-idle_lanes (λ now. true) link 3000 2000 500 1000 two_levels
      (
        (ground arith, ground arith),
        ((ground arith, ground arith), ((ground arith, ground arith), tt)),
      )

-- Both queues hold a packet, and the low one is served.
abbrev both : EcnPrioQueue
both = record {
  base = link;
  lo = record { enqueued = whole ∷ whole ∷ []; size = 3000; maxsize = 3000; ecn_thresh = 1000 };
  hi = record { enqueued = urgent ∷ []; size = 64; maxsize = 3000; ecn_thresh = 1000 };
  num_packets = 0;
  num_drops = 0;
  serv = band_lo;
  ecn = true;
}

both-Inv : Inv both 1
both-Inv = ground arith

complete_service-First_example :
    Ensures (λ q' es. Inv q' (0 + scheduled es) × First q') (EcnPrio.complete_service both)
complete_service-First_example = complete_service-First both 0 both-Inv

abbrev data_ack : Packet
data_ack = record (packet ndpack 64 0) { priority = prio_hi }

whole-Fits : Fits 2000 whole
whole-Fits = record {
  size = omega arith;
  two_levels = (ground arith, ground arith);
  control = λ e. ground arith;
}

data_ack-Fits : Fits 2000 data_ack
unfolding has_type counts
data_ack-Fits = record {
  size = omega arith;
  two_levels = (ground arith, ground arith);
  control = λ e. refl;
}

-- Data and an acknowledgement of NDP, which goes first, an event for each, and data again.
abbrev ndp_arrivals : List Input
ndp_arrivals =
    arrives 1 whole
    ∷ arrives 2 data_ack
    ∷ expires 1200001
    ∷ expires 1251201
    ∷ arrives 1300000 whole
    ∷ []

run-unused_example : Comes (λ now. false) 2000 (unused link 2000) ndp_arrivals
run-unused_example =
    run-unused (λ now. false) link 2000 ndp_arrivals (whole-Fits, (data_ack-Fits, (whole-Fits, tt)))
