-- ===== src/Tests/Arrivals.antt =====
-- Queues and what arrives at them.
use frontier_htsim.Prelude.{
  done, ◌+◌, ◌<◌, ◌≡◌, ◌⊎◌, refl, false, true, List, [], ◌∷◌, some, arith, Ensures,
}
use frontier_htsim.Queues.Effects.{scheduled, frees}
use frontier_htsim.Queues.Port.{Port, Input, arrives, expires, run}
use frontier_htsim.Queues.History.{IsHistory}
use frontier_htsim.Queues.DropTail
use frontier_htsim.Queues.DropTail.{Queue}
use frontier_htsim.Queues.DropTail.Laws as DropTailLaws
use frontier_htsim.Queues.Lossless
use frontier_htsim.Queues.Lossless.{LosslessQueue}
use frontier_htsim.Queues.Lossless.Runs.{Holds, start, run-start}
use frontier_htsim.Queues.Composite
use frontier_htsim.Queues.Composite.{CompositeQueue, serves_low, serves_high}
use frontier_htsim.Queues.Composite.Laws as CompositeLaws
use frontier_htsim.Queues.Aeolus
use frontier_htsim.Queues.Aeolus.{AeolusQueue}
use frontier_htsim.Queues.Aeolus.Laws as AeolusLaws
use frontier_htsim.Queues.Aeolus.Runs.{drawing, opened, run-opened}
use frontier_htsim.Queues.Random
use frontier_htsim.Queues.Random.{RandomQueue}
use frontier_htsim.Queues.Random.Laws.{receive_packet-chance}
use frontier_htsim.Network.{strip_payload}
use frontier_htsim.Queues.CutPayload
use frontier_htsim.Queues.CutPayload.{CutPayloadQueue, cut}
use frontier_htsim.Queues.CutPayload.Laws.{inherited, handlers-inherited}
use frontier_htsim.Tests.Samples.{link, whole, urgent, stop, go}

-- Two packets fit, the third is dropped.
abbrev crowd : List Input
crowd =
    arrives 1 whole
    ∷ arrives 2 whole
    ∷ arrives 3 whole
    ∷ expires 1200001
    ∷ arrives 1200002 whole
    ∷ []

run-fresh_example :
    (s : Port Queue) × (run DropTail.discipline (DropTailLaws.fresh link 3000) crowd ≡ some s)
    × DropTailLaws.Inv s.queue s.pending
    × IsHistory s.queue.enqueued s.queue.num_drops s.log (whole ∷ whole ∷ whole ∷ whole ∷ [])
run-fresh_example = DropTailLaws.run-fresh link 3000 crowd refl

abbrev lossless : LosslessQueue
lossless = record (Lossless.init link 50000) { high_threshold = 20000; low_threshold = 3000 }

lossless_lem : Lossless.init_thresholds (Lossless.init link 50000) 4 1500 ≡ some lossless
unfolding Lossless.init_thresholds Lossless.init
lossless_lem = refl

abbrev frames : List Input
frames =
    arrives 1 whole ∷ arrives 2 stop ∷ arrives 3 whole ∷ expires 1200001 ∷ arrives 1200002 go ∷ []

run-start_example :
    (s : Port LosslessQueue) × (run Lossless.discipline (start lossless) frames ≡ some s)
    × Holds s.queue s.pending s.log (whole ∷ stop ∷ whole ∷ go ∷ [])
run-start_example = run-start link 50000 4 1500 lossless frames lossless_lem

-- A full low queue, with a packet of it in service.
abbrev full : CompositeQueue
full = record {
  base = link;
  maxsize = 3000;
  enqueued_low = whole ∷ whole ∷ [];
  enqueued_high = [];
  queuesize_low = 3000;
  queuesize_high = 0;
  serv = serves_low;
  ratio_high = 100000;
  ratio_low = 1;
  crt = 0;
  ecn_minthresh = 6000;
  ecn_maxthresh = 6000;
  return_to_sender = false;
  num_packets = 0;
  num_headers = 0;
  num_acks = 0;
  num_nacks = 0;
  num_pulls = 0;
  num_stripped = 0;
  num_bounced = 0;
  num_drops = 0;
}

full-Inv : CompositeLaws.Inv full 1
full-Inv = (
  record {
    low = refl;
    high = refl;
    high_bounded = omega arith;
    whole = ((refl, omega arith), ((refl, omega arith), tt));
    ratio = omega arith;
    no_return = refl;
  },
  (refl, refl),
)

complete_service-turns_example :
    Ensures (λ q' es. CompositeLaws.Inv q' (0 + scheduled es)) (Composite.complete_service full 5)
complete_service-turns_example = CompositeLaws.complete_service-turns full 0 5 full-Inv

abbrev aeolus : AeolusQueue
aeolus = record {
  base = link;
  maxsize = 3000;
  speculative_thresh = 1600;
  enqueued_low = [];
  enqueued_high = [];
  queuesize_low = 0;
  queuesize_high = 0;
  serv = Aeolus.invalid;
  ratio_high = 100000;
  ratio_low = 1;
  crt = 0;
  ecn_minthresh = 6000;
  ecn_maxthresh = 6000;
  num_packets = 0;
  num_speculative_packets = 0;
  num_prio_packets = 0;
}

aeolus_lem : Aeolus.init link 3000 1600 ≡ done aeolus []
unfolding Aeolus.init
aeolus_lem = refl

-- The second speculative packet does not fit.
abbrev mixed : List Input
mixed = arrives 1 whole ∷ arrives 2 whole ∷ arrives 3 urgent ∷ expires 1200001 ∷ []

run-opened_example :
    (s : Port AeolusQueue) × (run (drawing (λ now. 5)) (opened aeolus) mixed ≡ some s)
    × AeolusLaws.Inv s.queue s.pending
run-opened_example =
    run-opened (λ now. 5) link 3000 1600 aeolus mixed aeolus_lem
      (ground arith, (ground arith, (ground arith, tt)))

abbrev held : Queue
held = record {
  base = link;
  maxsize = 6000;
  queuesize = 3000;
  enqueued = whole ∷ whole ∷ [];
  num_drops = 0;
}

abbrev risky : RandomQueue
risky = record { queue = held; drop = 2000; buffer_drops = 0 }

held-Inv : DropTailLaws.Inv held 1
held-Inv = record { counted = refl; bounded = omega arith; paired = refl; served = refl }

receive_packet-chance_example :
    Ensures
      (λ q' es.
        DropTailLaws.Inv q'.queue (1 + scheduled es)
        × ((q'.queue.enqueued ≡ whole ∷ whole ∷ whole ∷ [])
            ⊎ ((es ≡ frees whole ∷ [])
                × (q'.queue.enqueued ≡ whole ∷ whole ∷ [])
                × ((false ≡ true) ⊎ (6000 < 3000 + 1500 + 2000)))))
      (Random.receive_packet risky false true whole)
receive_packet-chance_example = receive_packet-chance risky 1 false true whole held-Inv

-- The queue holds the 1500 bytes that it may hold without cutting payloads.
abbrev half_full : CutPayloadQueue
half_full = record (CutPayload.init link 3000) {
  queue = record (DropTail.init link 3000) { queuesize = 1500; enqueued = whole ∷ [] };
}

handlers-inherited_example :
    (inherited (CutPayload.receive_packet half_full whole)
      ≡ DropTail.receive_packet half_full.queue (record whole { is_header = true; size = 64 }))
    × (inherited (CutPayload.complete_service half_full 9000000)
        ≡ DropTail.complete_service half_full.queue 9000000)
unfolding cut strip_payload CutPayload.init DropTail.init
handlers-inherited_example =
    handlers-inherited half_full (record half_full { num_stripped = 1 }) whole
      (record whole { is_header = true; size = 64 }) 9000000 refl
