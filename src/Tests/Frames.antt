-- ===== src/Tests/Frames.antt =====
-- PAUSE frames.
use frontier_htsim.Prelude.{◌≡◌, refl, [], ◌∷◌, none, arith, Ensures}
use frontier_htsim.Queues.Effects.{scheduled}
use frontier_htsim.Queues.Port.{arrives, expires, run}
use frontier_htsim.Queues.Pause.{ready, paused, is_pause}
use frontier_htsim.Queues.Ecn
use frontier_htsim.Queues.Ecn.{EcnQueue}
use frontier_htsim.Queues.Ecn.Resume.{resume_aborts}
use frontier_htsim.Queues.Priority.{PriorityQueue, q_hi, receive_pause}
use frontier_htsim.Queues.Priority.Pauses.{second_pause_resumes}
use frontier_htsim.Tests.Samples.{link, whole, urgent, stop, go}

abbrev marking : EcnQueue
marking = record {
  queue = record {
    base = link;
    maxsize = 6000;
    queuesize = 3000;
    enqueued = whole ∷ whole ∷ [];
    num_drops = 0;
  };
  k = 1000;
  state_send = ready;
}

resume_aborts_example :
    run Ecn.discipline
      (record { queue = marking; pending = 1; log = [] })
      (arrives 4 stop ∷ arrives 4 go ∷ expires 4 ∷ expires 4 ∷ expires 4 ∷ [])
    ≡ none
unfolding is_pause
resume_aborts_example =
    resume_aborts 4 marking whole (whole ∷ []) stop go [] refl (omega arith) refl refl (omega arith)
      refl refl

abbrev host : PriorityQueue
host = record {
  base = link;
  lo = record { held = []; size = 0 };
  mid = record { held = []; size = 0 };
  hi = record { held = urgent ∷ []; size = 64 };
  servicing = q_hi;
  state_send = paused;
  senders = 11 ∷ 12 ∷ [];
}

second_pause_resumes_example :
    Ensures (λ q' es. (q'.state_send ≡ ready) × (scheduled es ≡ 1)) (receive_pause host stop)
second_pause_resumes_example = second_pause_resumes host stop urgent [] refl refl (omega arith)
