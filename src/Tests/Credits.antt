-- ===== src/Tests/Credits.antt =====
-- The two sides of a lossless port, and the record of busy times.
use frontier_htsim.Prelude.{
  List, inl, inr, ◌≡◌, refl, true, false, [], ◌∷◌, some, arith, if◌then◌else◌, Ensures,
}
use frontier_htsim.Queues.Effects.{signals}
use frontier_htsim.Queues.LosslessInput.{LosslessInputQueue, count_in, completed_service}
use frontier_htsim.Queues.LosslessInput.Credit.{
  IsCredit, count_in-IsCredit, completed_service-IsCredit,
}
use frontier_htsim.Queues.LosslessOutput
use frontier_htsim.Queues.LosslessOutput.{LosslessOutputQueue}
use frontier_htsim.Queues.LosslessOutput.Laws as Egress
use frontier_htsim.Queues.Utilization.{BaseQueue, log_packet_send}
use frontier_htsim.Queues.Utilization.Window.{
  pairs, recent, IsTimed, log_packet_send_late, log_packet_send_early,
}
use frontier_htsim.Network.{Packet}
use frontier_htsim.Queues.Port.{Port, Input, arrives, expires, run}
use frontier_htsim.Queues.Pause.{is_pause}
use frontier_htsim.Queues.LosslessOutput.Runs.{discipline, idle_port, run-idle_port}
use frontier_htsim.Tests.Samples.{link, whole, stop, go}

abbrev ingress : LosslessInputQueue
ingress = record {
  id = 3;
  queuesize = 9000;
  pausing = false;
  has_switch = true;
  low_threshold = 3000;
  high_threshold = 10000;
}

ingress-IsCredit : IsCredit ingress 9000
ingress-IsCredit = record {
  counted = refl;
  thresholds = omega arith;
  full = λ e. omega arith;
  kept_full = λ e. omega arith;
}

count_in-IsCredit_example :
    Ensures
      (λ q' es. IsCredit q' 10500 × (es ≡ (if q'.pausing then signals 1000 ∷ [] else [])))
      (count_in ingress 1500)
count_in-IsCredit_example = count_in-IsCredit ingress 9000 1500 (omega arith) ingress-IsCredit

abbrev choked : LosslessInputQueue
choked = record ingress { queuesize = 3100; pausing = true }

choked-IsCredit : IsCredit choked 3100
choked-IsCredit = record {
  counted = refl;
  thresholds = omega arith;
  full = λ e. omega arith;
  kept_full = λ e. omega arith;
}

completed_service-IsCredit_example :
    Ensures
      (λ q' es. IsCredit q' 1600 × (es ≡ (if q'.pausing then [] else signals 0 ∷ [])))
      (completed_service choked whole)
completed_service-IsCredit_example = completed_service-IsCredit choked 1600 whole choked-IsCredit

abbrev forwarded : Packet
forwarded = record whole { ingressqueue = some 3 }

abbrev crossing : List Input
crossing =
    arrives 1 forwarded
    ∷ arrives 2 stop
    ∷ arrives 3 forwarded
    ∷ expires 1200001
    ∷ arrives 1300000 go
    ∷ []

run-idle_port_example :
    (s : Port LosslessOutputQueue) × (run discipline
        (idle_port (LosslessOutput.init link 10000000000 6000 true 1000))
        crossing
      ≡ some s)
    × Egress.Inv s.queue s.pending
unfolding is_pause
run-idle_port_example = run-idle_port link 10000000000 6000 true 1000 crossing refl (
  inr (refl, 3, refl, omega arith),
  (inl refl, (inr (refl, 3, refl, omega arith), (inl refl, tt))),
)

abbrev used : BaseQueue
used = record link { busystart = 3000000 ∷ []; busyend = 4200000 ∷ []; busy = 1200000 }

used-IsTimed : IsTimed 4200000 4200000 used
used-IsTimed = record { in_order = (omega arith, omega arith, omega arith, tt); counted = refl }

log_packet_send_late_example :
    (b' : BaseQueue) × (log_packet_send used 40000000 1200000 ≡ some b')
    × IsTimed 10000000 40000000 b'
    × (pairs b'.busystart b'.busyend ≡ (38800000, 40000000) ∷ [])
unfolding pairs recent
log_packet_send_late_example =
    log_packet_send_late used 4200000 4200000 40000000 1200000 used-IsTimed (omega arith)
      (omega arith) (omega arith) (omega arith) (omega arith) (omega arith)

log_packet_send_early_example :
    log_packet_send used 5400000 1200000
    ≡ some (record used { busystart = []; busyend = []; busy = 0 })
log_packet_send_early_example =
    log_packet_send_early used 4200000 4200000 5400000 1200000 used-IsTimed (omega arith)
      (omega arith) (omega arith) (omega arith) (omega arith) (omega arith)
