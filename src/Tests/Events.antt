-- ===== src/Tests/Events.antt =====
-- Events, triggers and pipes.
use frontier_htsim.Prelude.{◌≡◌, refl, false, List, [], ◌∷◌, some, arith, done, Ensures}
use frontier_htsim.EventList.{
  EventList, Entry, cancel_pending_source, erase_source, insert, source_is_pending, do_next_event,
  Dispatch, runs, next_trigger, next_source, trigger_is_pending, source_is_pending_rel,
}
use frontier_htsim.EventList.Order.{IsOrdered}
use frontier_htsim.EventList.Runs.{
  Call, schedules, schedules_rel, triggers, nexts, cancels, run, perform, run-Follows, Between,
  Trace,
}
use frontier_htsim.Trigger.{BarrierTrigger, activate_barrier, SingleShotTrigger, MultiShotTrigger}
use frontier_htsim.Trigger.Laws.{activate_times, activate_barrier_times}
use frontier_htsim.Pipe
use frontier_htsim.Pipe.Callback
use frontier_htsim.Pipe.Callback.{redirect, do_next_event-redirect}
use frontier_htsim.Pipe.{Pipe, PktRecord, PipeEffect, blank, pends_rel, pends_at, forwards}
use frontier_htsim.Pipe.Buffer.{
  as_buffer, inflight, do_next_event-inflight, receive_packet-inflight,
}
use frontier_htsim.CircularBuffer.Window.{IsValid}
use frontier_htsim.Tests.Samples.{whole}

abbrev early : Entry
early = record { when = 10; source = 1; handle = 0 }

abbrev late : Entry
late = record { when = 20; source = 2; handle = 1 }

abbrev waiting : List Entry
waiting = early ∷ late ∷ []

abbrev new_entry : Entry
new_entry = record { when = 10; source = 3; handle = 2 }

abbrev clock : EventList
clock = record {
  endtime = 0;
  lasteventtime = 5;
  pendingsources = waiting;
  pending_triggers = [];
  next_handle = 2;
}

abbrev schedule : List Call
schedule =
    schedules 4 10 ∷ nexts ∷ nexts ∷ schedules_rel 5 3 ∷ triggers 9 ∷ cancels 2 ∷ nexts ∷ nexts ∷ []

abbrev ended : EventList
ended = record {
  endtime = 0;
  lasteventtime = 13;
  pendingsources = [];
  pending_triggers = [];
  next_handle = 4;
}

abbrev happened : Trace
happened = (10, runs 1) ∷ (10, runs 4) ∷ (10, Dispatch.activates 9) ∷ (13, runs 5) ∷ []

run-schedule : run clock schedule ≡ some (ended, happened)
unfolding run perform source_is_pending source_is_pending_rel trigger_is_pending do_next_event
    next_trigger next_source insert cancel_pending_source erase_source
run-schedule = refl

run-Follows_example : IsOrdered ended × Between 5 13 happened
run-Follows_example = run-Follows clock schedule (omega arith, (omega arith, tt)) run-schedule

abbrev barrier : BarrierTrigger
barrier = record { targets = 1 ∷ 2 ∷ []; activations_remaining = 3 }

activate_barrier_times_example :
    (activate_times activate_barrier 2 barrier
      ≡ done (record barrier { activations_remaining = 1 }) [])
    × (activate_times activate_barrier 3 barrier
        ≡ done (record barrier { activations_remaining = 0 }) (1 ∷ 2 ∷ []))
activate_barrier_times_example = activate_barrier_times barrier 2 (omega arith) refl

abbrev single : SingleShotTrigger
single = record { targets = 1 ∷ 2 ∷ []; is_done = false }

abbrev multi : MultiShotTrigger
multi = record { targets = 1 ∷ 2 ∷ 3 ∷ []; next = 1 }

abbrev flying : PktRecord
flying = record { time = 1000; pkt = some whole }

abbrev behind : PktRecord
behind = record { time = 1200; pkt = some whole }

abbrev wire : Pipe
wire = record {
  delay = 500;
  inflight_v = flying ∷ behind ∷ blank ∷ blank ∷ [];
  count = 2;
  next_insert = 2;
  next_pop = 0;
  size = 4;
}

wire-IsValid : IsValid (as_buffer wire)
wire-IsValid = record { sized = refl; room = omega arith; pop_in = omega arith; push_at = refl }

do_next_event-inflight_example :
    Ensures
      (λ p' es.
        IsValid (as_buffer p')
        × (inflight p' ≡ behind ∷ [])
        × (p'.delay ≡ 500)
        × (es ≡ forwards whole ∷ pends_at 1200 ∷ []))
      (Pipe.do_next_event wire)
do_next_event-inflight_example =
    do_next_event-inflight wire flying (behind ∷ []) whole wire-IsValid refl refl

receive_packet-inflight_example :
    Ensures
      (λ p' es.
        IsValid (as_buffer p')
        × (inflight p' ≡ flying ∷ behind ∷ record { time = 1400; pkt = some whole } ∷ [])
        × (p'.delay ≡ 500)
        × (es ≡ []))
      (Pipe.receive_packet wire 900 whole)
receive_packet-inflight_example = receive_packet-inflight wire 900 whole wire-IsValid

do_next_event-redirect_example :
    Callback.do_next_event (some 4) wire ≡ redirect (some 4) (Pipe.do_next_event wire)
do_next_event-redirect_example = do_next_event-redirect (some 4) wire
