-- ===== src/Eqds/Nic/Runs.antt =====
-- The NIC over a whole run, with its sources and receivers.
use frontier_htsim.Prelude.{
  ℕ, ◌+◌, ◌^◌, ◌<◌, ◌≤◌, ◌≡◌, refl, sym, subst, ap, ◌∙◌, min, Bool, true, false, List, [], ◌∷◌,
  ◌++◌, Option, none, some, arith, append_assoc, if◌then◌else◌, Outcome, done, aborted, Ensures,
}
use frontier_htsim.Network.{Packet}
use frontier_htsim.Eqds.Nic.{EqdsNic, NicEffect, init, waiting, do_next_event, send_control_packet}
use frontier_htsim.Eqds.Nic.Laws.{scheduled, departed, asked, Inv, After, do_next_event-After}
use frontier_htsim.Eqds.Nic.Answers.{answer, answer-After, request, request-After}
use frontier_htsim.Eqds.Nic.Control.{send_control_packet-After}

-- The time, the pending events, the source that is to answer, and the control packets that were sent
-- and that were handed in.
pub record Link : Type 0 where
  pub nic : EqdsNic
  pub now : ℕ
  pub events : List ℕ
  pub answers : Option ℕ
  pub sent : List Packet
  pub given : List Packet

-- A source asks to send, and if it is let at once it sends that many bytes or cannot; a receiver hands
-- in a control packet; time passes, but not beyond an event; the event comes; or the source whose turn
-- it is sends that many bytes or cannot.
pub data NicInput : Type 0 where
  requests : ℕ → Option ℕ → NicInput
  controls : Packet → NicInput
  waits : ℕ → NicInput
  fires : NicInput
  replies : Option ℕ → NicInput

abbrev follow_up : Link → Outcome NicEffect EqdsNic → Option Link
follow_up w (done nic es) = some (record w {
  nic = nic;
  events = w.events ++ scheduled es;
  answers = asked es;
  sent = w.sent ++ departed es;
})
follow_up w aborted = none

-- The time `t`, or the first event if that is before.
abbrev until : ℕ → List ℕ → ℕ
until t [] = t
until t (e ∷ es) = min t e

abbrev fire : Link → List ℕ → Option Link
fire w [] = some w
fire w (t ∷ ts) = follow_up (record w { now = t; events = ts }) (do_next_event w.nic t)

-- An input for which it is not the time changes nothing.
abbrev step : Link → Option ℕ → NicInput → Option Link
step w none (requests src reply) = follow_up w (request w.nic src reply w.now)
step w none (controls p) =
    follow_up (record w { given = w.given ++ p ∷ [] }) (send_control_packet w.nic p w.now)
step w none (waits d) = some (record w { now = until (w.now + d) w.events })
step w none fires = fire w w.events
step w none (replies reply) = some w
step w (some src) (requests other reply) = some w
step w (some src) (controls p) = some w
step w (some src) (waits d) = some w
step w (some src) fires = some w
step w (some src) (replies reply) = follow_up w (answer w.nic src reply w.now)

abbrev follow : (Link → Option Link) → Option Link → Option Link
follow f none = none
follow f (some w) = f w

-- `none` is a failed assertion.
pub run : Link → List NicInput → Option Link
run w [] = some w
run w (i ∷ is) = follow (λ v. run v is) (step w w.answers i)

-- What holds of the NIC, and every control packet that was handed in was sent or waits, in order.
pub record Orderly (start_size : ℕ) (w : Link) : Type 0 where
  pub inv : Inv start_size w.nic w.now w.events w.answers
  pub order : w.sent ++ w.nic.control ≡ w.given

-- Time passes until the event.
until_due : (t x : ℕ) (events : List ℕ) → events ≡ x ∷ [] → until t events ≤ x
until_due t x events e = subst (λ evs. until t evs ≤ x) (sym e) (omega arith)

due_event :
    (b : Bool) (x t : ℕ) (ts : List ℕ)
    → t ∷ ts ≡ (if b then x ∷ [] else [])
    → (b ≡ true) × (t ≡ x) × (ts ≡ [])
due_event true x t ts e = (refl, ground (arith, e), ground (arith, e))
due_event false x t ts e = absurd (ground (arith, e))

module _ (start_size : ℕ) where
  follow_up-Orderly :
      (w : Link) (m : Outcome NicEffect EqdsNic) (ps : List Packet)
      → Ensures (After start_size w.now w.events ps) m
      → w.sent ++ ps ≡ w.given
      → (v : Link) × (follow_up w m ≡ some v) × Orderly start_size v
  follow_up-Orderly w (done nic es) ps a o = (
    record w {
      nic = nic;
      events = w.events ++ scheduled es;
      answers = asked es;
      sent = w.sent ++ departed es;
    },
    refl,
    record {
      inv = a.inv;
      order = append_assoc w.sent (departed es) nic.control ∙ ap (λ qs. w.sent ++ qs) a.order ∙ o;
    },
  )
  follow_up-Orderly w aborted ps a o = absurd a

  waits-Inv :
      (nic : EqdsNic) (now d : ℕ) (events : List ℕ)
      → Inv start_size nic now events none
      → Inv start_size nic (until (now + d) events) events none
  waits-Inv nic now d events v = record {
    counted = v.counted;
    counted_bytes = v.counted_bytes;
    turn =
        (v.turn.0, λ q. until_due (now + d) nic.send_end_time events (ground (arith, v.turn.0, q)));
  }

  fire-Orderly :
      (w : Link) (es : List ℕ)
      → w.events ≡ es
      → Inv start_size w.nic w.now w.events none
      → Orderly start_size w
      → (v : Link) × (fire w es ≡ some v) × Orderly start_size v
  fire-Orderly w [] e i h = (w, refl, h)
  fire-Orderly w (t ∷ ts) e i h =
      let (wait, at, last) =
        due_event (waiting w.nic) w.nic.send_end_time t ts (sym e ∙ i.turn.0) in
      follow_up-Orderly (record w { now = t; events = ts }) (do_next_event w.nic t) w.nic.control
        (subst (λ evs. Ensures (After start_size t evs w.nic.control) (do_next_event w.nic t))
          (sym last) (do_next_event-After start_size w.nic t i.counted i.counted_bytes at wait))
        h.order

  reply-Orderly :
      (w : Link) (src : ℕ) (reply : Option ℕ)
      → Inv start_size w.nic w.now w.events (some src)
      → Orderly start_size w
      → (v : Link) × (follow_up w (answer w.nic src reply w.now) ≡ some v) × Orderly start_size v
  reply-Orderly w src reply i h =
      let ev : w.events ≡ [] = i.turn.0 in
      follow_up-Orderly w (answer w.nic src reply w.now) w.nic.control
        (subst
          (λ evs. Ensures (After start_size w.now evs w.nic.control) (answer w.nic src reply w.now))
          (sym ev)
          (answer-After start_size w.nic src w.now reply
            (subst (λ evs. Inv start_size w.nic w.now evs (some src)) ev i)))
        h.order

  step-Orderly :
      (w : Link) (answers : Option ℕ) (i : NicInput)
      → w.answers ≡ answers
      → Orderly start_size w
      → (v : Link) × (step w answers i ≡ some v) × Orderly start_size v
  step-Orderly w none (requests src reply) e h =
      follow_up-Orderly w (request w.nic src reply w.now) w.nic.control
        (request-After start_size w.nic src w.now reply w.events
          (subst (λ a. Inv start_size w.nic w.now w.events a) e h.inv))
        h.order
  step-Orderly w none (controls p) e h =
      follow_up-Orderly (record w { given = w.given ++ p ∷ [] }) (send_control_packet w.nic p w.now)
        (w.nic.control ++ p ∷ [])
        (send_control_packet-After start_size w.nic p w.now w.events
          (subst (λ a. Inv start_size w.nic w.now w.events a) e h.inv))
        (sym (append_assoc w.sent w.nic.control (p ∷ [])) ∙ ap (λ qs. qs ++ p ∷ []) h.order)
  step-Orderly w none (waits d) e h =
      let t = until (w.now + d) w.events in
      (
        record w { now = t },
        refl,
        record {
          inv =
              subst (λ a. Inv start_size w.nic t w.events a) (sym e)
                (waits-Inv w.nic w.now d w.events
                  (subst (λ a. Inv start_size w.nic w.now w.events a) e h.inv));
          order = h.order;
        },
      )
  step-Orderly w none fires e h =
      fire-Orderly w w.events refl (subst (λ a. Inv start_size w.nic w.now w.events a) e h.inv) h
  step-Orderly w none (replies reply) e h = (w, refl, h)
  step-Orderly w (some src) (requests other reply) e h = (w, refl, h)
  step-Orderly w (some src) (controls p) e h = (w, refl, h)
  step-Orderly w (some src) (waits d) e h = (w, refl, h)
  step-Orderly w (some src) fires e h = (w, refl, h)
  step-Orderly w (some src) (replies reply) e h =
      reply-Orderly w src reply (subst (λ a. Inv start_size w.nic w.now w.events a) e h.inv) h

  run-Orderly :
      (is : List NicInput) (w : Link)
      → Orderly start_size w
      → (v : Link) × (run w is ≡ some v) × Orderly start_size v
  unfolding run
  run-Orderly [] w h = (w, refl, h)
  run-Orderly (i ∷ is) w h =
      let (t, e, u) = step-Orderly w w.answers i refl h in
      let (v, f, k) = run-Orderly is t u in (v, ap (follow (λ s. run s is)) e ∙ f, k)

abbrev pub idle_link : ℕ → ℕ → Link
idle_link linkspeed control_size = record {
  nic = init linkspeed control_size;
  now = 0;
  events = [];
  answers = none;
  sent = [];
  given = [];
}

-- Sources ask a new NIC to send, receivers hand in control packets, time passes up to the next
-- event, events come, and the source whose turn it is sends or cannot, in any order. No assertion
-- fails. After it the NIC counts the sources and the bytes of the control packets that wait, the
-- latter as a word above what `_control_size` held at the start, whatever that was; while no source
-- is asked, one event is pending for the end of the transmission if anyone waits and none otherwise,
-- and that end has not passed then; while one is asked, it is the first that waits, and no event is
-- pending; and the control packets that were handed in have left, in order, but those that wait
-- behind them.
pub run-idle_link :
    (linkspeed control_size : ℕ) (is : List NicInput)
    → control_size < 2 ^ 64
    → (w : Link) × (run (idle_link linkspeed control_size) is ≡ some w) × Orderly control_size w
unfolding init waiting
run-idle_link linkspeed control_size is small =
    run-Orderly control_size is (idle_link linkspeed control_size) (record {
      inv = record {
        counted = refl;
        counted_bytes = omega (arith, small);
        turn = (refl, λ q. absurd (ground (arith, q)));
      };
      order = refl;
    })
