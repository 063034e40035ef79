-- ===== src/Eqds/Nic/Laws.antt =====
-- The NIC between its calls: what waits is counted, and one event is pending for it.
use frontier_htsim.Prelude.{
  ℕ, ◌+◌, ◌%◌, ◌^◌, ◌≤◌, ◌≡◌, refl, sym, ap, ◌∙◌, true, false, not, ◌&&◌, List, [], ◌∷◌, ◌++◌,
  Option, none, some, ltb, ◌==◌, if◌then◌else◌, if_cases, arith, length, add64, sub64, ◌>>◌, assert,
  Ensures, Ensures-mono, Ensures-assert, Ensures-after,
}
use frontier_htsim.Fifo
use frontier_htsim.Network.{Packet}
use frontier_htsim.Eqds.Nic.{
  EqdsNic, NicEffect, schedules, lets_send, sends, delta, waiting, schedule_next, let_send,
  send_first, next_crt, take_turns, do_next_event,
}

abbrev pub scheduled : List NicEffect → List ℕ
scheduled [] = []
scheduled (schedules t ∷ es) = t ∷ scheduled es
scheduled (lets_send src ∷ es) = scheduled es
scheduled (sends p ∷ es) = scheduled es

abbrev pub departed : List NicEffect → List Packet
departed [] = []
departed (schedules t ∷ es) = departed es
departed (lets_send src ∷ es) = departed es
departed (sends p ∷ es) = p ∷ departed es

-- The source that is to answer.
abbrev pub asked : List NicEffect → Option ℕ
asked [] = none
asked (schedules t ∷ es) = asked es
asked (lets_send src ∷ es) = some src
asked (sends p ∷ es) = asked es

abbrev pub bytes : List Packet → ℕ
bytes [] = 0
bytes (p ∷ ps) = p.size + bytes ps

-- The events of a NIC for which no source is to answer.
abbrev pub due : EqdsNic → List ℕ
due nic = if waiting nic then nic.send_end_time ∷ [] else []

-- If no source is to answer, an event is pending for the end of the transmission exactly if someone
-- waits for it. If one is, it is the first of those that wait, the link is free, and none is pending.
abbrev pub Turn : EqdsNic → ℕ → List ℕ → Option ℕ → Type 0
Turn nic now events none = (events ≡ due nic) × (waiting nic ≡ true → now ≤ nic.send_end_time)
Turn nic now events (some src) =
    (events ≡ []) × (now ≡ nic.send_end_time) × ((rest : List ℕ) × (nic.active_srcs ≡ src ∷ rest))

-- `_control_size` is the bytes that wait, above what it was at the start.
pub record Inv (start_size : ℕ) (nic : EqdsNic) (now : ℕ) (events : List ℕ) (answers : Option ℕ)
    : Type 0 where
  pub counted : nic.num_queued_srcs ≡ length nic.active_srcs
  pub counted_bytes : nic.control_size ≡ add64 start_size (bytes nic.control)
  pub turn : Turn nic now events answers

-- What a handler ends in: the control packets `ps` are sent or wait, in order.
pub record After (start_size now : ℕ) (events : List ℕ) (ps : List Packet) (nic : EqdsNic)
    (es : List NicEffect) : Type 0 where
  pub inv : Inv start_size nic now (events ++ scheduled es) (asked es)
  pub order : departed es ++ nic.control ≡ ps

module _ (start_size : ℕ) where
  pub schedule_next-After :
      (nic : EqdsNic) (now : ℕ)
      → nic.num_queued_srcs ≡ length nic.active_srcs
      → nic.control_size ≡ add64 start_size (bytes nic.control)
      → now ≤ nic.send_end_time
      → Ensures (After start_size now [] nic.control) (schedule_next nic)
  unfolding schedule_next
  schedule_next-After nic now c b l =
      if_cases (Ensures (After start_size now [] nic.control)) (waiting nic)
        (λ e. record {
          inv = record { counted = c; counted_bytes = b; turn = (ground (arith, e), λ q. l) };
          order = refl;
        })
        (λ e. record {
          inv = record { counted = c; counted_bytes = b; turn = (ground (arith, e), λ q. l) };
          order = refl;
        })

  -- The first control packet leaves.
  pub send_first-After :
      (nic : EqdsNic) (now : ℕ) (ps : List Packet)
      → nic.control ≡ ps
      → Fifo.empty ps ≡ false
      → nic.num_queued_srcs ≡ length nic.active_srcs
      → nic.control_size ≡ add64 start_size (bytes nic.control)
      → Ensures (After start_size now [] nic.control) (send_first nic now ps)
  unfolding send_first
  send_first-After nic now [] e n c b = absurd (let q : true ≡ false = n in cc)
  send_first-After nic now (p ∷ rest) e n c b =
      Ensures-after (After start_size now [] nic.control) (sends p ∷ [])
        (schedule_next (record nic {
          control = rest;
          control_size = sub64 nic.control_size (p.size % 2 ^ 64);
          send_end_time = now + delta nic p.size;
        }))
        (Ensures-mono (After start_size now [] rest)
          (λ nic' es. After start_size now [] nic.control nic' (sends p ∷ es))
          (schedule_next (record nic {
            control = rest;
            control_size = sub64 nic.control_size (p.size % 2 ^ 64);
            send_end_time = now + delta nic p.size;
          }))
          (λ nic' es a. record { inv = a.inv; order = ap (λ qs. p ∷ qs) a.order ∙ sym e })
          (schedule_next-After
            (record nic {
              control = rest;
              control_size = sub64 nic.control_size (p.size % 2 ^ 64);
              send_end_time = now + delta nic p.size;
            })
            now c (omega (arith, b, ap bytes e)) (omega arith)))

  -- The first source that waits is asked to send.
  pub let_send-After :
      (nic : EqdsNic) (now : ℕ) (srcs : List ℕ)
      → nic.active_srcs ≡ srcs
      → ltb 0 nic.num_queued_srcs ≡ true
      → nic.num_queued_srcs ≡ length nic.active_srcs
      → nic.control_size ≡ add64 start_size (bytes nic.control)
      → now ≡ nic.send_end_time
      → Ensures (After start_size now [] nic.control) (let_send nic srcs)
  unfolding let_send
  let_send-After nic now [] e n c b t = absurd (ground (arith, ap length e, n, c))
  let_send-After nic now (src ∷ rest) e n c b t = record {
    inv = record { counted = c; counted_bytes = b; turn = (refl, t, (rest, e)) };
    order = refl;
  }

  -- The event of the NIC.
  pub do_next_event-After :
      (nic : EqdsNic) (now : ℕ)
      → nic.num_queued_srcs ≡ length nic.active_srcs
      → nic.control_size ≡ add64 start_size (bytes nic.control)
      → now ≡ nic.send_end_time
      → waiting nic ≡ true
      → Ensures (After start_size now [] nic.control) (do_next_event nic now)
  unfolding do_next_event take_turns waiting
  do_next_event-After nic now c b t w =
      Ensures-assert A (now == nic.send_end_time) (assert (waiting nic) >> take_turns nic now)
        (ground (arith, t))
        (Ensures-assert A (waiting nic) (take_turns nic now) w (
          if_cases (Ensures A) (ltb 0 nic.num_queued_srcs && not (Fifo.empty nic.control))
            (λ e.
              if_cases (Ensures A) (ltb (next_crt nic) nic.ratio_data)
                (λ f. let_send-After (counted) now nic.active_srcs refl (ground (arith, e)) c b t)
                (λ f. send_first-After (counted) now nic.control refl (ground (arith, e)) c b))
            (λ e.
              if_cases (Ensures A) (ltb 0 nic.num_queued_srcs)
                (λ f. let_send-After nic now nic.active_srcs refl f c b t)
                (λ f. send_first-After nic now nic.control refl (held f) c b))))
    where
      A : EqdsNic → List NicEffect → Type 0
      A = After start_size now [] nic.control

      counted : EqdsNic
      counted = record nic { crt = next_crt nic }

      held : ltb 0 nic.num_queued_srcs ≡ false → Fifo.empty nic.control ≡ false
      held f = ground (arith, w, f)
