-- ===== src/Eqds/Nic/Answers.antt =====
-- The calls of a source, with what it does when it is let send.
use frontier_htsim.Prelude.{
  ℕ, ◌<◌, ◌≡◌, sym, subst, Bool, true, false, not, List, [], ◌++◌, Option, none, some, ltb,
  if◌then◌else◌, if_true, arith, append-nil, Outcome, ◌>>=◌, return, Ensures, Ensures-bind,
}
use frontier_htsim.Eqds.Nic.{
  EqdsNic, NicEffect, waiting, request_sending, start_sending, send_first, pass_turn, cant_send,
}
use frontier_htsim.Eqds.Nic.Laws.{Inv, After}
use frontier_htsim.Eqds.Nic.Requests.{Answered, request_sending-Answered}
use frontier_htsim.Eqds.Nic.Calls.{
  start_sending-After, start_at_once-After, cant_send-After, idle_After,
}

-- What a source does when it is let send: it sends that many bytes, or it cannot.
abbrev pub answer : EqdsNic → ℕ → Option ℕ → ℕ → Outcome NicEffect EqdsNic
answer nic src (some pkt_size) now = start_sending nic src pkt_size now
answer nic src none now = cant_send nic src now

-- A source asks, and sends or not if it is let at once.
abbrev answer_if : Bool → EqdsNic → ℕ → Option ℕ → ℕ → Outcome NicEffect EqdsNic
answer_if true nic src reply now = answer nic src reply now
answer_if false nic src reply now = return nic

abbrev pub request : EqdsNic → ℕ → Option ℕ → ℕ → Outcome NicEffect EqdsNic
request nic src reply now = request_sending nic src now >>= (λ q. answer_if q.1 q.0 src reply now)

module _ (start_size : ℕ) where
  -- A source that was let send at once cannot.
  cant_at_once-After :
      (nic : EqdsNic) (src now : ℕ)
      → Inv start_size nic now [] none
      → waiting nic ≡ false
      → Ensures (After start_size now [] nic.control) (cant_send nic src now)
  unfolding cant_send
  cant_at_once-After nic src now v w =
      if_true (Ensures (After start_size now [] nic.control)) (not (waiting nic)) (return nic)
        (if ltb 0 nic.num_queued_srcs
          then pass_turn nic src now
          else send_first nic now nic.control)
        (ground (arith, w)) (idle_After start_size nic now v.counted v.counted_bytes w)

  pub answer-After :
      (nic : EqdsNic) (src now : ℕ) (reply : Option ℕ)
      → Inv start_size nic now [] (some src)
      → Ensures (After start_size now [] nic.control) (answer nic src reply now)
  answer-After nic src now (some pkt_size) v = start_sending-After start_size nic src pkt_size now v
  answer-After nic src now none v = cant_send-After start_size nic src now v

  answer_at_once-After :
      (nic : EqdsNic) (src now : ℕ) (reply : Option ℕ)
      → Inv start_size nic now [] none
      → waiting nic ≡ false
      → nic.send_end_time < now
      → Ensures (After start_size now [] nic.control) (answer nic src reply now)
  answer_at_once-After nic src now (some pkt_size) v w l =
      start_at_once-After start_size nic src pkt_size now v w l
  answer_at_once-After nic src now none v w l = cant_at_once-After nic src now v w

  pub request-After :
      (nic : EqdsNic) (src now : ℕ) (reply : Option ℕ) (events : List ℕ)
      → Inv start_size nic now events none
      → Ensures (After start_size now events nic.control) (request nic src reply now)
  request-After nic src now reply events v =
      Ensures-bind (λ q es. Answered start_size nic now events q.1 q.0 es)
        (After start_size now events nic.control) (request_sending nic src now)
        (λ q. answer_if q.1 q.0 src reply now)
        (request_sending-Answered start_size nic src now events v) (λ q es a. goes_on q.1 q.0 es a)
    where
      goes_on :
          (b : Bool) (nic' : EqdsNic) (es : List NicEffect)
          → Answered start_size nic now events b nic' es
          → Ensures
              (λ n fs. After start_size now events nic.control n (es ++ fs))
              (answer_if b nic' src reply now)
      goes_on false nic' es a =
          subst (λ fs. After start_size now events nic.control nic' fs) (sym (append-nil es)) a
      goes_on true nic' es (s, n, w, l) =
          let ev : events ≡ [] = ground (arith, v.turn.0, w) in
          subst
            (λ fs.
              Ensures (λ m gs. After start_size now events nic.control m (fs ++ gs))
                (answer nic' src reply now))
            (sym n)
            (subst (λ m. Ensures (After start_size now events nic.control) (answer m src reply now))
              (sym s)
              (subst
                (λ evs. Ensures (After start_size now evs nic.control) (answer nic src reply now))
                (sym ev)
                (answer_at_once-After nic src now reply
                  (subst (λ evs. Inv start_size nic now evs none) ev v) w l)))
