-- ===== src/Eqds/Nic/Calls.antt =====
-- A source sends, or says that it cannot.
use frontier_htsim.Prelude.{
  ℕ, zero, suc, ◌+◌, ◌-◌, ◌<◌, ◌≡◌, refl, sym, subst, ap, ◌∙◌, true, false, not, List, [], ◌∷◌,
  none, some, ltb, leb, if◌then◌else◌, if_cases, if_true, if_false, arith, length, add64, Outcome,
  ◌>>=◌, ◌>>◌, assert, return, Ensures, Ensures-assert, Ensures-after,
}
use frontier_htsim.Fifo
use frontier_htsim.Eqds.Nic.{
  EqdsNic, NicEffect, delta, waiting, schedule_next, dequeue_src, start_sending, let_send,
  send_first, pass_turn, cant_send,
}
use frontier_htsim.Eqds.Nic.Laws.{
  bytes, Inv, After, schedule_next-After, send_first-After, let_send-After,
}

-- A source whose turn it is leaves the line.
dequeue_src_lem :
    (nic : EqdsNic) (src : ℕ) (srcs rest : List ℕ)
    → srcs ≡ src ∷ rest
    → dequeue_src nic src srcs
      ≡ return (record nic { active_srcs = rest; num_queued_srcs = nic.num_queued_srcs - 1 })
unfolding dequeue_src
dequeue_src_lem nic src [] rest e =
    absurd (let q : zero ≡ suc (length rest) = ap length e in omega (arith, q))
dequeue_src_lem nic src (x ∷ srcs) rest e = ground (arith, e)

-- A handler goes on from what its first part returns.
Ensures-return :
    {A B : Type 0} (P : B → List NicEffect → Type 0) (m : Outcome NicEffect A) (a : A)
    (k : A → Outcome NicEffect B)
    → m ≡ return a
    → Ensures P (k a)
    → Ensures P (m >>= k)
Ensures-return P m a k e h = subst (λ n. Ensures P (n >>= k)) (sym e) (Ensures-after P [] (k a) h)

abbrev popped : EqdsNic → List ℕ → EqdsNic
popped nic rest = record nic { active_srcs = rest; num_queued_srcs = nic.num_queued_srcs - 1 }

some_queued :
    (nic : EqdsNic) (src : ℕ) (rest : List ℕ)
    → nic.num_queued_srcs ≡ length nic.active_srcs
    → nic.active_srcs ≡ src ∷ rest
    → nic.num_queued_srcs ≡ suc (length rest)
some_queued nic src rest c e = c ∙ ap length e

module _ (start_size : ℕ) where
  -- A source whose turn it is sends.
  pub start_sending-After :
      (nic : EqdsNic) (src pkt_size now : ℕ)
      → Inv start_size nic now [] (some src)
      → Ensures (After start_size now [] nic.control) (start_sending nic src pkt_size now)
  unfolding start_sending
  start_sending-After nic src pkt_size now v =
      let (nothing, t, (rest, e)) = v.turn in
      let n = some_queued nic src rest v.counted e in
      let k : EqdsNic → Outcome NicEffect EqdsNic = λ nic'.
        assert (leb nic'.send_end_time now)
        >> schedule_next (record nic' { send_end_time = now + delta nic' pkt_size }) in
      Ensures-return (After start_size now [] nic.control)
        (if ltb 0 nic.num_queued_srcs then dequeue_src nic src nic.active_srcs else return nic)
        (popped nic rest) k
        (if_true (λ m. m ≡ return (popped nic rest)) (ltb 0 nic.num_queued_srcs)
          (dequeue_src nic src nic.active_srcs) (return nic) (ground (arith, n))
          (dequeue_src_lem nic src nic.active_srcs rest e))
        (Ensures-assert (After start_size now [] nic.control) (leb nic.send_end_time now)
          (schedule_next (record (popped nic rest) { send_end_time = now + delta nic pkt_size }))
          (ground (arith, t))
          (schedule_next-After start_size
            (record (popped nic rest) { send_end_time = now + delta nic pkt_size }) now
            (omega (arith, n)) v.counted_bytes (omega arith)))

  -- A source that was let send at once sends.
  pub start_at_once-After :
      (nic : EqdsNic) (src pkt_size now : ℕ)
      → Inv start_size nic now [] none
      → waiting nic ≡ false
      → nic.send_end_time < now
      → Ensures (After start_size now [] nic.control) (start_sending nic src pkt_size now)
  unfolding start_sending waiting
  start_at_once-After nic src pkt_size now v w l =
      let k : EqdsNic → Outcome NicEffect EqdsNic = λ nic'.
        assert (leb nic'.send_end_time now)
        >> schedule_next (record nic' { send_end_time = now + delta nic' pkt_size }) in
      Ensures-return (After start_size now [] nic.control)
        (if ltb 0 nic.num_queued_srcs then dequeue_src nic src nic.active_srcs else return nic) nic
        k
        (if_false (λ m. m ≡ return nic) (ltb 0 nic.num_queued_srcs)
          (dequeue_src nic src nic.active_srcs) (return nic) (ground (arith, w)) refl)
        (Ensures-assert (After start_size now [] nic.control) (leb nic.send_end_time now)
          (schedule_next (record nic { send_end_time = now + delta nic pkt_size }))
          (ground (arith, l))
          (schedule_next-After start_size (record nic { send_end_time = now + delta nic pkt_size })
            now v.counted v.counted_bytes (omega arith)))

  -- Nobody waits, and no event is pending.
  pub idle_After :
      (nic : EqdsNic) (now : ℕ)
      → nic.num_queued_srcs ≡ length nic.active_srcs
      → nic.control_size ≡ add64 start_size (bytes nic.control)
      → waiting nic ≡ false
      → After start_size now [] nic.control nic []
  idle_After nic now c b w = record {
    inv = record {
      counted = c;
      counted_bytes = b;
      turn = (ground (arith, w), λ q. absurd (let r : true ≡ false = sym q ∙ w in cc));
    };
    order = refl;
  }

  -- A source whose turn it is cannot send, and the turn goes on.
  pass_turn-After :
      (nic : EqdsNic) (src now : ℕ)
      → Inv start_size nic now [] (some src)
      → Ensures (After start_size now [] nic.control) (pass_turn nic src now)
  unfolding pass_turn waiting
  pass_turn-After nic src now v =
      let (nothing, t, (rest, e)) = v.turn in
      let q = popped nic rest in
      let c : q.num_queued_srcs ≡ length q.active_srcs =
        omega (arith, some_queued nic src rest v.counted e) in
      let next : Outcome NicEffect EqdsNic =
        if not (Fifo.empty q.control) then send_first q now q.control else return q in
      Ensures-return (After start_size now [] nic.control) (dequeue_src nic src nic.active_srcs) q
        (λ nic'.
          assert (leb nic'.send_end_time now)
          >> (if ltb 0 nic'.num_queued_srcs
              then let_send nic' nic'.active_srcs
              else (if not (Fifo.empty nic'.control)
                  then send_first nic' now nic'.control
                  else return nic')))
        (dequeue_src_lem nic src nic.active_srcs rest e)
        (Ensures-assert (After start_size now [] nic.control) (leb nic.send_end_time now)
          (if ltb 0 q.num_queued_srcs then let_send q q.active_srcs else next) (ground (arith, t))
          (if_cases (Ensures (After start_size now [] nic.control)) (ltb 0 q.num_queued_srcs)
            (λ l. let_send-After start_size q now q.active_srcs refl l c v.counted_bytes t)
            (λ l.
              if_cases (Ensures (After start_size now [] nic.control)) (not (Fifo.empty q.control))
                (λ f.
                  send_first-After start_size q now q.control refl (ground (arith, f)) c
                    v.counted_bytes)
                (λ f. idle_After q now c v.counted_bytes (ground (arith, l, f))))))

  pub cant_send-After :
      (nic : EqdsNic) (src now : ℕ)
      → Inv start_size nic now [] (some src)
      → Ensures (After start_size now [] nic.control) (cant_send nic src now)
  unfolding cant_send waiting
  cant_send-After nic src now v =
      let (nothing, t, (rest, e)) = v.turn in
      let n = some_queued nic src rest v.counted e in
      let turn : Outcome NicEffect EqdsNic =
        if ltb 0 nic.num_queued_srcs
        then pass_turn nic src now
        else send_first nic now nic.control in
      if_false (Ensures (After start_size now [] nic.control)) (not (waiting nic)) (return nic) turn
        (ground (arith, n))
        (if_true (Ensures (After start_size now [] nic.control)) (ltb 0 nic.num_queued_srcs)
          (pass_turn nic src now) (send_first nic now nic.control) (ground (arith, n))
          (pass_turn-After nic src now v))
