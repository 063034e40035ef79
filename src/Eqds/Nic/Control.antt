-- ===== src/Eqds/Nic/Control.antt =====
-- A receiver hands a control packet to a NIC.
use frontier_htsim.Prelude.{
  ℕ, ◌+◌, ◌≡◌, refl, sym, subst, false, ◌&&◌, List, [], ◌∷◌, ◌++◌, none, leb, ◌==◌, if_cases, arith,
  length, add64, append-nil, Ensures,
}
use frontier_htsim.Fifo
use frontier_htsim.Network.{Packet}
use frontier_htsim.Eqds.Nic.{EqdsNic, NicEffect, waiting, do_next_event, send_control_packet}
use frontier_htsim.Eqds.Nic.Laws.{bytes, Inv, After, do_next_event-After}
use frontier_htsim.Eqds.Nic.Requests.{length-push}

bytes-push : (ps : List Packet) (p : Packet) → bytes (ps ++ p ∷ []) ≡ bytes ps + p.size
bytes-push [] p = omega arith
bytes-push (q ∷ ps) p = omega (arith, bytes-push ps p)

empty-push : (ps : List Packet) (p : Packet) → Fifo.empty (ps ++ p ∷ []) ≡ false
empty-push [] p = refl
empty-push (q ∷ ps) p = refl

alone : (ps : List Packet) (p : Packet) → (length (ps ++ p ∷ []) == 1) ≡ Fifo.empty ps
alone [] p = refl
alone (q ∷ ps) p = ground (arith, length-push ps p)

module _ (start_size : ℕ) where
  -- A control packet goes behind the others.
  pub send_control_packet-After :
      (nic : EqdsNic) (pkt : Packet) (now : ℕ) (events : List ℕ)
      → Inv start_size nic now events none
      → Ensures
          (After start_size now events (nic.control ++ pkt ∷ []))
          (send_control_packet nic pkt now)
  unfolding send_control_packet waiting
  send_control_packet-After nic pkt now events v =
      let b = bytes-push nic.control pkt in
      if_cases (Ensures A) (leb now nic.send_end_time)
        (λ l.
          if_cases (Ensures A) (nic.num_queued_srcs == 0 && length q.control == 1)
            (λ e. record {
              inv = record {
                counted = v.counted;
                counted_bytes = omega (arith, v.counted_bytes, b);
                turn = (
                  ground (arith, e, v.turn.0, alone nic.control pkt, empty-push nic.control pkt),
                  λ w. ground (arith, l),
                );
              };
              order = refl;
            })
            (λ e. record {
              inv = record {
                counted = v.counted;
                counted_bytes = omega (arith, v.counted_bytes, b);
                turn = (
                  ground (
                    arith,
                    e,
                    v.turn.0,
                    alone nic.control pkt,
                    empty-push nic.control pkt,
                    append-nil events,
                  ),
                  λ w. ground (arith, l),
                );
              };
              order = refl;
            }))
        (λ l.
          subst
            (λ es.
              Ensures (After start_size now es (nic.control ++ pkt ∷ []))
                (do_next_event (record q { send_end_time = now }) now))
            (sym (ground (arith, l, v.turn.0, v.turn.1)))
            (do_next_event-After start_size (record q { send_end_time = now }) now v.counted
              (omega (arith, v.counted_bytes, b)) refl
              (ground (arith, empty-push nic.control pkt))))
    where
      q : EqdsNic
      q = record nic {
        control_size = add64 nic.control_size pkt.size;
        control = Fifo.push nic.control pkt;
      }

      A : EqdsNic → List NicEffect → Type 0
      A = After start_size now events (nic.control ++ pkt ∷ [])
