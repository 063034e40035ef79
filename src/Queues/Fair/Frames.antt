-- ===== src/Queues/Fair/Frames.antt =====
-- A frame that ends a PAUSE and reaches a `FairPriorityQueue` while a packet is in service.
use frontier_htsim.Prelude.{
  ℕ, ◌<◌, ◌≡◌, refl, sym, subst, ap, ap₂, ◌∙◌, true, List, [], ◌∷◌, ◌++◌, some, arith, ltb, if_true,
  if_false, aborted, Ensures, Ensures-bind, Ensures-after,
}
use frontier_htsim.Network.{Packet}
use frontier_htsim.Queues.Effects.{Effect, departed, departed-append, relays}
use frontier_htsim.Queues.Pause.{is_pause, ready}
use frontier_htsim.Queues.Priority.{q_hi, relay}
use frontier_htsim.Queues.Pull
use frontier_htsim.Queues.Pull.{Flow, FairPullQueue}
use frontier_htsim.Queues.Pull.Rounds.{turns, Idle, Served, dequeue-Served}
use frontier_htsim.Queues.Fair.{
  FairPriorityQueue, queuesize, start_sending, serve_level, begin_service, obey_frame,
  receive_pause, receive_packet,
}

-- The queue serves `p`, it was serving another packet, and that was not sent.
pub record Overwritten (q : FairPriorityQueue) (flow : ℕ) (ps : List Packet) (es rest : List Flow)
    (p : Packet) (q' : FairPriorityQueue) (fx : List Effect) : Type 0 where
  pub sending : q'.sending ≡ some p
  pub order : turns q'.hi.queue ≡ rest ++ (es ++ (flow, ps) ∷ [])
  pub same_mid : q'.mid ≡ q.mid
  pub same_lo : q'.lo ≡ q.lo
  pub not_sent : departed fx ≡ []

departed-relay :
    (is : List ℕ) (t s : ℕ) → Ensures (λ (u : Unit {0}) fx. departed fx ≡ []) (relay is t s)
unfolding relay
departed-relay [] t s = refl
departed-relay (i ∷ is) t s =
    Ensures-after (λ (u : Unit {0}) fx. departed fx ≡ []) (relays i t s ∷ []) (relay is t s)
      (departed-relay is t s)

module _ (q : FairPriorityQueue) (es rest : List Flow) (flow : ℕ) (p : Packet) (ps : List Packet)
    (order : turns q.hi.queue ≡ es ++ (flow, p ∷ ps) ∷ rest) (idle : Idle es)
    (busy : 0 < q.hi.queue.pull_count) (counted : 0 < q.hi.size) where
  serve-Overwritten :
      Ensures
        (Overwritten q flow ps es rest p)
        (serve_level (record q { state_send = ready }) q_hi q.hi)
  unfolding serve_level
  serve-Overwritten =
      Ensures-bind (λ r fx. Served q.hi.queue es flow p ps rest r × (fx ≡ [])) _
        (Pull.dequeue q.hi.queue) _ (dequeue-Served q.hi.queue es flow p ps rest busy order idle)
        (λ r fx h.
          subst
            (λ o.
              Ensures (λ q' fs. Overwritten q flow ps es rest p q' (fx ++ fs))
                (start_sending (record q { state_send = ready }) q_hi (record q.hi { queue = r.0 })
                  o))
            (sym h.0.packet)
            (record {
              sending = refl;
              order = h.0.order;
              same_mid = refl;
              same_lo = refl;
              not_sent = departed-append fx _ ∙ ap (λ fs. departed fs ++ []) h.1;
            }))

  begin-Overwritten :
      Ensures (Overwritten q flow ps es rest p) (begin_service (record q { state_send = ready }))
  unfolding begin_service
  begin-Overwritten = Ensures-after (Overwritten q flow ps es rest p) [] _ (
      if_true (Ensures (Overwritten q flow ps es rest p)) (ltb 0 q.hi.size) _ _
        (ground (arith, counted)) serve-Overwritten)

  obey-Overwritten :
      (frame : Packet)
      → frame.sleep_time ≡ 0
      → Ensures (Overwritten q flow ps es rest p) (obey_frame q frame)
  unfolding obey_frame queuesize
  obey-Overwritten frame t =
      if_false (Ensures (Overwritten q flow ps es rest p)) (ltb 0 frame.sleep_time) _ _
        (ground (arith, t))
        (if_true (Ensures (Overwritten q flow ps es rest p)) (ltb 0 (queuesize q)) _ _
          (ground (arith, counted)) begin-Overwritten)

  receive-Overwritten :
      (frame : Packet)
      → is_pause frame ≡ true
      → frame.sleep_time ≡ 0
      → Ensures (Overwritten q flow ps es rest p) (receive_packet q frame)
  unfolding receive_packet receive_pause
  receive-Overwritten frame a t =
      if_true (Ensures (Overwritten q flow ps es rest p)) (is_pause frame) _ _ a (
        Ensures-bind (Overwritten q flow ps es rest p) _ (obey_frame q frame) _
          (obey-Overwritten frame t)
          (λ q' fx h.
            Ensures-bind (λ (u : Unit {0}) gx. departed gx ≡ []) _
              (relay q'.senders frame.sleep_time frame.sender_id) _
              (departed-relay q'.senders frame.sleep_time frame.sender_id)
              (λ u gx d. record {
                sending = h.sending;
                order = h.order;
                same_mid = h.same_mid;
                same_lo = h.same_lo;
                not_sent =
                    departed-append fx _
                    ∙ ap₂ (◌++◌ {A = Packet}) h.not_sent
                        (departed-append gx _ ∙ ap (λ ds. ds ++ []) d);
              })))

-- A fair host queue has a packet in service and holds others of high priority, the first in turn
-- being `p`. A PAUSE frame of sleep time 0 arrives. No assertion fails, the queue serves `p` now,
-- what it holds is what it held without `p`, and it has sent no packet: the one in service is lost,
-- unless it was `p`.
pub frame_overwrites :
    (q : FairPriorityQueue) (frame x p : Packet) (es rest : List Flow) (flow : ℕ) (ps : List Packet)
    → q.sending ≡ some x
    → 0 < q.hi.size
    → 0 < q.hi.queue.pull_count
    → turns q.hi.queue ≡ es ++ (flow, p ∷ ps) ∷ rest
    → Idle es
    → is_pause frame ≡ true
    → frame.sleep_time ≡ 0
    → Ensures (Overwritten q flow ps es rest p) (receive_packet q frame)
frame_overwrites q frame x p es rest flow ps s counted busy order idle a t =
    receive-Overwritten q es rest flow p ps order idle busy counted frame a t

-- A fair host queue has a packet in service, counts bytes of high priority and holds no packet of
-- that priority, as when the one in service is the only one. A PAUSE frame of sleep time 0 then
-- fails an assertion.
frame_aborts :
    (q : FairPriorityQueue) (frame x : Packet)
    → q.sending ≡ some x
    → 0 < q.hi.size
    → q.hi.queue.pull_count ≡ 0
    → is_pause frame ≡ true
    → frame.sleep_time ≡ 0
    → receive_packet q frame ≡ aborted
unfolding receive_packet receive_pause obey_frame begin_service serve_level start_sending queuesize
    Pull.dequeue
frame_aborts q frame x s counted none_left a t = ground (arith, counted, none_left, a, t)
