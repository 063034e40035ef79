-- ===== src/Eqds/Pacer/Turns.antt =====
-- An event of the pacer: one sink is pulled, and waits again if it has more to ask for.
use frontier_htsim.Prelude.{
  ℕ, suc, ◌+◌, ◌-◌, ◌≡◌, ◌≢◌, refl, sym, ap, subst, ◌∙◌, Bool, true, false, not, ◌&&◌, List, [],
  ◌∷◌, ◌++◌, ltb, ◌==◌, if◌then◌else◌, if_cases, arith, Ensures, Ensures-assert,
}
use frontier_htsim.Eqds.Packets.{quantize_floor}
use frontier_htsim.Eqds.Pulls.{
  PullState, pull, backlog, slow_credit, remove_from_pull_queue, add_to_slow_pull_queue,
  remove_from_slow_pull_queue,
}
use frontier_htsim.Eqds.Pacer.{
  EqdsPullPacer, PacerEffect, is_in, update, Pulling, send_pull, serve_rtx, serve_active,
  serve_idle, serve, do_next_event,
}
use frontier_htsim.Eqds.Pacer.Laws.{
  scheduled, Inv, Woken, Distinct, Distinct-push, is_in-push_ne, is_in-push_self, update_elim,
}

abbrev requeue : Bool → ℕ → List ℕ → List ℕ
requeue c i rest = if c then rest ++ i ∷ [] else rest

requeue_self :
    (c : Bool) (i : ℕ) (rest : List ℕ) → is_in i rest ≡ false → is_in i (requeue c i rest) ≡ c
requeue_self true i rest h = is_in-push_self i rest
requeue_self false i rest h = h

requeue_ne :
    (c : Bool) (i j : ℕ) (rest : List ℕ) → j ≢ i → is_in j (requeue c i rest) ≡ is_in j (i ∷ rest)
unfolding is_in
requeue_ne true i j rest h = is_in-push_ne j i rest h ∙ ground (arith, h)
requeue_ne false i j rest h = ground (arith, h)

requeue-Distinct :
    (c : Bool) (i : ℕ) (rest : List ℕ) → Distinct (i ∷ rest) → Distinct (requeue c i rest)
requeue-Distinct true i rest d = Distinct-push i rest d.1 d.0
requeue-Distinct false i rest d = d.1

abbrev After : ℕ → Pulling → List PacerEffect → Type 0
After n w es = Inv w.pacer w.sinks (n + scheduled es)

send_pull-Inv :
    (w : Pulling) (i : ℕ) (s : PullState) (slow : Bool) (p : EqdsPullPacer) (n : ℕ)
    → n ≡ 0
    → Woken p (update w.sinks i s)
    → Distinct p.active_senders
    → Distinct p.rtx_senders
    → Ensures (After n) (send_pull w i s slow p)
unfolding send_pull
send_pull-Inv w i s slow p n z k a r = record {
  pulling = λ j. (k j).0;
  retransmitting = λ j. (k j).1;
  distinct_active = a;
  distinct_rtx = r;
  awake = omega (arith, z);
  asleep = λ q. let c : true ≡ false = q in absurd (cc);
}

serve_rtx-Inv :
    (w : Pulling) (i : ℕ) (rest : List ℕ) (n : ℕ)
    → w.pacer.rtx_senders ≡ i ∷ rest
    → Inv w.pacer w.sinks (suc n)
    → n ≡ 0
    → Ensures (After n) (serve_rtx w i rest)
unfolding serve_rtx pull
serve_rtx-Inv w i rest n e v z =
    let d : Distinct (i ∷ rest) = subst Distinct e v.distinct_rtx in
    let c : Bool = ltb 0 ((w.sinks i).retx_backlog - w.credit_per_pull) in
    send_pull-Inv w i (pull (w.sinks i) w.credit_per_pull) false
      (record w.pacer { rtx_senders = requeue c i rest }) n z
      (update_elim
        (λ j s.
          (s.in_pull ≡ is_in j w.pacer.active_senders)
          × (ltb 0 s.retx_backlog ≡ is_in j (requeue c i rest)))
        w.sinks i (pull (w.sinks i) w.credit_per_pull)
        (v.pulling i, sym (requeue_self c i rest d.0))
        (λ j h. (v.pulling j, v.retransmitting j ∙ ap (is_in j) e ∙ sym (requeue_ne c i j rest h))))
      v.distinct_active (requeue-Distinct c i rest d)

still_none :
    (w : Pulling) (n i : ℕ)
    → w.pacer.rtx_senders ≡ []
    → Inv w.pacer w.sinks n
    → ltb 0 ((w.sinks i).retx_backlog - w.credit_per_pull) ≡ is_in i w.pacer.rtx_senders
unfolding is_in
still_none w n i e v = ground (arith, v.retransmitting i, e)

-- The turn of an active sender, which stays one if `c` holds.
turn-Inv :
    (w : Pulling) (i : ℕ) (rest idle : List ℕ) (n : ℕ) (c slow : Bool) (s : PullState)
    → w.pacer.active_senders ≡ i ∷ rest
    → Inv w.pacer w.sinks (suc n)
    → n ≡ 0
    → s.in_pull ≡ c
    → ltb 0 s.retx_backlog ≡ is_in i w.pacer.rtx_senders
    → Ensures (After n) (
        send_pull w i s slow
          (record w.pacer { active_senders = requeue c i rest; idle_senders = idle }))
turn-Inv w i rest idle n c slow s f v z a b =
    let d : Distinct (i ∷ rest) = subst Distinct f v.distinct_active in
    send_pull-Inv w i s slow
      (record w.pacer { active_senders = requeue c i rest; idle_senders = idle }) n z
      (update_elim
        (λ j t.
          (t.in_pull ≡ is_in j (requeue c i rest))
          × (ltb 0 t.retx_backlog ≡ is_in j w.pacer.rtx_senders))
        w.sinks i s (a ∙ sym (requeue_self c i rest d.0), b)
        (λ j h. (v.pulling j ∙ ap (is_in j) f ∙ sym (requeue_ne c i j rest h), v.retransmitting j)))
      (requeue-Distinct c i rest d) v.distinct_rtx

in_queue :
    (w : Pulling) (n i : ℕ) (rest : List ℕ)
    → w.pacer.active_senders ≡ i ∷ rest
    → Inv w.pacer w.sinks n
    → (w.sinks i).in_pull ≡ true
unfolding is_in
in_queue w n i rest f v = ground (arith, v.pulling i, f)

serve_active-Inv :
    (w : Pulling) (i : ℕ) (rest : List ℕ) (n : ℕ)
    → w.pacer.rtx_senders ≡ []
    → w.pacer.active_senders ≡ i ∷ rest
    → Inv w.pacer w.sinks (suc n)
    → n ≡ 0
    → Ensures (After n) (serve_active w i rest)
unfolding serve_active pull remove_from_pull_queue add_to_slow_pull_queue
serve_active-Inv w i rest n e f v z =
    Ensures-assert (After n) (w.sinks i).in_pull _ (in_queue w (suc n) i rest f v) (
      if_cases (Ensures (After n)) (ltb 0 (backlog (pull (w.sinks i) w.credit_per_pull)))
        (λ b.
          turn-Inv w i rest w.pacer.idle_senders n true false (pull (w.sinks i) w.credit_per_pull) f
            v z (in_queue w (suc n) i rest f v) (still_none w (suc n) i e v))
        (λ b.
          turn-Inv w i rest (w.pacer.idle_senders ++ i ∷ []) n false false
            (add_to_slow_pull_queue (remove_from_pull_queue (pull (w.sinks i) w.credit_per_pull))) f
            v z refl (still_none w (suc n) i e v)))

-- The turn of an idle sender, which is no active one afterwards either.
idle_turn-Inv :
    (w : Pulling) (i : ℕ) (idle : List ℕ) (n : ℕ) (slow : Bool) (s : PullState)
    → w.pacer.active_senders ≡ []
    → Inv w.pacer w.sinks (suc n)
    → n ≡ 0
    → s.in_pull ≡ false
    → ltb 0 s.retx_backlog ≡ is_in i w.pacer.rtx_senders
    → Ensures (After n) (send_pull w i s slow (record w.pacer { idle_senders = idle }))
unfolding is_in
idle_turn-Inv w i idle n slow s f v z a b =
    send_pull-Inv w i s slow (record w.pacer { idle_senders = idle }) n z
      (update_elim
        (λ j t.
          (t.in_pull ≡ is_in j w.pacer.active_senders)
          × (ltb 0 t.retx_backlog ≡ is_in j w.pacer.rtx_senders))
        w.sinks i s (a ∙ sym (ap (is_in i) f), b) (λ j h. (v.pulling j, v.retransmitting j)))
      v.distinct_active v.distinct_rtx

slow_state : PullState → PullState
slow_state s = if not s.in_slow_pull then add_to_slow_pull_queue s else s

not_queued :
    (w : Pulling) (n i : ℕ)
    → w.pacer.active_senders ≡ []
    → Inv w.pacer w.sinks n
    → (pull (slow_state (w.sinks i)) w.credit_per_pull).in_pull ≡ false
unfolding is_in slow_state pull add_to_slow_pull_queue
not_queued w n i f v = ground (arith, v.pulling i, f)

slow_none :
    (w : Pulling) (n i : ℕ)
    → w.pacer.rtx_senders ≡ []
    → Inv w.pacer w.sinks n
    → ltb 0 (pull (slow_state (w.sinks i)) w.credit_per_pull).retx_backlog
      ≡ is_in i w.pacer.rtx_senders
unfolding is_in slow_state pull add_to_slow_pull_queue
slow_none w n i e v = ground (arith, v.retransmitting i, e)

serve_idle-Inv :
    (w : Pulling) (i : ℕ) (rest : List ℕ) (n : ℕ)
    → w.pacer.rtx_senders ≡ []
    → w.pacer.active_senders ≡ []
    → Inv w.pacer w.sinks (suc n)
    → n ≡ 0
    → Ensures (After n) (serve_idle w i rest)
unfolding serve_idle slow_state
serve_idle-Inv w i rest n e f v z =
    let t : PullState = pull (slow_state (w.sinks i)) w.credit_per_pull in
    if_cases (Ensures (After n))
      (backlog t == 0 && ltb (slow_credit t) (quantize_floor (w.max_cwnd i)))
      (λ b.
        idle_turn-Inv w i (rest ++ i ∷ []) n true t f v z (not_queued w (suc n) i f v)
          (slow_none w (suc n) i e v))
      (λ b.
        idle_turn-Inv w i rest n true (remove_from_slow_pull_queue t) f v z refl
          (slow_none w (suc n) i e v))

one_event : (p : EqdsPullPacer) (n : ℕ) → suc n ≡ (if p.active then 1 else 0) → n ≡ 0
one_event p n a = ground (arith, a)

-- An event of the pacer, with `n` others pending.
pub do_next_event-Inv :
    (w : Pulling) (n : ℕ)
    → Inv w.pacer w.sinks (suc n)
    → Ensures (λ w' es. Inv w'.pacer w'.sinks (n + scheduled es)) (do_next_event w)
unfolding do_next_event
do_next_event-Inv w n v =
    serve-Inv w.pacer.rtx_senders w.pacer.active_senders w.pacer.idle_senders refl refl refl
  where
    z : n ≡ 0
    z = one_event w.pacer n v.awake

    serve-Inv :
        (rtx active idle : List ℕ)
        → w.pacer.rtx_senders ≡ rtx
        → w.pacer.active_senders ≡ active
        → w.pacer.idle_senders ≡ idle
        → Ensures (After n) (serve w rtx active idle)
    serve-Inv [] [] [] a b c = record {
      pulling = v.pulling;
      retransmitting = v.retransmitting;
      distinct_active = v.distinct_active;
      distinct_rtx = v.distinct_rtx;
      awake = omega (arith, z);
      asleep = λ q. (a, b, c);
    }
    serve-Inv (i ∷ rest) active idle a b c = serve_rtx-Inv w i rest n a v z
    serve-Inv [] (i ∷ rest) idle a b c = serve_active-Inv w i rest n a b v z
    serve-Inv [] [] (i ∷ rest) a b c = serve_idle-Inv w i rest n a b v z
