-- ===== src/Eqds/Pacer/Requests.antt =====
-- What the pacer does about the requests of a sink.
use frontier_htsim.Prelude.{
  ℕ, append-nil, ◌+◌, ◌≡◌, refl, ap, subst, true, false, List, [], ◌∷◌, ◌++◌, ltb, arith, Outcome,
  done, aborted, ◌>>=◌, Ensures, Ensures-bind, Ensures-mono,
}
use frontier_htsim.Eqds.Pulls.{PullState, Request, requests_pull, requests_retransmit}
use frontier_htsim.Eqds.Pacer.{
  EqdsPullPacer, PacerEffect, is_in, request_pull, request_retransmit, answer_requests, update,
  Pulling, sink_asks,
}
use frontier_htsim.Eqds.Pacer.Laws.{
  scheduled, scheduled-append, Inv, Asks, change-Inv, request_pull-Inv, request_retransmit-Inv,
}

Inv-ext :
    (p : EqdsPullPacer) (f g : ℕ → PullState) (n : ℕ)
    → ((j : ℕ) → f j ≡ g j)
    → Inv p f n
    → Inv p g n
Inv-ext p f g n e v = record {
  pulling = λ j. subst (λ s. s.in_pull ≡ is_in j p.active_senders) (e j) (v.pulling j);
  retransmitting =
      λ j. subst (λ s. ltb 0 s.retx_backlog ≡ is_in j p.rtx_senders) (e j) (v.retransmitting j);
  distinct_active = v.distinct_active;
  distinct_rtx = v.distinct_rtx;
  awake = v.awake;
  asleep = v.asleep;
}

update-update :
    (f : ℕ → PullState) (i : ℕ) (a b : PullState) (j : ℕ)
    → update (update f i a) i b j ≡ update f i b j
update-update f i a b j = ground arith

-- One request after another.
abbrev Kept : (ℕ → PullState) → ℕ → EqdsPullPacer → List PacerEffect → Type 0
Kept f n p es = Inv p f (n + scheduled es)

then-Kept :
    (f g : ℕ → PullState) (n : ℕ) (m : Outcome PacerEffect EqdsPullPacer)
    (k : EqdsPullPacer → Outcome PacerEffect EqdsPullPacer)
    → Ensures (Kept f n) m
    → ((p : EqdsPullPacer) (n' : ℕ) → Inv p f n' → Ensures (Kept g n') (k p))
    → Ensures (Kept g n) (m >>= k)
then-Kept f g n m k a b = Ensures-bind (Kept f n) (Kept g n) m k a (λ p es v.
    Ensures-mono (Kept g (n + scheduled es)) (λ q fs. Kept g n q (es ++ fs)) (k p)
      (λ q fs w. subst (Inv q g) (omega (arith, scheduled-append es fs)) w)
      (b p (n + scheduled es) v))

no_more :
    (g : ℕ → PullState) (i : ℕ) (s : PullState) (p : EqdsPullPacer) (n : ℕ)
    → Inv p g n
    → Ensures (Kept g n) (answer_requests i s [] p)
unfolding answer_requests
no_more g i s p n v = subst (Inv p g) (omega arith) v

one_retransmit :
    (p : EqdsPullPacer) (f : ℕ → PullState) (n i : ℕ) (s : PullState)
    → s.in_pull ≡ (f i).in_pull
    → ltb 0 (f i).retx_backlog ≡ false
    → ltb 0 s.retx_backlog ≡ true
    → Inv p f n
    → Ensures (Kept (update f i s) n) (answer_requests i s (requests_retransmit ∷ []) p)
unfolding answer_requests
one_retransmit p f n i s a b c v =
    then-Kept (update f i s) (update f i s) n (request_retransmit p i)
      (λ p'. answer_requests i s [] p') (request_retransmit-Inv p f n i s b c a v)
      (λ p' n' w. no_more (update f i s) i s p' n' w)

answer_requests-Inv :
    (rs : List Request) (p : EqdsPullPacer) (f : ℕ → PullState) (n i : ℕ) (s : PullState)
    → Asks (f i) s rs
    → Inv p f n
    → Ensures (Kept (update f i s) n) (answer_requests i s rs p)
unfolding answer_requests
answer_requests-Inv [] p f n i s a v =
    no_more (update f i s) i s p n (change-Inv p f n i s a.0 a.1 v)
answer_requests-Inv (requests_pull ∷ []) p f n i s a v =
    then-Kept (update f i s) (update f i s) n (request_pull p s i) (λ p'. answer_requests i s [] p')
      (request_pull-Inv p f n i s a.0 a.1 a.2 v s a.1)
      (λ p' n' w. no_more (update f i s) i s p' n' w)
answer_requests-Inv (requests_retransmit ∷ []) p f n i s a v =
    one_retransmit p f n i s a.0 a.1 a.2 v
answer_requests-Inv (requests_pull ∷ requests_retransmit ∷ []) p f n i s a v =
    let s0 : PullState = record s { retx_backlog = (f i).retx_backlog } in
    let f0 : ℕ → PullState = update f i s0 in
    then-Kept f0 (update f i s) n (request_pull p s i)
      (λ p'. answer_requests i s (requests_retransmit ∷ []) p')
      (request_pull-Inv p f n i s0 a.0 a.1 refl v s a.1)
      (λ p' n' w.
        Ensures-mono (Kept (update f0 i s) n') (Kept (update f i s) n') _
          (λ q es u. Inv-ext q _ _ _ (update-update f i s0 s) u)
          (one_retransmit p' f0 n' i s (ground arith) (ground (arith, a.2)) a.3 w))
answer_requests-Inv (requests_retransmit ∷ r ∷ rs) p f n i s a v = absurd a
answer_requests-Inv (requests_pull ∷ requests_pull ∷ rs) p f n i s a v = absurd a
answer_requests-Inv (requests_pull ∷ requests_retransmit ∷ r ∷ rs) p f n i s a v = absurd a

-- A sink's handler keeps what holds of the pacer.
pub sink_asks-Inv :
    (w : Pulling) (n i : ℕ) (m : Outcome Request PullState)
    → Ensures (Asks (w.sinks i)) m
    → Inv w.pacer w.sinks n
    → Ensures (λ w' es. Inv w'.pacer w'.sinks (n + scheduled es)) (sink_asks w i m)
unfolding sink_asks
sink_asks-Inv w n i aborted a v = absurd a
sink_asks-Inv w n i (done s rs) a v =
    Ensures-bind (Kept (update w.sinks i s) n) _ (answer_requests i s rs w.pacer) _
      (answer_requests-Inv rs w.pacer w.sinks n i s a v)
      (λ p es k. subst (Inv p (update w.sinks i s)) (omega (arith, ap scheduled (append-nil es))) k)
