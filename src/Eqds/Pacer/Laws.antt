-- ===== src/Eqds/Pacer/Laws.antt =====
-- The pacer's lists and the flags of the sinks agree.
use frontier_htsim.Prelude.{
  ℕ, ◌+◌, ◌<◌, ◌≡◌, ◌≢◌, refl, sym, ap, subst, ◌∙◌, true, false, not, ◌||◌, List, [], ◌∷◌, ◌++◌,
  ltb, ◌==◌, if◌then◌else◌, if_cases, ==_iff, arith, ◌>>=◌, Ensures, Ensures-assert,
}
use frontier_htsim.Eqds.Pulls.{
  PullState, Request, requests_pull, requests_retransmit, handle_pull_target, enter_pull,
  retransmit, rts,
}
use frontier_htsim.Eqds.Pacer.{
  EqdsPullPacer, PacerEffect, pends, sends_pull, is_in, wake, request_pull, request_retransmit,
  update,
}

abbrev pub scheduled : List PacerEffect → ℕ
scheduled [] = 0
scheduled (pends t ∷ es) = 1 + scheduled es
scheduled (sends_pull i p ∷ es) = scheduled es

pub scheduled-append :
    (es fs : List PacerEffect) → scheduled (es ++ fs) ≡ scheduled es + scheduled fs
scheduled-append [] fs = omega arith
scheduled-append (pends t ∷ es) fs = omega (arith, scheduled-append es fs)
scheduled-append (sends_pull i p ∷ es) fs = scheduled-append es fs

abbrev pub Distinct : List ℕ → Type 0
Distinct [] = Unit {0}
Distinct (x ∷ xs) = (is_in x xs ≡ false) × Distinct xs

is_in-push : (i x : ℕ) (xs : List ℕ) → is_in i (xs ++ x ∷ []) ≡ (is_in i xs || x == i)
unfolding is_in
is_in-push i x [] = ground arith
is_in-push i x (y ∷ ys) = ground (arith, is_in-push i x ys)

pub Distinct-push :
    (x : ℕ) (xs : List ℕ) → Distinct xs → is_in x xs ≡ false → Distinct (xs ++ x ∷ [])
unfolding is_in
Distinct-push x [] d e = (refl, tt)
Distinct-push x (y ∷ ys) d e =
    (ground (arith, is_in-push y x ys, e), Distinct-push x ys d.1 (ground (arith, e)))

-- `n` events of the pacer are pending. A sink is among the active senders exactly if it notes that it
-- is in the pull queue, and among those with retransmissions exactly if it has some to ask for; the
-- pacer is active exactly while an event is pending, and then if anyone waits.
pub record Inv (p : EqdsPullPacer) (f : ℕ → PullState) (n : ℕ) : Type 0 where
  pub pulling : (i : ℕ) → (f i).in_pull ≡ is_in i p.active_senders
  pub retransmitting : (i : ℕ) → ltb 0 (f i).retx_backlog ≡ is_in i p.rtx_senders
  pub distinct_active : Distinct p.active_senders
  pub distinct_rtx : Distinct p.rtx_senders
  pub awake : n ≡ (if p.active then 1 else 0)
  pub asleep :
      p.active ≡ false → (p.rtx_senders ≡ []) × (p.active_senders ≡ []) × (p.idle_senders ≡ [])

-- What is true of `i` and of every other number.
pub update_elim {ℓ} :
    {A : Type ℓ} (P : ℕ → A → Type 0) (f : ℕ → A) (i : ℕ) (a : A)
    → P i a
    → ((j : ℕ) → j ≢ i → P j (f j))
    → (j : ℕ) → P j (update f i a j)
update_elim P f i a h k j =
    if_cases (P j) (j == i) (λ e. subst (λ m. P m a) (sym ((==_iff j i).0 e)) h)
      (λ e. k j (λ q. ground (arith, e, q)))

-- A sink changes nothing that the pacer knows of.
pub change-Inv :
    (p : EqdsPullPacer) (f : ℕ → PullState) (n i : ℕ) (s : PullState)
    → s.in_pull ≡ (f i).in_pull
    → ltb 0 s.retx_backlog ≡ ltb 0 (f i).retx_backlog
    → Inv p f n
    → Inv p (update f i s) n
change-Inv p f n i s a b v = record {
  pulling =
      update_elim (λ j t. t.in_pull ≡ is_in j p.active_senders) f i s (a ∙ v.pulling i)
        (λ j h. v.pulling j);
  retransmitting =
      update_elim (λ j t. ltb 0 t.retx_backlog ≡ is_in j p.rtx_senders) f i s
        (b ∙ v.retransmitting i) (λ j h. v.retransmitting j);
  distinct_active = v.distinct_active;
  distinct_rtx = v.distinct_rtx;
  awake = v.awake;
  asleep = v.asleep;
}

pub is_in-push_ne : (j x : ℕ) (xs : List ℕ) → j ≢ x → is_in j (xs ++ x ∷ []) ≡ is_in j xs
is_in-push_ne j x xs h = ground (arith, is_in-push j x xs, h)

pub is_in-push_self : (x : ℕ) (xs : List ℕ) → is_in x (xs ++ x ∷ []) ≡ true
is_in-push_self x xs = ground (arith, is_in-push x x xs)

-- The pacer with an event pending for it.
abbrev pub Woken : EqdsPullPacer → (ℕ → PullState) → Type 0
Woken p f =
    (i : ℕ)
    → ((f i).in_pull ≡ is_in i p.active_senders)
      × (ltb 0 (f i).retx_backlog ≡ is_in i p.rtx_senders)

wake-Inv :
    (p : EqdsPullPacer) (f : ℕ → PullState) (n : ℕ)
    → Woken p f
    → Distinct p.active_senders
    → Distinct p.rtx_senders
    → n ≡ (if p.active then 1 else 0)
    → Ensures (λ p' es. Inv p' f (n + scheduled es)) (wake p)
unfolding wake
wake-Inv p f n w da dr a =
    if_cases (Ensures (λ p' es. Inv p' f (n + scheduled es))) (not p.active)
      (λ e. record {
        pulling = λ i. (w i).0;
        retransmitting = λ i. (w i).1;
        distinct_active = da;
        distinct_rtx = dr;
        awake = ground (arith, a, e);
        asleep = λ q. let c : true ≡ false = q in absurd (cc);
      })
      (λ e. record {
        pulling = λ i. (w i).0;
        retransmitting = λ i. (w i).1;
        distinct_active = da;
        distinct_rtx = dr;
        awake = omega (arith, a);
        asleep = λ q. absurd (ground (arith, e, q));
      })

pub request_pull-Inv :
    (p : EqdsPullPacer) (f : ℕ → PullState) (n i : ℕ) (s : PullState)
    → (f i).in_pull ≡ false
    → s.in_pull ≡ true
    → ltb 0 s.retx_backlog ≡ ltb 0 (f i).retx_backlog
    → Inv p f n
    → (t : PullState) → t.in_pull ≡ true
    → Ensures (λ p' es. Inv p' (update f i s) (n + scheduled es)) (request_pull p t i)
unfolding request_pull
request_pull-Inv p f n i s a b c v t d =
    let out : is_in i p.active_senders ≡ false = sym (v.pulling i) ∙ a in
    rw out (
      Ensures-assert (λ p' es. Inv p' (update f i s) (n + scheduled es)) t.in_pull _ d
        (wake-Inv (record p { active_senders = p.active_senders ++ i ∷ [] }) (update f i s) n
          (update_elim
            (λ j t.
              (t.in_pull ≡ is_in j (p.active_senders ++ i ∷ []))
              × (ltb 0 t.retx_backlog ≡ is_in j p.rtx_senders))
            f i s (b ∙ sym (is_in-push_self i p.active_senders), c ∙ v.retransmitting i)
            (λ j h. (v.pulling j ∙ sym (is_in-push_ne j i p.active_senders h), v.retransmitting j)))
          (Distinct-push i p.active_senders v.distinct_active out) v.distinct_rtx v.awake))

pub request_retransmit-Inv :
    (p : EqdsPullPacer) (f : ℕ → PullState) (n i : ℕ) (s : PullState)
    → ltb 0 (f i).retx_backlog ≡ false
    → ltb 0 s.retx_backlog ≡ true
    → s.in_pull ≡ (f i).in_pull
    → Inv p f n
    → Ensures (λ p' es. Inv p' (update f i s) (n + scheduled es)) (request_retransmit p i)
unfolding request_retransmit
request_retransmit-Inv p f n i s a b c v =
    let out : is_in i p.rtx_senders ≡ false = sym (v.retransmitting i) ∙ a in
    Ensures-assert (λ p' es. Inv p' (update f i s) (n + scheduled es)) (not (is_in i p.rtx_senders))
      _ (ap not out)
      (wake-Inv (record p { rtx_senders = p.rtx_senders ++ i ∷ [] }) (update f i s) n
        (update_elim
          (λ j t.
            (t.in_pull ≡ is_in j p.active_senders)
            × (ltb 0 t.retx_backlog ≡ is_in j (p.rtx_senders ++ i ∷ [])))
          f i s (c ∙ v.pulling i, b ∙ sym (is_in-push_self i p.rtx_senders))
          (λ j h. (v.pulling j, v.retransmitting j ∙ sym (is_in-push_ne j i p.rtx_senders h))))
        v.distinct_active (Distinct-push i p.rtx_senders v.distinct_rtx out) v.awake)

-- What a sink's handler asks for fits what it changes.
abbrev pub Asks : PullState → PullState → List Request → Type 0
Asks s s' [] = (s'.in_pull ≡ s.in_pull) × (ltb 0 s'.retx_backlog ≡ ltb 0 s.retx_backlog)
Asks s s' (requests_pull ∷ []) =
    (s.in_pull ≡ false) × (s'.in_pull ≡ true) × (ltb 0 s'.retx_backlog ≡ ltb 0 s.retx_backlog)
Asks s s' (requests_retransmit ∷ []) =
    (s'.in_pull ≡ s.in_pull) × (ltb 0 s.retx_backlog ≡ false) × (ltb 0 s'.retx_backlog ≡ true)
Asks s s' (requests_pull ∷ requests_retransmit ∷ []) =
    (s.in_pull ≡ false)
    × (s'.in_pull ≡ true)
    × (ltb 0 s.retx_backlog ≡ false)
    × (ltb 0 s'.retx_backlog ≡ true)
Asks s s' (requests_retransmit ∷ r ∷ rs) = ⊥
Asks s s' (requests_pull ∷ requests_pull ∷ rs) = ⊥
Asks s s' (requests_pull ∷ requests_retransmit ∷ r ∷ rs) = ⊥

pub handle_pull_target-Asks : (s : PullState) (pt : ℕ) → Ensures (Asks s) (handle_pull_target s pt)
unfolding handle_pull_target enter_pull
handle_pull_target-Asks s pt = ground arith

-- `processTrimmed` as the pacer sees it.
pub retransmit-Asks :
    (s : PullState) (pt quanta : ℕ)
    → 0 < quanta
    → Ensures (Asks s) (handle_pull_target s pt >>= (λ s'. retransmit s' quanta))
unfolding handle_pull_target enter_pull retransmit
retransmit-Asks s pt quanta h = ground arith

pub rts-Asks : (s : PullState) (pt n : ℕ) → 0 < n → Ensures (Asks s) (rts s pt n)
unfolding rts handle_pull_target enter_pull
rts-Asks s pt n h = ground arith
