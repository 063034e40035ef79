-- ===== src/Eqds/Source/Laws.antt =====
-- What the source keeps while it restarts its timer.
use frontier_htsim.Prelude.{
  ℕ, ◌+◌, ◌≡◌, refl, ◌∙◌, List, [], ◌∷◌, if◌then◌else◌, if_elim, ltb, not, ◌==◌, ◌||◌, Outcome,
  ◌>>=◌, Ensures, Ensures-bind, Ensures-mono,
}
use frontier_htsim.Eqds.Source.{
  EqdsSrc, TimerEffect, begin_rto, cancel_rto, clear_rto, start_rto, start_earliest,
  recalculate_rto,
}

-- `t` has the records, the queue for retransmission and the bytes in flight of `s`.
pub record Same (s t : EqdsSrc) : Type 0 where
  pub same_tx : t.tx_bitmap ≡ s.tx_bitmap
  pub same_rtx : t.rtx_queue ≡ s.rtx_queue
  pub same_flight : t.in_flight ≡ s.in_flight

abbrev Kept : EqdsSrc → EqdsSrc → List TimerEffect → Type 0
Kept s t es = Same s t

begin_rto-Same : (s : EqdsSrc) (t now : ℕ) → Ensures (Kept s) (begin_rto s t now)
unfolding begin_rto
begin_rto-Same s t now =
    if_elim (Ensures (Kept s))
      (s.endtime == 0 || ltb (if ltb (t + s.rto) now then now else t + s.rto) s.endtime)
      (record { same_tx = refl; same_rtx = refl; same_flight = refl })
      (record { same_tx = refl; same_rtx = refl; same_flight = refl })

cancel_rto-Same : (s : EqdsSrc) → Ensures (Kept s) (cancel_rto s)
unfolding cancel_rto clear_rto
cancel_rto-Same s =
    if_elim (Ensures (Kept s)) s.rtx_timeout_pending
      (record { same_tx = refl; same_rtx = refl; same_flight = refl })
      (record { same_tx = refl; same_rtx = refl; same_flight = refl })

Same-trans : (s t u : EqdsSrc) → Same s t → Same t u → Same s u
Same-trans s t u a b = record {
  same_tx = b.same_tx ∙ a.same_tx;
  same_rtx = b.same_rtx ∙ a.same_rtx;
  same_flight = b.same_flight ∙ a.same_flight;
}

-- A restart after the timer was cancelled.
cancel_then :
    (s : EqdsSrc) (k : EqdsSrc → Outcome TimerEffect EqdsSrc)
    → ((t : EqdsSrc) → Ensures (Kept t) (k t))
    → Ensures (Kept s) (cancel_rto s >>= k)
cancel_then s k h = Ensures-bind (Kept s) (Kept s) (cancel_rto s) k (cancel_rto-Same s) (λ t es a.
    Ensures-mono (Kept t) (λ u fs. Same s u) (k t) (λ u fs b. Same-trans s t u a b) (h t))

start_rto-Same : (s : EqdsSrc) (t now : ℕ) → Ensures (Kept s) (start_rto s t now)
unfolding start_rto
start_rto-Same s t now =
    if_elim (Ensures (Kept s)) (not s.rtx_timeout_pending) (begin_rto-Same s t now) (
      if_elim (Ensures (Kept s)) (ltb (t + s.rto) s.rtx_timeout)
        (cancel_then s (λ u. begin_rto u t now) (λ u. begin_rto-Same u t now))
        (record { same_tx = refl; same_rtx = refl; same_flight = refl }))

start_earliest-Same :
    (s : EqdsSrc) (now : ℕ) (times : List (ℕ × ℕ)) → Ensures (Kept s) (start_earliest s now times)
unfolding start_earliest
start_earliest-Same s now [] = record { same_tx = refl; same_rtx = refl; same_flight = refl }
start_earliest-Same s now ((t, n) ∷ rest) = start_rto-Same s t now

pub recalculate_rto-Same :
    (s : EqdsSrc) (now : ℕ) → Ensures (λ t es. Same s t) (recalculate_rto s now)
unfolding recalculate_rto
recalculate_rto-Same s now =
    cancel_then s (λ t. start_earliest t now t.send_times)
      (λ t. start_earliest-Same t now t.send_times)
