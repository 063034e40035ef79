-- ===== src/Eqds/Source/Settled.antt =====
-- What an acknowledgement settles, where it tells the truth about what the sink keeps.
use frontier_htsim.Prelude.{
  ℕ, ◌<◌, ◌≤◌, ◌≡◌, refl, sym, ap, subst, ◌∙◌, Bool, true, false, ◌||◌, List, [], ◌∷◌, some, ltb,
  arith, Bool-cases, inl, inr, ◌>>=◌, or_abort, Ensures, Ensures-bind, Ensures-mono, Ensures-after,
}
use frontier_htsim.Eqds.Packets.{EqdsAckPacket}
use frontier_htsim.Eqds.Acks.{sacked}
use frontier_htsim.Eqds.Sink.Acked.{Truthful}
use frontier_htsim.Eqds.Source.{
  EqdsSrc, TimerEffect, drop_below, cum_loop, handle_cumulative_ack, handle_acknos, process_acknos,
}
use frontier_htsim.Eqds.Source.Acked.{
  has, sizes, outstanding, erase_all, Leaves, cum_loop-Leaves, handle_acknos-Leaves,
}
use frontier_htsim.Eqds.Source.Ascending.{
  Above, AllOut, Above-has, drop_below-Above, has-drop_below, erase_all-Above, erase_all-AllOut,
}

-- The maps are in order, and the bytes in flight cover what is recorded.
pub record Sound (s : EqdsSrc) : Type 0 where
  pub covered : sizes s.tx_bitmap ≤ s.in_flight
  pub ascending_tx : Above 0 s.tx_bitmap
  pub ascending_rtx : Above 0 s.rtx_queue

-- `s` has become `t` by an acknowledgement of the set `P`.
pub record Settled (P : ℕ → Bool) (ack : EqdsAckPacket) (s t : EqdsSrc) : Type 0 where
  pub sound : Sound t
  pub stays : (n : ℕ) → P n ≡ false → outstanding s n ≡ true → outstanding t n ≡ true
  pub below : (n : ℕ) → n < ack.cumulative_ack → outstanding t n ≡ false
  pub numbers : List ℕ
  pub read : sacked 64 ack.sack_bitmap ack.ref_ack ≡ some numbers
  pub selected : AllOut t.tx_bitmap numbers
  pub queued : (n : ℕ) → ack.cumulative_ack ≤ n → has t.rtx_queue n ≡ has s.rtx_queue n

-- After the cumulative number.
record Cumulated (P : ℕ → Bool) (c : ℕ) (s t : EqdsSrc) : Type 0 where
  pub covered : sizes t.tx_bitmap ≤ t.in_flight
  pub stays : (n : ℕ) → P n ≡ false → outstanding s n ≡ true → outstanding t n ≡ true
  pub above_tx : Above c t.tx_bitmap
  pub above_rtx : Above c t.rtx_queue
  pub left_rtx : t.rtx_queue ≡ drop_below c s.rtx_queue

handle_cumulative_ack-Cumulated :
    (P : ℕ → Bool) (s : EqdsSrc) (c now : ℕ)
    → ((n : ℕ) → n < c → P n ≡ true)
    → Sound s
    → Ensures (λ t es. Cumulated P c s t) (handle_cumulative_ack s c now)
unfolding handle_cumulative_ack
handle_cumulative_ack-Cumulated P s c now b h =
    Ensures-mono (λ t es. Leaves P left (drop_below c s.tx_bitmap) t) (λ t es. Cumulated P c s t)
      (cum_loop left c now s.tx_bitmap)
      (λ t es a. record {
        covered = a.0.covered;
        stays = λ n p o. a.0.stays n p (first n p o);
        above_tx = subst (Above c) (sym a.1) (drop_below-Above 0 c s.tx_bitmap h.ascending_tx);
        above_rtx = subst (Above c) (sym a.2) (drop_below-Above 0 c s.rtx_queue h.ascending_rtx);
        left_rtx = a.2;
      })
      (cum_loop-Leaves P left c now s.tx_bitmap refl h.covered b)
  where
    left : EqdsSrc
    left = record s { rtx_queue = drop_below c s.rtx_queue }

    at_least : (n : ℕ) → P n ≡ false → c ≤ n
    at_least n p = elim (Bool-cases (ltb n c)) [
      | inl e ↦ absurd (let q : true ≡ false = sym (b n (ground (arith, e))) ∙ p in cc)
      | inr e ↦ ground (arith, e)
    ]

    first : (n : ℕ) → P n ≡ false → outstanding s n ≡ true → outstanding left n ≡ true
    first n p o =
        ap (λ x. has s.tx_bitmap n || x) (has-drop_below c n s.rtx_queue (at_least n p)) ∙ o

Above-zero : {A : Type 0} (c : ℕ) (l : List (ℕ × A)) → Above c l → Above 0 l
Above-zero c [] u = tt
Above-zero c ((k, a) ∷ rest) u = (omega arith, u.1)

outstanding_below :
    (c n : ℕ) (t : EqdsSrc)
    → Above c t.tx_bitmap
    → Above c t.rtx_queue
    → n < c
    → outstanding t n ≡ false
outstanding_below c n t a b l =
    ap (λ x. x || has t.rtx_queue n) (Above-has c n t.tx_bitmap a l) ∙ Above-has c n t.rtx_queue b l

-- An acknowledgement comes whose cumulative number is the first that is not in `P` and whose bitmap
-- has only numbers in `P`, to a source whose maps are in order and whose bytes in flight cover the
-- packets that it has recorded. No assertion fails, and the same holds of the source. No packet
-- below the cumulative number is outstanding, neither recorded nor queued for retransmission, and
-- none of the bitmap is recorded, but what is queued for retransmission from the cumulative number
-- on stays queued; and every packet that was outstanding and is not in `P` still is.
pub process_acknos-Settled :
    (P : ℕ → Bool) (s : EqdsSrc) (pkt : EqdsAckPacket) (now : ℕ)
    → Truthful P pkt
    → Sound s
    → Ensures (λ t es. Settled P pkt s t) (process_acknos s pkt now)
unfolding process_acknos
process_acknos-Settled P s pkt now v h =
    Ensures-bind (λ t es. Cumulated P pkt.cumulative_ack s t) A
      (handle_cumulative_ack s pkt.cumulative_ack now)
      (λ t. or_abort (sacked 64 pkt.sack_bitmap pkt.ref_ack) >>= (λ ns. handle_acknos t now ns))
      (handle_cumulative_ack-Cumulated P s pkt.cumulative_ack now v.below h)
      (λ t es a.
        subst (λ o. Ensures A (or_abort o >>= (λ ns. handle_acknos t now ns))) (sym v.read)
          (Ensures-after A [] (handle_acknos t now v.numbers) (
            Ensures-mono (λ u fs. Leaves P t (erase_all t.tx_bitmap v.numbers) u) A
              (handle_acknos t now v.numbers) (λ u fs d. settled t u a d)
              (handle_acknos-Leaves P t now v.numbers v.selected a.covered))))
  where
    A : EqdsSrc → List TimerEffect → Type 0
    A t es = Settled P pkt s t

    settled :
        (t u : EqdsSrc)
        → Cumulated P pkt.cumulative_ack s t
        → Leaves P t (erase_all t.tx_bitmap v.numbers) u
        → Settled P pkt s u
    settled t u a d =
        let c = pkt.cumulative_ack in
        let tx : Above c u.tx_bitmap =
          subst (Above c) (sym d.1) (erase_all-Above c t.tx_bitmap v.numbers a.above_tx) in
        let rtx : Above c u.rtx_queue = subst (Above c) (sym d.2) a.above_rtx in
        record {
          sound = record {
            covered = d.0.covered;
            ascending_tx = Above-zero c u.tx_bitmap tx;
            ascending_rtx = Above-zero c u.rtx_queue rtx;
          };
          stays = λ n p o. d.0.stays n p (a.stays n p o);
          queued = λ n l. ap (λ x. has x n) (d.2 ∙ a.left_rtx) ∙ has-drop_below c n s.rtx_queue l;
          below = λ n l. outstanding_below c n u tx rtx l;
          numbers = v.numbers;
          read = v.read;
          selected =
              subst (λ l. AllOut l v.numbers) (sym d.1)
                (erase_all-AllOut c t.tx_bitmap v.numbers a.above_tx);
        }
