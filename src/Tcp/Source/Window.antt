-- ===== src/Tcp/Source/Window.antt =====
-- What `send_packets` of `TcpSrc` sends: the loop ends, and what it sent are the next segments, as many
-- as the window and the flow have room for.
use frontier_htsim.Prelude.{
  ℕ, zero, suc, ◌+◌, ◌*◌, ◌^◌, max, ◌≤◌, ◌<◌, ◌≡◌, refl, sym, subst, ap, ap₂, ◌∙◌, inl, inr, true,
  false, List, [], ◌∷◌, arith, add64, Bool-cases, Ensures,
}
use frontier_htsim.Tcp.Source.{
  TcpSrc, Effect, sent, start_timer, data_packet, can_send, send_one, send_loop, window,
  send_packets,
}

-- What the loop does not change of a source.
pub record Kept (s s' : TcpSrc) : Type 0 where
  pub mss : s'.mss ≡ s.mss
  pub last_acked : s'.last_acked ≡ s.last_acked
  pub flow_size : s'.flow_size ≡ s.flow_size
  pub established : s'.established ≡ s.established
  pub cwnd : s'.cwnd ≡ s.cwnd
  pub ssthresh : s'.ssthresh ≡ s.ssthresh
  pub maxcwnd : s'.maxcwnd ≡ s.maxcwnd
  pub dupacks : s'.dupacks ≡ s.dupacks
  pub recoverq : s'.recoverq ≡ s.recoverq
  pub in_fast_recovery : s'.in_fast_recovery ≡ s.in_fast_recovery
  pub dst : s'.dst ≡ s.dst
  pub route : s'.route ≡ s.route

-- `n` segments on from the byte `first`.
abbrev pub segments : ℕ → TcpSrc → ℕ → ℕ → List Effect
segments now s first zero = []
segments now s first (suc n) = sent (data_packet now s first) ∷ segments now s (first + s.mss) n

-- No sum of the loop wraps.
pub record Room (c : ℕ) (s : TcpSrc) : Type 0 where
  pub mss_pos : 0 < s.mss
  pub sent_room : s.highest_sent + s.mss < 2 ^ 64
  pub window_room : s.last_acked + c + s.mss < 2 ^ 64

-- What the loop leaves, with the number of its rounds.
pub record Sends (now c : ℕ) (s : TcpSrc) (s' : TcpSrc) (es : List Effect) : Type 0 where
  pub rounds : ℕ
  pub effects : es ≡ segments now s (s.highest_sent + 1) rounds
  pub highest : s'.highest_sent ≡ s.highest_sent + rounds * s.mss
  pub fits : s'.highest_sent ≤ max s.highest_sent (s.last_acked + c)
  pub full : can_send c s' ≡ false
  pub kept : Kept s s'

module _ (now c : ℕ) where
  segments-send_one :
      (s : TcpSrc) (first n : ℕ) → segments now (send_one now s) first n ≡ segments now s first n
  unfolding send_one start_timer data_packet
  segments-send_one s first zero = refl
  segments-send_one s first (suc n) =
      ap (λ rest. sent (data_packet now s first) ∷ rest) (segments-send_one s (first + s.mss) n)

  stops : (fuel : ℕ) (s : TcpSrc) → can_send c s ≡ false → send_loop fuel now c s ≡ (s, [])
  unfolding send_loop
  stops zero s e = refl
  stops (suc fuel) s e = ground (arith, e)

  goes_on :
      (fuel : ℕ) (s : TcpSrc)
      → can_send c s ≡ true
      → send_loop (suc fuel) now c s ≡ (
        (send_loop fuel now c (send_one now s)).0,
        sent (data_packet now s (add64 s.highest_sent 1))
            ∷ (send_loop fuel now c (send_one now s)).1,
      )
  unfolding send_loop
  goes_on fuel s e = ground (arith, e)

  -- The condition of the loop, where no sum wraps.
  can_send_fits :
      (s : TcpSrc) → Room c s → can_send c s ≡ true → s.highest_sent + s.mss ≤ s.last_acked + c
  unfolding can_send
  can_send_fits s r e = ground (arith, r.mss_pos, r.sent_room, r.window_room)

  overfull : (s : TcpSrc) → Room c s → s.last_acked + c < s.highest_sent → can_send c s ≡ false
  unfolding can_send
  overfull s r l = ground (arith, r.mss_pos, r.sent_room, r.window_room)

  send_one_highest :
      (s : TcpSrc) → Room c s → (send_one now s).highest_sent ≡ s.highest_sent + s.mss
  unfolding send_one start_timer
  send_one_highest s r = omega (arith, r.sent_room)

  send_one-Room : (s : TcpSrc) → Room c s → can_send c s ≡ true → Room c (send_one now s)
  unfolding send_one start_timer
  send_one-Room s r e = record {
    mss_pos = r.mss_pos;
    sent_room = omega (arith, r.mss_pos, r.sent_room, r.window_room, can_send_fits s r e);
    window_room = r.window_room;
  }

  Sends-stop : (s : TcpSrc) → can_send c s ≡ false → Sends now c s s []
  Sends-stop s e = record {
    rounds = 0;
    effects = refl;
    highest = omega arith;
    fits = omega arith;
    full = e;
    kept = record {
      mss = refl;
      last_acked = refl;
      flow_size = refl;
      established = refl;
      cwnd = refl;
      ssthresh = refl;
      maxcwnd = refl;
      dupacks = refl;
      recoverq = refl;
      in_fast_recovery = refl;
      dst = refl;
      route = refl;
    };
  }

  Sends-one :
      (s s' : TcpSrc) (es : List Effect)
      → Room c s
      → can_send c s ≡ true
      → Sends now c (send_one now s) s' es
      → Sends now c s s' (sent (data_packet now s (add64 s.highest_sent 1)) ∷ es)
  unfolding send_one start_timer
  Sends-one s s' es r e d = record {
    rounds = suc d.rounds;
    effects =
        ap₂ (λ first rest. sent (data_packet now s first) ∷ rest)
          (omega (arith, r.sent_room, r.mss_pos))
          (d.effects
            ∙ segments-send_one s _ d.rounds
            ∙ ap (λ first. segments now s first d.rounds) (omega (arith, r.sent_room)));
    highest = d.highest ∙ omega (arith, r.sent_room);
    fits = omega (arith, d.fits, r.sent_room, can_send_fits s r e);
    full = d.full;
    kept = record {
      mss = d.kept.mss;
      last_acked = d.kept.last_acked;
      flow_size = d.kept.flow_size;
      established = d.kept.established;
      cwnd = d.kept.cwnd;
      ssthresh = d.kept.ssthresh;
      maxcwnd = d.kept.maxcwnd;
      dupacks = d.kept.dupacks;
      recoverq = d.kept.recoverq;
      in_fast_recovery = d.kept.in_fast_recovery;
      dst = d.kept.dst;
      route = d.kept.route;
    };
  }

  fuel_left :
      (fuel : ℕ) (s : TcpSrc)
      → Room c s
      → s.last_acked + c < s.highest_sent + suc fuel
      → (send_one now s).last_acked + c < (send_one now s).highest_sent + fuel
  unfolding send_one start_timer
  fuel_left fuel s r l = omega (arith, l, r.mss_pos, r.sent_room)

  sends :
      (fuel : ℕ) (s : TcpSrc)
      → Room c s
      → s.last_acked + c < s.highest_sent + fuel
      → Sends now c s (send_loop fuel now c s).0 (send_loop fuel now c s).1
  unfolding send_loop
  sends zero s r l = Sends-stop s (overfull s r (omega (arith, l)))
  sends (suc fuel) s r l = elim (Bool-cases (can_send c s)) [
    | inl e ↦
        subst (λ p. Sends now c s p.0 p.1) (sym (goes_on fuel s e))
          (Sends-one s _ _ r e
            (sends fuel (send_one now s) (send_one-Room s r e) (fuel_left fuel s r l)))
    | inr e ↦ subst (λ p. Sends now c s p.0 p.1) (sym (stops (suc fuel) s e)) (Sends-stop s e)
  ]

pub send_packets-window :
    (now : ℕ) (s : TcpSrc)
    → s.established ≡ true
    → s.last_acked ≤ s.highest_sent
    → Room (window s) s
    → Ensures (Sends now (window s) s) (send_packets now s)
unfolding send_packets
send_packets-window now s e l r =
    simp e (sends now (window s) (suc (window s)) s r (omega (arith, l)))
