-- ===== src/Eqds/Nic/Requests.antt =====
-- A source asks a NIC to send.
use frontier_htsim.Prelude.{
  ℕ, ◌+◌, ◌<◌, ◌≤◌, ◌≡◌, refl, sym, subst, ap, ◌∙◌, Bool, true, false, not, List, [], ◌∷◌, ◌++◌,
  none, leb, if_cases, arith, length, add64, append-nil, return, Ensures, Ensures-assert,
}
use frontier_htsim.Fifo
use frontier_htsim.Eqds.Nic.{EqdsNic, NicEffect, schedules, waiting, request_sending}
use frontier_htsim.Eqds.Nic.Laws.{scheduled, departed, asked, bytes, Turn, Inv, After}

pub length-push {ℓ} : {A : Type ℓ} (xs : List A) (x : A) → length (xs ++ x ∷ []) ≡ length xs + 1
length-push [] x = refl
length-push (y ∷ xs) x = omega (arith, length-push xs x)

-- What a source is told: to wait, or to send at once.
abbrev pub Answered : ℕ → EqdsNic → ℕ → List ℕ → Bool → EqdsNic → List NicEffect → Type 0
Answered start_size nic now events false nic' es = After start_size now events nic.control nic' es
Answered start_size nic now events true nic' es =
    (nic' ≡ nic) × (es ≡ []) × (waiting nic ≡ false) × (nic.send_end_time < now)

abbrev line : EqdsNic → ℕ → EqdsNic
line nic src = record nic {
  num_queued_srcs = nic.num_queued_srcs + 1;
  active_srcs = Fifo.push nic.active_srcs src;
}

module _ (start_size : ℕ) where
  -- A source waits behind the others, with an event pending for the end of the transmission.
  queued-After :
      (nic : EqdsNic) (src now : ℕ) (events : List ℕ) (es : List NicEffect)
      → nic.num_queued_srcs ≡ length nic.active_srcs
      → nic.control_size ≡ add64 start_size (bytes nic.control)
      → now ≤ nic.send_end_time
      → events ++ scheduled es ≡ nic.send_end_time ∷ []
      → departed es ≡ []
      → asked es ≡ none
      → After start_size now events nic.control (line nic src) es
  unfolding waiting
  queued-After nic src now events es c b l e d a = record {
    inv = record {
      counted = omega (arith, c, length-push nic.active_srcs src);
      counted_bytes = b;
      turn =
          subst (λ answers. Turn (line nic src) now (events ++ scheduled es) answers) (sym a)
            (e ∙ ground arith, λ q. l);
    };
    order = ap (λ ps. ps ++ nic.control) d;
  }

  -- A source that is not let send at once waits behind the others.
  pub request_sending-Answered :
      (nic : EqdsNic) (src now : ℕ) (events : List ℕ)
      → Inv start_size nic now events none
      → Ensures
          (λ q es. Answered start_size nic now events q.1 q.0 es)
          (request_sending nic src now)
  unfolding request_sending waiting
  request_sending-Answered nic src now events v =
      if_cases (Ensures A) (leb now nic.send_end_time)
        (λ l.
          if_cases (Ensures A) (not (waiting nic))
            (λ w.
              queued-After nic src now events (schedules nic.send_end_time ∷ []) v.counted
                v.counted_bytes (ground (arith, l)) (ground (arith, v.turn.0, w)) refl refl)
            (λ w.
              queued-After nic src now events [] v.counted v.counted_bytes (ground (arith, l))
                (ground (arith, v.turn.0, w, append-nil events)) refl refl))
        (λ l.
          Ensures-assert A (not (waiting nic)) (return (nic, true)) (ground (arith, l, v.turn.1))
            (refl, refl, ground (arith, l, v.turn.1), ground (arith, l)))
    where
      A : EqdsNic × Bool → List NicEffect → Type 0
      A q es = Answered start_size nic now events q.1 q.0 es
