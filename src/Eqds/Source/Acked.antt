-- ===== src/Eqds/Source/Acked.antt =====
-- What the source forgets when an acknowledgement comes.
use frontier_htsim.Prelude.{
  ℕ, ◌+◌, ◌-◌, ◌<◌, ◌≤◌, ◌≡◌, ◌≢◌, refl, sym, subst, ap, ◌∙◌, Bool, true, false, ◌||◌, List, [],
  ◌∷◌, Option, none, some, ltb, leb, ◌==◌, if◌then◌else◌, if_elim, if_true, if_false, if_cases,
  arith, ◌>>=◌, return, Ensures, Ensures-bind, Ensures-mono, Ensures-assert,
}
use frontier_htsim.Eqds.Sink.Acked.{AllIn}
use frontier_htsim.Eqds.Source.{
  EqdsSrc, SendRecord, TimerEffect, find, erase, forget, forget_found, handle_ackno, drop_below,
  cum_loop, handle_acknos, recalculate_rto,
}
use frontier_htsim.Eqds.Source.Laws.{Same, recalculate_rto-Same}

-- Whether a key is there.
abbrev pub has : {A : Type 0} → List (ℕ × A) → ℕ → Bool
has [] n = false
has ((k, a) ∷ rest) n = k == n || has rest n

-- The sizes of all packets that are recorded.
abbrev pub sizes : List (ℕ × SendRecord) → ℕ
sizes [] = 0
sizes ((k, r) ∷ rest) = r.pkt_size + sizes rest

-- A packet that is on its way or is to be sent again.
abbrev pub outstanding : EqdsSrc → ℕ → Bool
outstanding s n = has s.tx_bitmap n || has s.rtx_queue n

-- The bytes in flight cover what is recorded, and what is outstanding in `s` and not in `P` is so in `t`.
pub record Covers (P : ℕ → Bool) (s t : EqdsSrc) : Type 0 where
  pub covered : sizes t.tx_bitmap ≤ t.in_flight
  pub stays : (n : ℕ) → P n ≡ false → outstanding s n ≡ true → outstanding t n ≡ true

Covers-trans : (P : ℕ → Bool) (s t u : EqdsSrc) → Covers P s t → Covers P t u → Covers P s u
Covers-trans P s t u a b = record {
  covered = b.covered;
  stays = λ n p o. b.stays n p (a.stays n p o);
}

pub or_stays : (a b c d : Bool) → (a ≡ true → c ≡ true) → d ≡ b → (a || b) ≡ true → (c || d) ≡ true
or_stays true b c d f e o = ap (λ x. x || d) (f refl)
or_stays false b true d f e o = refl
or_stays false b false d f e o = e ∙ o

-- `tx` is recorded in `t`, and what is to be sent again is as in `s`.
abbrev pub Leaves : (ℕ → Bool) → EqdsSrc → List (ℕ × SendRecord) → EqdsSrc → Type 0
Leaves P s tx t = Covers P s t × (t.tx_bitmap ≡ tx) × (t.rtx_queue ≡ s.rtx_queue)

Leaves-trans :
    (P : ℕ → Bool) (s t u : EqdsSrc) (tx vx : List (ℕ × SendRecord))
    → Leaves P s tx t
    → Leaves P t vx u
    → Leaves P s vx u
Leaves-trans P s t u tx vx a b = (Covers-trans P s t u a.0 b.0, b.1, b.2 ∙ a.2)

-- A packet that is forgotten was in `P`, and its size is taken off.
forget-Leaves :
    (P : ℕ → Bool) (s : EqdsSrc) (r : SendRecord) (tx : List (ℕ × SendRecord)) (now : ℕ)
    → sizes tx + r.pkt_size ≤ s.in_flight
    → ((n : ℕ) → P n ≡ false → has s.tx_bitmap n ≡ true → has tx n ≡ true)
    → Ensures (λ t es. Leaves P s tx t) (forget s r tx now)
unfolding forget
forget-Leaves P s r tx now c k =
    Ensures-assert A (leb r.pkt_size s.in_flight)
      (if r.send_time == s.rto_send_time then recalculate_rto left now else return left)
      (ground (arith, c))
      (if_elim (Ensures A) (r.send_time == s.rto_send_time)
        (Ensures-mono (λ t es. Same left t) A (recalculate_rto left now) (λ t es. same t es)
          (recalculate_rto-Same left now))
        (same left [] (record { same_tx = refl; same_rtx = refl; same_flight = refl })))
  where
    A : EqdsSrc → List TimerEffect → Type 0
    A t es = Leaves P s tx t

    left : EqdsSrc
    left = record s {
      in_flight = s.in_flight - r.pkt_size;
      tx_bitmap = tx;
      send_times = erase s.send_times r.send_time;
    }

    same : (t : EqdsSrc) (es : List TimerEffect) → Same left t → A t es
    same t es h = (
      record {
        covered = omega (arith, c, ap sizes h.same_tx, h.same_flight);
        stays = λ n p o.
            or_stays (has s.tx_bitmap n) (has s.rtx_queue n) (has t.tx_bitmap n) (has t.rtx_queue n)
              (λ q. ap (λ l. has l n) h.same_tx ∙ k n p q) (ap (λ l. has l n) h.same_rtx) o;
      },
      h.same_tx,
      h.same_rtx,
    )

has_later :
    (k n : ℕ) (rest : List (ℕ × SendRecord))
    → k ≢ n
    → (k == n || has rest n) ≡ true
    → has rest n ≡ true
has_later k n rest h o = ground (arith, h, o)

pub in_and_out : (P : ℕ → Bool) (k n : ℕ) → P k ≡ true → P n ≡ false → k ≢ n
in_and_out P k n a b e = absurd (let c : true ≡ false = sym a ∙ ap P e ∙ b in cc)

unchanged-Leaves :
    (P : ℕ → Bool) (s : EqdsSrc) (tx : List (ℕ × SendRecord))
    → s.tx_bitmap ≡ tx
    → sizes tx ≤ s.in_flight
    → Leaves P s tx s
unchanged-Leaves P s tx e c =
    (record { covered = subst (λ l. sizes l ≤ s.in_flight) (sym e) c; stays = λ n p o. o }, e, refl)

pub cum_loop-Leaves :
    (P : ℕ → Bool) (s : EqdsSrc) (cum_ack now : ℕ) (tx : List (ℕ × SendRecord))
    → s.tx_bitmap ≡ tx
    → sizes tx ≤ s.in_flight
    → ((n : ℕ) → n < cum_ack → P n ≡ true)
    → Ensures (λ t es. Leaves P s (drop_below cum_ack tx) t) (cum_loop s cum_ack now tx)
unfolding cum_loop drop_below
cum_loop-Leaves P s cum_ack now [] e c b = unchanged-Leaves P s [] e c
cum_loop-Leaves P s cum_ack now ((seqno, r) ∷ rest) e c b =
    if_cases (Ensures A) (leb cum_ack seqno)
      (λ q.
        if_false (λ l. Leaves P s l s) (ltb seqno cum_ack) (drop_below cum_ack rest)
          ((seqno, r) ∷ rest) (ground (arith, q)) (unchanged-Leaves P s ((seqno, r) ∷ rest) e c))
      (λ q.
        if_true
          (λ l.
            Ensures (λ t es. Leaves P s l t)
              (forget s r rest now >>= (λ t. cum_loop t cum_ack now rest)))
          (ltb seqno cum_ack) (drop_below cum_ack rest) ((seqno, r) ∷ rest) (ground (arith, q))
          (Ensures-bind (λ t es. Leaves P s rest t) (λ t es. Leaves P s (drop_below cum_ack rest) t)
            (forget s r rest now) (λ t. cum_loop t cum_ack now rest)
            (forget-Leaves P s r rest now (omega (arith, c)) (λ n p o.
              has_later seqno n rest (in_and_out P seqno n (b seqno (ground (arith, q))) p)
                (ap (λ l. has l n) (sym e) ∙ o)))
            (λ t es a.
              Ensures-mono (λ u fs. Leaves P t (drop_below cum_ack rest) u)
                (λ u fs. Leaves P s (drop_below cum_ack rest) u) (cum_loop t cum_ack now rest)
                (λ u fs d. Leaves-trans P s t u rest (drop_below cum_ack rest) a d)
                (cum_loop-Leaves P t cum_ack now rest a.1
                  (subst (λ l. sizes l ≤ t.in_flight) a.1 a.0.covered) b))))
  where
    A : EqdsSrc → List TimerEffect → Type 0
    A t es = Leaves P s (if ltb seqno cum_ack then drop_below cum_ack rest else (seqno, r) ∷ rest) t

abbrev size_of_found : Option SendRecord → ℕ
size_of_found none = 0
size_of_found (some r) = r.pkt_size

-- A record that is found is taken off the sizes.
sizes-erase :
    (tx : List (ℕ × SendRecord)) (n : ℕ) (r : SendRecord)
    → find tx n ≡ some r
    → sizes (erase tx n) + r.pkt_size ≡ sizes tx
unfolding find erase
sizes-erase [] n r e = absurd (ground (arith, e))
sizes-erase ((k, q) ∷ rest) n r e = by_key (k == n) (sizes-erase rest n r) e
  where
    by_key :
        (b : Bool)
        → (find rest n ≡ some r → sizes (erase rest n) + r.pkt_size ≡ sizes rest)
        → (if b then some q else find rest n) ≡ some r
        → sizes (if b then rest else (k, q) ∷ erase rest n) + r.pkt_size ≡ q.pkt_size + sizes rest
    by_key true h f = omega (arith, ap size_of_found f)
    by_key false h f = omega (arith, h f)

pub has-erase : {A : Type 0} (tx : List (ℕ × A)) (n m : ℕ) → n ≢ m → has (erase tx n) m ≡ has tx m
unfolding erase
has-erase [] n m h = refl
has-erase ((k, q) ∷ rest) n m h = ground (arith, has-erase rest n m h, h)

abbrev pub erase_all : List (ℕ × SendRecord) → List ℕ → List (ℕ × SendRecord)
erase_all tx [] = tx
erase_all tx (n ∷ ns) = erase_all (erase tx n) ns

not_found : (tx : List (ℕ × SendRecord)) (n : ℕ) → find tx n ≡ none → erase tx n ≡ tx
unfolding find erase
not_found [] n e = refl
not_found ((k, q) ∷ rest) n e = by_key (k == n) (not_found rest n) e
  where
    by_key :
        (b : Bool)
        → (find rest n ≡ none → erase rest n ≡ rest)
        → (if b then some q else find rest n) ≡ none
        → (if b then rest else (k, q) ∷ erase rest n) ≡ (k, q) ∷ rest
    by_key true h f = absurd (ground (arith, f))
    by_key false h f = ap (λ l. (k, q) ∷ l) (h f)

handle_ackno-Leaves :
    (P : ℕ → Bool) (s : EqdsSrc) (n now : ℕ)
    → P n ≡ true
    → sizes s.tx_bitmap ≤ s.in_flight
    → Ensures (λ t es. Leaves P s (erase s.tx_bitmap n) t) (handle_ackno s n now)
unfolding handle_ackno
handle_ackno-Leaves P s n now p c = found (find s.tx_bitmap n) refl
  where
    found :
        (o : Option SendRecord)
        → find s.tx_bitmap n ≡ o
        → Ensures (λ t es. Leaves P s (erase s.tx_bitmap n) t) (forget_found s n now o)
    found none e =
        unchanged-Leaves P s (erase s.tx_bitmap n) (sym (not_found s.tx_bitmap n e))
          (subst (λ l. sizes l ≤ s.in_flight) (sym (not_found s.tx_bitmap n e)) c)
    found (some r) e =
        forget-Leaves P s r (erase s.tx_bitmap n) now
          (omega (arith, c, sizes-erase s.tx_bitmap n r e))
          (λ m q o. has-erase s.tx_bitmap n m (in_and_out P n m p q) ∙ o)

pub handle_acknos-Leaves :
    (P : ℕ → Bool) (s : EqdsSrc) (now : ℕ) (ns : List ℕ)
    → AllIn P ns
    → sizes s.tx_bitmap ≤ s.in_flight
    → Ensures (λ t es. Leaves P s (erase_all s.tx_bitmap ns) t) (handle_acknos s now ns)
unfolding handle_acknos
handle_acknos-Leaves P s now [] a c = unchanged-Leaves P s s.tx_bitmap refl c
handle_acknos-Leaves P s now (n ∷ ns) a c =
    Ensures-bind (λ t es. Leaves P s (erase s.tx_bitmap n) t)
      (λ t es. Leaves P s (erase_all (erase s.tx_bitmap n) ns) t) (handle_ackno s n now)
      (λ t. handle_acknos t now ns) (handle_ackno-Leaves P s n now a.0 c)
      (λ t es b.
        Ensures-mono (λ u fs. Leaves P t (erase_all t.tx_bitmap ns) u)
          (λ u fs. Leaves P s (erase_all (erase s.tx_bitmap n) ns) u) (handle_acknos t now ns)
          (λ u fs d.
            Leaves-trans P s t u (erase s.tx_bitmap n) (erase_all (erase s.tx_bitmap n) ns) b
              (subst (λ l. Leaves P t (erase_all l ns) u) b.1 d))
          (handle_acknos-Leaves P t now ns a.1 b.0.covered))
