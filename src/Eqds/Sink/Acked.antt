-- ===== src/Eqds/Sink/Acked.antt =====
-- What a sink acknowledges: only packets that have arrived.
use frontier_htsim.Prelude.{
  ℕ, zero, suc, ◌+◌, ◌-◌, ◌^◌, ◌<◌, ◌≤◌, ◌≡◌, refl, sym, subst, ◌∙◌, Bool, true, false, List, [],
  ◌∷◌, ◌++◌, some, ltb, ◌==◌, if◌then◌else◌, if_cases, arith, Bool-cases, ==_iff, inl, inr, Ensures,
}
use frontier_htsim.Eqds.Packets.{EqdsAckPacket}
use frontier_htsim.Eqds.Acks.{sacked}
use frontier_htsim.Eqds.Sink.{
  EqdsSink, ModularVector, is_set, SinkEffect, asks, sends_control, sends_nack, sends_ack, frees,
  sack, sack_bitmap_base, send_sack, is_duplicate, in_order, settle, beyond, accept,
}
use frontier_htsim.Eqds.Sink.Bitmap.{marked, sacked-build_sack_bitmap, build_sack_bitmap-is_set}
use frontier_htsim.Eqds.Sink.Window.{Holds, add, advance-Holds, put-Holds, marks-Holds}

abbrev pub AllIn : (ℕ → Bool) → List ℕ → Type 0
AllIn P [] = Unit {0}
AllIn P (n ∷ ns) = (P n ≡ true) × AllIn P ns

-- An acknowledgement of the set `P`: its cumulative number is the first that is not in `P`, and the
-- numbers that a source reads in its bitmap are in `P`.
pub record Truthful (P : ℕ → Bool) (ack : EqdsAckPacket) : Type 0 where
  pub below : (j : ℕ) → j < ack.cumulative_ack → P j ≡ true
  pub first : P ack.cumulative_ack ≡ false
  pub numbers : List ℕ
  pub read : sacked 64 ack.sack_bitmap ack.ref_ack ≡ some numbers
  pub selected : AllIn P numbers

abbrev pub AllTruthful : (ℕ → Bool) → List SinkEffect → Type 0
AllTruthful P [] = Unit {0}
AllTruthful P (asks r ∷ es) = AllTruthful P es
AllTruthful P (sends_control ack ∷ es) = Truthful P ack × AllTruthful P es
AllTruthful P (sends_nack nack ∷ es) = AllTruthful P es
AllTruthful P (sends_ack ack ∷ es) = Truthful P ack × AllTruthful P es
AllTruthful P (frees ∷ es) = AllTruthful P es

pub AllTruthful-append :
    (P : ℕ → Bool) (es fs : List SinkEffect)
    → AllTruthful P es
    → AllTruthful P fs
    → AllTruthful P (es ++ fs)
AllTruthful-append P [] fs a b = b
AllTruthful-append P (asks r ∷ es) fs a b = AllTruthful-append P es fs a b
AllTruthful-append P (sends_control k ∷ es) fs a b = (a.0, AllTruthful-append P es fs a.1 b)
AllTruthful-append P (sends_nack k ∷ es) fs a b = AllTruthful-append P es fs a b
AllTruthful-append P (sends_ack k ∷ es) fs a b = (a.0, AllTruthful-append P es fs a.1 b)
AllTruthful-append P (frees ∷ es) fs a b = AllTruthful-append P es fs a b

-- The sink keeps the set `P`.
abbrev pub Keeps : (ℕ → Bool) → EqdsSink → Type 0
Keeps P s = Holds P s.expected_epsn s.epsn_rx_bitmap

-- What a handler ends in when the set is `P`.
abbrev pub Good : (ℕ → Bool) → EqdsSink → List SinkEffect → Type 0
Good P s es = Keeps P s × AllTruthful P es

in_window :
    (P : ℕ → Bool) (e : ℕ) (buf : ModularVector) (p : ℕ)
    → Holds P e buf
    → e ≤ p
    → p < e + 2 ^ 12
    → is_set buf p ≡ P p
in_window P e buf p h a b =
    let k : e + (p - e) ≡ p = omega (arith, a) in
    subst (λ j. is_set buf j ≡ P j) k (h.window (p - e) (omega (arith, a, b)))

marked-AllIn :
    (P : ℕ → Bool) (e : ℕ) (buf : ModularVector) (n idx : ℕ)
    → Holds P e buf
    → idx + n ≤ e + 2 ^ 12
    → AllIn P (marked buf idx n)
unfolding marked
marked-AllIn P e buf zero idx h l = tt
marked-AllIn P e buf (suc n) idx h l =
    let ih : AllIn P (marked buf (idx + 1) n) =
      marked-AllIn P e buf n (idx + 1) h (omega (arith, l)) in
    let set_in : is_set buf idx ≡ true → P idx ≡ true = λ s. elim (Bool-cases (ltb idx e)) [
      | inl b ↦ h.below idx (ground (arith, b))
      | inr b ↦ sym (in_window P e buf idx h (ground (arith, b)) (omega (arith, l))) ∙ s
    ] in
    if_cases (AllIn P) (is_set buf idx) (λ s. (set_in s, ih)) (λ s. ih)

pub is_duplicate_lem :
    (P : ℕ → Bool) (s : EqdsSink) (p : ℕ)
    → Keeps P s
    → p < s.expected_epsn + 2 ^ 12
    → is_duplicate s p ≡ P p
unfolding is_duplicate
is_duplicate_lem P s p h l = elim (Bool-cases (ltb p s.expected_epsn)) [
  | inl b ↦ ground (arith, b, h.below p)
  | inr b ↦
      ground (arith, b, in_window P s.expected_epsn s.epsn_rx_bitmap p h (ground (arith, b)) l)
]

-- An acknowledgement whose bitmap starts within the window.
pub sack-Truthful :
    (P : ℕ → Bool) (s : EqdsSink) (path_id seqno : ℕ) (ce : Bool)
    → Keeps P s
    → seqno + 64 ≤ s.expected_epsn + 2 ^ 12
    → Keeps P (sack s path_id seqno ce).0 × Truthful P (sack s path_id seqno ce).1
unfolding sack
sack-Truthful P s path_id seqno ce h l = (
  marks-Holds P s.epsn_rx_bitmap _ s.expected_epsn h
      (build_sack_bitmap-is_set s.epsn_rx_bitmap seqno),
  record {
    below = h.below;
    first = h.hole;
    numbers = marked s.epsn_rx_bitmap seqno 64;
    read = sacked-build_sack_bitmap s.epsn_rx_bitmap seqno;
    selected = marked-AllIn P s.expected_epsn s.epsn_rx_bitmap 64 seqno h l;
  },
)

pub send_sack-Good :
    (P : ℕ → Bool) (s : EqdsSink) (path_id seqno : ℕ) (ce : Bool)
    → Keeps P s
    → seqno + 64 ≤ s.expected_epsn + 2 ^ 12
    → Ensures (Good P) (send_sack s path_id seqno ce)
unfolding send_sack
send_sack-Good P s path_id seqno ce h l =
    let (k, t) = sack-Truthful P s path_id seqno ce h l in (k, (t, tt))

-- The two bases of a bitmap.
pub bases :
    (s : EqdsSink) (p : ℕ) (c : Bool)
    → p + 64 ≤ s.expected_epsn + 2 ^ 12
    → (if c then p else sack_bitmap_base s p) + 64 ≤ s.expected_epsn + 2 ^ 12
unfolding sack_bitmap_base
bases s p c l = ground (arith, l)

-- The next expected number only grows.
grows :
    (P Q : ℕ → Bool) (e e' : ℕ) (buf buf' : ModularVector)
    → Holds P e buf
    → Holds Q e' buf'
    → ((j : ℕ) → P j ≡ true → Q j ≡ true)
    → e ≤ e'
grows P Q e e' buf buf' h k f = elim (Bool-cases (ltb e' e)) [
  | inl b ↦
      let c : true ≡ false = sym (f e' (h.below e' (ground (arith, b)))) ∙ k.hole in absurd (cc)
  | inr b ↦ ground (arith, b)
]

abbrev pub Counts : (ℕ → Bool) → EqdsSink → ℕ → EqdsSink → List SinkEffect → Type 0
Counts P s p s' es =
    Keeps (add p P) s'
    × (s.expected_epsn ≤ s'.expected_epsn)
    × (s'.flow_size ≡ s.flow_size)
    × (es ≡ [])

in_order-Counts :
    (P : ℕ → Bool) (s : EqdsSink) (p : ℕ)
    → Keeps P s
    → p ≡ s.expected_epsn
    → Ensures (Counts P s p) (in_order s)
unfolding in_order
in_order-Counts P s p h e =
    let (buf, e', c, q, k) =
      advance-Holds P s.epsn_rx_bitmap s.expected_epsn s.out_of_order_count h in
    let k' : Holds (add p P) e' buf = subst (λ i. Holds (add i P) e' buf) (sym e) k in
    subst (λ o. Ensures (Counts P s p) (settle s o)) (sym q)
      (
        k',
        grows P (add p P) s.expected_epsn e' s.epsn_rx_bitmap buf h k' (λ j a. ground (arith, a)),
        refl,
        refl,
      )

-- A new packet is counted in.
pub accept-Counts :
    (P : ℕ → Bool) (s : EqdsSink) (p : ℕ)
    → Keeps P s
    → P p ≡ false
    → p < s.expected_epsn + 2 ^ 12
    → Ensures (Counts P s p) (accept s p)
unfolding accept beyond
accept-Counts P s p h n l =
    if_cases (Ensures (Counts P s p)) (p == s.expected_epsn)
      (λ b. in_order-Counts P s p h ((==_iff p s.expected_epsn).0 b))
      (λ b. (put-Holds P s.epsn_rx_bitmap s.expected_epsn p h (past b) l, omega arith, refl, refl))
  where
    past : (p == s.expected_epsn) ≡ false → s.expected_epsn < p
    past b = elim (Bool-cases (ltb p s.expected_epsn)) [
      | inl c ↦ (let d : true ≡ false = sym (h.below p (ground (arith, c))) ∙ n in absurd (cc))
      | inr c ↦ ground (arith, b, c)
    ]
