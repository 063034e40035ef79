-- ===== src/Eqds/Reliable.antt =====
-- A source and a sink of EQDS with what is between them: packets that arrive at the sink in any order,
-- and the acknowledgements that it has sent, of which any can reach the source, at any time and
-- repeatedly, or be lost.
use frontier_htsim.Prelude.{
  ℕ, zero, suc, ◌≡◌, refl, ap, subst, ◌∙◌, Bool, true, false, ◌||◌, List, [], ◌∷◌, ◌++◌, Option,
  none, some, arith, if_elim, get_elem?, Outcome, done, aborted, Ensures,
}
use frontier_htsim.Eqds.Packets.{EqdsAckPacket}
use frontier_htsim.Eqds.Sink.{
  EqdsSink, SinkEffect, SinkArrival, of_data, of_rts, of_other_type, asks, sends_control,
  sends_nack, sends_ack, frees, receive_packet,
}
use frontier_htsim.Eqds.Sink.Window.{add}
use frontier_htsim.Eqds.Sink.Acked.{Truthful, AllTruthful, Keeps, Good}
use frontier_htsim.Eqds.Sink.Arrivals.{arrived, Fits, receive_packet-Good}
use frontier_htsim.Eqds.Source.{EqdsSrc, TimerEffect, process_acknos}
use frontier_htsim.Eqds.Source.Acked.{outstanding}
use frontier_htsim.Eqds.Source.Settled.{Sound, Settled, process_acknos-Settled}

-- `kept` are the packets that have arrived, and `acks` all acknowledgements sent.
pub record Pair : Type 0 where
  pub source : EqdsSrc
  pub sink : EqdsSink
  pub kept : ℕ → Bool
  pub acks : List EqdsAckPacket

-- A packet arrives at the sink, or an acknowledgement of those sent at the source at some time.
pub data PairInput : Type 0 where
  arrives : SinkArrival → PairInput
  delivers : ℕ → ℕ → PairInput

abbrev acks_of : List SinkEffect → List EqdsAckPacket
acks_of [] = []
acks_of (asks r ∷ es) = acks_of es
acks_of (sends_control ack ∷ es) = ack ∷ acks_of es
acks_of (sends_nack nack ∷ es) = acks_of es
acks_of (sends_ack ack ∷ es) = ack ∷ acks_of es
acks_of (frees ∷ es) = acks_of es

abbrev after_arrival : Pair → SinkArrival → Outcome SinkEffect EqdsSink → Option Pair
after_arrival w a (done k es) =
    some (record w { sink = k; kept = arrived w.kept a; acks = w.acks ++ acks_of es })
after_arrival w a aborted = none

abbrev after_ack : Pair → Outcome TimerEffect EqdsSrc → Option Pair
after_ack w (done s es) = some (record w { source = s })
after_ack w aborted = none

abbrev deliver : Pair → ℕ → Option EqdsAckPacket → Option Pair
deliver w now none = some w
deliver w now (some ack) = after_ack w (process_acknos w.source ack now)

abbrev step : Pair → PairInput → Option Pair
step w (arrives a) = after_arrival w a (receive_packet w.sink a)
step w (delivers i now) = deliver w now (get_elem? w.acks i)

abbrev follow : (Pair → Option Pair) → Option Pair → Option Pair
follow f none = none
follow f (some w) = f w

-- `none` is a failed assertion.
pub run : Pair → List PairInput → Option Pair
run w [] = some w
run w (i ∷ is) = follow (λ v. run v is) (step w i)

-- Every packet fits the sink when it arrives.
abbrev pub AllFit : Pair → List PairInput → Type 0
AllFit w [] = Unit {0}
AllFit w (arrives a ∷ is) =
    Fits w.kept w.sink a × ((v : Pair) → step w (arrives a) ≡ some v → AllFit v is)
AllFit w (delivers i now ∷ is) = (v : Pair) → step w (delivers i now) ≡ some v → AllFit v is

-- An acknowledgement told the truth about a set that has only grown since.
pub record Known (P : ℕ → Bool) (ack : EqdsAckPacket) : Type 0 where
  pub told : ℕ → Bool
  pub truthful : Truthful told ack
  pub within : (n : ℕ) → told n ≡ true → P n ≡ true

abbrev pub AllKnown : (ℕ → Bool) → List EqdsAckPacket → Type 0
AllKnown P [] = Unit {0}
AllKnown P (ack ∷ acks) = Known P ack × AllKnown P acks

pub record Reliable (w : Pair) : Type 0 where
  pub keeps : Keeps w.kept w.sink
  pub sound : Sound w.source
  pub known : AllKnown w.kept w.acks

-- The packet is outstanding, or the sink keeps it.
abbrev pub held : Pair → ℕ → Bool
held w n = outstanding w.source n || w.kept n

AllKnown-mono :
    (P Q : ℕ → Bool) (acks : List EqdsAckPacket)
    → ((n : ℕ) → P n ≡ true → Q n ≡ true)
    → AllKnown P acks
    → AllKnown Q acks
AllKnown-mono P Q [] h k = tt
AllKnown-mono P Q (ack ∷ acks) h k = (
  record { told = k.0.told; truthful = k.0.truthful; within = λ n t. h n (k.0.within n t) },
  AllKnown-mono P Q acks h k.1,
)

AllKnown-append :
    (P : ℕ → Bool) (acks more : List EqdsAckPacket)
    → AllKnown P acks
    → AllKnown P more
    → AllKnown P (acks ++ more)
AllKnown-append P [] more a b = b
AllKnown-append P (ack ∷ acks) more a b = (a.0, AllKnown-append P acks more a.1 b)

Truthful-Known : (P : ℕ → Bool) (ack : EqdsAckPacket) → Truthful P ack → Known P ack
Truthful-Known P ack t = record { told = P; truthful = t; within = λ n h. h }

acks_of-AllKnown :
    (P : ℕ → Bool) (es : List SinkEffect) → AllTruthful P es → AllKnown P (acks_of es)
acks_of-AllKnown P [] t = tt
acks_of-AllKnown P (asks r ∷ es) t = acks_of-AllKnown P es t
acks_of-AllKnown P (sends_control ack ∷ es) t =
    (Truthful-Known P ack t.0, acks_of-AllKnown P es t.1)
acks_of-AllKnown P (sends_nack nack ∷ es) t = acks_of-AllKnown P es t
acks_of-AllKnown P (sends_ack ack ∷ es) t = (Truthful-Known P ack t.0, acks_of-AllKnown P es t.1)
acks_of-AllKnown P (frees ∷ es) t = acks_of-AllKnown P es t

abbrev value_or {ℓ} : {A : Type ℓ} → A → Option A → A
value_or a none = a
value_or a (some b) = b

get_elem?-Known :
    (P : ℕ → Bool) (acks : List EqdsAckPacket) (i : ℕ) (ack : EqdsAckPacket)
    → get_elem? acks i ≡ some ack
    → AllKnown P acks
    → Known P ack
get_elem?-Known P [] i ack e k = absurd (ground (arith, e))
get_elem?-Known P (x ∷ acks) zero ack e k = subst (Known P) (ap (value_or x) e) k.0
get_elem?-Known P (x ∷ acks) (suc i) ack e k = get_elem?-Known P acks i ack e k.1

add-grows : (P : ℕ → Bool) (p n : ℕ) → P n ≡ true → add p P n ≡ true
add-grows P p n h = ground (arith, h)

arrived-grows : (P : ℕ → Bool) (a : SinkArrival) (n : ℕ) → P n ≡ true → arrived P a n ≡ true
arrived-grows P (of_data pkt) n h =
    if_elim (λ (Q : ℕ → Bool). Q n ≡ true) pkt.is_header {x = P} {y = add pkt.epsn P} h
      (add-grows P pkt.epsn n h)
arrived-grows P (of_rts pkt) n h = add-grows P pkt.epsn n h
arrived-grows P (of_other_type size) n h = h

-- What a step of the pair comes to.
abbrev Next : Pair → Option Pair → Type 0
Next w o = (v : Pair) × (o ≡ some v) × Reliable v × ((n : ℕ) → held w n ≡ true → held v n ≡ true)

held_or : (a b c : Bool) → (b ≡ true → c ≡ true) → (a || b) ≡ true → (a || c) ≡ true
held_or true b c f h = refl
held_or false b c f h = f h

arrival-Next :
    (w : Pair) (a : SinkArrival) (m : Outcome SinkEffect EqdsSink)
    → Ensures (Good (arrived w.kept a)) m
    → Reliable w
    → Next w (after_arrival w a m)
arrival-Next w a (done k es) g r = (
  record w { sink = k; kept = arrived w.kept a; acks = w.acks ++ acks_of es },
  refl,
  record {
    keeps = g.0;
    sound = r.sound;
    known =
        AllKnown-append (arrived w.kept a) w.acks (acks_of es)
          (AllKnown-mono w.kept (arrived w.kept a) w.acks (arrived-grows w.kept a) r.known)
          (acks_of-AllKnown (arrived w.kept a) es g.1);
  },
  λ n h.
      held_or (outstanding w.source n) (w.kept n) (arrived w.kept a n) (arrived-grows w.kept a n) h,
)
arrival-Next w a aborted g r = absurd g

still :
    (k q a b : Bool)
    → (q ≡ true → k ≡ true)
    → (q ≡ false → a ≡ true → b ≡ true)
    → (a || k) ≡ true
    → (b || k) ≡ true
still true q a b f g h = ground arith
still false true a b f g h = absurd (let c : false ≡ true = f refl in cc)
still false false true b f g h = ap (λ x. x || false) (g refl refl)
still false false false b f g h = absurd (let c : false ≡ true = h in cc)

-- A packet that is neither kept nor told of stays outstanding.
still_held :
    (w : Pair) (t : EqdsSrc) (ack : EqdsAckPacket) (q : ℕ → Bool) (n : ℕ)
    → (q n ≡ true → w.kept n ≡ true)
    → Settled q ack w.source t
    → held w n ≡ true
    → (outstanding t n || w.kept n) ≡ true
still_held w t ack q n within s h =
    still (w.kept n) (q n) (outstanding w.source n) (outstanding t n) within (s.stays n) h

ack-Next :
    (w : Pair) (ack : EqdsAckPacket) (q : ℕ → Bool) (m : Outcome TimerEffect EqdsSrc)
    → ((n : ℕ) → q n ≡ true → w.kept n ≡ true)
    → Ensures (λ t es. Settled q ack w.source t) m
    → Reliable w
    → Next w (after_ack w m)
ack-Next w ack q (done t es) within s r = (
  record w { source = t },
  refl,
  record { keeps = r.keeps; sound = s.sound; known = r.known },
  λ n h. still_held w t ack q n (within n) s h,
)
ack-Next w ack q aborted within s r = absurd s

deliver-Next :
    (w : Pair) (i now : ℕ) (o : Option EqdsAckPacket)
    → get_elem? w.acks i ≡ o
    → Reliable w
    → Next w (deliver w now o)
deliver-Next w i now none e r = (w, refl, r, λ n h. h)
deliver-Next w i now (some ack) e r =
    let k = get_elem?-Known w.kept w.acks i ack e r.known in
    ack-Next w ack k.told (process_acknos w.source ack now) k.within
      (process_acknos-Settled k.told w.source ack now k.truthful r.sound) r

-- The pair after the input, and what is left of the fit.
step-Next :
    (w : Pair) (i : PairInput) (is : List PairInput)
    → AllFit w (i ∷ is)
    → Reliable w
    → (n : Next w (step w i)) × AllFit n.0 is
step-Next w (arrives a) is f r =
    let n =
      arrival-Next w a (receive_packet w.sink a) (receive_packet-Good w.kept w.sink a r.keeps f.0)
        r in
    (n, f.1 n.0 n.1)
step-Next w (delivers i now) is f r =
    let n = deliver-Next w i now (get_elem? w.acks i) refl r in (n, f n.0 n.1)

-- A source whose maps are in order and whose bytes in flight cover what it has recorded, and a sink
-- that keeps a set of packets, have acknowledgements between them that told the truth about sets
-- that have only grown since. Packets that fit the sink arrive at it in any order, and
-- acknowledgements that it has sent reach the source in any order, any of them repeatedly or never.
-- No assertion fails, the same holds after it, and every packet that was outstanding at the source
-- or kept by the sink still is.
pub run-Reliable :
    (is : List PairInput) (w : Pair)
    → AllFit w is
    → Reliable w
    → (v : Pair) × (run w is ≡ some v) × Reliable v × ((n : ℕ) → held w n ≡ true → held v n ≡ true)
unfolding run
run-Reliable [] w f r = (w, refl, r, λ n h. h)
run-Reliable (i ∷ is) w f r =
    let (t, g) = step-Next w i is f r in
    let (v, e, k, h) = run-Reliable is t.0 g t.2 in
    (v, ap (follow (λ x. run x is)) t.1 ∙ e, k, λ n o. h n (t.3 n o))
