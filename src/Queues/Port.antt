-- ===== src/Queues/Port.antt =====
-- A queue between the packets that arrive and the event list: `receivePacket` is called for each
-- packet, `doNextEvent` for each event that the queue has scheduled and that is still pending.
use frontier_htsim.Prelude.{
  ℕ, zero, suc, ◌+◌, ◌≡◌, refl, List, [], ◌∷◌, ◌++◌, Option, none, some, Outcome, done, aborted,
  Ensures, append-nil, append_assoc,
}
use frontier_htsim.Network.{Packet}
use frontier_htsim.Queues.Effects.{Effect, scheduled}

-- The two entry points of a queue, each with the time of the call.
pub record Discipline (Q : Type 0) : Type 0 where
  pub receive : Q → ℕ → Packet → Outcome Effect Q
  pub complete : Q → ℕ → Outcome Effect Q

-- A queue, how many of its events are pending, and all that it has done, oldest first.
pub record Port (Q : Type 0) : Type 0 where
  pub queue : Q
  pub pending : ℕ
  pub log : List Effect

pub data Input : Type 0 where
  arrives : ℕ → Packet → Input
  expires : ℕ → Input

-- The packets that arrive.
abbrev pub arrivals : List Input → List Packet
arrivals [] = []
arrivals (arrives now p ∷ is) = p ∷ arrivals is
arrivals (expires now ∷ is) = arrivals is

module _ {Q : Type 0} where
  -- A handler's outcome with `n` other events pending; `none` is an aborted program.
  abbrev pub settle : ℕ → List Effect → Outcome Effect Q → Option (Port Q)
  settle n log (done q es) =
      some (record { queue = q; pending = n + scheduled es; log = log ++ es })
  settle n log aborted = none

  -- Time passes without an event of the queue where none is pending.
  abbrev pub fire : Discipline Q → ℕ → Port Q → ℕ → Option (Port Q)
  fire d now s zero = some s
  fire d now s (suc n) = settle n s.log (d.complete s.queue now)

  unfoldable pub step : Discipline Q → Port Q → Input → Option (Port Q)
  step d s (arrives now p) = settle s.pending s.log (d.receive s.queue now p)
  step d s (expires now) = fire d now s s.pending

  unfoldable pub run : Discipline Q → Port Q → List Input → Option (Port Q)
  unfolding step
  run d s [] = some s
  run d s (i ∷ is) = elim (step d s i) [ none ↦ none | some s' ↦ run d s' is ]

-- What the theorems of a discipline give a client: an invariant of the queue, its pending events,
-- what it has done and what has arrived, for the packets that it is made for, which no handler
-- breaks and under which none aborts.
pub record Lawful {Q : Type 0} (d : Discipline Q) : Type 1 where
  pub Inv : Q → ℕ → List Effect → List Packet → Type 0
  pub Admits : Packet → Type 0
  pub receive-Inv :
      (q : Q) (n : ℕ) (log : List Effect) (ps : List Packet) (now : ℕ) (p : Packet)
      → Inv q n log ps
      → Admits p
      → Ensures (λ q' es. Inv q' (n + scheduled es) (log ++ es) (ps ++ p ∷ [])) (d.receive q now p)
  pub complete-Inv :
      (q : Q) (n : ℕ) (log : List Effect) (ps : List Packet) (now : ℕ)
      → Inv q (suc n) log ps
      → Ensures (λ q' es. Inv q' (n + scheduled es) (log ++ es) ps) (d.complete q now)

abbrev pub All : (Packet → Type 0) → List Packet → Type 0
All P [] = Unit {0}
All P (p ∷ ps) = P p × All P ps

module _ {Q : Type 0} (d : Discipline Q) (law : Lawful d) where
  abbrev Holds : List Packet → Port Q → Type 0
  Holds ps s = law.Inv s.queue s.pending s.log ps

  settle-Holds :
      (n : ℕ) (log : List Effect) (ps : List Packet) (m : Outcome Effect Q)
      → Ensures (λ q' es. law.Inv q' (n + scheduled es) (log ++ es) ps) m
      → (s : Port Q) × (settle n log m ≡ some s) × Holds ps s
  settle-Holds n log ps (done q es) h = (_, refl, h)
  settle-Holds n log ps aborted h = absurd h

  fire-Holds :
      (now : ℕ) (s : Port Q) (ps : List Packet) (n : ℕ)
      → s.pending ≡ n
      → law.Inv s.queue n s.log ps
      → (s' : Port Q) × (fire d now s n ≡ some s') × Holds ps s'
  fire-Holds now s ps zero e h = (s, refl, rw e h)
  fire-Holds now s ps (suc n) e h =
      settle-Holds n s.log ps (d.complete s.queue now) (law.complete-Inv s.queue n s.log ps now h)

  -- No sequence of arrivals and events aborts, and the invariant holds after it.
  pub run-Inv :
      (s : Port Q) (ps : List Packet) (is : List Input)
      → law.Inv s.queue s.pending s.log ps
      → All law.Admits (arrivals is)
      → (s' : Port Q) × (run d s is ≡ some s')
        × law.Inv s'.queue s'.pending s'.log (ps ++ arrivals is)
  unfolding run step
  run-Inv s ps [] h a = (s, refl, rw append-nil h)
  run-Inv s ps (arrives now p ∷ is) h a =
      let (s', e, h') =
        settle-Holds s.pending s.log (ps ++ p ∷ []) (d.receive s.queue now p)
          (law.receive-Inv s.queue s.pending s.log ps now p h a.0) in
      let (s'', e', h'') = run-Inv s' (ps ++ p ∷ []) is h' a.1 in
      (s'', rw (e, run) e', rw append_assoc at h'')
  run-Inv s ps (expires now ∷ is) h a =
      let (s', e, h') = fire-Holds now s ps s.pending refl h in
      let (s'', e', h'') = run-Inv s' ps is h' a in (s'', rw (e, run) e', h'')
