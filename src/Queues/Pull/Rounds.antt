-- ===== src/Queues/Pull/Rounds.antt =====
-- How `FairPullQueue` takes turns: its loop ends, it serves the next flow that has packets, and so a
-- flow waits for at most one packet of each other flow.
use frontier_htsim.Prelude.{
  ℕ, zero, suc, ◌+◌, ◌-◌, ◌<◌, ◌≡◌, refl, sym, subst, ap, ◌∙◌, List, [], ◌∷◌, ◌++◌, Option, some,
  append_assoc, append-nil, get_or, drop, length, length-append, arith, ◌==◌, if_false, return,
  Ensures, Ensures-mono,
}
use frontier_htsim.Network.{Packet}
use frontier_htsim.Queues.Pull.{Flow, FairPullQueue, current, turn, dequeue}

-- The flows in the order of their turns.
abbrev pub turns : FairPullQueue → List Flow
turns q = q.ahead ++ q.before

-- The packets of all flows together.
abbrev pub total : List Flow → ℕ
total [] = 0
total (f ∷ fs) = length f.1 + total fs

-- None of the flows has a packet.
abbrev pub Idle : List Flow → Type 0
Idle [] = Unit {0}
Idle (f ∷ fs) = (f.1 ≡ []) × Idle fs

-- What a turn leaves: the flow that it served and those that it found idle go behind the others.
pub record Served (q : FairPullQueue) (es : List Flow) (flow : ℕ) (p : Packet) (ps : List Packet)
    (rest : List Flow) (r : FairPullQueue × Option Packet) : Type 0 where
  pub packet : r.1 ≡ some p
  pub order : turns r.0 ≡ rest ++ (es ++ (flow, ps) ∷ [])
  pub count : r.0.pull_count ≡ q.pull_count - 1

current_lem :
    (before ahead : List Flow)
    → 0 < length (ahead ++ before)
    → (f : Flow) × (b : List Flow) × (a : List Flow) × (current before ahead ≡ some (f, b, a))
      × (ahead ++ before ≡ f ∷ (a ++ b))
unfolding current
current_lem before (g ∷ ahead) l = (g, before, ahead, refl, refl)
current_lem (g ∷ before) [] l = (g, [], before, refl, ap (◌∷◌ g) (sym (append-nil before)))
current_lem [] [] l = absurd (omega (arith, l))

-- The flow that is next, where the order of the turns is known.
current_is :
    (before ahead : List Flow) (f : Flow) (fs : List Flow)
    → ahead ++ before ≡ f ∷ fs
    → (b : List Flow) × (a : List Flow) × (current before ahead ≡ some (f, b, a)) × (a ++ b ≡ fs)
current_is before ahead f fs e =
    let c = current_lem before ahead (subst (λ l. 0 < length l) (sym e) (omega arith)) in
    (
      c.1,
      c.2,
      c.3 ∙ ap (λ g. some (g, c.1, c.2)) (ap (λ l. get_or l 0 f) (sym c.4 ∙ e)),
      ap (drop 1) (sym c.4 ∙ e),
    )

turn_serves :
    (fuel : ℕ) (q : FairPullQueue) (flow : ℕ) (p : Packet) (ps : List Packet) (b a : List Flow)
    → current q.before q.ahead ≡ some ((flow, p ∷ ps), b, a)
    → turn (suc fuel) q
      ≡ return (
        record q { before = b ++ (flow, ps) ∷ []; ahead = a; pull_count = q.pull_count - 1 },
        some p,
      )
unfolding turn
turn_serves fuel q flow p ps b a e = cc

turn_skips :
    (fuel : ℕ) (q : FairPullQueue) (flow : ℕ) (b a : List Flow)
    → current q.before q.ahead ≡ some ((flow, []), b, a)
    → turn (suc fuel) q ≡ turn fuel (record q { before = b ++ (flow, []) ∷ []; ahead = a })
unfolding turn
turn_skips fuel q flow b a e = cc

-- An idle flow that was passed over first.
Served-skip :
    (q q' : FairPullQueue) (k : ℕ) (xs : List Packet) (es : List Flow) (flow : ℕ) (p : Packet)
    (ps : List Packet) (rest : List Flow) (r : FairPullQueue × Option Packet)
    → xs ≡ []
    → q'.pull_count ≡ q.pull_count
    → Served q' es flow p ps (rest ++ (k, []) ∷ []) r
    → Served q ((k, xs) ∷ es) flow p ps rest r
Served-skip q q' k xs es flow p ps rest r i c h = record {
  packet = h.packet;
  order =
      h.order
      ∙ moved
      ∙ ap (λ (ys : List Packet). rest ++ (k, ys) ∷ (es ++ (flow, ps) ∷ [])) (sym i);
  count = h.count ∙ ap (λ n. n - 1) c;
}
  where
    moved :
        (rest ++ (k, []) ∷ []) ++ (es ++ (flow, ps) ∷ [])
        ≡ rest ++ (k, []) ∷ (es ++ (flow, ps) ∷ [])
    moved = append_assoc rest ((k, []) ∷ []) (es ++ (flow, ps) ∷ [])

-- A turn with fuel for every idle flow before the one that it serves.
turn-Served :
    (es : List Flow) (fuel : ℕ) (q : FairPullQueue) (flow : ℕ) (p : Packet) (ps : List Packet)
    (rest : List Flow)
    → length es < fuel
    → turns q ≡ es ++ (flow, p ∷ ps) ∷ rest
    → Idle es
    → Ensures (λ r fx. Served q es flow p ps rest r × (fx ≡ [])) (turn fuel q)
turn-Served es zero q flow p ps rest l e i = absurd (omega (arith, l))
turn-Served [] (suc fuel) q flow p ps rest l e i =
    let c = current_is q.before q.ahead (flow, p ∷ ps) rest e in
    subst (Ensures (λ r fx. Served q [] flow p ps rest r × (fx ≡ [])))
      (sym (turn_serves fuel q flow p ps c.0 c.1 c.2))
      (
        record {
          packet = refl;
          order = sym (append_assoc c.1 c.0 _) ∙ ap (λ l. l ++ (flow, ps) ∷ []) c.3;
          count = refl;
        },
        refl,
      )
turn-Served ((k, xs) ∷ es) (suc fuel) q flow p ps rest l e i =
    let c = current_is q.before q.ahead (k, xs) (es ++ (flow, p ∷ ps) ∷ rest) e in
    subst (Ensures (λ r fx. Served q ((k, xs) ∷ es) flow p ps rest r × (fx ≡ [])))
      (sym (turn_skips fuel q k c.0 c.1 (c.2 ∙ ap (λ ys. some ((k, ys), c.0, c.1)) i.0)))
      (Ensures-mono _ _ (turn fuel (record q { before = c.0 ++ (k, []) ∷ []; ahead = c.1 }))
        (λ r fx h. (Served-skip q _ k xs es flow p ps rest r i.0 refl h.0, h.1))
        (turn-Served es fuel (record q { before = c.0 ++ (k, []) ∷ []; ahead = c.1 }) flow p ps
          (rest ++ (k, []) ∷ []) (omega (arith, l))
          (sym (append_assoc c.1 c.0 _)
            ∙ ap (λ l. l ++ (k, []) ∷ []) c.3
            ∙ append_assoc es ((flow, p ∷ ps) ∷ rest) _)
          i.1))

-- The first flow that has a packet.
pub first_busy :
    (fs : List Flow)
    → 0 < total fs
    → (es : List Flow) × (flow : ℕ) × (p : Packet) × (ps : List Packet) × (rest : List Flow) × (fs
        ≡ es ++ (flow, p ∷ ps) ∷ rest)
      × Idle es
first_busy [] l = absurd (omega (arith, l))
first_busy ((flow, p ∷ ps) ∷ fs) l = ([], flow, p, ps, fs, refl, tt)
first_busy ((flow, []) ∷ fs) l =
    let h = first_busy fs (omega (arith, l)) in
    ((flow, []) ∷ h.0, h.1, h.2, h.3, h.4, ap (◌∷◌ (flow, [])) h.5, (refl, h.6))

-- What `dequeue` does: it serves the first flow in turn that has a packet.
pub dequeue-Served :
    (q : FairPullQueue) (es : List Flow) (flow : ℕ) (p : Packet) (ps : List Packet)
    (rest : List Flow)
    → 0 < q.pull_count
    → turns q ≡ es ++ (flow, p ∷ ps) ∷ rest
    → Idle es
    → Ensures (λ r fx. Served q es flow p ps rest r × (fx ≡ [])) (dequeue q)
unfolding dequeue
dequeue-Served q es flow p ps rest l e i =
    if_false (Ensures (λ r fx. Served q es flow p ps rest r × (fx ≡ []))) (q.pull_count == 0) _ _
      (ground (arith, l)) (turn-Served es (length (turns q)) q flow p ps rest enough e i)
  where
    enough : length es < length (turns q)
    enough =
        subst (λ l. length es < length l) (sym e)
          (omega (arith, length-append es ((flow, p ∷ ps) ∷ rest)))

pub total-append : (xs ys : List Flow) → total (xs ++ ys) ≡ total xs + total ys
total-append [] ys = omega arith
total-append (x ∷ xs) ys = omega (arith, total-append xs ys)

-- The count of the packets is kept.
pub Served-count :
    (q : FairPullQueue) (es : List Flow) (flow : ℕ) (p : Packet) (ps : List Packet)
    (rest : List Flow) (r : FairPullQueue × Option Packet)
    → q.pull_count ≡ total (turns q)
    → turns q ≡ es ++ (flow, p ∷ ps) ∷ rest
    → Served q es flow p ps rest r
    → r.0.pull_count ≡ total (turns r.0)
Served-count q es flow p ps rest r c e h =
    h.count
    ∙ ap (λ n. n - 1) (c ∙ ap total e)
    ∙ omega (
      arith,
      total-append es ((flow, p ∷ ps) ∷ rest),
      total-append rest (es ++ (flow, ps) ∷ []),
      total-append es ((flow, ps) ∷ []),
    )
    ∙ ap total (sym h.order)

pub Idle-empty : (fs : List Flow) → total fs ≡ 0 → Idle fs
Idle-empty [] e = tt
Idle-empty ((k, []) ∷ fs) e = (refl, Idle-empty fs (omega (arith, e)))
Idle-empty ((k, p ∷ ps) ∷ fs) e = absurd (omega (arith, e))
