-- ===== src/Queues/Pull/Waits.antt =====
-- How long a flow waits in a `FairPullQueue`: until the flows before it have been served once at most.
use frontier_htsim.Prelude.{
  ℕ, zero, suc, ◌≤◌, ◌<◌, ◌≡◌, sym, subst, ap, ◌∙◌, inl, inr, List, [], ◌∷◌, ◌++◌, Option, some,
  append_assoc, length, length-append, arith, ◌==◌, Bool-cases, Outcome, done, return, Ensures,
  Ensures-bind, Ensures-after, Ensures-done, ◌>>=◌,
}
use frontier_htsim.Network.{Packet}
use frontier_htsim.Queues.Effects.{Effect}
use frontier_htsim.Queues.Pull.{Flow, FairPullQueue, dequeue}
use frontier_htsim.Queues.Pull.Rounds.{
  turns, total, Idle, Idle-empty, Served, Served-count, first_busy, dequeue-Served, total-append,
}

-- What the call of `dequeue` after `n` others returns.
abbrev pub dequeued : ℕ → FairPullQueue → Outcome Effect (Option Packet)
dequeued zero q = dequeue q >>= λ r. return r.1
dequeued (suc n) q = dequeue q >>= λ r. dequeued n r.0

-- The flow is the first that has a packet.
serves_now :
    (xs ys : List Flow) (q : FairPullQueue) (flow : ℕ) (p : Packet) (ps : List Packet)
    → q.pull_count ≡ total (turns q)
    → turns q ≡ xs ++ (flow, p ∷ ps) ∷ ys
    → Idle xs
    → Ensures (λ o fx. o ≡ some p) (dequeued 0 q)
serves_now xs ys q flow p ps c e i =
    Ensures-bind (λ r fx. Served q xs flow p ps ys r × (fx ≡ [])) (λ o fx. o ≡ some p) (dequeue q) _
      (dequeue-Served q xs flow p ps ys busy e i) (λ r fx h. h.0.packet)
  where
    busy : 0 < q.pull_count
    busy = omega (arith, c, ap total e, total-append xs ((flow, p ∷ ps) ∷ ys))

-- A call that serves another flow first.
later :
    (q : FairPullQueue) (n : ℕ) (p : Packet) (r : FairPullQueue × Option Packet) (fx : List Effect)
    → dequeue q ≡ done r fx
    → Ensures (λ o fx. o ≡ some p) (dequeued n r.0)
    → Ensures (λ o fx. o ≡ some p) (dequeued (suc n) q)
later q n p r fx e h =
    subst
      (λ (m : Outcome Effect (FairPullQueue × Option Packet)).
        Ensures (λ o fx. o ≡ some p) (m >>= λ r. dequeued n r.0))
      (sym e) (Ensures-after (λ o fx. o ≡ some p) fx (dequeued n r.0) h)

-- The order of the turns after another flow was served.
moved :
    (es xs2 ys : List Flow) (k : ℕ) (xs : List Packet) (f : Flow)
    → (xs2 ++ f ∷ ys) ++ (es ++ (k, xs) ∷ []) ≡ xs2 ++ f ∷ (ys ++ (es ++ (k, xs) ∷ []))
moved es xs2 ys k xs f = append_assoc xs2 (f ∷ ys) (es ++ (k, xs) ∷ [])

-- Another flow is served first, and what is then known of the flows that are left before this one.
waits_more :
    (es xs2 ys : List Flow) (k : ℕ) (p' : Packet) (ps' : List Packet) (q : FairPullQueue) (flow : ℕ)
    (p : Packet) (ps : List Packet)
    → q.pull_count ≡ total (turns q)
    → turns q ≡ es ++ (k, p' ∷ ps') ∷ (xs2 ++ (flow, p ∷ ps) ∷ ys)
    → Idle es
    → ((q' : FairPullQueue) (zs : List Flow)
        → q'.pull_count ≡ total (turns q')
        → turns q' ≡ xs2 ++ (flow, p ∷ ps) ∷ zs
        → (n : ℕ) × (n ≤ length xs2) × Ensures (λ o fx. o ≡ some p) (dequeued n q'))
    → (n : ℕ) × (n ≤ suc (length xs2)) × Ensures (λ o fx. o ≡ some p) (dequeued n q)
waits_more es xs2 ys k p' ps' q flow p ps c e i ih =
    let (r, fx, d, s) =
      Ensures-done _ (dequeue q)
        (dequeue-Served q es k p' ps' (xs2 ++ (flow, p ∷ ps) ∷ ys) busy e i) in
    let (n, b, h) =
      ih r.0 (ys ++ (es ++ (k, ps') ∷ []))
        (Served-count q es k p' ps' (xs2 ++ (flow, p ∷ ps) ∷ ys) r c e s.0)
        (s.0.order ∙ moved es xs2 ys k ps' (flow, p ∷ ps)) in
    (suc n, omega (arith, b), later q n p r fx d h)
  where
    busy : 0 < q.pull_count
    busy =
        omega (arith, c, ap total e, total-append es ((k, p' ∷ ps') ∷ (xs2 ++ (flow, p ∷ ps) ∷ ys)))

-- The flows before this one, cut at the first that has a packet.
waits_cut :
    (xs ys : List Flow) (q : FairPullQueue) (flow : ℕ) (p : Packet) (ps : List Packet)
    (es : List Flow) (k : ℕ) (p' : Packet) (ps' : List Packet) (xs2 : List Flow)
    → (length xs2 < length xs
        → (q' : FairPullQueue) (zs : List Flow) → q'.pull_count ≡ total (turns q')
        → turns q' ≡ xs2 ++ (flow, p ∷ ps) ∷ zs
        → (n : ℕ) × (n ≤ length xs2) × Ensures (λ o fx. o ≡ some p) (dequeued n q'))
    → q.pull_count ≡ total (turns q)
    → turns q ≡ xs ++ (flow, p ∷ ps) ∷ ys
    → xs ≡ es ++ (k, p' ∷ ps') ∷ xs2
    → Idle es
    → (n : ℕ) × (n ≤ length xs) × Ensures (λ o fx. o ≡ some p) (dequeued n q)
waits_cut xs ys q flow p ps es k p' ps' xs2 ih c e x i =
    let (n, b, h) =
      waits_more es xs2 ys k p' ps' q flow p ps c
        (e ∙ ap (λ zs. zs ++ (flow, p ∷ ps) ∷ ys) x ∙ append_assoc es ((k, p' ∷ ps') ∷ xs2) _) i
        (ih shorter) in
    (n, omega (arith, b, shorter), h)
  where
    shorter : length xs2 < length xs
    shorter = omega (arith, ap length x, length-append es ((k, p' ∷ ps') ∷ xs2))

waits :
    (bound : ℕ) (xs ys : List Flow) (q : FairPullQueue) (flow : ℕ) (p : Packet) (ps : List Packet)
    → length xs < bound
    → q.pull_count ≡ total (turns q)
    → turns q ≡ xs ++ (flow, p ∷ ps) ∷ ys
    → (n : ℕ) × (n ≤ length xs) × Ensures (λ o fx. o ≡ some p) (dequeued n q)
waits zero xs ys q flow p ps l c e = absurd (omega (arith, l))
waits (suc bound) xs ys q flow p ps l c e = elim (Bool-cases (total xs == 0)) [
  | inl z ↦ (0, omega arith, serves_now xs ys q flow p ps c e (Idle-empty xs (ground (arith, z))))
  | inr z ↦
      (let b = first_busy xs (ground (arith, z)) in
        waits_cut xs ys q flow p ps b.0 b.1 b.2 b.3 b.4
          (λ s q' zs c' e'. waits bound b.4 zs q' flow p ps (omega (arith, l, s)) c' e') c e b.5
          b.6)
]

-- Let a fair pull queue count its packets, and let a flow whose oldest packet is `p` come in the
-- turns behind the flows `xs`. Then some call of `dequeue` returns `p` after at most as many others
-- as `xs` has flows, and none of these calls aborts.
pub waits_turns :
    (xs ys : List Flow) (q : FairPullQueue) (flow : ℕ) (p : Packet) (ps : List Packet)
    → q.pull_count ≡ total (turns q)
    → turns q ≡ xs ++ (flow, p ∷ ps) ∷ ys
    → (n : ℕ) × (n ≤ length xs) × Ensures (λ o fx. o ≡ some p) (dequeued n q)
waits_turns xs ys q flow p ps c e = waits (suc (length xs)) xs ys q flow p ps (omega arith) c e
