-- ===== src/Queues/FifoPull/Runs.antt =====
-- Sequences of calls of a `FifoPullQueue`: the count is the length of the list, so no assertion fails.
use frontier_htsim.Prelude.{
  ℕ, suc, ◌+◌, ◌-◌, ◌≡◌, refl, sym, subst, ap, ◌∙◌, List, [], ◌∷◌, Option, some, length, arith,
  ◌==◌, if◌then◌else◌, if_true, if_false, if_elim, Outcome, return, Ensures, Ensures-bind,
  Ensures-after, Ensures-assert, ◌>>=◌,
}
use frontier_htsim.Fifo
use frontier_htsim.Network.{Packet}
use frontier_htsim.Queues.Effects.{Effect}
use frontier_htsim.Queues.FifoPull.{
  FifoPullQueue, init, set_preferred_flow, prefers, insert_preferred, enqueue, take_back, dequeue,
  flush, flush_flow,
}

abbrev pub Counted : FifoPullQueue → Type 0
Counted q = q.pull_count ≡ length q.pull_queue

length-insert_preferred :
    (flow : Option ℕ) (p : Packet) (xs : List Packet)
    → length (insert_preferred flow p xs) ≡ suc (length xs)
unfolding insert_preferred
length-insert_preferred flow p [] = refl
length-insert_preferred flow p (x ∷ xs) =
    if_elim (λ (l : List Packet). length l ≡ suc (suc (length xs))) (prefers flow x)
      (ap suc (length-insert_preferred flow p xs)) refl

enqueue-Counted :
    (q : FifoPullQueue) (p : Packet) → Counted q → Ensures (λ q' fx. Counted q') (enqueue q p)
unfolding enqueue
enqueue-Counted q p c =
    Ensures-assert (λ q' fx. Counted q') (q.pull_count + 1 == length queue) _
      (ground (arith, c, longer)) (omega (arith, c, longer))
  where
    queue : List Packet
    queue =
        if prefers q.preferred_flow p
        then insert_preferred q.preferred_flow p q.pull_queue
        else p ∷ q.pull_queue

    longer : length queue ≡ suc (length q.pull_queue)
    longer =
        if_elim (λ (l : List Packet). length l ≡ suc (length q.pull_queue))
          (prefers q.preferred_flow p) (length-insert_preferred q.preferred_flow p q.pull_queue)
          refl

-- The back of a list that is not empty.
pop_front-some :
    (x : Packet) (xs : List Packet)
    → (y : Packet) × (ys : List Packet) × (Fifo.pop_front (x ∷ xs) ≡ some (y, ys))
      × (length ys ≡ length xs)
pop_front-some x [] = (x, [], refl, refl)
pop_front-some x (z ∷ xs) = let (y, ys, e, l) = pop_front-some z xs in (y, x ∷ ys, cc, ap suc l)

dequeue_list :
    (q : FifoPullQueue) (xs : List Packet)
    → q.pull_queue ≡ xs
    → Counted q
    → Ensures (λ r fx. Counted r.0) (dequeue q)
unfolding dequeue take_back
dequeue_list q [] e c =
    if_true (Ensures (λ r fx. Counted r.0)) (q.pull_count == 0) _ _ (ground (arith, c, ap length e))
      c
dequeue_list q (x ∷ xs) e c =
    let (y, ys, f, l) = pop_front-some x xs in
    if_false (Ensures (λ r fx. Counted r.0)) (q.pull_count == 0) _ _
      (ground (arith, c, ap length e))
      (subst (λ o. Ensures (λ r fx. Counted r.0) (take_back q o)) (sym (ap Fifo.pop_front e ∙ f))
        (Ensures-assert (λ r fx. Counted r.0) (q.pull_count - 1 == length ys) _
          (ground (arith, c, ap length e, l)) (omega (arith, c, ap length e, l))))

length-flush :
    (flow : ℕ) (xs : List Packet) → length (flush flow xs).0 + length (flush flow xs).1 ≡ length xs
unfolding flush
length-flush flow [] = refl
length-flush flow (x ∷ xs) = ground (arith, length-flush flow xs)

flush_flow-Counted :
    (q : FifoPullQueue) (flow : ℕ) → Counted q → Ensures (λ q' fx. Counted q') (flush_flow q flow)
unfolding flush_flow
flush_flow-Counted q flow c =
    Ensures-after (λ q' fx. Counted q') (flush flow q.pull_queue).1 _
      (Ensures-assert (λ q' fx. Counted q')
        (q.pull_count - length (flush flow q.pull_queue).1 == length (flush flow q.pull_queue).0) _
        (ground (arith, c, length-flush flow q.pull_queue))
        (omega (arith, c, length-flush flow q.pull_queue)))

pub data Call : Type 0 where
  enqueues : Packet → Call
  dequeues : Call
  flushes : ℕ → Call
  prefers_flow : ℕ → Call

-- The packets that `dequeue` returned are left out.
abbrev pub call : Call → FifoPullQueue → Outcome Effect FifoPullQueue
call (enqueues p) q = enqueue q p
call dequeues q = dequeue q >>= λ r. return r.0
call (flushes flow) q = flush_flow q flow
call (prefers_flow flow) q = return (set_preferred_flow q flow)

abbrev pub run : List Call → FifoPullQueue → Outcome Effect FifoPullQueue
run [] q = return q
run (c ∷ cs) q = call c q >>= λ q'. run cs q'

call-Counted : (c : Call) (q : FifoPullQueue) → Counted q → Ensures (λ q' fx. Counted q') (call c q)
unfolding set_preferred_flow
call-Counted (enqueues p) q h = enqueue-Counted q p h
call-Counted dequeues q h =
    Ensures-bind (λ r fx. Counted r.0) _ (dequeue q) _ (dequeue_list q q.pull_queue refl h)
      (λ r fx k. k)
call-Counted (flushes flow) q h = flush_flow-Counted q flow h
call-Counted (prefers_flow flow) q h = h

run-Counted :
    (cs : List Call) (q : FifoPullQueue) → Counted q → Ensures (λ q' fx. Counted q') (run cs q)
run-Counted [] q h = h
run-Counted (c ∷ cs) q h =
    Ensures-bind (λ q' fx. Counted q') _ (call c q) (run cs) (call-Counted c q h)
      (λ q' fx k. run-Counted cs q' k)

-- From an empty pull queue for all flows no sequence of `enqueue`, `dequeue`, `flush_flow` and
-- `set_preferred_flow` fails an assertion, and after it the count is the number of packets that the
-- queue holds.
pub run-init_count : (cs : List Call) → Ensures (λ q' fx. Counted q') (run cs init)
unfolding init
run-init_count cs = run-Counted cs init refl
