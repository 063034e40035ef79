-- ===== src/Queues/Pull/Lookup.antt =====
-- What the flows of a `FairPullQueue` hold after `enqueue`.
use frontier_htsim.Prelude.{
  ℕ, ◌≡◌, refl, sym, ap, ◌∙◌, true, false, List, [], ◌∷◌, ◌++◌, map, Option, none, some, arith,
  ◌==◌, if◌then◌else◌, if_cases,
}
use frontier_htsim.Fifo
use frontier_htsim.Network.{Packet}
use frontier_htsim.Queues.Pull.{
  Flow, FairPullQueue, find, find_queue, queue_exists, insert, behind_current, create_queue,
  push_to, enqueue,
}

-- The queue of a flow, empty where the map has none.
abbrev pub queue_or_empty : Option (List Packet) → List Packet
queue_or_empty none = []
queue_or_empty (some ps) = ps

find-append :
    (k : ℕ) (xs ys : List Flow)
    → find k (xs ++ ys)
      ≡ elim (find k xs) as (λ o. Option (List Packet)) [ none ↦ find k ys | some ps ↦ some ps ]
find-append k [] ys = refl
find-append k (x ∷ xs) ys = ground (arith, find-append k xs ys)

find-insert :
    (k : ℕ) (new : Flow) (fs : List Flow)
    → find new.0 fs ≡ none
    → find k (insert new fs) ≡ (if k == new.0 then some new.1 else find k fs)
unfolding insert
find-insert k new [] e = ground arith
find-insert k new (f ∷ fs) e = ground (arith, e, find-insert k new fs)

-- The packet goes behind the others of its flow.
find-push_to :
    (k : ℕ) (p : Packet) (fs : List Flow)
    → find k (map (push_to p) fs) ≡ elim (find k fs) as (λ o. Option (List Packet)) [
      | none ↦ none
      | some ps ↦ some (if k == p.flow_id then Fifo.push ps p else ps)
    ]
unfolding push_to
find-push_to k p [] = refl
find-push_to k p (f ∷ fs) = ground (arith, find-push_to k p fs)

map-append : (f : Flow → Flow) (xs ys : List Flow) → map f (xs ++ ys) ≡ map f xs ++ map f ys
map-append f [] ys = refl
map-append f (x ∷ xs) ys = ap (◌∷◌ (f x)) (map-append f xs ys)

missing :
    (flow : ℕ) (xs ys : List Flow)
    → find flow (xs ++ ys) ≡ none
    → (find flow xs ≡ none) × (find flow ys ≡ none)
missing flow xs ys e = ground (arith, e, find-append flow xs ys)

find_queue-create_queue :
    (k flow : ℕ) (q : FairPullQueue)
    → find_queue q flow ≡ none
    → find_queue (create_queue q flow) k ≡ (if k == flow then some [] else find_queue q k)
unfolding find_queue create_queue
find_queue-create_queue k flow q e =
    if_cases
      (λ (q' : FairPullQueue).
        find k (q'.before ++ q'.ahead)
        ≡ (if k == flow then some [] else find k (q.before ++ q.ahead)))
      (behind_current flow q.ahead)
      (λ c. ground (
        arith,
        e,
        m,
        find-append k q.before (insert (flow, []) q.ahead),
        find-append k q.before q.ahead,
        find-insert k (flow, []) q.ahead m.1,
      ))
      (λ c. ground (
        arith,
        e,
        m,
        find-append k (insert (flow, []) q.before) q.ahead,
        find-append k q.before q.ahead,
        find-insert k (flow, []) q.before m.0,
      ))
  where
    m : (find flow q.before ≡ none) × (find flow q.ahead ≡ none)
    m = missing flow q.before q.ahead e

none_there : (q : FairPullQueue) (flow : ℕ) → queue_exists q flow ≡ false → find_queue q flow ≡ none
unfolding queue_exists
none_there q flow e = ground (arith, e)

absent :
    (k flow : ℕ) (q : FairPullQueue)
    → find_queue q flow ≡ none
    → (if k == flow then some [] else find_queue q k)
      ≡ (if k == flow then some (queue_or_empty (find_queue q k)) else find_queue q k)
absent k flow q e = ground (arith, e)

there :
    (k flow : ℕ) (q : FairPullQueue)
    → queue_exists q flow ≡ true
    → find_queue q k
      ≡ (if k == flow then some (queue_or_empty (find_queue q k)) else find_queue q k)
unfolding queue_exists
there k flow q e = ground (arith, e)

-- The packet's flow in the map, as `enqueue` finds it or makes it.
find_queue_before :
    (k : ℕ) (p : Packet) (q : FairPullQueue)
    → find_queue (if queue_exists q p.flow_id then q else create_queue q p.flow_id) k
      ≡ (if k == p.flow_id then some (queue_or_empty (find_queue q k)) else find_queue q k)
find_queue_before k p q =
    if_cases
      (λ (q' : FairPullQueue).
        find_queue q' k
        ≡ (if k == p.flow_id then some (queue_or_empty (find_queue q k)) else find_queue q k))
      (queue_exists q p.flow_id) (λ e. there k p.flow_id q e)
      (λ e.
        find_queue-create_queue k p.flow_id q (none_there q p.flow_id e)
        ∙ absent k p.flow_id q (none_there q p.flow_id e))

-- After a packet is put into a fair pull queue, its flow has a queue, with the packet behind those
-- that the flow had, or alone if it had no queue; every other flow has what it had.
find_queue-enqueue :
    (k : ℕ) (q : FairPullQueue) (p : Packet)
    → find_queue (enqueue q p) k ≡ (
        if k == p.flow_id
        then some (Fifo.push (queue_or_empty (find_queue q k)) p)
        else find_queue q k)
unfolding enqueue find_queue
find_queue-enqueue k q p =
    ap (find k) (sym (map-append (push_to p) q'.before q'.ahead))
    ∙ find-push_to k p (q'.before ++ q'.ahead)
    ∙ ground (arith, find_queue_before k p q)
  where
    q' : FairPullQueue
    q' = if queue_exists q p.flow_id then q else create_queue q p.flow_id
