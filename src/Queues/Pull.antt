-- ===== src/Queues/Pull.antt =====
-- `FairPullQueue` of sim/fairpullqueue.h and sim/fairpullqueue.cpp: one first-in first-out queue for each
-- flow, served in turns. The map from flows to queues is a list in order of the flows, cut in two by the
-- iterator `_current_queue`: `ahead` begins with the element that it is at.
pub mod Rounds
pub mod Waits
pub mod Lookup
use frontier_htsim.Prelude.{
  ℕ, zero, suc, ◌+◌, ◌-◌, Bool, true, false, ◌||◌, List, [], ◌∷◌, ◌++◌, map, Option, none, some,
  length, ltb, ◌==◌, if◌then◌else◌, Outcome, done, aborted, return,
}
use frontier_htsim.Fifo
use frontier_htsim.Network.{Packet}
use frontier_htsim.Queues.Effects.{Effect, frees}

-- An element of the map, and the state.
abbrev pub Flow : Type 0
Flow = ℕ × List Packet

pub record FairPullQueue : Type 0 where
  pub pull_count : ℕ
  pub preferred_flow : Option ℕ
  pub before : List Flow
  pub ahead : List Flow

unfoldable pub init : FairPullQueue
init = record { pull_count = 0; preferred_flow = none; before = []; ahead = [] }

unfoldable pub set_preferred_flow : FairPullQueue → ℕ → FairPullQueue
set_preferred_flow q flow = record q { preferred_flow = some flow }

-- `_queue_map.find(flow)`
abbrev pub find : ℕ → List Flow → Option (List Packet)
find flow [] = none
find flow (f ∷ fs) = let rest = find flow fs in if f.0 == flow then some f.1 else rest

unfoldable pub find_queue : FairPullQueue → ℕ → Option (List Packet)
find_queue q flow = find flow (q.before ++ q.ahead)

unfoldable pub queue_exists : FairPullQueue → ℕ → Bool
unfolding find_queue
queue_exists q flow = elim (find_queue q flow) [ none ↦ false | some xs ↦ true ]

-- `_queue_map.insert(…)`, and the place of a new flow with respect to the iterator.
unfoldable pub insert : Flow → List Flow → List Flow
insert new [] = new ∷ []
insert new (f ∷ fs) = let rest = f ∷ insert new fs in if ltb new.0 f.0 then new ∷ f ∷ fs else rest

unfoldable pub behind_current : ℕ → List Flow → Bool
behind_current flow [] = false
behind_current flow (f ∷ fs) = ltb f.0 flow

unfoldable pub create_queue : FairPullQueue → ℕ → FairPullQueue
unfolding insert behind_current
create_queue q flow =
    if behind_current flow q.ahead
    then record q { ahead = insert (flow, []) q.ahead }
    else record q { before = insert (flow, []) q.before }

-- `pull_queue->push(pkt_p)`
unfoldable pub push_to : Packet → Flow → Flow
push_to p f = if f.0 == p.flow_id then (f.0, Fifo.push f.1 p) else f

unfoldable pub enqueue : FairPullQueue → Packet → FairPullQueue
unfolding queue_exists create_queue push_to
enqueue q p =
    let q' = if queue_exists q p.flow_id then q else create_queue q p.flow_id in
    record q' {
      before = map (push_to p) q'.before;
      ahead = map (push_to p) q'.ahead;
      pull_count = q'.pull_count + 1;
    }

-- The element that the iterator is at, or the first one at the end of the map, and the map around it.
unfoldable pub current : List Flow → List Flow → Option (Flow × List Flow × List Flow)
current before (f ∷ ahead) = some (f, before, ahead)
current (f ∷ before) [] = some (f, [], before)
current [] [] = none

-- The loop of `dequeue`; to read the first element of an empty map, or to use up the fuel, aborts.
unfoldable pub turn : ℕ → FairPullQueue → Outcome Effect (FairPullQueue × Option Packet)
unfolding current
turn zero q = aborted
turn (suc fuel) q = elim (current q.before q.ahead) [
  | none ↦ aborted
  | some ((flow, []), before, ahead) ↦
      turn fuel (record q { before = before ++ (flow, []) ∷ []; ahead = ahead })
  | some ((flow, p ∷ ps), before, ahead) ↦ return (
    record q { before = before ++ (flow, ps) ∷ []; ahead = ahead; pull_count = q.pull_count - 1 },
    some p,
  )
]

-- `dequeue`, with a turn for each flow.
unfoldable pub dequeue : FairPullQueue → Outcome Effect (FairPullQueue × Option Packet)
unfolding turn
dequeue q = if q.pull_count == 0 then return (q, none) else turn (length (q.ahead ++ q.before)) q

-- `_queue_map.erase(i)`; an iterator at the element goes on to the next one.
abbrev pub erase : ℕ → List Flow → List Flow
erase flow [] = []
erase flow (f ∷ fs) = let rest = erase flow fs in if f.0 == flow then rest else f ∷ rest

unfoldable pub flush_flow : FairPullQueue → ℕ → Outcome Effect FairPullQueue
unfolding find_queue
flush_flow q flow = elim (find_queue q flow) [
  | none ↦ return q
  | some ps ↦
      done
        (record q {
          before = erase flow q.before;
          ahead = erase flow q.ahead;
          pull_count = q.pull_count - length ps;
        })
        (map frees ps)
]
