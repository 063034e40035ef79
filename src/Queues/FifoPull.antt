-- ===== src/Queues/FifoPull.antt =====
-- `FifoPullQueue` of sim/fairpullqueue.h and sim/fairpullqueue.cpp: one list for all flows, served from
-- its back, with the packets of a preferred flow at its front.
pub mod Runs
use frontier_htsim.Prelude.{
  ℕ, ◌+◌, ◌-◌, Bool, false, ◌&&◌, List, [], ◌∷◌, Option, none, some, length, ◌==◌, if◌then◌else◌,
  Outcome, done, aborted, return, assert, ◌>>◌,
}
use frontier_htsim.Fifo
use frontier_htsim.Network.{Packet, ordinal, ndppull}
use frontier_htsim.Queues.Effects.{Effect, frees}

-- `_preferred_flow` is below 0 where it is `none`.
pub record FifoPullQueue : Type 0 where
  pub pull_count : ℕ
  pub preferred_flow : Option ℕ
  pub pull_queue : List Packet

unfoldable pub init : FifoPullQueue
init = record { pull_count = 0; preferred_flow = none; pull_queue = [] }

unfoldable pub set_preferred_flow : FifoPullQueue → ℕ → FifoPullQueue
set_preferred_flow q flow = record q { preferred_flow = some flow }

unfoldable pub prefers : Option ℕ → Packet → Bool
prefers none p = false
prefers (some flow) p = p.flow_id == flow

-- The insertion behind the packets of the preferred flow that are at the front.
unfoldable pub insert_preferred : Option ℕ → Packet → List Packet → List Packet
insert_preferred flow p [] = p ∷ []
insert_preferred flow p (x ∷ xs) =
    let rest = x ∷ insert_preferred flow p xs in if prefers flow x then rest else p ∷ x ∷ xs

unfoldable pub enqueue : FifoPullQueue → Packet → Outcome Effect FifoPullQueue
unfolding prefers insert_preferred
enqueue q p =
    let queue =
      if prefers q.preferred_flow p
      then insert_preferred q.preferred_flow p q.pull_queue
      else p ∷ q.pull_queue in
    assert (q.pull_count + 1 == length queue)
    >> return (record q { pull_queue = queue; pull_count = q.pull_count + 1 })

-- `back` and `pop_back`; the back of an empty list is undefined.
unfoldable pub take_back :
    FifoPullQueue → Option (Packet × List Packet) → Outcome Effect (FifoPullQueue × Option Packet)
take_back q none = aborted
take_back q (some (p, ps)) =
    assert (q.pull_count - 1 == length ps)
    >> return (record q { pull_queue = ps; pull_count = q.pull_count - 1 }, some p)

unfoldable pub dequeue : FifoPullQueue → Outcome Effect (FifoPullQueue × Option Packet)
unfolding take_back
dequeue q =
    if q.pull_count == 0 then return (q, none) else take_back q (Fifo.pop_front q.pull_queue)

unfoldable pub flushed : ℕ → Packet → Bool
flushed flow p = (p.flow_id == flow) && (ordinal p.type == ordinal ndppull)

unfoldable pub flush : ℕ → List Packet → List Packet × List Effect
unfolding flushed
flush flow [] = ([], [])
flush flow (x ∷ xs) =
    let (kept, es) = flush flow xs in
    if flushed flow x then (kept, frees x ∷ es) else (x ∷ kept, es)

unfoldable pub flush_flow : FifoPullQueue → ℕ → Outcome Effect FifoPullQueue
unfolding flush
flush_flow q flow =
    let (kept, es) = flush flow q.pull_queue in
    let count = q.pull_count - length es in
    done tt es
    >> (assert (count == length kept)
        >> return (record q { pull_queue = kept; pull_count = count }))
