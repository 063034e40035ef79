-- ===== src/Trigger.antt =====
-- sim/trigger.h and sim/trigger.cpp: what activates flows when other flows have finished. A target is
-- a number; the effect of a trigger is the targets that it hands to `triggerIsPending`, in order.
pub mod Laws
use frontier_htsim.Prelude.{
  ℕ, zero, suc, ◌+◌, ◌-◌, Bool, true, false, not, List, [], ◌∷◌, ◌++◌, Option, none, some, length,
  get_elem?, ltb, leb, ◌==◌, if◌then◌else◌, Outcome, done, aborted, ◌>>=◌, ◌>>◌, emit, assert,
  return, or_abort,
}

-- `for (i = _targets.begin(); …) _eventlist.triggerIsPending(**i);`
unfoldable pub fire : List ℕ → Outcome ℕ (Unit {0})
fire [] = return tt
fire (t ∷ ts) = do emit t; fire ts

unfoldable pub add_target : List ℕ → ℕ → List ℕ
add_target targets target = targets ++ target ∷ []

pub record SingleShotTrigger : Type 0 where
  pub targets : List ℕ
  pub is_done : Bool

unfoldable pub activate_single : SingleShotTrigger → Outcome ℕ SingleShotTrigger
unfolding fire
activate_single t = do
  assert (not t.is_done)
  assert (ltb 0 (length t.targets))
  fire t.targets
  return (record t { is_done = true })

pub record MultiShotTrigger : Type 0 where
  pub targets : List ℕ
  pub next : ℕ

unfoldable pub activate_multi : MultiShotTrigger → Outcome ℕ MultiShotTrigger
activate_multi t = if leb (length t.targets) t.next then return t else (do
  target ← or_abort (get_elem? t.targets t.next)
  emit target
  return (record t { next = t.next + 1 }))

pub record BarrierTrigger : Type 0 where
  pub targets : List ℕ
  pub activations_remaining : ℕ

unfoldable pub activate_barrier : BarrierTrigger → Outcome ℕ BarrierTrigger
unfolding fire
activate_barrier t = do
  assert (ltb 0 t.activations_remaining)
  assert (ltb 0 (length t.targets))
  let t' = record t { activations_remaining = t.activations_remaining - 1 }
  if ltb 0 t'.activations_remaining then return t' else (do fire t.targets; return t')
