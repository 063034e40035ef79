-- ===== src/Trigger/Laws.antt =====
-- How often a trigger fires, and for whom.
use frontier_htsim.Prelude.{
  ℕ, zero, suc, ◌+◌, ◌≤◌, ◌<◌, ◌≡◌, refl, sym, ap, ap₂, ◌∙◌, true, false, List, [], ◌∷◌, arith,
  some, length, get_elem?, drop, get_elem?-drop, drop_all, append-nil, Outcome, done, aborted,
  ◌>>=◌, return, after,
}
use frontier_htsim.Trigger.{
  fire, BarrierTrigger, activate_barrier, SingleShotTrigger, activate_single, MultiShotTrigger,
  activate_multi,
}

fire_lem : (ts : List ℕ) → fire ts ≡ done tt ts
unfolding fire
fire_lem [] = refl
fire_lem (t ∷ ts) = rw (fire_lem ts)

-- `n` activations in turn.
pub activate_times {ℓ} : {T : Type ℓ} → (T → Outcome ℕ T) → ℕ → T → Outcome ℕ T
activate_times activate zero t = return t
activate_times activate (suc n) t = do t' ← activate t; activate_times activate n t'

barrier_waits :
    (t : BarrierTrigger) (n : ℕ)
    → 0 < length t.targets
    → t.activations_remaining ≡ suc (suc n)
    → activate_barrier t ≡ done (record t { activations_remaining = suc n }) []
unfolding activate_barrier
barrier_waits t n h e = ground arith

barrier_fires :
    (t : BarrierTrigger)
    → 0 < length t.targets
    → t.activations_remaining ≡ 1
    → activate_barrier t ≡ done (record t { activations_remaining = 0 }) t.targets
unfolding activate_barrier
barrier_fires t h e = ground (arith, fire_lem t.targets, append-nil t.targets)

-- A barrier that has targets and needs `n + 1` more activations stays silent over `n` of them, and
-- hands over all its targets at the last one.
pub activate_barrier_times :
    (t : BarrierTrigger) (n : ℕ)
    → 0 < length t.targets
    → t.activations_remaining ≡ suc n
    → (activate_times activate_barrier n t ≡ done (record t { activations_remaining = 1 }) [])
      × (activate_times activate_barrier (suc n) t
          ≡ done (record t { activations_remaining = 0 }) t.targets)
unfolding activate_times
activate_barrier_times t zero h e = ground (arith, barrier_fires t h e, append-nil t.targets)
activate_barrier_times t (suc n) h e =
    let (waits, fires) =
      activate_barrier_times (record t { activations_remaining = suc n }) n h refl in
    (
      rw (barrier_waits t n h e) (ap (after []) waits),
      rw (barrier_waits t n h e) (ap (after []) fires),
    )

-- A barrier that has fired takes no more activations.
pub activate_barrier_over :
    (t : BarrierTrigger) → t.activations_remaining ≡ 0 → activate_barrier t ≡ aborted
unfolding activate_barrier
activate_barrier_over t e = ground arith

-- A single-shot trigger that has targets and has not fired hands over all of them the first time,
-- and fails its assertion the second time.
activate_single_twice :
    (t : SingleShotTrigger)
    → 0 < length t.targets
    → t.is_done ≡ false
    → (activate_single t ≡ done (record t { is_done = true }) t.targets)
      × (activate_times activate_single 2 t ≡ aborted)
unfolding activate_times activate_single
activate_single_twice t h e = ground (arith, fire_lem t.targets, append-nil t.targets)

multi_next :
    (t : MultiShotTrigger) (target : ℕ)
    → t.next < length t.targets
    → get_elem? t.targets t.next ≡ some target
    → activate_multi t ≡ done (record t { next = t.next + 1 }) (target ∷ [])
unfolding activate_multi
multi_next t target h e = ground arith

multi_idle :
    (n : ℕ) (t : MultiShotTrigger)
    → length t.targets ≤ t.next
    → activate_times activate_multi n t ≡ done t []
unfolding activate_times activate_multi
multi_idle zero t h = refl
multi_idle (suc n) t h = ground (arith, multi_idle n t h)

multi_step :
    (t : MultiShotTrigger) (target n : ℕ)
    → t.next < length t.targets
    → get_elem? t.targets t.next ≡ some target
    → activate_times activate_multi (suc n) t
      ≡ after (target ∷ []) (activate_times activate_multi n (record t { next = t.next + 1 }))
unfolding activate_times
multi_step t target n h e = rw (multi_next t target h e)

-- A multi-shot trigger that has `n` targets left hands these over, each once and in order, and
-- nothing at the activations after them.
activate_multi_times :
    (n extra : ℕ) (t : MultiShotTrigger)
    → t.next + n ≡ length t.targets
    → activate_times activate_multi (n + extra) t
      ≡ done (record t { next = length t.targets }) (drop t.next t.targets)
activate_multi_times zero extra t h =
    ap (λ k. activate_times activate_multi k t) {y = extra} (omega arith)
    ∙ multi_idle extra t (omega arith)
    ∙ ap₂ (λ k xs. done (record t { next = k }) xs) {y = length t.targets} (omega arith)
        (sym (ap (λ k. drop k t.targets) {y = length t.targets} (omega arith) ∙ drop_all t.targets))
activate_multi_times (suc n) extra t h =
    let (target, e, d) = get_elem?-drop t.targets t.next (omega arith) in
    ap (λ k. activate_times activate_multi k t) {y = suc (n + extra)} (omega arith)
    ∙ multi_step t target (n + extra) (omega arith) e
    ∙ ap (after (target ∷ []))
        (activate_multi_times n extra (record t { next = t.next + 1 }) (omega arith))
    ∙ ap (λ xs. done (record t { next = length t.targets }) xs)
        (ap (λ k. target ∷ drop k t.targets) {y = suc t.next} (omega arith) ∙ sym d)
