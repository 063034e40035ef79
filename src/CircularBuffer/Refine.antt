-- ===== src/CircularBuffer/Refine.antt =====
-- The circular buffer against the list of `Fifo`, over sequences of calls.
use frontier_htsim.Prelude.{
  ℕ, ◌<◌, ◌≡◌, ◌⊎◌, refl, sym, ap, ◌∙◌, Bool, List, [], ◌∷◌, Option, none, some, inl, inr,
  Option-cases,
}
use native.Mathlib.Nat.{mod-eq_of_lt}
use frontier_htsim.Fifo
use frontier_htsim.CircularBuffer.{CircularBuffer, init, push, pop, pop_front, next_to_pop, empty}
use frontier_htsim.CircularBuffer.Window.{IsValid, contents}
use frontier_htsim.CircularBuffer.Grow.{length-resize}
use frontier_htsim.CircularBuffer.Push.{push_lem}
use frontier_htsim.CircularBuffer.Pop.{
  observe, observe-pop, pop-IsValid, observe-pop_front, pop_front-IsValid, next_to_pop-contents,
  empty-contents,
}

-- The calls that a client makes, and what it sees of each.
pub data Op {ℓ} (A : Type ℓ) : Type ℓ where
  pushes : A → Op A
  pops pops_front peeks tests : Op A

pub data Reply {ℓ} (A : Type ℓ) : Type ℓ where
  pushed : Reply A
  item : A → Reply A
  truth : Bool → Reply A

-- A reply and the next state; `none` is a failed assertion.
abbrev taken {ℓ} : {A S : Type ℓ} → Option (A × S) → Option (Reply A × S)
taken none = none
taken (some (x, s)) = some (item x, s)

abbrev seen {ℓ} : {A S : Type ℓ} → Option A → S → Option (Reply A × S)
seen none s = none
seen (some x) s = some (item x, s)

module _ {ℓ} {A : Type ℓ} where
  unfoldable pub step_fifo : List A → Op A → Option (Reply A × List A)
  step_fifo xs (pushes x) = some (pushed, Fifo.push xs x)
  step_fifo xs pops = taken (Fifo.pop xs)
  step_fifo xs pops_front = taken (Fifo.pop_front xs)
  step_fifo xs peeks = seen (Fifo.next_to_pop xs) xs
  step_fifo xs tests = some (truth (Fifo.empty xs), xs)

module _ {ℓ} {A : Type ℓ} (blank : A) where
  unfoldable pub step_buffer : CircularBuffer A → Op A → Option (Reply A × CircularBuffer A)
  step_buffer b (pushes x) = some (pushed, push blank b x)
  step_buffer b pops = taken (pop b)
  step_buffer b pops_front = taken (pop_front b)
  step_buffer b peeks = seen (next_to_pop b) b
  step_buffer b tests = some (truth (empty b), b)

-- The replies to a sequence of calls, up to a failed assertion, which ends the program: `none`.
unfoldable pub run {ℓ} :
    {A S : Type ℓ} → (S → Op A → Option (Reply A × S)) → S → List (Op A) → Option (List (Reply A))
run step s [] = some []
run step s (o ∷ os) = elim (step s o) [
  | none ↦ none
  | some (r, s') ↦ elim (run step s' os) [ none ↦ none | some rs ↦ some (r ∷ rs) ]
]

-- From one state to the next the buffer and the list of its contents give the same reply.
module _ {ℓ} {A : Type ℓ} (blank : A) where
  abbrev InStep : Option (Reply A × CircularBuffer A) → Option (Reply A × List A) → Type ℓ
  InStep r s =
      ((r ≡ none) × (s ≡ none))
      ⊎ ((a : Reply A) × (b : CircularBuffer A) × (r ≡ some (a, b))
          × IsValid b
          × (s ≡ some (a, contents blank b)))

  taken-InStep :
      (r : Option (A × CircularBuffer A)) {s : Option (A × List A)}
      → observe blank r ≡ s
      → ((x : A) (b : CircularBuffer A) → r ≡ some (x, b) → IsValid b)
      → InStep (taken r) (taken s)
  taken-InStep none e v = inl (refl, ap taken (sym e))
  taken-InStep (some (x, b)) e v = inr (item x, b, refl, v x b refl, ap taken (sym e))

  step-InStep :
      (b : CircularBuffer A) (o : Op A)
      → IsValid b
      → InStep (step_buffer blank b o) (step_fifo (contents blank b) o)
  unfolding step_buffer step_fifo
  step-InStep b (pushes x) v =
      let (v', e) = push_lem blank b x v in
      inr (pushed, push blank b x, refl, v', ap (λ xs. some (pushed, xs)) (sym e))
  step-InStep b pops v =
      taken-InStep (pop b) (observe-pop blank b v) (λ x b' h. pop-IsValid blank b v h)
  step-InStep b pops_front v =
      taken-InStep (pop_front b) (observe-pop_front blank b v)
        (λ x b' h. pop_front-IsValid blank b v h)
  step-InStep b peeks v = elim (Option-cases (next_to_pop b)) [
    | inl e ↦ inl (rw e, rw (← next_to_pop-contents blank b v) (rw e))
    | inr (x, e) ↦ inr (item x, b, rw e, v, rw (← next_to_pop-contents blank b v) (rw e))
  ]
  step-InStep b tests v = inr (
    truth (empty b),
    b,
    refl,
    v,
    ap (λ t. some (truth t, contents blank b)) (sym (empty-contents blank b v)),
  )

  run-step :
      (b : CircularBuffer A) (os : List (Op A))
      → IsValid b
      → run (step_buffer blank) b os ≡ run step_fifo (contents blank b) os
  unfolding run
  run-step b [] v = refl
  run-step b (o ∷ os) v = elim (step-InStep b o v) [
    | inl (e, f) ↦ rw (e, run) (rw (f, run))
    | inr (a, b', e, v', f) ↦ rw (e, run) (rw (f, run) (rw (run-step b' os v')))
  ]

  init-IsValid : (n : ℕ) → 0 < n → IsValid (init blank n) × (contents blank (init blank n) ≡ [])
  unfolding init
  init-IsValid n h = (
    record {
      sized = length-resize blank n [];
      room = h;
      pop_in = h;
      push_at = sym (mod-eq_of_lt h);
    },
    refl,
  )

  -- A client of a fresh circular buffer of any starting size but 0 gets, to every sequence of
  -- `push`, `pop`, `pop_front`, `next_to_pop` and `empty`, the replies that an unbounded first-in
  -- first-out list gives, failed assertions included.
  pub run-init :
      (starting_size : ℕ) (os : List (Op A))
      → 0 < starting_size
      → run (step_buffer blank) (init blank starting_size) os ≡ run step_fifo [] os
  run-init starting_size os h =
      let (v, e) = init-IsValid starting_size h in
      run-step (init blank starting_size) os v ∙ ap (λ xs. run step_fifo xs os) e
