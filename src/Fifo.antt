-- ===== src/Fifo.antt =====
-- What a queue promises: a first-in first-out list, oldest element first. It is what the circular
-- buffer of sim/circular_buffer.h is for, and what the queueing disciplines use.
use frontier_htsim.Prelude.{ℕ, Bool, true, false, List, [], ◌∷◌, ◌++◌, Option, none, some, length}

module _ {ℓ} {A : Type ℓ} where
  -- A new element goes behind all others.
  abbrev pub push : List A → A → List A
  push xs x = xs ++ x ∷ []

  -- The oldest element, and the rest.
  abbrev pub pop : List A → Option (A × List A)
  pop [] = none
  pop (x ∷ xs) = some (x, xs)

  -- The newest element, and the rest.
  abbrev pub pop_front : List A → Option (A × List A)
  pop_front [] = none
  pop_front (x ∷ xs) = elim (pop_front xs) [ none ↦ some (x, []) | some (y, ys) ↦ some (y, x ∷ ys) ]

  abbrev pub next_to_pop : List A → Option A
  next_to_pop [] = none
  next_to_pop (x ∷ xs) = some x

  abbrev pub empty : List A → Bool
  empty [] = true
  empty (x ∷ xs) = false

  abbrev pub size : List A → ℕ
  size xs = length xs
