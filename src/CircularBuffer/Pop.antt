-- ===== src/CircularBuffer/Pop.antt =====
-- `CircularBuffer::pop` takes the oldest element and `pop_front` the newest.
use frontier_htsim.Prelude.{
  ℕ, suc, ◌+◌, ◌-◌, ◌%◌, ◌≡◌, ◌⊎◌, inl, inr, refl, sym, ap, ap₂, subst, ◌∙◌, List, [], ◌∷◌, Option,
  none, some, arith, get_or, get_elem?-eq-get_or,
}
use native.Mathlib.Decide.{ℕ_discrete}
use native.Mathlib.Nat.{mod-add-mod, mod-lt, mod-eq_of_lt, mod-eq-sub-mod}
use frontier_htsim.Fifo
use frontier_htsim.CircularBuffer.{CircularBuffer, pop, pop_front, next_to_pop, empty}
use frontier_htsim.CircularBuffer.Slots.{tabulate_ext, tabulate_front, wrap_cases, wrap_step}
use frontier_htsim.CircularBuffer.Window.{IsValid, window, contents}

module _ {ℓ} {A : Type ℓ} (blank : A) where
  pop-some :
      (b : CircularBuffer A) (n : ℕ)
      → IsValid b
      → b.count ≡ suc n
      → (b' : CircularBuffer A) × (pop b ≡ some (get_or b.queue b.next_pop blank, b'))
        × IsValid b'
        × (contents blank b ≡ get_or b.queue b.next_pop blank ∷ contents blank b')
  unfolding pop
  pop-some b n v e = (
    record b { next_pop = (b.next_pop + 1) % b.size; count = b.count - 1 },
    ground (arith, get_elem?-eq-get_or b.queue b.next_pop blank (omega (arith, v.sized, v.pop_in))),
    record {
      sized = v.sized;
      room = omega arith;
      pop_in = mod-lt _ (omega arith);
      push_at =
          v.push_at
          ∙ ap (λ k. k % b.size) (omega arith)
          ∙ sym (mod-add-mod (b.next_pop + 1) b.size (b.count - 1));
    },
    ap (window blank b.queue b.next_pop b.size) counted
        ∙ tabulate_front (b.count - 1) _
        ∙ ap₂ (λ k xs. get_or b.queue k blank ∷ xs)
            (mod-eq_of_lt {n = b.next_pop + 0} (omega arith) ∙ omega arith)
            (tabulate_ext (b.count - 1) _ _ (λ i _.
              ap (λ k. get_or b.queue k blank) (sym (wrap_step b.next_pop i b.size v.pop_in)))),
  )
    where
      counted : b.count ≡ suc (b.count - 1)
      counted = omega arith

  abbrev pub observe : Option (A × CircularBuffer A) → Option (A × List A)
  observe none = none
  observe (some (x, b)) = some (x, contents blank b)

  pop-none : (b : CircularBuffer A) → b.count ≡ 0 → (pop b ≡ none) × (contents blank b ≡ [])
  unfolding pop
  pop-none b e = (ground arith, ap (window blank b.queue b.next_pop b.size) e)

  count_cases : (b : CircularBuffer A) → (b.count ≡ 0) ⊎ ((n : ℕ) × (b.count ≡ suc n))
  count_cases b = elim (ℕ_discrete b.count 0) [
    | yes e ↦ inl e
    | no e ↦ inr (b.count - 1, omega arith)
  ]

  -- `pop` returns the oldest element and leaves the others, and fails when there is none.
  pub observe-pop :
      (b : CircularBuffer A) → IsValid b → observe (pop b) ≡ Fifo.pop (contents blank b)
  observe-pop b v = elim (count_cases b) [
    | inl e ↦ let (p, c) = pop-none b e in rw (p, c)
    | inr (n, e) ↦ let (b', p, v', c) = pop-some b n v e in rw (p, c)
  ]

  pub pop-IsValid :
      (b : CircularBuffer A) {x : A} {b' : CircularBuffer A}
      → IsValid b
      → pop b ≡ some (x, b')
      → IsValid b'
  pop-IsValid b v h = elim (count_cases b) [
    | inl e ↦ cc (pop-none b e).0
    | inr (n, e) ↦ let (b'', p, v', c) = pop-some b n v e in subst IsValid (cc) v'
  ]

  pop_front-push : (xs : List A) (x : A) → Fifo.pop_front (Fifo.push xs x) ≡ some (x, xs)
  pop_front-push [] x = refl
  pop_front-push (y ∷ xs) x = rw (pop_front-push xs x)

  -- Going back from `next_push` is going on from `next_pop` by one place less than `count`.
  last_index :
      (b : CircularBuffer A) (n : ℕ)
      → IsValid b
      → b.count ≡ suc n
      → (b.next_push + b.size - 1) % b.size ≡ (b.next_pop + n) % b.size
  last_index b n v e = elim (wrap_cases b.next_pop (suc n) b.size v.pop_in (omega arith)) [
    | inl (h, w) ↦
        mod-eq-sub-mod {n = b.next_push + b.size - 1} {m = b.size} (omega (arith, after w))
        ∙ ap (λ k. k % b.size) (omega (arith, after w))
    | inr (h, w) ↦ ap (λ k. k % b.size) (omega (arith, after w))
  ]
    where
      after : {k : ℕ} → (b.next_pop + suc n) % b.size ≡ k → b.next_push ≡ k
      after w = v.push_at ∙ ap (λ c. (b.next_pop + c) % b.size) e ∙ w

  pop_front-some :
      (b : CircularBuffer A) (n : ℕ)
      → IsValid b
      → b.count ≡ suc n
      → (x : A) × (b' : CircularBuffer A) × (pop_front b ≡ some (x, b'))
        × IsValid b'
        × (contents blank b ≡ Fifo.push (contents blank b') x)
  unfolding pop_front
  pop_front-some b n v e = (
    get_or b.queue old_index blank,
    record b { next_push = old_index; count = b.count - 1 },
    ground (
      arith,
      get_elem?-eq-get_or b.queue old_index blank
          (omega (arith, v.sized, mod-lt (b.next_push + b.size - 1) {m = b.size} (omega arith))),
    ),
    record {
      sized = v.sized;
      room = omega arith;
      pop_in = v.pop_in;
      push_at = last_index b n v e ∙ ap (λ k. (b.next_pop + k) % b.size) (omega arith);
    },
    ap (window blank b.queue b.next_pop b.size) e
        ∙ ap₂ (λ k c. Fifo.push (window blank b.queue b.next_pop b.size c) (get_or b.queue k blank))
            (sym (last_index b n v e)) counted,
  )
    where
      old_index : ℕ
      old_index = (b.next_push + b.size - 1) % b.size

      counted : n ≡ b.count - 1
      counted = omega arith

  pop_front-none : (b : CircularBuffer A) → b.count ≡ 0 → pop_front b ≡ none
  unfolding pop_front
  pop_front-none b e = ground arith

  -- `pop_front` returns the newest element and leaves the others.
  pub observe-pop_front :
      (b : CircularBuffer A) → IsValid b → observe (pop_front b) ≡ Fifo.pop_front (contents blank b)
  observe-pop_front b v = elim (count_cases b) [
    | inl e ↦ rw ((pop-none b e).1, pop_front-none b e)
    | inr (n, e) ↦
        let (x, b', p, v', c) = pop_front-some b n v e in
        rw (p, c, pop_front-push (contents blank b') x)
  ]

  pub pop_front-IsValid :
      (b : CircularBuffer A) {x : A} {b' : CircularBuffer A}
      → IsValid b
      → pop_front b ≡ some (x, b')
      → IsValid b'
  pop_front-IsValid b v h = elim (count_cases b) [
    | inl e ↦ cc (pop_front-none b e)
    | inr (n, e) ↦ let (y, b'', p, v', c) = pop_front-some b n v e in subst IsValid (cc) v'
  ]

  pub next_to_pop-contents :
      (b : CircularBuffer A) → IsValid b → next_to_pop b ≡ Fifo.next_to_pop (contents blank b)
  unfolding next_to_pop
  next_to_pop-contents b v = elim (count_cases b) [
    | inl e ↦ rw ((pop-none b e).1) (ground arith)
    | inr (n, e) ↦
        let (b', p, v', c) = pop-some b n v e in
        rw c (
          ground (
            arith,
            get_elem?-eq-get_or b.queue b.next_pop blank (omega (arith, v.sized, v.pop_in)),
          ))
  ]

  pub empty-contents : (b : CircularBuffer A) → IsValid b → empty b ≡ Fifo.empty (contents blank b)
  unfolding empty
  empty-contents b v = elim (count_cases b) [
    | inl e ↦ rw ((pop-none b e).1) (ground arith)
    | inr (n, e) ↦ let (b', p, v', c) = pop-some b n v e in rw c (ground arith)
  ]
