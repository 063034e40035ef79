-- ===== src/CircularBuffer/Window.antt =====
-- The part of a circular buffer's storage that holds its elements, and what growing does to it.
use frontier_htsim.Prelude.{
  ℕ, suc, ◌+◌, ◌*◌, ◌%◌, ◌≤◌, ◌<◌, ◌≡◌, inl, inr, sym, ap, ap₂, ◌∙◌, List, [], ◌∷◌, ◌++◌, arith,
  length, get_or, set, get_or-set_self, get_or-set_ne, ltb, Bool-cases, ltb_iff,
}
use frontier_htsim.Fifo
use frontier_htsim.CircularBuffer.{CircularBuffer, resize, copy_up, grow}
use frontier_htsim.CircularBuffer.Slots.{tabulate, tabulate_ext, wrap_cases, wrap_ne}
use frontier_htsim.CircularBuffer.Grow.{
  length-resize, get_or-resize, length-copy_up, copy_up_below, copy_up_above,
}

-- A buffer with a free place, whose `next_push` lies `count` places on from `next_pop`.
pub record IsValid {ℓ} {A : Type ℓ} (b : CircularBuffer A) : Type ℓ where
  pub sized : length b.queue ≡ b.size
  pub room : b.count < b.size
  pub pop_in : b.next_pop < b.size
  pub push_at : b.next_push ≡ (b.next_pop + b.count) % b.size

module _ {ℓ} {A : Type ℓ} (blank : A) where
  -- The `n` places of `queue` from `p` on, going round at `s`.
  abbrev pub window : List A → ℕ → ℕ → ℕ → List A
  window queue p s n = tabulate n (λ i. get_or queue ((p + i) % s) blank)

  abbrev pub contents : CircularBuffer A → List A
  contents b = window b.queue b.next_pop b.size b.count

  -- Writing at the end of a window makes it longer by that element.
  pub window-set :
      (queue : List A) (p s n : ℕ) (x : A)
      → length queue ≡ s
      → p < s
      → n < s
      → window (set queue ((p + n) % s) x) p s (suc n) ≡ Fifo.push (window queue p s n) x
  window-set queue p s n x hl hp hn =
      ap₂ (λ xs y. xs ++ y ∷ [])
        (tabulate_ext n _ _ (λ i h. get_or-set_ne queue x blank (wrap_ne p i n s hp h hn)))
        (get_or-set_self queue ((p + n) % s) x blank (omega (arith, wrap_cases p n s hp hn)))

  -- Growing keeps every element of a window of `s - 1` places, and the place after it.
  module _ (b : CircularBuffer A) (hl : length b.queue ≡ b.size) (hp : b.next_pop < b.size) (n : ℕ)
      (hn : n + 1 ≡ b.size) (he : b.next_push ≡ (b.next_pop + n) % b.size) where
    place_moved :
        b.next_push < b.next_pop
        → (i : ℕ) → i < n
        → get_or
            (copy_up blank b.size b.next_push (resize blank (b.size * 2) b.queue))
            ((b.next_pop + i) % (b.size * 2))
            blank
          ≡ get_or b.queue ((b.next_pop + i) % b.size) blank
    place_moved hm i hi = elim (wrap_cases b.next_pop i b.size hp (omega arith)) [
      | inl (h, e) ↦
          ap (λ k. get_or moved k blank) (unwrapped ∙ sym e)
          ∙ copy_up_below blank b.size b.next_push resized _ (omega arith)
          ∙ get_or-resize blank (b.size * 2) b.queue _ (omega arith) (omega arith)
      | inr (h, e) ↦
          ap (λ k. get_or moved k blank) (omega (arith, unwrapped, e))
          ∙ copy_up_above blank b.size b.next_push resized ((b.next_pop + i) % b.size)
              (omega (arith, e, wrap_cases b.next_pop n b.size hp (omega arith))) (omega arith)
              (omega (arith, length-resize blank (b.size * 2) b.queue))
          ∙ get_or-resize blank (b.size * 2) b.queue _ (omega arith) (omega arith)
    ]
      where
        resized : List A
        resized = resize blank (b.size * 2) b.queue

        moved : List A
        moved = copy_up blank b.size b.next_push resized

        unwrapped : (b.next_pop + i) % (b.size * 2) ≡ b.next_pop + i
        unwrapped = omega (arith, wrap_cases b.next_pop i (b.size * 2) (omega arith) (omega arith))

    -- With `next_push` not behind `next_pop` the window does not go round.
    place_kept :
        b.next_pop ≤ b.next_push
        → (i : ℕ) → i < n
        → get_or (resize blank (b.size * 2) b.queue) ((b.next_pop + i) % (b.size * 2)) blank
          ≡ get_or b.queue ((b.next_pop + i) % b.size) blank
    place_kept hk i hi =
        ap (λ k. get_or (resize blank (b.size * 2) b.queue) k blank)
          (omega (
            arith,
            wrap_cases b.next_pop n b.size hp (omega arith),
            wrap_cases b.next_pop i b.size hp (omega arith),
            wrap_cases b.next_pop i (b.size * 2) (omega arith) (omega arith),
          ))
        ∙ get_or-resize blank (b.size * 2) b.queue _
            (omega (arith, wrap_cases b.next_pop i b.size hp (omega arith)))
            (omega (arith, wrap_cases b.next_pop i b.size hp (omega arith)))

    pub window-grow :
        window (grow blank b).queue (grow blank b).next_pop (grow blank b).size n
        ≡ window b.queue b.next_pop b.size n
    unfolding grow
    window-grow = elim (Bool-cases (ltb b.next_push b.next_pop)) [
      | inl e ↦ rw e (tabulate_ext n _ _ (place_moved ((ltb_iff _ _).0 e)))
      | inr e ↦ rw e (tabulate_ext n _ _ (place_kept (ground arith)))
    ]

    pub grow_lem :
        (length (grow blank b).queue ≡ b.size * 2)
        × ((grow blank b).size ≡ b.size * 2)
        × ((grow blank b).next_pop ≡ b.next_pop)
        × ((grow blank b).next_push ≡ (b.next_pop + n) % (b.size * 2))
        × ((grow blank b).count ≡ b.count)
    unfolding grow
    grow_lem = ground (
      arith,
      length-resize blank (b.size * 2) b.queue,
      length-copy_up blank b.size b.next_push (resize blank (b.size * 2) b.queue),
      wrap_cases b.next_pop n b.size,
      wrap_cases b.next_pop n (b.size * 2),
    )
