-- ===== src/CircularBuffer/Grow.antt =====
-- The storage after `resize` and the copy loop of `push`, place by place.
use frontier_htsim.Prelude.{
  ℕ, zero, suc, ◌+◌, ◌≤◌, ◌<◌, ◌≡◌, refl, ap, ◌∙◌, List, [], ◌∷◌, arith, length, get_or, length-set,
  get_or-set_self, get_or-set_ne,
}
use native.Mathlib.Decide.{ℕ_discrete}
use frontier_htsim.CircularBuffer.{resize, copy_up}

module _ {ℓ} {A : Type ℓ} (blank : A) where
  pub length-resize : (n : ℕ) (xs : List A) → length (resize blank n xs) ≡ n
  unfolding resize
  length-resize zero xs = refl
  length-resize (suc n) [] = ap suc (length-resize n [])
  length-resize (suc n) (x ∷ xs) = ap suc (length-resize n xs)

  pub get_or-resize :
      (n : ℕ) (xs : List A) (i : ℕ)
      → i < n
      → i < length xs
      → get_or (resize blank n xs) i blank ≡ get_or xs i blank
  unfolding resize
  get_or-resize zero xs i h k = elim h [ ]
  get_or-resize (suc n) [] i h k = elim k [ ]
  get_or-resize (suc n) (x ∷ xs) zero h k = refl
  get_or-resize (suc n) (x ∷ xs) (suc i) h k = get_or-resize n xs i (omega arith) (omega arith)

  pub length-copy_up : (s n : ℕ) (xs : List A) → length (copy_up blank s n xs) ≡ length xs
  unfolding copy_up
  length-copy_up s zero xs = refl
  length-copy_up s (suc n) xs = length-set _ _ _ ∙ length-copy_up s n xs

  -- The places below `s` stay as they were.
  pub copy_up_below :
      (s n : ℕ) (xs : List A) (i : ℕ)
      → i < s
      → get_or (copy_up blank s n xs) i blank ≡ get_or xs i blank
  unfolding copy_up
  copy_up_below s zero xs i h = refl
  copy_up_below s (suc n) xs i h =
      get_or-set_ne (copy_up blank s n xs) _ blank (omega arith) ∙ copy_up_below s n xs i h

  -- The first `n` places are repeated from `s` on.
  pub copy_up_above :
      (s n : ℕ) (xs : List A) (i : ℕ)
      → i < n
      → n ≤ s
      → s + n ≤ length xs
      → get_or (copy_up blank s n xs) (s + i) blank ≡ get_or xs i blank
  unfolding copy_up
  copy_up_above s zero xs i h k l = elim h [ ]
  copy_up_above s (suc n) xs i h k l = elim (ℕ_discrete n i) [
    | yes e ↦
        ap (λ j. get_or (copy_up blank s (suc n) xs) (s + j) blank) (omega arith)
        ∙ get_or-set_self (copy_up blank s n xs) (s + n) _ blank
            (omega (arith, length-copy_up s n xs))
        ∙ copy_up_below s n xs n (omega arith)
        ∙ ap (λ j. get_or xs j blank) e
    | no e ↦
        get_or-set_ne (copy_up blank s n xs) _ blank (omega arith)
        ∙ copy_up_above s n xs i (omega arith) (omega arith) (omega arith)
  ]
