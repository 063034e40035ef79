-- ===== src/CircularBuffer/Slots.antt =====
-- Lists by index: what the circular buffer's window of its storage is made of.
use frontier_htsim.Prelude.{
  ℕ, zero, suc, ◌+◌, ◌-◌, ◌%◌, ◌<◌, ◌≤◌, ◌≡◌, ◌≢◌, ◌⊎◌, inl, inr, refl, ap, ap₂, ◌∙◌, List, [], ◌∷◌,
  ◌++◌, arith, length, length-append,
}
use native.Mathlib.Nat.{mod-eq_of_lt, mod-eq-sub-mod, mod-add-mod}
use native.Mathlib.Decide.{dec_lt}

module _ {ℓ} {A : Type ℓ} where
  -- f 0, …, f (n - 1)
  abbrev pub tabulate : ℕ → (ℕ → A) → List A
  tabulate zero f = []
  tabulate (suc n) f = tabulate n f ++ f n ∷ []

  pub tabulate_ext :
      (n : ℕ) (f g : ℕ → A) → ((i : ℕ) → i < n → f i ≡ g i) → tabulate n f ≡ tabulate n g
  tabulate_ext zero f g h = refl
  tabulate_ext (suc n) f g h =
      ap₂ (λ xs x. xs ++ x ∷ []) (tabulate_ext n f g (λ i l. h i (omega arith))) (h n (omega arith))

  pub tabulate_front : (n : ℕ) (f : ℕ → A) → tabulate (suc n) f ≡ f 0 ∷ tabulate n (λ i. f (i + 1))
  tabulate_front zero f = refl
  tabulate_front (suc n) f = ap₂ (λ xs k. xs ++ f k ∷ []) (tabulate_front n f) (omega arith)

  pub length-tabulate : (n : ℕ) (f : ℕ → A) → length (tabulate n f) ≡ n
  length-tabulate zero f = refl
  length-tabulate (suc n) f =
      omega (arith, length-append (tabulate n f) (f n ∷ []), length-tabulate n f)

-- Within one turn round a ring of `s` places, as the test the index passes or fails.
pub wrap_cases :
    (p i s : ℕ)
    → p < s
    → i < s
    → ((p + i < s) × ((p + i) % s ≡ p + i)) ⊎ ((s ≤ p + i) × ((p + i) % s ≡ p + i - s))
wrap_cases p i s hp hi = elim (dec_lt (p + i) s) [
  | yes h ↦ inl (h, mod-eq_of_lt h)
  | no h ↦ inr (
    omega arith,
    omega (
      arith,
      mod-eq-sub-mod {n = p + i} {m = s} (omega arith),
      mod-eq_of_lt {n = p + i - s} {m = s} (omega arith),
    ),
  )
]

-- Two offsets below the size reach different places.
pub wrap_ne : (p i j s : ℕ) → p < s → i < j → j < s → (p + j) % s ≢ (p + i) % s
wrap_ne p i j s hp hi hj = omega (arith, wrap_cases p i s hp (omega arith), wrap_cases p j s hp hj)

-- Stepping the start and then counting `i` places is counting one place more.
pub wrap_step : (p i s : ℕ) → p < s → ((p + 1) % s + i) % s ≡ (p + (i + 1)) % s
wrap_step p i s hp = mod-add-mod (p + 1) s i ∙ ap (λ k. k % s) (omega arith)
