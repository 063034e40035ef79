-- ===== src/Eqds/Source/Ascending.antt =====
-- Maps as lists in ascending order of their keys: what erasing leaves.
use frontier_htsim.Prelude.{
  ℕ, suc, ◌<◌, ◌≤◌, ◌≡◌, refl, false, List, [], ◌∷◌, ltb, ◌==◌, if_cases, arith,
}
use frontier_htsim.Eqds.Source.{SendRecord, erase, drop_below}
use frontier_htsim.Eqds.Source.Acked.{has, erase_all}

-- The keys ascend from `b` on.
abbrev pub Above : {A : Type 0} → ℕ → List (ℕ × A) → Type 0
Above b [] = Unit {0}
Above b ((k, a) ∷ rest) = (b ≤ k) × Above (suc k) rest

abbrev pub AllOut : List (ℕ × SendRecord) → List ℕ → Type 0
AllOut tx [] = Unit {0}
AllOut tx (n ∷ ns) = (has tx n ≡ false) × AllOut tx ns

module _ {A : Type 0} where
  pub Above-mono : (a b : ℕ) (l : List (ℕ × A)) → a ≤ b → Above b l → Above a l
  Above-mono a b [] h u = tt
  Above-mono a b ((k, x) ∷ rest) h u = (omega (arith, h, u.0), u.1)

  pub Above-has : (b n : ℕ) (l : List (ℕ × A)) → Above b l → n < b → has l n ≡ false
  Above-has b n [] u h = refl
  Above-has b n ((k, x) ∷ rest) u h =
      ground (arith, h, u.0, Above-has (suc k) n rest u.1 (omega (arith, h, u.0)))

  pub drop_below-Above : (b c : ℕ) (l : List (ℕ × A)) → Above b l → Above c (drop_below c l)
  unfolding drop_below
  drop_below-Above b c [] u = tt
  drop_below-Above b c ((k, x) ∷ rest) u =
      if_cases (Above c) (ltb k c) (λ e. drop_below-Above (suc k) c rest u.1)
        (λ e. (ground (arith, e), u.1))

  pub has-drop_below : (c n : ℕ) (l : List (ℕ × A)) → c ≤ n → has (drop_below c l) n ≡ has l n
  unfolding drop_below
  has-drop_below c n [] h = refl
  has-drop_below c n ((k, x) ∷ rest) h = ground (arith, h, has-drop_below c n rest h)

  erase-Above : (b n : ℕ) (l : List (ℕ × A)) → Above b l → Above b (erase l n)
  unfolding erase
  erase-Above b n [] u = tt
  erase-Above b n ((k, x) ∷ rest) u =
      if_cases (Above b) (k == n) (λ e. Above-mono b (suc k) rest (omega (arith, u.0)) u.1)
        (λ e. (u.0, erase-Above (suc k) n rest u.1))

  erase_gone : (b n : ℕ) (l : List (ℕ × A)) → Above b l → has (erase l n) n ≡ false
  unfolding erase
  erase_gone b n [] u = refl
  erase_gone b n ((k, x) ∷ rest) u =
      if_cases (λ m. has m n ≡ false) (k == n) {x = rest} {y = (k, x) ∷ erase rest n}
        (λ e. Above-has (suc k) n rest u.1 (ground (arith, e)))
        (λ e. ground (arith, e, erase_gone (suc k) n rest u.1))

  erase_stays_out : (n m : ℕ) (l : List (ℕ × A)) → has l m ≡ false → has (erase l n) m ≡ false
  unfolding erase
  erase_stays_out n m [] h = refl
  erase_stays_out n m ((k, x) ∷ rest) h =
      if_cases (λ r. has r m ≡ false) (k == n) {x = rest} {y = (k, x) ∷ erase rest n}
        (λ e. ground (arith, h))
        (λ e. ground (arith, h, erase_stays_out n m rest (ground (arith, h))))

pub erase_all-Above :
    (b : ℕ) (tx : List (ℕ × SendRecord)) (ns : List ℕ) → Above b tx → Above b (erase_all tx ns)
erase_all-Above b tx [] u = u
erase_all-Above b tx (n ∷ ns) u = erase_all-Above b (erase tx n) ns (erase-Above b n tx u)

erase_all_out :
    (m : ℕ) (tx : List (ℕ × SendRecord)) (ns : List ℕ)
    → has tx m ≡ false
    → has (erase_all tx ns) m ≡ false
erase_all_out m tx [] h = h
erase_all_out m tx (n ∷ ns) h = erase_all_out m (erase tx n) ns (erase_stays_out n m tx h)

pub erase_all-AllOut :
    (b : ℕ) (tx : List (ℕ × SendRecord)) (ns : List ℕ) → Above b tx → AllOut (erase_all tx ns) ns
erase_all-AllOut b tx [] u = tt
erase_all-AllOut b tx (n ∷ ns) u = (
  erase_all_out n (erase tx n) ns (erase_gone b n tx u),
  erase_all-AllOut b (erase tx n) ns (erase-Above b n tx u),
)
