-- ===== src/Prelude/Handlers.antt =====
-- What a handler does: it ends in a value after some effects on other objects, oldest first, or a
-- failed assertion (or `abort`) ends the program.
use mathlib.Core.List.{List, [], ◌∷◌, ◌++◌}
use mathlib.Core.Path.{◌≡◌, refl, sym, subst}
use mathlib.Core.Bool.{Bool, true, false}
use mathlib.Core.Option.{Option, none, some}

pub data Outcome {ℓ κ} (E : Type ℓ) (A : Type κ) : Type (ℓ ⊔ κ) where
  done : A → List E → Outcome E A
  aborted : Outcome E A

module _ {ℓ κ} {E : Type ℓ} {A : Type κ} where
  abbrev pub return : A → Outcome E A
  return a = done a []

  abbrev pub after : List E → Outcome E A → Outcome E A
  after es (done a fs) = done a (es ++ fs)
  after es aborted = aborted

  -- The handler does not abort, and `P` holds of its value and its effects.
  abbrev pub Ensures : (A → List E → Type 0) → Outcome E A → Type 0
  Ensures P (done a es) = P a es
  Ensures P aborted = ⊥

  -- The value where the option has one, and a failed assertion where it has none.
  abbrev pub or_abort : Option A → Outcome E A
  or_abort none = aborted
  or_abort (some a) = done a []

  -- The value of a handler that has no effects.
  abbrev pub value : Outcome E A → Option A
  value (done a es) = some a
  value aborted = none

infixl 5 ◌>>=◌ ◌>>◌
abbrev pub ◌>>=◌ {ℓ κ μ} :
    {E : Type ℓ} {A : Type κ} {B : Type μ} → Outcome E A → (A → Outcome E B) → Outcome E B
done a es >>= f = after es (f a)
aborted >>= f = aborted

abbrev pub ◌>>◌ {ℓ κ} : {E : Type ℓ} {B : Type κ} → Outcome E (Unit {0}) → Outcome E B → Outcome E B
m >> k = m >>= λ _. k

module _ {ℓ} {E : Type ℓ} where
  abbrev pub emit : E → Outcome E (Unit {0})
  emit e = done tt (e ∷ [])

  abbrev pub assert : Bool → Outcome E (Unit {0})
  assert true = done tt []
  assert false = aborted

module _ {ℓ κ} {E : Type ℓ} {A : Type κ} where
  pub Ensures-after :
      (P : A → List E → Type 0) (es : List E) (m : Outcome E A)
      → Ensures (λ a fs. P a (es ++ fs)) m
      → Ensures P (after es m)
  Ensures-after P es (done a fs) h = h
  Ensures-after P es aborted h = h

  pub Ensures-mono :
      (P Q : A → List E → Type 0) (m : Outcome E A)
      → ((a : A) (es : List E) → P a es → Q a es)
      → Ensures P m
      → Ensures Q m
  Ensures-mono P Q (done a es) f h = f a es h
  Ensures-mono P Q aborted f h = h

  pub Ensures-both :
      (P Q : A → List E → Type 0) (m : Outcome E A)
      → Ensures P m
      → Ensures Q m
      → Ensures (λ a es. P a es × Q a es) m
  Ensures-both P Q (done a es) h k = (h, k)
  Ensures-both P Q aborted h k = h

  pub Ensures-done :
      (P : A → List E → Type 0) (m : Outcome E A)
      → Ensures P m
      → (a : A) × (es : List E) × (m ≡ done a es) × P a es
  Ensures-done P (done a es) h = (a, es, refl, h)
  Ensures-done P aborted h = absurd h

-- What a handler ensures, from what its first part and its continuation ensure.
pub Ensures-bind {ℓ κ μ} :
    {E : Type ℓ} {A : Type κ} {B : Type μ} (P : A → List E → Type 0) (Q : B → List E → Type 0)
    (m : Outcome E A) (f : A → Outcome E B)
    → Ensures P m
    → ((a : A) (es : List E) → P a es → Ensures (λ b fs. Q b (es ++ fs)) (f a))
    → Ensures Q (m >>= f)
Ensures-bind P Q (done a es) f h k = Ensures-after Q es (f a) (k a es h)
Ensures-bind P Q aborted f h k = h

-- What a handler ensures behind an assertion that holds.
pub Ensures-assert {ℓ κ} :
    {E : Type ℓ} {B : Type κ} (P : B → List E → Type 0) (c : Bool) (k : Outcome E B)
    → c ≡ true
    → Ensures P k
    → Ensures P (assert c >> k)
Ensures-assert P c k e h = subst (λ c. Ensures P (assert c >> k)) (sym e) (Ensures-after P [] k h)
