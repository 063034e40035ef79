-- ===== src/Tcp/Sink/Holes.antt =====
-- The list of what arrived beyond a hole, by the numbers of the segments.
use frontier_htsim.Prelude.{
  ℕ, suc, ◌≤◌, ◌<◌, ◌≡◌, refl, Bool, true, false, ◌||◌, List, [], ◌∷◌, arith, ltb, ◌==◌,
  if◌then◌else◌,
}

-- Whether a number is in a list.
abbrev pub has : ℕ → List ℕ → Bool
has j [] = false
has j (k ∷ ks) = (k == j) || has j ks

-- Ascending, from `n` on.
abbrev pub From : ℕ → List ℕ → Type 0
From n [] = Unit {0}
From n (k ∷ ks) = (n ≤ k) × From (suc k) ks

pub From-mono : (n m : ℕ) (ks : List ℕ) → m ≤ n → From n ks → From m ks
From-mono n m [] h f = tt
From-mono n m (k ∷ ks) h f = (omega arith, f.1)

pub has-below : (j n : ℕ) (ks : List ℕ) → j < n → From n ks → has j ks ≡ false
has-below j n [] h f = refl
has-below j n (k ∷ ks) h f = ground (arith, has-below j (suc k) ks)

-- Where a number goes in an ascending list.
unfoldable pub place : ℕ → List ℕ → List ℕ
place k [] = k ∷ []
place k (h ∷ hs) =
    let rest = h ∷ place k hs in if k == h then h ∷ hs else (if ltb k h then k ∷ h ∷ hs else rest)

pub place_nil : (k : ℕ) → place k [] ≡ k ∷ []
unfolding place
place_nil k = refl

pub place-From : (n k : ℕ) (hs : List ℕ) → n ≤ k → From n hs → From n (place k hs)
unfolding place
place-From n k [] h f = (h, tt)
place-From n k (x ∷ hs) h f = ground (arith, place-From (suc x) k hs)

pub has-place : (j k : ℕ) (hs : List ℕ) → has j (place k hs) ≡ has j (k ∷ hs)
unfolding place
has-place j k [] = refl
has-place j k (x ∷ hs) = ground (arith, has-place j k hs)

-- What `drain` does to the numbers, and the first number that is then missing.
unfoldable pub advance : ℕ → List ℕ → ℕ × List ℕ
advance n [] = (n, [])
advance n (h ∷ hs) = elim (h == n) [ true ↦ advance (suc n) hs | false ↦ (n, h ∷ hs) ]

pub advance_lem :
    (n : ℕ) (hs : List ℕ)
    → From n hs
    → From (suc (advance n hs).0) (advance n hs).1 × (n ≤ (advance n hs).0)
unfolding advance
advance_lem n [] f = (tt, omega arith)
advance_lem n (h ∷ hs) f = ground (arith, advance_lem (suc n) hs)

pub has-advance :
    (j n : ℕ) (hs : List ℕ)
    → From n hs
    → (ltb j (advance n hs).0 || has j (advance n hs).1) ≡ (ltb j n || has j hs)
unfolding advance
has-advance j n [] f = refl
has-advance j n (h ∷ hs) f = ground (arith, has-advance j (suc n) hs)

pub advance_most :
    (last n : ℕ) (hs : List ℕ)
    → n ≤ last
    → ((j : ℕ) → has j hs ≡ true → j < last)
    → (advance n hs).0 ≤ last
unfolding advance
advance_most last n [] l h = l
advance_most last n (x ∷ hs) l h = ground (arith, advance_most last (suc n) hs, h x, tail)
  where
    tail : (j : ℕ) → has j hs ≡ true → j < last
    tail j e = h j (ground (arith, e))
