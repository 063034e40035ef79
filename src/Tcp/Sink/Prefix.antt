-- ===== src/Tcp/Sink/Prefix.antt =====
-- A sink that receives segments of one size, numbered from the first byte: what its state is after
-- any arrivals, in any order and however often.
use frontier_htsim.Prelude.{
  ℕ, zero, suc, ◌+◌, ◌*◌, ◌^◌, ◌≤◌, ◌<◌, ◌≡◌, refl, ap, ◌∙◌, sym, true, false, List, [], ◌∷◌, ◌++◌,
  map, arith, ltb, ◌==◌, add64, sub64, Bool-cases, inl, inr,
}
use frontier_htsim.Tcp.Sink.{drain, fill_hole, back, store}
use frontier_htsim.Tcp.Sink.Holes.{has, From, place, place_nil, advance}

-- The first byte of segment `k`, where segment 0 follows byte `b` and segments have `m` bytes.
abbrev pub seq : ℕ → ℕ → ℕ → ℕ
seq b m k = b + k * m + 1

mul_step : (m j k : ℕ) → k < j → k * m + m ≤ j * m
mul_step m zero k h = absurd (omega arith)
mul_step m (suc j) zero h = omega arith
mul_step m (suc j) (suc k) h = omega (arith, mul_step m j k (omega arith))

seq_== : (b m j k : ℕ) → 0 < m → (seq b m j == seq b m k) ≡ (j == k)
seq_== b m j k h = ground (arith, mul_step m j k, mul_step m k j)

pub ltb-seq : (b m j k : ℕ) → 0 < m → ltb (seq b m j) (seq b m k) ≡ ltb j k
ltb-seq b m j k h = ground (arith, mul_step m j k, mul_step m k j)

drain_nil : (size cum : ℕ) → drain size cum [] ≡ (cum, [])
unfolding drain
drain_nil size cum = refl

drain_next :
    (size cum r : ℕ) (rs : List ℕ)
    → (r == add64 cum 1) ≡ true
    → drain size cum (r ∷ rs) ≡ drain size (add64 cum size) rs
unfolding drain
drain_next size cum r rs e = ground arith

drain_stop :
    (size cum r : ℕ) (rs : List ℕ)
    → (r == add64 cum 1) ≡ false
    → drain size cum (r ∷ rs) ≡ (cum, r ∷ rs)
unfolding drain
drain_stop size cum r rs e = ground arith

module _ (b m : ℕ) (pos : 0 < m) where
  -- A list that ends in `x` after `h ∷ hs`.
  store_last :
      (n k h : ℕ) (hs : List ℕ)
      → From n (h ∷ hs)
      → ltb (back h hs) k ≡ true
      → place k (h ∷ hs) ≡ (h ∷ hs) ++ k ∷ []
  unfolding place back
  store_last n k h [] f e = ground arith
  store_last n k h (x ∷ hs) f e = ground (arith, store_last (suc h) k x hs)

  fill_hole-seq :
      (n k h : ℕ) (hs : List ℕ)
      → From n (h ∷ hs)
      → ltb (back h hs) k ≡ false
      → fill_hole (seq b m k) (map (seq b m) (h ∷ hs)) ≡ map (seq b m) (place k (h ∷ hs))
  unfolding fill_hole place back
  fill_hole-seq n k h [] f e = ground (arith, seq_== b m k h pos, ltb-seq b m k h pos)
  fill_hole-seq n k h (x ∷ hs) f e =
      ground (arith, seq_== b m k h pos, ltb-seq b m k h pos, fill_hole-seq (suc h) k x hs)

  back-seq : (h : ℕ) (hs : List ℕ) → back (seq b m h) (map (seq b m) hs) ≡ seq b m (back h hs)
  unfolding back
  back-seq h [] = refl
  back-seq h (x ∷ hs) = back-seq x hs

  map-seq-append :
      (hs : List ℕ) (k : ℕ) → map (seq b m) (hs ++ k ∷ []) ≡ map (seq b m) hs ++ seq b m k ∷ []
  map-seq-append [] k = refl
  map-seq-append (h ∷ hs) k = ap (λ rest. seq b m h ∷ rest) (map-seq-append hs k)

  pub store-seq :
      (n k : ℕ) (hs : List ℕ)
      → From n hs
      → store (seq b m k) (map (seq b m) hs) ≡ map (seq b m) (place k hs)
  unfolding store
  store-seq n k [] f = ap (map (seq b m)) (sym (place_nil k))
  store-seq n k (h ∷ hs) f = elim (Bool-cases (ltb (back h hs) k)) [
    | inl e ↦ simp (test ∙ e, store_last n k h hs f e, map-seq-append hs k)
    | inr e ↦ simp (test ∙ e, fill_hole-seq n k h hs f e)
  ]
    where
      test : ltb (back (seq b m h) (map (seq b m) hs)) (seq b m k) ≡ ltb (back h hs) k
      test = ap (λ x. ltb x (seq b m k)) (back-seq h hs) ∙ ltb-seq b m (back h hs) k pos

  mul_mono : (n last : ℕ) → n ≤ last → n * m ≤ last * m
  mul_mono n last h = ground (arith, mul_step m last n)

  module _ (last : ℕ) (room : b + last * m + 1 < 2 ^ 64) where
    pub add64_one : (n : ℕ) → n ≤ last → add64 (b + n * m) 1 ≡ seq b m n
    add64_one n l = omega (arith, room, mul_mono n last l)

    pub last_byte : (k : ℕ) → k < last → sub64 (add64 (seq b m k) m) 1 ≡ b + suc k * m
    last_byte k l = omega (arith, room, mul_mono (suc k) last l)

    pub next_== : (n x : ℕ) → n ≤ last → (seq b m x == add64 (b + n * m) 1) ≡ (x == n)
    next_== n x l = ap (λ e. seq b m x == e) (add64_one n l) ∙ seq_== b m x n pos

    pub add64_step : (n : ℕ) → n < last → add64 (b + n * m) m ≡ b + suc n * m
    add64_step n l = omega (arith, room, mul_mono (suc n) last l)

    pub drain-seq :
        (n : ℕ) (hs : List ℕ)
        → n ≤ last
        → ((j : ℕ) → has j hs ≡ true → j < last)
        → drain m (b + n * m) (map (seq b m) hs)
          ≡ (b + (advance n hs).0 * m, map (seq b m) (advance n hs).1)
    unfolding advance
    drain-seq n [] l h = drain_nil m (b + n * m)
    drain-seq n (x ∷ hs) l h = ground (
      arith,
      next_== n x l,
      drain_stop m (b + n * m) (seq b m x) (map (seq b m) hs),
      drain_next m (b + n * m) (seq b m x) (map (seq b m) hs),
      add64_step n,
      drain-seq (suc n) hs,
      h x,
    )
