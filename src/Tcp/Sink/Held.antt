-- ===== src/Tcp/Sink/Held.antt =====
-- What has arrived, by the numbers of the segments: those up to the first that has not, and the others.
use frontier_htsim.Prelude.{ℕ, suc, ◌≤◌, ◌<◌, ◌≡◌, ◌∙◌, true, ◌||◌, List, ◌∷◌, arith, ltb}
use frontier_htsim.Tcp.Sink.Holes.{
  has, From, place, place-From, has-place, advance, advance_lem, advance_most, has-advance,
}

-- `next` is the first number that is not in `ks`, and `held` are the numbers of `ks` beyond it.
pub record Held (last : ℕ) (ks : List ℕ) (next : ℕ) (held : List ℕ) : Type 0 where
  pub ascending : From (suc next) held
  pub next_most : next ≤ last
  pub held_most : (j : ℕ) → has j held ≡ true → j < last
  pub same : (j : ℕ) → (ltb j next || has j held) ≡ has j ks

pub Held-next :
    (last : ℕ) (ks : List ℕ) (n : ℕ) (hs : List ℕ)
    → Held last ks n hs
    → n < last
    → Held last (n ∷ ks) (advance (suc n) hs).0 (advance (suc n) hs).1
Held-next last ks n hs r l = record {
  ascending = (advance_lem (suc n) hs r.ascending).0;
  next_most = advance_most last (suc n) hs (omega arith) r.held_most;
  held_most = λ j e. ground (arith, has-advance j (suc n) hs r.ascending, r.held_most j);
  same = λ j. has-advance j (suc n) hs r.ascending ∙ ground (arith, r.same j);
}

pub Held-old :
    (last : ℕ) (ks : List ℕ) (k n : ℕ) (hs : List ℕ)
    → Held last ks n hs
    → k < n
    → Held last (k ∷ ks) n hs
Held-old last ks k n hs r l = record {
  ascending = r.ascending;
  next_most = r.next_most;
  held_most = r.held_most;
  same = λ j. ground (arith, r.same j);
}

pub Held-beyond :
    (last : ℕ) (ks : List ℕ) (k n : ℕ) (hs : List ℕ)
    → Held last ks n hs
    → k < last
    → n < k
    → Held last (k ∷ ks) n (place k hs)
Held-beyond last ks k n hs r l g = record {
  ascending = place-From (suc n) k hs g r.ascending;
  next_most = r.next_most;
  held_most = λ j e. ground (arith, has-place j k hs, r.held_most j);
  same = λ j. ground (arith, has-place j k hs, r.same j);
}
