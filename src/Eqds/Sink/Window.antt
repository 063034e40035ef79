-- ===== src/Eqds/Sink/Window.antt =====
-- The packets beyond the next expected one, as a window of the circular bitmap.
use frontier_htsim.Prelude.{
  ℕ, zero, suc, ◌+◌, ◌-◌, ◌%◌, ◌^◌, ◌<◌, ◌≤◌, ◌≡◌, ◌≢◌, sym, ap, subst, ◌∙◌, Bool, true, false, not,
  ◌||◌, some, ◌==◌, arith, Bool-cases, ==_iff, inl, inr,
}
use frontier_htsim.Eqds.Sink.{ModularVector, at, put, is_set, advance}

-- The set `P` of the packets that have arrived: all below `e`, not `e` itself, and of those beyond it
-- the ones whose element is set.
pub record Holds (P : ℕ → Bool) (e : ℕ) (buf : ModularVector) : Type 0 where
  pub below : (j : ℕ) → j < e → P j ≡ true
  pub hole : P e ≡ false
  pub window : (i : ℕ) → i < 2 ^ 12 → is_set buf (e + i) ≡ P (e + i)
  pub above : (j : ℕ) → e + 2 ^ 12 ≤ j → P j ≡ false

-- The same where `e` has arrived and its element is not set.
record Filled (P : ℕ → Bool) (e : ℕ) (buf : ModularVector) : Type 0 where
  below : (j : ℕ) → j < e + 1 → P j ≡ true
  clear : is_set buf e ≡ false
  window : (i : ℕ) → 0 < i → i < 2 ^ 12 → is_set buf (e + i) ≡ P (e + i)
  above : (j : ℕ) → e + 2 ^ 12 ≤ j → P j ≡ false

is_set-wrap : (buf : ModularVector) (e : ℕ) → is_set buf (e + 2 ^ 12) ≡ is_set buf e
unfolding at
is_set-wrap buf e = ap (λ (i : ℕ). not (buf i == 0)) (omega arith)

is_set-put_ne :
    (buf : ModularVector) (k i v : ℕ)
    → k % 2 ^ 12 ≢ i % 2 ^ 12
    → is_set (put buf k v) i ≡ is_set buf i
unfolding at put
is_set-put_ne buf k i v h = ground arith

is_set-put_self : (buf : ModularVector) (k v : ℕ) → is_set (put buf k v) k ≡ not (v == 0)
unfolding at put
is_set-put_self buf k v = ground arith

-- Between `e` and `e + 2 ^ 12` no two numbers share an element.
apart : (e i j : ℕ) → i < 2 ^ 12 → j < 2 ^ 12 → i ≢ j → (e + i) % 2 ^ 12 ≢ (e + j) % 2 ^ 12
apart e i j a b h k = h (omega (arith, k))

-- The window of the next number, but for that number's own element.
shifted :
    (P : ℕ → Bool) (e : ℕ) (buf : ModularVector) (i : ℕ)
    → Filled P e buf
    → i < 2 ^ 12
    → is_set buf (e + 1 + i) ≡ P (e + 1 + i)
shifted P e buf i f l = elim (Bool-cases (i == 4095)) [
  | inl z ↦
      let k : e + 1 + i ≡ e + 2 ^ 12 = omega (arith, (==_iff i 4095).0 z) in
      ap (is_set buf) k ∙ is_set-wrap buf e ∙ f.clear ∙ sym (f.above (e + 1 + i) (omega (arith, k)))
  | inr z ↦
      let k : e + (1 + i) ≡ e + 1 + i = omega arith in
      subst (λ j. is_set buf j ≡ P j) k (f.window (1 + i) (omega arith) (ground arith))
]

Filled-next :
    (P : ℕ → Bool) (e : ℕ) (buf : ModularVector)
    → Filled P e buf
    → is_set buf (e + 1) ≡ false
    → Holds P (e + 1) buf
Filled-next P e buf f c = record {
  below = f.below;
  hole = sym (f.window 1 (omega arith) (omega arith)) ∙ c;
  window = λ i l. shifted P e buf i f l;
  above = λ j l. f.above j (omega (arith, l));
}

Filled-clear :
    (P : ℕ → Bool) (e : ℕ) (buf : ModularVector)
    → Filled P e buf
    → is_set buf (e + 1) ≡ true
    → Filled P (e + 1) (put buf (e + 1) 0)
Filled-clear P e buf f c = record {
  below = λ j l. elim (Bool-cases (j == e + 1)) [
    | inl z ↦ ap P ((==_iff j (e + 1)).0 z) ∙ sym (f.window 1 (omega arith) (omega arith)) ∙ c
    | inr z ↦ f.below j (ground arith)
  ];
  clear = is_set-put_self buf (e + 1) 0;
  window = λ i z l.
      is_set-put_ne buf (e + 1) (e + 1 + i) 0 (λ k. absurd (omega (arith, k)))
      ∙ shifted P e buf i f l;
  above = λ j l. f.above j (omega (arith, l));
}

is_set-clear :
    (buf : ModularVector) (k i : ℕ) → is_set buf i ≡ false → is_set (put buf k 0) i ≡ false
unfolding at put
is_set-clear buf k i h = ground (arith, h)

not_first :
    (buf : ModularVector) (e d : ℕ)
    → is_set buf (e + 1 + d) ≡ false
    → is_set buf (e + 1) ≡ true
    → d ≢ 0
not_first buf e d u s z =
    let k : e + 1 ≡ e + 1 + d = omega (arith, z) in
    let c : true ≡ false = sym s ∙ ap (is_set buf) k ∙ u in cc

-- With one unset element ahead, `d` rounds from the first, the loop ends in time.
advance_lem :
    (P : ℕ → Bool) (fuel d : ℕ) (buf : ModularVector) (e c : ℕ)
    → d < fuel
    → is_set buf (e + 1 + d) ≡ false
    → Filled P e buf
    → (buf' : ModularVector) × (e' : ℕ) × (c' : ℕ) × (advance fuel buf e c ≡ some (buf', e', c'))
      × Holds P e' buf'
unfolding advance
advance_lem P zero d buf e c l u f = absurd (omega arith)
advance_lem P (suc fuel) d buf e c l u f = elim (Bool-cases (is_set buf (e + 1))) [
  | inl s ↦
      let n : d ≢ 0 = not_first buf e d u s in
      let k : e + 1 + d ≡ e + 1 + 1 + (d - 1) = omega (arith, n) in
      let (buf', e', c', q, h) =
        advance_lem P fuel (d - 1) (put buf (e + 1) 0) (e + 1) ((c + 2 ^ 32 - 1) % 2 ^ 32)
          (omega (arith, n)) (is_set-clear buf (e + 1) _ (ap (is_set buf) (sym k) ∙ u))
          (Filled-clear P e buf f s) in
      (buf', e', c', ground (arith, s, q), h)
  | inr s ↦ (buf, e + 1, c, ground (arith, s), Filled-next P e buf f s)
]

-- Out of order: a new packet of the window is marked.
abbrev pub add : ℕ → (ℕ → Bool) → ℕ → Bool
add p P j = (j == p) || P j

Holds-Filled : (P : ℕ → Bool) (e : ℕ) (buf : ModularVector) → Holds P e buf → Filled (add e P) e buf
Holds-Filled P e buf h = record {
  below = λ j l. ground (arith, h.below j);
  clear = subst (λ i. is_set buf i ≡ P i) (omega arith) (h.window 0 (omega arith)) ∙ h.hole;
  window = λ i z l. h.window i l ∙ ground arith;
  above = λ j l. ground (arith, h.above j l);
}

-- The next expected packet arrives: 2 ^ 12 rounds are enough.
pub advance-Holds :
    (P : ℕ → Bool) (buf : ModularVector) (e c : ℕ)
    → Holds P e buf
    → (buf' : ModularVector) × (e' : ℕ) × (c' : ℕ) × (advance 4096 buf e c ≡ some (buf', e', c'))
      × Holds (add e P) e' buf'
advance-Holds P buf e c h =
    let f : Filled (add e P) e buf = Holds-Filled P e buf h in
    let k : e + 1 + 4095 ≡ e + 2 ^ 12 = omega arith in
    advance_lem (add e P) 4096 4095 buf e c (omega arith)
      (ap (is_set buf) k ∙ is_set-wrap buf e ∙ f.clear) f

-- A packet beyond the next expected one arrives.
pub put-Holds :
    (P : ℕ → Bool) (buf : ModularVector) (e p : ℕ)
    → Holds P e buf
    → e < p
    → p < e + 2 ^ 12
    → Holds (add p P) e (put buf p 1)
put-Holds P buf e p h l u = record {
  below = λ j b. ground (arith, h.below j b);
  hole = ground (arith, h.hole);
  window = λ i b. elim (Bool-cases (e + i == p)) [
    | inl z ↦
        ap (is_set (put buf p 1)) ((==_iff (e + i) p).0 z)
        ∙ is_set-put_self buf p 1
        ∙ ground (arith, z)
    | inr z ↦
        let n : e + i ≢ p = λ w. ground (arith, z, w) in
        is_set-put_ne buf p (e + i) 1 (λ k. omega (arith, k, n)) ∙ h.window i b ∙ ground (arith, z)
  ];
  above = λ j b. ground (arith, h.above j b);
}

add_same : (P : ℕ → Bool) (p j : ℕ) → P p ≡ true → add p P j ≡ P j
add_same P p j a = elim (Bool-cases (j == p)) [
  | inl z ↦ ground (arith, z, a, ap P ((==_iff j p).0 z))
  | inr z ↦ ground (arith, z)
]

-- A packet that the sink has arrives again.
pub again-Holds :
    (P : ℕ → Bool) (buf : ModularVector) (e p : ℕ)
    → Holds P e buf
    → P p ≡ true
    → Holds (add p P) e buf
again-Holds P buf e p h a = record {
  below = λ j b. add_same P p j a ∙ h.below j b;
  hole = add_same P p e a ∙ h.hole;
  window = λ i b. h.window i b ∙ sym (add_same P p (e + i) a);
  above = λ j b. add_same P p j a ∙ h.above j b;
}

-- The marks stay, as numbers other than 0.
pub marks-Holds :
    (P : ℕ → Bool) (buf buf' : ModularVector) (e : ℕ)
    → Holds P e buf
    → ((j : ℕ) → is_set buf' j ≡ is_set buf j)
    → Holds P e buf'
marks-Holds P buf buf' e h m = record {
  below = h.below;
  hole = h.hole;
  window = λ i b. m (e + i) ∙ h.window i b;
  above = h.above;
}
