-- ===== src/Tcp/Source/Offset.antt =====
-- The delay that `rtx_timer_hook` of `TcpSrc` asks for before a retransmission: its loop ends, and the
-- subtraction after it does not wrap.
use frontier_htsim.Prelude.{
  ℕ, zero, suc, ◌/◌, ◌^◌, ◌≤◌, ◌<◌, ◌≡◌, refl, ◌-◌, sym, ap, subst, sub64_small, Bool-cases, inl,
  inr, true, false, arith, ltb,
}
use frontier_htsim.Tcp.Source.Timer.{halve, restart_offset}

-- A number after `i` halvings.
abbrev pub shift : ℕ → ℕ → ℕ
shift x zero = x
shift x (suc i) = shift (x / 2) i

-- What the loop ends in: the first of the halves of `x` that is at most `period`.
pub record Halved (period x y : ℕ) : Type 0 where
  pub rounds : ℕ
  pub result : y ≡ shift x rounds
  pub within : y ≤ period
  pub before : (j : ℕ) → j < rounds → period < shift x j

halve_stops : (fuel period x : ℕ) → ltb period x ≡ false → halve (suc fuel) period x ≡ x
unfolding halve
halve_stops fuel period x e = ground (arith, e)

halve_goes_on :
    (fuel period x : ℕ)
    → ltb period x ≡ true
    → halve (suc fuel) period x ≡ halve fuel period (x / 2)
unfolding halve
halve_goes_on fuel period x e = ground (arith, e)

Halved-stop : (period x : ℕ) → x ≤ period → Halved period x x
Halved-stop period x l = record {
  rounds = 0;
  result = refl;
  within = l;
  before = λ j h. absurd (omega (arith, h));
}

Halved-one : (period x y : ℕ) → period < x → Halved period (x / 2) y → Halved period x y
Halved-one period x y l h = record {
  rounds = suc h.rounds;
  result = h.result;
  within = h.within;
  before = before;
}
  where
    before : (j : ℕ) → j < suc h.rounds → period < shift x j
    before zero m = l
    before (suc j) m = h.before j (omega (arith, m))

half_room : (fuel x : ℕ) → x < 2 ^ suc fuel → x / 2 < 2 ^ fuel
half_room fuel x l = omega (arith, l)

halve-Halved : (fuel period x : ℕ) → x < 2 ^ fuel → Halved period x (halve fuel period x)
unfolding halve
halve-Halved zero period x l = Halved-stop period x (omega (arith, l))
halve-Halved (suc fuel) period x l = elim (Bool-cases (ltb period x)) [
  | inl e ↦ subst (Halved period x) (sym (halve_goes_on fuel period x e)) (
      Halved-one period x _ (ground (arith, e))
        (halve-Halved fuel period (x / 2) (half_room fuel x l)))
  | inr e ↦
      subst (Halved period x) (sym (halve_stops fuel period x e))
        (Halved-stop period x (ground (arith, e)))
]

-- For times of 64 bits, the loop of `rtx_timer_hook` halves the lateness until it is within the
-- period and not further, and the delay that it asks for is a 200th of what is left of the period,
-- with no wrap.
pub restart_offset-Halved :
    (period too_late : ℕ)
    → period < 2 ^ 64
    → too_late < 2 ^ 64
    → (y : ℕ) × Halved period too_late y × (restart_offset period too_late ≡ (period - y) / 200)
unfolding restart_offset
restart_offset-Halved period too_late l m = (halve 64 period too_late, h, same)
  where
    h : Halved period too_late (halve 64 period too_late)
    h = halve-Halved 64 period too_late m

    same : restart_offset period too_late ≡ (period - halve 64 period too_late) / 200
    same = ap (λ d. d / 200) (sub64_small period _ h.within l)
