-- ===== src/Eqds/Sink/Bitmap.antt =====
-- What a sink writes into the bitmap of an acknowledgement, and what the source reads in it.
use frontier_htsim.Prelude.{
  ℕ, zero, suc, ◌+◌, ◌*◌, ◌/◌, ◌^◌, ◌≡◌, refl, sym, ap, ◌∙◌, Bool, true, false, ◌&&◌, List, [], ◌∷◌,
  some, ltb, ◌==◌, if◌then◌else◌, arith,
}
use frontier_htsim.Eqds.Acks.{sacked, with_number}
use frontier_htsim.Eqds.Sink.{ModularVector, at, put, bit, is_set, build_loop, build_sack_bitmap}

-- The numbers from `idx` on whose element is set, out of `n`.
unfoldable pub marked : ModularVector → ℕ → ℕ → List ℕ
marked buf idx zero = []
marked buf idx (suc n) =
    if is_set buf idx then idx ∷ marked buf (idx + 1) n else marked buf (idx + 1) n

-- The same as a number, lowest bit first.
val : ModularVector → ℕ → ℕ → ℕ
val buf idx zero = 0
val buf idx (suc n) = bit (is_set buf idx) + 2 * val buf (idx + 1) n

-- The buffer after a round.
abbrev bump : ModularVector → ℕ → ModularVector
bump buf idx = if is_set buf idx && ltb (at buf idx) 255 then put buf idx (at buf idx + 1) else buf

is_set-bump : (buf : ModularVector) (idx j : ℕ) → is_set (bump buf idx) j ≡ is_set buf j
unfolding at put
is_set-bump buf idx j = ground arith

val_first :
    (buf : ModularVector) (idx n : ℕ)
    → bit (is_set buf idx) + val buf (idx + 1) n * 2 ≡ val buf idx (suc n)
unfolding val
val_first buf idx n = omega arith

val-bump : (buf : ModularVector) (k idx n : ℕ) → val (bump buf k) idx n ≡ val buf idx n
unfolding val
val-bump buf k idx zero = refl
val-bump buf k idx (suc n) =
    omega (arith, val-bump buf k (idx + 1) n, ap bit (is_set-bump buf k idx))

pow-suc : (m : ℕ) → 2 ^ suc m ≡ 2 * 2 ^ m
pow-suc m = omega arith

shift : (v q : ℕ) → v * (2 * q) / 2 ≡ v * q
shift v q = grind arith

next_acc :
    (b : Bool) (v p q : ℕ) → p * q ≡ 2 ^ 63 → v * (2 * q) / 2 + bit b * 2 ^ 63 ≡ (v + bit b * p) * q
next_acc true v p q e = omega (arith, shift v q, e)
next_acc false v p q e = omega (arith, shift v q)

half : (p q : ℕ) → p * (2 * q) ≡ 2 ^ 64 → p * q ≡ 2 ^ 63
half p q e = omega (arith, e)

build_loop-val :
    (n : ℕ) (buf : ModularVector) (idx v p : ℕ)
    → p * 2 ^ n ≡ 2 ^ 64
    → (build_loop n buf idx (v * 2 ^ n)).0 ≡ v + val buf idx n * p
unfolding build_loop val
build_loop-val zero buf idx v p e = omega arith
build_loop-val (suc n) buf idx v p e =
    let h : p * 2 ^ n ≡ 2 ^ 63 = half p (2 ^ n) (ap (λ (t : ℕ). p * t) (sym (pow-suc n)) ∙ e) in
    let a : v * 2 ^ suc n / 2 + bit (is_set buf idx) * 2 ^ 63
        ≡ (v + bit (is_set buf idx) * p) * 2 ^ n =
      ap (λ (t : ℕ). v * t / 2 + bit (is_set buf idx) * 2 ^ 63) (pow-suc n)
      ∙ next_acc (is_set buf idx) v p (2 ^ n) h in
    ap (λ (t : ℕ). (build_loop n (bump buf idx) (idx + 1) t).0) a
    ∙ build_loop-val n (bump buf idx) (idx + 1) (v + bit (is_set buf idx) * p) (2 * p)
        (omega (arith, h))
    ∙ omega (arith, ap (λ (t : ℕ). t * p) (val-bump buf idx (idx + 1) n))

val_zero : (buf : ModularVector) (idx n : ℕ) → val buf idx n ≡ 0 → marked buf idx n ≡ []
unfolding val marked
val_zero buf idx zero e = refl
val_zero buf idx (suc n) e = ground (arith, val_zero buf (idx + 1) n)

sacked-bit :
    (b : Bool) (n y idx : ℕ)
    → sacked (suc n) (bit b + 2 * y) idx ≡ (
        if bit b + 2 * y == 0
        then some []
        else (if b then with_number idx (sacked n y (idx + 1)) else sacked n y (idx + 1)))
unfolding sacked
sacked-bit true n y idx = let e : (1 + 2 * y) / 2 ≡ y = omega arith in rw e (ground arith)
sacked-bit false n y idx = let e : (0 + 2 * y) / 2 ≡ y = omega arith in rw e (ground arith)

sacked-val :
    (n : ℕ) (buf : ModularVector) (idx : ℕ) → sacked n (val buf idx n) idx ≡ some (marked buf idx n)
unfolding val marked
sacked-val zero buf idx = unfold sacked in refl
sacked-val (suc n) buf idx =
    sacked-bit (is_set buf idx) n (val buf (idx + 1) n) idx
    ∙ ground (arith, sacked-val n buf (idx + 1), val_zero buf (idx + 1) n)

build_loop-is_set :
    (n : ℕ) (buf : ModularVector) (idx acc j : ℕ)
    → is_set (build_loop n buf idx acc).1 j ≡ is_set buf j
unfolding build_loop
build_loop-is_set zero buf idx acc j = refl
build_loop-is_set (suc n) buf idx acc j =
    build_loop-is_set n (bump buf idx) (idx + 1) (acc / 2 + bit (is_set buf idx) * 2 ^ 63) j
    ∙ is_set-bump buf idx j

-- The numbers for which an element stays set.
pub build_sack_bitmap-is_set :
    (buf : ModularVector) (ref j : ℕ) → is_set (build_sack_bitmap buf ref).1 j ≡ is_set buf j
unfolding build_sack_bitmap
build_sack_bitmap-is_set buf ref j =
    build_loop-is_set 63 buf (ref + 1) (bit (is_set buf ref) * 2 ^ 63) j

-- The source reads in the bitmap that a sink builds from `ref` on exactly the numbers, in order, of
-- the 64 from `ref` on whose element is set at the sink, and its loop ends within 64 rounds.
pub sacked-build_sack_bitmap :
    (buf : ModularVector) (ref : ℕ)
    → sacked 64 (build_sack_bitmap buf ref).0 ref ≡ some (marked buf ref 64)
unfolding build_sack_bitmap
sacked-build_sack_bitmap buf ref =
    ap (λ (t : ℕ). sacked 64 t ref)
      (build_loop-val 63 buf (ref + 1) (bit (is_set buf ref)) 2 refl ∙ val_first buf ref 63)
    ∙ sacked-val 64 buf ref
