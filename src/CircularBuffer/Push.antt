-- ===== src/CircularBuffer/Push.antt =====
-- `CircularBuffer::push` appends, growing or not.
use frontier_htsim.Prelude.{
  ℕ, suc, ◌+◌, ◌%◌, ◌<◌, ◌≡◌, inl, inr, refl, sym, ap, ap₂, ◌∙◌, arith, length, set, length-set,
  ◌==◌, Bool-cases, ==_iff,
}
use native.Mathlib.Nat.{mod-add-mod}
use frontier_htsim.Fifo
use frontier_htsim.CircularBuffer.{CircularBuffer, grow, store, push}
use frontier_htsim.CircularBuffer.Window.{
  IsValid, window, contents, window-set, window-grow, grow_lem,
}

module _ {ℓ} {A : Type ℓ} (blank : A) where
  store_lem :
      (b : CircularBuffer A) (x : A) (n : ℕ)
      → length b.queue ≡ b.size
      → b.next_pop < b.size
      → n + 1 < b.size
      → b.count ≡ n + 1
      → b.next_push ≡ (b.next_pop + n) % b.size
      → IsValid (store blank b x)
        × (contents blank (store blank b x)
            ≡ Fifo.push (window blank b.queue b.next_pop b.size n) x)
  unfolding store
  store_lem b x n hl hp hn hc he = (
    record {
      sized = length-set b.queue b.next_push x ∙ hl;
      room = omega arith;
      pop_in = hp;
      push_at =
          ap (λ k. (k + 1) % b.size) he
          ∙ mod-add-mod (b.next_pop + n) b.size 1
          ∙ ap (λ k. k % b.size) (omega arith);
    },
    ap₂ (λ k c. window blank (set b.queue k x) b.next_pop b.size c) {u = b.count} {v = suc n} he
          (omega arith)
        ∙ window-set blank b.queue b.next_pop b.size n x hl hp (omega arith),
  )

  store-grow :
      (b : CircularBuffer A) (x : A) (n : ℕ)
      → length b.queue ≡ b.size
      → b.next_pop < b.size
      → n + 1 ≡ b.size
      → b.count ≡ n + 1
      → b.next_push ≡ (b.next_pop + n) % b.size
      → IsValid (store blank (grow blank b) x)
        × (contents blank (store blank (grow blank b) x)
            ≡ Fifo.push (window blank b.queue b.next_pop b.size n) x)
  store-grow b x n hl hp hn hc he =
      let (hl', hs', hp', he', hc') = grow_lem blank b hl hp n hn he in
      let (v, e) =
        store_lem (grow blank b) x n (hl' ∙ sym hs') (omega arith) (omega arith) (omega arith)
          (he' ∙ ap₂ (λ k s. (k + n) % s) (sym hp') (sym hs')) in
      (v, e ∙ ap (λ xs. Fifo.push xs x) (window-grow blank b hl hp n hn he))

  -- `push` keeps the invariant, and puts the item behind the contents, growing or not.
  pub push_lem :
      (b : CircularBuffer A) (x : A)
      → IsValid b
      → IsValid (push blank b x)
        × (contents blank (push blank b x) ≡ Fifo.push (contents blank b) x)
  unfolding push
  push_lem b x v = elim (Bool-cases (b.count + 1 == b.size)) [
    | inl e ↦ rw e (
        store-grow (record b { count = b.count + 1 }) x b.count v.sized v.pop_in ((==_iff _ _).0 e)
          refl v.push_at)
    | inr e ↦ rw e (
        store_lem (record b { count = b.count + 1 }) x b.count v.sized v.pop_in (ground arith) refl
          v.push_at)
  ]
