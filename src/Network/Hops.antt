-- ===== src/Network/Hops.antt =====
-- Where `sendOn` takes a packet, hop by hop, and where `bounce` sends it back to.
use frontier_htsim.Prelude.{
  ℕ, zero, suc, ◌+◌, ◌-◌, ◌%◌, ◌^◌, ◌<◌, ◌≡◌, ◌⊎◌, inl, refl, sym, ap, ◌∙◌, Bool, true, false, List,
  [], ◌∷◌, ◌++◌, some, arith, length, get_elem?, drop, drop_all, get_elem?-drop, if◌then◌else◌,
  Outcome, done, aborted, ◌>>=◌, return, Ensures, Ensures-after, Ensures-mono,
}
use frontier_htsim.Network.{
  Packet, Route, Delivery, receives, receives_from, next_sink, send_on, bounce,
}

-- `n` times `sendOn`.
pub trip : ℕ → Packet → Outcome Delivery Packet
trip zero p = return p
trip (suc n) p = do p' ← send_on p; trip n p'

-- The sinks that receive the packet, in order.
pub visited : List Delivery → List ℕ
visited [] = []
visited (receives s p ∷ ds) = s ∷ visited ds
visited (receives_from s p v ∷ ds) = s ∷ visited ds

visited-append : (ds es : List Delivery) → visited (ds ++ es) ≡ visited ds ++ visited es
unfolding visited
visited-append [] es = refl
visited-append (receives s p ∷ ds) es = ap (◌∷◌ s) (visited-append ds es)
visited-append (receives_from s p v ∷ ds) es = ap (◌∷◌ s) (visited-append ds es)

-- A route, its reverse of the same length, and the one of them that a packet is on.
module _ (r : Route) (rev : List ℕ) (has_rev : r.reverse ≡ some rev)
    (same : length rev ≡ length r.sinks) (small : length r.sinks < 2 ^ 32) where
  abbrev lane : Bool → List ℕ
  lane b = if b then rev else r.sinks

  send_on-lane :
      (b : Bool) (p : Packet) (s : ℕ)
      → p.route ≡ some r
      → p.bounced ≡ b
      → (0 < p.nexthop) ⊎ (b ≡ false)
      → p.nexthop < length r.sinks
      → get_elem? (lane b) p.nexthop ≡ some s
      → let p' = record p { nexthop = p.nexthop + 1 } in send_on p ≡ done p' (receives s p' ∷ [])
  unfolding send_on next_sink
  send_on-lane true p s hr hb hp hl hs = ground arith
  send_on-lane false p s hr hb hp hl hs = ground arith

  send_on_end :
      (b : Bool) (p : Packet)
      → p.route ≡ some r
      → p.bounced ≡ b
      → p.nexthop ≡ length r.sinks
      → send_on p ≡ aborted
  unfolding send_on next_sink
  send_on_end true p hr hb he = ground arith
  send_on_end false p hr hb he = ground arith

  -- From any hop but the reverse route's first, the packet goes to each sink left on its lane, and
  -- it can go no further.
  trip-lane :
      (b : Bool) (n : ℕ) (p : Packet)
      → p.route ≡ some r
      → p.bounced ≡ b
      → (0 < p.nexthop) ⊎ (b ≡ false)
      → p.nexthop + n ≡ length r.sinks
      → length (lane b) ≡ length r.sinks
      → Ensures (λ q es. (visited es ≡ drop p.nexthop (lane b)) × (send_on q ≡ aborted)) (trip n p)
  unfolding trip visited
  trip-lane b zero p hr hb hp hn hl = (
    sym (drop_all (lane b)) ∙ ap (λ k. drop k (lane b)) (omega arith),
    send_on_end b p hr hb (omega arith),
  )
  trip-lane b (suc n) p hr hb hp hn hl =
      let (s, e, d) = get_elem?-drop (lane b) p.nexthop (omega arith) in
      let p' : Packet = record p { nexthop = p.nexthop + 1 } in
      rw (send_on-lane b p s hr hb hp (omega arith) e) (
        Ensures-after _ (receives s p' ∷ []) (trip n p') (
          Ensures-mono _ _ (trip n p')
            (λ q es h. (
              ap (◌∷◌ s) h.0
                  ∙ ap (λ k. s ∷ drop k (lane b)) {y = suc p.nexthop} (omega arith)
                  ∙ sym d,
              h.1,
            ))
            (trip-lane b n p' hr hb (inl (omega arith)) (omega arith) hl)))

-- A packet that is bounced after `k` of its `n` hops, with at least one behind it and one ahead, on
-- a route whose reverse is as long, goes to the last `k` sinks of the reverse route in order, and a
-- further `sendOn` fails its assertion.
pub trip-bounce :
    (r : Route) (rev : List ℕ) (p : Packet) (k : ℕ)
    → p.route ≡ some r
    → r.reverse ≡ some rev
    → length rev ≡ length r.sinks
    → length r.sinks < 2 ^ 32
    → p.bounced ≡ false
    → p.nexthop ≡ k
    → 0 < k
    → k < length r.sinks
    → Ensures
        (λ q es. (visited es ≡ drop (length r.sinks - k) rev) × (send_on q ≡ aborted))
        (bounce p >>= trip k)
unfolding bounce
trip-bounce r rev p k hr hv same small hb hk lo hi =
    rw (hb, hr)
      (Ensures-after _ [] (trip k sent_back) (
        Ensures-mono _ _ (trip k sent_back) (λ q es h. (h.0 ∙ ap (λ i. drop i rev) first_hop, h.1))
          (trip-lane r rev hv same small true k sent_back refl refl (inl (omega (arith, first_hop)))
            (omega (arith, first_hop)) same)))
  where
    sent_back : Packet
    sent_back = record p {
      is_header = true;
      bounced = true;
      route = some r;
      nexthop = (length r.sinks + 2 ^ 32 - p.nexthop) % 2 ^ 32;
    }

    first_hop : (length r.sinks + 2 ^ 32 - p.nexthop) % 2 ^ 32 ≡ length r.sinks - k
    first_hop = omega arith
