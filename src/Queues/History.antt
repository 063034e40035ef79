-- ===== src/Queues/History.antt =====
-- First in, first out, over a whole run: what a queue sent and still holds against what arrived.
use mathlib.Core.List.{Sublist, sublist-append_left}
use mathlib.Core.List.Sublist
use frontier_htsim.Prelude.{
  ℕ, ◌+◌, ◌≡◌, ◌⊎◌, inl, inr, sym, subst, ap, ap₂, ◌∙◌, List, [], ◌∷◌, ◌++◌, arith, length,
  length-append, append_assoc, append-nil,
}
use frontier_htsim.Fifo
use frontier_htsim.Network.{Packet}
use frontier_htsim.Queues.Effects.{Effect, departed, departed-append}

-- What an arrival of `p` does to the packets that are held, and to the count of drops: it is put
-- behind them, or dropped. Nothing is sent.
abbrev pub Accepts : Packet → List Packet → ℕ → List Packet → ℕ → List Effect → Type 0
Accepts p held drops held' drops' es =
    (departed es ≡ [])
    × ((held' ≡ Fifo.push held p) × (drops' ≡ drops) ⊎ (held' ≡ held) × (drops' ≡ drops + 1))

-- What a service does: the oldest packet is sent.
abbrev pub Serves : List Packet → ℕ → List Packet → ℕ → List Effect → Type 0
Serves held drops held' drops' es =
    (x : Packet) × (held ≡ x ∷ held') × (departed es ≡ x ∷ []) × (drops' ≡ drops)

-- Every arrival was sent, is held or was dropped, and what was not dropped keeps its order.
pub record IsHistory (held : List Packet) (drops : ℕ) (log : List Effect) (ps : List Packet)
    : Type 0 where
  pub accounted : length (departed log) + length held + drops ≡ length ps
  pub in_order : Sublist (departed log ++ held) ps

pub IsHistory-arrival :
    (p : Packet) (held held' : List Packet) (drops drops' : ℕ) (log es : List Effect)
    (ps : List Packet)
    → IsHistory held drops log ps
    → Accepts p held drops held' drops' es
    → IsHistory held' drops' (log ++ es) (ps ++ p ∷ [])
IsHistory-arrival p held held' drops drops' log es ps h (sent, inl (e, d)) = record {
  accounted = omega (
    arith,
    h.accounted,
    length-append ps (p ∷ []),
    ap length e ∙ length-append held (p ∷ []),
    ap length same,
  );
  in_order =
      subst (λ xs. Sublist xs (ps ++ p ∷ []))
        (append_assoc (departed log) held (p ∷ []) ∙ ap₂ ◌++◌ (sym same) (sym e))
        (Sublist.append h.in_order (Sublist.refl (p ∷ [])));
}
  where
    same : departed (log ++ es) ≡ departed log
    same = departed-append log es ∙ ap (◌++◌ (departed log)) sent ∙ append-nil (departed log)
IsHistory-arrival p held held' drops drops' log es ps h (sent, inr (e, d)) = record {
  accounted = omega (arith, h.accounted, length-append ps (p ∷ []), ap length e, ap length same);
  in_order =
      subst (λ xs. Sublist xs (ps ++ p ∷ [])) (ap₂ ◌++◌ (sym same) (sym e))
        (Sublist.trans h.in_order (sublist-append_left ps (p ∷ [])));
}
  where
    same : departed (log ++ es) ≡ departed log
    same = departed-append log es ∙ ap (◌++◌ (departed log)) sent ∙ append-nil (departed log)

pub IsHistory-service :
    (held held' : List Packet) (drops drops' : ℕ) (log es : List Effect) (ps : List Packet)
    → IsHistory held drops log ps
    → Serves held drops held' drops' es
    → IsHistory held' drops' (log ++ es) ps
IsHistory-service held held' drops drops' log es ps h (x, e, sent, d) = record {
  accounted =
      omega
        (arith, h.accounted, ap length e, ap length more ∙ length-append (departed log) (x ∷ []));
  in_order =
      subst (λ xs. Sublist xs ps)
        (ap (◌++◌ (departed log)) e
          ∙ sym (append_assoc (departed log) (x ∷ []) held')
          ∙ ap (λ xs. xs ++ held') (sym more))
        h.in_order;
}
  where
    more : departed (log ++ es) ≡ departed log ++ x ∷ []
    more = departed-append log es ∙ ap (◌++◌ (departed log)) sent

-- What neither adds a packet nor sends one leaves the history as it was.
pub IsHistory-idle :
    (held held' : List Packet) (drops : ℕ) (log es : List Effect) (ps : List Packet)
    → IsHistory held drops log ps
    → departed es ≡ []
    → held' ≡ held
    → IsHistory held' drops (log ++ es) ps
IsHistory-idle held held' drops log es ps h sent e = record {
  accounted = omega (arith, h.accounted, ap length e, ap length same);
  in_order = subst (λ xs. Sublist xs ps) (ap₂ ◌++◌ (sym same) (sym e)) h.in_order;
}
  where
    same : departed (log ++ es) ≡ departed log
    same = departed-append log es ∙ ap (◌++◌ (departed log)) sent ∙ append-nil (departed log)
