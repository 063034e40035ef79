-- ===== src/Queues/Effects.antt =====
-- What a queue does to other objects while it handles a packet or an event.
use frontier_htsim.Prelude.{ℕ, ◌+◌, ◌≡◌, refl, ap, List, [], ◌∷◌, ◌++◌, arith}
use frontier_htsim.Network.{Packet}

-- `pends t` is `sourceIsPendingRel(*this, t)`, `signals t` a PAUSE frame of sleep time `t` for the
-- previous hop, `relays i t s` one of sender `s` for the host's sender `i`, `completes v p` the
-- virtual queue `v`'s `completedService(p)`, and `enters_switch p` the switch's `receivePacket(p)`.
pub data Effect : Type 0 where
  pends : ℕ → Effect
  sends_on : Packet → Effect
  sends_on2 : Packet → Effect
  frees : Packet → Effect
  signals : ℕ → Effect
  relays : ℕ → ℕ → ℕ → Effect
  completes : ℕ → Packet → Effect
  enters_switch : Packet → Effect

-- How many events of its own the queue has scheduled.
abbrev pub scheduled : List Effect → ℕ
scheduled [] = 0
scheduled (pends t ∷ es) = 1 + scheduled es
scheduled (sends_on p ∷ es) = scheduled es
scheduled (sends_on2 p ∷ es) = scheduled es
scheduled (frees p ∷ es) = scheduled es
scheduled (signals t ∷ es) = scheduled es
scheduled (relays i t s ∷ es) = scheduled es
scheduled (completes v p ∷ es) = scheduled es
scheduled (enters_switch p ∷ es) = scheduled es

-- The packets that it has sent to their next hop, oldest first.
abbrev pub departed : List Effect → List Packet
departed [] = []
departed (pends t ∷ es) = departed es
departed (sends_on p ∷ es) = p ∷ departed es
departed (sends_on2 p ∷ es) = p ∷ departed es
departed (frees p ∷ es) = departed es
departed (signals t ∷ es) = departed es
departed (relays i t s ∷ es) = departed es
departed (completes v p ∷ es) = departed es
departed (enters_switch p ∷ es) = departed es

-- The bytes that a list of packets takes.
abbrev pub bytes : List Packet → ℕ
bytes [] = 0
bytes (p ∷ ps) = p.size + bytes ps

pub bytes-append : (ps qs : List Packet) → bytes (ps ++ qs) ≡ bytes ps + bytes qs
bytes-append [] qs = omega arith
bytes-append (p ∷ ps) qs = omega (arith, bytes-append ps qs)

pub departed-append : (es fs : List Effect) → departed (es ++ fs) ≡ departed es ++ departed fs
departed-append [] fs = refl
departed-append (pends t ∷ es) fs = departed-append es fs
departed-append (sends_on p ∷ es) fs = ap (◌∷◌ p) (departed-append es fs)
departed-append (sends_on2 p ∷ es) fs = ap (◌∷◌ p) (departed-append es fs)
departed-append (frees p ∷ es) fs = departed-append es fs
departed-append (signals t ∷ es) fs = departed-append es fs
departed-append (relays i t s ∷ es) fs = departed-append es fs
departed-append (completes v p ∷ es) fs = departed-append es fs
departed-append (enters_switch p ∷ es) fs = departed-append es fs

pub scheduled-append : (es fs : List Effect) → scheduled (es ++ fs) ≡ scheduled es + scheduled fs
scheduled-append [] fs = omega arith
scheduled-append (pends t ∷ es) fs = omega (arith, scheduled-append es fs)
scheduled-append (sends_on p ∷ es) fs = scheduled-append es fs
scheduled-append (sends_on2 p ∷ es) fs = scheduled-append es fs
scheduled-append (frees p ∷ es) fs = scheduled-append es fs
scheduled-append (signals t ∷ es) fs = scheduled-append es fs
scheduled-append (relays i t s ∷ es) fs = scheduled-append es fs
scheduled-append (completes v p ∷ es) fs = scheduled-append es fs
scheduled-append (enters_switch p ∷ es) fs = scheduled-append es fs
