-- ===== src/Queues/Pause.antt =====
-- What the queues that obey PAUSE frames share: the states of `LosslessQueue` in
-- sim/queue_lossless.h, and the test for such a frame.
use frontier_htsim.Prelude.{
  ◌≡◌, refl, ap, ◌∙◌, Bool, true, false, List, [], ◌∷◌, ◌++◌, arith, ltb, if◌then◌else◌,
}
use frontier_htsim.Network.{Packet, eth_pause, has_type}
use frontier_htsim.Queues.Effects.{
  Effect, pends, sends_on, sends_on2, frees, signals, relays, completes, enters_switch,
}

pub data SendState : Type 0 where
  paused ready pause_received : SendState

abbrev pub is_ready : SendState → Bool
is_ready paused = false
is_ready ready = true
is_ready pause_received = false

abbrev pub is_paused : SendState → Bool
is_paused paused = true
is_paused ready = false
is_paused pause_received = false

-- `if (_state_send == PAUSE_RECEIVED) _state_send = PAUSED`
abbrev pub settle_pause : SendState → SendState
settle_pause paused = paused
settle_pause ready = ready
settle_pause pause_received = paused

-- `pkt.type()==ETH_PAUSE`
unfoldable pub is_pause : Packet → Bool
unfolding has_type
is_pause p = has_type p.type eth_pause

-- What arrives less the PAUSE frames.
unfoldable pub payload : List Packet → List Packet
payload [] = []
payload (p ∷ ps) = let rest = payload ps in if is_pause p then rest else p ∷ rest

pub payload-push_pause :
    (ps : List Packet) (p : Packet) → is_pause p ≡ true → payload (ps ++ p ∷ []) ≡ payload ps
unfolding payload
payload-push_pause [] p h = rw h
payload-push_pause (x ∷ ps) p h =
    ap (λ rest. if is_pause x then rest else x ∷ rest) (payload-push_pause ps p h)

pub payload-push_data :
    (ps : List Packet) (p : Packet)
    → is_pause p ≡ false
    → payload (ps ++ p ∷ []) ≡ payload ps ++ p ∷ []
unfolding payload
payload-push_data [] p h = rw h
payload-push_data (x ∷ ps) p h =
    ap (λ rest. if is_pause x then rest else x ∷ rest) (payload-push_data ps p h) ∙ apart
  where
    apart :
        (if is_pause x then payload ps ++ p ∷ [] else x ∷ payload ps ++ p ∷ [])
        ≡ (if is_pause x then payload ps else x ∷ payload ps) ++ p ∷ []
    apart = ground arith

-- What the previous hop was told last: to pause, or to go on.
abbrev pub told : Bool → List Effect → Bool
told b [] = b
told b (pends t ∷ es) = told b es
told b (sends_on p ∷ es) = told b es
told b (sends_on2 p ∷ es) = told b es
told b (frees p ∷ es) = told b es
told b (signals t ∷ es) = told (ltb 0 t) es
told b (relays i t s ∷ es) = told b es
told b (completes v p ∷ es) = told b es
told b (enters_switch p ∷ es) = told b es

pub told-append : (b : Bool) (es fs : List Effect) → told b (es ++ fs) ≡ told (told b es) fs
told-append b [] fs = refl
told-append b (pends t ∷ es) fs = told-append b es fs
told-append b (sends_on p ∷ es) fs = told-append b es fs
told-append b (sends_on2 p ∷ es) fs = told-append b es fs
told-append b (frees p ∷ es) fs = told-append b es fs
told-append b (signals t ∷ es) fs = told-append (ltb 0 t) es fs
told-append b (relays i t s ∷ es) fs = told-append b es fs
told-append b (completes v p ∷ es) fs = told-append b es fs
told-append b (enters_switch p ∷ es) fs = told-append b es fs
