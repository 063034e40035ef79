-- ===== src/Eqds/Acks.antt =====
-- What `EqdsSrc::processAck` of sim/eqds.cpp reads in the bitmap of an acknowledgement.
use frontier_htsim.Prelude.{
  ℕ, zero, suc, ◌+◌, ◌/◌, ◌%◌, List, [], ◌∷◌, Option, none, some, ◌==◌, if◌then◌else◌,
}

abbrev pub with_number : ℕ → Option (List ℕ) → Option (List ℕ)
with_number n none = none
with_number n (some ns) = some (n ∷ ns)

-- The numbers for which `handleAckno` is called, in order; `none` means that the fuel ran out.
unfoldable pub sacked : ℕ → ℕ → ℕ → Option (List ℕ)
sacked zero bitmap ackno = if bitmap == 0 then some [] else none
sacked (suc fuel) bitmap ackno =
    let rest = sacked fuel (bitmap / 2) (ackno + 1) in
    if bitmap == 0 then some [] else (if bitmap % 2 == 1 then with_number ackno rest else rest)
