-- ===== src/Queues/Utilization.antt =====
-- `BaseQueue` of sim/queue.h and sim/queue.cpp: service times, and the record of how long the link
-- was busy. Times are 64-bit words. `quantized_queuesize` compares with floating-point fractions of
-- the size and is left out.
pub mod Window
pub mod Paired
use frontier_htsim.Prelude.{
  ℕ, ◌+◌, ◌-◌, ◌*◌, ◌/◌, ◌%◌, ◌^◌, Bool, true, false, List, [], ◌∷◌, Option, none, some, ltb, ◌==◌,
  if◌then◌else◌, add64, sub64, mul64,
}
use frontier_htsim.Fifo
use frontier_htsim.Network.{Packet}

pub record BaseQueue : Type 0 where
  pub ps_per_byte : ℕ
  pub window : ℕ
  pub update_period : ℕ
  pub busystart : List ℕ
  pub busyend : List ℕ
  pub busy : ℕ
  pub last_update_utilization : ℕ
  pub last_utilization : ℕ

unfoldable pub drain_time : BaseQueue → Packet → ℕ
drain_time b pkt = mul64 pkt.size b.ps_per_byte

-- The loop that drops what ended before `limit`; `none` is a failed assertion of `pop`. The list is
-- `_busyend`, whose oldest entry is the loop's `y`.
unfoldable pub evict : ℕ → List ℕ → List ℕ → ℕ → Option (List ℕ × List ℕ × ℕ)
evict limit starts [] busy = some (starts, [], busy)
evict limit starts (y ∷ ends) busy = elim (ltb y limit) [
  | true ↦ (elim (Fifo.pop starts) [
    | none ↦ none
    | some (x, starts') ↦ evict limit starts' ends (sub64 busy (sub64 y x))
  ])
  | false ↦ some (starts, y ∷ ends, busy)
]

abbrev keep_evicted : BaseQueue → Option (List ℕ × List ℕ × ℕ) → Option BaseQueue
keep_evicted b none = none
keep_evicted b (some (starts, ends, busy)) =
    some (record b { busystart = starts; busyend = ends; busy = busy })

unfoldable pub log_packet_send : BaseQueue → ℕ → ℕ → Option BaseQueue
log_packet_send b now duration = keep_evicted b (
    evict (sub64 now b.window) (Fifo.push b.busystart (sub64 now duration))
      (Fifo.push b.busyend now) (add64 b.busy duration))

-- The queue afterwards, and the 16-bit result.
unfoldable pub average_utilization : BaseQueue → ℕ → Option (BaseQueue × ℕ)
average_utilization b now =
    if Fifo.empty b.busystart
    then some (b, 0)
    else (elim (keep_evicted b (evict (sub64 now b.window) b.busystart b.busyend b.busy)) [
      | none ↦ none
      | some b' ↦ some (b', mul64 b'.busy 100 / b'.window % 2 ^ 16)
    ])

unfoldable pub utilization_band : ℕ → ℕ
utilization_band avg =
    if avg == 0 then 0 else (if ltb avg 15 then 1 else (if ltb avg 50 then 2 else 3))

unfoldable pub quantized_utilization : BaseQueue → ℕ → Option (BaseQueue × ℕ)
quantized_utilization b now =
    if ltb b.update_period (sub64 now b.last_update_utilization)
    then (elim (average_utilization (record b { last_update_utilization = now }) now) [
      | none ↦ none
      | some (b', avg) ↦
          some (record b' { last_utilization = utilization_band avg }, utilization_band avg)
    ])
    else some (b, b.last_utilization)
