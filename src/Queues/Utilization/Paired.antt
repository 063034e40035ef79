-- ===== src/Queues/Utilization/Paired.antt =====
-- That the two buffers of busy times of `BaseQueue` are pushed and popped together.
use frontier_htsim.Prelude.{
  ℕ, ◌≡◌, refl, ap, ◌∙◌, List, [], ◌∷◌, some, arith, length, length-append, ltb, add64, sub64,
  Bool-cases, inl, inr,
}
use frontier_htsim.Fifo
use frontier_htsim.Queues.Utilization.{BaseQueue, keep_evicted, evict, log_packet_send}
use frontier_htsim.Queues.Utilization.Window.{evict_old, evict_new}

-- The two buffers of busy times are as long as one another.
abbrev pub IsPaired : BaseQueue → Type 0
IsPaired b = length b.busystart ≡ length b.busyend

evict_total :
    (limit busy : ℕ) (starts ends : List ℕ)
    → length starts ≡ length ends
    → (ks ke : List ℕ) × (n : ℕ) × (evict limit starts ends busy ≡ some (ks, ke, n))
      × (length ks ≡ length ke)
unfolding evict
evict_total limit busy starts [] h = (starts, [], busy, refl, h)
evict_total limit busy [] (y ∷ ends) h = absurd (omega arith)
evict_total limit busy (x ∷ starts) (y ∷ ends) h = elim (Bool-cases (ltb y limit)) [
  | inl old ↦
      let (ks, ke, n, p, q) =
        evict_total limit (sub64 busy (sub64 y x)) starts ends (omega arith) in
      (ks, ke, n, evict_old limit x y busy starts ends old ∙ p, q)
  | inr new ↦ (x ∷ starts, y ∷ ends, busy, evict_new limit x y busy starts ends new, h)
]

-- Then `log_packet_send` never pops an empty buffer.
pub log_packet_send_total :
    (b : BaseQueue) (now duration : ℕ)
    → IsPaired b
    → (b' : BaseQueue) × (log_packet_send b now duration ≡ some b') × IsPaired b'
unfolding log_packet_send
log_packet_send_total b now duration h =
    let (ks, ke, n, p, q) =
      evict_total (sub64 now b.window) (add64 b.busy duration)
        (Fifo.push b.busystart (sub64 now duration)) (Fifo.push b.busyend now)
        (omega (
          arith,
          length-append b.busystart (sub64 now duration ∷ []),
          length-append b.busyend (now ∷ []),
        )) in
    (record b { busystart = ks; busyend = ke; busy = n }, ap (keep_evicted b) p, q)
