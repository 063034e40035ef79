-- ===== src/Queues/Utilization/Window.antt =====
-- What `log_packet_send` keeps of the link's busy times.
use frontier_htsim.Prelude.{
  ℕ, ◌+◌, ◌-◌, ◌^◌, ◌≤◌, ◌<◌, ◌≡◌, refl, ap, ap₂, ◌∙◌, sym, true, false, List, [], ◌∷◌, some, arith,
  ltb, add64, sub64, Bool-cases, if◌then◌else◌, inl, inr,
}
use frontier_htsim.Fifo
use frontier_htsim.Queues.Utilization.{BaseQueue, keep_evicted, evict, log_packet_send}

-- The time that the spans from `starts` to `ends` take together.
abbrev pub spans : List ℕ → List ℕ → ℕ
spans (x ∷ starts) (y ∷ ends) = (y - x) + spans starts ends
spans [] ends = 0
spans starts [] = 0

-- Each span ends after it starts, and they end in order, from `lo` on and by the time `now`.
abbrev pub Timeline : ℕ → ℕ → List ℕ → List ℕ → Type 0
Timeline lo now [] [] = Unit {0}
Timeline lo now (x ∷ starts) (y ∷ ends) =
    (x ≤ y) × (lo ≤ y) × (y ≤ now) × Timeline y now starts ends
Timeline lo now _ _ = ⊥

-- `_busy` is the time of the recorded spans.
pub record IsTimed (lo now : ℕ) (b : BaseQueue) : Type 0 where
  pub in_order : Timeline lo now b.busystart b.busyend
  pub counted : b.busy ≡ spans b.busystart b.busyend

Timeline-mono :
    (lo lo' now now' : ℕ) (starts ends : List ℕ)
    → lo' ≤ lo
    → now ≤ now'
    → Timeline lo now starts ends
    → Timeline lo' now' starts ends
Timeline-mono lo lo' now now' [] [] h k t = tt
Timeline-mono lo lo' now now' [] (y ∷ ends) h k t = t
Timeline-mono lo lo' now now' (x ∷ starts) [] h k t = t
Timeline-mono lo lo' now now' (x ∷ starts) (y ∷ ends) h k t =
    (t.0, omega arith, omega arith, Timeline-mono y y now now' starts ends (omega arith) k t.3)

Timeline-push :
    (lo now x : ℕ) (starts ends : List ℕ)
    → lo ≤ now
    → x ≤ now
    → Timeline lo now starts ends
    → Timeline lo now (Fifo.push starts x) (Fifo.push ends now)
      × (spans (Fifo.push starts x) (Fifo.push ends now) ≡ spans starts ends + (now - x))
Timeline-push lo now x [] [] h k t = ((k, h, omega arith, tt), omega arith)
Timeline-push lo now x [] (y ∷ ends) h k t = absurd t
Timeline-push lo now x (z ∷ starts) [] h k t = absurd t
Timeline-push lo now x (z ∷ starts) (y ∷ ends) h k t =
    let (t', e) = Timeline-push y now x starts ends t.2 k t.3 in ((t.0, t.1, t.2, t'), omega arith)

-- All that ended before `limit` goes, and its time with it.
evict_all :
    (limit lo now busy : ℕ) (starts ends : List ℕ)
    → now < limit
    → Timeline lo now starts ends
    → busy ≡ spans starts ends
    → busy < 2 ^ 64
    → now < 2 ^ 64
    → evict limit starts ends busy ≡ some ([], [], 0)
unfolding evict
evict_all limit lo now busy [] [] h o e s w = rw e
evict_all limit lo now busy [] (y ∷ ends) h o e s w = absurd o
evict_all limit lo now busy (x ∷ starts) [] h o e s w = absurd o
evict_all limit lo now busy (x ∷ starts) (y ∷ ends) h o e s w = ground (
  arith,
  evict_all limit y now (sub64 busy (sub64 y x)) starts ends h o.3 (omega arith) (omega arith),
)

pub evict_old :
    (limit x y busy : ℕ) (starts ends : List ℕ)
    → ltb y limit ≡ true
    → evict limit (x ∷ starts) (y ∷ ends) busy ≡ evict limit starts ends (sub64 busy (sub64 y x))
unfolding evict
evict_old limit x y busy starts ends h = rw (h, evict)

pub evict_new :
    (limit x y busy : ℕ) (starts ends : List ℕ)
    → ltb y limit ≡ false
    → evict limit (x ∷ starts) (y ∷ ends) busy ≡ some (x ∷ starts, y ∷ ends, busy)
unfolding evict
evict_new limit x y busy starts ends h = rw (h, evict)

-- The spans from `starts` to `ends`.
unfoldable pub pairs : List ℕ → List ℕ → List (ℕ × ℕ)
pairs (x ∷ starts) (y ∷ ends) = (x, y) ∷ pairs starts ends
pairs [] ends = []
pairs starts [] = []

-- Those of the spans that did not end before `limit`.
unfoldable pub recent : ℕ → List (ℕ × ℕ) → List (ℕ × ℕ)
recent limit [] = []
recent limit ((x, y) ∷ ps) =
    let rest = recent limit ps in if ltb y limit then rest else (x, y) ∷ rest

recent_all :
    (limit lo now : ℕ) (starts ends : List ℕ)
    → limit ≤ lo
    → Timeline lo now starts ends
    → recent limit (pairs starts ends) ≡ pairs starts ends
unfolding recent pairs
recent_all limit lo now [] [] h o = refl
recent_all limit lo now [] (y ∷ ends) h o = absurd o
recent_all limit lo now (x ∷ starts) [] h o = absurd o
recent_all limit lo now (x ∷ starts) (y ∷ ends) h o =
    ground (arith, recent_all limit y now starts ends (omega arith) o.3)

recent_old :
    (limit x y : ℕ) (starts ends : List ℕ)
    → ltb y limit ≡ true
    → recent limit (pairs (x ∷ starts) (y ∷ ends)) ≡ recent limit (pairs starts ends)
unfolding recent pairs
recent_old limit x y starts ends h = rw h

-- What is left is what ended at `limit` or later, and its time is what is left of the sum.
evict_lem :
    (limit lo now busy : ℕ) (starts ends : List ℕ)
    → limit ≤ now
    → Timeline lo now starts ends
    → busy ≡ spans starts ends
    → busy < 2 ^ 64
    → now < 2 ^ 64
    → (kept_starts kept_ends : List ℕ) × (evict limit starts ends busy
        ≡ some (kept_starts, kept_ends, spans kept_starts kept_ends))
      × Timeline limit now kept_starts kept_ends
      × (pairs kept_starts kept_ends ≡ recent limit (pairs starts ends))
unfolding evict recent pairs
evict_lem limit lo now busy [] [] h o e s w = ([], [], rw e, tt, refl)
evict_lem limit lo now busy [] (y ∷ ends) h o e s w = absurd o
evict_lem limit lo now busy (x ∷ starts) [] h o e s w = absurd o
evict_lem limit lo now busy (x ∷ starts) (y ∷ ends) h o e s w = elim (Bool-cases (ltb y limit)) [
  | inl old ↦
      let (ks, ke, p, t, r) =
        evict_lem limit y now (sub64 busy (sub64 y x)) starts ends h o.3 (omega arith) (omega arith)
          w in
      (
        ks,
        ke,
        evict_old limit x y busy starts ends old ∙ p,
        t,
        r ∙ sym (recent_old limit x y starts ends old),
      )
  | inr new ↦ (
    x ∷ starts,
    y ∷ ends,
    evict_new limit x y busy starts ends new ∙ ap (λ n. some (x ∷ starts, y ∷ ends, n)) e,
    (o.0, ground arith, o.2, o.3),
    sym (
        recent_all limit limit now (x ∷ starts) (y ∷ ends) (omega arith)
          (o.0, ground arith, o.2, o.3)),
  )
]

-- With a duration that is over, no word of the new entry wraps.
log_packet_send_entry :
    (b : BaseQueue) (now duration : ℕ)
    → duration ≤ now
    → now < 2 ^ 64
    → b.busy + duration < 2 ^ 64
    → log_packet_send b now duration
      ≡ keep_evicted b (
          evict
            (sub64 now b.window)
            (Fifo.push b.busystart (now - duration))
            (Fifo.push b.busyend now)
            (b.busy + duration))
unfolding log_packet_send
log_packet_send_entry b now duration hd hn hb =
    ap₂
      (λ x busy.
        keep_evicted b
          (evict (sub64 now b.window) (Fifo.push b.busystart x) (Fifo.push b.busyend now) busy))
      {x = sub64 now duration} {y = now - duration} {u = add64 b.busy duration}
      {v = b.busy + duration} (omega arith) (omega arith)

-- Let the recorded spans be in order up to now and `_busy` their time, and let nothing overflow 64
-- bits. Once a whole window of time has passed, `log_packet_send` does not fail, it keeps of the
-- spans, with the one of the transmission that it is called for, exactly those that did not end
-- before the window, and `_busy` is their time.
pub log_packet_send_late :
    (b : BaseQueue) (lo past now duration : ℕ)
    → IsTimed lo past b
    → past ≤ now
    → b.window ≤ now
    → lo ≤ now
    → duration ≤ now
    → now < 2 ^ 64
    → b.busy + duration < 2 ^ 64
    → (b' : BaseQueue) × (log_packet_send b now duration ≡ some b')
      × IsTimed (now - b.window) now b'
      × (pairs b'.busystart b'.busyend
          ≡ recent
              (now - b.window)
              (pairs (Fifo.push b.busystart (now - duration)) (Fifo.push b.busyend now)))
log_packet_send_late b lo past now duration t hp hw hl hd hn hb =
    let pushed =
      Timeline-push lo now (now - duration) b.busystart b.busyend hl (omega arith)
        (Timeline-mono lo lo past now b.busystart b.busyend (omega arith) hp t.in_order) in
    let (starts, ends, e, o, r) =
      evict_lem (now - b.window) lo now (b.busy + duration) (Fifo.push b.busystart (now - duration))
        (Fifo.push b.busyend now) (omega arith) pushed.0 (omega arith) hb hn in
    (
      record b { busystart = starts; busyend = ends; busy = spans starts ends },
      log_packet_send_entry b now duration hd hn hb
          ∙ ap
              (λ limit. keep_evicted b (
                evict limit (Fifo.push b.busystart (now - duration)) (Fifo.push b.busyend now)
                  (b.busy + duration)))
              {x = sub64 now b.window} {y = now - b.window} (omega arith)
          ∙ ap (keep_evicted b) e,
      record { in_order = o; counted = refl },
      r,
    )

-- Let the recorded spans be in order up to now and nothing overflow 64 bits. Before a whole window
-- has passed `now - window` wraps round, and `log_packet_send` forgets all spans, the one of the
-- transmission that it is called for included.
pub log_packet_send_early :
    (b : BaseQueue) (lo past now duration : ℕ)
    → IsTimed lo past b
    → past ≤ now
    → now < b.window
    → b.window < 2 ^ 64
    → lo ≤ now
    → duration ≤ now
    → b.busy + duration < 2 ^ 64
    → log_packet_send b now duration ≡ some (record b { busystart = []; busyend = []; busy = 0 })
log_packet_send_early b lo past now duration t hp hw hm hl hd hb =
    let pushed =
      Timeline-push lo now (now - duration) b.busystart b.busyend hl (omega arith)
        (Timeline-mono lo lo past now b.busystart b.busyend (omega arith) hp t.in_order) in
    log_packet_send_entry b now duration hd (omega arith) hb
    ∙ ap (keep_evicted b) (
        evict_all (sub64 now b.window) lo now (b.busy + duration)
          (Fifo.push b.busystart (now - duration)) (Fifo.push b.busyend now) (omega arith) pushed.0
          (omega arith) hb (omega arith))
