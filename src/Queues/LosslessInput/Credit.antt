-- ===== src/Queues/LosslessInput/Credit.antt =====
-- What an ingress queue counts, against the bytes that are owed to it by the switch, and when it
-- pauses its sender.
use frontier_htsim.Prelude.{
  ℕ, ◌+◌, ◌≤◌, ◌<◌, ◌≡◌, true, false, [], ◌∷◌, arith, if◌then◌else◌, Ensures,
}
use frontier_htsim.Network.{Packet}
use frontier_htsim.Queues.Effects.{signals}
use frontier_htsim.Queues.LosslessInput.{LosslessInputQueue, count_in, completed_service}

-- The ingress queue counts `size` bytes that are owed, and pauses the sender above the high threshold
-- and only down to the low one.
pub record IsCredit (q : LosslessInputQueue) (owed : ℕ) : Type 0 where
  pub counted : q.queuesize ≡ owed
  pub thresholds : q.low_threshold < q.high_threshold
  pub full : q.pausing ≡ false → q.queuesize ≤ q.high_threshold
  pub kept_full : q.pausing ≡ true → q.low_threshold ≤ q.queuesize

-- A packet of some size comes in to an ingress queue that counts what is owed, with its low
-- threshold below the high one, and that is not over the high one unless it notes its sender as
-- paused, nor under the low one if it does. No assertion fails, the same holds with the packet owed
-- too, and the sender is told to pause exactly when the queue starts to note so.
pub count_in-IsCredit :
    (q : LosslessInputQueue) (owed size : ℕ)
    → 0 < size
    → IsCredit q owed
    → Ensures
        (λ q' es.
          IsCredit q' (owed + size)
          × (es ≡ (if q'.pausing then (if q.pausing then [] else signals 1000 ∷ []) else [])))
        (count_in q size)
unfolding count_in
count_in-IsCredit q owed size h v = ground arith

-- A packet that an ingress queue still counts leaves the switch, with the same thresholds kept: no
-- assertion fails, the same holds with the packet owed no more, and the sender is told to go on
-- exactly when the queue stops noting that it is paused.
pub completed_service-IsCredit :
    (q : LosslessInputQueue) (owed : ℕ) (p : Packet)
    → IsCredit q (p.size + owed)
    → Ensures
        (λ q' es.
          IsCredit q' owed
          × (es ≡ (if q.pausing then (if q'.pausing then [] else signals 0 ∷ []) else [])))
        (completed_service q p)
unfolding completed_service
completed_service-IsCredit q owed p v = ground arith
