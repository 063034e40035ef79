-- ===== src/Eqds/Pulls.antt =====
-- The part of an `EqdsSink` of sim/eqds.h that its pull pacer works with.
use frontier_htsim.Prelude.{
  ℕ, ◌+◌, ◌-◌, Bool, true, false, not, ◌&&◌, ltb, ◌==◌, if◌then◌else◌, Outcome, ◌>>=◌, ◌>>◌, emit,
  return,
}

-- `_retx_backlog`, `_latest_pull`, `_highest_pull_target`, `_in_pull` and `_in_slow_pull`
pub record PullState : Type 0 where
  pub retx_backlog : ℕ
  pub latest_pull : ℕ
  pub highest_pull_target : ℕ
  pub in_pull : Bool
  pub in_slow_pull : Bool

unfoldable pub init : PullState
init = record {
  retx_backlog = 0;
  latest_pull = 0;
  highest_pull_target = 0;
  in_pull = false;
  in_slow_pull = false;
}

-- `requestPull(this)` and `requestRetransmit(this)`
pub data Request : Type 0 where
  requests_pull requests_retransmit : Request

-- A sink that is in no pull queue enters one.
unfoldable pub enter_pull : PullState → Outcome Request PullState
enter_pull s = do emit requests_pull; return (record s { in_pull = true })

unfoldable pub handle_pull_target : PullState → ℕ → Outcome Request PullState
unfolding enter_pull
handle_pull_target s pt =
    let raised = record s { highest_pull_target = pt } in
    if ltb s.highest_pull_target pt
    then (if s.retx_backlog == 0 && not s.in_pull then enter_pull raised else return raised)
    else return s

-- What `processTrimmed` does after its negative acknowledgement, with what it counts before that.
unfoldable pub retransmit : PullState → ℕ → Outcome Request PullState
retransmit s quanta =
    let more = record s { retx_backlog = s.retx_backlog + quanta } in
    if ltb 0 s.retx_backlog then return more else (do emit requests_retransmit; return more)

-- What `processRts` does at first.
unfoldable pub rts : PullState → ℕ → ℕ → Outcome Request PullState
unfolding handle_pull_target enter_pull
rts s pt backlog = do
  s' ← handle_pull_target s pt
  let more = record s' { retx_backlog = s'.retx_backlog + backlog }
  if ltb 0 s'.retx_backlog then return more else (do
    s'' ← if not more.in_pull then enter_pull more else return more
    emit requests_retransmit
    return s'')

-- `pull` without its packet.
unfoldable pub pull : PullState → ℕ → PullState
pull s credit_per_pull = record s {
  retx_backlog = s.retx_backlog - credit_per_pull;
  latest_pull = s.latest_pull + credit_per_pull;
}

unfoldable pub backlog : PullState → ℕ
backlog s = s.highest_pull_target - s.latest_pull

unfoldable pub slow_credit : PullState → ℕ
slow_credit s = s.latest_pull - s.highest_pull_target

unfoldable pub remove_from_pull_queue : PullState → PullState
remove_from_pull_queue s = record s { in_pull = false }

unfoldable pub add_to_slow_pull_queue : PullState → PullState
add_to_slow_pull_queue s = record s { in_pull = false; in_slow_pull = true }

unfoldable pub remove_from_slow_pull_queue : PullState → PullState
remove_from_slow_pull_queue s = record s { in_pull = false; in_slow_pull = false }
