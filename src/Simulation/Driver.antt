-- ===== src/Simulation/Driver.antt =====
-- `SimulatedFeedDriver` of src/l2_pipeline/simulation/driver.py, and `assert_converged` of
-- src/l2_pipeline/simulation/convergence.py. The callback `on_apply` only observes, and is left out.
pub mod Recovery
pub mod Truth
pub mod Converged
pub mod Fresh
use l2_orderbook_pipeline.Common.{
  ℕ, zero, suc, ◌+◌, List, [], ◌∷◌, ◌++◌, Option, none, some, Bool, true, false, ◌||◌,
  if◌then◌else◌,
}
use l2_orderbook_pipeline.Book.Types.{
  DiffEvent, SnapshotEvent, ApplyStatus, applied, buffered, gap_detected, snapshot_stale,
}
use l2_orderbook_pipeline.Book.Engine.{BookEngine, is_live, apply_event, load_snapshot}
use l2_orderbook_pipeline.Simulation.Market.{StepDraw}
use l2_orderbook_pipeline.Simulation.Faults.{
  FaultInjector, FaultRolls, SnapshotDraw, poll, request_snapshot,
}

pub record RecoveryRecord : Type 0 where
  pub gap_step : ℕ
  pub recovered_step : ℕ

pub record SimulatedFeedDriver : Type 0 where
  pub injector : FaultInjector
  pub engine : BookEngine
  pub snapshot_retry_limit : ℕ
  pub recoveries : List RecoveryRecord
  pub stale_snapshot_retries : ℕ
  pub step : ℕ

-- A call returns, raises `SnapshotRetryLimitExceeded`, or raises what a part that it calls raises.
pub data Outcome : Type 0 where
  finished : SimulatedFeedDriver → Outcome
  retry_limit_exceeded : SimulatedFeedDriver → Outcome
  failed : Outcome

abbrev pub recovered : SimulatedFeedDriver → Option ℕ → SimulatedFeedDriver
recovered s none = s
recovered s (some gap_step) = record s {
  recoveries = s.recoveries ++ record { gap_step = gap_step; recovered_step = s.step } ∷ [];
}

-- One round of the loop of `_sync`, which goes on with `retry` unless the snapshot is applied.
unfoldable pub sync_loaded :
    SimulatedFeedDriver
    → Option ℕ
    → Option (BookEngine × ApplyStatus)
    → (SimulatedFeedDriver → Outcome)
    → Outcome
sync_loaded s gap none retry = failed
sync_loaded s gap (some (b, applied)) retry = finished (recovered (record s { engine = b }) gap)
sync_loaded s gap (some (b, buffered)) retry =
    retry (record s { engine = b; stale_snapshot_retries = s.stale_snapshot_retries + 1 })
sync_loaded s gap (some (b, gap_detected)) retry =
    retry (record s { engine = b; stale_snapshot_retries = s.stale_snapshot_retries + 1 })
sync_loaded s gap (some (b, snapshot_stale)) retry =
    retry (record s { engine = b; stale_snapshot_retries = s.stale_snapshot_retries + 1 })

unfoldable pub sync_with :
    SimulatedFeedDriver
    → Option ℕ
    → Option (FaultInjector × SnapshotEvent)
    → (SimulatedFeedDriver → Outcome)
    → Outcome
unfolding sync_loaded
sync_with s gap none retry = failed
sync_with s gap (some (i, snap)) retry =
    sync_loaded (record s { injector = i }) gap (load_snapshot s.engine snap) retry

-- `_sync` with so many rounds left; `draws i` are the draws of the i-th round from here.
unfoldable pub sync_rounds : ℕ → (ℕ → SnapshotDraw) → Option ℕ → SimulatedFeedDriver → Outcome
unfolding sync_with
sync_rounds zero draws gap s = retry_limit_exceeded s
sync_rounds (suc n) draws gap s =
    sync_with s gap (request_snapshot s.injector (draws 0)) (sync_rounds n (λ i. draws (suc i)) gap)

abbrev pub sync : (ℕ → SnapshotDraw) → Option ℕ → SimulatedFeedDriver → Outcome
sync draws gap s = sync_rounds s.snapshot_retry_limit draws gap s

-- `__init__`
unfoldable pub init : FaultInjector → BookEngine → ℕ → (ℕ → SnapshotDraw) → Outcome
init injector engine limit draws =
    let s : SimulatedFeedDriver = record {
      injector = injector;
      engine = engine;
      snapshot_retry_limit = limit;
      recoveries = [];
      stale_snapshot_retries = 0;
      step = 0;
    } in
    if is_live engine.state then finished s else sync draws none s

abbrev pub is_gap : ApplyStatus → Bool
is_gap gap_detected = true
is_gap applied = false
is_gap buffered = false
is_gap snapshot_stale = false

-- The loop over what `poll` gives: the engine, and whether there was a gap.
unfoldable pub apply_all : BookEngine → List DiffEvent → BookEngine × Bool
apply_all b [] = (b, false)
apply_all b (e ∷ es) =
    let (c, status) = apply_event b e in let (d, gap) = apply_all c es in (d, is_gap status || gap)

unfoldable pub after_poll :
    SimulatedFeedDriver → (ℕ → SnapshotDraw) → Option (FaultInjector × List DiffEvent) → Outcome
after_poll s draws none = failed
after_poll s draws (some (i, es)) =
    let (b, gap) = apply_all s.engine es in
    let t = record s { injector = i; engine = b; step = s.step + 1 } in
    if gap then sync draws (some s.step) t else finished t

-- What a step draws, in the market, the injector and the retries of its `_sync`.
pub record Draws : Type 0 where
  pub in_market : StepDraw
  pub in_faults : FaultRolls
  pub in_sync : ℕ → SnapshotDraw

unfoldable pub run_step : SimulatedFeedDriver → Draws → Outcome
unfolding after_poll
run_step s d = after_poll s d.in_sync (poll s.injector d.in_market d.in_faults)

abbrev pub and_then : Outcome → (SimulatedFeedDriver → Outcome) → Outcome
and_then (finished s) k = k s
and_then (retry_limit_exceeded s) k = retry_limit_exceeded s
and_then failed k = failed

-- `run(steps)`; `draws n` are the draws of step `n`.
unfoldable pub run : (ℕ → Draws) → ℕ → SimulatedFeedDriver → Outcome
run draws zero s = finished s
run draws (suc n) s = and_then (run_step s (draws s.step)) (run draws n)
