-- ===== src/Simulation/Driver/Recovery.antt =====
-- The driver's recovery from gaps: its retries, and the state in which a step leaves the engine.
use l2_orderbook_pipeline.Common.{
  ℕ, zero, suc, List, [], ◌∷◌, Option, none, some, ◌≡◌, refl, arith, true, false, Bool-cases, inl,
  inr,
}
use l2_orderbook_pipeline.Book.Types.{
  DiffEvent, SnapshotEvent, ApplyStatus, applied, buffered, gap_detected, snapshot_stale,
}
use l2_orderbook_pipeline.Book.Engine.{BookEngine, is_live, apply_live, apply_event, load_snapshot}
use l2_orderbook_pipeline.Book.Loading.{load_applied}
use l2_orderbook_pipeline.Simulation.Faults.{FaultInjector, SnapshotDraw, poll, request_snapshot}
use l2_orderbook_pipeline.Simulation.Driver.{
  SimulatedFeedDriver, Outcome, finished, retry_limit_exceeded, failed, sync_loaded, sync_with,
  sync_rounds, is_gap, apply_all, after_poll, Draws, run_step, run, and_then,
}

apply_event-stays :
    (b : BookEngine) (e : DiffEvent)
    → is_live b.state ≡ true
    → is_gap (apply_event b e).1 ≡ false
    → is_live (apply_event b e).0.state ≡ true
unfolding apply_event apply_live
apply_event-stays b e l h = ground arith

apply_all-stays :
    (es : List DiffEvent) (b : BookEngine)
    → is_live b.state ≡ true
    → (apply_all b es).1 ≡ false
    → is_live (apply_all b es).0.state ≡ true
unfolding apply_all
apply_all-stays [] b l h = l
apply_all-stays (e ∷ es) b l h =
    ground (arith, apply_event-stays b e l, apply_all-stays es (apply_event b e).0)

-- What is known of a driver that a call leaves behind.
abbrev pub IfFinished : (SimulatedFeedDriver → Type 0) → Outcome → Type 0
IfFinished P (finished s) = P s
IfFinished P (retry_limit_exceeded s) = Unit
IfFinished P failed = Unit

abbrev pub IfExceeded : (SimulatedFeedDriver → Type 0) → Outcome → Type 0
IfExceeded P (finished s) = Unit
IfExceeded P (retry_limit_exceeded s) = P s
IfExceeded P failed = Unit

abbrev pub IsLive : SimulatedFeedDriver → Type 0
IsLive s = is_live s.engine.state ≡ true

-- A property that a round's end and its retry have, the whole of `_sync` has.
sync_loaded-IsLive :
    (s : SimulatedFeedDriver) (gap : Option ℕ) (snap : SnapshotEvent)
    (o : Option (BookEngine × ApplyStatus)) (retry : SimulatedFeedDriver → Outcome)
    → load_snapshot s.engine snap ≡ o
    → ((t : SimulatedFeedDriver) → IfFinished IsLive (retry t))
    → IfFinished IsLive (sync_loaded s gap o retry)
unfolding sync_loaded
sync_loaded-IsLive s gap snap none retry e h = tt
sync_loaded-IsLive s none snap (some (b, applied)) retry e h = load_applied s.engine b snap e
sync_loaded-IsLive s (some g) snap (some (b, applied)) retry e h = load_applied s.engine b snap e
sync_loaded-IsLive s gap snap (some (b, buffered)) retry e h = h _
sync_loaded-IsLive s gap snap (some (b, gap_detected)) retry e h = h _
sync_loaded-IsLive s gap snap (some (b, snapshot_stale)) retry e h = h _

sync_with-IsLive :
    (s : SimulatedFeedDriver) (gap : Option ℕ) (o : Option (FaultInjector × SnapshotEvent))
    (retry : SimulatedFeedDriver → Outcome)
    → ((t : SimulatedFeedDriver) → IfFinished IsLive (retry t))
    → IfFinished IsLive (sync_with s gap o retry)
unfolding sync_with
sync_with-IsLive s gap none retry h = tt
sync_with-IsLive s gap (some (i, snap)) retry h =
    sync_loaded-IsLive (record s { injector = i }) gap snap (load_snapshot s.engine snap) retry refl
      h

sync_rounds-IsLive :
    (n : ℕ) (draws : ℕ → SnapshotDraw) (gap : Option ℕ) (s : SimulatedFeedDriver)
    → IfFinished IsLive (sync_rounds n draws gap s)
unfolding sync_rounds
sync_rounds-IsLive zero draws gap s = tt
sync_rounds-IsLive (suc n) draws gap s =
    sync_with-IsLive s gap (request_snapshot s.injector (draws 0)) _
      (λ t. sync_rounds-IsLive n (λ i. draws (suc i)) gap t)

after_poll-IsLive :
    (s : SimulatedFeedDriver) (draws : ℕ → SnapshotDraw)
    (o : Option (FaultInjector × List DiffEvent))
    → IsLive s
    → IfFinished IsLive (after_poll s draws o)
unfolding after_poll
after_poll-IsLive s draws none l = tt
after_poll-IsLive s draws (some (i, es)) l = elim (Bool-cases (apply_all s.engine es).1) [
  | inl g ↦ rw g (sync_rounds-IsLive s.snapshot_retry_limit draws (some s.step) _)
  | inr g ↦ rw g (apply_all-stays es s.engine l g)
]

and_then-IsLive :
    (o : Outcome) (k : SimulatedFeedDriver → Outcome)
    → IfFinished IsLive o
    → ((t : SimulatedFeedDriver) → IsLive t → IfFinished IsLive (k t))
    → IfFinished IsLive (and_then o k)
and_then-IsLive (finished s) k h f = f s h
and_then-IsLive (retry_limit_exceeded s) k h f = tt
and_then-IsLive failed k h f = tt

-- Whatever the market does and whatever faults are injected: a run of any number of steps from a
-- live engine, if it raises nothing, leaves the engine live again.
pub run-IsLive :
    (draws : ℕ → Draws) (n : ℕ) (s : SimulatedFeedDriver)
    → IsLive s
    → IfFinished IsLive (run draws n s)
unfolding run run_step
run-IsLive draws zero s l = l
run-IsLive draws (suc n) s l =
    let d = draws s.step in
    and_then-IsLive (run_step s d) (run draws n)
      (after_poll-IsLive s d.in_sync (poll s.injector d.in_market d.in_faults) l)
      (λ t m. run-IsLive draws n t m)
