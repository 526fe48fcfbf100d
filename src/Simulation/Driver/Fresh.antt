-- ===== src/Simulation/Driver/Fresh.antt =====
-- A retry of `_sync` that is served the newest snapshot.
use l2_orderbook_pipeline.Common.{
  ℕ, suc, List, ◌∷◌, Option, none, some, ◌≡◌, refl, ap, ◌∙◌, arith, false, ◌&&◌, ltb, length,
  get_elem?, All,
}
use l2_orderbook_pipeline.Common.Int.{◌≤ℤ◌}
use l2_orderbook_pipeline.Book.Types.{DiffEvent, SnapshotEvent}
use l2_orderbook_pipeline.Book.Engine.{BookEngine, adopt, is_live}
use l2_orderbook_pipeline.Book.Outcomes.{newest_synchronises}
use l2_orderbook_pipeline.Simulation.Faults.{
  FaultInjector, SnapshotDraw, request_snapshot, second, serve,
}
use l2_orderbook_pipeline.Simulation.Driver.{
  SimulatedFeedDriver, finished, recovered, sync_loaded, sync_with, sync_rounds,
}
use l2_orderbook_pipeline.Simulation.Driver.Recovery.{IsLive}

request_newest :
    (i : FaultInjector) (d : SnapshotDraw) (t : ℕ) (snap : SnapshotEvent)
    (older : List (ℕ × SnapshotEvent))
    → i.snapshot_history ≡ (t, snap) ∷ older
    → d.delayed ≡ false
    → request_snapshot i d ≡ some (i, snap)
unfolding request_snapshot
request_newest i d t snap older h n =
    let off : (ltb 1 (length i.snapshot_history) && d.delayed) ≡ false = ground arith in
    rw off (ap (λ hs. serve i (second (get_elem? hs 0))) h)

-- The driver when the snapshot is applied.
abbrev caught_up : SimulatedFeedDriver → SnapshotEvent → SimulatedFeedDriver
caught_up s snap = record s {
  engine = record (adopt s.engine snap) { last_applied_id = some snap.last_update_id };
}

recovered-engine : (s : SimulatedFeedDriver) (gap : Option ℕ) → (recovered s gap).engine ≡ s.engine
recovered-engine s none = refl
recovered-engine s (some n) = refl

-- A round of the retries that is not delayed ends them, if the engine is not live and everything that it
-- has buffered is contained in the newest snapshot: the driver goes on with a live engine that
-- stands at that snapshot's id.
pub sync_ends :
    (n : ℕ) (draws : ℕ → SnapshotDraw) (gap : Option ℕ) (s : SimulatedFeedDriver) (t : ℕ)
    (snap : SnapshotEvent) (older : List (ℕ × SnapshotEvent))
    → s.injector.snapshot_history ≡ (t, snap) ∷ older
    → (draws 0).delayed ≡ false
    → is_live s.engine.state ≡ false
    → All (λ (e : DiffEvent). e.final_id ≤ℤ snap.last_update_id) s.engine.buffer
    → (r : SimulatedFeedDriver) × (sync_rounds (suc n) draws gap s ≡ finished r)
      × IsLive r
      × (r.engine.last_applied_id ≡ some snap.last_update_id)
unfolding sync_rounds sync_with sync_loaded
sync_ends n draws gap s t snap older h d l b =
    let retry = sync_rounds n (λ i. draws (suc i)) gap in
    let served = request_newest s.injector (draws 0) t snap older h d in
    let e = recovered-engine (caught_up s snap) gap in
    (
      recovered (caught_up s snap) gap,
      ap (λ o. sync_with s gap o retry) served
          ∙ ap (λ o. sync_loaded s gap o retry) (newest_synchronises s.engine snap l b),
      ap (λ (c : BookEngine). is_live c.state) e,
      ap (λ (c : BookEngine). c.last_applied_id) e,
    )
