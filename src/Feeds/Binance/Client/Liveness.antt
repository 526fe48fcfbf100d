-- ===== src/Feeds/Binance/Client/Liveness.antt =====
-- The resync worker of `BinanceFeedClient`, and what `run` owes it.
use Prim.Native.String.{String}
use l2_orderbook_pipeline.Common.{ℕ, List, Option, ◌≡◌, true, false, ◌||◌}
use l2_orderbook_pipeline.Book.Engine.{BookEngine, is_live}
use l2_orderbook_pipeline.Feeds.Json.{Numerals}
use l2_orderbook_pipeline.Feeds.Binance.{raised}
use l2_orderbook_pipeline.Feeds.Binance.Client.Stuck.{Stuck, run-Stuck}
use l2_orderbook_pipeline.Feeds.Connection.{BackoffPolicy}
use l2_orderbook_pipeline.Feeds.Binance.Client.{
  init, BinanceFeedClient, waiting, Receipt, is_reading,
}
use l2_orderbook_pipeline.Feeds.Binance.Client.Run.{Event, fetch_done, step, run}
use l2_orderbook_pipeline.Sinks.Queue.{BoundedRowQueue}
use l2_orderbook_pipeline.Sinks.Rows.{SnapshotRow}
use l2_orderbook_pipeline.Feeds.Binance.Client.Awake.{
  is_fetching, Awake, steps-Awake, raised_worker-Stuck,
}

module _ (py : Numerals) (symbol : String) (retries failures : ℕ) (engine : BookEngine)
    (policy : BackoffPolicy) where
  -- A client as `run` leaves it after any events.
  abbrev pub reached : Option (BoundedRowQueue SnapshotRow) → List Event → BinanceFeedClient
  reached queue es = run py (init symbol retries failures engine policy queue) es

  init-Awake :
      (q : Option (BoundedRowQueue SnapshotRow))
      → Awake (init symbol retries failures engine policy q)
  unfolding init
  init-Awake q = record { fetch_lost = λ h. cc; summoned = λ p l w. cc }

  -- No wake-up is lost: after any events, while the reader runs, the engine is out of sync and the resync
  -- worker is at its wait, the worker's flag is set, or the worker closed the websocket, which ends the reader.
  pub no_wake_up_lost :
      (q : Option (BoundedRowQueue SnapshotRow)) (es : List Event)
      → let c = reached q es in
        is_reading c.phase ≡ true
        → is_live c.engine.state ≡ false
        → c.worker ≡ waiting
        → (c.resync_needed || c.closed) ≡ true
  no_wake_up_lost q es = (steps-Awake py es _ (init-Awake q)).summoned

  raised-Stuck :
      (c : BinanceFeedClient) (r : Receipt)
      → is_fetching c.worker ≡ true
      → is_live c.engine.state ≡ false
      → Stuck c.row_queue (step py c (fetch_done r raised))
  unfolding step
  raised-Stuck c r h l = raised_worker-Stuck c c.worker r h l

  -- Whenever a fetch of a running client ends in an exception that `_fetch_snapshot` does not turn into
  -- `HttpRetryLimitExceeded`, the feed falls silent: whatever happens later, the engine is not live and the
  -- row queue stays as it was.
  pub raised_fetch_silences :
      (q : Option (BoundedRowQueue SnapshotRow)) (es later : List Event) (r : Receipt)
      → let c = reached q es in
        is_fetching c.worker ≡ true
        → let d = run py (step py c (fetch_done r raised)) later in
          (is_live d.engine.state ≡ false) × (d.row_queue ≡ c.row_queue)
  raised_fetch_silences q es later r h =
      let c = reached q es in
      let s =
        run-Stuck c.row_queue py later (step py c (fetch_done r raised))
          (raised-Stuck c r h ((steps-Awake py es _ (init-Awake q)).fetch_lost h)) in
      (s.lost, s.queue_is)
