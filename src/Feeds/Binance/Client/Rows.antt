-- ===== src/Feeds/Binance/Client/Rows.antt =====
-- What `BinanceFeedClient` puts into its row queue, given an exchange that tells the truth.
use Prim.Native.String.{String}
use l2_orderbook_pipeline.Common.{ℕ, List, [], ◌∷◌, Option, none, some, Bool-cases, inl, inr, All}
use l2_orderbook_pipeline.Book.Types.{DiffEvent}
use l2_orderbook_pipeline.Book.Engine
use l2_orderbook_pipeline.Book.Engine.{BookEngine, is_live, apply_event, load_snapshot}
use l2_orderbook_pipeline.Book.Sync.{Exchange, Truthful}
use l2_orderbook_pipeline.Feeds.Connection.{BackoffPolicy, message_received}
use l2_orderbook_pipeline.Feeds.Json.{Json, Fields, Numerals}
use l2_orderbook_pipeline.Feeds.Truth.{RowsTrue, init-Sound}
use l2_orderbook_pipeline.Feeds.Binance.Parsing.{extract_ts_exchange_ms}
use l2_orderbook_pipeline.Feeds.Binance.Client.{
  BinanceFeedClient, Phase, between, dialing, reading, Worker, waiting, fetching, Receipt, count,
  init,
}
use l2_orderbook_pipeline.Feeds.Binance.Client.Run.{
  Event, dial, up, message, timed_out, dropped, worker_wakes, fetch_done, worker_step,
  is_worker_event, read, on_read, receive, run_step, step, run,
}
use l2_orderbook_pipeline.Sinks.Queue.{BoundedRowQueue}
use l2_orderbook_pipeline.Sinks.Rows.{SnapshotRow}
use l2_orderbook_pipeline.Feeds.Binance.Client.Truth.{
  Says, on_diff-Says, lose-Says, unless_raised-Says, connect-Says, TruthfulFetch, on_fetch-Says,
  wake-Says,
}

module _ (x : Exchange) (depth : ℕ) where
  module _ (py : Numerals) where
    -- A message that is read as a diff is a true one.
    abbrev pub TruthfulRead : Option (Fields × DiffEvent) → Type 0
    TruthfulRead none = Unit
    TruthfulRead (some (fields, diff)) = Truthful x diff

    -- The exchange's part in an event.
    unfoldable pub TruthfulEvent : Event → Type 0
    TruthfulEvent (message r raw now rng) = TruthfulRead (read py raw)
    TruthfulEvent (fetch_done r f) = TruthfulFetch x f
    TruthfulEvent _ = Unit

    on_read-Says :
        (c : BinanceFeedClient) (r : Receipt) (o : Option (Fields × DiffEvent))
        → TruthfulRead o
        → Says x depth c
        → Says x depth (on_read py c r o).0
    unfolding on_read
    on_read-Says c r none t s = s
    on_read-Says c r (some (fields, diff)) t s =
        on_diff-Says x depth c r diff (extract_ts_exchange_ms py fields) t s

    receive-Says :
        (c : BinanceFeedClient) (r : Receipt) (raw : Option Json)
        → TruthfulRead (read py raw)
        → Says x depth c
        → Says x depth (receive py c r raw).0
    unfolding receive
    receive-Says c r raw t s =
        on_read-Says
          (record (count "messages_received" c) { connection = message_received c.connection }) r
          (read py raw) t s

    worker_step-Says :
        (c : BinanceFeedClient) (w : Worker) (e : Event)
        → TruthfulEvent e
        → Says x depth c
        → Says x depth (worker_step c w e)
    unfolding worker_step TruthfulEvent
    worker_step-Says c waiting worker_wakes t s = wake-Says x depth c c.resync_needed s
    worker_step-Says c (fetching n) (fetch_done r f) t s = on_fetch-Says x depth c n r f t s
    worker_step-Says c _ _ t s = s

    run_step-Says :
        (c : BinanceFeedClient) (ph : Phase) (e : Event)
        → TruthfulEvent e
        → Says x depth c
        → Says x depth (run_step py c ph e)
    unfolding run_step TruthfulEvent
    run_step-Says c between dial t s = s
    run_step-Says c dialing (up now) t s = connect-Says x depth c now s
    run_step-Says c dialing (timed_out now rng) t s =
        lose-Says x depth "watchdog_tripped" now rng c s
    run_step-Says c dialing (dropped now rng) t s = lose-Says x depth "ws_disconnected" now rng c s
    run_step-Says c reading (message r raw now rng) t s =
        unless_raised-Says x depth now rng (receive py c r raw) (receive-Says c r raw t s)
    run_step-Says c reading (timed_out now rng) t s =
        lose-Says x depth "watchdog_tripped" now rng c s
    run_step-Says c reading (dropped now rng) t s = lose-Says x depth "ws_disconnected" now rng c s
    run_step-Says c _ _ t s = s

    run-Says :
        (es : List Event) (c : BinanceFeedClient)
        → All TruthfulEvent es
        → Says x depth c
        → Says x depth (run py c es)
    unfolding run step
    run-Says [] c ts s = s
    run-Says (e ∷ es) c ts s =
        run-Says es (step py c e) ts.1 (elim (Bool-cases (is_worker_event e)) [
          | inl h ↦ rw (h, step) (worker_step-Says c c.worker e ts.0 s)
          | inr h ↦ rw (h, step) (run_step-Says c c.phase e ts.0 s)
        ])

    -- Every row that a new client ever puts into its queue is true: if the
    -- diffs and the snapshots that it receives are the exchange's, and all rows that are in the
    -- queue at first are true, then whatever happens, in whatever order, each row in the queue shows the
    -- best `depth` levels of both sides of the exchange's book at the row's update id.
    pub binance-RowsTrue :
        (symbol : String) (retries failures : ℕ) (policy : BackoffPolicy)
        (q : Option (BoundedRowQueue SnapshotRow)) (es : List Event)
        → RowsTrue x depth q
        → All TruthfulEvent es
        → RowsTrue x depth
            (run py (init symbol retries failures (Engine.init depth) policy q) es).row_queue
    binance-RowsTrue symbol retries failures policy q es t ts =
        (run-Says es (init symbol retries failures (Engine.init depth) policy q) ts
          (unfold init in init-Sound x depth q t)).rows_true
