-- ===== src/Feeds/Okx/Tests.antt =====
-- Tests of the OKX client, and its theorems at concrete inputs.
use Prim.Native.String.{String}
use l2_orderbook_pipeline.Common.{
  ◌≤◌, ◌<◌, List, [], ◌∷◌, ◌++◌, some, ◌≡◌, refl, arith, true, false, ◌||◌, All,
}
use l2_orderbook_pipeline.Common.Int.{pos, ◌+ℤ◌, ◌-ℤ◌}
use l2_orderbook_pipeline.Common.Dict
use l2_orderbook_pipeline.Book.Engine
use l2_orderbook_pipeline.Book.Engine.{
  BookEngine, is_live, apply_live, apply_event, replay, load_survivors, load_snapshot, invalidate,
}
use l2_orderbook_pipeline.Book.Levels.{apply_levels, dict_from}
use l2_orderbook_pipeline.Book.Tests.{exchange, change, old, change-Truthful, old-Truthful}
use l2_orderbook_pipeline.Feeds.Connection
use l2_orderbook_pipeline.Feeds.Connection.{
  RandomLike, BackoffPolicy, on_connecting, on_connected, on_disconnected, message_received,
  full_jitter_delay,
}
use l2_orderbook_pipeline.Feeds.Envelope.{build_snapshot_row}
use l2_orderbook_pipeline.Feeds.Json.{Fields, find}
use l2_orderbook_pipeline.Feeds.Json.Unary.{unary}
use l2_orderbook_pipeline.Feeds.RateLimit.{TokenBucket, try_acquire, time_until_available}
use l2_orderbook_pipeline.Feeds.Stats.{count_of, bump}
use l2_orderbook_pipeline.Feeds.Truth.{RowsTrue}
use l2_orderbook_pipeline.Feeds.Okx.Parsing.{
  unwrap_book_push, parse_price_level, parse_book_update, parse_book_snapshot,
  extract_ts_exchange_ms, book_json, push_json, parse_book-book_json,
}
use l2_orderbook_pipeline.Feeds.Okx.Client.{
  OkxFeedClient, RunError, budget_exhausted, over, sleeping, init, raised, count, disconnect,
  handle, back_off, wake, request, sends, subscribe, unsubscribe,
  raise_if_reconnect_budget_exhausted,
}
use l2_orderbook_pipeline.Feeds.Okx.Client.Messages.{
  Receipt, queue_row, publish_to, after_failure, handle_resync_result, on_loaded, on_snapshot,
  on_status, on_update, handle_control_message, decoded, handle_snapshot_push, handle_update_push,
  dispatch, handle_channel_push, on_envelope, on_message, receive,
}
use l2_orderbook_pipeline.Feeds.Okx.Client.Run.{
  Event, dial, opened, subscribed, message, slept, dropped, worker_wakes, worker_acquires,
  worker_sends, connect, start, worker_step, run_step, step, run,
}
use l2_orderbook_pipeline.Feeds.Okx.Client.Rows.{TruthfulMessage, TruthfulEvent, okx-RowsTrue}
use l2_orderbook_pipeline.Feeds.Okx.Client.Resync.{is_up, is_over}
use l2_orderbook_pipeline.Feeds.Okx.Client.Bounds.{okx_bounds}
use l2_orderbook_pipeline.Feeds.Okx.Client.Pushes.{
  counted, receive-push_json, snapshot_on_live_raises, out_of_sync_asks,
}
use l2_orderbook_pipeline.Sinks.Queue
use l2_orderbook_pipeline.Sinks.Queue.{BoundedRowQueue}
use l2_orderbook_pipeline.Sinks.Rows.{SnapshotRow}

-- The lower bound, always.
abbrev shortest : RandomLike
shortest = record {
  uniform = λ a b. a;
  uniform_lower = λ a b h. omega arith;
  uniform_upper = λ a b h. h;
}

abbrev policy : BackoffPolicy
policy = record { base_seconds = 500; cap_seconds = 30000 }

abbrev receipt : Receipt
receipt = record { ts_local_ns = 7; ts_wall_ns = 9 }

abbrev bucket : TokenBucket
bucket = record { capacity = 40; refill_rate = 1; tokens = 40; last_refill = 0 }

abbrev rows : BoundedRowQueue SnapshotRow
rows = record { maxsize = 2; rows = []; rows_dropped = 0 }

-- The exchange's pushes of `change` and `old`.
abbrev change_fields : Fields
change_fields = book_json unary (pos 5) change.prev_id change.final_id change.bids change.asks

abbrev old_fields : Fields
old_fields = book_json unary (pos 5) (pos 0) old.last_update_id old.bids old.asks

abbrev push : String → Fields → Event
push action fields = message receipt (decoded (push_json unary "BTC-USDT" action fields)) 4 shortest

abbrev connecting : List Event
connecting = dial 1 0 0 ∷ opened ∷ subscribed 3 ∷ []

abbrev synchronising : List Event
synchronising = connecting ++ push "snapshot" old_fields ∷ push "update" change_fields ∷ []

abbrev client : List Event → OkxFeedClient
client es = run unary (init "BTC-USDT" 5 3 (Engine.init 20) policy bucket bucket (some rows)) es

-- Everything that a run computes with.
program : Unit {0}
unfolding run step run_step worker_step connect start receive on_message on_envelope
    handle_channel_push dispatch handle_control_message handle_update_push handle_snapshot_push
    on_update on_snapshot on_status on_loaded handle_resync_result after_failure publish_to
    queue_row wake request sends disconnect handle back_off init Connection.init on_connecting
    on_connected message_received on_disconnected full_jitter_delay
    raise_if_reconnect_budget_exhausted Engine.init apply_event apply_live load_snapshot
    load_survivors replay invalidate apply_levels dict_from unwrap_book_push parse_book_update
    parse_book_snapshot extract_ts_exchange_ms Queue.put build_snapshot_row try_acquire
    time_until_available count_of Dict.get Dict.set Dict.pop find ◌+ℤ◌ ◌-ℤ◌ parse_price_level bump
program = tt

client_live : is_live (client synchronising).engine.state ≡ true
unfolding program
client_live = refl

-- A resync that waits for its tokens through a reconnect is carried out on the new connection, whose
-- snapshot came by itself: the second snapshot finds the engine live, and costs the connection.
abbrev throttled_through_reconnect : List Event
throttled_through_reconnect =
    connecting
    ++ push "snapshot" old_fields
      ∷ push "update" (book_json unary (pos 6) (pos 20) (pos 21) [] [])
      ∷ worker_wakes 2 5
      ∷ dropped 6 shortest
      ∷ slept
      ∷ connecting
    ++ push "snapshot" old_fields
      ∷ worker_acquires 2 9
      ∷ worker_sends true
      ∷ worker_sends true
      ∷ push "snapshot" old_fields
      ∷ []

second_snapshot_drops :
    let c = client throttled_through_reconnect in
    (c.phase ≡ sleeping)
    × (is_live c.engine.state ≡ true)
    × (count_of "ws_disconnected" c.stats ≡ 2)
    × (c.sent ≡ subscribe ∷ unsubscribe ∷ subscribe ∷ subscribe ∷ [])
unfolding program
second_snapshot_drops = (refl, refl, refl, refl)

parse_book-book_json_example :
    (unwrap_book_push (push_json unary "BTC-USDT" "update" change_fields) ≡ some change_fields)
    × (parse_book_update unary change_fields ≡ some change)
    × (parse_book_snapshot unary change_fields
        ≡ some (record { last_update_id = pos 11; bids = change.bids; asks = [] }))
    × (extract_ts_exchange_ms unary change_fields ≡ some (some (pos 5)))
parse_book-book_json_example =
    parse_book-book_json unary "BTC-USDT" "update" (pos 5) (pos 10) (pos 11) change.bids []

synchronising-Truthful : All (TruthfulEvent exchange 20 unary) synchronising
unfolding TruthfulEvent TruthfulMessage program
synchronising-Truthful =
    (tt, (tt, (tt, ((λ h. old-Truthful, λ h. cc), ((λ h. cc, λ h. change-Truthful), tt)))))

okx-RowsTrue_example : RowsTrue exchange 20 (client synchronising).row_queue
okx-RowsTrue_example =
    okx-RowsTrue exchange 20 unary "BTC-USDT" 5 3 policy bucket bucket (some rows) synchronising tt
      synchronising-Truthful

okx_bounds_example :
    let c = client synchronising in
    (is_up c.phase ≡ true → c.closed ≡ false → c.snapshot_retry_count < c.snapshot_retry_limit)
    × (is_over c.phase ≡ false → c.connection.attempt < c.max_consecutive_reconnect_failures)
    × (is_over c.phase ≡ true → c.max_consecutive_reconnect_failures ≤ c.connection.attempt)
    × ((e : RunError) → c.phase ≡ over e → e ≡ budget_exhausted)
okx_bounds_example =
    okx_bounds unary "BTC-USDT" 5 3 (Engine.init 20) policy bucket bucket (some rows) synchronising
      (omega arith) (omega arith) (omega arith) (omega arith) (omega arith)

abbrev live_client : OkxFeedClient
live_client = client (connecting ++ push "snapshot" old_fields ∷ [])

receive-push_json_example :
    (receive unary live_client receipt (decoded (push_json unary "BTC-USDT" "update" change_fields))
      ≡ on_status
          (record (counted unary live_client) {
            engine = (apply_event live_client.engine change).0;
          })
          receipt
          (some (pos 5))
          (apply_event live_client.engine change).1)
    × (receive unary live_client receipt
          (decoded (push_json unary "BTC-USDT" "snapshot" change_fields))
        ≡ on_loaded (counted unary live_client) receipt (some (pos 5)) (
            load_snapshot live_client.engine
              (record { last_update_id = pos 11; bids = change.bids; asks = [] })))
receive-push_json_example =
    receive-push_json unary live_client receipt "BTC-USDT" (pos 5) (pos 10) (pos 11) change.bids []

snapshot_on_live_raises_example :
    let o =
      receive unary live_client receipt
        (decoded (push_json unary "BTC-USDT" "snapshot" change_fields)) in
    (o ≡ (counted unary live_client, raised))
    × (handle 4 shortest o
        ≡ disconnect 4 shortest (count "ws_disconnected" (counted unary live_client)))
snapshot_on_live_raises_example =
    snapshot_on_live_raises unary live_client receipt "BTC-USDT" (pos 5) (pos 10) (pos 11)
      change.bids [] 4 shortest (unfold program in refl)

out_of_sync_asks_example :
    let fields = book_json unary (pos 6) (pos 20) (pos 21) [] [] in
    let u =
      (receive unary live_client receipt
        (decoded (push_json unary "BTC-USDT" "update" fields))).0 in
    let s =
      (receive unary live_client receipt
        (decoded (push_json unary "BTC-USDT" "snapshot" fields))).0 in
    (is_live live_client.engine.state ≡ true
      → is_live u.engine.state ≡ false
      → u.resync_needed ≡ true)
    × (is_live s.engine.state ≡ false → (s.resync_needed || s.closed) ≡ true)
out_of_sync_asks_example =
    out_of_sync_asks unary live_client receipt "BTC-USDT" (pos 6) (pos 20) (pos 21) [] []
      (unfold program in refl)
