-- ===== src/Feeds/Binance/Tests.antt =====
-- Tests of the Binance client, and its theorems at concrete inputs.
use l2_orderbook_pipeline.Common.{
  ◌⊎◌, ◌≤◌, ◌<◌, List, [], ◌∷◌, none, some, ◌≡◌, refl, arith, true, false, ◌||◌, All,
}
use l2_orderbook_pipeline.Common.Options.{◌>>=◌}
use l2_orderbook_pipeline.Common.Int.{pos, ◌+ℤ◌, ◌-ℤ◌}
use l2_orderbook_pipeline.Common.Dict
use l2_orderbook_pipeline.Book.Engine
use l2_orderbook_pipeline.Book.Engine.{
  BookEngine, is_live, apply_live, apply_event, replay, load_survivors, load_snapshot, invalidate,
}
use l2_orderbook_pipeline.Book.Levels.{apply_levels, dict_from}
use l2_orderbook_pipeline.Book.Tests.{exchange, change, old, change-Truthful, old-Truthful}
use l2_orderbook_pipeline.Feeds.Connection
use l2_orderbook_pipeline.Feeds.Connection.{
  RandomLike, BackoffPolicy, on_connecting, on_connected, on_disconnected, message_received,
  full_jitter_delay,
}
use l2_orderbook_pipeline.Feeds.Envelope.{build_snapshot_row}
use l2_orderbook_pipeline.Feeds.Json.{Json, find}
use l2_orderbook_pipeline.Feeds.Json.Unary.{unary}
use l2_orderbook_pipeline.Feeds.Truth.{RowsTrue}
use l2_orderbook_pipeline.Feeds.Binance.{fetched, raised, raise_if_reconnect_budget_exhausted}
use l2_orderbook_pipeline.Feeds.Binance.Parsing.{
  parse_combined_stream_envelope, parse_diff_event, extract_ts_exchange_ms, diff_json,
  envelope_json, parse_diff_event-diff_json,
}
use l2_orderbook_pipeline.Feeds.Binance.Client.{
  BinanceFeedClient, RunError, dead, budget_exhausted, worker_error, over, Receipt, init,
  publish_to, queue_row, on_status, on_diff, back_off, lose, unless_raised, give_up, retry,
  worker_end, on_load, on_fetch, wake,
}
use l2_orderbook_pipeline.Feeds.Binance.Client.Run.{
  Event, dial, up, message, timed_out, dropped, worker_wakes, fetch_done, connect, worker_step,
  read, on_read, receive, run_step, step, run,
}
use l2_orderbook_pipeline.Book.Types.{live}
use l2_orderbook_pipeline.Book.Invariant.{WellFormed}
use l2_orderbook_pipeline.Common.Dict.{Unique}
use l2_orderbook_pipeline.Feeds.Binance.Client.Published.{applied_row}
use l2_orderbook_pipeline.Feeds.Binance.Client.Rows.{TruthfulEvent, binance-RowsTrue}
use l2_orderbook_pipeline.Feeds.Binance.Client.Liveness.{no_wake_up_lost, raised_fetch_silences}
use l2_orderbook_pipeline.Feeds.Binance.Client.Budget.{is_over, budget_ends_run}
use l2_orderbook_pipeline.Sinks.Queue
use l2_orderbook_pipeline.Sinks.Queue.{BoundedRowQueue}
use l2_orderbook_pipeline.Sinks.Rows.{SnapshotRow}

-- The lower bound, always.
abbrev shortest : RandomLike
shortest = record {
  uniform = λ a b. a;
  uniform_lower = λ a b h. omega arith;
  uniform_upper = λ a b h. h;
}

abbrev policy : BackoffPolicy
policy = record { base_seconds = 500; cap_seconds = 30000 }

abbrev receipt : Receipt
receipt = record { ts_local_ns = 7; ts_wall_ns = 9 }

abbrev diff_message : Json
diff_message = envelope_json unary "btcusdt@depth" (diff_json unary (pos 5) "BTCUSDT" change)

-- A connection, a diff, and the snapshot that puts the engine in sync.
abbrev synchronising : List Event
synchronising =
    dial
    ∷ up 3
    ∷ message receipt (some diff_message) 4 shortest
    ∷ worker_wakes
    ∷ fetch_done receipt (fetched old)
    ∷ []

abbrev rows : BoundedRowQueue SnapshotRow
rows = record { maxsize = 2; rows = []; rows_dropped = 0 }

abbrev client : List Event → BinanceFeedClient
client es = run unary (init "BTCUSDT" 5 3 (Engine.init 20) policy (some rows)) es

-- Everything that a run computes with.
program : Unit {0}
unfolding run step run_step worker_step connect receive on_read read on_diff on_status publish_to
    queue_row wake retry on_fetch on_load worker_end give_up lose back_off unless_raised init
    Connection.init on_connecting on_connected message_received on_disconnected full_jitter_delay
    raise_if_reconnect_budget_exhausted Engine.init apply_event apply_live load_snapshot
    load_survivors replay invalidate apply_levels dict_from parse_combined_stream_envelope
    parse_diff_event extract_ts_exchange_ms Queue.put build_snapshot_row Dict.get Dict.set Dict.pop
    find ◌+ℤ◌ ◌-ℤ◌
program = tt

client_live : is_live (client synchronising).engine.state ≡ true
unfolding program
client_live = refl

parse_diff_event-diff_json_example :
    ((parse_combined_stream_envelope diff_message >>= parse_diff_event unary) ≡ some change)
    × (extract_ts_exchange_ms unary (diff_json unary (pos 5) "BTCUSDT" change)
        ≡ some (some (pos 5)))
parse_diff_event-diff_json_example =
    parse_diff_event-diff_json unary "btcusdt@depth" "BTCUSDT" (pos 5) change

synchronising-Truthful : All (TruthfulEvent exchange 20 unary) synchronising
unfolding TruthfulEvent program
synchronising-Truthful = (tt, (tt, (change-Truthful, (tt, (old-Truthful, tt)))))

binance-RowsTrue_example : RowsTrue exchange 20 (client synchronising).row_queue
binance-RowsTrue_example =
    binance-RowsTrue exchange 20 unary "BTCUSDT" 5 3 policy (some rows) synchronising tt
      synchronising-Truthful

abbrev connected : List Event
connected = dial ∷ up 3 ∷ []

no_wake_up_lost_example : ((client connected).resync_needed || (client connected).closed) ≡ true
no_wake_up_lost_example =
    no_wake_up_lost unary "BTCUSDT" 5 3 (Engine.init 20) policy (some rows) connected
      (unfold program in refl) (unfold program in refl) (unfold program in refl)

abbrev fetching_now : List Event
fetching_now = dial ∷ up 3 ∷ worker_wakes ∷ []

raised_fetch_silences_example :
    let d =
      run unary (step unary (client fetching_now) (fetch_done receipt raised)) synchronising in
    (is_live d.engine.state ≡ false) × (d.row_queue ≡ (client fetching_now).row_queue)
raised_fetch_silences_example =
    raised_fetch_silences unary "BTCUSDT" 5 3 (Engine.init 20) policy (some rows) fetching_now
      synchronising receipt (unfold program in refl)

abbrev failing : List Event
failing = dial ∷ dropped 1 shortest ∷ dial ∷ timed_out 2 shortest ∷ dial ∷ dropped 3 shortest ∷ []

failing_over : (client failing).phase ≡ over budget_exhausted
unfolding program
failing_over = refl

-- The worker dies of a fetch, and then the budget is spent: its exception is what `run` ends with.
failing_after_death :
    (client
      (dial ∷ up 3 ∷ worker_wakes ∷ fetch_done receipt raised ∷ dropped 4 shortest ∷ failing)).phase
    ≡ over worker_error
unfolding program
failing_after_death = refl

budget_ends_run_example :
    (is_over (client failing).phase ≡ false
      → (client failing).connection.attempt < (client failing).max_consecutive_reconnect_failures)
    × (is_over (client failing).phase ≡ true
        → (client failing).max_consecutive_reconnect_failures ≤ (client failing).connection.attempt)
    × ((e : RunError)
        → (client failing).phase ≡ over e
        → (e ≡ budget_exhausted) ⊎ ((e ≡ worker_error) × ((client failing).worker ≡ dead)))
budget_ends_run_example =
    budget_ends_run unary "BTCUSDT" 5 3 (Engine.init 20) policy (some rows) failing (omega arith)
      (omega arith)

abbrev live_engine : BookEngine
live_engine = record (Engine.init 1) { state = live; last_applied_id = some (pos 10) }

live_engine-WellFormed : WellFormed live_engine
unfolding Unique Engine.init
live_engine-WellFormed = record {
  live_shape = λ h. ((pos 10, refl), refl);
  idle_shape = λ h. cc;
  bids_unique = tt;
  asks_unique = tt;
}

abbrev live_client : BinanceFeedClient
live_client = record (client []) { engine = live_engine }

applied_row_example :
    (row : SnapshotRow) × (on_diff live_client receipt change (some none) ≡ (
      record live_client {
        engine = (apply_event live_engine change).0;
        row_queue = some (Queue.put rows row).0;
      },
      false,
    ))
    × (row.last_applied_id ≡ pos 11)
applied_row_example =
    applied_row live_client rows receipt change none live_engine-WellFormed (unfold program in refl)
      (unfold program in refl)
