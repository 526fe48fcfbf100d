-- ===== src/Feeds/Binance/Client/Run.antt =====
-- `BinanceFeedClient.run` of src/l2_pipeline/feeds/binance.py: its loop with the reader, and the resync worker.
use l2_orderbook_pipeline.Common.{
  ℕ, List, [], ◌∷◌, Option, none, some, Bool, true, false, if◌then◌else◌,
}
use l2_orderbook_pipeline.Common.Options.{◌>>=◌}
use l2_orderbook_pipeline.Book.Types.{DiffEvent}
use l2_orderbook_pipeline.Book.Engine.{invalidate}
use l2_orderbook_pipeline.Feeds.Connection.{
  RandomLike, on_connecting, on_connected, message_received,
}
use l2_orderbook_pipeline.Feeds.Json.{Json, Fields, Numerals}
use l2_orderbook_pipeline.Feeds.Binance.{FetchResult}
use l2_orderbook_pipeline.Feeds.Binance.Parsing.{
  parse_combined_stream_envelope, parse_diff_event, extract_ts_exchange_ms,
}
use l2_orderbook_pipeline.Feeds.Binance.Client.{
  Phase, Worker, BinanceFeedClient, Receipt, count, Outcome, on_diff, lose, unless_raised, on_fetch,
  wake, between, dialing, reading, waiting, fetching,
}

pub data Event : Type 0 where
  -- the call of `connecting`, the end of the handshake, a message
  dial : Event
  up : ℕ → Event
  message : Receipt → Option Json → ℕ → RandomLike → Event
  -- no message within the watchdog's timeout, and any other exception of the websocket
  timed_out : ℕ → RandomLike → Event
  dropped : ℕ → RandomLike → Event
  -- the resync worker wakes, and a fetch of its ends
  worker_wakes : Event
  fetch_done : Receipt → FetchResult → Event

-- The coupling rule: a connection invalidates the book and asks for a resync.
unfoldable pub connect : BinanceFeedClient → ℕ → BinanceFeedClient
connect c now = record (count "ws_reconnected" c) {
  connection = (on_connected c.connection now).0;
  engine = invalidate c.engine;
  resync_needed = true;
  phase = reading;
  closed = false;
}

unfoldable pub worker_step : BinanceFeedClient → Worker → Event → BinanceFeedClient
unfolding on_fetch wake
worker_step c waiting worker_wakes = if c.resync_needed then wake c else c
worker_step c (fetching n) (fetch_done r result) = on_fetch c n r result
worker_step c _ _ = c

abbrev pub is_worker_event : Event → Bool
is_worker_event worker_wakes = true
is_worker_event (fetch_done r result) = true
is_worker_event _ = false

module _ (py : Numerals) where
  -- The `try` in `_reader_loop`; the message is `none` where `json.loads` raises.
  unfoldable pub read : Option Json → Option (Fields × DiffEvent)
  read raw = do
    envelope ← raw
    fields ← parse_combined_stream_envelope envelope
    diff ← parse_diff_event py fields
    some (fields, diff)

  unfoldable pub on_read : BinanceFeedClient → Receipt → Option (Fields × DiffEvent) → Outcome
  on_read c r none = (count "malformed_message" c, false)
  on_read c r (some (fields, diff)) = on_diff c r diff (extract_ts_exchange_ms py fields)

  -- One round of `_reader_loop` behind `recv`.
  unfoldable pub receive : BinanceFeedClient → Receipt → Option Json → Outcome
  receive c r raw =
      on_read (record (count "messages_received" c) { connection = message_received c.connection })
        r (read raw)

  unfoldable pub run_step : BinanceFeedClient → Phase → Event → BinanceFeedClient
  unfolding lose
  run_step c between dial = record c { connection = on_connecting c.connection; phase = dialing }
  run_step c dialing (up now) = connect c now
  run_step c dialing (timed_out now rng) = lose "watchdog_tripped" now rng c
  run_step c dialing (dropped now rng) = lose "ws_disconnected" now rng c
  run_step c reading (message r raw now rng) = unless_raised now rng (receive c r raw)
  run_step c reading (timed_out now rng) = lose "watchdog_tripped" now rng c
  run_step c reading (dropped now rng) = lose "ws_disconnected" now rng c
  run_step c _ _ = c

  unfoldable pub step : BinanceFeedClient → Event → BinanceFeedClient
  unfolding run_step worker_step
  step c e = if is_worker_event e then worker_step c c.worker e else run_step c c.phase e

  unfoldable pub run : BinanceFeedClient → List Event → BinanceFeedClient
  run c [] = c
  run c (e ∷ es) = run (step c e) es
