-- ===== src/Feeds/Okx/Client/Run.antt =====
-- `OKXFeedClient.run` of src/l2_pipeline/feeds/okx.py: its loop with the reader, and the resync worker, as
-- one state driven by events in any order. An event that the task it belongs to is not waiting for does not
-- happen to it.
use l2_orderbook_pipeline.Common.{ℕ, List, [], ◌∷◌, Bool, true, false, if◌then◌else◌}
use l2_orderbook_pipeline.Book.Engine.{invalidate}
use l2_orderbook_pipeline.Feeds.Connection.{RandomLike, on_connecting, on_connected}
use l2_orderbook_pipeline.Feeds.RateLimit.{divides_by_zero, try_acquire, time_until_available}
use l2_orderbook_pipeline.Feeds.Json.{Numerals}
use l2_orderbook_pipeline.Feeds.Okx.Client.{
  OkxFeedClient, Phase, between, dialing, subscribing, reading, pinging, sleeping, Worker, waiting,
  throttled, subscribe, ping, raised, count, send, disconnect, handle, wake, request, sends, finish,
  zero_division,
}
use l2_orderbook_pipeline.Feeds.Okx.Client.Messages.{Receipt, Message, receive}

pub data Event : Type 0 where
  -- the loop's round up to `connecting`, by the cost of an attempt and the bucket's two readings
  dial : ℕ → ℕ → ℕ → Event
  -- the handshake is over, the subscription is sent, a message, the sleep behind a lost connection is over
  opened : Event
  subscribed : ℕ → Event
  message : Receipt → Message → ℕ → RandomLike → Event
  slept : Event
  -- a timeout, and any other exception of the websocket
  timed_out : ℕ → RandomLike → Event
  dropped : ℕ → RandomLike → Event
  -- the resync worker wakes, has slept for the bucket, and ends a send, well or not
  worker_wakes : ℕ → ℕ → Event
  worker_acquires : ℕ → ℕ → Event
  worker_sends : Bool → Event

-- The coupling rule: a connection invalidates the book; its subscription brings a snapshot by itself.
unfoldable pub connect : OkxFeedClient → ℕ → OkxFeedClient
connect c now = record (count "ws_reconnected" c) {
  connection = (on_connected c.connection now).0;
  engine = invalidate c.engine;
  snapshot_retry_count = 0;
  phase = reading;
  sent = subscribe ∷ c.sent;
}

-- The top of the loop, outside its inner `try`: a `ZeroDivisionError` of the bucket ends `run`.
unfoldable pub start : OkxFeedClient → ℕ → ℕ → ℕ → OkxFeedClient
start c cost asked_at acquired_at =
    let (bucket, wait) = time_until_available c.connection_bucket cost asked_at in
    if divides_by_zero wait
    then finish zero_division (record c { connection_bucket = bucket })
    else record c {
      connection_bucket = (try_acquire bucket cost acquired_at).0;
      connection = on_connecting c.connection;
      phase = dialing;
    }

abbrev trip : ℕ → RandomLike → OkxFeedClient → OkxFeedClient
trip now rng c = disconnect now rng (count "watchdog_tripped" c)

unfoldable pub worker_step : OkxFeedClient → Worker → Event → OkxFeedClient
worker_step c waiting (worker_wakes cost now) = if c.resync_needed then wake c cost now else c
worker_step c throttled (worker_acquires cost now) = request c cost now
worker_step c w (worker_sends ok) = sends c w ok
worker_step c _ _ = c

abbrev pub is_worker_event : Event → Bool
is_worker_event (worker_wakes cost now) = true
is_worker_event (worker_acquires cost now) = true
is_worker_event (worker_sends ok) = true
is_worker_event _ = false

module _ (py : Numerals) where
  unfoldable pub run_step : OkxFeedClient → Phase → Event → OkxFeedClient
  run_step c between (dial cost asked_at acquired_at) = start c cost asked_at acquired_at
  run_step c dialing opened = record c { phase = subscribing; current_ws = true; closed = false }
  run_step c dialing (timed_out now rng) = trip now rng c
  run_step c dialing (dropped now rng) = handle now rng (c, raised)
  run_step c subscribing (subscribed now) = connect c now
  run_step c subscribing (timed_out now rng) = trip now rng c
  run_step c subscribing (dropped now rng) = handle now rng (c, raised)
  run_step c reading (message r m now rng) = handle now rng (receive py c r m)
  run_step c reading (timed_out now rng) = record (send ping c) { phase = pinging }
  run_step c reading (dropped now rng) = handle now rng (c, raised)
  run_step c pinging (message r m now rng) =
      handle now rng (receive py (record c { phase = reading }) r m)
  run_step c pinging (timed_out now rng) = trip now rng c
  run_step c pinging (dropped now rng) = handle now rng (c, raised)
  run_step c sleeping slept = record c { phase = between; current_ws = false }
  run_step c _ _ = c

  unfoldable pub step : OkxFeedClient → Event → OkxFeedClient
  step c e = if is_worker_event e then worker_step c c.worker e else run_step c c.phase e

  unfoldable pub run : OkxFeedClient → List Event → OkxFeedClient
  run c [] = c
  run c (e ∷ es) = run (step c e) es
