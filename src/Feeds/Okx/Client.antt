-- ===== src/Feeds/Okx/Client.antt =====
-- `OKXFeedClient` of src/l2_pipeline/feeds/okx.py: its state, the run loop's way of losing a connection, and
-- the resync worker. The clock's readings in the token buckets are arguments; the sleeps show in the
-- readings behind them. Latency and lag are only observed, and left out.
pub mod Messages
pub mod Run
pub mod Effects
pub mod Truth
pub mod Rows
pub mod Within
pub mod Resync
pub mod Bounds
pub mod Pushes
use Prim.Native.String.{String}
use l2_orderbook_pipeline.Common.{
  ℕ, zero, suc, ◌+◌, List, [], ◌∷◌, Option, none, some, Bool, true, false, ltb, if◌then◌else◌,
}
use l2_orderbook_pipeline.Common.Int.{ℤ}
use l2_orderbook_pipeline.Book.Engine.{BookEngine, is_live}
use l2_orderbook_pipeline.Feeds.Connection
use l2_orderbook_pipeline.Feeds.Connection.{
  ConnectionManager, BackoffPolicy, RandomLike, on_disconnected,
}
use l2_orderbook_pipeline.Feeds.RateLimit.{
  TokenBucket, Ratio, divides_by_zero, try_acquire, time_until_available,
}
use l2_orderbook_pipeline.Feeds.Stats.{Stats, bump}
use l2_orderbook_pipeline.Sinks.Queue.{BoundedRowQueue}
use l2_orderbook_pipeline.Sinks.Rows.{SnapshotRow}

-- The exception that `run` ends with: its own `ReconnectBudgetExhausted`, the `OverflowError` of a delay, the
-- `ZeroDivisionError` of a connection bucket that never refills, or what ended its resync worker.
pub data RunError : Type 0 where
  budget_exhausted overflow_error zero_division worker_error : RunError

-- Where `run` is: before the connection bucket, in the handshake, sending its subscription, at `recv` in the
-- reader loop without and with a ping sent, in the sleep behind a lost connection, or over.
pub data Phase : Type 0 where
  between : Phase
  dialing : Phase
  subscribing : Phase
  reading : Phase
  pinging : Phase
  sleeping : Phase
  over : RunError → Phase

-- Where `_resync_worker` is: at its wait, asleep for the resubscribe bucket, sending either message,
-- ended by an exception, or cancelled with `run`.
pub data Worker : Type 0 where
  waiting throttled unsubscribing resubscribing dead cancelled : Worker

-- What the client sends on its websocket.
pub data Sent : Type 0 where
  subscribe unsubscribe ping : Sent

pub record OkxFeedClient : Type 0 where
  pub symbol : String
  pub snapshot_retry_limit : ℕ
  pub max_consecutive_reconnect_failures : ℕ
  pub engine : BookEngine
  pub connection : ConnectionManager
  pub resubscribe_bucket : TokenBucket
  pub connection_bucket : TokenBucket
  pub row_queue : Option (BoundedRowQueue SnapshotRow)
  pub resync_needed : Bool
  -- whether `_current_ws` is set
  pub current_ws : Bool
  pub snapshot_retry_count : ℕ
  pub stats : Stats
  pub phase : Phase
  pub worker : Worker
  -- whether the client closed the present websocket, and what it sent, the last first
  pub closed : Bool
  pub sent : List Sent

-- `__init__`, with the tasks that `run` creates
unfoldable pub init :
    String
    → ℕ
    → ℕ
    → BookEngine
    → BackoffPolicy
    → TokenBucket
    → TokenBucket
    → Option (BoundedRowQueue SnapshotRow)
    → OkxFeedClient
init symbol retries failures engine policy resubscribe_bucket connection_bucket queue = record {
  symbol = symbol;
  snapshot_retry_limit = retries;
  max_consecutive_reconnect_failures = failures;
  engine = engine;
  connection = Connection.init policy;
  resubscribe_bucket = resubscribe_bucket;
  connection_bucket = connection_bucket;
  row_queue = queue;
  resync_needed = false;
  current_ws = false;
  snapshot_retry_count = 0;
  stats = [];
  phase = between;
  worker = waiting;
  closed = false;
  sent = [];
}

-- What a call ends with: it returns, or raises `_ServiceNoticeReconnect`, or any other exception.
pub data Ending : Type 0 where
  returned notice raised : Ending

abbrev pub Outcome : Type 0
Outcome = OkxFeedClient × Ending

abbrev pub count : String → OkxFeedClient → OkxFeedClient
count key c = record c { stats = bump key c.stats }

abbrev pub send : Sent → OkxFeedClient → OkxFeedClient
send m c = record c { sent = m ∷ c.sent }

-- Whether it raises.
unfoldable pub raise_if_reconnect_budget_exhausted : ConnectionManager → ℕ → Bool
raise_if_reconnect_budget_exhausted m limit = if ltb m.attempt limit then false else true

-- `resync_task.cancel()`, which does nothing to a task that has ended
abbrev pub cancel : Worker → Worker
cancel dead = dead
cancel _ = cancelled

-- `await resync_task`, with `CancelledError` suppressed: any other exception of the worker replaces the one
-- that `run` is about to end with.
abbrev pub await_worker : Worker → RunError → RunError
await_worker dead e = worker_error
await_worker _ e = e

-- The two `finally` of `run`, entered with an exception.
abbrev pub finish : RunError → OkxFeedClient → OkxFeedClient
finish e c = record c {
  phase = over (await_worker (cancel c.worker) e);
  worker = cancel c.worker;
  current_ws = false;
}

-- The websocket stays in place through the sleep.
unfoldable pub back_off : OkxFeedClient → Option ℕ → OkxFeedClient
back_off c none = finish overflow_error c
back_off c (some delay) =
    if raise_if_reconnect_budget_exhausted c.connection c.max_consecutive_reconnect_failures
    then finish budget_exhausted (count "reconnect_budget_exhausted" c)
    else record c { phase = sleeping }

-- What the `except` clauses of `run` share.
unfoldable pub disconnect : ℕ → RandomLike → OkxFeedClient → OkxFeedClient
unfolding back_off
disconnect now rng c =
    let (m, delay) = on_disconnected c.connection now rng in
    back_off (record c { connection = m }) delay

unfoldable pub handle : ℕ → RandomLike → Outcome → OkxFeedClient
unfolding disconnect
handle now rng (c, returned) = c
handle now rng (c, notice) = disconnect now rng c
handle now rng (c, raised) = disconnect now rng (count "ws_disconnected" c)

abbrev count_wait : Ratio → OkxFeedClient → OkxFeedClient
count_wait wait c = if ltb 0 wait.num then count "resubscribe_throttled" c else c

-- `_resync_worker` behind its wait, and `_request_resubscribe` up to its sleep; nothing catches a
-- `ZeroDivisionError` there.
unfoldable pub wake : OkxFeedClient → ℕ → ℕ → OkxFeedClient
wake c cost now =
    if is_live c.engine.state
    then record c { resync_needed = false }
    else let (bucket, wait) = time_until_available c.resubscribe_bucket cost now in
      if divides_by_zero wait
      then record c { resync_needed = false; resubscribe_bucket = bucket; worker = dead }
      else count_wait wait
          (record c { resync_needed = false; resubscribe_bucket = bucket; worker = throttled })

-- `_request_resubscribe` behind its sleep
unfoldable pub request : OkxFeedClient → ℕ → ℕ → OkxFeedClient
request c cost now = record c {
  resubscribe_bucket = (try_acquire c.resubscribe_bucket cost now).0;
  worker = if c.current_ws then unsubscribing else waiting;
}

-- A `send` of the worker ends; an exception of it is suppressed, and skips what is behind it.
unfoldable pub sends : OkxFeedClient → Worker → Bool → OkxFeedClient
sends c unsubscribing true = record (send unsubscribe c) { worker = resubscribing }
sends c unsubscribing false = record c { worker = waiting }
sends c resubscribing true = record (send subscribe c) { worker = waiting }
sends c resubscribing false = record c { worker = waiting }
sends c _ ok = c
