-- ===== src/Feeds/Binance/Client.antt =====
-- `BinanceFeedClient` of src/l2_pipeline/feeds/binance.py: the loop of `run` with its reader, and the resync
-- worker, as one state driven by events in any order. An event that the task it belongs to is not
-- waiting for does not happen to it. Latency and lag are only observed, and left out.
pub mod Run
pub mod Reads
pub mod Moves
pub mod Stuck
pub mod Awake
pub mod Liveness
pub mod Truth
pub mod Published
pub mod Rows
pub mod Blames
pub mod Budget
use Prim.Native.String.{String}
use l2_orderbook_pipeline.Common.{
  ℕ, zero, suc, ◌+◌, List, [], ◌∷◌, Option, none, some, Bool, true, false, if◌then◌else◌,
}
use l2_orderbook_pipeline.Common.Options.{◌>>=◌}
use l2_orderbook_pipeline.Common.Int.{ℤ}
use l2_orderbook_pipeline.Book.Types.{
  DiffEvent, SnapshotEvent, ApplyStatus, applied, buffered, gap_detected, snapshot_stale,
}
use l2_orderbook_pipeline.Book.Engine.{BookEngine, is_live, apply_event, load_snapshot, invalidate}
use l2_orderbook_pipeline.Feeds.Connection
use l2_orderbook_pipeline.Feeds.Connection.{
  ConnectionManager, BackoffPolicy, RandomLike, on_connecting, on_connected, on_disconnected,
  message_received,
}
use l2_orderbook_pipeline.Feeds.Envelope.{InstrumentId, build_snapshot_row}
use l2_orderbook_pipeline.Feeds.Json.{Json, Fields, Numerals}
use l2_orderbook_pipeline.Feeds.Stats.{Stats, bump}
use l2_orderbook_pipeline.Feeds.Binance.{
  FetchResult, fetched, retry_limit_exceeded, raised, raise_if_reconnect_budget_exhausted,
}
use l2_orderbook_pipeline.Feeds.Binance.Parsing.{
  parse_combined_stream_envelope, parse_diff_event, extract_ts_exchange_ms,
}
use l2_orderbook_pipeline.Sinks.Queue
use l2_orderbook_pipeline.Sinks.Queue.{BoundedRowQueue}
use l2_orderbook_pipeline.Sinks.Rows.{SnapshotRow}

-- The exception that `run` ends with: its own `ReconnectBudgetExhausted`, the `OverflowError` of a delay, or
-- what ended its resync worker.
pub data RunError : Type 0 where
  budget_exhausted overflow_error worker_error : RunError

-- Where `run` is: before a call of `connecting`, in the handshake, in the reader loop, or over.
pub data Phase : Type 0 where
  between : Phase
  dialing : Phase
  reading : Phase
  over : RunError → Phase

-- Where `_resync_worker` is: at its wait, in a fetch with so many rounds left behind it, ended by an
-- exception, or cancelled with `run`.
pub data Worker : Type 0 where
  waiting : Worker
  fetching : ℕ → Worker
  dead : Worker
  cancelled : Worker

pub record BinanceFeedClient : Type 0 where
  pub symbol : String
  pub snapshot_retry_limit : ℕ
  pub max_consecutive_reconnect_failures : ℕ
  pub engine : BookEngine
  pub connection : ConnectionManager
  pub row_queue : Option (BoundedRowQueue SnapshotRow)
  pub resync_needed : Bool
  pub buffered_since_resync : ℕ
  pub stats : Stats
  pub phase : Phase
  pub worker : Worker
  -- whether the worker closed the present websocket
  pub closed : Bool

-- `__init__`, with the tasks that `run` creates
unfoldable pub init :
    String
    → ℕ
    → ℕ
    → BookEngine
    → BackoffPolicy
    → Option (BoundedRowQueue SnapshotRow)
    → BinanceFeedClient
init symbol retries failures engine policy queue = record {
  symbol = symbol;
  snapshot_retry_limit = retries;
  max_consecutive_reconnect_failures = failures;
  engine = engine;
  connection = Connection.init policy;
  row_queue = queue;
  resync_needed = false;
  buffered_since_resync = 0;
  stats = [];
  phase = between;
  worker = waiting;
  closed = false;
}

-- `time.monotonic_ns()` and `time.time_ns()`
pub record Receipt : Type 0 where
  pub ts_local_ns : ℕ
  pub ts_wall_ns : ℕ

abbrev pub count : String → BinanceFeedClient → BinanceFeedClient
count key c = record c { stats = bump key c.stats }

-- What a call leaves, and whether it raises.
abbrev pub Outcome : Type 0
Outcome = BinanceFeedClient × Bool

unfoldable pub queue_row :
    BinanceFeedClient → BoundedRowQueue SnapshotRow → Option SnapshotRow → Outcome
queue_row c q none = (c, true)
queue_row c q (some row) = (record c { row_queue = some (Queue.put q row).0 }, false)

unfoldable pub publish_to :
    BinanceFeedClient → Receipt → Option ℤ → Option (BoundedRowQueue SnapshotRow) → Outcome
publish_to c r ts none = (c, false)
publish_to c r ts (some q) = queue_row c q (
    build_snapshot_row c.engine (record { exchange = "binance"; symbol = c.symbol }) r.ts_local_ns
      r.ts_wall_ns ts)

-- `if self._row_queue is not None: …`
abbrev pub publish : BinanceFeedClient → Receipt → Option ℤ → Outcome
publish c r ts = publish_to c r ts c.row_queue

-- The branches on `result.status` in `_reader_loop`.
unfoldable pub on_status : BinanceFeedClient → Receipt → Option ℤ → ApplyStatus → Outcome
on_status c r ts applied = publish c r ts
on_status c r ts buffered =
    (record c { buffered_since_resync = c.buffered_since_resync + 1 }, false)
on_status c r ts gap_detected = (record (count "gap_detected" c) { resync_needed = true }, false)
on_status c r ts snapshot_stale = (c, false)

unfoldable pub on_diff : BinanceFeedClient → Receipt → DiffEvent → Option (Option ℤ) → Outcome
on_diff c r diff none = (c, true)
on_diff c r diff (some ts) =
    let (b, status) = apply_event c.engine diff in on_status (record c { engine = b }) r ts status

-- `resync_task.cancel()`, which does nothing to a task that has ended
abbrev pub cancel : Worker → Worker
cancel waiting = cancelled
cancel (fetching n) = cancelled
cancel dead = dead
cancel cancelled = cancelled

-- `await resync_task`, with `CancelledError` suppressed: any other exception of the worker replaces the one
-- that `run` is about to end with.
abbrev pub await_worker : Worker → RunError → RunError
await_worker waiting e = e
await_worker (fetching n) e = e
await_worker dead e = worker_error
await_worker cancelled e = e

-- The outer `finally` of `run`, entered with an exception.
abbrev pub finish : RunError → BinanceFeedClient → BinanceFeedClient
finish e c = record c { phase = over (await_worker (cancel c.worker) e); worker = cancel c.worker }

unfoldable pub back_off : BinanceFeedClient → Option ℕ → BinanceFeedClient
back_off c none = finish overflow_error c
back_off c (some delay) =
    if raise_if_reconnect_budget_exhausted c.connection c.max_consecutive_reconnect_failures
    then finish budget_exhausted (count "reconnect_budget_exhausted" c)
    else record c { phase = between }

-- The `except` clauses of `run`, by the key that they count under.
unfoldable pub lose : String → ℕ → RandomLike → BinanceFeedClient → BinanceFeedClient
unfolding back_off
lose key now rng c =
    let (m, delay) = on_disconnected c.connection now rng in
    back_off (record (count key c) { connection = m }) delay

unfoldable pub unless_raised : ℕ → RandomLike → Outcome → BinanceFeedClient
unless_raised now rng (c, false) = c
unless_raised now rng (c, true) = lose "ws_disconnected" now rng c

abbrev pub is_reading : Phase → Bool
is_reading reading = true
is_reading between = false
is_reading dialing = false
is_reading (over e) = false

-- The end of `_perform_resync` without success.
unfoldable pub give_up : BinanceFeedClient → BinanceFeedClient
give_up c = record (count "snapshot_retry_limit_exceeded" c) {
  worker = waiting;
  closed = if is_reading c.phase then true else c.closed;
}

-- The next round of the loop in `_perform_resync`.
unfoldable pub retry : ℕ → BinanceFeedClient → BinanceFeedClient
retry zero c = give_up c
retry (suc n) c = record c { worker = fetching n }

-- An exception that nothing catches ends the worker's task.
unfoldable pub worker_end : Outcome → BinanceFeedClient
worker_end (c, false) = record c { worker = waiting }
worker_end (c, true) = record c { worker = dead }

unfoldable pub on_load :
    BinanceFeedClient → ℕ → Receipt → Option (BookEngine × ApplyStatus) → BinanceFeedClient
unfolding worker_end retry
on_load c n r none = record c { worker = dead }
on_load c n r (some (b, applied)) =
    worker_end (publish (record (count "resync_completed" c) { engine = b }) r none)
on_load c n r (some (b, gap_detected)) = retry n (record (count "gap_detected" c) { engine = b })
on_load c n r (some (b, snapshot_stale)) =
    retry n (record (count "snapshot_stale_retry" c) { engine = b })
on_load c n r (some (b, buffered)) =
    retry n (record (count "snapshot_stale_retry" c) { engine = b })

unfoldable pub on_fetch : BinanceFeedClient → ℕ → Receipt → FetchResult → BinanceFeedClient
unfolding on_load
on_fetch c n r (fetched snap) = on_load c n r (load_snapshot c.engine snap)
on_fetch c n r retry_limit_exceeded = give_up (count "snapshot_fetch_failed" c)
on_fetch c n r raised = record c { worker = dead }

-- `_resync_worker` behind its wait
unfoldable pub wake : BinanceFeedClient → BinanceFeedClient
wake c =
    if is_live c.engine.state
    then record c { resync_needed = false }
    else retry c.snapshot_retry_limit
        (record c { resync_needed = false; buffered_since_resync = 0 })
