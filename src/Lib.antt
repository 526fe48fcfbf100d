-- ===== src/Lib.antt =====
-- Verification of the level-2 order book pipeline (src/l2_pipeline).
--
-- The program keeps exchanges' order books from their websocket feeds and writes rows of the best levels
-- to Parquet files. A feed client hands each parsed event to a `BookEngine`, builds a row when the
-- event is applied, and puts it into a `BoundedRowQueue`; `ParquetSink` takes rows from the queue,
-- groups them by exchange, symbol and hour and hands each group to a `_RotatingWriter`. A
-- `FeedSupervisor` restarts crashed feeds and ends everything when the sink ends. A simulation
-- drives the engine from a market with known books through injected faults. `load_config` reads what is to
-- be run, `_run_pipeline` puts it together, and `PipelineCollector` reads counters and states for metrics.
--
-- Files, and the code that each models (paths below src/l2_pipeline):
--   Book/Types            book/types.py
--   Book/Levels           `apply_levels` of book/engine.py, and snapshots read into dictionaries
--   Book/Engine           `BookEngine`: `apply_event`, `_apply_live`, `load_snapshot` (`load_survivors`,
--                         `replay` is its loop), `invalidate`, `full_book`
--   Book/Top              `top_levels`; Book/Sorting has its sort
--   Book/Invariant, Book/Sync, Book/Outcomes, Book/Loading, Book/Depth: the engine's invariant, the truth of
--                         its book, its results
--   Feeds/Connection      `full_jitter_delay` and `ConnectionManager` of feeds/connection.py
--   Feeds/RateLimit       `TokenBucket` of feeds/ratelimit.py
--   Feeds/Envelope        feeds/envelope.py
--   Feeds/Json, Feeds/Stats: the values of `json.loads` with the operations on them, and the clients' counters
--   Feeds/Truth           rows that are true of an exchange, for both clients
--   Feeds/Binance         `_fetch_snapshot` and `_raise_if_reconnect_budget_exhausted` of feeds/binance.py; Retries
--                         is about it; Parsing has the parsers
--   Feeds/Binance/Client  `BinanceFeedClient`: its state, what the reader loop does with a diff, losing a
--                         connection, and `_perform_resync`; Client/Run has `run`, `_reader_loop` and
--                         `_resync_worker`. Reads, Moves, Stuck, Awake, Liveness, Truth, Rows, Published,
--                         Blames and Budget are about it
--   Feeds/Okx             Parsing: the parsers of feeds/okx.py; Client: the state of `OKXFeedClient`, losing a
--                         connection, and the resync worker's steps; Client/Messages: its handlers;
--                         Client/Run: `run`. Effects, Truth, Rows, Within, Resync, Bounds and Pushes are about it
--   Sinks/Queue           `BoundedRowQueue` of sinks/parquet_sink.py; Order and Fifo are about it
--   Sinks/Rows            `SnapshotRow` and `rows_to_table`
--   Sinks/Disk            the files; pyarrow's writer and its conversion of columns as the parameter `Parquet`
--   Sinks/Writer          `_RotatingWriter`; Kept, Batches and Restart are about it
--   Sinks/Sink            `ParquetSink`: `_flush`, the rounds of `_consume`, the test of `_watchdog`, and
--                         the `finally` of `run`; Groups, Calls, Consume and Accepted are about it
--   Supervisor            `FeedSupervisor` of supervisor.py; Crashes, Budget, Lifetime and Isolation
--                         are about it
--   Simulation/Market, Simulation/Faults, Simulation/Driver: simulation/market.py, faults.py, driver.py;
--                         Keys, Fair, Uncrossed, History, Oracle, Log, Recovery, Truth, Converged and Fresh are about them
--   Config                `load_config` of config.py; Accepted, Escapes and Written are about it
--   Metrics               `PipelineCollector` of metrics.py; Scrapes is about it
--   App                   `_build_client`, `_CurrentFeedClient`, `_make_feed_factory` and the loop of `_run_pipeline`
--                         of app.py; Wiring is about it
--   Common                lists, integers, dictionaries and Boolean tests
--
-- How the code is read. A method is a function from the old state to the new one beside its result; an
-- exception is `none` or a constructor of a result type. A Python integer that can be negative is
-- an integer by two natural parts; a decimal is the number of its smallest units; a dictionary is
-- an association list in insertion order. A clock's reading and a random draw are arguments. Tasks
-- that the event loop interleaves are sequences of events or calls in any order. A feed client with the
-- tasks of its `run` is one state; an event is the end of an `await` (a connection, a message, a timeout, a
-- fetch, a send), and the code up to the next `await` is one step. How Python reads and writes numbers
-- is the parameter `Numerals`. What ends a client's `run` is the argument of its phase `over`; a cancellation
-- from outside is no event of a client. The supervisor takes what a factory makes of its cancellation as an
-- event: it may let it out, return, or raise an exception of its own.
--
-- Bounds. Every loop is structural recursion on its list, but for the retries of `_sync`, `_perform_resync` and
-- `_fetch_snapshot`, whose counts are the source's own limits, and the driver's `run`, whose count is its
-- `steps`. The exponent 1024 in `full_jitter_delay` is the first at which Python refuses the
-- conversion of the power of two to a float.
--
-- Not modelled: the clients' heartbeats and their metrics, the rest of app.py (signals, heartbeat, server, command
-- line), logging_setup.py and scripts/stress_replay.py; rounding of floats; errors of the
-- file system; NaN and infinite decimals; the
-- free-text details of results and log records; the choice of seeds, since draws are arguments.
pub mod App
pub mod Book
pub mod Common
pub mod Config
pub mod Feeds
pub mod Metrics
pub mod Simulation
pub mod Sinks
pub mod Supervisor
