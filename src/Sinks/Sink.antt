-- ===== src/Sinks/Sink.antt =====
-- `ParquetSink` of src/l2_pipeline/sinks/parquet_sink.py. Times are clock ticks, and every reading of the
-- clock is an argument; `time.monotonic` never goes back, so `-` on ℕ is exact. Rows that arrive
-- while `_consume` waits are rows that were put before it waits.
pub mod Groups
pub mod Calls
pub mod Consume
pub mod Accepted
use Prim.Native.String.{String}
use text.Mathlib.Text.{◌==◌ as str_eq}
use text.Mathlib.TextEquality.{eq_iff}
use l2_orderbook_pipeline.Common.{
  ℕ, zero, suc, ◌+◌, ◌-◌, ◌*◌, ◌/◌, ◌≤◌, ◌<◌, max, List, [], ◌∷◌, ◌++◌, Option, none, some, ◌≡◌,
  ◌↔◌, refl, arith, Bool, true, false, not, ◌&&◌, ◌||◌, ◌==◌, leb, ltb, if◌then◌else◌, length, Eq,
}
use l2_orderbook_pipeline.Common.Dict
use l2_orderbook_pipeline.Sinks.Queue
use l2_orderbook_pipeline.Sinks.Queue.{BoundedRowQueue, qsize}
use l2_orderbook_pipeline.Sinks.Rows.{SnapshotRow, Table}
use l2_orderbook_pipeline.Sinks.Disk.{Disk, Parquet}
use l2_orderbook_pipeline.Sinks.Writer
use l2_orderbook_pipeline.Sinks.Writer.{RotatingWriter, hour_key_for, init, write_batch, finalize}

-- `(exchange, symbol)`
pub record WriterKey : Type 0 where
  pub exchange : String
  pub symbol : String

-- `(row.exchange, row.symbol, _hour_key_for(row.ts_wall_ns))`
pub record GroupKey : Type 0 where
  pub writer : WriterKey
  pub hour : ℕ

abbrev pub writer_key_eq : WriterKey → WriterKey → Bool
writer_key_eq a b = str_eq a.exchange b.exchange && str_eq a.symbol b.symbol

pub writer_key_eq_iff : (a b : WriterKey) → (writer_key_eq a b ≡ true) ↔ (a ≡ b)
writer_key_eq_iff a b = ground (arith, eq_iff a.exchange b.exchange, eq_iff a.symbol b.symbol)

abbrev pub group_key_eq : GroupKey → GroupKey → Bool
group_key_eq a b = writer_key_eq a.writer b.writer && a.hour == b.hour

pub group_key_eq_iff : (a b : GroupKey) → (group_key_eq a b ≡ true) ↔ (a ≡ b)
group_key_eq_iff a b =
    ground
      (arith, eq_iff a.writer.exchange b.writer.exchange, eq_iff a.writer.symbol b.writer.symbol)

instance abbrev pub writer_key_Eq : Eq WriterKey
writer_key_Eq = record { beq = writer_key_eq; beq_iff = writer_key_eq_iff }

instance abbrev pub group_key_Eq : Eq GroupKey
group_key_Eq = record { beq = group_key_eq; beq_iff = group_key_eq_iff }

abbrev pub key_of : SnapshotRow → GroupKey
key_of row = record {
  writer = record { exchange = row.exchange; symbol = row.symbol };
  hour = hour_key_for row.ts_wall_ns;
}

abbrev pub Groups : Type 0
Groups = List (GroupKey × List SnapshotRow)

abbrev pub or_empty : Option (List SnapshotRow) → List SnapshotRow
or_empty none = []
or_empty (some rows) = rows

-- `groups[key].append(row)` on a `defaultdict(list)`
unfoldable pub add_row : Groups → SnapshotRow → Groups
add_row g row = Dict.set (key_of row) (or_empty (Dict.get (key_of row) g) ++ row ∷ []) g

unfoldable pub group_rows : Groups → List SnapshotRow → Groups
group_rows g [] = g
group_rows g (row ∷ rows) = group_rows (add_row g row) rows

pub record SinkConfig : Type 0 where
  pub depth_levels : ℕ
  pub batch_size : ℕ
  pub flush_interval : ℕ
  pub checkpoint_interval : ℕ
  pub stall_timeout : ℕ

-- What the clock says at the places of one round of `_consume`.
pub record Readings : Type 0 where
  pub at_start : ℕ
  pub in_first_flush : ℕ → ℕ
  pub after_first_flush : ℕ
  pub after_get : ℕ
  pub at_end : ℕ
  pub in_last_flush : ℕ → ℕ

abbrev pub is_empty : List SnapshotRow → Bool
is_empty [] = true
is_empty (_ ∷ _) = false

-- `asyncio.wait_for(queue.get(), timeout)`: with no time left the get is cancelled before it runs.
pub wait_for_row :
    ℕ → BoundedRowQueue SnapshotRow → Option (SnapshotRow × BoundedRowQueue SnapshotRow)
wait_for_row timeout q = if timeout == 0 then none else Queue.get q

module _ (pq : Parquet Table) where
  open pq use {File}

  pub record Sink : Type 0 where
    pub config : SinkConfig
    pub queue : BoundedRowQueue SnapshotRow
    pub writers : List (WriterKey × RotatingWriter)
    pub disk : Disk File
    pub rows_written : ℕ
    pub batches_flushed : ℕ
    pub buffer : List SnapshotRow
    pub last_flush : ℕ
    pub last_progress_at : ℕ

  abbrev pub writer_or_new : SinkConfig → WriterKey → Option RotatingWriter → RotatingWriter
  writer_or_new c k none = init k.exchange k.symbol c.depth_levels c.checkpoint_interval
  writer_or_new c k (some w) = w

  -- What a method leaves, and whether it raises.
  abbrev pub Outcome : Type 0
  Outcome = Sink × Bool

  -- What comes next, unless the method raises.
  unfoldable pub and_then : Outcome → (Sink → Outcome) → Outcome
  and_then (s, true) next = (s, true)
  and_then (s, false) next = next s

  -- Behind `write_batch`: the writer is in the dict and has its new state either way.
  unfoldable pub after_write : Sink → WriterKey → List SnapshotRow → Writer.Outcome pq → Outcome
  after_write s k rows ((w, d), true) =
      (record s { writers = Dict.set k w s.writers; disk = d }, true)
  after_write s k rows ((w, d), false) = (
    record s {
      writers = Dict.set k w s.writers;
      disk = d;
      rows_written = s.rows_written + length rows;
    },
    false,
  )

  -- One group of `_flush`; `now` is the clock's reading in `write_batch`.
  unfoldable pub flush_group : Sink → ℕ → WriterKey → List SnapshotRow → Outcome
  flush_group s now k rows =
      after_write s k rows
        (write_batch pq (writer_or_new s.config k (Dict.get k s.writers)) s.disk now rows)

  -- The loop over the groups; `clock i` is the reading for the i-th group.
  unfoldable pub flush_groups : Sink → (ℕ → ℕ) → Groups → Outcome
  flush_groups s clock [] = (s, false)
  flush_groups s clock ((k, rows) ∷ gs) =
      and_then (flush_group s (clock 0) k.writer rows) (λ t. flush_groups t (λ i. clock (suc i)) gs)

  unfoldable pub flush : Sink → (ℕ → ℕ) → List SnapshotRow → Outcome
  flush s clock rows =
      and_then (flush_groups s clock (group_rows [] rows))
        (λ t. (record t { batches_flushed = t.batches_flushed + 1 }, false))

  -- `if self._buffer: self._flush(self._buffer); self._buffer = []`
  unfoldable pub flush_buffer : Sink → (ℕ → ℕ) → Outcome
  flush_buffer s clock =
      if is_empty s.buffer
      then (s, false)
      else and_then (flush s clock s.buffer) (λ t. (record t { buffer = [] }, false))

  -- The top of the loop: the sink, and the timeout that is given to `wait_for`.
  unfoldable pub open_window : Sink → Readings → Outcome × ℕ
  open_window s r =
      let elapsed = r.at_start - s.last_flush in
      if leb s.config.flush_interval elapsed
      then (
        and_then (flush_buffer s r.in_first_flush)
            (λ t. (record t { last_flush = r.after_first_flush }, false)),
        s.config.flush_interval,
      )
      else ((s, false), s.config.flush_interval - elapsed)

  pub receive : Sink → ℕ → Option (SnapshotRow × BoundedRowQueue SnapshotRow) → Sink
  receive s now none = s
  receive s now (some (row, q)) = record s {
    queue = q;
    buffer = s.buffer ++ row ∷ [];
    last_progress_at = now;
  }

  unfoldable pub receive_one : Sink → ℕ → ℕ → Sink
  unfolding wait_for_row receive
  receive_one s timeout now = receive s now (wait_for_row timeout s.queue)

  -- The bottom of the loop.
  pub is_due : Sink → ℕ → Bool
  is_due s now =
      leb s.config.batch_size (length s.buffer)
      || (not (is_empty s.buffer) && leb s.config.flush_interval (now - s.last_flush))

  unfoldable pub flush_if_due : Sink → Readings → Outcome
  unfolding is_due
  flush_if_due s r =
      if is_due s r.at_end
      then and_then (flush s r.in_last_flush s.buffer) (λ t.
        (record t { buffer = []; last_flush = r.at_end; last_progress_at = r.at_end }, false))
      else (s, false)

  -- One round of the loop of `_consume`; an exception ends the loop.
  unfoldable pub consume_round : Sink → Readings → Outcome
  consume_round s r =
      let (o, timeout) = open_window s r in
      and_then o (λ t. flush_if_due (receive_one t timeout r.after_get) r)

  -- One round of `_watchdog`: whether it raises.
  unfoldable pub watchdog_raises : Sink → ℕ → Bool
  watchdog_raises s now =
      leb s.config.stall_timeout (now - s.last_progress_at) && ltb 0 (qsize s.queue)

  -- `writer.close()` for each writer, in the `finally` of `run`
  close_all :
      Disk File → List (WriterKey × RotatingWriter) → List (WriterKey × RotatingWriter) × Disk File
  close_all d [] = ([], d)
  close_all d ((k, w) ∷ ws) =
      let (w', d') = finalize pq w d in let (ws', d'') = close_all d' ws in ((k, w') ∷ ws', d'')

  -- The `finally` of `run`; if its flush raises, the writers stay open.
  unfoldable pub shut_down : Sink → (ℕ → ℕ) → Outcome
  unfolding close_all
  shut_down s clock = and_then (flush_buffer s clock) (λ t.
      let (ws, d) = close_all t.disk t.writers in (record t { writers = ws; disk = d }, false))
