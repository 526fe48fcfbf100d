-- ===== src/Sinks/Tests.antt =====
-- Tests of the sink's parts, and their theorems at concrete inputs.
use l2_orderbook_pipeline.Common.{
  ℕ, ◌+◌, ◌<◌, List, [], ◌∷◌, ◌++◌, none, some, ◌≡◌, refl, arith, Bool, true, false, leb,
  if◌then◌else◌, length, All,
}
use l2_orderbook_pipeline.Common.Int.{pos}
use l2_orderbook_pipeline.Common.Dict
use l2_orderbook_pipeline.Common.Dict.{Unique}
use l2_orderbook_pipeline.Sinks.Queue.{BoundedRowQueue, qsize}
use l2_orderbook_pipeline.Sinks.Queue.Order.{put_all, last, put_all-rows}
use l2_orderbook_pipeline.Sinks.Queue.Fifo.{
  unused, putting, getting, IsFifo, operate, operate-IsFifo,
}
use l2_orderbook_pipeline.Sinks.Rows.{SnapshotRow, Table, rows_to_table, table_of}
use l2_orderbook_pipeline.Sinks.Rows.Columns.{rows_to_table-cells}
use l2_orderbook_pipeline.Sinks.Disk.{Disk, FilePath, Parquet, write_file}
use l2_orderbook_pipeline.Sinks.Writer
use l2_orderbook_pipeline.Sinks.Writer.{path_of, close, hour_key_for}
use l2_orderbook_pipeline.Sinks.Writer.Batches.{
  Batch, hour_of, Onwards, write_batches, no_batch_lost,
}
use l2_orderbook_pipeline.Sinks.Writer.Kept.{Finalized, get-write_self}
use l2_orderbook_pipeline.Sinks.Writer.Restart.{after_one_batch, restart_overwrites}
use l2_orderbook_pipeline.Sinks.Sink.{
  Sink, Readings, GroupKey, Groups, or_empty, group_key_Eq, flush, consume_round,
}
use l2_orderbook_pipeline.Sinks.Sink.Groups.{rows_of}
use l2_orderbook_pipeline.Sinks.Sink.Consume.{consume_round-rows}
use l2_orderbook_pipeline.Sinks.Sink.Calls.{
  Call, given, row_count, calls_of, write_calls, files, flush_writes_groups,
}
use l2_orderbook_pipeline.Sinks.Sink.Accepted.{consume_round-quiet, flush-quiet}

-- A file as the list of its tables.
abbrev tables_file : Parquet Table
tables_file = record {
  File = List Table;
  create = [];
  accepts = λ t. true;
  write_table = λ f t. f ++ t ∷ [];
  tables = λ f. f;
  tables-create = refl;
  tables-write_table = λ f t. refl;
}

abbrev bounded : BoundedRowQueue ℕ
bounded = record { maxsize = 2; rows = 7 ∷ []; rows_dropped = 0 }

put_all-rows_example : (put_all bounded (8 ∷ 9 ∷ [])).rows ≡ last 2 (7 ∷ 8 ∷ 9 ∷ [])
put_all-rows_example = put_all-rows (8 ∷ 9 ∷ []) bounded (omega arith) (λ h. omega arith)

operate-IsFifo_example :
    IsFifo {A = ℕ} (operate (unused 2) (putting 7 ∷ putting 8 ∷ putting 9 ∷ getting ∷ []))
operate-IsFifo_example = operate-IsFifo 2 (putting 7 ∷ putting 8 ∷ putting 9 ∷ getting ∷ [])

abbrev row : SnapshotRow
row = record {
  exchange = "binance";
  symbol = "BTCUSDT";
  ts_exchange_ms = none;
  ts_local_ns = 5;
  ts_wall_ns = 7_200_000_000_000;
  last_applied_id = pos 42;
  bids = record { price = pos 9999; qty = pos 700 } ∷ [];
  asks = [];
}

abbrev other : SnapshotRow
other = record row { symbol = "ETHUSDT" }

-- Of a pyarrow that refuses the table of two rows, and takes that of one.
abbrev one_row_at_most : Table → Bool
one_row_at_most t = leb (length t.ts_wall_ns) 1

rows_to_table-cells_example :
    rows_to_table one_row_at_most (row ∷ []) 2
    ≡ (if one_row_at_most (table_of (row ∷ []) 2) then some (table_of (row ∷ []) 2) else none)
rows_to_table-cells_example = rows_to_table-cells one_row_at_most (row ∷ []) 2

two_rows_refused : rows_to_table one_row_at_most (row ∷ row ∷ []) 2 ≡ none
two_rows_refused = rows_to_table-cells one_row_at_most (row ∷ row ∷ []) 2

abbrev sink : Sink tables_file
sink = record {
  config = record {
    depth_levels = 2;
    batch_size = 3;
    flush_interval = 5000;
    checkpoint_interval = 60000;
    stall_timeout = 30000;
  };
  queue = record { maxsize = 10; rows = other ∷ []; rows_dropped = 0 };
  writers = [];
  disk = λ p. none;
  rows_written = 0;
  batches_flushed = 0;
  buffer = row ∷ [];
  last_flush = 1000;
  last_progress_at = 1000;
}

-- A round that begins long after the interval went by.
abbrev late : Readings
late = record {
  at_start = 90000;
  in_first_flush = λ i. 90000;
  after_first_flush = 90001;
  after_get = 90002;
  at_end = 90003;
  in_last_flush = λ i. 90003;
}

consume_round-rows_example :
    let t = (consume_round tables_file sink late).0 in
    ((calls : List Call) × (write_calls tables_file sink.config (files tables_file sink) calls
        ≡ files tables_file t)
      × ((k : GroupKey)
          → given k calls ++ rows_of k (t.buffer ++ t.queue.rows)
            ≡ rows_of k (sink.buffer ++ sink.queue.rows))
      × (t.rows_written ≡ sink.rows_written + row_count calls))
    × (0 < qsize sink.queue → qsize t.queue + 1 ≡ qsize sink.queue)
    × (0 < sink.config.batch_size → length t.buffer < sink.config.batch_size)
consume_round-rows_example =
    consume_round-rows tables_file sink late (omega arith)
      (consume_round-quiet tables_file (λ t. refl) sink late)

flush_writes_groups_example :
    let rows = row ∷ other ∷ row ∷ [] in
    let t = (flush tables_file sink (λ i. 90000) rows).0 in
    (gs : Groups) × (write_calls tables_file sink.config
        (files tables_file sink)
        (calls_of (λ i. 90000) gs)
      ≡ files tables_file t)
    × Unique gs
    × ((k : GroupKey) → or_empty (Dict.get k gs) ≡ rows_of k rows)
    × (t.rows_written ≡ sink.rows_written + length rows)
flush_writes_groups_example =
    flush_writes_groups tables_file sink (λ i. 90000) (row ∷ other ∷ row ∷ [])
      (flush-quiet tables_file (λ t. refl) sink (λ i. 90000) (row ∷ other ∷ row ∷ []))

abbrev empty_disk : Disk (List Table)
empty_disk p = none

-- Two batches of one hour, the second past the checkpoint, and one of the next hour.
abbrev batches : List Batch
batches =
    record { now = 1000; first = row; rest = [] }
    ∷ record { now = 90000; first = row; rest = row ∷ [] }
    ∷ record { now = 91000; first = record row { ts_wall_ns = 10_800_000_000_000 }; rest = [] }
    ∷ []

batches-Onwards : Onwards none batches
unfolding hour_key_for
batches-Onwards = (tt, (omega arith, (omega arith, tt)))

no_batch_lost_example :
    let w = Writer.init "binance" "BTCUSDT" 2 60000 in
    let r = write_batches tables_file w empty_disk batches in
    let c = close tables_file r.0 r.1 in
    All
      (λ b.
        (t : Table)
        → rows_to_table tables_file.accepts (b.first ∷ b.rest) 2 ≡ some t
        → Finalized tables_file c.0 c.1 t)
      batches
no_batch_lost_example =
    no_batch_lost tables_file "binance" "BTCUSDT" 2 60000 empty_disk batches (λ h k. refl)
      batches-Onwards

abbrev restarted : Batch
restarted = record { now = 1000; first = row; rest = [] }

abbrev part_zero : FilePath
part_zero = path_of (Writer.init "binance" "BTCUSDT" 2 60000) (hour_of restarted) 0 false

-- An earlier process left a file for the hour.
abbrev old_disk : Disk (List Table)
old_disk = write_file part_zero (table_of (other ∷ []) 2 ∷ []) empty_disk

restart_overwrites_example :
    (g : List Table) × (after_one_batch tables_file "binance" "BTCUSDT" 2 60000 old_disk restarted
        part_zero
      ≡ some g)
    × (g ≡ table_of (row ∷ []) 2 ∷ [])
restart_overwrites_example =
    restart_overwrites tables_file "binance" "BTCUSDT" 2 60000 old_disk restarted
      (table_of (other ∷ []) 2 ∷ []) (table_of (row ∷ []) 2)
      (get-write_self part_zero (table_of (other ∷ []) 2 ∷ []) empty_disk)
      (rows_to_table-cells tables_file.accepts (row ∷ []) 2)
