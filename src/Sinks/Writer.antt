-- ===== src/Sinks/Writer.antt =====
-- `_RotatingWriter` of src/l2_pipeline/sinks/parquet_sink.py. A method returns the writer and the disk; no
-- operation on files raises. An open
-- `ParquetWriter` is the pair of its paths; what was written to it so far is the content of its
-- `.tmp` file. Opening creates or truncates that file, and closing adds no rows.
pub mod Kept
pub mod Batches
pub mod Restart
use Prim.Native.String.{String}
use Prim.Native.Nat.{◌%◌}
use l2_orderbook_pipeline.Common.{
  ℕ, ◌+◌, ◌-◌, ◌/◌, List, [], ◌∷◌, Option, none, some, Bool, true, false, not, ◌||◌, ◌==◌, leb,
  if◌then◌else◌,
}
use l2_orderbook_pipeline.Sinks.Rows.{SnapshotRow, Table, rows_to_table}
use l2_orderbook_pipeline.Sinks.Disk.{Directory, FilePath, Disk, write_file, replace_file, Parquet}

-- `_hour_key_for`: the hour of a wall clock reading, counted from 1970-01-01T00. (The rounding of
-- the reading to microseconds is left out.)
unfoldable pub hour_key_for : ℕ → ℕ
hour_key_for ts_wall_ns = ts_wall_ns / 3_600_000_000_000

-- `_partition_dir`
unfoldable pub partition_dir : String → String → ℕ → Directory
partition_dir exchange symbol hour_key = record {
  exchange = exchange;
  symbol = symbol;
  date = hour_key / 24;
  hour = hour_key % 24;
}

-- An open writer: `_tmp_path` and `_final_path`.
pub record OpenFile : Type 0 where
  pub tmp_path : FilePath
  pub final_path : FilePath

pub record RotatingWriter : Type 0 where
  pub exchange : String
  pub symbol : String
  pub depth_levels : ℕ
  pub checkpoint_interval : ℕ
  pub writer : Option OpenFile
  pub hour_key : Option ℕ
  pub sequence : ℕ
  pub opened_at : ℕ

unfoldable pub init : String → String → ℕ → ℕ → RotatingWriter
init exchange symbol depth interval = record {
  exchange = exchange;
  symbol = symbol;
  depth_levels = depth;
  checkpoint_interval = interval;
  writer = none;
  hour_key = none;
  sequence = 0;
  opened_at = 0;
}

-- `hour_key == self._hour_key`
abbrev pub same_hour : ℕ → Option ℕ → Bool
same_hour h none = false
same_hour h (some k) = h == k

-- `directory / filename`, or the same with `.tmp`
abbrev pub path_of : RotatingWriter → ℕ → ℕ → Bool → FilePath
path_of w hour part tmp = record {
  directory = partition_dir w.exchange w.symbol hour;
  part = part;
  is_tmp = tmp;
}

module _ (pq : Parquet Table) where
  open pq use {File, create, write_table, accepts}

  -- `_finalize` by what `self._writer` is
  pub finalize_at : RotatingWriter → Disk File → Option OpenFile → RotatingWriter × Disk File
  finalize_at w d none = (w, d)
  finalize_at w d (some o) = (record w { writer = none }, replace_file o.tmp_path o.final_path d)

  unfoldable pub finalize : RotatingWriter → Disk File → RotatingWriter × Disk File
  unfolding finalize_at
  finalize w d = finalize_at w d w.writer

  unfoldable pub open_file : RotatingWriter → Disk File → ℕ → ℕ → RotatingWriter × Disk File
  open_file w d hour now =
      let part = if same_hour hour w.hour_key then w.sequence else 0 in
      let tmp = path_of w hour part true in
      (
        record w {
          writer = some (record { tmp_path = tmp; final_path = path_of w hour part false });
          hour_key = some hour;
          sequence = part + 1;
          opened_at = now;
        },
        write_file tmp create d,
      )

  -- `self._writer is None or hour_key != self._hour_key or (now - self._opened_at) >= …`
  pub needs_rotation : RotatingWriter → ℕ → ℕ → Option OpenFile → Bool
  needs_rotation w hour now none = true
  needs_rotation w hour now (some o) =
      not (same_hour hour w.hour_key) || leb w.checkpoint_interval (now - w.opened_at)

  unfoldable pub rotate : RotatingWriter → Disk File → ℕ → ℕ → RotatingWriter × Disk File
  unfolding needs_rotation
  rotate w d hour now =
      if needs_rotation w hour now w.writer
      then (let (w', d') = finalize w d in open_file w' d' hour now)
      else (w, d)

  -- `self._writer.write_table(…)`: the table goes behind what the `.tmp` file holds.
  pub append_to : OpenFile → Disk File → Table → Option File → Disk File
  append_to o d t none = d
  append_to o d t (some f) = write_file o.tmp_path (write_table f t) d

  pub append_table : Option OpenFile → Disk File → Table → Disk File
  append_table none d t = d
  append_table (some o) d t = append_to o d t (d o.tmp_path)

  -- What `write_batch` leaves, and whether it raises.
  abbrev pub Outcome : Type 0
  Outcome = (RotatingWriter × Disk File) × Bool

  -- The last line of `write_batch`; where `rows_to_table` raises, nothing is written.
  unfoldable pub write_rows : RotatingWriter → Disk File → Option Table → Outcome
  write_rows w d none = ((w, d), true)
  write_rows w d (some t) = ((w, append_table w.writer d t), false)

  unfoldable pub write_batch : RotatingWriter → Disk File → ℕ → List SnapshotRow → Outcome
  unfolding append_table append_to write_rows
  write_batch w d now [] = ((w, d), false)
  write_batch w d now (row ∷ rows) =
      let (w', d') = rotate w d (hour_key_for row.ts_wall_ns) now in
      write_rows w' d' (rows_to_table accepts (row ∷ rows) w.depth_levels)

  abbrev pub close : RotatingWriter → Disk File → RotatingWriter × Disk File
  close w d = finalize w d
