-- ===== src/Sinks/Sink/Accepted.antt =====
-- When nothing in the sink raises.
use l2_orderbook_pipeline.Common.{
  ℕ, suc, List, [], ◌∷◌, ◌≡◌, refl, Bool, true, false, Bool-cases, inl, inr, if◌then◌else◌, leb,
  ◌-◌,
}
use l2_orderbook_pipeline.Sinks.Rows.{SnapshotRow, Table, rows_to_table, fill_columns}
use l2_orderbook_pipeline.Sinks.Disk.{Parquet, Disk}
use l2_orderbook_pipeline.Sinks.Writer
use l2_orderbook_pipeline.Sinks.Writer.{RotatingWriter, write_rows, write_batch}
use l2_orderbook_pipeline.Sinks.Sink.{
  Sink, WriterKey, writer_key_Eq, Groups, Readings, Outcome, and_then, after_write, flush_group,
  flush_groups, flush, flush_buffer, open_window, receive_one, flush_if_due, is_due, is_empty,
  group_rows, consume_round,
}

-- pyarrow takes the columns of every batch.
module _ (pq : Parquet Table) (taken : (t : Table) → pq.accepts t ≡ true) where
  write_rows-quiet :
      (w : RotatingWriter) (d : Disk pq.File) (rows : List SnapshotRow) (depth : ℕ)
      → (write_rows pq w d (rows_to_table pq.accepts rows depth)).1 ≡ false
  unfolding write_rows rows_to_table
  write_rows-quiet w d rows depth = rw (taken (fill_columns rows depth)) refl

  write_batch-quiet :
      (w : RotatingWriter) (d : Disk pq.File) (now : ℕ) (rows : List SnapshotRow)
      → (write_batch pq w d now rows).1 ≡ false
  unfolding write_batch
  write_batch-quiet w d now [] = refl
  write_batch-quiet w d now (row ∷ rows) = write_rows-quiet _ _ (row ∷ rows) _

  after_write-quiet :
      (s : Sink pq) (k : WriterKey) (rows : List SnapshotRow) (o : Writer.Outcome pq)
      → o.1 ≡ false
      → (after_write pq s k rows o).1 ≡ false
  unfolding after_write
  after_write-quiet s k rows (o, true) h = cc
  after_write-quiet s k rows (o, false) h = refl

  and_then-all_quiet :
      (o : Outcome pq) (next : Sink pq → Outcome pq)
      → o.1 ≡ false
      → ((t : Sink pq) → (next t).1 ≡ false)
      → (and_then pq o next).1 ≡ false
  unfolding and_then
  and_then-all_quiet (s, true) next h k = cc
  and_then-all_quiet (s, false) next h k = k s

  flush_groups-quiet :
      (gs : Groups) (s : Sink pq) (clock : ℕ → ℕ) → (flush_groups pq s clock gs).1 ≡ false
  unfolding flush_groups flush_group
  flush_groups-quiet [] s clock = refl
  flush_groups-quiet ((k, rows) ∷ gs) s clock =
      and_then-all_quiet _ _
        (after_write-quiet s k.writer rows _ (write_batch-quiet _ _ (clock 0) rows))
        (λ t. flush_groups-quiet gs t (λ i. clock (suc i)))

  -- While pyarrow takes the columns of every batch, no flush raises.
  pub flush-quiet :
      (s : Sink pq) (clock : ℕ → ℕ) (rows : List SnapshotRow) → (flush pq s clock rows).1 ≡ false
  unfolding flush
  flush-quiet s clock rows =
      and_then-all_quiet _ _ (flush_groups-quiet (group_rows [] rows) s clock) (λ t. refl)

  unless_quiet :
      (b : Bool) (o : Outcome pq) (s : Sink pq)
      → o.1 ≡ false
      → (if b then o else (s, false)).1 ≡ false
  unless_quiet true o s h = h
  unless_quiet false o s h = refl

  flush_buffer-quiet : (s : Sink pq) (clock : ℕ → ℕ) → (flush_buffer pq s clock).1 ≡ false
  unfolding flush_buffer
  flush_buffer-quiet s clock = elim (Bool-cases (is_empty s.buffer)) [
    | inl y ↦ rw y refl
    | inr y ↦ rw y (and_then-all_quiet _ _ (flush-quiet s clock s.buffer) (λ t. refl))
  ]

  open_window-quiet : (s : Sink pq) (r : Readings) → (open_window pq s r).0.1 ≡ false
  unfolding open_window
  open_window-quiet s r =
      elim (Bool-cases (leb s.config.flush_interval (r.at_start - s.last_flush))) [
        | inl y ↦ rw y (and_then-all_quiet _ _ (flush_buffer-quiet s r.in_first_flush) (λ t. refl))
        | inr y ↦ rw y refl
      ]

  flush_if_due-quiet : (s : Sink pq) (r : Readings) → (flush_if_due pq s r).1 ≡ false
  unfolding flush_if_due
  flush_if_due-quiet s r =
      unless_quiet (is_due pq s r.at_end) _ s
        (and_then-all_quiet _ _ (flush-quiet s r.in_last_flush s.buffer) (λ t. refl))

  -- While pyarrow takes the columns of every batch, no round of the loop raises.
  pub consume_round-quiet : (s : Sink pq) (r : Readings) → (consume_round pq s r).1 ≡ false
  unfolding consume_round
  consume_round-quiet s r =
      and_then-all_quiet _ _ (open_window-quiet s r)
        (λ t. flush_if_due-quiet (receive_one pq t (open_window pq s r).1 r.after_get) r)
