-- ===== src/Sinks/Sink/Calls.antt =====
-- What `ParquetSink._flush` asks of its writers, as a list of calls of `write_batch`.
use mathlib.Core.List.{append-nil, append_assoc}
use l2_orderbook_pipeline.Common.{
  ℕ, suc, ◌+◌, List, [], ◌∷◌, ◌++◌, none, some, ◌≡◌, refl, sym, subst, ap, ◌∙◌, arith, true, false,
  length, if◌then◌else◌, Bool-cases, inl, inr,
}
use l2_orderbook_pipeline.Common.Dict
use l2_orderbook_pipeline.Common.Dict.{Unique}
use l2_orderbook_pipeline.Sinks.Rows.{SnapshotRow, Table}
use l2_orderbook_pipeline.Sinks.Disk.{Disk, Parquet}
use l2_orderbook_pipeline.Sinks.Writer
use l2_orderbook_pipeline.Sinks.Writer.{RotatingWriter, write_batch}
use l2_orderbook_pipeline.Sinks.Sink.{
  Sink, SinkConfig, WriterKey, writer_key_Eq, GroupKey, group_key_Eq, group_key_eq,
  group_key_eq_iff, Groups, or_empty, Outcome, and_then, after_write, writer_or_new, group_rows,
  flush_group, flush_groups, flush,
}
use l2_orderbook_pipeline.Sinks.Sink.Groups.{
  rows_of, in_group, in_group-rows_of, group_rows-Unique, size, size-group_rows,
}

-- One call of `write_batch`: the clock's reading in it, the writer and hour it is for, and the rows.
pub record Call : Type 0 where
  pub now : ℕ
  pub group : GroupKey
  pub rows : List SnapshotRow

-- The rows that the calls give to a writer for an hour, in their order.
abbrev pub given : GroupKey → List Call → List SnapshotRow
given k [] = []
given k (c ∷ cs) = (if group_key_eq c.group k then c.rows else []) ++ given k cs

abbrev pub row_count : List Call → ℕ
row_count [] = 0
row_count (c ∷ cs) = length c.rows + row_count cs

pub given-append : (k : GroupKey) (a b : List Call) → given k (a ++ b) ≡ given k a ++ given k b
given-append k [] b = refl
given-append k (c ∷ a) b =
    let first = if group_key_eq c.group k then c.rows else [] in
    ap (λ rs. first ++ rs) (given-append k a b) ∙ sym (append_assoc first (given k a) (given k b))

pub row_count-append : (a b : List Call) → row_count (a ++ b) ≡ row_count a + row_count b
row_count-append [] b = omega arith
row_count-append (c ∷ a) b = omega (arith, row_count-append a b)

-- A call for each group.
abbrev pub calls_of : (ℕ → ℕ) → Groups → List Call
calls_of clock [] = []
calls_of clock ((k, rows) ∷ gs) =
    record { now = clock 0; group = k; rows = rows } ∷ calls_of (λ i. clock (suc i)) gs

row_count-calls_of : (gs : Groups) (clock : ℕ → ℕ) → row_count (calls_of clock gs) ≡ size gs
row_count-calls_of [] clock = refl
row_count-calls_of ((k, rows) ∷ gs) clock =
    omega (arith, row_count-calls_of gs (λ i. clock (suc i)))

given-absent :
    (k : GroupKey) (gs : Groups) (clock : ℕ → ℕ)
    → Dict.get k gs ≡ none
    → given k (calls_of clock gs) ≡ []
unfolding Dict.get
given-absent k [] clock h = refl
given-absent k ((j, rows) ∷ gs) clock h = elim (Bool-cases (group_key_eq j k)) [
  | inl y ↦
      let first : Dict.get k ((j, rows) ∷ gs) ≡ some rows = rw y refl in
      let clash = sym first ∙ h in cc
  | inr y ↦
      let later : Dict.get k ((j, rows) ∷ gs) ≡ Dict.get k gs = rw y refl in
      rw y (given-absent k gs (λ i. clock (suc i)) (sym later ∙ h))
]

given-calls_of :
    (k : GroupKey) (gs : Groups) (clock : ℕ → ℕ)
    → Unique gs
    → given k (calls_of clock gs) ≡ in_group k gs
unfolding Dict.get Unique
given-calls_of k [] clock u = refl
given-calls_of k ((j, rows) ∷ gs) clock u = elim (Bool-cases (group_key_eq j k)) [
  | inl y ↦
      let same = (group_key_eq_iff j k).0 y in
      let rest =
        given-absent k gs (λ i. clock (suc i)) (subst (λ i. Dict.get i gs ≡ none) same u.0) in
      rw y (ap (λ rs. rows ++ rs) rest ∙ append-nil rows)
  | inr y ↦ rw y (given-calls_of k gs (λ i. clock (suc i)) u.1)
]

module _ (pq : Parquet Table) where
  open pq use {File}

  abbrev pub Files : Type 0
  Files = List (WriterKey × RotatingWriter) × Disk File

  -- The writer of the call's exchange and symbol, a new one if there is none yet, gets the rows.
  abbrev pub write_call : SinkConfig → Files → Call → Files
  write_call config (ws, d) c =
      let k = c.group.writer in
      let o = write_batch pq (writer_or_new pq config k (Dict.get k ws)) d c.now c.rows in
      (Dict.set k o.0.0 ws, o.0.1)

  abbrev pub write_calls : SinkConfig → Files → List Call → Files
  write_calls config f [] = f
  write_calls config f (c ∷ cs) = write_calls config (write_call config f c) cs

  pub write_calls-append :
      (config : SinkConfig) (a b : List Call) (f : Files)
      → write_calls config f (a ++ b) ≡ write_calls config (write_calls config f a) b
  write_calls-append config [] b f = refl
  write_calls-append config (c ∷ a) b f = write_calls-append config a b (write_call config f c)

  abbrev pub files : Sink pq → Files
  files s = (s.writers, s.disk)

  -- From `s` to `t` the calls were made, their rows counted, and what waits was left alone.
  pub record Flushes (s t : Sink pq) (calls : List Call) : Type 0 where
    pub written : write_calls s.config (files s) calls ≡ files t
    pub counted : t.rows_written ≡ s.rows_written + row_count calls
    pub same_config : t.config ≡ s.config
    pub same_queue : t.queue ≡ s.queue
    pub same_buffer : t.buffer ≡ s.buffer

  pub and_then-quiet :
      (o : Outcome pq) (next : Sink pq → Outcome pq)
      → (and_then pq o next).1 ≡ false
      → (o.1 ≡ false) × (and_then pq o next ≡ next o.0)
  unfolding and_then
  and_then-quiet (s, true) next h = cc
  and_then-quiet (s, false) next h = (refl, refl)

  after_write-Flushes :
      (s : Sink pq) (now : ℕ) (k : GroupKey) (rows : List SnapshotRow) (o : Writer.Outcome pq)
      → write_batch pq
          (writer_or_new pq s.config k.writer (Dict.get k.writer s.writers))
          s.disk
          now
          rows
        ≡ o
      → (after_write pq s k.writer rows o).1 ≡ false
      → Flushes s
          (after_write pq s k.writer rows o).0
          (record { now = now; group = k; rows = rows } ∷ [])
  unfolding after_write
  after_write-Flushes s now k rows ((w, d), true) e h = cc
  after_write-Flushes s now k rows ((w, d), false) e h = record {
    written = ap (λ (x : Writer.Outcome pq). (Dict.set k.writer x.0.0 s.writers, x.0.1)) e;
    counted = omega arith;
    same_config = refl;
    same_queue = refl;
    same_buffer = refl;
  }

  flush_group-Flushes :
      (s : Sink pq) (now : ℕ) (k : GroupKey) (rows : List SnapshotRow)
      → (flush_group pq s now k.writer rows).1 ≡ false
      → Flushes s
          (flush_group pq s now k.writer rows).0
          (record { now = now; group = k; rows = rows } ∷ [])
  unfolding flush_group
  flush_group-Flushes s now k rows h = after_write-Flushes s now k rows _ refl h

  Flushes-trans :
      (s t u : Sink pq) (a b : List Call) → Flushes s t a → Flushes t u b → Flushes s u (a ++ b)
  Flushes-trans s t u a b f g = record {
    written =
        write_calls-append s.config a b (files s)
        ∙ ap (λ x. write_calls s.config x b) f.written
        ∙ ap (λ c. write_calls c (files t) b) (sym f.same_config)
        ∙ g.written;
    counted = omega (arith, f.counted, g.counted, row_count-append a b);
    same_config = g.same_config ∙ f.same_config;
    same_queue = g.same_queue ∙ f.same_queue;
    same_buffer = g.same_buffer ∙ f.same_buffer;
  }

  flush_groups-Flushes :
      (gs : Groups) (s : Sink pq) (clock : ℕ → ℕ)
      → (flush_groups pq s clock gs).1 ≡ false
      → Flushes s (flush_groups pq s clock gs).0 (calls_of clock gs)
  unfolding flush_groups
  flush_groups-Flushes [] s clock h = record {
    written = refl;
    counted = omega arith;
    same_config = refl;
    same_queue = refl;
    same_buffer = refl;
  }
  flush_groups-Flushes ((k, rows) ∷ gs) s clock h =
      let o = flush_group pq s (clock 0) k.writer rows in
      let next = λ (t : Sink pq). flush_groups pq t (λ i. clock (suc i)) gs in
      let (quiet, e) = and_then-quiet o next h in
      let call : Call = record { now = clock 0; group = k; rows = rows } in
      let rest = calls_of (λ i. clock (suc i)) gs in
      Flushes-trans s o.0 (and_then pq o next).0 (call ∷ []) rest
        (flush_group-Flushes s (clock 0) k rows quiet)
        (subst (λ (x : Outcome pq). Flushes o.0 x.0 rest) (sym e)
          (flush_groups-Flushes gs o.0 (λ i. clock (suc i))
            (ap (λ (x : Outcome pq). x.1) (sym e) ∙ h)))

  pub flush-Flushes :
      (s : Sink pq) (clock : ℕ → ℕ) (rows : List SnapshotRow)
      → (flush pq s clock rows).1 ≡ false
      → Flushes s (flush pq s clock rows).0 (calls_of clock (group_rows [] rows))
  unfolding flush
  flush-Flushes s clock rows h =
      let o = flush_groups pq s clock (group_rows [] rows) in
      let next : Sink pq → Outcome pq =
        λ t. (record t { batches_flushed = t.batches_flushed + 1 }, false) in
      let (quiet, e) = and_then-quiet o next h in
      let f = flush_groups-Flushes (group_rows [] rows) s clock quiet in
      subst (λ (x : Outcome pq). Flushes s x.0 (calls_of clock (group_rows [] rows))) (sym e)
        (record {
          written = f.written;
          counted = f.counted;
          same_config = f.same_config;
          same_queue = f.same_queue;
          same_buffer = f.same_buffer;
        })

  pub given-flush :
      (k : GroupKey) (clock : ℕ → ℕ) (rows : List SnapshotRow)
      → given k (calls_of clock (group_rows [] rows)) ≡ rows_of k rows
  unfolding Unique
  given-flush k clock rows =
      given-calls_of k (group_rows [] rows) clock (group_rows-Unique rows [] tt)
      ∙ in_group-rows_of k rows

  row_count-flush :
      (clock : ℕ → ℕ) (rows : List SnapshotRow)
      → row_count (calls_of clock (group_rows [] rows)) ≡ length rows
  row_count-flush clock rows =
      omega (arith, row_count-calls_of (group_rows [] rows) clock, size-group_rows rows [])

  -- A flush that does not raise is a run of calls of `write_batch` and nothing else on the writers and the
  -- disk: no exchange, symbol and hour has two, and the calls give each exactly the rows that the
  -- batch has of it, in the order in which they came; and the flush counts each row as written, once.
  pub flush_writes_groups :
      (s : Sink pq) (clock : ℕ → ℕ) (rows : List SnapshotRow)
      → (flush pq s clock rows).1 ≡ false
      → let t = (flush pq s clock rows).0 in
        (gs : Groups) × (write_calls s.config (files s) (calls_of clock gs) ≡ files t)
        × Unique gs
        × ((k : GroupKey) → or_empty (Dict.get k gs) ≡ rows_of k rows)
        × (t.rows_written ≡ s.rows_written + length rows)
  unfolding Unique
  flush_writes_groups s clock rows h =
      let f = flush-Flushes s clock rows h in
      (
        group_rows [] rows,
        f.written,
        group_rows-Unique rows [] tt,
        λ k. in_group-rows_of k rows,
        omega (arith, f.counted, row_count-flush clock rows),
      )
