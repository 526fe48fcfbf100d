-- ===== src/Sinks/Sink/Consume.antt =====
-- The loop of `ParquetSink._consume`: it always waits for a while, loses no row and keeps its buffer
-- short.
use mathlib.Core.List.{append_assoc}
use l2_orderbook_pipeline.Common.{
  ℕ, ◌+◌, ◌-◌, ◌≤◌, ◌<◌, List, [], ◌∷◌, ◌++◌, some, ◌≡◌, refl, sym, subst, ap, ◌∙◌, arith, Bool,
  true, false, length, inl, inr, ◌==◌, if◌then◌else◌, leb,
}
use l2_orderbook_pipeline.Sinks.Queue.{qsize}
use l2_orderbook_pipeline.Sinks.Queue.Fifo.{get_of}
use l2_orderbook_pipeline.Sinks.Rows.{SnapshotRow, Table}
use l2_orderbook_pipeline.Sinks.Disk.{Parquet}
use l2_orderbook_pipeline.Sinks.Sink.{
  Sink, SinkConfig, GroupKey, Readings, Outcome, and_then, group_rows, flush, flush_buffer,
  open_window, receive_one, receive, wait_for_row, is_due, is_empty, flush_if_due, consume_round,
}
use l2_orderbook_pipeline.Sinks.Sink.Groups.{rows_of}
use l2_orderbook_pipeline.Sinks.Sink.Calls.{
  Call, given, given-append, row_count, row_count-append, calls_of, write_calls, write_calls-append,
  files, and_then-quiet, flush-Flushes, given-flush,
}

rows_of-append :
    (k : GroupKey) (a b : List SnapshotRow) → rows_of k (a ++ b) ≡ rows_of k a ++ rows_of k b
rows_of-append k [] b = refl
rows_of-append k (row ∷ a) b = ground (arith, rows_of-append k a b)

is_empty-nil : (rows : List SnapshotRow) → is_empty rows ≡ true → rows ≡ []
is_empty-nil [] h = refl
is_empty-nil (row ∷ rows) h = cc

module _ (pq : Parquet Table) where
  -- The rows that are buffered or queued, oldest first.
  abbrev pub held : Sink pq → List SnapshotRow
  held s = s.buffer ++ s.queue.rows

  -- From `s` to `t` calls were made, and each row that was held is in one of them or still held.
  pub record Passes (s t : Sink pq) : Type 0 where
    pub calls : List Call
    pub written : write_calls pq s.config (files pq s) calls ≡ files pq t
    pub counted : t.rows_written ≡ s.rows_written + row_count calls
    pub in_order : (k : GroupKey) → given k calls ++ rows_of k (held t) ≡ rows_of k (held s)
    pub same_config : t.config ≡ s.config

  Passes-trans : (s t u : Sink pq) → Passes s t → Passes t u → Passes s u
  Passes-trans s t u p q = record {
    calls = p.calls ++ q.calls;
    written =
        write_calls-append pq s.config p.calls q.calls (files pq s)
        ∙ ap (λ x. write_calls pq s.config x q.calls) p.written
        ∙ ap (λ c. write_calls pq c (files pq t) q.calls) (sym p.same_config)
        ∙ q.written;
    counted = omega (arith, p.counted, q.counted, row_count-append p.calls q.calls);
    in_order = λ k.
        ap (λ rs. rs ++ rows_of k (held u)) (given-append k p.calls q.calls)
        ∙ append_assoc (given k p.calls) (given k q.calls) (rows_of k (held u))
        ∙ ap (λ rs. given k p.calls ++ rs) (q.in_order k)
        ∙ p.in_order k;
    same_config = q.same_config ∙ p.same_config;
  }

  -- The buffer is flushed, and emptied.
  flushed-Passes :
      (s t : Sink pq) (clock : ℕ → ℕ)
      → (flush pq s clock s.buffer).1 ≡ false
      → files pq t ≡ files pq (flush pq s clock s.buffer).0
      → t.rows_written ≡ (flush pq s clock s.buffer).0.rows_written
      → t.config ≡ (flush pq s clock s.buffer).0.config
      → t.queue ≡ (flush pq s clock s.buffer).0.queue
      → t.buffer ≡ []
      → Passes s t
  flushed-Passes s t clock h ef ew ec eq eb =
      let f = flush-Flushes pq s clock s.buffer h in
      record {
        calls = calls_of clock (group_rows [] s.buffer);
        written = f.written ∙ sym ef;
        counted = omega (arith, f.counted, ew);
        in_order = λ k.
            ap (λ rs. rs ++ rows_of k (held t)) (given-flush pq k clock s.buffer)
            ∙ ap (λ rs. rows_of k s.buffer ++ rows_of k (rs ++ t.queue.rows)) eb
            ∙ ap (λ q. rows_of k s.buffer ++ rows_of k q.rows) (eq ∙ f.same_queue)
            ∙ sym (rows_of-append k s.buffer s.queue.rows);
        same_config = ec ∙ f.same_config;
      }

  -- A step that makes no calls and takes rows from the queue into the buffer at most.
  idle-Passes :
      (s t : Sink pq)
      → files pq t ≡ files pq s
      → t.rows_written ≡ s.rows_written
      → t.config ≡ s.config
      → held t ≡ held s
      → Passes s t
  idle-Passes s t ef ew ec eh = record {
    calls = [];
    written = sym ef;
    counted = omega (arith, ew);
    in_order = λ k. ap (rows_of k) eh;
    same_config = ec;
  }

  -- `flush_buffer` by whether the buffer is empty
  flush_buffer-lem :
      (s : Sink pq) (clock : ℕ → ℕ) (empty : Bool)
      → let o =
          if empty
          then (s, false)
          else and_then pq (flush pq s clock s.buffer) (λ t. (record t { buffer = [] }, false)) in
        o.1 ≡ false → Passes s o.0 × (o.0.queue ≡ s.queue)
  flush_buffer-lem s clock true h = (idle-Passes s s refl refl refl refl, refl)
  flush_buffer-lem s clock false h =
      let f = flush pq s clock s.buffer in
      let next : Sink pq → Outcome pq = λ t. (record t { buffer = [] }, false) in
      let (quiet, e) = and_then-quiet pq f next h in
      subst (λ (x : Outcome pq). Passes s x.0 × (x.0.queue ≡ s.queue)) (sym e)
        (
          flushed-Passes s (next f.0).0 clock quiet refl refl refl refl refl,
          (flush-Flushes pq s clock s.buffer quiet).same_queue,
        )

  -- `open_window` by whether the interval has elapsed
  opened_at :
      (s : Sink pq) (r : Readings) (late : Bool) (short : ℕ)
      → let o : Outcome pq × ℕ =
          if late
          then (
            and_then pq
                (flush_buffer pq s r.in_first_flush)
                (λ t. (record t { last_flush = r.after_first_flush }, false)),
            s.config.flush_interval,
          )
          else ((s, false), short) in
        o.0.1 ≡ false → Passes s o.0.0 × (o.0.0.queue ≡ s.queue)
  unfolding flush_buffer
  opened_at s r false short h = (idle-Passes s s refl refl refl refl, refl)
  opened_at s r true short h =
      let f = flush_buffer pq s r.in_first_flush in
      let next : Sink pq → Outcome pq =
        λ t. (record t { last_flush = r.after_first_flush }, false) in
      let (quiet, e) = and_then-quiet pq f next h in
      let p = flush_buffer-lem s r.in_first_flush (is_empty s.buffer) quiet in
      subst (λ (x : Outcome pq). Passes s x.0 × (x.0.queue ≡ s.queue)) (sym e)
        (
          Passes-trans s f.0 (next f.0).0 p.0 (idle-Passes f.0 (next f.0).0 refl refl refl refl),
          p.1,
        )

  open_window-lem :
      (s : Sink pq) (r : Readings)
      → (open_window pq s r).0.1 ≡ false
      → Passes s (open_window pq s r).0.0 × ((open_window pq s r).0.0.queue ≡ s.queue)
  unfolding open_window
  open_window-lem s r h =
      let elapsed = r.at_start - s.last_flush in
      opened_at s r (leb s.config.flush_interval elapsed) (s.config.flush_interval - elapsed) h

  -- The wait for the next row never gets an empty timeout, however late the round begins; and after a
  -- late start the window is a full interval again.
  pub window_positive :
      (s : Sink pq) (r : Readings)
      → 0 < s.config.flush_interval
      → (0 < (open_window pq s r).1)
        × ((open_window pq s r).1 ≤ s.config.flush_interval)
        × (s.config.flush_interval ≤ r.at_start - s.last_flush
            → (open_window pq s r).1 ≡ s.config.flush_interval)
  unfolding open_window
  window_positive s r p = ground arith

  receive-Passes :
      (s : Sink pq) (now : ℕ) (row : SnapshotRow) (rest : List SnapshotRow)
      → s.queue.rows ≡ row ∷ rest
      → Passes s (receive pq s now (some (row, record (s.queue) { rows = rest })))
  unfolding receive
  receive-Passes s now row rest e =
      idle-Passes s (receive pq s now (some (row, record (s.queue) { rows = rest }))) refl refl refl
        (append_assoc s.buffer (row ∷ []) rest ∙ ap (λ rs. s.buffer ++ rs) (sym e))

  -- With time to wait, a row that is queued is taken; nothing is lost on the way.
  receive_one-lem :
      (s : Sink pq) (timeout now : ℕ)
      → 0 < timeout
      → let t = receive_one pq s timeout now in
        Passes s t × (0 < qsize s.queue → qsize t.queue + 1 ≡ qsize s.queue)
  unfolding receive_one wait_for_row receive
  receive_one-lem s timeout now p =
      let waits : (timeout == 0) ≡ false = ground arith in
      elim (get_of s.queue s.queue.rows refl) [
        | inl (e, g) ↦
            rw (waits, g) (idle-Passes s s refl refl refl refl, λ h. ground (arith, ap length e))
        | inr (row, rest, e, g) ↦
            rw (waits, g) (receive-Passes s now row rest e, λ h. omega (arith, ap length e))
      ]

  -- `flush_if_due` by whether it is due
  flush_if_due-lem :
      (s : Sink pq) (r : Readings) (due : Bool)
      → let o =
          if due
          then and_then pq (flush pq s r.in_last_flush s.buffer) (λ t.
            (record t { buffer = []; last_flush = r.at_end; last_progress_at = r.at_end }, false))
          else (s, false) in
        o.1 ≡ false
        → (due ≡ false → 0 < s.config.batch_size → length s.buffer < s.config.batch_size)
        → Passes s o.0
          × (o.0.queue ≡ s.queue)
          × (0 < s.config.batch_size → length o.0.buffer < s.config.batch_size)
  flush_if_due-lem s r false h below = (idle-Passes s s refl refl refl refl, refl, below refl)
  flush_if_due-lem s r true h below =
      let f = flush pq s r.in_last_flush s.buffer in
      let next : Sink pq → Outcome pq = λ t.
        (record t { buffer = []; last_flush = r.at_end; last_progress_at = r.at_end }, false) in
      let (quiet, e) = and_then-quiet pq f next h in
      subst
        (λ (x : Outcome pq).
          Passes s x.0
          × (x.0.queue ≡ s.queue)
          × (0 < s.config.batch_size → length x.0.buffer < s.config.batch_size))
        (sym e)
        (
          flushed-Passes s (next f.0).0 r.in_last_flush quiet refl refl refl refl refl,
          (flush-Flushes pq s r.in_last_flush s.buffer quiet).same_queue,
          λ p. p,
        )

  not_due :
      (s : Sink pq) (now : ℕ)
      → is_due pq s now ≡ false
      → 0 < s.config.batch_size
      → length s.buffer < s.config.batch_size
  unfolding is_due
  not_due s now h p = ground arith

  -- Of a round of the loop that does not raise, with an interval above 0: the round is a run of calls of
  -- `write_batch` and nothing else on the writers and the disk; of each exchange, symbol and hour,
  -- the rows of these calls and then those still buffered and queued are those that were buffered and
  -- queued before, in their order, so that no row is lost or written twice; each row of the calls is
  -- counted as written; a row that is queued is taken, however late the round begins; and after the
  -- round the buffer is below the batch size, if that is above 0.
  pub consume_round-rows :
      (s : Sink pq) (r : Readings)
      → 0 < s.config.flush_interval
      → (consume_round pq s r).1 ≡ false
      → let t = (consume_round pq s r).0 in
        ((calls : List Call) × (write_calls pq s.config (files pq s) calls ≡ files pq t)
          × ((k : GroupKey)
              → given k calls ++ rows_of k (t.buffer ++ t.queue.rows)
                ≡ rows_of k (s.buffer ++ s.queue.rows))
          × (t.rows_written ≡ s.rows_written + row_count calls))
        × (0 < qsize s.queue → qsize t.queue + 1 ≡ qsize s.queue)
        × (0 < s.config.batch_size → length t.buffer < s.config.batch_size)
  unfolding consume_round flush_if_due
  consume_round-rows s r p h =
      let o = open_window pq s r in
      let next : Sink pq → Outcome pq = λ t. flush_if_due pq (receive_one pq t o.1 r.after_get) r in
      let (quiet, e) = and_then-quiet pq o.0 next h in
      let a = open_window-lem s r quiet in
      let m = receive_one pq o.0.0 o.1 r.after_get in
      let b = receive_one-lem o.0.0 o.1 r.after_get (window_positive s r p).0 in
      let c =
        flush_if_due-lem m r (is_due pq m r.at_end) (ap (λ (x : Outcome pq). x.1) (sym e) ∙ h)
          (not_due m r.at_end) in
      let all = Passes-trans s m (next o.0.0).0 (Passes-trans s o.0.0 m a.0 b.0) c.0 in
      let config = ap (λ (x : SinkConfig). x.batch_size) (b.0.same_config ∙ a.0.same_config) in
      subst
        (λ (x : Outcome pq).
          ((calls : List Call) × (write_calls pq s.config (files pq s) calls ≡ files pq x.0)
            × ((k : GroupKey)
                → given k calls ++ rows_of k (x.0.buffer ++ x.0.queue.rows)
                  ≡ rows_of k (s.buffer ++ s.queue.rows))
            × (x.0.rows_written ≡ s.rows_written + row_count calls))
          × (0 < qsize s.queue → qsize x.0.queue + 1 ≡ qsize s.queue)
          × (0 < s.config.batch_size → length x.0.buffer < s.config.batch_size))
        (sym e)
        (
          (all.calls, all.written, all.in_order, all.counted),
          ground (arith, b.1, ap qsize a.1, ap qsize c.1),
          ground (arith, c.2, config),
        )
