-- ===== src/Feeds/Binance/Client/Reads.antt =====
-- What the parts of `run` and of the resync worker leave alone.
use Prim.Native.String.{String}
use l2_orderbook_pipeline.Common.{
  Bool, ℕ, Option, none, some, ◌≡◌, refl, ◌∙◌, arith, true, false, Bool-cases, inl, inr, ◌⊎◌,
}
use l2_orderbook_pipeline.Common.Int.{ℤ}
use l2_orderbook_pipeline.Book.Types.{DiffEvent}
use l2_orderbook_pipeline.Book.Engine.{is_live, apply_event}
use l2_orderbook_pipeline.Book.Loading.{apply_event-cases}
use l2_orderbook_pipeline.Feeds.Connection.{RandomLike, on_disconnected, message_received}
use l2_orderbook_pipeline.Feeds.Json.{Json, Fields, Numerals}
use l2_orderbook_pipeline.Feeds.Binance.Parsing.{extract_ts_exchange_ms}
use l2_orderbook_pipeline.Feeds.Binance.{raise_if_reconnect_budget_exhausted}
use l2_orderbook_pipeline.Feeds.Binance.Client.{
  BinanceFeedClient, RunError, Phase, worker_error, overflow_error, budget_exhausted, await_worker,
  Worker, waiting, fetching, dead, cancel, between, over, cancelled, Receipt, count, queue_row,
  publish_to, on_status, on_diff, back_off, lose,
}
use l2_orderbook_pipeline.Feeds.Binance.Client.Run.{read, on_read, receive}
use l2_orderbook_pipeline.Sinks.Queue.{BoundedRowQueue}
use l2_orderbook_pipeline.Sinks.Rows.{SnapshotRow}

-- From `c` to `d` the reader loop read a message.
pub record Reads (c d : BinanceFeedClient) : Type 0 where
  pub worker_same : d.worker ≡ c.worker
  pub phase_same : d.phase ≡ c.phase
  pub closed_same : d.closed ≡ c.closed
  pub stays_lost : is_live c.engine.state ≡ false → is_live d.engine.state ≡ false
  pub no_row : is_live c.engine.state ≡ false → d.row_queue ≡ c.row_queue
  pub asks : is_live c.engine.state ≡ true → is_live d.engine.state ≡ false → d.resync_needed ≡ true
  pub still_asks : c.resync_needed ≡ true → d.resync_needed ≡ true

-- A row was put, or there is no queue, or the row could not be built.
pub publish_to-engine :
    (c : BinanceFeedClient) (r : Receipt) (ts : Option ℤ) (o : Option (BoundedRowQueue SnapshotRow))
    → let d = (publish_to c r ts o).0 in
      (d.engine ≡ c.engine)
      × (d.worker ≡ c.worker)
      × (d.phase ≡ c.phase)
      × (d.closed ≡ c.closed)
      × (d.resync_needed ≡ c.resync_needed)
      × (d.connection ≡ c.connection)
unfolding publish_to queue_row
publish_to-engine c r ts none = (refl, refl, refl, refl, refl, refl)
publish_to-engine c r ts (some q) = ground arith

on_diff-Reads :
    (c : BinanceFeedClient) (r : Receipt) (e : DiffEvent) (ts : Option (Option ℤ))
    → Reads c (on_diff c r e ts).0
unfolding on_diff on_status
on_diff-Reads c r e none = record {
  worker_same = refl;
  phase_same = refl;
  closed_same = refl;
  stays_lost = λ h. h;
  no_row = λ h. refl;
  asks = λ h k. cc;
  still_asks = λ h. h;
}
on_diff-Reads c r e (some ts) =
    let b = (apply_event c.engine e).0 in
    elim (apply_event-cases c.engine e) [
      | inl (l, st, m) ↦ rw st (record {
        worker_same = refl;
        phase_same = refl;
        closed_same = refl;
        stays_lost = λ h. m;
        no_row = λ h. refl;
        asks = λ h k. cc;
        still_asks = λ h. h;
      })
      | inr (inl (l, st, m)) ↦ rw st (
          let p = publish_to-engine (record c { engine = b }) r ts c.row_queue in
          record {
            worker_same = p.1;
            phase_same = p.2;
            closed_same = p.3;
            stays_lost = λ h. cc;
            no_row = λ h. cc;
            asks = λ h k. ground (arith, p.0);
            still_asks = λ h. p.4 ∙ h;
          })
      | inr (inr (l, st, m)) ↦ rw st (record {
        worker_same = refl;
        phase_same = refl;
        closed_same = refl;
        stays_lost = λ h. m;
        no_row = λ h. cc;
        asks = λ h k. refl;
        still_asks = λ h. refl;
      })
    ]

module _ (py : Numerals) where
  on_read-Reads :
      (c : BinanceFeedClient) (r : Receipt) (o : Option (Fields × DiffEvent))
      → Reads c (on_read py c r o).0
  unfolding on_read
  on_read-Reads c r none = record {
    worker_same = refl;
    phase_same = refl;
    closed_same = refl;
    stays_lost = λ h. h;
    no_row = λ h. refl;
    asks = λ h k. cc;
    still_asks = λ h. h;
  }
  on_read-Reads c r (some (fields, diff)) =
      on_diff-Reads c r diff (extract_ts_exchange_ms py fields)

  pub receive-Reads :
      (c : BinanceFeedClient) (r : Receipt) (raw : Option Json) → Reads c (receive py c r raw).0
  unfolding receive
  receive-Reads c r raw =
      let h =
        on_read-Reads
          (record (count "messages_received" c) { connection = message_received c.connection }) r
          (read py raw) in
      record {
        worker_same = h.worker_same;
        phase_same = h.phase_same;
        closed_same = h.closed_same;
        stays_lost = h.stays_lost;
        no_row = h.no_row;
        asks = h.asks;
        still_asks = h.still_asks;
      }

-- Whether `run` ended by the exception of its worker.
abbrev pub is_worker_error : Phase → Bool
is_worker_error (over worker_error) = true
is_worker_error _ = false

await-dead :
    (w : Worker) (e : RunError)
    → is_worker_error (over e) ≡ false
    → is_worker_error (over (await_worker (cancel w) e)) ≡ true
    → cancel w ≡ dead
await-dead waiting e h k = cc
await-dead (fetching n) e h k = cc
await-dead dead e h k = refl
await-dead cancelled e h k = cc

-- From `c` to `d` the connection was lost.
pub record Loses (c d : BinanceFeedClient) : Type 0 where
  pub engine_same : d.engine ≡ c.engine
  pub queue_same : d.row_queue ≡ c.row_queue
  pub worker_ends : (d.worker ≡ c.worker) ⊎ (d.worker ≡ cancelled)
  pub blames : is_worker_error d.phase ≡ true → d.worker ≡ dead
  pub not_reading : (d.phase ≡ between) ⊎ ((e : RunError) × (d.phase ≡ over e))

cancel-cases : (w : Worker) → (cancel w ≡ w) ⊎ (cancel w ≡ cancelled)
cancel-cases waiting = inr refl
cancel-cases (fetching n) = inr refl
cancel-cases dead = inl refl
cancel-cases cancelled = inl refl

back_off-Loses : (c : BinanceFeedClient) (delay : Option ℕ) → Loses c (back_off c delay)
unfolding back_off
back_off-Loses c none = record {
  blames = await-dead c.worker overflow_error refl;
  engine_same = refl;
  queue_same = refl;
  worker_ends = cancel-cases c.worker;
  not_reading = inr (_, refl);
}
back_off-Loses c (some delay) =
    elim (Bool-cases
      (raise_if_reconnect_budget_exhausted c.connection c.max_consecutive_reconnect_failures)) [
        | inl h ↦ rw h (record {
          blames = await-dead c.worker budget_exhausted refl;
          engine_same = refl;
          queue_same = refl;
          worker_ends = cancel-cases c.worker;
          not_reading = inr (_, refl);
        })
        | inr h ↦ rw h (record {
          engine_same = refl;
          queue_same = refl;
          blames = λ k. cc;
          worker_ends = inl refl;
          not_reading = inl refl;
        })
      ]

pub lose-Loses :
    (key : String) (now : ℕ) (rng : RandomLike) (c : BinanceFeedClient)
    → Loses c (lose key now rng c)
unfolding lose
lose-Loses key now rng c =
    let m = on_disconnected c.connection now rng in
    let h = back_off-Loses (record (count key c) { connection = m.0 }) m.1 in
    record {
      engine_same = h.engine_same;
      queue_same = h.queue_same;
      blames = h.blames;
      worker_ends = h.worker_ends;
      not_reading = h.not_reading;
    }
