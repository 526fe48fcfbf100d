-- ===== src/Feeds/Okx/Client/Truth.antt =====
-- The handlers of `OKXFeedClient`, given an exchange that tells the truth.
use l2_orderbook_pipeline.Common.{
  ℕ, Option, none, some, refl, sym, ap₂, subst, Bool, true, false, if◌then◌else◌,
}
use l2_orderbook_pipeline.Common.Int.{ℤ}
use l2_orderbook_pipeline.Book.Types.{
  DiffEvent, SnapshotEvent, ApplyStatus, applied, buffered, gap_detected, snapshot_stale,
}
use l2_orderbook_pipeline.Book.Engine.{BookEngine, apply_event, load_snapshot}
use l2_orderbook_pipeline.Book.Invariant
use l2_orderbook_pipeline.Book.Invariant.{event, snapshot, reconnect, after_load}
use l2_orderbook_pipeline.Book.Sync.{Exchange, Truthful, TruthfulSnapshot, TruthfulCall}
use l2_orderbook_pipeline.Feeds.Connection.{RandomLike}
use l2_orderbook_pipeline.Feeds.Truth.{Sound, Publishes-Sound, step-Sound}
use l2_orderbook_pipeline.Feeds.Okx.Client.Effects.{
  publish_to-Publishes, publish_to-engine, SameBook, after_failure-SameBook, disconnect-SameBook,
  wake-SameBook, sends-SameBook,
}
use l2_orderbook_pipeline.Feeds.Okx.Client.{
  OkxFeedClient, Worker, waiting, throttled, returned, notice, raised, Outcome, count, disconnect,
  handle, wake, request, sends,
}
use l2_orderbook_pipeline.Feeds.Okx.Client.Messages.{
  Receipt, publish_to, after_failure, one_more_failure, handle_resync_result, on_loaded,
  on_snapshot, on_status, on_update,
}
use l2_orderbook_pipeline.Feeds.Okx.Client.Run.{
  Event, worker_wakes, worker_acquires, worker_sends, worker_step,
}
use l2_orderbook_pipeline.Sinks.Queue.{BoundedRowQueue}
use l2_orderbook_pipeline.Sinks.Rows.{SnapshotRow}

module _ (x : Exchange) where
  -- What a push is read as is the exchange's own.
  abbrev pub TruthfulDiff : Option DiffEvent → Type 0
  TruthfulDiff none = Unit
  TruthfulDiff (some e) = Truthful x e

  abbrev pub TruthfulBook : Option SnapshotEvent → Type 0
  TruthfulBook none = Unit
  TruthfulBook (some s) = TruthfulSnapshot x s

module _ (x : Exchange) (depth : ℕ) where
  -- The client's engine and its queued rows are true of the exchange.
  abbrev pub Says : OkxFeedClient → Type 0
  Says c = Sound x depth c.engine c.row_queue

  pub publish-Says :
      (c : OkxFeedClient) (r : Receipt) (ts : Option ℤ)
      → Says c
      → Says (publish_to c r ts c.row_queue).0
  publish-Says c r ts s =
      subst (λ b. Sound x depth b (publish_to c r ts c.row_queue).0.row_queue)
        (sym (publish_to-engine c r ts c.row_queue))
        (Publishes-Sound x depth c.engine c.row_queue _
          (publish_to-Publishes c r ts c.row_queue refl) s)

  pub same-Says : (c d : OkxFeedClient) → SameBook c d → Says c → Says d
  same-Says c d e s =
      subst (λ (o : BookEngine × Option (BoundedRowQueue SnapshotRow)). Sound x depth o.0 o.1)
        (sym (ap₂ (λ b q. (b, q)) e.0 e.1)) s

  pub after_failure-Says : (c : OkxFeedClient) → Says c → Says (after_failure c)
  after_failure-Says c = same-Says c (after_failure c) (after_failure-SameBook c)

  pub handle_resync_result-Says :
      (c : OkxFeedClient) (r : Receipt) (st : ApplyStatus) (ts : Option ℤ)
      → Says c
      → Says (handle_resync_result c r st ts).0
  unfolding handle_resync_result
  handle_resync_result-Says c r applied ts s =
      publish-Says (record (count "resync_completed" c) { snapshot_retry_count = 0 }) r ts s
  handle_resync_result-Says c r gap_detected ts s =
      after_failure-Says (count "gap_detected" (one_more_failure c)) s
  handle_resync_result-Says c r snapshot_stale ts s =
      after_failure-Says (count "snapshot_stale_retry" (one_more_failure c)) s
  handle_resync_result-Says c r buffered ts s =
      after_failure-Says (count "snapshot_stale_retry" (one_more_failure c)) s

  pub on_loaded-Says :
      (c : OkxFeedClient) (r : Receipt) (ts : Option ℤ) (o : Option (BookEngine × ApplyStatus))
      → Sound x depth (after_load c.engine o) c.row_queue
      → Says (on_loaded c r ts o).0
  unfolding on_loaded after_load
  on_loaded-Says c r ts none s = s
  on_loaded-Says c r ts (some (b, status)) s =
      handle_resync_result-Says (record c { engine = b }) r status ts s

  pub on_snapshot-Says :
      (c : OkxFeedClient) (r : Receipt) (o : Option SnapshotEvent) (ts : Option (Option ℤ))
      → TruthfulBook x o
      → Says c
      → Says (on_snapshot c r o ts).0
  unfolding on_snapshot
  on_snapshot-Says c r none ts t s = s
  on_snapshot-Says c r (some snap) none t s = s
  on_snapshot-Says c r (some snap) (some ts) t s =
      on_loaded-Says c r ts (load_snapshot c.engine snap) (
        unfold Invariant.step TruthfulCall in
        step-Sound x depth c.engine (snapshot snap) c.row_queue t s)

  pub on_status-Says :
      (c : OkxFeedClient) (r : Receipt) (ts : Option ℤ) (st : ApplyStatus)
      → Says c
      → Says (on_status c r ts st).0
  unfolding on_status
  on_status-Says c r ts applied s = publish-Says c r ts s
  on_status-Says c r ts buffered s = s
  on_status-Says c r ts gap_detected s = s
  on_status-Says c r ts snapshot_stale s = s

  pub on_update-Says :
      (c : OkxFeedClient) (r : Receipt) (o : Option DiffEvent) (ts : Option (Option ℤ))
      → TruthfulDiff x o
      → Says c
      → Says (on_update c r o ts).0
  unfolding on_update
  on_update-Says c r none ts t s = s
  on_update-Says c r (some e) none t s = s
  on_update-Says c r (some e) (some ts) t s =
      on_status-Says (record c { engine = (apply_event c.engine e).0 }) r ts
        (apply_event c.engine e).1
        (unfold Invariant.step TruthfulCall in
          step-Sound x depth c.engine (event e) c.row_queue t s)

  pub disconnect-Says :
      (now : ℕ) (rng : RandomLike) (c : OkxFeedClient) → Says c → Says (disconnect now rng c)
  disconnect-Says now rng c = same-Says c (disconnect now rng c) (disconnect-SameBook now rng c)

  pub handle-Says : (now : ℕ) (rng : RandomLike) (o : Outcome) → Says o.0 → Says (handle now rng o)
  unfolding handle
  handle-Says now rng (c, returned) s = s
  handle-Says now rng (c, notice) s = disconnect-Says now rng c s
  handle-Says now rng (c, raised) s = disconnect-Says now rng (count "ws_disconnected" c) s

  pub wake-Says :
      (c : OkxFeedClient) (b : Bool) (cost now : ℕ)
      → Says c
      → Says (if b then wake c cost now else c)
  wake-Says c false cost now s = s
  wake-Says c true cost now s = same-Says c (wake c cost now) (wake-SameBook c cost now) s

  pub worker_step-Says :
      (c : OkxFeedClient) (w : Worker) (e : Event) → Says c → Says (worker_step c w e)
  unfolding worker_step request
  worker_step-Says c waiting (worker_wakes cost now) s = wake-Says c c.resync_needed cost now s
  worker_step-Says c throttled (worker_acquires cost now) s = s
  worker_step-Says c w (worker_sends ok) s = same-Says c (sends c w ok) (sends-SameBook c w ok) s
  worker_step-Says c _ _ s = s
