-- ===== src/Feeds/Binance/Client/Truth.antt =====
-- The handlers of `BinanceFeedClient`, given an exchange that tells the truth.
use Prim.Native.String.{String}
use l2_orderbook_pipeline.Common.{
  ℕ, zero, suc, Option, none, some, ◌≡◌, refl, sym, ap₂, subst, Bool, true, false, Bool-cases, inl,
  inr, if◌then◌else◌,
}
use l2_orderbook_pipeline.Common.Int.{ℤ}
use l2_orderbook_pipeline.Book.Types.{
  DiffEvent, ApplyStatus, applied, buffered, gap_detected, snapshot_stale,
}
use l2_orderbook_pipeline.Book.Engine.{BookEngine, is_live, apply_event, load_snapshot}
use l2_orderbook_pipeline.Book.Invariant
use l2_orderbook_pipeline.Book.Invariant.{event, snapshot, reconnect, after_load}
use l2_orderbook_pipeline.Book.Sync.{Exchange, Truthful, TruthfulSnapshot, TruthfulCall}
use l2_orderbook_pipeline.Feeds.Connection.{RandomLike}
use l2_orderbook_pipeline.Feeds.Envelope.{build_snapshot_row}
use l2_orderbook_pipeline.Feeds.Truth.{
  Publishes, nothing, a_row, Sound, Publishes-Sound, step-Sound,
}
use l2_orderbook_pipeline.Feeds.Binance.{FetchResult, fetched, retry_limit_exceeded, raised}
use l2_orderbook_pipeline.Feeds.Binance.Client.{
  BinanceFeedClient, Receipt, Outcome, count, queue_row, publish_to, on_status, on_diff, lose,
  unless_raised, give_up, retry, worker_end, on_load, on_fetch, wake,
}
use l2_orderbook_pipeline.Feeds.Binance.Client.Run.{connect}
use l2_orderbook_pipeline.Feeds.Binance.Client.Reads.{lose-Loses, publish_to-engine}
use l2_orderbook_pipeline.Sinks.Queue.{BoundedRowQueue}
use l2_orderbook_pipeline.Sinks.Rows.{SnapshotRow}

queue_row-Publishes :
    (c : BinanceFeedClient) (q : BoundedRowQueue SnapshotRow) (r : Receipt) (ts : Option ℤ)
    (o : Option SnapshotRow)
    → c.row_queue ≡ some q
    → build_snapshot_row c.engine
        (record { exchange = "binance"; symbol = c.symbol })
        r.ts_local_ns
        r.ts_wall_ns
        ts
      ≡ o
    → Publishes c.engine c.row_queue (queue_row c q o).0.row_queue
unfolding queue_row
queue_row-Publishes c q r ts none e b = nothing refl
queue_row-Publishes c q r ts (some row) e b =
    a_row q row (record { exchange = "binance"; symbol = c.symbol }) r.ts_local_ns r.ts_wall_ns ts e
      b refl

publish_to-Publishes :
    (c : BinanceFeedClient) (r : Receipt) (ts : Option ℤ) (o : Option (BoundedRowQueue SnapshotRow))
    → c.row_queue ≡ o
    → Publishes c.engine c.row_queue (publish_to c r ts o).0.row_queue
unfolding publish_to
publish_to-Publishes c r ts none e = nothing refl
publish_to-Publishes c r ts (some q) e = queue_row-Publishes c q r ts _ e refl

module _ (x : Exchange) where
  -- What a fetch brings is the exchange's own.
  abbrev pub TruthfulFetch : FetchResult → Type 0
  TruthfulFetch (fetched s) = TruthfulSnapshot x s
  TruthfulFetch retry_limit_exceeded = Unit
  TruthfulFetch raised = Unit

module _ (x : Exchange) (depth : ℕ) where
  -- The client's engine and its queued rows are true of the exchange.
  abbrev pub Says : BinanceFeedClient → Type 0
  Says c = Sound x depth c.engine c.row_queue

  pub publish-Says :
      (c : BinanceFeedClient) (r : Receipt) (ts : Option ℤ)
      → Says c
      → Says (publish_to c r ts c.row_queue).0
  publish-Says c r ts s =
      subst (λ b. Sound x depth b (publish_to c r ts c.row_queue).0.row_queue)
        (sym (publish_to-engine c r ts c.row_queue).0)
        (Publishes-Sound x depth c.engine c.row_queue _
          (publish_to-Publishes c r ts c.row_queue refl) s)

  pub on_status-Says :
      (c : BinanceFeedClient) (r : Receipt) (ts : Option ℤ) (st : ApplyStatus)
      → Says c
      → Says (on_status c r ts st).0
  unfolding on_status
  on_status-Says c r ts applied s = publish-Says c r ts s
  on_status-Says c r ts buffered s = s
  on_status-Says c r ts gap_detected s = s
  on_status-Says c r ts snapshot_stale s = s

  pub on_diff-Says :
      (c : BinanceFeedClient) (r : Receipt) (e : DiffEvent) (ts : Option (Option ℤ))
      → Truthful x e
      → Says c
      → Says (on_diff c r e ts).0
  unfolding on_diff
  on_diff-Says c r e none t s = s
  on_diff-Says c r e (some ts) t s =
      on_status-Says (record c { engine = (apply_event c.engine e).0 }) r ts
        (apply_event c.engine e).1
        (unfold Invariant.step TruthfulCall in
          step-Sound x depth c.engine (event e) c.row_queue t s)

  pub lose-Says :
      (key : String) (now : ℕ) (rng : RandomLike) (c : BinanceFeedClient)
      → Says c
      → Says (lose key now rng c)
  lose-Says key now rng c s =
      let l = lose-Loses key now rng c in
      subst (λ (o : BookEngine × Option (BoundedRowQueue SnapshotRow)). Sound x depth o.0 o.1)
        (sym (ap₂ (λ b q. (b, q)) l.engine_same l.queue_same)) s

  pub unless_raised-Says :
      (now : ℕ) (rng : RandomLike) (o : Outcome) → Says o.0 → Says (unless_raised now rng o)
  unfolding unless_raised
  unless_raised-Says now rng (c, false) s = s
  unless_raised-Says now rng (c, true) s = lose-Says "ws_disconnected" now rng c s

  pub connect-Says : (c : BinanceFeedClient) (now : ℕ) → Says c → Says (connect c now)
  unfolding connect
  connect-Says c now s =
      unfold Invariant.step TruthfulCall in step-Sound x depth c.engine reconnect c.row_queue tt s

  pub retry-Says : (n : ℕ) (c : BinanceFeedClient) → Says c → Says (retry n c)
  unfolding retry give_up
  retry-Says zero c s = s
  retry-Says (suc n) c s = s

  pub worker_end-Says : (o : Outcome) → Says o.0 → Says (worker_end o)
  unfolding worker_end
  worker_end-Says (c, false) s = s
  worker_end-Says (c, true) s = s

  pub on_load-Says :
      (c : BinanceFeedClient) (n : ℕ) (r : Receipt) (o : Option (BookEngine × ApplyStatus))
      → Sound x depth (after_load c.engine o) c.row_queue
      → Says (on_load c n r o)
  unfolding on_load after_load
  on_load-Says c n r none s = s
  on_load-Says c n r (some (b, applied)) s =
      let m = record (count "resync_completed" c) { engine = b } in
      worker_end-Says (publish_to m r none m.row_queue) (publish-Says m r none s)
  on_load-Says c n r (some (b, gap_detected)) s =
      retry-Says n (record (count "gap_detected" c) { engine = b }) s
  on_load-Says c n r (some (b, snapshot_stale)) s =
      retry-Says n (record (count "snapshot_stale_retry" c) { engine = b }) s
  on_load-Says c n r (some (b, buffered)) s =
      retry-Says n (record (count "snapshot_stale_retry" c) { engine = b }) s

  pub on_fetch-Says :
      (c : BinanceFeedClient) (n : ℕ) (r : Receipt) (f : FetchResult)
      → TruthfulFetch x f
      → Says c
      → Says (on_fetch c n r f)
  unfolding on_fetch give_up
  on_fetch-Says c n r (fetched snap) t s = on_load-Says c n r (load_snapshot c.engine snap) (
      unfold Invariant.step TruthfulCall in
      step-Sound x depth c.engine (snapshot snap) c.row_queue t s)
  on_fetch-Says c n r retry_limit_exceeded t s = s
  on_fetch-Says c n r raised t s = s

  pub wake-Says : (c : BinanceFeedClient) (b : Bool) → Says c → Says (if b then wake c else c)
  unfolding wake
  wake-Says c false s = s
  wake-Says c true s = elim (Bool-cases (is_live c.engine.state)) [
    | inl l ↦ rw l s
    | inr l ↦ rw l (
        retry-Says c.snapshot_retry_limit
          (record c { resync_needed = false; buffered_since_resync = 0 }) s)
  ]
