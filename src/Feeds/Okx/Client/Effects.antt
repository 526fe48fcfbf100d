-- ===== src/Feeds/Okx/Client/Effects.antt =====
-- What the parts of `OKXFeedClient` do to its engine and its row queue.
use l2_orderbook_pipeline.Common.{ℕ, Option, none, some, ◌≡◌, refl, arith, Bool, true, false}
use l2_orderbook_pipeline.Common.Int.{ℤ}
use l2_orderbook_pipeline.Feeds.Connection.{RandomLike, on_disconnected}
use l2_orderbook_pipeline.Feeds.Envelope.{build_snapshot_row}
use l2_orderbook_pipeline.Feeds.Json.{Fields}
use l2_orderbook_pipeline.Feeds.Truth.{Publishes, nothing, a_row}
use l2_orderbook_pipeline.Feeds.Okx.Client.{
  OkxFeedClient, Worker, unsubscribing, resubscribing, back_off, disconnect, wake, sends,
}
use l2_orderbook_pipeline.Feeds.Okx.Client.Messages.{
  Receipt, queue_row, publish_to, after_failure, handle_control_message,
}
use l2_orderbook_pipeline.Sinks.Queue.{BoundedRowQueue}
use l2_orderbook_pipeline.Sinks.Rows.{SnapshotRow}

queue_row-Publishes :
    (c : OkxFeedClient) (q : BoundedRowQueue SnapshotRow) (r : Receipt) (ts : Option ℤ)
    (o : Option SnapshotRow)
    → c.row_queue ≡ some q
    → build_snapshot_row c.engine
        (record { exchange = "okx"; symbol = c.symbol })
        r.ts_local_ns
        r.ts_wall_ns
        ts
      ≡ o
    → Publishes c.engine c.row_queue (queue_row c q o).0.row_queue
unfolding queue_row
queue_row-Publishes c q r ts none e b = nothing refl
queue_row-Publishes c q r ts (some row) e b =
    a_row q row (record { exchange = "okx"; symbol = c.symbol }) r.ts_local_ns r.ts_wall_ns ts e b
      refl

pub publish_to-Publishes :
    (c : OkxFeedClient) (r : Receipt) (ts : Option ℤ) (o : Option (BoundedRowQueue SnapshotRow))
    → c.row_queue ≡ o
    → Publishes c.engine c.row_queue (publish_to c r ts o).0.row_queue
unfolding publish_to
publish_to-Publishes c r ts none e = nothing refl
publish_to-Publishes c r ts (some q) e = queue_row-Publishes c q r ts _ e refl

pub publish_to-engine :
    (c : OkxFeedClient) (r : Receipt) (ts : Option ℤ) (o : Option (BoundedRowQueue SnapshotRow))
    → (publish_to c r ts o).0.engine ≡ c.engine
unfolding publish_to queue_row
publish_to-engine c r ts none = refl
publish_to-engine c r ts (some q) = ground arith

-- A call that leaves engine and queue alone.
abbrev pub SameBook : OkxFeedClient → OkxFeedClient → Type 0
SameBook c d = (d.engine ≡ c.engine) × (d.row_queue ≡ c.row_queue)

pub after_failure-SameBook : (c : OkxFeedClient) → SameBook c (after_failure c)
unfolding after_failure
after_failure-SameBook c = ground arith

back_off-SameBook : (c : OkxFeedClient) (delay : Option ℕ) → SameBook c (back_off c delay)
unfolding back_off
back_off-SameBook c none = (refl, refl)
back_off-SameBook c (some delay) = ground arith

pub disconnect-SameBook :
    (now : ℕ) (rng : RandomLike) (c : OkxFeedClient) → SameBook c (disconnect now rng c)
unfolding disconnect
disconnect-SameBook now rng c =
    let m = on_disconnected c.connection now rng in
    back_off-SameBook (record c { connection = m.0 }) m.1

pub handle_control_message-SameBook :
    (c : OkxFeedClient) (fs : Fields) → SameBook c (handle_control_message c fs).0
unfolding handle_control_message
handle_control_message-SameBook c fs = ground arith

pub wake-SameBook : (c : OkxFeedClient) (cost now : ℕ) → SameBook c (wake c cost now)
unfolding wake
wake-SameBook c cost now = ground arith

pub sends-SameBook : (c : OkxFeedClient) (w : Worker) (ok : Bool) → SameBook c (sends c w ok)
unfolding sends
sends-SameBook c unsubscribing true = (refl, refl)
sends-SameBook c unsubscribing false = (refl, refl)
sends-SameBook c resubscribing true = (refl, refl)
sends-SameBook c resubscribing false = (refl, refl)
sends-SameBook c _ ok = (refl, refl)
