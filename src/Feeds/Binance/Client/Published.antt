-- ===== src/Feeds/Binance/Client/Published.antt =====
-- Which rows `BinanceFeedClient` puts into its queue.
use l2_orderbook_pipeline.Common.{Option, some, ◌≡◌, sym, ap, ◌∙◌, arith, true, false, inl, inr}
use l2_orderbook_pipeline.Common.Int.{ℤ}
use l2_orderbook_pipeline.Book.Types.{DiffEvent, applied}
use l2_orderbook_pipeline.Book.Engine.{BookEngine, is_live, apply_event, apply_live}
use l2_orderbook_pipeline.Book.Invariant
use l2_orderbook_pipeline.Book.Invariant.{WellFormed, event, step-WellFormed}
use l2_orderbook_pipeline.Book.Loading.{apply_event-cases}
use l2_orderbook_pipeline.Feeds.Envelope.{build_snapshot_row-fits}
use l2_orderbook_pipeline.Feeds.Binance.Client.{
  BinanceFeedClient, Receipt, queue_row, publish_to, on_status, on_diff,
}
use l2_orderbook_pipeline.Sinks.Queue
use l2_orderbook_pipeline.Sinks.Queue.{BoundedRowQueue}
use l2_orderbook_pipeline.Sinks.Rows.{SnapshotRow}

applied_id :
    (b : BookEngine) (e : DiffEvent)
    → (apply_event b e).1 ≡ applied
    → (apply_event b e).0.last_applied_id ≡ some e.final_id
unfolding apply_event apply_live
applied_id b e h = ground arith

applied_live :
    (b : BookEngine) (e : DiffEvent)
    → (apply_event b e).1 ≡ applied
    → is_live (apply_event b e).0.state ≡ true
applied_live b e h = elim (apply_event-cases b e) [
  | inl k ↦ (let g = sym h ∙ k.1 in cc)
  | inr (inl k) ↦ k.2
  | inr (inr k) ↦ (let g = sym h ∙ k.1 in cc)
]

-- With a row queue, a well-formed engine and a time that can be read: a diff that is applied puts exactly
-- one row, whose id is the diff's last one, and raises nothing.
pub applied_row :
    (c : BinanceFeedClient) (q : BoundedRowQueue SnapshotRow) (r : Receipt) (e : DiffEvent)
    (ts : Option ℤ)
    → WellFormed c.engine
    → c.row_queue ≡ some q
    → (apply_event c.engine e).1 ≡ applied
    → (row : SnapshotRow) × (on_diff c r e (some ts) ≡ (
      record c { engine = (apply_event c.engine e).0; row_queue = some (Queue.put q row).0 },
      false,
    ))
      × (row.last_applied_id ≡ e.final_id)
unfolding on_diff on_status publish_to queue_row
applied_row c q r e ts w n h =
    let b = (apply_event c.engine e).0 in
    let d = record c { engine = b } in
    let wb : WellFormed b = unfold Invariant.step in step-WellFormed c.engine (event e) w in
    let (row, built, id, bids_fit, asks_fit) =
      build_snapshot_row-fits b (record { exchange = "binance"; symbol = c.symbol }) r.ts_local_ns
        r.ts_wall_ns ts wb (applied_live c.engine e h) in
    (
      row,
      ap (on_status d r ts) h ∙ ap (publish_to d r ts) n ∙ ap (queue_row d q) built,
      (let k = sym id ∙ applied_id c.engine e h in cc),
    )
