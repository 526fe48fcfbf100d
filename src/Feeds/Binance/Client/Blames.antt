-- ===== src/Feeds/Binance/Client/Blames.antt =====
-- When `BinanceFeedClient.run` ends by the exception of its resync worker: the worker had died of one.
use l2_orderbook_pipeline.Common.{
  ℕ, zero, suc, List, [], ◌∷◌, Option, none, some, ◌≡◌, refl, sym, subst, ap, ◌∙◌, arith, Bool,
  true, false, Bool-cases, inl, inr, if◌then◌else◌,
}
use l2_orderbook_pipeline.Common.Int.{ℤ}
use l2_orderbook_pipeline.Book.Types.{ApplyStatus, applied, buffered, gap_detected, snapshot_stale}
use l2_orderbook_pipeline.Book.Engine.{BookEngine, is_live, load_snapshot}
use l2_orderbook_pipeline.Feeds.Json.{Numerals}
use l2_orderbook_pipeline.Feeds.Binance.{FetchResult, fetched, retry_limit_exceeded, raised}
use l2_orderbook_pipeline.Feeds.Binance.Client.{
  BinanceFeedClient, Worker, waiting, fetching, dead, Receipt, Outcome, count, queue_row,
  publish_to, give_up, retry, worker_end, on_load, on_fetch, wake,
}
use l2_orderbook_pipeline.Feeds.Binance.Client.Run.{
  connect, Event, worker_wakes, fetch_done, is_worker_event, worker_step, step, run,
}
use l2_orderbook_pipeline.Feeds.Binance.Client.Reads.{is_worker_error}
use l2_orderbook_pipeline.Feeds.Binance.Client.Moves.{
  Moves, stays, dials, connects, reads, loses, breaks, run_step-Moves,
}
use l2_orderbook_pipeline.Sinks.Queue.{BoundedRowQueue}
use l2_orderbook_pipeline.Sinks.Rows.{SnapshotRow}

publish_to-phase :
    (c : BinanceFeedClient) (r : Receipt) (ts : Option ℤ) (o : Option (BoundedRowQueue SnapshotRow))
    → (publish_to c r ts o).0.phase ≡ c.phase
unfolding publish_to queue_row
publish_to-phase c r ts none = refl
publish_to-phase c r ts (some q) = ground arith

retry-phase : (n : ℕ) (c : BinanceFeedClient) → (retry n c).phase ≡ c.phase
unfolding retry give_up
retry-phase zero c = refl
retry-phase (suc n) c = refl

worker_end-phase : (o : Outcome) → (worker_end o).phase ≡ o.0.phase
unfolding worker_end
worker_end-phase (c, false) = refl
worker_end-phase (c, true) = refl

on_load-phase :
    (c : BinanceFeedClient) (n : ℕ) (r : Receipt) (o : Option (BookEngine × ApplyStatus))
    → (on_load c n r o).phase ≡ c.phase
unfolding on_load
on_load-phase c n r none = refl
on_load-phase c n r (some (e, applied)) =
    let m = record (count "resync_completed" c) { engine = e } in
    worker_end-phase (publish_to m r none m.row_queue) ∙ publish_to-phase m r none m.row_queue
on_load-phase c n r (some (e, gap_detected)) =
    retry-phase n (record (count "gap_detected" c) { engine = e })
on_load-phase c n r (some (e, snapshot_stale)) =
    retry-phase n (record (count "snapshot_stale_retry" c) { engine = e })
on_load-phase c n r (some (e, buffered)) =
    retry-phase n (record (count "snapshot_stale_retry" c) { engine = e })

on_fetch-phase :
    (c : BinanceFeedClient) (n : ℕ) (r : Receipt) (f : FetchResult)
    → (on_fetch c n r f).phase ≡ c.phase
unfolding on_fetch give_up
on_fetch-phase c n r (fetched snap) = on_load-phase c n r (load_snapshot c.engine snap)
on_fetch-phase c n r retry_limit_exceeded = refl
on_fetch-phase c n r raised = refl

wake-phase : (c : BinanceFeedClient) (b : Bool) → (if b then wake c else c).phase ≡ c.phase
unfolding wake
wake-phase c false = refl
wake-phase c true = elim (Bool-cases (is_live c.engine.state)) [
  | inl l ↦ rw l refl
  | inr l ↦ rw l (
      retry-phase c.snapshot_retry_limit
        (record c { resync_needed = false; buffered_since_resync = 0 }))
]

-- The worker has died, if `run` ended by its exception.
abbrev pub Blames : BinanceFeedClient → Type 0
Blames c = is_worker_error c.phase ≡ true → c.worker ≡ dead

Moves-Blames : (c d : BinanceFeedClient) → Moves c d → Blames c → Blames d
unfolding connect
Moves-Blames c d (stays e) b = subst Blames (sym e) b
Moves-Blames c d (dials e) b = subst Blames (sym e) (λ k. cc)
Moves-Blames c d (connects now e) b = subst Blames (sym e) (λ k. cc)
Moves-Blames c d (reads r) b = λ k. r.worker_same ∙ b (ap is_worker_error (sym r.phase_same) ∙ k)
Moves-Blames c d (loses l) b = l.blames
Moves-Blames c d (breaks m r l) b = l.blames

worker_step-Blames :
    (c : BinanceFeedClient) (w : Worker) (e : Event)
    → c.worker ≡ w
    → Blames c
    → Blames (worker_step c w e)
unfolding worker_step
worker_step-Blames c waiting worker_wakes p b k =
    let died = sym p ∙ b (ap is_worker_error (sym (wake-phase c c.resync_needed)) ∙ k) in cc
worker_step-Blames c (fetching n) (fetch_done r f) p b k =
    let died = sym p ∙ b (ap is_worker_error (sym (on_fetch-phase c n r f)) ∙ k) in cc
worker_step-Blames c _ _ p b k = b k

pub run-Blames :
    (py : Numerals) (es : List Event) (c : BinanceFeedClient) → Blames c → Blames (run py c es)
unfolding run step
run-Blames py [] c b = b
run-Blames py (e ∷ es) c b = run-Blames py es (step py c e) (elim (Bool-cases (is_worker_event e)) [
  | inl h ↦ rw (h, step) (worker_step-Blames c c.worker e refl b)
  | inr h ↦ rw (h, step) (Moves-Blames c _ (run_step-Moves py c c.phase e) b)
])
