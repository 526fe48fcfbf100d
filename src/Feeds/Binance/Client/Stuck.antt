-- ===== src/Feeds/Binance/Client/Stuck.antt =====
-- The resync worker of `BinanceFeedClient` behind an exception that ended it.
use l2_orderbook_pipeline.Common.{
  ℕ, List, [], ◌∷◌, Option, ◌≡◌, sym, ap, ◌∙◌, subst, arith, Bool, true, false, Bool-cases, inl,
  inr,
}
use l2_orderbook_pipeline.Book.Engine.{BookEngine, is_live, invalidate}
use l2_orderbook_pipeline.Feeds.Json.{Numerals}
use l2_orderbook_pipeline.Feeds.Binance.Client.{
  BinanceFeedClient, Worker, waiting, fetching, dead, cancelled,
}
use l2_orderbook_pipeline.Feeds.Binance.Client.Run.{
  connect, Event, is_worker_event, worker_step, step, run,
}
use l2_orderbook_pipeline.Feeds.Binance.Client.Reads.{Reads, Loses}
use l2_orderbook_pipeline.Feeds.Binance.Client.Moves.{
  Moves, stays, dials, connects, reads, loses, breaks, run_step-Moves,
}
use l2_orderbook_pipeline.Sinks.Queue.{BoundedRowQueue}
use l2_orderbook_pipeline.Sinks.Rows.{SnapshotRow}

abbrev pub is_gone : Worker → Bool
is_gone waiting = false
is_gone (fetching n) = false
is_gone dead = true
is_gone cancelled = true

-- Nobody resynchronises any more.
pub record Stuck (q : Option (BoundedRowQueue SnapshotRow)) (c : BinanceFeedClient) : Type 0 where
  pub gone : is_gone c.worker ≡ true
  pub lost : is_live c.engine.state ≡ false
  pub queue_is : c.row_queue ≡ q

pub invalidate-lost : (b : BookEngine) → is_live (invalidate b).state ≡ false
unfolding invalidate
invalidate-lost b = ground arith

module _ (q : Option (BoundedRowQueue SnapshotRow)) where
  Reads-Stuck : (c d : BinanceFeedClient) → Reads c d → Stuck q c → Stuck q d
  Reads-Stuck c d r s = record {
    gone = ap is_gone r.worker_same ∙ s.gone;
    lost = r.stays_lost s.lost;
    queue_is = r.no_row s.lost ∙ s.queue_is;
  }

  Loses-Stuck : (c d : BinanceFeedClient) → Loses c d → Stuck q c → Stuck q d
  Loses-Stuck c d l s = record {
    gone = elim (l.worker_ends) [ inl e ↦ ap is_gone e ∙ s.gone | inr e ↦ ap is_gone e ];
    lost = ap (λ (b : BookEngine). is_live b.state) l.engine_same ∙ s.lost;
    queue_is = l.queue_same ∙ s.queue_is;
  }

  connect-Stuck : (c : BinanceFeedClient) (now : ℕ) → Stuck q c → Stuck q (connect c now)
  unfolding connect
  connect-Stuck c now s = record {
    gone = s.gone;
    lost = invalidate-lost c.engine;
    queue_is = s.queue_is;
  }

  Moves-Stuck : (c d : BinanceFeedClient) → Moves c d → Stuck q c → Stuck q d
  Moves-Stuck c d (stays e) s = subst (Stuck q) (sym e) s
  Moves-Stuck c d (dials e) s =
      subst (Stuck q) (sym e) (record { gone = s.gone; lost = s.lost; queue_is = s.queue_is })
  Moves-Stuck c d (connects now e) s = subst (Stuck q) (sym e) (connect-Stuck c now s)
  Moves-Stuck c d (reads r) s = Reads-Stuck c d r s
  Moves-Stuck c d (loses l) s = Loses-Stuck c d l s
  Moves-Stuck c d (breaks m r l) s = Loses-Stuck m d l (Reads-Stuck c m r s)

  worker_step-Stuck :
      (c : BinanceFeedClient) (w : Worker) (e : Event)
      → is_gone w ≡ true
      → Stuck q c
      → Stuck q (worker_step c w e)
  unfolding worker_step
  worker_step-Stuck c waiting e g s = cc
  worker_step-Stuck c (fetching n) e g s = cc
  worker_step-Stuck c dead e g s = s
  worker_step-Stuck c cancelled e g s = s

  pub run-Stuck :
      (py : Numerals) (es : List Event) (c : BinanceFeedClient) → Stuck q c → Stuck q (run py c es)
  unfolding run step
  run-Stuck py [] c s = s
  run-Stuck py (e ∷ es) c s = run-Stuck py es (step py c e) (elim (Bool-cases (is_worker_event e)) [
    | inl h ↦ rw (h, step) (worker_step-Stuck c c.worker e s.gone s)
    | inr h ↦ rw (h, step) (Moves-Stuck c _ (run_step-Moves py c c.phase e) s)
  ])
