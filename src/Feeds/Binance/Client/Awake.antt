-- ===== src/Feeds/Binance/Client/Awake.antt =====
-- What the resync worker of `BinanceFeedClient` owes to the reader loop, step by step.
use l2_orderbook_pipeline.Common.{
  ℕ, zero, suc, List, [], ◌∷◌, Option, none, some, ◌≡◌, refl, sym, ap, ◌∙◌, subst, arith, Bool,
  true, false, ◌||◌, Bool-cases, inl, inr, if◌then◌else◌,
}
use l2_orderbook_pipeline.Book.Types.{
  SnapshotEvent, ApplyStatus, applied, buffered, gap_detected, snapshot_stale,
}
use l2_orderbook_pipeline.Book.Engine.{BookEngine, is_live, load_snapshot}
use l2_orderbook_pipeline.Feeds.Json.{Numerals}
use l2_orderbook_pipeline.Feeds.Binance.{FetchResult, fetched, retry_limit_exceeded, raised}
use l2_orderbook_pipeline.Book.Loading.{load_applied, load_lost}
use l2_orderbook_pipeline.Feeds.Binance.Client.Stuck.{invalidate-lost, Stuck}
use l2_orderbook_pipeline.Feeds.Binance.Client.{
  publish, count, BinanceFeedClient, Worker, waiting, fetching, dead, cancelled, Receipt,
  is_reading, give_up, retry, Outcome, worker_end, on_load, on_fetch, wake,
}
use l2_orderbook_pipeline.Feeds.Binance.Client.Run.{
  connect, Event, is_worker_event, worker_wakes, fetch_done, worker_step, step, run,
}
use l2_orderbook_pipeline.Feeds.Binance.Client.Reads.{Reads, Loses, publish_to-engine}
use l2_orderbook_pipeline.Feeds.Binance.Client.Moves.{
  Moves, stays, dials, connects, reads, loses, breaks, run_step-Moves,
}

abbrev pub is_fetching : Worker → Bool
is_fetching waiting = false
is_fetching (fetching n) = true
is_fetching dead = false
is_fetching cancelled = false

-- A fetch is under way only while the engine is out of sync; and while the reader runs with the engine
-- out of sync and the worker at its wait, the worker is called, or has closed the websocket.
pub record Awake (c : BinanceFeedClient) : Type 0 where
  pub fetch_lost : is_fetching c.worker ≡ true → is_live c.engine.state ≡ false
  pub summoned :
      is_reading c.phase ≡ true
      → is_live c.engine.state ≡ false
      → c.worker ≡ waiting
      → (c.resync_needed || c.closed) ≡ true

Reads-Awake : (c d : BinanceFeedClient) → Reads c d → Awake c → Awake d
Reads-Awake c d r a = record {
  fetch_lost = λ h. r.stays_lost (a.fetch_lost (ap is_fetching (sym r.worker_same) ∙ h));
  summoned = λ p l w. elim (Bool-cases (is_live c.engine.state)) [
    | inl h ↦ ground (arith, r.asks h l)
    | inr h ↦
        let before = a.summoned (ap is_reading (sym r.phase_same) ∙ p) h (sym r.worker_same ∙ w) in
        ground (arith, r.still_asks, r.closed_same)
  ];
}

Loses-Awake : (c d : BinanceFeedClient) → Loses c d → Awake c → Awake d
Loses-Awake c d l a = record {
  fetch_lost = λ h. elim (l.worker_ends) [
    | inl e ↦
        ap (λ (b : BookEngine). is_live b.state) l.engine_same
        ∙ a.fetch_lost (ap is_fetching (sym e) ∙ h)
    | inr e ↦ (let f = ap is_fetching (sym e) ∙ h in cc)
  ];
  summoned = λ p lost w. elim (l.not_reading) [
    | inl e ↦ (let f = ap is_reading (sym e) ∙ p in cc)
    | inr (x, e) ↦ (let f = ap is_reading (sym e) ∙ p in cc)
  ];
}

connect-Awake : (c : BinanceFeedClient) (now : ℕ) → Awake (connect c now)
unfolding connect
connect-Awake c now = record {
  fetch_lost = λ h. invalidate-lost c.engine;
  summoned = λ p l w. refl;
}

Moves-Awake : (c d : BinanceFeedClient) → Moves c d → Awake c → Awake d
Moves-Awake c d (stays e) a = subst Awake (sym e) a
Moves-Awake c d (dials e) a =
    subst Awake (sym e) (record { fetch_lost = a.fetch_lost; summoned = λ p l w. cc })
Moves-Awake c d (connects now e) a = subst Awake (sym e) (connect-Awake c now)
Moves-Awake c d (reads r) a = Reads-Awake c d r a
Moves-Awake c d (loses l) a = Loses-Awake c d l a
Moves-Awake c d (breaks m r l) a = Loses-Awake m d l (Reads-Awake c m r a)

give_up-Awake : (c : BinanceFeedClient) → Awake (give_up c)
unfolding give_up
give_up-Awake c = record { fetch_lost = λ h. cc; summoned = λ p l w. ground arith }

retry-Awake : (n : ℕ) (c : BinanceFeedClient) → is_live c.engine.state ≡ false → Awake (retry n c)
unfolding retry
retry-Awake zero c l = give_up-Awake c
retry-Awake (suc n) c l = record { fetch_lost = λ h. l; summoned = λ p m w. cc }

wake-Awake : (c : BinanceFeedClient) → c.worker ≡ waiting → Awake (wake c)
unfolding wake
wake-Awake c w = elim (Bool-cases (is_live c.engine.state)) [
  | inl l ↦ rw l (record {
    fetch_lost = λ h. (let f = ap is_fetching (sym w) ∙ h in cc);
    summoned = λ p m v. cc;
  })
  | inr l ↦ rw l (retry-Awake c.snapshot_retry_limit _ l)
]

ended-Awake :
    (c : BinanceFeedClient) (w : Worker)
    → is_fetching w ≡ false
    → (w ≡ waiting → is_live c.engine.state ≡ true)
    → Awake (record c { worker = w })
ended-Awake c w f l = record { fetch_lost = λ h. cc; summoned = λ p m v. (let k = l v in cc) }

worker_end-Awake : (o : Outcome) → is_live o.0.engine.state ≡ true → Awake (worker_end o)
unfolding worker_end
worker_end-Awake (c, false) l = ended-Awake c waiting refl (λ h. l)
worker_end-Awake (c, true) l = ended-Awake c dead refl (λ h. l)

on_load-Awake :
    (c : BinanceFeedClient) (n : ℕ) (r : Receipt) (s : SnapshotEvent)
    (o : Option (BookEngine × ApplyStatus))
    → load_snapshot c.engine s ≡ o
    → is_live c.engine.state ≡ false
    → Awake (on_load c n r o)
unfolding on_load
on_load-Awake c n r s none e l = ended-Awake c dead refl (λ h. cc)
on_load-Awake c n r s (some (b, applied)) e l =
    let m = record (count "resync_completed" c) { engine = b } in
    worker_end-Awake (publish m r none) (
      ap (λ (b : BookEngine). is_live b.state) (publish_to-engine m r none m.row_queue).0
      ∙ load_applied c.engine b s e)
on_load-Awake c n r s (some (b, gap_detected)) e l =
    retry-Awake n (record (count "gap_detected" c) { engine = b })
      (load_lost c.engine b s gap_detected e (λ h. cc))
on_load-Awake c n r s (some (b, snapshot_stale)) e l =
    retry-Awake n (record (count "snapshot_stale_retry" c) { engine = b })
      (load_lost c.engine b s snapshot_stale e (λ h. cc))
on_load-Awake c n r s (some (b, buffered)) e l =
    retry-Awake n (record (count "snapshot_stale_retry" c) { engine = b })
      (load_lost c.engine b s buffered e (λ h. cc))

on_fetch-Awake :
    (c : BinanceFeedClient) (n : ℕ) (r : Receipt) (x : FetchResult)
    → is_live c.engine.state ≡ false
    → Awake (on_fetch c n r x)
unfolding on_fetch
on_fetch-Awake c n r (fetched s) l = on_load-Awake c n r s (load_snapshot c.engine s) refl l
on_fetch-Awake c n r retry_limit_exceeded l = give_up-Awake (count "snapshot_fetch_failed" c)
on_fetch-Awake c n r raised l = ended-Awake c dead refl (λ h. cc)

asked-Awake :
    (c : BinanceFeedClient) (b : Bool)
    → c.worker ≡ waiting
    → Awake c
    → Awake (if b then wake c else c)
asked-Awake c true k a = wake-Awake c k
asked-Awake c false k a = a

worker_step-Awake :
    (c : BinanceFeedClient) (w : Worker) (e : Event)
    → c.worker ≡ w
    → Awake c
    → Awake (worker_step c w e)
unfolding worker_step
worker_step-Awake c waiting worker_wakes k a = asked-Awake c c.resync_needed k a
worker_step-Awake c (fetching n) (fetch_done r x) k a =
    on_fetch-Awake c n r x (a.fetch_lost (ap is_fetching k))
worker_step-Awake c _ _ k a = a

pub raised_worker-Stuck :
    (c : BinanceFeedClient) (w : Worker) (r : Receipt)
    → is_fetching w ≡ true
    → is_live c.engine.state ≡ false
    → Stuck c.row_queue (worker_step c w (fetch_done r raised))
unfolding worker_step on_fetch
raised_worker-Stuck c waiting r h l = cc
raised_worker-Stuck c (fetching n) r h l = record { gone = refl; lost = l; queue_is = refl }
raised_worker-Stuck c dead r h l = cc
raised_worker-Stuck c cancelled r h l = cc

pub steps-Awake :
    (py : Numerals) (es : List Event) (c : BinanceFeedClient) → Awake c → Awake (run py c es)
unfolding run step
steps-Awake py [] c a = a
steps-Awake py (e ∷ es) c a =
    steps-Awake py es (step py c e) (elim (Bool-cases (is_worker_event e)) [
      | inl h ↦ rw (h, step) (worker_step-Awake c c.worker e refl a)
      | inr h ↦ rw (h, step) (Moves-Awake c _ (run_step-Moves py c c.phase e) a)
    ])
