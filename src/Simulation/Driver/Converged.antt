-- ===== src/Simulation/Driver/Converged.antt =====
-- Runs of the driver: whenever the engine is live, it holds the book that the market had.
use l2_orderbook_pipeline.Common.{
  ℕ, zero, suc, ◌+◌, List, Option, none, some, ◌≡◌, refl, sym, ap, ◌∙◌, true, Bool-cases, inl, inr,
}
use l2_orderbook_pipeline.Common.Int.{ℤ, pos, ℤ_eq}
use l2_orderbook_pipeline.Common.Dict
use l2_orderbook_pipeline.Book.Types.{
  Decimal, DiffEvent, SnapshotEvent, ApplyStatus, applied, buffered, gap_detected, snapshot_stale,
}
use l2_orderbook_pipeline.Book.Engine
use l2_orderbook_pipeline.Book.Engine.{BookEngine, is_live, load_snapshot}
use l2_orderbook_pipeline.Book.Invariant.{init-WellFormed}
use l2_orderbook_pipeline.Book.Sync.{Exchange, Mirrors, TruthfulSnapshot, init-Faithful}
use l2_orderbook_pipeline.Simulation.Market.{MarketSimulator, StepDraw}
use l2_orderbook_pipeline.Simulation.Market
use l2_orderbook_pipeline.Simulation.Market.Oracle.{
  Sound, market_at, oracle, snapshot_true, bid_at, ask_at,
}
use l2_orderbook_pipeline.Simulation.Faults
use l2_orderbook_pipeline.Simulation.Faults.{FaultInjector, SnapshotDraw, poll, request_snapshot}
use l2_orderbook_pipeline.Simulation.Driver.{
  SimulatedFeedDriver, Outcome, finished, retry_limit_exceeded, failed, recovered, sync_loaded,
  sync_with, sync_rounds, apply_all, after_poll, Draws, run_step, run, and_then, init,
}
use l2_orderbook_pipeline.Simulation.Driver.Recovery.{IfFinished}
use l2_orderbook_pipeline.Simulation.Driver.Truth.{
  Genuine, GenuineRun, Delivers, IfPolled, Serves, poll-Delivers, request-Serves,
  apply_all-Faithful, load-Faithful,
}

module _ (start : MarketSimulator) (all_draws : ℕ → Draws) where
  abbrev draws : ℕ → StepDraw
  draws n = (all_draws n).in_market

  abbrev x : Exchange
  x = oracle start draws

  abbrev Good : SimulatedFeedDriver → Type 0
  Good s = GenuineRun start draws s

  recovered-Good : (s : SimulatedFeedDriver) (gap : Option ℕ) → Good s → Good (recovered s gap)
  recovered-Good s none g = g
  recovered-Good s (some n) g = record {
    injector_genuine = g.injector_genuine;
    in_step = g.in_step;
    well_formed = g.well_formed;
    faithful = g.faithful;
  }

  loaded-Good :
      (s : SimulatedFeedDriver) (snap : SnapshotEvent) (b : BookEngine) (st : ApplyStatus) (n : ℕ)
      → TruthfulSnapshot x snap
      → Good s
      → load_snapshot s.engine snap ≡ some (b, st)
      → Good (record s { engine = b; stale_snapshot_retries = n })
  loaded-Good s snap b st n t g h =
      let r = load-Faithful start draws s.engine b snap st t g.well_formed g.faithful h in
      record {
        injector_genuine = g.injector_genuine;
        in_step = g.in_step;
        well_formed = r.0;
        faithful = r.1;
      }

  sync_loaded-Good :
      (s : SimulatedFeedDriver) (gap : Option ℕ) (snap : SnapshotEvent)
      (o : Option (BookEngine × ApplyStatus)) (retry : SimulatedFeedDriver → Outcome)
      → TruthfulSnapshot x snap
      → Good s
      → load_snapshot s.engine snap ≡ o
      → ((t : SimulatedFeedDriver) → Good t → IfFinished Good (retry t))
      → IfFinished Good (sync_loaded s gap o retry)
  unfolding sync_loaded
  sync_loaded-Good s gap snap none retry t g e h = tt
  sync_loaded-Good s gap snap (some (b, applied)) retry t g e h =
      recovered-Good (record s { engine = b }) gap
        (loaded-Good s snap b applied s.stale_snapshot_retries t g e)
  sync_loaded-Good s gap snap (some (b, buffered)) retry t g e h =
      h _ (loaded-Good s snap b buffered _ t g e)
  sync_loaded-Good s gap snap (some (b, gap_detected)) retry t g e h =
      h _ (loaded-Good s snap b gap_detected _ t g e)
  sync_loaded-Good s gap snap (some (b, snapshot_stale)) retry t g e h =
      h _ (loaded-Good s snap b snapshot_stale _ t g e)

  sync_with-Good :
      (s : SimulatedFeedDriver) (gap : Option ℕ) (o : Option (FaultInjector × SnapshotEvent))
      (retry : SimulatedFeedDriver → Outcome)
      → Serves start draws s.injector.step o
      → Good s
      → ((t : SimulatedFeedDriver) → Good t → IfFinished Good (retry t))
      → IfFinished Good (sync_with s gap o retry)
  unfolding sync_with Serves
  sync_with-Good s gap none retry sv g h = tt
  sync_with-Good s gap (some (i, snap)) retry sv g h =
      sync_loaded-Good (record s { injector = i }) gap snap (load_snapshot s.engine snap) retry sv.2
        (record {
          injector_genuine = sv.0;
          in_step = sv.1 ∙ g.in_step;
          well_formed = g.well_formed;
          faithful = g.faithful;
        })
        refl h

  sync_rounds-Good :
      (n : ℕ) (ds : ℕ → SnapshotDraw) (gap : Option ℕ) (s : SimulatedFeedDriver)
      → Good s
      → IfFinished Good (sync_rounds n ds gap s)
  unfolding sync_rounds
  sync_rounds-Good zero ds gap s g = tt
  sync_rounds-Good (suc n) ds gap s g =
      sync_with-Good s gap (request_snapshot s.injector (ds 0)) _
        (request-Serves start draws s.injector (ds 0) g.injector_genuine) g
        (λ t k. sync_rounds-Good n (λ i. ds (suc i)) gap t k)

  after_poll-Good :
      (s : SimulatedFeedDriver) (ds : ℕ → SnapshotDraw)
      (o : Option (FaultInjector × List DiffEvent))
      → IfPolled start draws (s.injector.step + 1) o
      → Good s
      → IfFinished Good (after_poll s ds o)
  unfolding after_poll IfPolled Delivers
  after_poll-Good s ds none p g = tt
  after_poll-Good s ds (some (i, es)) p g =
      let r = apply_all-Faithful start draws es s.engine p.2 g.well_formed g.faithful in
      let next : SimulatedFeedDriver = record s {
        injector = i;
        engine = (apply_all s.engine es).0;
        step = s.step + 1;
      } in
      let good : Good next = record {
        injector_genuine = p.0;
        in_step = p.1 ∙ ap (λ n. n + 1) g.in_step;
        well_formed = r.0;
        faithful = r.1;
      } in
      elim (Bool-cases (apply_all s.engine es).1) [
        | inl h ↦ rw h (sync_rounds-Good s.snapshot_retry_limit ds (some s.step) next good)
        | inr h ↦ rw h good
      ]

  and_then-Good :
      (o : Outcome) (k : SimulatedFeedDriver → Outcome)
      → IfFinished Good o
      → ((t : SimulatedFeedDriver) → Good t → IfFinished Good (k t))
      → IfFinished Good (and_then o k)
  and_then-Good (finished s) k h f = f s h
  and_then-Good (retry_limit_exceeded s) k h f = tt
  and_then-Good failed k h f = tt

  run_step-Good :
      Sound start
      → (s : SimulatedFeedDriver) → Good s
      → IfFinished Good (run_step s (all_draws s.step))
  unfolding run_step poll
  run_step-Good m s g =
      after_poll-Good s (all_draws s.step).in_sync _
        (poll-Delivers start draws s.injector (all_draws s.step).in_faults _ m g.injector_genuine
          (ap (λ n. Market.step s.injector.market (all_draws n).in_market) g.in_step))
        g

  run-Good :
      Sound start → (n : ℕ) (s : SimulatedFeedDriver) → Good s → IfFinished Good (run all_draws n s)
  unfolding run
  run-Good m zero s g = g
  run-Good m (suc n) s g =
      and_then-Good (run_step s (all_draws s.step)) (run all_draws n) (run_step-Good m s g)
        (λ t k. run-Good m n t k)

  abbrev pub new_injector : ℕ → FaultInjector
  new_injector max_steps = Faults.init start max_steps

  new_injector-Genuine :
      Sound start
      → start.update_id ≡ 0
      → (max_steps : ℕ) → Genuine start draws (new_injector max_steps)
  unfolding Faults.init market_at
  new_injector-Genuine m z max_steps = record {
    is_at = refl;
    id_is = z;
    held_true = λ e h. cc;
    history_true = (snapshot_true start draws m 0 z, tt);
  }

  init-Good :
      Sound start
      → start.update_id ≡ 0
      → (max_steps depth limit : ℕ) (ds : ℕ → SnapshotDraw)
      → IfFinished Good (init (new_injector max_steps) (Engine.init depth) limit ds)
  unfolding init Engine.init Faults.init
  init-Good m z max_steps depth limit ds = sync_rounds-Good limit ds none _ (record {
    injector_genuine = new_injector-Genuine m z max_steps;
    in_step = refl;
    well_formed = init-WellFormed depth;
    faithful = init-Faithful x depth;
  })

  -- The engine is live at some update id, and holds the market's book of that id; if that is the
  -- market's own id, the market's present book.
  pub record Converges (s : SimulatedFeedDriver) : Type 0 where
    pub book_true :
        is_live s.engine.state ≡ true
        → (i : ℤ) × (s.engine.last_applied_id ≡ some i)
          × Mirrors s.engine.bids (bid_at start draws i)
          × Mirrors s.engine.asks (ask_at start draws i)
    pub caught_up :
        is_live s.engine.state ≡ true
        → s.engine.last_applied_id ≡ some (pos s.injector.market.update_id)
        → ((p : Decimal) → Dict.get p s.engine.bids ≡ Dict.get p s.injector.market.bids)
          × ((p : Decimal) → Dict.get p s.engine.asks ≡ Dict.get p s.injector.market.asks)

  Good-Converges : (s : SimulatedFeedDriver) → Good s → Converges s
  unfolding bid_at ask_at
  Good-Converges s g = record {
    book_true = λ l.
        let (i, at) = (g.well_formed.live_shape l).0 in
        (i, at, g.faithful.bids_at i at, g.faithful.asks_at i at);
    caught_up = λ l at.
        let gi = g.injector_genuine in
        let here = sym (gi.is_at ∙ ap (market_at start draws) (sym gi.id_is)) in
        (
          λ p. g.faithful.bids_at _ at p ∙ ap (λ (m : MarketSimulator). Dict.get p m.bids) here,
          λ p. g.faithful.asks_at _ at p ∙ ap (λ (m : MarketSimulator). Dict.get p m.asks) here,
        );
  }

  IfFinished-map : (o : Outcome) → IfFinished Good o → IfFinished Converges o
  IfFinished-map (finished s) h = Good-Converges s h
  IfFinished-map (retry_limit_exceeded s) h = tt
  IfFinished-map failed h = tt

  -- A simulation of any seed, any faults and any delays of snapshots, from a market that starts at id 0
  -- with no price twice, run for any number of steps: where it raises nothing, a live engine has a
  -- checkpoint and holds the book that the market had at it; with the checkpoint at the market's
  -- present id, both sides are the market's present ones.
  pub simulation-Converges :
      (max_steps depth limit n : ℕ) (ds : ℕ → SnapshotDraw)
      → Sound start
      → start.update_id ≡ 0
      → IfFinished Converges
          (and_then (init (new_injector max_steps) (Engine.init depth) limit ds) (run all_draws n))
  simulation-Converges max_steps depth limit n ds m z = IfFinished-map _ (
      and_then-Good _ (run all_draws n) (init-Good m z max_steps depth limit ds)
        (λ t g. run-Good m n t g))
