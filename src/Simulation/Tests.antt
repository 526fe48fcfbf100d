-- ===== src/Simulation/Tests.antt =====
-- Tests of the simulation, and its theorems at concrete inputs.
use l2_orderbook_pipeline.Common.{ℕ, List, [], ◌∷◌, some, ◌≡◌, refl, Bool, true, false, ◌==◌}
use l2_orderbook_pipeline.Common.{none, arith}
use l2_orderbook_pipeline.Common.Int.{pos, negsuc, ◌+ℤ◌, ◌-ℤ◌}
use l2_orderbook_pipeline.Book.Levels.{apply_levels, dict_from}
use l2_orderbook_pipeline.Common.Dict
use l2_orderbook_pipeline.Common.Dict.{Unique}
use l2_orderbook_pipeline.Book.Types.{live, resyncing}
use l2_orderbook_pipeline.Book.Engine
use l2_orderbook_pipeline.Book.Engine.{BookEngine, is_live}
use l2_orderbook_pipeline.Simulation.Market
use l2_orderbook_pipeline.Simulation.Market.{
  MarketSimulator, Draw, StepDraw, update, insert, delete,
}
use l2_orderbook_pipeline.Simulation.Market.Oracle.{Sound}
use l2_orderbook_pipeline.Simulation.Faults
use l2_orderbook_pipeline.Simulation.Faults.{
  FaultRolls, FaultRecord, SnapshotDraw, drop_one, reorder,
}
use l2_orderbook_pipeline.Simulation.Driver
use l2_orderbook_pipeline.Simulation.Driver.{
  Draws, SimulatedFeedDriver, Outcome, finished, retry_limit_exceeded, failed, run, and_then,
}
use l2_orderbook_pipeline.Simulation.Driver.Recovery.{IfFinished, IsLive, run-IsLive}
use l2_orderbook_pipeline.Simulation.Driver.{sync_rounds}
use l2_orderbook_pipeline.Simulation.Driver.Fresh.{sync_ends}
use l2_orderbook_pipeline.Simulation.Driver.Converged.{
  Converges, new_injector, simulation-Converges,
}

abbrev market : MarketSimulator
market = record {
  spread_min = pos 1;
  update_id = 0;
  bids = (pos 9999, pos 700) ∷ (pos 9998, pos 300) ∷ [];
  asks = (pos 10001, pos 500) ∷ (pos 10002, pos 900) ∷ [];
}

market-Sound : Sound market
unfolding Unique Dict.get
market-Sound = record { bids_unique = (refl, (refl, tt)); asks_unique = (refl, (refl, tt)) }

-- Bids change at each step, an insert above the best bid.
abbrev bid_draw : Draw
bid_draw = record { action = insert; pick = 0; qty = 12; offset = pos 1 }

abbrev step_draw : StepDraw
step_draw = record {
  bids_change = true;
  asks_change = false;
  coin = true;
  for_bids = bid_draw;
  for_asks = bid_draw;
  again = bid_draw;
}

-- The event of the second step is dropped; snapshots are never delayed.
abbrev draws : ℕ → Draws
draws n = record {
  in_market = step_draw;
  in_faults = record {
    disconnects = false;
    drops_burst = false;
    drops_one = n == 1;
    duplicates = false;
    reorders = false;
    window_length = 1;
  };
  in_sync = λ i. record { delayed = false; lookback = 0 };
}

abbrev simulation : ℕ → Outcome
simulation n =
    and_then
      (Driver.init (new_injector market draws 5) (Engine.init 20) 20
        (λ i. record { delayed = false; lookback = 0 }))
      (run draws n)

abbrev ends_live : Outcome → Bool
ends_live (finished s) = is_live s.engine.state
ends_live (retry_limit_exceeded s) = false
ends_live failed = false

simulation-ends_live : ends_live (simulation 4) ≡ true
unfolding Driver.init Engine.init Driver.sync_rounds Faults.request_snapshot Faults.init
    Engine.load_snapshot run Driver.run_step Faults.poll Faults.poll_with Market.step Market.publish
    Market.all_changes Market.force_change Market.change_asks Market.maybe_change Market.change_side
    Engine.apply_event Engine.apply_live Engine.load_survivors Engine.replay apply_levels dict_from
    Dict.pop Dict.set ◌+ℤ◌ ◌-ℤ◌ Driver.after_poll Driver.apply_all Driver.sync_loaded
    Driver.sync_with Faults.by_rolls Faults.deliver Faults.inject Faults.rolled
    Faults.shadowed_records Market.best_ask Market.best_bid Market.changes_by
    Market.changes_for_side Market.highest Market.insert_level Market.lowest Market.snapshot
simulation-ends_live = refl

simulation-Converges_example : IfFinished (Converges market draws) (simulation 4)
simulation-Converges_example =
    simulation-Converges market draws 5 20 20 4 (λ i. record { delayed = false; lookback = 0 })
      market-Sound refl

abbrev live_driver : SimulatedFeedDriver
live_driver = record {
  injector = new_injector market draws 5;
  engine = record {
    depth_levels = 20;
    bids = market.bids;
    asks = market.asks;
    state = live;
    last_applied_id = some (pos 0);
    buffer = [];
  };
  snapshot_retry_limit = 20;
  recoveries = [];
  stale_snapshot_retries = 0;
  step = 0;
}

run-IsLive_example : IfFinished IsLive (run draws 4 live_driver)
run-IsLive_example = run-IsLive draws 4 live_driver refl

abbrev log : List FaultRecord
log =
    record { step = 3; fault_type = drop_one; shadowed = false }
    ∷ record { step = 3; fault_type = reorder; shadowed = true }
    ∷ []

-- Out of sync behind a market at id 0, with an old event buffered.
abbrev lost_driver : SimulatedFeedDriver
lost_driver = record live_driver {
  engine = record {
    depth_levels = 20;
    bids = [];
    asks = [];
    state = resyncing;
    last_applied_id = none;
    buffer = record { prev_id = negsuc 0; final_id = pos 0; bids = []; asks = [] } ∷ [];
  };
}

sync_ends_example :
    (r : SimulatedFeedDriver) × (sync_rounds 20
        (λ i. record { delayed = false; lookback = 0 })
        (some 3)
        lost_driver
      ≡ finished r)
    × IsLive r
    × (r.engine.last_applied_id ≡ some (pos 0))
unfolding Faults.init Market.snapshot
sync_ends_example =
    sync_ends 19 (λ i. record { delayed = false; lookback = 0 }) (some 3) lost_driver 0
      (Market.snapshot market) [] refl refl refl (omega arith, tt)
