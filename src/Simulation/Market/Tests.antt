-- ===== src/Simulation/Market/Tests.antt =====
-- Tests of the market, and its theorem at concrete inputs.
use l2_orderbook_pipeline.Common.{[], ◌∷◌, some, ◌≡◌, refl, arith, true, false}
use l2_orderbook_pipeline.Common.Dict
use l2_orderbook_pipeline.Common.Int.{pos, negsuc, ◌+ℤ◌, ◌-ℤ◌}
use l2_orderbook_pipeline.Book.Types.{PriceLevel, DiffEvent}
use l2_orderbook_pipeline.Simulation.Market
use l2_orderbook_pipeline.Simulation.Market.{
  MarketSimulator, init, Draw, StepDraw, insert, insert_level, apply_side, Changed, changes_by,
  changes_for_side, change_side, maybe_change, change_asks, force_change, all_changes, best_bid,
  best_ask, highest, lowest,
}
use l2_orderbook_pipeline.Simulation.Market.Fair.{Fair}
use l2_orderbook_pipeline.Simulation.Market.Uncrossed.{Drawn, init-Fair, step-Fair}

abbrev market : MarketSimulator
market = init (pos 1) (λ k. 5) (λ k. 7)

-- An ask below the best ask, and nothing else.
abbrev draw : Draw
draw = record { action = insert; pick = 0; qty = 12; offset = negsuc 0 }

abbrev step_draw : StepDraw
step_draw = record {
  bids_change = false;
  asks_change = true;
  coin = true;
  for_bids = draw;
  for_asks = draw;
  again = draw;
}

abbrev ask : PriceLevel
ask = insert_level market false draw

ask_at_mid : ask.price ≡ pos 10000
unfolding init insert_level best_bid best_ask highest lowest Dict.set ◌+ℤ◌ ◌-ℤ◌
ask_at_mid = refl

abbrev changed : Changed
changed = record {
  market = apply_side market false (ask ∷ []);
  bid_changes = [];
  ask_changes = ask ∷ [];
}

step_draw-Drawn : Drawn step_draw
step_draw-Drawn = record {
  bids_drawn = omega arith;
  asks_drawn = omega arith;
  again_drawn = omega arith;
}

changes_made : all_changes market step_draw ≡ some changed
unfolding all_changes force_change change_asks maybe_change change_side changes_for_side changes_by
changes_made = refl

step-Fair_example :
    (r : MarketSimulator × DiffEvent) × (Market.step market step_draw ≡ some r) × Fair r.0
step-Fair_example =
    step-Fair market step_draw changed (init-Fair (pos 1) (λ k. 5) (λ k. 7) (omega arith))
      step_draw-Drawn changes_made
