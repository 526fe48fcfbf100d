-- ===== src/Simulation/Market/Uncrossed.antt =====
-- The market's book never crosses.
use l2_orderbook_pipeline.Common.{
  ℕ, zero, suc, ◌+◌, ◌≤◌, List, [], ◌∷◌, Option, none, some, ◌≡◌, refl, ap, ◌∙◌, subst, arith, Bool,
  true, false, if◌then◌else◌,
}
use l2_orderbook_pipeline.Common.Dict
use l2_orderbook_pipeline.Common.Int.{pos, ltb_ℤ, ◌≤ℤ◌, ◌<ℤ◌, ◌+ℤ◌, ◌-ℤ◌, int_laws}
use l2_orderbook_pipeline.Book.Types.{Decimal, PriceLevel, DiffEvent, Side}
use l2_orderbook_pipeline.Simulation.Market.{
  MarketSimulator, init, seed_book, initial_mid, tick, Draw, StepDraw, best_bid, best_ask,
  changes_by, changes_for_side, apply_side, change_side, maybe_change, Changed, on_bids, on_asks,
  change_asks, force_change, all_changes, publish, step,
}
use l2_orderbook_pipeline.Simulation.Market.Keys.{
  set-Prices, Prices, best_bid-Prices, best_ask-Prices,
}
use l2_orderbook_pipeline.Simulation.Market.Fair.{
  Apart, Fair, both-Prices, AfterLevels, changes_by-Fair,
}

abbrev AfterSide : Option (MarketSimulator × List PriceLevel) → Type 0
AfterSide none = Unit
AfterSide (some (m, ls)) = Fair m

applied-Fair :
    (m : MarketSimulator) (is_bid : Bool) (o : Option (List PriceLevel))
    → AfterLevels m is_bid o
    → AfterSide (elim o [ none ↦ none | some ls ↦ some (apply_side m is_bid ls, ls) ])
applied-Fair m is_bid none h = tt
applied-Fair m is_bid (some ls) h = h

maybe_change-Fair :
    (m : MarketSimulator) (b is_bid : Bool) (d : Draw)
    → Fair m
    → 1 ≤ d.qty
    → AfterSide (maybe_change m b is_bid d)
unfolding maybe_change change_side changes_for_side
maybe_change-Fair m false is_bid d f h = f
maybe_change-Fair m true is_bid d f h =
    applied-Fair m is_bid (changes_by m is_bid d d.action) (changes_by-Fair m is_bid d d.action f h)

abbrev AllFair : Option Changed → Type 0
AllFair none = Unit
AllFair (some c) = Fair c.market

on_bids-Fair : (o : Option (MarketSimulator × List PriceLevel)) → AfterSide o → AllFair (on_bids o)
on_bids-Fair none h = tt
on_bids-Fair (some (m, ls)) h = h

on_asks-Fair :
    (bs : List PriceLevel) (o : Option (MarketSimulator × List PriceLevel))
    → AfterSide o
    → AllFair (on_asks bs o)
on_asks-Fair bs none h = tt
on_asks-Fair bs (some (m, ls)) h = h

-- Quantities are drawn from 1 on.
pub record Drawn (d : StepDraw) : Type 0 where
  pub bids_drawn : 1 ≤ d.for_bids.qty
  pub asks_drawn : 1 ≤ d.for_asks.qty
  pub again_drawn : 1 ≤ d.again.qty

change_asks-Fair :
    (d : StepDraw) (o : Option Changed) → Drawn d → AllFair o → AllFair (change_asks d o)
unfolding change_asks
change_asks-Fair d none w h = tt
change_asks-Fair d (some c) w h =
    on_asks-Fair c.bid_changes _
      (maybe_change-Fair c.market d.asks_change false d.for_asks h w.asks_drawn)

again-Fair :
    (d : StepDraw) (m : MarketSimulator) (coin : Bool)
    → Drawn d
    → Fair m
    → AllFair (
        if coin
        then on_bids (change_side m true d.again)
        else on_asks [] (change_side m false d.again))
again-Fair d m true w f =
    on_bids-Fair (change_side m true d.again)
      (unfold maybe_change in maybe_change-Fair m true true d.again f w.again_drawn)
again-Fair d m false w f =
    on_asks-Fair [] (change_side m false d.again)
      (unfold maybe_change in maybe_change-Fair m true false d.again f w.again_drawn)

forced :
    (d : StepDraw) (c : Changed) (bs cs : List PriceLevel)
    → Drawn d
    → Fair c.market
    → AllFair (elim bs [
      | _ ∷ _ ↦ some c
      | [] ↦ elim cs [
        | _ ∷ _ ↦ some c
        | [] ↦
            if d.coin
            then on_bids (change_side c.market true d.again)
            else on_asks [] (change_side c.market false d.again)
      ]
    ])
forced d c (l ∷ bs) cs w f = f
forced d c [] (l ∷ cs) w f = f
forced d c [] [] w f = again-Fair d c.market d.coin w f

force_change-Fair :
    (d : StepDraw) (o : Option Changed) → Drawn d → AllFair o → AllFair (force_change d o)
force_change-Fair d none w h = unfold force_change in tt
force_change-Fair d (some c) w h = unfold force_change in forced d c c.bid_changes c.ask_changes w h

all_changes-Fair :
    (m : MarketSimulator) (d : StepDraw) → Drawn d → Fair m → AllFair (all_changes m d)
unfolding all_changes
all_changes-Fair m d w f = force_change-Fair d _ w (
    change_asks-Fair d _ w
      (on_bids-Fair _ (maybe_change-Fair m d.bids_change true d.for_bids f w.bids_drawn)))

Fair-uncrossed : (m : MarketSimulator) → Fair m → ltb_ℤ (best_bid m.bids) (best_ask m.asks) ≡ true
Fair-uncrossed m f =
    let a =
      best_bid-Prices (λ b. Prices (λ a. b <ℤ a) m.asks) m.bids (omega (arith, f.many_bids))
        f.apart in
    let b = best_ask-Prices (λ a. best_bid m.bids <ℤ a) m.asks (omega (arith, f.many_asks)) a in
    ground (arith, b)

publish-Fair :
    (n : ℕ) (c : Changed)
    → Fair c.market
    → (r : MarketSimulator × DiffEvent) × (publish n (some c) ≡ some r) × Fair r.0
unfolding publish
publish-Fair n c f = (
  (
    record (c.market) { update_id = c.market.update_id + 1 },
    record {
      prev_id = pos n;
      final_id = pos (c.market.update_id + 1);
      bids = c.bid_changes;
      asks = c.ask_changes;
    },
  ),
  rw (Fair-uncrossed c.market f) refl,
  record {
    spread_pos = f.spread_pos;
    many_bids = f.many_bids;
    many_asks = f.many_asks;
    bids_above = f.bids_above;
    apart = f.apart;
  },
)

-- The book never crosses: from a market whose bids are all below its asks, with at least the minimum of
-- levels on both sides, no bid below a tick and a positive minimal spread, a step whose draws can be made
-- passes the assertion at its end, and leaves such a market.
pub step-Fair :
    (m : MarketSimulator) (d : StepDraw) (c : Changed)
    → Fair m
    → Drawn d
    → all_changes m d ≡ some c
    → (r : MarketSimulator × DiffEvent) × (step m d ≡ some r) × Fair r.0
unfolding step
step-Fair m d c f w e =
    let (r, p, g) = publish-Fair m.update_id c (subst AllFair e (all_changes-Fair m d w f)) in
    (r, ap (publish m.update_id) e ∙ p, g)

-- The rounds of `_seed_book` keep the bids below the middle and the asks above it.
abbrev Seeded : MarketSimulator → Type 0
Seeded m =
    Prices (λ p. (tick ≤ℤ p) × (p <ℤ initial_mid)) m.bids × Prices (λ p. initial_mid <ℤ p) m.asks

seed_book-Seeded :
    (n k : ℕ) (bid_qty ask_qty : ℕ → ℕ) (m : MarketSimulator)
    → 1 ≤ k
    → k + n ≤ 9999
    → Seeded m
    → Seeded (seed_book n k bid_qty ask_qty m)
unfolding seed_book
seed_book-Seeded zero k bid_qty ask_qty m l h s = s
seed_book-Seeded (suc n) k bid_qty ask_qty m l h s =
    seed_book-Seeded n (suc k) bid_qty ask_qty _ (omega arith) (omega arith) (
      set-Prices (λ p. (tick ≤ℤ p) × (p <ℤ initial_mid)) (initial_mid -ℤ pos k) _ m.bids
          (omega int_laws, omega int_laws) s.0,
      set-Prices (λ p. initial_mid <ℤ p) (initial_mid +ℤ pos k) _ m.asks (omega int_laws) s.1,
    )

mid-Apart :
    (bids asks : Side)
    → Prices (λ p. (tick ≤ℤ p) × (p <ℤ initial_mid)) bids
    → Prices (λ p. initial_mid <ℤ p) asks
    → Apart bids asks
mid-Apart [] asks b a = tt
mid-Apart (x ∷ bids) asks b a =
    (both-Prices asks a a (λ k p q. omega (arith, b.0.1, p)), mid-Apart bids asks b.1 a)

-- The market that `__init__` sets up is one, whatever quantities are drawn.
pub init-Fair :
    (spread_min : Decimal) (bid_qty ask_qty : ℕ → ℕ)
    → pos 1 ≤ℤ spread_min
    → Fair (init spread_min bid_qty ask_qty)
unfolding init
init-Fair spread_min bid_qty ask_qty h =
    let s =
      seed_book-Seeded 10 1 bid_qty ask_qty
        (record { spread_min = spread_min; update_id = 0; bids = []; asks = [] }) (omega arith)
        (omega arith) (tt, tt) in
    record {
      spread_pos = h;
      many_bids = unfold Dict.set ◌-ℤ◌ in omega arith;
      many_asks = unfold Dict.set ◌+ℤ◌ in omega arith;
      bids_above = both-Prices _ s.0 s.0 (λ k p q. p.0);
      apart = mid-Apart _ _ s.0 s.1;
    }
