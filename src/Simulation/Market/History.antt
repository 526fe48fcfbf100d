-- ===== src/Simulation/Market/History.antt =====
-- What a step of the market changes.
use l2_orderbook_pipeline.Common.{
  ◌+◌, List, [], ◌∷◌, Option, none, some, ◌≡◌, refl, ap, ◌∙◌, subst, arith, Bool, true, false,
  Bool-cases, inl, inr, if◌then◌else◌,
}
use l2_orderbook_pipeline.Common.Int.{pos, ltb_ℤ, ℤ_eq}
use l2_orderbook_pipeline.Book.Types.{PriceLevel, DiffEvent}
use l2_orderbook_pipeline.Book.Levels.{apply_levels}
use l2_orderbook_pipeline.Simulation.Market.{
  MarketSimulator, Draw, StepDraw, Changed, changes_for_side, apply_side, change_side, maybe_change,
  on_bids, on_asks, change_asks, force_change, all_changes, publish, step, best_bid, best_ask,
}

-- The changes lead from the one market to the other.
pub record LeadTo (m : MarketSimulator) (c : Changed) : Type 0 where
  pub bids_led : c.market.bids ≡ apply_levels m.bids c.bid_changes
  pub asks_led : c.market.asks ≡ apply_levels m.asks c.ask_changes
  pub same_id : c.market.update_id ≡ m.update_id

abbrev AllLead : MarketSimulator → Option Changed → Type 0
AllLead m none = Unit
AllLead m (some c) = LeadTo m c

abbrev SideLed : MarketSimulator → Bool → Option (MarketSimulator × List PriceLevel) → Type 0
SideLed m is_bid none = Unit
SideLed m is_bid (some (m', ls)) = m' ≡ apply_side m is_bid ls

applied_led :
    (m : MarketSimulator) (is_bid : Bool) (o : Option (List PriceLevel))
    → SideLed m is_bid (elim o [ none ↦ none | some ls ↦ some (apply_side m is_bid ls, ls) ])
applied_led m is_bid none = tt
applied_led m is_bid (some ls) = refl

change_side-led :
    (m : MarketSimulator) (is_bid : Bool) (d : Draw) → SideLed m is_bid (change_side m is_bid d)
unfolding change_side
change_side-led m is_bid d = applied_led m is_bid (changes_for_side m is_bid d)

maybe_change-led :
    (m : MarketSimulator) (b is_bid : Bool) (d : Draw)
    → SideLed m is_bid (maybe_change m b is_bid d)
unfolding maybe_change apply_levels
maybe_change-led m false true d = refl
maybe_change-led m false false d = refl
maybe_change-led m true is_bid d = change_side-led m is_bid d

on_bids-led :
    (m : MarketSimulator) (o : Option (MarketSimulator × List PriceLevel))
    → SideLed m true o
    → AllLead m (on_bids o)
unfolding apply_levels
on_bids-led m none h = tt
on_bids-led m (some (m', ls)) h = record {
  bids_led = ap (λ (k : MarketSimulator). k.bids) h;
  asks_led = ap (λ (k : MarketSimulator). k.asks) h;
  same_id = ap (λ (k : MarketSimulator). k.update_id) h;
}

-- The asks are changed behind changes of the bids.
on_asks-led :
    (m : MarketSimulator) (c : Changed) (o : Option (MarketSimulator × List PriceLevel))
    → LeadTo m c
    → c.ask_changes ≡ []
    → SideLed c.market false o
    → AllLead m (on_asks c.bid_changes o)
unfolding apply_levels
on_asks-led m c none l n h = tt
on_asks-led m c (some (m', ls)) l n h = record {
  bids_led = ap (λ (k : MarketSimulator). k.bids) h ∙ l.bids_led;
  asks_led =
      ap (λ (k : MarketSimulator). k.asks) h
      ∙ ap (λ side. apply_levels side ls) (l.asks_led ∙ ap (apply_levels m.asks) n);
  same_id = ap (λ (k : MarketSimulator). k.update_id) h ∙ l.same_id;
}

on_bids-no_asks :
    (o : Option (MarketSimulator × List PriceLevel)) (c : Changed)
    → on_bids o ≡ some c
    → c.ask_changes ≡ []
on_bids-no_asks none c h = cc
on_bids-no_asks (some (m, ls)) c h = cc

change_asks-led :
    (m : MarketSimulator) (d : StepDraw) (o : Option Changed)
    → AllLead m o
    → ((c : Changed) → o ≡ some c → c.ask_changes ≡ [])
    → AllLead m (change_asks d o)
unfolding change_asks
change_asks-led m d none l n = tt
change_asks-led m d (some c) l n =
    on_asks-led m c _ l (n c refl) (maybe_change-led c.market d.asks_change false d.for_asks)

-- The bids are changed where nothing was changed before.
on_bids-more :
    (m : MarketSimulator) (c : Changed) (o : Option (MarketSimulator × List PriceLevel))
    → LeadTo m c
    → c.bid_changes ≡ []
    → c.ask_changes ≡ []
    → SideLed c.market true o
    → AllLead m (on_bids o)
unfolding apply_levels
on_bids-more m c none l e f h = tt
on_bids-more m c (some (m', ls)) l e f h = record {
  bids_led =
      ap (λ (k : MarketSimulator). k.bids) h
      ∙ ap (λ side. apply_levels side ls) (l.bids_led ∙ ap (apply_levels m.bids) e);
  asks_led = ap (λ (k : MarketSimulator). k.asks) h ∙ l.asks_led ∙ ap (apply_levels m.asks) f;
  same_id = ap (λ (k : MarketSimulator). k.update_id) h ∙ l.same_id;
}

forced-led :
    (m : MarketSimulator) (d : StepDraw) (c : Changed) (bs asks : List PriceLevel)
    → c.bid_changes ≡ bs
    → c.ask_changes ≡ asks
    → LeadTo m c
    → AllLead m (elim bs [
      | _ ∷ _ ↦ some c
      | [] ↦ elim asks [
        | _ ∷ _ ↦ some c
        | [] ↦
            if d.coin
            then on_bids (change_side c.market true d.again)
            else on_asks [] (change_side c.market false d.again)
      ]
    ])
forced-led m d c (b ∷ bs) asks e f l = l
forced-led m d c [] (a ∷ asks) e f l = l
forced-led m d c [] [] e f l = elim (Bool-cases d.coin) [
  | inl h ↦ rw h (on_bids-more m c _ l e f (change_side-led c.market true d.again))
  | inr h ↦ rw h (
      subst (λ bs. AllLead m (on_asks bs (change_side c.market false d.again))) e
        (on_asks-led m c _ l f (change_side-led c.market false d.again)))
]

force_change-led :
    (m : MarketSimulator) (d : StepDraw) (o : Option Changed)
    → AllLead m o
    → AllLead m (force_change d o)
unfolding force_change
force_change-led m d none l = tt
force_change-led m d (some c) l = forced-led m d c c.bid_changes c.ask_changes refl refl l

all_changes-led : (m : MarketSimulator) (d : StepDraw) → AllLead m (all_changes m d)
unfolding all_changes
all_changes-led m d =
    let first = on_bids-led m _ (maybe_change-led m d.bids_change true d.for_bids) in
    force_change-led m d _ (change_asks-led m d _ first (on_bids-no_asks _))

-- What a step of the market makes of it, and the event that it gives.
pub record Stepped (m : MarketSimulator) (r : MarketSimulator × DiffEvent) : Type 0 where
  pub bids_follow : r.0.bids ≡ apply_levels m.bids r.1.bids
  pub asks_follow : r.0.asks ≡ apply_levels m.asks r.1.asks
  pub next_id : r.0.update_id ≡ m.update_id + 1
  pub from_id : r.1.prev_id ≡ pos m.update_id
  pub to_id : r.1.final_id ≡ pos (m.update_id + 1)
  pub uncrossed : ltb_ℤ (best_bid r.0.bids) (best_ask r.0.asks) ≡ true

abbrev pub IfStepped : MarketSimulator → Option (MarketSimulator × DiffEvent) → Type 0
IfStepped m none = Unit
IfStepped m (some r) = Stepped m r

publish-Stepped :
    (m : MarketSimulator) (o : Option Changed) → AllLead m o → IfStepped m (publish m.update_id o)
unfolding publish
publish-Stepped m none l = tt
publish-Stepped m (some c) l =
    elim (Bool-cases (ltb_ℤ (best_bid c.market.bids) (best_ask c.market.asks))) [
      | inl h ↦ rw h (record {
        bids_follow = l.bids_led;
        asks_follow = l.asks_led;
        next_id = omega (arith, l.same_id);
        from_id = refl;
        to_id = ap (λ n. pos (n + 1)) l.same_id;
        uncrossed = h;
      })
      | inr h ↦ rw h tt
    ]

-- A step of the market, if it raises nothing, leaves a book that is not crossed, under the next id; and
-- the event that it gives leads from the old id to the new one, and applied to the old book gives
-- the new one, whichever sides changed and however often.
pub step-Stepped : (m : MarketSimulator) (d : StepDraw) → IfStepped m (step m d)
unfolding step
step-Stepped m d = publish-Stepped m (all_changes m d) (all_changes-led m d)
