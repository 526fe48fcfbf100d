-- ===== src/Simulation/Market/Oracle.antt =====
-- The market's own history, as the exchange that its events and snapshots are true of.
use l2_orderbook_pipeline.Common.{
  ℕ, zero, suc, ◌+◌, List, [], ◌∷◌, Option, none, some, ◌≡◌, refl, sym, ap, ◌∙◌, subst, arith, inl,
  inr,
}
use l2_orderbook_pipeline.Common.Int.{ℤ, pos, negsuc, eq_ℤ_iff, eq_of_parts, ℤ_eq}
use l2_orderbook_pipeline.Common.Dict
use l2_orderbook_pipeline.Common.Dict.{Unique, get-set}
use l2_orderbook_pipeline.Book.Types.{Decimal, PriceLevel, DiffEvent, Side}
use l2_orderbook_pipeline.Book.Levels.{
  apply_levels, apply_levels-Unique, get-apply_levels, dict_from, dict_of_levels,
}
use l2_orderbook_pipeline.Book.Sync.{Exchange, Covers, Carries, Mirrors, Truthful, TruthfulSnapshot}
use l2_orderbook_pipeline.Simulation.Market.{MarketSimulator, StepDraw, step, snapshot, levels_of}
use l2_orderbook_pipeline.Simulation.Market.History.{Stepped, IfStepped, step-Stepped}

-- A market with no price twice in a side.
pub record Sound (m : MarketSimulator) : Type 0 where
  pub bids_unique : Unique m.bids
  pub asks_unique : Unique m.asks

abbrev or_same : MarketSimulator → Option (MarketSimulator × DiffEvent) → MarketSimulator
or_same m none = m
or_same m (some (m', e)) = m'

module _ (start : MarketSimulator) (draws : ℕ → StepDraw) where
  -- The market after so many steps; a step that raises would be the last.
  unfoldable pub market_at : ℕ → MarketSimulator
  market_at zero = start
  market_at (suc n) = or_same (market_at n) (step (market_at n) (draws n))

  unfoldable pub bid_at : ℤ → Decimal → Option Decimal
  bid_at (pos n) p = Dict.get p (market_at n).bids
  bid_at (negsuc n) p = none

  unfoldable pub ask_at : ℤ → Decimal → Option Decimal
  ask_at (pos n) p = Dict.get p (market_at n).asks
  ask_at (negsuc n) p = none

  abbrev pub oracle : Exchange
  oracle = record { bid_at = bid_at; ask_at = ask_at }

  or_same-Sound :
      (m : MarketSimulator) (o : Option (MarketSimulator × DiffEvent))
      → IfStepped m o
      → Sound m
      → Sound (or_same m o)
  or_same-Sound m none h s = s
  or_same-Sound m (some (m', e)) h s = record {
    bids_unique =
        subst Unique (sym h.bids_follow) (apply_levels-Unique m.bids e.bids s.bids_unique);
    asks_unique =
        subst Unique (sym h.asks_follow) (apply_levels-Unique m.asks e.asks s.asks_unique);
  }

  pub market_at-Sound : Sound start → (n : ℕ) → Sound (market_at n)
  unfolding market_at
  market_at-Sound s zero = s
  market_at-Sound s (suc n) =
      or_same-Sound (market_at n) (step (market_at n) (draws n))
        (step-Stepped (market_at n) (draws n)) (market_at-Sound s n)

  pub market_at-suc :
      (n : ℕ) (m : MarketSimulator) (e : DiffEvent)
      → step (market_at n) (draws n) ≡ some (m, e)
      → market_at (suc n) ≡ m
  unfolding market_at
  market_at-suc n m e h = ap (or_same (market_at n)) h

  stepped :
      (n : ℕ) (m : MarketSimulator) (e : DiffEvent)
      → step (market_at n) (draws n) ≡ some (m, e)
      → Stepped (market_at n) (m, e)
  stepped n m e h = subst (IfStepped (market_at n)) h (step-Stepped (market_at n) (draws n))

  -- An event of the market covers the one id that it comes from.
  Covers-one :
      (e : DiffEvent) (n : ℕ) (i : ℤ)
      → e.prev_id ≡ pos n
      → e.final_id ≡ pos (n + 1)
      → Covers e i
      → i ≡ pos n
  Covers-one e n i a b (inl h) = h ∙ a
  Covers-one e n i a b (inr (h, k)) = eq_of_parts i (pos n) (ground arith)

  carry :
      (n : ℕ) (ls : List PriceLevel) (before after : Side)
      → Unique before
      → after ≡ apply_levels before ls
      → Carries ls (λ p. Dict.get p before) (λ p. Dict.get p after)
  carry n ls before after u h p = ap (λ side. Dict.get p side) h ∙ get-apply_levels before ls p u

  pub event_true :
      Sound start
      → (n : ℕ) (m : MarketSimulator) (e : DiffEvent) → (market_at n).update_id ≡ n
      → step (market_at n) (draws n) ≡ some (m, e)
      → Truthful oracle e
  unfolding bid_at ask_at
  event_true s n m e at h =
      let st = stepped n m e h in
      let u = market_at-Sound s n in
      let next = market_at-suc n m e h in
      let from : e.prev_id ≡ pos n = st.from_id ∙ ap pos at in
      let to : e.final_id ≡ pos (suc n) = st.to_id ∙ ap pos (omega (arith, at)) in
      record {
        bids_carry = λ i c.
            subst (λ k. Carries e.bids (bid_at k) (bid_at e.final_id))
              (sym (Covers-one e n i from (to ∙ ap pos (omega arith)) c))
              (subst (λ k. Carries e.bids (bid_at (pos n)) (bid_at k)) (sym to)
                (carry n e.bids (market_at n).bids (market_at (suc n)).bids u.bids_unique
                  (ap (λ (k : MarketSimulator). k.bids) next ∙ st.bids_follow)));
        asks_carry = λ i c.
            subst (λ k. Carries e.asks (ask_at k) (ask_at e.final_id))
              (sym (Covers-one e n i from (to ∙ ap pos (omega arith)) c))
              (subst (λ k. Carries e.asks (ask_at (pos n)) (ask_at k)) (sym to)
                (carry n e.asks (market_at n).asks (market_at (suc n)).asks u.asks_unique
                  (ap (λ (k : MarketSimulator). k.asks) next ∙ st.asks_follow)));
      }

abbrev or_before : Option Decimal → Option Decimal → Option Decimal
or_before none q = q
or_before (some v) q = some v

get-dict_from :
    (side acc : Side) (p : Decimal)
    → Unique side
    → Dict.get p (dict_from acc (levels_of side)) ≡ or_before (Dict.get p side) (Dict.get p acc)
unfolding dict_from Dict.get Unique
get-dict_from [] acc p u = refl
get-dict_from ((k, v) ∷ side) acc p u =
    ground (arith, get-dict_from side (Dict.set k v acc) p u.1, get-set k p v acc, eq_ℤ_iff k p)

-- The levels of a side, read back, are the side.
get-levels_of :
    (side : Side) (p : Decimal)
    → Unique side
    → Dict.get p (dict_of_levels (levels_of side)) ≡ Dict.get p side
unfolding Dict.get
get-levels_of side p u = ground (arith, get-dict_from side [] p u)

pub snapshot_true :
    (start : MarketSimulator) (draws : ℕ → StepDraw)
    → Sound start
    → (n : ℕ) → (market_at start draws n).update_id ≡ n
    → TruthfulSnapshot (oracle start draws) (snapshot (market_at start draws n))
unfolding snapshot bid_at ask_at
snapshot_true start draws s n at =
    let m = market_at start draws n in
    let u = market_at-Sound start draws s n in
    record {
      bids_mirror =
          subst (λ k. Mirrors (dict_of_levels (levels_of m.bids)) (bid_at start draws (pos k)))
            (sym at) (λ p. get-levels_of m.bids p u.bids_unique);
      asks_mirror =
          subst (λ k. Mirrors (dict_of_levels (levels_of m.asks)) (ask_at start draws (pos k)))
            (sym at) (λ p. get-levels_of m.asks p u.asks_unique);
    }
