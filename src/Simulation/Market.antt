-- ===== src/Simulation/Market.antt =====
-- `MarketSimulator` of src/l2_pipeline/simulation/market.py. A price is a number of hundredths (`_TICK`
-- is 1), and so is a quantity. What the generator draws comes as an argument; a step returns `none`
-- where the source raises: a choice among no prices, or the assertion at its end.
pub mod Keys
pub mod Fair
pub mod Uncrossed
mod Tests
pub mod History
pub mod Oracle
use l2_orderbook_pipeline.Common.{
  ℕ, zero, suc, ◌+◌, ◌*◌, List, [], ◌∷◌, Option, none, some, Bool, true, false, not, ◌&&◌, leb,
  length, map, get_elem?, if◌then◌else◌,
}
use l2_orderbook_pipeline.Common.Dict
use l2_orderbook_pipeline.Common.Int.{ℤ, ℤ_eq, pos, ltb_ℤ, leb_ℤ, ◌+ℤ◌, ◌-ℤ◌}
use l2_orderbook_pipeline.Book.Types.{Decimal, PriceLevel, DiffEvent, SnapshotEvent, Side}
use l2_orderbook_pipeline.Book.Levels.{apply_levels}

-- `_TICK`, `_INITIAL_MID`, `_MIN_LEVELS_PER_SIDE`, `_INITIAL_LEVELS_PER_SIDE`
abbrev pub tick : Decimal
tick = pos 1

abbrev pub initial_mid : Decimal
initial_mid = pos 10000

abbrev pub min_levels_per_side : ℕ
min_levels_per_side = 5

abbrev pub initial_levels_per_side : ℕ
initial_levels_per_side = 10

pub record MarketSimulator : Type 0 where
  pub spread_min : Decimal
  pub update_id : ℕ
  pub bids : Side
  pub asks : Side

-- The rounds of `_seed_book` from `k` on, so many of them, with the quantities that they draw.
unfoldable pub seed_book : ℕ → ℕ → (ℕ → ℕ) → (ℕ → ℕ) → MarketSimulator → MarketSimulator
seed_book zero k bid_qty ask_qty m = m
seed_book (suc n) k bid_qty ask_qty m = seed_book n (suc k) bid_qty ask_qty (record m {
  bids = Dict.set (initial_mid -ℤ pos k) (pos (100 * bid_qty k)) m.bids;
  asks = Dict.set (initial_mid +ℤ pos k) (pos (100 * ask_qty k)) m.asks;
})

-- `__init__`
unfoldable pub init : Decimal → (ℕ → ℕ) → (ℕ → ℕ) → MarketSimulator
unfolding seed_book
init spread_min bid_qty ask_qty =
    seed_book initial_levels_per_side 1 bid_qty ask_qty
      (record { spread_min = spread_min; update_id = 0; bids = []; asks = [] })

pub data Action : Type 0 where
  insert update delete : Action

-- What one call of `_changes_for_side` draws: the action, an index into the prices, a whole quantity,
-- and the number of ticks of an insert's offset.
pub record Draw : Type 0 where
  pub action : Action
  pub pick : ℕ
  pub qty : ℕ
  pub offset : ℤ

-- The draws of a step: whether each `random()` is below its threshold, and the three calls' draws.
pub record StepDraw : Type 0 where
  pub bids_change : Bool
  pub asks_change : Bool
  pub coin : Bool
  pub for_bids : Draw
  pub for_asks : Draw
  pub again : Draw

abbrev pub min_ℤ : ℤ → ℤ → ℤ
min_ℤ a b = if leb_ℤ a b then a else b

abbrev pub max_ℤ : ℤ → ℤ → ℤ
max_ℤ a b = if leb_ℤ a b then b else a

-- The last of the prices that is no smaller than another, and the last that is no greater.
unfoldable pub highest : Decimal → Side → Decimal
highest p [] = p
highest p ((q, _) ∷ side) = highest (max_ℤ p q) side

unfoldable pub lowest : Decimal → Side → Decimal
lowest p [] = p
lowest p ((q, _) ∷ side) = lowest (min_ℤ p q) side

unfoldable pub best_bid : Side → Decimal
best_bid [] = initial_mid -ℤ tick
best_bid ((p, _) ∷ side) = highest p side

unfoldable pub best_ask : Side → Decimal
best_ask [] = initial_mid +ℤ tick
best_ask ((p, _) ∷ side) = lowest p side

-- `Decimal(self._rng.randint(1, 50))`
abbrev pub quantity : Draw → Decimal
quantity d = pos (100 * d.qty)

-- `_insert_level`
unfoldable pub insert_level : MarketSimulator → Bool → Draw → PriceLevel
insert_level m true d = record {
  price = max_ℤ (min_ℤ (best_bid m.bids +ℤ d.offset) (best_ask m.asks -ℤ m.spread_min)) tick;
  qty = quantity d;
}
insert_level m false d = record {
  price = max_ℤ (best_ask m.asks +ℤ d.offset) (best_bid m.bids +ℤ m.spread_min);
  qty = quantity d;
}

abbrev pub side_of : MarketSimulator → Bool → Side
side_of m is_bid = if is_bid then m.bids else m.asks

-- `self._rng.choice(list(side.keys()))`
abbrev pub choose : Side → Draw → Option Decimal
choose side d = get_elem? (map (λ (p : Decimal × Decimal). p.0) side) d.pick

abbrev pub level_at : Option Decimal → Decimal → Option (List PriceLevel)
level_at none qty = none
level_at (some price) qty = some (record { price = price; qty = qty } ∷ [])

abbrev pub is_thin : Side → Bool
is_thin side = leb (length side) min_levels_per_side

unfoldable pub changes_by : MarketSimulator → Bool → Draw → Action → Option (List PriceLevel)
changes_by m is_bid d insert = some (insert_level m is_bid d ∷ [])
changes_by m is_bid d update = level_at (choose (side_of m is_bid) d) (quantity d)
changes_by m is_bid d delete =
    level_at (choose (side_of m is_bid) d)
      (if is_thin (side_of m is_bid) then quantity d else pos 0)

unfoldable pub changes_for_side : MarketSimulator → Bool → Draw → Option (List PriceLevel)
changes_for_side m is_bid d = changes_by m is_bid d d.action

-- The changes of a side, applied at once.
abbrev pub apply_side : MarketSimulator → Bool → List PriceLevel → MarketSimulator
apply_side m true ls = record m { bids = apply_levels m.bids ls }
apply_side m false ls = record m { asks = apply_levels m.asks ls }

unfoldable pub change_side :
    MarketSimulator → Bool → Draw → Option (MarketSimulator × List PriceLevel)
change_side m is_bid d = elim (changes_for_side m is_bid d) [
  | none ↦ none
  | some ls ↦ some (apply_side m is_bid ls, ls)
]

-- `if self._rng.random() < 0.55: …`
unfoldable pub maybe_change :
    MarketSimulator → Bool → Bool → Draw → Option (MarketSimulator × List PriceLevel)
maybe_change m false is_bid d = some (m, [])
maybe_change m true is_bid d = change_side m is_bid d

-- The market with the changes of both sides.
pub record Changed : Type 0 where
  pub market : MarketSimulator
  pub bid_changes : List PriceLevel
  pub ask_changes : List PriceLevel

abbrev pub on_bids : Option (MarketSimulator × List PriceLevel) → Option Changed
on_bids none = none
on_bids (some (m, ls)) = some (record { market = m; bid_changes = ls; ask_changes = [] })

abbrev pub on_asks : List PriceLevel → Option (MarketSimulator × List PriceLevel) → Option Changed
on_asks bs none = none
on_asks bs (some (m, ls)) = some (record { market = m; bid_changes = bs; ask_changes = ls })

unfoldable pub change_asks : StepDraw → Option Changed → Option Changed
change_asks d none = none
change_asks d (some c) =
    on_asks c.bid_changes (maybe_change c.market d.asks_change false d.for_asks)

-- `if not bid_changes and not ask_changes: …`
unfoldable pub force_change : StepDraw → Option Changed → Option Changed
force_change d none = none
force_change d (some c) = elim c.bid_changes [
  | _ ∷ _ ↦ some c
  | [] ↦ elim c.ask_changes [
    | _ ∷ _ ↦ some c
    | [] ↦
        if d.coin
        then on_bids (change_side c.market true d.again)
        else on_asks [] (change_side c.market false d.again)
  ]
]

unfoldable pub all_changes : MarketSimulator → StepDraw → Option Changed
all_changes m d =
    force_change d (change_asks d (on_bids (maybe_change m d.bids_change true d.for_bids)))

-- The assertion, the new id and the event.
unfoldable pub publish : ℕ → Option Changed → Option (MarketSimulator × DiffEvent)
publish prev_id none = none
publish prev_id (some c) =
    if ltb_ℤ (best_bid c.market.bids) (best_ask c.market.asks)
    then some (
      record (c.market) { update_id = c.market.update_id + 1 },
      record {
        prev_id = pos prev_id;
        final_id = pos (c.market.update_id + 1);
        bids = c.bid_changes;
        asks = c.ask_changes;
      },
    )
    else none

unfoldable pub step : MarketSimulator → StepDraw → Option (MarketSimulator × DiffEvent)
step m d = publish m.update_id (all_changes m d)

-- `snapshot`
abbrev pub levels_of : Side → List PriceLevel
levels_of side = map (λ (p : Decimal × Decimal). record { price = p.0; qty = p.1 }) side

unfoldable pub snapshot : MarketSimulator → SnapshotEvent
snapshot m = record {
  last_update_id = pos m.update_id;
  bids = levels_of m.bids;
  asks = levels_of m.asks;
}

abbrev pub oracle_book : MarketSimulator → Side × Side
oracle_book m = (m.bids, m.asks)
