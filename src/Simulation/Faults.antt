-- ===== src/Simulation/Faults.antt =====
-- `FaultInjector` and `summarize_log` of src/l2_pipeline/simulation/faults.py. The history of snapshots
-- is a list, newest first. Whether each roll is below its probability, and the numbers drawn, come
-- as arguments; the free-text `detail` of a record is left out.
pub mod Log
use l2_orderbook_pipeline.Common.{
  ℕ, suc, ◌+◌, ◌-◌, List, [], ◌∷◌, ◌++◌, Option, none, some, Bool, true, false, not, ◌&&◌, ltb,
  length, take, filter, get_elem?, if◌then◌else◌,
}
use l2_orderbook_pipeline.Book.Types.{DiffEvent, SnapshotEvent}
use l2_orderbook_pipeline.Simulation.Market
use l2_orderbook_pipeline.Simulation.Market.{MarketSimulator, StepDraw, snapshot}

pub data FaultType : Type 0 where
  drop_one drop_burst duplicate reorder disconnect delayed_snapshot : FaultType

pub record FaultRecord : Type 0 where
  pub step : ℕ
  pub fault_type : FaultType
  pub shadowed : Bool

-- The rolls of `poll`, each `random() < probability`, and the length drawn for a window.
pub record FaultRolls : Type 0 where
  pub disconnects : Bool
  pub drops_burst : Bool
  pub drops_one : Bool
  pub duplicates : Bool
  pub reorders : Bool
  pub window_length : ℕ

pub record FaultInjector : Type 0 where
  pub market : MarketSimulator
  pub step : ℕ
  pub window_remaining : ℕ
  pub held : Option DiffEvent
  pub log : List FaultRecord
  pub history_len : ℕ
  pub snapshot_history : List (ℕ × SnapshotEvent)

unfoldable pub init : MarketSimulator → ℕ → FaultInjector
init market delayed_snapshot_max_steps = record {
  market = market;
  step = 0;
  window_remaining = 0;
  held = none;
  log = [];
  history_len = delayed_snapshot_max_steps + 1;
  snapshot_history = (0, snapshot market) ∷ [];
}

-- The faults in order of precedence, with their rolls.
abbrev pub rolls_of : FaultRolls → List (FaultType × Bool)
rolls_of r =
    (disconnect, r.disconnects)
    ∷ (drop_burst, r.drops_burst)
    ∷ (drop_one, r.drops_one)
    ∷ (duplicate, r.duplicates)
    ∷ (reorder, r.reorders)
    ∷ []

-- The faults that were rolled: the winner is the first.
unfoldable pub rolled : List (FaultType × Bool) → List FaultType
rolled [] = []
rolled ((f, b) ∷ rs) = let rest = rolled rs in if b then f ∷ rest else rest

-- The records of the faults that the winner shadows.
unfoldable pub shadowed_records : ℕ → List FaultType → List FaultRecord
shadowed_records step [] = []
shadowed_records step (f ∷ fs) =
    record { step = step; fault_type = f; shadowed = true } ∷ shadowed_records step fs

abbrev pub add_record : FaultInjector → FaultRecord → FaultInjector
add_record i r = record i { log = i.log ++ r ∷ [] }

abbrev pub fired : ℕ → FaultType → FaultRecord
fired step f = record { step = step; fault_type = f; shadowed = false }

-- What the winner does with the event.
unfoldable pub inject :
    FaultInjector → ℕ → DiffEvent → ℕ → FaultType → FaultInjector × List DiffEvent
inject i step event len disconnect =
    (add_record (record i { window_remaining = len - 1 }) (fired step disconnect), [])
inject i step event len drop_burst =
    (add_record (record i { window_remaining = len - 1 }) (fired step drop_burst), [])
inject i step event len drop_one = (add_record i (fired step drop_one), [])
inject i step event len duplicate = (add_record i (fired step duplicate), event ∷ event ∷ [])
inject i step event len reorder =
    (add_record (record i { held = some event }) (fired step reorder), [])
inject i step event len delayed_snapshot = (i, event ∷ [])

unfoldable pub by_rolls :
    FaultInjector → ℕ → DiffEvent → ℕ → List FaultType → FaultInjector × List DiffEvent
by_rolls i step event len [] = (i, event ∷ [])
by_rolls i step event len (winner ∷ others) =
    inject (record i { log = i.log ++ shadowed_records step others }) step event len winner

unfoldable pub deliver :
    FaultInjector → ℕ → DiffEvent → FaultRolls → Option DiffEvent → FaultInjector × List DiffEvent
deliver i step event r (some held) = (record i { held = none }, event ∷ held ∷ [])
deliver i step event r none =
    if ltb 0 i.window_remaining
    then (record i { window_remaining = i.window_remaining - 1 }, [])
    else by_rolls i step event r.window_length (rolled (rolls_of r))

-- The market's step is taken, and the new snapshot remembered.
abbrev pub advance : FaultInjector → MarketSimulator → FaultInjector
advance i m = record i {
  market = m;
  step = i.step + 1;
  snapshot_history = take i.history_len ((i.step + 1, snapshot m) ∷ i.snapshot_history);
}

unfoldable pub poll_with :
    FaultInjector
    → FaultRolls
    → Option (MarketSimulator × DiffEvent)
    → Option (FaultInjector × List DiffEvent)
poll_with i r none = none
poll_with i r (some (m, event)) = some (deliver (advance i m) i.step event r i.held)

-- `none` where the market's step raises.
unfoldable pub poll :
    FaultInjector → StepDraw → FaultRolls → Option (FaultInjector × List DiffEvent)
poll i d r = poll_with i r (Market.step i.market d)

-- `is_quiescent`
abbrev pub is_quiescent : FaultInjector → Bool
is_quiescent i = elim i.held [ none ↦ not (ltb 0 i.window_remaining) | some _ ↦ false ]

-- Whether the roll of `request_snapshot` is below its probability, and how far back it goes.
pub record SnapshotDraw : Type 0 where
  pub delayed : Bool
  pub lookback : ℕ

abbrev pub second : Option (ℕ × SnapshotEvent) → Option SnapshotEvent
second none = none
second (some (step, s)) = some s

abbrev pub serve : FaultInjector → Option SnapshotEvent → Option (FaultInjector × SnapshotEvent)
serve i none = none
serve i (some s) = some (i, s)

-- `none` where the index is out of range.
unfoldable pub request_snapshot :
    FaultInjector → SnapshotDraw → Option (FaultInjector × SnapshotEvent)
request_snapshot i d =
    if ltb 1 (length i.snapshot_history) && d.delayed
    then serve (add_record i (fired i.step delayed_snapshot))
        (second (get_elem? i.snapshot_history d.lookback))
    else serve i (second (get_elem? i.snapshot_history 0))

abbrev pub same_fault : FaultType → FaultType → Bool
same_fault drop_one drop_one = true
same_fault drop_burst drop_burst = true
same_fault duplicate duplicate = true
same_fault reorder reorder = true
same_fault disconnect disconnect = true
same_fault delayed_snapshot delayed_snapshot = true
same_fault _ _ = false
