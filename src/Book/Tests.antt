-- ===== src/Book/Tests.antt =====
-- Tests of the book engine, and its theorems at concrete inputs.
use l2_orderbook_pipeline.Common.{
  ℕ, List, [], ◌∷◌, none, some, ◌≡◌, refl, arith, All, true, if◌then◌else◌,
}
use l2_orderbook_pipeline.Common.Int.{ℤ, pos, eq_ℤ, leb_ℤ, ℤ_eq}
use l2_orderbook_pipeline.Common.Dict
use l2_orderbook_pipeline.Common.Dict.{Unique}
use l2_orderbook_pipeline.Book.Types.{PriceLevel, DiffEvent, SnapshotEvent, Side, live, applied}
use l2_orderbook_pipeline.Book.Levels.{apply_levels, dict_from, last_word}
use l2_orderbook_pipeline.Book.Engine.{
  BookEngine, init, is_live, apply_live, apply_event, replay, load_survivors, load_snapshot,
  invalidate,
}
use l2_orderbook_pipeline.Book.Invariant.{
  Call, event, snapshot, reconnect, WellFormed, after_load, step, run, init-WellFormed,
  run-WellFormed,
}
use l2_orderbook_pipeline.Book.Sync.{
  Exchange, Truthful, TruthfulSnapshot, TruthfulCall, Mirrors, live_book_true,
}
use l2_orderbook_pipeline.Book.Outcomes.{load_synchronises}
use l2_orderbook_pipeline.Book.Sorting.{sort_by}
use l2_orderbook_pipeline.Book.Top.{top_levels, top_levels_best, IsTop, Above, Below, items_of}

-- Everything that a test computes with.
program : Unit {0}
unfolding apply_levels dict_from init apply_live apply_event replay load_survivors load_snapshot
    invalidate after_load step run sort_by top_levels Dict.get Dict.set Dict.pop
program = tt

abbrev pub level : ℕ → ℕ → PriceLevel
level p q = record { price = pos p; qty = pos q }

abbrev pub diff : ℕ → ℕ → List PriceLevel → DiffEvent
diff i j bids = record { prev_id = pos i; final_id = pos j; bids = bids; asks = [] }

abbrev pub snap : ℕ → List PriceLevel → SnapshotEvent
snap i bids = record { last_update_id = pos i; bids = bids; asks = [] }

-- At id 11 the quantity at price 100 goes from 1 to 2.
abbrev pub exchange : Exchange
exchange = record {
  bid_at = λ i p.
      if eq_ℤ (pos 100) p then (if leb_ℤ (pos 11) i then some (pos 2) else some (pos 1)) else none;
  ask_at = λ i p. none;
}

abbrev pub change : DiffEvent
change = diff 10 11 (level 100 2 ∷ [])

abbrev pub old : SnapshotEvent
old = snap 10 (level 100 1 ∷ [])

pub change-Truthful : Truthful exchange change
unfolding last_word
change-Truthful = record { bids_carry = λ i c p. ground arith; asks_carry = λ i c p. refl }

pub old-Truthful : TruthfulSnapshot exchange old
unfolding program
old-Truthful = record { bids_mirror = λ p. ground arith; asks_mirror = λ p. refl }

abbrev calls : List Call
calls = event change ∷ snapshot old ∷ []

calls_true : All (TruthfulCall exchange) calls
unfolding TruthfulCall
calls_true = (change-Truthful, (old-Truthful, tt))

calls_live : is_live (run (init 20) calls).state ≡ true
unfolding program
calls_live = refl

calls_book : (run (init 20) calls).bids ≡ (pos 100, pos 2) ∷ []
unfolding program
calls_book = refl

live_book_true_example :
    (i : ℤ) × ((run (init 20) calls).last_applied_id ≡ some i)
    × Mirrors (run (init 20) calls).bids (exchange.bid_at i)
    × Mirrors (run (init 20) calls).asks (exchange.ask_at i)
live_book_true_example = live_book_true exchange 20 calls calls_true calls_live

run-WellFormed_example : WellFormed (run (init 20) (reconnect ∷ event change ∷ snapshot old ∷ []))
run-WellFormed_example =
    run-WellFormed (init 20) (reconnect ∷ event change ∷ snapshot old ∷ []) (init-WellFormed 20)

abbrev side : Side
side = (pos 100, pos 1) ∷ (pos 101, pos 2) ∷ []

side-Unique : Unique side
unfolding Unique Dict.get
side-Unique = (refl, (refl, tt))

abbrev levels : List PriceLevel
levels = level 100 0 ∷ level 102 3 ∷ level 101 4 ∷ []

levels_applied : apply_levels side levels ≡ (pos 101, pos 4) ∷ (pos 102, pos 3) ∷ []
unfolding program
levels_applied = refl

abbrev synced : BookEngine
synced = record (init 20) { state = live; last_applied_id = some (pos 11); bids = side }

abbrev waiting : List DiffEvent → BookEngine
waiting es = record (init 20) { buffer = es }

load_synchronises_example :
    (c : BookEngine) × (load_snapshot (waiting (change ∷ diff 11 12 [] ∷ [])) old
      ≡ some (c, applied))
    × (is_live c.state ≡ true)
    × (c.last_applied_id ≡ some (pos 12))
unfolding init
load_synchronises_example =
    load_synchronises (waiting (change ∷ diff 11 12 [] ∷ [])) old change (diff 11 12 [] ∷ []) refl
      refl refl (refl, tt)

abbrev broken : BookEngine
broken = waiting (change ∷ diff 12 13 [] ∷ diff 13 14 [] ∷ [])

synced-WellFormed : WellFormed synced
synced-WellFormed = record {
  live_shape = λ h. ((pos 11, refl), unfold init in refl);
  idle_shape = λ h. cc;
  bids_unique = side-Unique;
  asks_unique = unfold init Unique in tt;
}

top_one : (top_levels synced (some 1)).0 ≡ level 101 2 ∷ []
unfolding program
top_one = refl

top_levels_best_example :
    IsTop Above 1 synced.bids (items_of (top_levels synced (some 1)).0)
    × IsTop Below 1 synced.asks (items_of (top_levels synced (some 1)).1)
top_levels_best_example = top_levels_best synced (some 1) synced-WellFormed
