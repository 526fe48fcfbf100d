-- ===== src/Feeds/Envelope.antt =====
-- src/l2_pipeline/feeds/envelope.py: what the feed clients share around an engine.
use Prim.Native.String.{String}
use l2_orderbook_pipeline.Common.{
  ℕ, ◌≤◌, List, [], ◌∷◌, Option, none, some, ◌≡◌, refl, ap, arith, true, length,
}
use l2_orderbook_pipeline.Common.Int.{ℤ}
use l2_orderbook_pipeline.Book.Types.{DiffEvent, PriceLevel}
use l2_orderbook_pipeline.Book.Engine.{BookEngine, is_live}
use l2_orderbook_pipeline.Book.Invariant.{WellFormed}
use l2_orderbook_pipeline.Book.Top.{top_levels, items_of, top_levels_best}
use l2_orderbook_pipeline.Sinks.Rows.{SnapshotRow}

pub record InstrumentId : Type 0 where
  pub exchange : String
  pub symbol : String

pub record TimestampedEvent : Type 0 where
  pub ts_local_ns : ℕ
  pub ts_wall_ns : ℕ
  pub instrument : InstrumentId
  pub event : DiffEvent
  pub ts_exchange_ms : Option ℤ

-- The row by `engine.last_applied_id`; `none` is the failed assertion.
unfoldable pub row_at : BookEngine → InstrumentId → ℕ → ℕ → Option ℤ → Option ℤ → Option SnapshotRow
row_at b i ts_local_ns ts_wall_ns ts_exchange_ms none = none
row_at b i ts_local_ns ts_wall_ns ts_exchange_ms (some id) =
    let (bids, asks) = top_levels b none in
    some (record {
      exchange = i.exchange;
      symbol = i.symbol;
      ts_exchange_ms = ts_exchange_ms;
      ts_local_ns = ts_local_ns;
      ts_wall_ns = ts_wall_ns;
      last_applied_id = id;
      bids = bids;
      asks = asks;
    })

unfoldable pub build_snapshot_row :
    BookEngine → InstrumentId → ℕ → ℕ → Option ℤ → Option SnapshotRow
unfolding row_at
build_snapshot_row b i ts_local_ns ts_wall_ns ts_exchange_ms =
    row_at b i ts_local_ns ts_wall_ns ts_exchange_ms b.last_applied_id

length-items_of : (ls : List PriceLevel) → length (items_of ls) ≡ length ls
length-items_of [] = refl
length-items_of (l ∷ ls) = omega (arith, length-items_of ls)

-- From a live, well-formed engine a row can always be built: it carries the checkpoint, and no more
-- levels of a side than the engine's depth, so that none is cut off where the schema has that depth.
pub build_snapshot_row-fits :
    (b : BookEngine) (i : InstrumentId) (ts_local_ns ts_wall_ns : ℕ) (ts_exchange_ms : Option ℤ)
    → WellFormed b
    → is_live b.state ≡ true
    → (row : SnapshotRow) × (build_snapshot_row b i ts_local_ns ts_wall_ns ts_exchange_ms
        ≡ some row)
      × (b.last_applied_id ≡ some row.last_applied_id)
      × (length row.bids ≤ b.depth_levels)
      × (length row.asks ≤ b.depth_levels)
unfolding build_snapshot_row row_at
build_snapshot_row-fits b i ts_local_ns ts_wall_ns ts_exchange_ms w l =
    let (id, at) = (w.live_shape l).0 in
    let best = top_levels_best b none w in
    (
      _,
      ap (row_at b i ts_local_ns ts_wall_ns ts_exchange_ms) at,
      at,
      omega (arith, length-items_of (top_levels b none).0, best.0.count),
      omega (arith, length-items_of (top_levels b none).1, best.1.count),
    )
