-- ===== src/Sinks/Rows.antt =====
-- `SnapshotRow` and `rows_to_table` of src/l2_pipeline/sinks/parquet_sink.py. A table is its columns, the
-- price and quantity columns of a side in the order of their index; the schema is in its type.
pub mod Columns
use mathlib.Core.List.{append-nil}
use mathlib.Core.Option
use Prim.Native.String.{String}
use l2_orderbook_pipeline.Common.{
  ℕ, zero, suc, ◌+◌, List, [], ◌∷◌, ◌++◌, Option, none, some, Bool, if◌then◌else◌, ◌≡◌, refl, sym,
  ap, ap₂, ◌∙◌, arith, get_elem?, drop, map, length,
}
use l2_orderbook_pipeline.Common.Int.{ℤ}
use l2_orderbook_pipeline.Book.Types.{Decimal, PriceLevel}

pub record SnapshotRow : Type 0 where
  pub exchange : String
  pub symbol : String
  pub ts_exchange_ms : Option ℤ
  pub ts_local_ns : ℕ
  pub ts_wall_ns : ℕ
  pub last_applied_id : ℤ
  pub bids : List PriceLevel
  pub asks : List PriceLevel

-- `(columns[f"{side}_price_{i}"], columns[f"{side}_qty_{i}"])`
abbrev pub LevelColumns : Type 0
LevelColumns = List (Option Decimal) × List (Option Decimal)

pub record Table : Type 0 where
  pub ts_exchange_ms : List (Option ℤ)
  pub ts_local_ns : List ℕ
  pub ts_wall_ns : List ℕ
  pub last_applied_id : List ℤ
  pub asks : List LevelColumns
  pub bids : List LevelColumns

-- The columns of a side before any row.
empty_columns : ℕ → List LevelColumns
empty_columns zero = []
empty_columns (suc n) = ([], []) ∷ empty_columns n

empty_table : ℕ → Table
empty_table depth = record {
  ts_exchange_ms = [];
  ts_local_ns = [];
  ts_wall_ns = [];
  last_applied_id = [];
  asks = empty_columns depth;
  bids = empty_columns depth;
}

-- The loop over `enumerate(side_cols)`: a cell for each column, `None` past the row's levels.
append_levels : List LevelColumns → List PriceLevel → List LevelColumns
append_levels [] levels = []
append_levels ((prices, qtys) ∷ cols) [] =
    (prices ++ none ∷ [], qtys ++ none ∷ []) ∷ append_levels cols []
append_levels ((prices, qtys) ∷ cols) (l ∷ levels) =
    (prices ++ some l.price ∷ [], qtys ++ some l.qty ∷ []) ∷ append_levels cols levels

append_row : Table → SnapshotRow → Table
append_row t row = record {
  ts_exchange_ms = t.ts_exchange_ms ++ row.ts_exchange_ms ∷ [];
  ts_local_ns = t.ts_local_ns ++ row.ts_local_ns ∷ [];
  ts_wall_ns = t.ts_wall_ns ++ row.ts_wall_ns ∷ [];
  last_applied_id = t.last_applied_id ++ row.last_applied_id ∷ [];
  asks = append_levels t.asks row.asks;
  bids = append_levels t.bids row.bids;
}

append_rows : Table → List SnapshotRow → Table
append_rows t [] = t
append_rows t (row ∷ rows) = append_rows (append_row t row) rows

-- `columns` behind the loop of `rows_to_table`
unfoldable pub fill_columns : List SnapshotRow → ℕ → Table
unfolding empty_columns empty_table append_levels append_row append_rows
fill_columns rows depth = append_rows (empty_table depth) rows

-- `accepts` is pyarrow's answer to the calls of `pa.array`: it takes all columns, or raises, at a number
-- outside int64, or a decimal that decimal128(18, 8) cannot hold. `none` where it raises.
unfoldable pub rows_to_table : (Table → Bool) → List SnapshotRow → ℕ → Option Table
rows_to_table accepts rows depth =
    let columns = fill_columns rows depth in if accepts columns then some columns else none

-- The table as it is meant: each cell by itself, looked up by column and row.
abbrev pub price_at : ℕ → List PriceLevel → Option Decimal
price_at i levels = Option.map (λ (l : PriceLevel). l.price) (get_elem? levels i)

abbrev pub qty_at : ℕ → List PriceLevel → Option Decimal
qty_at i levels = Option.map (λ (l : PriceLevel). l.qty) (get_elem? levels i)

-- `n` columns from index `i` on.
abbrev pub side_columns : ℕ → ℕ → List (List PriceLevel) → List LevelColumns
side_columns i zero sides = []
side_columns i (suc n) sides =
    (map (price_at i) sides, map (qty_at i) sides) ∷ side_columns (suc i) n sides

abbrev pub table_of : List SnapshotRow → ℕ → Table
table_of rows depth = record {
  ts_exchange_ms = map (λ r. r.ts_exchange_ms) rows;
  ts_local_ns = map (λ r. r.ts_local_ns) rows;
  ts_wall_ns = map (λ r. r.ts_wall_ns) rows;
  last_applied_id = map (λ r. r.last_applied_id) rows;
  asks = side_columns 0 depth (map (λ r. r.asks) rows);
  bids = side_columns 0 depth (map (λ r. r.bids) rows);
}
