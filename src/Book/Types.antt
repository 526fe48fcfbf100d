-- ===== src/Book/Types.antt =====
-- src/l2_pipeline/book/types.py.
-- A `Decimal` is the number of units of 10^-k that it stands for, k the most fractional digits
-- that any price or quantity of the run has; `==`, `<` and hashing of decimals go by that value.
-- NaN and the infinities are not modelled. The free-text `detail` of a result is left out.
use l2_orderbook_pipeline.Common.{List}
use l2_orderbook_pipeline.Common.Int.{ℤ}

abbrev pub Decimal : Type 0
Decimal = ℤ

pub record PriceLevel : Type 0 where
  pub price : Decimal
  pub qty : Decimal

pub record DiffEvent : Type 0 where
  pub prev_id : ℤ
  pub final_id : ℤ
  pub bids : List PriceLevel
  pub asks : List PriceLevel

pub record SnapshotEvent : Type 0 where
  pub last_update_id : ℤ
  pub bids : List PriceLevel
  pub asks : List PriceLevel

pub data BookState : Type 0 where
  buffering resyncing live : BookState

pub data ApplyStatus : Type 0 where
  applied buffered gap_detected snapshot_stale : ApplyStatus

-- A side of the book: `dict[Decimal, Decimal]`.
abbrev pub Side : Type 0
Side = List (Decimal × Decimal)
