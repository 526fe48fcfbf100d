-- ===== src/Sinks/Queue.antt =====
-- `BoundedRowQueue` of src/l2_pipeline/sinks/parquet_sink.py, over any type of rows. Its
-- `asyncio.Queue` is a list, oldest row first, unbounded if `maxsize` is 0 as asyncio's is.
pub mod Order
pub mod Fifo
use l2_orderbook_pipeline.Common.{
  ℕ, zero, suc, ◌+◌, ◌-◌, ◌≤◌, ◌<◌, min, max, List, [], ◌∷◌, ◌++◌, Option, none, some, ◌≡◌, refl,
  sym, ap, ◌∙◌, arith, Bool, true, false, ◌&&◌, ltb, leb, length, drop, length-append, length-drop,
  if◌then◌else◌,
}

pub record BoundedRowQueue {ℓ} (A : Type ℓ) : Type ℓ where
  pub maxsize : ℕ
  pub rows : List A
  pub rows_dropped : ℕ

unfoldable pub init {ℓ} : {A : Type ℓ} → ℕ → BoundedRowQueue A
init maxsize = record { maxsize = maxsize; rows = []; rows_dropped = 0 }

module _ {ℓ} {A : Type ℓ} where
  -- `asyncio.Queue.full`
  abbrev pub full : BoundedRowQueue A → Bool
  full q = ltb 0 q.maxsize && leb q.maxsize (length q.rows)

  -- `put_nowait` on a queue that is not full
  abbrev pub append : BoundedRowQueue A → A → BoundedRowQueue A
  append q row = record q { rows = q.rows ++ row ∷ [] }

  -- `get_nowait`, with `QueueEmpty` suppressed
  abbrev pub evict : BoundedRowQueue A → BoundedRowQueue A
  evict q = record q { rows = drop 1 q.rows }

  -- Whether a row had to be evicted comes back beside the queue.
  unfoldable pub put : BoundedRowQueue A → A → BoundedRowQueue A × Bool
  put q row =
      if full q
      then (let e = evict q in append (record e { rows_dropped = e.rows_dropped + 1 }) row, true)
      else (append q row, false)

  -- `get`, when a row is there; `none` where it would wait
  unfoldable pub get : BoundedRowQueue A → Option (A × BoundedRowQueue A)
  get q = elim q.rows [ [] ↦ none | row ∷ rest ↦ some (row, record q { rows = rest }) ]

  abbrev pub qsize : BoundedRowQueue A → ℕ
  qsize q = length q.rows

  -- The queue is within its bound.
  abbrev pub Fits : BoundedRowQueue A → Type 0
  Fits q = 0 < q.maxsize → length q.rows ≤ q.maxsize
