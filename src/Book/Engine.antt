-- ===== src/Book/Engine.antt =====
-- `BookEngine` of src/l2_pipeline/book/engine.py. A method returns the new engine beside its result;
-- `load_snapshot` returns `none` where the source raises `ValueError`.
use l2_orderbook_pipeline.Common.{
  ℕ, List, [], ◌∷◌, ◌++◌, Option, none, some, Bool, true, false, ◌&&◌, filter, if◌then◌else◌,
}
use l2_orderbook_pipeline.Common.Int.{ℤ, eq_ℤ, ltb_ℤ, leb_ℤ}
use l2_orderbook_pipeline.Book.Types.{
  DiffEvent, SnapshotEvent, BookState, ApplyStatus, Side, buffering, resyncing, live, applied,
  buffered, gap_detected, snapshot_stale,
}
use l2_orderbook_pipeline.Book.Levels.{apply_levels, dict_of_levels}

pub record BookEngine : Type 0 where
  pub depth_levels : ℕ
  pub bids : Side
  pub asks : Side
  pub state : BookState
  pub last_applied_id : Option ℤ
  pub buffer : List DiffEvent

unfoldable pub init : ℕ → BookEngine
init depth = record {
  depth_levels = depth;
  bids = [];
  asks = [];
  state = buffering;
  last_applied_id = none;
  buffer = [];
}

-- `event.prev_id == self._last_applied_id`, false against `None`
abbrev pub chains : DiffEvent → Option ℤ → Bool
chains e none = false
chains e (some i) = eq_ℤ e.prev_id i

-- `_apply_live` on the branch that chains, and the same three statements in `load_snapshot`
abbrev pub commit : BookEngine → DiffEvent → BookEngine
commit b e = record b {
  bids = apply_levels b.bids e.bids;
  asks = apply_levels b.asks e.asks;
  last_applied_id = some e.final_id;
}

-- `_apply_live` on the branch that does not chain
abbrev pub desync : BookEngine → DiffEvent → BookEngine
desync b e = record b {
  state = resyncing;
  bids = [];
  asks = [];
  last_applied_id = none;
  buffer = e ∷ [];
}

unfoldable pub apply_live : BookEngine → DiffEvent → BookEngine × ApplyStatus
apply_live b e =
    if chains e b.last_applied_id then (commit b e, applied) else (desync b e, gap_detected)

abbrev pub is_live : BookState → Bool
is_live live = true
is_live buffering = false
is_live resyncing = false

unfoldable pub apply_event : BookEngine → DiffEvent → BookEngine × ApplyStatus
apply_event b e =
    if is_live b.state then apply_live b e else (record b { buffer = b.buffer ++ e ∷ [] }, buffered)

-- the loop over `rest` at the end of `load_snapshot`, which returns at the first gap
after_event :
    BookEngine × ApplyStatus → (BookEngine → BookEngine × ApplyStatus) → BookEngine × ApplyStatus
after_event (b, gap_detected) k = (b, gap_detected)
after_event (b, applied) k = k b
after_event (b, buffered) k = k b
after_event (b, snapshot_stale) k = k b

unfoldable pub replay : List DiffEvent → BookEngine → BookEngine × ApplyStatus
unfolding after_event
replay [] b = (b, applied)
replay (e ∷ es) b = after_event (apply_live b e) (replay es)

abbrev pub survives : SnapshotEvent → DiffEvent → Bool
survives s e = ltb_ℤ s.last_update_id e.final_id

abbrev pub straddles : SnapshotEvent → DiffEvent → Bool
straddles s e = leb_ℤ e.prev_id s.last_update_id && ltb_ℤ s.last_update_id e.final_id

abbrev pub adopt : BookEngine → SnapshotEvent → BookEngine
adopt b s = record b {
  bids = dict_of_levels s.bids;
  asks = dict_of_levels s.asks;
  buffer = [];
  state = live;
}

unfoldable pub load_survivors :
    BookEngine → SnapshotEvent → List DiffEvent → BookEngine × ApplyStatus
load_survivors b s [] = (record (adopt b s) { last_applied_id = some s.last_update_id }, applied)
load_survivors b s (first ∷ rest) =
    if straddles s first then replay rest (commit (adopt b s) first) else (b, snapshot_stale)

unfoldable pub load_snapshot : BookEngine → SnapshotEvent → Option (BookEngine × ApplyStatus)
unfolding load_survivors
load_snapshot b s =
    if is_live b.state then none else some (load_survivors b s (filter (survives s) b.buffer))

abbrev pub invalid_state : BookState → BookState
invalid_state buffering = buffering
invalid_state resyncing = resyncing
invalid_state live = resyncing

unfoldable pub invalidate : BookEngine → BookEngine
invalidate b = record b {
  state = invalid_state b.state;
  bids = [];
  asks = [];
  last_applied_id = none;
  buffer = [];
}

abbrev pub full_book : BookEngine → Side × Side
full_book b = (b.bids, b.asks)
