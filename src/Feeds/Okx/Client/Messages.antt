-- ===== src/Feeds/Okx/Client/Messages.antt =====
-- What `OKXFeedClient` does with a message: the body of `_reader_loop` behind the receive, and the handlers.
use Prim.Native.String.{String}
use text.Mathlib.Text.{◌==◌ as str_eq, starts_with}
use l2_orderbook_pipeline.Common.{
  ℕ, ◌+◌, Option, none, some, Bool, true, false, ◌&&◌, ◌||◌, leb, if◌then◌else◌,
}
use l2_orderbook_pipeline.Common.Int.{ℤ}
use l2_orderbook_pipeline.Book.Types.{
  DiffEvent, SnapshotEvent, ApplyStatus, applied, buffered, gap_detected, snapshot_stale,
}
use l2_orderbook_pipeline.Book.Engine.{BookEngine, apply_event, load_snapshot}
use l2_orderbook_pipeline.Feeds.Connection.{message_received}
use l2_orderbook_pipeline.Feeds.Envelope.{build_snapshot_row}
use l2_orderbook_pipeline.Feeds.Json.{
  Json, null, bool, int, float, str, arr, obj, Items, nil, cons, Fields, find, Numerals,
}
use l2_orderbook_pipeline.Feeds.Okx.Parsing.{
  unwrap_book_push, parse_book_update, parse_book_snapshot, extract_ts_exchange_ms,
}
use l2_orderbook_pipeline.Feeds.Okx.Client.{OkxFeedClient, returned, notice, raised, Outcome, count}
use l2_orderbook_pipeline.Sinks.Queue
use l2_orderbook_pipeline.Sinks.Queue.{BoundedRowQueue}
use l2_orderbook_pipeline.Sinks.Rows.{SnapshotRow}

-- `time.monotonic_ns()` and `time.time_ns()`
pub record Receipt : Type 0 where
  pub ts_local_ns : ℕ
  pub ts_wall_ns : ℕ

unfoldable pub queue_row :
    OkxFeedClient → BoundedRowQueue SnapshotRow → Option SnapshotRow → Outcome
queue_row c q none = (c, raised)
queue_row c q (some row) = (record c { row_queue = some (Queue.put q row).0 }, returned)

unfoldable pub publish_to :
    OkxFeedClient → Receipt → Option ℤ → Option (BoundedRowQueue SnapshotRow) → Outcome
publish_to c r ts none = (c, returned)
publish_to c r ts (some q) = queue_row c q (
    build_snapshot_row c.engine (record { exchange = "okx"; symbol = c.symbol }) r.ts_local_ns
      r.ts_wall_ns ts)

-- `if self._row_queue is not None: …`
abbrev pub publish : OkxFeedClient → Receipt → Option ℤ → Outcome
publish c r ts = publish_to c r ts c.row_queue

abbrev pub malformed : OkxFeedClient → Outcome
malformed c = (count "malformed_message" c, returned)

-- `_handle_resync_result` behind its counts of a failure
unfoldable pub after_failure : OkxFeedClient → OkxFeedClient
after_failure c =
    if leb c.snapshot_retry_limit c.snapshot_retry_count
    then record (count "snapshot_retry_limit_exceeded" c) {
      closed = if c.current_ws then true else c.closed;
    }
    else record c { resync_needed = true }

abbrev pub one_more_failure : OkxFeedClient → OkxFeedClient
one_more_failure c = record c { snapshot_retry_count = c.snapshot_retry_count + 1 }

unfoldable pub handle_resync_result : OkxFeedClient → Receipt → ApplyStatus → Option ℤ → Outcome
unfolding after_failure
handle_resync_result c r applied ts =
    publish (record (count "resync_completed" c) { snapshot_retry_count = 0 }) r ts
handle_resync_result c r gap_detected ts =
    (after_failure (count "gap_detected" (one_more_failure c)), returned)
handle_resync_result c r snapshot_stale ts =
    (after_failure (count "snapshot_stale_retry" (one_more_failure c)), returned)
handle_resync_result c r buffered ts =
    (after_failure (count "snapshot_stale_retry" (one_more_failure c)), returned)

-- `load_snapshot` raises `ValueError` on a live engine.
unfoldable pub on_loaded :
    OkxFeedClient → Receipt → Option ℤ → Option (BookEngine × ApplyStatus) → Outcome
unfolding handle_resync_result
on_loaded c r ts none = (c, raised)
on_loaded c r ts (some (b, status)) = handle_resync_result (record c { engine = b }) r status ts

unfoldable pub on_snapshot :
    OkxFeedClient → Receipt → Option SnapshotEvent → Option (Option ℤ) → Outcome
unfolding on_loaded
on_snapshot c r none ts = malformed c
on_snapshot c r (some snap) none = (c, raised)
on_snapshot c r (some snap) (some ts) = on_loaded c r ts (load_snapshot c.engine snap)

-- The branches on `result.status` in `_handle_update_push`.
unfoldable pub on_status : OkxFeedClient → Receipt → Option ℤ → ApplyStatus → Outcome
on_status c r ts applied = publish c r ts
on_status c r ts gap_detected = (record (count "gap_detected" c) { resync_needed = true }, returned)
on_status c r ts buffered = (c, returned)
on_status c r ts snapshot_stale = (c, returned)

unfoldable pub on_update : OkxFeedClient → Receipt → Option DiffEvent → Option (Option ℤ) → Outcome
unfolding on_status
on_update c r none ts = malformed c
on_update c r (some diff) none = (c, raised)
on_update c r (some diff) (some ts) =
    let (b, status) = apply_event c.engine diff in on_status (record c { engine = b }) r ts status

-- `x == text`
abbrev pub is_text : String → Option Json → Bool
is_text s (some (str t)) = str_eq t s
is_text s _ = false

-- SERVICE_NOTICE_CODE
abbrev pub service_notice_code : String
service_notice_code = "64008"

unfoldable pub handle_control_message : OkxFeedClient → Fields → Outcome
handle_control_message c envelope =
    let event = find "event" envelope in
    if is_text "subscribe" event || is_text "unsubscribe" event
    then (c, returned)
    else if is_text "notice" event && is_text service_notice_code (find "code" envelope)
    then (count "okx_service_notice" c, notice)
    else if is_text "error" event
    then (count "okx_subscribe_error" c, returned)
    else malformed c

-- `text in s` for two texts
abbrev pub contains : String → String → Bool
contains String.[] t = starts_with String.[] t
contains (String.◌∷◌ c s) t = starts_with (String.◌∷◌ c s) t || contains s t

abbrev pub has_text : String → Items → Bool
has_text s nil = false
has_text s (cons x xs) = is_text s (some x) || has_text s xs

abbrev pub is_present : Option Json → Bool
is_present none = false
is_present (some x) = true

-- `text in x`; `none` is the `TypeError` of a value without elements.
abbrev pub in_json : String → Json → Option Bool
in_json s (obj fs) = some (is_present (find s fs))
in_json s (arr xs) = some (has_text s xs)
in_json s (str t) = some (contains t s)
in_json s null = none
in_json s (bool b) = none
in_json s (int n) = none
in_json s (float n d) = none

-- The text of a message: "pong", no JSON, or JSON.
pub data Message : Type 0 where
  pong broken : Message
  decoded : Json → Message

module _ (py : Numerals) where
  unfoldable pub handle_snapshot_push : OkxFeedClient → Receipt → Fields → Outcome
  unfolding on_snapshot
  handle_snapshot_push c r fields =
      on_snapshot c r (parse_book_snapshot py fields) (extract_ts_exchange_ms py fields)

  unfoldable pub handle_update_push : OkxFeedClient → Receipt → Fields → Outcome
  unfolding on_update
  handle_update_push c r fields =
      on_update c r (parse_book_update py fields) (extract_ts_exchange_ms py fields)

  unfoldable pub dispatch : OkxFeedClient → Receipt → Option Json → Option Fields → Outcome
  dispatch c r action none = malformed c
  dispatch c r action (some fields) =
      if is_text "snapshot" action
      then handle_snapshot_push c r fields
      else if is_text "update" action
      then handle_update_push c r fields
      else malformed c

  -- `.get` of a value that is not a dict: an `AttributeError`, which no caller catches. Only a dict has
  -- elements by a text, so `_handle_channel_push` meets none but dicts behind `unwrap_book_push`.
  unfoldable pub handle_channel_push : OkxFeedClient → Receipt → Json → Outcome
  unfolding dispatch
  handle_channel_push c r (obj fs) = dispatch c r (find "action" fs) (unwrap_book_push (obj fs))
  handle_channel_push c r envelope = malformed c

  unfoldable pub on_envelope : OkxFeedClient → Receipt → Json → Option Bool → Outcome
  unfolding handle_control_message handle_channel_push
  on_envelope c r envelope none = (c, raised)
  on_envelope c r envelope (some false) = handle_channel_push c r envelope
  on_envelope c r (obj fs) (some true) = handle_control_message c fs
  on_envelope c r envelope (some true) = (c, raised)

  unfoldable pub on_message : OkxFeedClient → Receipt → Message → Outcome
  unfolding on_envelope
  on_message c r pong = (c, returned)
  on_message c r broken = malformed c
  on_message c r (decoded envelope) = on_envelope c r envelope (in_json "event" envelope)

  -- One round of `_reader_loop` behind the receive.
  unfoldable pub receive : OkxFeedClient → Receipt → Message → Outcome
  unfolding on_message
  receive c r m =
      on_message
        (record (count "messages_received" c) { connection = message_received c.connection }) r m
