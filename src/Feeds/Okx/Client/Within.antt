-- ===== src/Feeds/Okx/Client/Within.antt =====
-- What `OKXFeedClient` keeps within bounds while it reads messages.
use l2_orderbook_pipeline.Common.{
  ◌<◌, ◌≤◌, Option, none, some, ◌≡◌, arith, Bool, true, false, Bool-cases, inl, inr,
}
use l2_orderbook_pipeline.Common.Int.{ℤ}
use l2_orderbook_pipeline.Book.Types.{
  DiffEvent, SnapshotEvent, ApplyStatus, applied, buffered, gap_detected, snapshot_stale,
}
use l2_orderbook_pipeline.Book.Engine.{apply_event, load_snapshot}
use l2_orderbook_pipeline.Feeds.Connection.{float_exponent_limit, message_received}
use l2_orderbook_pipeline.Feeds.Connection.Episodes.{message_received-attempt}
use l2_orderbook_pipeline.Feeds.Json.{Json, obj, Fields, find, Numerals}
use l2_orderbook_pipeline.Feeds.Okx.Parsing.{
  unwrap_book_push, parse_book_update, parse_book_snapshot, extract_ts_exchange_ms,
}
use l2_orderbook_pipeline.Feeds.Okx.Client.{OkxFeedClient, Worker, dead, reading, count}
use l2_orderbook_pipeline.Feeds.Okx.Client.Messages.{
  Receipt, queue_row, publish_to, after_failure, one_more_failure, handle_resync_result, on_loaded,
  on_snapshot, on_status, on_update, is_text, handle_control_message, in_json, Message, pong,
  broken, decoded, handle_snapshot_push, handle_update_push, dispatch, handle_channel_push,
  on_envelope, on_message, receive,
}
use l2_orderbook_pipeline.Sinks.Queue.{BoundedRowQueue}
use l2_orderbook_pipeline.Sinks.Rows.{SnapshotRow}

-- Whether an exception ended the resync worker.
abbrev pub is_dead : Worker → Bool
is_dead dead = true
is_dead _ = false

-- Inside the reader loop: a websocket is there, the buckets refill, the worker lives, unless the client closed it fewer resyncs failed in a
-- row than the limit, and fewer connections than the budget.
abbrev pub Within : OkxFeedClient → Type 0
Within c =
    (c.phase ≡ reading)
    × (c.current_ws ≡ true)
    × (0 < c.snapshot_retry_limit)
    × (c.closed ≡ false → c.snapshot_retry_count < c.snapshot_retry_limit)
    × (c.connection.attempt < c.max_consecutive_reconnect_failures)
    × (c.max_consecutive_reconnect_failures ≤ float_exponent_limit)
    × (0 < c.connection_bucket.refill_rate)
    × (0 < c.resubscribe_bucket.refill_rate)
    × (is_dead c.worker ≡ false)

publish_to-Within :
    (c : OkxFeedClient) (r : Receipt) (ts : Option ℤ) (o : Option (BoundedRowQueue SnapshotRow))
    → Within c
    → Within (publish_to c r ts o).0
unfolding publish_to queue_row
publish_to-Within c r ts none w = w
publish_to-Within c r ts (some q) w = ground arith

after_failure-Within :
    (c : OkxFeedClient)
    → c.phase ≡ reading
    → c.current_ws ≡ true
    → 0 < c.snapshot_retry_limit
    → c.connection.attempt < c.max_consecutive_reconnect_failures
    → c.max_consecutive_reconnect_failures ≤ float_exponent_limit
    → 0 < c.connection_bucket.refill_rate
    → 0 < c.resubscribe_bucket.refill_rate
    → is_dead c.worker ≡ false
    → Within (after_failure c)
unfolding after_failure
after_failure-Within c p w l b f i j k = ground arith

handle_resync_result-Within :
    (c : OkxFeedClient) (r : Receipt) (st : ApplyStatus) (ts : Option ℤ)
    → Within c
    → Within (handle_resync_result c r st ts).0
unfolding handle_resync_result
handle_resync_result-Within c r applied ts w =
    publish_to-Within (record (count "resync_completed" c) { snapshot_retry_count = 0 }) r ts
      c.row_queue (w.0, w.1, w.2, λ h. w.2, w.4, w.5, w.6, w.7, w.8)
handle_resync_result-Within c r gap_detected ts w =
    after_failure-Within (count "gap_detected" (one_more_failure c)) w.0 w.1 w.2 w.4 w.5 w.6 w.7 w.8
handle_resync_result-Within c r snapshot_stale ts w =
    after_failure-Within (count "snapshot_stale_retry" (one_more_failure c)) w.0 w.1 w.2 w.4 w.5 w.6
      w.7 w.8
handle_resync_result-Within c r buffered ts w =
    after_failure-Within (count "snapshot_stale_retry" (one_more_failure c)) w.0 w.1 w.2 w.4 w.5 w.6
      w.7 w.8

on_snapshot-Within :
    (c : OkxFeedClient) (r : Receipt) (o : Option SnapshotEvent) (ts : Option (Option ℤ))
    → Within c
    → Within (on_snapshot c r o ts).0
unfolding on_snapshot on_loaded
on_snapshot-Within c r none ts w = w
on_snapshot-Within c r (some snap) none w = w
on_snapshot-Within c r (some snap) (some ts) w =
    elim (load_snapshot c.engine snap) as (λ o. Within (on_loaded c r ts o).0) [
      | none ↦ w
      | some (b, st) ↦ handle_resync_result-Within (record c { engine = b }) r st ts w
    ]

on_status-Within :
    (c : OkxFeedClient) (r : Receipt) (ts : Option ℤ) (st : ApplyStatus)
    → Within c
    → Within (on_status c r ts st).0
unfolding on_status
on_status-Within c r ts applied w = publish_to-Within c r ts c.row_queue w
on_status-Within c r ts buffered w = w
on_status-Within c r ts gap_detected w = w
on_status-Within c r ts snapshot_stale w = w

on_update-Within :
    (c : OkxFeedClient) (r : Receipt) (o : Option DiffEvent) (ts : Option (Option ℤ))
    → Within c
    → Within (on_update c r o ts).0
unfolding on_update
on_update-Within c r none ts w = w
on_update-Within c r (some e) none w = w
on_update-Within c r (some e) (some ts) w =
    on_status-Within (record c { engine = (apply_event c.engine e).0 }) r ts
      (apply_event c.engine e).1 w

handle_control_message-Within :
    (c : OkxFeedClient) (fs : Fields) → Within c → Within (handle_control_message c fs).0
unfolding handle_control_message
handle_control_message-Within c fs w = ground arith

module _ (py : Numerals) where
  dispatch-Within :
      (c : OkxFeedClient) (r : Receipt) (action : Option Json) (o : Option Fields)
      → Within c
      → Within (dispatch py c r action o).0
  unfolding dispatch handle_snapshot_push handle_update_push
  dispatch-Within c r action none w = w
  dispatch-Within c r action (some fs) w = elim (Bool-cases (is_text "snapshot" action)) [
    | inl h ↦
        rw h (on_snapshot-Within c r (parse_book_snapshot py fs) (extract_ts_exchange_ms py fs) w)
    | inr h ↦ rw h (elim (Bool-cases (is_text "update" action)) [
      | inl k ↦
          rw k (on_update-Within c r (parse_book_update py fs) (extract_ts_exchange_ms py fs) w)
      | inr k ↦ rw k w
    ])
  ]

  on_envelope-Within :
      (c : OkxFeedClient) (r : Receipt) (j : Json) (o : Option Bool)
      → Within c
      → Within (on_envelope py c r j o).0
  unfolding on_envelope handle_channel_push
  on_envelope-Within c r j none w = w
  on_envelope-Within c r (obj fs) (some false) w =
      dispatch-Within c r (find "action" fs) (unwrap_book_push (obj fs)) w
  on_envelope-Within c r (obj fs) (some true) w = handle_control_message-Within c fs w
  on_envelope-Within c r _ (some false) w = w
  on_envelope-Within c r _ (some true) w = w

  on_message-Within :
      (c : OkxFeedClient) (r : Receipt) (m : Message) → Within c → Within (on_message py c r m).0
  unfolding on_message
  on_message-Within c r pong w = w
  on_message-Within c r broken w = w
  on_message-Within c r (decoded j) w = on_envelope-Within c r j (in_json "event" j) w

  pub receive-Within :
      (c : OkxFeedClient) (r : Receipt) (m : Message) → Within c → Within (receive py c r m).0
  unfolding receive on_message
  receive-Within c r m w =
      on_message-Within
        (record (count "messages_received" c) { connection = message_received c.connection }) r m
        (
          w.0,
          w.1,
          w.2,
          w.3,
          omega (arith, message_received-attempt c.connection, w.4),
          w.5,
          w.6,
          w.7,
          w.8,
        )
