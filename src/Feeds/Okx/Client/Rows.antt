-- ===== src/Feeds/Okx/Client/Rows.antt =====
-- What `OKXFeedClient` puts into its row queue, given an exchange that tells the truth.
use Prim.Native.String.{String}
use l2_orderbook_pipeline.Common.{
  arith, ℕ, List, [], ◌∷◌, Option, none, some, ◌≡◌, Bool, true, false, Bool-cases, inl, inr, All,
}
use l2_orderbook_pipeline.Book.Engine
use l2_orderbook_pipeline.Book.Engine.{BookEngine, is_live, apply_event, load_snapshot}
use l2_orderbook_pipeline.Book.Invariant
use l2_orderbook_pipeline.Book.Invariant.{event, snapshot, reconnect, after_load}
use l2_orderbook_pipeline.Book.Sync.{Exchange, TruthfulCall}
use l2_orderbook_pipeline.Feeds.Connection.{BackoffPolicy, RandomLike, message_received}
use l2_orderbook_pipeline.Feeds.Json.{Json, obj, Fields, find, Numerals}
use l2_orderbook_pipeline.Feeds.RateLimit.{TokenBucket}
use l2_orderbook_pipeline.Feeds.Truth.{RowsTrue, step-Sound, init-Sound}
use l2_orderbook_pipeline.Feeds.Okx.Parsing.{
  unwrap_book_push, parse_book_update, parse_book_snapshot, extract_ts_exchange_ms,
}
use l2_orderbook_pipeline.Feeds.Okx.Client.Effects.{SameBook, handle_control_message-SameBook}
use l2_orderbook_pipeline.Feeds.Okx.Client.{
  OkxFeedClient, Phase, between, dialing, subscribing, reading, pinging, sleeping, count,
  disconnect, handle, init,
}
use l2_orderbook_pipeline.Feeds.Okx.Client.Messages.{
  Receipt, is_text, handle_control_message, in_json, Message, pong, broken, decoded,
  handle_snapshot_push, handle_update_push, dispatch, handle_channel_push, on_envelope, on_message,
  receive,
}
use l2_orderbook_pipeline.Feeds.Okx.Client.Run.{
  Event, dial, opened, subscribed, message, slept, timed_out, dropped, connect, start,
  is_worker_event, run_step, step, run,
}
use l2_orderbook_pipeline.Sinks.Queue.{BoundedRowQueue}
use l2_orderbook_pipeline.Sinks.Rows.{SnapshotRow}
use l2_orderbook_pipeline.Feeds.Okx.Client.Truth.{
  Says, same-Says, TruthfulDiff, TruthfulBook, on_snapshot-Says, on_update-Says, disconnect-Says,
  handle-Says, worker_step-Says,
}

module _ (x : Exchange) (depth : ℕ) where
  module _ (py : Numerals) where
    -- The exchange's part in a push, by its action.
    abbrev pub TruthfulPush : Option Json → Option Fields → Type 0
    TruthfulPush action none = Unit
    TruthfulPush action (some fs) =
        (is_text "snapshot" action ≡ true → TruthfulBook x (parse_book_snapshot py fs))
        × (is_text "update" action ≡ true → TruthfulDiff x (parse_book_update py fs))

    -- The exchange's part in a message and in an event.
    abbrev pub TruthfulJson : Json → Type 0
    TruthfulJson (obj fs) = TruthfulPush (find "action" fs) (unwrap_book_push (obj fs))
    TruthfulJson _ = Unit

    unfoldable pub TruthfulMessage : Message → Type 0
    TruthfulMessage (decoded envelope) = TruthfulJson envelope
    TruthfulMessage _ = Unit

    unfoldable pub TruthfulEvent : Event → Type 0
    unfolding TruthfulMessage
    TruthfulEvent (message r m now rng) = TruthfulMessage m
    TruthfulEvent _ = Unit

    dispatch-Says :
        (c : OkxFeedClient) (r : Receipt) (action : Option Json) (o : Option Fields)
        → TruthfulPush action o
        → Says x depth c
        → Says x depth (dispatch py c r action o).0
    unfolding dispatch handle_snapshot_push handle_update_push
    dispatch-Says c r action none t s = s
    dispatch-Says c r action (some fs) t s = elim (Bool-cases (is_text "snapshot" action)) [
      | inl h ↦ rw h (
          on_snapshot-Says x depth c r (parse_book_snapshot py fs) (extract_ts_exchange_ms py fs)
            (t.0 h) s)
      | inr h ↦ rw h (elim (Bool-cases (is_text "update" action)) [
        | inl k ↦ rw k (
            on_update-Says x depth c r (parse_book_update py fs) (extract_ts_exchange_ms py fs)
              (t.1 k) s)
        | inr k ↦ rw k s
      ])
    ]

    handle_channel_push-Says :
        (c : OkxFeedClient) (r : Receipt) (j : Json)
        → TruthfulJson j
        → Says x depth c
        → Says x depth (handle_channel_push py c r j).0
    unfolding handle_channel_push
    handle_channel_push-Says c r (obj fs) t s =
        dispatch-Says c r (find "action" fs) (unwrap_book_push (obj fs)) t s
    handle_channel_push-Says c r _ t s = s

    on_envelope-Says :
        (c : OkxFeedClient) (r : Receipt) (j : Json) (o : Option Bool)
        → TruthfulJson j
        → Says x depth c
        → Says x depth (on_envelope py c r j o).0
    unfolding on_envelope
    on_envelope-Says c r j none t s = s
    on_envelope-Says c r j (some false) t s = handle_channel_push-Says c r j t s
    on_envelope-Says c r (obj fs) (some true) t s =
        same-Says x depth c (handle_control_message c fs).0 (handle_control_message-SameBook c fs) s
    on_envelope-Says c r _ (some true) t s = s

    on_message-Says :
        (c : OkxFeedClient) (r : Receipt) (m : Message)
        → TruthfulMessage m
        → Says x depth c
        → Says x depth (on_message py c r m).0
    unfolding on_message TruthfulMessage
    on_message-Says c r pong t s = s
    on_message-Says c r broken t s = s
    on_message-Says c r (decoded j) t s = on_envelope-Says c r j (in_json "event" j) t s

    receive-Says :
        (c : OkxFeedClient) (r : Receipt) (m : Message) (now : ℕ) (rng : RandomLike)
        → TruthfulMessage m
        → Says x depth c
        → Says x depth (handle now rng (receive py c r m))
    unfolding receive
    receive-Says c r m now rng t s =
        let d = record (count "messages_received" c) {
          connection = message_received c.connection;
        } in
        handle-Says x depth now rng (on_message py d r m) (on_message-Says d r m t s)

    lost-Says :
        (key : String) (now : ℕ) (rng : RandomLike) (c : OkxFeedClient)
        → Says x depth c
        → Says x depth (disconnect now rng (count key c))
    lost-Says key now rng c s = disconnect-Says x depth now rng (count key c) s

    start-SameBook :
        (c : OkxFeedClient) (cost asked_at acquired_at : ℕ)
        → SameBook c (start c cost asked_at acquired_at)
    unfolding start
    start-SameBook c cost asked_at acquired_at = ground arith

    connect-Says : (c : OkxFeedClient) (now : ℕ) → Says x depth c → Says x depth (connect c now)
    unfolding connect
    connect-Says c now s =
        unfold Invariant.step TruthfulCall in step-Sound x depth c.engine reconnect c.row_queue tt s

    run_step-Says :
        (c : OkxFeedClient) (ph : Phase) (e : Event)
        → TruthfulEvent e
        → Says x depth c
        → Says x depth (run_step py c ph e)
    unfolding run_step TruthfulEvent handle
    run_step-Says c between (dial cost asked_at acquired_at) t s =
        same-Says x depth c (start c cost asked_at acquired_at)
          (start-SameBook c cost asked_at acquired_at) s
    run_step-Says c dialing opened t s = s
    run_step-Says c dialing (timed_out now rng) t s = lost-Says "watchdog_tripped" now rng c s
    run_step-Says c dialing (dropped now rng) t s = lost-Says "ws_disconnected" now rng c s
    run_step-Says c subscribing (subscribed now) t s = connect-Says c now s
    run_step-Says c subscribing (timed_out now rng) t s = lost-Says "watchdog_tripped" now rng c s
    run_step-Says c subscribing (dropped now rng) t s = lost-Says "ws_disconnected" now rng c s
    run_step-Says c reading (message r m now rng) t s = receive-Says c r m now rng t s
    run_step-Says c reading (timed_out now rng) t s = s
    run_step-Says c reading (dropped now rng) t s = lost-Says "ws_disconnected" now rng c s
    run_step-Says c pinging (message r m now rng) t s =
        receive-Says (record c { phase = reading }) r m now rng t s
    run_step-Says c pinging (timed_out now rng) t s = lost-Says "watchdog_tripped" now rng c s
    run_step-Says c pinging (dropped now rng) t s = lost-Says "ws_disconnected" now rng c s
    run_step-Says c sleeping slept t s = s
    run_step-Says c _ _ t s = s

    run-Says :
        (es : List Event) (c : OkxFeedClient)
        → All TruthfulEvent es
        → Says x depth c
        → Says x depth (run py c es)
    unfolding run step
    run-Says [] c ts s = s
    run-Says (e ∷ es) c ts s =
        run-Says es (step py c e) ts.1 (elim (Bool-cases (is_worker_event e)) [
          | inl h ↦ rw (h, step) (worker_step-Says x depth c c.worker e s)
          | inr h ↦ rw (h, step) (run_step-Says c c.phase e ts.0 s)
        ])

    -- Every row that a new client ever puts into its queue is true: if the
    -- updates and the snapshots that are pushed to it are the exchange's, and all rows that are in the
    -- queue at first are true, then whatever happens, in whatever order, each row in the queue shows the
    -- best `depth` levels of both sides of the exchange's book at the row's update id.
    pub okx-RowsTrue :
        (symbol : String) (retries failures : ℕ) (policy : BackoffPolicy)
        (resubscribe_bucket connection_bucket : TokenBucket)
        (q : Option (BoundedRowQueue SnapshotRow)) (es : List Event)
        → RowsTrue x depth q
        → All TruthfulEvent es
        → RowsTrue x depth
            (run py
              (init symbol retries failures
                (Engine.init depth)
                policy
                resubscribe_bucket
                connection_bucket
                q)
              es).row_queue
    okx-RowsTrue symbol retries failures policy resubscribe_bucket connection_bucket q es t ts =
        (run-Says es
          (init symbol retries failures (Engine.init depth) policy resubscribe_bucket
            connection_bucket q)
          ts (unfold init in init-Sound x depth q t)).rows_true
