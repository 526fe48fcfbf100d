-- ===== src/Feeds/Okx/Client/Pushes.antt =====
-- What `OKXFeedClient` makes of the pushes and the acknowledgements that the exchange sends.
use Prim.Native.String.{String}
use l2_orderbook_pipeline.Common.{
  ℕ, List, Option, none, some, ◌≡◌, ◌≢◌, refl, ap, ◌∙◌, arith, true, false, ◌||◌, inl, inr,
}
use l2_orderbook_pipeline.Common.Int.{ℤ}
use l2_orderbook_pipeline.Book.Types.{
  PriceLevel, DiffEvent, SnapshotEvent, ApplyStatus, applied, buffered, gap_detected,
  snapshot_stale,
}
use l2_orderbook_pipeline.Book.Engine.{BookEngine, is_live, apply_event, load_snapshot}
use l2_orderbook_pipeline.Book.Loading.{load_applied, apply_event-cases}
use l2_orderbook_pipeline.Feeds.Connection.{RandomLike, message_received}
use l2_orderbook_pipeline.Feeds.Json.{find, Numerals}
use l2_orderbook_pipeline.Feeds.Okx.Parsing.{
  unwrap_book_push, book_json, push_json, parse_book-book_json,
}
use l2_orderbook_pipeline.Feeds.Okx.Client.{OkxFeedClient, raised, count, handle, disconnect}
use l2_orderbook_pipeline.Feeds.Okx.Client.Effects.{publish_to-engine}
use l2_orderbook_pipeline.Feeds.Okx.Client.Messages.{
  Receipt, after_failure, one_more_failure, handle_resync_result, on_loaded, on_snapshot, on_status,
  on_update, decoded, handle_snapshot_push, handle_update_push, dispatch, handle_channel_push,
  on_envelope, on_message, receive,
}

module _ (py : Numerals) where
  -- The client that has counted a message.
  abbrev pub counted : OkxFeedClient → OkxFeedClient
  counted c = record (count "messages_received" c) { connection = message_received c.connection }

  -- A push in the exchange's form goes through envelope, dispatch and parser to the engine as it was meant:
  -- an update is applied by `apply_event`, with its time, and a snapshot by `load_snapshot`.
  pub receive-push_json :
      (c : OkxFeedClient) (r : Receipt) (symbol : String) (ts prev_id final_id : ℤ)
      (bids asks : List PriceLevel)
      → let fields = book_json py ts prev_id final_id bids asks in
        let b =
          apply_event c.engine
            (record { prev_id = prev_id; final_id = final_id; bids = bids; asks = asks }) in
        let s =
          load_snapshot c.engine (record { last_update_id = final_id; bids = bids; asks = asks }) in
        (receive py c r (decoded (push_json py symbol "update" fields))
          ≡ on_status (record (counted c) { engine = b.0 }) r (some ts) b.1)
        × (receive py c r (decoded (push_json py symbol "snapshot" fields))
            ≡ on_loaded (counted c) r (some ts) s)
  unfolding receive on_message on_envelope handle_channel_push dispatch handle_update_push
      handle_snapshot_push on_update on_snapshot find unwrap_book_push
  receive-push_json c r symbol ts prev_id final_id bids asks =
      let h = parse_book-book_json py symbol "update" ts prev_id final_id bids asks in
      (rw (h.1, h.3) refl, rw (h.2, h.3) refl)

  -- A snapshot that comes while the engine is live changes nothing in it, and raises: `load_snapshot`'s
  -- `ValueError` goes through to `run`, which drops the connection for it and counts it as "ws_disconnected".
  pub snapshot_on_live_raises :
      (c : OkxFeedClient) (r : Receipt) (symbol : String) (ts prev_id final_id : ℤ)
      (bids asks : List PriceLevel) (now : ℕ) (rng : RandomLike)
      → is_live c.engine.state ≡ true
      → let o =
          receive py c r (
            decoded
              (push_json py symbol "snapshot" (book_json py ts prev_id final_id bids asks))) in
        (o ≡ (counted c, raised))
        × (handle now rng o ≡ disconnect now rng (count "ws_disconnected" (counted c)))
  unfolding load_snapshot on_loaded handle
  snapshot_on_live_raises c r symbol ts prev_id final_id bids asks now rng l =
      let h : receive py c r
            (decoded (push_json py symbol "snapshot" (book_json py ts prev_id final_id bids asks)))
          ≡ (counted c, raised) =
        (receive-push_json c r symbol ts prev_id final_id bids asks).1 ∙ rw l refl in
      (h, ap (handle now rng) h)

after_failure-asks :
    (c : OkxFeedClient)
    → c.current_ws ≡ true
    → ((after_failure c).resync_needed || (after_failure c).closed) ≡ true
unfolding after_failure
after_failure-asks c w = ground arith

on_status-asks :
    (c : OkxFeedClient) (r : Receipt) (ts : Option ℤ) (e : DiffEvent)
    → is_live c.engine.state ≡ true
    → let b = apply_event c.engine e in
      let d = (on_status (record c { engine = b.0 }) r ts b.1).0 in
      is_live d.engine.state ≡ false → d.resync_needed ≡ true
unfolding on_status
on_status-asks c r ts e l = elim (apply_event-cases c.engine e) [
  | inl h ↦ λ m. cc
  | inr (inl h) ↦ rw h.1 (λ m.
      let d = record c { engine = (apply_event c.engine e).0 } in
      let k = ap (λ (b : BookEngine). is_live b.state) (publish_to-engine d r ts c.row_queue) in cc)
  | inr (inr h) ↦ rw h.1 (λ m. refl)
]

raises_live :
    (b : BookEngine) (s : SnapshotEvent) → load_snapshot b s ≡ none → is_live b.state ≢ false
unfolding load_snapshot
raises_live b s e l = ground arith

on_loaded-asks :
    (c : OkxFeedClient) (r : Receipt) (ts : Option ℤ) (s : SnapshotEvent)
    (o : Option (BookEngine × ApplyStatus))
    → load_snapshot c.engine s ≡ o
    → c.current_ws ≡ true
    → let d = (on_loaded c r ts o).0 in
      is_live d.engine.state ≡ false → (d.resync_needed || d.closed) ≡ true
unfolding on_loaded handle_resync_result
on_loaded-asks c r ts s none e w l = absurd (raises_live c.engine s e l)
on_loaded-asks c r ts s (some (b, applied)) e w l =
    let d = record (count "resync_completed" (record c { engine = b })) {
      snapshot_retry_count = 0;
    } in
    let k = ap (λ (b : BookEngine). is_live b.state) (publish_to-engine d r ts c.row_queue) in
    let a = load_applied c.engine b s e in cc
on_loaded-asks c r ts s (some (b, gap_detected)) e w l =
    after_failure-asks (count "gap_detected" (one_more_failure (record c { engine = b }))) w
on_loaded-asks c r ts s (some (b, snapshot_stale)) e w l =
    after_failure-asks (count "snapshot_stale_retry" (one_more_failure (record c { engine = b }))) w
on_loaded-asks c r ts s (some (b, buffered)) e w l =
    after_failure-asks (count "snapshot_stale_retry" (one_more_failure (record c { engine = b }))) w

-- Going out of sync is never forgotten, with a websocket in place and pushes in the exchange's form: an
-- update with which the live engine goes out of sync sets the resync worker's flag; and after a
-- snapshot that leaves the engine out of sync, the flag is set or the client has closed the websocket.
pub out_of_sync_asks :
    (py : Numerals) (c : OkxFeedClient) (r : Receipt) (symbol : String) (ts prev_id final_id : ℤ)
    (bids asks : List PriceLevel)
    → c.current_ws ≡ true
    → let fields = book_json py ts prev_id final_id bids asks in
      let u = (receive py c r (decoded (push_json py symbol "update" fields))).0 in
      let s = (receive py c r (decoded (push_json py symbol "snapshot" fields))).0 in
      (is_live c.engine.state ≡ true → is_live u.engine.state ≡ false → u.resync_needed ≡ true)
      × (is_live s.engine.state ≡ false → (s.resync_needed || s.closed) ≡ true)
out_of_sync_asks py c r symbol ts prev_id final_id bids asks w =
    let (u, s) = receive-push_json py c r symbol ts prev_id final_id bids asks in
    rw (u, s)
      (
        on_status-asks (counted py c) r (some ts) _,
        on_loaded-asks (counted py c) r (some ts) _ _ refl w,
      )
