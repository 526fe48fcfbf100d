-- ===== src/Feeds/Binance/Parsing.antt =====
-- The parsers of src/l2_pipeline/feeds/binance.py. `none` is `ParseError`, into which every exception of
-- a parser's body is turned.
use Prim.Native.String.{String}
use mathlib.Core.List.{map-id}
use l2_orderbook_pipeline.Common.{List, Option, some, ◌≡◌, refl, ap, ◌∙◌, map}
use l2_orderbook_pipeline.Common.Options.{◌>>=◌, traverse, traverse-map}
use l2_orderbook_pipeline.Common.Int.{ℤ, pos, ◌+ℤ◌, ◌-ℤ◌, int_laws}
use l2_orderbook_pipeline.Book.Types.{PriceLevel, DiffEvent, SnapshotEvent}
use l2_orderbook_pipeline.Feeds.Json.{
  Json, int, str, arr, obj, nil, cons, Fields, end, field, items_from, list_of-items_from, find,
  item, iterate, unpack2, as_dict, Numerals, to_int, to_decimal, int_unless_null,
}

unfoldable pub parse_combined_stream_envelope : Json → Option Fields
parse_combined_stream_envelope raw = item "data" raw >>= as_dict

module _ (py : Numerals) where
  -- `PriceLevel(Decimal(p), Decimal(q))` for `p, q` in a level
  unfoldable pub parse_level : Json → Option PriceLevel
  parse_level raw = do
    pair ← unpack2 raw
    p ← to_decimal py pair.0
    q ← to_decimal py pair.1
    some (record { price = p; qty = q })

  unfoldable pub parse_levels : Json → Option (List PriceLevel)
  unfolding parse_level
  parse_levels raw = iterate raw >>= traverse parse_level

  unfoldable pub parse_diff_event : Fields → Option DiffEvent
  unfolding parse_levels
  parse_diff_event fields = do
    u ← find "U" fields >>= to_int py
    final_id ← find "u" fields >>= to_int py
    bids ← find "b" fields >>= parse_levels
    asks ← find "a" fields >>= parse_levels
    some (record { prev_id = u -ℤ pos 1; final_id = final_id; bids = bids; asks = asks })

  -- The outer `none` is the exception of `int`, which nothing turns into a `ParseError`.
  unfoldable pub extract_ts_exchange_ms : Fields → Option (Option ℤ)
  extract_ts_exchange_ms fields = int_unless_null py (find "E" fields)

  unfoldable pub parse_snapshot : Json → Option SnapshotEvent
  unfolding parse_levels
  parse_snapshot raw = do
    last_update_id ← item "lastUpdateId" raw >>= to_int py
    bids ← item "bids" raw >>= parse_levels
    asks ← item "asks" raw >>= parse_levels
    some (record { last_update_id = last_update_id; bids = bids; asks = asks })

  -- The exchange's own form of a message: decimals as texts, ids as numbers.
  abbrev level_json : PriceLevel → Json
  level_json l = arr (cons (str (py.show_decimal l.price)) (cons (str (py.show_decimal l.qty)) nil))

  abbrev levels_json : List PriceLevel → Json
  levels_json ls = arr (items_from (map level_json ls))

  abbrev pub diff_json : ℤ → String → DiffEvent → Fields
  diff_json event_time symbol e = field "e" (str "depthUpdate") (
      field "E" (int event_time) (
        field "s" (str symbol) (
          field "U" (int (e.prev_id +ℤ pos 1)) (
            field "u" (int e.final_id)
              (field "b" (levels_json e.bids) (field "a" (levels_json e.asks) end))))))

  abbrev pub envelope_json : String → Fields → Json
  envelope_json stream fields = obj (field "stream" (str stream) (field "data" (obj fields) end))

  abbrev pub snapshot_json : SnapshotEvent → Json
  snapshot_json s = obj (
      field "lastUpdateId" (int s.last_update_id)
        (field "bids" (levels_json s.bids) (field "asks" (levels_json s.asks) end)))

  parse_level-level_json : (l : PriceLevel) → parse_level (level_json l) ≡ some l
  unfolding parse_level
  parse_level-level_json l =
      rw (py.decimal_of-show_decimal l.price, py.decimal_of-show_decimal l.qty)

  parse_levels-levels_json : (ls : List PriceLevel) → parse_levels (levels_json ls) ≡ some ls
  unfolding parse_levels
  parse_levels-levels_json ls =
      ap (traverse parse_level) (list_of-items_from (map level_json ls))
      ∙ traverse-map parse_level level_json (λ l. l) ls parse_level-level_json
      ∙ ap some (map-id ls)

  less_one : (n : ℤ) → (n +ℤ pos 1) -ℤ pos 1 ≡ n
  less_one n = omega int_laws

  -- A diff in the form in which the exchange sends it is read as it was meant, through the envelope, with
  -- its event time.
  pub parse_diff_event-diff_json :
      (stream symbol : String) (event_time : ℤ) (e : DiffEvent)
      → ((parse_combined_stream_envelope (envelope_json stream (diff_json event_time symbol e))
            >>= parse_diff_event)
          ≡ some e)
        × (extract_ts_exchange_ms (diff_json event_time symbol e) ≡ some (some event_time))
  unfolding parse_diff_event parse_combined_stream_envelope extract_ts_exchange_ms find
  parse_diff_event-diff_json stream symbol event_time e = (
    rw (parse_levels-levels_json e.bids, parse_levels-levels_json e.asks, less_one e.prev_id),
    refl,
  )

  -- A snapshot in the form of the exchange's reply is read as it was meant.
  pub parse_snapshot-snapshot_json : (s : SnapshotEvent) → parse_snapshot (snapshot_json s) ≡ some s
  unfolding parse_snapshot find
  parse_snapshot-snapshot_json s =
      rw (parse_levels-levels_json s.bids, parse_levels-levels_json s.asks)
