-- ===== src/Feeds/Okx/Parsing.antt =====
-- The parsers of src/l2_pipeline/feeds/okx.py. `none` is `ParseError`, into which the callers turn every
-- exception that a parser's body can raise.
use Prim.Native.String.{String}
use mathlib.Core.List.{map-id}
use l2_orderbook_pipeline.Common.{List, Option, some, ◌≡◌, refl, ap, ◌∙◌, map}
use l2_orderbook_pipeline.Common.Options.{◌>>=◌, traverse, traverse-map}
use l2_orderbook_pipeline.Common.Int.{ℤ}
use l2_orderbook_pipeline.Book.Types.{PriceLevel, DiffEvent, SnapshotEvent}
use l2_orderbook_pipeline.Feeds.Json.{
  Json, int, str, arr, obj, nil, cons, Fields, end, field, items_from, list_of-items_from, find,
  item, at_index, iterate, as_dict, Numerals, to_int, to_decimal, int_unless_null,
}

unfoldable pub unwrap_book_push : Json → Option Fields
unwrap_book_push raw = do elements ← item "data" raw; first ← at_index 0 elements; as_dict first

module _ (py : Numerals) where
  unfoldable pub parse_price_level : Json → Option PriceLevel
  parse_price_level raw = do
    price ← at_index 0 raw
    qty ← at_index 1 raw
    p ← to_decimal py price
    q ← to_decimal py qty
    some (record { price = p; qty = q })

  -- `[parse_price_level(level) for level in raw]`
  abbrev parse_levels : Json → Option (List PriceLevel)
  parse_levels raw = iterate raw >>= traverse parse_price_level

  unfoldable pub parse_book_update : Fields → Option DiffEvent
  parse_book_update fields = do
    seq_id ← find "seqId" fields >>= to_int py
    prev_seq_id ← find "prevSeqId" fields >>= to_int py
    bids ← find "bids" fields >>= parse_levels
    asks ← find "asks" fields >>= parse_levels
    some (record { prev_id = prev_seq_id; final_id = seq_id; bids = bids; asks = asks })

  -- The outer `none` is the exception of `int`, which nothing turns into a `ParseError`.
  unfoldable pub extract_ts_exchange_ms : Fields → Option (Option ℤ)
  extract_ts_exchange_ms fields = int_unless_null py (find "ts" fields)

  unfoldable pub parse_book_snapshot : Fields → Option SnapshotEvent
  parse_book_snapshot fields = do
    seq_id ← find "seqId" fields >>= to_int py
    bids ← find "bids" fields >>= parse_levels
    asks ← find "asks" fields >>= parse_levels
    some (record { last_update_id = seq_id; bids = bids; asks = asks })

  -- The exchange's own form: a level is its price, its quantity and two more texts; a time is a text.
  abbrev level_json : PriceLevel → Json
  level_json l = arr (
      cons (str (py.show_decimal l.price))
        (cons (str (py.show_decimal l.qty)) (cons (str "0") (cons (str "1") nil))))

  abbrev levels_json : List PriceLevel → Json
  levels_json ls = arr (items_from (map level_json ls))

  -- `prev_id` is -1 in a snapshot.
  abbrev pub book_json : ℤ → ℤ → ℤ → List PriceLevel → List PriceLevel → Fields
  book_json ts prev_id final_id bids asks = field "asks" (levels_json asks) (
      field "bids" (levels_json bids) (
        field "ts" (str (py.show_int ts))
          (field "seqId" (int final_id) (field "prevSeqId" (int prev_id) end))))

  abbrev pub push_json : String → String → Fields → Json
  push_json symbol action fields = obj (
      field "arg" (obj (field "channel" (str "books") (field "instId" (str symbol) end)))
        (field "action" (str action) (field "data" (arr (cons (obj fields) nil)) end)))

  parse_price_level-level_json : (l : PriceLevel) → parse_price_level (level_json l) ≡ some l
  unfolding parse_price_level
  parse_price_level-level_json l =
      rw (py.decimal_of-show_decimal l.price, py.decimal_of-show_decimal l.qty)

  parse_levels-levels_json : (ls : List PriceLevel) → parse_levels (levels_json ls) ≡ some ls
  parse_levels-levels_json ls =
      ap (traverse parse_price_level) (list_of-items_from (map level_json ls))
      ∙ traverse-map parse_price_level level_json (λ l. l) ls parse_price_level-level_json
      ∙ ap some (map-id ls)

  ts_json : (ts : ℤ) → int_unless_null py (some (str (py.show_int ts))) ≡ some (some ts)
  ts_json ts = rw (py.int_of-show_int ts)

  -- An update and a snapshot in the form in which the exchange sends them are read as they were meant,
  -- through the push, with the time of the push; the previous id of a snapshot does not matter.
  pub parse_book-book_json :
      (symbol action : String) (ts prev_id final_id : ℤ) (bids asks : List PriceLevel)
      → let fields = book_json ts prev_id final_id bids asks in
        (unwrap_book_push (push_json symbol action fields) ≡ some fields)
        × (parse_book_update fields
            ≡ some (record { prev_id = prev_id; final_id = final_id; bids = bids; asks = asks }))
        × (parse_book_snapshot fields
            ≡ some (record { last_update_id = final_id; bids = bids; asks = asks }))
        × (extract_ts_exchange_ms fields ≡ some (some ts))
  unfolding unwrap_book_push parse_book_update parse_book_snapshot extract_ts_exchange_ms find
  parse_book-book_json symbol action ts prev_id final_id bids asks = (
    refl,
    rw (parse_levels-levels_json bids, parse_levels-levels_json asks),
    rw (parse_levels-levels_json bids, parse_levels-levels_json asks),
    ts_json ts,
  )
