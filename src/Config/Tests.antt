-- ===== src/Config/Tests.antt =====
-- Tests of `load_config`, and its theorems at concrete inputs.
use l2_orderbook_pipeline.Common.{[], ◌∷◌, none, some, ◌≡◌, refl, ◌⊎◌}
use l2_orderbook_pipeline.Common.Int.{pos}
use l2_orderbook_pipeline.Feeds.Json.{Json, null, int, str, arr, obj, nil, Fields, end, field, find}
use l2_orderbook_pipeline.Config.{
  drop_oldest, ExchangeConfig, AppConfig, ok, escapes, parsed, parse_exchange, parse_output,
  is_at_most_zero, validate, build, load_config,
}
use l2_orderbook_pipeline.Config.Accepted.{Accepted, load_config-Accepted}
use l2_orderbook_pipeline.Config.Escapes.{OutputIsNoMapping, load_config-escapes}
use l2_orderbook_pipeline.Config.Written.{config_yaml, load_config-config_yaml}

abbrev okx : ExchangeConfig
okx = record {
  name = str "okx";
  symbols = str "BTC-USDT" ∷ [];
  ws_url = str "wss://ws.okx.com:8443";
  rest_snapshot_url = null;
}

abbrev with_depth : Json → AppConfig
with_depth depth = record {
  exchanges = okx ∷ [];
  depth_levels = depth;
  output = record {
    parquet_dir = "./data";
    queue_maxsize = int (pos 5);
    overflow_policy = drop_oldest;
  };
  prometheus_port = int (pos 9100);
  logging = record { level = str "INFO"; format = str "json" };
}

abbrev usual : AppConfig
usual = with_depth (int (pos 20))

program : Unit {0}
unfolding parse_exchange parse_output validate build load_config find
program = tt

usual-Accepted : Accepted usual
usual-Accepted = record {
  some_exchange = refl;
  some_symbols = (refl, tt);
  depth_positive = refl;
  drops_oldest = refl;
}

-- A depth in quotes is a text, which does not compare with a number.
quoted_depth : load_config (parsed (obj (config_yaml (with_depth (str "20"))))) ≡ escapes
unfolding program
quoted_depth = refl

-- A text in place of a list of symbols is read letter by letter.
abbrev bare_symbol : Json
bare_symbol = obj (
    field "name" (str "okx")
      (field "symbols" (str "BTC") (field "ws_url" (str "wss://ws.okx.com") end)))

bare_symbol_split :
    parse_exchange bare_symbol
    ≡ some (record {
      name = str "okx";
      symbols = str "B" ∷ str "T" ∷ str "C" ∷ [];
      ws_url = str "wss://ws.okx.com";
      rest_snapshot_url = null;
    })
unfolding program
bare_symbol_split = refl

load_config-Accepted_example : Accepted usual
load_config-Accepted_example =
    load_config-Accepted (parsed (obj (config_yaml usual))) usual (unfold program in refl)

load_config-config_yaml_example : load_config (parsed (obj (config_yaml usual))) ≡ ok usual
load_config-config_yaml_example = load_config-config_yaml usual usual-Accepted

abbrev no_output : Fields
no_output = field "exchanges" (arr nil) (field "output" null end)

load_config-escapes_example :
    OutputIsNoMapping no_output
    ⊎ ((c : AppConfig) × (build no_output ≡ ok c) × (is_at_most_zero c.depth_levels ≡ none))
load_config-escapes_example = load_config-escapes no_output (unfold program in refl)
