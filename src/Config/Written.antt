-- ===== src/Config/Written.antt =====
-- Configurations written out for `load_config` to read.
use Prim.Native.String.{String}
use mathlib.Core.List.{map-id}
use l2_orderbook_pipeline.Common.{List, [], ◌∷◌, some, ◌≡◌, refl, ap, ◌∙◌, false, All, map}
use l2_orderbook_pipeline.Common.Options.{traverse, traverse-map}
use l2_orderbook_pipeline.Feeds.Json.{
  Json, str, arr, obj, Fields, end, field, find, items_from, list_of, list_of-items_from,
}
use l2_orderbook_pipeline.Config.{
  OverflowPolicy, drop_oldest, coalesce, ExchangeConfig, OutputConfig, AppConfig, ok, parsed,
  parse_exchange, parse_output, is_empty, lacks_symbols, validate, build, load_config,
}
use l2_orderbook_pipeline.Config.Accepted.{Accepted}

abbrev exchange_yaml : ExchangeConfig → Json
exchange_yaml e = obj (
    field "name" e.name (
      field "symbols" (arr (items_from e.symbols))
        (field "ws_url" e.ws_url (field "rest_snapshot_url" e.rest_snapshot_url end))))

-- `OverflowPolicy.value`
abbrev policy_value : OverflowPolicy → String
policy_value drop_oldest = "drop_oldest"
policy_value coalesce = "coalesce"

abbrev output_yaml : OutputConfig → Json
output_yaml o = obj (
    field "parquet_dir" (str o.parquet_dir) (
      field "queue_maxsize" o.queue_maxsize
        (field "overflow_policy" (str (policy_value o.overflow_policy)) end)))

-- The sections in the order of config/default.yaml.
abbrev pub config_yaml : AppConfig → Fields
config_yaml c = field "exchanges" (arr (items_from (map exchange_yaml c.exchanges))) (
    field "book" (obj (field "depth_levels" c.depth_levels end)) (
      field "output" (output_yaml c.output) (
        field "metrics" (obj (field "prometheus_port" c.prometheus_port end)) (
          field "logging"
            (obj (field "level" c.logging.level (field "format" c.logging.format end))) end))))

parse_exchange-yaml : (e : ExchangeConfig) → parse_exchange (exchange_yaml e) ≡ some e
unfolding parse_exchange find
parse_exchange-yaml e = rw (list_of-items_from e.symbols) refl

exchanges-yaml :
    (es : List ExchangeConfig)
    → traverse parse_exchange (list_of (items_from (map exchange_yaml es))) ≡ some es
exchanges-yaml es =
    ap (traverse parse_exchange) (list_of-items_from (map exchange_yaml es))
    ∙ traverse-map parse_exchange exchange_yaml (λ e. e) es parse_exchange-yaml
    ∙ ap some (map-id es)

parse_output-yaml :
    (o : OutputConfig) → o.overflow_policy ≡ drop_oldest → parse_output (output_yaml o) ≡ ok o
unfolding parse_output find
parse_output-yaml o d = rw d refl

build-yaml : (c : AppConfig) → c.output.overflow_policy ≡ drop_oldest → build (config_yaml c) ≡ ok c
unfolding build find
build-yaml c d = rw (exchanges-yaml c.exchanges, parse_output-yaml c.output d) refl

symbols-lack :
    (es : List ExchangeConfig)
    → All (λ (e : ExchangeConfig). is_empty e.symbols ≡ false) es
    → lacks_symbols es ≡ false
symbols-lack [] a = refl
symbols-lack (e ∷ es) a = rw (a.0) (symbols-lack es a.1)

validate-Accepted : (c : AppConfig) → Accepted c → validate c ≡ ok c
unfolding validate
validate-Accepted c a =
    rw (a.some_exchange, symbols-lack c.exchanges a.some_symbols, a.depth_positive) refl

-- Every configuration that could be accepted is read back as it was written.
pub load_config-config_yaml :
    (c : AppConfig) → Accepted c → load_config (parsed (obj (config_yaml c))) ≡ ok c
unfolding load_config
load_config-config_yaml c a = rw (build-yaml c a.drops_oldest) (validate-Accepted c a)
