-- ===== src/Config.antt =====
-- src/l2_pipeline/config.py: `load_config`. What `yaml.safe_load` gives is a JSON value: YAML's dates and sets, and
-- keys that are no texts, are left out. No type is checked at run time, so a field holds any value.

pub mod Accepted
pub mod Escapes
pub mod Written
mod Tests
use Prim.Native.String.{String}
use text.Mathlib.Text.{◌==◌ as str_eq}
use l2_orderbook_pipeline.Common.{
  List, [], ◌∷◌, Option, none, some, Bool, true, false, ◌&&◌, ◌||◌, if◌then◌else◌,
}
use l2_orderbook_pipeline.Common.Options.{◌>>=◌, traverse}
use l2_orderbook_pipeline.Common.Int.{pos, leb_ℤ}
use l2_orderbook_pipeline.Feeds.Json.{
  Json, null, bool, int, float, str, arr, obj, Fields, end, field, find, item, iterate, bit,
}

pub data OverflowPolicy : Type 0 where
  drop_oldest coalesce : OverflowPolicy

pub record ExchangeConfig : Type 0 where
  pub name : Json
  pub symbols : List Json
  pub ws_url : Json
  pub rest_snapshot_url : Json

pub record OutputConfig : Type 0 where
  pub parquet_dir : String
  pub queue_maxsize : Json
  pub overflow_policy : OverflowPolicy

pub record LoggingConfig : Type 0 where
  pub level : Json
  pub format : Json

-- `book` and `metrics` by their only fields, `depth_levels` and `prometheus_port`
pub record AppConfig : Type 0 where
  pub exchanges : List ExchangeConfig
  pub depth_levels : Json
  pub output : OutputConfig
  pub prometheus_port : Json
  pub logging : LoggingConfig

-- The messages of `ConfigError`.
pub data Reason : Type 0 where
  not_found malformed_yaml not_a_mapping invalid_structure invalid_policy not_implemented : Reason
  no_exchanges no_symbols depth_not_positive : Reason

-- A value, a `ConfigError`, or an exception of another kind.
pub data Result {ℓ} (A : Type ℓ) : Type ℓ where
  ok : A → Result A
  config_error : Reason → Result A
  escapes : Result A

infixl 5 ◌and_then◌
abbrev pub ◌and_then◌ {ℓ κ} : {A : Type ℓ} {B : Type κ} → Result A → (A → Result B) → Result B
ok a and_then f = f a
config_error r and_then f = config_error r
escapes and_then f = escapes

-- A `KeyError` or a `TypeError` inside the `try`.
abbrev pub structural {ℓ} : {A : Type ℓ} → Option A → Result A
structural none = config_error invalid_structure
structural (some a) = ok a

-- What is read: no file, no YAML, or a value.
pub data Source : Type 0 where
  missing unreadable : Source
  parsed : Json → Source

abbrev pub or_else_value : Json → Option Json → Json
or_else_value d none = d
or_else_value d (some x) = x

unfoldable pub parse_exchange : Json → Option ExchangeConfig
parse_exchange raw = do
  name ← item "name" raw
  symbols ← item "symbols" raw >>= iterate
  ws_url ← item "ws_url" raw
  some (record {
    name = name;
    symbols = symbols;
    ws_url = ws_url;
    rest_snapshot_url = or_else_value null (item "rest_snapshot_url" raw);
  })

abbrev pub is_among : String → List String → Bool
is_among k [] = false
is_among k (n ∷ ns) = str_eq n k || is_among k ns

-- A dataclass called with `**raw`: no keyword beside its fields'.
abbrev pub only : List String → Fields → Bool
only names end = true
only names (field k v fs) = is_among k names && only names fs

-- `raw.get(section, {})` as keyword arguments for these fields
abbrev pub keywords : List String → Option Json → Option Fields
keywords names none = some end
keywords names (some (obj fs)) = if only names fs then some fs else none
keywords names (some x) = none

abbrev pub policy_of : Json → Result OverflowPolicy
policy_of (str s) =
    if str_eq s "drop_oldest"
    then ok drop_oldest
    else if str_eq s "coalesce"
    then config_error not_implemented
    else config_error invalid_policy
policy_of x = config_error invalid_policy

-- `Path(raw["parquet_dir"])`
abbrev pub path_of : Option Json → Option String
path_of (some (str s)) = some s
path_of x = none

-- `raw.get` of a value that is no mapping is an `AttributeError`.
unfoldable pub parse_output : Json → Result OutputConfig
parse_output (obj fs) =
    policy_of (or_else_value (str "drop_oldest") (find "overflow_policy" fs)) and_then λ policy.
    structural (path_of (find "parquet_dir" fs)) and_then λ dir. ok (record {
      parquet_dir = dir;
      queue_maxsize = or_else_value (int (pos 10000)) (find "queue_maxsize" fs);
      overflow_policy = policy;
    })
parse_output x = escapes

-- `x <= 0`; `none` is a `TypeError`.
abbrev pub is_at_most_zero : Json → Option Bool
is_at_most_zero (bool b) = some (leb_ℤ (bit b) (pos 0))
is_at_most_zero (int n) = some (leb_ℤ n (pos 0))
is_at_most_zero (float n d) = some (leb_ℤ d (pos 0))
is_at_most_zero x = none

abbrev pub is_empty {ℓ} : {A : Type ℓ} → List A → Bool
is_empty [] = true
is_empty (x ∷ xs) = false

-- The loop over the exchanges that looks for one without symbols.
abbrev pub lacks_symbols : List ExchangeConfig → Bool
lacks_symbols [] = false
lacks_symbols (e ∷ es) = is_empty e.symbols || lacks_symbols es

abbrev pub depth_checked : AppConfig → Option Bool → Result AppConfig
depth_checked c none = escapes
depth_checked c (some true) = config_error depth_not_positive
depth_checked c (some false) = ok c

-- `load_config` behind its `try`
unfoldable pub validate : AppConfig → Result AppConfig
validate c =
    if is_empty c.exchanges
    then config_error no_exchanges
    else if lacks_symbols c.exchanges
    then config_error no_symbols
    else depth_checked c (is_at_most_zero c.depth_levels)

-- The `try` over the structure.
unfoldable pub build : Fields → Result AppConfig
unfolding parse_output
build raw =
    structural (find "exchanges" raw >>= iterate >>= traverse parse_exchange) and_then λ exchanges.
    structural (keywords ("depth_levels" ∷ []) (find "book" raw)) and_then λ book.
    structural (find "output" raw) and_then λ raw_output. parse_output raw_output and_then λ output.
    structural (keywords ("prometheus_port" ∷ []) (find "metrics" raw)) and_then λ metrics.
    structural (keywords ("level" ∷ "format" ∷ []) (find "logging" raw)) and_then λ logging.
    ok (record {
      exchanges = exchanges;
      depth_levels = or_else_value (int (pos 20)) (find "depth_levels" book);
      output = output;
      prometheus_port = or_else_value (int (pos 9100)) (find "prometheus_port" metrics);
      logging = record {
        level = or_else_value (str "INFO") (find "level" logging);
        format = or_else_value (str "json") (find "format" logging);
      };
    })

unfoldable pub load_config : Source → Result AppConfig
unfolding build validate
load_config missing = config_error not_found
load_config unreadable = config_error malformed_yaml
load_config (parsed (obj raw)) = build raw and_then validate
load_config (parsed x) = config_error not_a_mapping
