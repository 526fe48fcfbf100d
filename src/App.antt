-- ===== src/App.antt =====
-- src/l2_pipeline/app.py: which client an exchange gets, and how `_run_pipeline` puts the parts together. Exchanges
-- are taken with texts for their names and symbols. Signals, the heartbeat and the servers are left out.
pub mod Wiring
mod Tests
use Prim.Native.String.{String}
use text.Mathlib.Text.{◌==◌ as str_eq}
use l2_orderbook_pipeline.Common.{ℕ, List, [], ◌∷◌, ◌++◌, Option, none, some, map, if◌then◌else◌}
use l2_orderbook_pipeline.Common.Dict
use l2_orderbook_pipeline.Common.Texts.{string_Eq}
use l2_orderbook_pipeline.Book.Engine.{BookEngine}
use l2_orderbook_pipeline.Feeds.Connection.{BackoffPolicy, max_consecutive_reconnect_failures}
use l2_orderbook_pipeline.Feeds.RateLimit
use l2_orderbook_pipeline.Feeds.Stats.{Stats}
use l2_orderbook_pipeline.Feeds.Binance.Client.{BinanceFeedClient, init as new_binance}
use l2_orderbook_pipeline.Feeds.Okx.Client.{OkxFeedClient, init as new_okx}
use l2_orderbook_pipeline.Metrics.{FeedRegistration}
use l2_orderbook_pipeline.Sinks.Queue
use l2_orderbook_pipeline.Sinks.Queue.{BoundedRowQueue}
use l2_orderbook_pipeline.Sinks.Rows.{SnapshotRow}
use l2_orderbook_pipeline.Supervisor
use l2_orderbook_pipeline.Supervisor.{FeedSupervisor, Config}

-- An exchange of the configuration: its name and its first symbol, the only one that is used.
pub record Exchange : Type 0 where
  pub name : String
  pub symbol : String

pub data FeedClient : Type 0 where
  binance : BinanceFeedClient → FeedClient
  okx : OkxFeedClient → FeedClient

-- The clients' defaults, in milliseconds: DEFAULT_SNAPSHOT_RETRY_LIMIT of both, and OKX's buckets.
abbrev pub snapshot_retry_limit : ℕ
snapshot_retry_limit = 20

abbrev pub policy : BackoffPolicy
policy = record { base_seconds = 500; cap_seconds = 30000 }

-- `_build_client` at a reading of the clock; `none` is its `ValueError`.
unfoldable pub build_client :
    Exchange → BookEngine → BoundedRowQueue SnapshotRow → ℕ → Option FeedClient
build_client e engine queue now =
    if str_eq e.name "binance"
    then some (
        binance (
          new_binance e.symbol snapshot_retry_limit max_consecutive_reconnect_failures engine policy
            (some queue)))
    else if str_eq e.name "okx"
    then some (
        okx (
          new_okx e.symbol snapshot_retry_limit max_consecutive_reconnect_failures engine policy
            (RateLimit.init 300000 1 now) (RateLimit.init 3000 3 now) (some queue)))
    else none

-- `_CurrentFeedClient`: the client that was set last, if any
abbrev pub CurrentFeedClient : Type 0
CurrentFeedClient = Option FeedClient

-- `get_stats()["counters"]`
abbrev pub counters : CurrentFeedClient → Stats
counters none = []
counters (some (binance c)) = c.stats
counters (some (okx c)) = c.stats

-- A call of the factory up to `client.run()`: what it sets, and whether it raises before.
unfoldable pub factory :
    Exchange → BookEngine → BoundedRowQueue SnapshotRow → ℕ → CurrentFeedClient → CurrentFeedClient
factory e engine queue now current = elim (build_client e engine queue now) [
  | none ↦ current
  | some c ↦ some c
]

-- What the factory of a feed was made with, and its registration.
pub record Pipeline : Type 0 where
  pub row_queue : BoundedRowQueue SnapshotRow
  pub supervisor : FeedSupervisor
  pub factories : List (String × Exchange)
  pub registrations : List Exchange

-- A round of the loop over `config.exchanges` in `_run_pipeline`.
unfoldable pub add_exchange : Pipeline → Exchange → Pipeline
add_exchange p e = record p {
  supervisor = Supervisor.add_feed p.supervisor e.name;
  factories = Dict.set e.name e p.factories;
  registrations = p.registrations ++ e ∷ [];
}

unfoldable pub add_exchanges : Pipeline → List Exchange → Pipeline
add_exchanges p [] = p
add_exchanges p (e ∷ es) = add_exchanges (add_exchange p e) es

-- `_run_pipeline` up to `supervisor.run`
unfoldable pub run_pipeline : Config → ℕ → List Exchange → Pipeline
run_pipeline config queue_maxsize exchanges =
    add_exchanges
      (record {
        row_queue = Queue.init queue_maxsize;
        supervisor = Supervisor.init config;
        factories = [];
        registrations = [];
      })
      exchanges

-- What the collector reads from a registration, where `current` holds the cells of the exchanges.
abbrev pub registration : (Exchange → CurrentFeedClient) → Exchange → FeedRegistration
registration current e = record {
  exchange = e.name;
  symbol = e.symbol;
  counters = counters (current e);
}
