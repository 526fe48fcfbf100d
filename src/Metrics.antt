-- ===== src/Metrics.antt =====
-- `PipelineCollector` of src/l2_pipeline/metrics.py. A metric family is its name with the samples that
-- `add_metric` appends; help texts, the histogram, the gauge and the server are prometheus_client's.
pub mod Scrapes
mod Tests
use Prim.Native.String.{String}
use l2_orderbook_pipeline.Common.{
  ℕ, List, [], ◌∷◌, ◌++◌, Option, none, some, Bool, true, false, map,
}
use l2_orderbook_pipeline.Common.Options.{◌>>=◌, traverse}
use l2_orderbook_pipeline.Common.Dict
use l2_orderbook_pipeline.Common.Texts.{string_Eq}
use l2_orderbook_pipeline.Feeds.Stats.{Stats, count_of}
use l2_orderbook_pipeline.Supervisor.{
  FeedState, running, restarting, permanently_failed, stopped, FeedEntry, FeedSupervisor,
}

-- The name of a metric, and the key of the counter that it shows.
abbrev pub feed_counter_specs : List (String × String)
feed_counter_specs =
    ("l2_messages_received_total", "messages_received")
    ∷ ("l2_gaps_detected_total", "gap_detected")
    ∷ ("l2_ws_reconnects_total", "ws_reconnected")
    ∷ ("l2_watchdog_trips_total", "watchdog_tripped")
    ∷ ("l2_resyncs_completed_total", "resync_completed")
    ∷ []

-- `counters` is what `provider.get_stats()` has under that key.
pub record FeedRegistration : Type 0 where
  pub exchange : String
  pub symbol : String
  pub counters : Stats

pub record SinkStats : Type 0 where
  pub rows_written : ℕ
  pub rows_dropped : ℕ
  pub queue_depth : ℕ

-- The labels of a sample: exchange and symbol.
abbrev pub Labels : Type 0
Labels = String × String

abbrev pub labels_of : FeedRegistration → Labels
labels_of f = (f.exchange, f.symbol)

pub record Family (A : Type 0) : Type 0 where
  pub name : String
  pub samples : List (Labels × A)

pub record Gathered : Type 0 where
  pub feed_counters : List (Family ℕ)
  pub feed_state : Family (List (String × Bool))
  -- `l2_sink_rows_written_total`, `l2_sink_rows_dropped_total` and `l2_sink_queue_depth`
  pub sink_metrics : List (String × ℕ)

abbrev pub counter_sample : String → FeedRegistration → Labels × ℕ
counter_sample key f = (labels_of f, count_of key f.counters)

-- A family of the loop in `_feed_counters`
abbrev pub counter_family : List FeedRegistration → String × String → Family ℕ
counter_family feeds (metric, key) = record {
  name = metric;
  samples = map (counter_sample key) feeds;
}

-- `none` is the `KeyError` of `restart_count`.
unfoldable pub restart_sample : FeedSupervisor → FeedRegistration → Option (Labels × ℕ)
restart_sample s f = do entry ← Dict.get f.exchange s.feeds; some (labels_of f, entry.restart_count)

unfoldable pub feed_counters : FeedSupervisor → List FeedRegistration → Option (List (Family ℕ))
feed_counters s feeds = do
  restarts ← traverse (restart_sample s) feeds
  some (
      map (counter_family feeds) feed_counter_specs
      ++ (record { name = "l2_feed_restarts_total"; samples = restarts }) ∷ [])

-- `FeedState.value`, and `current is state` for the members in their order
abbrev pub value : FeedState → String
value running = "running"
value restarting = "restarting"
value permanently_failed = "permanently_failed"
value stopped = "stopped"

abbrev pub feed_states : List FeedState
feed_states = running ∷ restarting ∷ permanently_failed ∷ stopped ∷ []

abbrev pub is_same : FeedState → FeedState → Bool
is_same running running = true
is_same restarting restarting = true
is_same permanently_failed permanently_failed = true
is_same stopped stopped = true
is_same _ _ = false

abbrev pub state_set : FeedState → List (String × Bool)
state_set current = map (λ state. (value state, is_same state current)) feed_states

-- `none` is the `KeyError` of `feed_state`.
unfoldable pub state_sample :
    FeedSupervisor → FeedRegistration → Option (Labels × List (String × Bool))
state_sample s f = do entry ← Dict.get f.exchange s.feeds; some (labels_of f, state_set entry.state)

unfoldable pub feed_state :
    FeedSupervisor → List FeedRegistration → Option (Family (List (String × Bool)))
feed_state s feeds = do
  samples ← traverse (state_sample s) feeds
  some (record { name = "l2_feed_state"; samples = samples })

abbrev pub sink_metrics : SinkStats → List (String × ℕ)
sink_metrics stats =
    ("l2_sink_rows_written_total", stats.rows_written)
    ∷ ("l2_sink_rows_dropped_total", stats.rows_dropped)
    ∷ ("l2_sink_queue_depth", stats.queue_depth)
    ∷ []

unfoldable pub collect : FeedSupervisor → List FeedRegistration → SinkStats → Option Gathered
unfolding feed_counters feed_state
collect s feeds sink = do
  counters ← feed_counters s feeds
  state ← feed_state s feeds
  some (record { feed_counters = counters; feed_state = state; sink_metrics = sink_metrics sink })
