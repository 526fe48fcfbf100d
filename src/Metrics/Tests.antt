-- ===== src/Metrics/Tests.antt =====
-- Tests of the collector, and its theorem at concrete inputs.
use l2_orderbook_pipeline.Common.{ℕ, List, [], ◌∷◌, ◌++◌, some, ◌≡◌, refl, All, map, length}
use l2_orderbook_pipeline.Common.Dict
use l2_orderbook_pipeline.Feeds.Stats.{count_of}
use l2_orderbook_pipeline.Supervisor
use l2_orderbook_pipeline.Supervisor.{
  Config, FeedSupervisor, Event, feed, sink_ended, crashed, add_feed,
}
use l2_orderbook_pipeline.Metrics.{
  FeedRegistration, SinkStats, Labels, counter_family, feed_counter_specs, labels_of, sink_metrics,
  collect,
}
use l2_orderbook_pipeline.Metrics.Scrapes.{holding, collect_total}

abbrev config : Config
config = record {
  backoff_policy = record { base_seconds = 500; cap_seconds = 30000 };
  max_restarts = 5;
  restart_window = 300000;
}

abbrev one_feed : FeedSupervisor
one_feed = record (Supervisor.init config) {
  feeds =
      (
        "okx",
        record {
          state = Supervisor.running;
          restart_count = 0;
          restart_times = [];
          task = Supervisor.serving;
        },
      )
      ∷ [];
}

abbrev registrations : List FeedRegistration
registrations =
    record { exchange = "okx"; symbol = "BTC-USDT"; counters = ("gap_detected", 2) ∷ [] } ∷ []

abbrev sink : SinkStats
sink = record { rows_written = 7; rows_dropped = 1; queue_depth = 3 }

gaps_shown :
    counter_family registrations ("l2_gaps_detected_total", "gap_detected")
    ≡ record { name = "l2_gaps_detected_total"; samples = (("okx", "BTC-USDT"), 2) ∷ [] }
unfolding count_of Dict.get
gaps_shown = refl

collect_total_example :
    (restarts : List (Labels × ℕ)) × (states : List (Labels × List _)) × (collect
        (Supervisor.run one_feed (sink_ended ∷ []))
        registrations
        sink
      ≡ some (record {
        feed_counters =
            map (counter_family registrations) feed_counter_specs
            ++ (record { name = "l2_feed_restarts_total"; samples = restarts }) ∷ [];
        feed_state = record { name = "l2_feed_state"; samples = states };
        sink_metrics = sink_metrics sink;
      }))
    × (map (λ b. b.0) restarts ≡ map labels_of registrations)
    × (map (λ b. b.0) states ≡ map labels_of registrations)
    × All (λ b. length (holding b.1) ≡ 1) states
collect_total_example =
    collect_total one_feed (sink_ended ∷ []) registrations sink (unfold Dict.get in (refl, tt))
