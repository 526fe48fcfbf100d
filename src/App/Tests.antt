-- ===== src/App/Tests.antt =====
-- Tests of the pipeline's wiring, and its theorem at concrete inputs.
use l2_orderbook_pipeline.Common.{[], ◌∷◌, none, some, ◌≡◌, refl}
use l2_orderbook_pipeline.Common.Dict
use l2_orderbook_pipeline.Common.Texts.{string_Eq}
use l2_orderbook_pipeline.Book.Engine.{init}
use l2_orderbook_pipeline.Sinks.Queue
use l2_orderbook_pipeline.Supervisor.{Config}
use l2_orderbook_pipeline.App.{Exchange, run_pipeline, build_client}
use l2_orderbook_pipeline.App.Wiring.{last_named, run_pipeline-last}

abbrev config : Config
config = record {
  backoff_policy = record { base_seconds = 500; cap_seconds = 30000 };
  max_restarts = 5;
  restart_window = 300000;
}

-- One exchange twice, for two symbols.
abbrev btc : Exchange
btc = record { name = "okx"; symbol = "BTC-USDT" }

abbrev eth : Exchange
eth = record { name = "okx"; symbol = "ETH-USDT" }

later_wins : last_named "okx" (btc ∷ eth ∷ []) none ≡ some eth
later_wins = refl

unsupported :
    build_client (record { name = "kraken"; symbol = "XBT" }) (init 20) (Queue.init 5) 0 ≡ none
unfolding build_client
unsupported = refl

run_pipeline-last_example :
    let p = run_pipeline config 10000 (btc ∷ eth ∷ []) in
    (Dict.get "okx" p.factories ≡ last_named "okx" (btc ∷ eth ∷ []) none)
    × (p.registrations ≡ btc ∷ eth ∷ [])
run_pipeline-last_example = run_pipeline-last config 10000 (btc ∷ eth ∷ []) "okx"
