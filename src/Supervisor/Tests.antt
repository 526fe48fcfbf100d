-- ===== src/Supervisor/Tests.antt =====
-- Tests of the supervisor, and its theorems at concrete inputs.
use l2_orderbook_pipeline.Common.{
  ℕ, zero, suc, ◌+◌, ◌<◌, ◌≡◌, ◌↔◌, List, [], ◌∷◌, some, refl, arith, true, false, length,
}
use l2_orderbook_pipeline.Common.Dict
use l2_orderbook_pipeline.Common.Texts.{string_Eq}
use l2_orderbook_pipeline.Feeds.Connection.{RandomLike, full_jitter_delay}
use l2_orderbook_pipeline.Supervisor.{
  FeedSupervisor, Config, feed, sink_ended, new_feed, cancelled, running, Event, step, gather,
  cancel_tasks, cancel_all, cancel_feed, update_feed, task_step, fall_asleep, permanently_failed,
  restarting, ended, serving, crashed, woke, feed_step, on_crash, run,
}
use l2_orderbook_pipeline.Supervisor.Crashes.{Crash, crashes, events}
use l2_orderbook_pipeline.Supervisor.Budget.{within, permanently_failed_iff}
use l2_orderbook_pipeline.Supervisor.Lifetime.{Spaced, slow_crashes_kill}
use l2_orderbook_pipeline.Supervisor.Isolation.{IsDone, isolated, sink_end_stops_all}

abbrev longest : RandomLike
longest = record {
  uniform = λ a b. b;
  uniform_lower = λ a b h. h;
  uniform_upper = λ a b h. omega arith;
}

-- In milliseconds: at most two restarts in 300 s.
abbrev config : Config
config = record {
  backoff_policy = record { base_seconds = 500; cap_seconds = 30000 };
  max_restarts = 2;
  restart_window = 300000;
}

abbrev two_crashes : List Crash
two_crashes = (1000, longest) ∷ (2000, longest) ∷ []

two_crashes_serving : (crashes config new_feed two_crashes).task ≡ serving
unfolding crashes feed_step on_crash full_jitter_delay
two_crashes_serving = refl

permanently_failed_iff_example :
    ((feed_step config (crashes config new_feed two_crashes) (crashed 3000 longest)).state
      ≡ permanently_failed)
    ↔ (2 < length (within config 3000 (1000 ∷ 2000 ∷ [])) + 1)
permanently_failed_iff_example =
    permanently_failed_iff config two_crashes 3000 longest two_crashes_serving
      (omega arith, (omega arith, tt))

-- So many crashes, one for each window, from a time on.
slow_crashes : ℕ → ℕ → List Crash
slow_crashes zero t = []
slow_crashes (suc n) t = (t + 300000, longest) ∷ slow_crashes n (t + 300000)

slow_crashes-Spaced : (n t : ℕ) → Spaced 300000 t (slow_crashes n t)
unfolding slow_crashes
slow_crashes-Spaced zero t = tt
slow_crashes-Spaced (suc n) t = (omega arith, slow_crashes-Spaced n (t + 300000))

length-slow_crashes : (n t : ℕ) → length (slow_crashes n t) ≡ n
unfolding slow_crashes
length-slow_crashes zero t = refl
length-slow_crashes (suc n) t = omega (arith, length-slow_crashes n (t + 300000))

slow_crashes_kill_example :
    let f = events config (crashes config new_feed (slow_crashes 1025 0)) (woke ∷ []) in
    (f.task ≡ ended) × (f.state ≡ restarting)
slow_crashes_kill_example =
    slow_crashes_kill config (slow_crashes 1025 0) (woke ∷ []) (omega arith)
      (slow_crashes-Spaced 1025 0) (length-slow_crashes 1025 0)

abbrev two_feeds : FeedSupervisor
two_feeds = record {
  config = config;
  feeds = ("binance", new_feed) ∷ ("okx", new_feed) ∷ [];
  sink_running = true;
  shutdown = false;
}

isolated_example :
    let t = run two_feeds (feed "binance" (crashed 1000 longest) ∷ []) in
    (Dict.get "okx" t.feeds ≡ Dict.get "okx" two_feeds.feeds) × (t.shutdown ≡ false)
isolated_example =
    isolated (feed "binance" (crashed 1000 longest) ∷ []) two_feeds "okx" refl (refl, tt)

-- The cancellation reaches a feed that another event came before.
abbrev stopping : List Event
stopping = feed "okx" (crashed 900 longest) ∷ feed "binance" cancelled ∷ []

sink_end_stops_all_example :
    let t = run two_feeds (sink_ended ∷ stopping) in
    (t.shutdown ≡ true) × (t.sink_running ≡ false) × IsDone "binance" t
unfolding Dict.get
sink_end_stops_all_example =
    sink_end_stops_all two_feeds stopping "binance" new_feed refl refl (λ h. tt)

-- A factory that answers the cancellation by an exception of its own is restarted, and holds up the end.
abbrev held_up : FeedSupervisor
held_up = run two_feeds (
    sink_ended
    ∷ feed "okx" cancelled
    ∷ feed "binance" (crashed 900 longest)
    ∷ feed "binance" woke
    ∷ [])

held_up_serving :
    Dict.get "binance" held_up.feeds
    ≡ some (record new_feed { restart_count = 1; restart_times = 900 ∷ []; state = running })
unfolding run step gather cancel_tasks cancel_all cancel_feed update_feed feed_step task_step
    on_crash fall_asleep full_jitter_delay Dict.get Dict.set
held_up_serving = refl
