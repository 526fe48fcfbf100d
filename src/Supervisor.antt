-- ===== src/Supervisor.antt =====
-- `FeedSupervisor` of src/l2_pipeline/supervisor.py. Its tasks are driven by events: what a feed's
-- factory does, the end of a sleep, the end of the sink, a request to shut down. The clock's reading
-- and the random draw are parts of the event of a crash.
-- A sink is taken to be set: without one `run` raises at its start.
pub mod Crashes
pub mod Budget
pub mod Lifetime
pub mod Isolation
mod Tests
use Prim.Native.String.{String}
use text.Mathlib.Text.{◌==◌ as str_eq}
use text.Mathlib.TextEquality.{eq_iff}
use l2_orderbook_pipeline.Common.{
  ℕ, ◌+◌, ◌-◌, List, [], ◌∷◌, ◌++◌, Option, none, some, Bool, true, false, ltb, filter, length,
  if◌then◌else◌, Eq,
}
use l2_orderbook_pipeline.Common.Dict
use l2_orderbook_pipeline.Common.Texts.{string_Eq}
use l2_orderbook_pipeline.Feeds.Connection.{BackoffPolicy, RandomLike, full_jitter_delay}

pub data FeedState : Type 0 where
  running restarting permanently_failed stopped : FeedState

-- Where the task of `_run_feed` is: in the factory, in the sleep before a restart, or done.
pub data Task : Type 0 where
  serving sleeping ended : Task

-- `_FeedEntry`
pub record FeedEntry : Type 0 where
  pub state : FeedState
  pub restart_count : ℕ
  pub restart_times : List ℕ
  pub task : Task

pub record Config : Type 0 where
  pub backoff_policy : BackoffPolicy
  pub max_restarts : ℕ
  pub restart_window : ℕ

-- `add_feed`, with the task that `run` creates
abbrev pub new_feed : FeedEntry
new_feed = record { state = running; restart_count = 0; restart_times = []; task = serving }

-- `[t for t in entry.restart_times if now - t < self._restart_window]`, and `now` behind it
abbrev pub recent : ℕ → ℕ → List ℕ → List ℕ
recent window now times = filter (λ t. ltb (now - t) window) times ++ now ∷ []

-- What `full_jitter_delay` gives: the sleep begins, or its error ends the task.
unfoldable pub fall_asleep : FeedEntry → Option ℕ → FeedEntry
fall_asleep f none = record f { task = ended }
fall_asleep f (some delay) = record f { task = sleeping }

-- `except Exception` in `_run_feed`
unfoldable pub on_crash : Config → FeedEntry → ℕ → RandomLike → FeedEntry
unfolding fall_asleep
on_crash c f now rng =
    let times = recent c.restart_window now f.restart_times in
    if ltb c.max_restarts (length times)
    then record f { restart_times = times; state = permanently_failed; task = ended }
    else fall_asleep
        (record f {
          restart_times = times;
          restart_count = f.restart_count + 1;
          state = restarting;
        })
        (full_jitter_delay c.backoff_policy (f.restart_count + 1 - 1) rng)

-- What can happen to the task of a feed.
pub data FeedEvent : Type 0 where
  returned : FeedEvent
  crashed : ℕ → RandomLike → FeedEvent
  woke : FeedEvent
  cancelled : FeedEvent

-- `_run_feed`; an event that the task is not waiting for does not happen to it.
unfoldable pub task_step : Config → FeedEntry → Task → FeedEvent → FeedEntry
task_step c f serving returned = record f { state = stopped; task = ended }
task_step c f serving (crashed now rng) = on_crash c f now rng
task_step c f serving woke = f
task_step c f serving cancelled = record f { task = ended }
task_step c f sleeping returned = f
task_step c f sleeping (crashed now rng) = f
task_step c f sleeping woke = record f { state = running; task = serving }
task_step c f sleeping cancelled = record f { task = ended }
task_step c f ended e = f

unfoldable pub feed_step : Config → FeedEntry → FeedEvent → FeedEntry
unfolding task_step
feed_step c f e = task_step c f f.task e

pub record FeedSupervisor : Type 0 where
  pub config : Config
  pub feeds : List (String × FeedEntry)
  pub sink_running : Bool
  pub shutdown : Bool

unfoldable pub init : Config → FeedSupervisor
init c = record { config = c; feeds = []; sink_running = true; shutdown = false }

unfoldable pub add_feed : FeedSupervisor → String → FeedSupervisor
add_feed s name = record s { feeds = Dict.set name new_feed s.feeds }

-- What can happen while `run` waits, and the sink's end, which `_run_sink` answers in the same way
-- after a crash, a return and a cancellation.
pub data Event : Type 0 where
  feed : String → FeedEvent → Event
  sink_ended : Event
  shutdown_requested : Event

unfoldable pub update_feed : FeedSupervisor → String → FeedEvent → Option FeedEntry → FeedSupervisor
update_feed s name e none = s
update_feed s name e (some f) = record s { feeds = Dict.set name (feed_step s.config f e) s.feeds }

unfoldable pub step : FeedSupervisor → Event → FeedSupervisor
unfolding update_feed
step s (feed name e) = update_feed s name e (Dict.get name s.feeds)
step s sink_ended = record s { sink_running = false; shutdown = true }
step s shutdown_requested = record s { shutdown = true }

-- `task.cancel()`: a sleep ends with the task. Into a factory the cancellation is thrown, and what comes out
-- of it is the feed's next event: `cancelled` if the factory lets it out, but it may also return or
-- raise an exception of its own.
unfoldable pub cancel_feed : FeedEntry → Task → FeedEntry
cancel_feed f serving = f
cancel_feed f sleeping = record f { task = ended }
cancel_feed f ended = f

-- `task.cancel()` for each feed
unfoldable pub cancel_all : List (String × FeedEntry) → List (String × FeedEntry)
cancel_all [] = []
cancel_all ((name, f) ∷ fs) = (name, cancel_feed f f.task) ∷ cancel_all fs

-- The loop of `run` behind `await self._shutdown_event.wait()`. The sink's factory answers the
-- cancellation by an event, too.
unfoldable pub cancel_tasks : FeedSupervisor → FeedSupervisor
cancel_tasks s = record s { feeds = cancel_all s.feeds }

-- `asyncio.gather`: the tasks go on until each of them is done; to a task that is done nothing happens.
unfoldable pub gather : FeedSupervisor → List Event → FeedSupervisor
gather s [] = s
gather s (e ∷ es) = gather (step s e) es

-- The events that happen before the shutdown is seen, then those behind the cancellation; a run of which
-- a task is left waits on.
unfoldable pub run : FeedSupervisor → List Event → FeedSupervisor
run s [] = if s.shutdown then cancel_tasks s else s
run s (e ∷ es) =
    let rest = run (step s e) es in if s.shutdown then gather (cancel_tasks s) (e ∷ es) else rest
