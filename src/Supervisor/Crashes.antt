-- ===== src/Supervisor/Crashes.antt =====
-- What a crash does to a feed, and sequences of crashes.
use l2_orderbook_pipeline.Common.{
  ℕ, ◌+◌, ◌-◌, ◌≤◌, ◌<◌, List, [], ◌∷◌, ◌≡◌, refl, ap, ◌∙◌, arith, ltb, length, Bool-cases, inl,
  inr, ◌⊎◌,
}
use l2_orderbook_pipeline.Feeds.Connection.{RandomLike, full_jitter_delay, float_exponent_limit}
use l2_orderbook_pipeline.Supervisor.{
  running, restarting, permanently_failed, Task, serving, sleeping, ended, FeedEntry, Config,
  recent, fall_asleep, on_crash, FeedEvent, crashed, woke, task_step, feed_step,
}

-- A crash: the clock's reading and the draw.
abbrev pub Crash : Type 0
Crash = ℕ × RandomLike

-- Crashes of a feed, each but the last slept off.
unfoldable pub crashes : Config → FeedEntry → List Crash → FeedEntry
crashes c f [] = f
crashes c f ((now, rng) ∷ cs) = crashes c (feed_step c (feed_step c f (crashed now rng)) woke) cs

unfoldable pub events : Config → FeedEntry → List FeedEvent → FeedEntry
events c f [] = f
events c f (e ∷ es) = events c (feed_step c f e) es

abbrev pub times : List Crash → List ℕ
times [] = []
times ((now, rng) ∷ cs) = now ∷ times cs

-- A task that is done stays as it is.
task_step-ended :
    (c : Config) (f : FeedEntry) (t : Task) (e : FeedEvent) → t ≡ ended → task_step c f t e ≡ f
unfolding task_step
task_step-ended c f serving e h = cc
task_step-ended c f sleeping e h = cc
task_step-ended c f ended e h = refl

pub feed_step-ended :
    (c : Config) (f : FeedEntry) (e : FeedEvent) → f.task ≡ ended → feed_step c f e ≡ f
unfolding feed_step
feed_step-ended c f e h = task_step-ended c f f.task e h

pub ended-events :
    (c : Config) (f : FeedEntry) (es : List FeedEvent) → f.task ≡ ended → events c f es ≡ f
unfolding events
ended-events c f [] h = refl
ended-events c f (e ∷ es) h =
    ap (λ g. events c g es) (feed_step-ended c f e h) ∙ ended-events c f es h

pub ended-crashes :
    (c : Config) (f : FeedEntry) (cs : List Crash) → f.task ≡ ended → crashes c f cs ≡ f
unfolding crashes
ended-crashes c f [] h = refl
ended-crashes c f ((now, rng) ∷ cs) h =
    ap (λ g. crashes c (feed_step c g woke) cs) (feed_step-ended c f (crashed now rng) h)
    ∙ ap (λ g. crashes c g cs) (feed_step-ended c f woke h)
    ∙ ended-crashes c f cs h

pub feed_step-crashed :
    (c : Config) (f : FeedEntry) (now : ℕ) (rng : RandomLike)
    → f.task ≡ serving
    → feed_step c f (crashed now rng) ≡ on_crash c f now rng
unfolding feed_step task_step
feed_step-crashed c f now rng h = ap (λ t. task_step c f t (crashed now rng)) h

-- The entry before the delay is drawn.
abbrev pub restart : Config → FeedEntry → ℕ → FeedEntry
restart c f now = record f {
  restart_times = recent c.restart_window now f.restart_times;
  restart_count = f.restart_count + 1;
  state = restarting;
}

abbrev pub give_up : Config → FeedEntry → ℕ → FeedEntry
give_up c f now = record f {
  restart_times = recent c.restart_window now f.restart_times;
  state = permanently_failed;
  task = ended;
}

-- The three ways in which a crash is answered.
pub data Answer (c : Config) (f : FeedEntry) (now : ℕ) (rng : RandomLike) : Type 0 where
  gives_up :
      c.max_restarts < length (recent c.restart_window now f.restart_times)
      → on_crash c f now rng ≡ give_up c f now
      → Answer c f now rng
  dies :
      length (recent c.restart_window now f.restart_times) ≤ c.max_restarts
      → float_exponent_limit ≤ f.restart_count
      → on_crash c f now rng ≡ record (restart c f now) { task = ended }
      → Answer c f now rng
  sleeps :
      length (recent c.restart_window now f.restart_times) ≤ c.max_restarts
      → f.restart_count < float_exponent_limit
      → on_crash c f now rng ≡ record (restart c f now) { task = sleeping }
      → Answer c f now rng

pub answer : (c : Config) (f : FeedEntry) (now : ℕ) (rng : RandomLike) → Answer c f now rng
unfolding on_crash fall_asleep full_jitter_delay
answer c f now rng =
    elim (Bool-cases (ltb c.max_restarts (length (recent c.restart_window now f.restart_times)))) [
      | inl b ↦ gives_up (ground arith) (rw b refl)
      | inr b ↦ elim (Bool-cases (ltb (f.restart_count + 1 - 1) float_exponent_limit)) [
        | inl d ↦ sleeps (ground arith) (ground arith) (rw (b, d) refl)
        | inr d ↦ dies (ground arith) (ground arith) (rw (b, d) refl)
      ]
    ]

pub feed_step-woke :
    (c : Config) (f : FeedEntry)
    → feed_step c (record f { task = sleeping }) woke ≡ record f { state = running; task = serving }
unfolding feed_step task_step
feed_step-woke c f = refl

-- A crash and the wake behind it.
abbrev pub next : Config → FeedEntry → ℕ → RandomLike → FeedEntry
next c f now rng = feed_step c (feed_step c f (crashed now rng)) woke

-- The task is done, or it serves again with the crash in its books.
pub next-cases :
    (c : Config) (f : FeedEntry) (now : ℕ) (rng : RandomLike)
    → f.task ≡ serving
    → (next c f now rng).task ≡ ended
      ⊎ (next c f now rng ≡ record (restart c f now) { state = running; task = serving })
next-cases c f now rng h =
    let first = feed_step-crashed c f now rng h in
    elim (answer c f now rng) [
      | gives_up _ e ↦ inl (
          ap (λ g. (feed_step c g woke).task) (first ∙ e)
          ∙ ap (λ (g : FeedEntry). g.task) (feed_step-ended c (give_up c f now) woke refl))
      | dies _ _ e ↦ inl (
          ap (λ g. (feed_step c g woke).task) (first ∙ e)
          ∙ ap (λ (g : FeedEntry). g.task)
              (feed_step-ended c (record (restart c f now) { task = ended }) woke refl))
      | sleeps _ _ e ↦
          inr (ap (λ g. feed_step c g woke) (first ∙ e) ∙ feed_step-woke c (restart c f now))
    ]
