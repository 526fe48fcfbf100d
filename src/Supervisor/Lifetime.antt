-- ===== src/Supervisor/Lifetime.antt =====
-- The lifetime count of restarts, from which `_run_feed` draws its delays.
use l2_orderbook_pipeline.Common.{
  ℕ, ◌+◌, ◌-◌, ◌≤◌, List, [], ◌∷◌, ◌++◌, ◌≡◌, refl, sym, ap, ◌∙◌, subst, arith, ltb, length, filter,
  All,
}
use l2_orderbook_pipeline.Feeds.Connection.{float_exponent_limit}
use l2_orderbook_pipeline.Supervisor.{
  restarting, serving, ended, FeedEntry, FeedEvent, Config, new_feed, recent, woke, feed_step,
}
use l2_orderbook_pipeline.Supervisor.Crashes.{
  Crash, crashes, events, gives_up, dies, sleeps, answer, next, restart, ended-crashes,
  ended-events, feed_step-crashed, feed_step-ended, feed_step-woke,
}

-- Each crash comes at least a window after the one before.
abbrev pub Spaced : ℕ → ℕ → List Crash → Type 0
Spaced window before [] = Unit
Spaced window before ((now, rng) ∷ cs) = (before + window ≤ now) × Spaced window now cs

filter-old :
    (window before now : ℕ) (ts : List ℕ)
    → before + window ≤ now
    → All (λ t. t ≤ before) ts
    → filter (λ t. ltb (now - t) window) ts ≡ []
filter-old window before now [] h a = refl
filter-old window before now (t ∷ ts) h a =
    ground (arith, filter-old window before now ts h a.1, a.0)

-- Where a feed ends that dies of its restart count.
abbrev Dead : FeedEntry → Type 0
Dead f = (f.task ≡ ended) × (f.state ≡ restarting) × (f.restart_count ≡ float_exponent_limit + 1)

Dead-at_limit :
    (cs : List Crash) (c : Config) (f : FeedEntry) (before : ℕ)
    → 1 ≤ c.max_restarts
    → f.task ≡ serving
    → All (λ t. t ≤ before) f.restart_times
    → Spaced c.restart_window before cs
    → f.restart_count ≤ float_exponent_limit
    → f.restart_count + length cs ≡ float_exponent_limit + 1
    → Dead (crashes c f cs)
unfolding crashes
Dead-at_limit [] c f before m h old sp le n = absurd (omega arith)
Dead-at_limit ((now, rng) ∷ cs) c f before m h old sp le n =
    let none_recent = filter-old c.restart_window before now f.restart_times sp.0 old in
    let times : recent c.restart_window now f.restart_times ≡ now ∷ [] =
      ap (λ ts. ts ++ now ∷ []) none_recent in
    let one : length (recent c.restart_window now f.restart_times) ≡ 1 = ap length times in
    let first = feed_step-crashed c f now rng h in
    elim (answer c f now rng) [
      | gives_up k _ ↦ absurd (omega arith)
      | dies _ k e ↦
          let d = record (restart c f now) { task = ended } in
          let at : next c f now rng ≡ d =
            ap (λ g. feed_step c g woke) (first ∙ e) ∙ feed_step-ended c d woke refl in
          subst Dead (sym (ap (λ g. crashes c g cs) at ∙ ended-crashes c d cs refl))
            (refl, refl, omega arith)
      | sleeps _ k e ↦
          let at = ap (λ g. feed_step c g woke) (first ∙ e) ∙ feed_step-woke c (restart c f now) in
          subst Dead (sym (ap (λ g. crashes c g cs) at)) (
            Dead-at_limit cs c _ now m refl
              (subst (All (λ t. t ≤ now)) (sym times) (omega arith, tt)) sp.1 (omega arith)
              (omega arith))
    ]

-- A feed that crashes 1025 times, each time at least a window after the crash before, so that it never
-- has two crashes in one window, is not restarted after the last, although the budget allows at
-- least one restart in a window: its task is done, its state says that it is restarting, and
-- nothing that happens changes that.
pub slow_crashes_kill :
    (c : Config) (cs : List Crash) (es : List FeedEvent)
    → 1 ≤ c.max_restarts
    → Spaced c.restart_window 0 cs
    → length cs ≡ float_exponent_limit + 1
    → let f = events c (crashes c new_feed cs) es in (f.task ≡ ended) × (f.state ≡ restarting)
slow_crashes_kill c cs es m sp n =
    let d = Dead-at_limit cs c new_feed 0 m refl tt sp (omega arith) (omega arith) in
    let e = ended-events c (crashes c new_feed cs) es d.0 in
    (ap (λ (f : FeedEntry). f.task) e ∙ d.0, ap (λ (f : FeedEntry). f.state) e ∙ d.1)
