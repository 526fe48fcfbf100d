-- ===== src/Feeds/Okx/Client/Bounds.antt =====
-- How often `OKXFeedClient` tries to resynchronise on a connection, and to connect, over any events.
use Prim.Native.String.{String}
use l2_orderbook_pipeline.Common.{
  ℕ, ◌<◌, ◌≤◌, List, [], ◌∷◌, Option, ◌≡◌, refl, sym, ap, ◌∙◌, arith, Bool, true, false, Bool-cases,
  inl, inr, if◌then◌else◌,
}
use l2_orderbook_pipeline.Book.Engine.{BookEngine}
use l2_orderbook_pipeline.Feeds.Connection
use l2_orderbook_pipeline.Feeds.Connection.{
  ConnectionManager, BackoffPolicy, RandomLike, float_exponent_limit, on_connecting, on_connected,
}
use l2_orderbook_pipeline.Feeds.Json.{Numerals}
use l2_orderbook_pipeline.Feeds.RateLimit.{
  TokenBucket, asking-rate, tokens-le-capacity, time_until_available,
}
use l2_orderbook_pipeline.Feeds.Okx.Client.{
  OkxFeedClient, RunError, budget_exhausted, over, Sent, Phase, between, dialing, subscribing,
  reading, pinging, sleeping, Worker, waiting, throttled, unsubscribing, resubscribing, handle,
  wake, request, sends, init,
}
use l2_orderbook_pipeline.Feeds.Okx.Client.Messages.{Receipt, Message, receive}
use l2_orderbook_pipeline.Feeds.Okx.Client.Run.{
  Event, dial, opened, subscribed, message, slept, timed_out, dropped, worker_wakes,
  worker_acquires, worker_sends, connect, start, worker_step, is_worker_event, run_step, step, run,
}
use l2_orderbook_pipeline.Feeds.Okx.Client.Within.{Within, is_dead, receive-Within}
use l2_orderbook_pipeline.Feeds.Okx.Client.Resync.{
  is_open, is_up, is_over, Bounded, ended_otherwise, ended_by_budget, handle-Bounded, lost-Bounded,
}
use l2_orderbook_pipeline.Sinks.Queue.{BoundedRowQueue}
use l2_orderbook_pipeline.Sinks.Rows.{SnapshotRow}

-- A call that changes nothing that is bounded.
pub record SameBounds (c d : OkxFeedClient) : Type 0 where
  pub phase_same : d.phase ≡ c.phase
  pub ws_same : d.current_ws ≡ c.current_ws
  pub closed_same : d.closed ≡ c.closed
  pub count_same : d.snapshot_retry_count ≡ c.snapshot_retry_count
  pub limit_same : d.snapshot_retry_limit ≡ c.snapshot_retry_limit
  pub failures_same : d.max_consecutive_reconnect_failures ≡ c.max_consecutive_reconnect_failures
  pub connection_same : d.connection ≡ c.connection
  pub dials_same : d.connection_bucket ≡ c.connection_bucket
  pub refills_same : d.resubscribe_bucket.refill_rate ≡ c.resubscribe_bucket.refill_rate
  pub stays_alive :
      0 < c.resubscribe_bucket.refill_rate → is_dead c.worker ≡ false → is_dead d.worker ≡ false

same-Bounded : (c d : OkxFeedClient) → SameBounds c d → Bounded c → Bounded d
same-Bounded c d s b = record {
  retries_pos = ground (arith, s.limit_same, b.retries_pos);
  delays_finite = ground (arith, s.failures_same, b.delays_finite);
  has_ws = λ k. s.ws_same ∙ b.has_ws (ap is_open (sym s.phase_same) ∙ k);
  few_resyncs = λ k l.
      let f = b.few_resyncs (ap is_up (sym s.phase_same) ∙ k) (sym s.closed_same ∙ l) in
      ground (arith, s.count_same, s.limit_same);
  few_failures = λ k.
      let f = b.few_failures (ap is_over (sym s.phase_same) ∙ k) in
      ground (arith, s.failures_same, ap (λ (m : ConnectionManager). m.attempt) s.connection_same);
  exhausted = λ k.
      let f = b.exhausted (ap is_over (sym s.phase_same) ∙ k) in
      ground (arith, s.failures_same, ap (λ (m : ConnectionManager). m.attempt) s.connection_same);
  dials = ground (arith, ap (λ (b : TokenBucket). b.refill_rate) s.dials_same, b.dials);
  resubscribes = ground (arith, s.refills_same, b.resubscribes);
  alive = s.stays_alive b.resubscribes b.alive;
  ends_well = ap ended_otherwise s.phase_same ∙ b.ends_well;
}

unchanged :
    (c : OkxFeedClient) (w : Worker) (bucket : TokenBucket) (sent : List Sent)
    → bucket.refill_rate ≡ c.resubscribe_bucket.refill_rate
    → (is_dead c.worker ≡ false → is_dead w ≡ false)
    → SameBounds c (record c { worker = w; resubscribe_bucket = bucket; sent = sent })
unchanged c w bucket sent e a = record {
  dials_same = refl;
  refills_same = e;
  stays_alive = λ p. a;
  phase_same = refl;
  ws_same = refl;
  closed_same = refl;
  count_same = refl;
  limit_same = refl;
  failures_same = refl;
  connection_same = refl;
}

wake-SameBounds :
    (c : OkxFeedClient) (b : Bool) (cost now : ℕ) → SameBounds c (if b then wake c cost now else c)
unfolding wake
wake-SameBounds c false cost now = unchanged c _ _ _ refl (λ h. h)
wake-SameBounds c true cost now = record {
  dials_same = ground arith;
  refills_same = ground (arith, asking-rate c.resubscribe_bucket cost now);
  stays_alive = λ p a. ground (arith, (asking-rate c.resubscribe_bucket cost now).1 p);
  phase_same = ground arith;
  ws_same = ground arith;
  closed_same = ground arith;
  count_same = ground arith;
  limit_same = ground arith;
  failures_same = ground arith;
  connection_same = ground arith;
}

sends-SameBounds : (c : OkxFeedClient) (w : Worker) (ok : Bool) → SameBounds c (sends c w ok)
unfolding sends
sends-SameBounds c unsubscribing true = unchanged c _ _ _ refl (λ h. refl)
sends-SameBounds c unsubscribing false = unchanged c _ _ _ refl (λ h. refl)
sends-SameBounds c resubscribing true = unchanged c _ _ _ refl (λ h. refl)
sends-SameBounds c resubscribing false = unchanged c _ _ _ refl (λ h. refl)
sends-SameBounds c _ ok = unchanged c _ _ _ refl (λ h. h)

worker_step-SameBounds :
    (c : OkxFeedClient) (w : Worker) (e : Event) → SameBounds c (worker_step c w e)
unfolding worker_step request
worker_step-SameBounds c waiting (worker_wakes cost now) =
    wake-SameBounds c c.resync_needed cost now
worker_step-SameBounds c throttled (worker_acquires cost now) =
    unchanged c _ _ _ (tokens-le-capacity c.resubscribe_bucket cost now).2 (λ h. ground arith)
worker_step-SameBounds c w (worker_sends ok) = sends-SameBounds c w ok
worker_step-SameBounds c _ _ = unchanged c _ _ _ refl (λ h. h)

-- A step inside the connection's life: what has to be said of the new phase.
dialed-Bounded :
    (c d : OkxFeedClient)
    → Bounded c
    → is_over c.phase ≡ false
    → is_up d.phase ≡ false
    → is_over d.phase ≡ false
    → (is_open d.phase ≡ true → d.current_ws ≡ true)
    → d.snapshot_retry_limit ≡ c.snapshot_retry_limit
    → d.max_consecutive_reconnect_failures ≡ c.max_consecutive_reconnect_failures
    → d.connection.attempt ≡ c.connection.attempt
    → d.connection_bucket.refill_rate ≡ c.connection_bucket.refill_rate
    → d.resubscribe_bucket.refill_rate ≡ c.resubscribe_bucket.refill_rate
    → d.worker ≡ c.worker
    → ended_otherwise d.phase ≡ false
    → Bounded d
dialed-Bounded c d b o u v w l f a i j k z = record {
  dials = ground (arith, b.dials);
  resubscribes = ground (arith, b.resubscribes);
  alive = ap is_dead k ∙ b.alive;
  ends_well = z;
  retries_pos = ground (arith, b.retries_pos);
  delays_finite = ground (arith, b.delays_finite);
  has_ws = w;
  few_resyncs = λ k m. cc;
  few_failures = λ k. (let g = b.few_failures o in ground arith);
  exhausted = λ k. cc;
}

connect-Bounded :
    (c : OkxFeedClient) (now : ℕ) → c.phase ≡ subscribing → Bounded c → Bounded (connect c now)
unfolding connect on_connected
connect-Bounded c now e b = record {
  dials = b.dials;
  resubscribes = b.resubscribes;
  alive = b.alive;
  ends_well = refl;
  retries_pos = b.retries_pos;
  delays_finite = b.delays_finite;
  has_ws = λ k. b.has_ws (ap is_open e);
  few_resyncs = λ k l. b.retries_pos;
  few_failures = λ k. b.few_failures (ap is_over e);
  exhausted = λ k. cc;
}

start-Bounded :
    (c : OkxFeedClient) (cost asked_at acquired_at : ℕ)
    → c.phase ≡ between
    → Bounded c
    → Bounded (start c cost asked_at acquired_at)
unfolding start on_connecting
start-Bounded c cost asked_at acquired_at p b =
    let asked = asking-rate c.connection_bucket cost asked_at in
    rw (asked.1 b.dials) (
      dialed-Bounded c _ b (ap is_over p) refl refl (λ k. cc) refl refl refl
        ((tokens-le-capacity (time_until_available c.connection_bucket cost asked_at).0 cost
            acquired_at).2
          ∙ asked.0)
        refl refl refl)

reading-Within :
    (c : OkxFeedClient) (ph : Phase)
    → c.phase ≡ ph
    → is_up ph ≡ true
    → is_open ph ≡ true
    → is_over ph ≡ false
    → Bounded c
    → Within (record c { phase = reading })
reading-Within c ph e u o v b = (
  refl,
  b.has_ws (ap is_open e ∙ o),
  b.retries_pos,
  b.few_resyncs (ap is_up e ∙ u),
  b.few_failures (ap is_over e ∙ v),
  b.delays_finite,
  b.dials,
  b.resubscribes,
  b.alive,
)

module _ (py : Numerals) where
  message-Bounded :
      (c : OkxFeedClient) (r : Receipt) (m : Message) (now : ℕ) (rng : RandomLike)
      → Within c
      → Bounded (handle now rng (receive py c r m))
  message-Bounded c r m now rng w =
      handle-Bounded now rng (receive py c r m) (receive-Within py c r m w)

  run_step-Bounded :
      (c : OkxFeedClient) (ph : Phase) (e : Event)
      → c.phase ≡ ph
      → Bounded c
      → Bounded (run_step py c ph e)
  unfolding run_step handle
  run_step-Bounded c between (dial cost asked_at acquired_at) p b =
      start-Bounded c cost asked_at acquired_at p b
  run_step-Bounded c dialing opened p b =
      dialed-Bounded c _ b (ap is_over p) refl refl (λ k. refl) refl refl refl refl refl refl refl
  run_step-Bounded c dialing (timed_out now rng) p b =
      lost-Bounded "watchdog_tripped" now rng c dialing p refl b
  run_step-Bounded c dialing (dropped now rng) p b =
      lost-Bounded "ws_disconnected" now rng c dialing p refl b
  run_step-Bounded c subscribing (subscribed now) p b = connect-Bounded c now p b
  run_step-Bounded c subscribing (timed_out now rng) p b =
      lost-Bounded "watchdog_tripped" now rng c subscribing p refl b
  run_step-Bounded c subscribing (dropped now rng) p b =
      lost-Bounded "ws_disconnected" now rng c subscribing p refl b
  run_step-Bounded c reading (message r m now rng) p b =
      let w = reading-Within c reading p refl refl refl b in
      message-Bounded c r m now rng (p, w.1, w.2, w.3, w.4, w.5, w.6, w.7, w.8)
  run_step-Bounded c reading (timed_out now rng) p b = record {
    retries_pos = b.retries_pos;
    delays_finite = b.delays_finite;
    has_ws = λ k. b.has_ws (ap is_open p);
    few_resyncs = λ k. b.few_resyncs (ap is_up p);
    few_failures = λ k. b.few_failures (ap is_over p);
    exhausted = λ k. cc;
    dials = b.dials;
    resubscribes = b.resubscribes;
    alive = b.alive;
    ends_well = refl;
  }
  run_step-Bounded c reading (dropped now rng) p b =
      lost-Bounded "ws_disconnected" now rng c reading p refl b
  run_step-Bounded c pinging (message r m now rng) p b =
      message-Bounded (record c { phase = reading }) r m now rng
        (reading-Within c pinging p refl refl refl b)
  run_step-Bounded c pinging (timed_out now rng) p b =
      lost-Bounded "watchdog_tripped" now rng c pinging p refl b
  run_step-Bounded c pinging (dropped now rng) p b =
      lost-Bounded "ws_disconnected" now rng c pinging p refl b
  run_step-Bounded c sleeping slept p b =
      dialed-Bounded c _ b (ap is_over p) refl refl (λ k. cc) refl refl refl refl refl refl refl
  run_step-Bounded c _ _ p b = b

  steps-Bounded : (es : List Event) (c : OkxFeedClient) → Bounded c → Bounded (run py c es)
  unfolding run step
  steps-Bounded [] c b = b
  steps-Bounded (e ∷ es) c b =
      steps-Bounded es (step py c e) (elim (Bool-cases (is_worker_event e)) [
        | inl h ↦
            rw (h, step)
              (same-Bounded c (worker_step c c.worker e) (worker_step-SameBounds c c.worker e) b)
        | inr h ↦ rw (h, step) (run_step-Bounded c c.phase e refl b)
      ])

  init-Bounded :
      (symbol : String) (retries failures : ℕ) (engine : BookEngine) (policy : BackoffPolicy)
      (resubscribe_bucket connection_bucket : TokenBucket)
      (q : Option (BoundedRowQueue SnapshotRow))
      → 0 < retries
      → 0 < failures
      → failures ≤ float_exponent_limit
      → 0 < resubscribe_bucket.refill_rate
      → 0 < connection_bucket.refill_rate
      → Bounded (init symbol retries failures engine policy resubscribe_bucket connection_bucket q)
  unfolding init Connection.init
  init-Bounded symbol retries failures engine policy resubscribe_bucket connection_bucket q r f l i
        j =
      record {
        dials = j;
        resubscribes = i;
        alive = refl;
        ends_well = refl;
        retries_pos = r;
        delays_finite = l;
        has_ws = λ k. cc;
        few_resyncs = λ k m. cc;
        few_failures = λ k. f;
        exhausted = λ k. cc;
      }

  -- Over any events, with a limit on resyncs, a reconnect budget of which no delay overflows, and buckets
  -- that refill: on a connection that the client has not closed, fewer resyncs in a row have failed than the
  -- limit; and `run` ends exactly when the consecutive reconnect failures reach the budget, with
  -- `ReconnectBudgetExhausted` and no other exception.
  pub okx_bounds :
      (symbol : String) (retries failures : ℕ) (engine : BookEngine) (policy : BackoffPolicy)
      (resubscribe_bucket connection_bucket : TokenBucket)
      (q : Option (BoundedRowQueue SnapshotRow)) (es : List Event)
      → 0 < retries
      → 0 < failures
      → failures ≤ float_exponent_limit
      → 0 < resubscribe_bucket.refill_rate
      → 0 < connection_bucket.refill_rate
      → let c =
          run py
            (init symbol retries failures engine policy resubscribe_bucket connection_bucket q)
            es in
        (is_up c.phase ≡ true → c.closed ≡ false → c.snapshot_retry_count < c.snapshot_retry_limit)
        × (is_over c.phase ≡ false → c.connection.attempt < c.max_consecutive_reconnect_failures)
        × (is_over c.phase ≡ true → c.max_consecutive_reconnect_failures ≤ c.connection.attempt)
        × ((e : RunError) → c.phase ≡ over e → e ≡ budget_exhausted)
  okx_bounds symbol retries failures engine policy resubscribe_bucket connection_bucket q es r f l i
        j =
      let b =
        steps-Bounded es
          (init symbol retries failures engine policy resubscribe_bucket connection_bucket q)
          (init-Bounded symbol retries failures engine policy resubscribe_bucket connection_bucket q
            r f l i j) in
      (b.few_resyncs, b.few_failures, b.exhausted, ended_by_budget _ b.ends_well)
