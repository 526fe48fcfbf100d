-- ===== src/Feeds/Binance/Client/Budget.antt =====
-- The reconnect budget of `BinanceFeedClient`.
use Prim.Native.String.{String}
use l2_orderbook_pipeline.Common.{
  ℕ, zero, suc, ◌<◌, ◌≤◌, List, [], ◌∷◌, Option, none, some, ◌≡◌, refl, sym, ap, ◌⊎◌, ◌∙◌, arith,
  Bool, true, false, Bool-cases, inl, inr, if◌then◌else◌,
}
use l2_orderbook_pipeline.Common.Int.{ℤ}
use l2_orderbook_pipeline.Book.Types.{
  DiffEvent, ApplyStatus, applied, buffered, gap_detected, snapshot_stale,
}
use l2_orderbook_pipeline.Book.Engine.{BookEngine, is_live, apply_event, load_snapshot}
use l2_orderbook_pipeline.Feeds.Connection
use l2_orderbook_pipeline.Feeds.Connection.{
  ConnectionManager, BackoffPolicy, RandomLike, float_exponent_limit, on_connecting, on_connected,
  on_disconnected, message_received,
}
use l2_orderbook_pipeline.Feeds.Connection.Episodes.{disconnected-attempt, message_received-attempt}
use l2_orderbook_pipeline.Feeds.Json.{Json, Fields, Numerals}
use l2_orderbook_pipeline.Feeds.Binance.{
  FetchResult, fetched, retry_limit_exceeded, raised, raise_if_reconnect_budget_exhausted,
}
use l2_orderbook_pipeline.Feeds.Binance.Parsing.{extract_ts_exchange_ms}
use l2_orderbook_pipeline.Feeds.Binance.Client.{
  BinanceFeedClient, Phase, between, dialing, reading, over, Worker, waiting, fetching, dead,
  cancelled, cancel, await_worker, RunError, budget_exhausted, overflow_error, worker_error,
  Receipt, Outcome, count, queue_row, publish_to, on_status, on_diff, back_off, lose, unless_raised,
  give_up, retry, worker_end, on_load, on_fetch, wake, init,
}
use l2_orderbook_pipeline.Feeds.Binance.Client.Run.{
  Event, dial, up, message, timed_out, dropped, worker_wakes, fetch_done, connect, worker_step,
  is_worker_event, read, on_read, receive, run_step, step, run,
}
use l2_orderbook_pipeline.Feeds.Binance.Client.Blames.{Blames, run-Blames}
use l2_orderbook_pipeline.Feeds.Binance.Client.Reads.{is_worker_error, receive-Reads}
use l2_orderbook_pipeline.Sinks.Queue.{BoundedRowQueue}
use l2_orderbook_pipeline.Sinks.Rows.{SnapshotRow}

abbrev pub is_over : Phase → Bool
is_over (over e) = true
is_over between = false
is_over dialing = false
is_over reading = false

-- Whether `run` ended by the `OverflowError` of a delay.
abbrev pub is_overflow : Phase → Bool
is_overflow (over overflow_error) = true
is_overflow _ = false

await-is_overflow :
    (w : Worker) → is_overflow (over (await_worker (cancel w) budget_exhausted)) ≡ false
await-is_overflow waiting = refl
await-is_overflow (fetching n) = refl
await-is_overflow dead = refl
await-is_overflow cancelled = refl

-- Without an overflow, `run` ended by its own exception or by that of its dead worker.
ended_by :
    (c : BinanceFeedClient)
    → is_overflow c.phase ≡ false
    → Blames c
    → (e : RunError) → c.phase ≡ over e
    → (e ≡ budget_exhausted) ⊎ ((e ≡ worker_error) × (c.worker ≡ dead))
ended_by c h b budget_exhausted p = inl refl
ended_by c h b worker_error p = inr (refl, b (ap is_worker_error p))
ended_by c h b overflow_error p = (let k = sym (ap is_overflow p) ∙ h in cc)

-- The loop goes on while the budget lasts, and only so long.
abbrev pub InBudget : BinanceFeedClient → Type 0
InBudget c =
    (c.max_consecutive_reconnect_failures ≤ float_exponent_limit)
    × (is_over c.phase ≡ false → c.connection.attempt < c.max_consecutive_reconnect_failures)
    × (is_over c.phase ≡ true → c.max_consecutive_reconnect_failures ≤ c.connection.attempt)
    × (is_overflow c.phase ≡ false)

publish_to-InBudget :
    (c : BinanceFeedClient) (r : Receipt) (ts : Option ℤ) (o : Option (BoundedRowQueue SnapshotRow))
    → InBudget c
    → InBudget (publish_to c r ts o).0
unfolding publish_to queue_row
publish_to-InBudget c r ts none b = b
publish_to-InBudget c r ts (some q) b = ground arith

on_status-InBudget :
    (c : BinanceFeedClient) (r : Receipt) (ts : Option ℤ) (st : ApplyStatus)
    → InBudget c
    → InBudget (on_status c r ts st).0
unfolding on_status
on_status-InBudget c r ts applied b = publish_to-InBudget c r ts c.row_queue b
on_status-InBudget c r ts buffered b = b
on_status-InBudget c r ts gap_detected b = b
on_status-InBudget c r ts snapshot_stale b = b

on_diff-InBudget :
    (c : BinanceFeedClient) (r : Receipt) (e : DiffEvent) (ts : Option (Option ℤ))
    → InBudget c
    → InBudget (on_diff c r e ts).0
unfolding on_diff
on_diff-InBudget c r e none b = b
on_diff-InBudget c r e (some ts) b =
    on_status-InBudget (record c { engine = (apply_event c.engine e).0 }) r ts
      (apply_event c.engine e).1 b

back_off-InBudget :
    (c : BinanceFeedClient) (delay : ℕ)
    → c.max_consecutive_reconnect_failures ≤ float_exponent_limit
    → InBudget (back_off c (some delay))
unfolding back_off raise_if_reconnect_budget_exhausted
back_off-InBudget c delay f =
    elim (Bool-cases
      (raise_if_reconnect_budget_exhausted c.connection c.max_consecutive_reconnect_failures)) [
        | inl h ↦ rw h (f, λ k. cc, λ k. ground arith, await-is_overflow c.worker)
        | inr h ↦ rw h (f, λ k. ground arith, λ k. cc, refl)
      ]

lose-InBudget :
    (key : String) (now : ℕ) (rng : RandomLike) (c : BinanceFeedClient)
    → is_over c.phase ≡ false
    → InBudget c
    → InBudget (lose key now rng c)
unfolding lose
lose-InBudget key now rng c o b =
    let f = b.1 o in
    let (delay, e, k) = disconnected-attempt c.connection now rng (omega (arith, b.0)) in
    rw e (
      back_off-InBudget
        (record (count key c) { connection = (on_disconnected c.connection now rng).0 }) delay b.0)

unless_raised-InBudget :
    (now : ℕ) (rng : RandomLike) (o : Outcome)
    → is_over o.0.phase ≡ false
    → InBudget o.0
    → InBudget (unless_raised now rng o)
unfolding unless_raised
unless_raised-InBudget now rng (c, false) o b = b
unless_raised-InBudget now rng (c, true) o b = lose-InBudget "ws_disconnected" now rng c o b

retry-InBudget : (n : ℕ) (c : BinanceFeedClient) → InBudget c → InBudget (retry n c)
unfolding retry give_up
retry-InBudget zero c b = b
retry-InBudget (suc n) c b = b

worker_end-InBudget : (o : Outcome) → InBudget o.0 → InBudget (worker_end o)
unfolding worker_end
worker_end-InBudget (c, false) b = b
worker_end-InBudget (c, true) b = b

on_load-InBudget :
    (c : BinanceFeedClient) (n : ℕ) (r : Receipt) (o : Option (BookEngine × ApplyStatus))
    → InBudget c
    → InBudget (on_load c n r o)
unfolding on_load
on_load-InBudget c n r none b = b
on_load-InBudget c n r (some (e, applied)) b =
    let m = record (count "resync_completed" c) { engine = e } in
    worker_end-InBudget (publish_to m r none m.row_queue)
      (publish_to-InBudget m r none m.row_queue b)
on_load-InBudget c n r (some (e, gap_detected)) b =
    retry-InBudget n (record (count "gap_detected" c) { engine = e }) b
on_load-InBudget c n r (some (e, snapshot_stale)) b =
    retry-InBudget n (record (count "snapshot_stale_retry" c) { engine = e }) b
on_load-InBudget c n r (some (e, buffered)) b =
    retry-InBudget n (record (count "snapshot_stale_retry" c) { engine = e }) b

on_fetch-InBudget :
    (c : BinanceFeedClient) (n : ℕ) (r : Receipt) (f : FetchResult)
    → InBudget c
    → InBudget (on_fetch c n r f)
unfolding on_fetch give_up
on_fetch-InBudget c n r (fetched snap) b = on_load-InBudget c n r (load_snapshot c.engine snap) b
on_fetch-InBudget c n r retry_limit_exceeded b = b
on_fetch-InBudget c n r raised b = b

wake-InBudget : (c : BinanceFeedClient) (w : Bool) → InBudget c → InBudget (if w then wake c else c)
unfolding wake
wake-InBudget c false b = b
wake-InBudget c true b = elim (Bool-cases (is_live c.engine.state)) [
  | inl l ↦ rw l b
  | inr l ↦ rw l (
      retry-InBudget c.snapshot_retry_limit
        (record c { resync_needed = false; buffered_since_resync = 0 }) b)
]

worker_step-InBudget :
    (c : BinanceFeedClient) (w : Worker) (e : Event) → InBudget c → InBudget (worker_step c w e)
unfolding worker_step
worker_step-InBudget c waiting worker_wakes b = wake-InBudget c c.resync_needed b
worker_step-InBudget c (fetching n) (fetch_done r f) b = on_fetch-InBudget c n r f b
worker_step-InBudget c _ _ b = b

module _ (py : Numerals) where
  on_read-InBudget :
      (c : BinanceFeedClient) (r : Receipt) (o : Option (Fields × DiffEvent))
      → InBudget c
      → InBudget (on_read py c r o).0
  unfolding on_read
  on_read-InBudget c r none b = b
  on_read-InBudget c r (some (fields, diff)) b =
      on_diff-InBudget c r diff (extract_ts_exchange_ms py fields) b

  receive-InBudget :
      (c : BinanceFeedClient) (r : Receipt) (raw : Option Json)
      → is_over c.phase ≡ false
      → InBudget c
      → InBudget (receive py c r raw).0
  unfolding receive
  receive-InBudget c r raw o b =
      on_read-InBudget
        (record (count "messages_received" c) { connection = message_received c.connection }) r
        (read py raw)
        (
          b.0,
          λ k. (let f = b.1 k in omega (arith, message_received-attempt c.connection)),
          λ k. cc,
          b.3,
        )

  message-InBudget :
      (c : BinanceFeedClient) (r : Receipt) (raw : Option Json) (now : ℕ) (rng : RandomLike)
      → is_over c.phase ≡ false
      → InBudget c
      → InBudget (unless_raised now rng (receive py c r raw))
  message-InBudget c r raw now rng o b =
      unless_raised-InBudget now rng (receive py c r raw)
        (ap is_over (receive-Reads py c r raw).phase_same ∙ o) (receive-InBudget c r raw o b)

  connect-InBudget :
      (c : BinanceFeedClient) (now : ℕ)
      → is_over c.phase ≡ false
      → InBudget c
      → InBudget (connect c now)
  unfolding connect on_connected
  connect-InBudget c now o b = (b.0, λ k. b.1 o, λ k. cc, refl)

  run_step-InBudget :
      (c : BinanceFeedClient) (ph : Phase) (e : Event)
      → c.phase ≡ ph
      → InBudget c
      → InBudget (run_step py c ph e)
  unfolding run_step on_connecting
  run_step-InBudget c between dial p b = (b.0, λ k. b.1 (ap is_over p), λ k. cc, refl)
  run_step-InBudget c dialing (up now) p b = connect-InBudget c now (ap is_over p) b
  run_step-InBudget c dialing (timed_out now rng) p b =
      lose-InBudget "watchdog_tripped" now rng c (ap is_over p) b
  run_step-InBudget c dialing (dropped now rng) p b =
      lose-InBudget "ws_disconnected" now rng c (ap is_over p) b
  run_step-InBudget c reading (message r raw now rng) p b =
      message-InBudget c r raw now rng (ap is_over p) b
  run_step-InBudget c reading (timed_out now rng) p b =
      lose-InBudget "watchdog_tripped" now rng c (ap is_over p) b
  run_step-InBudget c reading (dropped now rng) p b =
      lose-InBudget "ws_disconnected" now rng c (ap is_over p) b
  run_step-InBudget c _ _ p b = b

  steps-InBudget : (es : List Event) (c : BinanceFeedClient) → InBudget c → InBudget (run py c es)
  unfolding run step
  steps-InBudget [] c b = b
  steps-InBudget (e ∷ es) c b =
      steps-InBudget es (step py c e) (elim (Bool-cases (is_worker_event e)) [
        | inl h ↦ rw (h, step) (worker_step-InBudget c c.worker e b)
        | inr h ↦ rw (h, step) (run_step-InBudget c c.phase e refl b)
      ])

  -- Over any events, with a reconnect budget of which no delay overflows, `run` ends exactly when the
  -- consecutive reconnect failures reach the budget; and it raises `ReconnectBudgetExhausted` then, or, if its
  -- resync worker has died, the worker's exception in place of it, and nothing else.
  pub budget_ends_run :
      (symbol : String) (retries failures : ℕ) (engine : BookEngine) (policy : BackoffPolicy)
      (q : Option (BoundedRowQueue SnapshotRow)) (es : List Event)
      → 0 < failures
      → failures ≤ float_exponent_limit
      → let c = run py (init symbol retries failures engine policy q) es in
        (is_over c.phase ≡ false → c.connection.attempt < c.max_consecutive_reconnect_failures)
        × (is_over c.phase ≡ true → c.max_consecutive_reconnect_failures ≤ c.connection.attempt)
        × ((e : RunError)
            → c.phase ≡ over e
            → (e ≡ budget_exhausted) ⊎ ((e ≡ worker_error) × (c.worker ≡ dead)))
  unfolding init Connection.init
  budget_ends_run symbol retries failures engine policy q es f l =
      let start = init symbol retries failures engine policy q in
      let b = steps-InBudget es start (l, λ k. f, λ k. cc, refl) in
      (b.1, b.2, ended_by (run py start es) b.3 (run-Blames py es start (λ k. cc)))
