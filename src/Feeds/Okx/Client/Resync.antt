-- ===== src/Feeds/Okx/Client/Resync.antt =====
-- How often `OKXFeedClient` tries to resynchronise on a connection, and to connect: what bounds it, and what
-- a lost connection leaves of it.
use Prim.Native.String.{String}
use l2_orderbook_pipeline.Common.{
  ℕ, ◌<◌, ◌≤◌, some, ◌≡◌, refl, sym, ap, ◌∙◌, arith, Bool, true, false, Bool-cases, inl, inr,
}
use l2_orderbook_pipeline.Feeds.Connection.{RandomLike, on_disconnected}
use l2_orderbook_pipeline.Feeds.Okx.Client.{
  RunError, budget_exhausted, overflow_error, zero_division, worker_error, Worker, dead, cancel,
  await_worker, OkxFeedClient, Phase, subscribing, reading, pinging, over, returned, notice, raised,
  Outcome, count, back_off, disconnect, handle,
}
use l2_orderbook_pipeline.Feeds.Connection.Episodes.{disconnected-attempt}
use l2_orderbook_pipeline.Feeds.Okx.Client.Within.{Within, is_dead}
use l2_orderbook_pipeline.Feeds.Okx.Client.{raise_if_reconnect_budget_exhausted}
use l2_orderbook_pipeline.Feeds.Connection.{float_exponent_limit}

-- From the handshake's end on, the websocket is there; once subscribed, the loop reads.
abbrev pub is_open : Phase → Bool
is_open subscribing = true
is_open reading = true
is_open pinging = true
is_open _ = false

abbrev pub is_up : Phase → Bool
is_up reading = true
is_up pinging = true
is_up _ = false

abbrev pub is_over : Phase → Bool
is_over (over e) = true
is_over _ = false

-- Whether `run` ended by another exception than `ReconnectBudgetExhausted`.
abbrev pub ended_otherwise : Phase → Bool
ended_otherwise (over budget_exhausted) = false
ended_otherwise (over e) = true
ended_otherwise _ = false

await-budget :
    (w : Worker)
    → is_dead w ≡ false
    → ended_otherwise (over (await_worker (cancel w) budget_exhausted)) ≡ false
await-budget dead h = cc
await-budget _ h = refl

cancel-alive : (w : Worker) → is_dead w ≡ false → is_dead (cancel w) ≡ false
cancel-alive dead h = h
cancel-alive _ h = refl

pub ended_by_budget :
    (ph : Phase) → ended_otherwise ph ≡ false → (e : RunError) → ph ≡ over e → e ≡ budget_exhausted
ended_by_budget ph h budget_exhausted p = refl
ended_by_budget ph h overflow_error p = (let k = sym (ap ended_otherwise p) ∙ h in cc)
ended_by_budget ph h zero_division p = (let k = sym (ap ended_otherwise p) ∙ h in cc)
ended_by_budget ph h worker_error p = (let k = sym (ap ended_otherwise p) ∙ h in cc)

pub record Bounded (c : OkxFeedClient) : Type 0 where
  pub retries_pos : 0 < c.snapshot_retry_limit
  pub delays_finite : c.max_consecutive_reconnect_failures ≤ float_exponent_limit
  pub has_ws : is_open c.phase ≡ true → c.current_ws ≡ true
  pub few_resyncs :
      is_up c.phase ≡ true → c.closed ≡ false → c.snapshot_retry_count < c.snapshot_retry_limit
  pub few_failures :
      is_over c.phase ≡ false → c.connection.attempt < c.max_consecutive_reconnect_failures
  pub exhausted :
      is_over c.phase ≡ true → c.max_consecutive_reconnect_failures ≤ c.connection.attempt
  pub dials : 0 < c.connection_bucket.refill_rate
  pub resubscribes : 0 < c.resubscribe_bucket.refill_rate
  pub alive : is_dead c.worker ≡ false
  pub ends_well : ended_otherwise c.phase ≡ false

back_off-Bounded :
    (c : OkxFeedClient) (delay : ℕ)
    → 0 < c.snapshot_retry_limit
    → c.max_consecutive_reconnect_failures ≤ float_exponent_limit
    → 0 < c.connection_bucket.refill_rate
    → 0 < c.resubscribe_bucket.refill_rate
    → is_dead c.worker ≡ false
    → Bounded (back_off c (some delay))
unfolding back_off raise_if_reconnect_budget_exhausted
back_off-Bounded c delay p f i j a =
    elim (Bool-cases
      (raise_if_reconnect_budget_exhausted c.connection c.max_consecutive_reconnect_failures)) [
        | inl h ↦ rw h (record {
          retries_pos = p;
          delays_finite = f;
          has_ws = λ k. cc;
          few_resyncs = λ k l. cc;
          few_failures = λ k. cc;
          exhausted = λ k. ground arith;
          dials = i;
          resubscribes = j;
          alive = cancel-alive c.worker a;
          ends_well = await-budget c.worker a;
        })
        | inr h ↦ rw h (record {
          retries_pos = p;
          delays_finite = f;
          has_ws = λ k. cc;
          few_resyncs = λ k l. cc;
          few_failures = λ k. ground arith;
          exhausted = λ k. cc;
          dials = i;
          resubscribes = j;
          alive = a;
          ends_well = refl;
        })
      ]

disconnect-Bounded :
    (now : ℕ) (rng : RandomLike) (c : OkxFeedClient)
    → 0 < c.snapshot_retry_limit
    → c.max_consecutive_reconnect_failures ≤ float_exponent_limit
    → c.connection.attempt < c.max_consecutive_reconnect_failures
    → 0 < c.connection_bucket.refill_rate
    → 0 < c.resubscribe_bucket.refill_rate
    → is_dead c.worker ≡ false
    → Bounded (disconnect now rng c)
unfolding disconnect
disconnect-Bounded now rng c p f l i j a =
    let (delay, e, k) = disconnected-attempt c.connection now rng (omega arith) in
    rw e (
      back_off-Bounded (record c { connection = (on_disconnected c.connection now rng).0 }) delay p
        f i j a)

pub handle-Bounded :
    (now : ℕ) (rng : RandomLike) (o : Outcome) → Within o.0 → Bounded (handle now rng o)
unfolding handle
handle-Bounded now rng (c, returned) w = record {
  retries_pos = w.2;
  delays_finite = w.5;
  has_ws = λ k. w.1;
  few_resyncs = λ k. w.3;
  few_failures = λ k. w.4;
  exhausted = λ k. (let e = sym (ap is_over w.0) ∙ k in cc);
  dials = w.6;
  resubscribes = w.7;
  alive = w.8;
  ends_well = ap ended_otherwise w.0;
}
handle-Bounded now rng (c, notice) w = disconnect-Bounded now rng c w.2 w.5 w.4 w.6 w.7 w.8
handle-Bounded now rng (c, raised) w =
    disconnect-Bounded now rng (count "ws_disconnected" c) w.2 w.5 w.4 w.6 w.7 w.8

pub lost-Bounded :
    (key : String) (now : ℕ) (rng : RandomLike) (c : OkxFeedClient) (ph : Phase)
    → c.phase ≡ ph
    → is_over ph ≡ false
    → Bounded c
    → Bounded (disconnect now rng (count key c))
lost-Bounded key now rng c ph e o b =
    disconnect-Bounded now rng (count key c) b.retries_pos b.delays_finite
      (b.few_failures (ap is_over e ∙ o)) b.dials b.resubscribes b.alive
