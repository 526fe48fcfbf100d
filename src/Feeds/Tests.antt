-- ===== src/Feeds/Tests.antt =====
-- Tests of the feeds' parts, and their theorems at concrete inputs.
use l2_orderbook_pipeline.Common.{
  ◌+◌, ◌*◌, ◌≤◌, List, [], ◌∷◌, none, some, ◌≡◌, refl, arith, true, false,
}
use l2_orderbook_pipeline.Feeds.Connection.{
  ConnectionManager, BackoffPolicy, RandomLike, connected, full_jitter_delay,
}
use l2_orderbook_pipeline.Feeds.Connection.Episodes.{Call, dial, up, down}
use l2_orderbook_pipeline.Feeds.RateLimit.{
  TokenBucket, try_acquire, time_until_available, granted, wait_suffices, granted_bounded,
}
use l2_orderbook_pipeline.Common.{length}
use l2_orderbook_pipeline.Common.Int.{pos, ℤ_eq}
use l2_orderbook_pipeline.Common.Dict
use l2_orderbook_pipeline.Common.Dict.{Unique}
use l2_orderbook_pipeline.Book.Types.{live}
use l2_orderbook_pipeline.Book.Engine.{BookEngine}
use l2_orderbook_pipeline.Book.Invariant.{WellFormed}
use l2_orderbook_pipeline.Sinks.Rows.{SnapshotRow}
use l2_orderbook_pipeline.Feeds.Envelope.{InstrumentId, build_snapshot_row, build_snapshot_row-fits}
use l2_orderbook_pipeline.Common.{ℕ, zero, suc, ◌<◌}
use l2_orderbook_pipeline.Book.Types.{SnapshotEvent}
use l2_orderbook_pipeline.Feeds.Binance.{
  missing, seconds, Response, Reply, answered, Attempt, Fetch, fetched, fetch_snapshot,
}
use l2_orderbook_pipeline.Feeds.Binance.Retries.{Retried, limited, fetch_snapshot-persists}

-- The upper bound, always.
abbrev longest : RandomLike
longest = record {
  uniform = λ a b. b;
  uniform_lower = λ a b h. h;
  uniform_upper = λ a b h. omega arith;
}

-- In milliseconds.
abbrev policy : BackoffPolicy
policy = record { base_seconds = 500; cap_seconds = 30000 }

delay_capped : full_jitter_delay policy 7 longest ≡ some 30000
unfolding full_jitter_delay
delay_capped = refl

abbrev flapping : List Call
flapping = dial ∷ down 5 longest ∷ dial ∷ up 9 ∷ down 12 longest ∷ []

abbrev fresh : ConnectionManager
fresh = record {
  policy = policy;
  state = connected;
  attempt = 4;
  message_seen = false;
  disconnected_at = none;
}

-- Binance's snapshot bucket: milliseconds, 2000 units to a token.
abbrev bucket : TokenBucket
bucket = record { capacity = 20000; refill_rate = 1; tokens = 500; last_refill = 1000 }

wait_suffices_example : (try_acquire (time_until_available bucket 2000 1000).0 2000 2500).1 ≡ true
wait_suffices_example =
    wait_suffices bucket 2000 1000 2500 (omega arith) (omega arith)
      (unfold time_until_available in omega arith)

granted_bounded_example : granted bucket ((2000, 3000) ∷ (2000, 3500) ∷ []) ≤ 500 + 3000 * 1
granted_bounded_example =
    granted_bounded ((2000, 3000) ∷ (2000, 3500) ∷ []) bucket 4000 (omega arith)

abbrev synced : BookEngine
synced = record {
  depth_levels = 1;
  bids = (pos 9, pos 1) ∷ (pos 8, pos 1) ∷ [];
  asks = [];
  state = live;
  last_applied_id = some (pos 7);
  buffer = [];
}

synced-WellFormed : WellFormed synced
unfolding Unique Dict.get
synced-WellFormed = record {
  live_shape = λ h. ((pos 7, refl), refl);
  idle_shape = λ h. cc;
  bids_unique = (refl, (refl, tt));
  asks_unique = tt;
}

abbrev instrument : InstrumentId
instrument = record { exchange = "okx"; symbol = "BTC-USDT" }

build_snapshot_row-fits_example :
    (row : SnapshotRow) × (build_snapshot_row synced instrument 5 6 none ≡ some row)
    × (some (pos 7) ≡ some row.last_applied_id)
    × (length row.bids ≤ 1)
    × (length row.asks ≤ 1)
build_snapshot_row-fits_example =
    build_snapshot_row-fits synced instrument 5 6 none synced-WellFormed refl

abbrev empty_fetch : Fetch
empty_fetch = record { bucket = bucket; network_errors = 0; rate_limited = 0 }

abbrev depth : SnapshotEvent
depth = record { last_update_id = pos 7; bids = []; asks = [] }

abbrev good : Response
good = record { status_code = 200; retry_after = missing; is_success = true; snapshot = some depth }

-- The first round is told to wait for two seconds, the others are answered.
abbrev replies : ℕ → Reply
replies zero =
    answered
      (record { status_code = 429; retry_after = seconds 2; is_success = false; snapshot = none })
replies (suc i) = answered good

abbrev rounds : ℕ → Attempt
rounds i = record { asked_at = 1000; acquired_at = 3000; reply = replies i }

first-Retried : (i : ℕ) → i < 1 → Retried (replies i)
first-Retried zero h = limited refl (λ e. cc)
first-Retried (suc i) h = absurd (omega arith)

fetch_snapshot-persists_example : (fetch_snapshot 5 2000 rounds empty_fetch).1 ≡ fetched depth
fetch_snapshot-persists_example =
    fetch_snapshot-persists 5 1 2000 rounds empty_fetch good depth (omega arith) first-Retried refl
      refl refl refl
