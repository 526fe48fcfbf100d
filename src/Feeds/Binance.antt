-- ===== src/Feeds/Binance.antt =====
-- Of `BinanceFeedClient` in src/l2_pipeline/feeds/binance.py: `_fetch_snapshot` and
-- `_raise_if_reconnect_budget_exhausted`. What the HTTP client gives back is an argument, and so are the
-- clock's readings in the token bucket; the sleeps show in the readings behind them. What
-- `raise_for_status` and `parse_snapshot` make of a response is part of it.
pub mod Retries
pub mod Parsing
pub mod Client
mod Tests
use l2_orderbook_pipeline.Common.{
  ℕ, zero, suc, ◌+◌, ◌≤◌, ◌<◌, Option, none, some, ◌≡◌, refl, sym, ap, ◌∙◌, arith, Bool, true,
  false, ◌||◌, ◌==◌, ltb, Bool-cases, inl, inr, ◌≢◌, if◌then◌else◌,
}
use l2_orderbook_pipeline.Book.Types.{SnapshotEvent}
use l2_orderbook_pipeline.Feeds.Connection.{ConnectionManager}
use l2_orderbook_pipeline.Feeds.RateLimit.{TokenBucket, try_acquire, time_until_available}

-- `float(response.headers.get("Retry-After", "1"))`: the header is left out, a number, or no number.
pub data RetryAfter : Type 0 where
  missing : RetryAfter
  seconds : ℕ → RetryAfter
  malformed : RetryAfter

-- `is_success` is that `raise_for_status` returns; `snapshot` is `none` where reading the body raises.
pub record Response : Type 0 where
  pub status_code : ℕ
  pub retry_after : RetryAfter
  pub is_success : Bool
  pub snapshot : Option SnapshotEvent

pub data Reply : Type 0 where
  network_error : Reply
  answered : Response → Reply

-- One round: the readings of `time_until_available` and `try_acquire`, and the reply.
pub record Attempt : Type 0 where
  pub asked_at : ℕ
  pub acquired_at : ℕ
  pub reply : Reply

-- What the fetch changes: the bucket, and the counts of `snapshot_fetch_network_error` and `rate_limited`.
pub record Fetch : Type 0 where
  pub bucket : TokenBucket
  pub network_errors : ℕ
  pub rate_limited : ℕ

pub data FetchResult : Type 0 where
  fetched : SnapshotEvent → FetchResult
  retry_limit_exceeded : FetchResult
  raised : FetchResult

abbrev pub is_rate_limit : ℕ → Bool
is_rate_limit status = status == 429 || status == 418

abbrev pub parsed : Option SnapshotEvent → FetchResult
parsed none = raised
parsed (some s) = fetched s

-- `float` raises before the count goes up.
unfoldable pub back_off : Fetch → RetryAfter → (Fetch → Fetch × FetchResult) → Fetch × FetchResult
back_off s missing retry = retry (record s { rate_limited = s.rate_limited + 1 })
back_off s (seconds n) retry = retry (record s { rate_limited = s.rate_limited + 1 })
back_off s malformed retry = (s, raised)

unfoldable pub on_reply : Fetch → Reply → (Fetch → Fetch × FetchResult) → Fetch × FetchResult
unfolding back_off
on_reply s network_error retry = retry (record s { network_errors = s.network_errors + 1 })
on_reply s (answered r) retry =
    let again = back_off s r.retry_after retry in
    if is_rate_limit r.status_code
    then again
    else (s, if r.is_success then parsed r.snapshot else raised)

-- The token is taken whether or not the bucket grants it: the result of `try_acquire` is not looked at.
abbrev pub pay : ℕ → Attempt → Fetch → Fetch
pay cost a s = record s {
  bucket = (try_acquire (time_until_available s.bucket cost a.asked_at).0 cost a.acquired_at).0;
}

-- `_fetch_snapshot` with so many rounds left; `attempts i` is the i-th round from here, and `cost` one token.
unfoldable pub fetch_snapshot : ℕ → ℕ → (ℕ → Attempt) → Fetch → Fetch × FetchResult
unfolding on_reply
fetch_snapshot zero cost attempts s = (s, retry_limit_exceeded)
fetch_snapshot (suc n) cost attempts s =
    on_reply (pay cost (attempts 0) s) (attempts 0).reply
      (fetch_snapshot n cost (λ i. attempts (suc i)))

-- Whether it raises.
unfoldable pub raise_if_reconnect_budget_exhausted : ConnectionManager → ℕ → Bool
raise_if_reconnect_budget_exhausted m limit = if ltb m.attempt limit then false else true
