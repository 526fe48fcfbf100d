-- ===== src/Feeds/Binance/Retries.antt =====
-- The retries of `_fetch_snapshot`.
use l2_orderbook_pipeline.Common.{
  ℕ, zero, suc, ◌+◌, ◌<◌, Option, none, some, ◌≡◌, refl, ap, ◌∙◌, arith, Bool, true, false,
  Bool-cases, inl, inr, ◌≢◌, if◌then◌else◌,
}
use l2_orderbook_pipeline.Book.Types.{SnapshotEvent}
use l2_orderbook_pipeline.Feeds.Binance.{
  RetryAfter, missing, seconds, malformed, Response, Reply, network_error, answered, Attempt, Fetch,
  FetchResult, fetched, retry_limit_exceeded, raised, is_rate_limit, parsed, back_off, on_reply,
  pay, fetch_snapshot,
}

-- How the two counts go with the result, `n` rounds being allowed.
abbrev pub Counted : ℕ → Fetch → Fetch × FetchResult → Type 0
Counted n s (t, retry_limit_exceeded) =
    t.network_errors + t.rate_limited ≡ s.network_errors + s.rate_limited + n
Counted n s (t, fetched snap) =
    t.network_errors + t.rate_limited < s.network_errors + s.rate_limited + n
Counted n s (t, raised) = t.network_errors + t.rate_limited < s.network_errors + s.rate_limited + n

-- A result of fewer rounds, one retry later.
Counted-on :
    (n : ℕ) (s s' : Fetch) (r : Fetch × FetchResult)
    → s'.network_errors + s'.rate_limited ≡ s.network_errors + s.rate_limited + 1
    → Counted n s' r
    → Counted (suc n) s r
Counted-on n s s' (t, retry_limit_exceeded) h c = omega arith
Counted-on n s s' (t, fetched snap) h c = omega arith
Counted-on n s s' (t, raised) h c = omega arith

Counted-retry :
    (n : ℕ) (s s' : Fetch) (retry : Fetch → Fetch × FetchResult)
    → s'.network_errors + s'.rate_limited ≡ s.network_errors + s.rate_limited + 1
    → ((t : Fetch) → Counted n t (retry t))
    → Counted (suc n) s (retry s')
Counted-retry n s s' retry h c = Counted-on n s s' (retry s') h (c s')

Counted-parsed :
    (n : ℕ) (s : Fetch) (ok : Bool) (o : Option SnapshotEvent)
    → Counted (suc n) s (s, if ok then parsed o else raised)
Counted-parsed n s false o = omega arith
Counted-parsed n s true none = omega arith
Counted-parsed n s true (some snap) = omega arith

Counted-back_off :
    (n : ℕ) (s : Fetch) (h : RetryAfter) (retry : Fetch → Fetch × FetchResult)
    → ((t : Fetch) → Counted n t (retry t))
    → Counted (suc n) s (back_off s h retry)
unfolding back_off
Counted-back_off n s missing retry c =
    Counted-retry n s (record s { rate_limited = s.rate_limited + 1 }) retry (omega arith) c
Counted-back_off n s (seconds k) retry c =
    Counted-retry n s (record s { rate_limited = s.rate_limited + 1 }) retry (omega arith) c
Counted-back_off n s malformed retry c = omega arith

on_reply-Counted :
    (n : ℕ) (s : Fetch) (r : Reply) (retry : Fetch → Fetch × FetchResult)
    → ((t : Fetch) → Counted n t (retry t))
    → Counted (suc n) s (on_reply s r retry)
unfolding on_reply
on_reply-Counted n s network_error retry c =
    Counted-retry n s (record s { network_errors = s.network_errors + 1 }) retry (omega arith) c
on_reply-Counted n s (answered r) retry c = elim (Bool-cases (is_rate_limit r.status_code)) [
  | inl h ↦ rw h (Counted-back_off n s r.retry_after retry c)
  | inr h ↦ rw h (Counted-parsed n s r.is_success r.snapshot)
]

paid-Counted :
    (n cost : ℕ) (a : Attempt) (s : Fetch) (r : Fetch × FetchResult)
    → Counted n (pay cost a s) r
    → Counted n s r
paid-Counted n cost a s (t, retry_limit_exceeded) h = h
paid-Counted n cost a s (t, fetched snap) h = h
paid-Counted n cost a s (t, raised) h = h

-- A fetch counts each round that it gives up, as a network error or as rate limited: when the limit
-- is exceeded the two counts together have gone up by the whole limit, and by less than it when
-- a snapshot is fetched or an error is raised.
pub fetch_snapshot-Counted :
    (n cost : ℕ) (attempts : ℕ → Attempt) (s : Fetch)
    → Counted n s (fetch_snapshot n cost attempts s)
unfolding fetch_snapshot
fetch_snapshot-Counted zero cost attempts s = omega arith
fetch_snapshot-Counted (suc n) cost attempts s =
    let rest = fetch_snapshot n cost (λ i. attempts (suc i)) in
    let paid = pay cost (attempts 0) s in
    paid-Counted (suc n) cost (attempts 0) s (on_reply paid (attempts 0).reply rest) (
      on_reply-Counted n paid (attempts 0).reply rest
        (λ t. fetch_snapshot-Counted n cost (λ i. attempts (suc i)) t))

-- A reply after which the fetch tries again.
pub data Retried : Reply → Type 0 where
  unreachable : Retried network_error
  limited :
      {r : Response}
      → is_rate_limit r.status_code ≡ true
      → r.retry_after ≢ malformed
      → Retried (answered r)

back_off-retries :
    (s : Fetch) (h : RetryAfter) (retry : Fetch → Fetch × FetchResult) (result : FetchResult)
    → h ≢ malformed
    → ((t : Fetch) → (retry t).1 ≡ result)
    → (back_off s h retry).1 ≡ result
unfolding back_off
back_off-retries s missing retry result m h = h _
back_off-retries s (seconds n) retry result m h = h _
back_off-retries s malformed retry result m h = absurd (m refl)

on_reply-retries :
    (s : Fetch) (r : Reply) (retry : Fetch → Fetch × FetchResult) (result : FetchResult)
    → Retried r
    → ((t : Fetch) → (retry t).1 ≡ result)
    → (on_reply s r retry).1 ≡ result
unfolding on_reply
on_reply-retries s _ retry result unreachable h = h _
on_reply-retries s (answered r) retry result (limited l m) h =
    rw l (back_off-retries s r.retry_after retry result m h)

on_reply-fetches :
    (s : Fetch) (r : Response) (snap : SnapshotEvent) (retry : Fetch → Fetch × FetchResult)
    → is_rate_limit r.status_code ≡ false
    → r.is_success ≡ true
    → r.snapshot ≡ some snap
    → (on_reply s (answered r) retry).1 ≡ fetched snap
unfolding on_reply
on_reply-fetches s r snap retry l ok h = rw (l, ok, h) refl

-- If a round within the limit is answered with a snapshot, and each round before it only failed to
-- reach the server or was told to wait, the fetch gives that snapshot.
pub fetch_snapshot-persists :
    (n k cost : ℕ) (attempts : ℕ → Attempt) (s : Fetch) (r : Response) (snap : SnapshotEvent)
    → k < n
    → ((i : ℕ) → i < k → Retried (attempts i).reply)
    → (attempts k).reply ≡ answered r
    → is_rate_limit r.status_code ≡ false
    → r.is_success ≡ true
    → r.snapshot ≡ some snap
    → (fetch_snapshot n cost attempts s).1 ≡ fetched snap
unfolding fetch_snapshot
fetch_snapshot-persists zero k cost attempts s r snap lt before at l ok h = absurd (omega arith)
fetch_snapshot-persists (suc n) zero cost attempts s r snap lt before at l ok h =
    ap
      (λ q.
        (on_reply (pay cost (attempts 0) s) q (fetch_snapshot n cost (λ i. attempts (suc i)))).1)
      at
    ∙ on_reply-fetches (pay cost (attempts 0) s) r snap _ l ok h
fetch_snapshot-persists (suc n) (suc k) cost attempts s r snap lt before at l ok h =
    on_reply-retries (pay cost (attempts 0) s) (attempts 0).reply _ (fetched snap)
      (before 0 (omega arith))
      (λ t.
        fetch_snapshot-persists n k cost (λ i. attempts (suc i)) t r snap (omega arith)
          (λ i m. before (suc i) (omega arith)) at l ok h)
