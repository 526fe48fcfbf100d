-- ===== src/Feeds/RateLimit.antt =====
-- `TokenBucket` of src/l2_pipeline/feeds/ratelimit.py.
-- Tokens are counted in units in which the refill rate per clock tick is whole: with ticks of a
-- millisecond and 2000 units to a token, Binance's default bucket has capacity 20000 and rate 1. The
-- arithmetic is exact, where the source rounds to doubles. The clock's reading is an argument;
-- `time.monotonic` never goes back, so `-` on ℕ is exact.
use native.Mathlib.Nat.{add-mul}
use l2_orderbook_pipeline.Common.{
  ℕ, ◌+◌, ◌-◌, ◌*◌, ◌≤◌, ◌<◌, min, List, [], ◌∷◌, ◌≡◌, sym, ap, ◌∙◌, subst, arith, Bool, true,
  false, leb, ◌==◌, if◌then◌else◌,
}

pub record TokenBucket : Type 0 where
  pub capacity : ℕ
  pub refill_rate : ℕ
  pub tokens : ℕ
  pub last_refill : ℕ

unfoldable pub init : ℕ → ℕ → ℕ → TokenBucket
init capacity rate now = record {
  capacity = capacity;
  refill_rate = rate;
  tokens = capacity;
  last_refill = now;
}

unfoldable pub refill : TokenBucket → ℕ → TokenBucket
refill b now = record b {
  tokens = min b.capacity (b.tokens + (now - b.last_refill) * b.refill_rate);
  last_refill = now;
}

unfoldable pub try_acquire : TokenBucket → ℕ → ℕ → TokenBucket × Bool
unfolding refill
try_acquire b cost now =
    let r = refill b now in
    if leb cost r.tokens then (record r { tokens = r.tokens - cost }, true) else (r, false)

-- A quotient of whole numbers, kept as it is: `deficit / refill_rate`.
pub record Ratio : Type 0 where
  pub num : ℕ
  pub den : ℕ

-- A number of ticks that is at least a quotient.
abbrev pub AtLeast : Ratio → ℕ → Type 0
AtLeast r d = r.num ≤ d * r.den

unfoldable pub time_until_available : TokenBucket → ℕ → ℕ → TokenBucket × Ratio
unfolding refill
time_until_available b cost now =
    let r = refill b now in
    if leb cost r.tokens
    then (r, record { num = 0; den = 1 })
    else (r, record { num = cost - r.tokens; den = r.refill_rate })

-- Whether the source's division raises `ZeroDivisionError` in place of giving the quotient.
abbrev pub divides_by_zero : Ratio → Bool
divides_by_zero r = r.den == 0

-- Asking does not change the rate; and with a rate above 0 the division does not raise.
pub asking-rate :
    (b : TokenBucket) (cost now : ℕ)
    → ((time_until_available b cost now).0.refill_rate ≡ b.refill_rate)
      × (0 < b.refill_rate → divides_by_zero (time_until_available b cost now).1 ≡ false)
unfolding time_until_available
asking-rate b cost now = ground arith

-- Whatever is asked of a bucket, it never holds more than its capacity afterwards, and its rate and capacity never change.
pub tokens-le-capacity :
    (b : TokenBucket) (cost now : ℕ)
    → ((try_acquire b cost now).0.tokens ≤ b.capacity)
      × ((try_acquire b cost now).0.capacity ≡ b.capacity)
      × ((try_acquire b cost now).0.refill_rate ≡ b.refill_rate)
unfolding try_acquire
tokens-le-capacity b cost now = ground arith

-- Waiting for at least as long as `time_until_available` says is enough: a cost within the capacity is then granted.
pub wait_suffices :
    (b : TokenBucket) (cost now later : ℕ)
    → cost ≤ b.capacity
    → now ≤ later
    → AtLeast (time_until_available b cost now).1 (later - now)
    → (try_acquire (time_until_available b cost now).0 cost later).1 ≡ true
unfolding try_acquire time_until_available
wait_suffices b cost now later c o h = ground arith

-- A cost above the capacity is never granted, however long one waits.
pub never_granted :
    (b : TokenBucket) (cost now : ℕ) → b.capacity < cost → (try_acquire b cost now).1 ≡ false
unfolding try_acquire
never_granted b cost now h = ground arith

-- Requests, each with its cost and the time at which it is made.
unfoldable pub granted : TokenBucket → List (ℕ × ℕ) → ℕ
granted b [] = 0
granted b ((cost, now) ∷ rs) =
    let (b', ok) = try_acquire b cost now in (if ok then cost else 0) + granted b' rs

-- The times of the requests do not go back before `t`, and end by `end`.
abbrev pub InOrder : ℕ → ℕ → List (ℕ × ℕ) → Type 0
InOrder t end [] = t ≤ end
InOrder t end ((cost, now) ∷ rs) = (t ≤ now) × InOrder now end rs

InOrder-le : (t end : ℕ) (rs : List (ℕ × ℕ)) → InOrder t end rs → t ≤ end
InOrder-le t end [] o = o
InOrder-le t end ((cost, now) ∷ rs) o = omega (arith, InOrder-le now end rs o.1)

refill_split : (a b c r : ℕ) → a ≤ b → b ≤ c → (b - a) * r + (c - b) * r ≡ (c - a) * r
refill_split a b c r h k =
    let e : (b - a) + (c - b) ≡ c - a = omega arith in
    sym (add-mul (b - a) (c - b) r) ∙ ap (λ t. t * r) e

acquire_balance :
    (b : TokenBucket) (cost now : ℕ)
    → let r = try_acquire b cost now in
      ((if r.1 then cost else 0) + r.0.tokens ≤ b.tokens + (now - b.last_refill) * b.refill_rate)
      × (r.0.last_refill ≡ now)
      × (r.0.refill_rate ≡ b.refill_rate)
unfolding try_acquire
acquire_balance b cost now = ground arith

-- The rate limit: in any stretch of time the costs granted are at most what the bucket held at its
-- start and the refill of that time.
pub granted_bounded :
    (rs : List (ℕ × ℕ)) (b : TokenBucket) (end : ℕ)
    → InOrder b.last_refill end rs
    → granted b rs ≤ b.tokens + (end - b.last_refill) * b.refill_rate
unfolding granted
granted_bounded [] b end o = omega arith
granted_bounded ((cost, now) ∷ rs) b end o =
    let r = try_acquire b cost now in
    let (spent, at, rate) = acquire_balance b cost now in
    let later : granted r.0 rs ≤ r.0.tokens + (end - now) * b.refill_rate =
      subst (λ t. granted r.0 rs ≤ r.0.tokens + (end - t) * b.refill_rate) at
        (subst (λ k. granted r.0 rs ≤ r.0.tokens + (end - r.0.last_refill) * k) rate
          (granted_bounded rs r.0 end (subst (λ t. InOrder t end rs) (sym at) o.1))) in
    omega (
      arith,
      spent,
      later,
      refill_split b.last_refill now end b.refill_rate o.0 (InOrder-le now end rs o.1),
    )
