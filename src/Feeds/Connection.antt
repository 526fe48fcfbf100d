-- ===== src/Feeds/Connection.antt =====
-- `ConnectionManager` and `full_jitter_delay` of src/l2_pipeline/feeds/connection.py.
-- Seconds are counted in whole clock ticks of any size; the clock's reading and the random draw are
-- arguments of the methods that take them. `time.monotonic` never goes back, so `-` on ℕ is exact.
pub mod Episodes
use l2_orderbook_pipeline.Common.{
  ℕ, ◌+◌, ◌-◌, ◌*◌, ◌^◌, ◌≤◌, min, Option, none, some, Bool, true, false, not, ◌&&◌, ltb,
  if◌then◌else◌,
}

pub data ConnectionState : Type 0 where
  disconnected connecting connected backoff : ConnectionState

pub record BackoffPolicy : Type 0 where
  pub base_seconds : ℕ
  pub cap_seconds : ℕ

-- `random.Random.uniform`: a draw for the bounds `a` and `b`, which lies between them.
pub record RandomLike : Type 0 where
  pub uniform : ℕ → ℕ → ℕ
  pub uniform_lower : (a b : ℕ) → a ≤ b → a ≤ uniform a b
  pub uniform_upper : (a b : ℕ) → a ≤ b → uniform a b ≤ b

-- DEFAULT_MAX_CONSECUTIVE_RECONNECT_FAILURES
abbrev pub max_consecutive_reconnect_failures : ℕ
max_consecutive_reconnect_failures = 10

pub record ConnectedInfo : Type 0 where
  pub attempt : ℕ
  pub outage_duration_seconds : Option ℕ

-- The first power of two that does not fit a double: Python raises OverflowError when it converts
-- `2**attempt` for the product with the float `base_seconds`.
abbrev pub float_exponent_limit : ℕ
float_exponent_limit = 1024

-- `none` is the OverflowError.
unfoldable pub full_jitter_delay : BackoffPolicy → ℕ → RandomLike → Option ℕ
full_jitter_delay policy attempt rng =
    if ltb attempt float_exponent_limit
    then some (rng.uniform 0 (min policy.cap_seconds (policy.base_seconds * 2 ^ attempt)))
    else none

pub record ConnectionManager : Type 0 where
  pub policy : BackoffPolicy
  pub state : ConnectionState
  pub attempt : ℕ
  pub message_seen : Bool
  pub disconnected_at : Option ℕ

unfoldable pub init : BackoffPolicy → ConnectionManager
init policy = record {
  policy = policy;
  state = disconnected;
  attempt = 0;
  message_seen = false;
  disconnected_at = none;
}

unfoldable pub on_connecting : ConnectionManager → ConnectionManager
on_connecting m = record m { state = connecting; message_seen = false }

abbrev pub outage : ℕ → Option ℕ → Option ℕ
outage now none = none
outage now (some t) = some (now - t)

unfoldable pub on_connected : ConnectionManager → ℕ → ConnectionManager × ConnectedInfo
on_connected m now = (
  record m { state = connected; disconnected_at = none },
  record { attempt = m.attempt; outage_duration_seconds = outage now m.disconnected_at },
)

abbrev pub is_connected : ConnectionState → Bool
is_connected connected = true
is_connected disconnected = false
is_connected connecting = false
is_connected backoff = false

unfoldable pub message_received : ConnectionManager → ConnectionManager
message_received m =
    if is_connected m.state && not m.message_seen
    then record m { message_seen = true; attempt = 0 }
    else m

abbrev pub first_time : ℕ → Option ℕ → Option ℕ
first_time now none = some now
first_time now (some t) = some t

-- The delay that the call returns, `none` if `full_jitter_delay` raises. The state and the time of
-- the outage are written before it is computed, the counter after.
unfoldable pub on_disconnected : ConnectionManager → ℕ → RandomLike → ConnectionManager × Option ℕ
on_disconnected m now rng =
    let down = record m { state = backoff; disconnected_at = first_time now m.disconnected_at } in
    elim (full_jitter_delay m.policy m.attempt rng) [
      | none ↦ (down, none)
      | some delay ↦ (record down { attempt = m.attempt + 1 }, some delay)
    ]
