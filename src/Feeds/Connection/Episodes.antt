-- ===== src/Feeds/Connection/Episodes.antt =====
-- Delays, failure counts and outages of a `ConnectionManager` over sequences of its calls.
use l2_orderbook_pipeline.Common.{
  ℕ, suc, ◌+◌, ◌-◌, ◌*◌, ◌^◌, ◌≤◌, ◌<◌, min, List, [], ◌∷◌, none, some, ◌≡◌, ◌≢◌, refl, ap, arith,
  true, false, All,
}
use l2_orderbook_pipeline.Feeds.Connection.{
  ConnectionManager, BackoffPolicy, RandomLike, connected, full_jitter_delay, float_exponent_limit,
  on_connecting, on_connected, message_received, on_disconnected, outage,
}

-- A full-jitter delay lies within the cap, and within the base doubled once for each attempt.
pub full_jitter_delay_bounds :
    (policy : BackoffPolicy) (attempt : ℕ) (rng : RandomLike) (delay : ℕ)
    → full_jitter_delay policy attempt rng ≡ some delay
    → (delay ≤ policy.cap_seconds) × (delay ≤ policy.base_seconds * 2 ^ attempt)
unfolding full_jitter_delay
full_jitter_delay_bounds policy attempt rng delay h =
    ground (arith, rng.uniform_upper 0 (min policy.cap_seconds (policy.base_seconds * 2 ^ attempt)))

-- The delay is refused, by an OverflowError, exactly from attempt 1024 on.
pub full_jitter_delay_overflow :
    (policy : BackoffPolicy) (attempt : ℕ) (rng : RandomLike)
    → (full_jitter_delay policy attempt rng ≡ none → float_exponent_limit ≤ attempt)
      × (float_exponent_limit ≤ attempt → full_jitter_delay policy attempt rng ≡ none)
unfolding full_jitter_delay
full_jitter_delay_overflow policy attempt rng = (λ h. ground arith, λ h. ground arith)

-- The calls of a feed's reconnect loop, with the clock's reading and the generator where one is taken.
pub data Call : Type 0 where
  dial : Call
  up : ℕ → Call
  message : Call
  down : ℕ → RandomLike → Call

unfoldable pub step : ConnectionManager → Call → ConnectionManager
step m dial = on_connecting m
step m (up now) = (on_connected m now).0
step m message = message_received m
step m (down now rng) = (on_disconnected m now rng).0

unfoldable pub run : ConnectionManager → List Call → ConnectionManager
run m [] = m
run m (c ∷ cs) = run (step m c) cs

-- Calls in which no message comes through.
abbrev pub Silent : Call → Type 0
Silent message = ⊥
Silent _ = Unit

-- Calls of failed attempts to connect.
abbrev pub Failing : Call → Type 0
Failing dial = Unit
Failing (down now rng) = Unit
Failing _ = ⊥

abbrev pub downs : List Call → ℕ
downs [] = 0
downs (down now rng ∷ cs) = suc (downs cs)
downs (_ ∷ cs) = downs cs

disconnect_counts :
    (m : ConnectionManager) (now : ℕ) (rng : RandomLike)
    → m.attempt < float_exponent_limit
    → (on_disconnected m now rng).0.attempt ≡ m.attempt + 1
unfolding on_disconnected full_jitter_delay
disconnect_counts m now rng h = ground arith

-- As long as no message comes through, each disconnect counts as one more attempt, whatever
-- connections are made between them; the counter stays exact as long as the delays can be computed.
pub attempt-run :
    (cs : List Call) (m : ConnectionManager)
    → All Silent cs
    → m.attempt + downs cs ≤ float_exponent_limit
    → (run m cs).attempt ≡ m.attempt + downs cs
unfolding run step on_connecting on_connected
attempt-run [] m s h = omega arith
attempt-run (dial ∷ cs) m s h = attempt-run cs (on_connecting m) s.1 h
attempt-run (up now ∷ cs) m s h = attempt-run cs (on_connected m now).0 s.1 h
attempt-run (message ∷ cs) m s h = absurd s.0
attempt-run (down now rng ∷ cs) m s h =
    omega (arith, disconnect_counts m now rng, attempt-run cs (on_disconnected m now rng).0 s.1)

-- Below the limit of the delays, a disconnect sleeps and counts one more attempt.
pub disconnected-attempt :
    (m : ConnectionManager) (now : ℕ) (rng : RandomLike)
    → m.attempt < float_exponent_limit
    → (delay : ℕ) × ((on_disconnected m now rng).1 ≡ some delay)
      × ((on_disconnected m now rng).0.attempt ≡ m.attempt + 1)
unfolding on_disconnected full_jitter_delay
disconnected-attempt m now rng h = (
  rng.uniform 0 (min m.policy.cap_seconds (m.policy.base_seconds * 2 ^ m.attempt)),
  ground arith,
  ground arith,
)

-- A message never counts as a failure.
pub message_received-attempt : (m : ConnectionManager) → (message_received m).attempt ≤ m.attempt
unfolding message_received
message_received-attempt m = ground arith

-- The first message on a connection clears the counter; a later one, or one that comes while not
-- connected, changes nothing.
pub message_received_resets :
    (m : ConnectionManager)
    → (m.state ≡ connected → m.message_seen ≡ false → (message_received m).attempt ≡ 0)
      × (m.message_seen ≡ true → message_received m ≡ m)
      × (m.state ≢ connected → message_received m ≡ m)
unfolding message_received
message_received_resets m = (λ s n. ground arith, λ s. ground arith, λ s. ground arith)

disconnected_at-step :
    (m : ConnectionManager) (c : Call) (t : ℕ)
    → Failing c
    → m.disconnected_at ≡ some t
    → (step m c).disconnected_at ≡ some t
unfolding step on_connecting on_disconnected
disconnected_at-step m dial t f h = h
disconnected_at-step m (up now) t f h = absurd f
disconnected_at-step m message t f h = absurd f
disconnected_at-step m (down now rng) t f h = ground arith

disconnected_at-run :
    (cs : List Call) (m : ConnectionManager) (t : ℕ)
    → All Failing cs
    → m.disconnected_at ≡ some t
    → (run m cs).disconnected_at ≡ some t
unfolding run
disconnected_at-run [] m t f h = h
disconnected_at-run (c ∷ cs) m t f h =
    disconnected_at-run cs (step m c) t f.1 (disconnected_at-step m c t f.0 h)

-- An outage is measured from the disconnect that began it to the connect that ended it, however
-- many attempts failed in between; the next outage starts afresh.
pub outage_measured :
    (m : ConnectionManager) (start end : ℕ) (rng : RandomLike) (cs : List Call)
    → m.disconnected_at ≡ none
    → All Failing cs
    → let r = on_connected (run (on_disconnected m start rng).0 cs) end in
      (r.1.outage_duration_seconds ≡ some (end - start)) × (r.0.disconnected_at ≡ none)
unfolding on_connected
outage_measured m start end rng cs h f =
    let first : (on_disconnected m start rng).0.disconnected_at ≡ some start =
      unfold on_disconnected in ground arith in
    let last = disconnected_at-run cs (on_disconnected m start rng).0 start f first in
    (ap (outage end) last, refl)
