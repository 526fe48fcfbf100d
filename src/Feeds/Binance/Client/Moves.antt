-- ===== src/Feeds/Binance/Client/Moves.antt =====
-- The steps of `run` by what they do, for proofs about all of them.
use l2_orderbook_pipeline.Common.{ℕ, ◌≡◌, refl, true, false}
use l2_orderbook_pipeline.Feeds.Connection.{RandomLike, on_connecting}
use l2_orderbook_pipeline.Feeds.Json.{Numerals}
use l2_orderbook_pipeline.Feeds.Binance.Client.{
  BinanceFeedClient, Phase, between, dialing, reading, Outcome, unless_raised,
}
use l2_orderbook_pipeline.Feeds.Binance.Client.Run.{
  receive, connect, Event, dial, up, message, timed_out, dropped, run_step,
}
use l2_orderbook_pipeline.Feeds.Binance.Client.Reads.{Reads, receive-Reads, Loses, lose-Loses}

pub data Moves (c d : BinanceFeedClient) : Type 0 where
  stays : d ≡ c → Moves c d
  dials : d ≡ record c { connection = on_connecting c.connection; phase = dialing } → Moves c d
  connects : (now : ℕ) → d ≡ connect c now → Moves c d
  reads : Reads c d → Moves c d
  loses : Loses c d → Moves c d
  breaks : (m : BinanceFeedClient) → Reads c m → Loses m d → Moves c d

message-Moves :
    (c : BinanceFeedClient) (now : ℕ) (rng : RandomLike) (o : Outcome)
    → Reads c o.0
    → Moves c (unless_raised now rng o)
unfolding unless_raised
message-Moves c now rng (d, false) h = reads h
message-Moves c now rng (d, true) h = breaks d h (lose-Loses "ws_disconnected" now rng d)

pub run_step-Moves :
    (py : Numerals) (c : BinanceFeedClient) (ph : Phase) (e : Event) → Moves c (run_step py c ph e)
unfolding run_step
run_step-Moves py c between dial = dials refl
run_step-Moves py c dialing (up now) = connects now refl
run_step-Moves py c dialing (timed_out now rng) = loses (lose-Loses "watchdog_tripped" now rng c)
run_step-Moves py c dialing (dropped now rng) = loses (lose-Loses "ws_disconnected" now rng c)
run_step-Moves py c reading (message r raw now rng) =
    message-Moves c now rng (receive py c r raw) (receive-Reads py c r raw)
run_step-Moves py c reading (timed_out now rng) = loses (lose-Loses "watchdog_tripped" now rng c)
run_step-Moves py c reading (dropped now rng) = loses (lose-Loses "ws_disconnected" now rng c)
run_step-Moves py c _ _ = stays refl
