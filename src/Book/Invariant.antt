-- ===== src/Book/Invariant.antt =====
-- What holds of a `BookEngine` between two calls of its methods, and runs of calls.
use l2_orderbook_pipeline.Common.{
  ℕ, ◌≢◌, List, [], ◌∷◌, Option, none, some, ◌≡◌, refl, arith, true, false, filter, Bool-cases, inl,
  inr,
}
use l2_orderbook_pipeline.Common.Int.{ℤ, ℤ_eq}
use l2_orderbook_pipeline.Common.Dict.{Unique}
use l2_orderbook_pipeline.Book.Types.{DiffEvent, SnapshotEvent, ApplyStatus, gap_detected}
use l2_orderbook_pipeline.Book.Levels.{apply_levels-Unique, dict_from-Unique, empty-Unique}
use l2_orderbook_pipeline.Book.Engine.{
  BookEngine, init, commit, adopt, desync, chains, is_live, apply_live, apply_event, replay,
  survives, straddles, load_survivors, load_snapshot, invalidate,
}

-- A call of a method that changes the engine.
pub data Call : Type 0 where
  event : DiffEvent → Call
  snapshot : SnapshotEvent → Call
  reconnect : Call

-- The engine after `load_snapshot`; the `ValueError` is raised before anything is written.
unfoldable pub after_load : BookEngine → Option (BookEngine × ApplyStatus) → BookEngine
after_load b none = b
after_load b (some r) = r.0

unfoldable pub step : BookEngine → Call → BookEngine
unfolding after_load
step b (event e) = (apply_event b e).0
step b (snapshot s) = after_load b (load_snapshot b s)
step b reconnect = invalidate b

unfoldable pub run : BookEngine → List Call → BookEngine
run b [] = b
run b (c ∷ cs) = run (step b c) cs

-- Synchronised: a checkpoint, and nothing buffered. Not: no checkpoint, and an empty book. Either
-- way no price stands twice in a side.
pub record WellFormed (b : BookEngine) : Type 0 where
  pub live_shape :
      is_live b.state ≡ true → ((i : ℤ) × (b.last_applied_id ≡ some i)) × (b.buffer ≡ [])
  pub idle_shape :
      is_live b.state ≡ false → (b.last_applied_id ≡ none) × (b.bids ≡ []) × (b.asks ≡ [])
  pub bids_unique : Unique b.bids
  pub asks_unique : Unique b.asks

pub init-WellFormed : (depth : ℕ) → WellFormed (init depth)
unfolding init
init-WellFormed depth = record {
  live_shape = λ h. cc;
  idle_shape = λ h. (refl, refl, refl);
  bids_unique = empty-Unique;
  asks_unique = empty-Unique;
}

desync-WellFormed : (b : BookEngine) (e : DiffEvent) → WellFormed (desync b e)
desync-WellFormed b e = record {
  live_shape = λ h. cc;
  idle_shape = λ h. (refl, refl, refl);
  bids_unique = empty-Unique;
  asks_unique = empty-Unique;
}

pub commit-WellFormed :
    (b : BookEngine) (e : DiffEvent)
    → is_live b.state ≡ true
    → b.buffer ≡ []
    → Unique b.bids
    → Unique b.asks
    → WellFormed (commit b e)
commit-WellFormed b e l n u v = record {
  live_shape = λ h. ((e.final_id, refl), n);
  idle_shape = λ h. ground arith;
  bids_unique = apply_levels-Unique b.bids e.bids u;
  asks_unique = apply_levels-Unique b.asks e.asks v;
}

-- `_apply_live` is called while the engine is live with nothing buffered.
pub apply_live-WellFormed :
    (b : BookEngine) (e : DiffEvent)
    → is_live b.state ≡ true
    → WellFormed b
    → WellFormed (apply_live b e).0
unfolding apply_live
apply_live-WellFormed b e l w = elim (Bool-cases (chains e b.last_applied_id)) [
  | inl c ↦ rw c (commit-WellFormed b e l (w.live_shape l).1 w.bids_unique w.asks_unique)
  | inr c ↦ rw c (desync-WellFormed b e)
]

pub apply_live-is_live :
    (b : BookEngine) (e : DiffEvent)
    → (apply_live b e).1 ≢ gap_detected
    → is_live b.state ≡ true
    → is_live (apply_live b e).0.state ≡ true
unfolding apply_live
apply_live-is_live b e n l = ground arith

replay-WellFormed :
    (es : List DiffEvent) (b : BookEngine)
    → is_live b.state ≡ true
    → WellFormed b
    → WellFormed (replay es b).0
unfolding replay
replay-WellFormed [] b l w = w
replay-WellFormed (e ∷ es) b l w = grind (
  arith,
  apply_live-WellFormed b e l w,
  apply_live-is_live b e,
  replay-WellFormed es (apply_live b e).0,
)

load_survivors-WellFormed :
    (b : BookEngine) (s : SnapshotEvent) (es : List DiffEvent)
    → WellFormed b
    → WellFormed (load_survivors b s es).0
unfolding load_survivors
load_survivors-WellFormed b s [] w = record {
  live_shape = λ h. ((s.last_update_id, refl), refl);
  idle_shape = λ h. cc;
  bids_unique = dict_from-Unique [] s.bids empty-Unique;
  asks_unique = dict_from-Unique [] s.asks empty-Unique;
}
load_survivors-WellFormed b s (e ∷ es) w = elim (Bool-cases (straddles s e)) [
  | inl c ↦ rw c (
      replay-WellFormed es (commit (adopt b s) e) refl (
        commit-WellFormed (adopt b s) e refl refl (dict_from-Unique [] s.bids empty-Unique)
          (dict_from-Unique [] s.asks empty-Unique)))
  | inr c ↦ rw c w
]

load_snapshot-WellFormed :
    (b : BookEngine) (s : SnapshotEvent)
    → WellFormed b
    → WellFormed (after_load b (load_snapshot b s))
unfolding load_snapshot after_load
load_snapshot-WellFormed b s w = elim (Bool-cases (is_live b.state)) [
  | inl l ↦ rw l w
  | inr l ↦ rw l (load_survivors-WellFormed b s (filter (survives s) b.buffer) w)
]

apply_event-WellFormed :
    (b : BookEngine) (e : DiffEvent) → WellFormed b → WellFormed (apply_event b e).0
unfolding apply_event
apply_event-WellFormed b e w = elim (Bool-cases (is_live b.state)) [
  | inl l ↦ rw l (apply_live-WellFormed b e l w)
  | inr l ↦ rw l (record {
    live_shape = λ h. cc;
    idle_shape = w.idle_shape;
    bids_unique = w.bids_unique;
    asks_unique = w.asks_unique;
  })
]

invalidate-WellFormed : (b : BookEngine) → WellFormed (invalidate b)
unfolding invalidate
invalidate-WellFormed b = record {
  live_shape = λ h. ground arith;
  idle_shape = λ h. (refl, refl, refl);
  bids_unique = empty-Unique;
  asks_unique = empty-Unique;
}

pub step-WellFormed : (b : BookEngine) (c : Call) → WellFormed b → WellFormed (step b c)
unfolding step
step-WellFormed b (event e) w = apply_event-WellFormed b e w
step-WellFormed b (snapshot s) w = load_snapshot-WellFormed b s w
step-WellFormed b reconnect w = invalidate-WellFormed b

-- Whatever calls are made on a new engine, in whatever order: while it is live it has a
-- checkpoint and buffers nothing, otherwise it has no checkpoint and an empty book, and no price
-- ever stands twice in a side.
pub run-WellFormed : (b : BookEngine) (cs : List Call) → WellFormed b → WellFormed (run b cs)
unfolding run
run-WellFormed b [] w = w
run-WellFormed b (c ∷ cs) w = run-WellFormed (step b c) cs (step-WellFormed b c w)
