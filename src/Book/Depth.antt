-- ===== src/Book/Depth.antt =====
-- The depth of a `BookEngine` is set once, by `__init__`.
use l2_orderbook_pipeline.Common.{List, [], ◌∷◌, ◌≡◌, refl, arith, filter, Bool-cases, inl, inr}
use l2_orderbook_pipeline.Book.Types.{DiffEvent, SnapshotEvent}
use l2_orderbook_pipeline.Book.Engine.{
  BookEngine, commit, adopt, chains, apply_live, apply_event, replay, survives, straddles,
  load_survivors, load_snapshot, invalidate,
}
use l2_orderbook_pipeline.Book.Invariant.{Call, event, snapshot, reconnect, after_load, step}

apply_live-depth :
    (b : BookEngine) (e : DiffEvent) → (apply_live b e).0.depth_levels ≡ b.depth_levels
unfolding apply_live
apply_live-depth b e = ground arith

replay-depth :
    (es : List DiffEvent) (b : BookEngine) → (replay es b).0.depth_levels ≡ b.depth_levels
unfolding replay apply_live
replay-depth [] b = refl
replay-depth (e ∷ es) b = elim (Bool-cases (chains e b.last_applied_id)) [
  | inl c ↦ rw (c, replay) (replay-depth es (commit b e))
  | inr c ↦ ground arith
]

load_survivors-depth :
    (b : BookEngine) (s : SnapshotEvent) (es : List DiffEvent)
    → (load_survivors b s es).0.depth_levels ≡ b.depth_levels
unfolding load_survivors
load_survivors-depth b s [] = refl
load_survivors-depth b s (e ∷ es) = elim (Bool-cases (straddles s e)) [
  | inl c ↦ rw c (replay-depth es (commit (adopt b s) e))
  | inr c ↦ rw c refl
]

load_snapshot-depth :
    (b : BookEngine) (s : SnapshotEvent)
    → (after_load b (load_snapshot b s)).depth_levels ≡ b.depth_levels
unfolding load_snapshot after_load
load_snapshot-depth b s = ground (arith, load_survivors-depth b s (filter (survives s) b.buffer))

pub step-depth : (b : BookEngine) (c : Call) → (step b c).depth_levels ≡ b.depth_levels
unfolding step apply_event invalidate
step-depth b (event e) = ground (arith, apply_live-depth b e)
step-depth b (snapshot s) = load_snapshot-depth b s
step-depth b reconnect = refl
