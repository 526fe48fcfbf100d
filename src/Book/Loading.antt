-- ===== src/Book/Loading.antt =====
-- The engine's state by the results of `load_snapshot` and `apply_event`.
use l2_orderbook_pipeline.Common.{
  List, [], ◌∷◌, some, ◌≡◌, ◌≢◌, ◌⊎◌, refl, arith, true, false, filter, Bool-cases, inl, inr,
}
use l2_orderbook_pipeline.Book.Types.{
  DiffEvent, SnapshotEvent, ApplyStatus, applied, buffered, gap_detected,
}
use l2_orderbook_pipeline.Book.Engine.{
  apply_event, BookEngine, is_live, chains, adopt, commit, survives, straddles, apply_live, replay,
  load_survivors, load_snapshot,
}

replay_applied :
    (es : List DiffEvent) (b : BookEngine)
    → is_live b.state ≡ true
    → (replay es b).1 ≡ applied
    → is_live (replay es b).0.state ≡ true
unfolding replay apply_live
replay_applied [] b l h = l
replay_applied (e ∷ es) b l h = elim (Bool-cases (chains e b.last_applied_id)) [
  | inl c ↦ rw (c, replay) (replay_applied es (commit b e) l (ground arith))
  | inr c ↦ ground arith
]

load_survivors_applied :
    (b : BookEngine) (s : SnapshotEvent) (es : List DiffEvent)
    → (load_survivors b s es).1 ≡ applied
    → is_live (load_survivors b s es).0.state ≡ true
unfolding load_survivors
load_survivors_applied b s [] h = refl
load_survivors_applied b s (e ∷ es) h = elim (Bool-cases (straddles s e)) [
  | inl c ↦ rw c (replay_applied es (commit (adopt b s) e) refl (ground arith))
  | inr c ↦ ground arith
]

pub load_applied :
    (b c : BookEngine) (s : SnapshotEvent)
    → load_snapshot b s ≡ some (c, applied)
    → is_live c.state ≡ true
unfolding load_snapshot
load_applied b c s h = ground (arith, load_survivors_applied b s (filter (survives s) b.buffer))

replay_lost :
    (es : List DiffEvent) (b : BookEngine)
    → is_live b.state ≡ true
    → (replay es b).1 ≢ applied
    → is_live (replay es b).0.state ≡ false
unfolding replay apply_live
replay_lost [] b l h = absurd (h refl)
replay_lost (e ∷ es) b l h = elim (Bool-cases (chains e b.last_applied_id)) [
  | inl c ↦ rw (c, replay) (replay_lost es (commit b e) l (ground arith))
  | inr c ↦ ground arith
]

load_survivors_lost :
    (b : BookEngine) (s : SnapshotEvent) (es : List DiffEvent)
    → is_live b.state ≡ false
    → (load_survivors b s es).1 ≢ applied
    → is_live (load_survivors b s es).0.state ≡ false
unfolding load_survivors
load_survivors_lost b s [] l h = absurd (h refl)
load_survivors_lost b s (e ∷ es) l h = elim (Bool-cases (straddles s e)) [
  | inl c ↦ rw c (replay_lost es (commit (adopt b s) e) refl (ground arith))
  | inr c ↦ rw c l
]

-- A snapshot that is not applied leaves the engine out of sync.
pub load_lost :
    (b c : BookEngine) (s : SnapshotEvent) (st : ApplyStatus)
    → load_snapshot b s ≡ some (c, st)
    → st ≢ applied
    → is_live c.state ≡ false
unfolding load_snapshot
load_lost b c s st h n = ground (arith, load_survivors_lost b s (filter (survives s) b.buffer))

-- What `apply_event` does to the state: an engine that is not live only buffers.
pub apply_event-cases :
    (b : BookEngine) (e : DiffEvent)
    → ((is_live b.state ≡ false)
        × ((apply_event b e).1 ≡ buffered)
        × (is_live (apply_event b e).0.state ≡ false))
      ⊎ ((is_live b.state ≡ true)
          × ((apply_event b e).1 ≡ applied)
          × (is_live (apply_event b e).0.state ≡ true))
      ⊎ ((is_live b.state ≡ true)
          × ((apply_event b e).1 ≡ gap_detected)
          × (is_live (apply_event b e).0.state ≡ false))
unfolding apply_event apply_live
apply_event-cases b e = ground arith
