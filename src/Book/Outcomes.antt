-- ===== src/Book/Outcomes.antt =====
-- What each call of `BookEngine` does on each of its branches, and when an engine becomes and
-- stays synchronised.
use l2_orderbook_pipeline.Common.{
  List, [], ◌∷◌, ◌++◌, Option, none, some, ◌≡◌, ◌≢◌, ◌↔◌, refl, sym, ap, ◌∙◌, arith, true, false,
  filter, Bool-cases, inl, inr, All, subst,
}
use l2_orderbook_pipeline.Common.Int.{ℤ, ℤ_eq, ◌≤ℤ◌, eq_ℤ→eq, eq_ℤ_refl}
use l2_orderbook_pipeline.Book.Types.{
  DiffEvent, SnapshotEvent, ApplyStatus, gap_detected, resyncing, buffered, applied, snapshot_stale,
}
use l2_orderbook_pipeline.Book.Engine.{
  BookEngine, commit, adopt, desync, chains, is_live, apply_live, apply_event, replay, survives,
  straddles, load_survivors, load_snapshot,
}

-- Each event begins at the id where the one before it ends.
abbrev pub Chain : ℤ → List DiffEvent → Type 0
Chain i [] = Unit
Chain i (e ∷ es) = (e.prev_id ≡ i) × Chain e.final_id es

-- The id at which a chain ends.
abbrev pub chain_end : ℤ → List DiffEvent → ℤ
chain_end i [] = i
chain_end i (e ∷ es) = chain_end e.final_id es

abbrev pub apply_events : BookEngine → List DiffEvent → BookEngine
apply_events b [] = b
apply_events b (e ∷ es) = apply_events (apply_event b e).0 es

some_eq {ℓ} : {A : Type ℓ} {x y : A} → some x ≡ some y → x ≡ y
some_eq h = cc

none≢some {ℓ} : {A : Type ℓ} {x : A} → none ≢ some x
none≢some h = cc

stale≢gap : snapshot_stale ≢ gap_detected
stale≢gap h = cc

chains_of_eq :
    (e : DiffEvent) (o : Option ℤ) (i : ℤ) → o ≡ some i → e.prev_id ≡ i → chains e o ≡ true
chains_of_eq e o i h p = rw (h, p) (eq_ℤ_refl i)

eq_of_chains : (e : DiffEvent) (o : Option ℤ) → chains e o ≡ true → o ≡ some e.prev_id
eq_of_chains e none h = cc
eq_of_chains e (some i) h = ap some (sym (eq_ℤ→eq e.prev_id i h))

-- A gap is reported exactly when the engine is live and the event does not begin at the
-- checkpoint.
pub gap_iff :
    (b : BookEngine) (e : DiffEvent)
    → ((apply_event b e).1 ≡ gap_detected)
      ↔ ((is_live b.state ≡ true) × (b.last_applied_id ≢ some e.prev_id))
unfolding apply_event apply_live
gap_iff b e = (
  λ h. (ground arith, λ p. ground (arith, chains_of_eq e b.last_applied_id e.prev_id p refl)),
  λ h. elim (Bool-cases (chains e b.last_applied_id)) [
    | inl c ↦ absurd (h.1 (eq_of_chains e b.last_applied_id c))
    | inr c ↦ rw (h.0, c)
  ],
)

-- A gap throws the book, the checkpoint and whatever was buffered away, and keeps the event that
-- showed it as the only buffered one.
pub gap_restarts :
    (b : BookEngine) (e : DiffEvent)
    → (apply_event b e).1 ≡ gap_detected
    → (apply_event b e).0 ≡ desync b e
unfolding apply_event apply_live
gap_restarts b e h = ground arith

-- An event that arrives while the engine is not live is appended to the buffer, and nothing else
-- changes.
pub apply_event_idle :
    (b : BookEngine) (e : DiffEvent)
    → is_live b.state ≡ false
    → apply_event b e ≡ (record b { buffer = b.buffer ++ e ∷ [] }, buffered)
unfolding apply_event
apply_event_idle b e h = rw h

apply_live_chained :
    (b : BookEngine) (e : DiffEvent) (i : ℤ)
    → b.last_applied_id ≡ some i
    → e.prev_id ≡ i
    → apply_live b e ≡ (commit b e, applied)
unfolding apply_live
apply_live_chained b e i at p = rw (chains_of_eq e b.last_applied_id i at p)

apply_event_chained :
    (b : BookEngine) (e : DiffEvent) (i : ℤ)
    → is_live b.state ≡ true
    → b.last_applied_id ≡ some i
    → e.prev_id ≡ i
    → apply_event b e ≡ (commit b e, applied)
unfolding apply_event
apply_event_chained b e i l at p = rw l (apply_live_chained b e i at p)

-- A live engine takes every event of a chain that begins at its checkpoint: it stays live, and
-- its checkpoint is then the end of the chain.
pub Chain-applies :
    (es : List DiffEvent) (b : BookEngine) (i : ℤ)
    → is_live b.state ≡ true
    → b.last_applied_id ≡ some i
    → Chain i es
    → (is_live (apply_events b es).state ≡ true)
      × ((apply_events b es).last_applied_id ≡ some (chain_end i es))
Chain-applies [] b i l at c = (l, at)
Chain-applies (e ∷ es) b i l at c =
    subst
      (λ b'.
        (is_live (apply_events b' es).state ≡ true)
        × ((apply_events b' es).last_applied_id ≡ some (chain_end e.final_id es)))
      (sym (ap (λ r. r.0) (apply_event_chained b e i l at c.0)))
      (Chain-applies es (commit b e) e.final_id l refl c.1)

replay-Chain :
    (es : List DiffEvent) (b : BookEngine) (i : ℤ)
    → is_live b.state ≡ true
    → b.last_applied_id ≡ some i
    → Chain i es
    → ((replay es b).1 ≡ applied)
      × (is_live (replay es b).0.state ≡ true)
      × ((replay es b).0.last_applied_id ≡ some (chain_end i es))
unfolding replay
replay-Chain [] b i l at c = (refl, l, at)
replay-Chain (e ∷ es) b i l at c =
    rw (apply_live_chained b e i at c.0) (replay-Chain es (commit b e) e.final_id l refl c.1)

-- `load_snapshot` raises exactly when the engine is live.
pub load_raises_iff :
    (b : BookEngine) (s : SnapshotEvent) → (load_snapshot b s ≡ none) ↔ (is_live b.state ≡ true)
unfolding load_snapshot
load_raises_iff b s = ground arith

replay-ne-stale : (es : List DiffEvent) (b : BookEngine) → (replay es b).1 ≢ snapshot_stale
unfolding replay apply_live
replay-ne-stale [] b h = cc
replay-ne-stale (e ∷ es) b h = ground (arith, replay-ne-stale es (apply_live b e).0)

-- The buffered events that a snapshot does not already contain.
abbrev pub survivors : BookEngine → SnapshotEvent → List DiffEvent
survivors b s = filter (survives s) b.buffer

load_survivors_stale :
    (b : BookEngine) (s : SnapshotEvent) (es : List DiffEvent)
    → (load_survivors b s es).1 ≡ snapshot_stale
    → ((load_survivors b s es).0 ≡ b)
      × ((first : DiffEvent) × (rest : List DiffEvent) × (es ≡ first ∷ rest)
          × (straddles s first ≡ false))
unfolding load_survivors
load_survivors_stale b s [] h = cc
load_survivors_stale b s (e ∷ es) h = elim (Bool-cases (straddles s e)) [
  | inl c ↦ absurd (replay-ne-stale es (commit (adopt b s) e) (rw c at h))
  | inr c ↦ (ground arith, (e, es, refl, c))
]

-- On an engine that is not live a snapshot always synchronises, if the events that it does not
-- contain are a chain whose first event straddles it: the engine is live at the chain's end.
pub load_synchronises :
    (b : BookEngine) (s : SnapshotEvent) (first : DiffEvent) (rest : List DiffEvent)
    → is_live b.state ≡ false
    → survivors b s ≡ first ∷ rest
    → straddles s first ≡ true
    → Chain first.final_id rest
    → (c : BookEngine) × (load_snapshot b s ≡ some (c, applied))
      × (is_live c.state ≡ true)
      × (c.last_applied_id ≡ some (chain_end first.final_id rest))
unfolding load_snapshot load_survivors
load_synchronises b s first rest l q t c =
    let start = commit (adopt b s) first in
    let (done, alive, at) = replay-Chain rest start first.final_id refl refl c in
    (
      (replay rest start).0,
      rw (l, q, t) (ap (λ st. some ((replay rest start).0, st)) done),
      alive,
      at,
    )

filter_none :
    (s : SnapshotEvent) (es : List DiffEvent)
    → All (λ e. e.final_id ≤ℤ s.last_update_id) es
    → filter (survives s) es ≡ []
filter_none s [] h = refl
filter_none s (e ∷ es) h = ground (arith, filter_none s es h.1)

-- A snapshot that is at least as new as everything buffered always synchronises, at its own id,
-- with its own book.
pub newest_synchronises :
    (b : BookEngine) (s : SnapshotEvent)
    → is_live b.state ≡ false
    → All (λ e. e.final_id ≤ℤ s.last_update_id) b.buffer
    → load_snapshot b s
      ≡ some (record (adopt b s) { last_applied_id = some s.last_update_id }, applied)
unfolding load_snapshot load_survivors
newest_synchronises b s l h = rw (l, filter_none s b.buffer h)

replay_gap :
    (es : List DiffEvent) (b : BookEngine)
    → (replay es b).1 ≡ gap_detected
    → (c : BookEngine) × (e : DiffEvent) × ((replay es b).0 ≡ desync c e)
unfolding replay apply_live
replay_gap [] b h = cc
replay_gap (e ∷ es) b h = elim (Bool-cases (chains e b.last_applied_id)) [
  | inl c ↦ rw (c, replay) (replay_gap es (commit b e) (ground arith))
  | inr c ↦ (b, e, rw c)
]

load_survivors_gap :
    (b : BookEngine) (s : SnapshotEvent) (es : List DiffEvent)
    → (load_survivors b s es).1 ≡ gap_detected
    → (c : BookEngine) × (e : DiffEvent) × ((load_survivors b s es).0 ≡ desync c e)
unfolding load_survivors
load_survivors_gap b s [] h = cc
load_survivors_gap b s (e ∷ es) h = elim (Bool-cases (straddles s e)) [
  | inl c ↦ rw c (replay_gap es (commit (adopt b s) e) (rw c at h))
  | inr c ↦ absurd (stale≢gap (rw c at h))
]

load_result :
    (b c : BookEngine) (s : SnapshotEvent) (st : ApplyStatus)
    → load_snapshot b s ≡ some (c, st)
    → load_survivors b s (survivors b s) ≡ (c, st)
unfolding load_snapshot
load_result b c s st h = elim (Bool-cases (is_live b.state)) [
  | inl l ↦ absurd (none≢some (rw l at h))
  | inr l ↦ some_eq (rw l at h)
]

-- A snapshot is reported stale only where the first buffered event beyond it does not straddle
-- it, and the engine is then exactly as it was.
pub stale_unchanged :
    (b c : BookEngine) (s : SnapshotEvent)
    → load_snapshot b s ≡ some (c, snapshot_stale)
    → (c ≡ b)
      × ((first : DiffEvent) × (rest : List DiffEvent) × (survivors b s ≡ first ∷ rest)
          × (straddles s first ≡ false))
stale_unchanged b c s h =
    let r = load_result b c s snapshot_stale h in
    let (same, why) = load_survivors_stale b s (survivors b s) (ap (λ q. q.1) r) in
    (sym (ap (λ q. q.0) r) ∙ same, why)

-- A gap found while the buffer is replayed leaves the engine out of sync, with an empty book, no
-- checkpoint, and one event in the buffer: the events buffered behind it are gone.
pub load_gap :
    (b c : BookEngine) (s : SnapshotEvent)
    → load_snapshot b s ≡ some (c, gap_detected)
    → (c.state ≡ resyncing)
      × (c.last_applied_id ≡ none)
      × (c.bids ≡ [])
      × (c.asks ≡ [])
      × ((e : DiffEvent) × (c.buffer ≡ e ∷ []))
load_gap b c s h =
    let r = load_result b c s gap_detected h in
    let (d, e, q) = load_survivors_gap b s (survivors b s) (ap (λ x. x.1) r) in
    let p : c ≡ desync d e = sym (ap (λ x. x.0) r) ∙ q in rw p (refl, refl, refl, refl, (e, refl))
