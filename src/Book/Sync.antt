-- ===== src/Book/Sync.antt =====
-- What the sync protocol of `BookEngine` promises: while it is live, its book is the exchange's
-- book at its checkpoint. The exchange's own book is the specification, given at each update id.
use l2_orderbook_pipeline.Common.{
  ℕ, List, [], ◌∷◌, Option, none, some, ◌≡◌, refl, sym, arith, true, filter, Bool-cases, inl, inr,
  ◌⊎◌, All, All-append, All-filter, subst,
}
use l2_orderbook_pipeline.Common.Int.{ℤ, ℤ_eq, ◌≤ℤ◌, ◌<ℤ◌, eq_ℤ→eq}
use l2_orderbook_pipeline.Common.Dict
use l2_orderbook_pipeline.Common.Dict.{Unique}
use l2_orderbook_pipeline.Book.Types.{Decimal, DiffEvent, SnapshotEvent, PriceLevel, Side}
use l2_orderbook_pipeline.Book.Levels.{
  apply_levels, dict_of_levels, last_word, or_else, get-apply_levels, dict_from-Unique,
  empty-Unique,
}
use l2_orderbook_pipeline.Book.Engine.{
  BookEngine, init, commit, adopt, desync, chains, is_live, apply_live, apply_event, replay,
  survives, straddles, load_survivors, load_snapshot, invalidate,
}
use l2_orderbook_pipeline.Book.Invariant.{
  Call, event, snapshot, reconnect, after_load, step, run, WellFormed, init-WellFormed,
  step-WellFormed, run-WellFormed, commit-WellFormed, apply_live-WellFormed, apply_live-is_live,
}

-- An exchange's book of one instrument: the quantity at each price, at each update id.
pub record Exchange : Type 0 where
  pub bid_at : ℤ → Decimal → Option Decimal
  pub ask_at : ℤ → Decimal → Option Decimal

-- The ids from which an event leads to its `final_id`: its `prev_id`, and any id that it straddles.
abbrev pub Covers : DiffEvent → ℤ → Type 0
Covers e i = (i ≡ e.prev_id) ⊎ ((e.prev_id ≤ℤ i) × (i <ℤ e.final_id))

-- The levels carry a side from one book to another.
abbrev pub Carries :
    List PriceLevel → (Decimal → Option Decimal) → (Decimal → Option Decimal) → Type 0
Carries ls before after = (p : Decimal) → after p ≡ or_else (last_word ls p) (before p)

-- A dictionary that holds exactly what the exchange has.
abbrev pub Mirrors : Side → (Decimal → Option Decimal) → Type 0
Mirrors side truth = (p : Decimal) → Dict.get p side ≡ truth p

module _ (x : Exchange) where
  -- The event carries absolute quantities for all that changes from any id that it covers.
  pub record Truthful (e : DiffEvent) : Type 0 where
    pub bids_carry : (i : ℤ) → Covers e i → Carries e.bids (x.bid_at i) (x.bid_at e.final_id)
    pub asks_carry : (i : ℤ) → Covers e i → Carries e.asks (x.ask_at i) (x.ask_at e.final_id)

  -- The snapshot is the exchange's book at its id.
  pub record TruthfulSnapshot (s : SnapshotEvent) : Type 0 where
    pub bids_mirror : Mirrors (dict_of_levels s.bids) (x.bid_at s.last_update_id)
    pub asks_mirror : Mirrors (dict_of_levels s.asks) (x.ask_at s.last_update_id)

  unfoldable pub TruthfulCall : Call → Type 0
  TruthfulCall (event e) = Truthful e
  TruthfulCall (snapshot s) = TruthfulSnapshot s
  TruthfulCall reconnect = Unit

  -- The book is the exchange's at the checkpoint, and what is buffered is the exchange's own.
  pub record Faithful (b : BookEngine) : Type 0 where
    pub bids_at : (i : ℤ) → b.last_applied_id ≡ some i → Mirrors b.bids (x.bid_at i)
    pub asks_at : (i : ℤ) → b.last_applied_id ≡ some i → Mirrors b.asks (x.ask_at i)
    pub buffered_true : All Truthful b.buffer

  mirror_step :
      (side : Side) (ls : List PriceLevel) (before after : Decimal → Option Decimal)
      → Unique side
      → Mirrors side before
      → Carries ls before after
      → Mirrors (apply_levels side ls) after
  mirror_step side ls before after u m c p = ground (arith, get-apply_levels side ls p u, m p, c p)

  commit-Faithful :
      (b : BookEngine) (e : DiffEvent) (i : ℤ)
      → Unique b.bids
      → Unique b.asks
      → Mirrors b.bids (x.bid_at i)
      → Mirrors b.asks (x.ask_at i)
      → Covers e i
      → Truthful e
      → All Truthful b.buffer
      → Faithful (commit b e)
  commit-Faithful b e i u v mb ma c t ts = record {
    bids_at = λ j h.
        subst (λ k. Mirrors (commit b e).bids (x.bid_at k)) (cc)
          (mirror_step b.bids e.bids _ _ u mb (t.bids_carry i c));
    asks_at = λ j h.
        subst (λ k. Mirrors (commit b e).asks (x.ask_at k)) (cc)
          (mirror_step b.asks e.asks _ _ v ma (t.asks_carry i c));
    buffered_true = ts;
  }

  desync-Faithful : (b : BookEngine) (e : DiffEvent) → Truthful e → Faithful (desync b e)
  desync-Faithful b e t = record {
    bids_at = λ i h. cc;
    asks_at = λ i h. cc;
    buffered_true = (t, tt);
  }

  chains-Covers :
      (e : DiffEvent) (o : Option ℤ) → chains e o ≡ true → (i : ℤ) × (o ≡ some i) × Covers e i
  chains-Covers e none h = cc
  chains-Covers e (some i) h = (i, refl, inl (sym (eq_ℤ→eq e.prev_id i h)))

  apply_live-Faithful :
      (b : BookEngine) (e : DiffEvent)
      → WellFormed b
      → Truthful e
      → Faithful b
      → Faithful (apply_live b e).0
  unfolding apply_live
  apply_live-Faithful b e w t f = elim (Bool-cases (chains e b.last_applied_id)) [
    | inl c ↦ rw c (
        let (i, at, covers) = chains-Covers e b.last_applied_id c in
        commit-Faithful b e i w.bids_unique w.asks_unique (f.bids_at i at) (f.asks_at i at) covers t
          f.buffered_true)
    | inr c ↦ rw c (desync-Faithful b e t)
  ]

  replay-Faithful :
      (es : List DiffEvent) (b : BookEngine)
      → is_live b.state ≡ true
      → WellFormed b
      → All Truthful es
      → Faithful b
      → Faithful (replay es b).0
  unfolding replay
  replay-Faithful [] b l w ts f = f
  replay-Faithful (e ∷ es) b l w ts f = grind (
    arith,
    apply_live-Faithful b e w ts.0 f,
    apply_live-WellFormed b e l w,
    apply_live-is_live b e,
    replay-Faithful es (apply_live b e).0,
  )

  straddles-Covers :
      (s : SnapshotEvent) (e : DiffEvent) → straddles s e ≡ true → Covers e s.last_update_id
  straddles-Covers s e h = ground arith

  load_survivors-Faithful :
      (b : BookEngine) (s : SnapshotEvent) (es : List DiffEvent)
      → TruthfulSnapshot s
      → All Truthful es
      → Faithful b
      → Faithful (load_survivors b s es).0
  unfolding load_survivors
  load_survivors-Faithful b s [] t ts f = record {
    bids_at = λ i h. subst (λ k. Mirrors (dict_of_levels s.bids) (x.bid_at k)) (cc) t.bids_mirror;
    asks_at = λ i h. subst (λ k. Mirrors (dict_of_levels s.asks) (x.ask_at k)) (cc) t.asks_mirror;
    buffered_true = tt;
  }
  load_survivors-Faithful b s (e ∷ es) t ts f = elim (Bool-cases (straddles s e)) [
    | inl c ↦ rw c (
        let u = dict_from-Unique [] s.bids empty-Unique in
        let v = dict_from-Unique [] s.asks empty-Unique in
        replay-Faithful es (commit (adopt b s) e) refl
          (commit-WellFormed (adopt b s) e refl refl u v) ts.1
          (commit-Faithful (adopt b s) e s.last_update_id u v t.bids_mirror t.asks_mirror
            (straddles-Covers s e c) ts.0 tt))
    | inr c ↦ rw c f
  ]

  apply_event-Faithful :
      (b : BookEngine) (e : DiffEvent)
      → WellFormed b
      → Truthful e
      → Faithful b
      → Faithful (apply_event b e).0
  unfolding apply_event
  apply_event-Faithful b e w t f = elim (Bool-cases (is_live b.state)) [
    | inl l ↦ rw l (apply_live-Faithful b e w t f)
    | inr l ↦ rw l (record {
      bids_at = f.bids_at;
      asks_at = f.asks_at;
      buffered_true = All-append Truthful b.buffer (e ∷ []) f.buffered_true (t, tt);
    })
  ]

  load_snapshot-Faithful :
      (b : BookEngine) (s : SnapshotEvent)
      → TruthfulSnapshot s
      → Faithful b
      → Faithful (after_load b (load_snapshot b s))
  unfolding load_snapshot after_load
  load_snapshot-Faithful b s t f = elim (Bool-cases (is_live b.state)) [
    | inl l ↦ rw l f
    | inr l ↦ rw l (
        load_survivors-Faithful b s (filter (survives s) b.buffer) t
          (All-filter Truthful (survives s) b.buffer f.buffered_true) f)
  ]

  invalidate-Faithful : (b : BookEngine) → Faithful (invalidate b)
  unfolding invalidate
  invalidate-Faithful b = record { bids_at = λ i h. cc; asks_at = λ i h. cc; buffered_true = tt }

  pub step-Faithful :
      (b : BookEngine) (c : Call) → WellFormed b → TruthfulCall c → Faithful b → Faithful (step b c)
  unfolding step TruthfulCall
  step-Faithful b (event e) w t f = apply_event-Faithful b e w t f
  step-Faithful b (snapshot s) w t f = load_snapshot-Faithful b s t f
  step-Faithful b reconnect w t f = invalidate-Faithful b

  pub init-Faithful : (depth : ℕ) → Faithful (init depth)
  unfolding init
  init-Faithful depth = record { bids_at = λ i h. cc; asks_at = λ i h. cc; buffered_true = tt }

  run-Faithful :
      (b : BookEngine) (cs : List Call)
      → WellFormed b
      → All TruthfulCall cs
      → Faithful b
      → Faithful (run b cs)
  unfolding run
  run-Faithful b [] w ts f = f
  run-Faithful b (c ∷ cs) w ts f =
      run-Faithful (step b c) cs (step-WellFormed b c w) ts.1 (step-Faithful b c w ts.0 f)

  -- Feed a new engine any of the exchange's events and snapshots, in any order, with any of them
  -- lost, repeated, delayed or swapped, and with reconnects anywhere: whenever the engine is live
  -- it has a checkpoint, and both sides of its book are the exchange's at that checkpoint. (An
  -- event of the exchange tells the new quantity of each price that changes from any id that it
  -- covers to its last one; a snapshot is the book at its id.)
  pub live_book_true :
      (depth : ℕ) (cs : List Call)
      → All TruthfulCall cs
      → is_live (run (init depth) cs).state ≡ true
      → (i : ℤ) × ((run (init depth) cs).last_applied_id ≡ some i)
        × Mirrors (run (init depth) cs).bids (x.bid_at i)
        × Mirrors (run (init depth) cs).asks (x.ask_at i)
  live_book_true depth cs ts l =
      let w = run-WellFormed (init depth) cs (init-WellFormed depth) in
      let f = run-Faithful (init depth) cs (init-WellFormed depth) ts (init-Faithful depth) in
      let (i, at) = (w.live_shape l).0 in (i, at, f.bids_at i at, f.asks_at i at)
