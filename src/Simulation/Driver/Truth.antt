-- ===== src/Simulation/Driver/Truth.antt =====
-- The simulation as a whole: an engine behind the fault injector never holds a wrong book.
use l2_orderbook_pipeline.Common.{
  ℕ, zero, suc, ◌+◌, List, [], ◌∷◌, Option, none, some, ◌≡◌, refl, sym, ap, ◌∙◌, subst, arith, ltb,
  take, get_elem?, All, Bool-cases, inl, inr, length, ◌&&◌,
}
use l2_orderbook_pipeline.Book.Types.{DiffEvent, SnapshotEvent, ApplyStatus}
use l2_orderbook_pipeline.Book.Engine.{BookEngine, apply_event, load_snapshot}
use l2_orderbook_pipeline.Book.Invariant.{
  WellFormed, event, snapshot as snapshot_call, after_load, step-WellFormed,
}
use l2_orderbook_pipeline.Book.Invariant
use l2_orderbook_pipeline.Book.Sync.{
  Exchange, Truthful, TruthfulSnapshot, Faithful, TruthfulCall, step-Faithful,
}
use l2_orderbook_pipeline.Simulation.Market
use l2_orderbook_pipeline.Simulation.Market.{MarketSimulator, StepDraw, snapshot}
use l2_orderbook_pipeline.Simulation.Market.History.{IfStepped, step-Stepped}
use l2_orderbook_pipeline.Simulation.Market.Oracle.{
  Sound, market_at, oracle, market_at-suc, event_true, snapshot_true,
}
use l2_orderbook_pipeline.Simulation.Faults.{
  FaultInjector, FaultRolls, FaultType, SnapshotDraw, poll_with, advance, deliver, by_rolls, inject,
  rolled, rolls_of, request_snapshot, second, serve, add_record, fired, delayed_snapshot, drop_one,
  drop_burst, duplicate, reorder, disconnect,
}
use l2_orderbook_pipeline.Simulation.Driver.{SimulatedFeedDriver, apply_all}

module _ (start : MarketSimulator) (draws : ℕ → StepDraw) where
  abbrev x : Exchange
  x = oracle start draws

  -- What the injector holds is the market's own.
  pub record Genuine (i : FaultInjector) : Type 0 where
    pub is_at : i.market ≡ market_at start draws i.step
    pub id_is : i.market.update_id ≡ i.step
    pub held_true : (e : DiffEvent) → i.held ≡ some e → Truthful x e
    pub history_true : All (λ (h : ℕ × SnapshotEvent). TruthfulSnapshot x h.1) i.snapshot_history

  -- Delivered from an injector that has taken its step: only true events, and the step stays.
  unfoldable pub Delivers : ℕ → FaultInjector × List DiffEvent → Type 0
  Delivers n r = Genuine r.0 × (r.0.step ≡ n) × All (Truthful x) r.1

  inject-Delivers :
      (i : FaultInjector) (step : ℕ) (e : DiffEvent) (len : ℕ) (f : FaultType)
      → Truthful x e
      → i.held ≡ none
      → Genuine i
      → Delivers i.step (inject i step e len f)
  unfolding inject Delivers
  inject-Delivers i step e len disconnect t n g = (
    record {
      is_at = g.is_at;
      id_is = g.id_is;
      held_true = g.held_true;
      history_true = g.history_true;
    },
    refl,
    tt,
  )
  inject-Delivers i step e len drop_burst t n g = (
    record {
      is_at = g.is_at;
      id_is = g.id_is;
      held_true = g.held_true;
      history_true = g.history_true;
    },
    refl,
    tt,
  )
  inject-Delivers i step e len drop_one t n g = (
    record {
      is_at = g.is_at;
      id_is = g.id_is;
      held_true = g.held_true;
      history_true = g.history_true;
    },
    refl,
    tt,
  )
  inject-Delivers i step e len duplicate t n g = (
    record {
      is_at = g.is_at;
      id_is = g.id_is;
      held_true = g.held_true;
      history_true = g.history_true;
    },
    refl,
    (t, (t, tt)),
  )
  inject-Delivers i step e len reorder t n g = (
    record {
      is_at = g.is_at;
      id_is = g.id_is;
      held_true = λ e' h. subst (Truthful x) (cc) t;
      history_true = g.history_true;
    },
    refl,
    tt,
  )
  inject-Delivers i step e len delayed_snapshot t n g = (g, refl, (t, tt))

  by_rolls-Delivers :
      (i : FaultInjector) (step : ℕ) (e : DiffEvent) (len : ℕ) (fs : List FaultType)
      → Truthful x e
      → i.held ≡ none
      → Genuine i
      → Delivers i.step (by_rolls i step e len fs)
  unfolding by_rolls Delivers
  by_rolls-Delivers i step e len [] t n g = (g, refl, (t, tt))
  by_rolls-Delivers i step e len (f ∷ fs) t n g = inject-Delivers _ step e len f t n (record {
    is_at = g.is_at;
    id_is = g.id_is;
    held_true = g.held_true;
    history_true = g.history_true;
  })

  deliver-Delivers :
      (i : FaultInjector) (step : ℕ) (e : DiffEvent) (r : FaultRolls) (o : Option DiffEvent)
      → i.held ≡ o
      → Truthful x e
      → Genuine i
      → Delivers i.step (deliver i step e r o)
  unfolding deliver Delivers
  deliver-Delivers i step e r (some held) h t g = (
    record {
      is_at = g.is_at;
      id_is = g.id_is;
      held_true = λ e' k. cc;
      history_true = g.history_true;
    },
    refl,
    (t, (g.held_true held h, tt)),
  )
  deliver-Delivers i step e r none h t g = elim (Bool-cases (ltb 0 i.window_remaining)) [
    | inl b ↦ rw b (
      record {
        is_at = g.is_at;
        id_is = g.id_is;
        held_true = g.held_true;
        history_true = g.history_true;
      },
      refl,
      tt,
    )
    | inr b ↦ rw b (by_rolls-Delivers i step e r.window_length (rolled (rolls_of r)) t h g)
  ]

  All-take :
      (n : ℕ) (hs : List (ℕ × SnapshotEvent))
      → All (λ h. TruthfulSnapshot x h.1) hs
      → All (λ (h : ℕ × SnapshotEvent). TruthfulSnapshot x h.1) (take n hs)
  All-take zero hs a = tt
  All-take (suc n) [] a = tt
  All-take (suc n) (h ∷ hs) a = (a.0, All-take n hs a.1)

  advance-Genuine :
      (i : FaultInjector) (m : MarketSimulator)
      → Sound start
      → Genuine i
      → market_at start draws (suc i.step) ≡ m
      → m.update_id ≡ suc i.step
      → Genuine (advance i m)
  advance-Genuine i m s g at id = record {
    is_at = sym (ap (market_at start draws) (omega arith) ∙ at);
    id_is = omega (arith, id);
    held_true = g.held_true;
    history_true = All-take i.history_len _ (
      subst (λ k. TruthfulSnapshot x (snapshot k)) at
          (snapshot_true start draws s (suc i.step)
            (ap (λ (k : MarketSimulator). k.update_id) at ∙ id)),
      g.history_true,
    );
  }

  unfoldable pub IfPolled : ℕ → Option (FaultInjector × List DiffEvent) → Type 0
  IfPolled n none = Unit
  IfPolled n (some r) = Delivers n r

  pub poll-Delivers :
      (i : FaultInjector) (r : FaultRolls) (o : Option (MarketSimulator × DiffEvent))
      → Sound start
      → Genuine i
      → Market.step i.market (draws i.step) ≡ o
      → IfPolled (i.step + 1) (poll_with i r o)
  unfolding poll_with IfPolled
  poll-Delivers i r none s g h = tt
  poll-Delivers i r (some (m, e)) s g h =
      let here = subst (λ k. Market.step k (draws i.step) ≡ some (m, e)) g.is_at h in
      let at = market_at-suc start draws i.step m e here in
      let st = subst (IfStepped i.market) h (step-Stepped i.market (draws i.step)) in
      let true_event =
        event_true start draws s i.step m e
          (ap (λ (k : MarketSimulator). k.update_id) (sym g.is_at) ∙ g.id_is) here in
      let id : m.update_id ≡ suc i.step = omega (arith, st.next_id, g.id_is) in
      deliver-Delivers (advance i m) i.step e r i.held refl true_event
        (advance-Genuine i m s g at id)

  -- A served snapshot is true, and the injector goes on at the same step.
  unfoldable pub Serves : ℕ → Option (FaultInjector × SnapshotEvent) → Type 0
  Serves n none = Unit
  Serves n (some r) = Genuine r.0 × (r.0.step ≡ n) × TruthfulSnapshot x r.1

  second-true :
      (hs : List (ℕ × SnapshotEvent)) (k : ℕ) (s : SnapshotEvent)
      → All (λ (h : ℕ × SnapshotEvent). TruthfulSnapshot x h.1) hs
      → second (get_elem? hs k) ≡ some s
      → TruthfulSnapshot x s
  second-true [] k s a h = cc
  second-true ((n, t) ∷ hs) zero s a h = subst (TruthfulSnapshot x) (cc) a.0
  second-true ((n, t) ∷ hs) (suc k) s a h = second-true hs k s a.1 h

  serve-Serves :
      (i : FaultInjector) (o : Option SnapshotEvent)
      → Genuine i
      → ((s : SnapshotEvent) → o ≡ some s → TruthfulSnapshot x s)
      → Serves i.step (serve i o)
  unfolding Serves
  serve-Serves i none g h = tt
  serve-Serves i (some s) g h = (g, refl, h s refl)

  pub request-Serves :
      (i : FaultInjector) (d : SnapshotDraw) → Genuine i → Serves i.step (request_snapshot i d)
  unfolding request_snapshot
  request-Serves i d g = elim (Bool-cases (ltb 1 (length i.snapshot_history) && d.delayed)) [
    | inl b ↦ rw b (
        serve-Serves (add_record i (fired i.step delayed_snapshot)) _
          (record {
            is_at = g.is_at;
            id_is = g.id_is;
            held_true = g.held_true;
            history_true = g.history_true;
          })
          (λ s h. second-true i.snapshot_history d.lookback s g.history_true h))
    | inr b ↦ rw b (serve-Serves i _ g (λ s h. second-true i.snapshot_history 0 s g.history_true h))
  ]

  -- The driver's part: the engine was given true events and snapshots only.
  pub record GenuineRun (s : SimulatedFeedDriver) : Type 0 where
    pub injector_genuine : Genuine s.injector
    pub in_step : s.injector.step ≡ s.step
    pub well_formed : WellFormed s.engine
    pub faithful : Faithful x s.engine

  pub apply_all-Faithful :
      (es : List DiffEvent) (b : BookEngine)
      → All (Truthful x) es
      → WellFormed b
      → Faithful x b
      → WellFormed (apply_all b es).0 × Faithful x (apply_all b es).0
  unfolding apply_all Invariant.step
  apply_all-Faithful [] b ts w f = (w, f)
  apply_all-Faithful (e ∷ es) b ts w f =
      apply_all-Faithful es (apply_event b e).0 ts.1 (step-WellFormed b (event e) w)
        (step-Faithful x b (event e) w (unfold TruthfulCall in ts.0) f)

  pub load-Faithful :
      (b c : BookEngine) (snap : SnapshotEvent) (st : ApplyStatus)
      → TruthfulSnapshot x snap
      → WellFormed b
      → Faithful x b
      → load_snapshot b snap ≡ some (c, st)
      → WellFormed c × Faithful x c
  unfolding Invariant.step after_load
  load-Faithful b c snap st t w f h = (
    subst (λ o. WellFormed (after_load b o)) h (step-WellFormed b (snapshot_call snap) w),
    subst (λ o. Faithful x (after_load b o)) h
        (step-Faithful x b (snapshot_call snap) w (unfold TruthfulCall in t) f),
  )
