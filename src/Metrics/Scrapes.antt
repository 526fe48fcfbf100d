-- ===== src/Metrics/Scrapes.antt =====
-- What a scrape shows, at any time of the supervisor's run.
use Prim.Native.String.{String}
use text.Mathlib.Text.{◌==◌ as str_eq}
use l2_orderbook_pipeline.Common.{
  ℕ, List, [], ◌∷◌, ◌++◌, Option, none, some, ◌≡◌, refl, sym, ap, ◌∙◌, arith, Bool, true, false,
  ◌||◌, Bool-cases, inl, inr, All, map, filter, if◌then◌else◌, length,
}
use l2_orderbook_pipeline.Common.Options.{◌>>=◌, traverse}
use l2_orderbook_pipeline.Common.Dict
use l2_orderbook_pipeline.Common.Dict.{get-set}
use l2_orderbook_pipeline.Common.Texts.{string_Eq}
use l2_orderbook_pipeline.Supervisor
use l2_orderbook_pipeline.Supervisor.{
  FeedState, running, restarting, permanently_failed, stopped, FeedEntry, FeedSupervisor, Config,
  Event, feed, sink_ended, shutdown_requested, FeedEvent, cancelled, feed_step, update_feed,
  cancel_all, cancel_tasks, gather,
}
use l2_orderbook_pipeline.Metrics.{
  FeedRegistration, SinkStats, Labels, labels_of, counter_family, restart_sample, feed_counters,
  feed_counter_specs, state_set, state_sample, feed_state, sink_metrics, collect,
}

abbrev is_some : Option FeedEntry → Bool
is_some none = false
is_some (some f) = true

abbrev pub is_known : String → List (String × FeedEntry) → Bool
is_known name feeds = is_some (Dict.get name feeds)

-- A write keeps the keys that are there, and adds its own.
pub set-is_known :
    (n name : String) (f : FeedEntry) (feeds : List (String × FeedEntry))
    → (str_eq n name || is_known name feeds) ≡ true
    → is_known name (Dict.set n f feeds) ≡ true
set-is_known n name f feeds k =
    let h = get-set n name f feeds in
    elim (Bool-cases (str_eq n name)) [
      | inl b ↦ ap is_some h ∙ rw b refl
      | inr b ↦ ap is_some h ∙ rw b (sym (rw b refl) ∙ k)
    ]

update_feed-is_known :
    (s : FeedSupervisor) (n name : String) (e : FeedEvent) (o : Option FeedEntry)
    → is_known name s.feeds ≡ true
    → is_known name (update_feed s n e o).feeds ≡ true
unfolding update_feed
update_feed-is_known s n name e none k = k
update_feed-is_known s n name e (some f) k =
    set-is_known n name (feed_step s.config f e) s.feeds (ground arith)

step-is_known :
    (s : FeedSupervisor) (name : String) (e : Event)
    → is_known name s.feeds ≡ true
    → is_known name (Supervisor.step s e).feeds ≡ true
unfolding Supervisor.step
step-is_known s name (feed n e) k = update_feed-is_known s n name e (Dict.get n s.feeds) k
step-is_known s name sink_ended k = k
step-is_known s name shutdown_requested k = k

cancel_all-is_known :
    (name : String) (fs : List (String × FeedEntry))
    → is_known name fs ≡ true
    → is_known name (cancel_all fs) ≡ true
unfolding cancel_all Dict.get
cancel_all-is_known name [] k = k
cancel_all-is_known name ((n, f) ∷ fs) k = elim (Bool-cases (str_eq n name)) [
  | inl b ↦ rw b refl
  | inr b ↦ rw b (cancel_all-is_known name fs (sym (rw b refl) ∙ k))
]

either-is_known :
    (name : String) (b : Bool) (s t : FeedSupervisor)
    → is_known name s.feeds ≡ true
    → is_known name t.feeds ≡ true
    → is_known name (if b then s else t).feeds ≡ true
either-is_known name true s t k l = k
either-is_known name false s t k l = l

gather-is_known :
    (es : List Event) (s : FeedSupervisor) (name : String)
    → is_known name s.feeds ≡ true
    → is_known name (gather s es).feeds ≡ true
unfolding gather
gather-is_known [] s name k = k
gather-is_known (e ∷ es) s name k =
    gather-is_known es (Supervisor.step s e) name (step-is_known s name e k)

cancel_tasks-is_known :
    (s : FeedSupervisor) (name : String)
    → is_known name s.feeds ≡ true
    → is_known name (cancel_tasks s).feeds ≡ true
unfolding cancel_tasks
cancel_tasks-is_known s name k = cancel_all-is_known name s.feeds k

run-is_known :
    (es : List Event) (s : FeedSupervisor) (name : String)
    → is_known name s.feeds ≡ true
    → is_known name (Supervisor.run s es).feeds ≡ true
unfolding Supervisor.run
run-is_known [] s name k =
    either-is_known name s.shutdown (cancel_tasks s) s (cancel_tasks-is_known s name k) k
run-is_known (e ∷ es) s name k =
    either-is_known name s.shutdown (gather (cancel_tasks s) (e ∷ es))
      (Supervisor.run (Supervisor.step s e) es)
      (gather-is_known (e ∷ es) (cancel_tasks s) name (cancel_tasks-is_known s name k))
      (run-is_known es (Supervisor.step s e) name (step-is_known s name e k))

-- Exactly one state holds.
abbrev pub holding : List (String × Bool) → List (String × Bool)
holding = filter (λ p. p.1)

one_state : (st : FeedState) → length (holding (state_set st)) ≡ 1
one_state running = refl
one_state restarting = refl
one_state permanently_failed = refl
one_state stopped = refl

known_entry : (o : Option FeedEntry) → is_some o ≡ true → (f : FeedEntry) × (o ≡ some f)
known_entry none k = cc
known_entry (some f) k = (f, refl)

-- A traversal that never fails, with what each result has to be.
traverse-total {ℓ κ λ₁ μ ν} :
    {A : Type ℓ} {B : Type κ} {C : Type λ₁} (g : A → Option B) (P : A → Type μ) (Q : B → Type ν)
    (of_b : B → C) (of_a : A → C) (xs : List A)
    → ((a : A) → P a → (b : B) × (g a ≡ some b) × (of_b b ≡ of_a a) × Q b)
    → All P xs
    → (bs : List B) × (traverse g xs ≡ some bs) × (map of_b bs ≡ map of_a xs) × All Q bs
traverse-total g P Q of_b of_a [] h a = ([], refl, refl, tt)
traverse-total g P Q of_b of_a (x ∷ xs) h a =
    let (b, e, l, q) = h x a.0 in
    let (bs, es, ls, qs) = traverse-total g P Q of_b of_a xs h a.1 in
    (b ∷ bs, rw (e, es) refl, rw (l, ls) refl, (q, qs))

abbrev Known : FeedSupervisor → FeedRegistration → Type 0
Known s f = is_known f.exchange s.feeds ≡ true

restarts-shown :
    (s : FeedSupervisor) (feeds : List FeedRegistration)
    → All (Known s) feeds
    → (bs : List (Labels × ℕ)) × (traverse (restart_sample s) feeds ≡ some bs)
      × (map (λ b. b.0) bs ≡ map labels_of feeds)
      × All (λ b. Unit {0}) bs
unfolding restart_sample
restarts-shown s feeds a =
    traverse-total (restart_sample s) (Known s) (λ b. Unit {0}) (λ b. b.0) labels_of feeds
      (λ f k.
        let (entry, e) = known_entry (Dict.get f.exchange s.feeds) k in
        (
          (labels_of f, entry.restart_count),
          ap (λ o. o >>= λ (d : FeedEntry). some (labels_of f, d.restart_count)) e,
          refl,
          tt,
        ))
      a

states-shown :
    (s : FeedSupervisor) (feeds : List FeedRegistration)
    → All (Known s) feeds
    → (bs : List (Labels × List (String × Bool))) × (traverse (state_sample s) feeds ≡ some bs)
      × (map (λ b. b.0) bs ≡ map labels_of feeds)
      × All (λ b. length (holding b.1) ≡ 1) bs
unfolding state_sample
states-shown s feeds a =
    traverse-total (state_sample s) (Known s) (λ b. length (holding b.1) ≡ 1) (λ b. b.0) labels_of
      feeds
      (λ f k.
        let (entry, e) = known_entry (Dict.get f.exchange s.feeds) k in
        (
          (labels_of f, state_set entry.state),
          ap (λ o. o >>= λ (d : FeedEntry). some (labels_of f, state_set d.state)) e,
          refl,
          one_state entry.state,
        ))
      a

run-Known :
    (es : List Event) (s : FeedSupervisor) (feeds : List FeedRegistration)
    → All (Known s) feeds
    → All (Known (Supervisor.run s es)) feeds
run-Known es s [] a = tt
run-Known es s (f ∷ feeds) a = (run-is_known es s f.exchange a.0, run-Known es s feeds a.1)

-- Whatever happens to the feeds and the sink: a scrape never fails on a feed that was added to the
-- supervisor; the counter of restarts and the state have one sample for each registration, in their
-- order and under their labels, and of the states of a feed exactly one holds.
pub collect_total :
    (s : FeedSupervisor) (es : List Event) (feeds : List FeedRegistration) (sink : SinkStats)
    → All (λ (f : FeedRegistration). is_known f.exchange s.feeds ≡ true) feeds
    → (restarts : List (Labels × ℕ)) × (states : List (Labels × List (String × Bool))) × (collect
          (Supervisor.run s es)
          feeds
          sink
        ≡ some (record {
          feed_counters =
              map (counter_family feeds) feed_counter_specs
              ++ (record { name = "l2_feed_restarts_total"; samples = restarts }) ∷ [];
          feed_state = record { name = "l2_feed_state"; samples = states };
          sink_metrics = sink_metrics sink;
        }))
      × (map (λ b. b.0) restarts ≡ map labels_of feeds)
      × (map (λ b. b.0) states ≡ map labels_of feeds)
      × All (λ b. length (holding b.1) ≡ 1) states
unfolding collect feed_counters feed_state
collect_total s es feeds sink a =
    let k = run-Known es s feeds a in
    let (rs, re, rl, rq) = restarts-shown (Supervisor.run s es) feeds k in
    let (ss, se, sl, sq) = states-shown (Supervisor.run s es) feeds k in
    (rs, ss, rw (re, se) refl, rl, sl, sq)
