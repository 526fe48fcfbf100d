-- ===== src/Supervisor/Isolation.antt =====
-- Feeds do not touch one another, and only the sink's end or a request shuts the supervisor down.
use mathlib.Core.Option
use Prim.Native.String.{String}
use text.Mathlib.Text.{◌==◌ as str_eq}
use text.Mathlib.TextEquality.{eq_iff}
use l2_orderbook_pipeline.Common.{
  List, [], ◌∷◌, Option, none, some, ◌≡◌, refl, sym, subst, ap, ◌∙◌, true, false, All, Bool-cases,
  inl, inr, if◌then◌else◌,
}
use l2_orderbook_pipeline.Common.Dict
use l2_orderbook_pipeline.Common.Texts.{string_Eq}
use l2_orderbook_pipeline.Common.Dict.{get-set}
use l2_orderbook_pipeline.Supervisor.{
  Task, serving, sleeping, ended, FeedEntry, FeedSupervisor, Config, Event, feed, sink_ended,
  shutdown_requested, FeedEvent, cancelled, crashed, woke, feed_step, task_step, update_feed, step,
  cancel_feed, cancel_all, cancel_tasks, gather, returned, run,
}

-- Events of other feeds.
abbrev pub Elsewhere : String → Event → Type 0
Elsewhere name (feed n e) = str_eq n name ≡ false
Elsewhere name sink_ended = ⊥
Elsewhere name shutdown_requested = ⊥

update_feed-elsewhere :
    (s : FeedSupervisor) (n name : String) (e : FeedEvent) (o : Option FeedEntry)
    → str_eq n name ≡ false
    → (Dict.get name (update_feed s n e o).feeds ≡ Dict.get name s.feeds)
      × ((update_feed s n e o).shutdown ≡ s.shutdown)
unfolding update_feed
update_feed-elsewhere s n name e none h = (refl, refl)
update_feed-elsewhere s n name e (some f) h =
    (get-set n name (feed_step s.config f e) s.feeds ∙ rw h refl, refl)

step-Elsewhere :
    (s : FeedSupervisor) (name : String) (e : Event)
    → Elsewhere name e
    → (Dict.get name (step s e).feeds ≡ Dict.get name s.feeds) × ((step s e).shutdown ≡ s.shutdown)
unfolding step
step-Elsewhere s name (feed n e) h = update_feed-elsewhere s n name e (Dict.get n s.feeds) h
step-Elsewhere s name sink_ended h = elim h [ ]
step-Elsewhere s name shutdown_requested h = elim h [ ]

run-alive :
    (e : Event) (es : List Event) (s : FeedSupervisor)
    → s.shutdown ≡ false
    → run s (e ∷ es) ≡ run (step s e) es
unfolding run
run-alive e es s h = ap (λ b. if b then gather (cancel_tasks s) (e ∷ es) else run (step s e) es) h

run-waits : (s : FeedSupervisor) → s.shutdown ≡ false → run s [] ≡ s
unfolding run
run-waits s h = ap (λ b. if b then cancel_tasks s else s) h

-- Whatever the other feeds do, crashes, deaths and all: a feed keeps its entry, and the supervisor
-- does not shut down.
pub isolated :
    (es : List Event) (s : FeedSupervisor) (name : String)
    → s.shutdown ≡ false
    → All (Elsewhere name) es
    → (Dict.get name (run s es).feeds ≡ Dict.get name s.feeds) × ((run s es).shutdown ≡ false)
isolated [] s name h a =
    let w = run-waits s h in
    (
      ap (λ (t : FeedSupervisor). Dict.get name t.feeds) w,
      ap (λ (t : FeedSupervisor). t.shutdown) w ∙ h,
    )
isolated (e ∷ es) s name h a =
    let k = step-Elsewhere s name e a.0 in
    let ih = isolated es (step s e) name (k.1 ∙ h) a.1 in
    let w = run-alive e es s h in
    (
      ap (λ (t : FeedSupervisor). Dict.get name t.feeds) w ∙ ih.0 ∙ k.0,
      ap (λ (t : FeedSupervisor). t.shutdown) w ∙ ih.1,
    )

run-shutdown :
    (es : List Event) (s : FeedSupervisor)
    → s.shutdown ≡ true
    → run s es ≡ gather (cancel_tasks s) es
unfolding run gather
run-shutdown [] s h = rw h refl
run-shutdown (e ∷ es) s h = rw h refl

-- What a feed's factory makes of a cancellation, its first event of all: it lets it out or returns.
abbrev pub LetsOut : String → List Event → Type 0
LetsOut name [] = ⊥
LetsOut name (feed n cancelled ∷ es) = if str_eq n name then Unit else LetsOut name es
LetsOut name (feed n returned ∷ es) = if str_eq n name then Unit else LetsOut name es
LetsOut name (feed n e ∷ es) = if str_eq n name then ⊥ else LetsOut name es
LetsOut name (sink_ended ∷ es) = LetsOut name es
LetsOut name (shutdown_requested ∷ es) = LetsOut name es

get-cancel_all :
    (name : String) (fs : List (String × FeedEntry)) (f : FeedEntry)
    → Dict.get name fs ≡ some f
    → Dict.get name (cancel_all fs) ≡ some (cancel_feed f f.task)
unfolding cancel_all Dict.get
get-cancel_all name [] f h = cc
get-cancel_all name ((n, g) ∷ fs) f h = elim (Bool-cases (str_eq n name)) [
  | inl y ↦
      let first : Dict.get name ((n, g) ∷ fs) ≡ some g = rw y refl in
      rw y (ap (Option.map (λ (g : FeedEntry). cancel_feed g g.task)) (sym first ∙ h))
  | inr y ↦
      let later : Dict.get name ((n, g) ∷ fs) ≡ Dict.get name fs = rw y refl in
      rw y (get-cancel_all name fs f (sym later ∙ h))
]

step-own :
    (s : FeedSupervisor) (n name : String) (e : FeedEvent) (f : FeedEntry)
    → str_eq n name ≡ true
    → Dict.get name s.feeds ≡ some f
    → Dict.get name (step s (feed n e)).feeds ≡ some (feed_step s.config f e)
unfolding step update_feed
step-own s n name e f y h =
    let same = (eq_iff n name).0 y in
    rw (ap (λ k. Dict.get k s.feeds) same ∙ h)
      (get-set n name (feed_step s.config f e) s.feeds ∙ rw y refl)

-- The feed is there, and its task is done.
abbrev pub IsDone : String → FeedSupervisor → Type 0
IsDone name s = (f : FeedEntry) × (Dict.get name s.feeds ≡ some f) × (f.task ≡ ended)

ended_feed : (c : Config) (f : FeedEntry) (e : FeedEvent) → f.task ≡ ended → feed_step c f e ≡ f
unfolding feed_step task_step
ended_feed c f e h = rw h refl

step-elsewhere :
    (s : FeedSupervisor) (n name : String) (e : FeedEvent) (f : FeedEntry)
    → str_eq n name ≡ false
    → Dict.get name s.feeds ≡ some f
    → Dict.get name (step s (feed n e)).feeds ≡ some f
unfolding step
step-elsewhere s n name e f h g = (update_feed-elsewhere s n name e (Dict.get n s.feeds) h).0 ∙ g

step-ended :
    (s : FeedSupervisor) (name : String) (e : Event) (f : FeedEntry)
    → Dict.get name s.feeds ≡ some f
    → f.task ≡ ended
    → Dict.get name (step s e).feeds ≡ some f
unfolding step
step-ended s name (feed n e) f g d = elim (Bool-cases (str_eq n name)) [
  | inl y ↦ step-own s n name e f y g ∙ ap some (ended_feed s.config f e d)
  | inr y ↦ step-elsewhere s n name e f y g
]
step-ended s name sink_ended f g d = g
step-ended s name shutdown_requested f g d = g

-- A task that is done stays so.
gather-ended :
    (es : List Event) (s : FeedSupervisor) (name : String) (f : FeedEntry)
    → Dict.get name s.feeds ≡ some f
    → f.task ≡ ended
    → IsDone name (gather s es)
unfolding gather
gather-ended [] s name f g d = (f, g, d)
gather-ended (e ∷ es) s name f g d = gather-ended es (step s e) name f (step-ended s name e f g d) d

let_out :
    (s : FeedSupervisor) (n name : String) (e : FeedEvent) (f : FeedEntry) (es : List Event)
    → Dict.get name s.feeds ≡ some f
    → (feed_step s.config f e).task ≡ ended
    → (str_eq n name ≡ false → IsDone name (gather (step s (feed n e)) es))
    → IsDone name (gather (step s (feed n e)) es)
let_out s n name e f es g d later = elim (Bool-cases (str_eq n name)) [
  | inl y ↦
      gather-ended es (step s (feed n e)) name (feed_step s.config f e) (step-own s n name e f y g)
        d
  | inr y ↦ later y
]

passed_by :
    (n name : String) (A : Type 0) (es : List Event)
    → str_eq n name ≡ false
    → (if str_eq n name then A else LetsOut name es)
    → LetsOut name es
passed_by n name A es h l = subst (λ b. if b then A else LetsOut name es) h l

-- A task whose factory answers the cancellation gets done.
gather-serving :
    (es : List Event) (s : FeedSupervisor) (name : String) (f : FeedEntry)
    → Dict.get name s.feeds ≡ some f
    → f.task ≡ serving
    → LetsOut name es
    → IsDone name (gather s es)
unfolding gather feed_step task_step
gather-serving [] s name f g d l = elim l [ ]
gather-serving (feed n cancelled ∷ es) s name f g d l =
    let_out s n name cancelled f es g (rw d refl) (λ y.
      gather-serving es (step s (feed n cancelled)) name f (step-elsewhere s n name cancelled f y g)
        d (passed_by n name Unit es y l))
gather-serving (feed n returned ∷ es) s name f g d l =
    let_out s n name returned f es g (rw d refl) (λ y.
      gather-serving es (step s (feed n returned)) name f (step-elsewhere s n name returned f y g) d
        (passed_by n name Unit es y l))
gather-serving (feed n (crashed now rng) ∷ es) s name f g d l = elim (Bool-cases (str_eq n name)) [
  | inl y ↦ elim (subst (λ b. if b then ⊥ else LetsOut name es) y l) [ ]
  | inr y ↦
      gather-serving es (step s (feed n (crashed now rng))) name f
        (step-elsewhere s n name (crashed now rng) f y g) d (passed_by n name ⊥ es y l)
]
gather-serving (feed n woke ∷ es) s name f g d l = elim (Bool-cases (str_eq n name)) [
  | inl y ↦ elim (subst (λ b. if b then ⊥ else LetsOut name es) y l) [ ]
  | inr y ↦
      gather-serving es (step s (feed n woke)) name f (step-elsewhere s n name woke f y g) d
        (passed_by n name ⊥ es y l)
]
gather-serving (sink_ended ∷ es) s name f g d l =
    gather-serving es (step s sink_ended) name f (unfold step in g) d l
gather-serving (shutdown_requested ∷ es) s name f g d l =
    gather-serving es (step s shutdown_requested) name f (unfold step in g) d l

-- The flags, once both are down for good.
abbrev Down : FeedSupervisor → Type 0
Down s = (s.shutdown ≡ true) × (s.sink_running ≡ false)

update_feed-Down :
    (s : FeedSupervisor) (n : String) (e : FeedEvent) (o : Option FeedEntry)
    → Down s
    → Down (update_feed s n e o)
unfolding update_feed
update_feed-Down s n e none d = d
update_feed-Down s n e (some f) d = d

gather-Down : (es : List Event) (s : FeedSupervisor) → Down s → Down (gather s es)
unfolding gather step
gather-Down [] s d = d
gather-Down (feed n e ∷ es) s d =
    gather-Down es (step s (feed n e)) (update_feed-Down s n e (Dict.get n s.feeds) d)
gather-Down (sink_ended ∷ es) s d = gather-Down es (step s sink_ended) (refl, refl)
gather-Down (shutdown_requested ∷ es) s d = gather-Down es (step s shutdown_requested) (refl, d.1)

-- A cancelled task is done, or it is in its factory as before.
cancelled_task :
    (es : List Event) (s : FeedSupervisor) (name : String) (f : FeedEntry) (t : Task)
    → f.task ≡ t
    → Dict.get name s.feeds ≡ some (cancel_feed f t)
    → (f.task ≡ serving → LetsOut name es)
    → IsDone name (gather s es)
unfolding cancel_feed
cancelled_task es s name f serving e g l = gather-serving es s name f g e (l e)
cancelled_task es s name f sleeping e g l =
    gather-ended es s name (record f { task = ended }) g refl
cancelled_task es s name f ended e g l = gather-ended es s name f g e

-- When the sink ends, in whatever state a feed is and whatever else happens: the shutdown flag is set and
-- stays so, the sink is done, and the feed's task gets done, provided that a factory that is at work lets
-- the cancellation out or returns, and raises no exception of its own.
pub sink_end_stops_all :
    (s : FeedSupervisor) (es : List Event) (name : String) (f : FeedEntry)
    → s.shutdown ≡ false
    → Dict.get name s.feeds ≡ some f
    → (f.task ≡ serving → LetsOut name es)
    → let t = run s (sink_ended ∷ es) in
      (t.shutdown ≡ true) × (t.sink_running ≡ false) × IsDone name t
unfolding cancel_tasks step
sink_end_stops_all s es name f h g l =
    let u = step s sink_ended in
    let e = run-alive sink_ended es s h ∙ run-shutdown es u refl in
    let down = gather-Down es (cancel_tasks u) (refl, refl) in
    subst (λ t. (t.shutdown ≡ true) × (t.sink_running ≡ false) × IsDone name t) (sym e)
      (
        down.0,
        down.1,
        cancelled_task es (cancel_tasks u) name f f.task refl (get-cancel_all name s.feeds f g) l,
      )
