-- ===== src/App/Wiring.antt =====
-- What `_run_pipeline` makes of the exchanges of a configuration.
use Prim.Native.String.{String}
use text.Mathlib.Text.{◌==◌ as str_eq}
use text.Mathlib.TextEquality.{eq_iff}
use mathlib.Core.List.{append_assoc, append-nil}
use l2_orderbook_pipeline.Common.{
  ℕ, List, [], ◌∷◌, ◌++◌, Option, none, some, ◌≡◌, refl, sym, ap, ◌∙◌, arith, true, ◌||◌, All,
  All-append, map, if◌then◌else◌,
}
use l2_orderbook_pipeline.Common.Dict
use l2_orderbook_pipeline.Common.Dict.{get-set}
use l2_orderbook_pipeline.Common.Texts.{string_Eq}
use l2_orderbook_pipeline.Supervisor
use l2_orderbook_pipeline.Supervisor.{FeedSupervisor, Config, FeedEntry, new_feed, add_feed}
use l2_orderbook_pipeline.Metrics.{FeedRegistration, SinkStats, Gathered, collect}
use l2_orderbook_pipeline.Metrics.Scrapes.{is_known, set-is_known, collect_total}
use l2_orderbook_pipeline.App.{
  Exchange, CurrentFeedClient, Pipeline, add_exchange, add_exchanges, run_pipeline, registration,
}

abbrev Watched : FeedSupervisor → Exchange → Type 0
Watched s e = is_known e.name s.feeds ≡ true

add_feed-Watched :
    (s : FeedSupervisor) (n : String) (e : Exchange)
    → (str_eq n e.name || is_known e.name s.feeds) ≡ true
    → Watched (add_feed s n) e
unfolding add_feed
add_feed-Watched s n e k = set-is_known n e.name new_feed s.feeds k

-- All that is registered was added to the supervisor.
feeds-Watched :
    (s : FeedSupervisor) (n : String) (es : List Exchange)
    → All (Watched s) es
    → All (Watched (add_feed s n)) es
feeds-Watched s n [] a = tt
feeds-Watched s n (e ∷ es) a =
    (add_feed-Watched s n e (ground (arith, a.0)), feeds-Watched s n es a.1)

same_name : (n : String) → str_eq n n ≡ true
same_name n = (eq_iff n n).1 refl

add_exchanges-Watched :
    (p : Pipeline) (es : List Exchange)
    → All (Watched p.supervisor) p.registrations
    → All (Watched (add_exchanges p es).supervisor) (add_exchanges p es).registrations
unfolding add_exchanges add_exchange
add_exchanges-Watched p [] a = a
add_exchanges-Watched p (e ∷ es) a = add_exchanges-Watched (add_exchange p e) es (
    All-append (Watched (add_feed p.supervisor e.name)) p.registrations (e ∷ [])
      (feeds-Watched p.supervisor e.name p.registrations a)
      (add_feed-Watched p.supervisor e.name e (ground (arith, same_name e.name)), tt))

registered :
    (current : Exchange → CurrentFeedClient) (s : FeedSupervisor) (es : List Exchange)
    → All (Watched s) es
    → All
        (λ (f : FeedRegistration). is_known f.exchange s.feeds ≡ true)
        (map (registration current) es)
registered current s [] a = tt
registered current s (e ∷ es) a = (a.0, registered current s es a.1)

-- Once the pipeline is put together, a scrape never fails, whatever happens to the feeds and the sink,
-- whatever clients the cells hold, and also if two exchanges have the same name.
pub run_pipeline-scraped :
    (config : Config) (queue_maxsize : ℕ) (exchanges : List Exchange) (es : List Supervisor.Event)
    (current : Exchange → CurrentFeedClient) (sink : SinkStats)
    → let p = run_pipeline config queue_maxsize exchanges in
      (g : Gathered) × (collect
          (Supervisor.run p.supervisor es)
          (map (registration current) p.registrations)
          sink
        ≡ some g)
unfolding run_pipeline
run_pipeline-scraped config queue_maxsize exchanges es current sink =
    let p = run_pipeline config queue_maxsize exchanges in
    let (rs, ss, e, m, l, h) =
      collect_total p.supervisor es (map (registration current) p.registrations) sink
        (registered current p.supervisor p.registrations (add_exchanges-Watched _ exchanges tt)) in
    (_, e)

-- The last of the exchanges with a name.
abbrev pub last_named : String → List Exchange → Option Exchange → Option Exchange
last_named n [] found = found
last_named n (e ∷ es) found = last_named n es (if str_eq e.name n then some e else found)

add_exchanges-factories :
    (p : Pipeline) (es : List Exchange) (n : String)
    → Dict.get n (add_exchanges p es).factories ≡ last_named n es (Dict.get n p.factories)
unfolding add_exchanges add_exchange
add_exchanges-factories p [] n = refl
add_exchanges-factories p (e ∷ es) n =
    add_exchanges-factories (add_exchange p e) es n
    ∙ ap (last_named n es) (get-set e.name n e p.factories)

add_exchanges-registrations :
    (p : Pipeline) (es : List Exchange) → (add_exchanges p es).registrations ≡ p.registrations ++ es
unfolding add_exchanges add_exchange
add_exchanges-registrations p [] = sym (append-nil p.registrations)
add_exchanges-registrations p (e ∷ es) =
    add_exchanges-registrations (add_exchange p e) es ∙ append_assoc p.registrations (e ∷ []) es

-- The feed of a name is made from the last exchange that has it, while every exchange is registered with
-- the metrics: of two exchanges with one name, only the later is fed.
pub run_pipeline-last :
    (config : Config) (queue_maxsize : ℕ) (exchanges : List Exchange) (n : String)
    → let p = run_pipeline config queue_maxsize exchanges in
      (Dict.get n p.factories ≡ last_named n exchanges none) × (p.registrations ≡ exchanges)
unfolding run_pipeline Dict.get
run_pipeline-last config queue_maxsize exchanges n =
    (add_exchanges-factories _ exchanges n, add_exchanges-registrations _ exchanges)
