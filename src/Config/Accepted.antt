-- ===== src/Config/Accepted.antt =====
-- What `load_config` lets through.
use text.Mathlib.Text.{◌==◌ as str_eq}
use l2_orderbook_pipeline.Common.{
  List, [], ◌∷◌, Option, none, some, ◌≡◌, refl, subst, arith, Bool, true, false, Bool-cases, inl,
  inr, All,
}
use l2_orderbook_pipeline.Common.Options.{◌>>=◌, traverse}
use l2_orderbook_pipeline.Feeds.Json.{Json, str, obj, Fields, find, iterate}
use l2_orderbook_pipeline.Config.{
  drop_oldest, ExchangeConfig, OutputConfig, AppConfig, Result, ok, config_error, escapes,
  ◌and_then◌, structural, Source, missing, unreadable, parsed, or_else_value, policy_of, path_of,
  parse_exchange, parse_output, is_at_most_zero, is_empty, lacks_symbols, depth_checked, keywords,
  validate, build, load_config,
}

-- A property of the value, where there is one.
abbrev pub Holds {ℓ κ} : {A : Type ℓ} → (A → Type κ) → Result A → Type κ
Holds P (ok a) = P a
Holds P (config_error r) = Unit
Holds P escapes = Unit

and_then-Holds {ℓ κ μ ν} :
    {A : Type ℓ} {B : Type κ} (Q : A → Type μ) (P : B → Type ν) (r : Result A) (f : A → Result B)
    → Holds Q r
    → ((a : A) → Q a → Holds P (f a))
    → Holds P (r and_then f)
and_then-Holds Q P (ok a) f q h = h a q
and_then-Holds Q P (config_error r) f q h = tt
and_then-Holds Q P escapes f q h = tt

structural-Holds {ℓ κ ν} :
    {A : Type ℓ} {B : Type κ} (P : B → Type ν) (o : Option A) (f : A → Result B)
    → ((a : A) → Holds P (f a))
    → Holds P (structural o and_then f)
structural-Holds P none f h = tt
structural-Holds P (some a) f h = h a

abbrev DropsOldest : OutputConfig → Type 0
DropsOldest o = o.overflow_policy ≡ drop_oldest

policy_of-Holds : (x : Json) → Holds (λ p. p ≡ drop_oldest) (policy_of x)
policy_of-Holds (str s) = elim (Bool-cases (str_eq s "drop_oldest")) [
  | inl h ↦ rw h refl
  | inr h ↦ rw h (elim (Bool-cases (str_eq s "coalesce")) [ inl k ↦ rw k tt | inr k ↦ rw k tt ])
]
policy_of-Holds _ = tt

parse_output-Holds : (x : Json) → Holds DropsOldest (parse_output x)
unfolding parse_output
parse_output-Holds (obj fs) =
    and_then-Holds (λ p. p ≡ drop_oldest) DropsOldest
      (policy_of (or_else_value (str "drop_oldest") (find "overflow_policy" fs))) _
      (policy_of-Holds (or_else_value (str "drop_oldest") (find "overflow_policy" fs)))
      (λ p e. structural-Holds DropsOldest (path_of (find "parquet_dir" fs)) _ (λ dir. e))
parse_output-Holds _ = tt

build-Holds : (raw : Fields) → Holds (λ (c : AppConfig). DropsOldest c.output) (build raw)
unfolding build
build-Holds raw =
    let P = λ (c : AppConfig). DropsOldest c.output in
    structural-Holds P (find "exchanges" raw >>= iterate >>= traverse parse_exchange) _
      (λ exchanges. structural-Holds P (keywords ("depth_levels" ∷ []) (find "book" raw)) _ (λ book.
        structural-Holds P (find "output" raw) _ (λ raw_output.
          and_then-Holds DropsOldest P (parse_output raw_output) _ (parse_output-Holds raw_output)
            (λ output d.
              structural-Holds P (keywords ("prometheus_port" ∷ []) (find "metrics" raw)) _
                (λ metrics.
                  structural-Holds P (keywords ("level" ∷ "format" ∷ []) (find "logging" raw)) _
                    (λ logging. d))))))

-- What is promised of a configuration.
pub record Accepted (c : AppConfig) : Type 0 where
  pub some_exchange : is_empty c.exchanges ≡ false
  pub some_symbols : All (λ (e : ExchangeConfig). is_empty e.symbols ≡ false) c.exchanges
  pub depth_positive : is_at_most_zero c.depth_levels ≡ some false
  pub drops_oldest : c.output.overflow_policy ≡ drop_oldest

lacks_symbols-All :
    (es : List ExchangeConfig)
    → lacks_symbols es ≡ false
    → All (λ (e : ExchangeConfig). is_empty e.symbols ≡ false) es
lacks_symbols-All [] h = tt
lacks_symbols-All (e ∷ es) h = (ground arith, lacks_symbols-All es (ground arith))

depth_checked-Accepted :
    (c : AppConfig)
    → DropsOldest c.output
    → is_empty c.exchanges ≡ false
    → lacks_symbols c.exchanges ≡ false
    → (o : Option Bool) → is_at_most_zero c.depth_levels ≡ o
    → Holds Accepted (depth_checked c o)
depth_checked-Accepted c d h k none e = tt
depth_checked-Accepted c d h k (some true) e = tt
depth_checked-Accepted c d h k (some false) e = record {
  some_exchange = h;
  some_symbols = lacks_symbols-All c.exchanges k;
  depth_positive = e;
  drops_oldest = d;
}

validate-Holds : (c : AppConfig) → DropsOldest c.output → Holds Accepted (validate c)
unfolding validate
validate-Holds c d = elim (Bool-cases (is_empty c.exchanges)) [
  | inl h ↦ rw h tt
  | inr h ↦ rw h (elim (Bool-cases (lacks_symbols c.exchanges)) [
    | inl k ↦ rw k tt
    | inr k ↦ rw k (depth_checked-Accepted c d h k (is_at_most_zero c.depth_levels) refl)
  ])
]

load_config-Holds : (s : Source) → Holds Accepted (load_config s)
unfolding load_config
load_config-Holds missing = tt
load_config-Holds unreadable = tt
load_config-Holds (parsed (obj raw)) =
    and_then-Holds (λ (c : AppConfig). DropsOldest c.output) Accepted (build raw) validate
      (build-Holds raw) validate-Holds
load_config-Holds (parsed _) = tt

-- A configuration that is loaded names at least one exchange, gives each at least one symbol, has a number
-- above zero as its depth, and drops the oldest rows on overflow.
pub load_config-Accepted : (s : Source) (c : AppConfig) → load_config s ≡ ok c → Accepted c
load_config-Accepted s c h = subst (Holds Accepted) h (load_config-Holds s)
