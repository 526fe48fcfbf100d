-- ===== src/Config/Escapes.antt =====
-- Exceptions other than `ConfigError` that get out of `load_config`.
use l2_orderbook_pipeline.Common.{
  [], ◌∷◌, Option, none, some, ◌≡◌, ◌≢◌, refl, arith, Bool, true, false, ◌⊎◌, inl, inr,
}
use l2_orderbook_pipeline.Common.Options.{◌>>=◌, traverse}
use l2_orderbook_pipeline.Feeds.Json.{
  Json, null, bool, int, float, str, arr, obj, Fields, find, iterate, as_dict,
}
use l2_orderbook_pipeline.Config.{
  AppConfig, Result, ok, config_error, escapes, ◌and_then◌, structural, parsed, or_else_value,
  policy_of, path_of, parse_exchange, parse_output, is_at_most_zero, is_empty, lacks_symbols,
  depth_checked, keywords, validate, build, load_config,
}

and_then-escapes {ℓ κ} :
    {A : Type ℓ} {B : Type κ} (r : Result A) (f : A → Result B)
    → r and_then f ≡ escapes
    → (r ≡ escapes) ⊎ ((a : A) × (r ≡ ok a) × (f a ≡ escapes))
and_then-escapes (ok a) f h = inr (a, refl, h)
and_then-escapes (config_error r) f h = cc
and_then-escapes escapes f h = inl refl

structural-escapes {ℓ κ} :
    {A : Type ℓ} {B : Type κ} (o : Option A) (f : A → Result B)
    → structural o and_then f ≡ escapes
    → (a : A) × (o ≡ some a) × (f a ≡ escapes)
structural-escapes none f h = cc
structural-escapes (some a) f h = (a, refl, h)

policy_of-caught : (x : Json) → policy_of x ≢ escapes
policy_of-caught (str s) h = ground arith
policy_of-caught null h = cc
policy_of-caught (bool b) h = cc
policy_of-caught (int n) h = cc
policy_of-caught (float n d) h = cc
policy_of-caught (arr xs) h = cc
policy_of-caught (obj fs) h = cc

parse_output-escapes : (x : Json) → parse_output x ≡ escapes → as_dict x ≡ none
unfolding parse_output
parse_output-escapes (obj fs) h =
    elim (and_then-escapes
      (policy_of (or_else_value (str "drop_oldest") (find "overflow_policy" fs))) _ h) [
        | inl e ↦
            absurd
              (policy_of-caught (or_else_value (str "drop_oldest") (find "overflow_policy" fs)) e)
        | inr (p, e, k) ↦
            (let (dir, d, m) = structural-escapes (path_of (find "parquet_dir" fs)) _ k in cc)
      ]
parse_output-escapes _ h = refl

abbrev pub OutputIsNoMapping : Fields → Type 0
OutputIsNoMapping raw = (v : Json) × (find "output" raw ≡ some v) × (as_dict v ≡ none)

build-escapes : (raw : Fields) → build raw ≡ escapes → OutputIsNoMapping raw
unfolding build
build-escapes raw h =
    let (es, e1, h1) =
      structural-escapes (find "exchanges" raw >>= iterate >>= traverse parse_exchange) _ h in
    let (book, e2, h2) =
      structural-escapes (keywords ("depth_levels" ∷ []) (find "book" raw)) _ h1 in
    let (v, e3, h3) = structural-escapes (find "output" raw) _ h2 in
    elim (and_then-escapes (parse_output v) _ h3) [
      | inl e ↦ (v, e3, parse_output-escapes v e)
      | inr (o, e4, h4) ↦
          (let (m, e5, h5) =
              structural-escapes (keywords ("prometheus_port" ∷ []) (find "metrics" raw)) _ h4 in
            let (l, e6, h6) =
              structural-escapes (keywords ("level" ∷ "format" ∷ []) (find "logging" raw)) _ h5 in
            cc)
    ]

depth_checked-escapes : (c : AppConfig) (o : Option Bool) → depth_checked c o ≡ escapes → o ≡ none
depth_checked-escapes c none h = refl
depth_checked-escapes c (some true) h = cc
depth_checked-escapes c (some false) h = cc

validate-escapes : (c : AppConfig) → validate c ≡ escapes → is_at_most_zero c.depth_levels ≡ none
unfolding validate
validate-escapes c h = ground (arith, depth_checked-escapes c (is_at_most_zero c.depth_levels))

-- From a mapping, an exception other than `ConfigError` gets out of `load_config` for two reasons only: the section "output" is
-- no mapping, or everything is read, and the depth is no number.
pub load_config-escapes :
    (raw : Fields)
    → load_config (parsed (obj raw)) ≡ escapes
    → OutputIsNoMapping raw
      ⊎ ((c : AppConfig) × (build raw ≡ ok c) × (is_at_most_zero c.depth_levels ≡ none))
unfolding load_config
load_config-escapes raw h = elim (and_then-escapes (build raw) validate h) [
  | inl e ↦ inl (build-escapes raw e)
  | inr (c, e, k) ↦ inr (c, e, validate-escapes c k)
]

-- And a depth that is no number does get out, where the exchanges have symbols.
pub text_depth_escapes :
    (raw : Fields) (c : AppConfig)
    → build raw ≡ ok c
    → is_empty c.exchanges ≡ false
    → lacks_symbols c.exchanges ≡ false
    → is_at_most_zero c.depth_levels ≡ none
    → load_config (parsed (obj raw)) ≡ escapes
unfolding load_config validate
text_depth_escapes raw c b e s d = rw (b, e, s, d) refl
