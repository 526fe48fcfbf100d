-- ===== src/Supervisor/Budget.antt =====
-- The restart budget of `_run_feed`: crashes counted over a rolling window.
use mathlib.Core.List.{append_assoc, append-nil}
use l2_orderbook_pipeline.Common.{
  ℕ, ◌+◌, ◌-◌, ◌≤◌, ◌<◌, List, [], ◌∷◌, ◌++◌, ◌≡◌, ◌↔◌, refl, sym, ap, ◌∙◌, arith, Bool, true, ltb,
  length, length-append, filter, All, inl, inr,
}
use l2_orderbook_pipeline.Feeds.Connection.{RandomLike}
use l2_orderbook_pipeline.Supervisor.{
  permanently_failed, serving, FeedEntry, Config, new_feed, recent, on_crash, crashed, feed_step,
}
use l2_orderbook_pipeline.Supervisor.Crashes.{
  Crash, crashes, times, gives_up, dies, sleeps, answer, next, next-cases, ended-crashes,
  feed_step-crashed,
}

module _ {ℓ} {A : Type ℓ} where
  filter-append : (p : A → Bool) (xs ys : List A) → filter p (xs ++ ys) ≡ filter p xs ++ filter p ys
  filter-append p [] ys = refl
  filter-append p (x ∷ xs) ys = ground (arith, filter-append p xs ys)

  filter-filter :
      (p q : A → Bool) (xs : List A)
      → ((x : A) → p x ≡ true → q x ≡ true)
      → filter p (filter q xs) ≡ filter p xs
  filter-filter p q [] h = refl
  filter-filter p q (x ∷ xs) h = ground (arith, filter-filter p q xs h, h x)

-- The times within the window that ends at `now`.
abbrev pub within : Config → ℕ → List ℕ → List ℕ
within c now ts = filter (λ t. ltb (now - t) c.restart_window) ts

within-recent :
    (c : Config) (now last : ℕ) (ts : List ℕ)
    → now ≤ last
    → within c last (recent c.restart_window now ts) ≡ within c last (ts ++ now ∷ [])
within-recent c now last ts h =
    filter-append _ (within c now ts) (now ∷ [])
    ∙ ap (λ xs. xs ++ within c last (now ∷ [])) (filter-filter _ _ ts (λ t p. ground arith))
    ∙ sym (filter-append _ ts (now ∷ []))

-- What a feed that still serves remembers of its crashes is, for any later window, as good as the list
-- of all of them.
restart_times-crashes :
    (cs : List Crash) (c : Config) (f : FeedEntry) (last : ℕ)
    → f.task ≡ serving
    → (crashes c f cs).task ≡ serving
    → All (λ t. t ≤ last) (times cs)
    → within c last (crashes c f cs).restart_times ≡ within c last (f.restart_times ++ times cs)
unfolding crashes
restart_times-crashes [] c f last h serves before = rw append-nil refl
restart_times-crashes ((now, rng) ∷ cs) c f last h serves before = elim (next-cases c f now rng h) [
  | inl e ↦
      (let k =
          sym serves
          ∙ ap (λ (g : FeedEntry). g.task) (ended-crashes c (next c f now rng) cs e)
          ∙ e in
        cc)
  | inr e ↦
      restart_times-crashes cs c (next c f now rng) last (ap (λ (g : FeedEntry). g.task) e) serves
        before.1
      ∙ ap (λ (g : FeedEntry). within c last (g.restart_times ++ times cs)) e
      ∙ filter-append _ (recent c.restart_window now f.restart_times) (times cs)
      ∙ ap (λ xs. xs ++ within c last (times cs))
          (within-recent c now last f.restart_times before.0)
      ∙ sym (filter-append _ (f.restart_times ++ now ∷ []) (times cs))
      ∙ ap (within c last) (append_assoc f.restart_times (now ∷ []) (times cs))
]

gives_up-state :
    (c : Config) (f : FeedEntry) (now : ℕ) (rng : RandomLike)
    → ((on_crash c f now rng).state ≡ permanently_failed)
      ↔ (c.max_restarts < length (recent c.restart_window now f.restart_times))
gives_up-state c f now rng = elim (answer c f now rng) [
  | gives_up n e ↦ rw e (λ _. n, λ _. refl)
  | dies n _ e ↦ rw e (λ h. cc, λ m. ground arith)
  | sleeps n _ e ↦ rw e (λ h. cc, λ m. ground arith)
]

-- A feed that serves after any crashes is given up for good at a further crash exactly when more than
-- `max_restarts` of all its crashes, the new one included, lie within the window that ends there, the
-- clock not having gone back.
pub permanently_failed_iff :
    (c : Config) (cs : List Crash) (now : ℕ) (rng : RandomLike)
    → (crashes c new_feed cs).task ≡ serving
    → All (λ t. t ≤ now) (times cs)
    → ((feed_step c (crashes c new_feed cs) (crashed now rng)).state ≡ permanently_failed)
      ↔ (c.max_restarts < length (within c now (times cs)) + 1)
permanently_failed_iff c cs now rng serves before =
    let e = restart_times-crashes cs c new_feed now refl serves before in
    let f = crashes c new_feed cs in
    let g = gives_up-state c f now rng in
    rw (feed_step-crashed c f now rng serves) (
      let n = length-append (within c now f.restart_times) (now ∷ []) in
      let m = ap length e in (λ h. let k = g.0 h in omega arith, λ h. g.1 (omega arith)))
