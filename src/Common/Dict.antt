-- ===== src/Common/Dict.antt =====
-- Python's `dict` as an association list in insertion order: a write to a present key keeps its
-- place, a write to a new key goes to the end.
use mathlib.Core.Path.{◌≡◌, refl}
use mathlib.Core.List.{List, [], ◌∷◌}
use mathlib.Core.Option.{Option, none, some}
use native.Mathlib.Omega.{arith}
use l2_orderbook_pipeline.Common.Tests.{Eq, if◌then◌else◌}

module _ {ℓ} {K V : Type ℓ} ⦃e : Eq K⦄ where
  -- `d.get(k)`
  unfoldable pub get : K → List (K × V) → Option V
  get k [] = none
  get k ((j, v) ∷ d) = if e.beq j k then some v else get k d

  -- `d[k] = v`
  unfoldable pub set : K → V → List (K × V) → List (K × V)
  set k v [] = (k, v) ∷ []
  set k v ((j, w) ∷ d) = if e.beq j k then (j, v) ∷ d else (j, w) ∷ set k v d

  -- `d.pop(k, None)`
  unfoldable pub pop : K → List (K × V) → List (K × V)
  pop k [] = []
  pop k ((j, w) ∷ d) = if e.beq j k then d else (j, w) ∷ pop k d

  -- No key stands twice.
  unfoldable pub Unique : List (K × V) → Type ℓ
  Unique [] = Unit
  Unique ((k, v) ∷ d) = (get k d ≡ none) × Unique d

  pub get-set :
      (k j : K) (v : V) (d : List (K × V))
      → get j (set k v d) ≡ (if e.beq k j then some v else get j d)
  unfolding get set
  get-set k j v [] = refl
  get-set k j v ((i, w) ∷ d) =
      ground (arith, e.beq_iff i k, e.beq_iff i j, e.beq_iff k j, get-set k j v d)

  pub get-pop :
      (k j : K) (d : List (K × V))
      → Unique d
      → get j (pop k d) ≡ (if e.beq k j then none else get j d)
  unfolding get pop Unique
  get-pop k j [] u = ground arith
  get-pop k j ((i, w) ∷ d) u =
      ground (arith, e.beq_iff i k, e.beq_iff i j, e.beq_iff k j, get-pop k j d u.1)

  pub set-Unique : (k : K) (v : V) (d : List (K × V)) → Unique d → Unique (set k v d)
  unfolding get set Unique
  set-Unique k v [] u = (refl, tt)
  set-Unique k v ((i, w) ∷ d) u =
      ground
        (arith, e.beq_iff i k, e.beq_iff k i, e.beq_iff k k, get-set k i v d, set-Unique k v d u.1)

  pub pop-Unique : (k : K) (d : List (K × V)) → Unique d → Unique (pop k d)
  unfolding get pop Unique
  pop-Unique k [] u = tt
  pop-Unique k ((i, w) ∷ d) u =
      ground
        (arith, e.beq_iff i k, e.beq_iff k i, e.beq_iff k k, get-pop k i d u.1, pop-Unique k d u.1)
