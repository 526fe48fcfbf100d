-- ===== src/Common/Options.antt =====
-- Chains of steps that may raise, as `Option`, with `do`.
use mathlib.Core.Path.{◌≡◌, refl}
use mathlib.Core.List.{List, [], ◌∷◌, map}
use mathlib.Core.Option.{Option, none, some}

infixl 5 ◌>>=◌
abbrev pub ◌>>=◌ {ℓ κ} : {A : Type ℓ} {B : Type κ} → Option A → (A → Option B) → Option B
none >>= f = none
some a >>= f = f a

-- `[f(x) for x in xs]`, where `f` may raise
abbrev pub traverse {ℓ κ} : {A : Type ℓ} {B : Type κ} → (A → Option B) → List A → Option (List B)
traverse f [] = some []
traverse f (x ∷ xs) = do b ← f x; bs ← traverse f xs; some (b ∷ bs)

pub traverse-map {ℓ κ μ} :
    {A : Type ℓ} {B : Type κ} {C : Type μ} (f : B → Option C) (g : A → B) (h : A → C) (xs : List A)
    → ((a : A) → f (g a) ≡ some (h a))
    → traverse f (map g xs) ≡ some (map h xs)
traverse-map f g h [] e = refl
traverse-map f g h (x ∷ xs) e = rw (e x, traverse-map f g h xs e)
