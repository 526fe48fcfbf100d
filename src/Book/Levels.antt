-- ===== src/Book/Levels.antt =====
-- `apply_levels` of src/l2_pipeline/book/engine.py, and the dictionaries that snapshots are read into.
use l2_orderbook_pipeline.Common.{
  List, [], ◌∷◌, Option, none, some, ◌≡◌, refl, arith, if◌then◌else◌, Bool-cases, inl, inr,
}
use l2_orderbook_pipeline.Common.Int.{pos, eq_ℤ, ℤ_eq}
use l2_orderbook_pipeline.Common.Dict
use l2_orderbook_pipeline.Common.Dict.{Unique, get-set, get-pop, set-Unique, pop-Unique}
use l2_orderbook_pipeline.Book.Types.{Decimal, PriceLevel, Side}

-- One round of the loop of `apply_levels`.
unfoldable pub apply_level : Side → PriceLevel → Side
apply_level side l =
    if eq_ℤ l.qty (pos 0) then Dict.pop l.price side else Dict.set l.price l.qty side

unfoldable pub apply_levels : Side → List PriceLevel → Side
unfolding apply_level
apply_levels side [] = side
apply_levels side (l ∷ ls) = apply_levels (apply_level side l) ls

-- `{level.price: level.qty for level in levels}`
unfoldable pub dict_from : Side → List PriceLevel → Side
dict_from side [] = side
dict_from side (l ∷ ls) = dict_from (Dict.set l.price l.qty side) ls

abbrev pub dict_of_levels : List PriceLevel → Side
dict_of_levels = dict_from []

-- What a level asks of its own price: removal, or an absolute quantity.
abbrev pub absolute : Decimal → Option Decimal
absolute q = if eq_ℤ q (pos 0) then none else some q

-- The last level for a price, if there is one, and what it asks.
unfoldable pub last_word : List PriceLevel → Decimal → Option (Option Decimal)
last_word [] p = none
last_word (l ∷ ls) p = elim (last_word ls p) [
  | some o ↦ some o
  | none ↦ if eq_ℤ l.price p then some (absolute l.qty) else none
]

abbrev pub or_else : Option (Option Decimal) → Option Decimal → Option Decimal
or_else none q = q
or_else (some o) q = o

get-apply_level :
    (side : Side) (l : PriceLevel) (p : Decimal)
    → Unique side
    → Dict.get p (apply_level side l) ≡ (if eq_ℤ l.price p then absolute l.qty else Dict.get p side)
unfolding apply_level
get-apply_level side l p u = ground (arith, get-set l.price p l.qty side, get-pop l.price p side u)

-- An empty side.
pub empty-Unique : Unique {K = Decimal} {V = Decimal} []
unfolding Unique
empty-Unique = tt

apply_level-Unique : (side : Side) (l : PriceLevel) → Unique side → Unique (apply_level side l)
unfolding apply_level
apply_level-Unique side l u = elim (Bool-cases (eq_ℤ l.qty (pos 0))) [
  | inl z ↦ rw z (pop-Unique l.price side u)
  | inr z ↦ rw z (set-Unique l.price l.qty side u)
]

-- No price stands twice in a side after an update.
pub apply_levels-Unique :
    (side : Side) (ls : List PriceLevel) → Unique side → Unique (apply_levels side ls)
unfolding apply_levels
apply_levels-Unique side [] u = u
apply_levels-Unique side (l ∷ ls) u =
    apply_levels-Unique (apply_level side l) ls (apply_level-Unique side l u)

-- After an update each price holds what the last level for it asks, or what it held before.
pub get-apply_levels :
    (side : Side) (ls : List PriceLevel) (p : Decimal)
    → Unique side
    → Dict.get p (apply_levels side ls) ≡ or_else (last_word ls p) (Dict.get p side)
unfolding apply_levels last_word
get-apply_levels side [] p u = refl
get-apply_levels side (l ∷ ls) p u = ground (
  arith,
  get-apply_levels (apply_level side l) ls p (apply_level-Unique side l u),
  get-apply_level side l p u,
)

-- Applying the same levels twice in a row is a no-op the second time.
pub apply_levels_idempotent :
    (side : Side) (ls : List PriceLevel) (p : Decimal)
    → Unique side
    → Dict.get p (apply_levels (apply_levels side ls) ls) ≡ Dict.get p (apply_levels side ls)
apply_levels_idempotent side ls p u = ground (
  arith,
  get-apply_levels side ls p u,
  get-apply_levels (apply_levels side ls) ls p (apply_levels-Unique side ls u),
)

pub dict_from-Unique :
    (side : Side) (ls : List PriceLevel) → Unique side → Unique (dict_from side ls)
unfolding dict_from
dict_from-Unique side [] u = u
dict_from-Unique side (l ∷ ls) u =
    dict_from-Unique (Dict.set l.price l.qty side) ls (set-Unique l.price l.qty side u)
