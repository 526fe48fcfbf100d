-- ===== src/Book/Top.antt =====
-- `BookEngine.top_levels` of src/l2_pipeline/book/engine.py: the best levels of each side, best first.
-- A negative `n`, which a slice would count from the end, is not modelled: no caller passes one.
use l2_orderbook_pipeline.Common.{
  ℕ, List, [], ◌∷◌, Option, none, some, ◌≡◌, refl, sym, ap, ◌∙◌, arith, Bool, ◌&&◌, ◌||◌, ◌⊎◌, All,
  take, length, map, min, length-take,
}
use l2_orderbook_pipeline.Common.Int.{ℤ_eq, eq_ℤ, ltb_ℤ, leb_ℤ, eq_ℤ_iff, ◌<ℤ◌}
use l2_orderbook_pipeline.Common.Dict
use l2_orderbook_pipeline.Common.Dict.{Unique}
use l2_orderbook_pipeline.Book.Types.{Decimal, PriceLevel, Side}
use l2_orderbook_pipeline.Book.Engine.{BookEngine}
use l2_orderbook_pipeline.Book.Invariant.{WellFormed}
use l2_orderbook_pipeline.Book.Sorting.{
  Item, sort_by, Sorts, Ordered, get-sort_by, length-sort_by, sort_by-Ordered, take-Ordered,
  take_best, get-take,
}

-- `x <= y` on pairs, which Python compares from the left.
abbrev item_leb : Item → Item → Bool
item_leb (p, q) (p', q') = ltb_ℤ p p' || (eq_ℤ p p' && leb_ℤ q q')

abbrev item_geb : Item → Item → Bool
item_geb x y = item_leb y x

abbrev level_of : Item → PriceLevel
level_of (p, q) = record { price = p; qty = q }

-- `n if n is not None else self._depth_levels`
abbrev limit_of : BookEngine → Option ℕ → ℕ
limit_of b none = b.depth_levels
limit_of b (some n) = n

-- `sorted(self._bids.items(), reverse=True)[:limit]`
best_bids : BookEngine → Option ℕ → List Item
best_bids b n = take (limit_of b n) (sort_by item_geb b.bids)

-- `sorted(self._asks.items())[:limit]`
best_asks : BookEngine → Option ℕ → List Item
best_asks b n = take (limit_of b n) (sort_by item_leb b.asks)

unfoldable pub top_levels : BookEngine → Option ℕ → List PriceLevel × List PriceLevel
unfolding best_bids best_asks sort_by
top_levels b n = (map level_of (best_bids b n), map level_of (best_asks b n))

abbrev pub Above : Decimal → Decimal → Type 0
Above p q = q <ℤ p

abbrev pub Below : Decimal → Decimal → Type 0
Below p q = p <ℤ q

asks_Sorts : Sorts item_leb Below
asks_Sorts = record {
  before_of_le = λ x y h n. ground (arith, eq_ℤ_iff x.0 y.0);
  after_of_not_le = λ x y h n. ground (arith, eq_ℤ_iff x.0 y.0);
  before_trans = λ p q r h k. omega arith;
}

bids_Sorts : Sorts item_geb Above
bids_Sorts = record {
  before_of_le = λ x y h n. ground (arith, eq_ℤ_iff x.0 y.0);
  after_of_not_le = λ x y h n. ground (arith, eq_ℤ_iff x.0 y.0);
  before_trans = λ p q r h k. omega arith;
}

-- The levels of a list, as the dictionary's items.
abbrev pub items_of : List PriceLevel → List Item
items_of ls = map (λ l. (l.price, l.qty)) ls

items_of-level_of : (d : List Item) → items_of (map level_of d) ≡ d
items_of-level_of [] = refl
items_of-level_of ((p, q) ∷ d) = ap (◌∷◌ (p, q)) (items_of-level_of d)

-- What `top_levels` promises of one side: `items` are the best `limit` levels of `side`.
pub record IsTop (Before : Decimal → Decimal → Type 0) (limit : ℕ) (side : Side) (items : List Item)
    : Type 0 where
  pub ordered : Ordered Before items
  pub count : length items ≡ min limit (length side)
  pub sound : (p q : Decimal) → Dict.get p items ≡ some q → Dict.get p side ≡ some q
  pub complete :
      (p q : Decimal)
      → Dict.get p side ≡ some q
      → (Dict.get p items ≡ some q) ⊎ ((length items ≡ limit) × All (λ y. Before y.0 p) items)

take_sort-IsTop :
    {le : Item → Item → Bool} {Before : Decimal → Decimal → Type 0} (s : Sorts le Before) (n : ℕ)
    (side : Side)
    → Unique side
    → IsTop Before n side (items_of (map level_of (take n (sort_by le side))))
take_sort-IsTop {le} s n side u = rw items_of-level_of (record {
  ordered = take-Ordered s n (sort_by le side) (sort_by-Ordered s side u);
  count = length-take n (sort_by le side) ∙ ap (min n) (length-sort_by le side);
  sound = λ p q g. sym (get-sort_by le p side u) ∙ get-take n (sort_by le side) p q g;
  complete = λ p q g.
      take_best s n (sort_by le side) p q (sort_by-Ordered s side u) (get-sort_by le p side u ∙ g);
})

-- `top_levels` gives, of each side of a well-formed book, the best `limit` levels (all, where there
-- are fewer): bids by falling price, asks by rising price, no price twice; a level of the book that is
-- left out is worse than each one that is given, and then `limit` levels are given.
pub top_levels_best :
    (b : BookEngine) (n : Option ℕ)
    → WellFormed b
    → IsTop Above (limit_of b n) b.bids (items_of (top_levels b n).0)
      × IsTop Below (limit_of b n) b.asks (items_of (top_levels b n).1)
unfolding top_levels
top_levels_best b n w = (
  take_sort-IsTop bids_Sorts (limit_of b n) b.bids w.bids_unique,
  take_sort-IsTop asks_Sorts (limit_of b n) b.asks w.asks_unique,
)
