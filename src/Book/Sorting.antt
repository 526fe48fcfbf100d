-- ===== src/Book/Sorting.antt =====
-- `sorted` on the items of a dictionary: a stable sort, here by insertion, and its laws for a
-- dictionary in which no key stands twice.
use l2_orderbook_pipeline.Common.{
  ℕ, zero, suc, List, [], ◌∷◌, none, some, ◌≡◌, ◌≢◌, refl, ap, ◌∙◌, subst, arith, Bool, true, false,
  Bool-cases, inl, inr, ◌⊎◌, All, if◌then◌else◌, take, length,
}
use l2_orderbook_pipeline.Common.Int.{ℤ_eq, eq_ℤ, eq_ℤ_iff}
use l2_orderbook_pipeline.Common.Dict
use l2_orderbook_pipeline.Common.Dict.{Unique}
use l2_orderbook_pipeline.Book.Types.{Decimal}

abbrev pub Item : Type 0
Item = Decimal × Decimal

insert_by : (Item → Item → Bool) → Item → List Item → List Item
insert_by le x [] = x ∷ []
insert_by le x (y ∷ ys) = if le x y then x ∷ y ∷ ys else y ∷ insert_by le x ys

unfoldable pub sort_by : (Item → Item → Bool) → List Item → List Item
unfolding insert_by
sort_by le [] = []
sort_by le (x ∷ xs) = insert_by le x (sort_by le xs)

get-insert_by :
    (le : Item → Item → Bool) (k v p : Decimal) (d : List Item)
    → Dict.get k d ≡ none
    → Dict.get p (insert_by le (k, v) d) ≡ (if eq_ℤ k p then some v else Dict.get p d)
unfolding insert_by Dict.get
get-insert_by le k v p [] h = refl
get-insert_by le k v p ((j, w) ∷ d) h =
    ground (arith, eq_ℤ_iff j k, eq_ℤ_iff j p, eq_ℤ_iff k p, get-insert_by le k v p d)

-- Sorting keeps what a dictionary holds.
pub get-sort_by :
    (le : Item → Item → Bool) (p : Decimal) (d : List Item)
    → Unique d
    → Dict.get p (sort_by le d) ≡ Dict.get p d
unfolding sort_by Dict.get Unique
get-sort_by le p [] u = refl
get-sort_by le p ((k, v) ∷ d) u =
    ground
      (arith, get-insert_by le k v p (sort_by le d), get-sort_by le k d u.1, get-sort_by le p d u.1)

length-insert_by :
    (le : Item → Item → Bool) (x : Item) (d : List Item)
    → length (insert_by le x d) ≡ suc (length d)
unfolding insert_by
length-insert_by le x [] = refl
length-insert_by le x (y ∷ d) = ground (arith, length-insert_by le x d)

pub length-sort_by : (le : Item → Item → Bool) (d : List Item) → length (sort_by le d) ≡ length d
unfolding sort_by
length-sort_by le [] = refl
length-sort_by le (x ∷ d) =
    ground (arith, length-insert_by le x (sort_by le d), length-sort_by le d)

-- An order of prices that a comparison of items decides.
pub record Sorts (le : Item → Item → Bool) (Before : Decimal → Decimal → Type 0) : Type 0 where
  pub before_of_le : (x y : Item) → le x y ≡ true → x.0 ≢ y.0 → Before x.0 y.0
  pub after_of_not_le : (x y : Item) → le x y ≡ false → x.0 ≢ y.0 → Before y.0 x.0
  pub before_trans : (p q r : Decimal) → Before p q → Before q r → Before p r

-- Each item stands before all that follow it.
abbrev pub Ordered : (Decimal → Decimal → Type 0) → List Item → Type 0
Ordered Before [] = Unit
Ordered Before (x ∷ xs) = All (λ y. Before x.0 y.0) xs × Ordered Before xs

module _ {le : Item → Item → Bool} {Before : Decimal → Decimal → Type 0} (s : Sorts le Before) where
  All-trans :
      (p q : Decimal) (d : List Item)
      → Before p q
      → All (λ y. Before q y.0) d
      → All (λ y. Before p y.0) d
  All-trans p q [] b h = tt
  All-trans p q (y ∷ d) b h = (s.before_trans p q y.0 b h.0, All-trans p q d b h.1)

  All-insert_by :
      (p : Decimal) (x : Item) (d : List Item)
      → Before p x.0
      → All (λ y. Before p y.0) d
      → All (λ y. Before p y.0) (insert_by le x d)
  unfolding insert_by
  All-insert_by p x [] b h = (b, tt)
  All-insert_by p x (y ∷ d) b h = elim (Bool-cases (le x y)) [
    | inl c ↦ rw c (b, h)
    | inr c ↦ rw c (h.0, All-insert_by p x d b h.1)
  ]

  insert_by-Ordered :
      (k v : Decimal) (d : List Item)
      → Dict.get k d ≡ none
      → Ordered Before d
      → Ordered Before (insert_by le (k, v) d)
  unfolding insert_by Dict.get
  insert_by-Ordered k v [] n o = (tt, tt)
  insert_by-Ordered k v ((j, w) ∷ d) n o = elim (Bool-cases (le (k, v) (j, w))) [
    | inl c ↦
        let b : Before k j = s.before_of_le (k, v) (j, w) c (ground (arith, eq_ℤ_iff j k)) in
        rw c ((b, All-trans k j d b o.0), o)
    | inr c ↦ rw c (
      All-insert_by j (k, v) d (s.after_of_not_le (k, v) (j, w) c (ground (arith, eq_ℤ_iff j k)))
          o.0,
      insert_by-Ordered k v d (ground (arith, eq_ℤ_iff j k)) o.1,
    )
  ]

  -- A dictionary is sorted strictly.
  pub sort_by-Ordered : (d : List Item) → Unique d → Ordered Before (sort_by le d)
  unfolding sort_by Unique
  sort_by-Ordered [] u = tt
  sort_by-Ordered ((k, v) ∷ d) u =
      insert_by-Ordered k v (sort_by le d) (get-sort_by le k d u.1 ∙ u.0) (sort_by-Ordered d u.1)

  All-take :
      (p : Decimal) (n : ℕ) (d : List Item)
      → All (λ y. Before p y.0) d
      → All (λ y. Before p y.0) (take n d)
  All-take p zero d h = tt
  All-take p (suc n) [] h = tt
  All-take p (suc n) (x ∷ d) h = (h.0, All-take p n d h.1)

  pub take-Ordered : (n : ℕ) (d : List Item) → Ordered Before d → Ordered Before (take n d)
  take-Ordered zero d o = tt
  take-Ordered (suc n) [] o = tt
  take-Ordered (suc n) (x ∷ d) o = (All-take x.0 n d o.0, take-Ordered n d o.1)

  All-get :
      (p k q : Decimal) (d : List Item)
      → All (λ y. Before p y.0) d
      → Dict.get k d ≡ some q
      → Before p k
  unfolding Dict.get
  All-get p k q [] h g = cc
  All-get p k q ((j, w) ∷ d) h g = elim (Bool-cases (eq_ℤ j k)) [
    | inl c ↦ subst (λ z. Before p z) ((eq_ℤ_iff j k).0 c) h.0
    | inr c ↦ All-get p k q d h.1 (rw c at g)
  ]

  -- The first items of a sorted dictionary hold a key, or are as many as asked and all before it.
  pub take_best :
      (n : ℕ) (d : List Item) (k q : Decimal)
      → Ordered Before d
      → Dict.get k d ≡ some q
      → (Dict.get k (take n d) ≡ some q)
        ⊎ ((length (take n d) ≡ n) × All (λ y. Before y.0 k) (take n d))
  unfolding Dict.get
  take_best zero d k q o g = inr (refl, tt)
  take_best (suc n) [] k q o g = cc
  take_best (suc n) ((j, w) ∷ d) k q o g = elim (Bool-cases (eq_ℤ j k)) [
    | inl c ↦ inl (rw c (rw c at g))
    | inr c ↦ elim (take_best n d k q o.1 (rw c at g)) [
      | inl h ↦ inl (rw c h)
      | inr h ↦ inr (ap suc h.0, (All-get j k q d o.0 (rw c at g), h.1))
    ]
  ]

pub get-take :
    (n : ℕ) (d : List Item) (k q : Decimal) → Dict.get k (take n d) ≡ some q → Dict.get k d ≡ some q
unfolding Dict.get
get-take zero d k q h = cc
get-take (suc n) [] k q h = cc
get-take (suc n) ((j, w) ∷ d) k q h = ground (arith, get-take n d k q)
