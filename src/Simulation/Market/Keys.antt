-- ===== src/Simulation/Market/Keys.antt =====
-- What holds of all prices of a side, and how many there are.
use l2_orderbook_pipeline.Common.{
  ℕ, zero, suc, ◌+◌, ◌≤◌, ◌<◌, [], ◌∷◌, Option, none, some, ◌≡◌, subst, arith, false, Bool-cases,
  inl, inr, All, map, length, get_elem?,
}
use l2_orderbook_pipeline.Common.Int.{pos, eq_ℤ, ℤ_eq, leb_ℤ, ◌≤ℤ◌}
use l2_orderbook_pipeline.Common.Dict
use l2_orderbook_pipeline.Book.Types.{Decimal, PriceLevel, Side}
use l2_orderbook_pipeline.Book.Levels.{apply_levels, apply_level}
use l2_orderbook_pipeline.Simulation.Market.{highest, lowest, best_bid, best_ask, min_ℤ, max_ℤ}

-- `P` of each price.
abbrev pub Prices {ℓ} : (Decimal → Type ℓ) → Side → Type ℓ
Prices P side = All (λ (x : Decimal × Decimal). P x.0) side

abbrev OfSome {ℓ} : (Decimal → Type ℓ) → Option Decimal → Type ℓ
OfSome P none = Unit
OfSome P (some p) = P p

module _ {ℓ} (P : Decimal → Type ℓ) where
  pub set-Prices :
      (k v : Decimal) (side : Side) → P k → Prices P side → Prices P (Dict.set k v side)
  unfolding Dict.set
  set-Prices k v [] p a = (p, tt)
  set-Prices k v ((j, w) ∷ side) p a = elim (Bool-cases (eq_ℤ j k)) [
    | inl h ↦ rw h (a.0, a.1)
    | inr h ↦ rw h (a.0, set-Prices k v side p a.1)
  ]

  pop-Prices : (k : Decimal) (side : Side) → Prices P side → Prices P (Dict.pop k side)
  unfolding Dict.pop
  pop-Prices k [] a = tt
  pop-Prices k ((j, w) ∷ side) a = elim (Bool-cases (eq_ℤ j k)) [
    | inl h ↦ rw h a.1
    | inr h ↦ rw h (a.0, pop-Prices k side a.1)
  ]

  pub apply_one-Prices :
      (l : PriceLevel) (side : Side)
      → P l.price
      → Prices P side
      → Prices P (apply_levels side (l ∷ []))
  unfolding apply_levels apply_level
  apply_one-Prices l side p a = elim (Bool-cases (eq_ℤ l.qty (pos 0))) [
    | inl h ↦ rw h (pop-Prices l.price side a)
    | inr h ↦ rw h (set-Prices l.price l.qty side p a)
  ]

  pub chosen-Prices :
      (side : Side) (i : ℕ) (k : Decimal)
      → get_elem? (map (λ (p : Decimal × Decimal). p.0) side) i ≡ some k
      → Prices P side
      → P k
  chosen-Prices [] i k h a = cc
  chosen-Prices ((j, w) ∷ side) zero k h a = subst (OfSome P) h a.0
  chosen-Prices ((j, w) ∷ side) (suc i) k h a = chosen-Prices side i k h a.1

  highest-Prices : (p : Decimal) (side : Side) → P p → Prices P side → P (highest p side)
  unfolding highest
  highest-Prices p [] b a = b
  highest-Prices p ((q, w) ∷ side) b a = elim (Bool-cases (leb_ℤ p q)) [
    | inl h ↦ rw h (highest-Prices q side a.0 a.1)
    | inr h ↦ rw h (highest-Prices p side b a.1)
  ]

  lowest-Prices : (p : Decimal) (side : Side) → P p → Prices P side → P (lowest p side)
  unfolding lowest
  lowest-Prices p [] b a = b
  lowest-Prices p ((q, w) ∷ side) b a = elim (Bool-cases (leb_ℤ p q)) [
    | inl h ↦ rw h (lowest-Prices p side b a.1)
    | inr h ↦ rw h (lowest-Prices q side a.0 a.1)
  ]

  -- The best price of a side that is not empty is one of its prices.
  pub best_bid-Prices : (side : Side) → 0 < length side → Prices P side → P (best_bid side)
  unfolding best_bid
  best_bid-Prices [] n a = absurd (omega arith)
  best_bid-Prices ((p, w) ∷ side) n a = highest-Prices p side a.0 a.1

  pub best_ask-Prices : (side : Side) → 0 < length side → Prices P side → P (best_ask side)
  unfolding best_ask
  best_ask-Prices [] n a = absurd (omega arith)
  best_ask-Prices ((p, w) ∷ side) n a = lowest-Prices p side a.0 a.1

pub max_le : (p q : Decimal) → (p ≤ℤ max_ℤ p q) × (q ≤ℤ max_ℤ p q)
max_le p q = (ground arith, ground arith)

pub min_le : (p q : Decimal) → (min_ℤ p q ≤ℤ p) × (min_ℤ p q ≤ℤ q)
min_le p q = (ground arith, ground arith)

highest_le :
    (p : Decimal) (side : Side) → (p ≤ℤ highest p side) × Prices (λ q. q ≤ℤ highest p side) side
unfolding highest
highest_le p [] = (omega arith, tt)
highest_le p ((q, w) ∷ side) =
    let (a, b) = highest_le (max_ℤ p q) side in
    let (c, d) = max_le p q in (omega (arith, a, c), (omega (arith, a, d), b))

lowest_le :
    (p : Decimal) (side : Side) → (lowest p side ≤ℤ p) × Prices (λ q. lowest p side ≤ℤ q) side
unfolding lowest
lowest_le p [] = (omega arith, tt)
lowest_le p ((q, w) ∷ side) =
    let (a, b) = lowest_le (min_ℤ p q) side in
    let (c, d) = min_le p q in (omega (arith, a, c), (omega (arith, a, d), b))

-- No bid is above the best bid, and no ask below the best ask.
pub best_bid_le : (side : Side) → Prices (λ q. q ≤ℤ best_bid side) side
unfolding best_bid
best_bid_le [] = tt
best_bid_le ((p, w) ∷ side) = highest_le p side

pub best_ask_le : (side : Side) → Prices (λ q. best_ask side ≤ℤ q) side
unfolding best_ask
best_ask_le [] = tt
best_ask_le ((p, w) ∷ side) = lowest_le p side

length-set : (k v : Decimal) (side : Side) → length side ≤ length (Dict.set k v side)
unfolding Dict.set
length-set k v [] = omega arith
length-set k v ((j, w) ∷ side) = elim (Bool-cases (eq_ℤ j k)) [
  | inl h ↦ rw h (omega arith)
  | inr h ↦ rw h (omega (arith, length-set k v side))
]

length-pop : (k : Decimal) (side : Side) → length side ≤ length (Dict.pop k side) + 1
unfolding Dict.pop
length-pop k [] = omega arith
length-pop k ((j, w) ∷ side) = elim (Bool-cases (eq_ℤ j k)) [
  | inl h ↦ rw h (omega arith)
  | inr h ↦ rw h (omega (arith, length-pop k side))
]

-- A change removes one price at most, and none unless its quantity is zero.
pub length-apply_one :
    (l : PriceLevel) (side : Side)
    → (length side ≤ length (apply_levels side (l ∷ [])) + 1)
      × (eq_ℤ l.qty (pos 0) ≡ false → length side ≤ length (apply_levels side (l ∷ [])))
unfolding apply_levels apply_level
length-apply_one l side = elim (Bool-cases (eq_ℤ l.qty (pos 0))) [
  | inl h ↦ rw h (length-pop l.price side, λ k. cc)
  | inr h ↦ rw h (omega (arith, length-set l.price l.qty side), λ k. length-set l.price l.qty side)
]
