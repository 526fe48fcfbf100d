-- ===== src/Simulation/Market/Fair.antt =====
-- A market whose sides are apart and thick enough, and one change of it.
use l2_orderbook_pipeline.Common.{
  ℕ, ◌≤◌, List, [], ◌∷◌, Option, none, some, ◌≡◌, refl, ap, ◌∙◌, arith, Bool, true, false,
  Bool-cases, inl, inr, length, map, get_elem?, if◌then◌else◌,
}
use l2_orderbook_pipeline.Common.Int.{pos, eq_ℤ, ◌≤ℤ◌, ◌<ℤ◌, ◌+ℤ◌, ◌-ℤ◌, int_laws}
use l2_orderbook_pipeline.Book.Types.{Decimal, PriceLevel, Side}
use l2_orderbook_pipeline.Book.Levels.{apply_levels}
use l2_orderbook_pipeline.Simulation.Market.{
  MarketSimulator, tick, min_levels_per_side, Action, insert, update, delete, Draw, min_ℤ, max_ℤ,
  best_bid, best_ask, quantity, insert_level, side_of, choose, level_at, is_thin, changes_by,
  apply_side,
}
use l2_orderbook_pipeline.Simulation.Market.Keys.{
  Prices, apply_one-Prices, chosen-Prices, best_bid-Prices, best_bid_le, best_ask_le, max_le,
  min_le, length-apply_one,
}

-- Every bid is below every ask.
abbrev pub Apart : Side → Side → Type 0
Apart bids asks = Prices (λ b. Prices (λ a. b <ℤ a) asks) bids

pub record Fair (m : MarketSimulator) : Type 0 where
  pub spread_pos : pos 1 ≤ℤ m.spread_min
  pub many_bids : min_levels_per_side ≤ length m.bids
  pub many_asks : min_levels_per_side ≤ length m.asks
  pub bids_above : Prices (λ p. tick ≤ℤ p) m.bids
  pub apart : Apart m.bids m.asks

pub both-Prices :
    {P Q R : Decimal → Type 0} (side : Side)
    → Prices P side
    → Prices Q side
    → ((k : Decimal) → P k → Q k → R k)
    → Prices R side
both-Prices [] p q h = tt
both-Prices (x ∷ side) p q h = (h x.0 p.0 q.0, both-Prices side p.1 q.1 h)

apply_levels-Apart :
    (l : PriceLevel) (bids asks : Side)
    → Prices (λ b. b <ℤ l.price) bids
    → Apart bids asks
    → Apart bids (apply_levels asks (l ∷ []))
apply_levels-Apart l [] asks p a = tt
apply_levels-Apart l (x ∷ bids) asks p a =
    (apply_one-Prices (λ k. x.0 <ℤ k) l asks p.0 a.0, apply_levels-Apart l bids asks p.1 a.1)

bid-Fair :
    (m : MarketSimulator) (l : PriceLevel)
    → Fair m
    → tick ≤ℤ l.price
    → Prices (λ a. l.price <ℤ a) m.asks
    → min_levels_per_side ≤ length (apply_levels m.bids (l ∷ []))
    → Fair (apply_side m true (l ∷ []))
bid-Fair m l f t p n = record {
  spread_pos = f.spread_pos;
  many_bids = n;
  many_asks = f.many_asks;
  bids_above = apply_one-Prices (λ k. tick ≤ℤ k) l m.bids t f.bids_above;
  apart = apply_one-Prices (λ b. Prices (λ a. b <ℤ a) m.asks) l m.bids p f.apart;
}

ask-Fair :
    (m : MarketSimulator) (l : PriceLevel)
    → Fair m
    → Prices (λ b. b <ℤ l.price) m.bids
    → min_levels_per_side ≤ length (apply_levels m.asks (l ∷ []))
    → Fair (apply_side m false (l ∷ []))
ask-Fair m l f p n = record {
  spread_pos = f.spread_pos;
  many_bids = f.many_bids;
  many_asks = n;
  bids_above = f.bids_above;
  apart = apply_levels-Apart l m.bids m.asks p f.apart;
}

below_ask :
    (x s best a : Decimal)
    → best ≤ℤ a
    → tick <ℤ a
    → pos 1 ≤ℤ s
    → max_ℤ (min_ℤ x (best -ℤ s)) tick <ℤ a
below_ask x s best a h t p =
    let d : best -ℤ s <ℤ a = omega int_laws in let e = min_le x (best -ℤ s) in ground (arith, e)

above_bid : (x s best b : Decimal) → b ≤ℤ best → pos 1 ≤ℤ s → b <ℤ max_ℤ x (best +ℤ s)
above_bid x s best b h p =
    let d : b <ℤ best +ℤ s = omega int_laws in let e = max_le x (best +ℤ s) in omega (arith, d, e.1)

-- What a draw of `randint(1, 50)` is at least.
quantity_pos : (d : Draw) → 1 ≤ d.qty → eq_ℤ (quantity d) (pos 0) ≡ false
quantity_pos d h = ground arith

insert-Fair :
    (m : MarketSimulator) (is_bid : Bool) (d : Draw)
    → Fair m
    → 1 ≤ d.qty
    → Fair (apply_side m is_bid (insert_level m is_bid d ∷ []))
unfolding insert_level
insert-Fair m true d f h =
    let low = best_bid-Prices (λ b. tick ≤ℤ b) m.bids (omega (arith, f.many_bids)) f.bids_above in
    let bb =
      best_bid-Prices (λ b. Prices (λ a. b <ℤ a) m.asks) m.bids (omega (arith, f.many_bids))
        f.apart in
    let l = insert_level m true d in
    bid-Fair m l f
      (max_le (min_ℤ (best_bid m.bids +ℤ d.offset) (best_ask m.asks -ℤ m.spread_min)) tick).1
      (both-Prices m.asks (best_ask_le m.asks) bb (λ a k n.
        below_ask (best_bid m.bids +ℤ d.offset) m.spread_min (best_ask m.asks) a k
          (omega (arith, low, n)) f.spread_pos))
      (omega (arith, (length-apply_one l m.bids).1 (quantity_pos d h), f.many_bids))
insert-Fair m false d f h =
    let l = insert_level m false d in
    ask-Fair m l f
      (both-Prices m.bids (best_bid_le m.bids) (best_bid_le m.bids) (λ b k n.
        above_bid (best_ask m.asks +ℤ d.offset) m.spread_min (best_bid m.bids) b k f.spread_pos))
      (omega (arith, (length-apply_one l m.asks).1 (quantity_pos d h), f.many_asks))

chosen-Apart :
    (bids asks : Side) (i : ℕ) (k : Decimal)
    → get_elem? (map (λ (p : Decimal × Decimal). p.0) asks) i ≡ some k
    → Apart bids asks
    → Prices (λ b. b <ℤ k) bids
chosen-Apart [] asks i k h a = tt
chosen-Apart (x ∷ bids) asks i k h a =
    (chosen-Prices (λ a. x.0 <ℤ a) asks i k h a.0, chosen-Apart bids asks i k h a.1)

abbrev pub AfterLevels : MarketSimulator → Bool → Option (List PriceLevel) → Type 0
AfterLevels m is_bid none = Unit
AfterLevels m is_bid (some ls) = Fair (apply_side m is_bid ls)

level_at-Fair :
    (m : MarketSimulator) (is_bid : Bool) (d : Draw) (q : Decimal) (o : Option Decimal)
    → choose (side_of m is_bid) d ≡ o
    → Fair m
    → ((l : PriceLevel)
        → l.qty ≡ q
        → min_levels_per_side ≤ length (apply_levels (side_of m is_bid) (l ∷ [])))
    → AfterLevels m is_bid (level_at o q)
level_at-Fair m is_bid d q none e f n = tt
level_at-Fair m true d q (some k) e f n =
    bid-Fair m (record { price = k; qty = q }) f
      (chosen-Prices (λ b. tick ≤ℤ b) m.bids d.pick k e f.bids_above)
      (chosen-Prices (λ b. Prices (λ a. b <ℤ a) m.asks) m.bids d.pick k e f.apart)
      (n (record { price = k; qty = q }) refl)
level_at-Fair m false d q (some k) e f n =
    ask-Fair m (record { price = k; qty = q }) f (chosen-Apart m.bids m.asks d.pick k e f.apart)
      (n (record { price = k; qty = q }) refl)

-- No change makes a side thinner than the minimum.
many :
    (m : MarketSimulator) (is_bid : Bool) → Fair m → min_levels_per_side ≤ length (side_of m is_bid)
many m true f = f.many_bids
many m false f = f.many_asks

pub changes_by-Fair :
    (m : MarketSimulator) (is_bid : Bool) (d : Draw) (a : Action)
    → Fair m
    → 1 ≤ d.qty
    → AfterLevels m is_bid (changes_by m is_bid d a)
unfolding changes_by
changes_by-Fair m is_bid d insert f h = insert-Fair m is_bid d f h
changes_by-Fair m is_bid d update f h =
    level_at-Fair m is_bid d (quantity d) (choose (side_of m is_bid) d) refl f (λ l e.
      let k =
        (length-apply_one l (side_of m is_bid)).1 (ap (λ q. eq_ℤ q (pos 0)) e ∙ quantity_pos d h) in
      omega (arith, many m is_bid f, k))
changes_by-Fair m is_bid d delete f h =
    level_at-Fair m is_bid d (if is_thin (side_of m is_bid) then quantity d else pos 0)
      (choose (side_of m is_bid) d) refl f
      (λ l e. elim (Bool-cases (is_thin (side_of m is_bid))) [
        | inl t ↦
            let g : l.qty ≡ quantity d = e ∙ rw t refl in
            let k =
              (length-apply_one l (side_of m is_bid)).1
                (ap (λ q. eq_ℤ q (pos 0)) g ∙ quantity_pos d h) in
            omega (arith, many m is_bid f, k)
        | inr t ↦ ground (arith, (length-apply_one l (side_of m is_bid)).0)
      ])
