-- ===== src/Feeds/Json/Unary.antt =====
-- Numbers as tallies, which stand in for Python's numerals where something is run.
use Prim.Native.String.{String}
use l2_orderbook_pipeline.Common.{zero, suc, none, some, ◌≡◌, refl, ap}
use l2_orderbook_pipeline.Common.Int.{ℤ, pos, negsuc}
use l2_orderbook_pipeline.Feeds.Json.{Numerals}

-- The first character of a text, put before another text.
abbrev pub mark : String → String → String
mark String.[] s = s
mark (String.◌∷◌ c t) s = String.◌∷◌ c s

-- An even tally is a number, an odd one a negative one.
abbrev pub tally : ℤ → String
tally (pos zero) = ""
tally (pos (suc n)) = mark "I" (mark "I" (tally (pos n)))
tally (negsuc zero) = "I"
tally (negsuc (suc n)) = mark "I" (mark "I" (tally (negsuc n)))

abbrev pub away : ℤ → ℤ
away (pos n) = pos (suc n)
away (negsuc n) = negsuc (suc n)

abbrev pub value : String → ℤ
value String.[] = pos 0
value (String.◌∷◌ c String.[]) = negsuc 0
value (String.◌∷◌ c (String.◌∷◌ d s)) = away (value s)

pub value-tally : (n : ℤ) → value (tally n) ≡ n
value-tally (pos zero) = refl
value-tally (pos (suc n)) = ap away (value-tally (pos n))
value-tally (negsuc zero) = refl
value-tally (negsuc (suc n)) = ap away (value-tally (negsuc n))

abbrev pub unary : Numerals
unary = record {
  int_of = λ s. some (value s);
  decimal_of = λ s. some (value s);
  whole = λ n. n;
  decimal_of_parts = λ xs. none;
  show_int = tally;
  show_decimal = tally;
  int_of-show_int = λ n. ap some (value-tally n);
  decimal_of-show_decimal = λ n. ap some (value-tally n);
}
