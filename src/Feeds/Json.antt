-- ===== src/Feeds/Json.antt =====
-- The values that `json.loads` gives, with Python's operations on them as far as the feed clients use
-- them. `none` is an exception. A number with a fraction or an exponent is a double; NaN and the
-- infinities are left out.
pub mod Unary
use Prim.Native.String.{String}
use text.Mathlib.Text.{◌==◌ as str_eq}
use text.Mathlib.TextPositions.{eq_refl}
use l2_orderbook_pipeline.Common.{
  ℕ, zero, suc, List, [], ◌∷◌, Option, none, some, ◌≡◌, refl, Bool, true, false, get_elem?, map,
  if◌then◌else◌,
}
use l2_orderbook_pipeline.Common.Options.{◌>>=◌}
use l2_orderbook_pipeline.Common.Int.{ℤ, pos}
use l2_orderbook_pipeline.Book.Types.{Decimal}

mutual
  pub data Json : Type 0 where
    null : Json
    bool : Bool → Json
    int : ℤ → Json
    -- a double, by its whole part and its exact value
    float : ℤ → Decimal → Json
    str : String → Json
    arr : Items → Json
    obj : Fields → Json

  pub data Items : Type 0 where
    nil : Items
    cons : Json → Items → Items

  -- A `dict`: no key stands twice.
  pub data Fields : Type 0 where
    end : Fields
    field : String → Json → Fields → Fields

abbrev pub list_of : Items → List Json
list_of nil = []
list_of (cons x xs) = x ∷ list_of xs

abbrev pub items_from : List Json → Items
items_from [] = nil
items_from (x ∷ xs) = cons x (items_from xs)

pub list_of-items_from : (xs : List Json) → list_of (items_from xs) ≡ xs
list_of-items_from [] = refl
list_of-items_from (x ∷ xs) = rw (list_of-items_from xs)

abbrev pub keys_of : Fields → List Json
keys_of end = []
keys_of (field k v fs) = str k ∷ keys_of fs

abbrev pub chars_of : String → List Json
chars_of String.[] = []
chars_of (String.◌∷◌ c s) = str (String.◌∷◌ c String.[]) ∷ chars_of s

-- `fs.get(key)`, `none` where the key is missing
unfoldable pub find : String → Fields → Option Json
find k end = none
find k (field j v fs) = if str_eq j k then some v else find k fs

-- `x[key]` for a str
abbrev pub item : String → Json → Option Json
item k (obj fs) = find k fs
item k _ = none

-- `x[i]` for a number: a dict has texts for keys only.
abbrev pub at_index : ℕ → Json → Option Json
at_index i (arr xs) = get_elem? (list_of xs) i
at_index i (str s) = get_elem? (chars_of s) i
at_index i _ = none

-- `for y in x`
abbrev pub iterate : Json → Option (List Json)
iterate (arr xs) = some (list_of xs)
iterate (str s) = some (chars_of s)
iterate (obj fs) = some (keys_of fs)
iterate _ = none

-- `p, q = x`
abbrev pub two_of : List Json → Option (Json × Json)
two_of (p ∷ q ∷ []) = some (p, q)
two_of _ = none

abbrev pub unpack2 : Json → Option (Json × Json)
unpack2 x = iterate x >>= two_of

-- `isinstance(x, dict)`
abbrev pub as_dict : Json → Option Fields
as_dict (obj fs) = some fs
as_dict _ = none

-- What is used of Python's numbers: how texts are read and written, what a whole number is as a
-- decimal, and a decimal from a list of its sign, digits and exponent. What is written is read back.
pub record Numerals : Type 0 where
  pub int_of : String → Option ℤ
  pub decimal_of : String → Option Decimal
  pub whole : ℤ → Decimal
  pub decimal_of_parts : List Json → Option Decimal
  pub show_int : ℤ → String
  pub show_decimal : Decimal → String
  pub int_of-show_int : (n : ℤ) → int_of (show_int n) ≡ some n
  pub decimal_of-show_decimal : (d : Decimal) → decimal_of (show_decimal d) ≡ some d

abbrev pub bit : Bool → ℤ
bit true = pos 1
bit false = pos 0

module _ (py : Numerals) where
  open py use {int_of, decimal_of, whole, decimal_of_parts}

  -- `int(x)`
  abbrev pub to_int : Json → Option ℤ
  to_int null = none
  to_int (bool b) = some (bit b)
  to_int (int n) = some n
  to_int (float n d) = some n
  to_int (str s) = int_of s
  to_int (arr xs) = none
  to_int (obj fs) = none

  -- `Decimal(x)`
  abbrev pub to_decimal : Json → Option Decimal
  to_decimal null = none
  to_decimal (bool b) = some (whole (bit b))
  to_decimal (int n) = some (whole n)
  to_decimal (float n d) = some d
  to_decimal (str s) = decimal_of s
  to_decimal (arr xs) = decimal_of_parts (list_of xs)
  to_decimal (obj fs) = none

  -- `int(raw) if raw is not None else None`; the outer `none` is that `int` raises.
  abbrev pub int_unless_null : Option Json → Option (Option ℤ)
  int_unless_null none = some none
  int_unless_null (some null) = some none
  int_unless_null (some x) = do n ← to_int x; some (some n)
