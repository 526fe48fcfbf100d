-- ===== src/Common/Texts.antt =====
-- Texts as keys of dictionaries.
use Prim.Native.String.{String}
use text.Mathlib.Text.{◌==◌ as str_eq}
use text.Mathlib.TextEquality.{eq_iff}
use l2_orderbook_pipeline.Common.Tests.{Eq}

instance abbrev pub string_Eq : Eq String
string_Eq = record { beq = str_eq; beq_iff = eq_iff }
