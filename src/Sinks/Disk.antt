-- ===== src/Sinks/Disk.antt =====
-- The directory tree that the sink writes to, and what it relies on of pyarrow.
use Prim.Native.String.{String}
use text.Mathlib.Text.{◌==◌ as str_eq}
use text.Mathlib.TextEquality.{eq_iff}
use text.Mathlib.TextPositions.{eq_refl}
use l2_orderbook_pipeline.Common.{
  ℕ, List, [], ◌∷◌, ◌++◌, Option, none, some, ◌≡◌, arith, Bool, true, false, ◌&&◌, ◌==◌,
  if◌then◌else◌,
}

-- `exchange=…/symbol=…/date=…/hour=…`; a date is the number of days since 1970-01-01.
pub record Directory : Type 0 where
  pub exchange : String
  pub symbol : String
  pub date : ℕ
  pub hour : ℕ

-- `part-{part:04d}.parquet` in a directory, or that name with `.tmp` behind it.
pub record FilePath : Type 0 where
  pub directory : Directory
  pub part : ℕ
  pub is_tmp : Bool

abbrev bool_eq : Bool → Bool → Bool
bool_eq true b = b
bool_eq false true = false
bool_eq false false = true

unfoldable pub path_eq : FilePath → FilePath → Bool
path_eq p q =
    str_eq p.directory.exchange q.directory.exchange
    && (str_eq p.directory.symbol q.directory.symbol
        && (p.directory.date == q.directory.date
            && (p.directory.hour == q.directory.hour
                && (p.part == q.part && bool_eq p.is_tmp q.is_tmp))))

pub path_eq_refl : (p : FilePath) → path_eq p p ≡ true
unfolding path_eq
path_eq_refl p = simp eq_refl (ground arith)

pub path_eq→eq : (p q : FilePath) → path_eq p q ≡ true → p ≡ q
unfolding path_eq
path_eq→eq p q h = ground (
  arith,
  eq_iff p.directory.exchange q.directory.exchange,
  eq_iff p.directory.symbol q.directory.symbol,
)

-- A file by its path.
abbrev pub Disk : Type 0 → Type 0
Disk File = FilePath → Option File

module _ {File : Type 0} where
  abbrev pub write_file : FilePath → File → Disk File → Disk File
  write_file p f d q = if path_eq p q then some f else d q

  abbrev pub remove_file : FilePath → Disk File → Disk File
  remove_file p d q = if path_eq p q then none else d q

  -- `source.replace(target)`
  abbrev pub replace_file : FilePath → FilePath → Disk File → Disk File
  replace_file source target d = elim (d source) [
    | none ↦ d
    | some f ↦ write_file target f (remove_file source d)
  ]

-- pyarrow's ParquetWriter: a file to which tables are written one after another, and which gives
-- back the tables that were written to it. `accepts` says of a batch's columns whether `pa.array` takes each
-- for its type; where it does not, it raises.
pub record Parquet (Table : Type 0) : Type 1 where
  pub File : Type 0
  pub create : File
  pub accepts : Table → Bool
  pub write_table : File → Table → File
  pub tables : File → List Table
  pub tables-create : tables create ≡ []
  pub tables-write_table : (f : File) (t : Table) → tables (write_table f t) ≡ tables f ++ t ∷ []
