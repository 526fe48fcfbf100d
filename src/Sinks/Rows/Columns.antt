-- ===== src/Sinks/Rows/Columns.antt =====
-- `rows_to_table` fills its columns row by row; the table is the one that each cell asks for.
use mathlib.Core.List.{map-append, append_assoc, append-nil}
use mathlib.Core.Option
use l2_orderbook_pipeline.Common.{
  Bool, if◌then◌else◌, ℕ, zero, suc, List, [], ◌∷◌, ◌++◌, none, some, ◌≡◌, refl, ap, ◌∙◌, get_elem?,
  drop, map,
}
use l2_orderbook_pipeline.Book.Types.{PriceLevel}
use l2_orderbook_pipeline.Sinks.Rows.{
  SnapshotRow, Table, fill_columns, empty_columns, empty_table, append_levels, append_row,
  append_rows, rows_to_table, price_at, qty_at, side_columns, table_of,
}

-- What is left of a list from an index on, and the element there.
get_elem?-drop : (n : ℕ) (ls : List PriceLevel) → (drop n ls ≡ []) → get_elem? ls n ≡ none
get_elem?-drop n [] h = refl
get_elem?-drop zero (l ∷ ls) h = cc
get_elem?-drop (suc n) (l ∷ ls) h = get_elem?-drop n ls h

get_elem?-drop-cons :
    (n : ℕ) (ls : List PriceLevel) (l : PriceLevel) (r : List PriceLevel)
    → drop n ls ≡ l ∷ r
    → (get_elem? ls n ≡ some l) × (drop (suc n) ls ≡ r)
get_elem?-drop-cons zero [] l r h = cc
get_elem?-drop-cons zero (x ∷ ls) l r h = (cc, cc)
get_elem?-drop-cons (suc n) [] l r h = cc
get_elem?-drop-cons (suc n) (x ∷ ls) l r h = get_elem?-drop-cons n ls l r h

drop-suc-nil : (n : ℕ) (ls : List PriceLevel) → drop n ls ≡ [] → drop (suc n) ls ≡ []
drop-suc-nil n [] h = refl
drop-suc-nil zero (l ∷ ls) h = cc
drop-suc-nil (suc n) (l ∷ ls) h = drop-suc-nil n ls h

append_levels-columns :
    (n i : ℕ) (sides : List (List PriceLevel)) (ls rest : List PriceLevel)
    → drop i ls ≡ rest
    → append_levels (side_columns i n sides) rest ≡ side_columns i n (sides ++ ls ∷ [])
unfolding append_levels
append_levels-columns zero i sides ls rest h = refl
append_levels-columns (suc n) i sides ls [] h =
    let e = get_elem?-drop i ls h in
    let p =
      map-append (price_at i) sides (ls ∷ [])
      ∙ ap (λ o. map (price_at i) sides ++ Option.map (λ (l : PriceLevel). l.price) o ∷ []) e in
    let q =
      map-append (qty_at i) sides (ls ∷ [])
      ∙ ap (λ o. map (qty_at i) sides ++ Option.map (λ (l : PriceLevel). l.qty) o ∷ []) e in
    rw (p, q, append_levels-columns n (suc i) sides ls [] (drop-suc-nil i ls h))
append_levels-columns (suc n) i sides ls (l ∷ rest) h =
    let (e, d) = get_elem?-drop-cons i ls l rest h in
    let p =
      map-append (price_at i) sides (ls ∷ [])
      ∙ ap (λ o. map (price_at i) sides ++ Option.map (λ (l : PriceLevel). l.price) o ∷ []) e in
    let q =
      map-append (qty_at i) sides (ls ∷ [])
      ∙ ap (λ o. map (qty_at i) sides ++ Option.map (λ (l : PriceLevel). l.qty) o ∷ []) e in
    rw (p, q, append_levels-columns n (suc i) sides ls rest d)

append_row-table :
    (rows : List SnapshotRow) (row : SnapshotRow) (depth : ℕ)
    → append_row (table_of rows depth) row ≡ table_of (rows ++ row ∷ []) depth
unfolding append_row
append_row-table rows row depth =
    let asks =
      append_levels-columns depth 0 (map (λ (r : SnapshotRow). r.asks) rows) row.asks row.asks
        refl in
    let bids =
      append_levels-columns depth 0 (map (λ (r : SnapshotRow). r.bids) rows) row.bids row.bids
        refl in
    simp (map-append, asks, bids)

append_rows-table :
    (rows before : List SnapshotRow) (depth : ℕ)
    → append_rows (table_of before depth) rows ≡ table_of (before ++ rows) depth
unfolding append_rows
append_rows-table [] before depth = rw append-nil
append_rows-table (row ∷ rows) before depth =
    rw append_row-table (append_rows-table rows (before ++ row ∷ []) depth)
    ∙ ap (λ rs. table_of rs depth) (append_assoc before (row ∷ []) rows)

empty_columns-side : (depth i : ℕ) → empty_columns depth ≡ side_columns i depth []
unfolding empty_columns
empty_columns-side zero i = refl
empty_columns-side (suc n) i = ap (◌∷◌ ([], [])) (empty_columns-side n (suc i))

-- The columns of a batch have, in every row, the cell that the row asks for.
pub fill_columns-cells :
    (rows : List SnapshotRow) (depth : ℕ) → fill_columns rows depth ≡ table_of rows depth
unfolding fill_columns
fill_columns-cells rows depth =
    let start : empty_table depth ≡ table_of [] depth =
      unfold empty_table in rw (empty_columns-side depth 0) in
    ap (λ t. append_rows t rows) start ∙ append_rows-table rows [] depth

-- Either pyarrow refuses a column and the batch has no table; or the table of the batch has, in every
-- column and row, the cell that the row asks for: its own fields, and the price and quantity of
-- its i-th level in the i-th pair of columns of each side, or nothing where the row has fewer levels;
-- levels past the schema's depth are left out.
pub rows_to_table-cells :
    (accepts : Table → Bool) (rows : List SnapshotRow) (depth : ℕ)
    → rows_to_table accepts rows depth
      ≡ (if accepts (table_of rows depth) then some (table_of rows depth) else none)
unfolding rows_to_table
rows_to_table-cells accepts rows depth =
    ap (λ t. if accepts t then some t else none) (fill_columns-cells rows depth)
