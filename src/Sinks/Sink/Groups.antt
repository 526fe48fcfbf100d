-- ===== src/Sinks/Sink/Groups.antt =====
-- How `_flush` groups its rows.
use mathlib.Core.List.{append-nil, append_assoc}
use l2_orderbook_pipeline.Common.{
  ℕ, ◌+◌, List, [], ◌∷◌, ◌++◌, ◌≡◌, sym, ap, ◌∙◌, arith, filter, length, length-append, Bool-cases,
  inl, inr,
}
use l2_orderbook_pipeline.Common.Dict
use l2_orderbook_pipeline.Common.Dict.{Unique, get-set, set-Unique}
use l2_orderbook_pipeline.Sinks.Rows.{SnapshotRow}
use l2_orderbook_pipeline.Sinks.Sink.{
  GroupKey, group_key_Eq, group_key_eq, group_key_eq_iff, key_of, Groups, or_empty, add_row,
  group_rows,
}

-- The rows of a batch that belong to a group, in their order.
abbrev pub rows_of : GroupKey → List SnapshotRow → List SnapshotRow
rows_of k rows = filter (λ row. group_key_eq (key_of row) k) rows

abbrev pub in_group : GroupKey → Groups → List SnapshotRow
in_group k g = or_empty (Dict.get k g)

in_group-add_row :
    (k : GroupKey) (g : Groups) (row : SnapshotRow)
    → in_group k (add_row g row) ≡ in_group k g ++ rows_of k (row ∷ [])
unfolding add_row
in_group-add_row k g row = elim (Bool-cases (group_key_eq (key_of row) k)) [
  | inl same ↦
      let e = (group_key_eq_iff (key_of row) k).0 same in
      ap or_empty (get-set (key_of row) k (in_group (key_of row) g ++ row ∷ []) g)
      ∙ rw same (ap (λ j. in_group j g ++ row ∷ []) e)
  | inr other ↦
      ap or_empty (get-set (key_of row) k (in_group (key_of row) g ++ row ∷ []) g)
      ∙ rw other (sym (append-nil (in_group k g)))
]

filter_cons :
    (k : GroupKey) (row : SnapshotRow) (rows : List SnapshotRow)
    → rows_of k (row ∷ []) ++ rows_of k rows ≡ rows_of k (row ∷ rows)
filter_cons k row rows = ground arith

in_group-group_rows :
    (k : GroupKey) (rows : List SnapshotRow) (g : Groups)
    → in_group k (group_rows g rows) ≡ in_group k g ++ rows_of k rows
unfolding group_rows
in_group-group_rows k [] g = sym (append-nil (in_group k g))
in_group-group_rows k (row ∷ rows) g =
    in_group-group_rows k rows (add_row g row)
    ∙ ap (λ rs. rs ++ rows_of k rows) (in_group-add_row k g row)
    ∙ append_assoc (in_group k g) (rows_of k (row ∷ [])) (rows_of k rows)
    ∙ ap (λ rs. in_group k g ++ rs) (filter_cons k row rows)

-- Each group has exactly the rows of the batch that are of its exchange, symbol and hour, in the order in
-- which they came.
pub in_group-rows_of :
    (k : GroupKey) (rows : List SnapshotRow) → in_group k (group_rows [] rows) ≡ rows_of k rows
unfolding Dict.get
in_group-rows_of k rows = in_group-group_rows k rows []

-- No group stands twice.
pub group_rows-Unique :
    (rows : List SnapshotRow) (g : Groups) → Unique g → Unique (group_rows g rows)
unfolding group_rows add_row
group_rows-Unique [] g u = u
group_rows-Unique (row ∷ rows) g u =
    group_rows-Unique rows (add_row g row)
      (set-Unique (key_of row) (in_group (key_of row) g ++ row ∷ []) g u)

-- How many rows the groups hold.
abbrev pub size : Groups → ℕ
size [] = 0
size ((k, rows) ∷ g) = length rows + size g

size-set :
    (k : GroupKey) (rows : List SnapshotRow) (g : Groups)
    → size (Dict.set k rows g) + length (in_group k g) ≡ size g + length rows
unfolding Dict.set Dict.get
size-set k rows [] = omega arith
size-set k rows ((j, old) ∷ g) = ground (arith, size-set k rows g)

size-add_row : (g : Groups) (row : SnapshotRow) → size (add_row g row) ≡ size g + 1
unfolding add_row
size-add_row g row = omega (
  arith,
  size-set (key_of row) (in_group (key_of row) g ++ row ∷ []) g,
  length-append (in_group (key_of row) g) (row ∷ []),
)

pub size-group_rows :
    (rows : List SnapshotRow) (g : Groups) → size (group_rows g rows) ≡ size g + length rows
unfolding group_rows
size-group_rows [] g = omega arith
size-group_rows (row ∷ rows) g =
    omega (arith, size-add_row g row, size-group_rows rows (add_row g row))
