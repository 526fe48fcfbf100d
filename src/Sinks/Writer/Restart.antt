-- ===== src/Sinks/Writer/Restart.antt =====
-- The first file of a new `_RotatingWriter`, on a disk that an earlier process may have written to.
use Prim.Native.String.{String}
use l2_orderbook_pipeline.Common.{ℕ, [], ◌∷◌, ◌++◌, none, some, ◌≡◌, refl, ap, ◌∙◌, true, false}
use l2_orderbook_pipeline.Sinks.Rows.{Table, rows_to_table}
use l2_orderbook_pipeline.Sinks.Disk.{FilePath, Disk, Parquet, write_file}
use l2_orderbook_pipeline.Sinks.Writer.{
  RotatingWriter, init, path_of, finalize, finalize_at, open_file, needs_rotation, append_table,
  append_to, rotate, write_rows, write_batch, close,
}
use l2_orderbook_pipeline.Sinks.Writer.Kept.{get-write_self, get-replace_target}
use l2_orderbook_pipeline.Sinks.Writer.Batches.{Batch, hour_of, rotate_at, rotate-rotate_at}

module _ (pq : Parquet Table) (exchange symbol : String) (depth interval : ℕ) (d : Disk pq.File)
    (b : Batch) where
  open pq use {File, accepts, create, write_table, tables, tables-create, tables-write_table}

  abbrev fresh : RotatingWriter
  fresh = init exchange symbol depth interval

  abbrev first_path : FilePath
  first_path = path_of fresh (hour_of b) 0 false

  abbrev first_tmp : FilePath
  first_tmp = path_of fresh (hour_of b) 0 true

  abbrev started : RotatingWriter × Disk File
  started = open_file pq fresh d (hour_of b) b.now

  written : Table → Disk File
  written table = write_file first_tmp (write_table create table) (write_file first_tmp create d)

  -- The whole life of the writer: one batch, and `close`.
  abbrev pub after_one_batch : Disk File
  after_one_batch =
      let r = (write_batch pq fresh d b.now (b.first ∷ b.rest)).0 in (close pq r.0 r.1).1

  first_batch :
      (table : Table)
      → rows_to_table accepts (b.first ∷ b.rest) depth ≡ some table
      → (write_batch pq fresh d b.now (b.first ∷ b.rest)).0 ≡ (started.0, written table)
  unfolding write_batch write_rows init rotate_at finalize_at needs_rotation open_file append_table
      append_to written
  first_batch table taken =
      let r = rotate-rotate_at pq fresh d (hour_of b) b.now none true refl refl in
      ap (λ o. let x = rotate pq fresh d (hour_of b) b.now in (write_rows pq x.0 x.1 o).0) taken
      ∙ ap (λ (x : RotatingWriter × Disk File). (x.0, append_table pq x.0.writer x.1 table)) r
      ∙ ap
          (λ o. (
            started.0,
            append_to pq (record { tmp_path = first_tmp; final_path = first_path })
                (write_file first_tmp create d) table o,
          ))
          (get-write_self first_tmp create d)

  -- A new writer gives its first file the name `part-0000` of its hour, whatever stands there: after
  -- one batch, of which pyarrow takes the columns, and `close`, the file under that name holds the batch's table and nothing else, so
  -- the rows of a file that an earlier process finalized in that hour are gone.
  pub restart_overwrites :
      (f : File) (table : Table)
      → d first_path ≡ some f
      → rows_to_table accepts (b.first ∷ b.rest) depth ≡ some table
      → (g : File) × (after_one_batch first_path ≡ some g) × (tables g ≡ table ∷ [])
  unfolding written finalize finalize_at open_file init
  restart_overwrites f table old taken =
      let moved =
        get-replace_target first_tmp first_path (write_table create table) (written table)
          (get-write_self first_tmp (write_table create table) (write_file first_tmp create d)) in
      (
        write_table create table,
        ap (λ (x : RotatingWriter × Disk File). (close pq x.0 x.1).1 first_path)
              (first_batch table taken)
            ∙ moved,
        tables-write_table create table ∙ ap (λ ts. ts ++ table ∷ []) tables-create,
      )
