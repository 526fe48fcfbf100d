-- ===== src/Sinks/Writer/Batches.antt =====
-- Sequences of batches given to a `_RotatingWriter`.
use Prim.Native.String.{String}
use l2_orderbook_pipeline.Common.{
  ℕ, List, [], ◌∷◌, Option, none, some, ◌≡◌, inl, inr, refl, sym, ap, ◌∙◌, subst, arith, Bool, true,
  false, All, Bool-cases, Option-cases, if◌then◌else◌,
}
use l2_orderbook_pipeline.Sinks.Rows.{SnapshotRow, Table, rows_to_table}
use l2_orderbook_pipeline.Sinks.Disk.{Disk, Parquet}
use l2_orderbook_pipeline.Sinks.Writer.{
  RotatingWriter, OpenFile, init, hour_key_for, same_hour, path_of, finalize, finalize_at,
  open_file, needs_rotation, rotate, write_rows, write_batch, close,
}
use l2_orderbook_pipeline.Sinks.Writer.Kept.{
  Tidy, Kept, Finalized, Onward, OpenShape, closed, moved, moved-Tidy, moved-Kept, open_Tidy,
  open_Kept, append_table-appended, some_eq, appended, appended-Tidy, appended-Kept, appended_new,
}

-- The rows of one call of `write_batch`, at least one, and the clock's reading in it.
pub record Batch : Type 0 where
  pub now : ℕ
  pub first : SnapshotRow
  pub rest : List SnapshotRow

abbrev pub hour_of : Batch → ℕ
hour_of b = hour_key_for b.first.ts_wall_ns

-- No batch's hour lies before the one before it.
abbrev pub Onwards : Option ℕ → List Batch → Type 0
Onwards hk [] = Unit
Onwards hk (b ∷ bs) = Onward hk (hour_of b) × Onwards (some (hour_of b)) bs

module _ (pq : Parquet Table) where
  open pq use {File, accepts}

  -- A step that loses nothing and leaves a file open for the hour.
  pub record Stage (w : RotatingWriter) (d : Disk File) (hour : ℕ) (w' : RotatingWriter)
      (d' : Disk File) : Type 0 where
    pub tidy : Tidy pq w' d'
    pub kept : (t : Table) → Kept pq w d t → Kept pq w' d' t
    pub now_open : (o : OpenFile) × (w'.writer ≡ some o)
    pub at_hour : w'.hour_key ≡ some hour
    pub same_depth : w'.depth_levels ≡ w.depth_levels

  open-Stage :
      (w : RotatingWriter) (d : Disk File) (hour now : ℕ)
      → w.writer ≡ none
      → Tidy pq w d
      → Onward w.hour_key hour
      → Stage w d hour (open_file pq w d hour now).0 (open_file pq w d hour now).1
  unfolding open_file
  open-Stage w d hour now n t o = record {
    tidy = open_Tidy pq w d n t hour now o;
    kept = open_Kept pq w d n t hour now o;
    now_open = (_, refl);
    at_hour = refl;
    same_depth = refl;
  }

  unfoldable pub rotate_at :
      RotatingWriter → Disk File → ℕ → ℕ → Option OpenFile → Bool → RotatingWriter × Disk File
  rotate_at w d hour now x b =
      if b then (let (w', d') = finalize_at pq w d x in open_file pq w' d' hour now) else (w, d)

  pub rotate-rotate_at :
      (w : RotatingWriter) (d : Disk File) (hour now : ℕ) (x : Option OpenFile) (b : Bool)
      → w.writer ≡ x
      → needs_rotation pq w hour now x ≡ b
      → rotate pq w d hour now ≡ rotate_at w d hour now x b
  unfolding rotate finalize rotate_at
  rotate-rotate_at w d hour now x b e h =
      ap (λ y. rotate_at w d hour now y (needs_rotation pq w hour now y)) e
      ∙ ap (rotate_at w d hour now x) h

  Stage-of :
      (w : RotatingWriter) (d : Disk File) (hour : ℕ) (r s : RotatingWriter × Disk File)
      → r ≡ s
      → Stage w d hour s.0 s.1
      → Stage w d hour r.0 r.1
  Stage-of w d hour r s e h = subst (λ x. Stage w d hour x.0 x.1) (sym e) h

  hour_stays : (hour : ℕ) (hk : Option ℕ) → same_hour hour hk ≡ true → hk ≡ some hour
  hour_stays hour none h = cc
  hour_stays hour (some k) h = ground arith

  no_rotation_hour :
      (w : RotatingWriter) (hour now : ℕ) (o : OpenFile)
      → needs_rotation pq w hour now (some o) ≡ false
      → w.hour_key ≡ some hour
  unfolding needs_rotation
  no_rotation_hour w hour now o h = hour_stays hour w.hour_key (ground arith)

  rotate-none :
      (w : RotatingWriter) (d : Disk File) (hour now : ℕ)
      → w.writer ≡ none
      → Tidy pq w d
      → Onward w.hour_key hour
      → Stage w d hour (rotate pq w d hour now).0 (rotate pq w d hour now).1
  unfolding rotate_at finalize_at needs_rotation
  rotate-none w d hour now e t o =
      Stage-of w d hour (rotate pq w d hour now) (open_file pq w d hour now)
        (rotate-rotate_at w d hour now none true e refl) (open-Stage w d hour now e t o)

  rotate-some :
      (w : RotatingWriter) (d : Disk File) (hour now : ℕ) (o : OpenFile)
      → w.writer ≡ some o
      → Tidy pq w d
      → Onward w.hour_key hour
      → Stage w d hour (rotate pq w d hour now).0 (rotate pq w d hour now).1
  unfolding rotate_at finalize_at closed moved
  rotate-some w d hour now o e t on = elim (Bool-cases (needs_rotation pq w hour now (some o))) [
    | inl y ↦
        let shape = t.opened o e in
        let s =
          open-Stage (closed pq w) (moved pq w d o e shape) hour now refl
            (moved-Tidy pq w d o e shape t) on in
        Stage-of w d hour (rotate pq w d hour now)
          (open_file pq (closed pq w) (moved pq w d o e shape) hour now)
          (rotate-rotate_at w d hour now (some o) true e y)
          (record {
            tidy = s.tidy;
            kept = λ x k. s.kept x (moved-Kept pq w d o e shape x k);
            now_open = s.now_open;
            at_hour = s.at_hour;
            same_depth = s.same_depth;
          })
    | inr y ↦
        Stage-of w d hour (rotate pq w d hour now) (w, d)
          (rotate-rotate_at w d hour now (some o) false e y)
          (record {
            tidy = t;
            kept = λ x k. k;
            now_open = (o, e);
            at_hour = no_rotation_hour w hour now o y;
            same_depth = refl;
          })
  ]

  rotate-Stage :
      (w : RotatingWriter) (d : Disk File) (hour now : ℕ)
      → Tidy pq w d
      → Onward w.hour_key hour
      → Stage w d hour (rotate pq w d hour now).0 (rotate pq w d hour now).1
  rotate-Stage w d hour now t on = elim (Option-cases w.writer) [
    | inl e ↦ rotate-none w d hour now e t on
    | inr (o, e) ↦ rotate-some w d hour now o e t on
  ]

  -- The table of a batch, where pyarrow takes its columns.
  abbrev pub table_of_batch : ℕ → Batch → Option Table
  table_of_batch depth b = rows_to_table accepts (b.first ∷ b.rest) depth

  abbrev write_one : RotatingWriter → Disk File → Batch → RotatingWriter × Disk File
  write_one w d b = (write_batch pq w d b.now (b.first ∷ b.rest)).0

  -- Writing the table, if there is one, keeps what was kept and the table.
  write_rows-Stage :
      (w : RotatingWriter) (d : Disk File) (hour : ℕ) (r : RotatingWriter × Disk File)
      (x : Option Table)
      → Stage w d hour r.0 r.1
      → let p = (write_rows pq r.0 r.1 x).0 in
        Stage w d hour p.0 p.1 × ((t : Table) → x ≡ some t → Kept pq p.0 p.1 t)
  unfolding write_rows
  write_rows-Stage w d hour r none s = (s, λ t e. cc)
  write_rows-Stage w d hour r (some x) s =
      let (o, e) = s.now_open in
      let shape = s.tidy.opened o e in
      subst (λ d'. Stage w d hour r.0 d' × ((t : Table) → some x ≡ some t → Kept pq r.0 d' t))
        (sym (append_table-appended pq r.0 r.1 o e shape x))
        (
          record {
            tidy = appended-Tidy pq r.0 r.1 o e shape x s.tidy;
            kept = λ y k. appended-Kept pq r.0 r.1 o e shape x y (s.kept y k);
            now_open = (o, e);
            at_hour = s.at_hour;
            same_depth = s.same_depth;
          },
          λ t h.
              subst (Kept pq r.0 (appended pq r.0 r.1 o e shape x)) (some_eq h)
                (appended_new pq r.0 r.1 o e shape x),
        )

  -- A batch keeps what was kept, and is kept.
  write_batch-Stage :
      (w : RotatingWriter) (d : Disk File) (b : Batch)
      → Tidy pq w d
      → Onward w.hour_key (hour_of b)
      → Stage w d (hour_of b) (write_one w d b).0 (write_one w d b).1
        × ((t : Table)
            → table_of_batch w.depth_levels b ≡ some t
            → Kept pq (write_one w d b).0 (write_one w d b).1 t)
  unfolding write_batch
  write_batch-Stage w d b t on =
      write_rows-Stage w d (hour_of b) (rotate pq w d (hour_of b) b.now)
        (table_of_batch w.depth_levels b) (rotate-Stage w d (hour_of b) b.now t on)

  pub write_batches : RotatingWriter → Disk File → List Batch → RotatingWriter × Disk File
  write_batches w d [] = (w, d)
  write_batches w d (b ∷ bs) = let (w', d') = write_one w d b in write_batches w' d' bs

  -- The table of the batch, if it has one, is kept.
  abbrev KeptBatch : RotatingWriter → Disk File → ℕ → Batch → Type 0
  KeptBatch w d depth b = (t : Table) → table_of_batch depth b ≡ some t → Kept pq w d t

  -- What a run keeps and where it ends.
  record RunKeeps (w : RotatingWriter) (d : Disk File) (bs : List Batch) (w' : RotatingWriter)
      (d' : Disk File) : Type 0 where
    tidy : Tidy pq w' d'
    kept : (t : Table) → Kept pq w d t → Kept pq w' d' t
    new : All (λ b. KeptBatch w' d' w.depth_levels b) bs

  write_batches_keeps :
      (bs : List Batch) (w : RotatingWriter) (d : Disk File)
      → Tidy pq w d
      → Onwards w.hour_key bs
      → RunKeeps w d bs (write_batches w d bs).0 (write_batches w d bs).1
  unfolding write_batches
  write_batches_keeps [] w d t on = record { tidy = t; kept = λ x k. k; new = tt }
  write_batches_keeps (b ∷ bs) w d t on =
      let r = write_one w d b in
      let (s, here) = write_batch-Stage w d b t on.0 in
      let run =
        write_batches_keeps bs r.0 r.1 s.tidy (subst (λ hk. Onwards hk bs) (sym s.at_hour) on.1) in
      record {
        tidy = run.tidy;
        kept = λ x k. run.kept x (s.kept x k);
        new = (
          λ x e. run.kept x (here x e),
          subst
              (λ n.
                All (λ c. KeptBatch (write_batches r.0 r.1 bs).0 (write_batches r.0 r.1 bs).1 n c)
                  bs)
              s.same_depth run.new,
        );
      }

  close_none : (w : RotatingWriter) (d : Disk File) → w.writer ≡ none → finalize pq w d ≡ (w, d)
  unfolding finalize finalize_at
  close_none w d e = ap (finalize_at pq w d) e

  close_some :
      (w : RotatingWriter) (d : Disk File) (o : OpenFile) (e : w.writer ≡ some o)
      (s : OpenShape pq w d o)
      → finalize pq w d ≡ (closed pq w, moved pq w d o e s)
  unfolding finalize finalize_at closed moved
  close_some w d o e s = ap (finalize_at pq w d) e

  -- With no file open, what is kept is in a finalized file.
  Kept-Finalized :
      (w : RotatingWriter) (d : Disk File) (t : Table)
      → w.writer ≡ none
      → Kept pq w d t
      → Finalized pq w d t
  Kept-Finalized w d t e (inl f) = f
  Kept-Finalized w d t e (inr (o, f, e', at, has)) = cc

  close_finalizes :
      (w : RotatingWriter) (d : Disk File) (t : Table)
      → Tidy pq w d
      → Kept pq w d t
      → Finalized pq (close pq w d).0 (close pq w d).1 t
  unfolding closed
  close_finalizes w d t tidy k = elim (Option-cases w.writer) [
    | inl e ↦
        subst (λ r. Finalized pq r.0 r.1 t) (sym (close_none w d e)) (Kept-Finalized w d t e k)
    | inr (o, e) ↦
        let s = tidy.opened o e in
        subst (λ r. Finalized pq r.0 r.1 t) (sym (close_some w d o e s))
          (Kept-Finalized (closed pq w) (moved pq w d o e s) t refl (moved-Kept pq w d o e s t k))
  ]

  All-map :
      (P Q : Batch → Type 0) (bs : List Batch) → ((b : Batch) → P b → Q b) → All P bs → All Q bs
  All-map P Q [] f h = tt
  All-map P Q (b ∷ bs) f h = (f b h.0, All-map P Q bs f h.1)

  init-Tidy :
      (exchange symbol : String) (depth interval : ℕ) (d : Disk File)
      → ((h k : ℕ) → d (path_of (init exchange symbol depth interval) h k false) ≡ none)
      → Tidy pq (init exchange symbol depth interval) d
  unfolding init
  init-Tidy exchange symbol depth interval d free = record {
    ahead = λ h k a. free h k;
    opened = λ o e. cc;
  }

  -- A new writer, on a disk that has no finalized file of its exchange and symbol yet, is given batches
  -- whose hours do not go back, and is closed: the table of every batch, of which pyarrow takes the
  -- columns, is then in a file under its final name.
  pub no_batch_lost :
      (exchange symbol : String) (depth interval : ℕ) (d : Disk File) (bs : List Batch)
      → ((h k : ℕ) → d (path_of (init exchange symbol depth interval) h k false) ≡ none)
      → Onwards none bs
      → let w = init exchange symbol depth interval in
        let r = write_batches w d bs in
        let c = close pq r.0 r.1 in
        All
          (λ b.
            (t : Table)
            → rows_to_table accepts (b.first ∷ b.rest) depth ≡ some t
            → Finalized pq c.0 c.1 t)
          bs
  unfolding init
  no_batch_lost exchange symbol depth interval d bs free on =
      let w = init exchange symbol depth interval in
      let r = write_batches w d bs in
      let run = write_batches_keeps bs w d (init-Tidy exchange symbol depth interval d free) on in
      All-map (λ b. KeptBatch r.0 r.1 depth b) _ bs
        (λ b k t e. close_finalizes r.0 r.1 t run.tidy (k t e)) run.new
