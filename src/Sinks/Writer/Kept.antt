-- ===== src/Sinks/Writer/Kept.antt =====
-- What `_RotatingWriter` keeps of the tables that it was given.
use mathlib.Core.List.{append_assoc}
use Prim.Native.Nat.{◌%◌}
use l2_orderbook_pipeline.Common.{
  ℕ, suc, ◌/◌, ◌≤◌, ◌<◌, List, [], ◌∷◌, ◌++◌, Option, none, some, ◌≡◌, ◌≢◌, ◌⊎◌, inl, inr, refl,
  sym, ap, ◌∙◌, subst, arith, Bool, true, false, Bool-cases, Option-cases, if◌then◌else◌,
}
use l2_orderbook_pipeline.Sinks.Rows.{Table}
use l2_orderbook_pipeline.Sinks.Disk.{
  FilePath, Disk, path_eq, path_eq_refl, path_eq→eq, write_file, remove_file, replace_file, Parquet,
}
use l2_orderbook_pipeline.Sinks.Writer.{
  RotatingWriter, OpenFile, partition_dir, same_hour, path_of, open_file, append_table, append_to,
}

-- Two paths of one writer are the same only for the same hour, part and suffix.
path_of-injective :
    (w : RotatingWriter) (h h' k k' : ℕ) (b b' : Bool)
    → path_of w h k b ≡ path_of w h' k' b'
    → (h ≡ h') × (k ≡ k') × (b ≡ b')
unfolding partition_dir
path_of-injective w h h' k k' b b' e =
    let d : h / 24 ≡ h' / 24 = ap (λ (p : FilePath). p.directory.date) e in
    let m : h % 24 ≡ h' % 24 = ap (λ (p : FilePath). p.directory.hour) e in
    (omega arith, ap (λ (p : FilePath). p.part) e, ap (λ (p : FilePath). p.is_tmp) e)

pub some_eq {ℓ} : {A : Type ℓ} {x y : A} → some x ≡ some y → x ≡ y
some_eq h = cc

module _ {File : Type 0} where
  pub get-write_self : (p : FilePath) (f : File) (d : Disk File) → write_file p f d p ≡ some f
  get-write_self p f d = rw path_eq_refl

  pub get-write_ne : (p q : FilePath) (f : File) (d : Disk File) → p ≢ q → write_file p f d q ≡ d q
  get-write_ne p q f d n = elim (Bool-cases (path_eq p q)) [
    | inl c ↦ absurd (n (path_eq→eq p q c))
    | inr c ↦ rw c
  ]

  pub get-remove_ne : (p q : FilePath) (d : Disk File) → p ≢ q → remove_file p d q ≡ d q
  get-remove_ne p q d n = elim (Bool-cases (path_eq p q)) [
    | inl c ↦ absurd (n (path_eq→eq p q c))
    | inr c ↦ rw c
  ]

  pub get-replace_target :
      (p q : FilePath) (f : File) (d : Disk File) → d p ≡ some f → replace_file p q d q ≡ some f
  get-replace_target p q f d h = rw (h, replace_file) (get-write_self q f (remove_file p d))

  pub get-replace_ne :
      (p q r : FilePath) (d : Disk File) → p ≢ r → q ≢ r → replace_file p q d r ≡ d r
  get-replace_ne p q r d n m = elim (Option-cases (d p)) [
    | inl e ↦ rw (e, replace_file)
    | inr (f, e) ↦
        rw (e, replace_file) (get-write_ne q r f (remove_file p d) m ∙ get-remove_ne p r d n)
  ]

-- A batch's hour does not lie before the writer's.
abbrev pub Onward : Option ℕ → ℕ → Type 0
Onward none hour = Unit
Onward (some h0) hour = h0 ≤ hour

module _ (pq : Parquet Table) where
  open pq use {File, create, write_table, tables, tables-create, tables-write_table}

  -- A file that a table was written to.
  abbrev pub Has : File → Table → Type 0
  Has f t = (before : List Table) × (after : List Table) × (tables f ≡ before ++ t ∷ after)

  -- Hours and parts that the writer has not yet given a final name: `next` is the next part.
  abbrev pub Ahead : Option ℕ → ℕ → ℕ → ℕ → Type 0
  Ahead none next h k = Unit
  Ahead (some h0) next h k = (h0 < h) ⊎ ((h ≡ h0) × (next ≤ k))

  -- The open file has a `.tmp` file, and the last part of the current hour.
  pub record OpenShape (w : RotatingWriter) (d : Disk File) (o : OpenFile) : Type 0 where
    pub hour : ℕ
    pub part : ℕ
    pub content : File
    pub at_hour : w.hour_key ≡ some hour
    pub next_part : w.sequence ≡ suc part
    pub tmp : o.tmp_path ≡ path_of w hour part true
    pub final : o.final_path ≡ path_of w hour part false
    pub on_disk : d o.tmp_path ≡ some content
    pub free : d o.final_path ≡ none

  -- Nothing stands yet at the names that the writer will use.
  pub record Tidy (w : RotatingWriter) (d : Disk File) : Type 0 where
    pub ahead : (h k : ℕ) → Ahead w.hour_key w.sequence h k → d (path_of w h k false) ≡ none
    pub opened : (o : OpenFile) → w.writer ≡ some o → OpenShape w d o

  -- The table is in a file that has its final name, or in the open one.
  abbrev pub Kept : RotatingWriter → Disk File → Table → Type 0
  Kept w d t =
      ((h : ℕ) × (k : ℕ) × (f : File) × (d (path_of w h k false) ≡ some f) × Has f t)
      ⊎ ((o : OpenFile) × (f : File) × (w.writer ≡ some o) × (d o.tmp_path ≡ some f) × Has f t)

  -- The table is in a file that has its final name.
  abbrev pub Finalized : RotatingWriter → Disk File → Table → Type 0
  Finalized w d t = (h : ℕ) × (k : ℕ) × (f : File) × (d (path_of w h k false) ≡ some f) × Has f t

  pub tmp≢final : (w : RotatingWriter) (h k h' k' : ℕ) → path_of w h k true ≢ path_of w h' k' false
  tmp≢final w h k h' k' e = cc ((path_of-injective w h h' k k' true false e).2)

  final≢final :
      (w : RotatingWriter) (h k h' k' : ℕ)
      → (h ≡ h' → k ≢ k')
      → path_of w h k false ≢ path_of w h' k' false
  final≢final w h k h' k' n e = let (p, q, r) = path_of-injective w h h' k k' false false e in n p q

  unfoldable pub closed : RotatingWriter → RotatingWriter
  closed w = record w { writer = none }

  -- Giving the open file its final name moves its content there, and leaves every file that has a
  -- final name alone.
  module _ (w : RotatingWriter) (d : Disk File) (o : OpenFile) (open_at : w.writer ≡ some o)
      (s : OpenShape w d o) where
    unfoldable pub moved : Disk File
    moved = replace_file o.tmp_path o.final_path d

    pub moved_final : moved o.final_path ≡ some s.content
    unfolding moved
    moved_final = get-replace_target o.tmp_path o.final_path s.content d s.on_disk

    moved_kept :
        (h k : ℕ) (f : File)
        → d (path_of w h k false) ≡ some f
        → moved (path_of w h k false) ≡ some f
    unfolding moved
    moved_kept h k f e =
        get-replace_ne o.tmp_path o.final_path (path_of w h k false) d
          (λ p. tmp≢final w s.hour s.part h k (sym s.tmp ∙ p))
          (λ p. cc (sym e ∙ ap d (sym p) ∙ s.free))
        ∙ e

    part_done : (h k : ℕ) → Ahead w.hour_key w.sequence h k → s.hour ≡ h → s.part ≢ k
    part_done h k a e e' =
        let a' : Ahead (some s.hour) w.sequence h k =
          subst (λ o. Ahead o w.sequence h k) s.at_hour a in
        omega (arith, s.next_part)

    pub moved-Tidy : Tidy w d → Tidy (closed w) moved
    unfolding moved closed
    moved-Tidy t = record {
      ahead = λ h k a.
          get-replace_ne o.tmp_path o.final_path (path_of w h k false) d
            (λ p. tmp≢final w s.hour s.part h k (sym s.tmp ∙ p))
            (λ p. final≢final w s.hour s.part h k (part_done h k a) (sym s.final ∙ p))
          ∙ t.ahead h k a;
      opened = λ o' e. cc;
    }

    pub moved-Kept : (t : Table) → Kept w d t → Kept (closed w) moved t
    unfolding closed
    moved-Kept t (inl (h, k, f, at, has)) = inl (h, k, f, moved_kept h k f at, has)
    moved-Kept t (inr (o', f, e, at, has)) =
        let same : o' ≡ o = some_eq (sym e ∙ open_at) in
        inl (
          s.hour,
          s.part,
          s.content,
          ap moved (sym s.final) ∙ moved_final,
          subst (λ g. Has g t)
              (some_eq (sym at ∙ ap (λ (p : OpenFile). d p.tmp_path) same ∙ s.on_disk)) has,
        )

  Ahead-of_open :
      (hk : Option ℕ) (next hour h k : ℕ)
      → Onward hk hour
      → (hour < h) ⊎ ((h ≡ hour) × ((if same_hour hour hk then next else 0) ≤ k))
      → Ahead hk next h k
  Ahead-of_open none next hour h k o a = tt
  Ahead-of_open (some h0) next hour h k o a = ground arith

  module _ (w : RotatingWriter) (d : Disk File) (n : w.writer ≡ none) (t : Tidy w d) (hour now : ℕ)
      (onward : Onward w.hour_key hour) where
    next_part : ℕ
    next_part = if same_hour hour w.hour_key then w.sequence else 0

    open_kept :
        (h k : ℕ) → (open_file pq w d hour now).1 (path_of w h k false) ≡ d (path_of w h k false)
    unfolding open_file next_part
    open_kept h k =
        get-write_ne (path_of w hour next_part true) (path_of w h k false) create d
          (tmp≢final w hour next_part h k)

    pub open_Tidy : Tidy (open_file pq w d hour now).0 (open_file pq w d hour now).1
    unfolding open_file next_part
    open_Tidy = record {
      ahead = λ h k a.
          open_kept h k
          ∙ t.ahead h k (
              Ahead-of_open w.hour_key w.sequence hour h k onward
                (elim a [ inl p ↦ inl p | inr (p, q) ↦ inr (p, omega arith) ]));
      opened = λ o e.
          subst (λ o'. OpenShape (open_file pq w d hour now).0 (open_file pq w d hour now).1 o')
            (some_eq e)
            (record {
              hour = hour;
              part = next_part;
              content = create;
              at_hour = refl;
              next_part = omega arith;
              tmp = refl;
              final = refl;
              on_disk = get-write_self (path_of w hour next_part true) create d;
              free =
                  open_kept hour next_part
                  ∙ t.ahead hour next_part (
                      Ahead-of_open w.hour_key w.sequence hour hour next_part onward
                        (inr (refl, omega arith)));
            });
    }

    pub open_Kept :
        (x : Table)
        → Kept w d x
        → Kept (open_file pq w d hour now).0 (open_file pq w d hour now).1 x
    unfolding open_file
    open_Kept x (inl (h, k, f, at, has)) = inl (h, k, f, open_kept h k ∙ at, has)
    open_Kept x (inr (o, f, e, at, has)) = cc

  -- One table more behind the others, in the open file.
  module _ (w : RotatingWriter) (d : Disk File) (o : OpenFile) (open_at : w.writer ≡ some o)
      (s : OpenShape w d o) (x : Table) where
    unfoldable pub appended : Disk File
    appended = write_file o.tmp_path (write_table s.content x) d

    pub append_table-appended : append_table pq w.writer d x ≡ appended
    unfolding append_table append_to appended
    append_table-appended =
        ap (λ p. append_table pq p d x) open_at ∙ ap (append_to pq o d x) s.on_disk

    appended_kept : (h k : ℕ) → appended (path_of w h k false) ≡ d (path_of w h k false)
    unfolding appended
    appended_kept h k =
        get-write_ne o.tmp_path (path_of w h k false) (write_table s.content x) d
          (λ p. tmp≢final w s.hour s.part h k (sym s.tmp ∙ p))

    pub appended-Tidy : Tidy w d → Tidy w appended
    appended-Tidy t = record {
      ahead = λ h k a. appended_kept h k ∙ t.ahead h k a;
      opened = λ o' e. subst (OpenShape w appended) (some_eq (sym open_at ∙ e)) (record {
        hour = s.hour;
        part = s.part;
        content = write_table s.content x;
        at_hour = s.at_hour;
        next_part = s.next_part;
        tmp = s.tmp;
        final = s.final;
        on_disk = unfold appended in get-write_self o.tmp_path (write_table s.content x) d;
        free = ap appended s.final ∙ appended_kept s.hour s.part ∙ ap d (sym s.final) ∙ s.free;
      });
    }

    pub appended-Kept : (t : Table) → Kept w d t → Kept w appended t
    appended-Kept t (inl (h, k, f, at, has)) = inl (h, k, f, appended_kept h k ∙ at, has)
    appended-Kept t (inr (o', f, e, at, (before, after, split))) =
        let same : o' ≡ o = some_eq (sym e ∙ open_at) in
        let c : f ≡ s.content =
          some_eq (sym at ∙ ap (λ (p : OpenFile). d p.tmp_path) same ∙ s.on_disk) in
        inr (
          o,
          write_table s.content x,
          open_at,
          (unfold appended in get-write_self o.tmp_path (write_table s.content x) d),
          (
            before,
            after ++ x ∷ [],
            tables-write_table s.content x
                ∙ ap (λ g. tables g ++ x ∷ []) (sym c)
                ∙ ap (λ ts. ts ++ x ∷ []) split
                ∙ append_assoc before (t ∷ after) (x ∷ []),
          ),
        )

    pub appended_new : Kept w appended x
    appended_new = inr (
      o,
      write_table s.content x,
      open_at,
      (unfold appended in get-write_self o.tmp_path (write_table s.content x) d),
      (tables s.content, [], tables-write_table s.content x),
    )
