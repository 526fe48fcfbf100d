-- ===== src/Sinks/Queue/Order.antt =====
-- What `BoundedRowQueue` keeps, what it drops, and in which order rows come out.
use mathlib.Core.List.{append_assoc, append-nil}
use l2_orderbook_pipeline.Common.{
  ℕ, zero, suc, ◌+◌, ◌-◌, ◌≤◌, ◌<◌, List, [], ◌∷◌, ◌++◌, ◌≡◌, refl, sym, ap, ◌∙◌, subst, arith,
  false, length, drop, length-append, length-drop, if◌then◌else◌, Bool-cases, inl, inr,
}
use l2_orderbook_pipeline.Sinks.Queue.{BoundedRowQueue, full, put, Fits}

module _ {ℓ} {A : Type ℓ} where
  -- The last `n` elements of a list.
  abbrev pub last : ℕ → List A → List A
  last n xs = drop (length xs - n) xs

  drop_append : (n : ℕ) (xs ys : List A) → n ≤ length xs → drop n (xs ++ ys) ≡ drop n xs ++ ys
  drop_append zero xs ys h = refl
  drop_append (suc n) [] ys h = elim h [ ]
  drop_append (suc n) (x ∷ xs) ys h = drop_append n xs ys (omega arith)

  drop-nil : (n : ℕ) → drop {A = A} n [] ≡ []
  drop-nil zero = refl
  drop-nil (suc n) = refl

  drop-drop : (n k : ℕ) (xs : List A) → drop n (drop k xs) ≡ drop (n + k) xs
  drop-drop n zero xs = ap (λ t. drop t xs) (omega arith)
  drop-drop n (suc k) [] = drop-nil n ∙ sym (drop-nil (n + suc k))
  drop-drop n (suc k) (x ∷ xs) =
      let e : n + suc k ≡ suc (n + k) = omega arith in rw e (drop-drop n k xs)

  -- To keep the last `n`, the last `n` of the first part are all that matter.
  last-last-append : (n : ℕ) (xs ys : List A) → last n (last n xs ++ ys) ≡ last n (xs ++ ys)
  last-last-append n xs ys =
      let k = length xs - n in
      let e : drop k xs ++ ys ≡ drop k (xs ++ ys) = sym (drop_append k xs ys (omega arith)) in
      let l : length (drop k (xs ++ ys)) ≡ length (xs ++ ys) - k = length-drop k (xs ++ ys) in
      let m = length-append xs ys in
      rw e (
        drop-drop (length (drop k (xs ++ ys)) - n) k (xs ++ ys)
        ∙ ap (λ t. drop t (xs ++ ys)) (omega arith))

  pub put-rows :
      (q : BoundedRowQueue A) (row : A)
      → (put q row).0.rows ≡ (if full q then drop 1 q.rows else q.rows) ++ row ∷ []
  unfolding put
  put-rows q row = ground arith

  -- A put reports an eviction exactly when the queue was full, and counts it; the new row is the
  -- newest, and all but the evicted row keep their order.
  pub put_evicts :
      (q : BoundedRowQueue A) (row : A)
      → ((put q row).1 ≡ full q)
        × ((put q row).0.rows_dropped ≡ q.rows_dropped + (if full q then 1 else 0))
        × ((put q row).0.rows ≡ (if full q then drop 1 q.rows else q.rows) ++ row ∷ [])
  unfolding put
  put_evicts q row = ground arith

  put-maxsize : (q : BoundedRowQueue A) (row : A) → (put q row).0.maxsize ≡ q.maxsize
  unfolding put
  put-maxsize q row = ground arith

  pub put-dropped :
      (q : BoundedRowQueue A) (row : A)
      → (put q row).0.rows_dropped ≡ q.rows_dropped + (if full q then 1 else 0)
  unfolding put
  put-dropped q row = ground arith

  put_window :
      (q : BoundedRowQueue A) (row : A)
      → 0 < q.maxsize
      → Fits q
      → (put q row).0.rows ≡ last q.maxsize (q.rows ++ row ∷ [])
  put_window q row p f = elim (Bool-cases (full q)) [
    | inl h ↦
        let e : length (q.rows ++ row ∷ []) - q.maxsize ≡ 1 =
          ground (arith, f p, length-append q.rows (row ∷ [])) in
        put-rows q row
        ∙ rw h (
            sym (
              ap (λ t. drop t (q.rows ++ row ∷ [])) e
              ∙ drop_append 1 q.rows (row ∷ []) (ground (arith, f p))))
    | inr h ↦
        let e : length (q.rows ++ row ∷ []) - q.maxsize ≡ 0 =
          ground (arith, length-append q.rows (row ∷ [])) in
        put-rows q row ∙ rw h (sym (ap (λ t. drop t (q.rows ++ row ∷ [])) e))
  ]

  -- A put keeps the queue within its bound.
  pub put-Fits : (q : BoundedRowQueue A) (row : A) → Fits q → Fits (put q row).0
  put-Fits q row f p =
      let p' : 0 < q.maxsize = rw (← put-maxsize q row) p in
      omega (
        arith,
        put-maxsize q row,
        ap length (put_window q row p' f),
        length-drop (length (q.rows ++ row ∷ []) - q.maxsize) (q.rows ++ row ∷ []),
      )

  unfoldable pub put_all : BoundedRowQueue A → List A → BoundedRowQueue A
  put_all q [] = q
  put_all q (row ∷ rows) = put_all (put q row).0 rows

  -- Rows that are put while nobody takes any: a bounded queue then holds the newest of all, as
  -- many as its bound allows, in their order.
  pub put_all-rows :
      (rows : List A) (q : BoundedRowQueue A)
      → 0 < q.maxsize
      → Fits q
      → (put_all q rows).rows ≡ last q.maxsize (q.rows ++ rows)
  unfolding put_all
  put_all-rows [] q p f =
      let e : length q.rows - q.maxsize ≡ 0 = omega (arith, f p) in rw append-nil (rw e refl)
  put_all-rows (row ∷ rows) q p f =
      let m = put-maxsize q row in
      let ih = put_all-rows rows (put q row).0 (subst (λ n. 0 < n) (sym m) p) (put-Fits q row f) in
      ih
      ∙ ap (λ n. last n ((put q row).0.rows ++ rows)) m
      ∙ ap (λ rs. last q.maxsize (rs ++ rows)) (put_window q row p f)
      ∙ last-last-append q.maxsize (q.rows ++ row ∷ []) rows
      ∙ ap (last q.maxsize) (append_assoc q.rows (row ∷ []) rows)

  -- An unbounded queue drops nothing.
  pub put_all_unbounded :
      (rows : List A) (q : BoundedRowQueue A)
      → q.maxsize ≡ 0
      → ((put_all q rows).rows ≡ q.rows ++ rows) × ((put_all q rows).rows_dropped ≡ q.rows_dropped)
  unfolding put_all
  put_all_unbounded [] q z = (sym (append-nil q.rows), refl)
  put_all_unbounded (row ∷ rows) q z =
      let n : full q ≡ false = ground arith in
      let (kept, none_lost) = put_all_unbounded rows (put q row).0 (put-maxsize q row ∙ z) in
      let here : (put q row).0.rows ≡ q.rows ++ row ∷ [] = put-rows q row ∙ rw n in
      (
        kept ∙ ap (λ rs. rs ++ rows) here ∙ append_assoc q.rows (row ∷ []) rows,
        none_lost ∙ put-dropped q row ∙ rw n (omega arith),
      )
