-- ===== src/Sinks/Queue/Fifo.antt =====
-- A `BoundedRowQueue` in use: its producers' puts and its consumer's gets, in any order.
use mathlib.Core.List.{Sublist, append_assoc}
use mathlib.Core.List.Sublist
use l2_orderbook_pipeline.Common.{
  ℕ, ◌+◌, List, [], ◌∷◌, ◌++◌, Option, none, some, ◌≡◌, refl, ap, ◌∙◌, subst, arith, Bool, true,
  false, length, drop, length-append, length-drop, if◌then◌else◌, Bool-cases, ◌⊎◌, inl, inr, ◌<◌,
}
use l2_orderbook_pipeline.Sinks.Queue
use l2_orderbook_pipeline.Sinks.Queue.{BoundedRowQueue, full, put, get}
use l2_orderbook_pipeline.Sinks.Queue.Order.{put-rows, put-dropped}

-- What producers gave and what the consumer took so far.
pub record Traffic {ℓ} (A : Type ℓ) : Type ℓ where
  pub queue : BoundedRowQueue A
  pub given : List A
  pub taken : List A

pub data Op {ℓ} (A : Type ℓ) : Type ℓ where
  putting : A → Op A
  getting : Op A

module _ {ℓ} {A : Type ℓ} where
  take_next : Traffic A → Option (A × BoundedRowQueue A) → Traffic A
  take_next t none = t
  take_next t (some (row, q)) = record t { queue = q; taken = t.taken ++ row ∷ [] }

  op_step : Traffic A → Op A → Traffic A
  unfolding take_next
  op_step t (putting row) = record t { queue = (put t.queue row).0; given = t.given ++ row ∷ [] }
  op_step t getting = take_next t (get t.queue)

  unfoldable pub operate : Traffic A → List (Op A) → Traffic A
  unfolding op_step
  operate t [] = t
  operate t (op ∷ ops) = operate (op_step t op) ops

  -- Rows come out in the order in which they went in, none twice and none that did not go in; and
  -- each row that went in was taken, waits in the queue, or is counted as dropped.
  pub record IsFifo (t : Traffic A) : Type ℓ where
    pub in_order : Sublist (t.taken ++ t.queue.rows) t.given
    pub all_counted : length t.given ≡ length t.taken + length t.queue.rows + t.queue.rows_dropped

  drop-sublist : (xs : List A) → Sublist (drop 1 xs) xs
  drop-sublist [] = Sublist.refl []
  drop-sublist (x ∷ xs) = Sublist.cons x (Sublist.refl xs)

  kept-sublist : (b : Bool) (xs : List A) → Sublist (if b then drop 1 xs else xs) xs
  kept-sublist true xs = drop-sublist xs
  kept-sublist false xs = Sublist.refl xs

  put_counted :
      (q : BoundedRowQueue A) (row : A)
      → length (put q row).0.rows + (put q row).0.rows_dropped ≡ length q.rows + q.rows_dropped + 1
  put_counted q row = elim (Bool-cases (full q)) [
    | inl h ↦
        let e = put-rows q row ∙ ap (λ b. (if b then drop 1 q.rows else q.rows) ++ row ∷ []) h in
        let d = put-dropped q row ∙ ap (λ b. q.rows_dropped + (if b then 1 else 0)) h in
        let n : 0 < length q.rows = ground arith in
        omega
          (arith, ap length e, d, length-append (drop 1 q.rows) (row ∷ []), length-drop 1 q.rows)
    | inr h ↦
        let e = put-rows q row ∙ ap (λ b. (if b then drop 1 q.rows else q.rows) ++ row ∷ []) h in
        let d = put-dropped q row ∙ ap (λ b. q.rows_dropped + (if b then 1 else 0)) h in
        omega (arith, ap length e, d, length-append q.rows (row ∷ []))
  ]

  pub get_of :
      (q : BoundedRowQueue A) (xs : List A)
      → q.rows ≡ xs
      → ((q.rows ≡ []) × (get q ≡ none))
        ⊎ ((row : A) × (rest : List A) × (q.rows ≡ row ∷ rest)
            × (get q ≡ some (row, record q { rows = rest })))
  unfolding get
  get_of q [] e = inl (e, ground arith)
  get_of q (row ∷ rest) e = inr (row, rest, e, ground arith)

  putting-IsFifo : (t : Traffic A) (row : A) → IsFifo t → IsFifo (op_step t (putting row))
  unfolding op_step
  putting-IsFifo t row h = record {
    in_order = rw put-rows (
        rw (← append_assoc) (
          Sublist.append
            (Sublist.trans
              (Sublist.append (Sublist.refl t.taken) (kept-sublist (full t.queue) t.queue.rows))
              h.in_order)
            (Sublist.refl (row ∷ []))));
    all_counted =
        omega (arith, h.all_counted, put_counted t.queue row, length-append t.given (row ∷ []));
  }

  getting-IsFifo : (t : Traffic A) → IsFifo t → IsFifo (op_step t getting)
  unfolding op_step take_next
  getting-IsFifo t h = elim (get_of t.queue t.queue.rows refl) [
    | inl (e, g) ↦ rw g h
    | inr (row, rest, e, g) ↦ rw g (record {
      in_order = rw append_assoc (subst (λ xs. Sublist (t.taken ++ xs) t.given) e h.in_order);
      all_counted = omega (arith, h.all_counted, ap length e, length-append t.taken (row ∷ []));
    })
  ]

  steps-IsFifo : (ops : List (Op A)) (t : Traffic A) → IsFifo t → IsFifo (operate t ops)
  unfolding operate
  steps-IsFifo [] t h = h
  steps-IsFifo (putting row ∷ ops) t h =
      steps-IsFifo ops (op_step t (putting row)) (putting-IsFifo t row h)
  steps-IsFifo (getting ∷ ops) t h = steps-IsFifo ops (op_step t getting) (getting-IsFifo t h)

  -- A new queue, of which nothing was asked yet.
  abbrev pub unused : ℕ → Traffic A
  unused maxsize = record { queue = Queue.init maxsize; given = []; taken = [] }

  -- Whatever the producers and the consumer do, in whatever order: from a new queue of any size rows come
  -- out in the order in which they went in, none twice and none that did not go in, and each row
  -- that went in was taken, waits in the queue, or is counted as dropped.
  pub operate-IsFifo : (maxsize : ℕ) (ops : List (Op A)) → IsFifo (operate (unused maxsize) ops)
  unfolding Queue.init
  operate-IsFifo maxsize ops =
      steps-IsFifo ops (unused maxsize)
        (record { in_order = Sublist.refl []; all_counted = omega arith })
