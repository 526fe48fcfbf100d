-- ===== src/Feeds/Truth.antt =====
-- What a feed client's engine and its queue of rows tell of the exchange.
use l2_orderbook_pipeline.Common.{
  ℕ, zero, suc, List, [], ◌∷◌, Option, none, some, ◌≡◌, refl, sym, ◌∙◌, subst, arith, All,
  All-append, drop,
}
use l2_orderbook_pipeline.Common.Int.{ℤ}
use l2_orderbook_pipeline.Book.Types.{Side}
use l2_orderbook_pipeline.Book.Engine
use l2_orderbook_pipeline.Book.Engine.{BookEngine, is_live}
use l2_orderbook_pipeline.Book.Invariant.{Call, step, WellFormed, init-WellFormed, step-WellFormed}
use l2_orderbook_pipeline.Book.Sync.{
  Exchange, Mirrors, TruthfulCall, Faithful, init-Faithful, step-Faithful,
}
use l2_orderbook_pipeline.Book.Top.{IsTop, Above, Below, items_of, top_levels, top_levels_best}
use l2_orderbook_pipeline.Book.Depth.{step-depth}
use l2_orderbook_pipeline.Feeds.Envelope.{InstrumentId, row_at, build_snapshot_row}
use l2_orderbook_pipeline.Sinks.Queue.{BoundedRowQueue, put}
use l2_orderbook_pipeline.Sinks.Rows.{SnapshotRow}

-- The queue after a call that puts at most one row, built from the engine.
pub data Publishes (b : BookEngine) (q : Option (BoundedRowQueue SnapshotRow))
    (r : Option (BoundedRowQueue SnapshotRow)) : Type 0 where
  nothing : r ≡ q → Publishes b q r
  a_row :
      (p : BoundedRowQueue SnapshotRow) (row : SnapshotRow) (i : InstrumentId)
      (ts_local_ns ts_wall_ns : ℕ) (ts : Option ℤ)
      → q ≡ some p
      → build_snapshot_row b i ts_local_ns ts_wall_ns ts ≡ some row
      → r ≡ some (put p row).0
      → Publishes b q r

module _ (x : Exchange) (depth : ℕ) where
  -- A row shows, of each side of the exchange's book at the row's update id, the best `depth` levels.
  pub record RowTrue (row : SnapshotRow) : Type 0 where
    pub bids : Side
    pub asks : Side
    pub bids_mirror : Mirrors bids (x.bid_at row.last_applied_id)
    pub asks_mirror : Mirrors asks (x.ask_at row.last_applied_id)
    pub bids_best : IsTop Above depth bids (items_of row.bids)
    pub asks_best : IsTop Below depth asks (items_of row.asks)

  abbrev pub RowsTrue : Option (BoundedRowQueue SnapshotRow) → Type 0
  RowsTrue none = Unit
  RowsTrue (some q) = All RowTrue q.rows

  pub record Sound (b : BookEngine) (q : Option (BoundedRowQueue SnapshotRow)) : Type 0 where
    pub well_formed : WellFormed b
    pub faithful : Faithful x b
    pub depth_is : b.depth_levels ≡ depth
    pub rows_true : RowsTrue q

  All-drop : (n : ℕ) (rows : List SnapshotRow) → All RowTrue rows → All RowTrue (drop n rows)
  All-drop zero rows a = a
  All-drop (suc n) [] a = a
  All-drop (suc n) (r ∷ rows) a = All-drop n rows a.1

  put-true :
      (q : BoundedRowQueue SnapshotRow) (row : SnapshotRow)
      → All RowTrue q.rows
      → RowTrue row
      → All RowTrue (put q row).0.rows
  unfolding put
  put-true q row a t = ground (
    arith,
    All-append RowTrue q.rows (row ∷ []) a (t, tt),
    All-append RowTrue (drop 1 q.rows) (row ∷ []) (All-drop 1 q.rows a) (t, tt),
  )

  abbrev Holds : Option SnapshotRow → Type 0
  Holds none = Unit
  Holds (some row) = RowTrue row

  row_at-true :
      (b : BookEngine) (i : InstrumentId) (ts_local_ns ts_wall_ns : ℕ) (ts : Option ℤ)
      (o : Option ℤ) (row : SnapshotRow)
      → WellFormed b
      → Faithful x b
      → b.depth_levels ≡ depth
      → b.last_applied_id ≡ o
      → row_at b i ts_local_ns ts_wall_ns ts o ≡ some row
      → RowTrue row
  unfolding row_at
  row_at-true b i ts_local_ns ts_wall_ns ts none row w f d at h = cc
  row_at-true b i ts_local_ns ts_wall_ns ts (some id) row w f d at h =
      let best =
        subst
          (λ n.
            IsTop Above n b.bids (items_of (top_levels b none).0)
            × IsTop Below n b.asks (items_of (top_levels b none).1))
          d (top_levels_best b none w) in
      subst Holds h (record {
        bids = b.bids;
        asks = b.asks;
        bids_mirror = f.bids_at id at;
        asks_mirror = f.asks_at id at;
        bids_best = best.0;
        asks_best = best.1;
      })

  pub Publishes-Sound :
      (b : BookEngine) (q r : Option (BoundedRowQueue SnapshotRow))
      → Publishes b q r
      → Sound b q
      → Sound b r
  Publishes-Sound b q r (nothing e) s = subst (Sound b) (sym e) s
  Publishes-Sound b q r (a_row p row i ts_local_ns ts_wall_ns ts qe h e) s =
      subst (Sound b) (sym e) (record {
        well_formed = s.well_formed;
        faithful = s.faithful;
        depth_is = s.depth_is;
        rows_true = put-true p row (subst RowsTrue qe s.rows_true) (
            row_at-true b i ts_local_ns ts_wall_ns ts b.last_applied_id row s.well_formed s.faithful
              s.depth_is refl (unfold build_snapshot_row in h));
      })

  pub step-Sound :
      (b : BookEngine) (c : Call) (q : Option (BoundedRowQueue SnapshotRow))
      → TruthfulCall x c
      → Sound b q
      → Sound (step b c) q
  step-Sound b c q t s = record {
    well_formed = step-WellFormed b c s.well_formed;
    faithful = step-Faithful x b c s.well_formed t s.faithful;
    depth_is = step-depth b c ∙ s.depth_is;
    rows_true = s.rows_true;
  }

  -- A new engine, and a queue without rows.
  pub init-Sound :
      (q : Option (BoundedRowQueue SnapshotRow)) → RowsTrue q → Sound (Engine.init depth) q
  init-Sound q t = record {
    well_formed = init-WellFormed depth;
    faithful = init-Faithful x depth;
    depth_is = unfold Engine.init in refl;
    rows_true = t;
  }
