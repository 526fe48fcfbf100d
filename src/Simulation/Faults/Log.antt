-- ===== src/Simulation/Faults/Log.antt =====
-- `summarize_log`: the counts of each type of fault.
use l2_orderbook_pipeline.Common.{
  ℕ, ◌+◌, List, [], ◌∷◌, ◌≡◌, arith, Bool, true, false, not, ◌&&◌, filter, length, if◌then◌else◌,
}
use l2_orderbook_pipeline.Simulation.Faults.{FaultType, FaultRecord, same_fault}

-- A dictionary with an entry for each type: its fired and its shadowed count.
abbrev pub Counts : Type 0
Counts = FaultType → ℕ × ℕ

abbrev pub bump : Bool → ℕ × ℕ → ℕ × ℕ
bump true (fired, shadowed) = (fired, shadowed + 1)
bump false (fired, shadowed) = (fired + 1, shadowed)

-- `counts[record.fault_type][1 if record.shadowed else 0] += 1`
abbrev pub count_record : Counts → FaultRecord → Counts
count_record c r f = if same_fault r.fault_type f then bump r.shadowed (c f) else c f

unfoldable pub count_records : Counts → List FaultRecord → Counts
count_records c [] = c
count_records c (r ∷ rs) = count_records (count_record c r) rs

unfoldable pub summarize_log : List FaultRecord → Counts
summarize_log log = count_records (λ f. (0, 0)) log

-- The records of a type that fired, and those that were shadowed.
abbrev pub of_type : FaultType → Bool → List FaultRecord → List FaultRecord
of_type f shadowed log =
    filter
      (λ (r : FaultRecord).
        same_fault r.fault_type f && (if shadowed then r.shadowed else not r.shadowed))
      log

count_records-length :
    (log : List FaultRecord) (c : Counts) (f : FaultType)
    → ((count_records c log f).0 ≡ (c f).0 + length (of_type f false log))
      × ((count_records c log f).1 ≡ (c f).1 + length (of_type f true log))
unfolding count_records
count_records-length [] c f = (omega arith, omega arith)
count_records-length (r ∷ rs) c f = ground (arith, count_records-length rs (count_record c r) f)

-- The summary of a log gives for each type how many of its records fired, and how many were
-- shadowed.
pub summarize_log-counts :
    (log : List FaultRecord) (f : FaultType)
    → ((summarize_log log f).0 ≡ length (of_type f false log))
      × ((summarize_log log f).1 ≡ length (of_type f true log))
unfolding summarize_log
summarize_log-counts log f =
    let h = count_records-length log (λ _. (0, 0)) f in (omega (arith, h.0), omega (arith, h.1))
