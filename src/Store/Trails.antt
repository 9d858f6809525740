-- ===== src/Store/Trails.antt =====
-- rescan/store.py: `audit_trail`, and the summaries of runs and batches that lists show.
use rescan.Prelude.{
  ℕ, String, Bool, true, false, ◌&&◌, ◌||◌, not, Option, none, some, List, filter, map, take,
  is_some, count_if, if◌then◌else◌,
}
use rescan.Prelude.Text.{str_eq, is_empty}
use rescan.Prelude.Result.{Result, ok, err, PyError}
use rescan.Schemas.{CandidateStatus}
use rescan.Store.Rows.{BatchRow, RunRow, AuditRow, Store}
use rescan.Store.Reads.{order_by, str_lt, get_run, in_batch, batch_count}

abbrev pub is_text : String → Option String → Bool
is_text s none = false
is_text s (some t) = str_eq t s

-- an argument that counts: there, and not empty
abbrev pub given_text : Option String → Option String
given_text none = none
given_text (some s) = if is_empty s then none else some s

-- (SELECT batch_id FROM runs WHERE id = ?), which is NULL where there is no run
abbrev pub batch_of_run : String → Store → Option String
batch_of_run run s = elim (get_run run s) [ none ↦ none | some r ↦ some (RunRow.batch_id r) ]

-- the rows of a run, and those of its batch about no run
unfoldable pub run_or_batch : String → Store → AuditRow → Bool
unfolding get_run
run_or_batch run s a =
    is_text run a.run_id || is_text a.batch_id (batch_of_run run s) && not (is_some a.run_id)

-- the first part of the condition; without a batch and a run it is a ValueError
unfoldable pub trail_condition :
    Option String → Option String → Bool → Store → Result (AuditRow → Bool)
unfolding run_or_batch
trail_condition batch (some run) true s = ok (run_or_batch run s)
trail_condition batch (some run) false s = ok (λ a. is_text run a.run_id)
trail_condition (some batch) none include s = ok (λ a. str_eq a.batch_id batch)
trail_condition none none include s = err PyError.value_error

abbrev pub about_candidate : Option String → AuditRow → Bool
about_candidate none a = true
about_candidate (some candidate) a = is_text candidate a.candidate_id

-- `audit_trail`; the rows stand in the order of their ids
unfoldable pub audit_trail :
    Option String → Option String → Bool → Option String → ℕ → Store → Result (List AuditRow)
unfolding trail_condition
audit_trail batch run include candidate limit s =
    elim (trail_condition (given_text batch) (given_text run) include s) [
      | err e ↦ err e
      | ok condition ↦ ok (
          take limit
            (filter (λ a. condition a && about_candidate (given_text candidate) a) s.audit))
    ]

-- a row of `list_batches`
pub record BatchSummary : Type 0 where
  pub batch : BatchRow
  pub total : ℕ
  pub ready : ℕ
  pub runs : ℕ

unfoldable pub summary_of_batch : Store → BatchRow → BatchSummary
unfolding batch_count
summary_of_batch s b = record {
  batch = b;
  total = count_if (in_batch b.id) s.candidates;
  ready = batch_count b.id CandidateStatus.ready s;
  runs = count_if (λ r. str_eq (RunRow.batch_id r) b.id) s.runs;
}

-- `list_batches`, the newest first
unfoldable pub list_batches : ℕ → Store → List BatchSummary
unfolding summary_of_batch order_by
list_batches limit s = map (summary_of_batch s) (
    take limit (order_by (λ a b. str_lt (BatchRow.created_at b) (BatchRow.created_at a)) s.batches))
