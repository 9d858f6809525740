-- ===== src/Store/Operations.antt =====
-- rescan/store.py: the methods that change the tables and those that count and list. `now` is the
-- text of `_now()`. A broken key or reference raises sqlite3's IntegrityError and changes nothing.
use Prim.Native.String.{◌++◌ as ◌^◌}
use rescan.Prelude.{
  ℕ, suc, String, Bool, not, ◌&&◌, ◌||◌, Option, none, some, List, [], ◌∷◌, ◌++◌, map, filter,
  if◌then◌else◌, any, or_default, is_some, length,
}
use rescan.Prelude.Text.{str_eq}
use rescan.Prelude.Result.{Result, ok, err, Exec, raised, PyError}
use rescan.Schemas.{BatchStatus, CandidateStatus, RunStatus}
use rescan.Store.Rows.{
  BatchRow, CandidateRow, RunRow, ResultRow, AuditRow, Store, BatchUpdate, CandidateUpdate,
  RunUpdate, AuditEntry,
}

abbrev pub integrity_error : PyError
integrity_error = raised "IntegrityError"

-- the first row that passes
abbrev pub find : {A : Type 0} → (A → Bool) → List A → Option A
find p [] = none
find p (x ∷ xs) = let rest = find p xs in if p x then some x else rest

abbrev pub has_batch : String → Store → Bool
has_batch id s = any (λ b. str_eq (BatchRow.id b) id) s.batches

abbrev pub has_candidate : String → Store → Bool
has_candidate id s = any (λ c. str_eq (CandidateRow.id c) id) s.candidates

abbrev pub has_run : String → Store → Bool
has_run id s = any (λ r. str_eq (RunRow.id r) id) s.runs

abbrev pub is_in : String → String → CandidateRow → Bool
is_in batch hash c = str_eq c.batch_id batch && str_eq c.content_hash hash

unfoldable pub create_batch :
    String → Option String → Option String → String → Exec Store (Unit {0})
create_batch id name source now s = if has_batch id s then (err integrity_error, s) else (
  ok tt,
  record s {
    batches =
        s.batches
        ++ record {
          id = id;
          name = name;
          status = BatchStatus.queued;
          source_json = source;
          error = none;
          created_at = now;
          updated_at = now;
        }
          ∷ [];
  },
)

-- `_update`: the row with the id, if some column is to be set
abbrev pub update_rows : {A : Type 0} → Bool → (A → Bool) → (A → A) → List A → List A
update_rows any_set is_row set rows =
    if any_set then map (λ r. if is_row r then set r else r) rows else rows

abbrev pub set_batch : BatchUpdate → String → BatchRow → BatchRow
set_batch u now b = record b {
  status = or_default u.status b.status;
  name = or_default u.name b.name;
  error = or_default u.error b.error;
  updated_at = now;
}

unfoldable pub update_batch : String → BatchUpdate → String → Exec Store (Unit {0})
update_batch id u now s = (
  ok tt,
  record s {
    batches =
        update_rows (is_some u.status || is_some u.name || is_some u.error)
          (λ b. str_eq (BatchRow.id b) id) (set_batch u now) s.batches;
  },
)

abbrev pub new_candidate :
    String → String → String → String → CandidateStatus → Option String → String → CandidateRow
new_candidate id batch filename hash status duplicate now = record {
  id = id;
  batch_id = batch;
  filename = filename;
  content_hash = hash;
  status = status;
  candidate_ref = none;
  duplicate_of = duplicate;
  extraction_json = none;
  structured_json = none;
  anonymized_json = none;
  error = none;
  created_at = now;
  updated_at = now;
}

-- INSERT INTO candidates, with its keys and its reference to the batch
unfoldable pub insert_candidate : CandidateRow → Exec Store (Unit {0})
insert_candidate row s =
    if (has_candidate row.id s || any (is_in row.batch_id row.content_hash) s.candidates)
      || not (has_batch row.batch_id s)
    then (err integrity_error, s)
    else (ok tt, record s { candidates = s.candidates ++ row ∷ [] })

abbrev pub no_existing : Result (Unit {0}) → Result (Option String)
no_existing (ok x) = ok none
no_existing (err e) = err e

-- the insert of `add_candidate`, when there is no row with the hash
unfoldable pub insert_new : CandidateRow → Exec Store (Option String)
unfolding insert_candidate
insert_new row s = let (r, s') = insert_candidate row s in (no_existing r, s')

unfoldable pub add_candidate :
    String → String → String → String → String → Exec Store (Option String)
unfolding insert_new
add_candidate id batch filename hash now s = elim (find (is_in batch hash) s.candidates) [
  | some row ↦ (ok (some row.id), s)
  | none ↦ insert_new (new_candidate id batch filename hash CandidateStatus.pending none now) s
]

unfoldable pub add_duplicate :
    String → String → String → String → String → String → Exec Store (Unit {0})
unfolding insert_candidate
add_duplicate id batch filename hash duplicate_of now s =
    insert_candidate
      (new_candidate id batch filename (hash ^ (":dup:" ^ id)) CandidateStatus.duplicate
        (some duplicate_of) now)
      s

abbrev pub set_candidate : CandidateUpdate → String → CandidateRow → CandidateRow
set_candidate u now c = record c {
  status = or_default u.status c.status;
  candidate_ref = or_default u.candidate_ref c.candidate_ref;
  extraction_json = or_default u.extraction_json c.extraction_json;
  structured_json = or_default u.structured_json c.structured_json;
  anonymized_json = or_default u.anonymized_json c.anonymized_json;
  error = or_default u.error c.error;
  updated_at = now;
}

unfoldable pub update_candidate : String → CandidateUpdate → String → Exec Store (Unit {0})
update_candidate id u now s = (
  ok tt,
  record s {
    candidates =
        update_rows
          (is_some u.status
            || is_some u.candidate_ref
            || is_some u.extraction_json
            || is_some u.structured_json
            || is_some u.anonymized_json
            || is_some u.error)
          (λ c. str_eq (CandidateRow.id c) id) (set_candidate u now) s.candidates;
  },
)

unfoldable pub create_run :
    String → String → String → Option String → String → Exec Store (Unit {0})
create_run id batch role name now s =
    if has_run id s || not (has_batch batch s) then (err integrity_error, s) else (
      ok tt,
      record s {
        runs =
            s.runs
            ++ record {
              id = id;
              batch_id = batch;
              name = name;
              status = RunStatus.queued;
              role_json = role;
              rules_json = none;
              shortlist_json = none;
              error = none;
              created_at = now;
              updated_at = now;
            }
              ∷ [];
      },
    )

abbrev pub set_run : RunUpdate → String → RunRow → RunRow
set_run u now r = record r {
  status = or_default u.status r.status;
  name = or_default u.name r.name;
  rules_json = or_default u.rules_json r.rules_json;
  shortlist_json = or_default u.shortlist_json r.shortlist_json;
  error = or_default u.error r.error;
  updated_at = now;
}

unfoldable pub update_run : String → RunUpdate → String → Exec Store (Unit {0})
update_run id u now s = (
  ok tt,
  record s {
    runs =
        update_rows
          (is_some u.status
            || is_some u.name
            || is_some u.rules_json
            || is_some u.shortlist_json
            || is_some u.error)
          (λ r. str_eq (RunRow.id r) id) (set_run u now) s.runs;
  },
)

abbrev pub is_result : String → String → ResultRow → Bool
is_result run candidate r = str_eq r.run_id run && str_eq r.candidate_id candidate

-- COALESCE(new, old)
abbrev pub coalesce : Option String → Option String → Option String
coalesce none old = old
coalesce (some x) old = some x

-- ON CONFLICT … DO UPDATE SET
abbrev pub merge_result : ResultRow → ResultRow → ResultRow
merge_result new old = record {
  run_id = old.run_id;
  candidate_id = old.candidate_id;
  candidate_ref = new.candidate_ref;
  outcome = new.outcome;
  screening_json = coalesce new.screening_json old.screening_json;
  score_json = coalesce new.score_json old.score_json;
  updated_at = new.updated_at;
}

unfoldable pub upsert : ResultRow → List ResultRow → List ResultRow
upsert new rows =
    if any (is_result new.run_id new.candidate_id) rows
    then map (λ r. if is_result new.run_id new.candidate_id r then merge_result new r else r) rows
    else rows ++ new ∷ []

unfoldable pub put_result : ResultRow → Exec Store (Unit {0})
unfolding upsert
put_result new s =
    if has_run new.run_id s && has_candidate new.candidate_id s
    then (ok tt, record s { results = upsert new s.results })
    else (err integrity_error, s)

abbrev pub set_score : String → String → ResultRow → ResultRow
set_score score now r = record r { score_json = some score; updated_at = now }

unfoldable pub set_result_score : String → String → String → String → Exec Store (Unit {0})
set_result_score run candidate score now s = (
  ok tt,
  record s {
    results = map (λ r. if is_result run candidate r then set_score score now r else r) s.results;
  },
)

unfoldable pub clear_results : String → Exec Store (Unit {0})
clear_results run s =
    (ok tt, record s { results = filter (λ r. not (str_eq (ResultRow.run_id r) run)) s.results })

-- the row of an entry; AUTOINCREMENT numbers the rows, which are never deleted
abbrev pub audit_row : ℕ → String → AuditEntry → AuditRow
audit_row id now e = record {
  id = id;
  batch_id = e.batch_id;
  run_id = e.run_id;
  candidate_id = e.candidate_id;
  at = now;
  stage = e.stage;
  event = e.event;
  detail_json = e.detail;
}

abbrev pub audit_rows : ℕ → String → List AuditEntry → List AuditRow
audit_rows id now [] = []
audit_rows id now (e ∷ es) = audit_row id now e ∷ audit_rows (suc id) now es

unfoldable pub audit_many : List AuditEntry → String → Exec Store (Unit {0})
audit_many es now s =
    (ok tt, record s { audit = s.audit ++ audit_rows (suc (length s.audit)) now es })

unfoldable pub audit : AuditEntry → String → Exec Store (Unit {0})
unfolding audit_many
audit e now s = audit_many (e ∷ []) now s
