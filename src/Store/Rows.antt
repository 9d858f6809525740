-- ===== src/Store/Rows.antt =====
-- rescan/store.py: the rows of the five tables, a table as the list of its rows in the order of
-- insertion. A JSON column holds the text that `json.dumps` gave.
use rescan.Prelude.{ℕ, String, Option, List}
use rescan.Schemas.{BatchStatus, CandidateStatus, RunStatus, CandidateOutcome}

pub record BatchRow : Type 0 where
  pub id : String
  pub name : Option String
  pub status : BatchStatus
  pub source_json : Option String
  pub error : Option String
  pub created_at : String
  pub updated_at : String

pub record CandidateRow : Type 0 where
  pub id : String
  pub batch_id : String
  pub filename : String
  pub content_hash : String
  pub status : CandidateStatus
  pub candidate_ref : Option String
  pub duplicate_of : Option String
  pub extraction_json : Option String
  pub structured_json : Option String
  pub anonymized_json : Option String
  pub error : Option String
  pub created_at : String
  pub updated_at : String

pub record RunRow : Type 0 where
  pub id : String
  pub batch_id : String
  pub name : Option String
  pub status : RunStatus
  pub role_json : String
  pub rules_json : Option String
  pub shortlist_json : Option String
  pub error : Option String
  pub created_at : String
  pub updated_at : String

pub record ResultRow : Type 0 where
  pub run_id : String
  pub candidate_id : String
  pub candidate_ref : String
  pub outcome : CandidateOutcome
  pub screening_json : Option String
  pub score_json : Option String
  pub updated_at : String

pub record AuditRow : Type 0 where
  pub id : ℕ
  pub batch_id : String
  pub run_id : Option String
  pub candidate_id : Option String
  pub at : String
  pub stage : String
  pub event : String
  pub detail_json : String

pub record Store : Type 0 where
  pub batches : List BatchRow
  pub candidates : List CandidateRow
  pub runs : List RunRow
  pub results : List ResultRow
  pub audit : List AuditRow

-- The columns that `_update` may set: `none` leaves the column as it is.
pub record BatchUpdate : Type 0 where
  pub status : Option BatchStatus
  pub name : Option (Option String)
  pub error : Option (Option String)

pub record CandidateUpdate : Type 0 where
  pub status : Option CandidateStatus
  pub candidate_ref : Option (Option String)
  pub extraction_json : Option (Option String)
  pub structured_json : Option (Option String)
  pub anonymized_json : Option (Option String)
  pub error : Option (Option String)

pub record RunUpdate : Type 0 where
  pub status : Option RunStatus
  pub name : Option (Option String)
  pub rules_json : Option (Option String)
  pub shortlist_json : Option (Option String)
  pub error : Option (Option String)

-- an entry of `audit_many`
pub record AuditEntry : Type 0 where
  pub batch_id : String
  pub run_id : Option String
  pub candidate_id : Option String
  pub stage : String
  pub event : String
  pub detail : String
