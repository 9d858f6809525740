-- ===== src/Store/Calls.antt =====
-- rescan/store.py: the calls that change the tables, as data.
use rescan.Prelude.{String, Option, List}
use rescan.Store.Rows.{ResultRow, BatchUpdate, CandidateUpdate, RunUpdate, AuditEntry}

-- the methods that change the tables, with their arguments and the time of the call
pub data Operation : Type 0 where
  create_batch : String → Option String → Option String → String → Operation
  update_batch : String → BatchUpdate → String → Operation
  add_candidate : String → String → String → String → String → Operation
  add_duplicate : String → String → String → String → String → String → Operation
  update_candidate : String → CandidateUpdate → String → Operation
  create_run : String → String → String → Option String → String → Operation
  update_run : String → RunUpdate → String → Operation
  put_result : ResultRow → Operation
  set_result_score : String → String → String → String → Operation
  clear_results : String → Operation
  audit_many : List AuditEntry → String → Operation
