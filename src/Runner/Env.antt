-- ===== src/Runner/Env.antt =====
-- rescan/pipeline/runner.py: what `PipelineRunner` stands on. The clock, the ids, the uploaded
-- files, the extraction, the two model passes and the serialisers are parameters, so that what is
-- proved of the runner holds whatever they do; `W` is their state.
use rescan.Prelude.{ℕ, String, Bool, Option, none, some, List}
use rescan.Prelude.Result.{Attempt, Result, ok, err, PyError, Exec, raise, ◌>>=◌}
use rescan.Schemas.{ExtractionResult, StructuredResume, AnonymizedProfile}
use rescan.Store.Rows.{Store, AuditEntry, CandidateUpdate, BatchUpdate, RunUpdate}
use rescan.Store.Operations.{audit_many, update_candidate, update_batch, update_run}

-- the values of an audit entry's detail
mutual
  pub data Json : Type 0 where
    null : Json
    flag : Bool → Json
    nat : ℕ → Json
    text : String → Json
    texts : List String → Json
    object : Fields → Json

  pub data Fields : Type 0 where
    end : Fields
    field : String → Json → Fields → Fields

abbrev pub text_or_null : Option String → Json
text_or_null none = Json.null
text_or_null (some s) = Json.text s

pub record Env (W F Data File : Type 0) : Type 0 where
  -- `_now`, and the hexadecimal digits of a new id
  pub now : W → String × W
  pub new_id : W → String × W
  pub content_hash : Data → String
  -- Path(filename).suffix
  pub suffix : String → String
  -- batch_dir.mkdir(…)
  pub make_upload_dir : String → Exec W (Unit {0})
  pub write_upload : String → String → Data → Exec W (Unit {0})
  pub find_upload : String → String → W → Option File × W
  pub extract : File → Exec W ExtractionResult
  -- a StructuringError and an AnonymizationError are declined
  pub structure : ExtractionResult → Exec W (Attempt (StructuredResume F))
  pub anonymize : StructuredResume F → String → Exec W (Attempt (AnonymizedProfile F))
  pub dump_extraction : ExtractionResult → String
  pub dump_resume : StructuredResume F → String
  pub dump_profile : AnonymizedProfile F → String
  pub dumps : Json → String
  -- str(exc)
  pub show_error : PyError → String

pub record State (W : Type 0) : Type 0 where
  pub store : Store
  pub world : W

abbrev pub in_world : {W A : Type 0} → Exec W A → Exec (State W) A
in_world m s = let (r, w) = m s.world in (r, record s { world = w })

module _ {W F Data File : Type 0} (env : Env W F Data File) where
  -- a method of the store, at the time of the clock
  abbrev pub in_store : {A : Type 0} → (String → Exec Store A) → Exec (State W) A
  in_store f s =
      let (time, w) = env.now s.world in
      let (r, st) = f time s.store in (r, record s { store = st; world = w })

  abbrev pub set_candidate_row : String → CandidateUpdate → Exec (State W) (Unit {0})
  set_candidate_row id u = in_store λ now. update_candidate id u now

  abbrev pub set_batch_row : String → BatchUpdate → Exec (State W) (Unit {0})
  set_batch_row id u = in_store λ now. update_batch id u now

  abbrev pub set_run_row : String → RunUpdate → Exec (State W) (Unit {0})
  set_run_row id u = in_store λ now. update_run id u now

  abbrev pub audit_all : List AuditEntry → Exec (State W) (Unit {0})
  audit_all es = in_store λ now. audit_many es now

  -- `store.audit` of a candidate's event
  abbrev pub audit_event : String → String → String → Option String → Fields → AuditEntry
  audit_event batch stage event candidate detail = record {
    batch_id = batch;
    run_id = none;
    candidate_id = candidate;
    stage = stage;
    event = event;
    detail = env.dumps (Json.object detail);
  }

-- an update of no column
abbrev pub no_update : CandidateUpdate
no_update = record {
  status = none;
  candidate_ref = none;
  extraction_json = none;
  structured_json = none;
  anonymized_json = none;
  error = none;
}

-- `except Exception as exc: handler; raise`
abbrev pub handle : {S A : Type 0} → (PyError → Exec S (Unit {0})) → Result A → Exec S A
handle handler (ok a) s = (ok a, s)
handle handler (err e) s = (handler e >>= λ _. raise e) s

abbrev pub on_error : {S A : Type 0} → Exec S A → (PyError → Exec S (Unit {0})) → Exec S A
on_error m handler s = let (r, s') = m s in handle handler r s'

-- a read of the store
abbrev pub read : {W A : Type 0} → (Store → A) → Exec (State W) A
read f s = (ok (f s.store), s)

abbrev pub no_batch_update : BatchUpdate
no_batch_update = record { status = none; name = none; error = none }

abbrev pub no_run_update : RunUpdate
no_run_update = record {
  status = none;
  name = none;
  rules_json = none;
  shortlist_json = none;
  error = none;
}
