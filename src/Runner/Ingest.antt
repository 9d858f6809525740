-- ===== src/Runner/Ingest.antt =====
-- rescan/pipeline/runner.py: `_ingest_one`, `_dead_letter` and `_fail`.
use rescan.Prelude.{
  ℕ, String, Option, none, some, List, [], ◌∷◌, map, if◌then◌else◌, ltb, ◌==◌, length,
}
use rescan.Prelude.Result.{Attempt, declined, done, ok, Exec, pure, ◌>>=◌, ◌>>◌}
use rescan.Schemas.{
  CandidateStatus, ExtractionResult, StructuredResume, AnonymizedProfile, Redaction,
  RedactionAction, max_level, aqf_levels,
}
use rescan.Store.Rows.{AuditEntry, CandidateUpdate}
use rescan.Runner.Env.{
  Json, Fields, field, end, Env, State, in_world, set_candidate_row, audit_all, audit_event,
  no_update,
}

abbrev pub action_text : RedactionAction → String
action_text RedactionAction.removed = "removed"
action_text RedactionAction.generalised = "generalised"
action_text RedactionAction.regionalised = "regionalised"
action_text RedactionAction.kept = "kept"

abbrev pub to_status : CandidateStatus → CandidateUpdate
to_status status = record no_update { status = some status }

abbrev pub with_error : CandidateStatus → String → CandidateUpdate
with_error status reason = record no_update { status = some status; error = some (some reason) }

abbrev nat_or_null : Option ℕ → Json
nat_or_null none = Json.null
nat_or_null (some n) = Json.nat n

abbrev warnings_of : Option ExtractionResult → List String
warnings_of none = []
warnings_of (some e) = e.warnings

-- the text that an extraction found, where it found some
abbrev pub with_characters : Option ExtractionResult → Option ExtractionResult
with_characters none = none
with_characters (some e) = if e.char_count == 0 then none else some e

module _ {W F Data File : Type 0} (env : Env W F Data File) (batch id : String) where
  unfoldable pub fail : String → String → Exec (State W) (Unit {0})
  fail stage reason =
      set_candidate_row env id (with_error CandidateStatus.failed reason)
      >> audit_all env (
          audit_event env batch stage "failed" (some id) (field "reason" (Json.text reason) end)
          ∷ [])

  -- to manual review, not a rejection
  unfoldable pub dead_letter : String → String → Fields → Exec (State W) (Unit {0})
  dead_letter stage reason detail =
      set_candidate_row env id (with_error CandidateStatus.needs_manual_review reason)
      >> audit_all env (
          audit_event env batch stage "dead_lettered" (some id)
            (field "reason" (Json.text reason) detail)
          ∷ [])

  abbrev pub retry_entry : ℕ → ExtractionResult → AuditEntry
  retry_entry attempt e =
      audit_event env batch "extraction" "extraction_retry" (some id)
        (field "attempt" (Json.nat attempt) (field "warnings" (Json.texts e.warnings) end))

  -- `for attempt in (1, 2)`, with the last extraction
  unfoldable pub try_extract :
      List ℕ → Option ExtractionResult → File → Exec (State W) (Option ExtractionResult)
  try_extract [] last file = pure last
  try_extract (attempt ∷ more) last file = in_world (env.extract file) >>= λ e.
      if ltb 0 e.char_count
      then pure (some e)
      else audit_all env (retry_entry attempt e ∷ []) >> try_extract more (some e) file

  abbrev pub extracted_entry : ExtractionResult → AuditEntry
  extracted_entry e = audit_event env batch "extraction" "extracted" (some id) (
      field "backend" (Json.text e.backend)
        (field "chars" (Json.nat e.char_count) (field "ocr" (Json.flag e.ocr_used) end)))

  abbrev pub structured_entry : StructuredResume F → AuditEntry
  structured_entry r = audit_event env batch "structuring" "structured" (some id) (
      field "skills" (Json.nat (length r.skills)) (
        field "roles" (Json.nat (length r.experience)) (
          field "highest_aqf" (nat_or_null (max_level (aqf_levels r.qualifications)))
            (field "notes" (Json.texts r.extraction_notes) end))))

  abbrev pub redaction_entry : Redaction → AuditEntry
  redaction_entry r = audit_event env batch "anonymization" "redaction" (some id) (
      field "field" (Json.text r.field) (
        field "action" (Json.text (action_text r.action))
          (field "reason" (Json.text r.reason) end)))

  -- after the anonymization
  unfoldable pub keep_profile :
      Attempt (AnonymizedProfile F) → Exec (State W) (Option (AnonymizedProfile F))
  unfolding fail
  keep_profile (declined reason) = fail "anonymization" reason >> pure none
  keep_profile (done p) =
      set_candidate_row env id (record no_update {
        anonymized_json = some (some (env.dump_profile p));
        status = some CandidateStatus.ready;
      })
      >> audit_all env (map redaction_entry p.redactions)
      >> pure (some p)

  -- after the structuring
  unfoldable pub anonymize_resume :
      String → Attempt (StructuredResume F) → Exec (State W) (Option (AnonymizedProfile F))
  unfolding dead_letter keep_profile
  anonymize_resume ref (declined reason) = dead_letter "structuring" reason end >> pure none
  anonymize_resume ref (done r) =
      set_candidate_row env id
        (record no_update { structured_json = some (some (env.dump_resume r)) })
      >> audit_all env (structured_entry r ∷ [])
      >> set_candidate_row env id (to_status CandidateStatus.anonymizing)
      >> in_world (env.anonymize r ref)
      >>= keep_profile

  -- after the extraction
  unfoldable pub structure_text :
      String
      → Option ExtractionResult
      → Option ExtractionResult
      → Exec (State W) (Option (AnonymizedProfile F))
  unfolding dead_letter anonymize_resume
  structure_text ref last none =
      dead_letter "extraction" "No text could be recovered from this document after two attempts."
        (field "warnings" (Json.texts (warnings_of last)) end)
      >> pure none
  structure_text ref last (some e) =
      set_candidate_row env id
        (record no_update { extraction_json = some (some (env.dump_extraction e)) })
      >> audit_all env (extracted_entry e ∷ [])
      >> set_candidate_row env id (to_status CandidateStatus.structuring)
      >> in_world (env.structure e)
      >>= anonymize_resume ref

  -- from the uploaded file on
  unfoldable pub ingest_file : String → Option File → Exec (State W) (Option (AnonymizedProfile F))
  unfolding fail try_extract structure_text
  ingest_file ref none = fail "ingestion" "uploaded file is missing from disk" >> pure none
  ingest_file ref (some file) =
      set_candidate_row env id (to_status CandidateStatus.extracting)
      >> try_extract (1 ∷ 2 ∷ []) none file
      >>= λ last. structure_text ref last (with_characters last)

  abbrev pub find_file : Exec (State W) (Option File)
  find_file s =
      let (file, w) = env.find_upload batch id s.world in (ok file, record s { world = w })

  unfoldable pub ingest_one : String → Exec (State W) (Option (AnonymizedProfile F))
  unfolding ingest_file
  ingest_one ref = find_file >>= ingest_file ref
