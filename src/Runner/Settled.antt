-- ===== src/Runner/Settled.antt =====
-- rescan/pipeline/runner.py: how the ingestion of one document ends.
use rescan.Prelude.{
  ◌≡◌, refl, ◌∙◌, ℕ, String, Bool, true, false, Option, none, some, List, [], ◌∷◌, map,
  if◌then◌else◌, ltb, if_elim,
}
use rescan.Prelude.Result.{Attempt, declined, done, Result, ok, err, Exec, pure, ◌>>=◌, ◌>>◌}
use rescan.Schemas.{CandidateStatus, ExtractionResult, StructuredResume, AnonymizedProfile}
use rescan.Store.Rows.{CandidateRow, CandidateUpdate, AuditEntry}
use rescan.Runner.Env.{
  Env, State, Json, Fields, field, end, audit_event, no_update, in_world, set_candidate_row,
  audit_all,
}
use rescan.Runner.Ingest.{
  fail, dead_letter, with_error, to_status, retry_entry, redaction_entry, structured_entry,
  extracted_entry, find_file, try_extract, keep_profile, anonymize_resume, structure_text,
  ingest_file, ingest_one, with_characters,
}
use rescan.Runner.Acts.{
  Acts, rows, change_none, sets, Acts-bind, Acts-pure, Acts-in_world, Acts-audit_all,
  Acts-set_candidate_row,
}

abbrev pub is_ended : CandidateStatus → Bool
is_ended CandidateStatus.failed = true
is_ended CandidateStatus.needs_manual_review = true
is_ended _ = false

-- a change that leaves the anonymized profile as it is
abbrev pub Kept : (CandidateRow → CandidateRow) → Type 0
Kept g = (c : CandidateRow) → CandidateRow.anonymized_json (g c) ≡ c.anonymized_json

abbrev pub Ended : (CandidateRow → CandidateRow) → Type 0
Ended g = (c : CandidateRow) → is_ended (CandidateRow.status (g c)) ≡ true

module _ {W F Data File : Type 0} (env : Env W F Data File) where
  -- how an ingestion ends: with no profile, a failed candidate or one for manual review; with a
  -- profile, a candidate that is ready and has that profile; with an exception, no profile
  abbrev pub Settled :
      Result (Option (AnonymizedProfile F)) → (CandidateRow → CandidateRow) → Type 0
  Settled (ok none) g = Kept g × Ended g
  Settled (ok (some p)) g =
      (c : CandidateRow)
      → (CandidateRow.status (g c) ≡ CandidateStatus.ready)
        × (CandidateRow.anonymized_json (g c) ≡ some (env.dump_profile p))
  Settled (err e) g = Kept g

  Settled-after :
      (r : Result (Option (AnonymizedProfile F))) (g h : CandidateRow → CandidateRow)
      → Kept g
      → Settled r h
      → Settled r (λ c. h (g c))
  Settled-after (ok none) g h k (kept, ended) = (λ c. kept (g c) ∙ k c, λ c. ended (g c))
  Settled-after (ok (some p)) g h k s = λ c. s (g c)
  Settled-after (err e) g h k s = λ c. s (g c) ∙ k c

  -- a step that keeps the profile, whatever its result
  abbrev KeptBy : {A : Type 0} → Result A → (CandidateRow → CandidateRow) → Type 0
  KeptBy r g = Kept g

  abbrev EndedBy : Result (Unit {0}) → (CandidateRow → CandidateRow) → Type 0
  EndedBy (ok x) g = Kept g × Ended g
  EndedBy (err e) g = Kept g

  abbrev ReadyBy : AnonymizedProfile F → Result (Unit {0}) → (CandidateRow → CandidateRow) → Type 0
  ReadyBy p (ok x) g = Settled (ok (some p)) g
  ReadyBy p (err e) g = Kept g

  module _ (batch id : String) where
    Acts-weaken :
        {A : Type 0} (P Q : Result A → (CandidateRow → CandidateRow) → Type 0)
        (m : Exec (State W) A) (s : State W)
        → ((r : Result A) (g : CandidateRow → CandidateRow) → P r g → Q r g)
        → Acts id P m s
        → Acts id Q m s
    Acts-weaken P Q m s k (g, keeps, moved, p) = (g, keeps, moved, k (m s).0 g p)

    abbrev KeepsProfile : {A : Type 0} → State W → Exec (State W) A → Type 0
    KeepsProfile t m = Acts id KeptBy m t

    kept_then :
        {A B : Type 0} (m : Exec (State W) A) (f : A → Exec (State W) B) (s : State W)
        → Acts id KeptBy m s
        → ((a : A) (t : State W) → Acts id KeptBy (f a) t)
        → Acts id KeptBy (m >>= f) s
    kept_then m f s h k =
        Acts-bind id KeptBy KeptBy m f s h
          (λ a g t kept.
            Acts-weaken KeptBy (λ r h. Kept (λ c. h (g c))) (f a) t
              (λ r h kept' c. kept' (g c) ∙ kept c) (k a t))
          (λ e g kept. kept)

    kept-Settled :
        {A : Type 0} (m : Exec (State W) A) (f : A → Exec (State W) (Option (AnonymizedProfile F)))
        (s : State W)
        → Acts id KeptBy m s
        → ((a : A) (t : State W) → Acts id Settled (f a) t)
        → Acts id Settled (m >>= f) s
    kept-Settled m f s h k =
        Acts-bind id KeptBy Settled m f s h
          (λ a g t kept.
            Acts-weaken Settled (λ r h. Settled r (λ c. h (g c))) (f a) t
              (λ r h settled. Settled-after r g h kept settled) (k a t))
          (λ e g kept. kept)

    ended_none :
        (m : Exec (State W) (Unit {0})) (s : State W)
        → Acts id EndedBy m s
        → Acts id Settled (m >> pure none) s
    ended_none m s h =
        Acts-bind id EndedBy Settled m (λ _. pure none) s h
          (λ a g t ended. Acts-pure id (λ r h. Settled r (λ c. h (g c))) none t ended)
          (λ e g kept. kept)

    end_then_audit :
        (status : CandidateStatus) (reason : String) (es : List AuditEntry) (s : State W)
        → is_ended status ≡ true
        → Acts id EndedBy
            (set_candidate_row env id (with_error status reason) >> audit_all env es)
            s
    end_then_audit status reason es s ended =
        Acts-bind id EndedBy EndedBy (set_candidate_row env id (with_error status reason))
          (λ _. audit_all env es) s
          (Acts-set_candidate_row env id EndedBy (with_error status reason) s refl
            (λ now. (λ c. refl, λ c. ended)))
          (λ a g t ended. Acts-audit_all env id (λ r h. EndedBy r (λ c. h (g c))) es t ended)
          (λ e g kept. kept)

    fail-Settled :
        (stage reason : String) (s : State W)
        → Acts id Settled (fail env batch id stage reason >> pure none) s
    unfolding fail
    fail-Settled stage reason s = ended_none (fail env batch id stage reason) s (
        end_then_audit CandidateStatus.failed reason
          (audit_event env batch stage "failed" (some id) (field "reason" (Json.text reason) end)
            ∷ [])
          s refl)

    dead_letter-Settled :
        (stage reason : String) (detail : Fields) (s : State W)
        → Acts id Settled (dead_letter env batch id stage reason detail >> pure none) s
    unfolding dead_letter
    dead_letter-Settled stage reason detail s =
        ended_none (dead_letter env batch id stage reason detail) s (
          end_then_audit CandidateStatus.needs_manual_review reason
            (audit_event env batch stage "dead_lettered" (some id)
                (field "reason" (Json.text reason) detail)
              ∷ [])
            s refl)

    set_kept :
        (u : CandidateUpdate) (s : State W)
        → sets u ≡ true
        → u.anonymized_json ≡ none
        → Acts id KeptBy (set_candidate_row env id u) s
    set_kept u s some_column same =
        Acts-set_candidate_row env id KeptBy u s some_column (λ now c. rw same refl)

    audit_kept : (es : List AuditEntry) (s : State W) → Acts id KeptBy (audit_all env es) s
    audit_kept es s = Acts-audit_all env id KeptBy es s (λ c. refl)

    world_kept : {A : Type 0} (m : Exec W A) (s : State W) → Acts id KeptBy (in_world m) s
    world_kept m s = Acts-in_world id KeptBy m s (λ r c. refl)

    -- an update, an entry of the audit and the next status
    step_kept :
        (u v : CandidateUpdate) (es : List AuditEntry) (s : State W)
        → (sets u ≡ true) × (u.anonymized_json ≡ none)
        → (sets v ≡ true) × (v.anonymized_json ≡ none)
        → Acts id KeptBy
            (set_candidate_row env id u >> audit_all env es >> set_candidate_row env id v)
            s
    step_kept u v es s (su, nu) (sv, nv) =
        kept_then (set_candidate_row env id u >> audit_all env es) (λ _. set_candidate_row env id v)
          s
          (kept_then (set_candidate_row env id u) (λ _. audit_all env es) s (set_kept u s su nu)
            (λ _ t. audit_kept es t))
          (λ _ t. set_kept v t sv nv)

    try_extract-KeptBy :
        (attempts : List ℕ) (last : Option ExtractionResult) (file : File) (s : State W)
        → Acts id KeptBy (try_extract env batch id attempts last file) s
    unfolding try_extract
    try_extract-KeptBy [] last file s = Acts-pure id KeptBy last s (λ c. refl)
    try_extract-KeptBy (n ∷ ns) last file s =
        kept_then (in_world (env.extract file))
          (λ e.
            if ltb 0 e.char_count
            then pure (some e)
            else audit_all env (retry_entry env batch id n e ∷ [])
              >> try_extract env batch id ns (some e) file)
          s (world_kept (env.extract file) s)
          (λ e t.
            if_elim (KeepsProfile t) (ltb 0 e.char_count)
              (λ _. Acts-pure id KeptBy (some e) t (λ c. refl))
              (λ _.
                kept_then (audit_all env (retry_entry env batch id n e ∷ []))
                  (λ _. try_extract env batch id ns (some e) file) t (audit_kept _ t)
                  (λ _ u. try_extract-KeptBy ns (some e) file u)))

    keep_profile-Settled :
        (r : Attempt (AnonymizedProfile F)) (s : State W)
        → Acts id Settled (keep_profile env batch id r) s
    unfolding keep_profile
    keep_profile-Settled (declined reason) s = fail-Settled "anonymization" reason s
    keep_profile-Settled (done p) s =
        let ready : CandidateUpdate = record no_update {
          anonymized_json = some (some (env.dump_profile p));
          status = some CandidateStatus.ready;
        } in
        let entries = map (redaction_entry env batch id) p.redactions in
        Acts-bind id (ReadyBy p) Settled (set_candidate_row env id ready >> audit_all env entries)
          (λ _. pure (some p)) s
          (Acts-bind id (ReadyBy p) (ReadyBy p) (set_candidate_row env id ready)
            (λ _. audit_all env entries) s
            (Acts-set_candidate_row env id (ReadyBy p) ready s refl (λ now c. (refl, refl)))
            (λ a g t made. Acts-audit_all env id (λ r h. ReadyBy p r (λ c. h (g c))) entries t made)
            (λ e g kept. kept))
          (λ a g t made. Acts-pure id (λ r h. Settled r (λ c. h (g c))) (some p) t made)
          (λ e g kept. kept)

    anonymize_resume-Settled :
        (ref : String) (r : Attempt (StructuredResume F)) (s : State W)
        → Acts id Settled (anonymize_resume env batch id ref r) s
    unfolding anonymize_resume
    anonymize_resume-Settled ref (declined reason) s =
        dead_letter-Settled "structuring" reason end s
    anonymize_resume-Settled ref (done r) s =
        let structured : CandidateUpdate = record no_update {
          structured_json = some (some (env.dump_resume r));
        } in
        let entries = structured_entry env batch id r ∷ [] in
        kept-Settled
          (set_candidate_row env id structured
            >> audit_all env entries
            >> set_candidate_row env id (to_status CandidateStatus.anonymizing)
            >> in_world (env.anonymize r ref))
          (keep_profile env batch id) s
          (kept_then
            (set_candidate_row env id structured
              >> audit_all env entries
              >> set_candidate_row env id (to_status CandidateStatus.anonymizing))
            (λ _. in_world (env.anonymize r ref)) s
            (step_kept structured (to_status CandidateStatus.anonymizing) entries s (refl, refl)
              (refl, refl))
            (λ _ t. world_kept (env.anonymize r ref) t))
          keep_profile-Settled

    structure_text-Settled :
        (ref : String) (last found : Option ExtractionResult) (s : State W)
        → Acts id Settled (structure_text env batch id ref last found) s
    unfolding structure_text
    structure_text-Settled ref last none s = dead_letter-Settled _ _ _ s
    structure_text-Settled ref last (some e) s =
        let extracted : CandidateUpdate = record no_update {
          extraction_json = some (some (env.dump_extraction e));
        } in
        let entries = extracted_entry env batch id e ∷ [] in
        kept-Settled
          (set_candidate_row env id extracted
            >> audit_all env entries
            >> set_candidate_row env id (to_status CandidateStatus.structuring)
            >> in_world (env.structure e))
          (anonymize_resume env batch id ref) s
          (kept_then
            (set_candidate_row env id extracted
              >> audit_all env entries
              >> set_candidate_row env id (to_status CandidateStatus.structuring))
            (λ _. in_world (env.structure e)) s
            (step_kept extracted (to_status CandidateStatus.structuring) entries s (refl, refl)
              (refl, refl))
            (λ _ t. world_kept (env.structure e) t))
          (anonymize_resume-Settled ref)

    ingest_file-Settled :
        (ref : String) (file : Option File) (s : State W)
        → Acts id Settled (ingest_file env batch id ref file) s
    unfolding ingest_file
    ingest_file-Settled ref none s = fail-Settled _ _ s
    ingest_file-Settled ref (some file) s =
        kept-Settled
          (set_candidate_row env id (to_status CandidateStatus.extracting)
            >> try_extract env batch id (1 ∷ 2 ∷ []) none file)
          (λ last. structure_text env batch id ref last (with_characters last)) s
          (kept_then (set_candidate_row env id (to_status CandidateStatus.extracting))
            (λ _. try_extract env batch id (1 ∷ 2 ∷ []) none file) s
            (set_kept (to_status CandidateStatus.extracting) s refl refl)
            (λ _ t. try_extract-KeptBy (1 ∷ 2 ∷ []) none file t))
          (λ last t. structure_text-Settled ref last (with_characters last) t)

    -- The ingestion of a document changes the rows of its candidate alone. With no profile the
    -- candidate is failed or goes to manual review, and with a profile it is ready and keeps that
    -- profile. Where no profile comes out, by an exception too, the candidate's anonymized profile
    -- stays as it was: a document whose anonymization fails never gets one.
    pub ingest_one-Settled :
        (ref : String) (s : State W) → Acts id Settled (ingest_one env batch id ref) s
    unfolding ingest_one
    ingest_one-Settled ref s =
        kept-Settled (find_file env batch id) (ingest_file env batch id ref) s
          (λ c. c, λ c. refl, change_none id (rows s), λ c. refl) (ingest_file-Settled ref)
