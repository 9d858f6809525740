-- ===== src/Runner/Screening.antt =====
-- rescan/pipeline/runner.py: the screening of a run, which gives each ready candidate an outcome.
-- The worker threads screen the candidates one after the other.
use rescan.Prelude.{
  ℕ, String, Bool, true, false, Option, none, some, List, [], ◌∷◌, map, if◌then◌else◌,
}
use rescan.Prelude.Float.{FloatOps}
use rescan.Prelude.Text.{is_empty}
use rescan.Prelude.Result.{Result, Exec, pure, lift, ◌>>=◌, ◌>>◌}
use rescan.Schemas.{
  AnonymizedProfile, RoleSpec, CandidateScore, CriterionScore, EnsembleVote, Shortlist,
  CandidateStatus, CandidateOutcome,
}
use rescan.Dsl.Verdict.{JudgeResult, Observed}
use rescan.Dsl.Judge.Votes.{JudgeAnswer}
use rescan.Dsl.Judge.Ask.{JudgeState, JudgeSetup, ask}
use rescan.Rules.Models.{RuleOutcome, RuleSet}
use rescan.Rules.Engine.{ScreeningResult, screen, eligible, needs_manual_review}
use rescan.Pipeline.Rank.Criteria.{Criterion}
use rescan.Pipeline.Rank.Score.{RankClient, put, get}
use rescan.Pipeline.Ensemble.{Member, ensemble_members}
use rescan.Store.Rows.{Store, CandidateRow, ResultRow, AuditEntry}
use rescan.Store.Operations.{put_result, clear_results}
use rescan.Store.Reads.{same_status, list_candidates}
use rescan.Runner.Env.{Json, Fields, field, end, State, in_world, in_store, audit_all, read}
use rescan.Runner.Rules.{RuleEnv}

-- what a run needs beside its rules: the model, the settings, and the serialisers
pub record RunEnv (W F Data File : Type 0) : Type 0 where
  pub rules : RuleEnv W F Data File
  -- client.json_call for a question, a profile's text, a model and a seed
  pub judge_client : String → String → Option String → Option ℕ → Exec W JudgeAnswer
  -- client.json_call for the scores, by the model and the seed
  pub rank_client : Member → RankClient W F
  pub profile_text : AnonymizedProfile F → String
  pub digest : String → String
  pub use_ensemble : Bool
  pub ensemble_models : List String
  pub shortlist_size : ℕ
  pub borderline_margin : F
  -- a column of JSON, `none` where it loads to nothing, and the validation of the profile
  pub load_profile : Option String → Option (Result (AnonymizedProfile F))
  pub dump_role : RoleSpec F → String
  pub dump_screening : ScreeningResult F → String
  pub dump_score : CandidateScore F → String
  pub dump_shortlist : Shortlist F → String
  -- the values of an audit entry that `Json` has no case for
  pub json_of_number : F → Json
  pub json_of_observed : Observed F → Json
  pub json_of_criteria : List (Criterion F) → Json
  pub json_of_scores : List (CriterionScore F) → Json
  pub json_of_votes : List (EnsembleVote F) → Json
  -- the dictionary of a check
  pub check_fields : JudgeResult → Fields

unfoldable pub outcome_of : {F : Type 0} → ScreeningResult F → CandidateOutcome
outcome_of r =
    if eligible r
    then if needs_manual_review r
      then CandidateOutcome.needs_manual_review
      else CandidateOutcome.eligible
    else CandidateOutcome.excluded

abbrev pub passed_event : Option Bool → String
passed_event (some true) = "rule_passed"
passed_event (some false) = "rule_failed"
passed_event none = "rule_indeterminate"

-- the candidates by their references: of two with one reference the later
unfoldable pub refs_of : List CandidateRow → List (String × String) → List (String × String)
refs_of [] d = d
refs_of (c ∷ cs) d = refs_of cs (add c.candidate_ref d)
  where
    add : Option String → List (String × String) → List (String × String)
    add none d = d
    add (some ref) d = if is_empty ref then d else put ref c.id d

-- `_refs_to_ids`
unfoldable pub refs_to_ids : String → Store → List (String × String)
unfolding list_candidates refs_of
refs_to_ids batch s = refs_of (list_candidates batch s) []

abbrev pub candidate_or : Option String → Option String → Option String
candidate_or none other = other
candidate_or (some id) other = some id

-- `screening`: the results by their references
unfoldable pub results_by_ref :
    {F : Type 0}
    → List (ScreeningResult F)
    → List (String × ScreeningResult F)
    → List (String × ScreeningResult F)
results_by_ref [] d = d
results_by_ref (r ∷ rs) d = results_by_ref rs (put r.candidate_ref r d)

module _ {W F Data File : Type 0} ⦃fl : FloatOps F⦄ (e : RunEnv W F Data File)
    (batch run : String) where
  -- `store.audit` of an event of the run about a candidate
  abbrev pub run_entry : Option String → String → String → Fields → AuditEntry
  run_entry candidate stage event detail = record {
    batch_id = batch;
    run_id = some run;
    candidate_id = candidate;
    stage = stage;
    event = event;
    detail = e.rules.env.dumps (Json.object detail);
  }

  -- `record` of `_judge_for`
  abbrev pub record_check :
      Option String
      → List (String × String)
      → JudgeResult
      → AnonymizedProfile F
      → Exec (State W) (Unit {0})
  record_check candidate refs result p = audit_all e.rules.env (
      run_entry (candidate_or candidate (get p.candidate_ref refs)) "screening" "model_check"
        (field "candidate_ref" (Json.text p.candidate_ref) (e.check_fields result))
      ∷ [])

  -- `_judge_for`, with the dictionary that it makes where there is no candidate
  unfoldable pub judge_for : Option String → List (String × String) → Bool → JudgeSetup (State W) F
  unfolding ensemble_members
  judge_for candidate refs ensemble = record {
    client = λ question text model seed. in_world (e.judge_client question text model seed);
    members = if ensemble then ensemble_members e.ensemble_models else (none, none) ∷ [];
    ensemble = ensemble;
    profile_text = e.profile_text;
    digest = e.digest;
    on_check = record_check candidate refs;
  }

  -- what uses a new judge, whose memo is empty
  abbrev pub with_judge : {A : Type 0} → Exec (JudgeState (State W)) A → Exec (State W) A
  with_judge m s = let (r, t) = m (record { world = s; memo = [] }) in (r, t.world)

  abbrev pub outcome_entry : String → RuleOutcome F → AuditEntry
  outcome_entry candidate o = run_entry (some candidate) "screening" (passed_event o.passed) (
      field "rule_id" (Json.text o.rule_id) (
        field "rule" (Json.text o.source_text) (
          field "dsl" (Json.text o.dsl) (
            field "fields" (Json.texts o.fields) (
              field "observed" (e.json_of_observed o.observed)
                (field "reason" (Json.text o.reason) end))))))

  abbrev pub result_row : String → AnonymizedProfile F → ScreeningResult F → String → ResultRow
  result_row candidate p result now = record {
    run_id = run;
    candidate_id = candidate;
    candidate_ref = p.candidate_ref;
    outcome = outcome_of result;
    screening_json = some (e.dump_screening result);
    score_json = none;
    updated_at = now;
  }

  -- the outcome and its audit, when the profile has been screened
  unfoldable pub keep_result :
      String → AnonymizedProfile F → ScreeningResult F → Exec (State W) (ScreeningResult F)
  unfolding outcome_of
  keep_result candidate p result =
      in_store e.rules.env (λ now. put_result (result_row candidate p result now))
      >> audit_all e.rules.env (map (outcome_entry candidate) result.outcomes)
      >> pure result

  unfoldable pub screen_profile :
      String → AnonymizedProfile F → RuleSet F → Exec (State W) (ScreeningResult F)
  unfolding judge_for screen keep_result
  screen_profile candidate p rules =
      with_judge (screen p rules (some (ask (judge_for (some candidate) [] e.use_ensemble))))
      >>= keep_result candidate p

  abbrev pub add_ready :
      Bool
      → String
      → Option (Result (AnonymizedProfile F))
      → List (String × Result (AnonymizedProfile F))
      → List (String × Result (AnonymizedProfile F))
  add_ready true id (some profile) more = (id, profile) ∷ more
  add_ready _ id _ more = more

  -- `ready`, with the profile that is read from each row
  unfoldable pub ready_in : List CandidateRow → List (String × Result (AnonymizedProfile F))
  unfolding same_status
  ready_in [] = []
  ready_in (c ∷ cs) =
      add_ready (same_status c.status CandidateStatus.ready) c.id (e.load_profile c.anonymized_json)
        (ready_in cs)

  unfoldable pub screen_all :
      RuleSet F
      → List (String × Result (AnonymizedProfile F))
      → Exec (State W) (List (AnonymizedProfile F × ScreeningResult F))
  unfolding screen_profile
  screen_all rules [] = pure []
  screen_all rules ((id, loaded) ∷ more) = lift loaded >>= λ p.
      screen_profile id p rules >>= λ result.
      screen_all rules more >>= λ rest. pure ((p, result) ∷ rest)

  -- `_screen_run`
  unfoldable pub screen_run :
      RuleSet F → Exec (State W) (List (AnonymizedProfile F) × List (String × ScreeningResult F))
  unfolding list_candidates ready_in screen_all results_by_ref clear_results
  screen_run rules = read (list_candidates batch) >>= λ cs.
      in_store e.rules.env (λ now. clear_results run)
      >> screen_all rules (ready_in cs)
      >>= λ results. pure (map (λ r. r.0) results, results_by_ref (map (λ r. r.1) results) [])
