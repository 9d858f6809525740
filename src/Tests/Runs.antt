-- ===== src/Tests/Runs.antt =====
-- A run over the batch of one resume that has been uploaded twice; the judge cannot be reached.
use rescan.Prelude.{ℕ, suc, ◌≡◌, refl, String, false, Option, none, some, List, [], ◌∷◌, ◌++◌, map}
use rescan.Prelude.Result.{Result, ok, err, pure}
use rescan.Schemas.{AnonymizedProfile, RoleSpec, CandidateOutcome}
use rescan.Dsl.Judge.Votes
use rescan.Dsl.Judge.Ask.{ask}
use rescan.Dsl.Eval.Evaluate.{evaluate}
use rescan.Dsl.Ast.{ClauseKind}
use rescan.Prelude.Text.{show_nat}
use rescan.Store.Operations.{
  create_batch, add_candidate, add_duplicate, audit_many, update_batch, update_candidate,
  put_result,
}
use rescan.Runner.Batch.{process_batch, create_batch_of}
use rescan.Rules.Models.{RuleSet, RuleVerdict}
use rescan.Rules.Engine.{
  ScreeningResult, screen_rules, evaluate_rule, eligible, needs_manual_review,
}
use rescan.Pipeline.Rank.Score.{llm_error}
use rescan.Store.Trails.{audit_trail}
use rescan.Store.Rows.{AuditRow, ResultRow}
use rescan.Store.Reads.{get_run, list_candidates}
use rescan.Runner.Env.{State, Json, end}
use rescan.Runner.Screening.{RunEnv, screen_run, results_by_ref}
use rescan.Runner.Ready.{ready_candidates}
use rescan.Runner.Screened.{Written, others, Screened, screen_run-Written}
use rescan.Runner.Runs.{create_run_of, execute_run, rescreen}
use rescan.Runner.Finished.{RunFits, execute_run-RunFits, rescreen-RunFits}
use rescan.Tests.Samples.{rule_of, question, applicant, whole_numbers}
use rescan.Tests.Running.{processed, rule_services}

abbrev load : Option String → Option (Result (AnonymizedProfile ℕ))
load none = none
load (some t) = some (ok (record applicant { candidate_ref = t }))

abbrev run_services : RunEnv ℕ ℕ String String
run_services = record {
  rules = rule_services;
  judge_client = λ q t m n calls. (ok (Votes.llm_error "offline"), suc calls);
  rank_client = λ member p role cs. pure (llm_error "offline");
  profile_text = λ p. p.candidate_ref;
  digest = λ t. t;
  use_ensemble = false;
  ensemble_models = [];
  shortlist_size = 1;
  borderline_margin = 0;
  load_profile = load;
  dump_role = λ r. r.title;
  dump_screening = λ r. r.candidate_ref;
  dump_score = λ s. s.candidate_ref;
  dump_shortlist = λ s. s.role_title;
  json_of_number = Json.nat;
  json_of_observed = λ o. Json.null;
  json_of_criteria = λ cs. Json.null;
  json_of_scores = λ cs. Json.null;
  json_of_votes = λ vs. Json.null;
  check_fields = λ r. end;
}

abbrev clerk : RoleSpec ℕ
clerk = record {
  title = "clerk";
  description = none;
  required_skills = [];
  desirable_skills = [];
  min_years_experience = none;
  min_aqf = none;
}

abbrev trail_events : Result (List AuditRow) → List String
trail_events (ok rows) = map AuditRow.event rows
trail_events (err x) = []

abbrev created : Result String × State ℕ
created = create_run_of run_services "b1" clerk (some "r1") none processed.1

execute_run-RunFits_example :
    RunFits run_services "r1"
      (execute_run run_services "r1" ("is employed" ∷ []) none none created.1)
unfolding get_run create_run_of process_batch create_batch_of create_batch add_candidate
    add_duplicate show_nat audit_many update_batch update_candidate
execute_run-RunFits_example =
    execute_run-RunFits run_services "r1" ("is employed" ∷ []) none none created.1 _ _ refl refl

rescreen-RunFits_example : RunFits run_services "r1" (rescreen run_services "r1" created.1)
unfolding get_run create_run_of process_batch create_batch_of create_batch add_candidate
    add_duplicate show_nat audit_many update_batch update_candidate
rescreen-RunFits_example = rescreen-RunFits run_services "r1" created.1 _ _ _ refl refl refl

-- a question, which the judge cannot answer
abbrev rules : RuleSet ℕ
rules = record {
  rules = rule_of "q" RuleVerdict.applicable ClauseKind.require question ∷ [];
  reasoning = none;
  source_plan = none;
}

abbrev screened : Result (List (AnonymizedProfile ℕ) × List (String × ScreeningResult ℕ)) × State ℕ
screened = screen_run run_services "b1" "r1" rules created.1

abbrev given :
    Result (List (AnonymizedProfile ℕ) × List (String × ScreeningResult ℕ))
    → List (AnonymizedProfile ℕ) × List (String × ScreeningResult ℕ)
given (ok a) = a
given (err x) = ([], [])

outcomes :
    map (λ r. ResultRow.outcome r) screened.1.store.results
    ≡ CandidateOutcome.needs_manual_review ∷ []
unfolding get_run create_run_of process_batch create_batch_of create_batch add_candidate
    add_duplicate show_nat audit_many update_batch update_candidate screen_run screen_rules
    evaluate_rule evaluate ask put_result eligible needs_manual_review
outcomes = refl

abbrev ready : List (String × Result (AnonymizedProfile ℕ))
ready = ready_candidates run_services (list_candidates "b1" created.1.store)

screen_run-Written_example :
    (out : Screened run_services "b1" "r1") × (rows : List ResultRow) × ((given screened.0).0
      ≡ map (λ x. x.0) out)
    × ((given screened.0).1 ≡ results_by_ref (map (λ x. x.1) out) [])
    × (screened.1.store.results ≡ others run_services "b1" "r1" created.1.store.results ++ rows)
    × Written run_services "b1" "r1" rules ready out rows
unfolding get_run create_run_of process_batch create_batch_of create_batch add_candidate
    add_duplicate show_nat audit_many update_batch update_candidate screen_run screen_rules
    evaluate_rule evaluate ask put_result
screen_run-Written_example =
    screen_run-Written run_services "b1" "r1" rules created.1 (given screened.0).0
      (given screened.0).1 (tt, tt) refl

own_events :
    trail_events (audit_trail none (some "r1") false none 10 created.1.store) ≡ "run_created" ∷ []
unfolding audit_trail get_run create_run_of process_batch create_batch_of create_batch add_candidate
    add_duplicate show_nat audit_many update_batch update_candidate
own_events = refl
