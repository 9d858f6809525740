-- ===== src/Tests/Running.antt =====
-- A batch of two uploads of one resume, with services that answer at once; the clock counts.
use rescan.Prelude.{
  ℕ, suc, ◌+◌, ◌≡◌, refl, String, false, Option, none, some, List, [], ◌∷◌, map, length,
}
use rescan.Prelude.Text.{show_nat}
use rescan.Prelude.Result.{done, Result, ok}
use rescan.Schemas.{ExtractionResult, StructuredResume, WorkRightsStatus, CandidateStatus}
use rescan.Store.Rows.{CandidateRow}
use rescan.Store.Operations.{
  create_batch, add_candidate, add_duplicate, update_candidate, update_batch, audit_many,
}
use rescan.Store.Reads.{get_batch}
use rescan.Store.Invariant.{empty_store}
use rescan.Runner.Env.{Json, Env, State}
use rescan.Runner.Ingest.{ingest_one}
use rescan.Runner.Acts.{Acts, rows}
use rescan.Runner.Settled.{Settled, ingest_one-Settled}
use rescan.Runner.Batch.{create_batch_of, process_batch, upload_all}
use rescan.Runner.Waiting.{is_waiting}
use rescan.Runner.Processed.{AllDone, process_batch-AllDone}
use rescan.Runner.Statuses.{StatusFits, process_batch-StatusFits}
use rescan.Runner.Uploads.{upload_all-counts}
use rescan.Tests.Samples.{applicant, whole_numbers, rule_of, question}
use rescan.Tests.Classifying.{find_accent, one_rule}
use rescan.Prelude.{or_default}
use rescan.Prelude.Text.{contains}
use rescan.Dsl.Ast.{ClauseKind}
use rescan.Rules.Models.{ClassifiedRule, RuleVerdict}
use rescan.Runner.Removed.{Removed, remove_rule-Removed}
use rescan.Rules.Classifier.{scan_patterns}
use rescan.Store.Rows.{RunRow}
use rescan.Store.Operations.{create_run, update_run}
use rescan.Runner.Rules.{RuleEnv, add_rule, remove_rule}
use rescan.Runner.Added.{Admitted, add_rule-Admitted}

abbrev last_text : List (ClassifiedRule ℕ) → Option String
last_text [] = none
last_text (r ∷ []) = some r.source_text
last_text (r ∷ rs) = last_text rs

abbrev pub resume : StructuredResume ℕ
resume = record {
  identity = record {
    full_name = some "Ada Byron";
    email = none;
    phone = none;
    suburb = none;
    state = none;
    country = none;
    links = [];
  };
  summary = none;
  skills = [];
  experience = [];
  total_years_experience = none;
  qualifications = [];
  universities = [];
  work_rights = record {
    status = WorkRightsStatus.unknown;
    visa_subclass = none;
    unrestricted = none;
    evidence = none;
  };
  languages = [];
  affiliations = [];
  certifications = [];
  projects = [];
  licences = [];
  security_clearance = none;
  management_years = none;
  people_managed_max = none;
  publications_count = none;
  availability_weeks = none;
  extraction_notes = [];
}

abbrev extraction : ExtractionResult
extraction = record {
  text = "Ada";
  content_type = none;
  page_count = none;
  backend = "plaintext";
  ocr_used = false;
  char_count = 3;
  warnings = [];
}

abbrev pub services : Env ℕ ℕ String String
services = record {
  now = λ n. (show_nat n, suc n);
  new_id = λ n. (show_nat n, suc n);
  content_hash = λ content. content;
  suffix = λ name. "";
  make_upload_dir = λ batch n. (ok tt, n);
  write_upload = λ batch name content n. (ok tt, n);
  find_upload = λ batch id n. (some id, n);
  extract = λ file n. (ok extraction, n);
  structure = λ e n. (ok (done resume), n);
  anonymize = λ r ref n. (ok (done (record applicant { candidate_ref = ref })), n);
  dump_extraction = λ e. e.text;
  dump_resume = λ r. "{}";
  dump_profile = λ p. p.candidate_ref;
  dumps = λ j. "{}";
  show_error = λ e. "error";
}

abbrev begin : State ℕ
begin = record { store = empty_store; world = 0 }

abbrev uploaded : State ℕ
uploaded =
    (create_batch_of services (("a.pdf", "x") ∷ ("b.pdf", "x") ∷ []) (some "b1") none none begin).1

abbrev pub processed : Result (CandidateStatus → ℕ) × State ℕ
processed = process_batch services "b1" uploaded

statuses :
    map {B = CandidateStatus × Option String}
      (λ c. (CandidateRow.status c, CandidateRow.anonymized_json c))
      (rows processed.1)
    ≡ (CandidateStatus.ready, some "Candidate 1") ∷ (CandidateStatus.duplicate, none) ∷ []
unfolding process_batch create_batch_of create_batch add_candidate add_duplicate update_candidate
    update_batch audit_many show_nat
statuses = refl

ingest_one-Settled_example :
    Acts "c1" (Settled services) (ingest_one services "b1" "c1" "Candidate 1") begin
ingest_one-Settled_example = ingest_one-Settled services "b1" "c1" "Candidate 1" begin

process_batch-AllDone_example :
    AllDone (is_waiting "b1" uploaded.store.candidates) (rows processed.1)
unfolding process_batch create_batch_of create_batch add_candidate add_duplicate update_candidate
    update_batch audit_many show_nat
process_batch-AllDone_example = process_batch-AllDone services "b1" uploaded refl

process_batch-StatusFits_example : StatusFits services "b1" processed
unfolding create_batch_of create_batch add_candidate add_duplicate audit_many get_batch show_nat
process_batch-StatusFits_example = process_batch-StatusFits services "b1" uploaded _ refl

abbrev files : List (String × String)
files = ("a.pdf", "x") ∷ ("b.pdf", "x") ∷ []

-- the store with the batch, before its files
abbrev with_batch : State ℕ
with_batch = record { store = (create_batch "b1" none none "0" empty_store).1; world = 1 }

upload_all-counts_example :
    (1 + 1 ≡ 0 + 0 + length files)
    × (length (rows (upload_all services "b1" files (0, 0) with_batch).1)
        ≡ length (rows with_batch) + length files)
unfolding upload_all create_batch add_candidate add_duplicate audit_many show_nat
upload_all-counts_example = upload_all-counts services "b1" files 0 0 with_batch refl

-- the rules of the run are `rule_1`, whatever its row says, and each change is dumped
abbrev pub rule_services : RuleEnv ℕ ℕ String String
rule_services = record {
  env = services;
  client = one_rule;
  search = find_accent;
  load_role = λ t. ok (record {
    title = t;
    description = none;
    required_skills = [];
    desirable_skills = [];
    min_years_experience = none;
    min_aqf = none;
  });
  load_rules = λ t. ok (record { rules = []; reasoning = none; source_plan = t });
  dump_rules = λ set. or_default (last_text set.rules) "none";
  note_text = λ n. "note";
  json_of_clause = λ c. Json.null;
  json_of_findings = λ fs. Json.null;
}

abbrev with_run : State ℕ
with_run = record {
  store = (create_run "r1" "b1" "clerk" none "0" (create_batch "b1" none none "0" empty_store).1).1;
  world = 0;
}

abbrev run_rules : Result (ClassifiedRule ℕ) × State ℕ → List (Option String)
run_rules r = map RunRow.rules_json r.1.store.runs

rule_refused : run_rules (add_rule rule_services "r1" "no accent" with_run) ≡ none ∷ []
unfolding add_rule create_run create_batch update_run audit_many scan_patterns show_nat contains
rule_refused = refl

add_rule-Admitted_example :
    Admitted rule_services "r1" with_run (add_rule rule_services "r1" "is employed" with_run)
add_rule-Admitted_example = add_rule-Admitted rule_services "r1" "is employed" with_run

-- the run has one rule
abbrev keeping : RuleEnv ℕ ℕ String String
keeping = record rule_services {
  load_rules = λ t. ok (record {
    rules = rule_of "q" RuleVerdict.applicable ClauseKind.require question ∷ [];
    reasoning = none;
    source_plan = t;
  });
}

rule_removed : run_rules (remove_rule keeping "r1" "q" with_run) ≡ some "none" ∷ []
unfolding remove_rule create_run create_batch update_run audit_many
rule_removed = refl

remove_rule-Removed_example :
    Removed keeping "r1" "q" with_run (remove_rule keeping "r1" "q" with_run)
remove_rule-Removed_example = remove_rule-Removed keeping "r1" "q" with_run
