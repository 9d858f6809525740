-- ===== src/Runner/Rules.antt =====
-- rescan/pipeline/runner.py: the rules of a run. `load_rules` is `_load` and the validation of a
-- rule set, with the empty set where there is none.
use rescan.Prelude.{
  ℕ, zero, suc, String, Bool, true, false, not, Option, none, some, List, [], ◌∷◌, ◌++◌, map,
  filter, if◌then◌else◌, length,
}
use rescan.Prelude.Float.{FloatOps}
use rescan.Prelude.Text.{str_eq, strip, member}
use rescan.Prelude.Result.{Result, ok, PyError, raised, Exec, pure, raise, lift, ◌>>=◌, ◌>>◌}
use rescan.Schemas.{RoleSpec}
use rescan.Dsl.Ast.{ClauseKind, Clause}
use rescan.Rules.Models.{
  RuleVerdict, RiskLevel, RuleFinding, Note, ClassifiedRule, RuleSet, is_high, applied, flagged,
}
use rescan.Rules.Classifier.{scan_patterns}
use rescan.Rules.Classifier.Build.{RuleClient}
use rescan.Rules.Classifier.Plan.{rule_id, classify_rule, compile_plan}
use rescan.Store.Rows.{RunRow, AuditEntry}
use rescan.Store.Operations.{find}
use rescan.Store.Reads.{get_run}
use rescan.Runner.Details.{finding_fields, rejected_fields, added_fields, compiled_fields}
use rescan.Runner.Env.{
  text_or_null, Json, Fields, field, end, Env, State, in_world, set_run_row, audit_all, read,
  no_run_update,
}

-- what the rules of a run need beside the rest
pub record RuleEnv (W F Data File : Type 0) : Type 0 where
  pub env : Env W F Data File
  pub client : RuleClient W
  -- the engine of regular expressions
  pub search : String → String → Option String
  pub load_role : String → Result (RoleSpec F)
  pub load_rules : Option String → Result (RuleSet F)
  pub dump_rules : RuleSet F → String
  -- the values in an audit entry about a rule
  pub note_text : Note → String
  pub json_of_clause : Clause F → Json
  pub json_of_findings : List RuleFinding → Json

-- the first index from `k` on whose id is not taken
unfoldable pub free_index : ℕ → ℕ → List String → ℕ
free_index zero k taken = k
free_index (suc fuel) k taken =
    let rest = free_index fuel (suc k) taken in if member (rule_id k) taken then rest else k

-- the fuel is one more than the ids that are taken
unfoldable pub next_id : List String → String
unfolding free_index
next_id taken = rule_id (free_index (suc (length taken)) (suc (length taken)) taken)

abbrev pub rule_ids : {F : Type 0} → List (ClassifiedRule F) → List String
rule_ids [] = []
rule_ids (r ∷ rs) = r.id ∷ rule_ids rs

abbrev pub is_nonempty : {A : Type 0} → List A → Bool
is_nonempty [] = false
is_nonempty (x ∷ xs) = true

-- `RuleRejected`
abbrev pub rule_rejected : PyError
rule_rejected = raised "RuleRejected"

abbrev pub rule_text : {F : Type 0} → ClassifiedRule F → Fields
rule_text r = field "rule_id" (Json.text r.id) (field "text" (Json.text r.source_text) end)

module _ {W F Data File : Type 0} ⦃fl : FloatOps F⦄ (e : RuleEnv W F Data File) where
  -- `store.audit` of a run's event
  abbrev pub run_event : String → String → String → String → Fields → AuditEntry
  run_event batch run stage event detail = record {
    batch_id = batch;
    run_id = some run;
    candidate_id = none;
    stage = stage;
    event = event;
    detail = e.env.dumps (Json.object detail);
  }

  abbrev pub found_run : Option RunRow → Exec (State W) RunRow
  found_run none = raise PyError.key_error
  found_run (some run) = pure run

  unfoldable pub require_run : String → Exec (State W) RunRow
  unfolding get_run
  require_run run_id = read (get_run run_id) >>= found_run

  unfoldable pub rule_set_for : String → Exec (State W) (RuleSet F)
  unfolding require_run
  rule_set_for run_id = require_run run_id >>= λ run. lift (e.load_rules run.rules_json)

  abbrev pub store_rules : String → RuleSet F → Exec (State W) (Unit {0})
  store_rules run_id set =
      set_run_row e.env run_id
        (record no_run_update { rules_json = some (some (e.dump_rules set)) })

  -- a rule that the table refuses, with no model call
  abbrev pub refused_rule : String → String → List RuleFinding → ClassifiedRule F
  refused_rule id text findings = record {
    id = id;
    source_text = strip text;
    verdict = RuleVerdict.risky;
    risk = RiskLevel.high;
    findings = findings;
    dsl = none;
    clause = none;
    kind = ClauseKind.require;
    justification = none;
    legal_basis = [];
    notes = Note.refused_by_table ∷ [];
  }

  abbrev pub is_blocking : String → Bool
  is_blocking text =
      is_nonempty (filter (λ f. is_high (RuleFinding.risk f)) (scan_patterns e.search text))

  -- the rule of a text, under its new id
  unfoldable pub new_rule : String → String → String → Exec (State W) (ClassifiedRule F)
  unfolding classify_rule scan_patterns
  new_rule role id text =
      if is_blocking text
      then pure (refused_rule id text (scan_patterns e.search text))
      else in_world (classify_rule e.search e.client text (some role) id)

  -- a rule of high risk is refused, and any other is added
  unfoldable pub admit :
      String → RunRow → RuleSet F → ClassifiedRule F → Exec (State W) (ClassifiedRule F)
  admit run_id run set rule =
      if is_high rule.risk
      then audit_all e.env (
          run_event run.batch_id run_id "rules" "rule_rejected"
            (rejected_fields e.json_of_findings rule)
          ∷ [])
        >> raise rule_rejected
      else store_rules run_id (record set { rules = set.rules ++ rule ∷ [] })
        >> audit_all e.env (
            run_event run.batch_id run_id "rules" "rule_added" (added_fields e.note_text rule) ∷ [])
        >> pure rule

  unfoldable pub add_rule : String → String → Exec (State W) (ClassifiedRule F)
  unfolding require_run rule_set_for next_id new_rule admit
  add_rule run_id text = require_run run_id >>= λ run. lift (e.load_role run.role_json) >>= λ role.
      rule_set_for run_id >>= λ set.
      new_rule role.title (next_id (rule_ids set.rules)) text >>= λ rule. admit run_id run set rule

  abbrev pub known_rule : Option (ClassifiedRule F) → Exec (State W) (ClassifiedRule F)
  known_rule none = raise PyError.key_error
  known_rule (some r) = pure r

  unfoldable pub remove_rule : String → String → Exec (State W) (ClassifiedRule F)
  unfolding require_run rule_set_for
  remove_rule run_id id = require_run run_id >>= λ run. rule_set_for run_id >>= λ set.
      known_rule (find (λ r. str_eq (ClassifiedRule.id r) id) set.rules) >>= λ rule.
      store_rules run_id
        (record set { rules = filter (λ r. not (str_eq (ClassifiedRule.id r) id)) set.rules })
      >> audit_all e.env
          (run_event run.batch_id run_id "rules" "rule_removed" (rule_text rule) ∷ [])
      >> pure rule

  abbrev pub copied_fields : String → RuleSet F → Fields
  copied_fields source set = field "from_run" (Json.text source) (
      field "rules" (Json.nat (length set.rules)) (
        field "applied" (Json.nat (length (applied set)))
          (field "flagged" (Json.nat (length (flagged set))) end)))

  -- `_copy_rules`
  unfoldable pub copy_rules : String → String → String → Exec (State W) (RuleSet F)
  unfolding rule_set_for
  copy_rules run_id batch source = rule_set_for source >>= λ set.
      store_rules run_id set
      >> audit_all e.env
          (run_event batch run_id "rules" "rules_copied" (copied_fields source set) ∷ [])
      >> pure set

  abbrev pub verdict_event : RuleVerdict → String
  verdict_event RuleVerdict.applicable = "rule_applicable"
  verdict_event RuleVerdict.risky = "rule_risky"
  verdict_event RuleVerdict.unmappable = "rule_unmappable"

  -- the entries about one rule: its verdict, and each finding
  abbrev pub rule_entries : String → String → ClassifiedRule F → List AuditEntry
  rule_entries batch run r =
      run_event batch run "rules" (verdict_event r.verdict)
        (compiled_fields e.note_text e.json_of_clause r)
      ∷ map (λ f. run_event batch run "rules" "rule_risk_flagged" (finding_fields r f)) r.findings

  abbrev pub all_entries : String → String → List (ClassifiedRule F) → List AuditEntry
  all_entries batch run [] = []
  all_entries batch run (r ∷ rs) = rule_entries batch run r ++ all_entries batch run rs

  abbrev pub plan_fields : RuleSet F → Fields
  plan_fields set = field "plan" (text_or_null set.source_plan) (
      field "reasoning" (text_or_null set.reasoning) (
        field "rules" (Json.nat (length set.rules)) (
          field "applied" (Json.nat (length (applied set)))
            (field "flagged" (Json.nat (length (flagged set))) end))))

  abbrev compile_in_world : Option String → List String → String → Exec (State W) (RuleSet F)
  compile_in_world plan texts role s =
      let (set, w) = compile_plan e.search e.client plan texts (some role) s.world in
      (ok set, record s { world = w })

  -- `_compile_rules`
  unfoldable pub compile_rules :
      String → String → List String → String → Option String → Exec (State W) (RuleSet F)
  unfolding compile_plan
  compile_rules run_id batch texts role plan = compile_in_world plan texts role >>= λ set.
      store_rules run_id set
      >> audit_all e.env (
          run_event batch run_id "rules" "plan_compiled" (plan_fields set)
          ∷ all_entries batch run_id set.rules)
      >> pure set
