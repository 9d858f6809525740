-- ===== src/Runner/Details.antt =====
-- rescan/pipeline/runner.py: the details of the audit about the rules of a run. The JSON of a
-- clause and of a list of findings, and the text of a note, are parameters.
use rescan.Prelude.{String, Option, none, some, List, map}
use rescan.Dsl.Ast.{ClauseKind, Clause}
use rescan.Rules.Models.{RuleVerdict, RiskLevel, RuleFinding, Note, ClassifiedRule}
use rescan.Runner.Env.{Json, Fields, field, end, text_or_null}

-- the values of the enumerations
abbrev pub kind_text : ClauseKind → String
kind_text ClauseKind.require = "require"
kind_text ClauseKind.prefer = "prefer"

abbrev pub risk_text : RiskLevel → String
risk_text RiskLevel.no_risk = "none"
risk_text RiskLevel.review = "review"
risk_text RiskLevel.high = "high"

abbrev pub verdict_text : RuleVerdict → String
verdict_text RuleVerdict.applicable = "applicable"
verdict_text RuleVerdict.risky = "risky"
verdict_text RuleVerdict.unmappable = "unmappable"

abbrev pub finding_fields : {F : Type 0} → ClassifiedRule F → RuleFinding → Fields
finding_fields r f = field "rule_id" (Json.text r.id) (
    field "text" (Json.text r.source_text) (
      field "pattern" (Json.text f.pattern_id) (
        field "risk" (Json.text (risk_text f.risk)) (
          field "protected_attributes" (Json.texts f.protected_attributes) (
            field "statutes" (Json.texts f.statutes) (
              field "explanation" (Json.text f.explanation)
                (field "suggested_rewrite" (Json.text f.suggested_rewrite) end)))))))

abbrev pub rejected_fields : {F : Type 0} → (List RuleFinding → Json) → ClassifiedRule F → Fields
rejected_fields json_of_findings r = field "text" (Json.text r.source_text) (
    field "risk" (Json.text (risk_text r.risk))
      (field "findings" (json_of_findings r.findings) end))

module _ {F : Type 0} (note_text : Note → String) where
  abbrev pub added_fields : ClassifiedRule F → Fields
  added_fields r = field "rule_id" (Json.text r.id) (
      field "text" (Json.text r.source_text) (
        field "kind" (Json.text (kind_text r.kind)) (
          field "verdict" (Json.text (verdict_text r.verdict)) (
            field "risk" (Json.text (risk_text r.risk)) (
              field "dsl" (text_or_null r.dsl)
                (field "notes" (Json.texts (map note_text r.notes)) end))))))

  abbrev pub clause_or_null : (Clause F → Json) → Option (Clause F) → Json
  clause_or_null json_of_clause none = Json.null
  clause_or_null json_of_clause (some c) = json_of_clause c

  abbrev pub compiled_fields : (Clause F → Json) → ClassifiedRule F → Fields
  compiled_fields json_of_clause r = field "rule_id" (Json.text r.id) (
      field "text" (Json.text r.source_text) (
        field "kind" (Json.text (kind_text r.kind)) (
          field "risk" (Json.text (risk_text r.risk)) (
            field "dsl" (text_or_null r.dsl) (
              field "clause" (clause_or_null json_of_clause r.clause) (
                field "justification" (text_or_null r.justification)
                  (field "notes" (Json.texts (map note_text r.notes)) end)))))))
