-- ===== src/Rules/Models.antt =====
-- rescan/rules/models.py: rules, their verdicts and their findings, and what a rule decided of one
-- candidate. `RiskLevel` is that of rescan/rules/statutes.py.
use rescan.Prelude.{String, Bool, true, false, Option, List, ◌&&◌, is_some, filter}
use rescan.Dsl.Ast.{Clause, ClauseKind}
use rescan.Dsl.Parser.Token.{DslError}
use rescan.Dsl.Verdict.{Observed}

pub data RuleVerdict : Type 0 where
  applicable risky unmappable : RuleVerdict

pub data RiskLevel : Type 0 where
  no_risk review high : RiskLevel

pub data FindingSource : Type 0 where
  pattern model : FindingSource

pub record RuleFinding : Type 0 where
  pub pattern_id : String
  pub risk : RiskLevel
  pub matched_text : Option String
  pub protected_attributes : List String
  pub statutes : List String
  pub explanation : String
  pub suggested_rewrite : String
  pub source : FindingSource

-- what a note for the reviewer says; its text is not kept
pub data Note : Type 0 where
  review_unavailable : String → Note
  no_rule_returned : Note
  repair_unavailable : DslError → String → Note
  not_compiled : DslError → Note
  not_repaired : DslError → DslError → Note
  -- high risk, with the compiled form
  not_applied : String → Note
  record_justification no_field_tests empty_rule refused_by_table : Note

pub record ClassifiedRule (F : Type 0) : Type 0 where
  pub id : String
  pub source_text : String
  pub verdict : RuleVerdict
  pub risk : RiskLevel
  pub findings : List RuleFinding
  pub dsl : Option String
  pub clause : Option (Clause F)
  pub kind : ClauseKind
  pub justification : Option String
  pub legal_basis : List String
  pub notes : List Note

pub record RuleOutcome (F : Type 0) : Type 0 where
  pub rule_id : String
  pub source_text : String
  pub dsl : String
  pub fields : List String
  -- `none` is "could not be determined"
  pub passed : Option Bool
  pub observed : Observed F
  pub reason : String

pub record RuleSet (F : Type 0) : Type 0 where
  pub rules : List (ClassifiedRule F)
  pub reasoning : Option String
  pub source_plan : Option String

abbrev pub is_applicable : RuleVerdict → Bool
is_applicable RuleVerdict.applicable = true
is_applicable _ = false

abbrev pub is_risky : RuleVerdict → Bool
is_risky RuleVerdict.risky = true
is_risky _ = false

abbrev pub is_high : RiskLevel → Bool
is_high RiskLevel.high = true
is_high _ = false

abbrev pub is_require : ClauseKind → Bool
is_require ClauseKind.require = true
is_require ClauseKind.prefer = false

abbrev pub is_prefer : ClauseKind → Bool
is_prefer ClauseKind.require = false
is_prefer ClauseKind.prefer = true

module _ {F : Type 0} where
  abbrev pub is_applied : ClassifiedRule F → Bool
  is_applied r = is_applicable r.verdict && is_some r.clause

  abbrev pub blocking_findings : ClassifiedRule F → List RuleFinding
  blocking_findings r = filter (λ f. is_high f.risk) r.findings

  abbrev pub applied : RuleSet F → List (ClassifiedRule F)
  applied s = filter is_applied s.rules

  abbrev pub requirements : RuleSet F → List (ClassifiedRule F)
  requirements s = filter (λ r. is_require r.kind) (applied s)

  abbrev pub preferences : RuleSet F → List (ClassifiedRule F)
  preferences s = filter (λ r. is_prefer r.kind) (applied s)

  abbrev pub flagged : RuleSet F → List (ClassifiedRule F)
  flagged s = filter (λ r. is_risky r.verdict) s.rules
