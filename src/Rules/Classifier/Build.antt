-- ===== src/Rules/Classifier/Build.antt =====
-- rescan/rules/classifier.py: `_parse_with_repair` and `_build_rule`. The client's `json_call` is a
-- parameter with a state `W`; the name of a model, passed on as it is, is part of the client.
use mathlib.Core.Option
use rescan.Prelude.{String, Option, none, some, List, [], ◌∷◌, ◌++◌, if◌then◌else◌}
use rescan.Prelude.Float.{FloatOps}
use rescan.Prelude.Text.{str_eq, strip, is_empty}
use rescan.Dsl.Ast.{Clause, ClauseKind, clause_dsl, string_literals}
use rescan.Dsl.Parser.Token.{DslError, Parsed, ok, failed, out_of_fuel}
use rescan.Dsl.Parser.Text.{parse_clause}
use rescan.Rules.Models.{RuleVerdict, RiskLevel, RuleFinding, Note, ClassifiedRule, is_high}
use rescan.Rules.Statutes.{statute_citations}
use rescan.Rules.Classifier.{
  ModelRule, scan_patterns, model_finding, add_model_finding, merge_findings, overall_risk,
  same_risk,
}

-- the answer of the model, or an LLMError with its text
pub data LlmReply (A : Type 0) : Type 0 where
  answered : A → LlmReply A
  llm_error : String → LlmReply A

pub record PlanRequest : Type 0 where
  pub plan_text : String
  pub plan : String
  pub rule_texts : List String
  pub role_context : Option String

-- the model's answer to a plan
pub record ModelPlan : Type 0 where
  pub rules : List ModelRule
  pub reasoning : Option String

pub record RepairRequest : Type 0 where
  pub source_text : String
  pub dsl : String
  pub error : DslError

pub record RuleClient (W : Type 0) : Type 0 where
  pub compile : PlanRequest → W → LlmReply ModelPlan × W
  -- the repaired clause, where the model gives one
  pub repair : RepairRequest → W → LlmReply (Option String) × W

-- what the model says of one text
pub data Review : Type 0 where
  unavailable : String → Review
  nothing : Review
  reviewed : ModelRule → Review

-- s.strip(), where something is left
abbrev pub stripped : Option String → Option String
stripped none = none
stripped (some s) = if is_empty (strip s) then none else some (strip s)

-- s, where s.strip() leaves something
abbrev pub non_blank : Option String → Option String
non_blank none = none
non_blank (some s) = if is_empty (strip s) then none else some s

-- `(x or None) and str(x).strip()`
abbrev pub stripped_if : Option String → Option String
stripped_if none = none
stripped_if (some s) = if is_empty s then none else some (strip s)

abbrev pub kind_or : Option String → ClauseKind → ClauseKind
kind_or none k = k
kind_or (some s) k =
    if str_eq s "require"
    then ClauseKind.require
    else if str_eq s "prefer"
    then ClauseKind.prefer
    else k

-- a draft of a rule: what `_build_rule` has found before it decides
pub record Draft (F : Type 0) : Type 0 where
  pub findings : List RuleFinding
  pub clause : Option (Clause F)
  pub kind : ClauseKind
  pub justification : Option String
  pub legal_basis : List String
  pub notes : List Note

-- `if not notes: notes.append(…)`
abbrev pub or_no_field : List Note → List Note
or_no_field [] = Note.no_field_tests ∷ []
or_no_field (n ∷ ns) = n ∷ ns

module _ (search : String → String → Option String) where
  -- for literal in string_literals(…): _merge_findings(findings, scan_patterns(literal))
  unfoldable pub merge_literals : List String → List RuleFinding → List RuleFinding
  unfolding scan_patterns merge_findings
  merge_literals [] findings = findings
  merge_literals (s ∷ ss) findings =
      merge_literals ss (merge_findings findings (scan_patterns search s))

module _ {F : Type 0} ⦃fl : FloatOps F⦄ where
  -- a text that has run out of fuel does not occur
  abbrev pub second_try : DslError → Parsed (Clause F) → Option (Clause F) × List Note
  second_try first (ok c) = (some c, [])
  second_try first (failed second) = (none, Note.not_repaired first second ∷ [])
  second_try first out_of_fuel = (none, Note.not_compiled first ∷ [])

  abbrev pub retried : DslError → Option String → Option (Clause F) × List Note
  retried first none = (none, Note.not_compiled first ∷ [])
  retried first (some text) = second_try first (parse_clause text)

  abbrev pub repaired : DslError → LlmReply (Option String) → Option (Clause F) × List Note
  repaired first (llm_error e) = (none, Note.repair_unavailable first e ∷ [])
  repaired first (answered answer) = retried first (non_blank answer)

  module _ {W : Type 0} (client : RuleClient W) where
    -- one chance for the model to repair a clause that does not parse
    unfoldable pub try_repair :
        String → String → Parsed (Clause F) → W → (Option (Clause F) × List Note) × W
    try_repair source dsl (ok c) w = ((some c, []), w)
    try_repair source dsl out_of_fuel w = ((none, []), w)
    try_repair source dsl (failed first) w =
        let (reply, w') =
          client.repair (record { source_text = source; dsl = dsl; error = first }) w in
        (repaired first reply, w')

    unfoldable pub parse_with_repair : String → String → W → (Option (Clause F) × List Note) × W
    unfolding try_repair parse_clause
    parse_with_repair source dsl w = try_repair source dsl (parse_clause dsl) w

  module _ (search : String → String → Option String) where
    -- the draft with the outcome of the parse
    abbrev pub with_clause : Draft F → Option (Clause F) × List Note → Draft F
    with_clause d (none, notes) = record d { notes = notes }
    with_clause d (some c, notes) = record d {
      clause = some c;
      kind = c.kind;
      findings = merge_literals search (string_literals c.expr) d.findings;
      notes = notes;
    }

    abbrev pub bare : String → List Note → Draft F
    bare source notes = record {
      findings = scan_patterns search source;
      clause = none;
      kind = ClauseKind.require;
      justification = none;
      legal_basis = [];
      notes = notes;
    }

    -- what the model says beside its clause
    abbrev pub assessed : String → ModelRule → Draft F
    assessed source m = record {
      findings = add_model_finding (model_finding m) (scan_patterns search source);
      clause = none;
      kind = kind_or m.kind ClauseKind.require;
      justification = stripped_if m.justification;
      legal_basis = statute_citations m.legal_basis;
      notes = [];
    }

    module _ {W : Type 0} (client : RuleClient W) where
      unfoldable pub compiled : String → Draft F → Option String → W → Draft F × W
      unfolding parse_with_repair merge_literals
      compiled source d none w = (d, w)
      compiled source d (some dsl) w =
          let (outcome, w') = parse_with_repair client source dsl w in (with_clause d outcome, w')

      unfoldable pub draft : String → Review → W → Draft F × W
      unfolding compiled scan_patterns model_finding add_model_finding strip
      draft source (Review.unavailable e) w = (bare source (Note.review_unavailable e ∷ []), w)
      draft source Review.nothing w = (bare source (Note.no_rule_returned ∷ []), w)
      draft source (Review.reviewed m) w = compiled source (assessed source m) (stripped m.dsl) w

  abbrev pub rule_with :
      String
      → String
      → Draft F
      → RuleVerdict
      → RiskLevel
      → Option (Clause F)
      → List Note
      → ClassifiedRule F
  rule_with id source d verdict risk clause notes = record {
    id = id;
    source_text = source;
    verdict = verdict;
    risk = risk;
    findings = d.findings;
    dsl = Option.map clause_dsl clause;
    clause = clause;
    kind = d.kind;
    justification = d.justification;
    legal_basis = d.legal_basis;
    notes = notes;
  }

  abbrev pub high_notes : Option (Clause F) → List Note
  high_notes none = []
  high_notes (some c) = Note.not_applied (clause_dsl c) ∷ []

  -- a rule that is not of high risk
  abbrev pub decided : String → String → Draft F → RiskLevel → Option (Clause F) → ClassifiedRule F
  decided id source d risk none =
      rule_with id source d RuleVerdict.unmappable risk none (or_no_field d.notes)
  decided id source d risk (some c) =
      rule_with id source d RuleVerdict.applicable risk (some c) (
        d.notes ++ (if same_risk risk RiskLevel.review then Note.record_justification ∷ [] else []))

  -- a high-risk rule is reported, never applied
  unfoldable pub verdict_of : String → String → Draft F → ClassifiedRule F
  unfolding overall_risk
  verdict_of id source d =
      if is_high (overall_risk d.findings)
      then rule_with id source d RuleVerdict.risky RiskLevel.high none
          (d.notes ++ high_notes d.clause)
      else decided id source d (overall_risk d.findings) d.clause

  module _ {W : Type 0} (search : String → String → Option String) (client : RuleClient W) where
    -- `_build_rule`
    unfoldable pub build_rule : String → String → Review → W → ClassifiedRule F × W
    unfolding draft verdict_of
    build_rule id source review w =
        let (d, w') = draft search client source review w in (verdict_of id source d, w')
