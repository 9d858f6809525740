-- ===== src/Rules/Classifier.antt =====
-- rescan/rules/classifier.py: the scan of a text by the table of risky phrasings, the findings of
-- the model, and how they are put together. `search pattern text` is the engine of regular
-- expressions, which gives the text of the first match. What the model answers is a record of what
-- the code reads from it, each `none` where it is missing or of another type.
pub mod Build
pub mod Plan
pub mod Findings
pub mod Gate
pub mod Plans
use rescan.Prelude.{
  ℕ, ltb, String, Bool, true, false, not, ◌&&◌, Option, none, some, List, [], ◌∷◌, ◌++◌, any,
  if◌then◌else◌, or_default,
}
use rescan.Prelude.Text.{str_eq, strip, is_empty, member, lookup}
use rescan.Rules.Models.{RiskLevel, RuleFinding, FindingSource}
use rescan.Rules.Statutes.{RiskPattern, statutes, statute_citations, risk_patterns}

-- one rule of the model's answer
pub record ModelRule : Type 0 where
  pub source_index : Option ℕ
  pub source_text : Option String
  pub kind : Option String
  pub dsl : Option String
  pub risk : Option String
  pub explanation : Option String
  pub suggested_rewrite : Option String
  pub protected_attributes : List String
  pub legal_basis : List String
  pub justification : Option String

-- `_RISK_ORDER`
abbrev pub risk_order : RiskLevel → ℕ
risk_order RiskLevel.no_risk = 0
risk_order RiskLevel.review = 1
risk_order RiskLevel.high = 2

abbrev pub same_risk : RiskLevel → RiskLevel → Bool
same_risk RiskLevel.no_risk RiskLevel.no_risk = true
same_risk RiskLevel.review RiskLevel.review = true
same_risk RiskLevel.high RiskLevel.high = true
same_risk _ _ = false

abbrev pub found : RiskPattern → String → RuleFinding
found p text = record {
  pattern_id = p.id;
  risk = p.risk;
  matched_text = some text;
  protected_attributes = p.attributes;
  statutes = statute_citations p.statutes;
  explanation = p.explanation;
  suggested_rewrite = p.rewrite;
  source = FindingSource.pattern;
}

module _ (search : String → String → Option String) where
  unfoldable pub scan_with : List RiskPattern → String → List RuleFinding
  scan_with [] text = []
  scan_with (p ∷ ps) text = elim (search p.pattern text) [
    | none ↦ scan_with ps text
    | some match ↦ found p match ∷ scan_with ps text
  ]

  unfoldable pub scan_patterns : String → List RuleFinding
  unfolding scan_with risk_patterns
  scan_patterns text = scan_with risk_patterns text

-- RiskLevel(text), where none is a ValueError
abbrev pub risk_level : String → Option RiskLevel
risk_level text =
    lookup text
      (("none", RiskLevel.no_risk) ∷ ("review", RiskLevel.review) ∷ ("high", RiskLevel.high) ∷ [])

-- `x or d`, where an empty text is false
abbrev pub or_text : Option String → String → String
or_text none d = d
or_text (some s) d = if is_empty s then d else s

abbrev pub model_assessed : RiskLevel → String → ModelRule → RuleFinding
model_assessed risk explanation m = record {
  pattern_id = "model_assessed";
  risk = risk;
  matched_text = none;
  protected_attributes = m.protected_attributes;
  statutes = statute_citations m.legal_basis;
  explanation = explanation;
  suggested_rewrite =
      or_text (some (strip (or_text m.suggested_rewrite "")))
        "Restate the requirement as a measurable capability the role needs.";
  source = FindingSource.model;
}

-- the codes of `legal_basis` are looked up in STATUTES by `statute_citations` too
unfoldable pub model_finding : ModelRule → Option RuleFinding
unfolding strip
model_finding m = elim (risk_level (or_text m.risk "none")) [
  | none ↦ none
  | some risk ↦
      if same_risk risk RiskLevel.no_risk
      then none
      else if is_empty (strip (or_text m.explanation ""))
      then none
      else some (model_assessed risk (strip (or_text m.explanation "")) m)
]

abbrev pub intersects : List String → List String → Bool
intersects xs ys = any (λ x. member x ys) xs

-- whether the table has said already what the model says
abbrev pub already_covered : RuleFinding → List RuleFinding → Bool
already_covered f findings =
    any
      (λ e.
        same_risk f.risk (RuleFinding.risk e)
        && intersects f.protected_attributes (RuleFinding.protected_attributes e))
      findings

unfoldable pub add_model_finding : Option RuleFinding → List RuleFinding → List RuleFinding
add_model_finding none findings = findings
add_model_finding (some f) findings =
    if already_covered f findings then findings else findings ++ f ∷ []

abbrev pub ids_of : List RuleFinding → List String
ids_of [] = []
ids_of (f ∷ fs) = f.pattern_id ∷ ids_of fs

-- `_merge_findings`: the new findings whose pattern is not there yet
unfoldable pub merge_findings : List RuleFinding → List RuleFinding → List RuleFinding
merge_findings findings [] = findings
merge_findings findings (f ∷ fs) =
    merge_findings (if member f.pattern_id (ids_of findings) then findings else findings ++ f ∷ [])
      fs

-- max(…, key=…, default=NONE): the first of the greatest
abbrev pub greatest : RiskLevel → List RuleFinding → RiskLevel
greatest r [] = r
greatest r (f ∷ fs) = greatest (if ltb (risk_order r) (risk_order f.risk) then f.risk else r) fs

unfoldable pub overall_risk : List RuleFinding → RiskLevel
overall_risk [] = RiskLevel.no_risk
overall_risk (f ∷ fs) = greatest f.risk fs
