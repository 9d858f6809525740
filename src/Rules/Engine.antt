-- ===== src/Rules/Engine.antt =====
-- rescan/rules/engine.py: the screening of a profile by a rule set.
pub mod Eligible
pub mod Keeps
use rescan.Prelude.{
  String, Bool, true, false, not, Option, none, some, List, [], ◌∷◌, map, filter, if◌then◌else◌,
  any, leb, length,
}
use rescan.Prelude.Float.{FloatOps}
use rescan.Prelude.Text.{is_empty}
use rescan.Prelude.Result.{Exec, pure, ◌>>=◌}
use rescan.Schemas.{AnonymizedProfile}
use rescan.Dsl.Ast.{Clause, clause_dsl, fields_used}
use rescan.Dsl.Verdict.{Verdict}
use rescan.Dsl.Eval.Records.{is_no, is_unknown}
use rescan.Dsl.Eval.Evaluate.{JudgeLike, evaluate}
use rescan.Rules.Models.{ClassifiedRule, RuleOutcome, RuleSet, is_applicable, is_require}

pub record ScreeningResult (F : Type 0) : Type 0 where
  pub candidate_ref : String
  pub outcomes : List (RuleOutcome F)

-- The clause of a rule that filters: an applied REQUIRE.
abbrev pub filter_clause : {F : Type 0} → ClassifiedRule F → Option (Clause F)
filter_clause r =
    if is_applicable r.verdict
    then elim r.clause [ none ↦ none | some c ↦ if is_require c.kind then some c else none ]
    else none

-- `rule.dsl or rule.clause.to_dsl()`
abbrev or_text : Option String → String → String
or_text none d = d
or_text (some s) d = if is_empty s then d else s

module _ {F : Type 0} ⦃fl : FloatOps F⦄ where
  abbrev pub outcome : ClassifiedRule F → Clause F → Verdict F → RuleOutcome F
  outcome r c v = record {
    rule_id = r.id;
    source_text = r.source_text;
    dsl = or_text r.dsl (clause_dsl c);
    fields = fields_used c.expr;
    passed = v.value;
    observed = v.observed;
    reason = v.reason;
  }

  unfoldable pub apply_clause :
      {S : Type 0}
      → ClassifiedRule F
      → Option (Clause F)
      → AnonymizedProfile F
      → Option (JudgeLike S F)
      → Exec S (Option (RuleOutcome F))
  apply_clause r none p j = pure none
  apply_clause r (some c) p j = evaluate c.expr p j >>= λ v. pure (some (outcome r c v))

  unfoldable pub evaluate_rule :
      {S : Type 0}
      → ClassifiedRule F
      → AnonymizedProfile F
      → Option (JudgeLike S F)
      → Exec S (Option (RuleOutcome F))
  unfolding apply_clause
  evaluate_rule r p j = apply_clause r (filter_clause r) p j

  abbrev pub add_outcome : Option (RuleOutcome F) → List (RuleOutcome F) → List (RuleOutcome F)
  add_outcome none os = os
  add_outcome (some o) os = o ∷ os

  unfoldable pub screen_rules :
      {S : Type 0}
      → List (ClassifiedRule F)
      → AnonymizedProfile F
      → Option (JudgeLike S F)
      → Exec S (List (RuleOutcome F))
  screen_rules [] p j = pure []
  screen_rules (r ∷ rs) p j =
      evaluate_rule r p j >>= λ o. screen_rules rs p j >>= λ os. pure (add_outcome o os)

  unfoldable pub screen :
      {S : Type 0}
      → AnonymizedProfile F
      → RuleSet F
      → Option (JudgeLike S F)
      → Exec S (ScreeningResult F)
  screen p rs j = screen_rules rs.rules p j >>= λ os.
      pure (record { candidate_ref = p.candidate_ref; outcomes = os })

abbrev pub is_nonempty : {A : Type 0} → List A → Bool
is_nonempty [] = false
is_nonempty (_ ∷ _) = true

module _ {F : Type 0} where
  unfoldable pub failed : ScreeningResult F → List (RuleOutcome F)
  failed r = filter (λ o. is_no o.passed) r.outcomes

  unfoldable pub indeterminate : ScreeningResult F → List (RuleOutcome F)
  indeterminate r = filter (λ o. is_unknown o.passed) r.outcomes

  unfoldable pub eligible : ScreeningResult F → Bool
  unfolding failed
  eligible r = not (is_nonempty (failed r))

  unfoldable pub needs_manual_review : ScreeningResult F → Bool
  unfolding indeterminate
  needs_manual_review r = is_nonempty (indeterminate r)

  unfoldable pub exclusion_reasons : ScreeningResult F → List String
  unfolding failed
  exclusion_reasons r = map (λ o. o.reason) (failed r)
