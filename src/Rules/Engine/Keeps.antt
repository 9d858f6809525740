-- ===== src/Rules/Engine/Keeps.antt =====
-- What a judge keeps of its state, the screening of a profile keeps.
use rescan.Prelude.{Option, none, some, List, [], ◌∷◌}
use rescan.Prelude.Float.{FloatOps}
use rescan.Schemas.{AnonymizedProfile}
use rescan.Dsl.Ast.{Clause}
use rescan.Dsl.Eval.Evaluate.{JudgeLike, evaluate}
use rescan.Dsl.Eval.Keeps.{Keeps, Keeps-bind, JudgeKeeps, evaluate_in-Keeps}
use rescan.Rules.Models.{ClassifiedRule, RuleSet}
use rescan.Rules.Engine.{apply_clause, filter_clause, evaluate_rule, screen_rules, screen}

module _ {S F : Type 0} ⦃fl : FloatOps F⦄ (P : S → Type 0) (judge : JudgeLike S F)
    (keeps : JudgeKeeps P judge) (p : AnonymizedProfile F) where
  apply_clause-Keeps :
      (r : ClassifiedRule F) (c : Option (Clause F)) → Keeps P (apply_clause r c p (some judge))
  unfolding apply_clause evaluate
  apply_clause-Keeps r none = λ s h. h
  apply_clause-Keeps r (some c) =
      Keeps-bind P (evaluate c.expr p (some judge)) _ (evaluate_in-Keeps P judge keeps c.expr _)
        λ v s h. h

  screen_rules-Keeps : (rs : List (ClassifiedRule F)) → Keeps P (screen_rules rs p (some judge))
  unfolding screen_rules evaluate_rule
  screen_rules-Keeps [] = λ s h. h
  screen_rules-Keeps (r ∷ rs) =
      Keeps-bind P (evaluate_rule r p (some judge)) _ (apply_clause-Keeps r (filter_clause r))
        λ o. Keeps-bind P (screen_rules rs p (some judge)) _ (screen_rules-Keeps rs) λ os s h. h

  pub screen-Keeps : (rules : RuleSet F) → Keeps P (screen p rules (some judge))
  unfolding screen
  screen-Keeps rules =
      Keeps-bind P (screen_rules rules.rules p (some judge)) _ (screen_rules-Keeps rules.rules)
        λ os s h. h
