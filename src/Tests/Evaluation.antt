-- ===== src/Tests/Evaluation.antt =====
-- Evaluation and screening of the sample profile.
use rescan.Prelude.{
  ℕ, ◌≡◌, refl, true, false, not, none, some, [], ◌∷◌, arith, any, inl, inr, filter,
}
use rescan.Prelude.Result.{ok}
use rescan.Dsl.Ast.{Comparator, Expr, has_ask, Value}
use rescan.Dsl.Fields.Records.{role_record}
use rescan.Dsl.Verdict.{Verdict, Observed}
use rescan.Dsl.Eval.Leaf.{verdict, compare_numbers}
use rescan.Dsl.Eval.Leaf.Compare.{leaf_compare}
use rescan.Dsl.Eval.Records.{is_no, is_unknown, Judged, count_verdict}
use rescan.Dsl.Eval.Evaluate.{Subject, evaluate_in, evaluate, NoJudge}
use rescan.Dsl.Eval.Kleene.Denote.{kleene, IsEvaluable}
use rescan.Dsl.Eval.Kleene.Refines.{evaluate-kleene}
use rescan.Dsl.Eval.Kleene.Monotone.{decided_without_judge}
use rescan.Dsl.Eval.Lazy.{and_asks_no_judge, or_asks_no_judge}
use rescan.Dsl.Eval.Counts.{count_verdict_sound, count_eq_ignores_unassessed}
use rescan.Rules.Models.{RuleSet, RuleVerdict}
use rescan.Rules.Engine.{ScreeningResult, screen, eligible, needs_manual_review}
use rescan.Rules.Engine.Eligible.{decides, screens, screen-decides, screen-requirements}
use rescan.Dsl.Ast.{ClauseKind}
use rescan.Tests.Samples.{
  whole_numbers, whole_numbers-CountLaws, applicant, engineer, helper, five_years, question, two,
  counting_judge, says_yes, rule_of,
}
use rescan.Dsl.Fields.Spec.{Item}
use rescan.Dsl.Fields.Named.{fields}
use rescan.Dsl.Fields.Readers.{list_count}
use rescan.Prelude.Text.{show_nat}

abbrev both : Expr ℕ
both = Expr.and (two question five_years)

-- years_experience >= 5 is false of three years.
abbrev fails : Verdict ℕ
fails =
    verdict (some false)
      "Candidate has 3 years of professional experience; the rule requires at least 5 years. This does not meet the requirement."
      (Observed.number 3)

five_years_run : (evaluate {S = NoJudge} five_years applicant none tt).0 ≡ ok fails
unfolding evaluate fields leaf_compare compare_numbers show_nat
five_years_run = refl

both-IsEvaluable : IsEvaluable both (Subject.whole applicant)
unfolding IsEvaluable evaluate fields leaf_compare compare_numbers show_nat
both-IsEvaluable = (tt, ((fails, refl), tt))

pub five_years-IsEvaluable : IsEvaluable five_years (Subject.whole applicant)
unfolding IsEvaluable
five_years-IsEvaluable = both-IsEvaluable.1.0

evaluate-kleene_example :
    (v : Verdict ℕ) × ((evaluate both applicant (some counting_judge) 0).0 ≡ ok v)
    × (v.value ≡ kleene both says_yes (Subject.whole applicant))
evaluate-kleene_example =
    evaluate-kleene both applicant (some counting_judge) says_yes both-IsEvaluable
      (λ q s. (_, refl, refl)) 0

five_years_run_in :
    (evaluate_in {S = ℕ} five_years (Subject.whole applicant) (some counting_judge) 0).0 ≡ ok fails
unfolding evaluate fields leaf_compare compare_numbers show_nat
five_years_run_in = refl

decided_without_judge_example :
    (w : Verdict ℕ) × ((evaluate five_years applicant (some counting_judge) 0).0 ≡ ok w)
    × (w.value ≡ some false)
decided_without_judge_example =
    decided_without_judge five_years applicant counting_judge says_yes false fails 0
      five_years-IsEvaluable (λ q s. (_, refl, refl)) five_years_run refl

five_years_asks_nothing : has_ask five_years ≡ false
unfolding has_ask
five_years_asks_nothing = refl

-- The ASK stands first, and yet no question is put.
and_asks_no_judge_example :
    (evaluate_in both (Subject.whole applicant) (some counting_judge) 0).1 ≡ 0
and_asks_no_judge_example =
    and_asks_no_judge (two question five_years) (Subject.whole applicant) (some counting_judge) 0
      (inr (inl (five_years_asks_nothing, fails, five_years_run_in, refl)))

-- role_count >= 2
abbrev two_roles : Expr ℕ
two_roles = Expr.compare "role_count" Comparator.ge (Value.number 2)

abbrev holds : Verdict ℕ
holds =
    verdict (some true)
      "Candidate lists 2 roles; the rule requires at least 2. This meets the requirement."
      (Observed.number 2)

two_roles_run :
    (evaluate_in {S = ℕ} two_roles (Subject.whole applicant) (some counting_judge) 0).0 ≡ ok holds
unfolding evaluate fields leaf_compare compare_numbers show_nat list_count
two_roles_run = refl

two_roles_asks_nothing : has_ask two_roles ≡ false
unfolding has_ask
two_roles_asks_nothing = refl

or_asks_no_judge_example :
    (evaluate_in
      (Expr.or (two question two_roles))
      (Subject.whole applicant)
      (some counting_judge)
      0).1
    ≡ 0
or_asks_no_judge_example =
    or_asks_no_judge (two question two_roles) (Subject.whole applicant) (some counting_judge) 0
      (inr (inl (two_roles_asks_nothing, holds, two_roles_run, refl)))

-- One role matches, and two could not be assessed.
abbrev partly_judged : Judged ℕ
partly_judged =
    (Item.role engineer, verdict (some true) "" Observed.nothing)
    ∷ (Item.role helper, verdict none "" Observed.nothing)
    ∷ (Item.role helper, verdict none "" Observed.nothing)
    ∷ []

count_decided :
    (count_verdict role_record "COUNT(role)" partly_judged Comparator.ge 1).value ≡ some true
unfolding count_verdict compare_numbers
count_decided = refl

count_verdict_sound_example : compare_numbers {F = ℕ} 2 Comparator.ge 1 ≡ true
count_verdict_sound_example =
    count_verdict_sound whole_numbers-CountLaws role_record "COUNT(role)" partly_judged 1
      Comparator.ge true 2 tt (omega arith) (omega arith) (omega arith) count_decided

count_eq_ignores_unassessed_example :
    ((count_verdict role_record "COUNT(role)" partly_judged Comparator.eq 2).value ≡ some false)
    × (compare_numbers {F = ℕ} 2 Comparator.eq 2 ≡ true)
count_eq_ignores_unassessed_example =
    count_eq_ignores_unassessed whole_numbers-CountLaws role_record "COUNT(role)" partly_judged 2
      (omega arith) (omega arith) (omega arith)

abbrev rule_set : RuleSet ℕ
rule_set = record {
  rules =
      rule_of "r1" RuleVerdict.applicable ClauseKind.require both
      ∷ rule_of "r2" RuleVerdict.applicable ClauseKind.prefer five_years
      ∷ rule_of "r3" RuleVerdict.risky ClauseKind.require five_years
      ∷ [];
  reasoning = none;
  source_plan = none;
}

screen-decides_example :
    (r : ScreeningResult ℕ) × ((screen applicant rule_set (some counting_judge) 0).0 ≡ ok r)
    × (eligible r ≡ not (any (decides says_yes applicant is_no) rule_set.rules))
    × (needs_manual_review r ≡ any (decides says_yes applicant is_unknown) rule_set.rules)
screen-decides_example =
    screen-decides says_yes applicant (some counting_judge) (λ q s. (_, refl, refl)) rule_set 0
      (both-IsEvaluable, (tt, (tt, tt)))

screen-requirements_example :
    screen applicant rule_set (some counting_judge) 0
    ≡ screen applicant
        (record rule_set { rules = filter screens rule_set.rules })
        (some counting_judge)
        0
screen-requirements_example = screen-requirements applicant (some counting_judge) rule_set 0
