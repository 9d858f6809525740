-- ===== src/Tests/Samples.antt =====
-- A profile, rules and a judge for the tests; whole numbers stand for the floats.
use rescan.Prelude.{
  ℕ, suc, ◌+◌, ◌-◌, ◌*◌, ◌/◌, refl, String, Bool, true, false, Option, none, some, [], ◌∷◌, arith,
  ltb, leb, ◌==◌,
}
use rescan.Prelude.Float.{FloatOps, IsOrdered}
use rescan.Prelude.Text.{show_nat}
use rescan.Prelude.Result.{ok}
use rescan.Schemas.{AnonymizedProfile, Skill, Experience, WorkRightsStatus}
use rescan.Dsl.Ast.{Comparator, Value, Expr, Args, nil, cons, ClauseKind}
use rescan.Dsl.Verdict.{Observed}
use rescan.Dsl.Eval.Leaf.{verdict}
use rescan.Dsl.Eval.Evaluate.{JudgeLike}
use rescan.Dsl.Eval.Counts.{CountLaws}
use rescan.Rules.Models.{ClassifiedRule, RuleVerdict, RiskLevel}

instance abbrev pub whole_numbers : FloatOps ℕ
whole_numbers = record {
  lt = ltb;
  le = leb;
  eq = ◌==◌;
  add = ◌+◌;
  sub = ◌-◌;
  mul = ◌*◌;
  div = ◌/◌;
  round = λ x _. x;
  of_nat = λ n. n;
  of_text = λ _. none;
  show_fixed = λ n x. show_nat x;
  show_g = show_nat;
  show = show_nat;
}

pub whole_numbers-IsOrdered : IsOrdered whole_numbers
whole_numbers-IsOrdered = record {
  lt_irrefl = λ a. ground arith;
  lt_asymm = λ a b h. ground arith;
  ge_trans = λ a b c h k. ground arith;
}

pub whole_numbers-CountLaws : CountLaws whole_numbers 9
whole_numbers-CountLaws = record {
  of_nat_mono = λ a b h k. ground arith;
  le_trans = λ a b c h k. ground arith;
  eq_of_nat = λ a b h k. refl;
  lt_le_trans = λ a b c h k. ground arith;
  le_lt_trans = λ a b c h k. ground arith;
}

abbrev pub python : Skill ℕ
python = record {
  name = "Python";
  category = "technical";
  years = some 4;
  proficiency = none;
  evidence = none;
}

abbrev pub engineer : Experience ℕ
engineer = record {
  title = some "Senior Engineer";
  employer = some "Acme";
  start = none;
  end = none;
  is_current = true;
  months = some 30;
  summary = none;
  seniority = some "senior";
  industry = none;
  employment_type = none;
  team_size = none;
  technologies = [];
}

-- A role whose seniority the resume does not state.
abbrev pub helper : Experience ℕ
helper = record engineer {
  title = some "Helper";
  is_current = false;
  months = none;
  seniority = none;
}

abbrev pub applicant : AnonymizedProfile ℕ
applicant = record {
  candidate_ref = "Candidate 1";
  summary = none;
  skills = python ∷ [];
  experience = engineer ∷ helper ∷ [];
  total_years_experience = some 3;
  qualifications = [];
  institution_tiers = [];
  region = none;
  work_rights = record {
    status = WorkRightsStatus.unknown;
    visa_subclass = none;
    unrestricted = none;
    evidence = none;
  };
  languages = [];
  job_relevant_affiliations = [];
  certifications = [];
  projects = [];
  licences = [];
  security_clearance = none;
  management_years = none;
  people_managed_max = none;
  publications_count = none;
  availability_weeks = none;
  redactions = [];
}

-- years_experience >= 5
abbrev pub five_years : Expr ℕ
five_years = Expr.compare "years_experience" Comparator.ge (Value.number 5)

-- ANY role WHERE seniority IS senior
abbrev pub question : Expr ℕ
question = Expr.ask "Has the candidate led an incident response?"

abbrev pub two : Expr ℕ → Expr ℕ → Args ℕ
two a b = cons a (cons b nil)

-- The judge says yes, and counts the questions.
abbrev pub counting_judge : JudgeLike ℕ ℕ
counting_judge q p n = (ok (verdict (some true) "yes" Observed.nothing), suc n)

abbrev pub says_yes : String → Option Bool
says_yes q = some true

abbrev pub rule_of : String → RuleVerdict → ClauseKind → Expr ℕ → ClassifiedRule ℕ
rule_of id v k e = record {
  id = id;
  source_text = id;
  verdict = v;
  risk = RiskLevel.no_risk;
  findings = [];
  dsl = none;
  clause = some (record { kind = k; expr = e; weight = 1; because = none });
  kind = k;
  justification = none;
  legal_basis = [];
  notes = [];
}
