-- ===== src/Tests/Classifying.antt =====
-- Rules that a model has written, and a scan that finds accents.
use rescan.Prelude.{
  ℕ, suc, ◌≡◌, refl, String, ◌&&◌, Option, none, some, [], ◌∷◌, if◌then◌else◌, All,
}
use rescan.Prelude.Text.{contains}
use rescan.Rules.Models.{RuleSet, RiskLevel}
use rescan.Rules.Classifier.{ModelRule, overall_risk, scan_patterns}
use rescan.Rules.Classifier.Build.{answered, llm_error, RuleClient}
use rescan.Rules.Classifier.Plan.{compile_plan, split_plan}
use rescan.Rules.Classifier.Plans.{IsVettedRule, compile_plan-IsVettedRule}
use rescan.Tests.Samples.{whole_numbers}

abbrev pub find_accent : String → String → Option String
find_accent pattern text =
    if contains "accent" pattern && contains "accent" text then some "accent" else none

abbrev pub written : ModelRule
written = record {
  source_index = some 1;
  source_text = none;
  kind = some "prefer";
  dsl = some "REQUIRE has_current_role IS TRUE";
  risk = some "none";
  explanation = none;
  suggested_rewrite = none;
  protected_attributes = [];
  legal_basis = "FWA_351" ∷ [];
  justification = none;
}

-- a model that writes one rule and repairs nothing; the state counts its calls
abbrev pub one_rule : RuleClient ℕ
one_rule = record {
  compile = λ request n. (answered (record { rules = written ∷ []; reasoning = none }), suc n);
  repair = λ request n. (llm_error "offline", suc n);
}

accent_is_high : overall_risk (scan_patterns find_accent "no accent") ≡ RiskLevel.high
unfolding scan_patterns overall_risk contains
accent_is_high = refl

sentences :
    split_plan "Must have 3 years. Be kind;\n- leads teams\n2) ok\n"
    ≡ "Must have 3 years." ∷ "Be kind;" ∷ "leads teams" ∷ []
unfolding split_plan
sentences = refl

compile_plan-IsVettedRule_example :
    All
      (IsVettedRule ℕ find_accent one_rule)
      (RuleSet.rules (compile_plan find_accent one_rule none ("is employed" ∷ []) none 0).0)
compile_plan-IsVettedRule_example =
    compile_plan-IsVettedRule ℕ find_accent one_rule none ("is employed" ∷ []) none 0
