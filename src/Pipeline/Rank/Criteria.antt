-- ===== src/Pipeline/Rank/Criteria.antt =====
-- rescan/pipeline/rank.py: the criteria of a job, and `criteria_for`.
use rescan.Prelude.{String, Option, none, some, List, [], ◌∷◌, if◌then◌else◌}
use rescan.Prelude.Float.{FloatOps}
use rescan.Prelude.Text.{is_empty}
use rescan.Dsl.Ast.{Clause, to_dsl}
use rescan.Rules.Models.{ClassifiedRule, RuleSet, preferences}

pub record Criterion (F : Type 0) : Type 0 where
  pub key : String
  pub description : String
  pub weight : F
  pub clause : Option (Clause F)

-- `because or source_text or to_dsl()`
abbrev first_text : Option String → String → String → String
first_text none source d = if is_empty source then d else source
first_text (some b) source d = if is_empty b then (if is_empty source then d else source) else b

module _ {F : Type 0} ⦃fl : FloatOps F⦄ where
  -- 1.5
  abbrev one_and_a_half : F
  one_and_a_half = fl.div (fl.of_nat 3) (fl.of_nat 2)

  -- `ROLE_RELEVANCE`
  unfoldable pub role_relevance : Criterion F
  role_relevance = record {
    key = "role_relevance";
    description = "Prior roles resemble the role being filled.";
    weight = one_and_a_half;
    clause = none;
  }

  -- `DEFAULT_CRITERIA`
  unfoldable pub default_criteria : List (Criterion F)
  default_criteria =
      record {
        key = "required_skills";
        description = "Holds the skills the role requires.";
        weight = fl.of_nat 3;
        clause = none;
      }
      ∷ record {
        key = "experience_depth";
        description = "Depth of relevant professional experience.";
        weight = fl.of_nat 2;
        clause = none;
      }
      ∷ role_relevance
      ∷ record {
        key = "desirable_skills";
        description = "Holds skills that are desirable but not required.";
        weight = fl.of_nat 1;
        clause = none;
      }
      ∷ record {
        key = "qualification";
        description = "Qualification level against the role's requirement.";
        weight = fl.of_nat 1;
        clause = none;
      }
      ∷ []

  abbrev pub criterion_of : ClassifiedRule F → Clause F → Criterion F
  criterion_of rule c = record {
    key = rule.id;
    description = first_text c.because rule.source_text (to_dsl c.expr);
    weight = c.weight;
    clause = some c;
  }

  abbrev pub preference_criteria : List (ClassifiedRule F) → List (Criterion F)
  preference_criteria [] = []
  preference_criteria (rule ∷ rules) = elim rule.clause [
    | none ↦ preference_criteria rules
    | some c ↦ criterion_of rule c ∷ preference_criteria rules
  ]

  abbrev append_relevance : List (Criterion F) → List (Criterion F)
  append_relevance [] = role_relevance ∷ []
  append_relevance (c ∷ cs) = c ∷ append_relevance cs

  unfoldable pub criteria_for : Option (RuleSet F) → List (Criterion F)
  criteria_for none = default_criteria
  criteria_for (some rs) = elim (preference_criteria (preferences rs)) [
    | [] ↦ default_criteria
    | c ∷ cs ↦ append_relevance (c ∷ cs)
  ]
