-- ===== src/Tests/Ranking.antt =====
-- Scores, shortlists and a client that scores nothing.
use mathlib.Core.List.{Perm}
use rescan.Prelude.{
  count_from, ℕ, ◌≡◌, refl, ◌+◌, min, String, false, none, some, List, [], ◌∷◌, map, length, All,
  count_if,
}
use rescan.Prelude.Result.{ok, pure}
use rescan.Schemas.{CandidateScore, CriterionScore, PassName, RoleSpec, ShortlistEntry}
use rescan.Dsl.Ast.{ClauseKind}
use rescan.Rules.Models.{RuleVerdict}
use rescan.Rules.Engine.{ScreeningResult, outcome}
use rescan.Dsl.Eval.Leaf.{verdict}
use rescan.Dsl.Verdict.{Observed}
use rescan.Pipeline.Rank.Score.{answered, RankClient, score_candidate}
use rescan.Pipeline.Rank.Criteria.{Criterion, criterion_of, role_relevance}
use rescan.Pipeline.Rank.Order.{by_score}
use rescan.Pipeline.Rank.Select.{borderline_refs, build_shortlist}
use rescan.Pipeline.Rank.Settled.{score_candidate-criteria}
use rescan.Pipeline.Rank.Shortlists.{
  places, said_of, scored, NeverRises, HasReasons, is_cleared, build_shortlist-places,
  build_shortlist-exclusions,
}
use rescan.Tests.Samples.{
  whole_numbers, whole_numbers-IsOrdered, applicant, counting_judge, says_yes, five_years, rule_of,
}
use rescan.Tests.Evaluation.{five_years-IsEvaluable}

abbrev pub role : RoleSpec ℕ
role = record {
  title = "Engineer";
  description = none;
  required_skills = "Python" ∷ [];
  desirable_skills = [];
  min_years_experience = none;
  min_aqf = none;
}

abbrev pub score_of : String → ℕ → CandidateScore ℕ
score_of ref score = record {
  candidate_ref = ref;
  score = score;
  criteria = [];
  rationale = "";
  model = "rules";
  pass_name = PassName.triage;
  ensemble_votes = [];
}

abbrev three : List (CandidateScore ℕ)
three = score_of "a" 5 ∷ score_of "b" 9 ∷ score_of "c" 5 ∷ []

-- equal scores keep their order
by_score_stable : by_score three ≡ score_of "b" 9 ∷ score_of "a" 5 ∷ score_of "c" 5 ∷ []
unfolding by_score
by_score_stable = refl

-- the candidates of the cutoff's score; the leader is too far above it
borderline_two : borderline_refs three 2 1 ≡ "a" ∷ "c" ∷ []
unfolding borderline_refs by_score
borderline_two = refl

abbrev screened : List (ScreeningResult ℕ)
screened =
    record {
      candidate_ref = "d";
      outcomes =
          outcome (rule_of "r1" RuleVerdict.applicable ClauseKind.require five_years)
            (record { kind = ClauseKind.require; expr = five_years; weight = 1; because = none })
            (verdict (some false) "3 years, below 5" Observed.nothing)
          ∷ [];
    }
    ∷ record { candidate_ref = "a"; outcomes = [] }
    ∷ []

build_shortlist-places_example :
    let s = build_shortlist three role 2 1 screened in
    Perm (map said_of (places s)) (map scored three)
    × (map (λ e. ShortlistEntry.rank e) (places s) ≡ count_from 1 (length three))
    × NeverRises (map (λ e. ShortlistEntry.score e) (places s))
    × (length s.entries ≡ min 2 (length three))
build_shortlist-places_example =
    build_shortlist-places whole_numbers-IsOrdered three role 2 1 screened

build_shortlist-exclusions_example :
    let s = build_shortlist three role 2 1 screened in
    All HasReasons s.excluded
    × (length s.excluded + (length s.manual_review + count_if is_cleared screened)
        ≡ length screened)
build_shortlist-exclusions_example = build_shortlist-exclusions three role 2 1 screened

-- a client that answers and scores nothing
abbrev silent : RankClient ℕ ℕ
silent p r cs = pure (answered (record { entries = []; rationale = ""; model = "m" }))

abbrev criteria : List (Criterion ℕ)
criteria =
    criterion_of (rule_of "r1" RuleVerdict.applicable ClauseKind.prefer five_years)
      (record { kind = ClauseKind.prefer; expr = five_years; weight = 1; because = none })
    ∷ role_relevance
    ∷ []

score_candidate-criteria_example :
    (x : CandidateScore ℕ) × ((score_candidate applicant role silent criteria PassName.triage
        (some counting_judge)
        0).0
      ≡ ok x)
    × (map (λ c. CriterionScore.criterion c) x.criteria ≡ map (λ c. Criterion.key c) criteria)
unfolding role_relevance
score_candidate-criteria_example =
    score_candidate-criteria says_yes applicant (some counting_judge) (λ q s. (_, refl, refl))
      silent role criteria PassName.triage 0 (five_years-IsEvaluable, (tt, tt))
      (λ p r cs s. (_, refl))
