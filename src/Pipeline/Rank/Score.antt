-- ===== src/Pipeline/Rank/Score.antt =====
-- rescan/pipeline/rank.py: `score_candidate`. The model's client is a parameter:
-- it takes the criteria it is to score and answers with an error's text or with a response.
use rescan.Prelude.{
  String, Bool, true, false, Option, none, some, List, [], ◌∷◌, map, filter, if◌then◌else◌, not,
  is_some,
}
use rescan.Prelude.Float.{FloatOps, sum, max₂, min₂}
use rescan.Prelude.Text.{is_empty, str_eq, strip, concat, join}
use rescan.Prelude.Result.{Exec, pure, raise, PyError, ◌>>=◌}
use rescan.Schemas.{AnonymizedProfile, CriterionScore, RoleSpec, CandidateScore, PassName}
use rescan.Dsl.Verdict.{Verdict}
use rescan.Dsl.Eval.Evaluate.{JudgeLike, evaluate}
use rescan.Pipeline.Rank.Criteria.{Criterion}

-- one entry of the response's `criteria`; the score is `none` where `float(raw)` raises
pub record ScoredEntry (F : Type 0) : Type 0 where
  pub criterion : String
  pub score : Option F
  pub evidence : String

pub record RankResponse (F : Type 0) : Type 0 where
  pub entries : List (ScoredEntry F)
  pub rationale : String
  pub model : String

pub data RankAnswer (F : Type 0) : Type 0 where
  -- an LLMError, with its text
  llm_error : String → RankAnswer F
  answered : RankResponse F → RankAnswer F

abbrev pub RankClient : Type 0 → Type 0 → Type 0
RankClient S F = AnonymizedProfile F → RoleSpec F → List (Criterion F) → Exec S (RankAnswer F)

-- A dictionary in the order of insertion: a key that is there keeps its place.
abbrev pub put {ℓ} : {A : Type ℓ} → String → A → List (String × A) → List (String × A)
put k a [] = (k, a) ∷ []
put k a ((j, b) ∷ d) = let rest = put k a d in if str_eq j k then (j, a) ∷ d else (j, b) ∷ rest

abbrev pub get {ℓ} : {A : Type ℓ} → String → List (String × A) → Option A
get k [] = none
get k ((j, a) ∷ d) = if str_eq j k then some a else get k d

abbrev pub Decided : Type 0 → Type 0
Decided F = List (String × CriterionScore F)

module _ {F : Type 0} ⦃fl : FloatOps F⦄ where
  abbrev pub bool_score : Bool → F
  bool_score true = fl.of_nat 1
  bool_score false = fl.of_nat 0

  -- what a verdict decides of a criterion
  abbrev pub decide : Criterion F → Verdict F → Decided F → Decided F
  decide c v d = elim v.value [
    | none ↦ d
    | some b ↦
        put c.key
          (record {
            criterion = c.key;
            score = bool_score b;
            weight = c.weight;
            evidence = v.reason;
          })
          d
  ]

  -- the loop over the criteria that carry a clause
  unfoldable pub decide_loop :
      {S : Type 0}
      → List (Criterion F)
      → AnonymizedProfile F
      → Option (JudgeLike S F)
      → Decided F
      → Exec S (Decided F)
  decide_loop [] p j d = pure d
  decide_loop (c ∷ cs) p j d = elim c.clause [
    | none ↦ decide_loop cs p j d
    | some clause ↦ evaluate clause.expr p j >>= λ v. decide_loop cs p j (decide c v d)
  ]

  abbrev pub to_model : List (Criterion F) → Decided F → List (Criterion F)
  to_model cs d = filter (λ c. not (is_some (get c.key d))) cs

  -- {str(entry["criterion"]): entry}: a later entry replaces an earlier one
  abbrev pub returned_of :
      List (ScoredEntry F) → Option (ScoredEntry F) → String → Option (ScoredEntry F)
  returned_of [] found k = found
  returned_of (e ∷ es) found k = returned_of es (if str_eq e.criterion k then some e else found) k

  -- min(1.0, max(0.0, x))
  abbrev pub clamp : F → F
  clamp x = min₂ (fl.of_nat 1) (max₂ (fl.of_nat 0) x)

  abbrev pub weight_of : String → F → List (Criterion F) → F
  weight_of k w [] = w
  weight_of k w (c ∷ cs) = weight_of k (if str_eq c.key k then c.weight else w) cs

  abbrev pub clamped : Option F → F
  clamped none = fl.of_nat 0
  clamped (some x) = clamp x

  -- what the model's response scores a criterion; `all` are the criteria, for `by_key`
  abbrev pub model_score :
      List (Criterion F) → Criterion F → Option (ScoredEntry F) → CriterionScore F
  model_score all c none = record {
    criterion = c.key;
    score = fl.of_nat 0;
    weight = c.weight;
    evidence = "Not scored by the model; treated as no evidence.";
  }
  model_score all c (some e) = record {
    criterion = c.key;
    score = clamped e.score;
    weight = weight_of c.key c.weight all;
    evidence = if is_empty e.evidence then "No evidence supplied." else e.evidence;
  }

  abbrev pub final_score :
      List (Criterion F) → Decided F → List (ScoredEntry F) → Criterion F → CriterionScore F
  final_score all d es c = elim (get c.key d) [
    | some s ↦ s
    | none ↦ model_score all c (returned_of es none c.key)
  ]

  -- `sum(...) or 1.0`
  abbrev pub or_one : F → F
  or_one x = if fl.eq x (fl.of_nat 0) then fl.of_nat 1 else x

  unfoldable pub overall : List (Criterion F) → List (CriterionScore F) → F
  overall cs ss =
      fl.div (sum (map (λ s. fl.mul s.score s.weight) ss)) (or_one (sum (map (λ c. c.weight) cs)))

  abbrev description_of : String → String → List (Criterion F) → String
  description_of k text [] = text
  description_of k text (c ∷ cs) =
      description_of k (if str_eq c.key k then c.description else text) cs

  abbrev settled_text : List (Criterion F) → String × CriterionScore F → String
  settled_text cs (k, s) = concat (
      (if fl.eq s.score (fl.of_nat 0) then "not met" else "met")
      ∷ ": "
      ∷ description_of s.criterion "" cs
      ∷ [])

  unfoldable pub rationale_of : List (Criterion F) → Decided F → String → String
  rationale_of cs [] text = strip text
  rationale_of cs (k ∷ d) text = strip (
      concat (
        "Rule-decided criteria — "
        ∷ join "; " (map (settled_text cs) (k ∷ d))
        ∷ ". "
        ∷ strip text
        ∷ []))

  -- the model's answer, where a criterion is left to it
  unfoldable pub ask_model :
      {S : Type 0}
      → RankClient S F
      → AnonymizedProfile F
      → RoleSpec F
      → List (Criterion F)
      → Exec S (RankResponse F)
  ask_model client p role [] = pure (record { entries = []; rationale = ""; model = "rules" })
  ask_model client p role (c ∷ cs) = client p role (c ∷ cs) >>= λ answer. elim answer [
    | llm_error text ↦ raise (
        PyError.ranking_error (concat ("ranking failed for " ∷ p.candidate_ref ∷ ": " ∷ text ∷ [])))
    | answered response ↦ pure response
  ]

  -- the rest of `score_candidate`, once the model has answered
  unfoldable pub combine :
      AnonymizedProfile F
      → List (Criterion F)
      → PassName
      → Decided F
      → RankResponse F
      → CandidateScore F
  unfolding overall rationale_of
  combine p cs pass d response =
      let scores = map (final_score cs d response.entries) cs in
      record {
        candidate_ref = p.candidate_ref;
        score = fl.round (clamp (overall cs scores)) 4;
        criteria = scores;
        rationale = rationale_of cs d response.rationale;
        model = response.model;
        pass_name = pass;
        ensemble_votes = [];
      }

  unfoldable pub score_candidate :
      {S : Type 0}
      → AnonymizedProfile F
      → RoleSpec F
      → RankClient S F
      → List (Criterion F)
      → PassName
      → Option (JudgeLike S F)
      → Exec S (CandidateScore F)
  unfolding decide_loop ask_model combine
  score_candidate p role client cs pass judge = decide_loop cs p judge [] >>= λ d.
      ask_model client p role (to_model cs d) >>= λ response. pure (combine p cs pass d response)
