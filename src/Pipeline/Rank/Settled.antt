-- ===== src/Pipeline/Rank/Settled.antt =====
-- rescan/pipeline/rank.py: a score accounts for every criterion, whatever the model left out.
use rescan.Prelude.{
  ◌≡◌, refl, ◌∙◌, ap, sym, subst, ◌⊎◌, or_default, String, Bool, true, false, Option, none, some,
  List, [], ◌∷◌, map, All, arith, Option-cases, inl, inr, if_elim, if◌then◌else◌,
}
use rescan.Prelude.Float.{FloatOps}
use rescan.Prelude.Text.{str_eq, eq_iff}
use rescan.Prelude.Result.{bind-ok, ok, Exec, ◌>>=◌}
use rescan.Schemas.{AnonymizedProfile, CriterionScore, RoleSpec, CandidateScore, PassName}
use rescan.Dsl.Verdict.{Verdict}
use rescan.Dsl.Ast.{Clause}
use rescan.Dsl.Eval.Evaluate.{JudgeLike, Subject, evaluate}
use rescan.Dsl.Eval.Kleene.Denote.{Answers}
use rescan.Dsl.Eval.Kleene.Refines.{evaluate-kleene}
use rescan.Rules.Engine.Eligible.{ClauseEvaluable}
use rescan.Pipeline.Rank.Score.{
  RankResponse, answered, RankClient, Decided, put, get, decide, decide_loop, to_model, ScoredEntry,
  model_score, final_score, returned_of, ask_model, combine, score_candidate,
}
use rescan.Pipeline.Rank.Criteria.{Criterion}

-- The client answers with a response, from every state.
abbrev pub AlwaysAnswers : {S F : Type 0} → RankClient S F → Type 0
AlwaysAnswers {S} {F} client =
    (p : AnonymizedProfile F) (role : RoleSpec F) (cs : List (Criterion F)) (s : S)
    → (r : RankResponse F) × ((client p role cs s).0 ≡ ok (answered r))

pub get_cases :
    {A : Type 0} (b : Bool) (w v : A) (o : Option A)
    → (if b then some w else o) ≡ some v
    → ((b ≡ true) × (w ≡ v)) ⊎ (o ≡ some v)
get_cases true w v o h = inl (refl, ap (λ x. or_default x w) h)
get_cases false w v o h = inr h

module _ {F : Type 0} where
  -- each decided score is that of the criterion it is kept under
  KeysAgree : Decided F → Type 0
  KeysAgree d = All (λ kv. CriterionScore.criterion kv.1 ≡ kv.0) d

  put-KeysAgree :
      (k : String) (v : CriterionScore F) (d : Decided F)
      → v.criterion ≡ k
      → KeysAgree d
      → KeysAgree (put k v d)
  unfolding KeysAgree
  put-KeysAgree k v [] h t = (h, tt)
  put-KeysAgree k v ((j, w) ∷ d) h (e, t) =
      if_elim KeysAgree (str_eq j k) (λ same. (h ∙ sym ((eq_iff j k).0 same), t))
        (λ _. (e, put-KeysAgree k v d h t))

  get-KeysAgree :
      (k : String) (d : Decided F)
      → KeysAgree d
      → (v : CriterionScore F) → get k d ≡ some v
      → v.criterion ≡ k
  unfolding KeysAgree
  get-KeysAgree k [] t v h = ground (arith, h)
  get-KeysAgree k ((j, w) ∷ d) (e, t) v h = elim (get_cases (str_eq j k) w v (get k d) h) [
    | inl (same, found) ↦ ap (λ x. CriterionScore.criterion x) (sym found) ∙ e ∙ (eq_iff j k).0 same
    | inr found ↦ get-KeysAgree k d t v found
  ]

module _ {F : Type 0} ⦃fl : FloatOps F⦄ where
  abbrev pub CriteriaEvaluable : AnonymizedProfile F → List (Criterion F) → Type 0
  CriteriaEvaluable p cs = All (λ c. ClauseEvaluable p (Criterion.clause c)) cs

  decide-KeysAgree :
      (c : Criterion F) (v : Verdict F) (d : Decided F) → KeysAgree d → KeysAgree (decide c v d)
  decide-KeysAgree c v d t = elim (Option-cases v.value) [
    | inl e ↦ rw e t
    | inr (b, e) ↦ rw e (put-KeysAgree c.key _ d refl t)
  ]

  final_score-criterion :
      (all : List (Criterion F)) (d : Decided F) (es : List (ScoredEntry F)) (c : Criterion F)
      → KeysAgree d
      → CriterionScore.criterion (final_score all d es c) ≡ c.key
  final_score-criterion all d es c t = elim (Option-cases (get c.key d)) [
    | inl e ↦ rw (e, final_score) (by_model (returned_of es none c.key))
    | inr (v, e) ↦ rw (e, final_score) (get-KeysAgree c.key d t v e)
  ]
    where
      by_model :
          (o : Option (ScoredEntry F)) → CriterionScore.criterion (model_score all c o) ≡ c.key
      by_model none = refl
      by_model (some e) = refl

  final_scores-criteria :
      (all cs : List (Criterion F)) (d : Decided F) (es : List (ScoredEntry F))
      → KeysAgree d
      → map (λ s. CriterionScore.criterion s) (map (final_score all d es) cs)
        ≡ map (λ c. Criterion.key c) cs
  final_scores-criteria all [] d es t = refl
  final_scores-criteria all (c ∷ cs) d es t =
      λ i. final_score-criterion all d es c t i ∷ final_scores-criteria all cs d es t i

module _ {S F : Type 0} ⦃fl : FloatOps F⦄ where
  decide_loop-cons :
      (c : Criterion F) (cs : List (Criterion F)) (p : AnonymizedProfile F)
      (j : Option (JudgeLike S F)) (d : Decided F) (clause : Clause F)
      → c.clause ≡ some clause
      → decide_loop (c ∷ cs) p j d
        ≡ (evaluate clause.expr p j >>= λ v. decide_loop cs p j (decide c v d))
  unfolding decide_loop
  decide_loop-cons c cs p j d clause e =
      ap
        (λ o. elim o as (λ _. Exec S (Decided F)) [
          | none ↦ decide_loop cs p j d
          | some cl ↦ evaluate cl.expr p j >>= λ v. decide_loop cs p j (decide c v d)
        ])
        e

module _ {S F : Type 0} ⦃fl : FloatOps F⦄ (answers : String → Option Bool) (p : AnonymizedProfile F)
    (j : Option (JudgeLike S F)) (honest : Answers j (Subject.whole p) answers) where
  decide_loop-value :
      (cs : List (Criterion F)) (d : Decided F) (s : S)
      → CriteriaEvaluable p cs
      → KeysAgree d
      → (d' : Decided F) × ((decide_loop cs p j d s).0 ≡ ok d') × KeysAgree d'
  unfolding decide_loop
  decide_loop-value [] d s h t = (d, refl, t)
  decide_loop-value (c ∷ cs) d s (h, hs) t = elim (Option-cases c.clause) [
    | inl e ↦ rw e (decide_loop-value cs d s hs t)
    | inr (clause, e) ↦
        let (v, k, _) =
          evaluate-kleene clause.expr p j answers (subst (ClauseEvaluable p) e h) honest s in
        let (d', l, t') =
          decide_loop-value cs (decide c v d) (evaluate clause.expr p j s).1 hs
            (decide-KeysAgree c v d t) in
        (
          d',
          ap (λ m. (m s).0) (decide_loop-cons c cs p j d clause e)
              ∙ ap (λ r. r.0)
                  (bind-ok (evaluate clause.expr p j) (λ v. decide_loop cs p j (decide c v d)) s k)
              ∙ l,
          t',
        )
  ]

  ask_model-value :
      (client : RankClient S F) (role : RoleSpec F) (cs : List (Criterion F)) (s : S)
      → AlwaysAnswers client
      → (r : RankResponse F) × ((ask_model client p role cs s).0 ≡ ok r)
  unfolding ask_model
  ask_model-value client role [] s h = (_, refl)
  ask_model-value client role (c ∷ cs) s h = let (r, e) = h p role (c ∷ cs) s in (r, rw e refl)

  -- If no criterion's clause raises on the profile, the judge answers each question alike and the
  -- model always answers, a candidate's score is returned, and it names every criterion, in order:
  -- one that the model skipped is scored too, and none is dropped.
  pub score_candidate-criteria :
      (client : RankClient S F) (role : RoleSpec F) (cs : List (Criterion F)) (pass : PassName)
      (s : S)
      → CriteriaEvaluable p cs
      → AlwaysAnswers client
      → (x : CandidateScore F) × ((score_candidate p role client cs pass j s).0 ≡ ok x)
        × (map (λ c. CriterionScore.criterion c) x.criteria ≡ map (λ c. Criterion.key c) cs)
  unfolding score_candidate KeysAgree
  score_candidate-criteria client role cs pass s h answers_all =
      let (d, e, t) = decide_loop-value cs [] s h tt in
      let next = (decide_loop cs p j [] s).1 in
      let (r, k) = ask_model-value client role (to_model cs d) next answers_all in
      (
        combine p cs pass d r,
        rw (bind-ok (decide_loop cs p j []) _ s e)
            (rw (bind-ok (ask_model client p role (to_model cs d)) _ next k)),
        final_scores-criteria cs cs d r.entries t,
      )
