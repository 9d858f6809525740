-- ===== src/Rules/Engine/Eligible.antt =====
-- Who is excluded and who goes to a person: exactly when some applied requirement is definitely
-- false, or cannot be determined.
use rescan.Prelude.{
  ◌≡◌, refl, ◌∙◌, ap, String, Bool, true, false, not, ◌||◌, Option, none, some, List, [], ◌∷◌,
  arith, any, filter, if◌then◌else◌, Option-cases, inl, inr, is_some,
}
use rescan.Prelude.Float.{FloatOps}
use rescan.Prelude.Result.{bind-ok, Result, ok, Exec, ◌>>=◌, pure, err, continue}
use rescan.Schemas.{AnonymizedProfile}
use rescan.Dsl.Ast.{Clause, ClauseKind}
use rescan.Dsl.Eval.Records.{is_no, is_unknown}
use rescan.Dsl.Eval.Evaluate.{JudgeLike, Subject, evaluate}
use rescan.Dsl.Eval.Kleene.Denote.{kleene, IsEvaluable, Answers}
use rescan.Dsl.Eval.Kleene.Refines.{evaluate-kleene}
use rescan.Rules.Models.{
  ClassifiedRule, RuleOutcome, RuleSet, RuleVerdict, is_applicable, is_require,
}
use rescan.Rules.Engine.{
  ScreeningResult, filter_clause, outcome, evaluate_rule, apply_clause, add_outcome, screen_rules,
  screen, failed, indeterminate, eligible, needs_manual_review, is_nonempty,
}

module _ {F : Type 0} ⦃fl : FloatOps F⦄ (answers : String → Option Bool)
    (p : AnonymizedProfile F) where
  -- Whether the value of the applied requirement of a rule passes the test, if the rule has one.
  abbrev clause_decides : (Option Bool → Bool) → Option (Clause F) → Bool
  clause_decides test none = false
  clause_decides test (some c) = test (kleene c.expr answers (Subject.whole p))

  abbrev pub decides : (Option Bool → Bool) → ClassifiedRule F → Bool
  decides test r = clause_decides test (filter_clause r)

abbrev pub ClauseEvaluable :
    {F : Type 0} ⦃fl : FloatOps F⦄ → AnonymizedProfile F → Option (Clause F) → Type 0
ClauseEvaluable p none = Unit
ClauseEvaluable p (some c) = IsEvaluable c.expr (Subject.whole p)

-- No applied requirement raises on the profile.
abbrev pub RulesEvaluable :
    {F : Type 0} ⦃fl : FloatOps F⦄ → AnonymizedProfile F → List (ClassifiedRule F) → Type 0
RulesEvaluable p [] = Unit
RulesEvaluable p (r ∷ rs) = ClauseEvaluable p (filter_clause r) × RulesEvaluable p rs

passes : {F : Type 0} → (Option Bool → Bool) → Option (RuleOutcome F) → Bool
passes test none = false
passes test (some o) = test o.passed

any-add :
    {F : Type 0} ⦃fl : FloatOps F⦄ (test : Option Bool → Bool) (o : Option (RuleOutcome F))
    (os : List (RuleOutcome F))
    → any (λ o'. test o'.passed) (add_outcome o os)
      ≡ (passes test o || any (λ o'. test o'.passed) os)
unfolding passes
any-add test none os = refl
any-add test (some o) os = refl

nonempty-filter :
    {A : Type 0} (test : A → Bool) (xs : List A) → is_nonempty (filter test xs) ≡ any test xs
nonempty-filter test [] = refl
nonempty-filter test (x ∷ xs) = ground (arith, nonempty-filter test xs)

module _ {S F : Type 0} ⦃fl : FloatOps F⦄ (answers : String → Option Bool) (p : AnonymizedProfile F)
    (j : Option (JudgeLike S F)) (honest : Answers j (Subject.whole p) answers) where
  apply_clause-value :
      (r : ClassifiedRule F) (c : Option (Clause F)) (s : S)
      → ClauseEvaluable p c
      → (o : Option (RuleOutcome F)) × ((apply_clause r c p j s).0 ≡ ok o)
        × ((test : Option Bool → Bool) → passes test o ≡ clause_decides answers p test c)
  unfolding apply_clause passes
  apply_clause-value r none s h = (none, refl, λ test. refl)
  apply_clause-value r (some c) s h =
      let (v, e, k) = evaluate-kleene c.expr p j answers h honest s in
      (some (outcome r c v), rw (bind-ok (evaluate c.expr p j) _ s e), λ test. ap test k)

  screen_rules-value :
      (rs : List (ClassifiedRule F)) (s : S)
      → RulesEvaluable p rs
      → (os : List (RuleOutcome F)) × ((screen_rules rs p j s).0 ≡ ok os)
        × ((test : Option Bool → Bool)
            → any (λ o. test o.passed) os ≡ any (decides answers p test) rs)
  unfolding screen_rules evaluate_rule
  screen_rules-value [] s h = ([], refl, λ test. refl)
  screen_rules-value (r ∷ rs) s (h, hs) =
      let (o, e, k) = apply_clause-value r (filter_clause r) s h in
      let (os, d, ks) = screen_rules-value rs (evaluate_rule r p j s).1 hs in
      (
        add_outcome o os,
        rw (bind-ok (evaluate_rule r p j) _ s e)
            (rw (bind-ok (screen_rules rs p j) _ (evaluate_rule r p j s).1 d)),
        λ test. any-add test o os ∙ (λ i. k test i || ks test i),
      )

  -- Screening returns a result: a candidate is ineligible exactly when some applied REQUIRE rule is
  -- definitely false of the profile, and is sent to manual review exactly when some such rule is
  -- unknown. It needs that no rule raises, and that the judge answers each question alike.
  pub screen-decides :
      (rs : RuleSet F) (s : S)
      → RulesEvaluable p rs.rules
      → (r : ScreeningResult F) × ((screen p rs j s).0 ≡ ok r)
        × (eligible r ≡ not (any (decides answers p is_no) rs.rules))
        × (needs_manual_review r ≡ any (decides answers p is_unknown) rs.rules)
  unfolding screen eligible failed needs_manual_review indeterminate
  screen-decides rs s h =
      let (os, d, ks) = screen_rules-value rs.rules s h in
      (
        record { candidate_ref = p.candidate_ref; outcomes = os },
        rw (bind-ok (screen_rules rs.rules p j) _ s d),
        ap not (nonempty-filter (λ o. is_no o.passed) os ∙ ks is_no),
        nonempty-filter (λ o. is_unknown o.passed) os ∙ ks is_unknown,
      )

abbrev pub requires : {F : Type 0} → Option (Clause F) → Bool
requires none = false
requires (some c) = elim c.kind [ ClauseKind.require ↦ true | ClauseKind.prefer ↦ false ]

-- A rule that screens: applicable, with a REQUIRE clause.
abbrev pub screens : {F : Type 0} → ClassifiedRule F → Bool
screens r = elim r.verdict [
  | RuleVerdict.applicable ↦ requires r.clause
  | RuleVerdict.risky ↦ false
  | RuleVerdict.unmappable ↦ false
]

screens-filter_clause : {F : Type 0} (r : ClassifiedRule F) → screens r ≡ is_some (filter_clause r)
screens-filter_clause r = chosen r.verdict r.clause
  where
    kind :
        {F : Type 0} (k : ClauseKind) (c : Clause F)
        → elim k [ ClauseKind.require ↦ true | ClauseKind.prefer ↦ false ]
          ≡ is_some (if is_require k then some c else none)
    kind ClauseKind.require c = refl
    kind ClauseKind.prefer c = refl

    chosen :
        {F : Type 0} (v : RuleVerdict) (o : Option (Clause F))
        → elim v [
          | RuleVerdict.applicable ↦ requires o
          | RuleVerdict.risky ↦ false
          | RuleVerdict.unmappable ↦ false
        ]
          ≡ is_some (
              if is_applicable v
              then elim o [ none ↦ none | some c ↦ if is_require c.kind then some c else none ]
              else none)
    chosen RuleVerdict.applicable none = refl
    chosen RuleVerdict.applicable (some c) = kind c.kind c
    chosen RuleVerdict.risky o = refl
    chosen RuleVerdict.unmappable o = refl

pass_on : {S A : Type 0} (m : Exec S A) (s : S) → (m >>= λ a. pure a) s ≡ m s
pass_on m s = continue-pure (m s).0 (m s).1
  where
    continue-pure : {S A : Type 0} (r : Result A) (s : S) → continue r (λ a. pure a) s ≡ (r, s)
    continue-pure (ok a) s = refl
    continue-pure (err e) s = refl

module _ {S F : Type 0} ⦃fl : FloatOps F⦄ (p : AnonymizedProfile F)
    (j : Option (JudgeLike S F)) where
  skip_rule :
      (r : ClassifiedRule F) (rs : List (ClassifiedRule F)) (s : S)
      → filter_clause r ≡ none
      → screen_rules (r ∷ rs) p j s ≡ screen_rules rs p j s
  unfolding screen_rules evaluate_rule
  skip_rule r rs s e = rw e (pass_on (screen_rules rs p j) s)

  keep_rule :
      (r : ClassifiedRule F) (rs qs : List (ClassifiedRule F)) (s : S)
      → ((t : S) → screen_rules rs p j t ≡ screen_rules qs p j t)
      → screen_rules (r ∷ rs) p j s ≡ screen_rules (r ∷ qs) p j s
  unfolding screen_rules
  keep_rule r rs qs s h =
      λ i. (evaluate_rule r p j >>= λ o. (λ t. h t i) >>= λ os. pure (add_outcome o os)) s

  screen_rules-filter :
      (rs : List (ClassifiedRule F)) (s : S)
      → screen_rules rs p j s ≡ screen_rules (filter screens rs) p j s
  screen_rules-filter [] s = refl
  screen_rules-filter (r ∷ rs) s = elim (Option-cases (filter_clause r)) [
    | inl e ↦ rw (screens-filter_clause r, e) (skip_rule r rs s e ∙ screen_rules-filter rs s)
    | inr (c, e) ↦
        rw (screens-filter_clause r, e)
          (keep_rule r rs (filter screens rs) s (screen_rules-filter rs))
  ]

  -- Only applied REQUIRE rules screen: without the preferences, the risky and the unmappable rules
  -- a rule set gives the same result and the same model calls.
  pub screen-requirements :
      (rs : RuleSet F) (s : S)
      → screen p rs j s ≡ screen p (record rs { rules = filter screens rs.rules }) j s
  unfolding screen
  screen-requirements rs s = λ i.
      ((λ t. screen_rules-filter rs.rules t i) >>= λ os.
      pure (record { candidate_ref = p.candidate_ref; outcomes = os }))
        s
