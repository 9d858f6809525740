-- ===== src/Runner/Outcomes.antt =====
-- rescan/pipeline/runner.py: the outcome of a screening.
use rescan.Prelude.{◌≢◌, ◌⊎◌, ◌≡◌, refl, true, false, List, [], ◌∷◌, inl, inr}
use rescan.Schemas.{CandidateOutcome}
use rescan.Rules.Engine.{
  ScreeningResult, is_nonempty, failed, indeterminate, eligible, needs_manual_review,
}
use rescan.Runner.Screening.{outcome_of}

-- excluded where a rule failed, sent to manual review where none failed and one could not be
-- decided, and eligible where each rule passed
abbrev pub OutcomeFits : {F : Type 0} → ScreeningResult F → CandidateOutcome → Type 0
OutcomeFits r CandidateOutcome.excluded = failed r ≢ []
OutcomeFits r CandidateOutcome.needs_manual_review = (failed r ≡ []) × (indeterminate r ≢ [])
OutcomeFits r CandidateOutcome.eligible = (failed r ≡ []) × (indeterminate r ≡ [])

some_or_none :
    {A : Type 0} (xs : List A)
    → ((xs ≢ []) × (is_nonempty xs ≡ true)) ⊎ ((xs ≡ []) × (is_nonempty xs ≡ false))
some_or_none [] = inr (refl, refl)
some_or_none (x ∷ xs) = inl (λ h. absurd (cc h), refl)

pub outcome_of-OutcomeFits : {F : Type 0} (r : ScreeningResult F) → OutcomeFits r (outcome_of r)
unfolding outcome_of eligible needs_manual_review
outcome_of-OutcomeFits r = elim (some_or_none (failed r)) [
  | inl (fails, some_fail) ↦ rw some_fail fails
  | inr (none_fails, no_fail) ↦ elim (some_or_none (indeterminate r)) [
    | inl (unsure, some_open) ↦ rw (no_fail, some_open) (none_fails, unsure)
    | inr (sure, no_open) ↦ rw (no_fail, no_open) (none_fails, sure)
  ]
]
