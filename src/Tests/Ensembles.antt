-- ===== src/Tests/Ensembles.antt =====
-- An ensemble of which one member cannot be reached.
use mathlib.Core.List.{Perm}
use rescan.Prelude.{ℕ, ◌≡◌, refl, or_default, ◌==◌, if◌then◌else◌, none, some, List, [], ◌∷◌, map}
use rescan.Prelude.Result.{pure}
use rescan.Schemas.{CandidateScore}
use rescan.Pipeline.Rank.Score.{RankClient, llm_error, answered}
use rescan.Pipeline.Rank.Criteria.{role_relevance}
use rescan.Pipeline.Ensemble.{Member, median, ensemble_pass}
use rescan.Pipeline.Ensemble.Kept.{Returns, ensemble_pass-refs}
use rescan.Tests.Samples.{whole_numbers, applicant}
use rescan.Tests.Ranking.{role, score_of}

-- the member with the first seed fails
abbrev client : Member → RankClient ℕ ℕ
client (model, seed) p r cs =
    if or_default seed 0 == 11
    then pure (llm_error "timeout")
    else pure (
        answered (record {
          entries = record { criterion = "role_relevance"; score = some 1; evidence = "e" } ∷ [];
          rationale = "";
          model = "m";
        }))

abbrev scores : List (CandidateScore ℕ)
scores = score_of applicant.candidate_ref 0 ∷ score_of "z" 1 ∷ []

middle : median {F = ℕ} (5 ∷ 1 ∷ 9 ∷ []) ≡ 5
unfolding median
middle = refl

ensemble_pass-refs_example :
    Returns
      (λ out.
        Perm
          (map (λ s. CandidateScore.candidate_ref s) out)
          (map (λ s. CandidateScore.candidate_ref s) scores))
      (ensemble_pass scores
        ((applicant.candidate_ref, applicant) ∷ [])
        role
        client
        (applicant.candidate_ref ∷ [])
        1
        []
        (role_relevance ∷ [])
        none
        0).0
ensemble_pass-refs_example =
    ensemble_pass-refs ((applicant.candidate_ref, applicant) ∷ []) role client (role_relevance ∷ [])
      [] none scores (applicant.candidate_ref ∷ []) 1 0 (refl, tt)
