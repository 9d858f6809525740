-- ===== src/Pipeline/Rank/Select.antt =====
-- rescan/pipeline/rank.py: `triage_rank`, `borderline_refs` and `build_shortlist`. The size and the
-- margin are arguments: the settings supply them where a caller does not.
use rescan.Prelude.{
  ℕ, zero, suc, String, Bool, not, Option, none, some, List, [], ◌∷◌, map, filter, if◌then◌else◌,
  leb, length, take, drop,
}
use rescan.Prelude.Float.{FloatOps, abs}
use rescan.Prelude.Text.{member}
use rescan.Prelude.Result.{Exec, pure, ◌>>=◌}
use rescan.Schemas.{
  AnonymizedProfile, RoleSpec, CandidateScore, PassName, ShortlistEntry, Exclusion, ReviewNote,
  Shortlist,
}
use rescan.Dsl.Eval.Evaluate.{JudgeLike}
use rescan.Rules.Engine.{
  ScreeningResult, failed, indeterminate, eligible, needs_manual_review, exclusion_reasons,
}
use rescan.Pipeline.Rank.Score.{RankClient, score_candidate}
use rescan.Pipeline.Rank.Criteria.{Criterion}
use rescan.Pipeline.Rank.Order.{by_score}

-- xs[n], if there is one
abbrev pub nth : {A : Type 0} → ℕ → List A → Option A
nth n [] = none
nth zero (x ∷ xs) = some x
nth (suc n) (x ∷ xs) = nth n xs

module _ {F : Type 0} where
  -- the two branches of the loop over the screening results
  unfoldable pub exclusions : List (ScreeningResult F) → List Exclusion
  exclusions [] = []
  exclusions (r ∷ rs) =
      let rest = exclusions rs in
      if not (eligible r)
      then (record {
        candidate_ref = r.candidate_ref;
        reasons = exclusion_reasons r;
        failed_rules = map (λ o. o.source_text) (failed r);
      })
        ∷ rest
      else rest

  unfoldable pub review_notes : List (ScreeningResult F) → List ReviewNote
  review_notes [] = []
  review_notes (r ∷ rs) =
      let rest = review_notes rs in
      if not (eligible r)
      then rest
      else if needs_manual_review r
      then (record {
        candidate_ref = r.candidate_ref;
        reasons = map (λ o. o.reason) (indeterminate r);
      })
        ∷ rest
      else rest

module _ {F : Type 0} ⦃fl : FloatOps F⦄ where
  unfoldable pub score_all :
      {S : Type 0}
      → List (AnonymizedProfile F)
      → RoleSpec F
      → RankClient S F
      → List (Criterion F)
      → Option (JudgeLike S F)
      → Exec S (List (CandidateScore F))
  score_all [] role client cs judge = pure []
  score_all (p ∷ ps) role client cs judge =
      score_candidate p role client cs PassName.triage judge >>= λ s.
      score_all ps role client cs judge >>= λ ss. pure (s ∷ ss)

  unfoldable pub triage_rank :
      {S : Type 0}
      → List (AnonymizedProfile F)
      → RoleSpec F
      → RankClient S F
      → List (Criterion F)
      → Option (JudgeLike S F)
      → Exec S (List (CandidateScore F))
  unfolding score_all
  triage_rank ps role client cs judge =
      score_all ps role client cs judge >>= λ ss. pure (by_score ss)

  -- abs(s.score - cutoff) <= margin
  abbrev pub is_near : F → F → CandidateScore F → Bool
  is_near cutoff margin s = fl.le (abs (fl.sub s.score cutoff)) margin

  abbrev pub near_refs : Option (CandidateScore F) → F → List (CandidateScore F) → List String
  near_refs none margin ss = []
  near_refs (some c) margin ss =
      map (λ s. CandidateScore.candidate_ref s) (filter (is_near c.score margin) ss)

  -- with `size <= 0` for `size = 0`: sizes are natural numbers
  unfoldable pub borderline_refs : List (CandidateScore F) → ℕ → F → List String
  borderline_refs ss zero margin = []
  borderline_refs ss (suc n) margin =
      if leb (length ss) (suc n) then [] else near_refs (nth n (by_score ss)) margin (by_score ss)

  abbrev pub entry : List String → CandidateScore F → ℕ → ShortlistEntry F
  entry borderline s rank = record {
    rank = rank;
    candidate_ref = s.candidate_ref;
    score = s.score;
    rationale = s.rationale;
    borderline = member s.candidate_ref borderline;
    criteria = s.criteria;
  }

  -- [entry(score, index) for index, score in enumerate(ss, start=n)]
  abbrev pub entries_from : List String → ℕ → List (CandidateScore F) → List (ShortlistEntry F)
  entries_from borderline n [] = []
  entries_from borderline n (s ∷ ss) = entry borderline s n ∷ entries_from borderline (suc n) ss

  unfoldable pub build_shortlist :
      List (CandidateScore F) → RoleSpec F → ℕ → F → List (ScreeningResult F) → Shortlist F
  build_shortlist ss role size margin screening =
      let ordered = by_score ss in
      let borderline = borderline_refs ordered size margin in
      record {
        role_title = role.title;
        entries = entries_from borderline 1 (take size ordered);
        below_cutoff = entries_from borderline (suc size) (drop size ordered);
        excluded = exclusions screening;
        manual_review = review_notes screening;
      }
