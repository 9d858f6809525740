-- ===== src/Pipeline/Ensemble.antt =====
-- rescan/pipeline/ensemble.py: the second scores of the borderline candidates. The thread pool runs
-- the candidates one after the other.
pub mod Kept
use rescan.Prelude.{
  ◌++◌, ℕ, zero, suc, ◌+◌, ◌-◌, ◌*◌, ◌/◌, ◌%◌, min, String, Bool, true, false, not, ◌&&◌, ◌||◌,
  Option, none, some, List, [], ◌∷◌, map, filter, if◌then◌else◌, is_some, length, count_if, ltb,
  or_default, ◌==◌,
}
use rescan.Prelude.Float.{FloatOps, abs}
use rescan.Prelude.Text.{concat, join, show_nat, strip}
use rescan.Prelude.Result.{
  Attempt, done, declined, Result, ok, err, PyError, Exec, pure, raise, ◌>>=◌,
}
use rescan.Schemas.{
  EnsembleVote, failed_vote, scored_vote, summary_vote, AnonymizedProfile, RoleSpec, CandidateScore,
  PassName,
}
use rescan.Dsl.Eval.Evaluate.{JudgeLike}
use rescan.Pipeline.Rank.Score.{RankClient, score_candidate, put, get}
use rescan.Pipeline.Rank.Criteria.{Criterion}
use rescan.Pipeline.Rank.Order.{by_score}
use rescan.Pipeline.Rank.Select.{nth}

-- a model and a seed
abbrev pub Member : Type 0
Member = Option String × Option ℕ

unfoldable pub ensemble_members : List String → List Member
ensemble_members [] = (none, some 11) ∷ (none, some 22) ∷ (none, some 33) ∷ []
ensemble_members (m ∷ ms) = map (λ model. (some model, none)) (m ∷ ms)

-- try … except RankingError
abbrev pub caught : {A : Type 0} → Result A → Result (Attempt A)
caught (ok a) = ok (done a)
caught (err (PyError.ranking_error text)) = ok (declined text)
caught (err e) = err e

abbrev pub attempt : {S A : Type 0} → Exec S A → Exec S (Attempt A)
attempt m s = let (r, s') = m s in (caught r, s')

-- ordered[min(size, len(ordered)) - 1]: with a size of 0 the index is -1, the last
abbrev cutoff_index : ℕ → ℕ → ℕ
cutoff_index zero len = len - 1
cutoff_index (suc n) len = min (suc n) len - 1

module _ {F : Type 0} ⦃fl : FloatOps F⦄ where
  -- the loop over the members, with what came of each
  unfoldable pub member_scores :
      {S : Type 0}
      → AnonymizedProfile F
      → RoleSpec F
      → (Member → RankClient S F)
      → List (Criterion F)
      → Option (JudgeLike S F)
      → List Member
      → Exec S (List (Member × Attempt (CandidateScore F)))
  member_scores p role client cs judge [] = pure []
  member_scores p role client cs judge (m ∷ ms) =
      attempt (score_candidate p role (client m) cs PassName.ensemble judge) >>= λ o.
      member_scores p role client cs judge ms >>= λ rest. pure ((m, o) ∷ rest)

  -- `results`
  unfoldable pub scored_of : List (Member × Attempt (CandidateScore F)) → List (CandidateScore F)
  scored_of [] = []
  scored_of ((m, done s) ∷ more) = s ∷ scored_of more
  scored_of ((m, declined text) ∷ more) = scored_of more

  unfoldable pub member_vote : F → Member × Attempt (CandidateScore F) → EnsembleVote F
  member_vote cutoff ((model, seed), declined text) = failed_vote model seed text
  member_vote cutoff ((model, seed), done s) =
      scored_vote s.model seed s.score (fl.le cutoff s.score) s.rationale

  -- sorted(scores)
  abbrev insert_number : F → List F → List F
  insert_number x [] = x ∷ []
  insert_number x (y ∷ ys) =
      let rest = insert_number x ys in if fl.lt y x then y ∷ rest else x ∷ y ∷ ys

  abbrev sorted_numbers : List F → List F
  sorted_numbers [] = []
  sorted_numbers (x ∷ xs) = insert_number x (sorted_numbers xs)

  abbrev number_at : ℕ → List F → F
  number_at n xs = or_default (nth n xs) (fl.of_nat 0)

  -- statistics.median
  unfoldable pub median : List F → F
  median xs =
      let sorted = sorted_numbers xs in
      let half = length xs / 2 in
      if length xs % 2 == 1
      then number_at half sorted
      else fl.div (fl.add (number_at (half - 1) sorted) (number_at half sorted)) (fl.of_nat 2)

  -- min(results, key=lambda r: abs(r.score - combined)): the first of the nearest
  unfoldable pub representative : F → CandidateScore F → List (CandidateScore F) → CandidateScore F
  representative combined r [] = r
  representative combined r (x ∷ xs) =
      representative combined
        (if fl.lt (abs (fl.sub x.score combined)) (abs (fl.sub r.score combined)) then x else r) xs

  abbrev split_text : ℕ → ℕ → List F → String
  split_text include_votes counted scores = concat (
      "Ensemble split "
      ∷ show_nat include_votes
      ∷ "/"
      ∷ show_nat counted
      ∷ " on inclusion (scores "
      ∷ join ", " (map (fl.show_fixed 3) (sorted_numbers scores))
      ∷ "). "
      ∷ [])

  -- max and min
  abbrev largest : F → List F → F
  largest x [] = x
  largest x (y ∷ ys) = largest (if fl.lt x y then y else x) ys

  abbrev smallest : F → List F → F
  smallest x [] = x
  smallest x (y ∷ ys) = smallest (if fl.lt y x then y else x) ys

  -- max(scores) - min(scores)
  abbrev spread_of : F → List F → F
  spread_of x xs = fl.sub (largest x xs) (smallest x xs)

  -- the rest of `ensemble_score`, when some member has scored
  unfoldable pub combine_members :
      AnonymizedProfile F
      → F
      → List (EnsembleVote F)
      → CandidateScore F
      → List (CandidateScore F)
      → CandidateScore F
  unfolding median representative
  combine_members p cutoff votes r rs =
      let scores = map (λ x. CandidateScore.score x) (r ∷ rs) in
      let combined = fl.round (median scores) 4 in
      let counted = length (r ∷ rs) in
      let include_votes = count_if (λ x. fl.le cutoff (CandidateScore.score x)) (r ∷ rs) in
      let unanimous = include_votes == counted || include_votes == 0 in
      let chosen = representative combined r rs in
      record {
        candidate_ref = p.candidate_ref;
        score = combined;
        criteria = chosen.criteria;
        rationale = strip (
            if unanimous
            then chosen.rationale
            else concat (split_text include_votes counted scores ∷ chosen.rationale ∷ []));
        model = concat ("ensemble(" ∷ show_nat counted ∷ ")" ∷ []);
        pass_name = PassName.ensemble;
        ensemble_votes =
            votes
            ++ summary_vote counted include_votes (ltb counted (include_votes * 2)) unanimous
                (fl.round (spread_of r.score (map (λ x. CandidateScore.score x) rs)) 4) combined
              ∷ [];
      }

  abbrev pub combine_all :
      {S : Type 0}
      → AnonymizedProfile F
      → F
      → List (EnsembleVote F)
      → List (CandidateScore F)
      → Exec S (CandidateScore F)
  combine_all p cutoff votes [] =
      raise (
        PyError.ranking_error (concat ("every ensemble member failed for " ∷ p.candidate_ref ∷ [])))
  combine_all p cutoff votes (r ∷ rs) = pure (combine_members p cutoff votes r rs)

  unfoldable pub ensemble_score :
      {S : Type 0}
      → AnonymizedProfile F
      → RoleSpec F
      → (Member → RankClient S F)
      → F
      → List (Criterion F)
      → List String
      → Option (JudgeLike S F)
      → Exec S (CandidateScore F)
  unfolding member_scores combine_members scored_of member_vote
  ensemble_score p role client cutoff cs models judge =
      member_scores p role client cs judge (ensemble_members models) >>= λ outcomes.
      combine_all p cutoff (map (member_vote cutoff) outcomes) (scored_of outcomes)

  unfoldable pub cutoff_of : List (CandidateScore F) → ℕ → F
  cutoff_of scores size = elim (nth (cutoff_index size (length scores)) (by_score scores)) [
    | none ↦ fl.of_nat 0
    | some s ↦ s.score
  ]

  -- dict(pool.map(rescore, targets)): a candidate whose ensemble failed has no entry
  unfoldable pub rescore_all :
      {S : Type 0}
      → List (String × AnonymizedProfile F)
      → RoleSpec F
      → (Member → RankClient S F)
      → F
      → List (Criterion F)
      → List String
      → Option (JudgeLike S F)
      → List String
      → Exec S (List (String × CandidateScore F))
  unfolding ensemble_score
  rescore_all profiles role client cutoff cs models judge [] = pure []
  rescore_all profiles role client cutoff cs models judge (ref ∷ refs) = elim (get ref profiles) [
    | none ↦ rescore_all profiles role client cutoff cs models judge refs
    | some p ↦ attempt (ensemble_score p role client cutoff cs models judge) >>= λ o.
        rescore_all profiles role client cutoff cs models judge refs >>= λ rest.
        pure (elim o [ declined text ↦ rest | done s ↦ (ref, s) ∷ rest ])
  ]

  abbrev pub merge : List (String × CandidateScore F) → CandidateScore F → CandidateScore F
  merge rescored s = or_default (get s.candidate_ref rescored) s

  -- `refs` is the set, in the order in which it is iterated
  unfoldable pub ensemble_pass :
      {S : Type 0}
      → List (CandidateScore F)
      → List (String × AnonymizedProfile F)
      → RoleSpec F
      → (Member → RankClient S F)
      → List String
      → ℕ
      → List String
      → List (Criterion F)
      → Option (JudgeLike S F)
      → Exec S (List (CandidateScore F))
  unfolding rescore_all cutoff_of
  ensemble_pass scores profiles role client refs size models cs judge =
      elim (filter (λ ref. is_some (get ref profiles)) refs) [
        | [] ↦ pure scores
        | _ ∷ _ ↦
            rescore_all profiles role client (cutoff_of scores size) cs models judge refs
            >>= λ rescored. pure (by_score (map (merge rescored) scores))
      ]
