-- ===== src/Runner/Ranking.antt =====
-- rescan/pipeline/runner.py: the scores and the shortlist of a run, with the second opinion on the
-- candidates whose placement is in doubt. A set is a list, in the order in which it is iterated.
use rescan.Prelude.{
  ℕ, String, Bool, false, not, ◌&&◌, Option, none, some, List, [], ◌∷◌, ◌++◌, map, filter,
  if◌then◌else◌, length,
}
use rescan.Prelude.Float.{FloatOps}
use rescan.Prelude.Text.{member}
use rescan.Prelude.Result.{Exec, pure, ◌>>=◌, ◌>>◌}
use rescan.Schemas.{
  AnonymizedProfile, RoleSpec, CandidateScore, PassName, EnsembleVote, summary_vote, Shortlist,
}
use rescan.Dsl.Judge.Ask.{JudgeState, JudgeSetup, ask}
use rescan.Rules.Models.{RuleSet}
use rescan.Rules.Engine.{ScreeningResult, eligible, needs_manual_review}
use rescan.Pipeline.Rank.Criteria.{Criterion, criteria_for}
use rescan.Pipeline.Rank.Score.{RankClient, put, get}
use rescan.Pipeline.Rank.Select.{triage_rank, borderline_refs, build_shortlist}
use rescan.Pipeline.Ensemble.{Member, ensemble_pass}
use rescan.Store.Rows.{AuditEntry}
use rescan.Store.Operations.{set_result_score}
use rescan.Store.Reads.{str_lt, order_by}
use rescan.Runner.Env.{
  Json, Fields, field, end, State, in_world, in_store, set_run_row, audit_all, read, no_run_update,
}
use rescan.Runner.Rules.{is_nonempty}
use rescan.Runner.Screening.{RunEnv, run_entry, judge_for, with_judge, refs_to_ids}

-- sorted(refs)
abbrev pub sorted_refs : List String → List String
sorted_refs refs = order_by str_lt refs

-- `targets`
unfoldable pub doubtful : List String → List String → List String → List String
doubtful borderline ambiguous scored =
    borderline ++ filter (λ ref. member ref scored && not (member ref borderline)) ambiguous

module _ {F : Type 0} where
  abbrev pub is_cleared : List (String × ScreeningResult F) → AnonymizedProfile F → Bool
  is_cleared screening p = elim (get p.candidate_ref screening) [
    | none ↦ false
    | some r ↦ eligible r
  ]

  -- `eligible`
  unfoldable pub cleared :
      List (String × ScreeningResult F) → List (AnonymizedProfile F) → List (AnonymizedProfile F)
  cleared screening profiles = filter (is_cleared screening) profiles

  -- `ambiguous`
  unfoldable pub ambiguous_refs : List (String × ScreeningResult F) → List String
  ambiguous_refs screening = map (λ r. r.0) (filter (λ r. needs_manual_review r.1) screening)

  -- the summary among the votes, if there is one
  abbrev pub summary_of : List (EnsembleVote F) → Option (EnsembleVote F)
  summary_of [] = none
  summary_of (summary_vote members include majority unanimous spread combined ∷ votes) =
      some (summary_vote members include majority unanimous spread combined)
  summary_of (vote ∷ votes) = summary_of votes

  abbrev pub member_votes : List (EnsembleVote F) → List (EnsembleVote F)
  member_votes [] = []
  member_votes (summary_vote members include majority unanimous spread combined ∷ votes) =
      member_votes votes
  member_votes (vote ∷ votes) = vote ∷ member_votes votes

  abbrev pub ensemble_event : Option (EnsembleVote F) → String
  ensemble_event (some (summary_vote members include majority false spread combined)) =
      "ensemble_tiebreak"
  ensemble_event _ = "ensemble_agreed"

module _ {W F Data File : Type 0} ⦃fl : FloatOps F⦄ (e : RunEnv W F Data File)
    (batch run : String) where
  abbrev pub summary_fields : Option (EnsembleVote F) → Fields
  summary_fields (some (summary_vote members include majority unanimous spread combined)) =
      field "members" (Json.nat members) (
        field "include_votes" (Json.nat include) (
          field "majority_include" (Json.flag majority) (
            field "unanimous" (Json.flag unanimous) (
              field "score_spread" (e.json_of_number spread)
                (field "combined_score" (e.json_of_number combined) end)))))
  summary_fields _ = end

  abbrev pub votes_entry : List (String × String) → CandidateScore F → AuditEntry
  votes_entry refs s =
      run_entry e batch run (get s.candidate_ref refs) "ranking"
        (ensemble_event (summary_of s.ensemble_votes))
        (field "candidate_ref" (Json.text s.candidate_ref) (
          field "votes" (e.json_of_votes (member_votes s.ensemble_votes))
            (summary_fields (summary_of s.ensemble_votes))))

  abbrev pub is_rescored : CandidateScore F → Bool
  is_rescored s = elim s.pass_name [
    | PassName.triage ↦ false
    | PassName.ensemble ↦ is_nonempty s.ensemble_votes
  ]

  -- the loop over the rescored candidates
  unfoldable pub audit_votes :
      List (String × String) → List (CandidateScore F) → Exec (State W) (Unit {0})
  audit_votes refs [] = pure tt
  audit_votes refs (s ∷ ss) =
      (if is_rescored s then audit_all e.rules.env (votes_entry refs s ∷ []) else pure tt)
      >> audit_votes refs ss

  abbrev pub ensemble_fields : List String → List String → List String → ℕ → Fields
  ensemble_fields targets borderline ambiguous total =
      field "candidates" (Json.texts (sorted_refs targets)) (
        field "borderline" (Json.texts (sorted_refs borderline)) (
          field "rule_ambiguous"
            (Json.texts (sorted_refs (filter (λ ref. member ref targets) ambiguous)))
            (field "of_total" (Json.nat total) end)))

  -- a call of the store or the client, while the judge is in use
  abbrev pub outside : {A : Type 0} → Exec (State W) A → Exec (JudgeState (State W)) A
  outside m s = let (r, w) = m s.world in (r, record s { world = w })

  abbrev pub scorer : Member → RankClient (JudgeState (State W)) F
  scorer member p role cs = outside (in_world (e.rank_client member p role cs))

  abbrev pub profiles_by_ref :
      List (AnonymizedProfile F)
      → List (String × AnonymizedProfile F)
      → List (String × AnonymizedProfile F)
  profiles_by_ref [] d = d
  profiles_by_ref (p ∷ ps) d = profiles_by_ref ps (put p.candidate_ref p d)

  module _ (role : RoleSpec F) (judge : JudgeSetup (State W) F) where
    -- the ensemble over the candidates in doubt, with its audit
    unfoldable pub rescore :
        List (CandidateScore F)
        → List (AnonymizedProfile F)
        → List (Criterion F)
        → List String
        → List String
        → List String
        → Exec (JudgeState (State W)) (List (CandidateScore F))
    unfolding ensemble_pass audit_votes refs_to_ids
    rescore scores chosen cs targets borderline ambiguous =
        outside (
          audit_all e.rules.env (
            run_entry e batch run none "ranking" "ensemble_started"
              (ensemble_fields targets borderline ambiguous (length scores))
            ∷ []))
        >> ensemble_pass scores (profiles_by_ref chosen []) role scorer targets e.shortlist_size
            e.ensemble_models cs (some (ask judge))
        >>= λ rescored. outside (read (refs_to_ids batch)) >>= λ refs.
            outside (audit_votes refs rescored) >> pure rescored

    -- `_ensemble` from the choice of the targets on
    unfoldable pub second_opinion :
        List (CandidateScore F)
        → List (AnonymizedProfile F)
        → List (String × ScreeningResult F)
        → List (Criterion F)
        → Exec (JudgeState (State W)) (List (CandidateScore F))
    unfolding rescore doubtful ambiguous_refs borderline_refs
    second_opinion scores chosen screening cs =
        let borderline = borderline_refs scores e.shortlist_size e.borderline_margin in
        let ambiguous = ambiguous_refs screening in
        let targets =
          doubtful borderline ambiguous (map (λ s. CandidateScore.candidate_ref s) scores) in
        if is_nonempty targets
        then rescore scores chosen cs targets borderline ambiguous
        else outside (
            audit_all e.rules.env (
              run_entry e batch run none "ranking" "ensemble_skipped"
                (field "reason" (Json.text "no borderline or ambiguous candidates") end)
              ∷ []))
          >> pure scores

    -- `_ensemble`
    unfoldable pub ensemble_scores :
        List (CandidateScore F)
        → List (AnonymizedProfile F)
        → List (String × ScreeningResult F)
        → List (Criterion F)
        → Exec (JudgeState (State W)) (List (CandidateScore F))
    unfolding second_opinion
    ensemble_scores scores chosen screening cs =
        if e.use_ensemble && is_nonempty scores
        then second_opinion scores chosen screening cs
        else pure scores

    -- the scores, while the judge is in use
    unfoldable pub scores_of :
        List (AnonymizedProfile F)
        → List (AnonymizedProfile F)
        → List (String × ScreeningResult F)
        → List (Criterion F)
        → Exec (JudgeState (State W)) (List (CandidateScore F))
    unfolding triage_rank ensemble_scores
    scores_of profiles chosen screening cs =
        outside (
          audit_all e.rules.env (
            run_entry e batch run none "ranking" "triage_started" (
              field "eligible" (Json.nat (length chosen)) (
                field "screened" (Json.nat (length profiles))
                  (field "criteria" (e.json_of_criteria cs) end)))
            ∷ []))
        >> (if is_nonempty chosen
            then triage_rank chosen role (scorer (none, none)) cs (some (ask judge))
            else pure [])
        >>= λ scores. ensemble_scores scores chosen screening cs

  abbrev pub score_entry : Option String → CandidateScore F → AuditEntry
  score_entry candidate s = run_entry e batch run candidate "ranking" "scored" (
      field "candidate_ref" (Json.text s.candidate_ref) (
        field "score" (e.json_of_number s.score) (
          field "criteria" (e.json_of_scores s.criteria)
            (field "rationale" (Json.text s.rationale) (field "model" (Json.text s.model) end)))))

  abbrev pub set_score_of : Option String → CandidateScore F → Exec (State W) (Unit {0})
  set_score_of none s = pure tt
  set_score_of (some candidate) s =
      in_store e.rules.env (λ now. set_result_score run candidate (e.dump_score s) now)

  -- the loop over the scores
  unfoldable pub keep_scores :
      List (String × String) → List (CandidateScore F) → Exec (State W) (Unit {0})
  unfolding set_result_score
  keep_scores refs [] = pure tt
  keep_scores refs (s ∷ ss) =
      set_score_of (get s.candidate_ref refs) s
      >> audit_all e.rules.env (score_entry (get s.candidate_ref refs) s ∷ [])
      >> keep_scores refs ss

  abbrev pub shortlist_update : Shortlist F → Exec (State W) (Unit {0})
  shortlist_update shortlist =
      set_run_row e.rules.env run
        (record no_run_update { shortlist_json = some (some (e.dump_shortlist shortlist)) })

  -- `_rank`
  unfoldable pub rank :
      RoleSpec F
      → RuleSet F
      → List (AnonymizedProfile F)
      → List (String × ScreeningResult F)
      → Exec (State W) (Shortlist F)
  unfolding cleared criteria_for refs_to_ids judge_for scores_of keep_scores build_shortlist
  rank role rules profiles screening = read (refs_to_ids batch) >>= λ judge_refs.
      with_judge e batch run (
        scores_of role (judge_for e batch run none judge_refs false) profiles
          (cleared screening profiles) screening (criteria_for (some rules)))
      >>= λ scores. read (refs_to_ids batch) >>= λ refs.
          keep_scores refs scores
          >> shortlist_update (
              build_shortlist scores role e.shortlist_size e.borderline_margin
                (map (λ r. r.1) screening))
          >> pure (
              build_shortlist scores role e.shortlist_size e.borderline_margin
                (map (λ r. r.1) screening))
