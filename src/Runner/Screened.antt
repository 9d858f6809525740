-- ===== src/Runner/Screened.antt =====
-- rescan/pipeline/runner.py: what the screening of a run leaves in the table of results.
use rescan.Prelude.{
  ◌≡◌, refl, sym, ap, ◌∙◌, subst, String, Bool, false, not, ◌&&◌, some, List, [], ◌∷◌, ◌++◌,
  append_assoc, append-nil, map, filter, any, All, Bool-cases, inl, inr, arith,
}
use rescan.Prelude.Float.{FloatOps}
use rescan.Prelude.Text.{str_eq}
use rescan.Prelude.Result.{ok, lift, ok-injective, ◌>>◌}
use rescan.Schemas.{AnonymizedProfile}
use rescan.Dsl.Judge.Ask.{ask}
use rescan.Dsl.Judge.Keeps.{ask-Keeps}
use rescan.Rules.Models.{RuleSet}
use rescan.Rules.Engine.{ScreeningResult, screen}
use rescan.Rules.Engine.Keeps.{screen-Keeps}
use rescan.Store.Rows.{ResultRow}
use rescan.Store.Operations.{
  is_result, has_run, has_candidate, upsert, put_result, clear_results, audit_many,
}
use rescan.Store.Reads.{list_candidates}
use rescan.Runner.Ready.{Ready, ready_candidates, ready_in-ready_candidates}
use rescan.Runner.Outcomes.{OutcomeFits, outcome_of-OutcomeFits}
use rescan.Runner.Env.{State, in_store}
use rescan.Runner.Processed.{ok-bind}
use rescan.Runner.Screening.{
  RunEnv, result_row, judge_for, with_judge, keep_result, screen_profile, ready_in, screen_all,
  screen_run, results_by_ref,
}

abbrev results : {W : Type 0} → State W → List ResultRow
results s = s.store.results

any-last :
    {A : Type 0} (test : A → Bool) (xs : List A) (y : A)
    → any test xs ≡ false
    → test y ≡ false
    → any test (xs ++ y ∷ []) ≡ false
any-last test [] y none' last = ground (arith, last)
any-last test (x ∷ xs) y none' last = ground (arith, any-last test xs y, none', last)

module _ {W F Data File : Type 0} ⦃fl : FloatOps F⦄ (e : RunEnv W F Data File)
    (batch run : String) where
  abbrev pub Screened : Type 0
  Screened = List (AnonymizedProfile F × ScreeningResult F)

  -- the screening of a candidate's profile by the rules, with a judge of its own, from some state
  abbrev pub ScreenedBy : RuleSet F → String → AnonymizedProfile F → ScreeningResult F → Type 0
  ScreenedBy rules id p r =
      (s : State W) × ((with_judge e batch run
          (screen p rules (some (ask (judge_for e batch run (some id) [] e.use_ensemble)))) s).0
        ≡ ok r)

  -- one row for each candidate, in order: its profile is the one that loads, its screening is by
  -- the rules, and its outcome fits the screening
  abbrev pub Written : RuleSet F → Ready F → Screened → List ResultRow → Type 0
  Written rules [] [] [] = Unit
  Written rules ((id, loaded) ∷ more) ((p, r) ∷ out) (row ∷ rows) =
      (loaded ≡ ok p)
      × ScreenedBy rules id p r
      × (ResultRow.run_id row ≡ run)
      × (row.candidate_id ≡ id)
      × (row.candidate_ref ≡ p.candidate_ref)
      × (row.screening_json ≡ some (e.dump_screening r))
      × OutcomeFits r row.outcome
      × Written rules more out rows
  Written _ _ _ _ = ⊥

  -- no two have one id
  abbrev pub DistinctIds : Ready F → Type 0
  DistinctIds [] = Unit
  DistinctIds ((id, loaded) ∷ more) = All (λ r. str_eq id r.0 ≡ false) more × DistinctIds more

  abbrev IsNewTo : List ResultRow → Ready F → Type 0
  IsNewTo table ids = All (λ r. any (is_result run r.0) table ≡ false) ids

  with_judge-results :
      (id : String) (p : AnonymizedProfile F) (rules : RuleSet F) (s : State W)
      → results
          (with_judge e batch run
            (screen p rules (some (ask (judge_for e batch run (some id) [] e.use_ensemble))))
            s).1
        ≡ results s
  unfolding judge_for audit_many
  with_judge-results id p rules s =
      screen-Keeps (λ t. results t.world ≡ results s) _
        (ask-Keeps (λ t. results t ≡ results s) (judge_for e batch run (some id) [] e.use_ensemble)
          (λ q text m n t h. h) (λ r q t h. h))
        p rules (record { world = s; memo = [] }) refl

  keep_result-results :
      (id : String) (p : AnonymizedProfile F) (r r' : ScreeningResult F) (s : State W)
      → any (is_result run id) (results s) ≡ false
      → (keep_result e batch run id p r s).0 ≡ ok r'
      → (r ≡ r')
        × (results (keep_result e batch run id p r s).1
            ≡ results s ++ result_row e batch run id p r (e.rules.env.now s.world).0 ∷ [])
  unfolding keep_result put_result upsert audit_many
  keep_result-results id p r r' s new h =
      elim (Bool-cases (has_run run s.store && has_candidate id s.store)) [
        | inl there ↦ (ok-injective _ _ (rw there at h), rw (there, new) refl)
        | inr gone ↦ absurd (cc (rw gone at h))
      ]

  screen_profile-results :
      (id : String) (p : AnonymizedProfile F) (rules : RuleSet F) (r : ScreeningResult F)
      (s : State W)
      → any (is_result run id) (results s) ≡ false
      → (screen_profile e batch run id p rules s).0 ≡ ok r
      → (now : String) × (results (screen_profile e batch run id p rules s).1
          ≡ results s ++ result_row e batch run id p r now ∷ [])
        × ScreenedBy rules id p r
  unfolding screen_profile
  screen_profile-results id p rules r s new h =
      let judged =
        with_judge e batch run
          (screen p rules (some (ask (judge_for e batch run (some id) [] e.use_ensemble)))) in
      let (q, one, rest, same) = ok-bind judged (keep_result e batch run id p) s h in
      let kept = with_judge-results id p rules s in
      let (is_r, added) = keep_result-results id p q r (judged s).1 (rw kept new) rest in
      (
        (e.rules.env.now (judged s).1.world).0,
        rw (same, added, kept, is_r) refl,
        (s, one ∙ ap ok is_r),
      )

  -- the row of one candidate is of no other
  still_new :
      (id : String) (p : AnonymizedProfile F) (r : ScreeningResult F) (now : String)
      (table : List ResultRow) (more : Ready F)
      → All (λ x. str_eq id x.0 ≡ false) more
      → IsNewTo table more
      → IsNewTo (table ++ result_row e batch run id p r now ∷ []) more
  still_new id p r now table [] others new = tt
  still_new id p r now table ((other, loaded) ∷ more) (differs, others) (absent, new) = (
    any-last (is_result run other) table (result_row e batch run id p r now) absent
        (ground (arith, differs)),
    still_new id p r now table more others new,
  )

  screen_all-Written :
      (rules : RuleSet F) (ids : Ready F) (s : State W) (out : Screened)
      → DistinctIds ids
      → IsNewTo (results s) ids
      → (screen_all e batch run rules ids s).0 ≡ ok out
      → (rows : List ResultRow) × (results (screen_all e batch run rules ids s).1
          ≡ results s ++ rows)
        × Written rules ids out rows
  unfolding screen_all
  screen_all-Written rules [] s out distinct new h =
      ([], sym (append-nil _), subst (λ o. Written rules [] o []) (ok-injective _ _ h) tt)
  screen_all-Written rules ((id, loaded) ∷ more) s out (others, distinct) (absent, new) h =
      let (p, is_p, h1, same1) = ok-bind (lift loaded) _ s h in
      let (r, is_r, h2, same2) = ok-bind (screen_profile e batch run id p rules) _ s h1 in
      let (rest, is_rest, h3, same3) =
        ok-bind (screen_all e batch run rules more) _ (screen_profile e batch run id p rules s).1
          h2 in
      let (now, added, by_rules) = screen_profile-results id p rules r s absent is_r in
      let (rows, table, written) =
        screen_all-Written rules more (screen_profile e batch run id p rules s).1 rest distinct
          (rw added (still_new id p r now (results s) more others new)) is_rest in
      (
        result_row e batch run id p r now ∷ rows,
        ap (λ x. results x.1) (same1 ∙ same2 ∙ same3)
            ∙ table
            ∙ ap (λ t. t ++ rows) added
            ∙ append_assoc (results s) (result_row e batch run id p r now ∷ []) rows,
        subst
            (λ o. Written rules ((id, loaded) ∷ more) o (result_row e batch run id p r now ∷ rows))
            (ok-injective _ _ h3)
            (is_p, by_rules, refl, refl, refl, refl, outcome_of-OutcomeFits r, written),
      )

  -- the results of other runs
  abbrev pub others : List ResultRow → List ResultRow
  others table = filter (λ r. not (str_eq (ResultRow.run_id r) run)) table

  others-gone :
      (id : String) (table : List ResultRow) → any (is_result run id) (others table) ≡ false
  others-gone id [] = refl
  others-gone id (r ∷ rs) = ground (arith, others-gone id rs)

  others-IsNewTo : (table : List ResultRow) (ids : Ready F) → IsNewTo (others table) ids
  others-IsNewTo table [] = tt
  others-IsNewTo table ((id, loaded) ∷ more) = (others-gone id table, others-IsNewTo table more)

  screen_run-rows :
      (rules : RuleSet F) (s : State W) (profiles : List (AnonymizedProfile F))
      (screening : List (String × ScreeningResult F))
      → DistinctIds (ready_in e batch run (list_candidates batch s.store))
      → (screen_run e batch run rules s).0 ≡ ok (profiles, screening)
      → (out : Screened) × (rows : List ResultRow) × (profiles ≡ map (λ x. x.0) out)
        × (screening ≡ results_by_ref (map (λ x. x.1) out) [])
        × (results (screen_run e batch run rules s).1 ≡ others (results s) ++ rows)
        × Written rules (ready_in e batch run (list_candidates batch s.store)) out rows
  unfolding screen_run clear_results
  screen_run-rows rules s profiles screening distinct h =
      let ready = ready_in e batch run (list_candidates batch s.store) in
      let begin = in_store e.rules.env (λ now. clear_results run) in
      let (out, is_out, rest, same) = ok-bind (begin >> screen_all e batch run rules ready) _ s h in
      let (rows, table, written) =
        screen_all-Written rules ready (begin s).1 out distinct (others-IsNewTo (results s) ready)
          is_out in
      let pair = ok-injective _ _ rest in
      (
        out,
        rows,
        sym (ap (λ x. x.0) pair),
        sym (ap (λ x. x.1) pair),
        ap (λ x. results x.1) same ∙ table,
        written,
      )

  -- If the candidates that are ready have distinct ids and the screening of a run by a rule set
  -- returns, the table of results holds those of the other runs as they were, and after them one
  -- row for each ready candidate of the batch, in order, with the screening of its profile by that
  -- rule set: excluded where a rule failed, sent to manual review where none failed and one could
  -- not be decided, and eligible where each passed.
  pub screen_run-Written :
      (rules : RuleSet F) (s : State W) (profiles : List (AnonymizedProfile F))
      (screening : List (String × ScreeningResult F))
      → DistinctIds (ready_candidates e (list_candidates batch s.store))
      → (screen_run e batch run rules s).0 ≡ ok (profiles, screening)
      → (out : Screened) × (rows : List ResultRow) × (profiles ≡ map (λ x. x.0) out)
        × (screening ≡ results_by_ref (map (λ x. x.1) out) [])
        × (results (screen_run e batch run rules s).1 ≡ others (results s) ++ rows)
        × Written rules (ready_candidates e (list_candidates batch s.store)) out rows
  screen_run-Written rules s profiles screening distinct h =
      let cs = list_candidates batch s.store in
      let (out, rows, is_profiles, is_screening, table, written) =
        screen_run-rows rules s profiles screening
          (subst DistinctIds (sym (ready_in-ready_candidates e batch run cs)) distinct) h in
      (
        out,
        rows,
        is_profiles,
        is_screening,
        table,
        subst (λ ready. Written rules ready out rows) (ready_in-ready_candidates e batch run cs)
            written,
      )
