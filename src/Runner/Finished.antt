-- ===== src/Runner/Finished.antt =====
-- rescan/pipeline/runner.py: the status of a run whose execution has ended.
use rescan.Prelude.{
  ◌≡◌, refl, String, true, Option, none, some, List, [], ◌∷◌, map, if◌then◌else◌, All, Bool-cases,
  inl, inr,
}
use rescan.Prelude.Float.{FloatOps}
use rescan.Prelude.Text.{str_eq}
use rescan.Prelude.Result.{Result, ok, err, continue}
use rescan.Schemas.{RoleSpec, Shortlist, RunStatus}
use rescan.Rules.Models.{RuleSet}
use rescan.Store.Rows.{RunRow}
use rescan.Store.Operations.{update_run, set_run, audit_many}
use rescan.Store.Reads.{get_run}
use rescan.Runner.Env.{set_run_row, audit_all, Fields, State, handle}
use rescan.Runner.Rules.{require_run}
use rescan.Runner.Added.{rule_set_for-known}
use rescan.Runner.Screening.{RunEnv}
use rescan.Runner.Runs.{
  run_to, run_failed, run_complete, execute_run, rescreen, rescreen_started, rescreened_fields,
  evaluate_run,
}

-- the rows of the run have the status
abbrev pub RunIs : String → RunStatus → List RunRow → Type 0
RunIs run status rs = All (λ r. str_eq (RunRow.id r) run ≡ true → RunRow.status r ≡ status) rs

set_run-RunIs :
    (run : String) (status : RunStatus) (error : Option (Option String)) (now : String)
    (rs : List RunRow)
    → RunIs run status
        (map (λ r. if str_eq (RunRow.id r) run then set_run (run_to status error) now r else r) rs)
set_run-RunIs run status error now [] = tt
set_run-RunIs run status error now (r ∷ rs) = (one, set_run-RunIs run status error now rs)
  where
    set : RunRow
    set = if str_eq (RunRow.id r) run then set_run (run_to status error) now r else r

    one : str_eq (RunRow.id set) run ≡ true → RunRow.status set ≡ status
    one = elim (Bool-cases (str_eq r.id run)) [
      | inl same ↦ rw same (λ h. refl)
      | inr other ↦ rw other (λ h. absurd (cc (other, h)))
    ]

module _ {W F Data File : Type 0} ⦃fl : FloatOps F⦄ (e : RunEnv W F Data File) (run : String) where
  -- the status that goes with a result
  abbrev pub RunFits : {A : Type 0} → Result A × State W → Type 0
  RunFits (ok a, s) = RunIs run RunStatus.complete s.store.runs
  RunFits (err x, s) = RunIs run RunStatus.failed s.store.runs

  finish :
      {A : Type 0} (batch event : String) (detail : A → Fields) (shortlist : A → Shortlist F)
      (r : Result A) (s : State W)
      → RunFits (
          continue
            (handle (run_failed e run batch) r s).0
            (λ a. run_complete e run batch event (detail a) (shortlist a))
            (handle (run_failed e run batch) r s).1)
  unfolding run_failed run_complete update_run audit_many
  finish batch event detail shortlist (ok a) s =
      set_run-RunIs run RunStatus.complete (some none) (e.rules.env.now s.world).0 s.store.runs
  finish batch event detail shortlist (err x) s =
      set_run-RunIs run RunStatus.failed (some (some (e.rules.env.show_error x)))
        (e.rules.env.now s.world).0 s.store.runs

  -- The execution of a run that is there, with a role that loads, always ends with the run
  -- complete, where it gives a shortlist, or failed, where it raises, whatever rules it compiles or
  -- copies: no run stays running.
  pub execute_run-RunFits :
      (texts : List String) (plan rules_from : Option String) (s : State W) (row : RunRow)
      (role : RoleSpec F)
      → get_run run s.store ≡ some row
      → e.rules.load_role row.role_json ≡ ok role
      → RunFits (execute_run e run texts plan rules_from s)
  unfolding execute_run require_run update_run get_run
  execute_run-RunFits texts plan rules_from s row role there loaded =
      rw there (rw loaded (finish row.batch_id "run_complete" _ _ _ _))

  -- A second screening of a run that is there, with a role and rules that load, always ends with
  -- the run complete, where it gives a shortlist, or failed, where it raises.
  pub rescreen-RunFits :
      (s : State W) (row : RunRow) (role : RoleSpec F) (rules : RuleSet F)
      → get_run run s.store ≡ some row
      → e.rules.load_role row.role_json ≡ ok role
      → e.rules.load_rules row.rules_json ≡ ok rules
      → RunFits (rescreen e run s)
  unfolding rescreen require_run update_run get_run audit_many
  rescreen-RunFits s row role rules there loaded known =
      let begin = set_run_row e.rules.env run (run_to RunStatus.running none) s in
      let started =
        audit_all e.rules.env (rescreen_started e row.batch_id run rules ∷ []) begin.1 in
      let r = evaluate_run e run row.batch_id role rules started.1 in
      rw there (
        rw loaded (
          rw (rule_set_for-known e.rules run row s there, known)
            (finish row.batch_id "rescreen_complete" (λ a. rescreened_fields e a.0 a.1) (λ a. a.1)
              r.0 r.1)))
