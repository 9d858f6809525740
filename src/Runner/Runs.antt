-- ===== src/Runner/Runs.antt =====
-- rescan/pipeline/runner.py: analysis runs, from their creation to their shortlist.
use rescan.Prelude.{
  ℕ, String, Bool, true, false, Option, none, some, List, [], ◌∷◌, if◌then◌else◌, length,
}
use rescan.Prelude.Float.{FloatOps}
use rescan.Prelude.Text.{is_empty}
use rescan.Prelude.Result.{PyError, raised, Exec, pure, raise, lift, ◌>>=◌, ◌>>◌}
use rescan.Schemas.{RoleSpec, Shortlist, CandidateStatus, BatchStatus, RunStatus}
use rescan.Rules.Models.{RuleSet, applied}
use rescan.Store.Rows.{AuditEntry, Store, BatchRow, RunUpdate}
use rescan.Store.Operations.{create_run}
use rescan.Store.Reads.{get_batch, batch_count}
use rescan.Runner.Env.{
  text_or_null, Json, Fields, field, end, State, in_store, set_run_row, audit_all, on_error, read,
  no_run_update,
}
use rescan.Runner.Batch.{id_or}
use rescan.Runner.Rules.{require_run, rule_set_for, compile_rules, copy_rules, run_event}
use rescan.Runner.Screening.{RunEnv, screen_run}
use rescan.Runner.Ranking.{rank}

-- `BatchNotReady`
abbrev pub batch_not_ready : PyError
batch_not_ready = raised "BatchNotReady"

abbrev pub is_complete : BatchStatus → Bool
is_complete BatchStatus.complete = true
is_complete _ = false

abbrev pub run_to : RunStatus → Option (Option String) → RunUpdate
run_to status error = record no_run_update { status = some status; error = error }

module _ {W F Data File : Type 0} ⦃fl : FloatOps F⦄ (e : RunEnv W F Data File) where
  abbrev created_fields : String → Option String → RoleSpec F → String → Store → Fields
  created_fields run name role batch s = field "run_id" (Json.text run) (
      field "name" (text_or_null name) (
        field "role" (Json.text role.title)
          (field "candidates" (Json.nat (batch_count batch CandidateStatus.ready s)) end)))

  -- the run of a batch that is there; `before` is the store in which the batch was found
  unfoldable pub create_in :
      String
      → RoleSpec F
      → Option String
      → Option String
      → Store
      → Option BatchRow
      → Exec (State W) String
  unfolding create_run batch_count
  create_in batch role run_id name before none = raise PyError.key_error
  create_in batch role run_id name before (some row) =
      if is_complete row.status
      then (id_or e.rules.env "run_" run_id >>= λ run.
          in_store e.rules.env (create_run run batch (e.dump_role role) name)
          >> audit_all e.rules.env (
              run_event e.rules batch run "runs" "run_created"
                (created_fields run name role batch before)
              ∷ [])
          >> pure run)
      else raise batch_not_ready

  -- `create_run`
  unfoldable pub create_run_of :
      String → RoleSpec F → Option String → Option String → Exec (State W) String
  unfolding get_batch create_in
  create_run_of batch role run_id name =
      read (λ s. s) >>= λ s. create_in batch role run_id name s (get_batch batch s)

  -- `rules_from`, where it is not empty
  abbrev pub rules_of_run :
      String
      → String
      → List String
      → RoleSpec F
      → Option String
      → Option String
      → Exec (State W) (RuleSet F)
  rules_of_run run batch texts role plan none =
      compile_rules e.rules run batch texts role.title plan
  rules_of_run run batch texts role plan (some source) =
      if is_empty source
      then compile_rules e.rules run batch texts role.title plan
      else copy_rules e.rules run batch source

  -- the screening and the ranking
  unfoldable pub evaluate_run :
      String → String → RoleSpec F → RuleSet F → Exec (State W) (ℕ × Shortlist F)
  unfolding screen_run rank
  evaluate_run run batch role rules = screen_run e batch run rules >>= λ (profiles, screening).
      rank e batch run role rules profiles screening >>= λ shortlist.
      pure (length profiles, shortlist)

  -- `except Exception`
  unfoldable pub run_failed : String → String → PyError → Exec (State W) (Unit {0})
  run_failed run batch error =
      set_run_row e.rules.env run
        (run_to RunStatus.failed (some (some (e.rules.env.show_error error))))
      >> audit_all e.rules.env (
          run_event e.rules batch run "runs" "run_failed"
            (field "error" (Json.text (e.rules.env.show_error error)) end)
          ∷ [])

  -- after the `try`
  unfoldable pub run_complete :
      String → String → String → Fields → Shortlist F → Exec (State W) (Shortlist F)
  run_complete run batch event detail shortlist =
      set_run_row e.rules.env run (run_to RunStatus.complete (some none))
      >> audit_all e.rules.env (run_event e.rules batch run "runs" event detail ∷ [])
      >> pure shortlist

  abbrev pub executed_fields : Shortlist F → Fields
  executed_fields s = field "shortlisted" (Json.nat (length s.entries)) (
      field "excluded" (Json.nat (length s.excluded))
        (field "manual_review" (Json.nat (length s.manual_review)) end))

  abbrev pub rescreened_fields : ℕ → Shortlist F → Fields
  rescreened_fields screened s = field "candidates" (Json.nat screened) (
      field "shortlisted" (Json.nat (length s.entries))
        (field "excluded" (Json.nat (length s.excluded)) end))

  unfoldable pub execute_run :
      String → List String → Option String → Option String → Exec (State W) (Shortlist F)
  unfolding require_run compile_rules copy_rules evaluate_run run_failed run_complete
  execute_run run texts plan rules_from = require_run e.rules run >>= λ row.
      lift (e.rules.load_role row.role_json) >>= λ role.
      set_run_row e.rules.env run (run_to RunStatus.running none)
      >> on_error
          (rules_of_run run row.batch_id texts role plan rules_from >>= λ rules.
            evaluate_run run row.batch_id role rules)
          (run_failed run row.batch_id)
      >>= λ (screened, shortlist).
          run_complete run row.batch_id "run_complete" (executed_fields shortlist) shortlist

  abbrev pub rescreen_started : String → String → RuleSet F → AuditEntry
  rescreen_started batch run rules =
      run_event e.rules batch run "runs" "rescreen_started"
        (field "applied" (Json.nat (length (applied rules))) end)

  unfoldable pub rescreen : String → Exec (State W) (Shortlist F)
  unfolding require_run rule_set_for evaluate_run run_failed run_complete
  rescreen run = require_run e.rules run >>= λ row.
      lift (e.rules.load_role row.role_json) >>= λ role. rule_set_for e.rules run >>= λ rules.
      set_run_row e.rules.env run (run_to RunStatus.running none)
      >> audit_all e.rules.env (rescreen_started row.batch_id run rules ∷ [])
      >> on_error (evaluate_run run row.batch_id role rules) (run_failed run row.batch_id)
      >>= λ (screened, shortlist).
          run_complete run row.batch_id "rescreen_complete" (rescreened_fields screened shortlist)
            shortlist
