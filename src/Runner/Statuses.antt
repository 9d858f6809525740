-- ===== src/Runner/Statuses.antt =====
-- rescan/pipeline/runner.py: the status of a batch whose ingestion has ended, and the rows of a
-- batch that has been created.
use rescan.Prelude.{
  ◌≡◌, refl, String, true, Option, none, some, List, [], ◌∷◌, map, if◌then◌else◌, All, Bool-cases,
  inl, inr,
}
use rescan.Prelude.Text.{str_eq}
use rescan.Prelude.Result.{Result, ok, err, continue}
use rescan.Schemas.{BatchStatus}
use rescan.Store.Rows.{BatchRow}
use rescan.Store.Operations.{update_batch, set_batch, audit_many}
use rescan.Store.Reads.{get_batch}
use rescan.Runner.Env.{Env, State, set_batch_row, handle}
use rescan.Runner.Batch.{
  ingest_pending, batch_failed, batch_complete, batch_to, known_batch, process_batch,
}

-- the rows of the batch have the status
abbrev pub BatchIs : String → BatchStatus → List BatchRow → Type 0
BatchIs batch status bs =
    All (λ b. str_eq (BatchRow.id b) batch ≡ true → BatchRow.status b ≡ status) bs

set_batch-BatchIs :
    (batch : String) (status : BatchStatus) (error : Option (Option String)) (now : String)
    (bs : List BatchRow)
    → BatchIs batch status (
        map
          (λ b. if str_eq (BatchRow.id b) batch then set_batch (batch_to status error) now b else b)
          bs)
set_batch-BatchIs batch status error now [] = tt
set_batch-BatchIs batch status error now (b ∷ bs) =
    (one, set_batch-BatchIs batch status error now bs)
  where
    set : BatchRow
    set = if str_eq (BatchRow.id b) batch then set_batch (batch_to status error) now b else b

    one : str_eq (BatchRow.id set) batch ≡ true → BatchRow.status set ≡ status
    one = elim (Bool-cases (str_eq b.id batch)) [
      | inl same ↦ rw same (λ h. refl)
      | inr other ↦ rw other (λ h. absurd (cc (other, h)))
    ]

module _ {W F Data File : Type 0} (env : Env W F Data File) (batch : String) where
  -- the status that goes with a result
  abbrev pub StatusFits : {A : Type 0} → Result A × State W → Type 0
  StatusFits (ok a, s) = BatchIs batch BatchStatus.complete s.store.batches
  StatusFits (err e, s) = BatchIs batch BatchStatus.failed s.store.batches

  finish :
      (r : Result (Unit {0})) (t : State W)
      → StatusFits (
          continue
            (handle (batch_failed env batch) r t).0
            (λ _. batch_complete env batch)
            (handle (batch_failed env batch) r t).1)
  unfolding batch_failed batch_complete update_batch audit_many
  finish (ok x) t =
      set_batch-BatchIs batch BatchStatus.complete none (env.now t.world).0 t.store.batches
  finish (err e) t =
      set_batch-BatchIs batch BatchStatus.failed (some (some (env.show_error e)))
        (env.now t.world).0 t.store.batches

  known-StatusFits :
      (row : BatchRow) (s : State W) → StatusFits (known_batch env batch (some row) s)
  unfolding update_batch
  known-StatusFits row s =
      let begin = set_batch_row env batch (batch_to BatchStatus.running none) s in
      let r = ingest_pending env batch begin.1 in finish r.0 r.1

  -- The ingestion of a batch that is there always ends with the batch complete, where it gives the
  -- counts, or failed, where it raises: no batch stays running.
  pub process_batch-StatusFits :
      (s : State W) (row : BatchRow)
      → get_batch batch s.store ≡ some row
      → StatusFits (process_batch env batch s)
  unfolding process_batch
  process_batch-StatusFits s row h = rw (h, process_batch) (known-StatusFits row s)
