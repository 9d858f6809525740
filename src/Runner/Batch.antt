-- ===== src/Runner/Batch.antt =====
-- rescan/pipeline/runner.py: `create_batch` and `process_batch`. The documents are ingested one
-- after the other, as by one worker: the calls of two workers are about different candidates, and
-- an exception cancels the documents that have not been started.
use Prim.Native.String.{◌++◌ as ◌^◌}
use rescan.Prelude.{
  ℕ, suc, String, Bool, false, not, ◌&&◌, Option, none, some, List, [], ◌∷◌, filter, if◌then◌else◌,
  count_if,
}
use rescan.Prelude.Text.{is_empty, show_nat}
use rescan.Prelude.Result.{ok, PyError, Exec, pure, raise, ◌>>=◌, ◌>>◌}
use rescan.Schemas.{CandidateStatus, BatchStatus}
use rescan.Store.Rows.{Store, CandidateRow, BatchRow, BatchUpdate}
use rescan.Store.Operations.{create_batch, add_candidate, add_duplicate}
use rescan.Store.Reads.{get_batch, list_candidates, batch_count, same_status}
use rescan.Runner.Env.{
  text_or_null, Json, Fields, field, end, Env, State, in_world, in_store, set_candidate_row,
  set_batch_row, audit_all, audit_event, no_update, no_batch_update, on_error, read,
}
use rescan.Runner.Ingest.{ingest_one}

-- a candidate of a batch whose ingestion has not begun
abbrev pub is_pending : CandidateRow → Bool
is_pending c = same_status c.status CandidateStatus.pending

-- `c["candidate_ref"] and c["status"] != PENDING`
abbrev pub has_ref : CandidateRow → Bool
has_ref c = elim c.candidate_ref [
  | none ↦ false
  | some ref ↦ not (is_empty ref) && not (is_pending c)
]

-- the id and the reference that each candidate gets
abbrev pub with_refs : ℕ → List CandidateRow → List (String × String)
with_refs n [] = []
with_refs n (c ∷ cs) = (c.id, "Candidate " ^ show_nat n) ∷ with_refs (suc n) cs

unfoldable pub pending_in : String → Store → List CandidateRow
unfolding list_candidates same_status
pending_in batch s = filter is_pending (list_candidates batch s)

-- `pending`, with the references from `start + 1` on
unfoldable pub planned : String → Store → List (String × String)
unfolding pending_in
planned batch s = with_refs (suc (count_if has_ref (list_candidates batch s))) (pending_in batch s)

abbrev pub batch_to : BatchStatus → Option (Option String) → BatchUpdate
batch_to status error = record no_batch_update { status = some status; error = error }

abbrev pub skipped_fields : String → String → Fields
skipped_fields filename existing =
    field "filename" (Json.text filename) (field "duplicate_of" (Json.text existing) end)

abbrev pub complete_fields : (CandidateStatus → ℕ) → Fields
complete_fields count = field "ready" (Json.nat (count CandidateStatus.ready)) (
    field "needs_manual_review" (Json.nat (count CandidateStatus.needs_manual_review)) (
      field "failed" (Json.nat (count CandidateStatus.failed))
        (field "duplicate" (Json.nat (count CandidateStatus.duplicate)) end)))

module _ {W F Data File : Type 0} (env : Env W F Data File) where
  abbrev pub fresh : String → Exec (State W) String
  fresh prefix s =
      let (digits, w) = env.new_id s.world in (ok (prefix ^ digits), record s { world = w })

  -- what becomes of a file: the counts of those accepted and of the duplicates
  unfoldable pub place_file :
      String → String → String → Data → ℕ × ℕ → Option String → Exec (State W) (ℕ × ℕ)
  place_file batch id filename content (accepted, duplicates) (some existing) =
      in_store env (add_duplicate id batch filename (env.content_hash content) existing)
      >> audit_all env (
          audit_event env batch "ingestion" "duplicate_skipped" (some id)
            (skipped_fields filename existing)
          ∷ [])
      >> pure (accepted, suc duplicates)
  place_file batch id filename content (accepted, duplicates) none =
      in_world (env.write_upload batch (id ^ env.suffix filename) content)
      >> pure (suc accepted, duplicates)

  unfoldable pub upload_all : String → List (String × Data) → ℕ × ℕ → Exec (State W) (ℕ × ℕ)
  unfolding place_file
  upload_all batch [] counts = pure counts
  upload_all batch ((filename, content) ∷ files) counts = fresh "cand_" >>= λ id.
      in_store env (add_candidate id batch filename (env.content_hash content)) >>= λ existing.
      place_file batch id filename content counts existing >>= λ counts'.
      upload_all batch files counts'

  abbrev pub id_or : String → Option String → Exec (State W) String
  id_or prefix none = fresh prefix
  id_or prefix (some id) = if is_empty id then fresh prefix else pure id

  unfoldable pub create_batch_of :
      List (String × Data) → Option String → Option String → Option String → Exec (State W) String
  unfolding upload_all
  create_batch_of files batch_id name source = id_or "batch_" batch_id >>= λ batch.
      in_store env (create_batch batch name source)
      >> in_world (env.make_upload_dir batch)
      >> upload_all batch files (0, 0)
      >>= λ (accepted, duplicates).
          audit_all env (
            audit_event env batch "ingestion" "batch_created" none (
              field "accepted" (Json.nat accepted)
                (field "duplicates" (Json.nat duplicates) (field "name" (text_or_null name) end)))
            ∷ [])
          >> pure batch

  -- the loop that sets the references
  unfoldable pub set_refs : List (String × String) → Exec (State W) (Unit {0})
  set_refs [] = pure tt
  set_refs ((id, ref) ∷ more) =
      set_candidate_row env id (record no_update { candidate_ref = some (some ref) })
      >> set_refs more

  unfoldable pub ingest_all : String → List (String × String) → Exec (State W) (Unit {0})
  unfolding ingest_one
  ingest_all batch [] = pure tt
  ingest_all batch ((id, ref) ∷ more) = ingest_one env batch id ref >>= λ _. ingest_all batch more

  -- the body of the `try`
  unfoldable pub ingest_pending : String → Exec (State W) (Unit {0})
  unfolding planned set_refs ingest_all
  ingest_pending batch = read (planned batch) >>= λ plan. set_refs plan >> ingest_all batch plan

  unfoldable pub batch_failed : String → PyError → Exec (State W) (Unit {0})
  batch_failed batch e =
      set_batch_row env batch (batch_to BatchStatus.failed (some (some (env.show_error e))))
      >> audit_all env (
          audit_event env batch "ingestion" "batch_failed" none
            (field "error" (Json.text (env.show_error e)) end)
          ∷ [])

  -- after the `try`
  unfoldable pub batch_complete : String → Exec (State W) (CandidateStatus → ℕ)
  unfolding batch_count
  batch_complete batch = read (λ s status. batch_count batch status s) >>= λ counts.
      set_batch_row env batch (batch_to BatchStatus.complete none)
      >> audit_all env
          (audit_event env batch "ingestion" "batch_complete" none (complete_fields counts) ∷ [])
      >> pure counts

  abbrev pub known_batch : String → Option BatchRow → Exec (State W) (CandidateStatus → ℕ)
  known_batch batch none = raise PyError.key_error
  known_batch batch (some row) =
      set_batch_row env batch (batch_to BatchStatus.running none)
      >> on_error (ingest_pending batch) (batch_failed batch)
      >> batch_complete batch

  unfoldable pub process_batch : String → Exec (State W) (CandidateStatus → ℕ)
  unfolding get_batch ingest_pending batch_failed batch_complete
  process_batch batch = read (get_batch batch) >>= known_batch batch
