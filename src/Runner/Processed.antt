-- ===== src/Runner/Processed.antt =====
-- rescan/pipeline/runner.py: what a batch that has been processed promises.
use rescan.Prelude.{
  ◌≡◌, refl, subst, ◌⊎◌, inl, inr, ℕ, String, Bool, true, false, ◌||◌, Option, none, some, List, [],
  ◌∷◌, map, All, Bool-cases, arith,
}
use rescan.Prelude.Text.{str_eq, member}
use rescan.Prelude.Result.{Result, ok, err, PyError, Exec, raise, bind-ok, ◌>>=◌, ◌>>◌}
use rescan.Schemas.{CandidateStatus, BatchStatus, AnonymizedProfile}
use rescan.Store.Rows.{CandidateRow, BatchRow}
use rescan.Store.Operations.{update_batch, audit_many}
use rescan.Store.Reads.{get_batch}
use rescan.Runner.Env.{Env, State, handle, on_error, set_batch_row}
use rescan.Runner.Ingest.{ingest_one}
use rescan.Runner.Acts.{rows, change_at}
use rescan.Runner.Waiting.{ids_of_plan, is_waiting, planned-is_waiting}
use rescan.Runner.Settled.{is_ended, Settled, ingest_one-Settled}
use rescan.Runner.Batch.{
  planned, set_refs, ingest_all, ingest_pending, batch_failed, batch_complete, process_batch,
  known_batch, batch_to,
}

Result-cases : {A : Type 0} (r : Result A) → ((a : A) × (r ≡ ok a)) ⊎ ((e : PyError) × (r ≡ err e))
Result-cases (ok a) = inl (a, refl)
Result-cases (err e) = inr (e, refl)

-- A sequence that gives a result has a first part that does.
pub ok-bind :
    {S A B : Type 0} (m : Exec S A) (f : A → Exec S B) (s : S) {b : B}
    → ((m >>= f) s).0 ≡ ok b
    → (a : A) × ((m s).0 ≡ ok a) × ((f a (m s).1).0 ≡ ok b) × ((m >>= f) s ≡ f a (m s).1)
ok-bind m f s h = elim (Result-cases (m s).0) [
  | inl (a, e) ↦ (a, e, rw e at h, bind-ok m f s e)
  | inr (x, e) ↦ absurd (cc (rw e at h))
]

handle-ok :
    {S A : Type 0} (handler : PyError → Exec S (Unit {0})) (r : Result A) (s : S) {a : A}
    → (handle handler r s).0 ≡ ok a
    → (r ≡ ok a) × (handle handler r s ≡ (r, s))
handle-ok handler (ok b) s h = (h, refl)
handle-ok handler (err e) s h =
    let (x, one, rest, same) = ok-bind (handler e) (λ _. raise e) s h in absurd (cc rest)

-- ready, failed or sent to manual review
abbrev pub is_done : CandidateStatus → Bool
is_done CandidateStatus.ready = true
is_done status = is_ended status

ended-done : (s : CandidateStatus) → is_ended s ≡ true → is_done s ≡ true
ended-done CandidateStatus.pending h = h
ended-done CandidateStatus.extracting h = h
ended-done CandidateStatus.structuring h = h
ended-done CandidateStatus.anonymizing h = h
ended-done CandidateStatus.ready h = refl
ended-done CandidateStatus.needs_manual_review h = refl
ended-done CandidateStatus.failed h = refl
ended-done CandidateStatus.duplicate h = h

-- the candidates whose id is wanted are done
abbrev pub AllDone : (String → Bool) → List CandidateRow → Type 0
AllDone want cs =
    All (λ c. want (CandidateRow.id c) ≡ true → is_done (CandidateRow.status c) ≡ true) cs

change_at-AllDone :
    (want : String → Bool) (id : String) (g : CandidateRow → CandidateRow) (cs : List CandidateRow)
    → ((c : CandidateRow) → is_done (CandidateRow.status (g c)) ≡ true)
    → AllDone want cs
    → AllDone (λ i. want i || str_eq i id) (map (change_at id g) cs)
change_at-AllDone want id g [] made h = tt
change_at-AllDone want id g (c ∷ cs) made (h, hs) = (one, change_at-AllDone want id g cs made hs)
  where
    one :
        (want (CandidateRow.id (change_at id g c))
            || str_eq (CandidateRow.id (change_at id g c)) id)
          ≡ true
        → is_done (CandidateRow.status (change_at id g c)) ≡ true
    one = elim (Bool-cases (str_eq c.id id)) [
      | inl same ↦ rw same (λ _. made c)
      | inr other ↦ rw (other, other) (λ w. h (ground (arith, w)))
    ]

module _ {W F Data File : Type 0} (env : Env W F Data File) (batch : String) where
  Settled-done :
      (r : Option (AnonymizedProfile F)) (g : CandidateRow → CandidateRow)
      → Settled env (ok r) g
      → (c : CandidateRow) → is_done (CandidateRow.status (g c)) ≡ true
  Settled-done none g (kept, ended) c = ended-done _ (ended c)
  Settled-done (some p) g s c = rw (s c).0 refl

  ingest_one-AllDone :
      (want : String → Bool) (id ref : String) (s : State W) {r : Option (AnonymizedProfile F)}
      → (ingest_one env batch id ref s).0 ≡ ok r
      → AllDone want (rows s)
      → AllDone (λ i. want i || str_eq i id) (rows (ingest_one env batch id ref s).1)
  ingest_one-AllDone want id ref s {r} e h =
      let (g, keeps, moved, settled) = ingest_one-Settled env batch id ref s in
      rw moved (change_at-AllDone want id g (rows s) (Settled-done r g (rw e at settled)) h)

  no_more :
      (want : String → Bool) (cs : List CandidateRow)
      → AllDone want cs
      → AllDone (λ i. want i || false) cs
  no_more want [] h = tt
  no_more want (c ∷ cs) (h, hs) = (λ w. h (ground (arith, w)), no_more want cs hs)

  none_wanted : (cs : List CandidateRow) → AllDone (λ i. false) cs
  none_wanted [] = tt
  none_wanted (c ∷ cs) = (λ w. absurd (cc w), none_wanted cs)

  regroup :
      (want : String → Bool) (id : String) (ids : List String) (cs : List CandidateRow)
      → AllDone (λ i. (want i || str_eq i id) || member i ids) cs
      → AllDone (λ i. want i || member i (id ∷ ids)) cs
  regroup want id ids [] h = tt
  regroup want id ids (c ∷ cs) (h, hs) = (λ w. h (ground (arith, w)), regroup want id ids cs hs)

  ingest_all-AllDone :
      (want : String → Bool) (plan : List (String × String)) (s : State W)
      → (ingest_all env batch plan s).0 ≡ ok tt
      → AllDone want (rows s)
      → AllDone (λ i. want i || member i (ids_of_plan plan)) (rows (ingest_all env batch plan s).1)
  unfolding ingest_all
  ingest_all-AllDone want [] s e h = no_more want (rows s) h
  ingest_all-AllDone want ((id, ref) ∷ more) s e h =
      let (r, one, rest, same) =
        ok-bind (ingest_one env batch id ref) (λ _. ingest_all env batch more) s e in
      rw same (
        regroup want id (ids_of_plan more) _ (
          ingest_all-AllDone (λ i. want i || str_eq i id) more (ingest_one env batch id ref s).1
            rest (ingest_one-AllDone want id ref s one h)))

  ingest_pending-AllDone :
      (s : State W)
      → (ingest_pending env batch s).0 ≡ ok tt
      → AllDone
          (λ i. member i (ids_of_plan (planned batch s.store)))
          (rows (ingest_pending env batch s).1)
  unfolding ingest_pending
  ingest_pending-AllDone s e =
      let plan = planned batch s.store in
      let (x, one, rest, same) = ok-bind (set_refs env plan) (λ _. ingest_all env batch plan) s e in
      rw same (ingest_all-AllDone (λ i. false) plan (set_refs env plan s).1 rest (none_wanted _))

  known_batch-AllDone :
      (row : BatchRow) (s : State W) {counts : CandidateStatus → ℕ}
      → (known_batch env batch (some row) s).0 ≡ ok counts
      → AllDone
          (λ i. member i (ids_of_plan (planned batch s.store)))
          (rows (known_batch env batch (some row) s).1)
  unfolding update_batch planned batch_complete audit_many
  known_batch-AllDone row s e =
      let begin = set_batch_row env batch (batch_to BatchStatus.running none) in
      let body = on_error (ingest_pending env batch) (batch_failed env batch) in
      let (x, one, rest, same) = ok-bind (begin >> body) (λ _. batch_complete env batch) s e in
      let (done, through) =
        handle-ok (batch_failed env batch) (ingest_pending env batch (begin s).1).0
          (ingest_pending env batch (begin s).1).1 one in
      rw same (rw through (ingest_pending-AllDone (begin s).1 done))

  known-AllDone :
      (o : Option BatchRow) (s : State W) {counts : CandidateStatus → ℕ}
      → (known_batch env batch o s).0 ≡ ok counts
      → AllDone
          (λ i. member i (ids_of_plan (planned batch s.store)))
          (rows (known_batch env batch o s).1)
  known-AllDone none s e = absurd (cc e)
  known-AllDone (some row) s e = known_batch-AllDone row s e

  -- If a batch has been processed without an exception, each candidate of it that was pending
  -- before is ready, failed or sent to manual review, whatever the extraction and the model passes
  -- do.
  pub process_batch-AllDone :
      (s : State W) {counts : CandidateStatus → ℕ}
      → (process_batch env batch s).0 ≡ ok counts
      → AllDone (is_waiting batch s.store.candidates) (rows (process_batch env batch s).1)
  unfolding process_batch
  process_batch-AllDone s e =
      subst (λ want. AllDone want (rows (process_batch env batch s).1))
        (λ i. λ id. planned-is_waiting batch s.store id i)
        (known-AllDone (get_batch batch s.store) s e)
