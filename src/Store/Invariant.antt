-- ===== src/Store/Invariant.antt =====
-- rescan/store.py: the keys of the tables hold after any sequence of operations.
use rescan.Prelude.{
  ◌≡◌, refl, String, Bool, false, ◌&&◌, ◌||◌, Option, List, [], ◌∷◌, any, arith, Option-cases, inl,
  inr, if_elim,
}
use rescan.Prelude.Text.{str_eq}
use rescan.Prelude.Result.{Result}
use rescan.Store.Rows.{BatchRow, CandidateRow, RunRow, ResultRow, Store}
use rescan.Store.Calls.{Operation}
use rescan.Store.Operations.{
  create_batch, update_batch, insert_candidate, insert_new, add_candidate, add_duplicate,
  update_candidate, create_run, update_run, upsert, put_result, set_result_score, clear_results,
  audit_many, find, is_in, has_batch, has_candidate, has_run, is_result, merge_result, set_batch,
  set_candidate, set_run, set_score,
}
use rescan.Store.Tables.{
  IsKeyed, snoc-IsKeyed, set_where-IsKeyed, filter-IsKeyed, update_rows-IsKeyed,
}

-- the store after a call, which may have raised
unfoldable pub after : Operation → Store → Store
unfolding create_batch update_batch add_candidate add_duplicate update_candidate create_run
    update_run put_result set_result_score clear_results audit_many
after (Operation.create_batch id name source now) s = (create_batch id name source now s).1
after (Operation.update_batch id u now) s = (update_batch id u now s).1
after (Operation.add_candidate id batch filename hash now) s =
    (add_candidate id batch filename hash now s).1
after (Operation.add_duplicate id batch filename hash other now) s =
    (add_duplicate id batch filename hash other now s).1
after (Operation.update_candidate id u now) s = (update_candidate id u now s).1
after (Operation.create_run id batch role name now) s = (create_run id batch role name now s).1
after (Operation.update_run id u now) s = (update_run id u now s).1
after (Operation.put_result row) s = (put_result row s).1
after (Operation.set_result_score run candidate score now) s =
    (set_result_score run candidate score now s).1
after (Operation.clear_results run) s = (clear_results run s).1
after (Operation.audit_many es now) s = (audit_many es now s).1

abbrev same_batch : BatchRow → BatchRow → Bool
same_batch a b = str_eq a.id b.id

abbrev same_candidate : CandidateRow → CandidateRow → Bool
same_candidate a b = str_eq a.id b.id

abbrev pub same_resume : CandidateRow → CandidateRow → Bool
same_resume a b = str_eq a.batch_id b.batch_id && str_eq a.content_hash b.content_hash

abbrev same_run : RunRow → RunRow → Bool
same_run a b = str_eq a.id b.id

abbrev same_result : ResultRow → ResultRow → Bool
same_result a b = str_eq a.run_id b.run_id && str_eq a.candidate_id b.candidate_id

-- the primary keys, and one candidate for a resume in a batch
pub record IsKeyedStore (s : Store) : Type 0 where
  pub batch_ids : IsKeyed same_batch s.batches
  pub candidate_ids : IsKeyed same_candidate s.candidates
  pub resumes : IsKeyed same_resume s.candidates
  pub run_ids : IsKeyed same_run s.runs
  pub result_keys : IsKeyed same_result s.results

abbrev EndsKeyed : Result (Unit {0}) × Store → Type 0
EndsKeyed r = IsKeyedStore r.1

create_batch-IsKeyedStore :
    (id : String) (name source : Option String) (now : String) (s : Store)
    → IsKeyedStore s
    → IsKeyedStore (create_batch id name source now s).1
unfolding create_batch
create_batch-IsKeyedStore id name source now s k =
    if_elim EndsKeyed (has_batch id s) (λ _. k)
      λ h. record {
        batch_ids = snoc-IsKeyed same_batch s.batches _ h k.batch_ids;
        candidate_ids = k.candidate_ids;
        resumes = k.resumes;
        run_ids = k.run_ids;
        result_keys = k.result_keys;
      }

or_false : (a b : Bool) → (a || b) ≡ false → (a ≡ false) × (b ≡ false)
or_false a b h = (ground (arith, h), ground (arith, h))

insert_candidate-IsKeyedStore :
    (row : CandidateRow) (s : Store) → IsKeyedStore s → IsKeyedStore (insert_candidate row s).1
unfolding insert_candidate
insert_candidate-IsKeyedStore row s k =
    if_elim EndsKeyed _ (λ _. k)
      λ h.
        let (keys, _) =
          or_false
            (has_candidate row.id s || any (is_in row.batch_id row.content_hash) s.candidates) _
            h in
        let (ids, hashes) = or_false (has_candidate row.id s) _ keys in
        record {
          batch_ids = k.batch_ids;
          candidate_ids = snoc-IsKeyed same_candidate s.candidates row ids k.candidate_ids;
          resumes = snoc-IsKeyed same_resume s.candidates row hashes k.resumes;
          run_ids = k.run_ids;
          result_keys = k.result_keys;
        }

add_candidate-IsKeyedStore :
    (id batch filename hash now : String) (s : Store)
    → IsKeyedStore s
    → IsKeyedStore (add_candidate id batch filename hash now s).1
unfolding add_candidate insert_new
add_candidate-IsKeyedStore id batch filename hash now s k =
    elim (Option-cases (find (is_in batch hash) s.candidates)) [
      | inl h ↦ rw (h, add_candidate) (insert_candidate-IsKeyedStore _ s k)
      | inr (row, h) ↦ rw (h, add_candidate) k
    ]

create_run-IsKeyedStore :
    (id batch role : String) (name : Option String) (now : String) (s : Store)
    → IsKeyedStore s
    → IsKeyedStore (create_run id batch role name now s).1
unfolding create_run
create_run-IsKeyedStore id batch role name now s k =
    if_elim EndsKeyed _ (λ _. k)
      λ h.
        let (ids, _) = or_false (has_run id s) _ h in
        record {
          batch_ids = k.batch_ids;
          candidate_ids = k.candidate_ids;
          resumes = k.resumes;
          run_ids = snoc-IsKeyed same_run s.runs _ ids k.run_ids;
          result_keys = k.result_keys;
        }

upsert-IsKeyed :
    (new : ResultRow) (rows : List ResultRow)
    → IsKeyed same_result rows
    → IsKeyed same_result (upsert new rows)
unfolding upsert
upsert-IsKeyed new rows k =
    if_elim (IsKeyed same_result) (any (is_result new.run_id new.candidate_id) rows)
      (λ _.
        set_where-IsKeyed same_result (is_result new.run_id new.candidate_id) (merge_result new)
          rows (λ y z. refl) (λ y z. refl) k)
      (λ h. snoc-IsKeyed same_result rows new h k)

put_result-IsKeyedStore :
    (row : ResultRow) (s : Store) → IsKeyedStore s → IsKeyedStore (put_result row s).1
unfolding put_result
put_result-IsKeyedStore row s k =
    if_elim EndsKeyed (has_run row.run_id s && has_candidate row.candidate_id s)
      (λ _. record {
        batch_ids = k.batch_ids;
        candidate_ids = k.candidate_ids;
        resumes = k.resumes;
        run_ids = k.run_ids;
        result_keys = upsert-IsKeyed row s.results k.result_keys;
      })
      (λ _. k)

-- Each method that changes the tables keeps their keys: no two batches, candidates or runs share an
-- id, a run has one result for a candidate, and a batch has one candidate for a content hash. This
-- covers the calls that raise and those that find a duplicate.
pub after-IsKeyedStore : (o : Operation) (s : Store) → IsKeyedStore s → IsKeyedStore (after o s)
unfolding after update_batch add_duplicate update_candidate update_run set_result_score
    clear_results audit_many
after-IsKeyedStore (Operation.create_batch id name source now) s k =
    create_batch-IsKeyedStore id name source now s k
after-IsKeyedStore (Operation.update_batch id u now) s k = record {
  batch_ids =
      update_rows-IsKeyed same_batch _ _ (set_batch u now) s.batches (λ y z. refl) (λ y z. refl)
        k.batch_ids;
  candidate_ids = k.candidate_ids;
  resumes = k.resumes;
  run_ids = k.run_ids;
  result_keys = k.result_keys;
}
after-IsKeyedStore (Operation.add_candidate id batch filename hash now) s k =
    add_candidate-IsKeyedStore id batch filename hash now s k
after-IsKeyedStore (Operation.add_duplicate id batch filename hash other now) s k =
    insert_candidate-IsKeyedStore _ s k
after-IsKeyedStore (Operation.update_candidate id u now) s k = record {
  batch_ids = k.batch_ids;
  candidate_ids =
      update_rows-IsKeyed same_candidate _ _ (set_candidate u now) s.candidates (λ y z. refl)
        (λ y z. refl) k.candidate_ids;
  resumes =
      update_rows-IsKeyed same_resume _ _ (set_candidate u now) s.candidates (λ y z. refl)
        (λ y z. refl) k.resumes;
  run_ids = k.run_ids;
  result_keys = k.result_keys;
}
after-IsKeyedStore (Operation.create_run id batch role name now) s k =
    create_run-IsKeyedStore id batch role name now s k
after-IsKeyedStore (Operation.update_run id u now) s k = record {
  batch_ids = k.batch_ids;
  candidate_ids = k.candidate_ids;
  resumes = k.resumes;
  run_ids =
      update_rows-IsKeyed same_run _ _ (set_run u now) s.runs (λ y z. refl) (λ y z. refl) k.run_ids;
  result_keys = k.result_keys;
}
after-IsKeyedStore (Operation.put_result row) s k = put_result-IsKeyedStore row s k
after-IsKeyedStore (Operation.set_result_score run candidate score now) s k = record {
  batch_ids = k.batch_ids;
  candidate_ids = k.candidate_ids;
  resumes = k.resumes;
  run_ids = k.run_ids;
  result_keys =
      set_where-IsKeyed same_result _ (set_score score now) s.results (λ y z. refl) (λ y z. refl)
        k.result_keys;
}
after-IsKeyedStore (Operation.clear_results run) s k = record {
  batch_ids = k.batch_ids;
  candidate_ids = k.candidate_ids;
  resumes = k.resumes;
  run_ids = k.run_ids;
  result_keys = filter-IsKeyed same_result _ s.results k.result_keys;
}
after-IsKeyedStore (Operation.audit_many es now) s k = record {
  batch_ids = k.batch_ids;
  candidate_ids = k.candidate_ids;
  resumes = k.resumes;
  run_ids = k.run_ids;
  result_keys = k.result_keys;
}

abbrev pub after_all : List Operation → Store → Store
after_all [] s = s
after_all (o ∷ os) s = after_all os (after o s)

abbrev pub empty_store : Store
empty_store = record { batches = []; candidates = []; runs = []; results = []; audit = [] }

-- From an empty database, the tables keep their keys after any sequence of calls, raising ones
-- included: in particular a batch never holds two candidates with the same content hash.
pub after_all-IsKeyedStore : (os : List Operation) → IsKeyedStore (after_all os empty_store)
after_all-IsKeyedStore os = go os empty_store empty-IsKeyedStore
  where
    go : (os : List Operation) (s : Store) → IsKeyedStore s → IsKeyedStore (after_all os s)
    go = elim [ [] ↦ λ s k. k | o ∷ (rest → ih) ↦ λ s k. ih (after o s) (after-IsKeyedStore o s k) ]

    empty-IsKeyedStore : IsKeyedStore empty_store
    empty-IsKeyedStore = record {
      batch_ids = tt;
      candidate_ids = tt;
      resumes = tt;
      run_ids = tt;
      result_keys = tt;
    }
