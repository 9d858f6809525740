-- ===== src/Tests/Storing.antt =====
-- A store with a batch, a run and two uploads of one resume.
use rescan.Prelude.{◌≡◌, refl, suc, none, some, List, [], ◌∷◌, ◌++◌, length}
use rescan.Prelude.Result.{ok}
use rescan.Schemas.{CandidateOutcome}
use rescan.Store.Rows.{ResultRow, AuditEntry, Store}
use rescan.Store.Calls.{Operation}
use rescan.Store.Operations.{add_candidate, audit_rows}
use rescan.Store.Invariant.{IsKeyedStore, after, after_all, empty_store, after_all-IsKeyedStore}
use rescan.Store.Trail.{results_of, after-audit, after-results}
use rescan.Store.Dedup.{add_candidate-again}

abbrev result : ResultRow
result = record {
  run_id = "r2";
  candidate_id = "c1";
  candidate_ref = "C-1";
  outcome = CandidateOutcome.eligible;
  screening_json = none;
  score_json = some "{}";
  updated_at = "t5";
}

abbrev note : AuditEntry
note = record {
  batch_id = "b1";
  run_id = none;
  candidate_id = some "c1";
  stage = "extraction";
  event = "extracted";
  detail = "{}";
}

abbrev calls : List Operation
calls =
    Operation.create_batch "b1" none none "t1"
    ∷ Operation.add_candidate "c1" "b1" "a.pdf" "h1" "t2"
    ∷ Operation.add_candidate "c2" "b1" "b.pdf" "h1" "t3"
    ∷ Operation.add_duplicate "c2" "b1" "b.pdf" "h1" "c1" "t3"
    ∷ Operation.create_run "r1" "b1" "{}" none "t4"
    ∷ Operation.create_run "r2" "b1" "{}" none "t4"
    ∷ Operation.put_result result
    ∷ Operation.audit_many (note ∷ []) "t6"
    ∷ []

-- the second upload is kept as a duplicate
two_candidates : length (Store.candidates (after_all calls empty_store)) ≡ 2
unfolding after add_candidate
two_candidates = refl

after_all-IsKeyedStore_example : IsKeyedStore (after_all calls empty_store)
after_all-IsKeyedStore_example = after_all-IsKeyedStore calls

after-audit_example :
    Store.audit (after (Operation.audit_many (note ∷ []) "t7") (after_all calls empty_store))
    ≡ Store.audit (after_all calls empty_store)
      ++ audit_rows (suc (length (Store.audit (after_all calls empty_store)))) "t7" (note ∷ [])
after-audit_example =
    after-audit (Operation.audit_many (note ∷ []) "t7") (after_all calls empty_store)

after-results_example :
    results_of "r2" (after (Operation.clear_results "r1") (after_all calls empty_store))
    ≡ results_of "r2" (after_all calls empty_store)
after-results_example =
    after-results "r2" (Operation.clear_results "r1") (after_all calls empty_store) refl

abbrev with_batch : Store
with_batch = after (Operation.create_batch "b1" none none "t1") empty_store

add_candidate-again_example :
    let s' = (add_candidate "c1" "b1" "a.pdf" "h1" "t2" with_batch).1 in
    ((add_candidate "c1" "b1" "a.pdf" "h1" "t2" with_batch).0 ≡ ok none)
    × (add_candidate "c9" "b1" "b.pdf" "h1" "t9" s' ≡ (ok (some "c1"), s'))
unfolding after
add_candidate-again_example =
    add_candidate-again "c1" "b1" "a.pdf" "h1" "t2" "c9" "b.pdf" "t9" with_batch refl refl refl
