-- ===== src/Runner/Waiting.antt =====
-- rescan/pipeline/runner.py: which candidates the plan of `process_batch` is about.
use rescan.Prelude.{
  ◌≡◌, refl, ap, ◌∙◌, ℕ, suc, String, Bool, true, false, ◌&&◌, ◌||◌, List, [], ◌∷◌, any, filter,
  arith,
}
use rescan.Prelude.Text.{str_eq, member}
use rescan.Schemas.{CandidateStatus}
use rescan.Store.Rows.{Store, CandidateRow}
use rescan.Store.Reads.{same_status, insert_by, order_by, in_batch, listed_before, list_candidates}
use rescan.Runner.Batch.{is_pending, with_refs, pending_in, planned}

-- the ids of a plan
abbrev pub ids_of_plan : List (String × String) → List String
ids_of_plan [] = []
ids_of_plan ((id, ref) ∷ more) = id ∷ ids_of_plan more

-- its ingestion has not begun
abbrev pub waits : CandidateStatus → Bool
waits CandidateStatus.pending = true
waits _ = false

-- Whether an id is that of a candidate of the batch whose ingestion has not begun.
abbrev pub is_waiting : String → List CandidateRow → String → Bool
is_waiting batch [] id = false
is_waiting batch (c ∷ cs) id =
    (str_eq id c.id && str_eq c.batch_id batch && waits c.status) || is_waiting batch cs id

is_pending-waits :
    (status : CandidateStatus) → same_status status CandidateStatus.pending ≡ waits status
unfolding same_status
is_pending-waits CandidateStatus.pending = refl
is_pending-waits CandidateStatus.extracting = refl
is_pending-waits CandidateStatus.structuring = refl
is_pending-waits CandidateStatus.anonymizing = refl
is_pending-waits CandidateStatus.ready = refl
is_pending-waits CandidateStatus.needs_manual_review = refl
is_pending-waits CandidateStatus.failed = refl
is_pending-waits CandidateStatus.duplicate = refl

any-insert_by :
    {A : Type 0} (test : A → Bool) (lt : A → A → Bool) (x : A) (xs : List A)
    → any test (insert_by lt x xs) ≡ (test x || any test xs)
any-insert_by test lt x [] = refl
any-insert_by test lt x (y ∷ ys) = ground (arith, any-insert_by test lt x ys)

any-order_by :
    {A : Type 0} (test : A → Bool) (lt : A → A → Bool) (xs : List A)
    → any test (order_by lt xs) ≡ any test xs
unfolding order_by
any-order_by test lt [] = refl
any-order_by test lt (x ∷ xs) =
    any-insert_by test lt x (order_by lt xs) ∙ ap (λ b. test x || b) (any-order_by test lt xs)

any-filter :
    {A : Type 0} (test keep : A → Bool) (xs : List A)
    → any test (filter keep xs) ≡ any (λ x. keep x && test x) xs
any-filter test keep [] = refl
any-filter test keep (x ∷ xs) = ground (arith, any-filter test keep xs)

member-with_refs :
    (id : String) (n : ℕ) (cs : List CandidateRow)
    → member id (ids_of_plan (with_refs n cs)) ≡ any (λ c. str_eq id (CandidateRow.id c)) cs
member-with_refs id n [] = refl
member-with_refs id n (c ∷ cs) = ap (λ b. str_eq id c.id || b) (member-with_refs id (suc n) cs)

any-is_waiting :
    (id batch : String) (cs : List CandidateRow)
    → any (λ c. in_batch batch c && (is_pending c && str_eq id (CandidateRow.id c))) cs
      ≡ is_waiting batch cs id
any-is_waiting id batch [] = refl
any-is_waiting id batch (c ∷ cs) =
    ground (arith, is_pending-waits c.status, any-is_waiting id batch cs)

-- The plan has the candidates whose ingestion has not begun, and no others.
pub planned-is_waiting :
    (batch : String) (s : Store) (id : String)
    → member id (ids_of_plan (planned batch s)) ≡ is_waiting batch s.candidates id
unfolding planned pending_in list_candidates
planned-is_waiting batch s id =
    let named : CandidateRow → Bool = λ c. is_pending c && str_eq id c.id in
    member-with_refs id _ (filter is_pending (list_candidates batch s))
    ∙ any-filter (λ c. str_eq id (CandidateRow.id c)) is_pending (list_candidates batch s)
    ∙ any-order_by named listed_before (filter (in_batch batch) s.candidates)
    ∙ any-filter named (in_batch batch) s.candidates
    ∙ any-is_waiting id batch s.candidates
