-- ===== src/Store/Trail.antt =====
-- rescan/store.py: the audit trail only grows, runs do not touch each other's results, and a resume
-- that is uploaded again is found.
use rescan.Prelude.{
  ◌≡◌, refl, sym, ◌∙◌, subst, suc, String, Bool, true, false, not, List, [], ◌∷◌, ◌++◌, map,
  append-nil, filter, filter-append, if◌then◌else◌, any, arith, length, if_elim, Bool-cases,
  Option-cases, inl, inr,
}
use rescan.Prelude.Text.{str_eq, eq_iff}
use rescan.Store.Rows.{AuditEntry, ResultRow, CandidateRow, Store}
use rescan.Store.Calls.{Operation}
use rescan.Store.Operations.{
  create_batch, update_batch, insert_candidate, insert_new, add_candidate, add_duplicate,
  update_candidate, create_run, update_run, upsert, put_result, set_result_score, set_score,
  clear_results, audit_many, audit_rows, find, is_in, is_result, merge_result,
}
use rescan.Store.Invariant.{after}

-- the entries a call writes to the trail
abbrev pub entries_of : Operation → List AuditEntry × String
entries_of (Operation.audit_many es now) = (es, now)
entries_of _ = ([], "")

module _ {S A : Type 0} where
  same_if :
      {R : Type 0} (f : S → A) (b : Bool) (x y : R × S) (a : A)
      → f x.1 ≡ a
      → f y.1 ≡ a
      → f ((if b then x else y).1) ≡ a
  same_if f true x y a hx hy = hx
  same_if f false x y a hx hy = hy

insert_candidate-audit :
    (row : CandidateRow) (s : Store) → Store.audit (insert_candidate row s).1 ≡ s.audit
unfolding insert_candidate
insert_candidate-audit row s = same_if (λ t. Store.audit t) _ _ _ s.audit refl refl

add_candidate-audit :
    (id batch filename hash now : String) (s : Store)
    → Store.audit (add_candidate id batch filename hash now s).1 ≡ s.audit
unfolding add_candidate insert_new
add_candidate-audit id batch filename hash now s =
    elim (Option-cases (find (is_in batch hash) s.candidates)) [
      | inl h ↦ rw (h, add_candidate) (insert_candidate-audit _ s)
      | inr (row, h) ↦ rw (h, add_candidate) refl
    ]

-- Each method leaves the rows of the audit trail as they are and in their order, and adds after
-- them the rows of its own entries, numbered on from the last one; only an audit call has entries.
pub after-audit :
    (o : Operation) (s : Store)
    → Store.audit (after o s)
      ≡ s.audit ++ audit_rows (suc (length s.audit)) (entries_of o).1 (entries_of o).0
unfolding after create_batch update_batch add_duplicate update_candidate create_run update_run
    put_result set_result_score clear_results audit_many
after-audit (Operation.create_batch id name source now) s =
    same_if (λ t. Store.audit t) _ _ _ s.audit refl refl ∙ sym (append-nil s.audit)
after-audit (Operation.update_batch id u now) s = sym (append-nil s.audit)
after-audit (Operation.add_candidate id batch filename hash now) s =
    add_candidate-audit id batch filename hash now s ∙ sym (append-nil s.audit)
after-audit (Operation.add_duplicate id batch filename hash other now) s =
    insert_candidate-audit _ s ∙ sym (append-nil s.audit)
after-audit (Operation.update_candidate id u now) s = sym (append-nil s.audit)
after-audit (Operation.create_run id batch role name now) s =
    same_if (λ t. Store.audit t) _ _ _ s.audit refl refl ∙ sym (append-nil s.audit)
after-audit (Operation.update_run id u now) s = sym (append-nil s.audit)
after-audit (Operation.put_result row) s =
    same_if (λ t. Store.audit t) _ _ _ s.audit refl refl ∙ sym (append-nil s.audit)
after-audit (Operation.set_result_score run candidate score now) s = sym (append-nil s.audit)
after-audit (Operation.clear_results run) s = sym (append-nil s.audit)
after-audit (Operation.audit_many es now) s = refl

-- the results of one run
abbrev pub results_of : String → Store → List ResultRow
results_of run s = filter (λ r. str_eq (ResultRow.run_id r) run) s.results

-- whether a call is about the results of the run
abbrev pub concerns : String → Operation → Bool
concerns run (Operation.put_result row) = str_eq row.run_id run
concerns run (Operation.set_result_score other candidate score now) = str_eq other run
concerns run (Operation.clear_results other) = str_eq other run
concerns run _ = false

filter-set_where :
    {A : Type 0} (q is_row : A → Bool) (set : A → A) (xs : List A)
    → ((x : A) → is_row x ≡ true → q x ≡ false)
    → ((x : A) → q (set x) ≡ q x)
    → filter q (map (λ r. if is_row r then set r else r) xs) ≡ filter q xs
filter-set_where q is_row set [] other same = refl
filter-set_where q is_row set (x ∷ xs) other same =
    let rest = filter-set_where q is_row set xs other same in
    elim (Bool-cases (is_row x)) [
      | inl h ↦ rw (h, same x, other x h) rest
      | inr h ↦ rw h (λ i. if q x then x ∷ rest i else rest i)
    ]

filter-filter :
    {A : Type 0} (q p : A → Bool) (xs : List A)
    → ((x : A) → q x ≡ true → p x ≡ true)
    → filter q (filter p xs) ≡ filter q xs
filter-filter q p [] h = refl
filter-filter q p (x ∷ xs) h =
    let rest = filter-filter q p xs h in
    elim (Bool-cases (p x)) [
      | inl kept ↦ rw kept (λ i. if q x then x ∷ rest i else rest i)
      | inr dropped ↦ rw (dropped, dropped_too (q x) (p x) (h x) dropped) rest
    ]
  where
    dropped_too : (a b : Bool) → (a ≡ true → b ≡ true) → b ≡ false → a ≡ false
    dropped_too true b h k = sym (h refl) ∙ k
    dropped_too false b h k = refl

other_run :
    (a run other : String) → str_eq a other ≡ true → str_eq other run ≡ false → str_eq a run ≡ false
other_run a run other same differ =
    subst (λ x. str_eq x run ≡ false) (sym ((eq_iff a other).0 same)) differ

is_result-other :
    (other candidate run : String)
    → str_eq other run ≡ false
    → (r : ResultRow) → is_result other candidate r ≡ true
    → str_eq r.run_id run ≡ false
is_result-other other candidate run differ r h =
    other_run r.run_id run other (ground (arith, h)) differ

upsert-results :
    (new : ResultRow) (run : String) (rows : List ResultRow)
    → str_eq new.run_id run ≡ false
    → filter (λ r. str_eq (ResultRow.run_id r) run) (upsert new rows)
      ≡ filter (λ r. str_eq (ResultRow.run_id r) run) rows
unfolding upsert
upsert-results new run rows differ =
    if_elim
      (λ rs.
        filter (λ r. str_eq (ResultRow.run_id r) run) rs
        ≡ filter (λ r. str_eq (ResultRow.run_id r) run) rows)
      (any (is_result new.run_id new.candidate_id) rows)
      (λ _.
        filter-set_where _ (is_result new.run_id new.candidate_id) (merge_result new) rows
          (is_result-other new.run_id new.candidate_id run differ) (λ r. refl))
      (λ _. filter-append _ rows (new ∷ []) ∙ rw differ (append-nil _))

put_result-results :
    (row : ResultRow) (run : String) (s : Store)
    → str_eq row.run_id run ≡ false
    → results_of run (put_result row s).1 ≡ results_of run s
unfolding put_result
put_result-results row run s differ =
    same_if (results_of run) _ _ _ _ (upsert-results row run s.results differ) refl

insert_candidate-results :
    (row : CandidateRow) (run : String) (s : Store)
    → results_of run (insert_candidate row s).1 ≡ results_of run s
unfolding insert_candidate
insert_candidate-results row run s = same_if (results_of run) _ _ _ _ refl refl

add_candidate-results :
    (id batch filename hash now run : String) (s : Store)
    → results_of run (add_candidate id batch filename hash now s).1 ≡ results_of run s
unfolding add_candidate insert_new
add_candidate-results id batch filename hash now run s =
    elim (Option-cases (find (is_in batch hash) s.candidates)) [
      | inl h ↦ rw (h, add_candidate) (insert_candidate-results _ run s)
      | inr (row, h) ↦ rw (h, add_candidate) refl
    ]

kept_rows :
    (other run : String)
    → str_eq other run ≡ false
    → (r : ResultRow) → str_eq r.run_id run ≡ true
    → not (str_eq r.run_id other) ≡ true
kept_rows other run differ r h = elim (Bool-cases (str_eq r.run_id other)) [
  | inl same ↦ ground (arith, other_run r.run_id run other same differ, h)
  | inr k ↦ rw k refl
]

-- A call that is about another run, or about no run's results, leaves the results of a run as they
-- are: a second run never overwrites the first.
pub after-results :
    (run : String) (o : Operation) (s : Store)
    → concerns run o ≡ false
    → results_of run (after o s) ≡ results_of run s
unfolding after create_batch update_batch add_duplicate update_candidate create_run update_run
    set_result_score clear_results audit_many
after-results run (Operation.create_batch id name source now) s h =
    same_if (results_of run) _ _ _ _ refl refl
after-results run (Operation.update_batch id u now) s h = refl
after-results run (Operation.add_candidate id batch filename hash now) s h =
    add_candidate-results id batch filename hash now run s
after-results run (Operation.add_duplicate id batch filename hash other now) s h =
    insert_candidate-results _ run s
after-results run (Operation.update_candidate id u now) s h = refl
after-results run (Operation.create_run id batch role name now) s h =
    same_if (results_of run) _ _ _ _ refl refl
after-results run (Operation.update_run id u now) s h = refl
after-results run (Operation.put_result row) s h = put_result-results row run s h
after-results run (Operation.set_result_score other candidate score now) s h =
    filter-set_where _ (is_result other candidate) (set_score score now) s.results
      (is_result-other other candidate run h) (λ r. refl)
after-results run (Operation.clear_results other) s h =
    filter-filter _ _ s.results (kept_rows other run h)
after-results run (Operation.audit_many es now) s h = refl
