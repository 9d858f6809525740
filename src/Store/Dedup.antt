-- ===== src/Store/Dedup.antt =====
-- rescan/store.py: `add_candidate`, on a resume that is new and on one that is not.
use rescan.Prelude.{
  ◌≡◌, refl, ap, String, Bool, true, false, none, some, List, [], ◌∷◌, ◌++◌, any, arith,
}
use rescan.Prelude.Text.{eq_iff}
use rescan.Prelude.Result.{ok}
use rescan.Schemas.{CandidateStatus}
use rescan.Store.Rows.{CandidateRow, Store}
use rescan.Store.Operations.{
  add_candidate, insert_candidate, insert_new, new_candidate, find, is_in, has_batch, has_candidate,
}
use rescan.Store.Tables.{find-none}

find-snoc :
    {A : Type 0} (p : A → Bool) (xs : List A) (x : A)
    → find p xs ≡ none
    → p x ≡ true
    → find p (xs ++ x ∷ []) ≡ some x
find-snoc p [] x h k = rw k refl
find-snoc p (y ∷ ys) x h k = ground (arith, h, k, find-snoc p ys x)

module _ (id batch filename hash now : String) where
  abbrev row : CandidateRow
  row = new_candidate id batch filename hash CandidateStatus.pending none now

  insert-row :
      (s : Store)
      → has_batch batch s ≡ true
      → has_candidate id s ≡ false
      → any (is_in batch hash) s.candidates ≡ false
      → insert_new row s ≡ (ok none, record s { candidates = s.candidates ++ row ∷ [] })
  unfolding insert_new insert_candidate
  insert-row s has fresh new = rw (fresh, new, has) refl

  add-new :
      (s : Store)
      → has_batch batch s ≡ true
      → has_candidate id s ≡ false
      → find (is_in batch hash) s.candidates ≡ none
      → add_candidate id batch filename hash now s
        ≡ (ok none, record s { candidates = s.candidates ++ row ∷ [] })
  unfolding add_candidate
  add-new s has fresh new =
      rw (new, add_candidate)
        (insert-row s has fresh (find-none (is_in batch hash) s.candidates new))

  is_in-row : is_in batch hash row ≡ true
  is_in-row = rw ((eq_iff batch batch).1 refl, (eq_iff hash hash).1 refl) refl

  add-found :
      (id' filename' now' : String) (s : Store)
      → find (is_in batch hash) s.candidates ≡ some row
      → add_candidate id' batch filename' hash now' s ≡ (ok (some id), s)
  unfolding add_candidate
  add-found id' filename' now' s found = rw (found, add_candidate) refl

  -- If the batch is there, the id is not taken and no candidate of the batch has the content hash,
  -- `add_candidate` adds the resume; if it is then uploaded again under any id and file name, the
  -- call returns the first id and changes nothing.
  pub add_candidate-again :
      (id' filename' now' : String) (s : Store)
      → has_batch batch s ≡ true
      → has_candidate id s ≡ false
      → find (is_in batch hash) s.candidates ≡ none
      → let s' = (add_candidate id batch filename hash now s).1 in
        ((add_candidate id batch filename hash now s).0 ≡ ok none)
        × (add_candidate id' batch filename' hash now' s' ≡ (ok (some id), s'))
  add_candidate-again id' filename' now' s has fresh new =
      let added = add-new s has fresh new in
      (
        ap (λ r. r.0) added,
        rw added (
            add-found id' filename' now' (record s { candidates = s.candidates ++ row ∷ [] })
              (find-snoc (is_in batch hash) s.candidates row new is_in-row)),
      )
