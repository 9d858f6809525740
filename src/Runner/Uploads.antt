-- ===== src/Runner/Uploads.antt =====
-- rescan/pipeline/runner.py: every file of an upload becomes a candidate of the batch.
use Prim.Native.String.{◌++◌ as ◌^◌}
use rescan.Prelude.{
  ◌≡◌, refl, ap, ◌∙◌, ℕ, suc, ◌+◌, String, Bool, not, ◌||◌, Option, none, some, List, [], ◌∷◌, ◌++◌,
  length, length-append, any, Option-cases, inl, inr, arith, if_elim,
}
use rescan.Prelude.Result.{Result, ok, err, pure, ◌>>=◌, ◌>>◌}
use rescan.Schemas.{CandidateStatus}
use rescan.Store.Rows.{CandidateRow, Store}
use rescan.Store.Operations.{
  insert_candidate, insert_new, no_existing, new_candidate, add_candidate, add_duplicate,
  audit_many, has_candidate, has_batch, is_in, find,
}
use rescan.Runner.Env.{Env, State, in_world, in_store, audit_all, audit_event}
use rescan.Runner.Acts.{rows}
use rescan.Runner.Batch.{upload_all, place_file, fresh, skipped_fields}
use rescan.Runner.Processed.{ok-bind}

-- the number of the candidates
abbrev candidates : Store → ℕ
candidates s = length (Store.candidates s)

-- a row more, if the result is `ok`
abbrev OneMore : ℕ → Result (Unit {0}) × Store → Type 0
OneMore n (ok x, s) = candidates s ≡ suc n
OneMore n (err e, s) = Unit

-- the test of the keys and the reference
abbrev is_refused : CandidateRow → Store → Bool
is_refused row s =
    (has_candidate row.id s || any (is_in row.batch_id row.content_hash) s.candidates)
    || not (has_batch row.batch_id s)

length-snoc :
    (row : CandidateRow) (cs : List CandidateRow) → length (cs ++ row ∷ []) ≡ suc (length cs)
length-snoc row cs = omega (arith, length-append cs (row ∷ []))

insert_candidate-OneMore :
    (row : CandidateRow) (s : Store) → OneMore (candidates s) (insert_candidate row s)
unfolding insert_candidate
insert_candidate-OneMore row s =
    if_elim (OneMore (candidates s)) (is_refused row s) (λ _. tt)
      (λ _. length-snoc row s.candidates)

-- a row more, unless the content was there
abbrev AddedTo : ℕ → Result (Option String) × Store → Type 0
AddedTo n (ok none, s) = candidates s ≡ suc n
AddedTo n (ok (some id), s) = candidates s ≡ n
AddedTo n (err e, s) = Unit

inserted : (n : ℕ) (r : Result (Unit {0}) × Store) → OneMore n r → AddedTo n (no_existing r.0, r.1)
inserted n (ok x, s) h = h
inserted n (err e, s) h = tt

add_candidate-AddedTo :
    (id batch filename hash now : String) (s : Store)
    → AddedTo (candidates s) (add_candidate id batch filename hash now s)
unfolding add_candidate insert_new
add_candidate-AddedTo id batch filename hash now s =
    elim (Option-cases (find (is_in batch hash) s.candidates)) [
      | inl h ↦
          let row = new_candidate id batch filename hash CandidateStatus.pending none now in
          rw (h, add_candidate)
            (inserted (candidates s) (insert_candidate row s) (insert_candidate-OneMore row s))
      | inr (row, h) ↦ rw (h, add_candidate) refl
    ]

OneMore-ok :
    (n : ℕ) (r : Result (Unit {0})) (s : Store) {x : Unit {0}}
    → OneMore n (r, s)
    → r ≡ ok x
    → candidates s ≡ suc n
OneMore-ok n (ok x) s h e = h
OneMore-ok n (err x) s h e = absurd (cc e)

AddedTo-ok :
    (n : ℕ) (r : Result (Option String)) (s : Store) {o : Option String}
    → AddedTo n (r, s)
    → r ≡ ok o
    → AddedTo n (ok o, s)
AddedTo-ok n r s h e = rw e at h

counts_eq : {a b c d : ℕ} → ◌≡◌ {A = Result (ℕ × ℕ)} (ok (a, b)) (ok (c, d)) → (a ≡ c) × (b ≡ d)
counts_eq h = (cc h, cc h)

module _ {W F Data File : Type 0} (env : Env W F Data File) (batch : String) where
  abbrev number : State W → ℕ
  number s = length (rows s)

  place_file-counts :
      (id filename : String) (content : Data) (a d : ℕ) (existing : Option String) (n : ℕ)
      (s : State W) {a' d' : ℕ}
      → AddedTo n (ok existing, s.store)
      → (place_file env batch id filename content (a, d) existing s).0 ≡ ok (a', d')
      → (a' + d' ≡ suc (a + d))
        × (number (place_file env batch id filename content (a, d) existing s).1 ≡ suc n)
  unfolding place_file add_duplicate audit_many
  place_file-counts id filename content a d (some existing) n s added e =
      let entry =
        audit_event env batch "ingestion" "duplicate_skipped" (some id)
          (skipped_fields filename existing) in
      let insert =
        in_store env (add_duplicate id batch filename (env.content_hash content) existing) in
      let (x, one, rest, same) =
        ok-bind (insert >> audit_all env (entry ∷ [])) (λ _. pure (a, suc d)) s e in
      let (y, first, more, through) = ok-bind insert (λ _. audit_all env (entry ∷ [])) s one in
      let row =
        new_candidate id batch filename (env.content_hash content ^ (":dup:" ^ id))
          CandidateStatus.duplicate (some existing) (env.now s.world).0 in
      (
        omega (arith, (counts_eq rest).0, (counts_eq rest).1),
        rw same (
            rw through (
              OneMore-ok (candidates s.store) (insert s).0 (insert s).1.store
                (insert_candidate-OneMore row s.store) first
              ∙ ap suc added)),
      )
  place_file-counts id filename content a d none n s added e =
      let write = in_world (env.write_upload batch (id ^ env.suffix filename) content) in
      let (x, one, rest, same) = ok-bind write (λ _. pure (suc a, d)) s e in
      (omega (arith, (counts_eq rest).0, (counts_eq rest).1), rw same added)

  -- If an upload gives its counts, each file is counted as accepted or as a duplicate, and each is
  -- a candidate more: none is dropped, and none is kept twice.
  pub upload_all-counts :
      (files : List (String × Data)) (a d : ℕ) (s : State W) {a' d' : ℕ}
      → (upload_all env batch files (a, d) s).0 ≡ ok (a', d')
      → (a' + d' ≡ a + d + length files)
        × (length (rows (upload_all env batch files (a, d) s).1) ≡ length (rows s) + length files)
  unfolding upload_all
  upload_all-counts [] a d s e = (omega (arith, (counts_eq e).0, (counts_eq e).1), omega arith)
  upload_all-counts ((filename, content) ∷ files) a d s e =
      let add = λ (id : String).
        in_store env (add_candidate id batch filename (env.content_hash content)) in
      let place = λ (id : String) (existing : Option String).
        place_file env batch id filename content (a, d) existing in
      let (id, _, rest, same) =
        ok-bind (fresh env "cand_")
          (λ id. add id >>= λ existing.
            place id existing >>= λ counts. upload_all env batch files counts)
          s e in
      let t = (fresh env "cand_" s).1 in
      let (existing, found, rest', same') =
        ok-bind (add id)
          (λ existing. place id existing >>= λ counts. upload_all env batch files counts) t rest in
      let u = (add id t).1 in
      let ((a1, d1), placed, rest'', same'') =
        ok-bind (place id existing) (λ counts. upload_all env batch files counts) u rest' in
      let added : AddedTo (number s) (ok existing, u.store) =
        AddedTo-ok (number s) (add id t).0 u.store
          (add_candidate-AddedTo id batch filename (env.content_hash content) (env.now t.world).0
            t.store)
          found in
      let (counted, one) =
        place_file-counts id filename content a d existing (number s) u added placed in
      let (more, all) = upload_all-counts files a1 d1 (place id existing u).1 rest'' in
      (omega (arith, counted, more), rw (same, same', same'') (omega (arith, one, all)))
