-- ===== src/Runner/Acts.antt =====
-- rescan/pipeline/runner.py: what a sequence of steps does to the rows of the candidates. Each step
-- of an ingestion changes the rows with one id, all in the same way, and no other row.
use rescan.Prelude.{
  ◌≡◌, refl, ap, ◌∙◌, String, Bool, true, ◌||◌, is_some, List, [], ◌∷◌, map, if◌then◌else◌,
  Bool-cases, inl, inr,
}
use rescan.Prelude.Text.{str_eq}
use rescan.Prelude.Result.{Result, ok, err, PyError, Exec, pure, continue, ◌>>=◌}
use rescan.Store.Rows.{CandidateRow, AuditEntry, CandidateUpdate}
use rescan.Store.Operations.{audit_many, update_candidate, set_candidate}
use rescan.Runner.Env.{Env, State, in_world, set_candidate_row, audit_all}

-- a change of the rows with an id
abbrev pub change_at : String → (CandidateRow → CandidateRow) → CandidateRow → CandidateRow
change_at id g c = if str_eq c.id id then g c else c

-- a change that keeps the id
abbrev pub KeepsId : (CandidateRow → CandidateRow) → Type 0
KeepsId g = (c : CandidateRow) → CandidateRow.id (g c) ≡ c.id

abbrev pub rows : {W : Type 0} → State W → List CandidateRow
rows s = s.store.candidates

-- From `s`, the steps change the rows with the id by some `g`, and `P` holds of their result and
-- `g`.
abbrev pub Acts :
    {W A : Type 0}
    → String
    → (Result A → (CandidateRow → CandidateRow) → Type 0)
    → Exec (State W) A
    → State W
    → Type 0
Acts id P m s =
    (g : CandidateRow → CandidateRow) × KeepsId g
    × (rows (m s).1 ≡ map (change_at id g) (rows s))
    × P (m s).0 g

change_twice :
    (id : String) (f g : CandidateRow → CandidateRow) (cs : List CandidateRow)
    → KeepsId g
    → map (change_at id f) (map (change_at id g) cs) ≡ map (change_at id (λ c. f (g c))) cs
change_twice id f g [] k = refl
change_twice id f g (c ∷ cs) k = λ i. one i ∷ change_twice id f g cs k i
  where
    one : change_at id f (change_at id g c) ≡ change_at id (λ c. f (g c)) c
    one = elim (Bool-cases (str_eq c.id id)) [
      | inl same ↦ rw (same, k c, same) refl
      | inr other ↦ rw (other, other) refl
    ]

pub change_none : (id : String) (cs : List CandidateRow) → cs ≡ map (change_at id (λ c. c)) cs
change_none id [] = refl
change_none id (c ∷ cs) = λ i. one i ∷ change_none id cs i
  where
    one : c ≡ change_at id (λ c. c) c
    one = elim (Bool-cases (str_eq c.id id)) [ inl same ↦ rw same refl | inr other ↦ rw other refl ]

module _ {W A B : Type 0} (id : String) where
  -- one part after the other
  pub Acts-bind :
      (P : Result A → (CandidateRow → CandidateRow) → Type 0)
      (Q : Result B → (CandidateRow → CandidateRow) → Type 0) (m : Exec (State W) A)
      (f : A → Exec (State W) B) (s : State W)
      → Acts id P m s
      → ((a : A) (g : CandidateRow → CandidateRow) (t : State W)
          → P (ok a) g
          → Acts id (λ r h. Q r (λ c. h (g c))) (f a) t)
      → ((e : PyError) (g : CandidateRow → CandidateRow) → P (err e) g → Q (err e) g)
      → Acts id Q (m >>= f) s
  Acts-bind P Q m f s (g, keeps, moved, p) next stop = after (m s).0 p
    where
      after :
          (r : Result A)
          → P r g
          → (h : CandidateRow → CandidateRow) × KeepsId h
            × (rows (continue r f (m s).1).1 ≡ map (change_at id h) (rows s))
            × Q (continue r f (m s).1).0 h
      after (ok a) p =
          let (h, kept, moved', q) = next a g (m s).1 p in
          (
            λ c. h (g c),
            λ c. kept (g c) ∙ keeps c,
            moved' ∙ ap (map (change_at id h)) moved ∙ change_twice id h g (rows s) keeps,
            q,
          )
      after (err e) p = (g, keeps, moved, stop e g p)

module _ {W A : Type 0} (id : String) where
  pub Acts-pure :
      (P : Result A → (CandidateRow → CandidateRow) → Type 0) (a : A) (s : State W)
      → P (ok a) (λ c. c)
      → Acts id P (pure a) s
  Acts-pure P a s p = (λ c. c, λ c. refl, change_none id (rows s), p)

  -- a step that is not about the store
  pub Acts-in_world :
      (P : Result A → (CandidateRow → CandidateRow) → Type 0) (m : Exec W A) (s : State W)
      → ((r : Result A) → P r (λ c. c))
      → Acts id P (in_world m) s
  Acts-in_world P m s p = (λ c. c, λ c. refl, change_none id (rows s), p _)

-- an update that sets some column
abbrev pub sets : CandidateUpdate → Bool
sets u =
    is_some u.status
    || is_some u.candidate_ref
    || is_some u.extraction_json
    || is_some u.structured_json
    || is_some u.anonymized_json
    || is_some u.error

module _ {W F Data File : Type 0} (env : Env W F Data File) (id : String) where
  pub Acts-audit_all :
      (P : Result (Unit {0}) → (CandidateRow → CandidateRow) → Type 0) (es : List AuditEntry)
      (s : State W)
      → P (ok tt) (λ c. c)
      → Acts id P (audit_all env es) s
  unfolding audit_many
  Acts-audit_all P es s p = (λ c. c, λ c. refl, change_none id (rows s), p)

  pub Acts-set_candidate_row :
      (P : Result (Unit {0}) → (CandidateRow → CandidateRow) → Type 0) (u : CandidateUpdate)
      (s : State W)
      → sets u ≡ true
      → ((now : String) → P (ok tt) (set_candidate u now))
      → Acts id P (set_candidate_row env id u) s
  unfolding update_candidate
  Acts-set_candidate_row P u s some_column p =
      (set_candidate u (env.now s.world).0, λ c. refl, rw some_column refl, p (env.now s.world).0)
