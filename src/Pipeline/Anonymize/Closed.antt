-- ===== src/Pipeline/Anonymize/Closed.antt =====
-- rescan/pipeline/anonymize.py: what a profile that is let through keeps, and what it cannot hold.
use rescan.Prelude.{
  ◌≡◌, refl, ap, String, Bool, false, ◌&&◌, Option, none, some, List, [], ◌∷◌, map, filter, All,
  Bool-cases, inl, inr,
}
use rescan.Prelude.Result.{Attempt, done, declined}
use rescan.Schemas.{Skill, Experience, Project, Qualification, StructuredResume, AnonymizedProfile}
use rescan.Pipeline.Anonymize.Scrub.{identity_tokens, is_long, occurs, leaks_in}
use rescan.Pipeline.Anonymize.Parts.{
  AnonymizeEnv, AnonymizeReply, without_detail, anonymized_qualifications, charge_of,
}
use rescan.Pipeline.Anonymize.Pass.{
  anonymized_skill, anonymized_project, charged_role, anonymized_role, anonymized_roles, profile_of,
  leak_check, checked, after_reply, anonymize_resume,
}

filter-none :
    {A : Type 0} (test : A → Bool) (xs : List A)
    → filter test xs ≡ []
    → All (λ x. test x ≡ false) xs
filter-none test [] h = tt
filter-none test (x ∷ xs) h = elim (Bool-cases (test x)) [
  | inl kept ↦ absurd (cc (rw kept at h))
  | inr dropped ↦ (dropped, filter-none test xs (rw dropped at h))
]

module _ {F : Type 0} where
  -- the capability in each part, without the free text and the employer
  abbrev pub skill_facts : Skill F → Skill F
  skill_facts s = record s { evidence = none }

  abbrev pub role_facts : Experience F → Experience F
  role_facts r = record r { summary = none; employer = none }

  abbrev pub project_facts : Project F → Project F
  project_facts p = record p { summary = none }

  abbrev pub SameFacts : StructuredResume F → AnonymizedProfile F → Type 0
  SameFacts r p =
      (map skill_facts p.skills ≡ map skill_facts r.skills)
      × (map role_facts p.experience ≡ map role_facts r.experience)
      × (map project_facts p.projects ≡ map project_facts r.projects)
      × (p.qualifications ≡ map without_detail r.qualifications)
      × (p.total_years_experience ≡ r.total_years_experience)
      × (p.work_rights.status ≡ r.work_rights.status)
      × (p.languages ≡ r.languages)
      × (p.licences ≡ r.licences)

  copied-qualifications :
      (qs : List (Qualification F)) → (anonymized_qualifications qs).0 ≡ map without_detail qs
  unfolding anonymized_qualifications
  copied-qualifications [] = refl
  copied-qualifications (q ∷ qs) = ap (λ rest. without_detail q ∷ rest) (copied-qualifications qs)

module _ {W F : Type 0} (e : AnonymizeEnv W F) where
  copied-skills :
      (tokens : List String) (ss : List (Skill F))
      → map skill_facts (map (anonymized_skill e tokens) ss) ≡ map skill_facts ss
  copied-skills tokens [] = refl
  copied-skills tokens (s ∷ ss) = ap (λ rest. skill_facts s ∷ rest) (copied-skills tokens ss)

  copied-projects :
      (tokens : List String) (ps : List (Project F))
      → map project_facts (map (anonymized_project e tokens) ps) ≡ map project_facts ps
  copied-projects tokens [] = refl
  copied-projects tokens (p ∷ ps) = ap (λ rest. project_facts p ∷ rest) (copied-projects tokens ps)

  copied-charged :
      (tokens : List String) (r : Experience F) (charge : Option (String × String))
      → role_facts (charged_role e tokens r charge).0 ≡ role_facts r
  copied-charged tokens r none = refl
  copied-charged tokens r (some (name, reason)) = refl

  copied-role :
      (tokens : List String) (charged : List (String × String)) (r : Experience F)
      → role_facts (anonymized_role e tokens charged r).0 ≡ role_facts r
  unfolding anonymized_role
  copied-role tokens charged r = copied-charged tokens r (charge_of charged r.employer)

  copied-roles :
      (tokens : List String) (charged : List (String × String)) (rs : List (Experience F))
      → map role_facts (anonymized_roles e tokens charged rs).0 ≡ map role_facts rs
  unfolding anonymized_roles
  copied-roles tokens charged [] = refl
  copied-roles tokens charged (r ∷ rs) =
      λ i. copied-role tokens charged r i ∷ copied-roles tokens charged rs i

  -- what holds of a profile that is let through
  abbrev pub Closed : StructuredResume F → String → Attempt (AnonymizedProfile F) → Type 0
  Closed r ref (declined text) = Unit
  Closed r ref (done p) =
      (p.candidate_ref ≡ ref)
      × All (λ t. is_long t && occurs t none (e.serialise p) ≡ false) (identity_tokens r)
      × SameFacts r p

  checked-Closed :
      (r : StructuredResume F) (ref : String) (p : AnonymizedProfile F) (leaks : List String)
      → p.candidate_ref ≡ ref
      → SameFacts r p
      → leak_check e r p ≡ leaks
      → Closed r ref (checked e r p leaks)
  unfolding checked leak_check leaks_in
  checked-Closed r ref p [] named same none' =
      (named, filter-none _ (identity_tokens r) none', same)
  checked-Closed r ref p (leak ∷ leaks) named same some' = tt

  -- A profile that is let through has the reference it is given, and its serialised text holds no
  -- token of the identity of three characters and more between two boundaries; its skills, roles
  -- and projects are those of the resume but for the free text and the employers, its
  -- qualifications are those of the resume without the institution, the year and the country, and
  -- the years of experience, the work rights' status, the languages and the licences are copied.
  pub anonymize_resume-Closed :
      (r : StructuredResume F) (ref : String) (w : W) → Closed r ref (anonymize_resume e r ref w).0
  unfolding anonymize_resume profile_of
  anonymize_resume-Closed r ref w = reply (e.client r w).0
    where
      reply : (a : Attempt AnonymizeReply) → Closed r ref (after_reply e r ref a)
      reply (declined text) = tt
      reply (done a) =
          checked-Closed r ref (profile_of e r ref a) (leak_check e r (profile_of e r ref a)) refl
            (
              copied-skills (identity_tokens r) r.skills,
              copied-roles (identity_tokens r) _ r.experience,
              copied-projects (identity_tokens r) r.projects,
              copied-qualifications r.qualifications,
              refl,
              refl,
              refl,
              refl,
            )
            refl
