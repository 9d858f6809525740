-- ===== src/Pipeline/Anonymize/Pass.antt =====
-- rescan/pipeline/anonymize.py: `anonymize_resume` over a reply of the model, which is taken as it
-- is validated. The client and the JSON of a profile are parameters.
use rescan.Prelude.{String, Option, none, some, List, [], ◌∷◌, ◌++◌, map, take}
use rescan.Prelude.Text.{lower, strip, concat}
use rescan.Prelude.Result.{Attempt, done, declined}
use rescan.Schemas.{Skill, Experience, Project, StructuredResume, Redaction, AnonymizedProfile}
use rescan.Pipeline.Anonymize.Scrub.{scrub_text, identity_tokens, leaks_in}
use rescan.Pipeline.Anonymize.Parts.{
  removed, nonempty, anonymized_qualifications, safe_entries, charged_employers, charge_of,
  AnonymizeReply, AnonymizeEnv,
}

module _ {W F : Type 0} (e : AnonymizeEnv W F) where
  abbrev pub anonymized_skill : List String → Skill F → Skill F
  anonymized_skill tokens s = record s { evidence = scrub_text tokens s.evidence }

  abbrev pub anonymized_project : List String → Project F → Project F
  anonymized_project tokens p = record p { summary = scrub_text tokens p.summary }

  -- a role, and the redaction of an employer that is charged
  abbrev pub charged_role :
      List String → Experience F → Option (String × String) → Experience F × List Redaction
  charged_role tokens r none = (
    record r { summary = scrub_text tokens r.summary; employer = scrub_text tokens r.employer },
    [],
  )
  charged_role tokens r (some (name, reason)) = (
    record r { summary = scrub_text tokens r.summary; employer = none },
    removed "experience.employer" (
          concat (
            "Employer "
            ∷ e.repr name
            ∷ " removed: "
            ∷ reason
            ∷ " Industry, title and duration are kept."
            ∷ []))
        ∷ [],
  )

  unfoldable pub anonymized_role :
      List String → List (String × String) → Experience F → Experience F × List Redaction
  unfolding scrub_text strip lower
  anonymized_role tokens charged r = charged_role tokens r (charge_of charged r.employer)

  unfoldable pub anonymized_roles :
      List String
      → List (String × String)
      → List (Experience F)
      → List (Experience F) × List Redaction
  unfolding anonymized_role
  anonymized_roles tokens charged [] = ([], [])
  anonymized_roles tokens charged (r ∷ rs) =
      let (role, found) = anonymized_role tokens charged r in
      let (roles, more) = anonymized_roles tokens charged rs in (role ∷ roles, found ++ more)

  abbrev pub first_of : List String → Option String
  first_of [] = none
  first_of (s ∷ ss) = some s

  abbrev region_values : Option String → List (Option String)
  region_values r = elim (nonempty r) [ none ↦ [] | some s ↦ some s ∷ [] ]

  -- the profile of a reply
  unfoldable pub profile_of : StructuredResume F → String → AnonymizeReply → AnonymizedProfile F
  unfolding identity_tokens anonymized_qualifications charged_employers anonymized_roles
      safe_entries scrub_text
  profile_of r ref reply =
      let tokens = identity_tokens r in
      let (qualifications, details) = anonymized_qualifications r.qualifications in
      let (roles, employers) =
        anonymized_roles tokens (charged_employers reply.employers_to_remove []) r.experience in
      let (tiers, from_tiers) = safe_entries "institution_tiers" tokens reply.institution_tiers in
      let (affiliations, from_affiliations) =
        safe_entries "job_relevant_affiliations" tokens reply.job_relevant_affiliations in
      let (region, from_region) = safe_entries "region" tokens (region_values reply.region) in
      record {
        candidate_ref = ref;
        summary = scrub_text tokens reply.summary;
        skills = map (anonymized_skill tokens) r.skills;
        experience = roles;
        total_years_experience = r.total_years_experience;
        qualifications = qualifications;
        institution_tiers = tiers;
        region = first_of region;
        work_rights = record r.work_rights { evidence = scrub_text tokens r.work_rights.evidence };
        languages = r.languages;
        job_relevant_affiliations = affiliations;
        certifications = r.certifications;
        projects = map (anonymized_project tokens) r.projects;
        licences = r.licences;
        security_clearance = r.security_clearance;
        management_years = r.management_years;
        people_managed_max = r.people_managed_max;
        publications_count = r.publications_count;
        availability_weeks = r.availability_weeks;
        redactions =
            reply.redactions ++ details ++ employers ++ from_tiers ++ from_affiliations
            ++ from_region;
      }

  -- `leak_check`
  unfoldable pub leak_check : StructuredResume F → AnonymizedProfile F → List String
  unfolding identity_tokens leaks_in
  leak_check r p = leaks_in (identity_tokens r) (e.serialise p)

  -- the end of `anonymize_resume`
  unfoldable pub checked :
      StructuredResume F → AnonymizedProfile F → List String → Attempt (AnonymizedProfile F)
  checked r p [] = done p
  checked r p (leak ∷ leaks) = declined (
      concat (
        "identity survived anonymization for "
        ∷ p.candidate_ref
        ∷ ": "
        ∷ e.repr_all (take 5 (leak ∷ leaks))
        ∷ []))

  abbrev pub after_reply :
      StructuredResume F → String → Attempt AnonymizeReply → Attempt (AnonymizedProfile F)
  after_reply r ref (declined text) = declined (concat ("anonymization failed: " ∷ text ∷ []))
  after_reply r ref (done reply) =
      checked r (profile_of r ref reply) (leak_check r (profile_of r ref reply))

  unfoldable pub anonymize_resume :
      StructuredResume F → String → W → Attempt (AnonymizedProfile F) × W
  unfolding profile_of leak_check checked
  anonymize_resume r ref w = let (reply, w') = e.client r w in (after_reply r ref reply, w')
