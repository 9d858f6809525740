-- ===== src/Dsl/Fields/Named.antt =====
-- rescan/dsl/fields.py: the named fields, by kind.
use mathlib.Core.Option
use rescan.Prelude.{
  String, Bool, true, Option, none, some, List, [], ◌∷◌, ◌++◌, map, if◌then◌else◌, leb, filter, any,
  length, count_if, is_some,
}
use rescan.Prelude.Float.{FloatOps, max_of, min_of}
use rescan.Prelude.Text.{lower}
use rescan.Schemas.{AnonymizedProfile, highest_aqf}
use rescan.Dsl.Fields.Spec.{Reader, FieldSpec, template}
use rescan.Dsl.Fields.Readers.{
  seniority_ladder, leadership_levels, employment_types, work_rights_values, work_rights_pseudo,
  is_nil, none_if_empty, non_empty, member_opt, stated, first_some, flat_map, distinct, true_if_any,
  seniority_index, has_degree_level, work_rights_status, months, skill_years, on_latest, skills_in,
  highest_seniority, highest_qualification, technologies, aqf_at_least, requires_sponsorship, float,
  list_count, per_role, on_some, total_months, average, bool_from_number, has_management,
}

module _ {F : Type 0} ⦃fl : FloatOps F⦄ where
  abbrev n :
      String
      → String
      → (AnonymizedProfile F → Option F)
      → String
      → String
      → String
      → String
      → FieldSpec F (AnonymizedProfile F)
  n name label reader before after before_target after_target = record {
    name = name;
    label = label;
    reader = Reader.number reader;
    phrasing = some (template before after, template before_target after_target);
  }

  abbrev l :
      String → String → (AnonymizedProfile F → List String) → FieldSpec F (AnonymizedProfile F)
  l name label reader = record {
    name = name;
    label = label;
    reader = Reader.list (λ p. none_if_empty (reader p));
    phrasing = none;
  }

  abbrev b :
      String → String → (AnonymizedProfile F → Option Bool) → FieldSpec F (AnonymizedProfile F)
  b name label reader = record {
    name = name;
    label = label;
    reader = Reader.bool reader;
    phrasing = none;
  }

  abbrev t :
      String → String → (AnonymizedProfile F → Option String) → FieldSpec F (AnonymizedProfile F)
  t name label reader = record {
    name = name;
    label = label;
    reader = Reader.text reader;
    phrasing = none;
  }

  abbrev enum :
      String
      → String
      → List String
      → (AnonymizedProfile F → Option String)
      → FieldSpec F (AnonymizedProfile F)
  enum name label values reader = record {
    name = name;
    label = label;
    reader = Reader.enum values reader;
    phrasing = none;
  }

  unfoldable pub number_fields : List (FieldSpec F (AnonymizedProfile F))
  number_fields =
      (n "years_experience" "years of professional experience" (λ p. p.total_years_experience)
        "Candidate has " " years of professional experience" "" " years")
      ∷ (n "role_count" "number of roles listed" (λ p. list_count p.experience) "Candidate lists "
          " roles" "" "")
      ∷ (n "current_role_count" "number of current roles"
          (λ p. per_role p.experience (λ r. r.is_current)) "Candidate holds " " current roles" ""
          "")
      ∷ (n "total_role_months" "total months across listed roles"
          (λ p. total_months (months p.experience)) "Candidate's listed roles total " " months" ""
          " months")
      ∷ (n "longest_role_months" "longest role in months"
          (λ p. on_some max_of (months p.experience)) "Candidate's longest role lasted " " months"
          "" " months")
      ∷ (n "shortest_role_months" "shortest role in months"
          (λ p. on_some min_of (months p.experience)) "Candidate's shortest role lasted " " months"
          "" " months")
      ∷ (n "average_role_months" "average role length in months"
          (λ p. average (months p.experience)) "Candidate's roles average " " months" "" " months")
      ∷ (n "current_role_months" "months in the current role"
          (λ p. first_some (λ r. if r.is_current then r.months else none) p.experience)
          "Candidate has " " months in the current role" "" " months")
      ∷ (n "latest_role_months" "months in the latest role" (λ p. on_latest (λ r. r.months) p)
          "Candidate's latest role lasted " " months" "" " months")
      ∷ (n "leadership_role_count" "number of leadership roles"
          (λ p. per_role p.experience (λ r. member_opt r.seniority leadership_levels))
          "Candidate lists " " leadership roles" "" "")
      ∷ (n "contract_role_count" "number of contract roles"
          (λ p.
            per_role p.experience
              (λ r. member_opt r.employment_type ("contract" ∷ "freelance" ∷ [])))
          "Candidate lists " " contract roles" "" "")
      ∷ (n "permanent_role_count" "number of permanent roles"
          (λ p. per_role p.experience (λ r. member_opt r.employment_type ("permanent" ∷ [])))
          "Candidate lists " " permanent roles" "" "")
      ∷ (n "management_years" "years managing people" (λ p. p.management_years) "Candidate has "
          " years managing people" "" " years")
      ∷ (n "people_managed_max" "largest team led" (λ p. float p.people_managed_max)
          "Candidate has led a team of " "" "" "")
      ∷ (n "seniority_level" "seniority level (0 intern - 10 executive)"
          (λ p. float (Option.bind (highest_seniority p) seniority_index))
          "Candidate's highest seniority is level " "" "level " "")
      ∷ (n "industry_count" "number of industries worked in"
          (λ p. list_count (distinct (map lower (stated (λ r. r.industry) p.experience))))
          "Candidate has worked in " " industries" "" "")
      ∷ (n "aqf" "highest qualification (AQF level)" (λ p. float (highest_aqf p))
          "Candidate's highest qualification is AQF level " "" "AQF level " "")
      ∷ (n "qualification_count" "number of qualifications" (λ p. list_count p.qualifications)
          "Candidate lists " " qualifications" "" "")
      ∷ (n "degree_count" "number of degrees (AQF 7+)"
          (λ p.
            if is_nil p.qualifications
            then none
            else some (fl.of_nat (count_if has_degree_level p.qualifications)))
          "Candidate holds " " degrees" "" "")
      ∷ (n "publications_count" "number of publications" (λ p. float p.publications_count)
          "Candidate lists " " publications" "" "")
      ∷ (n "skill_count" "number of skills" (λ p. list_count p.skills) "Candidate lists " " skills"
          "" "")
      ∷ (n "technical_skill_count" "number of technical skills"
          (λ p. list_count (skills_in p ("technical" ∷ "tool" ∷ []))) "Candidate lists "
          " technical skills" "" "")
      ∷ (n "max_skill_years" "most years with any one skill"
          (λ p. on_some max_of (skill_years p.skills)) "Candidate's deepest skill has " " years" ""
          " years")
      ∷ (n "certification_count" "number of certifications" (λ p. list_count p.certifications)
          "Candidate holds " " certifications" "" "")
      ∷ (n "licence_count" "number of licences" (λ p. list_count p.licences) "Candidate holds "
          " licences" "" "")
      ∷ (n "language_count" "number of languages" (λ p. list_count p.languages) "Candidate lists "
          " languages" "" "")
      ∷ (n "project_count" "number of projects" (λ p. list_count p.projects) "Candidate lists "
          " projects" "" "")
      ∷ (n "technology_count" "number of technologies" (λ p. list_count (technologies p))
          "Candidate names " " technologies" "" "")
      ∷ (n "availability_weeks" "notice period in weeks" (λ p. p.availability_weeks)
          "Candidate's notice period is " " weeks" "" " weeks")
      ∷ []

  unfoldable pub list_fields : List (FieldSpec F (AnonymizedProfile F))
  list_fields =
      (l "skills" "skills" (λ p. map (λ s. s.name) p.skills))
      ∷ (l "technical_skills" "technical skills" (λ p. skills_in p ("technical" ∷ [])))
      ∷ (l "tool_skills" "tools" (λ p. skills_in p ("tool" ∷ [])))
      ∷ (l "domain_skills" "domain skills" (λ p. skills_in p ("domain" ∷ [])))
      ∷ (l "soft_skills" "soft skills" (λ p. skills_in p ("soft" ∷ [])))
      ∷ (l "language_skills" "language skills" (λ p. skills_in p ("language" ∷ [])))
      ∷ (l "expert_skills" "skills at advanced or expert level" (λ p.
          map (λ s. s.name)
            (filter (λ s. member_opt s.proficiency ("advanced" ∷ "expert" ∷ [])) p.skills)))
      ∷ (l "skills_with_years" "skills with a stated duration"
          (λ p. map (λ s. s.name) (filter (λ s. is_some s.years) p.skills)))
      ∷ (l "technologies" "technologies" (λ p. technologies p))
      ∷ (l "languages" "languages" (λ p. p.languages))
      ∷ (l "certifications" "certifications" (λ p. p.certifications))
      ∷ (l "licences" "licences" (λ p. p.licences))
      ∷ (l "role_titles" "role titles" (λ p. stated (λ r. r.title) p.experience))
      ∷ (l "current_role_titles" "current role titles"
          (λ p. stated (λ r. r.title) (filter (λ r. r.is_current) p.experience)))
      ∷ (l "employers" "employers" (λ p. stated (λ r. r.employer) p.experience))
      ∷ (l "industries" "industries" (λ p. stated (λ r. r.industry) p.experience))
      ∷ (l "employment_types" "employment types"
          (λ p. stated (λ r. r.employment_type) p.experience))
      ∷ (l "seniorities" "seniority levels held" (λ p. stated (λ r. r.seniority) p.experience))
      ∷ (l "qualification_titles" "qualification titles" (λ p. map (λ q. q.title) p.qualifications))
      ∷ (l "fields_of_study" "fields of study"
          (λ p. stated (λ q. q.field_of_study) p.qualifications))
      ∷ (l "aqf_labels" "AQF labels" (λ p. stated (λ q. q.aqf_label) p.qualifications))
      ∷ (l "project_names" "project names" (λ p. map (λ pr. pr.name) p.projects))
      ∷ (l "project_technologies" "project technologies"
          (λ p. flat_map (λ pr. pr.technologies) p.projects))
      ∷ []

  unfoldable pub text_fields : List (FieldSpec F (AnonymizedProfile F))
  text_fields =
      (t "current_role_title" "current role title"
        (λ p. first_some (λ r. if r.is_current then non_empty r.title else none) p.experience))
      ∷ (t "latest_role_title" "latest role title" (λ p. on_latest (λ r. r.title) p))
      ∷ (t "highest_qualification" "highest qualification" (λ p. highest_qualification p))
      ∷ (t "security_clearance" "security clearance" (λ p. p.security_clearance))
      ∷ []

  unfoldable pub enum_fields : List (FieldSpec F (AnonymizedProfile F))
  enum_fields =
      (enum "work_rights" "work rights status" (work_rights_values ++ work_rights_pseudo ∷ [])
        (λ p. work_rights_status p))
      ∷ (enum "highest_seniority" "highest seniority held" (seniority_ladder)
          (λ p. highest_seniority p))
      ∷ (enum "latest_seniority" "seniority of the latest role" (seniority_ladder)
          (λ p. on_latest (λ r. r.seniority) p))
      ∷ (enum "latest_employment_type" "employment type of the latest role" (employment_types)
          (λ p. on_latest (λ r. r.employment_type) p))
      ∷ []

  unfoldable pub bool_fields : List (FieldSpec F (AnonymizedProfile F))
  bool_fields =
      (b "has_current_role" "a current role"
        (λ p. if is_nil p.experience then none else some (any (λ r. r.is_current) p.experience)))
      ∷ (b "has_degree" "a degree (AQF 7+)" (λ p. aqf_at_least 7 p))
      ∷ (b "has_postgraduate" "a postgraduate award (AQF 8+)" (λ p. aqf_at_least 8 p))
      ∷ (b "has_masters" "a masters (AQF 9+)" (λ p. aqf_at_least 9 p))
      ∷ (b "has_doctorate" "a doctorate (AQF 10)" (λ p. aqf_at_least 10 p))
      ∷ (b "has_certifications" "certifications" (λ p. true_if_any p.certifications))
      ∷ (b "has_licence" "a licence" (λ p. true_if_any p.licences))
      ∷ (b "has_clearance" "a security clearance"
          (λ p. Option.map (λ _. true) (non_empty p.security_clearance)))
      ∷ (b "has_management_experience" "management experience" (λ p. has_management p))
      ∷ (b "has_projects" "listed projects" (λ p. true_if_any p.projects))
      ∷ (b "has_publications" "publications"
          (λ p. bool_from_number (λ q. float q.publications_count) p))
      ∷ (b "multilingual" "two or more languages"
          (λ p. if is_nil p.languages then none else some (leb 2 (length p.languages))))
      ∷ (b "work_rights_unrestricted" "unrestricted work rights" (λ p. p.work_rights.unrestricted))
      ∷ (b "requires_sponsorship" "a sponsorship requirement" (λ p. requires_sponsorship p))
      ∷ []

  unfoldable pub field_list : List (FieldSpec F (AnonymizedProfile F))
  unfolding number_fields list_fields text_fields enum_fields bool_fields
  field_list = number_fields ++ (list_fields ++ (text_fields ++ (enum_fields ++ bool_fields)))

  -- {spec.name: spec for spec in fields}
  abbrev pub by_name :
      List (FieldSpec F (AnonymizedProfile F)) → List (String × FieldSpec F (AnonymizedProfile F))
  by_name [] = []
  by_name (s ∷ ss) = (s.name, s) ∷ by_name ss

  unfoldable pub fields : List (String × FieldSpec F (AnonymizedProfile F))
  unfolding field_list
  fields = by_name field_list
