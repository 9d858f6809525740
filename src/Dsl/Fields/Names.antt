-- ===== src/Dsl/Fields/Names.antt =====
-- rescan/dsl/fields.py: the aliases, the forbidden identifiers, and how a name of a rule is
-- resolved. Of a forbidden identifier the statutes are kept; its reason and alternative serve a
-- message.
use rescan.Prelude.{String, Option, none, some, List, [], ◌∷◌, if◌then◌else◌, or_default}
use rescan.Prelude.Float.{FloatOps}
use rescan.Prelude.Text.{lower, lookup, str_eq}
use rescan.Schemas.{AnonymizedProfile}
use rescan.Dsl.Fields.Spec.{FieldSpec, RecordSpec, ForbiddenField}
use rescan.Dsl.Fields.Named.{fields}
use rescan.Dsl.Fields.Records.{records}

abbrev pub aliases : List (String × String)
aliases =
    ("total_years_experience", "years_experience")
    ∷ ("years", "years_experience")
    ∷ ("experience", "years_experience")
    ∷ ("experience_years", "years_experience")
    ∷ ("years_of_experience", "years_experience")
    ∷ ("highest_aqf", "aqf")
    ∷ ("aqf_level", "aqf")
    ∷ ("qualification_level", "aqf")
    ∷ ("work_rights_status", "work_rights")
    ∷ ("certs", "certifications")
    ∷ ("skill", "skills")
    ∷ ("language", "languages")
    ∷ ("certification", "certifications")
    ∷ ("licenses", "licences")
    ∷ ("licence", "licences")
    ∷ ("license", "licences")
    ∷ ("tools", "tool_skills")
    ∷ ("titles", "role_titles")
    ∷ ("companies", "employers")
    ∷ ("company", "employers")
    ∷ ("roles", "role_titles")
    ∷ ("positions", "role_titles")
    ∷ ("degrees", "qualification_titles")
    ∷ ("qualifications", "qualification_titles")
    ∷ ("seniority", "highest_seniority")
    ∷ ("team_size", "people_managed_max")
    ∷ ("clearance", "security_clearance")
    ∷ ("notice_period_weeks", "availability_weeks")
    ∷ ("projects", "project_names")
    ∷ ("tech", "technologies")
    ∷ ("tech_stack", "technologies")
    ∷ ("stack", "technologies")
    ∷ []

abbrev pub record_aliases : List (String × String)
record_aliases =
    ("skills", "skill")
    ∷ ("roles", "role")
    ∷ ("experience", "role")
    ∷ ("job", "role")
    ∷ ("jobs", "role")
    ∷ ("position", "role")
    ∷ ("positions", "role")
    ∷ ("employment", "role")
    ∷ ("qualifications", "qualification")
    ∷ ("degree", "qualification")
    ∷ ("degrees", "qualification")
    ∷ ("education", "qualification")
    ∷ ("award", "qualification")
    ∷ ("projects", "project")
    ∷ []

abbrev pub forbidden_list : List ForbiddenField
forbidden_list =
    (record { name = "region"; statutes = "RDA_1975" ∷ "ADA_QLD_1991" ∷ [] })
    ∷ (record { name = "suburb"; statutes = "RDA_1975" ∷ "ADA_QLD_1991" ∷ [] })
    ∷ (record { name = "postcode"; statutes = "RDA_1975" ∷ "ADA_QLD_1991" ∷ [] })
    ∷ (record { name = "location"; statutes = "RDA_1975" ∷ "ADA_QLD_1991" ∷ [] })
    ∷ (record { name = "city"; statutes = "RDA_1975" ∷ "ADA_QLD_1991" ∷ [] })
    ∷ (record { name = "state"; statutes = "RDA_1975" ∷ "ADA_QLD_1991" ∷ [] })
    ∷ (record { name = "institution"; statutes = "RDA_1975" ∷ "ADA_QLD_1991" ∷ [] })
    ∷ (record { name = "institution_tiers"; statutes = "RDA_1975" ∷ "ADA_QLD_1991" ∷ [] })
    ∷ (record { name = "institution_tier"; statutes = "RDA_1975" ∷ "ADA_QLD_1991" ∷ [] })
    ∷ (record { name = "university"; statutes = "RDA_1975" ∷ "ADA_QLD_1991" ∷ [] })
    ∷ (record { name = "universities"; statutes = "RDA_1975" ∷ "ADA_QLD_1991" ∷ [] })
    ∷ (record { name = "completion_year"; statutes = "ADA_2004" ∷ "ADA_QLD_1991" ∷ [] })
    ∷ (record { name = "graduation_year"; statutes = "ADA_2004" ∷ "ADA_QLD_1991" ∷ [] })
    ∷ (record { name = "start"; statutes = "ADA_2004" ∷ "ADA_QLD_1991" ∷ [] })
    ∷ (record { name = "end"; statutes = "ADA_2004" ∷ "SDA_1984" ∷ "ADA_QLD_1991" ∷ [] })
    ∷ (record { name = "start_year"; statutes = "ADA_2004" ∷ "ADA_QLD_1991" ∷ [] })
    ∷ (record { name = "age"; statutes = "ADA_2004" ∷ "FWA_351" ∷ "ADA_QLD_1991" ∷ [] })
    ∷ (record { name = "date_of_birth"; statutes = "ADA_2004" ∷ "PRIVACY_1988" ∷ [] })
    ∷ (record { name = "name"; statutes = "RDA_1975" ∷ "SDA_1984" ∷ "FWA_351" ∷ [] })
    ∷ (record { name = "full_name"; statutes = "RDA_1975" ∷ "SDA_1984" ∷ "FWA_351" ∷ [] })
    ∷ (record { name = "email"; statutes = "PRIVACY_1988" ∷ [] })
    ∷ (record { name = "phone"; statutes = "PRIVACY_1988" ∷ [] })
    ∷ (record { name = "gender"; statutes = "SDA_1984" ∷ "FWA_351" ∷ "ADA_QLD_1991" ∷ [] })
    ∷ (record { name = "sex"; statutes = "SDA_1984" ∷ "FWA_351" ∷ "ADA_QLD_1991" ∷ [] })
    ∷ (record { name = "nationality"; statutes = "RDA_1975" ∷ "FWA_351" ∷ [] })
    ∷ (record { name = "citizenship"; statutes = "RDA_1975" ∷ "FWA_351" ∷ [] })
    ∷ (record { name = "country"; statutes = "RDA_1975" ∷ "FWA_351" ∷ [] })
    ∷ (record { name = "visa"; statutes = "RDA_1975" ∷ "FWA_351" ∷ [] })
    ∷ (record { name = "visa_subclass"; statutes = "RDA_1975" ∷ "FWA_351" ∷ [] })
    ∷ (record { name = "religion"; statutes = "ADA_QLD_1991" ∷ "FWA_351" ∷ [] })
    ∷ (record { name = "disability"; statutes = "DDA_1992" ∷ "FWA_351" ∷ [] })
    ∷ (record { name = "marital_status"; statutes = "SDA_1984" ∷ "FWA_351" ∷ "ADA_QLD_1991" ∷ [] })
    ∷ (record { name = "children"; statutes = "SDA_1984" ∷ "FWA_351" ∷ "ADA_QLD_1991" ∷ [] })
    ∷ (record { name = "summary"; statutes = "PRIVACY_1988" ∷ [] })
    ∷ (record { name = "affiliations"; statutes = "ADA_QLD_1991" ∷ "FWA_351" ∷ [] })
    ∷ (record { name = "job_relevant_affiliations"; statutes = "ADA_QLD_1991" ∷ "FWA_351" ∷ [] })
    ∷ (record { name = "career_gap"; statutes = "SDA_1984" ∷ "DDA_1992" ∷ "FWA_351" ∷ [] })
    ∷ (record { name = "gap"; statutes = "SDA_1984" ∷ "DDA_1992" ∷ "FWA_351" ∷ [] })
    ∷ (record { name = "photo"; statutes = "RDA_1975" ∷ "ADA_2004" ∷ "PRIVACY_1988" ∷ [] })
    ∷ (record { name = "accent"; statutes = "RDA_1975" ∷ "FWA_351" ∷ [] })
    ∷ (record { name = "native_language"; statutes = "RDA_1975" ∷ "FWA_351" ∷ [] })
    ∷ []

abbrev pub find_forbidden : String → List ForbiddenField → Option ForbiddenField
find_forbidden k [] = none
find_forbidden k (f ∷ fs) = if str_eq f.name k then some f else find_forbidden k fs

module _ {F : Type 0} ⦃fl : FloatOps F⦄ where
  unfoldable pub resolve_field : String → Option (FieldSpec F (AnonymizedProfile F))
  resolve_field name = let key = lower name in lookup (or_default (lookup key aliases) key) fields

  unfoldable pub resolve_record : String → Option (RecordSpec F)
  resolve_record name =
      let key = lower name in lookup (or_default (lookup key record_aliases) key) records

unfoldable pub forbidden : String → Option ForbiddenField
forbidden name = find_forbidden (lower name) forbidden_list
