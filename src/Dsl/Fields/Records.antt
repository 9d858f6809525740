-- ===== src/Dsl/Fields/Records.antt =====
-- rescan/dsl/fields.py: the four records that ANY quantifies over and the aggregates run over, with
-- their fields.
use rescan.Prelude.{String, Option, none, some, List, [], ◌∷◌, map}
use rescan.Prelude.Float.{FloatOps}
use rescan.Prelude.Text.{concat, show_nat}
use rescan.Schemas.{Skill, Experience, Qualification, Project}
use rescan.Dsl.Fields.Spec.{Reader, FieldSpec, Item, RecordSpec, template}
use rescan.Dsl.Fields.Readers.{
  seniority_ladder, skill_categories, proficiencies, employment_types, none_if_empty, non_empty,
  float,
}

abbrev title_or : Option String → String → String
title_or none d = d
title_or (some s) d = s

module _ {F : Type 0} ⦃fl : FloatOps F⦄ where
  -- A reader of one record's entries says nothing of another's.
  abbrev of_skill : {A : Type 0} → (Skill F → Option A) → Item F → Option A
  of_skill f (Item.skill s) = f s
  of_skill f _ = none

  abbrev of_role : {A : Type 0} → (Experience F → Option A) → Item F → Option A
  of_role f (Item.role r) = f r
  of_role f _ = none

  abbrev of_qualification : {A : Type 0} → (Qualification F → Option A) → Item F → Option A
  of_qualification f (Item.qualification q) = f q
  of_qualification f _ = none

  abbrev of_project : {A : Type 0} → (Project F → Option A) → Item F → Option A
  of_project f (Item.project p) = f p
  of_project f _ = none

  abbrev rf :
      String
      → String
      → Reader F (Item F)
      → Option ((F → String) × (F → String))
      → String × FieldSpec F (Item F)
  rf name label reader phrasing =
      (name, record { name = name; label = label; reader = reader; phrasing = phrasing })

  abbrev months_suffix : Option F → String → String
  months_suffix none unit = ""
  months_suffix (some m) unit = concat (" (" ∷ fl.show_g m ∷ unit ∷ ")" ∷ [])

  abbrev summarise : Item F → String
  summarise (Item.skill s) = concat (s.name ∷ months_suffix s.years " years" ∷ [])
  summarise (Item.role r) =
      concat (title_or (non_empty r.title) "untitled role" ∷ months_suffix r.months " months" ∷ [])
  summarise (Item.qualification q) = concat (
      q.title
      ∷ elim q.aqf_level [ none ↦ "" | some n ↦ concat (" (AQF " ∷ show_nat n ∷ ")" ∷ []) ]
      ∷ [])
  summarise (Item.project p) = p.name

  unfoldable pub skill_record : RecordSpec F
  skill_record = record {
    name = "skill";
    plural = "skills";
    reader = λ p. map Item.skill p.skills;
    fields =
        rf "name" "skill name" (Reader.text (of_skill λ s. some s.name)) none
        ∷ rf "category" "skill category"
            (Reader.enum skill_categories (of_skill λ s. some s.category)) none
        ∷ rf "years" "years using the skill" (Reader.number (of_skill λ s. s.years))
            (some (template "" " years with the skill", template "" " years"))
        ∷ rf "proficiency" "stated proficiency"
            (Reader.enum proficiencies (of_skill λ s. s.proficiency)) none
        ∷ rf "evidence" "evidence for the skill" (Reader.text (of_skill λ s. s.evidence)) none
        ∷ [];
    summary = summarise;
  }

  unfoldable pub role_record : RecordSpec F
  role_record = record {
    name = "role";
    plural = "roles";
    reader = λ p. map Item.role p.experience;
    fields =
        rf "title" "role title" (Reader.text (of_role λ r. r.title)) none
        ∷ rf "employer" "employer" (Reader.text (of_role λ r. r.employer)) none
        ∷ rf "months" "months in the role" (Reader.number (of_role λ r. r.months))
            (some (template "" " months in the role", template "" " months"))
        ∷ rf "is_current" "currently held" (Reader.bool (of_role λ r. some r.is_current)) none
        ∷ rf "seniority" "seniority" (Reader.enum seniority_ladder (of_role λ r. r.seniority)) none
        ∷ rf "industry" "industry" (Reader.text (of_role λ r. r.industry)) none
        ∷ rf "employment_type" "employment type"
            (Reader.enum employment_types (of_role λ r. r.employment_type)) none
        ∷ rf "team_size" "team size led" (Reader.number (of_role λ r. float r.team_size))
            (some (template "led a team of " "", template "" ""))
        ∷ rf "technologies" "technologies used"
            (Reader.list (of_role λ r. none_if_empty r.technologies)) none
        ∷ rf "summary" "role summary" (Reader.text (of_role λ r. r.summary)) none
        ∷ [];
    summary = summarise;
  }

  unfoldable pub qualification_record : RecordSpec F
  qualification_record = record {
    name = "qualification";
    plural = "qualifications";
    reader = λ p. map Item.qualification p.qualifications;
    fields =
        rf "title" "qualification title" (Reader.text (of_qualification λ q. some q.title)) none
        ∷ rf "field_of_study" "field of study"
            (Reader.text (of_qualification λ q. q.field_of_study)) none
        ∷ rf "aqf" "AQF level" (Reader.number (of_qualification λ q. float q.aqf_level))
            (some (template "AQF level " "", template "AQF level " ""))
        ∷ rf "aqf_label" "AQF label" (Reader.text (of_qualification λ q. q.aqf_label)) none
        ∷ [];
    summary = summarise;
  }

  unfoldable pub project_record : RecordSpec F
  project_record = record {
    name = "project";
    plural = "projects";
    reader = λ p. map Item.project p.projects;
    fields =
        rf "name" "project name" (Reader.text (of_project λ p. some p.name)) none
        ∷ rf "summary" "project summary" (Reader.text (of_project λ p. p.summary)) none
        ∷ rf "technologies" "technologies used"
            (Reader.list (of_project λ p. none_if_empty p.technologies)) none
        ∷ rf "months" "months on the project" (Reader.number (of_project λ p. p.months))
            (some (template "" " months on the project", template "" " months"))
        ∷ [];
    summary = summarise;
  }

  unfoldable pub records : List (String × RecordSpec F)
  unfolding skill_record role_record qualification_record project_record
  records =
      ("skill", skill_record)
      ∷ ("role", role_record)
      ∷ ("qualification", qualification_record)
      ∷ ("project", project_record)
      ∷ []
