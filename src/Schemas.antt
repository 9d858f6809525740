-- ===== src/Schemas.antt =====
-- rescan/schemas.py: the anonymized profile, the states of the lifecycle and the results of
-- ranking. A whole number of the profile is a natural number; `F` is the type of floats.
use rescan.Prelude.{ℕ, String, Bool, Option, none, some, List, [], ◌∷◌, max}

pub data WorkRightsStatus : Type 0 where
  citizen permanent_resident visa_unrestricted visa_restricted : WorkRightsStatus
  requires_sponsorship unknown : WorkRightsStatus

pub record Skill (F : Type 0) : Type 0 where
  pub name : String
  pub category : String
  pub years : Option F
  pub proficiency : Option String
  pub evidence : Option String

pub record Experience (F : Type 0) : Type 0 where
  pub title : Option String
  pub employer : Option String
  pub start : Option String
  pub end : Option String
  pub is_current : Bool
  pub months : Option F
  pub summary : Option String
  pub seniority : Option String
  pub industry : Option String
  pub employment_type : Option String
  pub team_size : Option ℕ
  pub technologies : List String

pub record Project (F : Type 0) : Type 0 where
  pub name : String
  pub summary : Option String
  pub technologies : List String
  pub months : Option F

pub record Qualification (F : Type 0) : Type 0 where
  pub title : String
  pub institution : Option String
  pub field_of_study : Option String
  pub completion_year : Option ℕ
  pub country : Option String
  pub aqf_level : Option ℕ
  pub aqf_label : Option String
  pub aqf_confidence : F

pub record WorkRights : Type 0 where
  pub status : WorkRightsStatus
  pub visa_subclass : Option String
  pub unrestricted : Option Bool
  pub evidence : Option String

-- direct identifiers, which the ranking passes never see
pub record Identity : Type 0 where
  pub full_name : Option String
  pub email : Option String
  pub phone : Option String
  pub suburb : Option String
  pub state : Option String
  pub country : Option String
  pub links : List String

-- the full, identified structure of one resume
pub record StructuredResume (F : Type 0) : Type 0 where
  pub identity : Identity
  pub summary : Option String
  pub skills : List (Skill F)
  pub experience : List (Experience F)
  pub total_years_experience : Option F
  pub qualifications : List (Qualification F)
  pub universities : List String
  pub work_rights : WorkRights
  pub languages : List String
  pub affiliations : List String
  pub certifications : List String
  pub projects : List (Project F)
  pub licences : List String
  pub security_clearance : Option String
  pub management_years : Option F
  pub people_managed_max : Option ℕ
  pub publications_count : Option ℕ
  pub availability_weeks : Option F
  pub extraction_notes : List String

pub data RedactionAction : Type 0 where
  removed generalised regionalised kept : RedactionAction

pub record Redaction : Type 0 where
  pub field : String
  pub action : RedactionAction
  pub reason : String
  pub original_present : Bool

pub record ExtractionResult : Type 0 where
  pub text : String
  pub content_type : Option String
  pub page_count : Option ℕ
  pub backend : String
  pub ocr_used : Bool
  pub char_count : ℕ
  pub warnings : List String

pub record AnonymizedProfile (F : Type 0) : Type 0 where
  pub candidate_ref : String
  pub summary : Option String
  pub skills : List (Skill F)
  pub experience : List (Experience F)
  pub total_years_experience : Option F
  pub qualifications : List (Qualification F)
  pub institution_tiers : List String
  pub region : Option String
  pub work_rights : WorkRights
  pub languages : List String
  pub job_relevant_affiliations : List String
  pub certifications : List String
  pub projects : List (Project F)
  pub licences : List String
  pub security_clearance : Option String
  pub management_years : Option F
  pub people_managed_max : Option ℕ
  pub publications_count : Option ℕ
  pub availability_weeks : Option F
  pub redactions : List Redaction

-- The levels that are stated.
abbrev pub aqf_levels : {F : Type 0} → List (Qualification F) → List ℕ
aqf_levels [] = []
aqf_levels (q ∷ qs) = elim q.aqf_level [ none ↦ aqf_levels qs | some n ↦ n ∷ aqf_levels qs ]

abbrev pub max_level : List ℕ → Option ℕ
max_level [] = none
max_level (n ∷ ns) = elim (max_level ns) [ none ↦ some n | some m ↦ some (max n m) ]

abbrev pub highest_aqf : {F : Type 0} → AnonymizedProfile F → Option ℕ
highest_aqf p = max_level (aqf_levels p.qualifications)

pub data CandidateStatus : Type 0 where
  pending extracting structuring anonymizing ready : CandidateStatus
  needs_manual_review failed duplicate : CandidateStatus

pub data BatchStatus : Type 0 where
  queued running complete failed : BatchStatus

pub data RunStatus : Type 0 where
  queued running complete failed : RunStatus

pub data CandidateOutcome : Type 0 where
  eligible excluded needs_manual_review : CandidateOutcome

pub record CriterionScore (F : Type 0) : Type 0 where
  pub criterion : String
  pub score : F
  pub weight : F
  pub evidence : String

pub data PassName : Type 0 where
  triage ensemble : PassName

-- What the recruiter is hiring for.
pub record RoleSpec (F : Type 0) : Type 0 where
  pub title : String
  pub description : Option String
  pub required_skills : List String
  pub desirable_skills : List String
  pub min_years_experience : Option F
  pub min_aqf : Option ℕ

-- the dictionaries of `ensemble_votes`: a member that failed, one that scored, and the summary; a
-- model that is not named is that of the settings
pub data EnsembleVote (F : Type 0) : Type 0 where
  failed_vote : Option String → Option ℕ → String → EnsembleVote F
  scored_vote : String → Option ℕ → F → Bool → String → EnsembleVote F
  summary_vote :
      (members include_votes : ℕ) (majority_include unanimous : Bool)
      (score_spread combined_score : F)
      → EnsembleVote F

pub record CandidateScore (F : Type 0) : Type 0 where
  pub candidate_ref : String
  pub score : F
  pub criteria : List (CriterionScore F)
  pub rationale : String
  pub model : String
  pub pass_name : PassName
  pub ensemble_votes : List (EnsembleVote F)

pub record ShortlistEntry (F : Type 0) : Type 0 where
  pub rank : ℕ
  pub candidate_ref : String
  pub score : F
  pub rationale : String
  pub borderline : Bool
  pub criteria : List (CriterionScore F)

pub record Exclusion : Type 0 where
  pub candidate_ref : String
  pub reasons : List String
  pub failed_rules : List String

pub record ReviewNote : Type 0 where
  pub candidate_ref : String
  pub reasons : List String

pub record Shortlist (F : Type 0) : Type 0 where
  pub role_title : String
  pub entries : List (ShortlistEntry F)
  pub below_cutoff : List (ShortlistEntry F)
  pub excluded : List Exclusion
  pub manual_review : List ReviewNote
