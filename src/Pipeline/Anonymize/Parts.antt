-- ===== src/Pipeline/Anonymize/Parts.antt =====
-- rescan/pipeline/anonymize.py: the parts of `anonymize_resume`: the qualifications, the entries
-- that the model writes, and the employers that it charges.
use Prim.Native.String.{◌++◌ as ◌^◌}
use rescan.Prelude.{
  ℕ, zero, suc, String, Bool, true, false, Option, none, some, List, [], ◌∷◌, ◌++◌, if◌then◌else◌,
}
use rescan.Prelude.Text.{str_eq, lower, strip, is_empty, concat}
use rescan.Prelude.Result.{Attempt}
use rescan.Schemas.{Qualification, StructuredResume, RedactionAction, Redaction, AnonymizedProfile}
use rescan.Pipeline.Rank.Score.{put, get}
use rescan.Pipeline.Anonymize.Scrub.{scrub}

-- an entry of `employers_to_remove`
pub record RemovedEmployer : Type 0 where
  pub employer : Option String
  pub reason : Option String

-- `response.data`
pub record AnonymizeReply : Type 0 where
  pub summary : Option String
  pub institution_tiers : List (Option String)
  pub region : Option String
  pub job_relevant_affiliations : List (Option String)
  pub employers_to_remove : List RemovedEmployer
  pub redactions : List Redaction

pub record AnonymizeEnv (W F : Type 0) : Type 0 where
  -- client.json_call; an LLMError is declined
  pub client : StructuredResume F → W → Attempt AnonymizeReply × W
  -- model_dump_json(exclude={"redactions"})
  pub serialise : AnonymizedProfile F → String
  -- repr of a text and of a list of texts
  pub repr : String → String
  pub repr_all : List String → String

abbrev pub removed : String → String → Redaction
removed name reason = record {
  field = name;
  action = RedactionAction.removed;
  reason = reason;
  original_present = true;
}

abbrev pub if_stated : {A : Type 0} → Option A → Redaction → List Redaction
if_stated none r = []
if_stated (some a) r = r ∷ []

-- `if text`: none and the empty text do not count
abbrev pub nonempty : Option String → Option String
nonempty none = none
nonempty (some s) = if is_empty s then none else some s

-- `if year`: zero does not count
abbrev pub nonzero : Option ℕ → Option ℕ
nonzero none = none
nonzero (some zero) = none
nonzero (some (suc n)) = some (suc n)

module _ {F : Type 0} where
  abbrev pub without_detail : Qualification F → Qualification F
  without_detail q = record q { institution = none; completion_year = none; country = none }

  abbrev pub qualification_redactions : Qualification F → List Redaction
  qualification_redactions q =
      if_stated (nonempty q.institution) (
        removed "qualifications.institution"
          "Institution name is a demographic proxy; retained only as a tier.")
      ++ if_stated (nonempty q.country) (
          removed "qualifications.country"
            "Country of award is a proxy for national origin (Racial Discrimination Act 1975).")
      ++ if_stated (nonzero q.completion_year) (
          removed "qualifications.completion_year" (
            concat (
              "Graduation year is a proxy for age (Age Discrimination Act 2004). "
              ∷ "Recency is represented by total years of experience instead." ∷ [])))

  -- `_anonymized_qualifications`
  unfoldable pub anonymized_qualifications :
      List (Qualification F) → List (Qualification F) × List Redaction
  anonymized_qualifications [] = ([], [])
  anonymized_qualifications (q ∷ qs) =
      let (rest, found) = anonymized_qualifications qs in
      (without_detail q ∷ rest, qualification_redactions q ++ found)

abbrev pub stripped_or_empty : Option String → String
stripped_or_empty none = ""
stripped_or_empty (some s) = strip s

-- `_safe_entries`: the entries that are kept, and the redactions of the others
unfoldable pub safe_entries :
    String → List String → List (Option String) → List String × List Redaction
unfolding scrub strip
safe_entries name tokens [] = ([], [])
safe_entries name tokens (value ∷ values) =
    let (kept, found) = safe_entries name tokens values in
    let text = stripped_or_empty value in
    if is_empty text
    then (kept, found)
    else if str_eq (scrub tokens text) text
    then (text ∷ kept, found)
    else (
      kept,
      removed name (
            concat ("The model's " ∷ name ∷ " entry still identified the candidate; removed." ∷ []))
          ∷ found,
    )

-- text.endswith(".")
abbrev pub ends_with_dot : String → Bool
ends_with_dot String.[] = false
ends_with_dot (String.◌∷◌ c String.[]) = str_eq (String.◌∷◌ c "") "."
ends_with_dot (String.◌∷◌ c (String.◌∷◌ d s)) = ends_with_dot (String.◌∷◌ d s)

abbrev pub reason_or : String → String
reason_or s = if is_empty s then "signals a protected attribute." else s

abbrev pub with_dot : String → String
with_dot s = if ends_with_dot s then s else s ^ "."

-- `charged_employers`, after those that are charged so far
unfoldable pub charged_employers :
    List RemovedEmployer → List (String × String) → List (String × String)
unfolding strip lower
charged_employers [] charged = charged
charged_employers (entry ∷ entries) charged = charged_employers entries (
    let name = stripped_or_empty entry.employer in
    if is_empty name
    then charged
    else put (lower name) (with_dot (reason_or (stripped_or_empty entry.reason))) charged)

abbrev pub charge_of : List (String × String) → Option String → Option (String × String)
charge_of charged none = none
charge_of charged (some name) =
    if is_empty name
    then none
    else elim (get (lower (strip name)) charged) [ none ↦ none | some reason ↦ some (name, reason) ]
