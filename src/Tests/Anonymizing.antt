-- ===== src/Tests/Anonymizing.antt =====
-- The anonymization of a resume that names its candidate.
use rescan.Prelude.{ℕ, suc, ◌≡◌, refl, String, true, false, Option, none, some, [], ◌∷◌}
use rescan.Prelude.Text.{strip, member}
use rescan.Prelude.Result.{done, declined}
use rescan.Prelude.{or_default}
use rescan.Schemas.{StructuredResume, AnonymizedProfile}
use rescan.Pipeline.Anonymize.Scrub.{scrub, identity_tokens, replace_from}
use rescan.Pipeline.Anonymize.Parts.{AnonymizeEnv, AnonymizeReply}
use rescan.Pipeline.Anonymize.Pass.{anonymize_resume, leak_check}
use rescan.Pipeline.Anonymize.Closed.{Closed, anonymize_resume-Closed}
use rescan.Pipeline.Anonymize.Signs.{sign_first}
use rescan.Tests.Running.{resume}
use rescan.Tests.Samples.{applicant}

tokens : identity_tokens resume ≡ "Ada Byron" ∷ "Byron" ∷ "Ada" ∷ []
unfolding identity_tokens strip
tokens = refl

scrubbed :
    scrub ("Ada Byron" ∷ "Ada" ∷ []) "Led by ADA, ada byron. Adamant"
    ≡ "Led by [redacted] . Adamant"
unfolding scrub strip
scrubbed = refl

-- a model that writes the text of a file as the summary, or cannot be reached
abbrev model_of : Option String → AnonymizeEnv ℕ ℕ
model_of text = record {
  client = λ r n. (elim text [ none ↦ declined "offline" | some s ↦ done (reply s) ], suc n);
  serialise = λ p. or_default p.summary "";
  repr = λ s. s;
  repr_all = λ ss. "";
}
  where
    reply : String → AnonymizeReply
    reply s = record {
      summary = some s;
      institution_tiers = [];
      region = some "Byron Bay";
      job_relevant_affiliations = [];
      employers_to_remove = [];
      redactions = [];
    }

anonymize_resume-Closed_example :
    Closed
      (model_of (some "Ada leads"))
      resume
      "Candidate 1"
      (anonymize_resume (model_of (some "Ada leads")) resume "Candidate 1" 0).0
anonymize_resume-Closed_example =
    anonymize_resume-Closed (model_of (some "Ada leads")) resume "Candidate 1" 0

-- a profile whose summary has the phone number of the resume
abbrev caller : StructuredResume ℕ
caller = record resume { identity = record resume.identity { phone = some "+61 400" } }

abbrev reachable : AnonymizedProfile ℕ
reachable = record applicant { summary = some "{\"summary\": \"call +61 400\"}" }

phone_is_token : member "+61 400" (identity_tokens caller) ≡ true
unfolding identity_tokens strip
phone_is_token = refl

sign_first_example :
    (replace_from "+61 400" 0 none "call +61 400" ≡ "call +61 400")
    × (member "+61 400" (leak_check (model_of none) caller reachable) ≡ false)
sign_first_example =
    sign_first (model_of none) "+" "61 400" "call +61 400" caller reachable refl refl refl
