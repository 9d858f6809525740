-- ===== src/Rules/Statutes.antt =====
-- rescan/rules/statutes.py: the statutes, the table of risky phrasings and its deterministic scan's
-- data. A pattern is kept as its source text; the engine of regular expressions is a parameter.
use Prim.Native.String.{◌++◌ as ◌^◌}
use rescan.Prelude.{String, Option, none, some, List, [], ◌∷◌, ◌++◌}
use rescan.Prelude.Text.{lookup}
use rescan.Rules.Models.{RiskLevel}

pub record RiskPattern : Type 0 where
  pub id : String
  pub pattern : String
  pub risk : RiskLevel
  pub attributes : List String
  pub statutes : List String
  pub explanation : String
  pub rewrite : String
  pub field_alternative : Option String

abbrev pub statutes : List (String × String)
statutes =
    (
      "RDA_1975",
      "Racial Discrimination Act 1975 (Cth) ss 9, 15 — race, colour, national or ethnic origin",
    )
    ∷ ("FWA_351", "Fair Work Act 2009 (Cth) s 351 — adverse action on a protected attribute")
    ∷ (
      "SDA_1984",
      "Sex Discrimination Act 1984 (Cth) ss 5, 7A, 14 — sex, pregnancy, family responsibilities",
    )
    ∷ ("ADA_2004", "Age Discrimination Act 2004 (Cth) ss 14, 18 — age")
    ∷ ("DDA_1992", "Disability Discrimination Act 1992 (Cth) ss 5, 15 — disability")
    ∷ (
      "ADA_QLD_1991",
      "Anti-Discrimination Act 1991 (Qld) ss 7, 14, 15 — protected attributes in work",
    )
    ∷ (
      "PRIVACY_1988", "Privacy Act 1988 (Cth) — collection limited to what is reasonably necessary",
    )
    ∷ []

-- [STATUTES[code] for code in codes if code in STATUTES]
unfoldable pub statute_citations : List String → List String
statute_citations [] = []
statute_citations (code ∷ codes) = elim (lookup code statutes) [
  | none ↦ statute_citations codes
  | some text ↦ text ∷ statute_citations codes
]

abbrev pub indirect_discrimination_note : String
indirect_discrimination_note =
    "Indirect discrimination: a neutral-sounding requirement that a protected group is less able to meet, and which is not reasonable for the role."

abbrev pub first_patterns : List RiskPattern
first_patterns =
    record {
      id = "native_speaker";
      pattern =
          "\\b(native|mother[- ]tongue)\\s+(english\\s+)?(speaker|level|fluency)\\b|\\bnative english\\b";
      risk = RiskLevel.high;
      attributes = "race" ∷ "national or ethnic origin" ∷ [];
      statutes = "RDA_1975" ∷ "FWA_351" ∷ "ADA_QLD_1991" ∷ [];
      explanation =
          "'Native speaker' selects on where and how someone learned English, which tracks national origin, rather than on how well they communicate. Fluent speakers who learned English as a second language are excluded for a reason unrelated to the job.";
      rewrite =
          "Communicates in written and spoken English at a professional standard, evidenced in the application.";
      field_alternative = some "languages";
    }
    ∷ record {
      id = "unaccented";
      pattern =
          "\\b(no|without)\\s+(an\\s+)?accent\\b|\\bunaccented\\b|\\bneutral accent\\b|\\bclear accent\\b";
      risk = RiskLevel.high;
      attributes = "race" ∷ "national or ethnic origin" ∷ [];
      statutes = "RDA_1975" ∷ "FWA_351" ∷ [];
      explanation =
          "Accent is a direct marker of national origin and is not a measure of whether someone can be understood.";
      rewrite = "Able to be clearly understood by customers and colleagues in spoken English.";
      field_alternative = none;
    }
    ∷ record {
      id = "cultural_fit";
      pattern = "\\bculture?(al)?\\s+fit\\b|\\bfits? (our|the) culture\\b|\\bone of us\\b";
      risk = RiskLevel.high;
      attributes = "race" ∷ "national or ethnic origin" ∷ "religion" ∷ "age" ∷ "sex" ∷ [];
      statutes = "FWA_351" ∷ "ADA_QLD_1991" ∷ [];
      explanation =
          "'Cultural fit' has no measurable definition, so it absorbs the assessor's assumptions about background. It is the most common route by which demographic preference enters a screening decision.";
      rewrite =
          "Name the behaviour you actually need, e.g. 'has worked in cross-functional teams and given and received code review'.";
      field_alternative = none;
    }
    ∷ record {
      id = "recent_graduate";
      pattern =
          "\\b(recent|new|fresh|current)\\s+grad(uate)?s?\\b|\\bgraduating (this|next) year\\b";
      risk = RiskLevel.high;
      attributes = "age" ∷ [];
      statutes = "ADA_2004" ∷ "FWA_351" ∷ "ADA_QLD_1991" ∷ [];
      explanation =
          "'Recent graduate' is a proxy for age: it excludes career changers and people who returned to study later. If the real requirement is a junior level of experience, measure experience directly.";
      rewrite = "0-2 years of professional experience since completing the qualification.";
      field_alternative = some "total_years_experience";
    }
    ∷ record {
      id = "australian_educated";
      pattern =
          "\\baustralian\\s+(university|uni|degree|qualification|educated|education)\\b|\\bstudied in australia\\b|\\bdegree from an? australian\\b";
      risk = RiskLevel.high;
      attributes = "national or ethnic origin" ∷ "race" ∷ [];
      statutes = "RDA_1975" ∷ "FWA_351" ∷ "ADA_QLD_1991" ∷ [];
      explanation =
          "Requiring an Australian institution screens on country of origin when the underlying need is a qualification level. Overseas awards have recognised Australian equivalents.";
      rewrite = "Qualification at AQF level 7 or above, or an assessed overseas equivalent.";
      field_alternative = some "highest_aqf";
    }
    ∷ record {
      id = "local_experience";
      pattern =
          "\\b(australian|local)\\s+(work\\s+)?experience\\b|\\bexperience in the australian market\\b";
      risk = RiskLevel.review;
      attributes = "national or ethnic origin" ∷ "race" ∷ [];
      statutes = "RDA_1975" ∷ "FWA_351" ∷ [];
      explanation =
          "'Australian experience' is lawful only where something specific to the Australian context is genuinely required, such as knowledge of a local regulatory regime. As a blanket requirement it screens on national origin. "
          ^ indirect_discrimination_note;
      rewrite =
          "Name the specific local knowledge required, e.g. 'working knowledge of the Australian Privacy Principles'.";
      field_alternative = none;
    }
    ∷ record {
      id = "age_coded";
      pattern =
          "\\b(young|youthful|energetic|digital native|recent school leaver|mature[- ]aged|over \\d{2}|under \\d{2}|aged? \\d{2}\\s*(-|to)\\s*\\d{2})\\b";
      risk = RiskLevel.high;
      attributes = "age" ∷ [];
      statutes = "ADA_2004" ∷ "FWA_351" ∷ "ADA_QLD_1991" ∷ [];
      explanation =
          "Age-coded language screens on age rather than on capability. 'Energetic' and 'digital native' are read by applicants as age limits.";
      rewrite =
          "State the capability, e.g. 'comfortable learning new tooling quickly' or a specific tool proficiency.";
      field_alternative = none;
    }
    ∷ record {
      id = "career_gap";
      pattern =
          "\\b(no|without)\\s+(career\\s+)?(gaps?|breaks?)\\b|\\bcontinuous (employment|work history)\\b|\\buninterrupted (career|employment)\\b";
      risk = RiskLevel.high;
      attributes = "sex" ∷ "family or carer's responsibilities" ∷ "disability" ∷ [];
      statutes = "SDA_1984" ∷ "DDA_1992" ∷ "FWA_351" ∷ [];
      explanation =
          "Career breaks are taken disproportionately by women, carers and people managing a disability. Excluding gaps screens on those attributes rather than on current capability. "
          ^ indirect_discrimination_note;
      rewrite = "Skills current within the last 3 years, evidenced by recent work or projects.";
      field_alternative = none;
    }
    ∷ record {
      id = "availability_always";
      pattern =
          "\\b24/7 availability\\b|\\balways available\\b|\\bno family commitments\\b|\\bno dependants?\\b|\\bable to work any hours\\b";
      risk = RiskLevel.high;
      attributes = "sex" ∷ "family or carer's responsibilities" ∷ [];
      statutes = "SDA_1984" ∷ "FWA_351" ∷ "ADA_QLD_1991" ∷ [];
      explanation =
          "Open-ended availability requirements exclude carers, who are predominantly women, without measuring the job's actual hours.";
      rewrite =
          "State the actual roster, e.g. 'participates in an on-call rotation of one week in six'.";
      field_alternative = none;
    }
    ∷ []

abbrev pub last_patterns : List RiskPattern
last_patterns =
    record {
      id = "gendered_language";
      pattern =
          "\\b(salesman|salesmen|foreman|handyman|waitress|hostess|he/his required|\\bmale\\b|\\bfemale\\b|\\bmen only\\b|\\bwomen only\\b)\\b";
      risk = RiskLevel.review;
      attributes = "sex" ∷ "gender identity" ∷ [];
      statutes = "SDA_1984" ∷ "FWA_351" ∷ "ADA_QLD_1991" ∷ [];
      explanation =
          "Gendered role language signals a sex preference. A sex requirement is lawful only where it is a genuine occupational requirement, which is narrow and must be documented.";
      rewrite =
          "Use the neutral role title, e.g. 'salesperson', and state the task requirement instead.";
      field_alternative = none;
    }
    ∷ record {
      id = "physical_ability";
      pattern =
          "\\b(able[- ]bodied|physically fit|no (health|medical) (issues|conditions)|must be able to (stand|lift)(?! up to \\d))\\b";
      risk = RiskLevel.review;
      attributes = "disability" ∷ [];
      statutes = "DDA_1992" ∷ "FWA_351" ∷ "ADA_QLD_1991" ∷ [];
      explanation =
          "A general fitness requirement screens on disability. Only the inherent requirements of the role may be applied, and reasonable adjustments must be considered.";
      rewrite =
          "State the inherent physical requirement with a measure, e.g. 'lift up to 15kg with reasonable adjustments available'.";
      field_alternative = none;
    }
    ∷ record {
      id = "religion_appearance";
      pattern =
          "\\bclean[- ]shaven\\b|\\bno (head\\s*)?(covering|scarf|turban)\\b|\\bchristian values\\b|\\bno visible tattoos or religious\\b";
      risk = RiskLevel.high;
      attributes = "religion" ∷ "race" ∷ [];
      statutes = "FWA_351" ∷ "ADA_QLD_1991" ∷ "RDA_1975" ∷ [];
      explanation =
          "Appearance rules of this kind exclude people whose religion requires a beard or head covering, without a job-based reason. "
          ^ indirect_discrimination_note;
      rewrite =
          "State the genuine safety requirement, e.g. 'must maintain a seal on respiratory PPE', and consider adjustments.";
      field_alternative = none;
    }
    ∷ record {
      id = "citizenship_only";
      pattern =
          "\\baustralian citizens? only\\b|\\bmust be an? australian citizen\\b|\\bcitizens? only\\b";
      risk = RiskLevel.review;
      attributes = "national or ethnic origin" ∷ [];
      statutes = "RDA_1975" ∷ "FWA_351" ∷ [];
      explanation =
          "Citizenship requirements are lawful where genuinely required, for example a role needing a security clearance. Applied without that basis they exclude permanent residents and visa holders who hold full work rights, which tracks national origin. Record the basis.";
      rewrite =
          "If the role needs clearance, say so: 'eligible for an Australian Government security clearance'. Otherwise: 'holds unrestricted Australian work rights'.";
      field_alternative = some "work_rights";
    }
    ∷ record {
      id = "birthplace";
      pattern =
          "\\bborn in australia\\b|\\baustralian[- ]born\\b|\\bbirthplace\\b|\\bcountry of birth\\b";
      risk = RiskLevel.high;
      attributes = "national or ethnic origin" ∷ "race" ∷ [];
      statutes = "RDA_1975" ∷ "FWA_351" ∷ "ADA_QLD_1991" ∷ [];
      explanation =
          "Place of birth is a direct marker of national origin and has no bearing on capability.";
      rewrite = "Holds unrestricted Australian work rights.";
      field_alternative = some "work_rights";
    }
    ∷ record {
      id = "name_or_photo";
      pattern =
          "\\b(anglo|western|english)[- ](sounding\\s+)?name\\b|\\beasy to pronounce\\b|\\bphoto (required|attached)\\b|\\bdate of birth\\b|\\bmarital status\\b";
      risk = RiskLevel.high;
      attributes = "race" ∷ "national or ethnic origin" ∷ "age" ∷ "marital status" ∷ [];
      statutes = "RDA_1975" ∷ "ADA_2004" ∷ "FWA_351" ∷ "PRIVACY_1988" ∷ [];
      explanation =
          "Collecting or screening on name style, photo, date of birth or marital status invites demographic bias and collects more personal information than the decision reasonably requires.";
      rewrite = "Remove the requirement. Screen on the skills and experience the role needs.";
      field_alternative = none;
    }
    ∷ record {
      id = "employer_prestige";
      pattern =
          "\\b(leading|top[- ]tier|tier[- ]1|prestigious|well[- ]known|big[- ]?(4|four)|faang|blue[- ]chip|reputable|major)\\s+(compan(y|ies)|firms?|employers?|brands?|organisations?|organizations?|consultanc(y|ies)|tech)\\b";
      risk = RiskLevel.review;
      attributes = "social origin" ∷ "national or ethnic origin" ∷ [];
      statutes = "RDA_1975" ∷ "ADA_QLD_1991" ∷ [];
      explanation =
          "'Leading company' is an unvalidated prestige proxy: it rewards where someone worked rather than what they can do, and penalises overseas and smaller-market experience, which tracks national and social origin. "
          ^ indirect_discrimination_note;
      rewrite =
          "State the experience itself, e.g. '3+ years of relevant product design experience' or 'has shipped a product used by external customers'.";
      field_alternative = some "years_experience";
    }
    ∷ record {
      id = "postcode_or_suburb";
      pattern =
          "\\b(lives? in|located in|resident of|from)\\s+(the\\s+)?(inner|northern|southern|eastern|western)\\b|\\bpostcode\\b|\\bgood suburb\\b";
      risk = RiskLevel.review;
      attributes = "race" ∷ "national or ethnic origin" ∷ "social origin" ∷ [];
      statutes = "RDA_1975" ∷ "FWA_351" ∷ [];
      explanation =
          "Suburb and postcode correlate strongly with ethnicity and socio-economic background. A commute requirement should be stated as one. "
          ^ indirect_discrimination_note;
      rewrite =
          "State the actual constraint, e.g. 'able to attend the Brisbane CBD office two days per week'.";
      field_alternative = none;
    }
    ∷ []

unfoldable pub risk_patterns : List RiskPattern
risk_patterns = first_patterns ++ last_patterns
