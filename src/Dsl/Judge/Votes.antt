-- ===== src/Dsl/Judge/Votes.antt =====
-- rescan/dsl/judge.py: the check of the evidence, one vote, and how the votes combine.
use Prim.Native.Char.{code}
use rescan.Prelude.{
  ℕ, ◌*◌, max, String, Bool, true, false, not, ◌&&◌, ◌||◌, Option, none, some, List, [], ◌∷◌, map,
  filter, if◌then◌else◌, length, count_if, ltb, is_some, or_default, ◌==◌,
}
use rescan.Prelude.Text.{
  text_length, lower, strip, is_empty, is_space, contains, concat, join, show_nat, str_eq,
}
use rescan.Dsl.Verdict.{Answer, Vote, JudgeResult}
use rescan.Dsl.Eval.Leaf.{manual_review}

-- text.replace("\\", "").replace('"', "")
unfoldable pub drop_quotes : String → String
drop_quotes String.[] = ""
drop_quotes (String.◌∷◌ c s) =
    let rest = drop_quotes s in if code c == 92 || code c == 34 then rest else String.◌∷◌ c rest

abbrev starts_blank : String → Bool
starts_blank String.[] = false
starts_blank (String.◌∷◌ c s) = is_space c

-- re.sub(r"\s+", " ", text): of a run of white space the last character gives the blank
unfoldable pub collapse : String → String
collapse String.[] = ""
collapse (String.◌∷◌ c s) =
    let rest = collapse s in
    if is_space c then (if starts_blank s then rest else String.◌∷◌ " " rest) else String.◌∷◌ c rest

-- `_normalise`
unfoldable pub normalise : String → String
unfolding drop_quotes collapse
normalise text = lower (strip (collapse (drop_quotes text)))

unfoldable pub evidence_present : Option String → String → Bool
unfolding normalise
evidence_present none text = false
evidence_present (some evidence) text =
    if is_empty evidence || ltb (text_length (strip evidence)) 3
    then false
    else contains (normalise evidence) (normalise text)

-- the data of a response, each field as `str(data.get(…))`; one that is missing is `none`
pub record JudgeResponse : Type 0 where
  pub model : String
  pub answer : Option String
  pub evidence : Option String
  pub reasoning : Option String
  pub declined_reason : Option String

pub data JudgeAnswer : Type 0 where
  -- an LLMError, with its text
  llm_error : String → JudgeAnswer
  answered : JudgeResponse → JudgeAnswer

-- `x or None`, stripped
abbrev stripped : Option String → Option String
stripped none = none
stripped (some s) = if is_empty s then none else some (strip s)

abbrev or_unknown : Option String → String
or_unknown none = "unknown"
or_unknown (some s) = if is_empty s then "unknown" else s

-- an answer that is not one of `ANSWERS` is "unknown"
unfoldable pub read_answer : Option String → Answer
read_answer raw =
    let answer = lower (strip (or_unknown raw)) in
    if str_eq answer "yes"
    then Answer.yes_answer
    else if str_eq answer "no"
    then Answer.no_answer
    else Answer.unknown_answer

abbrev answer_text : Answer → String
answer_text Answer.yes_answer = "yes"
answer_text Answer.no_answer = "no"
answer_text Answer.unknown_answer = "unknown"

abbrev pub is_open : Answer → Bool
is_open Answer.unknown_answer = true
is_open _ = false

-- A yes or a no that the profile does not back is no answer.
unfoldable pub verify : Vote → String → Vote
unfolding evidence_present
verify vote text =
    if is_open vote.answer
    then vote
    else if evidence_present vote.evidence text
    then record vote { evidence_verified = true }
    else record vote {
      answer = Answer.unknown_answer;
      note = some (
          concat (
            "model answered '"
            ∷ answer_text vote.answer
            ∷ "' without verifiable evidence; treated as unknown"
            ∷ []));
    }

-- the rest of `_vote`, on the client's answer
unfoldable pub vote_of : Option String → Option ℕ → String → JudgeAnswer → Vote
unfolding verify read_answer
vote_of model seed text (llm_error e) = record {
  model = or_default model "unknown";
  seed = seed;
  answer = Answer.unknown_answer;
  evidence = none;
  reasoning = "";
  declined_reason = none;
  evidence_verified = false;
  error = some e;
  note = none;
}
vote_of model seed text (answered r) =
    verify
      (record {
        model = r.model;
        seed = seed;
        answer = read_answer r.answer;
        evidence = stripped r.evidence;
        reasoning = strip (or_default r.reasoning "");
        declined_reason = stripped r.declined_reason;
        evidence_verified = false;
        error = none;
        note = none;
      })
      text

abbrev pub is_counted : Vote → Bool
is_counted v = not (is_some v.error)

abbrev pub is_yes_answer : Answer → Bool
is_yes_answer Answer.yes_answer = true
is_yes_answer _ = false

abbrev pub is_no_answer : Answer → Bool
is_no_answer Answer.no_answer = true
is_no_answer _ = false

abbrev pub says_yes : Vote → Bool
says_yes v = is_yes_answer v.answer

abbrev pub says_no : Vote → Bool
says_no v = is_no_answer v.answer

-- a text that is there and not empty
abbrev or_empty : Option String → String
or_empty none = ""
or_empty (some s) = s

-- next((text of vote for vote in votes if … and text of vote), "")
abbrev first_of : (Vote → Option String) → (Vote → Bool) → List Vote → String
first_of text p [] = ""
first_of text p (v ∷ vs) =
    let rest = first_of text p vs in
    if p v && not (is_empty (or_empty (text v))) then or_empty (text v) else rest

abbrev quoted_question : String → String
quoted_question q = concat ("Model check \"" ∷ q ∷ "\"" ∷ [])

abbrev agreement : ℕ → ℕ → ℕ → String
agreement y n total =
    if ltb 1 total
    then concat ("(" ∷ show_nat (max y n) ∷ " of " ∷ show_nat total ∷ " votes agree)" ∷ [])
    else ""

abbrev decided_reason : String → String → String → String → String
decided_reason q answer evidence agree = concat (
    strip (
      concat
        (quoted_question q ∷ ": " ∷ answer ∷ " — evidence: \"" ∷ evidence ∷ "\" " ∷ agree ∷ []))
    ∷ "."
    ∷ [])

-- why the counted votes decide nothing
abbrev why : List Vote → ℕ → ℕ → String
why counted y n =
    let declined = first_of (λ v. Vote.declined_reason v) (λ _. true) counted in
    let noted = first_of (λ v. Vote.note v) (λ _. true) counted in
    if not (is_empty declined)
    then concat ("model declined: " ∷ declined ∷ [])
    else if not (y == 0) && not (n == 0)
    then concat (
        "votes split "
        ∷ show_nat y
        ∷ " yes / "
        ∷ show_nat n
        ∷ " no of "
        ∷ show_nat (length counted)
        ∷ [])
    else if not (is_empty noted)
    then noted
    else "the profile does not say"

abbrev pub is_none_left : List Vote → Bool
is_none_left [] = true
is_none_left (v ∷ vs) = false

-- the value that the counted votes decide
unfoldable pub majority : List Vote → Option Bool
majority counted =
    if ltb (length counted) (count_if says_yes counted * 2)
    then some true
    else if ltb (length counted) (count_if says_no counted * 2)
    then some false
    else none

unfoldable pub reason_for : String → List Vote → List Vote → Option Bool → String
reason_for q votes counted (some true) =
    decided_reason q "yes" (first_of (λ v. Vote.evidence v) says_yes counted)
      (agreement (count_if says_yes counted) (count_if says_no counted) (length counted))
reason_for q votes counted (some false) =
    decided_reason q "no" (first_of (λ v. Vote.evidence v) says_no counted)
      (agreement (count_if says_yes counted) (count_if says_no counted) (length counted))
reason_for q votes [] none = concat (
    quoted_question q
    ∷ " could not be made ("
    ∷ join "; " (map (λ v. or_empty (Vote.error v)) votes)
    ∷ "). "
    ∷ manual_review
    ∷ [])
reason_for q votes (v ∷ vs) none = concat (
    quoted_question q
    ∷ " could not be determined ("
    ∷ why (v ∷ vs) (count_if says_yes (v ∷ vs)) (count_if says_no (v ∷ vs))
    ∷ "). "
    ∷ manual_review
    ∷ [])

-- `_combine`
unfoldable pub combine : String → List Vote → JudgeResult
unfolding majority reason_for
combine q votes =
    let counted = filter is_counted votes in
    record {
      question = q;
      value = majority counted;
      reason = reason_for q votes counted (majority counted);
      votes = votes;
    }
