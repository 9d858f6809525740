-- ===== src/Tests/Judging.antt =====
-- A judge of three members: one quotes the profile, one makes its quote up, one cannot be reached.
use rescan.Prelude.{
  ℕ, suc, ◌*◌, ◌<◌, ◌≡◌, refl, String, true, false, Option, none, some, List, [], ◌∷◌, length,
  count_if, filter,
}
use rescan.Prelude.Text.{text_length, lower, strip, contains}
use rescan.Prelude.Result.{ok}
use rescan.Dsl.Verdict.{JudgeResult, Vote, Answer}
use rescan.Dsl.Judge.Votes.{
  JudgeAnswer, llm_error, answered, combine, is_counted, evidence_present, vote_of,
}
use rescan.Dsl.Judge.Ask.{JudgeSetup, JudgeState, judge}
use rescan.Dsl.Judge.Majority.{MemberAnswer, votes_on, quotes, combine-quotes}
use rescan.Dsl.Judge.Memo.{judge-again}
use rescan.Tests.Samples.{whole_numbers, applicant}

abbrev text : String
text = "{\"title\": \"Team Lead\"}"

abbrev response : String → String → JudgeAnswer
response answer evidence = answered (record {
  model = "m";
  answer = some answer;
  evidence = some evidence;
  reasoning = none;
  declined_reason = none;
})

abbrev answers : List MemberAnswer
answers =
    (none, some 11, response "No" "title: Team Lead")
    ∷ (none, some 22, response "yes" "a quote that is not there")
    ∷ (none, some 33, llm_error "timeout")
    ∷ []

quote_found : evidence_present (some "title: \"Team  Lead\"") text ≡ true
unfolding evidence_present lower strip contains text_length
quote_found = refl

abbrev one_answer : List MemberAnswer
one_answer =
    (none, some 11, response "No" "title: Team Lead") ∷ (none, some 33, llm_error "timeout") ∷ []

abbrev result_of : List MemberAnswer → Option Answer
result_of [] = none
result_of (a ∷ rest) = some (Vote.answer (vote_of none none text a.2))

-- one no, one yes that is not verified, one error: one of two is no majority
no_majority : JudgeResult.value (combine "Q" (votes_on text answers)) ≡ none
unfolding combine vote_of evidence_present lower strip contains text_length
no_majority = refl

-- of the members that answer, the only one says no
decided : JudgeResult.value (combine "Q" (votes_on text one_answer)) ≡ some false
unfolding combine vote_of evidence_present lower strip contains text_length
decided = refl

combine-quotes_example :
    let counted = filter is_counted (votes_on text one_answer) in
    length counted < count_if (quotes text false) counted * 2
combine-quotes_example = combine-quotes "Q" text one_answer false decided

abbrev setup : JudgeSetup ℕ ℕ
setup = record {
  client = λ q t model seed calls. (ok (response "no" "Team Lead"), suc calls);
  members = (none, none) ∷ [];
  ensemble = false;
  profile_text = λ p. text;
  digest = λ t. t;
  on_check = λ r p calls. (ok tt, calls);
}

abbrev start : JudgeState ℕ
start = record { world = 0; memo = [] }

abbrev verified : JudgeResult
verified = combine "Q" (votes_on text ((none, none, response "no" "Team Lead") ∷ []))

first_answer : (judge setup "Q" applicant start).0 ≡ ok verified
unfolding judge
first_answer = refl

judge-again_example :
    judge setup "Q" applicant (judge setup "Q" applicant start).1
    ≡ (ok verified, (judge setup "Q" applicant start).1)
judge-again_example = judge-again setup "Q" applicant verified start first_answer
