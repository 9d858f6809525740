-- ===== src/Dsl/Judge/Majority.antt =====
-- rescan/dsl/judge.py: a check is decided by members that quote the profile, and by no others.
use rescan.Prelude.{
  ◌≡◌, refl, sym, ℕ, suc, ◌*◌, ◌<◌, String, Bool, true, false, ◌&&◌, ◌||◌, Option, none, some, List,
  [], ◌∷◌, map, filter, All, length, count_if, ltb, if◌then◌else◌, if_elim, arith,
}
use rescan.Dsl.Verdict.{Answer, Vote, JudgeResult}
use rescan.Dsl.Judge.Votes.{
  JudgeAnswer, llm_error, answered, evidence_present, is_open, verify, vote_of, is_counted,
  is_yes_answer, is_no_answer, says_yes, says_no, majority, combine,
}

-- an answer of a member, with its model and seed
abbrev pub MemberAnswer : Type 0
MemberAnswer = Option String × Option ℕ × JudgeAnswer

abbrev pub votes_on : String → List MemberAnswer → List Vote
votes_on text = map (λ (model, seed, answer). vote_of model seed text answer)

abbrev pub says : Bool → Vote → Bool
says true v = says_yes v
says false v = says_no v

-- a vote for `b` that quotes the profile
abbrev pub quotes : String → Bool → Vote → Bool
quotes text b v = says b v && evidence_present v.evidence text

-- a vote that is open, or quotes the profile
abbrev backed : String → Vote → Bool
backed text v = is_open v.answer || evidence_present v.evidence text

verify-backed : (v : Vote) (text : String) → backed text (verify v text) ≡ true
unfolding verify
verify-backed v text =
    if_elim (λ w. backed text w ≡ true) (is_open v.answer) (λ h. ground (arith, h))
      λ _.
        if_elim (λ w. backed text w ≡ true) (evidence_present v.evidence text)
          (λ h. ground (arith, h)) (λ _. refl)

vote_of-backed :
    (model : Option String) (seed : Option ℕ) (text : String) (answer : JudgeAnswer)
    → backed text (vote_of model seed text answer) ≡ true
unfolding vote_of
vote_of-backed model seed text (llm_error e) = refl
vote_of-backed model seed text (answered r) = verify-backed _ text

votes-backed :
    (text : String) (answers : List MemberAnswer)
    → All (λ v. backed text v ≡ true) (votes_on text answers)
votes-backed text [] = tt
votes-backed text ((model, seed, answer) ∷ rest) =
    (vote_of-backed model seed text answer, votes-backed text rest)

All-filter :
    {A : Type 0} (P : A → Type 0) (p : A → Bool) (xs : List A) → All P xs → All P (filter p xs)
All-filter P p [] h = tt
All-filter P p (x ∷ xs) (h, hs) =
    if_elim (All P) (p x) (λ _. (h, All-filter P p xs hs)) (λ _. All-filter P p xs hs)

says-quotes :
    (b present : Bool) (a : Answer)
    → (is_open a || present) ≡ true
    → (if b then is_yes_answer a else is_no_answer a)
      ≡ ((if b then is_yes_answer a else is_no_answer a) && present)
says-quotes true present Answer.yes_answer h = sym h
says-quotes true present Answer.no_answer h = refl
says-quotes true present Answer.unknown_answer h = refl
says-quotes false present Answer.yes_answer h = refl
says-quotes false present Answer.no_answer h = sym h
says-quotes false present Answer.unknown_answer h = refl

count-quotes :
    (text : String) (b : Bool) (vs : List Vote)
    → All (λ v. backed text v ≡ true) vs
    → count_if (says b) vs ≡ count_if (quotes text b) vs
count-quotes text b [] h = refl
count-quotes text true (v ∷ vs) (h, hs) = λ i.
    let rest = count-quotes text true vs hs i in
    if says-quotes true (evidence_present v.evidence text) v.answer h i then suc rest else rest
count-quotes text false (v ∷ vs) (h, hs) = λ i.
    let rest = count-quotes text false vs hs i in
    if says-quotes false (evidence_present v.evidence text) v.answer h i then suc rest else rest

decided_yes :
    (t y n : ℕ)
    → (if ltb t y then some true else if ltb t n then some false else none) ≡ some true
    → t < y
decided_yes t y n h = ground (arith, h)

decided_no :
    (t y n : ℕ)
    → (if ltb t y then some true else if ltb t n then some false else none) ≡ some false
    → t < n
decided_no t y n h = ground (arith, h)

majority-counts :
    (counted : List Vote) (b : Bool)
    → majority counted ≡ some b
    → length counted < count_if (says b) counted * 2
unfolding majority
majority-counts counted true h = decided_yes (length counted) (count_if says_yes counted * 2) _ h
majority-counts counted false h = decided_no (length counted) (count_if says_yes counted * 2) _ h

-- A check that is decided is decided by more than half of the members that could be asked, each of
-- which gave that answer and quoted a text that stands in the profile; an answer without such a
-- quote never counts, and a member whose call failed is left out of the half.
pub combine-quotes :
    (q text : String) (answers : List MemberAnswer) (b : Bool)
    → JudgeResult.value (combine q (votes_on text answers)) ≡ some b
    → let counted = filter is_counted (votes_on text answers) in
      length counted < count_if (quotes text b) counted * 2
unfolding combine
combine-quotes q text answers b h =
    let counted = filter is_counted (votes_on text answers) in
    rw⁻¹ (count-quotes text b counted (All-filter _ is_counted _ (votes-backed text answers)))
      (majority-counts counted b h)
