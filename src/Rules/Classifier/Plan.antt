-- ===== src/Rules/Classifier/Plan.antt =====
-- rescan/rules/classifier.py: `split_plan`, `compile_plan` and `classify_rule`.
use Prim.Native.Char.{Char, code}
use Prim.Native.String.{◌++◌ as ◌^◌}
use rescan.Prelude.{
  ℕ, suc, String, Bool, true, false, not, ◌&&◌, ◌||◌, Option, none, some, List, [], ◌∷◌, ◌++◌, map,
  filter, if◌then◌else◌, leb, ◌==◌, length, is_some, or_default,
}
use rescan.Prelude.Float.{FloatOps}
use rescan.Prelude.Result.{Result, ok, err, PyError}
use rescan.Prelude.Text.{strip, lstrip, is_empty, is_space, concat, join, show_nat}
use rescan.Dsl.Ast.{ClauseKind}
use rescan.Rules.Models.{RuleVerdict, RiskLevel, Note, ClassifiedRule, RuleSet}
use rescan.Rules.Classifier.{ModelRule}
use rescan.Rules.Classifier.Build.{
  LlmReply, answered, llm_error, ModelPlan, RuleClient, Review, build_rule, stripped,
}

-- (?<=[.;!?])
abbrev pub ends_sentence : Char → Bool
ends_sentence c = code c == b'.' || code c == b';' || code c == b'!' || code c == b'?'

-- what a separator of `_SENTENCE_SPLIT` is made of, while one is being passed
pub data Separator : Type 0 where
  no_separator spaces newlines : Separator

abbrev pub in_separator : Separator → Char → Bool
in_separator no_separator c = false
in_separator spaces c = is_space c
in_separator newlines c = code c == 10

-- the separator that begins at a character, after a sentence's end or not
abbrev pub begins : Bool → Char → Separator
begins true c = if is_space c then spaces else no_separator
begins false c = if code c == 10 then newlines else no_separator

abbrev pub is_separator : Separator → Bool
is_separator no_separator = false
is_separator _ = true

abbrev pub on_first : Char → List String → List String
on_first c [] = String.◌∷◌ c "" ∷ []
on_first c (s ∷ ss) = String.◌∷◌ c s ∷ ss

-- `_SENTENCE_SPLIT.split`, from a place with the character before it and the separator it is in
unfoldable pub split_sentences : Bool → Separator → String → List String
split_sentences ended sep String.[] = "" ∷ []
split_sentences ended sep (String.◌∷◌ c s) =
    if in_separator sep c
    then split_sentences (ends_sentence c) sep s
    else if is_separator (begins ended c)
    then "" ∷ split_sentences (ends_sentence c) (begins ended c) s
    else on_first c (split_sentences (ends_sentence c) no_separator s)

abbrev pub is_list_digit : Char → Bool
is_list_digit c = leb b'0' (code c) && leb (code c) b'9'

-- \d+[.)], after a first digit
abbrev pub numbered : String → Option String
numbered String.[] = none
numbered (String.◌∷◌ c s) =
    let rest = numbered s in
    if is_list_digit c
    then rest
    else if code c == b'.' || code c == b')'
    then some (lstrip s)
    else none

-- `_BULLET.sub("", chunk)`; 8226 is the bullet
unfoldable pub without_bullet : String → String
unfolding lstrip
without_bullet s = bullet (lstrip s)
  where
    bullet : String → String
    bullet = elim [
      | String.[] ↦ s
      | String.◌∷◌ c rest ↦
          if code c == b'-' || code c == b'*' || code c == 8226
          then lstrip rest
          else if is_list_digit c
          then or_default (numbered rest) s
          else s
    ]

abbrev pub at_least_three : String → Bool
at_least_three (String.◌∷◌ a (String.◌∷◌ b (String.◌∷◌ c s))) = true
at_least_three _ = false

unfoldable pub split_plan : String → List String
unfolding split_sentences without_bullet strip
split_plan plan =
    filter at_least_three
      (map (λ s. strip (without_bullet s)) (split_sentences false no_separator plan))

-- [text.strip() for text in … if text.strip()]
abbrev pub stripped_all : List String → List String
stripped_all [] = []
stripped_all (s ∷ ss) = if is_empty (strip s) then stripped_all ss else strip s ∷ stripped_all ss

abbrev pub number_lines : ℕ → List String → List String
number_lines n [] = []
number_lines n (s ∷ ss) = concat (show_nat n ∷ ". " ∷ s ∷ []) ∷ number_lines (suc n) ss

-- `plan_text`
abbrev pub plan_text : String → List String → String
plan_text plan [] = plan
plan_text plan (t ∷ ts) =
    if is_empty plan
    then join "\n" (number_lines 1 (t ∷ ts))
    else concat (
        plan
        ∷ "\n\nSpecific rules (answer each by number):\n"
        ∷ join "\n" (number_lines 1 (t ∷ ts))
        ∷ [])

-- `rule_{index}`
abbrev pub rule_id : ℕ → String
rule_id n = "rule_" ^ show_nat n

-- the answers by the number of their text, the first for each
abbrev pub answer_to : ℕ → List (ℕ × ModelRule) → Option ModelRule
answer_to n [] = none
answer_to n ((k, m) ∷ rest) = if k == n then some m else answer_to n rest

-- whether an answer is the first to a text: 1 <= index <= len(texts) and index not in by_index
abbrev pub new_index : ℕ → List (ℕ × ModelRule) → Option ℕ → Option ℕ
new_index count taken none = none
new_index count taken (some n) =
    if leb 1 n && leb n count && not (is_some (answer_to n taken)) then some n else none

abbrev pub Sorted : Type 0
Sorted = List (ℕ × ModelRule) × List ModelRule

abbrev pub place_item : Option ℕ → ModelRule → Sorted → Sorted
place_item none m (taken, extras) = (taken, extras ++ m ∷ [])
place_item (some n) m (taken, extras) = (taken ++ (n, m) ∷ [], extras)

-- `by_index` and `extras`
unfoldable pub sort_items : ℕ → List ModelRule → Sorted → Sorted
sort_items count [] sorted = sorted
sort_items count (m ∷ ms) sorted =
    sort_items count ms (place_item (new_index count sorted.0 m.source_index) m sorted)

abbrev pub review_of : Option ModelRule → Review
review_of none = Review.nothing
review_of (some m) = Review.reviewed m

-- str(item.get("source_text") or "").strip() or f"(rule {offset})"
abbrev pub source_or : ℕ → Option String → String
source_or n text = or_default (stripped text) (concat ("(rule " ∷ show_nat n ∷ ")" ∷ []))

-- [f(x) for x in xs] with a state
abbrev pub each : {W A B : Type 0} → (ℕ → A → W → B × W) → ℕ → List A → W → List B × W
each f n [] w = ([], w)
each f n (x ∷ xs) w = let (b, w') = f n x w in let (bs, w'') = each f (suc n) xs w' in (b ∷ bs, w'')

-- `texts or split_plan(plan)`
unfoldable pub sources_of : String → List String → List String
unfolding split_plan
sources_of plan [] = split_plan plan
sources_of plan (t ∷ ts) = t ∷ ts

module _ {F W : Type 0} ⦃fl : FloatOps F⦄ (search : String → String → Option String)
    (client : RuleClient W) where
  unfoldable pub unavailable_rule : String → ℕ → String → W → ClassifiedRule F × W
  unfolding build_rule
  unavailable_rule e n text w = build_rule search client (rule_id n) text (Review.unavailable e) w

  unfoldable pub text_rule : List (ℕ × ModelRule) → ℕ → String → W → ClassifiedRule F × W
  unfolding build_rule
  text_rule taken n text w =
      build_rule search client (rule_id n) text (review_of (answer_to n taken)) w

  unfoldable pub item_rule : ℕ → ModelRule → W → ClassifiedRule F × W
  unfolding build_rule
  item_rule n m w =
      build_rule search client (rule_id n) (source_or n m.source_text) (Review.reviewed m) w

  -- the rules for the texts, in their order, and then those for the extra answers; with no texts
  -- every answer is an extra
  unfoldable pub rules_of : List String → List ModelRule → W → List (ClassifiedRule F) × W
  unfolding sort_items text_rule item_rule
  rules_of [] returned w = each item_rule 1 returned w
  rules_of (t ∷ ts) returned w =
      let (taken, extras) = sort_items (length (t ∷ ts)) returned ([], []) in
      let (rules, w') = each (text_rule taken) 1 (t ∷ ts) w in
      let (more, w'') = each item_rule (suc (length (t ∷ ts))) extras w' in (rules ++ more, w'')

  unfoldable pub from_reply : String → List String → LlmReply ModelPlan × W → RuleSet F × W
  unfolding unavailable_rule rules_of sources_of
  from_reply plan texts (llm_error e, w) =
      let (rules, w') = each (unavailable_rule e) 1 (sources_of plan texts) w in
      (record { rules = rules; reasoning = none; source_plan = some (plan_text plan texts) }, w')
  from_reply plan texts (answered answer, w) =
      let (rules, w') = rules_of texts answer.rules w in
      (
        record {
          rules = rules;
          reasoning = stripped_reasoning answer.reasoning;
          source_plan = some (plan_text plan texts);
        },
        w',
      )
    where
      stripped_reasoning : Option String → Option String
      stripped_reasoning = elim [
        | none ↦ none
        | some s ↦ if is_empty s then none else some (strip s)
      ]

  unfoldable pub compile_stripped : String → List String → Option String → W → RuleSet F × W
  unfolding from_reply
  compile_stripped plan texts role w =
      if is_empty plan && not (leb 1 (length texts))
      then (record { rules = []; reasoning = none; source_plan = none }, w)
      else from_reply plan texts (
          client.compile
            (record {
              plan_text = plan_text plan texts;
              plan = plan;
              rule_texts = texts;
              role_context = role;
            })
            w)

  unfoldable pub compile_plan : Option String → List String → Option String → W → RuleSet F × W
  unfolding compile_stripped strip
  compile_plan plan rule_texts role w =
      compile_stripped (strip (or_default plan "")) (stripped_all rule_texts) role w

  abbrev pub empty_rule : String → ClassifiedRule F
  empty_rule id = record {
    id = id;
    source_text = "";
    verdict = RuleVerdict.unmappable;
    risk = RiskLevel.no_risk;
    findings = [];
    dsl = none;
    clause = none;
    kind = ClauseKind.require;
    justification = none;
    legal_basis = [];
    notes = Note.empty_rule ∷ [];
  }

  -- rules[0], and the id where there is one
  abbrev pub first_rule : String → List (ClassifiedRule F) → Result (ClassifiedRule F)
  first_rule id [] = err PyError.index_error
  first_rule id (r ∷ rs) = ok (if is_empty id then r else record r { id = id })

  -- `classify_rule`, with an id
  unfoldable pub classify_rule : String → Option String → String → W → Result (ClassifiedRule F) × W
  unfolding compile_plan
  classify_rule text role id w =
      if is_empty (strip text)
      then (ok (empty_rule (if is_empty id then "rule_1" else id)), w)
      else (let (set, w') = compile_plan none (text ∷ []) role w in (first_rule id set.rules, w'))
