-- ===== src/Pipeline/Anonymize/Scrub.antt =====
-- rescan/pipeline/anonymize.py: the tokens of an identity, the scrub of a text and the search of
-- the leak check. The pattern is `\b`, the token as it stands and `\b`, with no regard to case;
-- words are those of ASCII.
use Prim.Native.Char.{Char, code}
use Prim.Native.String.{◌++◌ as ◌^◌}
use rescan.Prelude.{
  ℕ, zero, suc, ◌-◌, String, Bool, true, false, not, ◌&&◌, ◌||◌, Option, none, some, List, [], ◌∷◌,
  ◌++◌, filter, map, if◌then◌else◌, leb, ltb, ◌==◌,
}
use rescan.Prelude.Text.{text_length, str_eq, lower_char, is_space, is_empty, strip}
use rescan.Schemas.{StructuredResume, Qualification}
use rescan.Dsl.Parser.Lexer.{is_word}

abbrev pub redacted : String
redacted = "[redacted]"

-- MIN_SCRUB_TOKEN
abbrev pub min_scrub_token : ℕ
min_scrub_token = 3

abbrev pub word_before : Option Char → Bool
word_before none = false
word_before (some c) = is_word c

abbrev pub word_after : String → Bool
word_after String.[] = false
word_after (String.◌∷◌ c s) = is_word c

-- `\b` between the character before, if there is one, and the rest of the text
abbrev pub at_boundary : Option Char → String → Bool
at_boundary before rest = if word_before before then not (word_after rest) else word_after rest

-- the token stands at the start of the text, and a boundary follows it
unfoldable pub token_follows : Option Char → String → String → Bool
unfolding lower_char
token_follows before String.[] s = at_boundary before s
token_follows before (String.◌∷◌ t ts) String.[] = false
token_follows before (String.◌∷◌ t ts) (String.◌∷◌ c s) =
    code (lower_char t) == code (lower_char c) && token_follows (some c) ts s

unfoldable pub matches_at : String → Option Char → String → Bool
unfolding token_follows
matches_at token before s = at_boundary before s && token_follows before token s

-- re.search from a place of the text on
unfoldable pub occurs : String → Option Char → String → Bool
unfolding matches_at
occurs token before String.[] = false
occurs token before (String.◌∷◌ c s) =
    matches_at token before (String.◌∷◌ c s) || occurs token (some c) s

-- re.sub from a place on, of which `skip` characters belong to the match before
unfoldable pub replace_from : String → ℕ → Option Char → String → String
unfolding matches_at text_length
replace_from token skip before String.[] = ""
replace_from token (suc skip) before (String.◌∷◌ c s) = replace_from token skip (some c) s
replace_from token zero before (String.◌∷◌ c s) = elim (matches_at token before (String.◌∷◌ c s)) [
  | true ↦ redacted ^ replace_from token (text_length token - 1) (some c) s
  | false ↦ String.◌∷◌ c (replace_from token 0 (some c) s)
]

abbrev pub replace_all : List String → String → String
replace_all [] s = s
replace_all (token ∷ tokens) s = replace_all tokens (replace_from token 0 none s)

abbrev drop_prefix : String → String → Option String
drop_prefix String.[] s = some s
drop_prefix (String.◌∷◌ p ps) String.[] = none
drop_prefix (String.◌∷◌ p ps) (String.◌∷◌ c s) = if code p == code c then drop_prefix ps s else none

-- [\s,]*
abbrev drop_separators : String → String
drop_separators String.[] = ""
drop_separators (String.◌∷◌ c s) =
    let rest = drop_separators s in if is_space c || code c == 44 then rest else String.◌∷◌ c s

-- the removals in a row at the start of the text, and what follows them; each takes ten characters
unfoldable pub removals : ℕ → String → ℕ × String
removals zero s = (0, s)
removals (suc fuel) s = elim (drop_prefix redacted s) [
  | none ↦ (0, s)
  | some rest ↦ let (n, left) = removals fuel (drop_separators rest) in (suc n, left)
]

-- the runs of two and more are made one; each step takes a character at least
unfoldable pub collapse_removals : ℕ → String → String
unfolding removals
collapse_removals zero s = s
collapse_removals (suc fuel) String.[] = ""
collapse_removals (suc fuel) (String.◌∷◌ c s) =
    let (n, rest) = removals fuel (String.◌∷◌ c s) in
    elim (ltb 1 n) [
      | true ↦ "[redacted] " ^ collapse_removals fuel rest
      | false ↦ String.◌∷◌ c (collapse_removals fuel s)
    ]

unfoldable pub scrub : List String → String → String
unfolding replace_from collapse_removals text_length strip
scrub tokens s =
    if is_empty s
    then s
    else let replaced = replace_all tokens s in
      strip (collapse_removals (text_length replaced) replaced)

-- `scrub_text`
unfoldable pub scrub_text : List String → Option String → Option String
unfolding scrub
scrub_text tokens none = none
scrub_text tokens (some s) = some (scrub tokens s)

-- [\s,'-]
abbrev pub separates_names : Char → Bool
separates_names c = is_space c || code c == 44 || code c == 39 || code c == 45

-- re.split at the separators; the empty parts between them are too short to be kept
unfoldable pub split_name : String → String → List String
split_name part String.[] = part ∷ []
split_name part (String.◌∷◌ c s) =
    if separates_names c then part ∷ split_name "" s else split_name (part ^ String.◌∷◌ c "") s

abbrev pub is_long : String → Bool
is_long s = leb min_scrub_token (text_length s)

abbrev pub name_tokens : Option String → List String
name_tokens none = []
name_tokens (some name) = if is_empty name then [] else name ∷ filter is_long (split_name "" name)

abbrev pub stated : Option String → List String
stated none = []
stated (some s) = s ∷ []

abbrev pub institutions : {F : Type 0} → List (Qualification F) → List String
institutions [] = []
institutions (q ∷ qs) = stated q.institution ++ institutions qs

-- a set of texts, in the order in which they came
abbrev pub distinct_texts : List String → List String
distinct_texts [] = []
distinct_texts (s ∷ ss) = s ∷ filter (λ t. not (str_eq t s)) (distinct_texts ss)

-- sorted(…, key=len, reverse=True)
abbrev insert_longer : String → List String → List String
insert_longer s [] = s ∷ []
insert_longer s (t ∷ ts) =
    let rest = insert_longer s ts in
    if ltb (text_length s) (text_length t) then t ∷ rest else s ∷ t ∷ ts

unfoldable pub longest_first : List String → List String
unfolding text_length
longest_first [] = []
longest_first (s ∷ ss) = insert_longer s (longest_first ss)

-- `identity_tokens`; the order among tokens of one length is that of a set
unfoldable pub identity_tokens : {F : Type 0} → StructuredResume F → List String
unfolding split_name longest_first strip text_length
identity_tokens r = longest_first (
    distinct_texts (
      filter (λ t. not (is_empty t))
        (map strip (
          name_tokens r.identity.full_name
          ++ stated r.identity.email
          ++ stated r.identity.phone
          ++ stated r.identity.suburb
          ++ r.identity.links
          ++ r.universities
          ++ institutions r.qualifications))))

-- `leak_check` of the serialised profile
unfoldable pub leaks_in : List String → String → List String
unfolding occurs text_length
leaks_in tokens serialised = filter (λ t. is_long t && occurs t none serialised) tokens
