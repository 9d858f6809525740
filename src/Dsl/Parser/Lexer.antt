-- ===== src/Dsl/Parser/Lexer.antt =====
-- rescan/dsl/parser.py: the tokenizer. A lexeme is one match of `_TOKEN_RE`, whose alternatives are
-- told apart by the first character or two; digits and letters are those of ASCII.
pub mod Unescape
pub mod Splits
pub mod Positions
use Prim.Native.Char.{Char, code}
use Prim.Native.String.{◌++◌ as ◌^◌}
use mathlib.Core.Option
use rescan.Prelude.{
  ℕ, zero, suc, ◌+◌, ◌-◌, String, Bool, true, false, Option, none, some, List, [], ◌∷◌,
  if◌then◌else◌, leb, ◌==◌, ◌&&◌, ◌||◌, or_default,
}
use rescan.Prelude.Text.{upper, lookup}
use rescan.Prelude.Float.{FloatOps}
use rescan.Dsl.Ast.{Comparator, AggregateFunc}
use rescan.Dsl.Parser.Token.{
  Keyword, Symbol, Token, token, Position, ErrorKind, Parsed, ok, out_of_fuel, then_do, error,
}

abbrev pub keywords : List (String × Keyword)
keywords =
    ("REQUIRE", Keyword.require)
    ∷ ("PREFER", Keyword.prefer)
    ∷ ("WEIGHT", Keyword.weight)
    ∷ ("BECAUSE", Keyword.because)
    ∷ ("AND", Keyword.and)
    ∷ ("OR", Keyword.or)
    ∷ ("NOT", Keyword.not)
    ∷ ("HAS", Keyword.has)
    ∷ ("ANY", Keyword.any)
    ∷ ("ALL", Keyword.all)
    ∷ ("IN", Keyword.in_word)
    ∷ ("IS", Keyword.is)
    ∷ ("WHERE", Keyword.where_word)
    ∷ ("TRUE", Keyword.true_word)
    ∷ ("FALSE", Keyword.false_word)
    ∷ ("ASK", Keyword.ask)
    ∷ ("COUNT", Keyword.aggregate AggregateFunc.count)
    ∷ ("SUM", Keyword.aggregate AggregateFunc.sum)
    ∷ ("MAX", Keyword.aggregate AggregateFunc.max)
    ∷ ("MIN", Keyword.aggregate AggregateFunc.min)
    ∷ ("AVG", Keyword.aggregate AggregateFunc.avg)
    ∷ []

abbrev pub is_blank : Char → Bool
is_blank c = code c == 32 || code c == 9 || code c == 13 || code c == 10

abbrev pub is_digit : Char → Bool
is_digit c = leb b'0' (code c) && leb (code c) b'9'

abbrev pub is_word_start : Char → Bool
is_word_start c =
    leb b'A' (code c) && leb (code c) b'Z'
    || leb b'a' (code c) && leb (code c) b'z'
    || code c == b'_'

abbrev pub is_word : Char → Bool
is_word c = is_word_start c || is_digit c

abbrev pub not_newline : Char → Bool
not_newline c = if code c == 10 then false else true

-- a match and what is left
abbrev pub Split : Type 0
Split = String × String

abbrev pub before : Char → Split → Split
before c (raw, rest) = (String.◌∷◌ c raw, rest)

-- the longest run of characters that pass
unfoldable pub span : (Char → Bool) → String → Split
span p String.[] = ("", "")
span p (String.◌∷◌ c s) = let more = span p s in if p c then before c more else ("", String.◌∷◌ c s)

-- (?:\\.|[^"\\])*" after the opening quote: the match, with the closing quote
unfoldable pub string_end : String → Option Split
string_end String.[] = none
string_end (String.◌∷◌ c String.[]) = if code c == b'"' then some (String.◌∷◌ c "", "") else none
string_end (String.◌∷◌ c (String.◌∷◌ d s)) =
    if code c == b'"' then some (String.◌∷◌ c "", String.◌∷◌ d s) else elim (code c == b'\\') [
      | true ↦
          if not_newline d then Option.map (λ m. before c (before d m)) (string_end s) else none
      | false ↦ Option.map (before c) (string_end (String.◌∷◌ d s))
    ]

-- (?:\.\d+)?
unfoldable pub fraction : String → Split
unfolding span
fraction String.[] = ("", "")
fraction (String.◌∷◌ c String.[]) = ("", String.◌∷◌ c "")
fraction (String.◌∷◌ c (String.◌∷◌ d s)) =
    if code c == b'.' && is_digit d
    then before c (span is_digit (String.◌∷◌ d s))
    else ("", String.◌∷◌ c (String.◌∷◌ d s))

-- -?\d+(?:\.\d+)? where a digit, or a minus and a digit, comes first
unfoldable pub number_end : String → Split
unfolding span fraction
number_end s =
    let (digits, rest) = span is_digit s in
    let (decimals, left) = fraction rest in (digits ^ decimals, left)

-- s[:-1]
unfoldable pub drop_last : String → String
drop_last String.[] = ""
drop_last (String.◌∷◌ c String.[]) = ""
drop_last (String.◌∷◌ c (String.◌∷◌ d s)) = String.◌∷◌ c (drop_last (String.◌∷◌ d s))

-- text.replace('\\"', '"')
unfoldable pub unescape_quotes : String → String
unescape_quotes String.[] = ""
unescape_quotes (String.◌∷◌ c String.[]) = String.◌∷◌ c ""
unescape_quotes (String.◌∷◌ c (String.◌∷◌ d s)) = elim (code c == b'\\' && code d == b'"') [
  | true ↦ String.◌∷◌ d (unescape_quotes s)
  | false ↦ String.◌∷◌ c (unescape_quotes (String.◌∷◌ d s))
]

-- text.replace("\\\\", "\\")
unfoldable pub unescape_backslashes : String → String
unescape_backslashes String.[] = ""
unescape_backslashes (String.◌∷◌ c String.[]) = String.◌∷◌ c ""
unescape_backslashes (String.◌∷◌ c (String.◌∷◌ d s)) = elim (code c == b'\\' && code d == b'\\') [
  | true ↦ String.◌∷◌ d (unescape_backslashes s)
  | false ↦ String.◌∷◌ c (unescape_backslashes (String.◌∷◌ d s))
]

unfoldable pub unescape : String → String
unfolding unescape_quotes unescape_backslashes
unescape body = unescape_backslashes (unescape_quotes body)

-- one match of `_TOKEN_RE`, with its text and what is left
pub data Lexeme (F : Type 0) : Type 0 where
  blank comment : String → String → Lexeme F
  symbol : Symbol F → String → String → Lexeme F

module _ {F : Type 0} where
  -- a match of one character, or of two where the second is `=`
  abbrev single : Symbol F → Char → String → Option (Lexeme F)
  single sym c rest = some (Lexeme.symbol sym (String.◌∷◌ c "") rest)

  abbrev with_equals : Comparator → Option Comparator → Char → String → Option (Lexeme F)
  with_equals two one c String.[] =
      Option.map (λ o. Lexeme.symbol (Symbol.op o) (String.◌∷◌ c "") "") one
  with_equals two one c (String.◌∷◌ d s) =
      if code d == b'='
      then some (Lexeme.symbol (Symbol.op two) (String.◌∷◌ c (String.◌∷◌ d "")) s)
      else Option.map (λ o. Lexeme.symbol (Symbol.op o) (String.◌∷◌ c "") (String.◌∷◌ d s)) one

  abbrev word_symbol : String → Symbol F
  word_symbol raw = elim (lookup (upper raw) keywords) [
    | none ↦ Symbol.ident raw
    | some k ↦ Symbol.keyword k
  ]

  abbrev comment_of : Split → Lexeme F
  comment_of (raw, rest) = Lexeme.comment raw rest

  abbrev blank_of : Split → Lexeme F
  blank_of (raw, rest) = Lexeme.blank raw rest

  abbrev word_of : Split → Lexeme F
  word_of (raw, rest) = Lexeme.symbol (word_symbol raw) raw rest

  abbrev string_of : Char → Split → Lexeme F
  string_of c (m, rest) =
      Lexeme.symbol (Symbol.string (unescape (drop_last m))) (String.◌∷◌ c m) rest

module _ {F : Type 0} ⦃fl : FloatOps F⦄ where
  -- float(raw), which takes every text that the pattern matches
  abbrev number_of : Split → Lexeme F
  number_of (raw, rest) =
      Lexeme.symbol (Symbol.number (or_default (fl.of_text raw) (fl.of_nat 0))) raw rest

  -- after a minus
  abbrev minus : Char → String → Option (Lexeme F)
  minus c String.[] = none
  minus c (String.◌∷◌ d s) =
      if code d == b'-'
      then some (comment_of (before c (span not_newline (String.◌∷◌ d s))))
      else if is_digit d
      then some (number_of (before c (number_end (String.◌∷◌ d s))))
      else none

  unfoldable pub punctuation : Char → String → Option (Lexeme F)
  punctuation c s =
      if code c == b'>'
      then with_equals Comparator.ge (some Comparator.gt) c s
      else if code c == b'<'
      then with_equals Comparator.le (some Comparator.lt) c s
      else if code c == b'!'
      then with_equals Comparator.ne none c s
      else if code c == b'='
      then single (Symbol.op Comparator.eq) c s
      else if code c == b'('
      then single Symbol.lparen c s
      else if code c == b')'
      then single Symbol.rparen c s
      else if code c == b','
      then single Symbol.comma c s
      else if code c == b';'
      then single Symbol.semi c s
      else if code c == b'.'
      then single Symbol.dot c s
      else none

  -- `_TOKEN_RE.match` at a text that is not empty
  unfoldable pub lexeme : Char → String → Option (Lexeme F)
  unfolding span number_end string_end drop_last unescape punctuation
  lexeme c s =
      if is_blank c
      then some (blank_of (before c (span is_blank s)))
      else if code c == b'-'
      then minus c s
      else if code c == b'"'
      then Option.map (string_of c) (string_end s)
      else if is_digit c
      then some (number_of (number_end (String.◌∷◌ c s)))
      else if is_word_start c
      then some (word_of (before c (span is_word s)))
      else punctuation c s

-- len(s), s.count("\n"), and the characters after the last newline
abbrev pub char_count : String → ℕ
char_count String.[] = 0
char_count (String.◌∷◌ c s) = suc (char_count s)

abbrev pub newlines : String → ℕ
newlines String.[] = 0
newlines (String.◌∷◌ c s) = if not_newline c then newlines s else suc (newlines s)

-- raw.rfind("\n") + 1 for a text with a newline
abbrev pub after_newline : String → ℕ
after_newline String.[] = 0
after_newline (String.◌∷◌ c s) =
    if leb 1 (newlines s) then suc (after_newline s) else if not_newline c then 0 else 1

-- where the tokenizer stands: `pos`, `line` and `line_start`
pub record Place : Type 0 where
  pub pos : ℕ
  pub line : ℕ
  pub line_start : ℕ

abbrev pub position : Place → Position
position p = (p.line, p.pos - p.line_start + 1)

abbrev pub pass : String → Place → Place
pass raw p = record p { pos = p.pos + char_count raw }

abbrev pub pass_blank : String → Place → Place
pass_blank raw p = record {
  pos = p.pos + char_count raw;
  line = p.line + newlines raw;
  line_start = if leb 1 (newlines raw) then p.pos + after_newline raw else p.line_start;
}

abbrev pub start : Place
start = record { pos = 0; line = 1; line_start = 0 }

module _ {F : Type 0} ⦃fl : FloatOps F⦄ where
  abbrev pub add_token : Token F → List (Token F) × Position → Parsed (List (Token F) × Position)
  add_token t (ts, end) = ok (t ∷ ts, end)

  -- one turn of the loop, with the rest of the loop as `more`
  abbrev pub turn :
      Option (Lexeme F)
      → Place
      → (Place → String → Parsed (List (Token F) × Position))
      → Parsed (List (Token F) × Position)
  turn none p more = error ErrorKind.syntax (position p)
  turn (some (Lexeme.blank raw rest)) p more = more (pass_blank raw p) rest
  turn (some (Lexeme.comment raw rest)) p more = more (pass raw p) rest
  turn (some (Lexeme.symbol sym raw rest)) p more =
      then_do (more (pass raw p) rest) (add_token (token sym (position p)))

  -- the loop of `tokenize`: the tokens, and the position of the EOF token
  unfoldable pub lex : ℕ → Place → String → Parsed (List (Token F) × Position)
  unfolding lexeme
  lex zero p text = out_of_fuel
  lex (suc n) p String.[] = ok ([], position p)
  lex (suc n) p (String.◌∷◌ c s) = turn (lexeme c s) p (lex n)

  unfoldable pub tokenize : String → Parsed (List (Token F) × Position)
  unfolding lex
  tokenize text = lex (suc (char_count text)) start text
