-- ===== src/Dsl/Parser/Lexer/Unescape.antt =====
-- rescan/dsl/ast.py `quote` against the tokenizer of rescan/dsl/parser.py: a quoted text is read
-- back as it was.
use Prim.Native.Char.{Char, code}
use Prim.Native.String.{◌++◌ as ◌^◌}
use text.Mathlib.TextLemmas.{nil-append, cons-append, append-nil, append_assoc}
use mathlib.Core.Option
use rescan.Prelude.{
  ◌≡◌, refl, sym, ap, ◌∙◌, ℕ, zero, suc, ◌+◌, ◌<◌, String, true, false, some, [], ◌∷◌, ◌==◌,
  if◌then◌else◌, arith,
}
use rescan.Prelude.Float.{FloatOps}
use rescan.Dsl.Ast.{escape, escape_char, quote}
use rescan.Dsl.Parser.Token.{Symbol, token, ok, then_do}
use rescan.Dsl.Parser.Lexer.{
  unescape, unescape_quotes, unescape_backslashes, string_end, Split, drop_last, before, Lexeme,
  lexeme, lex, tokenize, Place, position, pass, add_token, char_count, start,
}

-- each backslash doubled
double : String → String
double String.[] = ""
double (String.◌∷◌ c s) =
    if code c == b'\\' then String.◌∷◌ c (String.◌∷◌ c (double s)) else String.◌∷◌ c (double s)

unescape_quotes-escape_cons :
    (c : Char) (s : String)
    → unescape_quotes (String.◌∷◌ c (escape s)) ≡ String.◌∷◌ c (unescape_quotes (escape s))
unfolding escape unescape_quotes
unescape_quotes-escape_cons c String.[] = refl
unescape_quotes-escape_cons c (String.◌∷◌ d s) = ground arith

unescape_quotes-escape : (s : String) → unescape_quotes (escape s) ≡ double s
unfolding escape double unescape_quotes
unescape_quotes-escape String.[] = refl
unescape_quotes-escape (String.◌∷◌ c s) =
    ground (arith, unescape_quotes-escape_cons c s, unescape_quotes-escape s)

unescape_backslashes_other :
    (c : Char) (s : String)
    → (code c == b'\\') ≡ false
    → unescape_backslashes (String.◌∷◌ c s) ≡ String.◌∷◌ c (unescape_backslashes s)
unfolding unescape_backslashes
unescape_backslashes_other c String.[] h = refl
unescape_backslashes_other c (String.◌∷◌ d s) h = ground arith

unescape_backslashes-double : (s : String) → unescape_backslashes (double s) ≡ s
unfolding double unescape_backslashes
unescape_backslashes-double String.[] = refl
unescape_backslashes-double (String.◌∷◌ c s) =
    ground (arith, unescape_backslashes_other c (double s), unescape_backslashes-double s)

pub unescape-escape : (s : String) → unescape (escape s) ≡ s
unfolding unescape
unescape-escape s =
    ap unescape_backslashes (unescape_quotes-escape s) ∙ unescape_backslashes-double s

drop_last_cons :
    (a c : Char) (t : String)
    → drop_last (String.◌∷◌ a (t ^ String.◌∷◌ c ""))
      ≡ String.◌∷◌ a (drop_last (t ^ String.◌∷◌ c ""))
unfolding drop_last
drop_last_cons a c String.[] = rw (nil-append, drop_last) refl
drop_last_cons a c (String.◌∷◌ b s) = rw (cons-append, drop_last) refl

drop_last-snoc : (s : String) (c : Char) → drop_last (s ^ String.◌∷◌ c "") ≡ s
drop_last-snoc String.[] c = rw nil-append last
  where
    last : drop_last (String.◌∷◌ c "") ≡ ""
    last = unfold drop_last in refl
drop_last-snoc (String.◌∷◌ a s) c =
    rw cons-append (drop_last_cons a c s ∙ ap (String.◌∷◌ a) (drop_last-snoc s c))

string_end_other :
    (c : Char) (s : String)
    → (code c == b'"') ≡ false
    → (code c == b'\\') ≡ false
    → string_end (String.◌∷◌ c s) ≡ Option.map (before c) (string_end s)
unfolding string_end
string_end_other c String.[] h k = rw h refl
string_end_other c (String.◌∷◌ d s) h k = ground arith

string_end_pair :
    (c d : Char) (s : String)
    → (code c == b'\\') ≡ true
    → (code d == 10) ≡ false
    → string_end (String.◌∷◌ c (String.◌∷◌ d s))
      ≡ Option.map (λ m. before c (before d m)) (string_end s)
unfolding string_end
string_end_pair c d s h k = ground arith

string_end_quote : (rest : String) → string_end (String.◌∷◌ "\"" rest) ≡ some ("\"", rest)
unfolding string_end
string_end_quote String.[] = refl
string_end_quote (String.◌∷◌ d s) = refl

escape_char-append : (c : Char) (s t : String) → escape_char c s ^ t ≡ escape_char c (s ^ t)
escape_char-append c s t = ground (
  arith,
  cons-append c s t,
  cons-append c (String.◌∷◌ c s) t,
  cons-append "\\" (String.◌∷◌ c s) t,
)

abbrev escape_first : Char → Split → Split
escape_first c (m, rest) = (escape_char c m, rest)

string_end-escape_char :
    (c : Char) (s : String)
    → string_end (escape_char c s) ≡ Option.map (escape_first c) (string_end s)
string_end-escape_char c s =
    ground (arith, string_end_pair c c s, string_end_pair "\\" c s, string_end_other c s)

string_end-escape :
    (s rest : String) → string_end (escape s ^ String.◌∷◌ "\"" rest) ≡ some (escape s ^ "\"", rest)
unfolding escape
string_end-escape String.[] rest = rw (nil-append, nil-append) (string_end_quote rest)
string_end-escape (String.◌∷◌ c s) rest = rw (escape_char-append c (escape s)) (
    string_end-escape_char c _
    ∙ ap (Option.map (escape_first c)) (string_end-escape s rest)
    ∙ ap (λ m. some (m, rest)) (sym (escape_char-append c (escape s) "\"")))

quote-append :
    (s rest : String) → quote s ^ rest ≡ String.◌∷◌ "\"" (escape s ^ String.◌∷◌ "\"" rest)
unfolding quote
quote-append s rest =
    rw
      (
        cons-append "\"" "",
        nil-append,
        cons-append,
        append_assoc,
        cons-append "\"" "" rest,
        nil-append,
      )
      refl

quote_nonempty : (s : String) → 0 < char_count (quote s)
unfolding quote
quote_nonempty s = rw cons-append (omega arith)

one_line : (n : ℕ) → position (record start { pos = 0 + n }) ≡ (1, suc n)
one_line n = ground arith

module _ {F : Type 0} ⦃fl : FloatOps F⦄ where
  lexeme-quote :
      (s rest : String)
      → lexeme {F = F} "\"" (escape s ^ String.◌∷◌ "\"" rest)
        ≡ some (Lexeme.symbol (Symbol.string s) (quote s) rest)
  unfolding lexeme quote
  lexeme-quote s rest =
      rw
        (string_end-escape s rest, drop_last-snoc, unescape-escape, cons-append "\"" "", nil-append)
        refl

  -- Wherever the tokenizer stands, a quoted text followed by anything is one STRING token that
  -- holds the text itself, whatever quotes and backslashes are in it, and the tokenizer goes on
  -- after it.
  pub lex-quote :
      (n : ℕ) (p : Place) (s rest : String)
      → lex {F = F} (suc n) p (quote s ^ rest)
        ≡ then_do (lex n (pass (quote s) p) rest) (add_token (token (Symbol.string s) (position p)))
  unfolding lex
  lex-quote n p s rest = rw quote-append (rw (lexeme-quote s rest, lex) refl)

  lex_end : (n : ℕ) (p : Place) → 0 < n → lex {F = F} n p "" ≡ ok ([], position p)
  unfolding lex
  lex_end zero p h = absurd (omega arith)
  lex_end (suc n) p h = refl

  -- The tokens of a quoted text are the one STRING token with the text, at line 1 and column 1, and
  -- the end is on line 1, one column after the last character, also where the text has newlines.
  pub tokenize-quote :
      (s : String)
      → tokenize {F = F} (quote s)
        ≡ ok (token (Symbol.string s) (1, 1) ∷ [], (1, suc (char_count (quote s))))
  unfolding tokenize lex
  tokenize-quote s =
      ap (lex (suc (char_count (quote s))) start) (sym (append-nil (quote s)))
      ∙ lex-quote (char_count (quote s)) start s ""
      ∙ ap (λ r. then_do r (add_token (token (Symbol.string s) (1, 1))))
          (lex_end (char_count (quote s)) (pass (quote s) start) (quote_nonempty s))
      ∙ ap (λ q. ok (token (Symbol.string s) (1, 1) ∷ [], q)) (one_line (char_count (quote s)))
