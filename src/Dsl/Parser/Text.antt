-- ===== src/Dsl/Parser/Text.antt =====
-- rescan/dsl/parser.py: the entry points, from a text on.
use Prim.Native.Char.{code}
use Prim.Native.String.{◌++◌ as ◌^◌}
use rescan.Prelude.{
  ℕ, String, Bool, true, false, not, ◌&&◌, ◌||◌, List, [], ◌∷◌, if◌then◌else◌, ◌==◌, if_elim, All,
}
use rescan.Prelude.Float.{FloatOps}
use rescan.Prelude.Text.{strip, lower, is_empty}
use rescan.Dsl.Ast.{Expr, Clause, Program}
use rescan.Dsl.Parser.Token.{
  Token, Position, ErrorKind, Parsed, ok, failed, out_of_fuel, then_do, error,
}
use rescan.Dsl.Parser.Lexer.{tokenize, is_word, char_count, newlines}
use rescan.Dsl.Parser.Lexer.Positions.{Located, tokenize-Located}
use rescan.Dsl.Parser.Program.{parse_program, parse_expr}
use rescan.Dsl.Parser.Sound.Yields.{Holds, holds}
use rescan.Dsl.Parser.Sound.Entry.{TypedClause, IsNonEmpty, parse_program-TypedClause}
use rescan.Dsl.Parser.Sound.Forbidden.{ReadsAllowed, clauses-allowed}

-- a word at the start that does not go on: `word` then `\b`
abbrev pub starts_word : String → String → Bool
starts_word String.[] String.[] = true
starts_word (String.◌∷◌ c s) String.[] = not (is_word c)
starts_word String.[] (String.◌∷◌ d w) = false
starts_word (String.◌∷◌ c s) (String.◌∷◌ d w) = code c == code d && starts_word s w

-- re.match(r"(?i)^(require|prefer)\b", text)
unfoldable pub has_kind : String → Bool
unfolding lower
has_kind text = starts_word (lower text) "require" || starts_word (lower text) "prefer"

module _ {F : Type 0} ⦃fl : FloatOps F⦄ where
  unfoldable pub parse_program_text : String → Parsed (Program F)
  unfolding tokenize parse_program
  parse_program_text text = then_do (tokenize text) λ (ts, end). parse_program end ts

  unfoldable pub parse_expr_text : String → Parsed (Expr F)
  unfolding tokenize parse_expr
  parse_expr_text text = then_do (tokenize text) λ (ts, end). parse_expr end ts

  abbrev pub only_clause : Program F → Parsed (Clause F)
  only_clause (c ∷ []) = ok c
  only_clause _ = error ErrorKind.syntax (1, 1)

  -- a text that is stripped and not empty
  unfoldable pub parse_stripped : String → Parsed (Clause F)
  unfolding parse_program_text has_kind
  parse_stripped text =
      then_do (parse_program_text (if has_kind text then text else "REQUIRE " ^ text)) only_clause

  unfoldable pub parse_clause : String → Parsed (Clause F)
  unfolding parse_stripped strip
  parse_clause text =
      if is_empty (strip text) then error ErrorKind.syntax (1, 1) else parse_stripped (strip text)

  -- what a parsed clause promises
  abbrev pub IsSound : Clause F → Type 0
  IsSound c = TypedClause c × ReadsAllowed false c.expr

  tokens-Holds :
      {A : Type 0} {P : A → Type 0} (size lines : ℕ) (f : List (Token F) × Position → Parsed A)
      (r : Parsed (List (Token F) × Position))
      → Located size lines r
      → ((ts : List (Token F)) (end : Position) → Holds P (f (ts, end)))
      → Holds P (then_do r f)
  tokens-Holds size lines f (ok (ts, end)) h k = k ts end
  tokens-Holds size lines f (failed e) h k = Holds.refused e
  tokens-Holds size lines f out_of_fuel h k = elim h [ ]

  parse_program_text-typed :
      (text : String) → Holds (λ cs. IsNonEmpty cs × All TypedClause cs) (parse_program_text text)
  unfolding parse_program_text
  parse_program_text-typed text =
      tokens-Holds (char_count text) (newlines text) (λ (ts, end). parse_program end ts)
        (tokenize text) (tokenize-Located F text) λ ts end. parse_program-TypedClause end ts

  only_clause-IsSound :
      {r : Parsed (Program F)}
      → Holds (λ cs. IsNonEmpty cs × All TypedClause cs) r
      → Holds IsSound (then_do r only_clause)
  only_clause-IsSound (holds [] h) = Holds.refused _
  only_clause-IsSound (holds (c ∷ []) (n, h)) = holds c (h.0, (clauses-allowed (c ∷ []) h).0)
  only_clause-IsSound (holds (c ∷ d ∷ cs) h) = Holds.refused _
  only_clause-IsSound (Holds.refused e) = Holds.refused e

  -- On any text the parse of a clause ends, in an error or in one clause that is well typed over
  -- the vocabulary, with a weight that is one or, for a preference, above zero, and that reads no
  -- forbidden identifier; inside a WHERE, `name` and `summary` are those of the entry.
  pub parse_clause-IsSound : (text : String) → Holds IsSound (parse_clause text)
  unfolding parse_clause parse_stripped
  parse_clause-IsSound text =
      if_elim (Holds IsSound) (is_empty (strip text)) (λ _. Holds.refused _)
        (λ _. only_clause-IsSound (
          parse_program_text-typed
            (if has_kind (strip text) then strip text else "REQUIRE " ^ strip text)))
