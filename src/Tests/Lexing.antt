-- ===== src/Tests/Lexing.antt =====
-- Tokens and clauses of small texts.
use Prim.Native.String.{◌++◌ as ◌^◌}
use rescan.Prelude.{ℕ, ◌≡◌, refl, true, none, [], ◌∷◌}
use rescan.Prelude.Text.{upper, lower}
use rescan.Dsl.Ast.{Comparator, Expr, IsValue, ClauseKind, quote}
use rescan.Dsl.Fields.Named.{fields}
use rescan.Dsl.Fields.Names.{resolve_field}
use rescan.Dsl.Parser.Token.{Keyword, Symbol, token, ok, then_do}
use rescan.Dsl.Parser.Operand.{comparison, allowed}
use rescan.Dsl.Parser.Program.{clause, parse_program}
use rescan.Dsl.Parser.Lexer.{tokenize, lex, start, pass, position, add_token}
use rescan.Dsl.Parser.Lexer.Unescape.{lex-quote, tokenize-quote}
use rescan.Dsl.Parser.Lexer.Positions.{Located, tokenize-Located}
use rescan.Dsl.Parser.Sound.Yields.{Holds}
use rescan.Dsl.Parser.Text.{parse_clause, IsSound, parse_clause-IsSound}
use rescan.Tests.Samples.{whole_numbers}

-- a comment, a string with an escaped quote and a second line
tokens :
    tokenize {F = ℕ} "x >= 5 -- note\n  has \"a\\\"b\")"
    ≡ ok (
      token (Symbol.ident "x") (1, 1)
          ∷ token (Symbol.op Comparator.ge) (1, 3)
          ∷ token (Symbol.number 0) (1, 6)
          ∷ token (Symbol.keyword Keyword.has) (2, 3)
          ∷ token (Symbol.string "a\"b") (2, 7)
          ∷ token Symbol.rparen (2, 13)
          ∷ [],
      (2, 14),
    )
unfolding tokenize upper
tokens = refl

lex-quote_example :
    lex {F = ℕ} 9 start (quote "C:\\\"x\"" ^ ")")
    ≡ then_do
        (lex 8 (pass (quote "C:\\\"x\"") start) ")")
        (add_token (token (Symbol.string "C:\\\"x\"") (position start)))
lex-quote_example = lex-quote 8 start "C:\\\"x\"" ")"

tokenize-quote_example :
    tokenize {F = ℕ} (quote "two\nlines")
    ≡ ok (token (Symbol.string "two\nlines") (1, 1) ∷ [], (1, 12))
unfolding quote
tokenize-quote_example = tokenize-quote "two\nlines"

tokenize-Located_example : Located {F = ℕ} 8 1 (tokenize "x\n \"open")
tokenize-Located_example = tokenize-Located ℕ "x\n \"open"

-- a clause without its keyword
clause_text :
    parse_clause {F = ℕ} " has_current_role IS TRUE "
    ≡ ok (record {
      kind = ClauseKind.require;
      expr = Expr.is "has_current_role" (IsValue.flag true);
      weight = 1;
      because = none;
    })
unfolding parse_clause parse_program clause comparison resolve_field fields allowed lower upper
clause_text = refl

parse_clause-IsSound_example : Holds IsSound (parse_clause {F = ℕ} " has_current_role IS TRUE ")
parse_clause-IsSound_example = parse_clause-IsSound " has_current_role IS TRUE "
