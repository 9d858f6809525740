-- ===== src/Tests/Parsing.antt =====
-- Rules as tokens, and what the parser makes of them.
use rescan.Prelude.{ℕ, ◌≡◌, refl, false, none, List, [], ◌∷◌, All}
use rescan.Dsl.Ast.{Comparator, AggregateFunc, Value, Expr, nil, cons, no_where, Clause, ClauseKind}
use rescan.Prelude.Text.{lower}
use rescan.Dsl.Fields.Named.{fields}
use rescan.Dsl.Fields.Records.{records}
use rescan.Dsl.Fields.Names.{resolve_field, resolve_record, forbidden}
use rescan.Dsl.Parser.Token.{Keyword, Symbol, Token, token, ErrorKind, ok, failed, expect_where}
use rescan.Dsl.Parser.Operand.{allowed, comparison, name_error}
use rescan.Dsl.Parser.Grammar.{record_name, dot_field, check_field, comparison_end}
use rescan.Dsl.Parser.Program.{parse_expr, parse_program, clause}
use rescan.Dsl.Parser.Typed.{Typed}
use rescan.Dsl.Parser.Sound.Yields.{Holds}
use rescan.Dsl.Parser.Sound.Entry.{
  IsNonEmpty, TypedClause, parse_expr-Typed, parse_program-TypedClause,
}
use rescan.Dsl.Parser.Sound.Forbidden.{ReadsAllowed, parse_program-allowed, parse_expr-allowed}
use rescan.Tests.Samples.{whole_numbers}

abbrev at_start : Symbol ℕ → Token ℕ
at_start s = token s (1, 1)

abbrev key : Keyword → Token ℕ
key k = token (Symbol.keyword k) (1, 1)

-- years >= 5
abbrev years_at_least : List (Token ℕ) → List (Token ℕ)
years_at_least ts =
    at_start (Symbol.ident "years")
    ∷ at_start (Symbol.op Comparator.ge)
    ∷ at_start (Symbol.number 5)
    ∷ ts

-- NOT ANY role WHERE title = "Lead" AND months >= 3
abbrev query : List (Token ℕ)
query =
    key Keyword.not
    ∷ key Keyword.any
    ∷ at_start (Symbol.ident "roles")
    ∷ key Keyword.where_word
    ∷ at_start (Symbol.ident "title")
    ∷ at_start (Symbol.op Comparator.eq)
    ∷ at_start (Symbol.string "Lead")
    ∷ key Keyword.and
    ∷ at_start (Symbol.ident "months")
    ∷ at_start (Symbol.op Comparator.ge)
    ∷ at_start (Symbol.number 3)
    ∷ []

-- REQUIRE years >= 5; PREFER COUNT(role) > 2 WEIGHT 2
abbrev rules : List (Token ℕ)
rules =
    key Keyword.require
    ∷ years_at_least (
        at_start Symbol.semi
        ∷ key Keyword.prefer
        ∷ key (Keyword.aggregate AggregateFunc.count)
        ∷ at_start Symbol.lparen
        ∷ at_start (Symbol.ident "role")
        ∷ at_start Symbol.rparen
        ∷ at_start (Symbol.op Comparator.gt)
        ∷ at_start (Symbol.number 2)
        ∷ key Keyword.weight
        ∷ at_start (Symbol.number 2)
        ∷ [])

query_parses :
    parse_expr (1, 60) query
    ≡ ok (
        Expr.not (
          Expr.any_record "role" (
            Expr.and (
              cons
                (Expr.compare "title" Comparator.eq (Value.text "Lead"))
                (cons (Expr.compare "months" Comparator.ge (Value.number 3)) nil)))))
unfolding parse_expr resolve_record comparison record_name records lower expect_where allowed
query_parses = refl

rules_parse :
    parse_program (1, 60) rules
    ≡ ok (
        record {
          kind = ClauseKind.require;
          expr = Expr.compare "years_experience" Comparator.ge (Value.number 5);
          weight = 1;
          because = none;
        }
        ∷ record {
          kind = ClauseKind.prefer;
          expr = Expr.aggregate AggregateFunc.count "role" none no_where Comparator.gt 2;
          weight = 2;
          because = none;
        }
        ∷ [])
unfolding parse_program resolve_record resolve_field comparison clause fields lower allowed
    record_name records dot_field check_field comparison_end
rules_parse = refl

-- gender = …
abbrev forbidden_query : List (Token ℕ)
forbidden_query =
    at_start (Symbol.ident "Gender")
    ∷ at_start (Symbol.op Comparator.eq)
    ∷ at_start (Symbol.string "x")
    ∷ []

forbidden_refused :
    parse_expr (1, 20) forbidden_query
    ≡ failed (record { kind = ErrorKind.field (forbidden "gender"); at = (1, 1) })
unfolding parse_expr resolve_field comparison forbidden name_error fields lower
forbidden_refused = refl

parse_expr-Typed_example : Holds (Typed none) (parse_expr (1, 60) query)
parse_expr-Typed_example = parse_expr-Typed (1, 60) query

parse_program-TypedClause_example :
    Holds (λ cs. IsNonEmpty cs × All TypedClause cs) (parse_program (1, 60) rules)
parse_program-TypedClause_example = parse_program-TypedClause (1, 60) rules

parse_program-allowed_example :
    Holds (All λ c. ReadsAllowed false (Clause.expr c)) (parse_program (1, 60) rules)
parse_program-allowed_example = parse_program-allowed (1, 60) rules

parse_expr-allowed_example : Holds (ReadsAllowed false) (parse_expr (1, 20) forbidden_query)
parse_expr-allowed_example = parse_expr-allowed (1, 20) forbidden_query
