-- ===== src/Dsl/Parser/Program.antt =====
-- rescan/dsl/parser.py: clauses, programs and the two entry points on tokens.
use rescan.Prelude.{
  ℕ, zero, suc, ◌+◌, ◌*◌, String, Option, none, some, List, [], ◌∷◌, length, if◌then◌else◌,
}
use rescan.Prelude.Float.{FloatOps}
use rescan.Dsl.Ast.{Expr, Clause, ClauseKind, Program}
use rescan.Dsl.Parser.Token.{
  Keyword, Symbol, Token, token, Position, ErrorKind, Parsed, ok, out_of_fuel, Parser, ◌>>=◌, give,
  error, unexpected, here, expect_string, expect_number, then_do,
}
use rescan.Dsl.Parser.Grammar.{expr}

module _ {F : Type 0} where
  -- the fuel that an expression on these tokens never uses up
  abbrev pub expr_fuel : List (Token F) → ℕ
  expr_fuel ts = 6 * length ts + 4

module _ {F : Type 0} ⦃fl : FloatOps F⦄ (end : Position) where
  unfoldable pub weight_value : Parser F F
  unfolding expect_number
  weight_value ts =
      (expect_number end >>= λ x rest.
      if fl.le x (fl.of_nat 0) then error ErrorKind.syntax (here end ts) else ok (x, rest))
        ts

  unfoldable pub weight_part : ClauseKind → Parser F F
  unfolding weight_value
  weight_part ClauseKind.require (token (Symbol.keyword Keyword.weight) p ∷ ts) =
      error ErrorKind.syntax p
  weight_part ClauseKind.prefer (token (Symbol.keyword Keyword.weight) p ∷ ts) = weight_value ts
  weight_part kind ts = ok (fl.of_nat 1, ts)

  unfoldable pub because_part : Parser F (Option String)
  unfolding expect_string
  because_part (token (Symbol.keyword Keyword.because) p ∷ ts) =
      (expect_string end >>= λ s. give (some s)) ts
  because_part ts = ok (none, ts)

  unfoldable pub clause_end : Parser F (Unit {0})
  clause_end [] = ok (tt, [])
  clause_end (token Symbol.semi p ∷ ts) = ok (tt, token Symbol.semi p ∷ ts)
  clause_end (token (Symbol.keyword Keyword.require) p ∷ ts) =
      ok (tt, token (Symbol.keyword Keyword.require) p ∷ ts)
  clause_end (token (Symbol.keyword Keyword.prefer) p ∷ ts) =
      ok (tt, token (Symbol.keyword Keyword.prefer) p ∷ ts)
  clause_end ts = unexpected end ts

  -- `clause`, after REQUIRE or PREFER
  unfoldable pub clause : ClauseKind → Parser F (Clause F)
  unfolding expr weight_part because_part clause_end
  clause kind ts =
      (expr end (expr_fuel ts) none >>= λ e. weight_part kind >>= λ w. because_part >>= λ b.
      clause_end >>= λ _. give (record { kind = kind; expr = e; weight = w; because = b }))
        ts

  -- the clauses up to the end, with fuel for each token
  unfoldable mutual
    pub clauses : ℕ → List (Token F) → Parsed (Program F)
    clauses zero ts = out_of_fuel
    clauses (suc n) [] = ok []
    clauses (suc n) (token Symbol.semi p ∷ ts) = clauses n ts
    clauses (suc n) (token (Symbol.keyword Keyword.require) p ∷ ts) =
        then_do (clause ClauseKind.require ts) λ (c, rest). more_clauses n c rest
    clauses (suc n) (token (Symbol.keyword Keyword.prefer) p ∷ ts) =
        then_do (clause ClauseKind.prefer ts) λ (c, rest). more_clauses n c rest
    clauses (suc n) ts = error ErrorKind.syntax (here end ts)

    pub more_clauses : ℕ → Clause F → List (Token F) → Parsed (Program F)
    more_clauses zero c ts = out_of_fuel
    more_clauses (suc n) c ts = then_do (clauses n ts) λ cs. ok (c ∷ cs)

  abbrev pub non_empty : Program F → Parsed (Program F)
  non_empty [] = error ErrorKind.syntax (1, 1)
  non_empty (c ∷ cs) = ok (c ∷ cs)

  -- `parse_program`, on the tokens
  unfoldable pub parse_program : List (Token F) → Parsed (Program F)
  unfolding clauses
  parse_program ts = then_do (clauses (2 * length ts + 2) ts) non_empty

  abbrev pub at_end : Expr F × List (Token F) → Parsed (Expr F)
  at_end (e, []) = ok e
  at_end (e, token s p ∷ ts) = error ErrorKind.syntax p

  -- `parse_expr`, on the tokens
  unfoldable pub parse_expr : List (Token F) → Parsed (Expr F)
  unfolding expr
  parse_expr [] = error ErrorKind.syntax (1, 1)
  parse_expr (token (Symbol.keyword Keyword.require) p ∷ ts) = error ErrorKind.syntax p
  parse_expr (token (Symbol.keyword Keyword.prefer) p ∷ ts) = error ErrorKind.syntax p
  parse_expr ts = then_do (expr end (expr_fuel ts) none ts) at_end
