-- ===== src/Dsl/Parser/Sound/Entry.antt =====
-- rescan/dsl/parser.py: what the entry points promise of the tokens they are given.
use rescan.Prelude.{
  ◌≡◌, refl, ℕ, zero, suc, ◌+◌, ◌*◌, none, some, ◌≤◌, List, [], ◌∷◌, length, All, arith, false, ◌⊎◌,
  inl, inr,
}
use rescan.Prelude.Float.{FloatOps}
use rescan.Dsl.Ast.{Expr, Clause, ClauseKind, Program}
use rescan.Dsl.Parser.Token.{
  Keyword, Symbol, Token, token, Position, Parsed, ok, failed, out_of_fuel, then_do,
}
use rescan.Dsl.Parser.Grammar.{expr}
use rescan.Dsl.Parser.Program.{
  expr_fuel, weight_value, weight_part, because_part, clause_end, clause, clauses, more_clauses,
  non_empty, parse_program, at_end, parse_expr,
}
use rescan.Dsl.Parser.Typed.{Typed}
use rescan.Dsl.Parser.Sound.Yields.{
  Yields, given, Holds, holds, Leaves, Yields-bind, Yields-if, Yields-weaken_suc,
  expect_number-Yields, expect_string-Yields,
}
use rescan.Dsl.Parser.Sound.Descent.{expr-Yields}

module _ {F : Type 0} ⦃fl : FloatOps F⦄ where
  -- One for a requirement; one or a number above zero for a preference.
  abbrev pub WeightFits : ClauseKind → F → Type 0
  WeightFits ClauseKind.require w = w ≡ fl.of_nat 1
  WeightFits ClauseKind.prefer w = (w ≡ fl.of_nat 1) ⊎ (fl.le w (fl.of_nat 0) ≡ false)

  abbrev pub TypedClause : Clause F → Type 0
  TypedClause c = Typed none c.expr × WeightFits c.kind c.weight

  abbrev pub IsNonEmpty : Program F → Type 0
  IsNonEmpty [] = ⊥
  IsNonEmpty (c ∷ cs) = Unit

module _ {F : Type 0} ⦃fl : FloatOps F⦄ (end : Position) where
  parse_expr_end :
      (r : Parsed (Expr F × List (Token F))) {n : ℕ}
      → Yields (Typed none) n r
      → Holds (Typed none) (then_do r (at_end end))
  parse_expr_end (ok (e, [])) (given _ _ h l) = holds e h
  parse_expr_end (ok (e, token s p ∷ ts)) h = Holds.refused _
  parse_expr_end (failed e) h = Holds.refused e
  parse_expr_end out_of_fuel h = elim h [ ]

  expr_end :
      (ts : List (Token F))
      → Holds (Typed none) (then_do (expr end (expr_fuel ts) none ts) (at_end end))
  expr_end ts = parse_expr_end _ (expr-Yields end (expr_fuel ts) none ts (omega arith))

  -- On any tokens the parse of an expression ends, in an error or in an expression that is well
  -- typed over the vocabulary; the fuel never runs out.
  pub parse_expr-Typed : (ts : List (Token F)) → Holds (Typed none) (parse_expr end ts)
  unfolding parse_expr
  parse_expr-Typed [] = Holds.refused _
  parse_expr-Typed (token (Symbol.keyword Keyword.require) p ∷ ts) = Holds.refused _
  parse_expr-Typed (token (Symbol.keyword Keyword.prefer) p ∷ ts) = Holds.refused _
  parse_expr-Typed ts = expr_end ts

  weight_value-Yields :
      (ts : List (Token F))
      → Yields (WeightFits ClauseKind.prefer) (length ts) (weight_value end ts)
  unfolding weight_value
  weight_value-Yields ts = Yields-bind _ (expect_number-Yields end ts) λ x rest u l.
      Yields-if (fl.le x (fl.of_nat 0)) (λ _. Yields.refused _) λ h. given x rest (inr h) l

  weight_part-Yields :
      (kind : ClauseKind) (ts : List (Token F))
      → Yields (WeightFits kind) (length ts) (weight_part end kind ts)
  unfolding weight_part
  weight_part-Yields ClauseKind.require (token (Symbol.keyword Keyword.weight) p ∷ ts) =
      Yields.refused _
  weight_part-Yields ClauseKind.prefer (token (Symbol.keyword Keyword.weight) p ∷ ts) =
      Yields-weaken_suc (weight_value-Yields ts)
  weight_part-Yields ClauseKind.require ts = given (fl.of_nat 1) ts refl (omega arith)
  weight_part-Yields ClauseKind.prefer ts = given (fl.of_nat 1) ts (inl refl) (omega arith)

  because_part-Yields : (ts : List (Token F)) → Leaves end (length ts) (because_part end ts)
  unfolding because_part
  because_part-Yields (token (Symbol.keyword Keyword.because) p ∷ ts) =
      Yields-bind _ (expect_string-Yields end ts)
        λ s rest u l. given (some s) rest tt (omega (arith, l))
  because_part-Yields ts = given none ts tt (omega arith)

  clause_end-Yields : (ts : List (Token F)) → Leaves end (length ts) (clause_end end ts)
  unfolding clause_end
  clause_end-Yields [] = given tt [] tt (omega arith)
  clause_end-Yields (token Symbol.semi p ∷ ts) = given tt _ tt (omega arith)
  clause_end-Yields (token (Symbol.keyword Keyword.require) p ∷ ts) = given tt _ tt (omega arith)
  clause_end-Yields (token (Symbol.keyword Keyword.prefer) p ∷ ts) = given tt _ tt (omega arith)
  clause_end-Yields ts = Yields.refused _

  clause-Yields :
      (kind : ClauseKind) (ts : List (Token F))
      → Yields TypedClause (length ts) (clause end kind ts)
  unfolding clause
  clause-Yields kind ts =
      Yields-bind _ (expr-Yields end (expr_fuel ts) none ts (omega arith)) λ e ts1 h l1.
        Yields-bind _ (weight_part-Yields kind ts1) λ w ts2 f l2.
          Yields-bind _ (because_part-Yields ts2) λ b ts3 u l3.
            Yields-bind _ (clause_end-Yields ts3) λ u' ts4 v l4.
              given (record { kind = kind; expr = e; weight = w; because = b }) ts4 (h, f)
                (omega (arith, l1, l2, l3, l4))

  Holds-cons :
      (c : Clause F) {r : Parsed (Program F)}
      → TypedClause c
      → Holds (All TypedClause) r
      → Holds (All TypedClause) (then_do r λ cs. ok (c ∷ cs))
  Holds-cons c h (holds cs hs) = holds _ (h, hs)
  Holds-cons c h (Holds.refused e) = Holds.refused e

  Holds-clause :
      (f : Clause F × List (Token F) → Parsed (Program F)) {n : ℕ}
      {r : Parsed (Clause F × List (Token F))}
      → Yields TypedClause n r
      → ((c : Clause F) (rest : List (Token F))
          → TypedClause c
          → length rest ≤ n
          → Holds (All TypedClause) (f (c, rest)))
      → Holds (All TypedClause) (then_do r f)
  Holds-clause f (given c rest h l) k = k c rest h l
  Holds-clause f (Yields.refused e) k = Holds.refused e

  mutual
    unfolding clauses

    clauses-TypedClause :
        (n : ℕ) (ts : List (Token F))
        → 2 * length ts + 1 ≤ n
        → Holds (All TypedClause) (clauses end n ts)
    clauses-TypedClause zero ts fuel = ground (arith, fuel)
    clauses-TypedClause (suc n) [] fuel = holds [] tt
    clauses-TypedClause (suc n) (token Symbol.semi p ∷ ts) fuel =
        clauses-TypedClause n ts (omega (arith, fuel))
    clauses-TypedClause (suc n) (token (Symbol.keyword Keyword.require) p ∷ ts) fuel =
        Holds-clause _ (clause-Yields ClauseKind.require ts)
          λ c rest h l. more_clauses-TypedClause n c rest h (omega (arith, fuel, l))
    clauses-TypedClause (suc n) (token (Symbol.keyword Keyword.prefer) p ∷ ts) fuel =
        Holds-clause _ (clause-Yields ClauseKind.prefer ts)
          λ c rest h l. more_clauses-TypedClause n c rest h (omega (arith, fuel, l))
    clauses-TypedClause (suc n) ts fuel = Holds.refused _

    more_clauses-TypedClause :
        (n : ℕ) (c : Clause F) (ts : List (Token F))
        → TypedClause c
        → 2 * length ts + 2 ≤ n
        → Holds (All TypedClause) (more_clauses end n c ts)
    more_clauses-TypedClause zero c ts h fuel = ground (arith, fuel)
    more_clauses-TypedClause (suc n) c ts h fuel =
        Holds-cons c h (clauses-TypedClause n ts (omega (arith, fuel)))

  non_empty-typed :
      {r : Parsed (Program F)}
      → Holds (All TypedClause) r
      → Holds (λ cs. IsNonEmpty cs × All TypedClause cs) (then_do r (non_empty end))
  non_empty-typed (holds [] h) = Holds.refused _
  non_empty-typed (holds (c ∷ cs) h) = holds (c ∷ cs) (tt, h)
  non_empty-typed (Holds.refused e) = Holds.refused e

  -- On any tokens the parse of a program ends, in an error or in at least one clause, each with a
  -- well-typed expression and a weight that is one or, for a preference, above zero.
  pub parse_program-TypedClause :
      (ts : List (Token F))
      → Holds (λ cs. IsNonEmpty cs × All TypedClause cs) (parse_program end ts)
  unfolding parse_program
  parse_program-TypedClause ts = non_empty-typed (clauses-TypedClause _ ts (omega arith))
