-- ===== src/Dsl/Parser/Sound/Comparisons.antt =====
-- rescan/dsl/parser.py: a comparison that parses is well typed in its scope.
use rescan.Prelude.{◌≡◌, refl, Option, none, some, List, ◌∷◌, length, arith, String}
use rescan.Prelude.Float.{FloatOps}
use rescan.Dsl.Ast.{Expr}
use rescan.Dsl.Fields.Spec.{RecordSpec, FieldSpec}
use rescan.Dsl.Parser.Token.{
  Keyword, Symbol, Token, token, Position, Parsed, ok, failed, out_of_fuel,
}
use rescan.Dsl.Parser.Operand.{
  Operator, allowed, Column, column, resolve, name_error, operation, comparison,
}
use rescan.Dsl.Parser.Typed.{InScope, Typed}
use rescan.Dsl.Parser.Sound.Yields.{
  Yields, given, Holds, holds, Yields-bind, Yields-if, Yields-weaken_suc,
}
use rescan.Dsl.Parser.Sound.Operands.{
  enum_list-Holds, string_list-Yields, lift_parsed-Yields, compare_value-Yields, is_operand-Yields,
}

module _ {F : Type 0} ⦃fl : FloatOps F⦄ (end : Position) where
  operation-Yields :
      (scope : Option (RecordSpec F)) (col : Column)
      → InScope scope col
      → (ts : List (Token F)) → Yields (Typed scope) (length ts) (operation end col ts)
  unfolding operation
  operation-Yields scope col h (token (Symbol.op c) p ∷ ts) = Yields-weaken_suc (
      Yields-if (allowed col.kind (Operator.cmp c))
        (λ a.
          Yields-bind _ (compare_value-Yields end col col.kind ts)
            λ v rest fit l. given (Expr.compare col.name c v) rest (col, h, refl, a, fit) l)
        λ _. Yields.refused _)
  operation-Yields scope col h
        (token (Symbol.keyword Keyword.has) p ∷ token (Symbol.keyword Keyword.any) q ∷ ts) =
      Yields-weaken_suc (
        Yields-weaken_suc (
          Yields-if (allowed col.kind Operator.has_any)
            (λ a.
              Yields-bind _ (string_list-Yields end ts)
                λ vs rest fit l. given (Expr.has_any col.name vs) rest (col, h, refl, a, fit) l)
            λ _. Yields.refused _))
  operation-Yields scope col h
        (token (Symbol.keyword Keyword.has) p ∷ token (Symbol.keyword Keyword.all) q ∷ ts) =
      Yields-weaken_suc (
        Yields-weaken_suc (
          Yields-if (allowed col.kind Operator.has_all)
            (λ a.
              Yields-bind _ (string_list-Yields end ts)
                λ vs rest fit l. given (Expr.has_all col.name vs) rest (col, h, refl, a, fit) l)
            λ _. Yields.refused _))
  operation-Yields scope col h (token (Symbol.keyword Keyword.has) p ∷ ts) = Yields.refused _
  operation-Yields scope col h (token (Symbol.keyword Keyword.in_word) p ∷ ts) = Yields-weaken_suc (
      Yields-if (allowed col.kind Operator.in_values)
        (λ a. Yields-bind _ (string_list-Yields end ts) λ vs ts1 u l1.
          Yields-bind _ (lift_parsed-Yields end _ ts1 (enum_list-Holds col vs p)) λ ws ts2 fit l2.
            given (Expr.in_values col.name ws) ts2 (col, h, refl, a, fit) (omega (arith, l1, l2)))
        λ _. Yields.refused _)
  operation-Yields scope col h (token (Symbol.keyword Keyword.is) p ∷ ts) = Yields-weaken_suc (
      Yields-if (allowed col.kind Operator.is)
        (λ a.
          Yields-bind _ (is_operand-Yields end col col.kind ts)
            λ v rest fit l. given (Expr.is col.name v) rest (col, h, refl, a, fit) l)
        λ _. Yields.refused _)
  operation-Yields scope col h ts = Yields.refused _

  resolved :
      (scope : Option (RecordSpec F)) (name : String) (p : Position) (ts : List (Token F))
      (r : Parsed Column)
      → resolve scope name p ≡ r
      → Holds (λ _. Unit) r
      → Yields (Typed scope) (length ts) (elim r [
        | ok col ↦ operation end col ts
        | failed e ↦ failed e
        | out_of_fuel ↦ out_of_fuel
      ])
  resolved scope name p ts (ok col) eq h = operation-Yields scope col (name, p, eq) ts
  resolved scope name p ts (failed e) eq h = Yields.refused e
  resolved scope name p ts out_of_fuel eq h = elim h [ ]

  column-Holds :
      {S : Type 0} (name : String) (p : Position) (o : Option (FieldSpec F S))
      → Holds {A = Column}
          (λ _. Unit)
          (elim o as (λ _. Parsed Column) [
            | none ↦ name_error name p
            | some spec ↦ ok (column spec)
          ])
  unfolding name_error
  column-Holds name p none = Holds.refused _
  column-Holds name p (some spec) = holds _ tt

  pub resolve-Holds :
      (scope : Option (RecordSpec F)) (name : String) (p : Position)
      → Holds (λ _. Unit) (resolve scope name p)
  unfolding resolve name_error
  resolve-Holds none name p = column-Holds name p _
  resolve-Holds (some rec) name p = column-Holds name p _

  pub comparison-Yields :
      (scope : Option (RecordSpec F)) (name : String) (p : Position) (ts : List (Token F))
      → Yields (Typed scope) (length ts) (comparison end scope name p ts)
  unfolding comparison
  comparison-Yields scope name p ts =
      resolved scope name p ts (resolve scope name p) refl (resolve-Holds scope name p)
