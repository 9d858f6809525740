-- ===== src/Dsl/Parser/Sound/Descent.antt =====
-- rescan/dsl/parser.py: the descent returns well-typed expressions, and with six units of fuel for
-- each token it never runs out.
use rescan.Prelude.{
  ◌≡◌, refl, ℕ, zero, suc, ◌+◌, ◌*◌, Option, none, some, ◌≤◌, List, ◌∷◌, length, arith, String,
}
use rescan.Prelude.Float.{FloatOps}
use rescan.Prelude.Text.{strip, is_empty}
use rescan.Dsl.Ast.{AggregateFunc, Expr, Args, nil, cons, no_where, only}
use rescan.Dsl.Fields.Spec.{RecordSpec}
use rescan.Dsl.Fields.Names.{resolve_record}
use rescan.Dsl.Parser.Token.{
  Keyword, Symbol, Token, token, Position, ErrorKind, Parsed, ok, failed, out_of_fuel, error,
}
use rescan.Dsl.Parser.Operand.{Column, resolve}
use rescan.Dsl.Parser.Grammar.{
  or_of, and_of, ask_of, is_number, check_field, then_give, record_name, numeric_field, dot_field,
  comparison_end, expr, or_rest, and_expr, and_rest, not_expr, primary, any_record, aggregate,
  where_part,
}
use rescan.Dsl.Parser.Typed.{InScope, IsRecord, IsNumeric, FieldFits, Typed, TypedArgs, TypedWhere}
use rescan.Dsl.Parser.Sound.Yields.{
  Yields, given, Holds, holds, Yields-bind, Yields-if, Yields-weaken, Yields-weaken_suc, Leaves,
  expect_lparen-Yields, expect_rparen-Yields, expect_string-Yields, expect_number-Yields,
  expect_where-Yields, expect_op-Yields, expect_ident-Yields,
}
use rescan.Dsl.Parser.Sound.Operands.{not_empty}
use rescan.Dsl.Parser.Sound.Comparisons.{resolve-Holds, comparison-Yields}

module _ {F : Type 0} ⦃fl : FloatOps F⦄ (end : Position) where
  found-IsRecord :
      (name : String) (p : Position) (ts : List (Token F)) (o : Option (RecordSpec F))
      → resolve_record name ≡ o
      → Yields {A = RecordSpec F}
          (λ rec. IsRecord rec rec.name)
          (length ts)
          (elim o as (λ _. Parsed (RecordSpec F × List (Token F))) [
            | none ↦ error (ErrorKind.field none) p
            | some rec ↦ ok (rec, ts)
          ])
  found-IsRecord name p ts none eq = Yields.refused _
  found-IsRecord name p ts (some rec) eq = given rec ts (name, eq, refl) (omega arith)

  record_name-Yields :
      (ts : List (Token F))
      → Yields {A = RecordSpec F} (λ rec. IsRecord rec rec.name) (length ts) (record_name end ts)
  unfolding record_name
  record_name-Yields ts =
      Yields-bind _ (expect_ident-Yields end ts) λ (name, p) ts1 u l1.
        Yields-weaken l1 (found-IsRecord name p ts1 (resolve_record name) refl)

  then_give-Yields :
      {A : Type 0} {P : A → Type 0} {r : Parsed A} (ts : List (Token F))
      → Holds P r
      → Yields P (length ts) (then_give r ts)
  then_give-Yields ts (holds a h) = given a ts h (omega arith)
  then_give-Yields ts (Holds.refused e) = Yields.refused e

  column_found :
      (rec : RecordSpec F) (name : String) (p : Position) (r : Parsed Column)
      → resolve (some rec) name p ≡ r
      → Holds (λ _. Unit) r
      → Holds (InScope (some rec)) r
  column_found rec name p (ok col) eq h = holds col (name, p, eq)
  column_found rec name p (failed e) eq h = Holds.refused e
  column_found rec name p out_of_fuel eq h = elim h [ ]

  numeric_field-Yields :
      (rec : RecordSpec F) (ts : List (Token F))
      → Yields (IsNumeric rec) (length ts) (numeric_field end rec ts)
  unfolding numeric_field
  numeric_field-Yields rec ts = Yields-bind _ (expect_ident-Yields end ts) λ (name, p) ts1 u l1.
      Yields-bind _
        (then_give-Yields ts1
          (column_found rec name p _ refl (resolve-Holds end (some rec) name p)))
        λ col ts2 h l2.
          Yields-if (is_number col.kind)
            (λ n. given col.name ts2 (col, h, refl, n) (omega (arith, l1, l2)))
            (λ n. Yields.refused _)

  abbrev Dotted : RecordSpec F → Option String → Type 0
  Dotted rec none = Unit
  Dotted rec (some f) = IsNumeric rec f

  dot_field-Yields :
      (rec : RecordSpec F) (ts : List (Token F))
      → Yields (Dotted rec) (length ts) (dot_field end rec ts)
  unfolding dot_field
  dot_field-Yields rec (token Symbol.dot p ∷ ts) =
      Yields-bind _ (numeric_field-Yields rec ts)
        λ f rest h l. given (some f) rest h (omega (arith, l))
  dot_field-Yields rec ts = given none ts tt (omega arith)

  check_field-Holds :
      (rec : RecordSpec F) (f : AggregateFunc) (o : Option String) (p : Position)
      → Dotted rec o
      → Holds (FieldFits rec f) (check_field f o p)
  unfolding check_field
  check_field-Holds rec AggregateFunc.count none p h = holds none tt
  check_field-Holds rec AggregateFunc.count (some a) p h = Holds.refused _
  check_field-Holds rec _ none p h = Holds.refused _
  check_field-Holds rec _ (some a) p h = holds (some a) h

  comparison_end-Yields : (ts : List (Token F)) → Leaves end (length ts) (comparison_end end ts)
  unfolding comparison_end
  comparison_end-Yields ts = Yields-bind _ (expect_rparen-Yields end ts) λ u ts1 h l1.
      Yields-bind _ (expect_op-Yields end ts1) λ c ts2 h l2.
        Yields-bind _ (expect_number-Yields end ts2)
          λ x ts3 h l3. given (c, x) ts3 tt (omega (arith, l1, l2, l3))

  ask_of-Yields :
      (q : String) (p : Position) (ts : List (Token F))
      → Yields (Typed none) (length ts) (ask_of q p ts)
  unfolding ask_of
  ask_of-Yields q p ts =
      Yields-if (is_empty (strip q)) (λ h. Yields.refused _)
        λ h. given (Expr.ask (strip q)) ts (tt, not_empty (strip q) h) (omega arith)

  or_of-Typed :
      (scope : Option (RecordSpec F)) (e : Expr F) (es : Args F)
      → Typed scope e
      → TypedArgs scope es
      → Typed scope (or_of e es)
  or_of-Typed scope e nil h hs = h
  or_of-Typed scope e (cons a rest) h hs = (h, hs)

  and_of-Typed :
      (scope : Option (RecordSpec F)) (e : Expr F) (es : Args F)
      → Typed scope e
      → TypedArgs scope es
      → Typed scope (and_of e es)
  and_of-Typed scope e nil h hs = h
  and_of-Typed scope e (cons a rest) h hs = (h, hs)

  mutual
    unfolding expr

    pub expr-Yields :
        (n : ℕ) (scope : Option (RecordSpec F)) (ts : List (Token F))
        → 6 * length ts + 4 ≤ n
        → Yields (Typed scope) (length ts) (expr end n scope ts)
    expr-Yields zero scope ts fuel = ground (arith, fuel)
    expr-Yields (suc n) scope ts fuel =
        Yields-bind _ (and_expr-Yields n scope ts (omega (arith, fuel))) λ e ts1 h l1.
          Yields-bind _ (or_rest-Yields n scope ts1 (omega (arith, fuel, l1))) λ es ts2 hs l2.
            given (or_of e es) ts2 (or_of-Typed scope e es h hs) (omega (arith, l1, l2))

    or_rest-Yields :
        (n : ℕ) (scope : Option (RecordSpec F)) (ts : List (Token F))
        → 6 * length ts + 1 ≤ n
        → Yields (TypedArgs scope) (length ts) (or_rest end n scope ts)
    or_rest-Yields zero scope ts fuel = ground (arith, fuel)
    or_rest-Yields (suc n) scope (token (Symbol.keyword Keyword.or) p ∷ ts) fuel =
        Yields-bind _ (and_expr-Yields n scope ts (omega (arith, fuel))) λ e ts1 h l1.
          Yields-bind _ (or_rest-Yields n scope ts1 (omega (arith, fuel, l1)))
            λ es ts2 hs l2. given (cons e es) ts2 (h, hs) (omega (arith, l1, l2))
    or_rest-Yields (suc n) scope ts fuel = given nil ts tt (omega arith)

    and_expr-Yields :
        (n : ℕ) (scope : Option (RecordSpec F)) (ts : List (Token F))
        → 6 * length ts + 3 ≤ n
        → Yields (Typed scope) (length ts) (and_expr end n scope ts)
    and_expr-Yields zero scope ts fuel = ground (arith, fuel)
    and_expr-Yields (suc n) scope ts fuel =
        Yields-bind _ (not_expr-Yields n scope ts (omega (arith, fuel))) λ e ts1 h l1.
          Yields-bind _ (and_rest-Yields n scope ts1 (omega (arith, fuel, l1))) λ es ts2 hs l2.
            given (and_of e es) ts2 (and_of-Typed scope e es h hs) (omega (arith, l1, l2))

    and_rest-Yields :
        (n : ℕ) (scope : Option (RecordSpec F)) (ts : List (Token F))
        → 6 * length ts + 1 ≤ n
        → Yields (TypedArgs scope) (length ts) (and_rest end n scope ts)
    and_rest-Yields zero scope ts fuel = ground (arith, fuel)
    and_rest-Yields (suc n) scope (token (Symbol.keyword Keyword.and) p ∷ ts) fuel =
        Yields-bind _ (not_expr-Yields n scope ts (omega (arith, fuel))) λ e ts1 h l1.
          Yields-bind _ (and_rest-Yields n scope ts1 (omega (arith, fuel, l1)))
            λ es ts2 hs l2. given (cons e es) ts2 (h, hs) (omega (arith, l1, l2))
    and_rest-Yields (suc n) scope ts fuel = given nil ts tt (omega arith)

    not_expr-Yields :
        (n : ℕ) (scope : Option (RecordSpec F)) (ts : List (Token F))
        → 6 * length ts + 2 ≤ n
        → Yields (Typed scope) (length ts) (not_expr end n scope ts)
    not_expr-Yields zero scope ts fuel = ground (arith, fuel)
    not_expr-Yields (suc n) scope (token (Symbol.keyword Keyword.not) p ∷ ts) fuel =
        Yields-bind _ (not_expr-Yields n scope ts (omega (arith, fuel)))
          λ e rest h l. given (Expr.not e) rest h (omega (arith, l))
    not_expr-Yields (suc n) scope ts fuel = primary-Yields n scope ts (omega (arith, fuel))

    primary-Yields :
        (n : ℕ) (scope : Option (RecordSpec F)) (ts : List (Token F))
        → 6 * length ts + 1 ≤ n
        → Yields (Typed scope) (length ts) (primary end n scope ts)
    primary-Yields zero scope ts fuel = ground (arith, fuel)
    primary-Yields (suc n) scope (token Symbol.lparen p ∷ ts) fuel =
        Yields-bind _ (expr-Yields n scope ts (omega (arith, fuel))) λ e ts1 h l1.
          Yields-bind _ (expect_rparen-Yields end ts1)
            λ u ts2 v l2. given e ts2 h (omega (arith, l1, l2))
    primary-Yields (suc n) none (token (Symbol.keyword Keyword.any) p ∷ ts) fuel =
        Yields-weaken_suc (any_record-Yields n ts (omega (arith, fuel)))
    primary-Yields (suc n) (some rec) (token (Symbol.keyword Keyword.any) p ∷ ts) fuel =
        Yields.refused _
    primary-Yields (suc n) none (token (Symbol.keyword (Keyword.aggregate f)) p ∷ ts) fuel =
        Yields-weaken_suc (aggregate-Yields n f p ts (omega (arith, fuel)))
    primary-Yields (suc n) (some rec) (token (Symbol.keyword (Keyword.aggregate f)) p ∷ ts) fuel =
        Yields.refused _
    primary-Yields (suc n) none (token (Symbol.keyword Keyword.ask) p ∷ ts) fuel =
        Yields-weaken_suc (
          Yields-bind _ (expect_string-Yields end ts)
            λ q ts1 u l1. Yields-weaken l1 (ask_of-Yields q p ts1))
    primary-Yields (suc n) (some rec) (token (Symbol.keyword Keyword.ask) p ∷ ts) fuel =
        Yields.refused _
    primary-Yields (suc n) scope (token (Symbol.ident name) p ∷ ts) fuel =
        Yields-weaken_suc (comparison-Yields end scope name p ts)
    primary-Yields (suc n) scope ts fuel = Yields.refused _

    any_record-Yields :
        (n : ℕ) (ts : List (Token F))
        → 6 * length ts + 5 ≤ n
        → Yields (Typed none) (length ts) (any_record end n ts)
    any_record-Yields zero ts fuel = ground (arith, fuel)
    any_record-Yields (suc n) ts fuel = Yields-bind _ (record_name-Yields ts) λ rec ts1 r l1.
        Yields-bind _ (expect_where-Yields end ts1) λ u ts2 v l2.
          Yields-bind _ (expr-Yields n (some rec) ts2 (omega (arith, fuel, l1, l2))) λ e ts3 h l3.
            given (Expr.any_record rec.name e) ts3 (tt, (rec, r, h)) (omega (arith, l1, l2, l3))

    aggregate-Yields :
        (n : ℕ) (f : AggregateFunc) (p : Position) (ts : List (Token F))
        → 6 * length ts + 5 ≤ n
        → Yields (Typed none) (length ts) (aggregate end n f p ts)
    aggregate-Yields zero f p ts fuel = ground (arith, fuel)
    aggregate-Yields (suc n) f p ts fuel = Yields-bind _ (expect_lparen-Yields end ts) λ u ts1 v l1.
        Yields-bind _ (record_name-Yields ts1) λ rec ts2 r l2.
          Yields-bind _ (dot_field-Yields rec ts2) λ o ts3 d l3.
            Yields-bind _ (then_give-Yields ts3 (check_field-Holds rec f o p d))
              λ field ts4 fits l4.
                Yields-bind _ (where_part-Yields n rec ts4 (omega (arith, fuel, l1, l2, l3, l4)))
                  λ w ts5 h l5. Yields-bind _ (comparison_end-Yields ts5) λ (c, x) ts6 u' l6.
                    given (Expr.aggregate f rec.name field w c x) ts6 (tt, (rec, r, fits, h))
                      (omega (arith, l1, l2, l3, l4, l5, l6))

    where_part-Yields :
        (n : ℕ) (rec : RecordSpec F) (ts : List (Token F))
        → 6 * length ts + 1 ≤ n
        → Yields (TypedWhere rec) (length ts) (where_part end n rec ts)
    where_part-Yields zero rec ts fuel = ground (arith, fuel)
    where_part-Yields (suc n) rec (token (Symbol.keyword Keyword.where_word) p ∷ ts) fuel =
        Yields-bind _ (expr-Yields n (some rec) ts (omega (arith, fuel)))
          λ e rest h l. given (only e) rest h (omega (arith, l))
    where_part-Yields (suc n) rec ts fuel = given no_where ts tt (omega arith)
