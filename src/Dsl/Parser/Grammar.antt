-- ===== src/Dsl/Parser/Grammar.antt =====
-- rescan/dsl/parser.py: the recursive descent, from `expr` to `aggregate`, on fuel. `scope` is the
-- record that a WHERE clause speaks of.
use rescan.Prelude.{ℕ, zero, suc, String, Bool, true, false, Option, none, some, ◌∷◌, if◌then◌else◌}
use rescan.Prelude.Float.{FloatOps}
use rescan.Prelude.Text.{strip, is_empty}
use rescan.Dsl.Ast.{Comparator, AggregateFunc, Expr, Args, nil, cons, Where, no_where, only}
use rescan.Dsl.Fields.Spec.{Kind, RecordSpec}
use rescan.Dsl.Fields.Names.{resolve_record}
use rescan.Dsl.Parser.Token.{
  Keyword, Symbol, token, Position, ErrorKind, Parsed, ok, failed, out_of_fuel, Parser, ◌>>=◌, give,
  error, unexpected, expect_lparen, expect_rparen, expect_string, expect_number, expect_where,
  expect_op, expect_ident,
}
use rescan.Dsl.Parser.Operand.{resolve, comparison}

module _ {F : Type 0} where
  -- args[0] if len(args) == 1 else Or(args=args)
  abbrev pub or_of : Expr F → Args F → Expr F
  or_of e nil = e
  or_of e (cons a rest) = Expr.or (cons e (cons a rest))

  abbrev pub and_of : Expr F → Args F → Expr F
  and_of e nil = e
  and_of e (cons a rest) = Expr.and (cons e (cons a rest))

  unfoldable pub ask_of : String → Position → Parser F (Expr F)
  ask_of q p ts =
      if is_empty (strip q) then error ErrorKind.syntax p else ok (Expr.ask (strip q), ts)

abbrev pub is_number : Kind → Bool
is_number Kind.number = true
is_number _ = false

-- COUNT takes no field, and the other functions need one.
unfoldable pub check_field : {A : Type 0} → AggregateFunc → Option A → Position → Parsed (Option A)
check_field AggregateFunc.count none p = ok none
check_field AggregateFunc.count (some a) p = error ErrorKind.type p
check_field _ none p = error ErrorKind.type p
check_field _ (some a) p = ok (some a)

abbrev pub then_give : {F A : Type 0} → Parsed A → Parser F A
then_give (ok a) ts = ok (a, ts)
then_give (failed e) ts = failed e
then_give out_of_fuel ts = out_of_fuel

module _ {F : Type 0} ⦃fl : FloatOps F⦄ (end : Position) where
  -- a record's name
  unfoldable pub record_name : Parser F (RecordSpec F)
  unfolding expect_ident
  record_name = expect_ident end >>= λ (name, p) ts. elim (resolve_record name) [
    | none ↦ error (ErrorKind.field none) p
    | some rec ↦ ok (rec, ts)
  ]

  -- the field after the dot, which is numeric
  unfoldable pub numeric_field : RecordSpec F → Parser F String
  unfolding expect_ident resolve
  numeric_field rec = expect_ident end >>= λ (name, p).
      then_give (resolve (some rec) name p) >>= λ col ts.
      if is_number col.kind then ok (col.name, ts) else error ErrorKind.type p

  unfoldable pub dot_field : RecordSpec F → Parser F (Option String)
  unfolding numeric_field
  dot_field rec (token Symbol.dot p ∷ ts) = (numeric_field rec >>= λ name. give (some name)) ts
  dot_field rec ts = ok (none, ts)

  -- what an aggregate is compared with
  unfoldable pub comparison_end : Parser F (Comparator × F)
  unfolding expect_rparen expect_op expect_number
  comparison_end =
      expect_rparen end >>= λ _. expect_op end >>= λ c. expect_number end >>= λ x. give (c, x)

  unfoldable mutual
    pub expr : ℕ → Option (RecordSpec F) → Parser F (Expr F)
    expr zero scope ts = out_of_fuel
    expr (suc n) scope ts =
        (and_expr n scope >>= λ e. or_rest n scope >>= λ es. give (or_of e es)) ts

    pub or_rest : ℕ → Option (RecordSpec F) → Parser F (Args F)
    or_rest zero scope ts = out_of_fuel
    or_rest (suc n) scope (token (Symbol.keyword Keyword.or) p ∷ ts) =
        (and_expr n scope >>= λ e. or_rest n scope >>= λ es. give (cons e es)) ts
    or_rest (suc n) scope ts = ok (nil, ts)

    pub and_expr : ℕ → Option (RecordSpec F) → Parser F (Expr F)
    and_expr zero scope ts = out_of_fuel
    and_expr (suc n) scope ts =
        (not_expr n scope >>= λ e. and_rest n scope >>= λ es. give (and_of e es)) ts

    pub and_rest : ℕ → Option (RecordSpec F) → Parser F (Args F)
    and_rest zero scope ts = out_of_fuel
    and_rest (suc n) scope (token (Symbol.keyword Keyword.and) p ∷ ts) =
        (not_expr n scope >>= λ e. and_rest n scope >>= λ es. give (cons e es)) ts
    and_rest (suc n) scope ts = ok (nil, ts)

    pub not_expr : ℕ → Option (RecordSpec F) → Parser F (Expr F)
    not_expr zero scope ts = out_of_fuel
    not_expr (suc n) scope (token (Symbol.keyword Keyword.not) p ∷ ts) =
        (not_expr n scope >>= λ e. give (Expr.not e)) ts
    not_expr (suc n) scope ts = primary n scope ts

    pub primary : ℕ → Option (RecordSpec F) → Parser F (Expr F)
    primary zero scope ts = out_of_fuel
    primary (suc n) scope (token Symbol.lparen p ∷ ts) =
        (expr n scope >>= λ e. expect_rparen end >>= λ _. give e) ts
    primary (suc n) none (token (Symbol.keyword Keyword.any) p ∷ ts) = any_record n ts
    primary (suc n) (some rec) (token (Symbol.keyword Keyword.any) p ∷ ts) =
        error ErrorKind.syntax p
    primary (suc n) none (token (Symbol.keyword (Keyword.aggregate f)) p ∷ ts) = aggregate n f p ts
    primary (suc n) (some rec) (token (Symbol.keyword (Keyword.aggregate f)) p ∷ ts) =
        error ErrorKind.syntax p
    primary (suc n) none (token (Symbol.keyword Keyword.ask) p ∷ ts) =
        (expect_string end >>= λ q. ask_of q p) ts
    primary (suc n) (some rec) (token (Symbol.keyword Keyword.ask) p ∷ ts) =
        error ErrorKind.syntax p
    primary (suc n) scope (token (Symbol.ident name) p ∷ ts) = comparison end scope name p ts
    primary (suc n) scope ts = unexpected end ts

    -- after ANY
    pub any_record : ℕ → Parser F (Expr F)
    any_record zero ts = out_of_fuel
    any_record (suc n) ts =
        (record_name >>= λ rec.
        expect_where end >>= λ _. expr n (some rec) >>= λ e. give (Expr.any_record rec.name e))
          ts

    -- after the function, which stands at `p`
    pub aggregate : ℕ → AggregateFunc → Position → Parser F (Expr F)
    aggregate zero f p ts = out_of_fuel
    aggregate (suc n) f p ts =
        (expect_lparen end >>= λ _. record_name >>= λ rec. dot_field rec >>= λ dotted.
        then_give (check_field f dotted p) >>= λ field. where_part n rec >>= λ w.
        comparison_end >>= λ (c, x). give (Expr.aggregate f rec.name field w c x))
          ts

    pub where_part : ℕ → RecordSpec F → Parser F (Where F)
    where_part zero rec ts = out_of_fuel
    where_part (suc n) rec (token (Symbol.keyword Keyword.where_word) p ∷ ts) =
        (expr n (some rec) >>= λ e. give (only e)) ts
    where_part (suc n) rec ts = ok (no_where, ts)
