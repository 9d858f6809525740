-- ===== src/Dsl/Parser/Typed.antt =====
-- What a well-typed rule is, whatever text it was written as: each name is one of the vocabulary or
-- of the record in scope, each operator one of the field's kind, each value one of the field's
-- values, and ANY, aggregates and ASK stand outside every WHERE.
use rescan.Prelude.{◌≡◌, String, Bool, true, false, Option, none, some, List, all}
use rescan.Prelude.Float.{FloatOps}
use rescan.Prelude.Text.{member}
use rescan.Dsl.Ast.{
  AggregateFunc, Value, IsValue, flag, word, Expr, Args, nil, cons, Where, no_where, only,
}
use rescan.Dsl.Fields.Spec.{Kind, RecordSpec}
use rescan.Dsl.Fields.Names.{resolve_record}
use rescan.Dsl.Parser.Token.{Position, ok}
use rescan.Dsl.Parser.Operand.{Operator, allowed, Column, resolve}
use rescan.Dsl.Parser.Grammar.{is_number}

abbrev pub fits_value : {F : Type 0} → Kind → List String → Value F → Bool
fits_value Kind.number vs (Value.number x) = true
fits_value Kind.number vs (Value.text s) = false
fits_value Kind.enum vs (Value.text s) = member s vs
fits_value _ vs (Value.text s) = true
fits_value _ vs (Value.number x) = false

abbrev pub fits_is : Kind → List String → IsValue → Bool
fits_is Kind.bool vs (flag b) = true
fits_is Kind.bool vs (word s) = false
fits_is _ vs (flag b) = false
fits_is _ vs (word s) = member s vs

abbrev pub is_not_blank : String → Bool
is_not_blank String.[] = false
is_not_blank (String.◌∷◌ c s) = true

module _ {F : Type 0} ⦃fl : FloatOps F⦄ where
  -- the column that some name in the text of a rule stands for
  abbrev pub InScope : Option (RecordSpec F) → Column → Type 0
  InScope scope col = (name : String) × (p : Position) × resolve scope name p ≡ ok col

  abbrev pub FieldWith : Option (RecordSpec F) → String → Operator → (Column → Bool) → Type 0
  FieldWith scope f o fits =
      (col : Column) × InScope scope col
      × (col.name ≡ f)
      × (allowed col.kind o ≡ true)
      × (fits col ≡ true)

  abbrev pub IsTop : Option (RecordSpec F) → Type 0
  IsTop none = Unit
  IsTop (some rec) = ⊥

  abbrev pub IsRecord : RecordSpec F → String → Type 0
  IsRecord rec r = (name : String) × (resolve_record {F = F} name ≡ some rec) × (rec.name ≡ r)

  abbrev pub IsNumeric : RecordSpec F → String → Type 0
  IsNumeric rec f =
      (col : Column) × InScope (some rec) col × (col.name ≡ f) × (is_number col.kind ≡ true)

  abbrev pub FieldFits : RecordSpec F → AggregateFunc → Option String → Type 0
  FieldFits rec AggregateFunc.count none = Unit
  FieldFits rec AggregateFunc.count (some f) = ⊥
  FieldFits rec _ none = ⊥
  FieldFits rec _ (some f) = IsNumeric rec f

  abbrev mutual
    pub Typed : Option (RecordSpec F) → Expr F → Type 0
    Typed scope (Expr.compare f c v) =
        FieldWith scope f (Operator.cmp c) λ col. fits_value col.kind col.values v
    Typed scope (Expr.has_any f vs) = FieldWith scope f Operator.has_any λ col. all is_not_blank vs
    Typed scope (Expr.has_all f vs) = FieldWith scope f Operator.has_all λ col. all is_not_blank vs
    Typed scope (Expr.in_values f vs) =
        FieldWith scope f Operator.in_values λ col. all (λ v. member v col.values) vs
    Typed scope (Expr.is f v) = FieldWith scope f Operator.is λ col. fits_is col.kind col.values v
    Typed scope (Expr.ask q) = IsTop scope × (is_not_blank q ≡ true)
    Typed scope (Expr.aggregate fn r f w c x) =
        IsTop scope
        × ((rec : RecordSpec F) × IsRecord rec r × FieldFits rec fn f × TypedWhere rec w)
    Typed scope (Expr.not e) = Typed scope e
    Typed scope (Expr.and es) = TypedArgs scope es
    Typed scope (Expr.or es) = TypedArgs scope es
    Typed scope (Expr.any_record r e) =
        IsTop scope × ((rec : RecordSpec F) × IsRecord rec r × Typed (some rec) e)

    pub TypedArgs : Option (RecordSpec F) → Args F → Type 0
    TypedArgs scope nil = Unit
    TypedArgs scope (cons e es) = Typed scope e × TypedArgs scope es

    pub TypedWhere : RecordSpec F → Where F → Type 0
    TypedWhere rec no_where = Unit
    TypedWhere rec (only e) = Typed (some rec) e
