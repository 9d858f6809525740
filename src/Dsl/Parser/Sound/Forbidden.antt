-- ===== src/Dsl/Parser/Sound/Forbidden.antt =====
-- rescan/dsl/fields.py and rescan/dsl/parser.py: no rule that parses reads a forbidden identifier.
use rescan.Prelude.{
  ◌≡◌, refl, ap, sym, ◌∙◌, Option, none, some, List, [], ◌∷◌, All, all, String, Bool, true, false,
  is_some, arith, ◌||◌, or_default, not,
}
use rescan.Prelude.Float.{FloatOps}
use rescan.Prelude.Text.{lookup, str_eq, lower}
use rescan.Dsl.Ast.{AggregateFunc, Expr, Args, nil, cons, Where, no_where, only, Clause, Program}
use rescan.Dsl.Fields.Spec.{FieldSpec, RecordSpec}
use rescan.Dsl.Fields.Names.{forbidden, resolve_field, resolve_record, aliases, record_aliases}
use rescan.Dsl.Fields.Named.{fields}
use rescan.Dsl.Fields.Records.{
  records, skill_record, role_record, qualification_record, project_record,
}
use rescan.Dsl.Parser.Token.{Token, Position, Parsed, ok, failed, out_of_fuel}
use rescan.Dsl.Parser.Operand.{Operator, Column, column, resolve, name_error}
use rescan.Dsl.Parser.Program.{parse_expr, parse_program}
use rescan.Dsl.Parser.Typed.{InScope, FieldWith, FieldFits, Typed, TypedArgs, TypedWhere}
use rescan.Dsl.Parser.Sound.Yields.{Holds, holds}
use rescan.Dsl.Parser.Sound.Entry.{TypedClause, parse_expr-Typed, parse_program-TypedClause}

-- Inside a WHERE, `name` and `summary` are those of the entry: a skill's, a role's, a project's.
abbrev pub may_read : Bool → String → Bool
may_read false f = not (is_some (forbidden f))
may_read true f = (not (is_some (forbidden f)) || str_eq f "name") || str_eq f "summary"

-- Each field that an expression reads may be read where it stands.
abbrev mutual
  pub ReadsAllowed : {F : Type 0} → Bool → Expr F → Type 0
  ReadsAllowed inside (Expr.compare f c v) = may_read inside f ≡ true
  ReadsAllowed inside (Expr.has_any f vs) = may_read inside f ≡ true
  ReadsAllowed inside (Expr.has_all f vs) = may_read inside f ≡ true
  ReadsAllowed inside (Expr.in_values f vs) = may_read inside f ≡ true
  ReadsAllowed inside (Expr.is f v) = may_read inside f ≡ true
  ReadsAllowed inside (Expr.ask q) = Unit
  ReadsAllowed inside (Expr.aggregate fn r none w c x) = ReadsAllowedWhere w
  ReadsAllowed inside (Expr.aggregate fn r (some f) w c x) =
      (may_read true f ≡ true) × ReadsAllowedWhere w
  ReadsAllowed inside (Expr.not e) = ReadsAllowed inside e
  ReadsAllowed inside (Expr.and es) = ReadsAllowedArgs inside es
  ReadsAllowed inside (Expr.or es) = ReadsAllowedArgs inside es
  ReadsAllowed inside (Expr.any_record r e) = ReadsAllowed true e

  pub ReadsAllowedArgs : {F : Type 0} → Bool → Args F → Type 0
  ReadsAllowedArgs inside nil = Unit
  ReadsAllowedArgs inside (cons e es) = ReadsAllowed inside e × ReadsAllowedArgs inside es

  pub ReadsAllowedWhere : {F : Type 0} → Where F → Type 0
  ReadsAllowedWhere no_where = Unit
  ReadsAllowedWhere (only e) = ReadsAllowed true e

lookup-all :
    {V : Type 0} (p : V → Bool) (k : String) (v : V) (table : List (String × V))
    → all (λ kv. p kv.1) table ≡ true
    → lookup k table ≡ some v
    → p v ≡ true
lookup-all p k v [] h eq = ground (arith, eq)
lookup-all p k v ((j, w) ∷ table) h eq = grind (arith, h, eq, lookup-all p k v table)

Holds-map :
    {A : Type 0} {P Q : A → Type 0} {r : Parsed A} → ((a : A) → P a → Q a) → Holds P r → Holds Q r
Holds-map k (holds a h) = holds a (k a h)
Holds-map k (Holds.refused e) = Holds.refused e

module _ {F : Type 0} ⦃fl : FloatOps F⦄ where
  abbrev field_ok : {S : Type 0} → Bool → FieldSpec F S → Bool
  field_ok inside spec = may_read inside spec.name

  abbrev record_ok : RecordSpec F → Bool
  record_ok rec = all (λ kv. field_ok true kv.1) rec.fields

  abbrev scope_ok : Option (RecordSpec F) → Bool
  scope_ok none = true
  scope_ok (some rec) = record_ok rec

  abbrev inside_of : Option (RecordSpec F) → Bool
  inside_of none = false
  inside_of (some rec) = true

module _ (F : Type 0) ⦃fl : FloatOps F⦄ where
  fields-ok : all (λ kv. field_ok false kv.1) (fields {F = F}) ≡ true
  unfolding forbidden lower fields
  fields-ok = refl

  records-ok : all (λ kv. record_ok kv.1) (records {F = F}) ≡ true
  unfolding forbidden lower records skill_record role_record qualification_record project_record
  records-ok = refl

module _ {F : Type 0} ⦃fl : FloatOps F⦄ where
  resolve_record-ok :
      (name : String) (rec : RecordSpec F) → resolve_record name ≡ some rec → record_ok rec ≡ true
  unfolding resolve_record
  resolve_record-ok name rec eq =
      lookup-all record_ok (or_default (lookup (lower name) record_aliases) (lower name)) rec
        records (records-ok F) eq

  found-ok :
      {S : Type 0} {col : Column} (inside : Bool) (name : String) (p : Position)
      (o : Option (FieldSpec F S))
      → ((spec : FieldSpec F S) → o ≡ some spec → field_ok inside spec ≡ true)
      → elim o as (λ _. Parsed Column) [ none ↦ name_error name p | some spec ↦ ok (column spec) ]
        ≡ ok col
      → may_read inside col.name ≡ true
  unfolding name_error
  found-ok inside name p none h eq = ground (arith, eq)
  found-ok inside name p (some spec) h eq = ap (may_read inside) (ap name_of (sym eq)) ∙ h spec refl
    where
      name_of : Parsed Column → String
      name_of = elim [ ok c ↦ c.name | failed e ↦ "" | out_of_fuel ↦ "" ]

  column-ok :
      (scope : Option (RecordSpec F)) (col : Column)
      → scope_ok scope ≡ true
      → InScope scope col
      → may_read (inside_of scope) col.name ≡ true
  unfolding resolve resolve_field
  column-ok none col h (name, p, eq) =
      found-ok false name p (resolve_field name)
        (λ spec e.
          lookup-all (field_ok false) (or_default (lookup (lower name) aliases) (lower name)) spec
            fields (fields-ok F) e)
        eq
  column-ok (some rec) col h (name, p, eq) =
      found-ok true name p (lookup (lower name) rec.fields)
        (λ spec e. lookup-all (field_ok true) (lower name) spec rec.fields h e) eq

  field-ok :
      (scope : Option (RecordSpec F)) (f : String) (o : Operator) (fits : Column → Bool)
      → scope_ok scope ≡ true
      → FieldWith scope f o fits
      → may_read (inside_of scope) f ≡ true
  field-ok scope f o fits h (col, inside, named, _, _) =
      ap (may_read (inside_of scope)) (sym named) ∙ column-ok scope col h inside

  numeric-allowed :
      (fn : AggregateFunc) (rec : RecordSpec F) (f : String)
      → record_ok rec ≡ true
      → FieldFits rec fn (some f)
      → may_read true f ≡ true
  numeric-allowed AggregateFunc.count rec f h fits = elim fits [ ]
  numeric-allowed _ rec f h (col, inside, named, _) =
      ap (may_read true) (sym named) ∙ column-ok (some rec) col h inside

  mutual
    Typed-allowed :
        (scope : Option (RecordSpec F)) (e : Expr F)
        → scope_ok scope ≡ true
        → Typed scope e
        → ReadsAllowed (inside_of scope) e
    Typed-allowed scope (Expr.compare f c v) h t = field-ok scope f _ _ h t
    Typed-allowed scope (Expr.has_any f vs) h t = field-ok scope f _ _ h t
    Typed-allowed scope (Expr.has_all f vs) h t = field-ok scope f _ _ h t
    Typed-allowed scope (Expr.in_values f vs) h t = field-ok scope f _ _ h t
    Typed-allowed scope (Expr.is f v) h t = field-ok scope f _ _ h t
    Typed-allowed scope (Expr.ask q) h t = tt
    Typed-allowed scope (Expr.aggregate fn r none w c x) h (top, (rec, (n, eq, _), fits, t)) =
        where-allowed rec w (resolve_record-ok n rec eq) t
    Typed-allowed scope (Expr.aggregate fn r (some f) w c x) h (top, (rec, (n, eq, _), fits, t)) = (
      numeric-allowed fn rec f (resolve_record-ok n rec eq) fits,
      where-allowed rec w (resolve_record-ok n rec eq) t,
    )
    Typed-allowed scope (Expr.not e) h t = Typed-allowed scope e h t
    Typed-allowed scope (Expr.and es) h t = args-allowed scope es h t
    Typed-allowed scope (Expr.or es) h t = args-allowed scope es h t
    Typed-allowed scope (Expr.any_record r e) h (top, (rec, (n, eq, _), t)) =
        Typed-allowed (some rec) e (resolve_record-ok n rec eq) t

    args-allowed :
        (scope : Option (RecordSpec F)) (es : Args F)
        → scope_ok scope ≡ true
        → TypedArgs scope es
        → ReadsAllowedArgs (inside_of scope) es
    args-allowed scope nil h t = tt
    args-allowed scope (cons e es) h (t, ts) =
        (Typed-allowed scope e h t, args-allowed scope es h ts)

    where-allowed :
        (rec : RecordSpec F) (w : Where F)
        → record_ok rec ≡ true
        → TypedWhere rec w
        → ReadsAllowedWhere w
    where-allowed rec no_where h t = tt
    where-allowed rec (only e) h t = Typed-allowed (some rec) e h t

  pub clauses-allowed :
      (cs : Program F) → All TypedClause cs → All (λ c. ReadsAllowed false (Clause.expr c)) cs
  clauses-allowed [] h = tt
  clauses-allowed (c ∷ cs) ((t, _), hs) = (Typed-allowed none c.expr refl t, clauses-allowed cs hs)

  -- Whatever tokens a rule program is made of, its parse ends, and if clauses come out, none reads
  -- a forbidden identifier; inside a WHERE, `name` and `summary` are those of the entry and are
  -- allowed.
  pub parse_program-allowed :
      (end : Position) (ts : List (Token F))
      → Holds (All λ c. ReadsAllowed false (Clause.expr c)) (parse_program end ts)
  parse_program-allowed end ts =
      Holds-map (λ cs (_, h). clauses-allowed cs h) (parse_program-TypedClause end ts)

  -- Whatever tokens a query is made of, its parse ends, and if an expression comes out, it reads no
  -- forbidden identifier; inside a WHERE, `name` and `summary` are those of the entry and are
  -- allowed.
  pub parse_expr-allowed :
      (end : Position) (ts : List (Token F)) → Holds (ReadsAllowed false) (parse_expr end ts)
  parse_expr-allowed end ts =
      Holds-map (λ e h. Typed-allowed none e refl h) (parse_expr-Typed end ts)
