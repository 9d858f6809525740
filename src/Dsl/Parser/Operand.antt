-- ===== src/Dsl/Parser/Operand.antt =====
-- rescan/dsl/parser.py: names, operators, values and comparisons.
use Prim.Native.Char.{Char, code}
use rescan.Prelude.{
  String, Bool, true, false, ◌||◌, Option, none, some, List, [], ◌∷◌, if◌then◌else◌, ◌==◌,
}
use rescan.Prelude.Float.{FloatOps}
use rescan.Prelude.Text.{lower, strip, is_empty, map_chars, member, lookup}
use rescan.Dsl.Ast.{Comparator, Expr, Value, IsValue, flag, word}
use rescan.Dsl.Fields.Spec.{Kind, FieldSpec, RecordSpec, kind_of, enum_values}
use rescan.Dsl.Fields.Names.{resolve_field, forbidden}
use rescan.Dsl.Parser.Token.{
  Keyword, Symbol, token, Position, ErrorKind, Parsed, ok, failed, out_of_fuel, then_do, Parser,
  ◌>>=◌, give, error, unexpected, here, expect_lparen, expect_rparen, expect_string, expect_number,
}

pub data Operator : Type 0 where
  cmp : Comparator → Operator
  has_any has_all in_values is : Operator

-- `_KIND_OPERATORS`
unfoldable pub allowed : Kind → Operator → Bool
allowed Kind.number (Operator.cmp c) = true
allowed Kind.text (Operator.cmp Comparator.eq) = true
allowed Kind.text (Operator.cmp Comparator.ne) = true
allowed Kind.text Operator.has_any = true
allowed Kind.text Operator.has_all = true
allowed Kind.enum (Operator.cmp Comparator.eq) = true
allowed Kind.enum (Operator.cmp Comparator.ne) = true
allowed Kind.enum Operator.in_values = true
allowed Kind.enum Operator.is = true
allowed Kind.bool Operator.is = true
allowed Kind.list Operator.has_any = true
allowed Kind.list Operator.has_all = true
allowed _ _ = false

-- What the parser needs of a field: its name, its kind and its values.
pub record Column : Type 0 where
  pub name : String
  pub kind : Kind
  pub values : List String

abbrev pub column : {F S : Type 0} → FieldSpec F S → Column
column spec = record {
  name = spec.name;
  kind = kind_of spec.reader;
  values = enum_values spec.reader;
}

-- raw.strip().lower().replace(" ", "_").replace("-", "_")
abbrev underscore : Char → Char
underscore c = if code c == 32 || code c == 45 then "_" else c

unfoldable pub normal_value : String → String
normal_value raw = map_chars underscore (lower (strip raw))

-- An unknown name is an error of its own, and carries the legal basis where it is forbidden.
unfoldable pub name_error : {A : Type 0} → String → Position → Parsed A
name_error name p = error (ErrorKind.field (forbidden name)) p

-- `_resolve`, in the fields of a record or among the named fields
unfoldable pub resolve :
    {F : Type 0} ⦃fl : FloatOps F⦄ → Option (RecordSpec F) → String → Position → Parsed Column
resolve (some rec) name p = elim (lookup (lower name) rec.fields) [
  | none ↦ name_error name p
  | some spec ↦ ok (column spec)
]
resolve {F = F} none name p = elim (resolve_field {F = F} name) [
  | none ↦ name_error name p
  | some spec ↦ ok (column spec)
]

-- `_enum_value`
unfoldable pub enum_value : Column → String → Position → Parsed String
enum_value col raw p =
    if member (normal_value raw) col.values then ok (normal_value raw) else error ErrorKind.type p

unfoldable pub enum_list : Column → List String → Position → Parsed (List String)
unfolding enum_value
enum_list col [] p = ok []
enum_list col (v ∷ vs) p = elim (enum_value col v p) [
  | ok w ↦ elim (enum_list col vs p) [
    | ok ws ↦ ok (w ∷ ws)
    | failed e ↦ failed e
    | out_of_fuel ↦ out_of_fuel
  ]
  | failed e ↦ failed e
  | out_of_fuel ↦ out_of_fuel
]

module _ {F : Type 0} (end : Position) where
  -- the loop of `_string_list`, after the opening parenthesis
  unfoldable pub string_values : Parser F (List String)
  string_values (token (Symbol.string s) p ∷ token Symbol.comma q ∷ ts) =
      if is_empty (strip s)
      then error ErrorKind.syntax p
      else then_do (string_values ts) λ (vs, rest). ok (strip s ∷ vs, rest)
  string_values (token (Symbol.string s) p ∷ ts) =
      if is_empty (strip s) then error ErrorKind.syntax p else ok (strip s ∷ [], ts)
  string_values ts = unexpected end ts

  unfoldable pub string_list : Parser F (List String)
  unfolding expect_lparen string_values expect_rparen
  string_list =
      expect_lparen end >>= λ _. string_values >>= λ vs. expect_rparen end >>= λ _. give vs

  -- `_check_operator`
  abbrev pub check : Column → Operator → Position → {A : Type 0} → Parser F A → Parser F A
  check col o p next ts = if allowed col.kind o then next ts else error ErrorKind.type p

  abbrev pub lift_parsed : {A : Type 0} → Parsed A → Parser F A
  lift_parsed (ok a) ts = ok (a, ts)
  lift_parsed (failed e) ts = failed e
  lift_parsed out_of_fuel ts = out_of_fuel

  -- the text of an enum's value after `=` or `!=`
  unfoldable pub enum_word : Parser F String
  enum_word (token (Symbol.ident s) p ∷ ts) = ok (s, ts)
  enum_word (token (Symbol.keyword Keyword.true_word) p ∷ ts) = ok ("true", ts)
  enum_word (token (Symbol.keyword Keyword.false_word) p ∷ ts) = ok ("false", ts)
  enum_word (token (Symbol.string s) p ∷ ts) = ok (s, ts)
  enum_word ts = unexpected end ts

  -- the value after a comparison, by the field's kind
  unfoldable pub compare_value : Column → Kind → Parser F (Value F)
  unfolding expect_number expect_string enum_word
  compare_value col Kind.number ts = (expect_number end >>= λ x. give (Value.number x)) ts
  compare_value col Kind.enum ts =
      (enum_word >>= λ raw.
      lift_parsed (enum_value col raw (here end ts)) >>= λ v. give (Value.text v))
        ts
  compare_value col _ ts = (expect_string end >>= λ s. give (Value.text s)) ts

  -- the value after IS, of a field that is not bool
  unfoldable pub is_text : Parser F String
  is_text (token (Symbol.ident s) p ∷ ts) = ok (s, ts)
  is_text (token (Symbol.string s) p ∷ ts) = ok (s, ts)
  is_text ts = unexpected end ts

  unfoldable pub is_flag : Parser F Bool
  is_flag (token (Symbol.keyword Keyword.true_word) p ∷ ts) = ok (true, ts)
  is_flag (token (Symbol.keyword Keyword.false_word) p ∷ ts) = ok (false, ts)
  is_flag ts = unexpected end ts

  unfoldable pub is_operand : Column → Kind → Parser F IsValue
  unfolding is_flag is_text
  is_operand col Kind.bool ts = (is_flag >>= λ b. give (flag b)) ts
  is_operand col _ ts =
      (is_text >>= λ raw. lift_parsed (enum_value col raw (here end ts)) >>= λ v. give (word v)) ts

  -- `comparison`, after the field
  unfoldable pub operation : Column → Parser F (Expr F)
  unfolding string_list enum_list compare_value is_operand
  operation col (token (Symbol.op c) p ∷ ts) =
      check col (Operator.cmp c) p
        (compare_value col col.kind >>= λ v. give (Expr.compare col.name c v)) ts
  operation col (token (Symbol.keyword Keyword.has) p ∷ token (Symbol.keyword Keyword.any) q ∷ ts) =
      check col Operator.has_any p (string_list >>= λ vs. give (Expr.has_any col.name vs)) ts
  operation col (token (Symbol.keyword Keyword.has) p ∷ token (Symbol.keyword Keyword.all) q ∷ ts) =
      check col Operator.has_all p (string_list >>= λ vs. give (Expr.has_all col.name vs)) ts
  operation col (token (Symbol.keyword Keyword.has) p ∷ ts) = unexpected end ts
  operation col (token (Symbol.keyword Keyword.in_word) p ∷ ts) =
      check col Operator.in_values p
        (string_list >>= λ vs.
          lift_parsed (enum_list col vs p) >>= λ ws. give (Expr.in_values col.name ws))
        ts
  operation col (token (Symbol.keyword Keyword.is) p ∷ ts) =
      check col Operator.is p (is_operand col col.kind >>= λ v. give (Expr.is col.name v)) ts
  operation col ts = unexpected end ts

module _ {F : Type 0} ⦃fl : FloatOps F⦄ (end : Position) where
  -- `comparison`: the current token is the field's identifier
  unfoldable pub comparison : Option (RecordSpec F) → String → Position → Parser F (Expr F)
  unfolding resolve operation
  comparison scope name p ts = elim (resolve scope name p) [
    | ok col ↦ operation end col ts
    | failed e ↦ failed e
    | out_of_fuel ↦ out_of_fuel
  ]
