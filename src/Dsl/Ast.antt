-- ===== src/Dsl/Ast.antt =====
-- rescan/dsl/ast.py: the syntax tree of the rule language, its canonical text and the walks over
-- it. `F` is the type of floats. The children prove what the walks find.
use Prim.Native.String.{◌++◌ as ◌^◌}
use rescan.Prelude.{
  String, Bool, true, false, Option, none, some, List, [], ◌∷◌, ◌++◌, if◌then◌else◌, any, ◌==◌,
}
use rescan.Prelude.Text.{str_eq, concat, join, is_empty, member}
use rescan.Prelude.Float.{FloatOps}
pub mod Asks
pub mod Ambiguous
use Prim.Native.Char.{Char, code}

pub data Comparator : Type 0 where
  ge le gt lt eq ne : Comparator

pub data AggregateFunc : Type 0 where
  count sum max min avg : AggregateFunc

-- `float | str`, the value of a comparison
pub data Value (F : Type 0) : Type 0 where
  number : F → Value F
  text : String → Value F

-- `bool | str`, the value of IS
pub data IsValue : Type 0 where
  flag : Bool → IsValue
  word : String → IsValue

mutual
  pub data Expr (F : Type 0) : Type 0 where
    compare : String → Comparator → Value F → Expr F
    has_any : String → List String → Expr F
    has_all : String → List String → Expr F
    in_values : String → List String → Expr F
    is : String → IsValue → Expr F
    ask : String → Expr F
    aggregate : AggregateFunc → String → Option String → Where F → Comparator → F → Expr F
    not : Expr F → Expr F
    and : Args F → Expr F
    or : Args F → Expr F
    any_record : String → Expr F → Expr F

  -- `list[Expr]`
  pub data Args (F : Type 0) : Type 0 where
    nil : Args F
    cons : Expr F → Args F → Args F

  -- `Expr | None`
  pub data Where (F : Type 0) : Type 0 where
    no_where : Where F
    only : Expr F → Where F

pub data ClauseKind : Type 0 where
  require prefer : ClauseKind

pub record Clause (F : Type 0) : Type 0 where
  pub kind : ClauseKind
  pub expr : Expr F
  pub weight : F
  pub because : Option String

abbrev pub Program : Type 0 → Type 0
Program F = List (Clause F)

-- `c` is itself the character that gets a backslash
abbrev pub escape_char : Char → String → String
escape_char c rest =
    if code c == b'\\'
    then String.◌∷◌ c (String.◌∷◌ c rest)
    else if code c == b'"'
    then String.◌∷◌ "\\" (String.◌∷◌ c rest)
    else String.◌∷◌ c rest

-- text.replace("\\", "\\\\").replace('"', '\\"'): each backslash and each quote gets a backslash
unfoldable pub escape : String → String
escape String.[] = ""
escape (String.◌∷◌ c s) = escape_char c (escape s)

unfoldable pub quote : String → String
unfolding escape
quote s = "\"" ^ (escape s ^ "\"")

abbrev pub cmp_text : Comparator → String
cmp_text Comparator.ge = ">="
cmp_text Comparator.le = "<="
cmp_text Comparator.gt = ">"
cmp_text Comparator.lt = "<"
cmp_text Comparator.eq = "="
cmp_text Comparator.ne = "!="

abbrev pub func_upper : AggregateFunc → String
func_upper AggregateFunc.count = "COUNT"
func_upper AggregateFunc.sum = "SUM"
func_upper AggregateFunc.max = "MAX"
func_upper AggregateFunc.min = "MIN"
func_upper AggregateFunc.avg = "AVG"

abbrev pub func_text : AggregateFunc → String
func_text AggregateFunc.count = "count"
func_text AggregateFunc.sum = "sum"
func_text AggregateFunc.max = "max"
func_text AggregateFunc.min = "min"
func_text AggregateFunc.avg = "avg"

unfoldable pub quoted : List String → String
unfolding quote
quoted vs = join ", " (go vs)
  where
    go : List String → List String
    go = elim [ [] ↦ [] | v ∷ (rest → ih) ↦ quote v ∷ ih ]

abbrev pub is_and_or : {F : Type 0} → Expr F → Bool
is_and_or (Expr.and _) = true
is_and_or (Expr.or _) = true
is_and_or _ = false

abbrev pub is_or : {F : Type 0} → Expr F → Bool
is_or (Expr.or _) = true
is_or _ = false

abbrev pub parens : Bool → String → String
parens b s = if b then "(" ^ (s ^ ")") else s

abbrev pub is_text : IsValue → String
is_text (flag true) = "TRUE"
is_text (flag false) = "FALSE"
is_text (word s) = s

module _ {F : Type 0} ⦃fl : FloatOps F⦄ where
  abbrev pub render : Value F → String
  render (Value.number x) = fl.show_g x
  render (Value.text s) = quote s

abbrev pub aggregate_target : String → Option String → String
aggregate_target r none = r
aggregate_target r (some f) = concat (r ∷ "." ∷ f ∷ [])

unfoldable mutual
  pub to_dsl : {F : Type 0} ⦃fl : FloatOps F⦄ → Expr F → String
  to_dsl (Expr.compare f c v) = concat (f ∷ " " ∷ cmp_text c ∷ " " ∷ render v ∷ [])
  to_dsl (Expr.has_any f vs) = concat (f ∷ " HAS ANY (" ∷ quoted vs ∷ ")" ∷ [])
  to_dsl (Expr.has_all f vs) = concat (f ∷ " HAS ALL (" ∷ quoted vs ∷ ")" ∷ [])
  to_dsl (Expr.in_values f vs) = concat (f ∷ " IN (" ∷ quoted vs ∷ ")" ∷ [])
  to_dsl (Expr.is f v) = concat (f ∷ " IS " ∷ is_text v ∷ [])
  to_dsl (Expr.ask q) = "ASK " ^ quote q
  to_dsl ⦃fl⦄ (Expr.aggregate fn r f w c x) = concat (
      func_upper fn
      ∷ "("
      ∷ aggregate_target r f
      ∷ where_dsl w
      ∷ ")"
      ∷ " "
      ∷ cmp_text c
      ∷ " "
      ∷ fl.show_g x
      ∷ [])
  to_dsl (Expr.not e) = "NOT " ^ parens (is_and_or e) (to_dsl e)
  to_dsl (Expr.and es) = join " AND " (and_dsl es)
  to_dsl (Expr.or es) = join " OR " (or_dsl es)
  to_dsl (Expr.any_record r e) = concat ("ANY " ∷ r ∷ " WHERE " ∷ to_dsl e ∷ [])

  pub where_dsl : {F : Type 0} ⦃fl : FloatOps F⦄ → Where F → String
  where_dsl no_where = ""
  where_dsl (only e) = " WHERE " ^ to_dsl e

  pub and_dsl : {F : Type 0} ⦃fl : FloatOps F⦄ → Args F → List String
  and_dsl nil = []
  and_dsl (cons e es) = parens (is_or e) (to_dsl e) ∷ and_dsl es

  pub or_dsl : {F : Type 0} ⦃fl : FloatOps F⦄ → Args F → List String
  or_dsl nil = []
  or_dsl (cons e es) = to_dsl e ∷ or_dsl es

-- The text of an aggregate before its comparison.
unfoldable pub subject :
    {F : Type 0} ⦃fl : FloatOps F⦄ → AggregateFunc → String → Option String → Where F → String
unfolding to_dsl
subject fn r f w = concat (func_upper fn ∷ "(" ∷ aggregate_target r f ∷ where_dsl w ∷ ")" ∷ [])

unfoldable mutual
  pub iter_nodes : {F : Type 0} → Expr F → List (Expr F)
  iter_nodes (Expr.not e) = Expr.not e ∷ iter_nodes e
  iter_nodes (Expr.and es) = Expr.and es ∷ iter_args es
  iter_nodes (Expr.or es) = Expr.or es ∷ iter_args es
  iter_nodes (Expr.any_record r e) = Expr.any_record r e ∷ iter_nodes e
  iter_nodes (Expr.aggregate fn r f w c x) = Expr.aggregate fn r f w c x ∷ iter_where w
  iter_nodes e = e ∷ []

  pub iter_args : {F : Type 0} → Args F → List (Expr F)
  iter_args nil = []
  iter_args (cons e es) = iter_nodes e ++ iter_args es

  pub iter_where : {F : Type 0} → Where F → List (Expr F)
  iter_where no_where = []
  iter_where (only e) = iter_nodes e

abbrev pub node_literals : {F : Type 0} → Expr F → List String
node_literals (Expr.compare f c (Value.text s)) = s ∷ []
node_literals (Expr.has_any f vs) = vs
node_literals (Expr.has_all f vs) = vs
node_literals (Expr.in_values f vs) = vs
node_literals (Expr.is f (word s)) = s ∷ []
node_literals (Expr.ask q) = q ∷ []
node_literals _ = []

abbrev pub flat_literals : {F : Type 0} → List (Expr F) → List String
flat_literals [] = []
flat_literals (e ∷ es) = node_literals e ++ flat_literals es

unfoldable pub string_literals : {F : Type 0} → Expr F → List String
unfolding iter_nodes
string_literals e = flat_literals (iter_nodes e)

abbrev pub is_ask : {F : Type 0} → Expr F → Bool
is_ask (Expr.ask _) = true
is_ask _ = false

unfoldable pub has_ask : {F : Type 0} → Expr F → Bool
unfolding iter_nodes
has_ask e = any is_ask (iter_nodes e)

-- `if name not in seen: seen.append(name)`
abbrev pub note_field : String → List String → List String
note_field name seen = if member name seen then seen else seen ++ name ∷ []

abbrev pub aggregate_name : AggregateFunc → String → Option String → String
aggregate_name fn r none = concat (func_text fn ∷ "(" ∷ r ∷ ")" ∷ [])
aggregate_name fn r (some f) =
    if is_empty f
    then concat (func_text fn ∷ "(" ∷ r ∷ ")" ∷ [])
    else concat (func_text fn ∷ "(" ∷ r ∷ "." ∷ f ∷ ")" ∷ [])

-- `visit(node, prefix)`, with the list `seen` before and after
unfoldable mutual
  pub visit : {F : Type 0} → Expr F → String → List String → List String
  visit (Expr.compare f c v) pre seen = note_field (pre ^ f) seen
  visit (Expr.has_any f vs) pre seen = note_field (pre ^ f) seen
  visit (Expr.has_all f vs) pre seen = note_field (pre ^ f) seen
  visit (Expr.in_values f vs) pre seen = note_field (pre ^ f) seen
  visit (Expr.is f v) pre seen = note_field (pre ^ f) seen
  visit (Expr.ask q) pre seen = note_field "model_check" seen
  visit (Expr.not e) pre seen = visit e pre seen
  visit (Expr.and es) pre seen = visit_args es pre seen
  visit (Expr.or es) pre seen = visit_args es pre seen
  visit (Expr.any_record r e) pre seen = visit e (r ^ ".") seen
  visit (Expr.aggregate fn r f w c x) pre seen =
      visit_where w (r ^ ".") (note_field (aggregate_name fn r f) seen)

  pub visit_args : {F : Type 0} → Args F → String → List String → List String
  visit_args nil pre seen = seen
  visit_args (cons e es) pre seen = visit_args es pre (visit e pre seen)

  pub visit_where : {F : Type 0} → Where F → String → List String → List String
  visit_where no_where pre seen = seen
  visit_where (only e) pre seen = visit e pre seen

unfoldable pub fields_used : {F : Type 0} → Expr F → List String
unfolding visit
fields_used e = visit e "" []

abbrev kind_upper : ClauseKind → String
kind_upper ClauseKind.require = "REQUIRE"
kind_upper ClauseKind.prefer = "PREFER"

abbrev weight_dsl : {F : Type 0} ⦃fl : FloatOps F⦄ → ClauseKind → F → String
weight_dsl ClauseKind.require w = ""
weight_dsl ⦃fl⦄ ClauseKind.prefer w = if fl.eq w (fl.of_nat 1) then "" else " WEIGHT " ^ fl.show_g w

abbrev because_dsl : Option String → String
because_dsl none = ""
because_dsl (some b) = if is_empty b then "" else " BECAUSE " ^ quote b

-- `Clause.to_dsl`
unfoldable pub clause_dsl : {F : Type 0} ⦃fl : FloatOps F⦄ → Clause F → String
clause_dsl c = concat (
    kind_upper c.kind
    ∷ " "
    ∷ to_dsl c.expr
    ∷ weight_dsl c.kind c.weight
    ∷ because_dsl c.because
    ∷ [])
