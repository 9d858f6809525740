-- ===== src/Dsl/Eval/Leaf.antt =====
-- rescan/dsl/eval.py: the leaves. What `_read` answers is a `Datum`, whose constructor is the kind
-- of the field; so the branches on `spec.kind` are clauses, and a number field always holds a
-- number.
pub mod Compare
pub mod Has
pub mod Is
use rescan.Prelude.{
  String, Bool, true, false, not, ◌&&◌, ◌||◌, Option, none, some, List, [], ◌∷◌, if◌then◌else◌, leb,
  ◌-◌, filter, any, length, take, is_some,
}
use rescan.Prelude.Float.{FloatOps}
use rescan.Prelude.Text.{
  str_eq, lower, strip, capitalize, upper_first, contains, concat, join, chars, show_nat, member,
  is_empty,
}
use rescan.Prelude.Result.{Result, ok, err, PyError, bind}
use rescan.Schemas.{WorkRights}
use rescan.Dsl.Ast.{Comparator, Value, IsValue, flag, word}
use rescan.Dsl.Fields.Spec.{Reader, FieldSpec, RecordSpec}
use rescan.Dsl.Fields.Readers.{work_rights_pseudo}
use rescan.Dsl.Verdict.{Verdict, Observed}

abbrev pub manual_review : String
manual_review = "Sent to manual review rather than excluded."

pub data Datum (F : Type 0) : Type 0 where
  number : F → Datum F
  text : String → Datum F
  enum : String → Datum F
  bool : Bool → Datum F
  list : List String → Datum F

-- What a leaf has at hand: its field, what the field reads, the record whose entry is the subject,
-- and the work rights, if the subject is a whole profile.
pub record Reading (F : Type 0) : Type 0 where
  pub name : String
  pub label : String
  pub phrasing : Option ((F → String) × (F → String))
  pub observed : Option (Datum F)
  pub within : Option (RecordSpec F)
  pub rights : Option WorkRights

abbrev some_list : {F : Type 0} → List String → Option (Datum F)
some_list [] = none
some_list (x ∷ xs) = some (Datum.list (x ∷ xs))

-- `_read`
abbrev pub read_datum : {F S : Type 0} → Reader F S → S → Option (Datum F)
read_datum (Reader.number f) s = elim (f s) [ none ↦ none | some x ↦ some (Datum.number x) ]
read_datum (Reader.text f) s = elim (f s) [ none ↦ none | some x ↦ some (Datum.text x) ]
read_datum (Reader.enum vs f) s = elim (f s) [ none ↦ none | some x ↦ some (Datum.enum x) ]
read_datum (Reader.bool f) s = elim (f s) [ none ↦ none | some x ↦ some (Datum.bool x) ]
read_datum (Reader.list f) s = elim (f s) [ none ↦ none | some xs ↦ some_list xs ]

unfoldable pub reading :
    {F S : Type 0} → FieldSpec F S → S → Option (RecordSpec F) → Option WorkRights → Reading F
reading spec s within rights = record {
  name = spec.name;
  label = spec.label;
  phrasing = spec.phrasing;
  observed = read_datum spec.reader s;
  within = within;
  rights = rights;
}

-- `_matches`: loose containment
unfoldable pub matches : String → List String → Bool
matches required held =
    let needle = lower (strip required) in
    if is_empty needle
    then false
    else any (λ item. contains needle (lower item) || contains (lower item) needle) held

unfoldable pub describe_list : List String → String
describe_list [] = "none listed"
describe_list (v ∷ vs) =
    let shown = join ", " (take 6 (v ∷ vs)) in
    if leb (length (v ∷ vs)) 6
    then shown
    else concat (shown ∷ " (+" ∷ show_nat (length (v ∷ vs) - 6) ∷ " more)" ∷ [])

abbrev pub passes_has : Bool → List String → List String → Bool
passes_has true matched missing = leb (length missing) 0
passes_has false matched missing = leb 1 (length matched)

-- bool(node.value) and str(node.value)
abbrev is_true : IsValue → Bool
is_true (flag b) = b
is_true (word s) = not (is_empty s)

abbrev is_str : IsValue → String
is_str (flag true) = "True"
is_str (flag false) = "False"
is_str (word s) = s

abbrev pub comparator_words : Comparator → String
comparator_words Comparator.ge = "at least"
comparator_words Comparator.le = "no more than"
comparator_words Comparator.gt = "more than"
comparator_words Comparator.lt = "fewer than"
comparator_words Comparator.eq = "exactly"
comparator_words Comparator.ne = "anything other than"

abbrev pub is_eq_cmp : Comparator → Bool
is_eq_cmp Comparator.eq = true
is_eq_cmp _ = false

abbrev pub verb : Bool → String
verb true = "meets"
verb false = "does not meet"

abbrev pub do_or_not : Bool → String
do_or_not true = "do"
do_or_not false = "do not"

abbrev pub does_or_not : Bool → String
does_or_not true = "does"
does_or_not false = "does not"

abbrev pub not_word : Bool → String
not_word true = ""
not_word false = "not "

abbrev pub same : Bool → Bool → Bool
same true b = b
same false b = not b

abbrev pub verdict : {F : Type 0} → Option Bool → String → Observed F → Verdict F
verdict v r o = record { value = v; reason = r; observed = o }

-- `_unknown`
unfoldable pub unknown_verdict : {F : Type 0} → Reading F → Verdict F
unknown_verdict r = elim r.within [
  | some rec ↦
      verdict none (concat (r.label ∷ " is not stated for this " ∷ rec.name ∷ [])) Observed.nothing
  | none ↦
      verdict none
        (concat (
          "The resume does not state " ∷ r.label ∷ ", so this rule could not be applied. "
          ∷ manual_review ∷ []))
        Observed.nothing
]

-- `_work_rights_unrestricted`, on `profile.work_rights`
unfoldable pub unrestricted_verdict : {F : Type 0} → Option WorkRights → Bool → Result (Verdict F)
unrestricted_verdict none expected = err PyError.attribute_error
unrestricted_verdict (some w) expected = elim w.unrestricted [
  | none ↦ ok (
      verdict none
        (concat (
          "The resume does not state whether work rights are unrestricted, so this rule could not be applied. "
          ∷ manual_review ∷ []))
        Observed.nothing)
  | some b ↦ ok (
      verdict (some (same b expected))
        (concat (
          "Candidate "
          ∷ does_or_not b
          ∷ " have unrestricted work rights; the rule requires that they "
          ∷ do_or_not expected
          ∷ "."
          ∷ []))
        (Observed.flag b))
]

module _ {F : Type 0} ⦃fl : FloatOps F⦄ where
  unfoldable pub compare_numbers : F → Comparator → F → Bool
  compare_numbers x Comparator.ge y = fl.le y x
  compare_numbers x Comparator.le y = fl.le x y
  compare_numbers x Comparator.gt y = fl.lt y x
  compare_numbers x Comparator.lt y = fl.lt x y
  compare_numbers x Comparator.eq y = fl.eq x y
  compare_numbers x Comparator.ne y = not (fl.eq x y)

  -- str(observed)
  abbrev pub py_str : Datum F → String
  py_str (Datum.number x) = fl.show x
  py_str (Datum.text s) = s
  py_str (Datum.enum s) = s
  py_str (Datum.bool true) = "True"
  py_str (Datum.bool false) = "False"
  py_str (Datum.list vs) = concat ("['" ∷ join "', '" vs ∷ "']" ∷ [])

  abbrev pub observe : Datum F → Observed F
  observe (Datum.number x) = Observed.number x
  observe (Datum.text s) = Observed.text s
  observe (Datum.enum s) = Observed.text s
  observe (Datum.bool b) = Observed.flag b
  observe (Datum.list vs) = Observed.texts vs

  -- float(node.value) and str(node.value)
  abbrev to_float : Value F → Result F
  to_float (Value.number x) = ok x
  to_float (Value.text s) = elim (fl.of_text s) [ none ↦ err PyError.value_error | some x ↦ ok x ]

  abbrev to_str : Value F → String
  to_str (Value.number x) = fl.show x
  to_str (Value.text s) = s
