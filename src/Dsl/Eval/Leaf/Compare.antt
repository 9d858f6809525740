-- ===== src/Dsl/Eval/Leaf/Compare.antt =====
-- rescan/dsl/eval.py: `_leaf_compare`.
use rescan.Prelude.{String, not, ◌&&◌, Option, none, some, [], ◌∷◌, if◌then◌else◌, is_some}
use rescan.Prelude.Float.{FloatOps}
use rescan.Prelude.Text.{str_eq, capitalize, upper_first, concat}
use rescan.Prelude.Result.{Result, ok, bind}
use rescan.Dsl.Ast.{Comparator, Value}
use rescan.Dsl.Fields.Spec.{RecordSpec}
use rescan.Dsl.Fields.Readers.{work_rights_pseudo}
use rescan.Dsl.Verdict.{Verdict, Observed}
use rescan.Dsl.Eval.Leaf.{
  Datum, Reading, matches, comparator_words, is_eq_cmp, verb, verdict, unknown_verdict,
  unrestricted_verdict, compare_numbers, py_str, observe, to_float, to_str,
}

module _ {F : Type 0} ⦃fl : FloatOps F⦄ where
  abbrev default_subject : String → Option (RecordSpec F) → F → String
  default_subject label none x = concat ("Candidate's " ∷ label ∷ " is " ∷ fl.show_g x ∷ [])
  default_subject label (some _) x = concat (label ∷ " is " ∷ fl.show_g x ∷ [])

  abbrev subject_text : Reading F → F → String
  subject_text r x =
      let written : String = elim r.phrasing [
        | some (f, g) ↦ f x
        | none ↦ default_subject r.label r.within x
      ] in
      if is_some r.within then upper_first written else written

  abbrev target_text : Reading F → F → String
  target_text r y = elim r.phrasing [ some (f, g) ↦ g y | none ↦ fl.show_g y ]

  unfoldable pub compare_number : Reading F → Comparator → F → F → Verdict F
  compare_number r c x target =
      let passed = compare_numbers x c target in
      verdict (some passed)
        (concat (
          subject_text r x
          ∷ "; the rule requires "
          ∷ comparator_words c
          ∷ " "
          ∷ target_text r target
          ∷ ". This "
          ∷ verb passed
          ∷ " the requirement."
          ∷ []))
        (Observed.number x)

  -- enum, and `str(observed)` of any other kind: exact
  unfoldable pub compare_exact : Reading F → Datum F → Comparator → String → Result (Verdict F)
  compare_exact r d c value =
      if str_eq r.name "work_rights" && str_eq value work_rights_pseudo
      then unrestricted_verdict r.rights (is_eq_cmp c)
      else let equal = str_eq (py_str d) value in
        ok (
          verdict (some (if is_eq_cmp c then equal else not equal))
            (concat (
              capitalize r.label
              ∷ " is "
              ∷ py_str d
              ∷ "; the rule requires "
              ∷ comparator_words c
              ∷ " "
              ∷ value
              ∷ "."
              ∷ []))
            (observe d))

  abbrev compare_datum : Reading F → Comparator → Value F → Datum F → Result (Verdict F)
  compare_datum r c v (Datum.number x) =
      bind (to_float v) λ target. ok (compare_number r c x target)
  compare_datum r c v (Datum.text s) =
      let matched = matches (to_str v) (s ∷ []) in
      ok (
        verdict (some (if is_eq_cmp c then matched else not matched))
          (concat (
            capitalize r.label
            ∷ " \""
            ∷ s
            ∷ "\" "
            ∷ (if matched then "matches" else "does not match")
            ∷ " \""
            ∷ to_str v
            ∷ "\"."
            ∷ []))
          (Observed.text s))
  compare_datum r c v d = compare_exact r d c (to_str v)

  -- `_leaf_compare`
  unfoldable pub leaf_compare : Reading F → Comparator → Value F → Result (Verdict F)
  unfolding compare_number compare_exact
  leaf_compare r c v = elim r.observed [
    | none ↦ ok (unknown_verdict r)
    | some d ↦ compare_datum r c v d
  ]
