-- ===== src/Dsl/Eval/Leaf/Is.antt =====
-- rescan/dsl/eval.py: `_leaf_is`.
use rescan.Prelude.{String, Bool, true, ◌&&◌, none, some, [], ◌∷◌, if◌then◌else◌}
use rescan.Prelude.Float.{FloatOps}
use rescan.Prelude.Text.{str_eq, capitalize, concat}
use rescan.Prelude.Result.{Result, ok}
use rescan.Dsl.Ast.{IsValue}
use rescan.Dsl.Fields.Readers.{work_rights_pseudo}
use rescan.Dsl.Verdict.{Verdict, Observed}
use rescan.Dsl.Eval.Leaf.{
  Datum, Reading, is_true, is_str, do_or_not, does_or_not, not_word, same, verdict, unknown_verdict,
  unrestricted_verdict, py_str, observe,
}

module _ {F : Type 0} ⦃fl : FloatOps F⦄ where
  unfoldable pub is_bool : Reading F → Bool → Bool → Verdict F
  is_bool r expected b = elim r.within [
    | some rec ↦
        verdict (some (same b expected))
          (concat (
            "The "
            ∷ rec.name
            ∷ " is "
            ∷ not_word b
            ∷ r.label
            ∷ "; the rule requires "
            ∷ not_word expected
            ∷ r.label
            ∷ "."
            ∷ []))
          (Observed.flag b)
    | none ↦
        verdict (some (same b expected))
          (concat (
            "Candidate "
            ∷ does_or_not b
            ∷ " have "
            ∷ r.label
            ∷ "; the rule requires that they "
            ∷ do_or_not expected
            ∷ "."
            ∷ []))
          (Observed.flag b)
  ]

  unfoldable pub is_exact : Reading F → Datum F → String → Result (Verdict F)
  is_exact r d value =
      if str_eq r.name "work_rights" && str_eq value work_rights_pseudo
      then unrestricted_verdict r.rights true
      else ok (
          verdict (some (str_eq (py_str d) value))
            (concat
              (capitalize r.label ∷ " is " ∷ py_str d ∷ "; the rule requires " ∷ value ∷ "." ∷ []))
            (observe d))

  abbrev is_datum : Reading F → IsValue → Datum F → Result (Verdict F)
  is_datum r v (Datum.bool b) = ok (is_bool r (is_true v) b)
  is_datum r v d = is_exact r d (is_str v)

  -- `_leaf_is`
  unfoldable pub leaf_is : Reading F → IsValue → Result (Verdict F)
  leaf_is r v = elim r.observed [ none ↦ ok (unknown_verdict r) | some d ↦ is_datum r v d ]
