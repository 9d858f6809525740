-- ===== src/Dsl/Eval/Leaf/Has.antt =====
-- rescan/dsl/eval.py: `_leaf_has` and `_leaf_in`.
use rescan.Prelude.{String, Bool, true, not, ◌&&◌, none, some, List, [], ◌∷◌, if◌then◌else◌, filter}
use rescan.Prelude.Float.{FloatOps}
use rescan.Prelude.Text.{str_eq, lower, capitalize, contains, concat, join, chars, member}
use rescan.Prelude.Result.{Result, ok, err, PyError, bind}
use rescan.Dsl.Fields.Readers.{work_rights_pseudo}
use rescan.Dsl.Verdict.{Verdict, Observed}
use rescan.Dsl.Eval.Leaf.{
  Datum, Reading, matches, describe_list, passes_has, verdict, unknown_verdict,
  unrestricted_verdict, py_str, observe,
}

module _ {F : Type 0} ⦃fl : FloatOps F⦄ where
  unfoldable pub has_text : Reading F → Bool → List String → String → Verdict F
  has_text r want_all values s =
      let matched = filter (λ v. contains (lower v) (lower s)) values in
      let missing = filter (λ v. not (member v matched)) values in
      let passed = passes_has want_all matched missing in
      let said = λ (how : String) (which : List String).
        concat (capitalize r.label ∷ " \"" ∷ s ∷ how ∷ join ", " which ∷ "." ∷ []) in
      verdict (some passed)
        (if passed
          then said "\" mentions " matched
          else if want_all
          then said "\" does not mention " missing
          else said "\" mentions none of " values)
        (Observed.text s)

  unfoldable pub has_list : Reading F → Bool → List String → List String → Verdict F
  has_list r want_all values held =
      let matched = filter (λ v. matches v held) values in
      let missing = filter (λ v. not (member v matched)) values in
      let passed = passes_has want_all matched missing in
      let said = λ (how : String) (which : List String).
        concat ("Candidate's " ∷ r.label ∷ how ∷ join ", " which ∷ "." ∷ []) in
      let listed = concat (" Listed " ∷ r.label ∷ ": " ∷ describe_list held ∷ "." ∷ []) in
      verdict (some passed)
        (if passed
          then said " include " matched
          else if want_all
          then concat (said " do not include " missing ∷ listed ∷ [])
          else concat (said " include none of " values ∷ listed ∷ []))
        (Observed.texts held)

  -- Iteration over a text gives its characters, and over a number or a Boolean fails.
  abbrev has_datum : Reading F → Bool → List String → Datum F → Result (Verdict F)
  has_datum r all? vs (Datum.text s) = ok (has_text r all? vs s)
  has_datum r all? vs (Datum.list held) = ok (has_list r all? vs held)
  has_datum r all? vs (Datum.enum s) = ok (has_list r all? vs (chars s))
  has_datum r all? vs _ = err PyError.type_error

  -- `_leaf_has`: `true` for HAS ALL
  unfoldable pub leaf_has : Reading F → Bool → List String → Result (Verdict F)
  leaf_has r want_all values = elim r.observed [
    | none ↦ ok (unknown_verdict r)
    | some d ↦ has_datum r want_all values d
  ]

  in_datum : Reading F → List String → Datum F → Verdict F
  in_datum r values d =
      verdict (some (member (py_str d) values))
        (concat (
          capitalize r.label
          ∷ " is "
          ∷ py_str d
          ∷ "; the rule accepts "
          ∷ join ", " values
          ∷ "."
          ∷ []))
        (observe d)

  abbrev in_rights : Reading F → List String → Datum F → Verdict F → Verdict F
  in_rights r values d u = elim u.value [ some true ↦ u | _ ↦ in_datum r values d ]

  -- `_leaf_in`
  unfoldable pub leaf_in : Reading F → List String → Result (Verdict F)
  unfolding in_datum
  leaf_in r values = elim r.observed [
    | none ↦ ok (unknown_verdict r)
    | some d ↦
        if str_eq r.name "work_rights" && member work_rights_pseudo values
        then (bind (unrestricted_verdict r.rights true) λ u. ok (in_rights r values d u))
        else ok (in_datum r values d)
  ]
