-- ===== src/Dsl/Eval/Records.antt =====
-- rescan/dsl/eval.py: ANY and the aggregates, from the verdicts on the entries of a record.
pub mod Aggregate
use rescan.Prelude.{
  ℕ, zero, String, Bool, true, false, not, ◌&&◌, Option, none, some, List, [], ◌∷◌, if◌then◌else◌,
  ◌==◌, ◌+◌, length, count_if,
}
use rescan.Prelude.Float.{FloatOps, sum, max_of, min_of}
use rescan.Prelude.Text.{concat, lookup, show_nat}
use rescan.Prelude.Result.{Result, ok, err, PyError, bind}
use rescan.Dsl.Ast.{Comparator, AggregateFunc}
use rescan.Dsl.Fields.Spec.{Item, RecordSpec, FieldSpec}
use rescan.Dsl.Eval.Leaf.{
  Datum, read_datum, manual_review, describe_list, comparator_words, verb, verdict, compare_numbers,
}
use rescan.Dsl.Verdict.{Verdict, Observed}

-- the entries of a record, each with its verdict
abbrev pub Judged : Type 0 → Type 0
Judged F = List (Item F × Verdict F)

abbrev pub is_yes : Option Bool → Bool
is_yes (some true) = true
is_yes _ = false

abbrev pub is_no : Option Bool → Bool
is_no (some false) = true
is_no _ = false

abbrev pub is_unknown : Option Bool → Bool
is_unknown none = true
is_unknown (some _) = false

-- [(item, f(item)) for item in items]; the first error ends it
unfoldable pub judge_items :
    {F : Type 0} → (Item F → Result (Verdict F)) → List (Item F) → Result (Judged F)
judge_items f [] = ok []
judge_items f (i ∷ is) = bind (f i) λ v. bind (judge_items f is) λ rest. ok ((i, v) ∷ rest)

abbrev pub first_with : {F : Type 0} → (Option Bool → Bool) → Judged F → Option (Item F × Verdict F)
first_with test [] = none
first_with test ((i, v) ∷ rest) = if test v.value then some (i, v) else first_with test rest

abbrev pub matched_items : {F : Type 0} → Judged F → List (Item F)
matched_items [] = []
matched_items ((i, v) ∷ rest) =
    if is_yes v.value then i ∷ matched_items rest else matched_items rest

abbrev pub uncertain_count : {F : Type 0} → Judged F → ℕ
uncertain_count js = count_if (λ j. is_unknown (j.1).value) js

abbrev pub summaries : {F : Type 0} → RecordSpec F → Judged F → List String
summaries rec [] = []
summaries rec ((i, v) ∷ js) = rec.summary i ∷ summaries rec js

-- `_any_record`, from the entries' verdicts
unfoldable pub any_verdict : {F : Type 0} → RecordSpec F → String → Judged F → Verdict F
any_verdict rec where_text [] =
    verdict none
      (concat (
        "The resume lists no " ∷ rec.plural ∷ ", so this rule could not be applied. "
        ∷ manual_review ∷ []))
      Observed.nothing
any_verdict rec where_text (j ∷ js) =
    let listed = describe_list (summaries rec (j ∷ js)) in
    elim (first_with is_yes (j ∷ js)) [
      | some (i, v) ↦
          verdict (some true)
            (concat (
              "Listed "
              ∷ rec.name
              ∷ " '"
              ∷ rec.summary i
              ∷ "' satisfies "
              ∷ where_text
              ∷ ": "
              ∷ v.reason
              ∷ []))
            (Observed.text (rec.summary i))
      | none ↦ elim (first_with is_unknown (j ∷ js)) [
        | some (i, v) ↦
            verdict none
              (concat (
                "Could not tell whether any listed "
                ∷ rec.name
                ∷ " satisfies "
                ∷ where_text
                ∷ " ("
                ∷ rec.summary i
                ∷ ": "
                ∷ v.reason
                ∷ "). "
                ∷ manual_review
                ∷ []))
              (Observed.text listed)
        | none ↦
            verdict (some false)
              (concat (
                "No listed " ∷ rec.name ∷ " satisfies " ∷ where_text ∷ ". Listed " ∷ rec.plural
                ∷ ": " ∷ listed ∷ "." ∷ []))
              (Observed.text listed)
      ]
    ]

abbrev pub same_bool : Bool → Bool → Bool
same_bool true b = b
same_bool false b = not b

-- More data can only raise a sum or a max, so a pass on partial data stands for these.
abbrev pub monotone : AggregateFunc → Comparator → Bool
monotone AggregateFunc.sum Comparator.ge = true
monotone AggregateFunc.sum Comparator.gt = true
monotone AggregateFunc.max Comparator.ge = true
monotone AggregateFunc.max Comparator.gt = true
monotone _ _ = false

abbrev pub noun : {F : Type 0} → RecordSpec F → ℕ → String
noun rec n = if n == 1 then rec.name else rec.plural

abbrev pub field_or_empty : Option String → String
field_or_empty none = ""
field_or_empty (some f) = f

module _ {F : Type 0} ⦃fl : FloatOps F⦄ where
  abbrev meets_text : String → F → Comparator → F → Bool → String
  meets_text subj x c target passed = concat (
      subj
      ∷ " is "
      ∷ fl.show_g x
      ∷ "; the rule requires "
      ∷ comparator_words c
      ∷ " "
      ∷ fl.show_g target
      ∷ ". This "
      ∷ verb passed
      ∷ " the requirement."
      ∷ [])

  -- `_aggregate`, for COUNT
  unfoldable pub count_verdict : RecordSpec F → String → Judged F → Comparator → F → Verdict F
  count_verdict rec subj js c target =
      let uncertain = uncertain_count js in
      let low = length (matched_items js) in
      let high = low + uncertain in
      let passed_low = compare_numbers (fl.of_nat low) c target in
      let passed_high = compare_numbers (fl.of_nat high) c target in
      if same_bool passed_low passed_high
      then verdict (some passed_low) (meets_text subj (fl.of_nat low) c target passed_low)
          (Observed.number (fl.of_nat low))
      else verdict none
          (concat (
            subj
            ∷ " is between "
            ∷ fl.show_g (fl.of_nat low)
            ∷ " and "
            ∷ fl.show_g (fl.of_nat high)
            ∷ " because "
            ∷ show_nat uncertain
            ∷ " "
            ∷ noun rec uncertain
            ∷ " could not be assessed; the rule requires "
            ∷ comparator_words c
            ∷ " "
            ∷ fl.show_g target
            ∷ ". "
            ∷ manual_review
            ∷ []))
          (Observed.number (fl.of_nat low))
  -- float(v)
