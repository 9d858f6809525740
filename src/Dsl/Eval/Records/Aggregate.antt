-- ===== src/Dsl/Eval/Records/Aggregate.antt =====
-- rescan/dsl/eval.py: `_aggregate` but for COUNT, and the choice among the aggregates.
use rescan.Prelude.{
  ℕ, zero, String, true, false, not, ◌&&◌, Option, none, some, List, [], ◌∷◌, if◌then◌else◌, ◌==◌,
  ◌+◌, length, count_if,
}
use rescan.Prelude.Float.{FloatOps, sum, max_of, min_of}
use rescan.Prelude.Text.{concat, lookup, show_nat}
use rescan.Prelude.Result.{Result, ok, err, PyError, bind}
use rescan.Dsl.Ast.{Comparator, AggregateFunc}
use rescan.Dsl.Fields.Spec.{Item, RecordSpec, FieldSpec}
use rescan.Dsl.Eval.Leaf.{
  Datum, read_datum, manual_review, comparator_words, verdict, compare_numbers,
}
use rescan.Dsl.Verdict.{Verdict, Observed}
use rescan.Dsl.Eval.Records.{
  Judged, matched_items, uncertain_count, monotone, field_or_empty, meets_text, count_verdict,
}

module _ {F : Type 0} ⦃fl : FloatOps F⦄ where
  abbrev float_datum : Datum F → Result F
  float_datum (Datum.number x) = ok x
  float_datum (Datum.text s) = elim (fl.of_text s) [
    | none ↦ err PyError.value_error
    | some x ↦ ok x
  ]
  float_datum (Datum.enum s) = elim (fl.of_text s) [
    | none ↦ err PyError.value_error
    | some x ↦ ok x
  ]
  float_datum (Datum.bool b) = ok (fl.of_nat (if b then 1 else 0))
  float_datum (Datum.list vs) = err PyError.type_error

  -- [spec.reader(item) for item in items]
  abbrev pub values_of : FieldSpec F (Item F) → List (Item F) → List (Option (Datum F))
  values_of spec [] = []
  values_of spec (i ∷ is) = read_datum spec.reader i ∷ values_of spec is

  -- [float(v) for v in values if v is not None]
  unfoldable pub known_of : List (Option (Datum F)) → Result (List F)
  known_of [] = ok []
  known_of (none ∷ vs) = known_of vs
  known_of (some d ∷ vs) = bind (float_datum d) λ x. bind (known_of vs) λ xs. ok (x ∷ xs)

  abbrev pub missing_count : List (Option (Datum F)) → ℕ
  missing_count vs = count_if (λ v. elim v [ none ↦ true | some _ ↦ false ]) vs

  abbrev pub computed : AggregateFunc → F → List F → F
  computed AggregateFunc.max x xs = max_of x xs
  computed AggregateFunc.min x xs = min_of x xs
  computed AggregateFunc.avg x xs = fl.div (sum (x ∷ xs)) (fl.of_nat (length (x ∷ xs)))
  computed _ x xs = sum (x ∷ xs)

  -- the result on the known values: `sum` of none is 0, if nothing is uncertain
  abbrev pub result_of : AggregateFunc → ℕ → List F → Option F
  result_of AggregateFunc.sum zero [] = some (fl.of_nat 0)
  result_of fn uncertain [] = none
  result_of fn uncertain (x ∷ xs) = some (computed fn x xs)

  -- The decision on a result that `uncertain` entries might still change.
  unfoldable pub result_verdict :
      RecordSpec F
      → FieldSpec F (Item F)
      → String
      → AggregateFunc
      → ℕ
      → F
      → Comparator
      → F
      → Verdict F
  result_verdict rec spec subj fn uncertain result c target =
      let passed = compare_numbers result c target in
      if not (uncertain == 0) && not (passed && monotone fn c)
      then verdict none
          (concat (
            subj
            ∷ " is "
            ∷ fl.show_g result
            ∷ " on the "
            ∷ rec.plural
            ∷ " that state "
            ∷ spec.label
            ∷ ", but "
            ∷ show_nat uncertain
            ∷ " could not be assessed; the rule requires "
            ∷ comparator_words c
            ∷ " "
            ∷ fl.show_g target
            ∷ ". "
            ∷ manual_review
            ∷ []))
          (Observed.number result)
      else verdict (some passed) (meets_text subj result c target passed) (Observed.number result)

  -- `_aggregate`, for SUM, MAX, MIN and AVG
  unfoldable pub measure_verdict :
      RecordSpec F
      → FieldSpec F (Item F)
      → String
      → AggregateFunc
      → Judged F
      → Comparator
      → F
      → Result (Verdict F)
  measure_verdict rec spec subj fn js c target =
      let values = values_of spec (matched_items js) in
      bind (known_of values) λ known.
        let uncertain = uncertain_count js + missing_count values in
        elim (result_of fn uncertain known) [
          | none ↦ ok (
              verdict none
                (concat (
                  subj ∷ " could not be computed: no matching " ∷ rec.plural ∷ " state "
                  ∷ spec.label ∷ ". " ∷ manual_review ∷ []))
                Observed.nothing)
          | some result ↦
              ok (result_verdict rec spec subj fn uncertain (fl.round result 2) c target)
        ]

  abbrev aggregate_some :
      RecordSpec F
      → String
      → AggregateFunc
      → Option String
      → Judged F
      → Comparator
      → F
      → Result (Verdict F)
  aggregate_some rec subj AggregateFunc.count field js c target =
      ok (count_verdict rec subj js c target)
  aggregate_some rec subj fn field js c target = elim (lookup (field_or_empty field) rec.fields) [
    | none ↦ err PyError.key_error
    | some spec ↦ measure_verdict rec spec subj fn js c target
  ]

  -- `_aggregate`, from the entries' verdicts
  unfoldable pub aggregate_verdict :
      RecordSpec F
      → String
      → AggregateFunc
      → Option String
      → Judged F
      → Comparator
      → F
      → Result (Verdict F)
  aggregate_verdict rec subj fn field [] c target = ok (
      verdict none
        (concat (
          "The resume lists no " ∷ rec.plural ∷ ", so " ∷ subj ∷ " could not be computed. "
          ∷ manual_review ∷ []))
        Observed.nothing)
  aggregate_verdict rec subj fn field (j ∷ js) c target =
      aggregate_some rec subj fn field (j ∷ js) c target
