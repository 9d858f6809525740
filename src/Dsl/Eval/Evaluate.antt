-- ===== src/Dsl/Eval/Evaluate.antt =====
-- rescan/dsl/eval.py: `_evaluate` and `evaluate`. A judge may fail and may change a state `S`. The
-- `where` of a record is evaluated with no judge.
use rescan.Prelude.{String, true, false, Option, none, some, List, [], ◌∷◌}
use rescan.Prelude.Float.{FloatOps}
use rescan.Prelude.Text.{concat, lookup}
use rescan.Prelude.Result.{Result, ok, err, PyError, bind, Exec, pure, lift, ◌>>=◌}
use rescan.Schemas.{AnonymizedProfile}
use rescan.Dsl.Ast.{
  AggregateFunc, Comparator, Expr, Args, nil, cons, no_where, only, to_dsl, subject, has_ask,
}
use rescan.Dsl.Fields.Spec.{Item, RecordSpec}
use rescan.Dsl.Fields.Named.{fields}
use rescan.Dsl.Fields.Records.{records}
use rescan.Dsl.Eval.Leaf.{Reading, reading, verdict, manual_review}
use rescan.Dsl.Eval.Leaf.Compare.{leaf_compare}
use rescan.Dsl.Eval.Leaf.Has.{leaf_has, leaf_in}
use rescan.Dsl.Eval.Leaf.Is.{leaf_is}
use rescan.Dsl.Eval.Records.{judge_items, any_verdict}
use rescan.Dsl.Eval.Records.Aggregate.{aggregate_verdict}
use rescan.Dsl.Eval.Connectives.{Action, ordered, and_loop, or_loop, not_verdict}
use rescan.Dsl.Verdict.{Verdict, Observed}

-- A judge's `ask`.
abbrev pub JudgeLike : Type 0 → Type 0 → Type 0
JudgeLike S F = String → AnonymizedProfile F → Exec S (Verdict F)

-- The subject of `_evaluate`: a profile with no record, or an entry with its record.
pub data Subject (F : Type 0) : Type 0 where
  whole : AnonymizedProfile F → Subject F
  within : RecordSpec F → Item F → Subject F

module _ {F : Type 0} ⦃fl : FloatOps F⦄ where
  -- `spec` and what it reads; a name that is not in the vocabulary is a KeyError
  unfoldable pub read_field : String → Subject F → Result (Reading F)
  unfolding reading
  read_field f (Subject.whole p) = elim (lookup f (fields {F = F})) [
    | none ↦ err PyError.key_error
    | some spec ↦ ok (reading spec p none (some p.work_rights))
  ]
  read_field f (Subject.within rec i) = elim (lookup f rec.fields) [
    | none ↦ err PyError.key_error
    | some spec ↦ ok (reading spec i (some rec) none)
  ]

  -- `vocab.RECORDS[name]` and its entries; an entry of a record has no records of its own
  unfoldable pub read_record : String → Subject F → Result (RecordSpec F × List (Item F))
  read_record r (Subject.whole p) = elim (lookup r (records {F = F})) [
    | none ↦ err PyError.key_error
    | some rec ↦ ok (rec, rec.reader p)
  ]
  read_record r (Subject.within _ _) = elim (lookup r (records {F = F})) [
    | none ↦ err PyError.key_error
    | some _ ↦ err PyError.attribute_error
  ]

  -- `_ask`; a judge is there for a whole profile only
  unfoldable pub ask_judge :
      {S : Type 0} → String → Subject F → Option (JudgeLike S F) → Exec S (Verdict F)
  ask_judge q (Subject.whole p) (some judge) = judge q p
  ask_judge q _ _ = pure (
      verdict none
        (concat (
          "Model checks are disabled for this evaluation, so \"" ∷ q ∷ "\" could not be assessed. "
          ∷ manual_review ∷ []))
        Observed.nothing)

-- No judge, and so no state.
abbrev pub NoJudge : Type 0
NoJudge = Unit {0}

abbrev no_judge : {F : Type 0} → Option (JudgeLike NoJudge F)
no_judge = none

abbrev value_of : {F : Type 0} → Exec NoJudge (Verdict F) → Result (Verdict F)
value_of m = (m tt).0

abbrev yes_verdict : {F : Type 0} → Item F → Verdict F
yes_verdict i = verdict (some true) "" (Observed.item i)

module _ {F : Type 0} ⦃fl : FloatOps F⦄ where
  -- `_any_record` and `_aggregate` on a subject, with `_record_verdicts` by the judgement of one
  -- entry
  unfoldable pub any_with :
      (RecordSpec F → Item F → Result (Verdict F))
      → String
      → String
      → Subject F
      → Result (Verdict F)
  any_with judge_one r where_text s = bind (read_record r s) λ (rec, items).
      bind (judge_items (judge_one rec) items) λ js. ok (any_verdict rec where_text js)

  unfoldable pub aggregate_with :
      (RecordSpec F → Item F → Result (Verdict F))
      → AggregateFunc
      → String
      → Option String
      → String
      → Comparator
      → F
      → Subject F
      → Result (Verdict F)
  aggregate_with judge_one fn r f subj c x s = bind (read_record r s) λ (rec, items).
      bind (judge_items (judge_one rec) items) λ js. aggregate_verdict rec subj fn f js c x

unfoldable mutual
  unfolding read_field ask_judge any_with aggregate_with

  -- `_evaluate`
  pub evaluate_in :
      {S F : Type 0} ⦃fl : FloatOps F⦄
      → Expr F
      → Subject F
      → Option (JudgeLike S F)
      → Exec S (Verdict F)
  evaluate_in (Expr.compare f c v) s j = lift (bind (read_field f s) λ r. leaf_compare r c v)
  evaluate_in (Expr.has_any f vs) s j = lift (bind (read_field f s) λ r. leaf_has r false vs)
  evaluate_in (Expr.has_all f vs) s j = lift (bind (read_field f s) λ r. leaf_has r true vs)
  evaluate_in (Expr.in_values f vs) s j = lift (bind (read_field f s) λ r. leaf_in r vs)
  evaluate_in (Expr.is f v) s j = lift (bind (read_field f s) λ r. leaf_is r v)
  evaluate_in (Expr.ask q) s j = ask_judge q s j
  evaluate_in {F = F} (Expr.aggregate fn r f no_where c x) s j =
      lift (
        aggregate_with (λ rec i. ok (yes_verdict i)) fn r f (subject {F = F} fn r f no_where) c x s)
  evaluate_in (Expr.aggregate fn r f (only e) c x) s j = lift (
      aggregate_with (λ rec i. value_of (evaluate_in e (Subject.within rec i) no_judge)) fn r f
        (subject fn r f (only e)) c x s)
  evaluate_in (Expr.not e) s j = evaluate_in e s j >>= λ v. pure (not_verdict v)
  evaluate_in (Expr.and es) s j = and_loop [] (ordered (actions es s j))
  evaluate_in (Expr.or es) s j = or_loop [] (ordered (actions es s j))
  evaluate_in (Expr.any_record r e) s j =
      lift (
        any_with (λ rec i. value_of (evaluate_in e (Subject.within rec i) no_judge)) r (to_dsl e) s)

  -- the arguments, not yet evaluated
  pub actions :
      {S F : Type 0} ⦃fl : FloatOps F⦄
      → Args F
      → Subject F
      → Option (JudgeLike S F)
      → List (Action S F)
  actions nil s j = []
  actions (cons e es) s j = (has_ask e, evaluate_in e s j) ∷ actions es s j

module _ {F : Type 0} ⦃fl : FloatOps F⦄ where
  unfoldable pub evaluate :
      {S : Type 0} → Expr F → AnonymizedProfile F → Option (JudgeLike S F) → Exec S (Verdict F)
  unfolding evaluate_in
  evaluate e p j = evaluate_in e (Subject.whole p) j
