-- ===== src/Dsl/Eval/Kleene/Denote.antt =====
-- What an expression means: Kleene's logic over the values of its leaves. There is no order of
-- evaluation here and no judge: `answers` has the answer to each ASK.
use rescan.Prelude.{◌≡◌, String, Bool, Option, none, some, List, [], ◌∷◌, map, All}
use rescan.Prelude.Float.{FloatOps}
use rescan.Prelude.Result.{Result, ok, err}
use rescan.Dsl.Ast.{Expr, Args, nil, cons}
use rescan.Dsl.Fields.Spec.{Item, RecordSpec}
use rescan.Dsl.Verdict.{Verdict}
use rescan.Dsl.Eval.Evaluate.{Subject, JudgeLike, NoJudge, evaluate_in, read_record}
use rescan.Dsl.Eval.Kleene.{not3, all3, any3}
use rescan.Dsl.Eval.Kleene.Loops.{Yields}

abbrev pub value_or_unknown : {F : Type 0} → Result (Verdict F) → Option Bool
value_or_unknown (ok v) = v.value
value_or_unknown (err e) = none

abbrev pub alone : {F : Type 0} ⦃fl : FloatOps F⦄ → Expr F → Subject F → Result (Verdict F)
alone e s = (evaluate_in {S = NoJudge} e s none tt).0

abbrev pub ask_value : {F : Type 0} → (String → Option Bool) → Subject F → String → Option Bool
ask_value answers (Subject.whole p) q = answers q
ask_value answers (Subject.within rec i) q = none

abbrev pub silent : String → Option Bool
silent q = none

-- Some entry satisfies `g`: unknown of a record with no entries.
abbrev pub quantify :
    {F : Type 0}
    → (RecordSpec F → Item F → Option Bool)
    → Result (RecordSpec F × List (Item F))
    → Option Bool
quantify g (err e) = none
quantify g (ok (rec, [])) = none
quantify g (ok (rec, i ∷ is)) = any3 (map (g rec) (i ∷ is))

unfoldable mutual
  pub kleene :
      {F : Type 0} ⦃fl : FloatOps F⦄ → Expr F → (String → Option Bool) → Subject F → Option Bool
  kleene (Expr.compare f c v) answers s = value_or_unknown (alone (Expr.compare f c v) s)
  kleene (Expr.has_any f vs) answers s = value_or_unknown (alone (Expr.has_any f vs) s)
  kleene (Expr.has_all f vs) answers s = value_or_unknown (alone (Expr.has_all f vs) s)
  kleene (Expr.in_values f vs) answers s = value_or_unknown (alone (Expr.in_values f vs) s)
  kleene (Expr.is f v) answers s = value_or_unknown (alone (Expr.is f v) s)
  kleene (Expr.ask q) answers s = ask_value answers s q
  kleene (Expr.aggregate fn r f w c x) answers s =
      value_or_unknown (alone (Expr.aggregate fn r f w c x) s)
  kleene (Expr.not e) answers s = not3 (kleene e answers s)
  kleene (Expr.and es) answers s = all3 (kleene_args es answers s)
  kleene (Expr.or es) answers s = any3 (kleene_args es answers s)
  kleene (Expr.any_record r e) answers s =
      quantify (λ rec i. kleene e silent (Subject.within rec i)) (read_record r s)

  pub kleene_args :
      {F : Type 0} ⦃fl : FloatOps F⦄
      → Args F
      → (String → Option Bool)
      → Subject F
      → List (Option Bool)
  kleene_args nil answers s = []
  kleene_args (cons e es) answers s = kleene e answers s ∷ kleene_args es answers s

abbrev Succeeds : {F : Type 0} → Result (Verdict F) → Type 0
Succeeds {F} r = (v : Verdict F) × (r ≡ ok v)

abbrev pub OnItems :
    {F : Type 0} → (RecordSpec F → Item F → Type 0) → Result (RecordSpec F × List (Item F)) → Type 0
OnItems P (err e) = ⊥
OnItems P (ok (rec, items)) = All (P rec) items

-- No leaf raises: each names a field and a record of the vocabulary, at a kind that it can test.
unfoldable mutual
  pub IsEvaluable : {F : Type 0} ⦃fl : FloatOps F⦄ → Expr F → Subject F → Type 0
  IsEvaluable (Expr.compare f c v) s = Succeeds (alone (Expr.compare f c v) s)
  IsEvaluable (Expr.has_any f vs) s = Succeeds (alone (Expr.has_any f vs) s)
  IsEvaluable (Expr.has_all f vs) s = Succeeds (alone (Expr.has_all f vs) s)
  IsEvaluable (Expr.in_values f vs) s = Succeeds (alone (Expr.in_values f vs) s)
  IsEvaluable (Expr.is f v) s = Succeeds (alone (Expr.is f v) s)
  IsEvaluable (Expr.ask q) s = Unit
  IsEvaluable (Expr.aggregate fn r f w c x) s = Succeeds (alone (Expr.aggregate fn r f w c x) s)
  IsEvaluable (Expr.not e) s = IsEvaluable e s
  IsEvaluable (Expr.and es) s = AreEvaluable es s
  IsEvaluable (Expr.or es) s = AreEvaluable es s
  IsEvaluable (Expr.any_record r e) s =
      OnItems (λ rec i. IsEvaluable e (Subject.within rec i)) (read_record r s)

  pub AreEvaluable : {F : Type 0} ⦃fl : FloatOps F⦄ → Args F → Subject F → Type 0
  AreEvaluable nil s = Unit
  AreEvaluable (cons e es) s = IsEvaluable e s × AreEvaluable es s

-- `j` gives the answers: with no judge, each is unknown.
abbrev pub Answers :
    {S F : Type 0} → Option (JudgeLike S F) → Subject F → (String → Option Bool) → Type 0
Answers none s answers = (q : String) → answers q ≡ none
Answers (some j) (Subject.whole p) answers = (q : String) → Yields (j q p) (answers q)
Answers (some j) (Subject.within rec i) answers = Unit
