-- ===== src/Dsl/Eval/Kleene/Refines.antt =====
-- The evaluator implements the meaning: whatever the order of the arguments, wherever the loops
-- stop.
use rescan.Prelude.{
  ◌≡◌, refl, ◌∙◌, sym, ap, String, Bool, true, false, Option, none, some, List, [], ◌∷◌, map, All,
  arith, is_some, if◌then◌else◌,
}
use rescan.Prelude.Float.{FloatOps}
use rescan.Prelude.Result.{Result, ok, err, bind, pure}
use rescan.Dsl.Ast.{Expr, Args, nil, cons, no_where, only}
use rescan.Dsl.Fields.Spec.{Item, RecordSpec}
use rescan.Dsl.Verdict.{Verdict}
use rescan.Dsl.Eval.Records.{Judged, judge_items, any_verdict, first_with, is_yes, is_unknown}
use rescan.Dsl.Eval.Connectives.{not_verdict}
use rescan.Schemas.{AnonymizedProfile}
use rescan.Dsl.Eval.Evaluate.{
  evaluate, Subject, JudgeLike, evaluate_in, read_record, actions, any_with, ask_judge,
}
use rescan.Dsl.Eval.Kleene.{not3, any3}
use rescan.Dsl.Eval.Kleene.Loops.{Yields, AllYield, step-eq, and-Yields, or-Yields}
use rescan.Dsl.Eval.Kleene.Denote.{
  kleene, kleene_args, IsEvaluable, AreEvaluable, Answers, silent, quantify, OnItems,
  value_or_unknown, ask_value,
}

judged_values : {F : Type 0} → Judged F → List (Option Bool)
judged_values [] = []
judged_values ((i, v) ∷ js) = v.value ∷ judged_values js

judge_items-values :
    {F : Type 0} (f : Item F → Result (Verdict F)) (g : Item F → Option Bool)
    (items : List (Item F))
    → All (λ i. (v : Verdict F) × (f i ≡ ok v) × (v.value ≡ g i)) items
    → (js : Judged F) × (judge_items f items ≡ ok js) × (judged_values js ≡ map g items)
unfolding judge_items judged_values
judge_items-values f g [] h = ([], refl, refl)
judge_items-values f g (i ∷ is) ((v, e, p), hs) =
    let (js, d, q) = judge_items-values f g is hs in ((i, v) ∷ js, rw (e, d), λ t. p t ∷ q t)

-- The value of ANY by its two searches.
abbrev found : {F : Type 0} → Judged F → Option Bool
found js =
    if is_some (first_with is_yes js)
    then some true
    else if is_some (first_with is_unknown js)
    then none
    else some false

found-eq-any3 : {F : Type 0} (js : Judged F) → found js ≡ any3 (judged_values js)
unfolding judged_values
found-eq-any3 [] = refl
found-eq-any3 ((i, v) ∷ js) = ground (arith, found-eq-any3 js)

any_verdict-value :
    {F : Type 0} (rec : RecordSpec F) (t : String) (j : Item F × Verdict F) (js : Judged F)
    → (any_verdict rec t (j ∷ js)).value ≡ any3 (judged_values (j ∷ js))
unfolding any_verdict
any_verdict-value rec t j js = ground (arith, found-eq-any3 (j ∷ js))

any_verdict-nil :
    {F : Type 0} (rec : RecordSpec F) (t : String) → (any_verdict rec t []).value ≡ none
unfolding any_verdict
any_verdict-nil rec t = refl

any_verdict-any3 :
    {F : Type 0} (rec : RecordSpec F) (t : String) (js : Judged F) (x : Option Bool)
    (xs : List (Option Bool))
    → judged_values js ≡ x ∷ xs
    → (any_verdict rec t js).value ≡ any3 (x ∷ xs)
unfolding judged_values
any_verdict-any3 rec t [] x xs e = cc
any_verdict-any3 rec t (j ∷ js) x xs e = any_verdict-value rec t j js ∙ ap any3 e

judge_items-nil : {F : Type 0} (f : Item F → Result (Verdict F)) → judge_items f [] ≡ ok []
unfolding judge_items
judge_items-nil f = refl

not_verdict-value : {F : Type 0} (v : Verdict F) → (not_verdict v).value ≡ not3 v.value
unfolding not_verdict
not_verdict-value v = ground arith

value-ok :
    {F : Type 0} {r : Result (Verdict F)} {v : Verdict F} → r ≡ ok v → v.value ≡ value_or_unknown r
value-ok e = rw e

ask_judge-Yields :
    {S F : Type 0} ⦃fl : FloatOps F⦄ (q : String) (s : Subject F) (j : Option (JudgeLike S F))
    (answers : String → Option Bool)
    → Answers j s answers
    → Yields (ask_judge q s j) (ask_value answers s q)
unfolding ask_judge
ask_judge-Yields q (Subject.whole p) none answers h st = (_, refl, sym (h q))
ask_judge-Yields q (Subject.whole p) (some j) answers h st = h q st
ask_judge-Yields q (Subject.within rec i) none answers h st = (_, refl, refl)
ask_judge-Yields q (Subject.within rec i) (some j) answers h st = (_, refl, refl)

module _ {F : Type 0} ⦃fl : FloatOps F⦄ (judge_one : RecordSpec F → Item F → Result (Verdict F))
    (g : RecordSpec F → Item F → Option Bool) (P : RecordSpec F → Item F → Type 0)
    (gives : (rec : RecordSpec F) (i : Item F)
      → P rec i
      → (v : Verdict F) × (judge_one rec i ≡ ok v) × (v.value ≡ g rec i)) where
  All-gives :
      (rec : RecordSpec F) (is : List (Item F))
      → All (P rec) is
      → All (λ i. (v : Verdict F) × (judge_one rec i ≡ ok v) × (v.value ≡ g rec i)) is
  All-gives rec [] h = tt
  All-gives rec (i ∷ is) (h, hs) = (gives rec i h, All-gives rec is hs)

  any_with-value :
      (r t : String) (s : Subject F)
      → OnItems P (read_record r s)
      → (v : Verdict F) × (any_with judge_one r t s ≡ ok v)
        × (v.value ≡ quantify g (read_record r s))
  unfolding any_with
  any_with-value r t s = go (read_record r s)
    where
      go :
          (rr : Result (RecordSpec F × List (Item F)))
          → OnItems P rr
          → (v : Verdict F) × ((bind rr λ (rec, items).
                bind (judge_items (judge_one rec) items) λ js. ok (any_verdict rec t js))
              ≡ ok v)
            × (v.value ≡ quantify g rr)
      go (err e) h = absurd h
      go (ok (rec, [])) h =
          (any_verdict rec t [], rw (judge_items-nil (judge_one rec)), any_verdict-nil rec t)
      go (ok (rec, i ∷ is)) h =
          let (js, d, q) =
            judge_items-values (judge_one rec) (g rec) (i ∷ is) (All-gives rec (i ∷ is) h) in
          (any_verdict rec t js, rw d, any_verdict-any3 rec t js (g rec i) (map (g rec) is) q)

mutual
  unfolding evaluate_in kleene IsEvaluable

  evaluate_in-Yields :
      {S F : Type 0} ⦃fl : FloatOps F⦄ (e : Expr F) (s : Subject F) (j : Option (JudgeLike S F))
      (answers : String → Option Bool)
      → IsEvaluable e s
      → Answers j s answers
      → Yields (evaluate_in e s j) (kleene e answers s)
  evaluate_in-Yields (Expr.compare f c v) s j answers (w, e) h st = (w, e, value-ok e)
  evaluate_in-Yields (Expr.has_any f vs) s j answers (w, e) h st = (w, e, value-ok e)
  evaluate_in-Yields (Expr.has_all f vs) s j answers (w, e) h st = (w, e, value-ok e)
  evaluate_in-Yields (Expr.in_values f vs) s j answers (w, e) h st = (w, e, value-ok e)
  evaluate_in-Yields (Expr.is f v) s j answers (w, e) h st = (w, e, value-ok e)
  evaluate_in-Yields (Expr.ask q) s j answers e h st = ask_judge-Yields q s j answers h st
  evaluate_in-Yields (Expr.aggregate fn r f no_where c x) s j answers (v, e) h st =
      (v, e, value-ok e)
  evaluate_in-Yields (Expr.aggregate fn r f (only w) c x) s j answers (v, e) h st =
      (v, e, value-ok e)
  evaluate_in-Yields (Expr.not e) s j answers ev h st =
      let (v, p, q) = evaluate_in-Yields e s j answers ev h st in
      (
        not_verdict v,
        rw (step-eq (evaluate_in e s j) (λ w. pure (not_verdict w)) st p),
        not_verdict-value v ∙ ap not3 q,
      )
  evaluate_in-Yields (Expr.and es) s j answers ev h st =
      and-Yields _ _ (actions-AllYield es s j answers ev h) st
  evaluate_in-Yields (Expr.or es) s j answers ev h st =
      or-Yields _ _ (actions-AllYield es s j answers ev h) st
  evaluate_in-Yields (Expr.any_record r e) s j answers ev h st =
      any_with-value _ (λ rec i. kleene e silent (Subject.within rec i)) _
        (λ rec i k. evaluate_in-Yields e (Subject.within rec i) none silent k (λ q. refl) tt) r _ s
        ev

  actions-AllYield :
      {S F : Type 0} ⦃fl : FloatOps F⦄ (es : Args F) (s : Subject F) (j : Option (JudgeLike S F))
      (answers : String → Option Bool)
      → AreEvaluable es s
      → Answers j s answers
      → AllYield (actions es s j) (kleene_args es answers s)
  actions-AllYield nil s j answers ev h = tt
  actions-AllYield (cons e es) s j answers (ev, evs) h =
      (evaluate_in-Yields e s j answers ev h, actions-AllYield es s j answers evs h)

-- Evaluating an expression returns a verdict from every state of the judge, and the verdict's value
-- is Kleene's: no leaf raises, and the judge answers each question alike whenever it is asked.
pub evaluate-kleene :
    {S F : Type 0} ⦃fl : FloatOps F⦄ (e : Expr F) (p : AnonymizedProfile F)
    (j : Option (JudgeLike S F)) (answers : String → Option Bool)
    → IsEvaluable e (Subject.whole p)
    → Answers j (Subject.whole p) answers
    → (s : S)
    → (v : Verdict F) × ((evaluate e p j s).0 ≡ ok v)
      × (v.value ≡ kleene e answers (Subject.whole p))
unfolding evaluate
evaluate-kleene e p j answers ev h = evaluate_in-Yields e (Subject.whole p) j answers ev h
