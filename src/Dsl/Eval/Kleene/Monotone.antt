-- ===== src/Dsl/Eval/Kleene/Monotone.antt =====
-- What the structured part of an expression decides, no answer of a judge changes.
use rescan.Prelude.{◌≡◌, refl, ◌∙◌, sym, ap, String, Bool, Option, none, some, inl, inr}
use rescan.Prelude.Float.{FloatOps}
use rescan.Prelude.Result.{ok}
use rescan.Schemas.{AnonymizedProfile}
use rescan.Dsl.Ast.{Expr, Args, nil, cons}
use rescan.Dsl.Verdict.{Verdict}
use rescan.Dsl.Eval.Evaluate.{Subject, JudgeLike, NoJudge, evaluate}
use rescan.Dsl.Eval.Kleene.{◌⊑◌, all3, any3, and3_mono, or3_mono, not3_mono}
use rescan.Dsl.Eval.Kleene.Denote.{kleene, kleene_args, IsEvaluable, Answers, silent, ask_value}
use rescan.Dsl.Eval.Kleene.Refines.{evaluate-kleene}

ask_value-mono :
    {F : Type 0} (answers : String → Option Bool) (s : Subject F) (q : String)
    → ask_value silent s q ⊑ ask_value answers s q
ask_value-mono answers (Subject.whole p) q = inl refl
ask_value-mono answers (Subject.within rec i) q = inl refl

mutual
  unfolding kleene

  kleene-mono :
      {F : Type 0} ⦃fl : FloatOps F⦄ (e : Expr F) (answers : String → Option Bool) (s : Subject F)
      → kleene e silent s ⊑ kleene e answers s
  kleene-mono (Expr.ask q) answers s = ask_value-mono answers s q
  kleene-mono (Expr.not e) answers s = not3_mono _ _ (kleene-mono e answers s)
  kleene-mono (Expr.and es) answers s = all3-mono es answers s
  kleene-mono (Expr.or es) answers s = any3-mono es answers s
  kleene-mono _ answers s = inr refl

  all3-mono :
      {F : Type 0} ⦃fl : FloatOps F⦄ (es : Args F) (answers : String → Option Bool) (s : Subject F)
      → all3 (kleene_args es silent s) ⊑ all3 (kleene_args es answers s)
  all3-mono nil answers s = inr refl
  all3-mono (cons e es) answers s =
      and3_mono _ _ _ _ (kleene-mono e answers s) (all3-mono es answers s)

  any3-mono :
      {F : Type 0} ⦃fl : FloatOps F⦄ (es : Args F) (answers : String → Option Bool) (s : Subject F)
      → any3 (kleene_args es silent s) ⊑ any3 (kleene_args es answers s)
  any3-mono nil answers s = inr refl
  any3-mono (cons e es) answers s =
      or3_mono _ _ _ _ (kleene-mono e answers s) (any3-mono es answers s)

known : (x y : Option Bool) (b : Bool) → x ⊑ y → x ≡ some b → y ≡ some b
known x y b (inl p) q = cc
known x y b (inr p) q = cc

-- If no leaf of the expression raises on the profile and a verdict that is evaluated with no judge
-- has a decided value, then with any judge that answers each question alike whenever it is asked,
-- evaluation returns a verdict with the same value, from every state of the judge.
pub decided_without_judge :
    {S F : Type 0} ⦃fl : FloatOps F⦄ (e : Expr F) (p : AnonymizedProfile F) (j : JudgeLike S F)
    (answers : String → Option Bool) (b : Bool) (v : Verdict F) (s : S)
    → IsEvaluable e (Subject.whole p)
    → Answers (some j) (Subject.whole p) answers
    → (evaluate {S = NoJudge} e p none tt).0 ≡ ok v
    → v.value ≡ some b
    → (w : Verdict F) × ((evaluate e p (some j) s).0 ≡ ok w) × (w.value ≡ some b)
decided_without_judge e p j answers b v s ev h run decided =
    let (v₁, e₁, k₁) = evaluate-kleene {S = NoJudge} e p none silent ev (λ q. refl) tt in
    let (v₂, e₂, k₂) = evaluate-kleene e p (some j) answers ev h s in
    let same : v₁ ≡ v = cc in
    let before : kleene e silent (Subject.whole p) ≡ some b =
      sym k₁ ∙ (ap (λ (u : Verdict _). u.value) same ∙ decided) in
    (v₂, e₂, k₂ ∙ known _ _ b (kleene-mono e answers (Subject.whole p)) before)
