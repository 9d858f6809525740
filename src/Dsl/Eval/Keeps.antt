-- ===== src/Dsl/Eval/Keeps.antt =====
-- What a judge keeps of its state, evaluation keeps: it changes the state by asking the judge
-- alone.
use rescan.Prelude.{
  some, List, [], ◌∷◌, ◌++◌, not, filter, All, All-append_join, All-filter, if_elim,
}
use rescan.Prelude.Float.{FloatOps}
use rescan.Prelude.Result.{Exec, bind_elim, ◌>>=◌}
use rescan.Schemas.{AnonymizedProfile}
use rescan.Prelude.{String}
use rescan.Dsl.Ast.{Expr, Args, nil, cons, no_where, only}
use rescan.Dsl.Verdict.{Verdict}
use rescan.Dsl.Eval.Records.{is_yes, is_no}
use rescan.Dsl.Eval.Connectives.{Action, asks, ordered, and_loop, or_loop}
use rescan.Dsl.Eval.Evaluate.{Subject, JudgeLike, evaluate_in, actions, ask_judge}

-- `P` holds after the action where it holds before
abbrev pub Keeps : {S A : Type 0} → (S → Type 0) → Exec S A → Type 0
Keeps {S} P m = (s : S) → P s → P (m s).1

module _ {S : Type 0} (P : S → Type 0) where
  pub Keeps-bind :
      {A B : Type 0} (m : Exec S A) (f : A → Exec S B)
      → Keeps P m
      → ((a : A) → Keeps P (f a))
      → Keeps P (m >>= f)
  Keeps-bind m f k next s p =
      bind_elim (λ r. P r.1) m f s (λ a e. next a (m s).1 (k s p)) (λ x. k s p)

  abbrev AllKeep : {F : Type 0} → List (Action S F) → Type 0
  AllKeep acts = All (λ a. Keeps P a.1) acts

  ordered-AllKeep : {F : Type 0} (acts : List (Action S F)) → AllKeep acts → AllKeep (ordered acts)
  unfolding ordered
  ordered-AllKeep acts k =
      All-append_join (λ a. Keeps P a.1) (filter (λ a. not (asks a)) acts) (filter asks acts)
        (All-filter _ _ acts k) (All-filter _ _ acts k)

  and_loop-Keeps :
      {F : Type 0} (vs : List (Verdict F)) (acts : List (Action S F))
      → AllKeep acts
      → Keeps P (and_loop vs acts)
  unfolding and_loop
  and_loop-Keeps vs [] k = λ s p. p
  and_loop-Keeps {F} vs ((has, act) ∷ acts) (k, ks) = Keeps-bind act _ k λ v.
      if_elim (λ (m : Exec S (Verdict F)). Keeps P m) (is_no v.value) (λ _ s p. p)
        (λ _. and_loop-Keeps (vs ++ v ∷ []) acts ks)

  or_loop-Keeps :
      {F : Type 0} (vs : List (Verdict F)) (acts : List (Action S F))
      → AllKeep acts
      → Keeps P (or_loop vs acts)
  unfolding or_loop
  or_loop-Keeps vs [] k = λ s p. p
  or_loop-Keeps {F} vs ((has, act) ∷ acts) (k, ks) = Keeps-bind act _ k λ v.
      if_elim (λ (m : Exec S (Verdict F)). Keeps P m) (is_yes v.value) (λ _ s p. p)
        (λ _. or_loop-Keeps (vs ++ v ∷ []) acts ks)

  -- a judge that keeps `P`
  abbrev pub JudgeKeeps : {F : Type 0} → JudgeLike S F → Type 0
  JudgeKeeps {F = F} judge = (q : String) (p : AnonymizedProfile F) → Keeps P (judge q p)

  module _ {F : Type 0} ⦃fl : FloatOps F⦄ (judge : JudgeLike S F) (keeps : JudgeKeeps judge) where
    ask_judge-Keeps : (q : String) (subj : Subject F) → Keeps P (ask_judge q subj (some judge))
    unfolding ask_judge
    ask_judge-Keeps q (Subject.whole p) = keeps q p
    ask_judge-Keeps q (Subject.within r i) = λ s p. p

    mutual
      unfolding evaluate_in

      pub evaluate_in-Keeps :
          (e : Expr F) (subj : Subject F) → Keeps P (evaluate_in e subj (some judge))
      evaluate_in-Keeps (Expr.compare f c v) subj = λ s p. p
      evaluate_in-Keeps (Expr.has_any f vs) subj = λ s p. p
      evaluate_in-Keeps (Expr.has_all f vs) subj = λ s p. p
      evaluate_in-Keeps (Expr.in_values f vs) subj = λ s p. p
      evaluate_in-Keeps (Expr.is f v) subj = λ s p. p
      evaluate_in-Keeps (Expr.ask q) subj = ask_judge-Keeps q subj
      evaluate_in-Keeps (Expr.aggregate fn r f no_where c x) subj = λ s p. p
      evaluate_in-Keeps (Expr.aggregate fn r f (only e) c x) subj = λ s p. p
      evaluate_in-Keeps (Expr.not e) subj =
          Keeps-bind (evaluate_in e subj (some judge)) _ (evaluate_in-Keeps e subj) (λ v s p. p)
      evaluate_in-Keeps (Expr.and es) subj =
          and_loop-Keeps [] _ (ordered-AllKeep _ (actions-Keeps es subj))
      evaluate_in-Keeps (Expr.or es) subj =
          or_loop-Keeps [] _ (ordered-AllKeep _ (actions-Keeps es subj))
      evaluate_in-Keeps (Expr.any_record r e) subj = λ s p. p

      actions-Keeps : (es : Args F) (subj : Subject F) → AllKeep (actions es subj (some judge))
      actions-Keeps nil subj = tt
      actions-Keeps (cons e es) subj = (evaluate_in-Keeps e subj, actions-Keeps es subj)
