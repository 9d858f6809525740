-- ===== src/Dsl/Eval/Lazy.antt =====
-- When the structured part of AND or OR decides it, no judge is asked.
use rescan.Prelude.{
  ◌≡◌, refl, ◌∙◌, sym, Bool, true, false, not, ◌||◌, Option, List, [], ◌∷◌, ◌++◌, arith, ◌⊎◌, inl,
  inr, Bool-cases, filter, All,
}
use rescan.Prelude.Float.{FloatOps}
use rescan.Prelude.Result.{Result, PyError, ok, err, Exec, ◌>>=◌}
use rescan.Dsl.Ast.{Expr, Args, nil, cons, no_where, only, has_ask}
use rescan.Dsl.Ast.Asks.{any_asks, has_ask-not, has_ask-and, has_ask-or, has_ask-ask}
use rescan.Dsl.Verdict.{Verdict}
use rescan.Dsl.Eval.Records.{is_yes, is_no}
use rescan.Dsl.Eval.Connectives.{Action, asks, ordered, and_loop, or_loop}
use rescan.Dsl.Eval.Evaluate.{Subject, JudgeLike, evaluate_in, actions}

-- The action changes nothing.
abbrev Quiet : {S F : Type 0} → Exec S (Verdict F) → Type 0
Quiet {S} m = (s : S) → (m s).1 ≡ s

abbrev AllQuiet : {S F : Type 0} → List (Action S F) → Type 0
AllQuiet acts = All (λ a. Quiet a.1) acts

-- One of the actions returns, at this state, a verdict that passes the test.
abbrev Settles : {S F : Type 0} → (Option Bool → Bool) → List (Action S F) → S → Type 0
Settles test [] s = ⊥
Settles {S} {F} test (a ∷ acts) s =
    ((v : Verdict F) × ((a.1 s).0 ≡ ok v) × (test v.value ≡ true)) ⊎ Settles test acts s

Result-cases : {A : Type 0} (r : Result A) → ((a : A) × (r ≡ ok a)) ⊎ ((e : PyError) × (r ≡ err e))
Result-cases (ok a) = inl (a, refl)
Result-cases (err e) = inr (e, refl)

after_ok :
    {S F : Type 0} (m : Exec S (Verdict F)) (f : Verdict F → Exec S (Verdict F)) (s : S)
    {v : Verdict F}
    → Quiet m
    → (m s).0 ≡ ok v
    → (m >>= f) s ≡ f v s
after_ok m f s q e = rw (e, q s)

after_err :
    {S F : Type 0} (m : Exec S (Verdict F)) (f : Verdict F → Exec S (Verdict F)) (s : S)
    {x : PyError}
    → Quiet m
    → (m s).0 ≡ err x
    → ((m >>= f) s).1 ≡ s
after_err m f s q e = rw (e, q s)

-- A settling verdict among quiet actions ends the loop before the actions that follow them.
and_loop-Quiet :
    {S F : Type 0} (vs : List (Verdict F)) (acts rest : List (Action S F)) (s : S)
    → AllQuiet acts
    → Settles is_no acts s
    → (and_loop vs (acts ++ rest) s).1 ≡ s
unfolding and_loop
and_loop-Quiet vs [] rest s q h = absurd h
and_loop-Quiet {F = F} vs ((has, act) ∷ acts) rest s (q, qs) h = elim (Result-cases (act s).0) [
  | inr (x, e) ↦ after_err act _ s q e
  | inl (v, e) ↦ elim (Bool-cases (is_no v.value)) [
    | inl stop ↦ rw (after_ok act _ s q e, stop)
    | inr go ↦
        rw (after_ok act _ s q e, go)
          (and_loop-Quiet (vs ++ v ∷ []) acts rest s qs (later h v e go))
  ]
]
  where
    later :
        ((v : Verdict F) × ((act s).0 ≡ ok v) × (is_no v.value ≡ true)) ⊎ Settles is_no acts s
        → (v : Verdict F) → (act s).0 ≡ ok v
        → is_no v.value ≡ false
        → Settles is_no acts s
    later (inr k) v e go = k
    later (inl (w, d, yes')) v e go = cc

or_loop-Quiet :
    {S F : Type 0} (vs : List (Verdict F)) (acts rest : List (Action S F)) (s : S)
    → AllQuiet acts
    → Settles is_yes acts s
    → (or_loop vs (acts ++ rest) s).1 ≡ s
unfolding or_loop
or_loop-Quiet vs [] rest s q h = absurd h
or_loop-Quiet {F = F} vs ((has, act) ∷ acts) rest s (q, qs) h = elim (Result-cases (act s).0) [
  | inr (x, e) ↦ after_err act _ s q e
  | inl (v, e) ↦ elim (Bool-cases (is_yes v.value)) [
    | inl stop ↦ rw (after_ok act _ s q e, stop)
    | inr go ↦
        rw (after_ok act _ s q e, go) (or_loop-Quiet (vs ++ v ∷ []) acts rest s qs (later h v e go))
  ]
]
  where
    later :
        ((v : Verdict F) × ((act s).0 ≡ ok v) × (is_yes v.value ≡ true)) ⊎ Settles is_yes acts s
        → (v : Verdict F) → (act s).0 ≡ ok v
        → is_yes v.value ≡ false
        → Settles is_yes acts s
    later (inr k) v e go = k
    later (inl (w, d, yes')) v e go = cc

-- Quiet actions make a quiet loop.
and_loop-AllQuiet :
    {S F : Type 0} (vs : List (Verdict F)) (acts : List (Action S F))
    → AllQuiet acts
    → Quiet (and_loop vs acts)
unfolding and_loop
and_loop-AllQuiet vs [] q s = refl
and_loop-AllQuiet vs ((has, act) ∷ acts) (q, qs) s = elim (Result-cases (act s).0) [
  | inr (x, e) ↦ after_err act _ s q e
  | inl (v, e) ↦ elim (Bool-cases (is_no v.value)) [
    | inl stop ↦ rw (after_ok act _ s q e, stop)
    | inr go ↦ rw (after_ok act _ s q e, go) (and_loop-AllQuiet (vs ++ v ∷ []) acts qs s)
  ]
]

or_loop-AllQuiet :
    {S F : Type 0} (vs : List (Verdict F)) (acts : List (Action S F))
    → AllQuiet acts
    → Quiet (or_loop vs acts)
unfolding or_loop
or_loop-AllQuiet vs [] q s = refl
or_loop-AllQuiet vs ((has, act) ∷ acts) (q, qs) s = elim (Result-cases (act s).0) [
  | inr (x, e) ↦ after_err act _ s q e
  | inl (v, e) ↦ elim (Bool-cases (is_yes v.value)) [
    | inl stop ↦ rw (after_ok act _ s q e, stop)
    | inr go ↦ rw (after_ok act _ s q e, go) (or_loop-AllQuiet (vs ++ v ∷ []) acts qs s)
  ]
]

All-filter :
    {A : Type 0} (P : A → Type 0) (test : A → Bool) (xs : List A)
    → All P xs
    → All P (filter test xs)
All-filter P test [] h = tt
All-filter P test (x ∷ xs) (h, hs) = elim (Bool-cases (test x)) [
  | inl e ↦ rw e (h, All-filter P test xs hs)
  | inr e ↦ rw e (All-filter P test xs hs)
]

All-append : {A : Type 0} (P : A → Type 0) (xs ys : List A) → All P xs → All P ys → All P (xs ++ ys)
All-append P [] ys h k = k
All-append P (x ∷ xs) ys (h, hs) k = (h, All-append P xs ys hs k)

ordered-AllQuiet :
    {S F : Type 0} (acts : List (Action S F)) → AllQuiet acts → AllQuiet (ordered acts)
unfolding ordered
ordered-AllQuiet acts q =
    All-append (λ a. Quiet a.1) (filter (λ a. not (asks a)) acts) (filter asks acts)
      (All-filter (λ a. Quiet a.1) (λ a. not (asks a)) acts q)
      (All-filter (λ a. Quiet a.1) asks acts q)

or_false : (a b : Bool) → (a || b) ≡ false → (a ≡ false) × (b ≡ false)
or_false a b h = ground arith

mutual
  unfolding evaluate_in

  -- Without an ASK the evaluation changes nothing.
  evaluate_in-Quiet :
      {S F : Type 0} ⦃fl : FloatOps F⦄ (e : Expr F) (s : Subject F) (j : Option (JudgeLike S F))
      → has_ask e ≡ false
      → Quiet (evaluate_in e s j)
  evaluate_in-Quiet {F = F} (Expr.ask q) s j h st = cc (has_ask-ask F q)
  evaluate_in-Quiet (Expr.not e) s j h st = elim (Result-cases (evaluate_in e s j st).0) [
    | inr (x, k) ↦
        after_err (evaluate_in e s j) _ st (evaluate_in-Quiet e s j (sym (has_ask-not e) ∙ h)) k
    | inl (v, k) ↦
        rw (after_ok (evaluate_in e s j) _ st (evaluate_in-Quiet e s j (sym (has_ask-not e) ∙ h)) k)
  ]
  evaluate_in-Quiet (Expr.and es) s j h st =
      and_loop-AllQuiet [] _ (ordered-AllQuiet _ (actions-Quiet es s j (sym (has_ask-and es) ∙ h)))
        st
  evaluate_in-Quiet (Expr.or es) s j h st =
      or_loop-AllQuiet [] _ (ordered-AllQuiet _ (actions-Quiet es s j (sym (has_ask-or es) ∙ h))) st
  evaluate_in-Quiet (Expr.aggregate fn r f no_where c x) s j h st = refl
  evaluate_in-Quiet (Expr.aggregate fn r f (only w) c x) s j h st = refl
  evaluate_in-Quiet _ s j h st = refl

  actions-Quiet :
      {S F : Type 0} ⦃fl : FloatOps F⦄ (es : Args F) (s : Subject F) (j : Option (JudgeLike S F))
      → any_asks es ≡ false
      → AllQuiet (actions es s j)
  actions-Quiet nil s j h = tt
  actions-Quiet (cons e es) s j h =
      let (k, ks) = or_false (has_ask e) (any_asks es) h in
      (evaluate_in-Quiet e s j k, actions-Quiet es s j ks)

-- An argument without an ASK whose verdict, at this state, passes the test.
abbrev pub SettledBy :
    {S F : Type 0} ⦃fl : FloatOps F⦄
    → (Option Bool → Bool)
    → Args F
    → Subject F
    → Option (JudgeLike S F)
    → S
    → Type 0
SettledBy test nil s j st = ⊥
SettledBy {F = F} test (cons e es) s j st =
    ((has_ask e ≡ false)
      × (v : Verdict F) × ((evaluate_in e s j st).0 ≡ ok v)
      × (test v.value ≡ true))
    ⊎ SettledBy test es s j st

structured : {S F : Type 0} → Action S F → Bool
structured a = not (asks a)

structured-AllQuiet :
    {S F : Type 0} ⦃fl : FloatOps F⦄ (es : Args F) (s : Subject F) (j : Option (JudgeLike S F))
    → AllQuiet (filter structured (actions es s j))
unfolding structured evaluate_in
structured-AllQuiet nil s j = tt
structured-AllQuiet (cons e es) s j = elim (Bool-cases (has_ask e)) [
  | inl k ↦ rw k (structured-AllQuiet es s j)
  | inr k ↦ rw k (evaluate_in-Quiet e s j k, structured-AllQuiet es s j)
]

structured-Settles :
    {S F : Type 0} ⦃fl : FloatOps F⦄ (test : Option Bool → Bool) (es : Args F) (s : Subject F)
    (j : Option (JudgeLike S F)) (st : S)
    → SettledBy test es s j st
    → Settles test (filter structured (actions es s j)) st
unfolding structured evaluate_in
structured-Settles test nil s j st h = absurd h
structured-Settles test (cons e es) s j st (inl (k, v, d, t)) = rw k (inl (v, d, t))
structured-Settles test (cons e es) s j st (inr h) = elim (Bool-cases (has_ask e)) [
  | inl k ↦ rw k (structured-Settles test es s j st h)
  | inr k ↦ rw k (inr (structured-Settles test es s j st h))
]

-- If an argument of AND without an ASK is false, the evaluation of AND leaves the judge's state as
-- it was: no model call is spent.
pub and_asks_no_judge :
    {S F : Type 0} ⦃fl : FloatOps F⦄ (es : Args F) (s : Subject F) (j : Option (JudgeLike S F))
    (st : S)
    → SettledBy is_no es s j st
    → (evaluate_in (Expr.and es) s j st).1 ≡ st
unfolding evaluate_in ordered structured
and_asks_no_judge es s j st h =
    and_loop-Quiet [] (filter structured (actions es s j)) (filter asks (actions es s j)) st
      (structured-AllQuiet es s j) (structured-Settles is_no es s j st h)

-- If an argument of OR without an ASK is true, the evaluation of OR leaves the judge's state as it
-- was.
pub or_asks_no_judge :
    {S F : Type 0} ⦃fl : FloatOps F⦄ (es : Args F) (s : Subject F) (j : Option (JudgeLike S F))
    (st : S)
    → SettledBy is_yes es s j st
    → (evaluate_in (Expr.or es) s j st).1 ≡ st
unfolding evaluate_in ordered structured
or_asks_no_judge es s j st h =
    or_loop-Quiet [] (filter structured (actions es s j)) (filter asks (actions es s j)) st
      (structured-AllQuiet es s j) (structured-Settles is_yes es s j st h)
