-- ===== src/Dsl/Eval/Kleene/Loops.antt =====
-- The loops of `_and` and `_or` compute Kleene's conjunction and disjunction of the arguments, in
-- whatever order `_ordered` puts them and wherever they stop.
use rescan.Prelude.{
  ◌≡◌, refl, ◌∙◌, sym, ap, Bool, true, false, not, Option, none, some, List, [], ◌∷◌, ◌++◌, arith,
  inl, inr, Bool-cases, filter, if◌then◌else◌,
}
use rescan.Prelude.Result.{Exec, ok, ◌>>=◌}
use rescan.Dsl.Verdict.{Verdict}
use rescan.Dsl.Eval.Records.{is_yes, is_no, is_unknown}
use rescan.Dsl.Eval.Connectives.{
  Action, asks, ordered, any_value, and_verdict, and_loop, or_verdict, or_loop,
}
use rescan.Dsl.Eval.Kleene.{and3, or3, all3, any3, and3_assoc, or3_assoc, all3-append, any3-append}

-- From every state the action returns a verdict, and its value is `x`.
abbrev pub Yields : {S F : Type 0} → Exec S (Verdict F) → Option Bool → Type 0
Yields {S} {F} m x = (s : S) → (v : Verdict F) × ((m s).0 ≡ ok v) × (v.value ≡ x)

abbrev pub AllYield : {S F : Type 0} → List (Action S F) → List (Option Bool) → Type 0
AllYield [] [] = Unit
AllYield [] (x ∷ xs) = ⊥
AllYield (a ∷ as') [] = ⊥
AllYield (a ∷ as') (x ∷ xs) = Yields a.1 x × AllYield as' xs

abbrev values : {F : Type 0} → List (Verdict F) → List (Option Bool)
values [] = []
values (v ∷ vs) = v.value ∷ values vs

values-append : {F : Type 0} (vs ws : List (Verdict F)) → values (vs ++ ws) ≡ values vs ++ values ws
values-append [] ws = refl
values-append (v ∷ vs) ws = λ i. v.value ∷ values-append vs ws i

any_value-append :
    {F : Type 0} (test : Option Bool → Bool) (vs : List (Verdict F)) (w : Verdict F)
    → any_value test vs ≡ false
    → test w.value ≡ false
    → any_value test (vs ++ w ∷ []) ≡ false
any_value-append test [] w h k = rw k
any_value-append test (v ∷ vs) w h k = ground (arith, any_value-append test vs w)

no_false :
    {F : Type 0} (vs : List (Verdict F))
    → any_value is_no vs ≡ false
    → all3 (values vs) ≡ (if any_value is_unknown vs then none else some true)
no_false [] h = refl
no_false (v ∷ vs) h = ground (arith, no_false vs)

no_true :
    {F : Type 0} (vs : List (Verdict F))
    → any_value is_yes vs ≡ false
    → any3 (values vs) ≡ (if any_value is_unknown vs then none else some false)
no_true [] h = refl
no_true (v ∷ vs) h = ground (arith, no_true vs)

and_verdict-value :
    {F : Type 0} (vs : List (Verdict F))
    → any_value is_no vs ≡ false
    → (and_verdict vs).value ≡ all3 (values vs)
unfolding and_verdict
and_verdict-value vs h = ground (arith, no_false vs h)

or_verdict-value :
    {F : Type 0} (vs : List (Verdict F))
    → any_value is_yes vs ≡ false
    → (or_verdict vs).value ≡ any3 (values vs)
unfolding or_verdict
or_verdict-value vs h = ground (arith, no_true vs h)

and3-true : (x : Option Bool) → and3 x (some true) ≡ x
and3-true x = ground arith

or3-false : (x : Option Bool) → or3 x (some false) ≡ x
or3-false x = ground arith

and3_no : (x y z : Option Bool) → is_no y ≡ true → some false ≡ and3 x (and3 y z)
and3_no x y z h = ground arith

or3_yes : (x y z : Option Bool) → is_yes y ≡ true → some true ≡ or3 x (or3 y z)
or3_yes x y z h = ground arith

-- One more verdict, in the value of those so far.
shift_and :
    {F : Type 0} (vs : List (Verdict F)) (v : Verdict F) (y : Option Bool)
    → and3 (all3 (values (vs ++ v ∷ []))) y ≡ and3 (all3 (values vs)) (and3 v.value y)
shift_and vs v y = rw (values-append vs (v ∷ [])) (
    rw (all3-append (values vs) (v.value ∷ []))
      (rw (and3-true v.value) (and3_assoc (all3 (values vs)) v.value y)))

shift_or :
    {F : Type 0} (vs : List (Verdict F)) (v : Verdict F) (y : Option Bool)
    → or3 (any3 (values (vs ++ v ∷ []))) y ≡ or3 (any3 (values vs)) (or3 v.value y)
shift_or vs v y = rw (values-append vs (v ∷ [])) (
    rw (any3-append (values vs) (v.value ∷ []))
      (rw (or3-false v.value) (or3_assoc (any3 (values vs)) v.value y)))

pub step-eq :
    {S F : Type 0} (m : Exec S (Verdict F)) (f : Verdict F → Exec S (Verdict F)) (s : S)
    {v : Verdict F}
    → (m s).0 ≡ ok v
    → (m >>= f) s ≡ f v (m s).1
step-eq m f s e = rw e

and_loop-Yields :
    {S F : Type 0} (vs : List (Verdict F)) (acts : List (Action S F)) (xs : List (Option Bool))
    → any_value is_no vs ≡ false
    → AllYield acts xs
    → Yields (and_loop vs acts) (and3 (all3 (values vs)) (all3 xs))
unfolding and_loop
and_loop-Yields vs [] [] h y s =
    (and_verdict vs, refl, and_verdict-value vs h ∙ sym (and3-true (all3 (values vs))))
and_loop-Yields vs [] (x ∷ xs) h y s = absurd y
and_loop-Yields vs ((has, act) ∷ acts) [] h y s = absurd y
and_loop-Yields vs ((has, act) ∷ acts) (x ∷ xs) h (y, ys) s =
    let (v, e, ev) = y s in
    elim (Bool-cases (is_no v.value)) [
      | inl stop ↦
          rw (step-eq act _ s e, stop)
            (_, refl, rw (← ev) (and3_no (all3 (values vs)) v.value (all3 xs) stop))
      | inr go ↦
          let (w, p, q) =
            and_loop-Yields (vs ++ v ∷ []) acts xs (any_value-append is_no vs v h go) ys
              (act s).1 in
          rw (step-eq act _ s e, go) (w, p, q ∙ rw (← ev) (shift_and vs v (all3 xs)))
    ]

or_loop-Yields :
    {S F : Type 0} (vs : List (Verdict F)) (acts : List (Action S F)) (xs : List (Option Bool))
    → any_value is_yes vs ≡ false
    → AllYield acts xs
    → Yields (or_loop vs acts) (or3 (any3 (values vs)) (any3 xs))
unfolding or_loop
or_loop-Yields vs [] [] h y s =
    (or_verdict vs, refl, or_verdict-value vs h ∙ sym (or3-false (any3 (values vs))))
or_loop-Yields vs [] (x ∷ xs) h y s = absurd y
or_loop-Yields vs ((has, act) ∷ acts) [] h y s = absurd y
or_loop-Yields vs ((has, act) ∷ acts) (x ∷ xs) h (y, ys) s =
    let (v, e, ev) = y s in
    elim (Bool-cases (is_yes v.value)) [
      | inl stop ↦
          rw (step-eq act _ s e, stop)
            (_, refl, rw (← ev) (or3_yes (any3 (values vs)) v.value (any3 xs) stop))
      | inr go ↦
          let (w, p, q) =
            or_loop-Yields (vs ++ v ∷ []) acts xs (any_value-append is_yes vs v h go) ys
              (act s).1 in
          rw (step-eq act _ s e, go) (w, p, q ∙ rw (← ev) (shift_or vs v (any3 xs)))
    ]

-- The values of the actions that pass a test.
picked :
    {S F : Type 0}
    → (Action S F → Bool)
    → List (Action S F)
    → List (Option Bool)
    → List (Option Bool)
picked test [] xs = []
picked test (a ∷ acts) [] = []
picked test (a ∷ acts) (x ∷ xs) = if test a then x ∷ picked test acts xs else picked test acts xs

AllYield-filter :
    {S F : Type 0} (test : Action S F → Bool) (acts : List (Action S F)) (xs : List (Option Bool))
    → AllYield acts xs
    → AllYield (filter test acts) (picked test acts xs)
unfolding picked
AllYield-filter test [] [] y = tt
AllYield-filter test [] (x ∷ xs) y = absurd y
AllYield-filter test (a ∷ acts) [] y = absurd y
AllYield-filter test (a ∷ acts) (x ∷ xs) (y, ys) = elim (Bool-cases (test a)) [
  | inl e ↦ rw e (y, AllYield-filter test acts xs ys)
  | inr e ↦ rw e (AllYield-filter test acts xs ys)
]

AllYield-append :
    {S F : Type 0} (as' bs : List (Action S F)) (xs ys : List (Option Bool))
    → AllYield as' xs
    → AllYield bs ys
    → AllYield (as' ++ bs) (xs ++ ys)
AllYield-append [] bs [] ys p q = q
AllYield-append [] bs (x ∷ xs) ys p q = absurd p
AllYield-append (a ∷ as') bs [] ys p q = absurd p
AllYield-append (a ∷ as') bs (x ∷ xs) ys (p, ps) q = (p, AllYield-append as' bs xs ys ps q)

abbrev sorted_values : {S F : Type 0} → List (Action S F) → List (Option Bool) → List (Option Bool)
sorted_values acts xs = picked (λ a. not (asks a)) acts xs ++ picked asks acts xs

ordered-AllYield :
    {S F : Type 0} (acts : List (Action S F)) (xs : List (Option Bool))
    → AllYield acts xs
    → AllYield (ordered acts) (sorted_values acts xs)
unfolding ordered
ordered-AllYield acts xs y =
    AllYield-append (filter (λ a. not (asks a)) acts) (filter asks acts) _ _
      (AllYield-filter (λ a. not (asks a)) acts xs y) (AllYield-filter asks acts xs y)

and3_left : (x y z : Option Bool) → and3 y (and3 x z) ≡ and3 x (and3 y z)
and3_left x y z = ground arith

or3_left : (x y z : Option Bool) → or3 y (or3 x z) ≡ or3 x (or3 y z)
or3_left x y z = ground arith

all3-picked :
    {S F : Type 0} (acts : List (Action S F)) (xs : List (Option Bool))
    → AllYield acts xs
    → and3 (all3 (picked (λ a. not (asks a)) acts xs)) (all3 (picked asks acts xs)) ≡ all3 xs
unfolding picked
all3-picked [] [] y = refl
all3-picked [] (x ∷ xs) y = absurd y
all3-picked (a ∷ acts) [] y = absurd y
all3-picked (a ∷ acts) (x ∷ xs) (y, ys) = elim (Bool-cases (asks a)) [
  | inl e ↦ rw e (and3_left x _ _ ∙ ap (and3 x) (all3-picked acts xs ys))
  | inr e ↦ rw e (and3_assoc x _ _ ∙ ap (and3 x) (all3-picked acts xs ys))
]

any3-picked :
    {S F : Type 0} (acts : List (Action S F)) (xs : List (Option Bool))
    → AllYield acts xs
    → or3 (any3 (picked (λ a. not (asks a)) acts xs)) (any3 (picked asks acts xs)) ≡ any3 xs
unfolding picked
any3-picked [] [] y = refl
any3-picked [] (x ∷ xs) y = absurd y
any3-picked (a ∷ acts) [] y = absurd y
any3-picked (a ∷ acts) (x ∷ xs) (y, ys) = elim (Bool-cases (asks a)) [
  | inl e ↦ rw e (or3_left x _ _ ∙ ap (or3 x) (any3-picked acts xs ys))
  | inr e ↦ rw e (or3_assoc x _ _ ∙ ap (or3 x) (any3-picked acts xs ys))
]

-- `_and` yields the conjunction of what its arguments yield.
pub and-Yields :
    {S F : Type 0} (acts : List (Action S F)) (xs : List (Option Bool))
    → AllYield acts xs
    → Yields (and_loop [] (ordered acts)) (all3 xs)
and-Yields acts xs y s =
    let (v, p, q) =
      and_loop-Yields [] (ordered acts) (sorted_values acts xs) refl (ordered-AllYield acts xs y)
        s in
    (
      v,
      p,
      q
          ∙ (all3-append (picked (λ a. not (asks a)) acts xs) (picked asks acts xs)
              ∙ all3-picked acts xs y),
    )

-- `_or` yields the disjunction of what its arguments yield.
pub or-Yields :
    {S F : Type 0} (acts : List (Action S F)) (xs : List (Option Bool))
    → AllYield acts xs
    → Yields (or_loop [] (ordered acts)) (any3 xs)
or-Yields acts xs y s =
    let (v, p, q) =
      or_loop-Yields [] (ordered acts) (sorted_values acts xs) refl (ordered-AllYield acts xs y)
        s in
    (
      v,
      p,
      q
          ∙ (any3-append (picked (λ a. not (asks a)) acts xs) (picked asks acts xs)
              ∙ any3-picked acts xs y),
    )
