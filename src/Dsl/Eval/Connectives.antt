-- ===== src/Dsl/Eval/Connectives.antt =====
-- rescan/dsl/eval.py: AND, OR and NOT. The arguments come as actions, since each is evaluated only
-- when the loop reaches it: `S` is what a judge changes.
use rescan.Prelude.{
  ℕ, suc, String, Bool, true, false, Option, none, some, List, [], ◌∷◌, ◌++◌, if◌then◌else◌, filter,
  any, not,
}
use rescan.Prelude.Text.{concat, join, letter}
use rescan.Prelude.Result.{Exec, pure, ◌>>=◌}
use rescan.Dsl.Eval.Leaf.{verdict}
use rescan.Dsl.Eval.Records.{is_yes, is_no, is_unknown}
use rescan.Dsl.Verdict.{Verdict, Observed, Observations, nil, cons}

-- An argument: whether it has an ASK, and its evaluation.
abbrev pub Action : Type 0 → Type 0 → Type 0
Action S F = Bool × Exec S (Verdict F)

abbrev pub asks : {S F : Type 0} → Action S F → Bool
asks a = a.0

-- sorted(args, key=has_ask): stable, so the arguments without an ASK come first
unfoldable pub ordered : {S F : Type 0} → List (Action S F) → List (Action S F)
ordered args = filter (λ a. not (asks a)) args ++ filter asks args

abbrev pub observations : {F : Type 0} → List (Verdict F) → Observations F
observations [] = nil
observations (v ∷ vs) = cons v.observed (observations vs)

abbrev pub reasons_of : {F : Type 0} → (Option Bool → Bool) → List (Verdict F) → List String
reasons_of test [] = []
reasons_of test (v ∷ vs) =
    if test v.value then v.reason ∷ reasons_of test vs else reasons_of test vs

abbrev pub any_value : {F : Type 0} → (Option Bool → Bool) → List (Verdict F) → Bool
any_value test vs = any (λ v. test v.value) vs

abbrev all_values : Option Bool → Bool
all_values _ = true

-- The end of `_and`, when no argument is false.
unfoldable pub and_verdict : {F : Type 0} → List (Verdict F) → Verdict F
and_verdict vs =
    if any_value is_unknown vs
    then verdict none (join " " (reasons_of is_unknown vs)) (Observed.several (observations vs))
    else verdict (some true) (join " " (reasons_of all_values vs))
        (Observed.several (observations vs))

abbrev failed_verdict : {F : Type 0} → List (Verdict F) → Verdict F
failed_verdict vs =
    verdict (some false) (join " " (reasons_of is_no vs)) (Observed.several (observations vs))

-- The loop of `_and`, with the verdicts so far.
unfoldable pub and_loop : {S F : Type 0} → List (Verdict F) → List (Action S F) → Exec S (Verdict F)
and_loop vs [] = pure (and_verdict vs)
and_loop vs ((has, act) ∷ rest) = act >>= λ v.
    if is_no v.value then pure (failed_verdict (vs ++ v ∷ [])) else and_loop (vs ++ v ∷ []) rest

-- `(a) …; (b) …`
abbrev alternatives : {F : Type 0} → ℕ → List (Verdict F) → List String
alternatives n [] = []
alternatives n (v ∷ vs) = concat ("(" ∷ letter n ∷ ") " ∷ v.reason ∷ []) ∷ alternatives (suc n) vs

unfoldable pub or_verdict : {F : Type 0} → List (Verdict F) → Verdict F
or_verdict vs =
    if any_value is_unknown vs
    then verdict none
        (concat ("Could not decide an alternative: " ∷ join " " (reasons_of is_unknown vs) ∷ []))
        (Observed.several (observations vs))
    else verdict (some false)
        (concat ("None of the alternatives were met: " ∷ join "; " (alternatives 0 vs) ∷ []))
        (Observed.several (observations vs))

-- The loop of `_or`, with the verdicts so far.
unfoldable pub or_loop : {S F : Type 0} → List (Verdict F) → List (Action S F) → Exec S (Verdict F)
or_loop vs [] = pure (or_verdict vs)
or_loop vs ((has, act) ∷ rest) = act >>= λ v.
    if is_yes v.value
    then pure (verdict (some true) v.reason v.observed)
    else or_loop (vs ++ v ∷ []) rest

-- `_not`
unfoldable pub not_verdict : {F : Type 0} → Verdict F → Verdict F
not_verdict v = elim v.value [
  | none ↦ v
  | some true ↦
      verdict (some false) (concat (v.reason ∷ " The rule requires the opposite." ∷ [])) v.observed
  | some false ↦
      verdict (some true) (concat (v.reason ∷ " The rule requires exactly that." ∷ [])) v.observed
]
