-- ===== src/Pipeline/Ensemble/Kept.antt =====
-- rescan/pipeline/ensemble.py: the ensemble pass drops and adds no candidate.
use mathlib.Core.List.{Perm}
use mathlib.Core.List.Perm
use rescan.Prelude.{
  ◌≡◌, refl, sym, ap, ◌∙◌, subst, ℕ, String, Option, some, List, [], ◌∷◌, map, filter, All, is_some,
  Option-cases, or_default, arith, inl, inr,
}
use rescan.Prelude.Float.{FloatOps}
use rescan.Prelude.Text.{str_eq, eq_iff}
use rescan.Prelude.Result.{
  Attempt, done, declined, Result, ok, err, PyError, Exec, continue, pure, ◌>>=◌,
}
use rescan.Schemas.{EnsembleVote, AnonymizedProfile, RoleSpec, CandidateScore}
use rescan.Dsl.Eval.Evaluate.{JudgeLike}
use rescan.Pipeline.Rank.Score.{RankClient, get}
use rescan.Pipeline.Rank.Criteria.{Criterion}
use rescan.Pipeline.Rank.Settled.{get_cases}
use rescan.Pipeline.Rank.Order.{by_score, by_score-Perm}
use rescan.Pipeline.Ensemble.{
  scored_of, member_vote, Member, caught, attempt, member_scores, ensemble_members, combine_members,
  combine_all, ensemble_score, cutoff_of, rescore_all, merge, ensemble_pass,
}

-- What a call returns, if it does not raise, satisfies `P`.
pub data Returns {A : Type 0} (P : A → Type 0) : Result A → Type 0 where
  returned : (a : A) → P a → Returns P (ok a)
  raised : (e : PyError) → Returns P (err e)

Returns-any : {A : Type 0} (r : Result A) → Returns (λ _. Unit) r
Returns-any (ok a) = returned a tt
Returns-any (err e) = Returns.raised e

module _ {S A B : Type 0} {P : A → Type 0} {Q : B → Type 0} where
  continue-Returns :
      (f : A → Exec S B) {r : Result A} (s : S)
      → Returns P r
      → ((a : A) (s' : S) → P a → Returns Q (f a s').0)
      → Returns Q (continue r f s).0
  continue-Returns f s (returned a h) k = k a s h
  continue-Returns f s (Returns.raised e) k = Returns.raised e

  bind-Returns :
      (m : Exec S A) (f : A → Exec S B) (s : S)
      → Returns P (m s).0
      → ((a : A) (s' : S) → P a → Returns Q (f a s').0)
      → Returns Q ((m >>= f) s).0
  bind-Returns m f s h k = continue-Returns f (m s).1 h k

abbrev IfDone : {A : Type 0} → (A → Type 0) → Attempt A → Type 0
IfDone P (declined text) = Unit
IfDone P (done a) = P a

module _ {A : Type 0} {P : A → Type 0} where
  caught-Returns : {r : Result A} → Returns P r → Returns (IfDone P) (caught r)
  caught-Returns (returned a h) = returned (done a) h
  caught-Returns (Returns.raised (PyError.ranking_error text)) = returned (declined text) tt
  caught-Returns (Returns.raised e) = Returns.raised e

-- each value of a dictionary is of its key
abbrev pub KeyedBy : {A : Type 0} → (A → String) → List (String × A) → Type 0
KeyedBy ref d = All (λ kv. ref kv.1 ≡ kv.0) d

get-KeyedBy :
    {A : Type 0} (ref : A → String) (k : String) (d : List (String × A)) (v : A)
    → KeyedBy ref d
    → get k d ≡ some v
    → ref v ≡ k
get-KeyedBy ref k [] v t h = ground (arith, h)
get-KeyedBy ref k ((j, w) ∷ d) v (e, t) h = elim (get_cases (str_eq j k) w v (get k d) h) [
  | inl (same, found) ↦ ap ref (sym found) ∙ e ∙ (eq_iff j k).0 same
  | inr found ↦ get-KeyedBy ref k d v t found
]

module _ {S F : Type 0} ⦃fl : FloatOps F⦄ (profiles : List (String × AnonymizedProfile F))
    (role : RoleSpec F) (client : Member → RankClient S F) (cs : List (Criterion F))
    (models : List String) (judge : Option (JudgeLike S F)) where
  abbrev ref_of : CandidateScore F → String
  ref_of s = s.candidate_ref

  combine_all-Returns :
      (p : AnonymizedProfile F) (cutoff : F) (votes : List (EnsembleVote F))
      (results : List (CandidateScore F)) (s : S)
      → Returns (λ x. ref_of x ≡ p.candidate_ref) (combine_all p cutoff votes results s).0
  unfolding combine_members
  combine_all-Returns p cutoff votes [] s = Returns.raised _
  combine_all-Returns p cutoff votes (r ∷ rs) s = returned _ refl

  ensemble_score-Returns :
      (p : AnonymizedProfile F) (cutoff : F) (s : S)
      → Returns
          (λ x. ref_of x ≡ p.candidate_ref)
          (ensemble_score p role client cutoff cs models judge s).0
  unfolding ensemble_score
  ensemble_score-Returns p cutoff s =
      bind-Returns (member_scores p role client cs judge (ensemble_members models)) _ s
        (Returns-any _)
        λ outcomes s' _.
          combine_all-Returns p cutoff (map (member_vote cutoff) outcomes) (scored_of outcomes) s'

  rescore_all-Returns :
      (cutoff : F) (refs : List String) (s : S)
      → KeyedBy (λ p. AnonymizedProfile.candidate_ref p) profiles
      → Returns (KeyedBy ref_of) (rescore_all profiles role client cutoff cs models judge refs s).0
  unfolding rescore_all
  rescore_all-Returns cutoff [] s keyed = returned [] tt
  rescore_all-Returns cutoff (ref ∷ refs) s keyed = elim (Option-cases (get ref profiles)) [
    | inl e ↦ rw (e, rescore_all) (rescore_all-Returns cutoff refs s keyed)
    | inr (p, e) ↦
        rw (e, rescore_all)
          (bind-Returns (attempt (ensemble_score p role client cutoff cs models judge)) _ s
            (caught-Returns (ensemble_score-Returns p cutoff s))
            λ o s1 h.
              bind-Returns (rescore_all profiles role client cutoff cs models judge refs) _ s1
                (rescore_all-Returns cutoff refs s1 keyed)
                λ rest s2 hs. returned _ (add p o rest (get-KeyedBy _ ref profiles p keyed e) h hs))
  ]
    where
      add :
          (p : AnonymizedProfile F) (o : Attempt (CandidateScore F))
          (rest : List (String × CandidateScore F))
          → p.candidate_ref ≡ ref
          → IfDone (λ x. ref_of x ≡ p.candidate_ref) o
          → KeyedBy ref_of rest
          → KeyedBy ref_of (elim o [ declined text ↦ rest | done x ↦ (ref, x) ∷ rest ])
      add p (declined text) rest e h hs = hs
      add p (done x) rest e h hs = (h ∙ e, hs)

  merge-ref :
      (d : List (String × CandidateScore F)) (s : CandidateScore F)
      → KeyedBy ref_of d
      → ref_of (merge d s) ≡ ref_of s
  merge-ref d s keyed = elim (Option-cases (get s.candidate_ref d)) [
    | inl e ↦ ap (λ o. ref_of (or_default o s)) e
    | inr (x, e) ↦
        ap (λ o. ref_of (or_default o s)) e ∙ get-KeyedBy ref_of s.candidate_ref d x keyed e
  ]

  merged-refs :
      (d : List (String × CandidateScore F)) (scores : List (CandidateScore F))
      → KeyedBy ref_of d
      → map ref_of (map (merge d) scores) ≡ map ref_of scores
  merged-refs d [] keyed = refl
  merged-refs d (s ∷ ss) keyed = λ i. merge-ref d s keyed i ∷ merged-refs d ss keyed i

  sorted-refs :
      (d : List (String × CandidateScore F)) (scores : List (CandidateScore F))
      → KeyedBy ref_of d
      → Perm (map ref_of (by_score (map (merge d) scores))) (map ref_of scores)
  sorted-refs d scores keyed =
      subst (λ refs. Perm (map ref_of (by_score (map (merge d) scores))) refs)
        (merged-refs d scores keyed) (Perm.map ref_of (by_score-Perm (map (merge d) scores)))

  -- If each profile is kept under its own reference, the scores that the ensemble pass returns are
  -- of the candidates it was given, each as often as before: no candidate is dropped or added,
  -- whichever members fail.
  pub ensemble_pass-refs :
      (scores : List (CandidateScore F)) (refs : List String) (size : ℕ) (s : S)
      → KeyedBy (λ p. AnonymizedProfile.candidate_ref p) profiles
      → Returns
          (λ out. Perm (map ref_of out) (map ref_of scores))
          (ensemble_pass scores profiles role client refs size models cs judge s).0
  unfolding ensemble_pass
  ensemble_pass-refs scores refs size s keyed =
      targets (filter (λ ref. is_some (get ref profiles)) refs)
    where
      targets :
          (ts : List String)
          → Returns
              (λ out. Perm (map ref_of out) (map ref_of scores))
              ((elim ts as (λ _. Exec S (List (CandidateScore F))) [
                | [] ↦ pure scores
                | _ ∷ _ ↦
                    rescore_all profiles role client (cutoff_of scores size) cs models judge refs
                    >>= λ d. pure (by_score (map (merge d) scores))
              ])
                s).0
      targets [] = returned scores (Perm.refl (map ref_of scores))
      targets (t ∷ ts) =
          bind-Returns
            (rescore_all profiles role client (cutoff_of scores size) cs models judge refs) _ s
            (rescore_all-Returns (cutoff_of scores size) refs s keyed)
            λ d s' k. returned _ (sorted-refs d scores k)
