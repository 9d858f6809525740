-- ===== src/Pipeline/Rank/Shortlists.antt =====
-- rescan/pipeline/rank.py: what a shortlist keeps, and that each exclusion has its reasons.
use mathlib.Core.List.{Perm}
use mathlib.Core.List.Perm
use rescan.Prelude.{
  count_from, ℕ, zero, suc, ◌+◌, min, ◌≡◌, refl, sym, ap, ◌∙◌, String, Bool, true, false, not, List,
  [], ◌∷◌, ◌++◌, map, if◌then◌else◌, All, length, take, drop, arith, if_elim, count_if, ◌&&◌, leb,
}
use rescan.Prelude.Float.{FloatOps, IsOrdered}
use rescan.Schemas.{CandidateScore, CriterionScore, ShortlistEntry, Shortlist, RoleSpec, Exclusion}
use rescan.Rules.Models.{RuleOutcome}
use rescan.Rules.Engine.{
  ScreeningResult, eligible, needs_manual_review, failed, exclusion_reasons, is_nonempty,
}
use rescan.Pipeline.Rank.Order.{
  by_score, Tops, Descending, by_score-Perm, by_score-length, by_score-Descending, by_score-fixed,
}
use rescan.Pipeline.Rank.Select.{
  nth, near_refs, entry, entries_from, borderline_refs, exclusions, review_notes, build_shortlist,
}

take-length : {A : Type 0} (n : ℕ) (xs : List A) → length (take n xs) ≡ min n (length xs)
take-length zero xs = omega arith
take-length (suc n) [] = omega arith
take-length (suc n) (x ∷ xs) = omega (arith, take-length n xs)

module _ {F : Type 0} where
  -- every place of a shortlist, above and below the cut
  abbrev pub places : Shortlist F → List (ShortlistEntry F)
  places s = s.entries ++ s.below_cutoff

  -- what a place says of its candidate, and what a score does
  abbrev pub said_of : ShortlistEntry F → String × F × String × List (CriterionScore F)
  said_of e = (e.candidate_ref, e.score, e.rationale, e.criteria)

  abbrev pub scored : CandidateScore F → String × F × String × List (CriterionScore F)
  scored s = (s.candidate_ref, s.score, s.rationale, s.criteria)

module _ {F : Type 0} ⦃fl : FloatOps F⦄ where
  -- none of a list's numbers is above one before it
  abbrev pub NeverRises : List F → Type 0
  NeverRises [] = Unit
  NeverRises (x ∷ xs) = All (λ y. fl.lt x y ≡ false) xs × NeverRises xs

  join_cut :
      (b : List String) (n size m : ℕ) (ss : List (CandidateScore F))
      → m ≡ n + size
      → entries_from b n (take size ss) ++ entries_from b m (drop size ss) ≡ entries_from b n ss
  join_cut b n zero m ss h = ap (λ k. entries_from b k ss) (omega (arith, h))
  join_cut b n (suc size) m [] h = refl
  join_cut b n (suc size) m (s ∷ ss) h =
      ap (λ es. entry b s n ∷ es) (join_cut b (suc n) size m ss (omega (arith, h)))

  entries_from-rank :
      (b : List String) (n : ℕ) (ss : List (CandidateScore F))
      → map (λ e. ShortlistEntry.rank e) (entries_from b n ss) ≡ count_from n (length ss)
  entries_from-rank b n [] = refl
  entries_from-rank b n (s ∷ ss) = ap (λ ks. n ∷ ks) (entries_from-rank b (suc n) ss)

  entries_from-said :
      (b : List String) (n : ℕ) (ss : List (CandidateScore F))
      → map said_of (entries_from b n ss) ≡ map scored ss
  entries_from-said b n [] = refl
  entries_from-said b n (s ∷ ss) = ap (λ ks. scored s ∷ ks) (entries_from-said b (suc n) ss)

  entries_from-length :
      (b : List String) (n : ℕ) (ss : List (CandidateScore F))
      → length (entries_from b n ss) ≡ length ss
  entries_from-length b n [] = refl
  entries_from-length b n (s ∷ ss) = ap suc (entries_from-length b (suc n) ss)

  Tops-scores :
      (b : List String) (n : ℕ) (x : CandidateScore F) (ss : List (CandidateScore F))
      → Tops x ss
      → All (λ y. fl.lt x.score y ≡ false) (map (λ e. ShortlistEntry.score e) (entries_from b n ss))
  Tops-scores b n x [] t = tt
  Tops-scores b n x (s ∷ ss) (h, t) = (h, Tops-scores b (suc n) x ss t)

  Descending-scores :
      (b : List String) (n : ℕ) (ss : List (CandidateScore F))
      → Descending ss
      → NeverRises (map (λ e. ShortlistEntry.score e) (entries_from b n ss))
  Descending-scores b n [] d = tt
  Descending-scores b n (s ∷ ss) (t, d) =
      (Tops-scores b (suc n) s ss t, Descending-scores b (suc n) ss d)

  places-all :
      (ss : List (CandidateScore F)) (role : RoleSpec F) (size : ℕ) (margin : F)
      (screening : List (ScreeningResult F))
      → places (build_shortlist ss role size margin screening)
        ≡ entries_from (borderline_refs (by_score ss) size margin) 1 (by_score ss)
  unfolding build_shortlist
  places-all ss role size margin screening =
      join_cut _ 1 size (suc size) (by_score ss) (omega arith)

module _ {F : Type 0} ⦃fl : FloatOps F⦄ (ordered : IsOrdered fl) where
  -- If `<` orders the scores, every scored candidate has exactly one place on the shortlist, with
  -- its score, rationale and criteria; the ranks are 1, 2, … without a gap across the cut, no place
  -- has a higher score than one before it, and the entries are as many as the size or all the
  -- candidates.
  pub build_shortlist-places :
      (ss : List (CandidateScore F)) (role : RoleSpec F) (size : ℕ) (margin : F)
      (screening : List (ScreeningResult F))
      → let s = build_shortlist ss role size margin screening in
        Perm (map said_of (places s)) (map scored ss)
        × (map (λ e. ShortlistEntry.rank e) (places s) ≡ count_from 1 (length ss))
        × NeverRises (map (λ e. ShortlistEntry.score e) (places s))
        × (length s.entries ≡ min size (length ss))
  unfolding build_shortlist
  build_shortlist-places ss role size margin screening =
      let b = borderline_refs (by_score ss) size margin in
      let sorted = by_score ss in
      let all_places = places-all ss role size margin screening in
      (
        rw (ap (map said_of) all_places ∙ entries_from-said b 1 sorted)
            (Perm.map scored (by_score-Perm ss)),
        ap (map λ e. ShortlistEntry.rank e) all_places
            ∙ entries_from-rank b 1 sorted
            ∙ ap (count_from 1) (by_score-length ss),
        rw all_places (Descending-scores b 1 sorted (by_score-Descending ordered ss)),
        entries_from-length b 1 (take size sorted)
            ∙ take-length size sorted
            ∙ ap (min size) (by_score-length ss),
      )

  -- If `<` orders the scores, the borderline candidates do not depend on the order the scores come
  -- in after a sort: those of the sorted scores are those of the scores.
  borderline_refs-by_score :
      (ss : List (CandidateScore F)) (size : ℕ) (margin : F)
      → borderline_refs (by_score ss) size margin ≡ borderline_refs ss size margin
  unfolding borderline_refs
  borderline_refs-by_score ss zero margin = refl
  borderline_refs-by_score ss (suc n) margin =
      let same = by_score-fixed (by_score ss) (by_score-Descending ordered ss) in
      λ i.
        if leb (by_score-length ss i) (suc n)
        then []
        else near_refs (nth n (same i)) margin (same i)

-- An exclusion with a reason, and with as many reasons as failed rules.
abbrev pub HasReasons : Exclusion → Type 0
HasReasons x = (is_nonempty x.reasons ≡ true) × (length x.reasons ≡ length x.failed_rules)

length-map : {A B : Type 0} (f : A → B) (xs : List A) → length (map f xs) ≡ length xs
length-map f [] = refl
length-map f (x ∷ xs) = ap suc (length-map f xs)

nonempty-map : {A B : Type 0} (f : A → B) (xs : List A) → is_nonempty (map f xs) ≡ is_nonempty xs
nonempty-map f [] = refl
nonempty-map f (x ∷ xs) = refl

not_not : (b : Bool) → not (not b) ≡ true → b ≡ true
not_not b h = ground (arith, h)

module _ {F : Type 0} where
  excluded-reasons :
      (r : ScreeningResult F)
      → not (eligible r) ≡ true
      → (is_nonempty (exclusion_reasons r) ≡ true)
        × (length (exclusion_reasons r) ≡ length (map (λ o. RuleOutcome.source_text o) (failed r)))
  unfolding exclusion_reasons eligible
  excluded-reasons r h = (
    nonempty-map _ (failed r) ∙ not_not (is_nonempty (failed r)) h,
    length-map _ (failed r) ∙ sym (length-map _ (failed r)),
  )

  exclusions-HasReasons : (rs : List (ScreeningResult F)) → All HasReasons (exclusions rs)
  unfolding exclusions
  exclusions-HasReasons [] = tt
  exclusions-HasReasons (r ∷ rs) =
      if_elim (All HasReasons) (not (eligible r))
        (λ h. (excluded-reasons r h, exclusions-HasReasons rs)) (λ h. exclusions-HasReasons rs)

  -- the candidates that screening lets through with no open question
  abbrev pub is_cleared : ScreeningResult F → Bool
  is_cleared r = eligible r && not (needs_manual_review r)

  partition :
      (rs : List (ScreeningResult F))
      → length (exclusions rs) + (length (review_notes rs) + count_if is_cleared rs) ≡ length rs
  unfolding exclusions review_notes
  partition [] = refl
  partition (r ∷ rs) = ground (arith, partition rs)

module _ {F : Type 0} ⦃fl : FloatOps F⦄ where
  -- A shortlist excludes nobody without a reason: each exclusion has at least one, and as many as
  -- failed rules. And nobody is lost: excluded, sent to manual review and cleared are all there
  -- are.
  pub build_shortlist-exclusions :
      (ss : List (CandidateScore F)) (role : RoleSpec F) (size : ℕ) (margin : F)
      (screening : List (ScreeningResult F))
      → let s = build_shortlist ss role size margin screening in
        All HasReasons s.excluded
        × (length s.excluded + (length s.manual_review + count_if is_cleared screening)
            ≡ length screening)
  unfolding build_shortlist
  build_shortlist-exclusions ss role size margin screening =
      (exclusions-HasReasons screening, partition screening)
