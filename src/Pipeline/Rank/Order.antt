-- ===== src/Pipeline/Rank/Order.antt =====
-- sorted(scores, key=lambda s: s.score, reverse=True): a stable sort, highest score first.
use mathlib.Core.List.{Perm}
use mathlib.Core.List.Perm
use rescan.Prelude.{
  suc, ◌≡◌, refl, ap, ◌∙◌, false, List, [], ◌∷◌, if◌then◌else◌, All, length, arith, if_elim,
}
use rescan.Prelude.Float.{FloatOps, IsOrdered}
use rescan.Schemas.{CandidateScore}

module _ {F : Type 0} ⦃fl : FloatOps F⦄ where
  -- `x` stood before the others, so it stays before those of its own score
  abbrev pub insert : CandidateScore F → List (CandidateScore F) → List (CandidateScore F)
  insert x [] = x ∷ []
  insert x (y ∷ ys) =
      let rest = insert x ys in if fl.lt x.score y.score then y ∷ rest else x ∷ y ∷ ys

  unfoldable pub by_score : List (CandidateScore F) → List (CandidateScore F)
  by_score [] = []
  by_score (x ∷ xs) = insert x (by_score xs)

  -- none of `ys` has a higher score than `x`
  abbrev pub Tops : CandidateScore F → List (CandidateScore F) → Type 0
  Tops x ys = All (λ y. fl.lt x.score (CandidateScore.score y) ≡ false) ys

  abbrev pub Descending : List (CandidateScore F) → Type 0
  Descending [] = Unit
  Descending (x ∷ xs) = Tops x xs × Descending xs

  insert-Perm : (x : CandidateScore F) (ys : List (CandidateScore F)) → Perm (insert x ys) (x ∷ ys)
  insert-Perm x [] = Perm.refl (x ∷ [])
  insert-Perm x (y ∷ ys) =
      if_elim (λ zs. Perm zs (x ∷ y ∷ ys)) (fl.lt x.score y.score)
        (λ _. Perm.trans (Perm.cons y (insert-Perm x ys)) (Perm.swap x y ys))
        (λ _. Perm.refl (x ∷ y ∷ ys))

  pub by_score-Perm : (xs : List (CandidateScore F)) → Perm (by_score xs) xs
  unfolding by_score
  by_score-Perm [] = Perm.refl []
  by_score-Perm (x ∷ xs) = Perm.trans (insert-Perm x (by_score xs)) (Perm.cons x (by_score-Perm xs))

  insert-length :
      (x : CandidateScore F) (ys : List (CandidateScore F)) → length (insert x ys) ≡ suc (length ys)
  insert-length x [] = refl
  insert-length x (y ∷ ys) = ground (arith, insert-length x ys)

  pub by_score-length : (xs : List (CandidateScore F)) → length (by_score xs) ≡ length xs
  unfolding by_score
  by_score-length [] = refl
  by_score-length (x ∷ xs) = insert-length x (by_score xs) ∙ ap suc (by_score-length xs)

  insert-Tops :
      (y x : CandidateScore F) (ys : List (CandidateScore F))
      → fl.lt y.score x.score ≡ false
      → Tops y ys
      → Tops y (insert x ys)
  insert-Tops y x [] h t = (h, tt)
  insert-Tops y x (z ∷ zs) h (hz, t) =
      if_elim (Tops y) (fl.lt x.score z.score) (λ _. (hz, insert-Tops y x zs h t))
        (λ _. (h, (hz, t)))

module _ {F : Type 0} ⦃fl : FloatOps F⦄ (ordered : IsOrdered fl) where
  Tops-trans :
      (x y : CandidateScore F) (zs : List (CandidateScore F))
      → fl.lt x.score y.score ≡ false
      → Tops y zs
      → Tops x zs
  Tops-trans x y [] h t = tt
  Tops-trans x y (z ∷ zs) h (hz, t) =
      (ordered.ge_trans x.score y.score z.score h hz, Tops-trans x y zs h t)

  insert-Descending :
      (x : CandidateScore F) (ys : List (CandidateScore F))
      → Descending ys
      → Descending (insert x ys)
  insert-Descending x [] d = (tt, tt)
  insert-Descending x (y ∷ ys) (t, d) =
      if_elim Descending (fl.lt x.score y.score)
        (λ h. (insert-Tops y x ys (ordered.lt_asymm x.score y.score h) t, insert-Descending x ys d))
        (λ h. ((h, Tops-trans x y ys h t), (t, d)))

  pub by_score-Descending : (xs : List (CandidateScore F)) → Descending (by_score xs)
  unfolding by_score
  by_score-Descending [] = tt
  by_score-Descending (x ∷ xs) = insert-Descending x (by_score xs) (by_score-Descending xs)

module _ {F : Type 0} ⦃fl : FloatOps F⦄ where
  insert-top :
      (x : CandidateScore F) (ys : List (CandidateScore F)) → Tops x ys → insert x ys ≡ x ∷ ys
  insert-top x [] t = refl
  insert-top x (y ∷ ys) (h, t) = ap (λ b. if b then y ∷ insert x ys else x ∷ y ∷ ys) h

  pub by_score-fixed : (xs : List (CandidateScore F)) → Descending xs → by_score xs ≡ xs
  unfolding by_score
  by_score-fixed [] d = refl
  by_score-fixed (x ∷ xs) (t, d) = ap (insert x) (by_score-fixed xs d) ∙ insert-top x xs t
