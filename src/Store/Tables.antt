-- ===== src/Store/Tables.antt =====
-- Keys of a table: no two rows are the same under a test, and what keeps it so.
use rescan.Prelude.{
  ◌≡◌, refl, ◌∙◌, Bool, true, false, ◌||◌, none, List, [], ◌∷◌, ◌++◌, map, filter, if◌then◌else◌,
  any, arith, if_elim,
}
use rescan.Store.Operations.{find, update_rows}

module _ {A : Type 0} (same : A → A → Bool) where
  -- no row is the same as an earlier one
  abbrev pub IsKeyed : List A → Type 0
  IsKeyed [] = Unit
  IsKeyed (x ∷ xs) = (any (same x) xs ≡ false) × IsKeyed xs

any-snoc :
    {A : Type 0} (p : A → Bool) (xs : List A) (x : A)
    → any p xs ≡ false
    → p x ≡ false
    → any p (xs ++ x ∷ []) ≡ false
any-snoc p [] x h k = ground (arith, k)
any-snoc p (y ∷ ys) x h k = ground (arith, h, any-snoc p ys x, k)

any-map :
    {A : Type 0} (p : A → Bool) (f : A → A) (xs : List A)
    → ((x : A) → p (f x) ≡ p x)
    → any p (map f xs) ≡ any p xs
any-map p f [] h = refl
any-map p f (x ∷ xs) h = λ i. h x i || any-map p f xs h i

any-filter :
    {A : Type 0} (p q : A → Bool) (xs : List A) → any p xs ≡ false → any p (filter q xs) ≡ false
any-filter p q [] h = refl
any-filter p q (x ∷ xs) h = ground (arith, h, any-filter p q xs)

pub find-none : {A : Type 0} (p : A → Bool) (xs : List A) → find p xs ≡ none → any p xs ≡ false
find-none p [] h = refl
find-none p (x ∷ xs) h = ground (arith, h, find-none p xs)

module _ {A : Type 0} (same : A → A → Bool) where
  pub snoc-IsKeyed :
      (xs : List A) (x : A)
      → any (λ y. same y x) xs ≡ false
      → IsKeyed same xs
      → IsKeyed same (xs ++ x ∷ [])
  snoc-IsKeyed [] x h k = (refl, tt)
  snoc-IsKeyed (y ∷ ys) x h (ky, ks) =
      (any-snoc (same y) ys x ky (ground (arith, h)), snoc-IsKeyed ys x (ground (arith, h)) ks)

  any-same-map :
      (f : A → A) (x : A) (xs : List A)
      → ((y z : A) → same (f y) (f z) ≡ same y z)
      → any (same (f x)) (map f xs) ≡ any (same x) xs
  any-same-map f x [] h = refl
  any-same-map f x (y ∷ ys) h = λ i. h x y i || any-same-map f x ys h i

  -- an update that leaves the keys as they are
  pub map-IsKeyed :
      (f : A → A) (xs : List A)
      → ((y z : A) → same (f y) (f z) ≡ same y z)
      → IsKeyed same xs
      → IsKeyed same (map f xs)
  map-IsKeyed f [] h k = tt
  map-IsKeyed f (x ∷ xs) h (kx, ks) = (any-same-map f x xs h ∙ kx, map-IsKeyed f xs h ks)

  pub filter-IsKeyed : (q : A → Bool) (xs : List A) → IsKeyed same xs → IsKeyed same (filter q xs)
  filter-IsKeyed q [] k = tt
  filter-IsKeyed q (x ∷ xs) (kx, ks) =
      if_elim (IsKeyed same) (q x) (λ _. (any-filter (same x) q xs kx, filter-IsKeyed q xs ks))
        (λ _. filter-IsKeyed q xs ks)

  -- a change of some rows that leaves their keys as they are
  pub set_where-IsKeyed :
      (is_row : A → Bool) (set : A → A) (xs : List A)
      → ((y z : A) → same (set y) z ≡ same y z)
      → ((y z : A) → same y (set z) ≡ same y z)
      → IsKeyed same xs
      → IsKeyed same (map (λ r. if is_row r then set r else r) xs)
  set_where-IsKeyed is_row set xs left right k =
      map-IsKeyed (λ r. if is_row r then set r else r) xs
        (λ y z. on_left (is_row y) y (if is_row z then set z else z) ∙ on_right (is_row z) y z) k
    where
      on_left : (p : Bool) (y z : A) → same (if p then set y else y) z ≡ same y z
      on_left true y z = left y z
      on_left false y z = refl

      on_right : (p : Bool) (y z : A) → same y (if p then set z else z) ≡ same y z
      on_right true y z = right y z
      on_right false y z = refl

  pub update_rows-IsKeyed :
      (any_set : Bool) (is_row : A → Bool) (set : A → A) (xs : List A)
      → ((y z : A) → same (set y) z ≡ same y z)
      → ((y z : A) → same y (set z) ≡ same y z)
      → IsKeyed same xs
      → IsKeyed same (update_rows any_set is_row set xs)
  update_rows-IsKeyed true is_row set xs left right k = set_where-IsKeyed is_row set xs left right k
  update_rows-IsKeyed false is_row set xs left right k = k
