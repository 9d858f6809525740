-- ===== src/Dsl/Eval/Kleene.antt =====
-- Kleene's three-valued logic, the specification of the connectives of rescan/dsl/eval.py: `none`
-- is UNKNOWN. The laws that make an order of evaluation irrelevant are here; the children relate
-- the evaluator to it.
pub mod Loops
pub mod Denote
pub mod Refines
pub mod Monotone
use rescan.Prelude.{
  ◌≡◌, refl, Bool, true, false, not, Option, none, some, List, [], ◌∷◌, ◌++◌, arith, map, ◌⊎◌, inl,
  inr,
}

abbrev pub and3 : Option Bool → Option Bool → Option Bool
and3 (some false) y = some false
and3 (some true) y = y
and3 none (some false) = some false
and3 none _ = none

abbrev pub or3 : Option Bool → Option Bool → Option Bool
or3 (some true) y = some true
or3 (some false) y = y
or3 none (some true) = some true
or3 none _ = none

abbrev pub not3 : Option Bool → Option Bool
not3 none = none
not3 (some b) = some (not b)

abbrev pub all3 : List (Option Bool) → Option Bool
all3 [] = some true
all3 (x ∷ xs) = and3 x (all3 xs)

abbrev pub any3 : List (Option Bool) → Option Bool
any3 [] = some false
any3 (x ∷ xs) = or3 x (any3 xs)

pub and3_assoc : (x y z : Option Bool) → and3 (and3 x y) z ≡ and3 x (and3 y z)
and3_assoc x y z = ground arith

pub and3_comm : (x y : Option Bool) → and3 x y ≡ and3 y x
and3_comm x y = ground arith

pub or3_assoc : (x y z : Option Bool) → or3 (or3 x y) z ≡ or3 x (or3 y z)
or3_assoc x y z = ground arith

pub or3_comm : (x y : Option Bool) → or3 x y ≡ or3 y x
or3_comm x y = ground arith

pub all3-append : (xs ys : List (Option Bool)) → all3 (xs ++ ys) ≡ and3 (all3 xs) (all3 ys)
all3-append [] ys = refl
all3-append (x ∷ xs) ys = ground (arith, all3-append xs ys, and3_assoc x (all3 xs) (all3 ys))

pub any3-append : (xs ys : List (Option Bool)) → any3 (xs ++ ys) ≡ or3 (any3 xs) (any3 ys)
any3-append [] ys = refl
any3-append (x ∷ xs) ys = ground (arith, any3-append xs ys, or3_assoc x (any3 xs) (any3 ys))

-- What is known stays, when more is known.
infix 4 ◌⊑◌
abbrev pub ◌⊑◌ : Option Bool → Option Bool → Type 0
x ⊑ y = (x ≡ none) ⊎ (x ≡ y)

pub and3_mono : (x y x' y' : Option Bool) → x ⊑ x' → y ⊑ y' → and3 x y ⊑ and3 x' y'
and3_mono x y x' y' (inl p) (inl q) = ground arith
and3_mono x y x' y' (inl p) (inr q) = ground arith
and3_mono x y x' y' (inr p) (inl q) = ground arith
and3_mono x y x' y' (inr p) (inr q) = ground arith

pub or3_mono : (x y x' y' : Option Bool) → x ⊑ x' → y ⊑ y' → or3 x y ⊑ or3 x' y'
or3_mono x y x' y' (inl p) (inl q) = ground arith
or3_mono x y x' y' (inl p) (inr q) = ground arith
or3_mono x y x' y' (inr p) (inl q) = ground arith
or3_mono x y x' y' (inr p) (inr q) = ground arith

pub not3_mono : (x x' : Option Bool) → x ⊑ x' → not3 x ⊑ not3 x'
not3_mono x x' (inl p) = ground arith
not3_mono x x' (inr p) = ground arith
