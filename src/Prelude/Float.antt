-- ===== src/Prelude/Float.antt =====
-- Python's `float`: a type with the operations that the program uses, given to each definition as
-- an instance. Comparison may fail on both sides, as it does at a NaN; the laws that hold of the
-- numbers a resume or a rule states are a record of their own.
use Prim.Native.Nat.{ℕ}
use Prim.Native.String.{String}
use mathlib.Core.Path.{◌≡◌}
use mathlib.Core.Bool.{Bool, true, false}
use mathlib.Core.Option.{Option}
use mathlib.Core.List.{List, [], ◌∷◌, foldl}
use rescan.Prelude.Tests.{if◌then◌else◌}

pub record FloatOps (F : Type 0) : Type 0 where
  -- a < b, a <= b, a == b
  pub lt : F → F → Bool
  pub le : F → F → Bool
  pub eq : F → F → Bool
  pub add : F → F → F
  pub sub : F → F → F
  pub mul : F → F → F
  pub div : F → F → F
  -- round(x, n)
  pub round : F → ℕ → F
  pub of_nat : ℕ → F
  -- float(text): `none` is a ValueError
  pub of_text : String → Option F
  -- f"{x:.nf}"
  pub show_fixed : ℕ → F → String
  -- f"{x:g}" and str(x)
  pub show_g : F → String
  pub show : F → String

module _ {F : Type 0} ⦃fl : FloatOps F⦄ where
  -- sum(xs)
  abbrev pub sum : List F → F
  sum = foldl fl.add (fl.of_nat 0)

  -- max(xs) and min(xs) of `x ∷ xs`: the first of the greatest, and of the least
  abbrev pub max_of : F → List F → F
  max_of x [] = x
  max_of x (y ∷ ys) = max_of (if fl.lt x y then y else x) ys

  abbrev pub min_of : F → List F → F
  min_of x [] = x
  min_of x (y ∷ ys) = min_of (if fl.lt y x then y else x) ys

  -- max(a, b) and min(a, b)
  abbrev pub max₂ : F → F → F
  max₂ a b = if fl.lt a b then b else a

  abbrev pub min₂ : F → F → F
  min₂ a b = if fl.lt b a then b else a

  -- abs(x)
  abbrev pub abs : F → F
  abs x = if fl.lt x (fl.of_nat 0) then fl.sub (fl.of_nat 0) x else x

-- The order of the numbers that are not NaN: `<` is a strict weak order.
pub record IsOrdered {F : Type 0} (fl : FloatOps F) : Type 0 where
  pub lt_irrefl : (a : F) → fl.lt a a ≡ false
  pub lt_asymm : (a b : F) → fl.lt a b ≡ true → fl.lt b a ≡ false
  pub ge_trans : (a b c : F) → fl.lt a b ≡ false → fl.lt b c ≡ false → fl.lt a c ≡ false
