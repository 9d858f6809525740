-- ===== src/Dsl/Eval/Counts.antt =====
-- COUNT over entries that could not all be assessed: which of its decisions hold of every count
-- that the unassessed entries leave possible.
use rescan.Prelude.{
  ℕ, ◌+◌, ◌≤◌, ◌<◌, ◌≡◌, refl, ◌∙◌, sym, String, Bool, true, false, none, some, arith, ◌==◌, length,
  if◌then◌else◌,
}
use mathlib.Core.Option.{some-injective}
use rescan.Prelude.Float.{FloatOps}
use rescan.Dsl.Ast.{Comparator}
use rescan.Dsl.Fields.Spec.{RecordSpec}
use rescan.Dsl.Eval.Leaf.{compare_numbers}
use rescan.Dsl.Eval.Records.{Judged, matched_items, uncertain_count, count_verdict, same_bool}

-- How numbers compare: `<=` and `<` go together, and the counts up to a limit are in their order
-- and equal to no other. It is true of floats, NaN and the infinities included, with the limit 2 **
-- 53.
pub record CountLaws {F : Type 0} (fl : FloatOps F) (limit : ℕ) : Type 0 where
  pub of_nat_mono : (a b : ℕ) → a ≤ b → b ≤ limit → fl.le (fl.of_nat a) (fl.of_nat b) ≡ true
  pub eq_of_nat : (a b : ℕ) → a ≤ limit → b ≤ limit → fl.eq (fl.of_nat a) (fl.of_nat b) ≡ (a == b)
  pub le_trans : (a b c : F) → fl.le a b ≡ true → fl.le b c ≡ true → fl.le a c ≡ true
  pub lt_le_trans : (a b c : F) → fl.lt a b ≡ true → fl.le b c ≡ true → fl.lt a c ≡ true
  pub le_lt_trans : (a b c : F) → fl.le a b ≡ true → fl.lt b c ≡ true → fl.lt a c ≡ true

abbrev pub IsOrderTest : Comparator → Type 0
IsOrderTest Comparator.eq = ⊥
IsOrderTest Comparator.ne = ⊥
IsOrderTest _ = Unit

-- the fewest and the most entries that may match
abbrev pub low_count : {F : Type 0} → Judged F → ℕ
low_count js = length (matched_items js)

abbrev pub high_count : {F : Type 0} → Judged F → ℕ
high_count js = low_count js + uncertain_count js

decided :
    (low high b : Bool) {y : Bool}
    → (same_bool low high ≡ true → y ≡ low)
    → (if same_bool low high then some low else none) ≡ some b
    → y ≡ b
decided true true b between h = between refl ∙ some-injective _ _ h
decided false false b between h = between refl ∙ some-injective _ _ h
decided true false b between h = cc
decided false true b between h = cc

module _ {F : Type 0} ⦃fl : FloatOps F⦄ {limit : ℕ} (laws : CountLaws fl limit) where
  -- An order test that both ends pass alike, every number between them passes so.
  between :
      (c : Comparator) (x y z t : F)
      → IsOrderTest c
      → fl.le x y ≡ true
      → fl.le y z ≡ true
      → same_bool (compare_numbers x c t) (compare_numbers z c t) ≡ true
      → compare_numbers y c t ≡ compare_numbers x c t
  unfolding compare_numbers
  between Comparator.ge x y z t o p q same =
      ground (arith, laws.le_trans t x y, laws.le_trans t y z)
  between Comparator.le x y z t o p q same =
      ground (arith, laws.le_trans x y t, laws.le_trans y z t)
  between Comparator.gt x y z t o p q same =
      ground (arith, laws.lt_le_trans t x y, laws.lt_le_trans t y z)
  between Comparator.lt x y z t o p q same =
      ground (arith, laws.le_lt_trans x y t, laws.le_lt_trans y z t)
  between Comparator.eq x y z t o p q same = absurd o
  between Comparator.ne x y z t o p q same = absurd o

  module _ (rec : RecordSpec F) (subj : String) (js : Judged F) (t : F) where
    count_verdict-value :
        (c : Comparator)
        → (count_verdict rec subj js c t).value ≡ (
            let x = compare_numbers (fl.of_nat (low_count js)) c t in
            if same_bool x (compare_numbers (fl.of_nat (high_count js)) c t) then some x else none)
    unfolding count_verdict
    count_verdict-value c = ground arith

    -- If `<=` and `<` go together as those of floats do, the counts up to a limit (2 ** 53 for
    -- floats) are in their order and equal to no other, and the entries that match or are
    -- unassessed are no more than the limit: where COUNT with >=, <=, > or < is decided, every
    -- count from the entries that match up to those that match or are unassessed compares with the
    -- target as the verdict says.
    pub count_verdict_sound :
        (c : Comparator) (b : Bool) (k : ℕ)
        → IsOrderTest c
        → high_count js ≤ limit
        → low_count js ≤ k
        → k ≤ high_count js
        → (count_verdict rec subj js c t).value ≡ some b
        → compare_numbers (fl.of_nat k) c t ≡ b
    count_verdict_sound c b k o few p q h =
        let low : Bool = compare_numbers (fl.of_nat (low_count js)) c t in
        let high : Bool = compare_numbers (fl.of_nat (high_count js)) c t in
        decided low high b
          (between c (fl.of_nat (low_count js)) (fl.of_nat k) (fl.of_nat (high_count js)) t o
            (laws.of_nat_mono _ _ p (omega arith)) (laws.of_nat_mono _ _ q few))
          (sym (count_verdict-value c) ∙ h)

  module _ (rec : RecordSpec F) (subj : String) (js : Judged F) where
    -- If `<=` and `<` go together as those of floats do, the counts up to a limit (2 ** 53 for
    -- floats) are in their order and equal to no other, and the entries that match or are
    -- unassessed are no more than the limit: COUNT(...) = k is decided to be false whenever k lies
    -- strictly between the entries that match and those that match or are unassessed, though a
    -- count of k passes the test.
    pub count_eq_ignores_unassessed :
        (k : ℕ)
        → high_count js ≤ limit
        → low_count js < k
        → k < high_count js
        → ((count_verdict rec subj js Comparator.eq (fl.of_nat k)).value ≡ some false)
          × (compare_numbers (fl.of_nat k) Comparator.eq (fl.of_nat k) ≡ true)
    unfolding count_verdict compare_numbers
    count_eq_ignores_unassessed k few p q = (
      ground (
        arith,
        laws.eq_of_nat (low_count js) k (omega arith) (omega arith),
        laws.eq_of_nat (high_count js) k few (omega arith),
      ),
      ground (arith, laws.eq_of_nat k k (omega arith) (omega arith)),
    )
