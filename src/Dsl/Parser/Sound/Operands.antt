-- ===== src/Dsl/Parser/Sound/Operands.antt =====
-- rescan/dsl/parser.py: the values and comparisons that parse fit the field's kind.
use rescan.Prelude.{
  ◌≡◌, refl, List, [], ◌∷◌, length, arith, String, Bool, true, false, all, if◌then◌else◌,
}
use rescan.Prelude.Text.{strip, is_empty, member}
use rescan.Dsl.Ast.{Value}
use rescan.Dsl.Fields.Spec.{Kind}
use rescan.Dsl.Parser.Token.{
  Keyword, Symbol, Token, token, Position, Parsed, ok, failed, out_of_fuel, then_do, here,
  expect_string,
}
use rescan.Dsl.Parser.Operand.{
  Column, enum_value, enum_list, string_values, string_list, lift_parsed, normal_value, enum_word,
  compare_value, is_text, is_flag, is_operand,
}
use rescan.Dsl.Parser.Typed.{fits_value, fits_is, is_not_blank}
use rescan.Dsl.Parser.Sound.Yields.{
  Yields, given, Holds, holds, Leaves, Yields-bind, Yields-if, expect_lparen-Yields,
  expect_rparen-Yields, expect_string-Yields, expect_number-Yields,
}

pub not_empty : (s : String) → is_empty s ≡ false → is_not_blank s ≡ true
not_empty String.[] h = ground (arith, h)
not_empty (String.◌∷◌ c s) h = refl

Holds-if :
    {A : Type 0} {P : A → Type 0} {x y : Parsed A} (b : Bool)
    → (b ≡ true → Holds P x)
    → (b ≡ false → Holds P y)
    → Holds P (if b then x else y)
Holds-if true hx hy = hx refl
Holds-if false hx hy = hy refl

pub enum_value-Holds :
    (col : Column) (raw : String) (p : Position)
    → Holds (λ v. member v col.values ≡ true) (enum_value col raw p)
unfolding enum_value
enum_value-Holds col raw p =
    Holds-if (member (normal_value raw) col.values) (holds _) (λ h. Holds.refused _)

Holds-cons :
    (f : String → Bool) (r : Parsed String) (rs : Parsed (List String))
    → Holds (λ v. f v ≡ true) r
    → Holds (λ vs. all f vs ≡ true) rs
    → Holds
        (λ vs. all f vs ≡ true)
        (elim r [
          | ok w ↦ elim rs [ ok ws ↦ ok (w ∷ ws) | failed e ↦ failed e | out_of_fuel ↦ out_of_fuel ]
          | failed e ↦ failed e
          | out_of_fuel ↦ out_of_fuel
        ])
Holds-cons f (ok w) (ok ws) (holds _ h) (holds _ hs) = holds (w ∷ ws) (ground (arith, h, hs))
Holds-cons f (ok w) (failed e) h hs = Holds.refused e
Holds-cons f (ok w) out_of_fuel h hs = elim hs [ ]
Holds-cons f (failed e) rs h hs = Holds.refused e
Holds-cons f out_of_fuel rs h hs = elim h [ ]

pub enum_list-Holds :
    (col : Column) (vs : List String) (p : Position)
    → Holds (λ ws. all (λ v. member v col.values) ws ≡ true) (enum_list col vs p)
unfolding enum_list
enum_list-Holds col [] p = holds [] refl
enum_list-Holds col (v ∷ vs) p =
    Holds-cons (λ w. member w col.values) (enum_value col v p) (enum_list col vs p)
      (enum_value-Holds col v p) (enum_list-Holds col vs p)

not_blank_cons :
    (s : String) (vs : List String)
    → is_empty s ≡ false
    → all is_not_blank vs ≡ true
    → all is_not_blank (s ∷ vs) ≡ true
not_blank_cons s vs h hs = ground (arith, not_empty s h, hs)

module _ {F : Type 0} (end : Position) where
  string_values-Yields :
      (ts : List (Token F))
      → Yields (λ vs. all is_not_blank vs ≡ true) (length ts) (string_values end ts)
  unfolding string_values
  string_values-Yields (token (Symbol.string s) p ∷ token Symbol.comma q ∷ ts) =
      Yields-if (is_empty (strip s)) (λ h. Yields.refused _)
        λ h.
          Yields-bind _ (string_values-Yields ts)
            λ vs rest hs le. given _ rest (not_blank_cons (strip s) vs h hs) (omega (arith, le))
  string_values-Yields (token (Symbol.string s) p ∷ ts) =
      Yields-if (is_empty (strip s)) (λ h. Yields.refused _)
        λ h. given _ ts (not_blank_cons (strip s) [] h refl) (omega arith)
  string_values-Yields ts = Yields.refused _

  pub string_list-Yields :
      (ts : List (Token F))
      → Yields (λ vs. all is_not_blank vs ≡ true) (length ts) (string_list end ts)
  unfolding string_list
  string_list-Yields ts = Yields-bind _ (expect_lparen-Yields end ts) λ u ts1 hu l1.
      Yields-bind _ (string_values-Yields ts1) λ vs ts2 hs l2.
        Yields-bind _ (expect_rparen-Yields end ts2)
          λ v ts3 hv l3. given _ ts3 hs (omega (arith, l1, l2, l3))

  pub lift_parsed-Yields :
      {A : Type 0} {P : A → Type 0} (r : Parsed A) (ts : List (Token F))
      → Holds P r
      → Yields P (length ts) (lift_parsed end r ts)
  lift_parsed-Yields (ok a) ts (holds _ h) = given a ts h (omega arith)
  lift_parsed-Yields (failed e) ts h = Yields.refused e
  lift_parsed-Yields out_of_fuel ts h = elim h [ ]

  enum_word-Yields : (ts : List (Token F)) → Leaves end (length ts) (enum_word end ts)
  unfolding enum_word
  enum_word-Yields (token (Symbol.ident s) p ∷ ts) = given _ ts tt (omega arith)
  enum_word-Yields (token (Symbol.keyword Keyword.true_word) p ∷ ts) = given _ ts tt (omega arith)
  enum_word-Yields (token (Symbol.keyword Keyword.false_word) p ∷ ts) = given _ ts tt (omega arith)
  enum_word-Yields (token (Symbol.string s) p ∷ ts) = given _ ts tt (omega arith)
  enum_word-Yields ts = Yields.refused _

  is_text-Yields : (ts : List (Token F)) → Leaves end (length ts) (is_text end ts)
  unfolding is_text
  is_text-Yields (token (Symbol.ident s) p ∷ ts) = given _ ts tt (omega arith)
  is_text-Yields (token (Symbol.string s) p ∷ ts) = given _ ts tt (omega arith)
  is_text-Yields ts = Yields.refused _

  is_flag-Yields : (ts : List (Token F)) → Leaves end (length ts) (is_flag end ts)
  unfolding is_flag
  is_flag-Yields (token (Symbol.keyword Keyword.true_word) p ∷ ts) = given _ ts tt (omega arith)
  is_flag-Yields (token (Symbol.keyword Keyword.false_word) p ∷ ts) = given _ ts tt (omega arith)
  is_flag-Yields ts = Yields.refused _

  string_value-Yields :
      (ts : List (Token F)) (P : Value F → Type 0)
      → ((s : String) → P (Value.text s))
      → Yields P (length ts) (then_do (expect_string end ts) λ (s, rest). ok (Value.text s, rest))
  string_value-Yields ts P h =
      Yields-bind _ (expect_string-Yields end ts) λ s rest u l. given _ rest (h s) l

  pub compare_value-Yields :
      (col : Column) (k : Kind) (ts : List (Token F))
      → Yields (λ v. fits_value k col.values v ≡ true) (length ts) (compare_value end col k ts)
  unfolding compare_value
  compare_value-Yields col Kind.number ts =
      Yields-bind _ (expect_number-Yields end ts) λ x rest u l. given _ rest refl l
  compare_value-Yields col Kind.enum ts = Yields-bind _ (enum_word-Yields ts) λ raw ts1 u l1.
      Yields-bind _ (lift_parsed-Yields _ ts1 (enum_value-Holds col raw (here end ts)))
        λ v ts2 h l2. given _ ts2 h (omega (arith, l1, l2))
  compare_value-Yields col Kind.text ts = string_value-Yields ts _ λ s. refl
  compare_value-Yields col Kind.bool ts = string_value-Yields ts _ λ s. refl
  compare_value-Yields col Kind.list ts = string_value-Yields ts _ λ s. refl

  is_word-Yields :
      (col : Column) (ts : List (Token F))
      → Yields
          (λ v. fits_is Kind.enum col.values v ≡ true)
          (length ts)
          (is_operand end col Kind.enum ts)
  unfolding is_operand
  is_word-Yields col ts = Yields-bind _ (is_text-Yields ts) λ raw ts1 u l1.
      Yields-bind _ (lift_parsed-Yields _ ts1 (enum_value-Holds col raw (here end ts)))
        λ v ts2 h l2. given _ ts2 h (omega (arith, l1, l2))

  pub is_operand-Yields :
      (col : Column) (k : Kind) (ts : List (Token F))
      → Yields (λ v. fits_is k col.values v ≡ true) (length ts) (is_operand end col k ts)
  unfolding is_operand
  is_operand-Yields col Kind.bool ts =
      Yields-bind _ (is_flag-Yields ts) λ b rest u l. given _ rest refl l
  is_operand-Yields col Kind.number ts = is_word-Yields col ts
  is_operand-Yields col Kind.enum ts = is_word-Yields col ts
  is_operand-Yields col Kind.text ts = is_word-Yields col ts
  is_operand-Yields col Kind.list ts = is_word-Yields col ts
