-- ===== src/Dsl/Parser/Token.antt =====
-- rescan/dsl/parser.py: tokens, errors and the token helpers of `_Parser`. The EOF token is the end
-- of the list: no method steps past it. Of an error the kind and the position are kept, and the
-- forbidden field; its text is not.
use rescan.Prelude.{ℕ, String, Option, List, [], ◌∷◌}
use rescan.Dsl.Ast.{Comparator, AggregateFunc}
use rescan.Dsl.Fields.Spec.{ForbiddenField}

pub data Keyword : Type 0 where
  require prefer weight because and or not : Keyword
  has any all in_word is where_word true_word false_word ask : Keyword
  aggregate : AggregateFunc → Keyword

pub data Symbol (F : Type 0) : Type 0 where
  keyword : Keyword → Symbol F
  ident : String → Symbol F
  number : F → Symbol F
  string : String → Symbol F
  op : Comparator → Symbol F
  lparen rparen comma semi dot : Symbol F

-- line and column
abbrev pub Position : Type 0
Position = ℕ × ℕ

pub data Token (F : Type 0) : Type 0 where
  token : Symbol F → Position → Token F

pub data ErrorKind : Type 0 where
  syntax type : ErrorKind
  -- a field or record that is unknown, or forbidden
  field : Option ForbiddenField → ErrorKind

pub record DslError : Type 0 where
  pub kind : ErrorKind
  pub at : Position

-- `out_of_fuel` has no counterpart in the program.
pub data Parsed {ℓ} (A : Type ℓ) : Type ℓ where
  ok : A → Parsed A
  failed : DslError → Parsed A
  out_of_fuel : Parsed A

abbrev pub Parser {ℓ} : Type 0 → Type ℓ → Type ℓ
Parser F A = List (Token F) → Parsed (A × List (Token F))

module _ {ℓ κ} {A : Type ℓ} {B : Type κ} where
  abbrev pub then_do : Parsed A → (A → Parsed B) → Parsed B
  then_do (ok a) f = f a
  then_do (failed e) f = failed e
  then_do out_of_fuel f = out_of_fuel

module _ {ℓ κ} {F : Type 0} {A : Type ℓ} {B : Type κ} where
  infixl 5 ◌>>=◌
  abbrev pub ◌>>=◌ : Parser F A → (A → Parser F B) → Parser F B
  ◌>>=◌ p f ts = then_do (p ts) λ (a, rest). f a rest

module _ {ℓ} {F : Type 0} {A : Type ℓ} where
  abbrev pub give : A → Parser F A
  give a ts = ok (a, ts)

abbrev pub error {ℓ} : {A : Type ℓ} → ErrorKind → Position → Parsed A
error k p = failed (record { kind = k; at = p })

module _ {F : Type 0} (end : Position) where
  -- the position of the current token
  abbrev pub here : List (Token F) → Position
  here [] = end
  here (token s p ∷ ts) = p

  -- `raise self._unexpected(...)`
  abbrev pub unexpected {ℓ} : {A : Type ℓ} → Parser F A
  unexpected ts = error ErrorKind.syntax (here ts)

  unfoldable pub expect_lparen : Parser F (Unit {0})
  expect_lparen (token Symbol.lparen p ∷ ts) = ok (tt, ts)
  expect_lparen ts = unexpected ts

  unfoldable pub expect_rparen : Parser F (Unit {0})
  expect_rparen (token Symbol.rparen p ∷ ts) = ok (tt, ts)
  expect_rparen ts = unexpected ts

  unfoldable pub expect_where : Parser F (Unit {0})
  expect_where (token (Symbol.keyword Keyword.where_word) p ∷ ts) = ok (tt, ts)
  expect_where ts = unexpected ts

  unfoldable pub expect_string : Parser F String
  expect_string (token (Symbol.string s) p ∷ ts) = ok (s, ts)
  expect_string ts = unexpected ts

  unfoldable pub expect_number : Parser F F
  expect_number (token (Symbol.number x) p ∷ ts) = ok (x, ts)
  expect_number ts = unexpected ts

  unfoldable pub expect_op : Parser F Comparator
  expect_op (token (Symbol.op c) p ∷ ts) = ok (c, ts)
  expect_op ts = unexpected ts

  unfoldable pub expect_ident : Parser F (String × Position)
  expect_ident (token (Symbol.ident s) p ∷ ts) = ok ((s, p), ts)
  expect_ident ts = unexpected ts
