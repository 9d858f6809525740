-- ===== src/Dsl/Parser/Sound/Yields.antt =====
-- A parser's promise: what it returns satisfies `P`, at most `n` tokens are left, and the fuel was
-- enough.
use rescan.Prelude.{
  ◌≡◌, refl, Bool, true, false, if◌then◌else◌, ℕ, suc, ◌≤◌, List, ◌∷◌, length, arith,
}
use rescan.Dsl.Parser.Token.{
  Keyword, Symbol, Token, token, Position, DslError, Parsed, ok, failed, then_do, expect_lparen,
  expect_rparen, expect_string, expect_number, expect_where, expect_op, expect_ident,
}

pub data Yields {F A : Type 0} (P : A → Type 0) (n : ℕ) : Parsed (A × List (Token F)) → Type 0 where
  given : (a : A) (rest : List (Token F)) → P a → length rest ≤ n → Yields P n (ok (a, rest))
  refused : (e : DslError) → Yields P n (failed e)

pub data Holds {A : Type 0} (P : A → Type 0) : Parsed A → Type 0 where
  holds : (a : A) → P a → Holds P (ok a)
  refused : (e : DslError) → Holds P (failed e)

module _ {F A B : Type 0} {P : A → Type 0} {Q : B → Type 0} {m n : ℕ} where
  pub Yields-bind :
      (f : A × List (Token F) → Parsed (B × List (Token F))) {r : Parsed (A × List (Token F))}
      → Yields P m r
      → ((a : A) (rest : List (Token F)) → P a → length rest ≤ m → Yields Q n (f (a, rest)))
      → Yields Q n (then_do r f)
  Yields-bind f (given a rest h le) k = k a rest h le
  Yields-bind f (refused e) k = refused e

module _ {F A : Type 0} {P : A → Type 0} {m n : ℕ} where
  pub Yields-weaken : {r : Parsed (A × List (Token F))} → m ≤ n → Yields P m r → Yields P n r
  Yields-weaken le (given a rest h l) = given a rest h (omega (arith, le, l))
  Yields-weaken le (refused e) = refused e

module _ {F A : Type 0} {P : A → Type 0} {n : ℕ} where
  pub Yields-weaken_suc : {r : Parsed (A × List (Token F))} → Yields P n r → Yields P (suc n) r
  Yields-weaken_suc h = Yields-weaken (omega arith) h

  pub Yields-if :
      {x y : Parsed (A × List (Token F))} (b : Bool)
      → (b ≡ true → Yields P n x)
      → (b ≡ false → Yields P n y)
      → Yields P n (if b then x else y)
  Yields-if true hx hy = hx refl
  Yields-if false hx hy = hy refl

module _ {F : Type 0} (end : Position) where
  abbrev pub Leaves : {A : Type 0} → ℕ → Parsed (A × List (Token F)) → Type 0
  Leaves n = Yields (λ _. Unit) n

  pub expect_lparen-Yields : (ts : List (Token F)) → Leaves (length ts) (expect_lparen end ts)
  unfolding expect_lparen
  expect_lparen-Yields (token Symbol.lparen p ∷ ts) = given _ ts tt (omega arith)
  expect_lparen-Yields ts = refused _

  pub expect_rparen-Yields : (ts : List (Token F)) → Leaves (length ts) (expect_rparen end ts)
  unfolding expect_rparen
  expect_rparen-Yields (token Symbol.rparen p ∷ ts) = given _ ts tt (omega arith)
  expect_rparen-Yields ts = refused _

  pub expect_where-Yields : (ts : List (Token F)) → Leaves (length ts) (expect_where end ts)
  unfolding expect_where
  expect_where-Yields (token (Symbol.keyword Keyword.where_word) p ∷ ts) =
      given _ ts tt (omega arith)
  expect_where-Yields ts = refused _

  pub expect_string-Yields : (ts : List (Token F)) → Leaves (length ts) (expect_string end ts)
  unfolding expect_string
  expect_string-Yields (token (Symbol.string s) p ∷ ts) = given _ ts tt (omega arith)
  expect_string-Yields ts = refused _

  pub expect_number-Yields : (ts : List (Token F)) → Leaves (length ts) (expect_number end ts)
  unfolding expect_number
  expect_number-Yields (token (Symbol.number x) p ∷ ts) = given _ ts tt (omega arith)
  expect_number-Yields ts = refused _

  pub expect_op-Yields : (ts : List (Token F)) → Leaves (length ts) (expect_op end ts)
  unfolding expect_op
  expect_op-Yields (token (Symbol.op c) p ∷ ts) = given _ ts tt (omega arith)
  expect_op-Yields ts = refused _

  pub expect_ident-Yields : (ts : List (Token F)) → Leaves (length ts) (expect_ident end ts)
  unfolding expect_ident
  expect_ident-Yields (token (Symbol.ident s) p ∷ ts) = given _ ts tt (omega arith)
  expect_ident-Yields ts = refused _
