-- ===== src/Dsl/Ast/Asks.antt =====
-- Where `has_ask` finds an ASK: in the parts of an expression.
use rescan.Prelude.{
  ◌≡◌, refl, ◌∙◌, ap, Bool, true, false, ◌||◌, List, [], ◌∷◌, ◌++◌, any, arith, String,
}
use rescan.Dsl.Ast.{Expr, Args, nil, cons, iter_nodes, iter_args, is_ask, has_ask}

any-append :
    {A : Type 0} (p : A → Bool) (xs ys : List A) → any p (xs ++ ys) ≡ (any p xs || any p ys)
any-append p [] ys = refl
any-append p (x ∷ xs) ys = ground (arith, any-append p xs ys)

abbrev pub any_asks : {F : Type 0} → Args F → Bool
any_asks nil = false
any_asks (cons e es) = has_ask e || any_asks es

any-iter_args : {F : Type 0} (es : Args F) → any is_ask (iter_args es) ≡ any_asks es
unfolding has_ask
any-iter_args nil = refl
any-iter_args (cons e es) =
    any-append is_ask (iter_nodes e) (iter_args es) ∙ ap (λ b. has_ask e || b) (any-iter_args es)

pub has_ask-not : {F : Type 0} (e : Expr F) → has_ask (Expr.not e) ≡ has_ask e
unfolding has_ask
has_ask-not e = refl

pub has_ask-and : {F : Type 0} (es : Args F) → has_ask (Expr.and es) ≡ any_asks es
unfolding has_ask
has_ask-and es = any-iter_args es

pub has_ask-or : {F : Type 0} (es : Args F) → has_ask (Expr.or es) ≡ any_asks es
unfolding has_ask
has_ask-or es = any-iter_args es

pub has_ask-ask : (F : Type 0) (q : String) → has_ask {F = F} (Expr.ask q) ≡ true
unfolding has_ask
has_ask-ask F q = refl
