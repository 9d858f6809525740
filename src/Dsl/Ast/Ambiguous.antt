-- ===== src/Dsl/Ast/Ambiguous.antt =====
-- rescan/dsl/ast.py: where two expressions have one canonical text.
use Prim.Native.String.{◌++◌ as ◌^◌}
use text.Mathlib.TextLemmas.{append_assoc, append-nil}
use rescan.Prelude.{◌≡◌, sym, ap, ◌∙◌, String, false}
use rescan.Prelude.Float.{FloatOps}
use rescan.Dsl.Ast.{Expr, nil, cons, is_or, to_dsl}

push_inside : (a r b e f : String) → (a ^ (r ^ (b ^ (e ^ "")))) ^ f ≡ a ^ (r ^ (b ^ ((e ^ f) ^ "")))
push_inside a r b e f =
    append_assoc a (r ^ (b ^ (e ^ ""))) f
    ∙ ap (λ s. a ^ s)
        (append_assoc r (b ^ (e ^ "")) f
          ∙ ap (λ s. r ^ s)
              (append_assoc b (e ^ "") f
                ∙ ap (λ s. b ^ s) (ap (λ s. s ^ f) (append-nil e) ∙ sym (append-nil (e ^ f)))))

module _ {F : Type 0} ⦃fl : FloatOps F⦄ where
  -- The canonical text is ambiguous: for any record and any two expressions that are not an OR,
  -- `(ANY r WHERE e) AND f` and `ANY r WHERE (e AND f)` have the same text.
  pub to_dsl-any_record :
      (r : String) (e f : Expr F)
      → is_or e ≡ false
      → is_or f ≡ false
      → to_dsl (Expr.and (cons (Expr.any_record r e) (cons f nil)))
        ≡ to_dsl (Expr.any_record r (Expr.and (cons e (cons f nil))))
  unfolding to_dsl
  to_dsl-any_record r e f he hf =
      rw (he, hf) (push_inside "ANY " r " WHERE " (to_dsl e) (" AND " ^ to_dsl f))
