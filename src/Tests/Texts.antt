-- ===== src/Tests/Texts.antt =====
-- Canonical texts.
use rescan.Prelude.{ℕ, ◌≡◌, refl}
use rescan.Prelude.Text.{show_nat}
use rescan.Dsl.Ast.{Comparator, Value, Expr, nil, cons, to_dsl, quote}
use rescan.Dsl.Ast.Ambiguous.{to_dsl-any_record}
use rescan.Tests.Samples.{whole_numbers, five_years}

abbrev lead : Expr ℕ
lead = Expr.compare "title" Comparator.eq (Value.text "Lead")

-- the text of `(ANY role WHERE title = "Lead") AND years_experience >= 5`
lead_text :
    to_dsl (
      Expr.and (
        cons
          (Expr.any_record "role" lead)
          (cons (Expr.compare "years_experience" Comparator.ge (Value.number 5)) nil)))
    ≡ "ANY role WHERE title = \"Lead\" AND years_experience >= 5"
unfolding to_dsl quote show_nat
lead_text = refl

to_dsl-any_record_example :
    to_dsl (Expr.and (cons (Expr.any_record "role" lead) (cons five_years nil)))
    ≡ to_dsl (Expr.any_record "role" (Expr.and (cons lead (cons five_years nil))))
to_dsl-any_record_example = to_dsl-any_record "role" lead five_years refl refl
