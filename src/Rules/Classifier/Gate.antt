-- ===== src/Rules/Classifier/Gate.antt =====
-- rescan/rules/classifier.py: what a rule that is applied has passed.
use rescan.Prelude.{◌≡◌, refl, String, true, false, Option, none, some, List, All, if_elim}
use rescan.Prelude.Float.{FloatOps}
use rescan.Dsl.Ast.{Clause, string_literals}
use rescan.Dsl.Parser.Token.{DslError, Parsed}
use rescan.Dsl.Parser.Sound.Yields.{Holds, holds}
use rescan.Dsl.Parser.Text.{IsSound, parse_clause-IsSound}
use rescan.Rules.Models.{ClassifiedRule, Note, is_applied, is_high}
use rescan.Rules.Classifier.{scan_patterns, overall_risk}
use rescan.Rules.Classifier.Build.{
  LlmReply, answered, llm_error, RuleClient, Review, Draft, second_try, retried, repaired,
  non_blank, stripped, try_repair, parse_with_repair, compiled, draft, with_clause, assessed,
  verdict_of, build_rule, decided,
}
use rescan.Rules.Classifier.Findings.{
  NotHigh, IsKnown, IsClean, overall_risk-NotHigh, merge_literals-IsClean, scan_patterns-IsKnown,
  add_model_finding-IsKnown,
}

module _ (F : Type 0) ⦃fl : FloatOps F⦄ where
  abbrev pub SoundIf : Option (Clause F) → Type 0
  SoundIf none = Unit
  SoundIf (some c) = IsSound c

  second_try-SoundIf :
      (e : DslError) {r : Parsed (Clause F)} → Holds IsSound r → SoundIf (second_try e r).0
  second_try-SoundIf e (holds c h) = h
  second_try-SoundIf e (Holds.refused x) = tt

  retried-SoundIf : (e : DslError) (o : Option String) → SoundIf (retried {F = F} e o).0
  retried-SoundIf e none = tt
  retried-SoundIf e (some text) = second_try-SoundIf e (parse_clause-IsSound text)

  repaired-SoundIf :
      (e : DslError) (r : LlmReply (Option String)) → SoundIf (repaired {F = F} e r).0
  repaired-SoundIf e (llm_error x) = tt
  repaired-SoundIf e (answered answer) = retried-SoundIf e (non_blank answer)

  module _ {W : Type 0} (client : RuleClient W) where
    try_repair-SoundIf :
        (source dsl : String) {r : Parsed (Clause F)} (w : W)
        → Holds IsSound r
        → SoundIf (try_repair client source dsl r w).0.0
    unfolding try_repair
    try_repair-SoundIf source dsl w (holds c h) = h
    try_repair-SoundIf source dsl w (Holds.refused e) = repaired-SoundIf e _

    parse_with_repair-SoundIf :
        (source dsl : String) (w : W) → SoundIf (parse_with_repair {F = F} client source dsl w).0.0
    unfolding parse_with_repair
    parse_with_repair-SoundIf source dsl w =
        try_repair-SoundIf source dsl w (parse_clause-IsSound dsl)

  module _ (search : String → String → Option String) where
    -- a clause that parsed, over whose literals nothing of high risk is found
    abbrev pub Passed : Option (Clause F) → Type 0
    Passed none = Unit
    Passed (some c) = IsSound c × All (IsClean search) (string_literals c.expr)

    -- what a draft says when no finding of it is of high risk
    abbrev pub IsGated : String → Draft F → Type 0
    IsGated source d = All NotHigh d.findings → IsClean search source × Passed d.clause

    with_clause-IsGated :
        (source : String) (d : Draft F) (o : Option (Clause F) × List Note)
        → All IsKnown d.findings
        → (All NotHigh d.findings → IsClean search source)
        → d.clause ≡ none
        → SoundIf o.0
        → IsGated source (with_clause search d o)
    with_clause-IsGated source d (none, notes) known clean e h n = (clean n, rw e tt)
    with_clause-IsGated source d (some c, notes) known clean e h n =
        let (a, b) = merge_literals-IsClean search (string_literals c.expr) d.findings known n in
        (clean a, (h, b))

    module _ {W : Type 0} (client : RuleClient W) where
      compiled-IsGated :
          (source : String) (d : Draft F) (dsl : Option String) (w : W)
          → All IsKnown d.findings
          → (All NotHigh d.findings → IsClean search source)
          → d.clause ≡ none
          → IsGated source (compiled search client source d dsl w).0
      unfolding compiled
      compiled-IsGated source d none w known clean e n = (clean n, rw e tt)
      compiled-IsGated source d (some dsl) w known clean e n =
          with_clause-IsGated source d (parse_with_repair client source dsl w).0 known clean e
            (parse_with_repair-SoundIf client source dsl w) n

      draft-IsGated :
          (source : String) (review : Review) (w : W)
          → IsGated source (draft {F = F} search client source review w).0
      unfolding draft
      draft-IsGated source (Review.unavailable e) w n = (n, tt)
      draft-IsGated source Review.nothing w n = (n, tt)
      draft-IsGated source (Review.reviewed m) w n =
          let (known, clean) =
            add_model_finding-IsKnown m (scan_patterns search source)
              (scan_patterns-IsKnown search source) in
          compiled-IsGated source (assessed search source m) (stripped m.dsl) w known clean refl n

    -- what an applied rule has passed
    abbrev pub IsVetted : String → ClassifiedRule F → Type 0
    IsVetted source r =
        is_applied r ≡ true → IsClean search source × Passed r.clause × (is_high r.risk ≡ false)

    decided-IsVetted :
        (id source : String) (d : Draft F) (c : Option (Clause F))
        → is_high (overall_risk d.findings) ≡ false
        → IsClean search source × Passed c
        → IsVetted source (decided id source d (overall_risk d.findings) c)
    decided-IsVetted id source d none low h a = absurd (cc)
    decided-IsVetted id source d (some c) low (clean, passed) a = (clean, passed, low)

    verdict_of-IsVetted :
        (id source : String) (d : Draft F)
        → IsGated source d
        → IsVetted source (verdict_of id source d)
    unfolding verdict_of
    verdict_of-IsVetted id source d gated =
        if_elim (IsVetted source) (is_high (overall_risk d.findings)) (λ h a. absurd (cc))
          λ low.
            decided-IsVetted id source d d.clause low (gated (overall_risk-NotHigh d.findings low))

    -- A rule that is applied is not of high risk: no high-risk phrasing of the table is found in
    -- the recruiter's text or in a string literal of its clause's expression, whatever the model
    -- says of the risk; and its clause is well typed and reads no forbidden identifier.
    pub build_rule-IsVetted :
        {W : Type 0} (client : RuleClient W) (id source : String) (review : Review) (w : W)
        → IsVetted source (build_rule search client id source review w).0
    unfolding build_rule
    build_rule-IsVetted client id source review w =
        verdict_of-IsVetted id source _ (draft-IsGated client source review w)
