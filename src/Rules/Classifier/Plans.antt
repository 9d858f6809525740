-- ===== src/Rules/Classifier/Plans.antt =====
-- rescan/rules/classifier.py: what a compiled plan promises, whatever the model returns.
use rescan.Prelude.{
  All-append_join, ◌≡◌, refl, sym, ap, ◌∙◌, subst, ℕ, suc, String, false, not, ◌&&◌, Option, none,
  some, List, [], ◌∷◌, ◌++◌, map, append-nil, ◌<◌, or_default, arith, leb, length, All, if_elim,
}
use mathlib.Core.List.{map-append}
use rescan.Prelude.Float.{FloatOps}
use rescan.Prelude.Result.{Result, ok}
use rescan.Prelude.Text.{strip, is_empty}
use rescan.Dsl.Ast.{Clause}
use rescan.Rules.Models.{ClassifiedRule, RuleSet, is_high}
use rescan.Rules.Classifier.{ModelRule, overall_risk}
use rescan.Rules.Classifier.Build.{
  LlmReply, answered, llm_error, ModelPlan, RuleClient, Review, Draft, draft, verdict_of, decided,
  build_rule,
}
use rescan.Rules.Classifier.Gate.{IsVetted, build_rule-IsVetted}
use rescan.Rules.Classifier.Plan.{
  each, unavailable_rule, text_rule, item_rule, rule_id, source_or, review_of, answer_to, rules_of,
  sort_items, sources_of, from_reply, compile_stripped, compile_plan, plan_text, stripped_all,
  first_rule, classify_rule, empty_rule,
}

each-All :
    {W A B : Type 0} (P : B → Type 0) (f : ℕ → A → W → B × W)
    → ((n : ℕ) (a : A) (w : W) → P (f n a w).0)
    → (n : ℕ) (xs : List A) (w : W) → All P (each f n xs w).0
each-All P f h n [] w = tt
each-All P f h n (x ∷ xs) w = (h n x w, each-All P f h (suc n) xs (f n x w).1)

-- [h(n, x), h(n + 1, y), …]
abbrev pub map_from : {A C : Type 0} → (ℕ → A → C) → ℕ → List A → List C
map_from h n [] = []
map_from h n (x ∷ xs) = h n x ∷ map_from h (suc n) xs

each-map :
    {W A B C : Type 0} (g : B → C) (h : ℕ → A → C) (f : ℕ → A → W → B × W)
    → ((n : ℕ) (a : A) (w : W) → g (f n a w).0 ≡ h n a)
    → (n : ℕ) (xs : List A) (w : W) → map g (each f n xs w).0 ≡ map_from h n xs
each-map g h f e n [] w = refl
each-map g h f e n (x ∷ xs) w = λ i. e n x w i ∷ each-map g h f e (suc n) xs (f n x w).1 i

-- the number and the text of a rule
abbrev pub label : {F : Type 0} → ClassifiedRule F → String × String
label r = (r.id, r.source_text)

abbrev pub label_at : ℕ → String → String × String
label_at n text = (rule_id n, text)

module _ (F : Type 0) ⦃fl : FloatOps F⦄ where
  abbrev IsLabelled : String × String → ClassifiedRule F → Type 0
  IsLabelled l r = label r ≡ l

  decided-label :
      (id source : String) (d : Draft F) (c : Option (Clause F))
      → label (decided id source d (overall_risk d.findings) c) ≡ (id, source)
  decided-label id source d none = refl
  decided-label id source d (some c) = refl

  verdict_of-label :
      (id source : String) (d : Draft F) → label (verdict_of id source d) ≡ (id, source)
  unfolding verdict_of
  verdict_of-label id source d =
      if_elim (IsLabelled (id, source)) (is_high (overall_risk d.findings)) (λ _. refl)
        (λ _. decided-label id source d d.clause)

  module _ (search : String → String → Option String) {W : Type 0} (client : RuleClient W) where
    build_rule-label :
        (id source : String) (review : Review) (w : W)
        → label {F = F} (build_rule search client id source review w).0 ≡ (id, source)
    unfolding build_rule
    build_rule-label id source review w =
        verdict_of-label id source (draft search client source review w).0

    -- a rule that is applied has passed the scan of its own text
    abbrev pub IsVettedRule : ClassifiedRule F → Type 0
    IsVettedRule r = IsVetted F search r.source_text r

    abbrev AllVetted : RuleSet F × W → Type 0
    AllVetted r = All IsVettedRule (RuleSet.rules r.0)

    build_rule-IsVettedRule :
        (id source : String) (review : Review) (w : W)
        → IsVettedRule (build_rule search client id source review w).0
    build_rule-IsVettedRule id source review w =
        rw (ap (λ (l : String × String). l.1) (build_rule-label id source review w))
          (build_rule-IsVetted F search client id source review w)

    item_rule-IsVettedRule :
        (n : ℕ) (m : ModelRule) (w : W) → IsVettedRule (item_rule search client n m w).0
    unfolding item_rule
    item_rule-IsVettedRule n m w =
        build_rule-IsVettedRule (rule_id n) (source_or n m.source_text) (Review.reviewed m) w

    text_rule-IsVettedRule :
        (taken : List (ℕ × ModelRule)) (n : ℕ) (text : String) (w : W)
        → IsVettedRule (text_rule search client taken n text w).0
    unfolding text_rule
    text_rule-IsVettedRule taken n text w =
        build_rule-IsVettedRule (rule_id n) text (review_of (answer_to n taken)) w

    unavailable_rule-IsVettedRule :
        (e : String) (n : ℕ) (text : String) (w : W)
        → IsVettedRule (unavailable_rule search client e n text w).0
    unfolding unavailable_rule
    unavailable_rule-IsVettedRule e n text w =
        build_rule-IsVettedRule (rule_id n) text (Review.unavailable e) w

    rules_of-IsVettedRule :
        (texts : List String) (returned : List ModelRule) (w : W)
        → All IsVettedRule (rules_of search client texts returned w).0
    unfolding rules_of
    rules_of-IsVettedRule [] returned w =
        each-All IsVettedRule (item_rule search client) item_rule-IsVettedRule 1 returned w
    rules_of-IsVettedRule (t ∷ ts) returned w =
        let (taken, extras) = sort_items (length (t ∷ ts)) returned ([], []) in
        let (rules, w') = each (text_rule search client taken) 1 (t ∷ ts) w in
        let more = each (item_rule search client) (suc (length (t ∷ ts))) extras w' in
        All-append_join IsVettedRule rules more.0
          (each-All IsVettedRule (text_rule search client taken) (text_rule-IsVettedRule taken) 1
            (t ∷ ts) w)
          (each-All IsVettedRule (item_rule search client) item_rule-IsVettedRule
            (suc (length (t ∷ ts))) extras w')

    from_reply-IsVettedRule :
        (plan : String) (texts : List String) (r : LlmReply ModelPlan × W)
        → AllVetted (from_reply search client plan texts r)
    unfolding from_reply
    from_reply-IsVettedRule plan texts (llm_error e, w) =
        each-All IsVettedRule (unavailable_rule search client e) (unavailable_rule-IsVettedRule e) 1
          (sources_of plan texts) w
    from_reply-IsVettedRule plan texts (answered a, w) = rules_of-IsVettedRule texts a.rules w

    stripped-IsVettedRule :
        (plan : String) (texts : List String) (role : Option String) (w : W)
        → AllVetted (compile_stripped search client plan texts role w)
    unfolding compile_stripped
    stripped-IsVettedRule plan texts role w =
        if_elim AllVetted (is_empty plan && not (leb 1 (length texts))) (λ _. tt)
          (λ _. from_reply-IsVettedRule plan texts (
            client.compile
              (record {
                plan_text = plan_text plan texts;
                plan = plan;
                rule_texts = texts;
                role_context = role;
              })
              w))

    -- Whatever the model returns for a plan, each rule of the compiled set that is applied is not
    -- of high risk: no high-risk phrasing of the table is found in its text or in a string literal
    -- of its clause's expression, and the clause is well typed and reads no forbidden identifier.
    pub compile_plan-IsVettedRule :
        (plan : Option String) (texts : List String) (role : Option String) (w : W)
        → All IsVettedRule (RuleSet.rules (compile_plan search client plan texts role w).0)
    unfolding compile_plan
    compile_plan-IsVettedRule plan texts role w =
        stripped-IsVettedRule (strip (or_default plan "")) (stripped_all texts) role w

    abbrev StartsWith : List String → RuleSet F × W → Type 0
    StartsWith ts r =
        (rest : List (String × String)) × (map label (RuleSet.rules r.0)
          ≡ map_from label_at 1 ts ++ rest)

    rules_of-texts :
        (t : String) (ts : List String) (returned : List ModelRule) (w : W)
        → (rest : List (String × String)) × (map
              (label {F = F})
              (rules_of search client (t ∷ ts) returned w).0
            ≡ map_from label_at 1 (t ∷ ts) ++ rest)
    unfolding rules_of text_rule
    rules_of-texts t ts returned w =
        let (taken, extras) = sort_items (length (t ∷ ts)) returned ([], []) in
        let (rules, w') = each (text_rule search client taken) 1 (t ∷ ts) w in
        let more = each (item_rule search client) (suc (length (t ∷ ts))) extras w' in
        (
          map label more.0,
          map-append label rules more.0
              ∙ ap (λ (l : List (String × String)). l ++ map label more.0)
                  (each-map label label_at (text_rule search client taken)
                    (λ n text w.
                      build_rule-label (rule_id n) text (review_of (answer_to n taken)) w)
                    1 (t ∷ ts) w),
        )

    from_reply-texts :
        (plan t : String) (ts : List String) (r : LlmReply ModelPlan × W)
        → (rest : List (String × String)) × (map
              (label {F = F})
              (RuleSet.rules (from_reply search client plan (t ∷ ts) r).0)
            ≡ map_from label_at 1 (t ∷ ts) ++ rest)
    unfolding from_reply unavailable_rule sources_of
    from_reply-texts plan t ts (llm_error e, w) = (
      [],
      each-map label label_at (unavailable_rule search client e)
            (λ n text w. build_rule-label (rule_id n) text (Review.unavailable e) w) 1 (t ∷ ts) w
          ∙ sym (append-nil (map_from label_at 1 (t ∷ ts))),
    )
    from_reply-texts plan t ts (answered a, w) = rules_of-texts t ts a.rules w

    stripped-texts :
        (plan : String) (ts : List String) (role : Option String) (w : W)
        → 0 < length ts
        → StartsWith ts (compile_stripped search client plan ts role w)
    unfolding compile_stripped
    stripped-texts plan [] role w h = absurd (omega arith)
    stripped-texts plan (t ∷ ts) role w h =
        if_elim (StartsWith (t ∷ ts)) (is_empty plan && not (leb 1 (length (t ∷ ts))))
          (λ e. absurd (ground arith))
          (λ _. from_reply-texts plan t ts (
            client.compile
              (record {
                plan_text = plan_text plan (t ∷ ts);
                plan = plan;
                rule_texts = t ∷ ts;
                role_context = role;
              })
              w))

    pub compile_plan-texts :
        (plan : Option String) (texts : List String) (role : Option String) (w : W)
        → 0 < length (stripped_all texts)
        → (rest : List (String × String)) × (map
              (label {F = F})
              (RuleSet.rules (compile_plan search client plan texts role w).0)
            ≡ map_from label_at 1 (stripped_all texts) ++ rest)
    unfolding compile_plan
    compile_plan-texts plan texts role w some_text =
        stripped-texts (strip (or_default plan "")) (stripped_all texts) role w some_text

    -- a rule came out, under its id, and it is vetted
    abbrev pub Classified : String → Result (ClassifiedRule F) × W → Type 0
    Classified id r =
        (rule : ClassifiedRule F) × (r.0 ≡ ok rule) × (rule.id ≡ id) × IsVettedRule rule

    first_rule-Classified :
        (id : String) (rs : List (ClassifiedRule F)) (w : W) (l : String × String)
        (rest : List (String × String))
        → is_empty id ≡ false
        → map label rs ≡ l ∷ rest
        → All IsVettedRule rs
        → Classified id (first_rule search client id rs, w)
    first_rule-Classified id [] w l rest some_id h v = absurd (cc)
    first_rule-Classified id (r ∷ rs) w l rest some_id h (v, vs) =
        (record r { id = id }, rw some_id refl, refl, v)

    one_text :
        (text : String) (role : Option String) (w : W)
        → is_empty (strip text) ≡ false
        → StartsWith (strip text ∷ []) (compile_plan search client none (text ∷ []) role w)
    one_text text role w e =
        let texts : stripped_all (text ∷ []) ≡ strip text ∷ [] = rw e refl in
        subst (λ ts. StartsWith ts (compile_plan search client none (text ∷ []) role w)) texts
          (compile_plan-texts none (text ∷ []) role w (rw texts (omega arith)))

    pub classify_rule-Classified :
        (text : String) (role : Option String) (id : String) (w : W)
        → is_empty id ≡ false
        → Classified id (classify_rule search client text role id w)
    unfolding classify_rule
    classify_rule-Classified text role id w some_id =
        if_elim (Classified id) (is_empty (strip text))
          (λ _. (
            record (empty_rule search client id) { id = id },
            rw some_id refl,
            refl,
            λ a. absurd (cc),
          ))
          (λ e.
            let (rest, h) = one_text text role w e in
            let set = compile_plan {F = F} search client none (text ∷ []) role w in
            first_rule-Classified id (RuleSet.rules set.0) set.1 (rule_id 1, strip text) rest
              some_id h (compile_plan-IsVettedRule none (text ∷ []) role w))
