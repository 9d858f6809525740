-- ===== src/Rules/Classifier/Findings.antt =====
-- rescan/rules/classifier.py: when no finding is of high risk, what that says of the texts scanned.
use rescan.Prelude.{
  All-append_split, All-append_join, ◌≡◌, refl, ap, ◌⊎◌, inl, inr, String, true, false, Option,
  none, some, List, [], ◌∷◌, ◌++◌, if◌then◌else◌, ltb, arith, All, if_elim, Bool-cases,
}
use rescan.Prelude.Text.{str_eq, eq_iff, member}
use rescan.Rules.Models.{RiskLevel, RuleFinding, is_high}
use rescan.Rules.Statutes.{RiskPattern, risk_patterns}
use rescan.Rules.Classifier.{
  found, scan_with, scan_patterns, ModelRule, model_finding, add_model_finding, already_covered,
  merge_findings, ids_of, greatest, overall_risk, risk_order,
}
use rescan.Rules.Classifier.Build.{merge_literals}

abbrev pub NotHigh : RuleFinding → Type 0
NotHigh f = is_high f.risk ≡ false

greatest_high :
    (r : RiskLevel) (fs : List RuleFinding)
    → is_high (greatest r fs) ≡ false
    → (is_high r ≡ false) × All NotHigh fs
greatest_high r [] h = (h, tt)
greatest_high r (f ∷ fs) h =
    let (a, b) =
      greatest_high (if ltb (risk_order r) (risk_order f.risk) then f.risk else r) fs h in
    let (c, d) = either r f.risk a in (c, (d, b))
  where
    either :
        (r s : RiskLevel)
        → is_high (if ltb (risk_order r) (risk_order s) then s else r) ≡ false
        → (is_high r ≡ false) × (is_high s ≡ false)
    either RiskLevel.no_risk RiskLevel.no_risk h = (refl, refl)
    either RiskLevel.no_risk RiskLevel.review h = (refl, refl)
    either RiskLevel.no_risk RiskLevel.high h = absurd (cc)
    either RiskLevel.review RiskLevel.no_risk h = (refl, refl)
    either RiskLevel.review RiskLevel.review h = (refl, refl)
    either RiskLevel.review RiskLevel.high h = absurd (cc)
    either RiskLevel.high RiskLevel.no_risk h = absurd (cc)
    either RiskLevel.high RiskLevel.review h = absurd (cc)
    either RiskLevel.high RiskLevel.high h = absurd (cc)

-- The overall risk is high unless no finding is.
pub overall_risk-NotHigh :
    (fs : List RuleFinding) → is_high (overall_risk fs) ≡ false → All NotHigh fs
unfolding overall_risk
overall_risk-NotHigh [] h = tt
overall_risk-NotHigh (f ∷ fs) h = greatest_high f.risk fs h

-- the risk that the table gives to an id
abbrev pub risk_of : String → List RiskPattern → Option RiskLevel
risk_of id [] = none
risk_of id (p ∷ ps) = if str_eq p.id id then some p.risk else risk_of id ps

abbrev pub IsListed : RuleFinding → Type 0
IsListed f = risk_of f.pattern_id risk_patterns ≡ some f.risk

-- a finding of the table, or of the model
abbrev pub IsKnown : RuleFinding → Type 0
IsKnown f = IsListed f ⊎ (f.pattern_id ≡ "model_assessed")

IsListedPattern : RiskPattern → Type 0
IsListedPattern p = risk_of p.id risk_patterns ≡ some p.risk

-- The ids of the table are distinct, so an id tells the risk.
table_listed : All IsListedPattern risk_patterns
unfolding risk_patterns IsListedPattern
table_listed = (
  refl,
  (
    refl,
    (
      refl,
      (
        refl,
        (
          refl,
          (
            refl,
            (
              refl,
              (refl, (refl, (refl, (refl, (refl, (refl, (refl, (refl, (refl, (refl, tt)))))))))),
            ),
          ),
        ),
      ),
    ),
  ),
)

model_unlisted : risk_of "model_assessed" risk_patterns ≡ none
unfolding risk_patterns
model_unlisted = refl

scan_with-IsListed :
    (search : String → String → Option String) (ps : List RiskPattern) (text : String)
    → All IsListedPattern ps
    → All IsListed (scan_with search ps text)
unfolding scan_with IsListedPattern
scan_with-IsListed search [] text h = tt
scan_with-IsListed search (p ∷ ps) text (h, hs) =
    elim (search p.pattern text)
      as (λ o. All IsListed (elim o [
        | none ↦ scan_with search ps text
        | some m ↦ found p m ∷ scan_with search ps text
      ])) [
        | none ↦ scan_with-IsListed search ps text hs
        | some m ↦ (h, scan_with-IsListed search ps text hs)
      ]

pub scan_patterns-IsListed :
    (search : String → String → Option String) (text : String)
    → All IsListed (scan_patterns search text)
unfolding scan_patterns
scan_patterns-IsListed search text = scan_with-IsListed search risk_patterns text table_listed

pub All-map {ℓ κ} :
    {A : Type 0} {P : A → Type ℓ} {Q : A → Type κ}
    → ((a : A) → P a → Q a)
    → (xs : List A) → All P xs
    → All Q xs
All-map f [] h = tt
All-map f (x ∷ xs) (p, h) = (f x p, All-map f xs h)

-- an id that is there belongs to a finding
member_ids :
    (Q : RuleFinding → Type 0) (id : String) (fs : List RuleFinding)
    → member id (ids_of fs) ≡ true
    → All Q fs
    → (e : RuleFinding) × (id ≡ e.pattern_id) × Q e
member_ids Q id [] m h = absurd (cc)
member_ids Q id (f ∷ fs) m (q, h) = elim (Bool-cases (str_eq id f.pattern_id)) [
  | inl same ↦ (f, (eq_iff id f.pattern_id).0 same, q)
  | inr other ↦ member_ids Q id fs (rw other at m) h
]

-- the risk of a finding whose id is there already
seen-NotHigh :
    (e f : RuleFinding)
    → IsListed f
    → IsKnown e
    → f.pattern_id ≡ e.pattern_id
    → NotHigh e
    → NotHigh f
seen-NotHigh e f listed (inl known) same h = cc (ap (λ i. risk_of i risk_patterns) same)
seen-NotHigh e f listed (inr model) same h = absurd (
    cc (
      ap (λ i. risk_of i risk_patterns) same,
      ap (λ i. risk_of i risk_patterns) model,
      model_unlisted,
    ))

All-zip :
    {A : Type 0} (P Q : A → Type 0) (xs : List A) → All P xs → All Q xs → All (λ x. P x × Q x) xs
All-zip P Q [] h k = tt
All-zip P Q (x ∷ xs) (p, h) (q, k) = ((p, q), All-zip P Q xs h k)

-- If nothing in a merge is of high risk, nothing that was merged is.
merge_findings-Merged :
    (fs gs : List RuleFinding)
    → All IsKnown fs
    → All IsListed gs
    → All IsKnown (merge_findings fs gs)
      × (All NotHigh (merge_findings fs gs) → All NotHigh fs × All NotHigh gs)
unfolding merge_findings
merge_findings-Merged fs [] known listed = (known, λ h. (h, tt))
merge_findings-Merged fs (g ∷ gs) known (l, listed) =
    if_elim
      (λ acc.
        All IsKnown (merge_findings acc gs)
        × (All NotHigh (merge_findings acc gs) → All NotHigh fs × All NotHigh (g ∷ gs)))
      (member g.pattern_id (ids_of fs))
      (λ seen.
        let (k, f) = merge_findings-Merged fs gs known listed in
        (
          k,
          λ h.
              let (a, b) = f h in
              let (e, same, both) =
                member_ids (λ e. IsKnown e × NotHigh e) g.pattern_id fs seen
                  (All-zip IsKnown NotHigh fs known a) in
              (a, (seen-NotHigh e g l both.0 same both.1, b)),
        ))
      (λ new.
        let (k, f) =
          merge_findings-Merged (fs ++ g ∷ []) gs
            (All-append_join IsKnown fs (g ∷ []) known (inl l, tt)) listed in
        (
          k,
          λ h.
              let (a, b) = f h in
              let (c, (d, _)) = All-append_split NotHigh fs (g ∷ []) a in (c, (d, b)),
        ))

module _ (search : String → String → Option String) where
  -- no pattern of high risk is found in the text
  abbrev pub IsClean : String → Type 0
  IsClean text = All NotHigh (scan_patterns search text)

  pub merge_literals-IsClean :
      (texts : List String) (fs : List RuleFinding)
      → All IsKnown fs
      → All NotHigh (merge_literals search texts fs)
      → All NotHigh fs × All IsClean texts
  unfolding merge_literals
  merge_literals-IsClean [] fs known h = (h, tt)
  merge_literals-IsClean (s ∷ ss) fs known h =
      let (k, f) =
        merge_findings-Merged fs (scan_patterns search s) known (scan_patterns-IsListed search s) in
      let (a, b) = merge_literals-IsClean ss (merge_findings fs (scan_patterns search s)) k h in
      let (c, d) = f a in (c, (d, b))

  pub scan_patterns-IsKnown : (text : String) → All IsKnown (scan_patterns search text)
  scan_patterns-IsKnown text =
      All-map (λ f l. inl l) (scan_patterns search text) (scan_patterns-IsListed search text)

model_finding_id :
    (m : ModelRule) (f : RuleFinding) → model_finding m ≡ some f → f.pattern_id ≡ "model_assessed"
unfolding model_finding
model_finding_id m f h = ground arith

-- The findings of the table stay when the model has its own.
pub add_model_finding-IsKnown :
    (m : ModelRule) (fs : List RuleFinding)
    → All IsKnown fs
    → All IsKnown (add_model_finding (model_finding m) fs)
      × (All NotHigh (add_model_finding (model_finding m) fs) → All NotHigh fs)
add_model_finding-IsKnown m fs known = added (model_finding m) (model_finding_id m)
  where
    added :
        (o : Option RuleFinding)
        → ((f : RuleFinding) → o ≡ some f → f.pattern_id ≡ "model_assessed")
        → All IsKnown (add_model_finding o fs)
          × (All NotHigh (add_model_finding o fs) → All NotHigh fs)
    added none h = unfold add_model_finding in (known, λ n. n)
    added (some f) h =
        unfold add_model_finding in
        if_elim (λ acc. All IsKnown acc × (All NotHigh acc → All NotHigh fs)) (already_covered f fs)
          (λ _. (known, λ n. n))
          (λ _. (
            All-append_join IsKnown fs (f ∷ []) known (inr (h f refl), tt),
            λ n. (All-append_split NotHigh fs (f ∷ []) n).0,
          ))
