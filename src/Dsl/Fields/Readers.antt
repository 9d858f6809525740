-- ===== src/Dsl/Fields/Readers.antt =====
-- rescan/dsl/fields.py: the readers that several fields share. A reader answers `none` where the
-- resume does not state the value.
use mathlib.Core.Option
use rescan.Prelude.{
  ℕ, String, Bool, true, false, not, ◌||◌, Option, none, some, List, [], ◌∷◌, ◌++◌, map,
  if◌then◌else◌, leb, ltb, filter, any, length, is_some, zero, suc,
}
use rescan.Prelude.Float.{FloatOps, sum}
use rescan.Prelude.Text.{str_eq, lower, member, is_empty}
use rescan.Schemas.{
  WorkRightsStatus, Skill, Experience, Qualification, AnonymizedProfile, highest_aqf,
}

abbrev pub seniority_ladder : List String
seniority_ladder =
    "intern" ∷ "graduate" ∷ "junior" ∷ "mid" ∷ "senior" ∷ "lead" ∷ "principal" ∷ "manager" ∷ "head"
    ∷ "director" ∷ "executive" ∷ []

abbrev pub leadership_levels : List String
leadership_levels = "lead" ∷ "principal" ∷ "manager" ∷ "head" ∷ "director" ∷ "executive" ∷ []

abbrev pub skill_categories : List String
skill_categories = "technical" ∷ "domain" ∷ "language" ∷ "tool" ∷ "soft" ∷ "other" ∷ []

abbrev pub proficiencies : List String
proficiencies = "beginner" ∷ "intermediate" ∷ "advanced" ∷ "expert" ∷ []

abbrev pub employment_types : List String
employment_types =
    "permanent" ∷ "contract" ∷ "casual" ∷ "internship" ∷ "freelance" ∷ "volunteer" ∷ "other" ∷ []

abbrev pub work_rights_values : List String
work_rights_values =
    "citizen" ∷ "permanent_resident" ∷ "visa_unrestricted" ∷ "visa_restricted"
    ∷ "requires_sponsorship" ∷ []

abbrev pub work_rights_pseudo : String
work_rights_pseudo = "unrestricted"

abbrev pub is_nil {ℓ} : {A : Type ℓ} → List A → Bool
is_nil [] = true
is_nil (_ ∷ _) = false

abbrev pub none_if_empty {ℓ} : {A : Type ℓ} → List A → Option (List A)
none_if_empty [] = none
none_if_empty (x ∷ xs) = some (x ∷ xs)

-- A text is true in Python unless it is empty.
abbrev pub non_empty : Option String → Option String
non_empty none = none
non_empty (some s) = if is_empty s then none else some s

abbrev pub member_opt : Option String → List String → Bool
member_opt none vs = false
member_opt (some s) vs = member s vs

-- [x.f for x in xs if x.f]
abbrev pub stated : {A : Type 0} → (A → Option String) → List A → List String
stated f [] = []
stated f (x ∷ xs) = elim (non_empty (f x)) [ none ↦ stated f xs | some s ↦ s ∷ stated f xs ]

-- next((x.f for x in xs if ...), None)
abbrev pub first_some : {A B : Type 0} → (A → Option B) → List A → Option B
first_some f [] = none
first_some f (x ∷ xs) = elim (f x) [ none ↦ first_some f xs | some b ↦ some b ]

abbrev pub flat_map : {A B : Type 0} → (A → List B) → List A → List B
flat_map f [] = []
flat_map f (x ∷ xs) = f x ++ flat_map f xs

abbrev pub distinct : List String → List String
distinct [] = []
distinct (x ∷ xs) = let rest = distinct xs in if member x rest then rest else x ∷ rest

abbrev pub true_if_any : {A : Type 0} → List A → Option Bool
true_if_any [] = none
true_if_any (_ ∷ _) = some true

abbrev pub index_from : ℕ → String → List String → Option ℕ
index_from n s [] = none
index_from n s (v ∷ vs) = if str_eq s v then some n else index_from (suc n) s vs

abbrev pub seniority_index : String → Option ℕ
seniority_index s = index_from 0 s seniority_ladder

abbrev pub status_value : WorkRightsStatus → Option String
status_value WorkRightsStatus.citizen = some "citizen"
status_value WorkRightsStatus.permanent_resident = some "permanent_resident"
status_value WorkRightsStatus.visa_unrestricted = some "visa_unrestricted"
status_value WorkRightsStatus.visa_restricted = some "visa_restricted"
status_value WorkRightsStatus.requires_sponsorship = some "requires_sponsorship"
status_value WorkRightsStatus.unknown = none

-- The greatest of the indices, or `none` of none.
abbrev pub top : Option ℕ → Option ℕ → Option ℕ
top none b = b
top (some n) none = some n
top (some n) (some m) = some (if ltb n m then m else n)

abbrev pub top_index : List (Option String) → Option ℕ
top_index [] = none
top_index (s ∷ ss) = top (Option.bind s seniority_index) (top_index ss)

abbrev pub nth : ℕ → List String → Option String
nth n [] = none
nth zero (v ∷ vs) = some v
nth (suc n) (v ∷ vs) = nth n vs

-- The first award of the greatest level among `best` and the others.
abbrev pub best_award : {F : Type 0} → Qualification F → List (Qualification F) → Qualification F
best_award best [] = best
best_award best (q ∷ qs) =
    best_award
      (if ltb (Option.get_or best.aqf_level 0) (Option.get_or q.aqf_level 0) then q else best) qs

abbrev pub highest_of :
    {F : Type 0} → List (Qualification F) → List (Qualification F) → Option String
highest_of (q ∷ ranked) qs = some (best_award q ranked).title
highest_of [] (q ∷ qs) = some q.title
highest_of [] [] = none

-- `if item and item.lower() not in {s.lower() for s in seen}: seen.append(item)`
abbrev pub add_new : List String → List String → List String
add_new seen [] = seen
add_new seen (x ∷ xs) =
    add_new (if is_empty x || member (lower x) (map lower seen) then seen else seen ++ x ∷ []) xs

abbrev pub has_degree_level : {F : Type 0} → Qualification F → Bool
has_degree_level q = leb 7 (Option.get_or q.aqf_level 0)

abbrev pub truthy_nat : Option ℕ → Bool
truthy_nat none = false
truthy_nat (some n) = ltb 0 n

module _ {F : Type 0} where
  unfoldable pub work_rights_status : AnonymizedProfile F → Option String
  work_rights_status p = status_value p.work_rights.status

  unfoldable pub months : List (Experience F) → List F
  months [] = []
  months (r ∷ rs) = elim r.months [ none ↦ months rs | some m ↦ m ∷ months rs ]

  abbrev pub skill_years : List (Skill F) → List F
  skill_years [] = []
  skill_years (s ∷ ss) = elim s.years [ none ↦ skill_years ss | some y ↦ y ∷ skill_years ss ]

  abbrev first_current : List (Experience F) → Option (Experience F)
  first_current [] = none
  first_current (r ∷ rs) = if r.is_current then some r else first_current rs

  abbrev pub head_role : List (Experience F) → Option (Experience F)
  head_role [] = none
  head_role (r ∷ rs) = some r

  -- The current role if there is one, else the first listed.
  unfoldable pub latest_role : AnonymizedProfile F → Option (Experience F)
  latest_role p = elim (first_current p.experience) [
    | some r ↦ some r
    | none ↦ head_role p.experience
  ]

  abbrev pub on_latest : {A : Type 0} → (Experience F → Option A) → AnonymizedProfile F → Option A
  on_latest f p = Option.bind (latest_role p) f

  unfoldable pub skills_in : AnonymizedProfile F → List String → List String
  skills_in p categories = map (λ s. s.name) (filter (λ s. member s.category categories) p.skills)

  unfoldable pub highest_seniority : AnonymizedProfile F → Option String
  highest_seniority p =
      Option.bind (top_index (map (λ r. r.seniority) p.experience)) (λ n. nth n seniority_ladder)

  unfoldable pub highest_qualification : AnonymizedProfile F → Option String
  highest_qualification p =
      highest_of (filter (λ q. is_some q.aqf_level) p.qualifications) p.qualifications

  unfoldable pub technologies : AnonymizedProfile F → List String
  unfolding skills_in
  technologies p = add_new [] (
      flat_map (λ r. r.technologies) p.experience
      ++ (flat_map (λ pr. pr.technologies) p.projects ++ skills_in p ("tool" ∷ "technical" ∷ [])))

  unfoldable pub aqf_at_least : ℕ → AnonymizedProfile F → Option Bool
  aqf_at_least level p = Option.map (λ n. leb level n) (highest_aqf p)

  unfoldable pub requires_sponsorship : AnonymizedProfile F → Option Bool
  unfolding work_rights_status
  requires_sponsorship p = Option.map (λ s. str_eq s "requires_sponsorship") (work_rights_status p)

module _ {F : Type 0} ⦃fl : FloatOps F⦄ where
  abbrev pub float : Option ℕ → Option F
  float = Option.map fl.of_nat

  unfoldable pub list_count {ℓ} : {A : Type ℓ} → List A → Option F
  list_count [] = none
  list_count (x ∷ xs) = some (fl.of_nat (length (x ∷ xs)))

  -- sum(1 for r in roles if test(r)) if roles else None
  abbrev pub per_role : List (Experience F) → (Experience F → Bool) → Option F
  per_role [] test = none
  per_role (r ∷ rs) test = some (fl.of_nat (length (filter test (r ∷ rs))))

  abbrev pub on_some : (F → List F → F) → List F → Option F
  on_some f [] = none
  on_some f (x ∷ xs) = some (f x xs)

  -- sum(_months(roles)) if _months(roles) else None
  unfoldable pub total_months : List F → Option F
  total_months [] = none
  total_months (x ∷ xs) = some (sum (x ∷ xs))

  unfoldable pub average : List F → Option F
  average [] = none
  average (x ∷ xs) = some (fl.round (fl.div (sum (x ∷ xs)) (fl.of_nat (length (x ∷ xs)))) 1)

  unfoldable pub bool_from_number :
      (AnonymizedProfile F → Option F) → AnonymizedProfile F → Option Bool
  bool_from_number read p = Option.map (λ x. fl.lt (fl.of_nat 0) x) (read p)

  abbrev truthy_float : Option F → Bool
  truthy_float none = false
  truthy_float (some x) = not (fl.eq x (fl.of_nat 0))

  unfoldable pub has_management : AnonymizedProfile F → Option Bool
  has_management p =
      if truthy_float p.management_years || truthy_nat p.people_managed_max
      then some true
      else if any (λ r. member_opt r.seniority leadership_levels || truthy_nat r.team_size)
          p.experience
      then some true
      else if is_nil p.experience
      then none
      else some false
