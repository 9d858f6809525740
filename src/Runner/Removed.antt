-- ===== src/Runner/Removed.antt =====
-- rescan/pipeline/runner.py: what `remove_rule` takes out of the rules of a run.
use mathlib.Core.Option.{some-injective}
use rescan.Prelude.{
  ◌≡◌, ◌≢◌, refl, sym, ap, ◌∙◌, String, not, some, List, [], ◌∷◌, ◌++◌, map, filter, All,
  if◌then◌else◌, Bool-cases, Option-cases, inl, inr,
}
use rescan.Prelude.Float.{FloatOps}
use rescan.Prelude.Text.{str_eq, eq_iff}
use rescan.Prelude.Result.{Result, ok, err, lift, bind_elim}
use rescan.Rules.Models.{ClassifiedRule, RuleSet}
use rescan.Store.Rows.{RunRow, Store}
use rescan.Store.Operations.{find, update_run, audit_many}
use rescan.Store.Reads.{get_run}
use rescan.Runner.Env.{State}
use rescan.Runner.Rules.{RuleEnv, require_run, remove_rule}
use rescan.Runner.Added.{require_run-state, require_run-known, rule_set_for-known}

-- The second list is the first without the rules under the id, in the same order.
pub data Without {F : Type 0} (id : String)
    : List (ClassifiedRule F) → List (ClassifiedRule F) → Type 0 where
  empty : Without id [] []
  gone :
      {r : ClassifiedRule F} {rs kept : List (ClassifiedRule F)}
      → r.id ≡ id
      → Without id rs kept
      → Without id (r ∷ rs) kept
  stays :
      {r : ClassifiedRule F} {rs kept : List (ClassifiedRule F)}
      → r.id ≢ id
      → Without id rs kept
      → Without id (r ∷ rs) (r ∷ kept)

-- The rule is the first one under the id.
abbrev pub FirstUnder : {F : Type 0} → String → ClassifiedRule F → List (ClassifiedRule F) → Type 0
FirstUnder {F = F} id rule rs =
    (before after : List (ClassifiedRule F)) × (rs ≡ before ++ rule ∷ after)
    × All (λ r. ClassifiedRule.id r ≢ id) before
    × (rule.id ≡ id)

filter-Without :
    {F : Type 0} (id : String) (rs : List (ClassifiedRule F))
    → Without id rs (filter (λ r. not (str_eq (ClassifiedRule.id r) id)) rs)
filter-Without id [] = empty
filter-Without id (r ∷ rs) = elim (Bool-cases (str_eq r.id id)) [
  | inl same ↦ rw same (gone ((eq_iff r.id id).0 same) (filter-Without id rs))
  | inr other ↦
      rw other
        (stays (λ same. absurd (cc (sym other ∙ (eq_iff r.id id).1 same))) (filter-Without id rs))
]

find-FirstUnder :
    {F : Type 0} (id : String) (rs : List (ClassifiedRule F)) (rule : ClassifiedRule F)
    → find (λ r. str_eq (ClassifiedRule.id r) id) rs ≡ some rule
    → FirstUnder id rule rs
find-FirstUnder id [] rule h = absurd (cc h)
find-FirstUnder id (r ∷ rs) rule h = elim (Bool-cases (str_eq r.id id)) [
  | inl same ↦
      let first : r ≡ rule = some-injective _ _ (rw same at h) in
      (
        [],
        rs,
        ap (λ x. x ∷ rs) first,
        tt,
        ap ClassifiedRule.id (sym first) ∙ (eq_iff r.id id).0 same,
      )
  | inr other ↦
      let (before, after, parts, none_before, named) = find-FirstUnder id rs rule (rw other at h) in
      (
        r ∷ before,
        after,
        ap (λ x. r ∷ x) parts,
        (λ same. absurd (cc (sym other ∙ (eq_iff r.id id).1 same)), none_before),
        named,
      )
]

module _ {W F Data File : Type 0} ⦃fl : FloatOps F⦄ (e : RuleEnv W F Data File) where
  -- what became of the removal of a rule: with an error the table of runs is as it was, and a rule
  -- that came out is the first one under the id, and the run's row has the others
  abbrev pub Removed : String → String → State W → Result (ClassifiedRule F) × State W → Type 0
  Removed id gone_id s (err x, s') = s'.store.runs ≡ s.store.runs
  Removed id gone_id s (ok rule, s') =
      (run : RunRow) × (set : RuleSet F) × (kept : List (ClassifiedRule F)) × (now : String)
      × (get_run id s.store ≡ some run)
      × (e.load_rules run.rules_json ≡ ok set)
      × FirstUnder gone_id rule set.rules
      × Without gone_id set.rules kept
      × (s'.store.runs
          ≡ map
              (λ r.
                if str_eq (RunRow.id r) id
                then record r {
                  rules_json = some (e.dump_rules (record set { rules = kept }));
                  updated_at = now;
                }
                else r)
              s.store.runs)

  -- If `remove_rule` returns a rule, it is the first of the run under that id, and the run's row
  -- has the rules it had without those under the id, in their order, and the other runs are as they
  -- were. If it raises, the table of runs is as it was.
  pub remove_rule-Removed :
      (id gone_id : String) (s : State W) → Removed id gone_id s (remove_rule e id gone_id s)
  unfolding remove_rule update_run audit_many
  remove_rule-Removed id gone_id s =
      bind_elim (Removed id gone_id s) (require_run e id) _ s
        (λ run found.
          let known = require_run-known e id run s found in
          rw (require_run-state e id s) (
            rw (rule_set_for-known e id run s known) (
              bind_elim (Removed id gone_id s) (lift (e.load_rules run.rules_json)) _ s
                (λ set loaded.
                  elim (Option-cases (find (λ r. str_eq (ClassifiedRule.id r) gone_id) set.rules)) [
                    | inl missing ↦ rw missing refl
                    | inr (rule, first) ↦ rw first (
                      run,
                      set,
                      filter (λ r. not (str_eq (ClassifiedRule.id r) gone_id)) set.rules,
                      (e.env.now s.world).0,
                      known,
                      loaded,
                      find-FirstUnder gone_id set.rules rule first,
                      filter-Without gone_id set.rules,
                      refl,
                    )
                  ])
                (λ x. refl))))
        (λ x. ap (λ t. Store.runs (State.store t)) (require_run-state e id s))
