-- ===== src/Runner/Added.antt =====
-- rescan/pipeline/runner.py: what `add_rule` lets into the rules of a run.
use text.Mathlib.TextLemmas.{cons-append}
use rescan.Prelude.{
  ◌≡◌, refl, sym, ap, ◌∙◌, ℕ, String, Bool, false, some, [], ◌∷◌, ◌++◌, map, if◌then◌else◌,
  Option-cases, inl, inr, if_elim, subst,
}
use rescan.Prelude.Float.{FloatOps}
use rescan.Prelude.Text.{str_eq, is_empty, member}
use rescan.Prelude.Result.{Result, ok, err, Exec, lift, bind_elim, ok-injective}
use rescan.Rules.Models.{ClassifiedRule, RuleSet, is_high}
use rescan.Rules.Classifier.Plan.{rule_id}
use rescan.Rules.Classifier.Plans.{IsVettedRule, classify_rule-Classified}
use rescan.Store.Rows.{RunRow, Store}
use rescan.Store.Operations.{update_run, audit_many}
use rescan.Store.Reads.{get_run}
use rescan.Runner.Env.{State}
use rescan.Runner.Rules.{
  RuleEnv, require_run, rule_set_for, new_rule, is_blocking, admit, add_rule, rule_ids, next_id,
}
use rescan.Runner.RuleIds.{next_id-fresh}

rule_id-some : (n : ℕ) → is_empty (rule_id n) ≡ false
rule_id-some n = rw cons-append refl

module _ {W F Data File : Type 0} ⦃fl : FloatOps F⦄ (e : RuleEnv W F Data File) where
  pub require_run-state : (id : String) (s : State W) → (require_run e id s).1 ≡ s
  unfolding require_run
  require_run-state id s = elim (Option-cases (get_run id s.store)) [
    | inl h ↦ rw (h, require_run) refl
    | inr (run, h) ↦ rw (h, require_run) refl
  ]

  -- the rule that a text gives, under its id
  abbrev IsNew : String → State W → Result (ClassifiedRule F) × State W → Type 0
  IsNew id s r =
      (State.store r.1 ≡ s.store)
      × ((rule : ClassifiedRule F)
          → r.0 ≡ ok rule
          → (rule.id ≡ id) × IsVettedRule F e.search e.client rule)

  new_rule-IsNew :
      (role id text : String) (s : State W)
      → is_empty id ≡ false
      → IsNew id s (new_rule e role id text s)
  unfolding new_rule
  new_rule-IsNew role id text s some_id =
      if_elim (λ (m : Exec (State W) (ClassifiedRule F)). IsNew id s (m s)) (is_blocking e text)
        (λ blocked. (
          refl,
          λ rule h.
              let same = ok-injective _ _ h in
              subst (λ r. (ClassifiedRule.id r ≡ id) × IsVettedRule F e.search e.client r) same
                (refl, λ a. absurd (cc a)),
        ))
        (λ free. (
          refl,
          λ rule h.
              let (given, out, same, vetted) =
                classify_rule-Classified F e.search e.client text (some role) id s.world some_id in
              subst (λ r. (ClassifiedRule.id r ≡ id) × IsVettedRule F e.search e.client r)
                (ok-injective _ _ (sym out ∙ h)) (same, vetted),
        ))

  abbrev is_run : String → RunRow → Bool
  is_run id r = str_eq (RunRow.id r) id

  -- what became of a rule for a run: with an error the table of runs is as it was, and a rule that
  -- came out was added to the run's rules
  abbrev pub Admitted : String → State W → Result (ClassifiedRule F) × State W → Type 0
  Admitted id s (err x, s') = s'.store.runs ≡ s.store.runs
  Admitted id s (ok rule, s') =
      (run : RunRow) × (set : RuleSet F) × (now : String) × (get_run id s.store ≡ some run)
      × (e.load_rules run.rules_json ≡ ok set)
      × (member rule.id (rule_ids set.rules) ≡ false)
      × (is_high rule.risk ≡ false)
      × IsVettedRule F e.search e.client rule
      × (s'.store.runs
          ≡ map
              (λ r.
                if str_eq (RunRow.id r) id
                then record r {
                  rules_json = some (e.dump_rules (record set { rules = set.rules ++ rule ∷ [] }));
                  updated_at = now;
                }
                else r)
              s.store.runs)

  admit-Admitted :
      (id : String) (run : RunRow) (set : RuleSet F) (rule : ClassifiedRule F) (s s' : State W)
      → get_run id s.store ≡ some run
      → e.load_rules run.rules_json ≡ ok set
      → member rule.id (rule_ids set.rules) ≡ false
      → IsVettedRule F e.search e.client rule
      → s'.store ≡ s.store
      → Admitted id s (admit e id run set rule s')
  unfolding admit update_run audit_many
  admit-Admitted id run set rule s s' known loaded fresh vetted same =
      if_elim (λ (m : Exec (State W) (ClassifiedRule F)). Admitted id s (m s')) (is_high rule.risk)
        (λ high. ap Store.runs same)
        (λ low. (run, set, (e.env.now s'.world).0, known, loaded, fresh, low, vetted, rw same refl))

  pub rule_set_for-known :
      (id : String) (run : RunRow) (s : State W)
      → get_run id s.store ≡ some run
      → rule_set_for e id s ≡ (e.load_rules run.rules_json, s)
  unfolding rule_set_for require_run get_run
  rule_set_for-known id run s known = rw known refl

  pub require_run-known :
      (id : String) (run : RunRow) (s : State W)
      → (require_run e id s).0 ≡ ok run
      → get_run id s.store ≡ some run
  unfolding require_run get_run
  require_run-known id run s h = elim (Option-cases (get_run id s.store)) [
    | inl gone ↦ absurd (cc (rw gone at h))
    | inr (found, there) ↦ there ∙ ap some (ok-injective _ _ (rw there at h))
  ]

  -- A rule that `add_rule` returns is not of high risk, and if it is applied, no high-risk phrasing
  -- of the table is found in its text or in a string literal of its clause's expression; its id is
  -- that of no other rule of the run, and the run's row has it after the rules it had. If an error
  -- is raised instead, as it is for each rule of high risk, the table of runs is as it was.
  pub add_rule-Admitted : (id text : String) (s : State W) → Admitted id s (add_rule e id text s)
  unfolding add_rule
  add_rule-Admitted id text s =
      bind_elim (Admitted id s) (require_run e id) _ s
        (λ run found.
          let known = require_run-known id run s found in
          rw (require_run-state id s) (
            bind_elim (Admitted id s) (lift (e.load_role run.role_json)) _ s
              (λ role h. rw (rule_set_for-known id run s known) (
                bind_elim (Admitted id s) (lift (e.load_rules run.rules_json)) _ s
                  (λ set loaded.
                    let new =
                      new_rule-IsNew role.title (next_id (rule_ids set.rules)) text s
                        (rule_id-some _) in
                    bind_elim (Admitted id s)
                      (new_rule e role.title (next_id (rule_ids set.rules)) text) _ s
                      (λ rule made.
                        let (numbered, vetted) = new.1 rule made in
                        admit-Admitted id run set rule s _ known loaded
                          (rw numbered (next_id-fresh (rule_ids set.rules))) vetted new.0)
                      (λ x. ap Store.runs new.0))
                  (λ x. refl)))
              (λ x. refl)))
        (λ x. ap (λ t. Store.runs (State.store t)) (require_run-state id s))
