-- ===== src/Dsl/Judge/Keeps.antt =====
-- rescan/dsl/judge.py: a judge changes the state of the client and the audit by them alone.
use rescan.Prelude.{ℕ, String, Option, none, some, List, [], ◌∷◌}
use rescan.Prelude.Text.{lookup}
use rescan.Prelude.Result.{pure, ◌>>=◌}
use rescan.Schemas.{AnonymizedProfile}
use rescan.Dsl.Verdict.{JudgeResult}
use rescan.Dsl.Eval.Keeps.{Keeps, Keeps-bind, JudgeKeeps}
use rescan.Dsl.Judge.Votes.{combine}
use rescan.Dsl.Judge.Ask.{
  JudgeState, JudgeSetup, in_world, remember, memo_key, vote, collect, cached_or, judge_new, judge,
  ask,
}

module _ {W F : Type 0} (Q : W → Type 0) (setup : JudgeSetup W F)
    (client : (q text : String) (m : Option String) (n : Option ℕ)
      → Keeps Q (setup.client q text m n))
    (checks : (r : JudgeResult) (p : AnonymizedProfile F) → Keeps Q (setup.on_check r p)) where
  abbrev pub WorldKeeps : JudgeState W → Type 0
  WorldKeeps s = Q s.world

  vote-Keeps :
      (q text : String) (m : Option String × Option ℕ) → Keeps WorldKeeps (vote setup q text m)
  unfolding vote
  vote-Keeps q text (model, seed) =
      Keeps-bind WorldKeeps (in_world (setup.client q text model seed)) _
        (λ s h. client q text model seed s.world h) λ a s h. h

  collect-Keeps :
      (q text : String) (ms : List (Option String × Option ℕ))
      → Keeps WorldKeeps (collect setup q text ms)
  unfolding collect
  collect-Keeps q text [] = λ s h. h
  collect-Keeps q text (m ∷ ms) =
      Keeps-bind WorldKeeps (vote setup q text m) _ (vote-Keeps q text m)
        λ v. Keeps-bind WorldKeeps (collect setup q text ms) _ (collect-Keeps q text ms) λ vs s h. h

  judge_new-Keeps : (q : String) (p : AnonymizedProfile F) → Keeps WorldKeeps (judge_new setup q p)
  unfolding judge_new
  judge_new-Keeps q p =
      Keeps-bind WorldKeeps (collect setup q (setup.profile_text p) setup.members) _
        (collect-Keeps q (setup.profile_text p) setup.members)
        λ votes.
          Keeps-bind WorldKeeps (remember (memo_key setup q p) (combine q votes))
            (λ _. in_world (setup.on_check (combine q votes) p) >>= λ _. pure (combine q votes))
            (λ s h. h)
            λ x.
              Keeps-bind WorldKeeps (in_world (setup.on_check (combine q votes) p))
                (λ _. pure (combine q votes)) (λ s h. checks (combine q votes) p s.world h)
                λ y s h. h

  cached-Keeps :
      (o : Option JudgeResult) (q : String) (p : AnonymizedProfile F)
      → Keeps WorldKeeps (cached_or setup o (judge_new setup q p))
  cached-Keeps none q p = judge_new-Keeps q p
  cached-Keeps (some r) q p = λ s h. h

  -- A judge keeps what its client and its callback keep.
  pub ask-Keeps : JudgeKeeps WorldKeeps (ask setup)
  unfolding ask judge
  ask-Keeps q p =
      Keeps-bind WorldKeeps (judge setup q p) _
        (λ s h. cached-Keeps (lookup (memo_key setup q p) s.memo) q p s h) λ r s h. h
