-- ===== src/Dsl/Judge/Ask.antt =====
-- rescan/dsl/judge.py: `judge` and `ask`, with the memo. The text of a profile, its digest, the
-- model's client and the audit callback are parameters; `W` is the state of the client and the
-- audit.
use rescan.Prelude.{ℕ, String, Bool, Option, none, some, List, [], ◌∷◌, if◌then◌else◌}
use rescan.Prelude.Text.{concat, lookup}
use rescan.Prelude.Result.{ok, Exec, pure, ◌>>=◌}
use rescan.Schemas.{AnonymizedProfile}
use rescan.Dsl.Verdict.{Vote, JudgeResult, Observed}
use rescan.Dsl.Eval.Leaf.{verdict}
use rescan.Dsl.Eval.Evaluate.{JudgeLike}
use rescan.Dsl.Judge.Votes.{JudgeAnswer, vote_of, combine}

pub record JudgeState (W : Type 0) : Type 0 where
  pub world : W
  -- `_memo`, the latest first
  pub memo : List (String × JudgeResult)

pub record JudgeSetup (W F : Type 0) : Type 0 where
  -- client.json_call for a question, a profile's text, a model and a seed
  pub client : String → String → Option String → Option ℕ → Exec W JudgeAnswer
  -- `_members`
  pub members : List (Option String × Option ℕ)
  pub ensemble : Bool
  pub profile_text : AnonymizedProfile F → String
  pub digest : String → String
  -- `on_check`, which does nothing where there is none
  pub on_check : JudgeResult → AnonymizedProfile F → Exec W (Unit {0})

-- a call of the client or the callback
abbrev pub in_world : {W A : Type 0} → Exec W A → Exec (JudgeState W) A
in_world m s = let (r, w) = m s.world in (r, record s { world = w })

abbrev pub remember : {W : Type 0} → String → JudgeResult → Exec (JudgeState W) (Unit {0})
remember key result s = (ok tt, record s { memo = (key, result) ∷ s.memo })

module _ {W F : Type 0} (setup : JudgeSetup W F) where
  abbrev pub memo_key : String → AnonymizedProfile F → String
  memo_key q p = concat (
      (if setup.ensemble then "True" else "False")
      ∷ ":"
      ∷ setup.digest (setup.profile_text p)
      ∷ ":"
      ∷ q
      ∷ [])

  unfoldable pub vote : String → String → Option String × Option ℕ → Exec (JudgeState W) Vote
  unfolding vote_of
  vote q text (model, seed) =
      in_world (setup.client q text model seed) >>= λ answer. pure (vote_of model seed text answer)

  unfoldable pub collect :
      String → String → List (Option String × Option ℕ) → Exec (JudgeState W) (List Vote)
  unfolding vote
  collect q text [] = pure []
  collect q text (m ∷ ms) = vote q text m >>= λ v. collect q text ms >>= λ vs. pure (v ∷ vs)

  -- a question that is not in the memo
  unfoldable pub judge_new : String → AnonymizedProfile F → Exec (JudgeState W) JudgeResult
  unfolding collect combine
  judge_new q p = collect q (setup.profile_text p) setup.members >>= λ votes.
      remember (memo_key q p) (combine q votes) >>= λ _.
      in_world (setup.on_check (combine q votes) p) >>= λ _. pure (combine q votes)

  abbrev pub cached_or :
      Option JudgeResult → Exec (JudgeState W) JudgeResult → Exec (JudgeState W) JudgeResult
  cached_or (some r) m = pure r
  cached_or none m = m

  unfoldable pub judge : String → AnonymizedProfile F → Exec (JudgeState W) JudgeResult
  unfolding judge_new
  judge q p s = cached_or (lookup (memo_key q p) s.memo) (judge_new q p) s

  unfoldable pub ask : JudgeLike (JudgeState W) F
  unfolding judge
  ask q p = judge q p >>= λ r. pure (verdict r.value r.reason (Observed.judged r))
