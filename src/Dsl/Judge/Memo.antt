-- ===== src/Dsl/Judge/Memo.antt =====
-- rescan/dsl/judge.py: the memo. A question is put to the model once for a profile.
use rescan.Prelude.{◌≡◌, refl, ap, ◌∙◌, String, Option, none, some, List, ◌∷◌, arith}
use rescan.Prelude.Text.{eq_iff, lookup}
use rescan.Prelude.Result.{ok-injective, Result, ok, err, continue, pure, ◌>>=◌}
use rescan.Schemas.{AnonymizedProfile}
use rescan.Dsl.Verdict.{Vote, JudgeResult}
use rescan.Dsl.Judge.Votes.{combine}
use rescan.Dsl.Judge.Ask.{
  JudgeState, JudgeSetup, in_world, remember, memo_key, collect, cached_or, judge_new, judge,
}

module _ {W F : Type 0} (setup : JudgeSetup W F) (q : String) (p : AnonymizedProfile F) where
  lookup-head :
      (r : JudgeResult) (memo : List (String × JudgeResult))
      → lookup (memo_key setup q p) ((memo_key setup q p, r) ∷ memo) ≡ some r
  lookup-head r memo = rw ((eq_iff (memo_key setup q p) (memo_key setup q p)).1 refl) refl

  -- the result is in the memo
  InMemo : JudgeResult → JudgeState W → Type 0
  InMemo r s = lookup (memo_key setup q p) s.memo ≡ some r

  after_check :
      (result r : JudgeResult) (s : JudgeState W)
      → InMemo result s
      → (y : Result (Unit {0}) × W)
      → (continue y.0 (λ _. pure result) (record s { world = y.1 })).0 ≡ ok r
      → InMemo r (continue y.0 (λ _. pure result) (record s { world = y.1 })).1
  unfolding InMemo
  after_check result r s h (ok _, w) e = h ∙ ap some (ok-injective result r e)
  after_check result r s h (err x, w) e = ground (arith, e)

  after_votes :
      (r : JudgeResult) (x : Result (List Vote) × JudgeState W)
      → (continue x.0
          (λ votes. remember (memo_key setup q p) (combine q votes) >>= λ _.
            in_world (setup.on_check (combine q votes) p) >>= λ _. pure (combine q votes))
          x.1).0
        ≡ ok r
      → InMemo r
          (continue x.0
            (λ votes. remember (memo_key setup q p) (combine q votes) >>= λ _.
              in_world (setup.on_check (combine q votes) p) >>= λ _. pure (combine q votes))
            x.1).1
  unfolding InMemo
  after_votes r (ok votes, s) e =
      after_check (combine q votes) r
        (record s { memo = (memo_key setup q p, combine q votes) ∷ s.memo })
        (lookup-head (combine q votes) s.memo) (setup.on_check (combine q votes) p s.world) e
  after_votes r (err x, s) e = ground (arith, e)

  judge_new-InMemo :
      (r : JudgeResult) (s : JudgeState W)
      → (judge_new setup q p s).0 ≡ ok r
      → InMemo r (judge_new setup q p s).1
  unfolding judge_new
  judge_new-InMemo r s e = after_votes r (collect setup q (setup.profile_text p) setup.members s) e

  judge-InMemo :
      (r : JudgeResult) (s : JudgeState W)
      → (judge setup q p s).0 ≡ ok r
      → InMemo r (judge setup q p s).1
  unfolding judge InMemo
  judge-InMemo r s e = go (lookup (memo_key setup q p) s.memo) refl e
    where
      go :
          (o : Option JudgeResult)
          → lookup (memo_key setup q p) s.memo ≡ o
          → (cached_or setup o (judge_new setup q p) s).0 ≡ ok r
          → InMemo r (cached_or setup o (judge_new setup q p) s).1
      go (some r') h e = h ∙ ap some (ok-injective r' r e)
      go none h e = judge_new-InMemo r s e

  -- If a question about a profile was answered, then asking it again gives the same result and
  -- leaves the memo, the client and the audit as they are: no model call is spent, and the answer
  -- cannot change.
  pub judge-again :
      (r : JudgeResult) (s : JudgeState W)
      → (judge setup q p s).0 ≡ ok r
      → judge setup q p (judge setup q p s).1 ≡ (ok r, (judge setup q p s).1)
  unfolding judge InMemo
  judge-again r s e =
      ap (λ o. cached_or setup o (judge_new setup q p) (judge setup q p s).1) (judge-InMemo r s e)
