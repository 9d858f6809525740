-- ===== src/Dsl/Verdict.antt =====
-- rescan/dsl/eval.py `Verdict` and rescan/dsl/judge.py `Vote` and `JudgeResult`: what a rule, or
-- one clause of it, concludes about one profile.
use rescan.Prelude.{ℕ, String, Bool, Option, List}
use rescan.Dsl.Fields.Spec.{Item}

pub data Answer : Type 0 where
  yes_answer no_answer unknown_answer : Answer

pub record Vote : Type 0 where
  pub model : String
  pub seed : Option ℕ
  pub answer : Answer
  pub evidence : Option String
  pub reasoning : String
  pub declined_reason : Option String
  pub evidence_verified : Bool
  pub error : Option String
  pub note : Option String

pub record JudgeResult : Type 0 where
  pub question : String
  pub value : Option Bool
  pub reason : String
  pub votes : List Vote

-- `observed: Any`, the values that the evaluator puts there
mutual
  pub data Observed (F : Type 0) : Type 0 where
    nothing : Observed F
    number : F → Observed F
    text : String → Observed F
    flag : Bool → Observed F
    texts : List String → Observed F
    item : Item F → Observed F
    judged : JudgeResult → Observed F
    several : Observations F → Observed F

  pub data Observations (F : Type 0) : Type 0 where
    nil : Observations F
    cons : Observed F → Observations F → Observations F

-- `value` is `none` for "could not be determined", never an automatic exclusion.
pub record Verdict (F : Type 0) : Type 0 where
  pub value : Option Bool
  pub reason : String
  pub observed : Observed F
