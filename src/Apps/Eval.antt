-- ===== src/Apps/Eval.antt =====
-- apps/eval.py: a deployment is judged by the ages of the states that are observed and by the
-- hardware diagnostics. Times are in nanoseconds. What the loop observes is a list: for each round
-- the clock of the node and the time of receipt, or the exception of the robot.
pub mod Verdict
use physical_ai_runtime.Common.Try.{traverse, ◌>>=◌}
use physical_ai_runtime.Common.{
  Bool, List, Option, Result, String, [], err, false, if◌then◌else◌, is_empty, leb_ℤ, ltb_ℤ, none,
  ok, pos, some, value_error, ℤ, ◌&&◌, ◌-ℤ◌, ◌||◌, ◌∷◌,
}

pub record Observed : Type 0 where
  pub now : ℤ
  pub received : ℤ

-- `max(0.0, now_s - observation.receive_time_s)`
abbrev pub age_of : Observed → ℤ
age_of o = let d = o.now -ℤ o.received in if ltb_ℤ d (pos 0) then pos 0 else d

-- `max(ages, default=...)`
unfoldable pub max_age : List ℤ → Option ℤ
max_age [] = none
max_age (a ∷ as') = elim (max_age as') [
  | none ↦ some a
  | some m ↦ some (if ltb_ℤ m a then a else m)
]

-- `bool(samples) and max(ages) <= max_state_age and not diagnostics`
abbrev pub judge : ℤ → List String → Option ℤ → Bool
judge limit diagnostics none = false
judge limit diagnostics (some m) = leb_ℤ m limit && is_empty diagnostics

unfoldable pub passed : ℤ → List ℤ → List String → Bool
passed limit ages diagnostics = judge limit diagnostics (max_age ages)

abbrev pub ages_of : List Observed → List ℤ
ages_of [] = []
ages_of (o ∷ os) = age_of o ∷ ages_of os

-- The arguments are checked first; a robot that has no state ends the evaluation.
unfoldable pub evaluate : ℤ → ℤ → ℤ → List (Result Observed) → List String → Result Bool
evaluate duration rate limit rounds diagnostics =
    if leb_ℤ duration (pos 0) || leb_ℤ rate (pos 0) || leb_ℤ limit (pos 0)
    then err value_error
    else traverse (λ (o : Result Observed). o) rounds >>= λ os.
        ok (passed limit (ages_of os) diagnostics)
