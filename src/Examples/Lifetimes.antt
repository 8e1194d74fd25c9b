-- ===== src/Examples/Lifetimes.antt =====
-- Examples of the wait for the robot, of closing a context, of the files that it looks for, and of
-- an evaluation.
use physical_ai_runtime.Common.{
  List, Result, String, [], all_of, err, false, is_empty, leb_ℤ, none, not, ok, other_error, pos,
  refl, true, ◌&&◌, ◌-ℤ◌, ◌||◌, ◌∷◌, ◌≡◌,
}
use physical_ai_runtime.Common.Try.{traverse}
use physical_ai_runtime.Robot.Readiness.{
  JointStates, Readied, wait_until_ready, wait_until_ready-Readied,
}
use physical_ai_runtime.Context.Lifecycle.{Lifetime, Release, close}
use physical_ai_runtime.Context.Lifecycle.Released.{close-released, owed, released}
use physical_ai_runtime.Apps.Eval.{Observed, age_of, evaluate, max_age, passed}
use physical_ai_runtime.Apps.Eval.Verdict.{evaluate-verdict}
use physical_ai_runtime.Examples.{arm_robot, env, env-Advances}

-- No joint state arrives.
abbrev no_states : JointStates
no_states = λ t. []

wait_until_ready-Readied_example :
    Readied
      (pos 50)
      true
      none
      arm_robot
      (wait_until_ready env no_states (pos 50) true none arm_robot)
wait_until_ready-Readied_example =
    wait_until_ready-Readied env no_states env-Advances (pos 50) true none arm_robot

-- Every call raises.
abbrev raising : Release → Result (Unit {0})
raising c = err other_error

abbrev open_context : Lifetime
open_context = record {
  closed = false;
  recorder = true;
  executor = true;
  spin_thread = true;
  cameras = "wrist" ∷ [];
  sensors = [];
  owns_node = true;
  log = [];
}

close-released_example :
    let t = released (owed true open_context) open_context in
    (close raising true open_context ≡ (ok tt, t)) × (close raising true t ≡ (ok tt, t))
close-released_example = close-released raising true (λ c h. cc) open_context refl

abbrev fresh_state : Observed
fresh_state = record { now = pos 9; received = pos 7 }

evaluate-verdict_example :
    (os : List Observed) × (traverse (λ (o : Result Observed). o) (ok fresh_state ∷ []) ≡ ok os)
    × ((leb_ℤ (pos 5) (pos 0) || leb_ℤ (pos 20) (pos 0) || leb_ℤ (pos 3) (pos 0)) ≡ false)
    × (true ≡ (
        not (is_empty os)
        && (all_of (λ (o : Observed). leb_ℤ (age_of o) (pos 3)) os && is_empty {A = String} [])))
unfolding evaluate passed max_age ◌-ℤ◌
evaluate-verdict_example = evaluate-verdict (pos 5) (pos 20) (pos 3) (ok fresh_state ∷ []) [] refl
