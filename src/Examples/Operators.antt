-- ===== src/Examples/Operators.antt =====
-- An example of the teleoperation script: one leader, which confirms, and two presses.
use physical_ai_runtime.Common.{List, [], refl, some, true, ◌∷◌}
use physical_ai_runtime.Apps.Teleop.{Leader, Press, confirmed, enters, run_presses, standby}
use physical_ai_runtime.Apps.Teleop.Engaged.{Ran, off, run_presses-Ran, seen_after}

abbrev one_leader : List Leader
one_leader = record { name = "left"; service = some "/left/preempt" } ∷ []

abbrev quiet_press : Press
quiet_press = record { context_ok = true; entering = λ n. enters; reply = λ q s. confirmed }

run_presses-Ran_example :
    Ran one_leader
      (seen_after [] (quiet_press ∷ quiet_press ∷ quiet_press ∷ []))
      (run_presses one_leader (quiet_press ∷ quiet_press ∷ quiet_press ∷ []) standby)
run_presses-Ran_example =
    run_presses-Ran one_leader [] (quiet_press ∷ quiet_press ∷ quiet_press ∷ []) standby
      (off refl refl refl refl)
