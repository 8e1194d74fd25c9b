-- ===== src/Examples/Sessions.antt =====
-- Examples of the session and of the robot.
use physical_ai_runtime.Common.{[], false, none, refl}
use physical_ai_runtime.Session.Calls.{act, await_authority, enter, exit}
use physical_ai_runtime.Session.Acting.{Acted, IsCoherent, act-Acted}
use physical_ai_runtime.Session.Entering.{Awaited, Entered, await_authority-Awaited, enter-Entered}
use physical_ai_runtime.Session.Leaving.{Exited, exit-Exited}
use physical_ai_runtime.Session.Histories.{Reach-IsCoherent, enters, here, next}
use physical_ai_runtime.Robot.{control_for, find_session}
use physical_ai_runtime.Robot.Routing.{Routed, send_action-Routed}
use physical_ai_runtime.Examples.{
  arm_agent, arm_robot, env, env-Advances, fresh_scope, fresh_scope-IsCoherent, move, running_scope,
  running_scope-IsCoherent,
}

act-Acted_example : Acted arm_agent move none running_scope (act arm_agent move none running_scope)
act-Acted_example = act-Acted arm_agent move none running_scope running_scope-IsCoherent

enter-Entered_example : Entered env arm_agent fresh_scope (enter env arm_agent fresh_scope)
enter-Entered_example =
    enter-Entered env env-Advances arm_agent fresh_scope fresh_scope-IsCoherent refl

await_authority-Awaited_example : Awaited env [] running_scope (await_authority env running_scope)
await_authority-Awaited_example = await_authority-Awaited env [] running_scope refl env-Advances

exit-Exited_example : Exited env false [] running_scope (exit env false running_scope)
exit-Exited_example = exit-Exited env false [] running_scope refl

Reach-IsCoherent_example : IsCoherent (enter env arm_agent fresh_scope).1.session
Reach-IsCoherent_example =
    Reach-IsCoherent env arm_agent fresh_scope env-Advances fresh_scope-IsCoherent (
      next here
        (enters (enter env arm_agent fresh_scope).0 (enter env arm_agent fresh_scope).1 refl))

send_action-Routed_example : Routed (λ id. arm_agent) move none arm_robot 1
unfolding control_for find_session
send_action-Routed_example =
    send_action-Routed (λ id. arm_agent) move none arm_robot refl running_scope-IsCoherent
