-- ===== src/Examples/Goals.antt =====
-- Examples of the command client, of its goals and of the handles of executed plans.
use physical_ai_runtime.Common.{[], ok, pos, refl, true, ◌∷◌, ◌≡◌}
use physical_ai_runtime.Messages.{joint_trajectory}
use physical_ai_runtime.Authority.{find_binding, has_binding_key}
use physical_ai_runtime.Waiting.{wait_loop}
use physical_ai_runtime.World.{wait_future}
use physical_ai_runtime.Commands.{
  build_trajectory, check_kind, check_points, check_trajectory, is_invalid,
  joint_trajectory_from_spec,
}
use physical_ai_runtime.Commands.Conversions.{IsSendable, joint_trajectory_from_spec-IsSendable}
use physical_ai_runtime.Provider.{
  Link, checked_payload, joint_payload_of, payload_of, publish, require_binding, send,
}
use physical_ai_runtime.Provider.Actions.{
  call_goal, cancel_joint_trajectory, keep_handle, launch_goal, start_joint_trajectory,
  wait_joint_trajectory, wait_ready,
}
use physical_ai_runtime.Provider.Sending.Deliveries.{Delivered, send-Delivered}
use physical_ai_runtime.Provider.Goals.{Started, start_joint_trajectory-Started}
use physical_ai_runtime.Provider.Goals.Waits.{
  GoalWait, cancel_joint_trajectory-after_wait, wait_joint_trajectory-GoalWait,
}
use physical_ai_runtime.Agent.{Running, new_execution}
use physical_ai_runtime.Examples.{
  arm_link, arm_motion, bound_commands, bound_commands-IsLinked, env, env-Advances,
}

send-Delivered_example :
    Delivered "arm" "joint_reference"
      (joint_trajectory arm_motion)
      arm_link
      (send "arm" "joint_reference" (joint_trajectory arm_motion) arm_link).1
unfolding send checked_payload require_binding find_binding has_binding_key is_invalid check_kind
    payload_of joint_payload_of publish
send-Delivered_example =
    send-Delivered "arm" "joint_reference" (joint_trajectory arm_motion) arm_link
      bound_commands-IsLinked refl

start_joint_trajectory-Started_example :
    Started env "arm"
      (joint_trajectory arm_motion)
      ("j1" ∷ [])
      arm_link
      (record { id = 7; accepted = true })
      (start_joint_trajectory env "arm" (joint_trajectory arm_motion) ("j1" ∷ []) arm_link).1
unfolding start_joint_trajectory require_binding find_binding has_binding_key
    joint_trajectory_from_spec build_trajectory check_trajectory check_points launch_goal wait_ready
    wait_loop call_goal wait_future keep_handle
start_joint_trajectory-Started_example =
    start_joint_trajectory-Started env "arm" (joint_trajectory arm_motion) ("j1" ∷ []) arm_link refl

-- The client tracks goal 7.
abbrev tracking_link : Link
tracking_link = record arm_link {
  commands = record bound_commands { goal_handles = ("arm", 7) ∷ [] };
}

wait_joint_trajectory-GoalWait_example :
    GoalWait "arm"
      (pos 5)
      (env.result_reply 7)
      tracking_link
      (wait_joint_trajectory env "arm" 7 (pos 5) tracking_link)
wait_joint_trajectory-GoalWait_example =
    wait_joint_trajectory-GoalWait env "arm" 7 (pos 5) tracking_link env-Advances

-- A wait for the earlier goal 6.
cancel_joint_trajectory-after_wait_example :
    let (r, s') =
      cancel_joint_trajectory env "arm"
        (wait_joint_trajectory env "arm" 6 (pos 5) tracking_link).1 in
    (r ≡ ok tt) × (s'.world.requests ≡ [])
unfolding wait_joint_trajectory wait_future wait_loop
cancel_joint_trajectory-after_wait_example =
    cancel_joint_trajectory-after_wait env "arm" 6 (pos 5) tracking_link env-Advances refl

abbrev running_plan : Running
running_plan = record { execution = new_execution "arm" 7; link = tracking_link }

joint_trajectory_from_spec-IsSendable_example : IsSendable true arm_motion
unfolding joint_trajectory_from_spec build_trajectory check_trajectory check_points
joint_trajectory_from_spec-IsSendable_example =
    joint_trajectory_from_spec-IsSendable (joint_trajectory arm_motion) ("j1" ∷ []) true refl
