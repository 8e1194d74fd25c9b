-- ===== src/Examples/Clients.antt =====
-- Examples of the Execution Manager client and of the controller clients.
use physical_ai_runtime.Common.{[], false, ok, refl, true, ◌∷◌, ◌≡◌}
use physical_ai_runtime.Waiting.{wait_loop}
use physical_ai_runtime.Authority.{
  bind_endpoints, find_binding, has_binding_key, is_state, owned, policy, put_binding, unowned,
}
use physical_ai_runtime.World.{World, on_status, pause, send_request, wait_future}
use physical_ai_runtime.Selection.{
  accept_claim, await_cleared, call_claim, call_release, claim, clear_fault, clear_targets,
  fault_targets, get_allocations, is_complete, is_faulted, is_pending, is_stale, parse_role,
  release, require_execution_manager, role,
}
use physical_ai_runtime.Selection.Claims.{Claimed, claim-Claimed}
use physical_ai_runtime.Selection.Status.{get_allocations-on_status}
use physical_ai_runtime.Selection.Recovery.{Cleared, clear_fault-Cleared}
use physical_ai_runtime.Controllers.Guard.{new_guard, reserve}
use physical_ai_runtime.Controllers.Guard.Interleavings.{
  IsGuarded, Reach-IsGuarded, at, here, idle, next, reserves, waiting,
}
use physical_ai_runtime.Controllers.Switching.{
  Manager, invalid_names, switch_controller, verify_switch,
}
use physical_ai_runtime.Controllers.Switching.Verified.{Switched, switch_controller-Switched}
use physical_ai_runtime.Controllers.Factory.{ControllerConfig}
use physical_ai_runtime.Examples.{allocation_in, arm_resources, env, reference_binding, world_with}

abbrev free_world : World
free_world = world_with unowned "" []

claim-Claimed_example :
    Claimed env
      (role policy)
      "policy"
      arm_resources
      false
      []
      free_world
      (record { lease_id = "L1"; endpoints = reference_binding ∷ [] })
      (claim env (role policy) "policy" arm_resources false [] free_world).1
unfolding claim require_execution_manager parse_role call_claim wait_future wait_loop accept_claim
    is_complete bind_endpoints put_binding has_binding_key
claim-Claimed_example =
    claim-Claimed env (role policy) "policy" arm_resources false [] free_world refl

clear_fault-Cleared_example :
    Cleared env
      (role policy)
      "rmi_clear_fault"
      (fault_targets true arm_resources (get_allocations free_world))
      free_world
      (clear_fault env arm_resources (role policy) "rmi_clear_fault" true free_world).1
unfolding clear_fault fault_targets clear_targets claim require_execution_manager parse_role
    call_claim wait_future wait_loop accept_claim is_complete bind_endpoints put_binding
    has_binding_key release call_release send_request find_binding is_state await_cleared
    get_allocations is_faulted is_pending is_stale pause
clear_fault-Cleared_example =
    clear_fault-Cleared env arm_resources (role policy) "rmi_clear_fault" true free_world refl

-- A status that is 200 old, with a limit of 100.
get_allocations-on_status_example :
    get_allocations (record free_world {
      now = 210;
      client = on_status 10 (("arm", allocation_in owned "L1") ∷ []) free_world.client;
    })
    ≡ []
unfolding physical_ai_runtime.Common.◌+ℤ◌
get_allocations-on_status_example =
    get_allocations-on_status (record free_world { now = 210 }) 10
      (("arm", allocation_in owned "L1") ∷ [])

Reach-IsGuarded_example : IsGuarded (at (record (new_guard true) { goal_pending = true }) waiting)
unfolding reserve
Reach-IsGuarded_example = Reach-IsGuarded true (
    next here
      (reserves (at (new_guard true) idle) (record (new_guard true) { goal_pending = true }) refl))

abbrev arm_manager : Manager
arm_manager = record {
  before = ok (("jtc", "inactive") ∷ ("pose", "active") ∷ []);
  switch = λ q. ok true;
  after = ok (("jtc", "active") ∷ ("pose", "inactive") ∷ []);
}

switch_controller-Switched_example :
    Switched arm_manager
      ("jtc" ∷ [])
      ("pose" ∷ [])
      true
      (switch_controller arm_manager ("jtc" ∷ []) ("pose" ∷ []) true).1
unfolding switch_controller verify_switch invalid_names
switch_controller-Switched_example =
    switch_controller-Switched arm_manager ("jtc" ∷ []) ("pose" ∷ []) true refl

abbrev jtc_config : ControllerConfig
jtc_config = record {
  name = "jtc";
  implementation = "joint_trajectory_controller/JointTrajectoryController";
  command_interface = "position";
  ros_actions = ("follow_joint_trajectory", "/arm/follow") ∷ [];
  ros_topics = [];
}
