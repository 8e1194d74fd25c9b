-- ===== src/World.antt =====
-- The process as the RMI sees it: the clock, the cache of the Execution Manager client, what was
-- sent, and the environment, which is the ROS graph and the Execution Manager. Neither is code of
-- this repository: every function below takes the environment as an argument.
pub mod Clock
use mathlib.Core.List.{foldl}
use physical_ai_runtime.Common.{
  Bool, Dict, Exec, List, Option, Result, String, [], err, insert, is_past, pos_part, push_bounded,
  some, stuck_error, timeout_error, ℕ, ℤ, ◌+◌, ◌∷◌,
}
use physical_ai_runtime.Waiting.{Future, Wait, expired, ready, stuck, wait_loop}
use physical_ai_runtime.Messages.{Envelope, JointTrajectory}
use physical_ai_runtime.Authority.{
  Allocation, AuthorityEvent, AuthorityStatus, EndpointBinding, SourceRole,
}

-- What the subscriptions deliver.
pub data Message : Type 0 where
  status : AuthorityStatus → Message
  event : AuthorityEvent → Message

-- The requests that leave the process.
pub data Request : Type 0 where
  -- ClaimControl: role, instance, (resource, contract) pairs, preempt, metadata
  claim_request : ℕ → String → List (String × String) → Bool → Dict String → Request
  release_request : String → Request
  -- LeasedFollowJointTrajectory: lease, resource, endpoint, stamp, trajectory
  goal_request : String → String → String → ℕ → JointTrajectory → Request
  cancel_request : ℕ → Request

pub record ClaimResponse : Type 0 where
  pub success : Bool
  pub lease_id : String
  pub endpoints : List EndpointBinding

pub data GoalStatus : Type 0 where
  succeeded canceled aborted : GoalStatus
  other_status : ℕ → GoalStatus

-- A goal handle, by a number, and whether the server accepted the goal.
pub record GoalHandle : Type 0 where
  pub id : ℕ
  pub accepted : Bool

-- The fields of ExecutionManagerClient that change, and its two timeouts.
pub record ManagerClient : Type 0 where
  pub timeout : ℤ
  pub status_timeout : ℤ
  pub last_status : Option ℕ
  pub allocations : Dict Allocation
  pub events : List AuthorityEvent

-- Requests and envelopes are listed newest first. `stack` is `Robot._control_stack`, its top first.
pub record World : Type 0 where
  pub now : ℕ
  pub client : ManagerClient
  pub requests : List Request
  pub outbox : List Envelope
  pub stack : List ℕ

-- The environment answers by the requests that it has seen, so a different answer to each of two
-- equal requests, and any state of the Execution Manager, are covered.
pub record Environment : Type 0 where
  -- the clock after a sleep that began at this time, and what arrives in the sleep
  pub tick : ℕ → ℕ
  pub arrivals : ℕ → List Message
  -- `wait_for_service` and `server_is_ready`
  pub service_up : ℕ → Bool
  pub server_ready : String → ℕ → Bool
  -- the numbers of the roles in ClaimControl.Request
  pub role_code : SourceRole → ℕ
  pub claim_reply : List Request → Future (Option ClaimResponse)
  pub release_reply : List Request → Future (Option Bool)
  pub goal_reply : List Request → Future GoalHandle
  pub result_reply : ℕ → Future GoalStatus
  pub cancel_reply : List Request → Future (Unit {0})

-- The dictionary of ExecutionManagerClient._on_status: the last of two equal names stays.
unfoldable pub index_status : AuthorityStatus → Dict Allocation → Dict Allocation
index_status [] d = d
index_status ((name, a) ∷ rest) d = index_status rest (insert name a d)

unfoldable pub on_status : ℕ → AuthorityStatus → ManagerClient → ManagerClient
unfolding index_status
on_status now message c = record c { last_status = some now; allocations = index_status message [] }

-- `deque(maxlen=2048)`
abbrev pub max_events : ℕ
max_events = 2048

unfoldable pub on_event : AuthorityEvent → ManagerClient → ManagerClient
on_event message c = record c { events = push_bounded max_events c.events message }

unfoldable pub on_message : World → Message → World
on_message w (status s) = record w { client = on_status w.now s w.client }
on_message w (event e) = record w { client = on_event e w.client }

-- `time.sleep`: the clock moves on, and the callbacks of the executor run.
unfoldable pub pause : Environment → World → World
pause env w = foldl on_message (record w { now = env.tick w.now }) (env.arrivals w.now)

-- One request leaves, and stays in the history.
unfoldable pub send_request : Request → World → World
send_request r w = record w { requests = r ∷ w.requests }

-- Rounds for a wait with this timeout: one more than the nanoseconds up to its deadline.
abbrev pub rounds : ℤ → ℕ
rounds timeout = pos_part timeout + 2

abbrev pub finish_wait : {A : Type 0} → Result A → Wait World → Result A × World
finish_wait outcome (ready w) = (outcome, w)
finish_wait outcome (expired w) = (err timeout_error, w)
finish_wait outcome (stuck w) = (err stuck_error, w)

-- `_wait_future` of selection.py and `_bounded` of provider.py: poll until the future is done, or
-- until the deadline, where the future is canceled.
unfoldable pub wait_future : {A : Type 0} → Environment → ℤ → Future A → Exec World A
wait_future env timeout future w = finish_wait future.outcome (
    wait_loop (rounds timeout) (λ v. future.done_at v.now) (λ v. is_past w.now timeout v.now)
      (pause env) w)
