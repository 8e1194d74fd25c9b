-- ===== src/Messages.antt =====
-- The data that commands carry: src/interfaces/rmi/rmi/contracts.py and the ROS messages that
-- provider.py fills. A float is carried as an integer of a fixed scale, since the code passes
-- positions on and never computes with them; a time in seconds is carried in nanoseconds.
use physical_ai_runtime.Common.{Bool, List, Option, String, ℕ, ℤ}

-- builtin_interfaces/Duration
pub record Duration : Type 0 where
  pub sec : ℤ
  pub nanosec : ℕ

-- trajectory_msgs/JointTrajectoryPoint
pub record JointPoint : Type 0 where
  pub positions : List ℤ
  pub velocities : List ℤ
  pub accelerations : List ℤ
  pub time_from_start : Duration

-- trajectory_msgs/JointTrajectory, with `header.stamp`
pub record JointTrajectory : Type 0 where
  pub stamp : ℕ
  pub joint_names : List String
  pub points : List JointPoint

-- moveit_msgs/CartesianTrajectoryPoint: position x y z and orientation x y z w
pub record CartesianPoint : Type 0 where
  pub position : List ℤ
  pub orientation : List ℤ
  pub time_from_start : Duration

pub record CartesianTrajectory : Type 0 where
  pub stamp : ℕ
  pub frame_id : String
  pub tracked_frame : String
  pub points : List CartesianPoint

-- geometry_msgs/TwistStamped
pub record Twist : Type 0 where
  pub stamp : ℕ
  pub frame_id : String
  pub linear : List ℤ
  pub angular : List ℤ

-- contracts.PlanPoint and JointHorizonPoint (which has no accelerations)
pub record PlanPoint : Type 0 where
  pub positions : List ℤ
  pub velocities : Option (List ℤ)
  pub accelerations : Option (List ℤ)
  pub time_from_start : ℤ

pub record PlanResult : Type 0 where
  pub valid : Bool
  pub joint_names : Option (List String)
  pub points : List PlanPoint

pub record ResolveResult : Type 0 where
  pub valid : Bool
  pub joint_names : Option (List String)
  pub positions : Option (List ℤ)

pub record JointHorizonResult : Type 0 where
  pub valid : Bool
  pub points : List PlanPoint

pub record PosePoint : Type 0 where
  pub position_xyz : List ℤ
  pub orientation_wxyz : List ℤ
  pub time_from_start : ℤ

pub record PoseHorizonResult : Type 0 where
  pub valid : Bool
  pub points : List PosePoint

-- The values that an application passes as `Action.value` or as a plan.
pub data Value : Type 0 where
  nothing : Value
  joint_trajectory : JointTrajectory → Value
  cartesian_trajectory : CartesianTrajectory → Value
  twist_stamped : Twist → Value
  numbers : List ℤ → Value
  plan : PlanResult → Value
  resolve : ResolveResult → Value
  joint_horizon : JointHorizonResult → Value
  pose_horizon : PoseHorizonResult → Value
  pose : PosePoint → Value
  -- an object with `linear` and `angular`
  twist : List ℤ → List ℤ → Value

-- contracts.Action
pub record Action : Type 0 where
  pub part : String
  pub command : String
  pub value : Value

-- The payload of one of the three leased envelopes.
pub data Payload : Type 0 where
  joint_payload : JointTrajectory → Payload
  pose_payload : CartesianTrajectory → Payload
  twist_payload : Twist → Payload

-- A published `LeasedJointReference`, `LeasedPoseReference` or `LeasedTwistReference`.
pub record Envelope : Type 0 where
  pub endpoint : String
  pub stamp : ℕ
  pub lease_id : String
  pub payload : Payload
