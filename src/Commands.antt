-- ===== src/Commands.antt =====
-- The conversions of src/interfaces/rmi/rmi/provider.py: from the values of an application to the
-- ROS messages that are sent.
pub mod Conversions
use physical_ai_runtime.Common.Try.{refuse_if, traverse, ◌>>=◌, ◌>>◌}
use physical_ai_runtime.Common.{
  Bool, List, Option, Result, String, [], eqb, err, false, if◌then◌else◌, is_empty, leb_ℤ, length,
  map, negsuc, none, not, ok, other_error, pos, some, true, value_error, ℕ, ℤ, ◌%◌, ◌&&◌, ◌*◌, ◌+ℤ◌,
  ◌+◌, ◌-◌, ◌/◌, ◌==◌, ◌||◌, ◌∷◌,
}
use physical_ai_runtime.Messages.{
  CartesianPoint, CartesianTrajectory, Duration, JointPoint, JointTrajectory, PlanPoint, PosePoint,
  Twist, Value, cartesian_trajectory, joint_horizon, joint_trajectory, numbers, plan, pose,
  pose_horizon, resolve, twist,
}

abbrev pub second : ℕ
second = 1000000000

-- Python's `//` and `%` of an `int` by one second.
abbrev pub floor_seconds : ℤ → ℤ
floor_seconds (pos n) = pos (n / second)
floor_seconds (negsuc n) = negsuc (n / second)

abbrev pub mod_second : ℤ → ℕ
mod_second (pos n) = n % second
mod_second (negsuc n) = second - 1 - n % second

-- The two fields of `_set_duration`. The time is the integer `round(float(seconds) * 1e9)`: the
-- rounding comes before the model.
unfoldable pub set_duration : ℤ → Duration
set_duration t = record { sec = floor_seconds t; nanosec = mod_second t }

abbrev pub from_seconds : ℤ → ℤ
from_seconds (pos n) = pos (n * second)
from_seconds (negsuc n) = negsuc (n * second + (second - 1))

-- `float(sec) + float(nanosec) * 1e-9`, as the exact number of nanoseconds. The code only compares
-- such floats with each other, and they are in the order of these numbers as long as a float tells
-- two times apart that are a nanosecond apart.
unfoldable pub duration_ns : Duration → ℤ
unfolding ◌+ℤ◌
duration_ns d = from_seconds d.sec +ℤ pos d.nanosec

-- `value or default` for a list that may be `None`
abbrev pub names_or : Option (List String) → List String → List String
names_or none default = default
names_or (some []) default = default
names_or (some (n ∷ ns)) default = n ∷ ns

abbrev pub list_or_empty : Option (List ℤ) → List ℤ
list_or_empty none = []
list_or_empty (some xs) = xs

unfoldable pub point_of_plan : PlanPoint → JointPoint
unfolding set_duration
point_of_plan p = record {
  positions = p.positions;
  velocities = list_or_empty p.velocities;
  accelerations = list_or_empty p.accelerations;
  time_from_start = set_duration p.time_from_start;
}

abbrev pub zero_duration : Duration
zero_duration = record { sec = pos 0; nanosec = 0 }

abbrev pub trajectory_of : List String → List JointPoint → JointTrajectory
trajectory_of names points = record { stamp = 0; joint_names = names; points = points }

-- The message before it is checked. Points of a kind that has no `positions` raise AttributeError.
unfoldable pub build_trajectory : Value → List String → Result JointTrajectory
unfolding point_of_plan
build_trajectory (joint_trajectory m) names = ok m
build_trajectory (numbers xs) names = ok (
    trajectory_of names (
      record {
        positions = xs;
        velocities = [];
        accelerations = [];
        time_from_start = zero_duration;
      }
      ∷ []))
build_trajectory (plan p) names =
    ok (trajectory_of (names_or p.joint_names names) (map point_of_plan p.points))
build_trajectory (resolve r) names = ok (trajectory_of (names_or r.joint_names names) [])
build_trajectory (joint_horizon r) names = ok (trajectory_of names (map point_of_plan r.points))
build_trajectory (pose_horizon r) names =
    if is_empty r.points then ok (trajectory_of names []) else err other_error
build_trajectory (cartesian_trajectory m) names =
    if is_empty m.points then ok (trajectory_of names []) else err other_error
build_trajectory _ names = ok (trajectory_of names [])

-- The loop over the points: their lengths, and, where it is asked for, that the times increase.
unfoldable pub check_points : ℕ → Bool → ℤ → List JointPoint → Result (Unit {0})
unfolding duration_ns
check_points width increasing previous [] = ok tt
check_points width increasing previous (p ∷ ps) =
    let rest = check_points width increasing (duration_ns p.time_from_start) ps in
    if not (eqb (length p.positions) width)
    then err value_error
    else if increasing && leb_ℤ (duration_ns p.time_from_start) previous
    then err value_error
    else rest

abbrev pub before_start : ℤ
before_start = negsuc (second - 1)

unfoldable pub check_trajectory : Bool → JointTrajectory → Result JointTrajectory
check_trajectory increasing m = do
  refuse_if (is_empty m.joint_names || is_empty m.points) value_error
  check_points (length m.joint_names) increasing before_start m.points
  ok m

unfoldable pub joint_trajectory_from_spec : Value → List String → Bool → Result JointTrajectory
joint_trajectory_from_spec v names increasing = do
  m ← build_trajectory v names
  check_trajectory increasing m

-- An assignment to three names refuses any other number of values.
unfoldable pub unpack_three : List ℤ → Result (List ℤ)
unpack_three (x ∷ y ∷ z ∷ []) = ok (x ∷ y ∷ z ∷ [])
unpack_three _ = err value_error

-- `w, x, y, z = item.orientation_wxyz`, which is stored as x, y, z, w
unfoldable pub unpack_wxyz : List ℤ → Result (List ℤ)
unpack_wxyz (w ∷ x ∷ y ∷ z ∷ []) = ok (x ∷ y ∷ z ∷ w ∷ [])
unpack_wxyz _ = err value_error

unfoldable pub pose_point : PosePoint → Result CartesianPoint
unfolding set_duration unpack_three unpack_wxyz
pose_point p = do
  xyz ← unpack_three p.position_xyz
  xyzw ← unpack_wxyz p.orientation_wxyz
  ok (record {
    position = xyz;
    orientation = xyzw;
    time_from_start = set_duration p.time_from_start;
  })

-- The items that become points: `points`, or the value itself if it has a position and an
-- orientation, or nothing. Joint points have no `position_xyz` and raise AttributeError.
unfoldable pub pose_items : Value → Result (List PosePoint)
pose_items (pose_horizon r) = ok r.points
pose_items (pose p) = ok (p ∷ [])
pose_items (plan p) = if is_empty p.points then ok [] else err other_error
pose_items (joint_horizon r) = if is_empty r.points then ok [] else err other_error
pose_items (joint_trajectory m) = if is_empty m.points then ok [] else err other_error
pose_items (cartesian_trajectory m) = if is_empty m.points then ok [] else err other_error
pose_items _ = ok []

unfoldable pub cartesian_trajectory_from_spec : Value → String → String → Result CartesianTrajectory
unfolding pose_items pose_point
cartesian_trajectory_from_spec v base_frame tcp_frame = do
  items ← pose_items v
  points ← traverse pose_point items
  refuse_if (is_empty points) value_error
  ok (record { stamp = 0; frame_id = base_frame; tracked_frame = tcp_frame; points = points })

abbrev pub zeros : List ℤ
zeros = pos 0 ∷ pos 0 ∷ pos 0 ∷ []

-- `getattr(value, "linear", (0.0, 0.0, 0.0))`, and `angular`
abbrev pub linear_of : Value → List ℤ
linear_of (twist l a) = l
linear_of _ = zeros

abbrev pub angular_of : Value → List ℤ
angular_of (twist l a) = a
angular_of _ = zeros

unfoldable pub twist_stamped_from_spec : Value → String → Result Twist
unfolding unpack_three
twist_stamped_from_spec v base_frame = do
  l ← unpack_three (linear_of v)
  a ← unpack_three (angular_of v)
  ok (record { stamp = 0; frame_id = base_frame; linear = l; angular = a })

-- `_reject_invalid_result`, and `_require_valid_result` of agent.py: an object with a false `valid`
unfoldable pub is_invalid : Value → Bool
is_invalid (plan p) = not p.valid
is_invalid (resolve r) = not r.valid
is_invalid (joint_horizon r) = not r.valid
is_invalid (pose_horizon r) = not r.valid
is_invalid _ = false

abbrev pub is_resolve : Value → Bool
is_resolve (resolve r) = true
is_resolve _ = false

abbrev pub is_pose_horizon : Value → Bool
is_pose_horizon (pose_horizon r) = true
is_pose_horizon _ = false

-- The tests of `ActionProviderClient.send` and `Agent.send` on the kind of a value.
unfoldable pub check_kind : Value → String → Result (Unit {0})
check_kind v command = do
  refuse_if (is_resolve v && not (command == "joint_reference")) value_error
  refuse_if (is_pose_horizon v && not (command == "pose_reference")) value_error
