-- ===== src/Commands/Conversions.antt =====
-- `_joint_trajectory_from_spec` of provider.py: the command values.
use physical_ai_runtime.Common.Try.{>>=-eq-ok}
use physical_ai_runtime.Common.{
  Bool, List, String, [], arith, false, is_empty, length, ok, true, ℕ, ℤ, ◌<ℤ◌, ◌∷◌, ◌≡◌,
}
use physical_ai_runtime.Messages.{JointPoint, JointTrajectory, Value}
use physical_ai_runtime.Commands.{
  before_start, build_trajectory, check_points, check_trajectory, duration_ns,
  joint_trajectory_from_spec,
}

-- Each point has a position for each joint.
abbrev pub IsAligned : ℕ → List JointPoint → Type 0
IsAligned width [] = Unit
IsAligned width (p ∷ ps) = (length p.positions ≡ width) × IsAligned width ps

-- The times of the points increase strictly, from `previous` on.
abbrev pub IsIncreasing : ℤ → List JointPoint → Type 0
IsIncreasing previous [] = Unit
IsIncreasing previous (p ∷ ps) =
    (previous <ℤ duration_ns p.time_from_start) × IsIncreasing (duration_ns p.time_from_start) ps

check_points-IsAligned :
    (width : ℕ) (increasing : Bool) (previous : ℤ) (ps : List JointPoint)
    → check_points width increasing previous ps ≡ ok tt
    → IsAligned width ps
unfolding check_points
check_points-IsAligned width increasing previous [] h = tt
check_points-IsAligned width increasing previous (p ∷ ps) h =
    ground (arith, check_points-IsAligned width increasing (duration_ns p.time_from_start) ps)

check_points-IsIncreasing :
    (width : ℕ) (previous : ℤ) (ps : List JointPoint)
    → check_points width true previous ps ≡ ok tt
    → IsIncreasing previous ps
unfolding check_points
check_points-IsIncreasing width previous [] h = tt
check_points-IsIncreasing width previous (p ∷ ps) h =
    ground (arith, check_points-IsIncreasing width (duration_ns p.time_from_start) ps)

-- A message that may be sent.
pub record IsSendable (increasing : Bool) (m : JointTrajectory) : Type 0 where
  pub named : is_empty m.joint_names ≡ false
  pub pointed : is_empty m.points ≡ false
  pub aligned : IsAligned (length m.joint_names) m.points
  pub ordered : increasing ≡ true → IsIncreasing before_start m.points

check_trajectory-parts :
    (increasing : Bool) (m : JointTrajectory) {m' : JointTrajectory}
    → check_trajectory increasing m ≡ ok m'
    → (is_empty m.joint_names ≡ false)
      × (is_empty m.points ≡ false)
      × (check_points (length m.joint_names) increasing before_start m.points ≡ ok tt)
      × (m' ≡ m)
unfolding check_trajectory
check_trajectory-parts increasing m h = ground arith

check_trajectory-IsSendable :
    (increasing : Bool) (m : JointTrajectory) {m' : JointTrajectory}
    → check_trajectory increasing m ≡ ok m'
    → IsSendable increasing m'
check_trajectory-IsSendable increasing m h =
    let (named, pointed, checked, same) = check_trajectory-parts increasing m h in
    rw same (record {
      named = named;
      pointed = pointed;
      aligned =
          check_points-IsAligned (length m.joint_names) increasing before_start m.points checked;
      ordered = λ yes_increasing.
          check_points-IsIncreasing (length m.joint_names) before_start m.points
            (rw (← yes_increasing) checked);
    })

-- Whatever value was given, an accepted joint trajectory has joint names and points, a position
-- for every joint in every point, and, where that is required, strictly increasing times.
pub joint_trajectory_from_spec-IsSendable :
    (v : Value) (names : List String) (increasing : Bool) {m : JointTrajectory}
    → joint_trajectory_from_spec v names increasing ≡ ok m
    → IsSendable increasing m
unfolding joint_trajectory_from_spec
joint_trajectory_from_spec-IsSendable v names increasing h =
    let (m, built, checked) =
      >>=-eq-ok (build_trajectory v names) (check_trajectory increasing) h in
    check_trajectory-IsSendable increasing m checked
