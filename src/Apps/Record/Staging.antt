-- ===== src/Apps/Record/Staging.antt =====
-- `smooth_homing` of apps/record.py: the arms and grippers of the leaders are driven to the staging
-- pose on a quintic curve, before and after each episode.
use physical_ai_runtime.Common.{
  Dict, Exec, List, Result, String, [], if◌then◌else◌, insert, lift, lookup, ltb, none, ok, pos,
  pure, some, suc, zero, ℕ, ℤ, ◌*◌, ◌+ℤ◌, ◌+◌, ◌/◌, ◌>>=◌, ◌>>◌, ◌∷◌,
}
use physical_ai_runtime.World.{Environment}
use physical_ai_runtime.Agent.{Agent}
use physical_ai_runtime.Config.{PartConfig}
use physical_ai_runtime.Session.{Scope}
use physical_ai_runtime.Session.Calls.{act}
use physical_ai_runtime.Apps.Teleop.{Leader}
use physical_ai_runtime.Apps.Replay.{joints_in}
use physical_ai_runtime.Apps.Replay.Homing.{Floats, joint_wise, position_of}
use physical_ai_runtime.Apps.Replay.Playing.{joint_reference, sleep_until, with_session}

-- One entry of `teleoperators`
pub record Rig : Type 0 where
  pub leader : Leader
  pub arm_part : String
  pub gripper_part : String

-- A part with its present pose and its goal.
abbrev pub Targets : Type 0
Targets = Dict (List ℤ × List ℤ)

-- A part that the profile has, and whose joints are all observed.
unfoldable pub add_target : Dict PartConfig → Dict ℤ → String → List ℤ → Targets → Targets
add_target parts observed part goal d = elim (lookup part parts) [
  | none ↦ d
  | some p ↦ elim (joints_in observed p.joint_names) [ none ↦ d | some q ↦ insert part (q, goal) d ]
]

-- `parts_to_home`; the grippers go to `grip`.
unfoldable pub parts_to_home : Dict PartConfig → Dict ℤ → List ℤ → ℤ → List Rig → Targets → Targets
parts_to_home parts observed home grip [] d = d
parts_to_home parts observed home grip (r ∷ rs) d = parts_to_home parts observed home grip rs (
    add_target parts observed r.gripper_part (grip ∷ [])
      (add_target parts observed r.arm_part home d))

-- `int(max(duration_s * rate_hz, 10))`, for nanoseconds and thousandths of a hertz
abbrev pub staging_steps : ℕ → ℕ → ℕ
staging_steps duration rate = let n = duration * rate / 1000000000000 in if ltb n 10 then 10 else n

-- `[q_start[j] + h * (q_goal[j] - q_start[j]) for j in range(len(q_goal))]`
unfoldable pub interpolate : Floats → ℕ → ℕ → List ℤ → List ℤ → Result (List ℤ)
interpolate f n i start goal = joint_wise (λ b a. position_of f n i a b) goal start

unfoldable pub stage_parts : Floats → Agent → ℕ → ℕ → Targets → Exec Scope (Unit {0})
stage_parts f a n i [] = pure tt
stage_parts f a n i ((part, (start, goal)) ∷ rest) = do
  p ← lift (interpolate f n i start goal)
  act a (joint_reference part p) none
  stage_parts f a n i rest

abbrev pub rest_until : Environment → ℤ → Exec Scope (Unit {0})
rest_until env due s = (ok tt, record s { world = sleep_until env due s.world })

-- `(i + 1) * dt` for `dt = duration_s / steps`
abbrev due_after : Floats → ℕ → ℤ → ℕ → ℤ
due_after f n duration i =
    f.nanoseconds (f.multiply (f.number (i + 1)) (f.divide (f.seconds duration) (f.number n)))

-- `for i in range(steps + 1)`, with the rounds that are left
unfoldable pub stage_steps :
    Environment → Floats → Agent → ℕ → ℤ → ℤ → Targets → ℕ → ℕ → Exec Scope (Unit {0})
stage_steps env f a n duration began targets zero i =
    stage_parts f a n i targets >> rest_until env (began +ℤ due_after f n duration i)
stage_steps env f a n duration began targets (suc k) i =
    stage_parts f a n i targets
    >> rest_until env (began +ℤ due_after f n duration i)
    >> stage_steps env f a n duration began targets k (suc i)

unfoldable pub smooth_homing :
    Environment → Floats → Agent → ℕ → ℤ → Targets → Exec Scope (Unit {0})
smooth_homing env f a n duration targets =
    with_session env a (λ s. stage_steps env f a n duration (pos s.world.now) targets n 0 s)
