-- ===== src/Apps/Replay/Playing.antt =====
-- The two phases of `main` in apps/replay.py, on a session that is given: the homing to the start
-- pose, and the replay of the frames. The homing threshold and the timeouts are arguments.
pub mod Sent
pub mod Paced
use physical_ai_runtime.Common.{
  Bool, Dict, Exec, List, Result, String, [], err, false, if◌then◌else◌, length, lift, lookup, ltb,
  ltb_ℤ, neg_part, none, ok, pos, pos_part, pure, some, take, true, value_error, ℕ, ℤ, ◌+ℤ◌, ◌+◌,
  ◌-ℤ◌, ◌>>=◌, ◌>>◌, ◌∷◌,
}
use physical_ai_runtime.Messages.{Action, numbers, plan}
use physical_ai_runtime.World.{Environment, World, pause}
use physical_ai_runtime.Provider.{Link}
use physical_ai_runtime.Agent.{Agent, PlanExecution, wait_execution}
use physical_ai_runtime.Config.{PartConfig}
use physical_ai_runtime.Session.{Scope}
use physical_ai_runtime.Session.Calls.{act, enter, execute, exit, on_link}
use physical_ai_runtime.Apps.Replay.{Frame, joints_in}
use physical_ai_runtime.Apps.Replay.Homing.{Floats, generate_quintic_transition}

abbrev distance : ℤ → ℤ → ℕ
distance a b = let d = a -ℤ b in pos_part d + neg_part d

-- `max(abs(c - s) for c, s in zip(...))`: of no pairs it raises.
unfoldable pub max_delta : List ℤ → List ℤ → Result ℕ
max_delta [] bs = err value_error
max_delta (a ∷ as') [] = err value_error
max_delta (a ∷ as') (b ∷ bs) = elim (max_delta as' bs) [
  | err e ↦ ok (distance a b)
  | ok m ↦ ok (if ltb m (distance a b) then distance a b else m)
]

-- `execution.wait(timeout=...)` on the link of the session
abbrev wait_for : Environment → ℤ → PlanExecution → Exec Link Bool
wait_for env timeout x l =
    let (r, t) = wait_execution env timeout (record { execution = x; link = l }) in (r, t.link)

-- What the homing takes from the profile and from the command line.
pub record Homing : Type 0 where
  pub parts : Dict PartConfig
  pub floats : Floats
  pub threshold : ℕ
  pub duration : ℤ

unfoldable pub drive_part :
    Environment → Agent → Homing → String → List String → List ℤ → List ℤ → Exec Scope (Unit {0})
drive_part env a h part names current goal = do
  p ← lift (generate_quintic_transition h.floats names current goal h.duration 50)
  x ← execute env a part (plan p) none
  finished ← on_link (wait_for env (h.duration +ℤ pos 5000000000) x)
  pure tt

unfoldable pub approach_part :
    Environment → Agent → Homing → String → List String → List ℤ → List ℤ → Exec Scope (Unit {0})
approach_part env a h part names current goal s = elim (max_delta current goal) [
  | err e ↦ (err e, s)
  | ok delta ↦
      if ltb h.threshold delta then drive_part env a h part names current goal s else (ok tt, s)
]

-- A part is homed if the profile has it, it has two joints or more, and all are observed.
unfoldable pub home_part :
    Environment → Agent → Homing → Dict ℤ → String → List ℤ → Exec Scope (Unit {0})
home_part env a h observed part start s = elim (lookup part h.parts) [
  | none ↦ (ok tt, s)
  | some p ↦
      if ltb (length p.joint_names) 2 then (ok tt, s) else elim (joints_in observed p.joint_names) [
        | none ↦ (ok tt, s)
        | some current ↦
            approach_part env a h part p.joint_names current (take (length p.joint_names) start) s
      ]
]

unfoldable pub home_parts :
    Environment → Agent → Homing → Dict ℤ → Dict (List ℤ) → Exec Scope (Unit {0})
home_parts env a h observed [] = pure tt
home_parts env a h observed ((part, start) ∷ rest) =
    home_part env a h observed part start >> home_parts env a h observed rest

-- `time.sleep(target - now)`, which lasts at least so long.
abbrev pub later_of : ℕ → ℤ → ℕ
later_of now target = if ltb_ℤ (pos now) target then pos_part target else now

unfoldable pub sleep_until : Environment → ℤ → World → World
sleep_until env target w =
    let v = pause env w in
    if ltb_ℤ (pos w.now) target then record v { now = later_of v.now target } else w

abbrev pub joint_reference : String → List ℤ → Action
joint_reference part p = record { part = part; command = "joint_reference"; value = numbers p }

unfoldable pub send_poses : Agent → Dict (List ℤ) → Exec Scope (Unit {0})
send_poses a [] = pure tt
send_poses a ((part, p) ∷ poses) = act a (joint_reference part p) none >> send_poses a poses

-- The loop over the timeline, which began at `start`.
unfoldable pub replay_frames : Environment → Agent → ℤ → List Frame → Exec Scope (Unit {0})
replay_frames env a start [] s = (ok tt, s)
replay_frames env a start (f ∷ fs) s =
    (send_poses a f.poses >> replay_frames env a start fs)
      (record s { world = sleep_until env (start +ℤ f.time) s.world })

abbrev failed : Result (Unit {0}) → Bool
failed (ok u) = false
failed (err e) = true

-- `with agent.run(robot) as session: body`. An exception of the exit replaces the one of the body.
unfoldable pub run_body : Environment → Exec Scope (Unit {0}) → Exec Scope (Unit {0})
run_body env body s =
    let (r, t) = body s in
    let (x, u) = exit env (failed r) t in elim x [ err e ↦ (err e, u) | ok v ↦ (r, u) ]

unfoldable pub with_session : Environment → Agent → Exec Scope (Unit {0}) → Exec Scope (Unit {0})
with_session env a body = enter env a >> run_body env body

-- The second phase: the clock is read once the session is entered.
unfoldable pub replay_phase : Environment → Agent → List Frame → Exec Scope (Unit {0})
replay_phase env a timeline =
    with_session env a (λ s. replay_frames env a (pos s.world.now) timeline s)
