-- ===== src/Robot/Readiness.antt =====
-- `Robot.wait_until_ready` of robot.py: the wait for a joint state, and the question for the health
-- of the hardware, which only some authority clients can answer.
use mathlib.Core.List.{foldl}
use physical_ai_runtime.Common.{
  Bool, Error, Exec, List, Option, Result, String, [], arith, err, false, if◌then◌else◌, is_empty,
  is_past, none, ok, pos_part, refl, runtime_error, some, stuck_error, sym, timeout_error, true, ℕ,
  ℤ, ◌+◌, ◌∙◌, ◌∷◌, ◌≡◌,
}
use mathlib.Core.Path.{subst}
use physical_ai_runtime.Waiting.{Wait, expired, ready, stuck, wait_loop}
use physical_ai_runtime.Waiting.Bounds.{Ends, wait_loop-Ends}
use physical_ai_runtime.World.{Environment, pause, rounds}
use physical_ai_runtime.World.Clock.{Advances, SameButCache-refl, Since, now-pause, pause-Since}
use physical_ai_runtime.Robot.{JointState, Robot, is_ready, update_joint_state}

-- The joint states that arrive in a sleep, by the time at which it began, with their stamps.
abbrev pub JointStates : Type 0
JointStates = ℕ → List (ℤ × JointState)

abbrev receive : Robot → ℤ × JointState → Robot
receive r (stamp, j) = update_joint_state stamp none j r

-- `time.sleep`, in which the state subscription runs too
unfoldable pub pause_robot : Environment → JointStates → Robot → Robot
pause_robot env states r =
    foldl receive (record r { world = pause env r.world }) (states r.world.now)

-- `get_hardware_diagnostics`: `none` is a client that does not have it.
unfoldable pub check_diagnostics : Option (Result (List String)) → Exec Robot (Unit {0})
check_diagnostics none r = (err runtime_error, r)
check_diagnostics (some (err e)) r = (err e, r)
check_diagnostics (some (ok ds)) r = (if is_empty ds then ok tt else err runtime_error, r)

abbrev after_wait : Bool → Option (Result (List String)) → Wait Robot → Result (Unit {0}) × Robot
after_wait check diagnostics (ready r) =
    if check then check_diagnostics diagnostics r else (ok tt, r)
after_wait check diagnostics (expired r) = (err timeout_error, r)
after_wait check diagnostics (stuck r) = (err stuck_error, r)

unfoldable pub wait_until_ready :
    Environment → JointStates → ℤ → Bool → Option (Result (List String)) → Exec Robot (Unit {0})
wait_until_ready env states timeout check diagnostics r = after_wait check diagnostics (
    wait_loop (rounds timeout) is_ready (λ q. is_past r.world.now timeout q.world.now)
      (pause_robot env states) r)

-- How the wait may end: with a state, and with healthy hardware where that is asked for; with a
-- state and an exception of that question; or with a TimeoutError once the time is over.
pub data Readied (timeout : ℤ) (check : Bool) (diagnostics : Option (Result (List String)))
    (r : Robot) : Result (Unit {0}) × Robot → Type 0 where
  readied :
      (q : Robot)
      → is_ready q ≡ true
      → (check ≡ true → diagnostics ≡ some (ok []))
      → q.sessions ≡ r.sessions
      → Since r.world q.world
      → Readied timeout check diagnostics r (ok tt, q)
  unhealthy :
      (e : Error) (q : Robot)
      → is_ready q ≡ true
      → check ≡ true
      → ¬ (diagnostics ≡ some (ok []))
      → q.sessions ≡ r.sessions
      → Since r.world q.world
      → Readied timeout check diagnostics r (err e, q)
  late :
      (q : Robot)
      → is_ready q ≡ false
      → is_past r.world.now timeout q.world.now ≡ true
      → q.sessions ≡ r.sessions
      → Since r.world q.world
      → Readied timeout check diagnostics r (err timeout_error, q)

-- What a wait keeps.
record Waits (r q : Robot) : Type 0 where
  sessions : q.sessions ≡ r.sessions
  since : Since r.world q.world

-- A robot with a state, and the answer for the hardware.
diagnosed :
    (timeout : ℤ) (check : Bool) (diagnostics : Option (Result (List String))) (r q : Robot)
    → Waits r q
    → is_ready q ≡ true
    → Readied timeout check diagnostics r (after_wait check diagnostics (ready q))
unfolding check_diagnostics
diagnosed timeout false diagnostics r q h on = readied q on (λ e. cc) h.sessions h.since
diagnosed timeout true none r q h on =
    unhealthy runtime_error q on refl (λ e. cc) h.sessions h.since
diagnosed timeout true (some (err e)) r q h on = unhealthy e q on refl (λ p. cc) h.sessions h.since
diagnosed timeout true (some (ok [])) r q h on = readied q on (λ p. refl) h.sessions h.since
diagnosed timeout true (some (ok (d ∷ ds))) r q h on =
    unhealthy runtime_error q on refl (λ p. cc) h.sessions h.since

receive-world : (r : Robot) (m : ℤ × JointState) → (receive r m).world ≡ r.world
unfolding update_joint_state
receive-world r m = refl

receive-sessions : (r : Robot) (m : ℤ × JointState) → (receive r m).sessions ≡ r.sessions
unfolding update_joint_state
receive-sessions r m = refl

foldl-receive-world :
    (ms : List (ℤ × JointState)) (r : Robot) → (foldl receive r ms).world ≡ r.world
foldl-receive-world [] r = refl
foldl-receive-world (m ∷ ms) r = foldl-receive-world ms (receive r m) ∙ receive-world r m

foldl-receive-sessions :
    (ms : List (ℤ × JointState)) (r : Robot) → (foldl receive r ms).sessions ≡ r.sessions
foldl-receive-sessions [] r = refl
foldl-receive-sessions (m ∷ ms) r = foldl-receive-sessions ms (receive r m) ∙ receive-sessions r m

module _ (env : Environment) (states : JointStates) where
  pause_robot-world : (r : Robot) → (pause_robot env states r).world ≡ pause env r.world
  unfolding pause_robot
  pause_robot-world r = foldl-receive-world (states r.world.now) _

  pause_robot-Waits : Advances env → (r q : Robot) → Waits r q → Waits r (pause_robot env states q)
  unfolding pause_robot
  pause_robot-Waits advances r q h = record {
    sessions = foldl-receive-sessions (states q.world.now) _ ∙ h.sessions;
    since =
        subst (Since r.world) (sym (foldl-receive-world (states q.world.now) _))
          (pause-Since env advances r.world q.world h.since);
  }

  module _ (advances : Advances env) (timeout : ℤ) (check : Bool)
      (diagnostics : Option (Result (List String))) (r : Robot) where
    wait-Ends :
        Ends
          (λ q. Waits r q × (is_ready q ≡ true))
          (λ q. Waits r q × (is_ready q ≡ false) × (is_past r.world.now timeout q.world.now ≡ true))
          (wait_loop
            (rounds timeout)
            is_ready
            (λ q. is_past r.world.now timeout q.world.now)
            (pause_robot env states)
            r)
    wait-Ends =
        wait_loop-Ends (λ q. q.world.now) is_ready (λ q. is_past r.world.now timeout q.world.now)
          (pause_robot env states) (Waits r) (λ q h. pause_robot-Waits advances r q h)
          (λ q h. rw (pause_robot-world q) (rw now-pause (advances q.world.now)))
          (r.world.now + pos_part timeout) (rounds timeout) r (λ q h past. ground arith)
          (omega arith)
          (record {
            sessions = refl;
            since = record { same = SameButCache-refl r.world; later = omega arith };
          })

    ended :
        (x : Wait Robot)
        → Ends
            (λ q. Waits r q × (is_ready q ≡ true))
            (λ q.
              Waits r q × (is_ready q ≡ false) × (is_past r.world.now timeout q.world.now ≡ true))
            x
        → Readied timeout check diagnostics r (after_wait check diagnostics x)
    ended (ready q) (h, on) = diagnosed timeout check diagnostics r q h on
    ended (expired q) (h, off, past) = late q off past h.sessions h.since
    ended (stuck q) h = absurd h

    -- Where the clock advances, the wait for the robot ends. It ends well only with a joint state,
    -- and where the hardware is checked, only if the client answers that nothing is wrong. It sends
    -- nothing, and leaves every session as it was.
    pub wait_until_ready-Readied :
        Readied timeout check diagnostics r
          (wait_until_ready env states timeout check diagnostics r)
    unfolding wait_until_ready
    wait_until_ready-Readied = ended _ wait-Ends
