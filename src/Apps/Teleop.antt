-- ===== src/Apps/Teleop.antt =====
-- apps/teleop.py: the operator engages and releases the leader arms with one key. The services of
-- the leaders and the outcome of entering a session are arguments of each press.
pub mod Asking
pub mod Engaged
use physical_ai_runtime.Common.{
  Bool, List, Option, String, [], false, if◌then◌else◌, is_empty, none, not, some, true, ◌==◌, ◌||◌,
  ◌∷◌,
}

-- One entry of `teleoperators`: its name and `preempt_service`.
pub record Leader : Type 0 where
  pub name : String
  pub service : Option String

-- What a service did with one request: `unavailable` means that nothing was sent; a request that
-- timed out, was refused or raised an exception is `unconfirmed`.
pub data LeaderReply : Type 0 where
  confirmed unavailable unconfirmed : LeaderReply

-- How the session of a leader is entered: it is, or an exception refuses it, or Ctrl+C breaks it
-- off.
pub data Entering : Type 0 where
  enters refuses breaks_off : Entering

-- What the surroundings do during one press of the key. Ctrl+C while the leaders are asked is not
-- modelled.
pub record Press : Type 0 where
  pub context_ok : Bool
  pub entering : String → Entering
  pub reply : List (String × Bool) → String → LeaderReply

-- The answer for a leader that failed: the others are asked all the same.
abbrev with_failure : Bool × List (String × Bool) → Bool × List (String × Bool)
with_failure (b, requests) = (false, requests)

-- The loop of `set_teleop_preempt`: it asks every leader, and fails if one of them fails. Requests
-- are listed newest first.
unfoldable pub ask_leaders :
    Press → Bool → List Leader → List (String × Bool) → Bool × List (String × Bool)
ask_leaders p mode [] requests = (true, requests)
ask_leaders p mode (l ∷ ls) requests =
    let skipped = with_failure (ask_leaders p mode ls requests) in
    let asked = λ (service : String). ask_leaders p mode ls ((service, mode) ∷ requests) in
    elim l.service [
      | none ↦ skipped
      | some service ↦ if service == "" then skipped else elim (p.reply requests service) [
        | unavailable ↦ skipped
        | unconfirmed ↦ with_failure (asked service)
        | confirmed ↦ asked service
      ]
    ]

unfoldable pub set_teleop_preempt :
    Press → Bool → List Leader → List (String × Bool) → Bool × List (String × Bool)
set_teleop_preempt p mode leaders requests =
    if is_empty leaders || not p.context_ok
    then (is_empty leaders, requests)
    else ask_leaders p mode leaders requests

-- The variables of `main`. `entered` are the sessions that are in their scopes, the newest first;
-- `stack` is whether there is an active stack, which leaves them all when it is closed.
pub record Teleop : Type 0 where
  pub is_active : Bool
  pub sessions : List String
  pub stack : Bool
  pub entered : List String
  pub requests : List (String × Bool)

abbrev pub standby : Teleop
standby = record { is_active = false; sessions = []; stack = false; entered = []; requests = [] }

-- `_release_teleop`
unfoldable pub release_teleop : Press → List Leader → Teleop → Teleop
release_teleop p leaders s = record {
  is_active = false;
  sessions = [];
  stack = false;
  entered = if s.stack then [] else s.entered;
  requests = (set_teleop_preempt p false leaders s.requests).1;
}

-- The sessions are entered one by one; the answer is how the last one of these was.
unfoldable pub enter_sessions : Press → List Leader → List String → Entering × List String
enter_sessions p [] entered = (enters, entered)
enter_sessions p (l ∷ ls) entered =
    let rest = enter_sessions p ls (l.name ∷ entered) in
    elim (p.entering l.name) [
      | enters ↦ rest
      | refuses ↦ (refuses, entered)
      | breaks_off ↦ (breaks_off, entered)
    ]

-- How a press ends: the loop goes on, or an exception or Ctrl+C ends the program.
pub data Pressed : Type 0 where
  goes_on raises stops : Pressed

-- A session that cannot be entered ends the program: those before it are left and the exception
-- goes on. Ctrl+C is no `Exception`: it is not caught, and leaves those before it in their scopes.
unfoldable pub engage : Press → List Leader → Teleop → Pressed × Teleop
engage p leaders s =
    let (last, names) = enter_sessions p leaders s.entered in
    let (engaged, requests) = set_teleop_preempt p true leaders s.requests in
    let running : Teleop = record {
      is_active = true;
      sessions = names;
      stack = true;
      entered = names;
      requests = requests;
    } in
    elim last [
      | refuses ↦ (raises, record s { is_active = false; sessions = [] })
      | breaks_off ↦ (stops, record s { is_active = true; sessions = names; entered = names })
      | enters ↦ (goes_on, if engaged then running else release_teleop p leaders running)
    ]

-- One press of the key.
unfoldable pub toggle : Press → List Leader → Teleop → Pressed × Teleop
toggle p leaders s =
    let engaged = engage p leaders s in
    if s.is_active then (goes_on, release_teleop p leaders s) else engaged

-- The loop of `main`, up to the prompt after these presses. An exception or Ctrl+C ends it, and the
-- leaders are released.
unfoldable pub run_presses : List Leader → List Press → Teleop → Teleop
run_presses leaders [] s = s
run_presses leaders (p ∷ ps) s =
    let (r, s') = toggle p leaders s in
    let rest = run_presses leaders ps s' in
    elim r [
      | goes_on ↦ rest
      | raises ↦ release_teleop p leaders s'
      | stops ↦ release_teleop p leaders s'
    ]
