-- ===== src/Robot/Routing.antt =====
-- Robot.send_action of robot.py, and the sessions of the control stack.
use physical_ai_runtime.Common.{
  Bool-cases, Dict, List, Option, Result, String, [], ap, arith, err, false, has_name, inl, inr,
  none, ok, refl, runtime_error, some, true, ℕ, ◌++◌, ◌∙◌, ◌∷◌, ◌≡◌, ◌≢◌,
}
use physical_ai_runtime.Messages.{Action}
use physical_ai_runtime.Authority.{Allocation}
use physical_ai_runtime.Agent.{Agent}
use physical_ai_runtime.Session.{Session}
use physical_ai_runtime.Session.Calls.{act}
use physical_ai_runtime.Session.Acting.{Acted, IsCoherent, act-Acted}
use physical_ai_runtime.Robot.{
  Robot, control_for, find_session, on_session, scope_of, send_action, update_session,
}

-- No session of the list covers the part.
abbrev pub NoneCovers : String → (ℕ → Session) → List ℕ → Type 0
NoneCovers part sessions [] = Unit
NoneCovers part sessions (id ∷ ids) =
    (has_name part (sessions id).parts ≡ false) × NoneCovers part sessions ids

-- The session `id` covers the part, and none above it on the stack does.
pub record IsInnermost (part : String) (sessions : ℕ → Session) (stack : List ℕ) (id : ℕ)
    : Type 0 where
  pub above : List ℕ
  pub below : List ℕ
  pub split : stack ≡ above ++ id ∷ below
  pub covers : has_name part (sessions id).parts ≡ true
  pub none_above : NoneCovers part sessions above

find_session-IsInnermost :
    (part : String) (sessions : ℕ → Session) (stack : List ℕ) {id : ℕ}
    → find_session part sessions stack ≡ some id
    → IsInnermost part sessions stack id
unfolding find_session
find_session-IsInnermost part sessions [] h = absurd (no_session h)
  where
    no_session : {i : ℕ} → ◌≡◌ {A = Option ℕ} none (some i) → ⊥
    no_session h = cc
find_session-IsInnermost part sessions (top ∷ ids) {id} h =
    elim (Bool-cases (has_name part (sessions top).parts)) [
      | inl here ↦ record {
        above = [];
        below = ids;
        split = ground arith;
        covers = ground arith;
        none_above = tt;
      }
      | inr elsewhere ↦
          let deeper = find_session-IsInnermost part sessions ids {id = id} (ground arith) in
          record {
            above = top ∷ deeper.above;
            below = deeper.below;
            split = ap (λ l. top ∷ l) deeper.split;
            covers = deeper.covers;
            none_above = (elsewhere, deeper.none_above);
          }
    ]

-- A command of the robot goes to the innermost scope that covers its part.
pub control_for-IsInnermost :
    (part : String) (r : Robot) {id : ℕ}
    → control_for part r ≡ ok id
    → IsInnermost part r.sessions r.world.stack id
unfolding control_for
control_for-IsInnermost part r h =
    find_session-IsInnermost part r.sessions r.world.stack (ground arith)

-- Without such a scope it is refused, and nothing changes.
find_session-none :
    (part : String) (sessions : ℕ → Session) (stack : List ℕ)
    → NoneCovers part sessions stack
    → find_session part sessions stack ≡ none
unfolding find_session
find_session-none part sessions [] h = refl
find_session-none part sessions (id ∷ ids) h = ground (arith, find_session-none part sessions ids)

send_action_uncovered :
    (agents : ℕ → Agent) (action : Action) (observation : Option (Dict Allocation)) (r : Robot)
    → NoneCovers action.part r.sessions r.world.stack
    → send_action agents action observation r ≡ (err runtime_error, r)
unfolding send_action control_for
send_action_uncovered agents action observation r h =
    rw (find_session-none action.part r.sessions r.world.stack h, send_action, control_for)

-- What `Robot.send_action` does: nothing but an exception, or what `Session.act` does in the
-- innermost scope that covers the part; every other session stays as it was.
pub record Routed (agents : ℕ → Agent) (action : Action) (observation : Option (Dict Allocation))
    (r : Robot) (id : ℕ) : Type 0 where
  pub innermost : IsInnermost action.part r.sessions r.world.stack id
  pub acted :
      Acted
        (agents id)
        action
        observation
        (scope_of id r)
        (act (agents id) action observation (scope_of id r))
  pub result :
      (send_action agents action observation r).0
      ≡ (act (agents id) action observation (scope_of id r)).0
  pub world :
      (send_action agents action observation r).1.world
      ≡ (act (agents id) action observation (scope_of id r)).1.world
  pub mine :
      (send_action agents action observation r).1.sessions id
      ≡ (act (agents id) action observation (scope_of id r)).1.session
  pub others :
      (j : ℕ) → j ≢ id → (send_action agents action observation r).1.sessions j ≡ r.sessions j

send_action_routed :
    (agents : ℕ → Agent) (action : Action) (observation : Option (Dict Allocation)) (r : Robot)
    {id : ℕ}
    → control_for action.part r ≡ ok id
    → send_action agents action observation r ≡ on_session id (act (agents id) action observation) r
unfolding send_action
send_action_routed agents action observation r h = rw (h, send_action)

update_session_self :
    (sessions : ℕ → Session) (id : ℕ) (s : Session) → update_session sessions id s id ≡ s
update_session_self sessions id s = ground arith

update_session-ne :
    (sessions : ℕ → Session) (id j : ℕ) (s : Session)
    → j ≢ id
    → update_session sessions id s j ≡ sessions j
update_session-ne sessions id j s h = ground arith

-- A command that the robot routes to a coherent session acts in the innermost scope that covers its
-- part, as `Acted` says, and leaves every other session as it was.
pub send_action-Routed :
    (agents : ℕ → Agent) (action : Action) (observation : Option (Dict Allocation)) (r : Robot)
    {id : ℕ}
    → control_for action.part r ≡ ok id
    → IsCoherent (r.sessions id)
    → Routed agents action observation r id
send_action-Routed agents action observation r {id} h coherent =
    let m = act (agents id) action observation in
    let e = send_action_routed agents action observation r h in
    record {
      innermost = control_for-IsInnermost action.part r h;
      acted = act-Acted (agents id) action observation (scope_of id r) coherent;
      result = ap (λ (q : Result (Unit {0}) × Robot). q.0) e;
      world = ap (λ (q : Result (Unit {0}) × Robot). q.1.world) e;
      mine =
          ap (λ (q : Result (Unit {0}) × Robot). q.1.sessions id) e
          ∙ update_session_self r.sessions id (m (scope_of id r)).1.session;
      others = λ j ne.
          ap (λ (q : Result (Unit {0}) × Robot). q.1.sessions j) e
          ∙ update_session-ne r.sessions id j (m (scope_of id r)).1.session ne;
    }
