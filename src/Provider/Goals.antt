-- ===== src/Provider/Goals.antt =====
-- `start_joint_trajectory` of provider.py: what starting a trajectory goal sends and records.
pub mod Waits
use physical_ai_runtime.Common.{
  List, Option-cases, Result, String, ap, arith, bind-eq-ok, eq_iff, err-ne-ok, inl, inr, is_past,
  lift, lookup, lookup-insert, none, ok, some, true, ℕ, ℤ, ◌>>=◌, ◌∙◌, ◌∷◌, ◌≡◌, ◌⊎◌,
}
use physical_ai_runtime.Waiting.Bounds.{Exits, wait_loop-Exits, wait_loop-keeps}
use physical_ai_runtime.Waiting.{Future, Wait, expired, ready, stuck, wait_loop, wait_state}
use physical_ai_runtime.Messages.{JointTrajectory, Value, joint_trajectory}
use physical_ai_runtime.Authority.{EndpointBinding}
use physical_ai_runtime.World.{
  Environment, GoalHandle, World, finish_wait, goal_request, pause, rounds, send_request,
  wait_future,
}
use physical_ai_runtime.World.Clock.{
  SameButCache, SameButCache-refl, SameButCache-trans, pause-SameButCache, wait_future-SameButCache,
}
use physical_ai_runtime.Commands.{joint_trajectory_from_spec}
use physical_ai_runtime.Commands.Conversions.{IsSendable, joint_trajectory_from_spec-IsSendable}
use physical_ai_runtime.Provider.{CommandClient, Link, require_binding}
use physical_ai_runtime.Provider.Actions.{
  call_goal, client_endpoint, keep_handle, launch_goal, on_commands, on_world, open_client,
  remember_goal, server_result, start_joint_trajectory, wait_ready,
}

server_result-SameButCache :
    (w : World) (r : Wait World)
    → SameButCache w (wait_state r)
    → SameButCache w (server_result r).1
server_result-SameButCache w (ready t) h = h
server_result-SameButCache w (expired t) h = h
server_result-SameButCache w (stuck t) h = h

wait_ready-SameButCache :
    (env : Environment) (timeout : ℤ) (endpoint : String) (w : World)
    → SameButCache w (wait_ready env timeout endpoint w).1
unfolding wait_ready
wait_ready-SameButCache env timeout endpoint w =
    let done = λ (v : World). env.server_ready endpoint v.now in
    let late = λ (v : World). is_past w.now timeout v.now in
    server_result-SameButCache w (wait_loop (rounds timeout) done late (pause env) w) (
      wait_loop-keeps (SameButCache w) done late (pause env)
        (λ t h. SameButCache-trans h (pause-SameButCache env t)) (rounds timeout) w
        (SameButCache-refl w))

-- A goal that was started: its trajectory can be sent and its times increase strictly, one request
-- left with it, under the lease of the client and to the endpoint of the part's action client, or
-- of the binding where there was none, when the server was ready; and the handle that the server
-- answered, which accepted it, is the one that the part tracks.
pub record Started (env : Environment) (part : String) (v : Value) (names : List String) (s : Link)
    (handle : GoalHandle) (s' : Link) : Type 0 where
  pub binding : EndpointBinding
  pub bound : require_binding s.commands part "joint_trajectory" ≡ ok binding
  pub trajectory : JointTrajectory
  pub converted : joint_trajectory_from_spec v names true ≡ ok trajectory
  pub sendable : IsSendable true trajectory
  pub sent_at : ℕ
  pub endpoint : String
  pub addressed :
      (lookup part s.commands.action_clients ≡ some endpoint)
      ⊎ ((lookup part s.commands.action_clients ≡ none) × (endpoint ≡ binding.endpoint))
  pub listening : env.server_ready endpoint sent_at ≡ true
  pub requested :
      s'.world.requests
      ≡ goal_request s.commands.lease_id part endpoint sent_at trajectory ∷ s.world.requests
  pub answered : (env.goal_reply s'.world.requests).outcome ≡ ok handle
  pub accepted : handle.accepted ≡ true
  pub tracked : lookup part s'.commands.goal_handles ≡ some handle.id

call_goal-requests :
    (env : Environment) (timeout : ℤ) (lease_id part endpoint : String) (m : JointTrajectory)
    (w : World)
    → (call_goal env timeout lease_id part endpoint m w).1.requests
      ≡ goal_request lease_id part endpoint w.now m ∷ w.requests
unfolding call_goal send_request
call_goal-requests env timeout lease_id part endpoint m w =
    let w' = send_request (goal_request lease_id part endpoint w.now m) w in
    (wait_future-SameButCache env timeout (env.goal_reply w'.requests) w').requests

-- The server was ready when its wait returned.
wait_ready-listening :
    (env : Environment) (timeout : ℤ) (endpoint : String) (w : World)
    → (wait_ready env timeout endpoint w).0 ≡ ok tt
    → env.server_ready endpoint (wait_ready env timeout endpoint w).1.now ≡ true
unfolding wait_ready
wait_ready-listening env timeout endpoint w h =
    let done = λ (v : World). env.server_ready endpoint v.now in
    let late = λ (v : World). is_past w.now timeout v.now in
    server_result-done (wait_loop (rounds timeout) done late (pause env) w)
      (wait_loop-Exits done late (pause env) (rounds timeout) w) h
  where
    server_result-done :
        (r : Wait World)
        → Exits
            (λ (v : World). env.server_ready endpoint v.now)
            (λ v. is_past w.now timeout v.now)
            r
        → (server_result r).0 ≡ ok tt
        → env.server_ready endpoint (server_result r).1.now ≡ true
    server_result-done (ready v) e h = e
    server_result-done (expired v) e h = absurd (err-ne-ok h)
    server_result-done (stuck v) e h = absurd (err-ne-ok h)

finish_wait-outcome :
    {A : Type 0} (outcome : Result A) (r : Wait World) {a : A}
    → (finish_wait outcome r).0 ≡ ok a
    → outcome ≡ ok a
finish_wait-outcome outcome (ready w) h = h
finish_wait-outcome outcome (expired w) h = absurd (err-ne-ok h)
finish_wait-outcome outcome (stuck w) h = absurd (err-ne-ok h)

wait_future-outcome :
    {A : Type 0} (env : Environment) (timeout : ℤ) (future : Future A) (w : World) {a : A}
    → (wait_future env timeout future w).0 ≡ ok a
    → future.outcome ≡ ok a
unfolding wait_future
wait_future-outcome env timeout future w h = finish_wait-outcome future.outcome _ h

call_goal-answered :
    (env : Environment) (timeout : ℤ) (lease_id part endpoint : String) (m : JointTrajectory)
    (w : World) {g : GoalHandle}
    → (call_goal env timeout lease_id part endpoint m w).0 ≡ ok g
    → (env.goal_reply (call_goal env timeout lease_id part endpoint m w).1.requests).outcome ≡ ok g
unfolding call_goal
call_goal-answered env timeout lease_id part endpoint m w h =
    let w' = send_request (goal_request lease_id part endpoint w.now m) w in
    ap (λ q. (env.goal_reply q).outcome)
      (wait_future-SameButCache env timeout (env.goal_reply w'.requests) w').requests
    ∙ wait_future-outcome env timeout (env.goal_reply w'.requests) w' h

-- The endpoint of the client that is opened, or was there.
client_endpoint-open :
    (part endpoint : String) (c : CommandClient)
    → (lookup part c.action_clients
        ≡ some (client_endpoint part endpoint (open_client part endpoint c)))
      ⊎ ((lookup part c.action_clients ≡ none)
          × (client_endpoint part endpoint (open_client part endpoint c) ≡ endpoint))
client_endpoint-open part endpoint c = elim (Option-cases (lookup part c.action_clients)) [
  | inl e ↦
      inr (e, ground (arith, lookup-insert part part endpoint c.action_clients, eq_iff part part))
  | inr (x, e) ↦ inl (ground arith)
]

open_client-same :
    (part endpoint : String) (c : CommandClient)
    → ((open_client part endpoint c).lease_id ≡ c.lease_id)
      × ((open_client part endpoint c).goal_handles ≡ c.goal_handles)
open_client-same part endpoint c = ground arith

-- What a launched goal has sent and recorded.
record Launched (env : Environment) (part endpoint : String) (m : JointTrajectory) (s : Link)
    (handle : GoalHandle) (s' : Link) : Type 0 where
  pub sent_at : ℕ
  pub listening : env.server_ready endpoint sent_at ≡ true
  pub requested :
      s'.world.requests
      ≡ goal_request s.commands.lease_id part endpoint sent_at m ∷ s.world.requests
  pub answered : (env.goal_reply s'.world.requests).outcome ≡ ok handle
  pub accepted : handle.accepted ≡ true
  pub tracked : lookup part s'.commands.goal_handles ≡ some handle.id

remember_goal-tracked :
    (part : String) (handle : ℕ) (c : CommandClient)
    → lookup part (remember_goal part handle c).goal_handles ≡ some handle
unfolding remember_goal
remember_goal-tracked part handle c =
    ground (arith, lookup-insert part part handle c.goal_handles, eq_iff part part)

keep_handle-parts :
    (part : String) (g : GoalHandle) (s : Link) {handle : GoalHandle} {s' : Link}
    → keep_handle part g s ≡ (ok handle, s')
    → (handle ≡ g)
      × (g.accepted ≡ true)
      × (s' ≡ record s { commands = remember_goal part g.id s.commands })
unfolding keep_handle
keep_handle-parts part g s h = ground arith

launch_goal-Launched :
    (env : Environment) (part endpoint : String) (m : JointTrajectory) (s : Link)
    {handle : GoalHandle} {s' : Link}
    → launch_goal env part endpoint m s ≡ (ok handle, s')
    → Launched env part endpoint m s handle s'
unfolding launch_goal
launch_goal-Launched env part endpoint m s h =
    let c = s.commands in
    let call = on_world (call_goal env c.timeout c.lease_id part endpoint m) in
    let wait = on_world (wait_ready env c.timeout endpoint) in
    let (u, waited, h1) = bind-eq-ok wait (λ u. call >>= keep_handle part) s h in
    let t = (wait s).1 in
    let (g, called, h2) = bind-eq-ok call (keep_handle part) t h1 in
    let (same_handle, accepted, same_state) = keep_handle-parts part g (call t).1 h2 in
    rw (same_handle, same_state)
      (record {
        sent_at = t.world.now;
        listening = wait_ready-listening env c.timeout endpoint s.world waited;
        answered = call_goal-answered env c.timeout c.lease_id part endpoint m t.world called;
        requested =
            call_goal-requests env c.timeout c.lease_id part endpoint m t.world
            ∙ ap (λ rs. goal_request c.lease_id part endpoint t.world.now m ∷ rs)
                (wait_ready-SameButCache env c.timeout endpoint s.world).requests;
        accepted = accepted;
        tracked = remember_goal-tracked part g.id c;
      })

-- A goal start that returns has started a goal: its trajectory was converted and can be sent, with
-- strictly increasing times; one request left with it, under the lease of the client, to the
-- endpoint of the part's action client, or of the binding where there was none, at a time when that
-- server was ready; and the part tracks the handle that the server answered, which accepted the
-- goal.
pub start_joint_trajectory-Started :
    (env : Environment) (part : String) (v : Value) (names : List String) (s : Link)
    {handle : GoalHandle} {s' : Link}
    → start_joint_trajectory env part v names s ≡ (ok handle, s')
    → Started env part v names s handle s'
unfolding start_joint_trajectory
start_joint_trajectory-Started env part v names s h =
    let rest = λ (b : EndpointBinding) (m : JointTrajectory).
      on_commands (open_client part b.endpoint) >>= λ u.
      λ t. launch_goal env part (client_endpoint part b.endpoint t.commands) m t in
    let convert = lift (joint_trajectory_from_spec v names true) in
    let (b, bound, h1) =
      bind-eq-ok (λ t. (require_binding t.commands part "joint_trajectory", t))
        (λ b. convert >>= rest b) s h in
    let (m, converted, h2) = bind-eq-ok convert (rest b) s h1 in
    let opened = open_client part b.endpoint s.commands in
    let endpoint = client_endpoint part b.endpoint opened in
    let l = launch_goal-Launched env part endpoint m (record s { commands = opened }) h2 in
    record {
      binding = b;
      bound = bound;
      trajectory = m;
      converted = converted;
      sendable = joint_trajectory_from_spec-IsSendable v names true converted;
      sent_at = l.sent_at;
      endpoint = endpoint;
      addressed = client_endpoint-open part b.endpoint s.commands;
      listening = l.listening;
      answered = l.answered;
      requested =
          l.requested
          ∙ ap (λ i. goal_request i part endpoint l.sent_at m ∷ s.world.requests)
              (open_client-same part b.endpoint s.commands).0;
      accepted = l.accepted;
      tracked = l.tracked;
    }
