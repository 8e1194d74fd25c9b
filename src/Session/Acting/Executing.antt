-- ===== src/Session/Acting/Executing.antt =====
-- `Session.execute` and `Session.wait` of session.py, and the command client of the agent.
use physical_ai_runtime.Common.{
  Bool-cases, Dict, Exec, List, Option, Option-cases, Result, Result-cases, String, ap, arith,
  bind-err, bind-ok, has_key, has_name, inl, inr, lift, ok, pure, refl, some, sym, true, ℕ, ℤ, ◌==◌,
  ◌>>=◌, ◌>>◌, ◌∙◌, ◌≡◌,
}
use mathlib.Core.Path.{subst}
use physical_ai_runtime.Messages.{JointTrajectory, Value}
use physical_ai_runtime.Authority.{Allocation, EndpointBinding, find_binding}
use physical_ai_runtime.World.{Environment, GoalHandle, World}
use physical_ai_runtime.Commands.{joint_trajectory_from_spec}
use physical_ai_runtime.Provider.{CommandClient, Link, require_binding}
use physical_ai_runtime.Provider.Actions.{
  call_goal, client_endpoint, keep_handle, launch_goal, on_commands, on_world, open_client,
  remember_goal, start_joint_trajectory, wait_ready,
}
use physical_ai_runtime.Provider.Sending.{IsLinked}
use physical_ai_runtime.Agent.{
  Agent, PlanExecution, agent_execute, check_plan, new_execution, part_joint_names,
}
use physical_ai_runtime.Session.{Scope, Session, active_for}
use physical_ai_runtime.Session.Calls.{
  add_sent, count, execute, is_stale_observation, on_link, wait_period,
}
use physical_ai_runtime.Session.Acting.{IsCoherent, link_of}
use physical_ai_runtime.Session.Acting.Coherence.{LinkKept, with_commands-IsCoherent}

-- What a call keeps, whichever way it ends.
abbrev Keeps : {S A : Type 0} → (S → Type 0) → Exec S A → Type 0
Keeps {S} P m = (s : S) → P s → P (m s).1

bind-Keeps :
    {S A B : Type 0} (P : S → Type 0) (m : Exec S A) (f : A → Exec S B)
    → Keeps P m
    → ((a : A) → Keeps P (f a))
    → Keeps P (m >>= f)
bind-Keeps {B = B} P m f first rest s h = elim (Result-cases (m s).0) [
  | inl (a, e) ↦
      subst (λ (r : Result B × _). P r.1) (sym (bind-ok m f s e)) (rest a (m s).1 (first s h))
  | inr (x, e) ↦ subst (λ (r : Result B × _). P r.1) (sym (bind-err m f s e)) (first s h)
]

-- The lease, its bindings and the publishers are those of `c`.
record IsBoundAs (c : CommandClient) (l : Link) : Type 0 where
  lease : l.commands.lease_id ≡ c.lease_id
  bindings : l.commands.bindings ≡ c.bindings
  publishers : l.commands.publishers ≡ c.publishers

IsBoundAs-kept : (c : CommandClient) (l : Link) → IsLinked c → IsBoundAs c l → LinkKept c l.commands
IsBoundAs-kept c l linked same = (
  record {
    bound = λ part command p h.
        ap (find_binding part command) same.bindings
        ∙ linked.bound part command p (ap (find_binding part command) (sym same.publishers) ∙ h);
    idle = λ h. same.publishers ∙ linked.idle (ap (λ (i : String). i == "") (sym same.lease) ∙ h);
  },
  same.lease,
)

module _ (c : CommandClient) where
  on_world-Keeps : {A : Type 0} (m : Exec World A) → Keeps (IsBoundAs c) (on_world m)
  on_world-Keeps m l h = record {
    lease = h.lease;
    bindings = h.bindings;
    publishers = h.publishers;
  }

  keep_handle-Keeps : (part : String) (g : GoalHandle) → Keeps (IsBoundAs c) (keep_handle part g)
  unfolding keep_handle remember_goal
  keep_handle-Keeps part g l h = elim (Bool-cases g.accepted) [
    | inl e ↦ rw e (record { lease = h.lease; bindings = h.bindings; publishers = h.publishers })
    | inr e ↦ rw e h
  ]

  launch_goal-Keeps :
      (env : Environment) (part endpoint : String) (m : JointTrajectory)
      → Keeps (IsBoundAs c) (launch_goal env part endpoint m)
  unfolding launch_goal
  launch_goal-Keeps env part endpoint m l h =
      let k = l.commands in
      let call = on_world (call_goal env k.timeout k.lease_id part endpoint m) in
      bind-Keeps (IsBoundAs c) (on_world (wait_ready env k.timeout endpoint))
        (λ u. call >>= keep_handle part) (on_world-Keeps (wait_ready env k.timeout endpoint))
        (λ u.
          bind-Keeps (IsBoundAs c) call (keep_handle part)
            (on_world-Keeps (call_goal env k.timeout k.lease_id part endpoint m))
            (keep_handle-Keeps part))
        l h

  open_client-Keeps :
      (part endpoint : String) → Keeps (IsBoundAs c) (on_commands (open_client part endpoint))
  open_client-Keeps part endpoint l h = elim (Bool-cases (has_key part l.commands.action_clients)) [
    | inl e ↦ rw e (record { lease = h.lease; bindings = h.bindings; publishers = h.publishers })
    | inr e ↦ rw e (record { lease = h.lease; bindings = h.bindings; publishers = h.publishers })
  ]

  start_joint_trajectory-Keeps :
      (env : Environment) (part : String) (v : Value) (names : List String)
      → Keeps (IsBoundAs c) (start_joint_trajectory env part v names)
  unfolding start_joint_trajectory
  start_joint_trajectory-Keeps env part v names =
      let rest = λ (b : EndpointBinding) (m : JointTrajectory).
        on_commands (open_client part b.endpoint) >>= λ u.
        λ t. launch_goal env part (client_endpoint part b.endpoint t.commands) m t in
      let convert = lift (joint_trajectory_from_spec v names true) in
      bind-Keeps (IsBoundAs c) (λ t. (require_binding t.commands part "joint_trajectory", t))
        (λ b. convert >>= rest b) (λ l h. h)
        (λ b.
          bind-Keeps (IsBoundAs c) convert (rest b) (λ l h. h)
            (λ m.
              bind-Keeps (IsBoundAs c) (on_commands (open_client part b.endpoint))
                (λ u. λ t. launch_goal env part (client_endpoint part b.endpoint t.commands) m t)
                (open_client-Keeps part b.endpoint)
                (λ u t.
                  launch_goal-Keeps env part (client_endpoint part b.endpoint t.commands) m t)))

  agent_execute-Keeps :
      (env : Environment) (a : Agent) (part : String) (v : Value)
      → Keeps (IsBoundAs c) (agent_execute env a part v)
  unfolding agent_execute
  agent_execute-Keeps env a part v =
      let made = λ (g : GoalHandle) (l : Link). pure (new_execution part g.id) l in
      let start = λ (names : List String). start_joint_trajectory env part v names >>= made in
      let named = lift (part_joint_names a part) >>= start in
      bind-Keeps (IsBoundAs c) (lift (check_plan v)) (λ u. named) (λ l h. h)
        (λ u.
          bind-Keeps (IsBoundAs c) (lift (part_joint_names a part)) start (λ l h. h)
            (λ names.
              bind-Keeps (IsBoundAs c) (start_joint_trajectory env part v names) made
                (start_joint_trajectory-Keeps env part v names) (λ x l h. h)))

module _ (env : Environment) (a : Agent) (part : String) (v : Value)
    (observation : Option (Dict Allocation)) where
  on_agent-Keeps : Keeps (λ t. IsCoherent t.session) (on_link (agent_execute env a part v))
  on_agent-Keeps t h =
      let l = (agent_execute env a part v (link_of t)).1 in
      with_commands-IsCoherent t.session l.commands t.session.diagnostics h (
        IsBoundAs-kept t.session.commands l h.linked (
          agent_execute-Keeps t.session.commands env a part v (link_of t)
            (record { lease = refl; bindings = refl; publishers = refl })))

  counted-Keeps : (x : PlanExecution) → Keeps (λ t. IsCoherent t.session) (count add_sent >> pure x)
  counted-Keeps x t h =
      with_commands-IsCoherent t.session t.session.commands (add_sent t.session.diagnostics) h
        (h.linked, refl)

  -- `execute` keeps a session coherent, however it ends.
  pub execute-IsCoherent :
      (s : Scope) → IsCoherent s.session → IsCoherent (execute env a part v observation s).1.session
  unfolding execute
  execute-IsCoherent s h = elim (Bool-cases (has_name part s.session.parts)) [
    | inr other ↦ rw other h
    | inl named ↦ elim (Bool-cases (active_for part s.session s.world)) [
      | inr off ↦ rw (named, off) h
      | inl on ↦ elim (Bool-cases (is_stale_observation a part observation s.session)) [
        | inl old ↦ rw (named, on, old) h
        | inr fresh ↦
            rw (named, on, fresh)
              (bind-Keeps (λ t. IsCoherent t.session) (on_link (agent_execute env a part v))
                (λ x. count add_sent >> pure x) on_agent-Keeps counted-Keeps s h)
      ]
    ]
  ]

-- `wait` changes the next deadline only.
pub wait_period-IsCoherent :
    (s : Session) (now : ℕ) {delay : ℤ} {t : Session}
    → wait_period s now ≡ ok (delay, t)
    → IsCoherent s
    → IsCoherent t
wait_period-IsCoherent s now {t = t} e h =
    let (commands, lease, entered) = wait_period-same s now e in
    record {
      linked = subst IsLinked (sym commands) h.linked;
      leased = λ q.
          lease
          ∙ h.leased (ap (λ (k : CommandClient). k.lease_id == "") (sym commands) ∙ q)
          ∙ ap (λ (k : CommandClient). some k.lease_id) (sym commands);
      unbound =
          λ q. ap (λ (k : CommandClient). k.lease_id == "") commands ∙ h.unbound (sym entered ∙ q);
    }
  where
    wait_period-same :
        (s : Session) (now : ℕ) {delay : ℤ} {t : Session}
        → wait_period s now ≡ ok (delay, t)
        → (t.commands ≡ s.commands) × (t.lease_id ≡ s.lease_id) × (t.entered ≡ s.entered)
    wait_period-same s now e = elim (Option-cases s.period) [
      | inl q ↦ absurd (unfold wait_period in ground arith)
      | inr (p, q) ↦ unfold wait_period in ground arith
    ]
