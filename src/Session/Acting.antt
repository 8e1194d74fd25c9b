-- ===== src/Session/Acting.antt =====
-- `Session.act` of session.py.
pub mod Coherence
pub mod Executing
use mathlib.Core.Path.{subst}
use physical_ai_runtime.Common.{
  Bool-cases, Dict, Error, Exec, Option, Result, Result-cases, String, ap, arith, bind-err, bind-ok,
  err, false, has_name, inl, inr, ok, refl, some, sym, true, value_error, ◌==◌, ◌>>◌, ◌∙◌, ◌∷◌, ◌≡◌,
}
use physical_ai_runtime.Messages.{Action, Payload}
use physical_ai_runtime.Authority.{Allocation, EndpointBinding, find_binding}
use physical_ai_runtime.Provider.{Link, envelope, require_binding, send}
use physical_ai_runtime.Provider.Sending.{IsLinked, require_binding-found}
use physical_ai_runtime.Provider.Sending.Deliveries.{send-Delivered, send_refused}
use physical_ai_runtime.Agent.{Agent, agent_send, check_action}
use physical_ai_runtime.Session.{Diagnostics, Scope, Session, active_for}
use physical_ai_runtime.Session.Calls.{
  act, add_inactive, add_sent, add_stale, count, is_stale_observation, on_link,
}

-- The command client of a session holds the lease of the session or none; it holds none outside
-- the scope; and its publishers go where the lease binds them.
pub record IsCoherent (s : Session) : Type 0 where
  pub linked : IsLinked s.commands
  pub leased : (s.commands.lease_id == "") ≡ false → s.lease_id ≡ some s.commands.lease_id
  pub unbound : s.entered ≡ false → (s.commands.lease_id == "") ≡ true

abbrev pub counted : (Diagnostics → Diagnostics) → Scope → Scope
counted f s = record s { session = record s.session { diagnostics = f s.session.diagnostics } }

abbrev pub link_of : Scope → Link
link_of s = record { commands = s.session.commands; world = s.world }

-- How `act` ends. A command is refused with an exception and nothing changes; or it is dropped and
-- counted; or it leaves as one envelope and is counted.
pub data Acted (a : Agent) (action : Action) (observation : Option (Dict Allocation)) (s : Scope)
    : Result (Unit {0}) × Scope → Type 0 where
  refused : (e : Error) → Acted a action observation s (err e, s)
  inactive :
      active_for action.part s.session s.world ≡ false
      → Acted a action observation s (ok tt, counted add_inactive s)
  stale :
      active_for action.part s.session s.world ≡ true
      → is_stale_observation a action.part observation s.session ≡ true
      → Acted a action observation s (ok tt, counted add_stale s)
  delivered :
      (s' : Scope) (b : EndpointBinding) (lease : String) (payload : Payload)
      → active_for action.part s.session s.world ≡ true
      → is_stale_observation a action.part observation s.session ≡ false
      → s.session.lease_id ≡ some lease
      → find_binding action.part action.command s.session.commands.bindings ≡ some b
      → s'.world
        ≡ record s.world { outbox = envelope b.endpoint s.world.now lease payload ∷ s.world.outbox }
      → s'.session.diagnostics ≡ add_sent s.session.diagnostics
      → Acted a action observation s (ok tt, s')

module _ (a : Agent) (action : Action) (observation : Option (Dict Allocation)) (s : Scope) where
  pub act_inactive :
      has_name action.part s.session.parts ≡ true
      → active_for action.part s.session s.world ≡ false
      → act a action observation s ≡ (ok tt, counted add_inactive s)
  unfolding act
  act_inactive named off = rw (named, act) (rw off)

  pub act_stale :
      has_name action.part s.session.parts ≡ true
      → active_for action.part s.session s.world ≡ true
      → is_stale_observation a action.part observation s.session ≡ true
      → act a action observation s ≡ (ok tt, counted add_stale s)
  unfolding act
  act_stale named on old = rw (named, act) (rw on (rw old))

  pub act_foreign :
      has_name action.part s.session.parts ≡ false
      → act a action observation s ≡ (err value_error, s)
  unfolding act
  act_foreign other = rw (other, act)

  pub act_sending :
      has_name action.part s.session.parts ≡ true
      → active_for action.part s.session s.world ≡ true
      → is_stale_observation a action.part observation s.session ≡ false
      → act a action observation s ≡ (on_link (agent_send action) >> count add_sent) s
  unfolding act
  act_sending named on fresh = rw (named, act) (rw on (rw fresh))

pub agent_send-ok :
    (action : Action) (l : Link)
    → (agent_send action l).0 ≡ ok tt
    → agent_send action l ≡ send action.part action.command action.value l
unfolding agent_send
agent_send-ok action l h = elim (Result-cases (check_action action)) [
  | inl (u, e) ↦ rw (e, agent_send)
  | inr (x, e) ↦ absurd (ground arith)
]

pub agent_send-refused :
    (action : Action) (l : Link) {e : Error}
    → (agent_send action l).0 ≡ err e
    → (agent_send action l).1 ≡ l
unfolding agent_send
agent_send-refused action l {e} h = elim (Result-cases (check_action action)) [
  | inl (u, p) ↦
      rw (p, agent_send)
        (send_refused action.part action.command action.value l {e = e} (ground (arith, p)))
  | inr (x, p) ↦ rw (p, agent_send)
]

-- What is left of `act` once the tests have passed.
abbrev pub transmit : Action → Exec Scope (Unit {0})
transmit action = on_link (agent_send action) >> count add_sent

abbrev pub with_link : Scope → Link → Scope
with_link s l = record { session = record s.session { commands = l.commands }; world = l.world }

module _ (action : Action) (s : Scope) where
  pub transmit_refused :
      {e : Error} → (agent_send action (link_of s)).0 ≡ err e → transmit action s ≡ (err e, s)
  transmit_refused {e} h =
      bind-err (on_link (agent_send action)) (λ _. count add_sent) s h
      ∙ ap (λ (l : Link). (err e, with_link s l)) (agent_send-refused action (link_of s) h)

  pub transmit_ok :
      (agent_send action (link_of s)).0 ≡ ok tt
      → transmit action s
        ≡ (ok tt, counted add_sent (with_link s (agent_send action (link_of s)).1))
  transmit_ok h = bind-ok (on_link (agent_send action)) (λ _. count add_sent) s h

module _ (a : Agent) (action : Action) (observation : Option (Dict Allocation)) (s : Scope)
    (coherent : IsCoherent s.session) where
  leased_of :
      {b : EndpointBinding}
      → require_binding s.session.commands action.part action.command ≡ ok b
      → (s.session.commands.lease_id == "") ≡ false
  unfolding require_binding
  leased_of h = ground arith

  transmit-Acted :
      active_for action.part s.session s.world ≡ true
      → is_stale_observation a action.part observation s.session ≡ false
      → Acted a action observation s (transmit action s)
  transmit-Acted on fresh = elim (Result-cases (agent_send action (link_of s)).0) [
    | inl (u, h) ↦
        let same = agent_send-ok action (link_of s) h in
        let d =
          send-Delivered action.part action.command action.value (link_of s) coherent.linked
            (sym (ap (λ (r : Result (Unit {0}) × Link). r.0) same) ∙ h) in
        subst (Acted a action observation s) (sym (transmit_ok action s h)) (
          delivered (counted add_sent (with_link s (agent_send action (link_of s)).1)) d.binding
            s.session.commands.lease_id d.payload on fresh (coherent.leased (leased_of d.bound))
            (require_binding-found s.session.commands action.part action.command d.bound)
            (ap (λ (r : Result (Unit {0}) × Link). r.1.world) same ∙ d.outbox) refl)
    | inr (e, h) ↦
        subst (Acted a action observation s) (sym (transmit_refused action s h)) (refused e)
  ]

  -- In a coherent session `act` either raises and changes nothing, or drops the command and counts
  -- it, or sends one envelope. It sends only while the status shows the session as the owner of the
  -- part, with the lease of the session, to the endpoint that the lease binds for the part and
  -- command, and only if the observation was read under that lease.
  pub act-Acted : Acted a action observation s (act a action observation s)
  act-Acted = elim (Bool-cases (has_name action.part s.session.parts)) [
    | inr other ↦
        subst (Acted a action observation s) (sym (act_foreign a action observation s other))
          (refused value_error)
    | inl named ↦ elim (Bool-cases (active_for action.part s.session s.world)) [
      | inr off ↦
          subst (Acted a action observation s) (sym (act_inactive a action observation s named off))
            (inactive off)
      | inl on ↦ elim (Bool-cases (is_stale_observation a action.part observation s.session)) [
        | inl old ↦
            subst (Acted a action observation s)
              (sym (act_stale a action observation s named on old)) (stale on old)
        | inr fresh ↦
            subst (Acted a action observation s)
              (sym (act_sending a action observation s named on fresh)) (transmit-Acted on fresh)
      ]
    ]
  ]
