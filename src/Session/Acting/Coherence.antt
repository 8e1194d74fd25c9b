-- ===== src/Session/Acting/Coherence.antt =====
-- `Session.act` of session.py, and the command client of the agent.
use mathlib.Core.Path.{subst}
use physical_ai_runtime.Common.{
  Bool-cases, Dict, Option, Result, Result-cases, String, ap, has_name, inl, inr, refl, some, sym,
  ◌==◌, ◌∙◌, ◌≡◌,
}
use physical_ai_runtime.Messages.{Action}
use physical_ai_runtime.Authority.{Allocation}
use physical_ai_runtime.Provider.{CommandClient, Link}
use physical_ai_runtime.Provider.Sending.{IsLinked}
use physical_ai_runtime.Provider.Sending.Deliveries.{send-Delivered, send-IsLinked}
use physical_ai_runtime.Agent.{Agent, agent_send}
use physical_ai_runtime.Session.{Diagnostics, Scope, Session, active_for}
use physical_ai_runtime.Session.Calls.{act, add_inactive, add_sent, add_stale, is_stale_observation}
use physical_ai_runtime.Session.Acting.{
  IsCoherent, act_foreign, act_inactive, act_sending, act_stale, agent_send-ok, agent_send-refused,
  link_of, transmit, transmit_ok, transmit_refused,
}

-- `act` keeps a session coherent, however it ends.
abbrev pub LinkKept : CommandClient → CommandClient → Type 0
LinkKept c c' = IsLinked c' × (c'.lease_id ≡ c.lease_id)

agent_send-kept :
    (action : Action) (l : Link)
    → IsLinked l.commands
    → LinkKept l.commands (agent_send action l).1.commands
agent_send-kept action l linked = elim (Result-cases (agent_send action l).0) [
  | inl (u, h) ↦
      let same = agent_send-ok action l h in
      let d =
        send-Delivered action.part action.command action.value l linked
          (sym (ap (λ (r : Result (Unit {0}) × Link). r.0) same) ∙ h) in
      subst (λ (r : Result (Unit {0}) × Link). LinkKept l.commands r.1.commands) (sym same)
        (send-IsLinked action.part action.command action.value l linked, d.lease)
  | inr (e, h) ↦ rw (agent_send-refused action l h) (linked, refl)
]

-- A change of the link that keeps it linked under the same lease keeps the session coherent.
pub with_commands-IsCoherent :
    (s : Session) (c : CommandClient) (d : Diagnostics)
    → IsCoherent s
    → LinkKept s.commands c
    → IsCoherent (record s { commands = c; diagnostics = d })
with_commands-IsCoherent s c d coherent (linked, same) = record {
  linked = linked;
  leased = λ h. coherent.leased (ap (λ (l : String). l == "") (sym same) ∙ h) ∙ ap some (sym same);
  unbound = λ h. ap (λ (l : String). l == "") same ∙ coherent.unbound h;
}

module _ (a : Agent) (action : Action) (observation : Option (Dict Allocation)) (s : Scope)
    (coherent : IsCoherent s.session) where
  transmit-IsCoherent : IsCoherent (transmit action s).1.session
  transmit-IsCoherent =
      let kept = agent_send-kept action (link_of s) coherent.linked in
      let c = (agent_send action (link_of s)).1.commands in
      elim (Result-cases (agent_send action (link_of s)).0) [
        | inl (u, h) ↦
            subst (λ (r : Result (Unit {0}) × Scope). IsCoherent r.1.session)
              (sym (transmit_ok action s h))
              (with_commands-IsCoherent s.session c (add_sent s.session.diagnostics) coherent kept)
        | inr (e, h) ↦
            subst (λ (r : Result (Unit {0}) × Scope). IsCoherent r.1.session)
              (sym (transmit_refused action s h)) coherent
      ]

  counted-IsCoherent : (d : Diagnostics) → IsCoherent (record s.session { diagnostics = d })
  counted-IsCoherent d =
      with_commands-IsCoherent s.session s.session.commands d coherent (coherent.linked, refl)

  pub act-IsCoherent : IsCoherent (act a action observation s).1.session
  act-IsCoherent = elim (Bool-cases (has_name action.part s.session.parts)) [
    | inr other ↦ rw (act_foreign a action observation s other) coherent
    | inl named ↦ elim (Bool-cases (active_for action.part s.session s.world)) [
      | inr off ↦
          rw (act_inactive a action observation s named off)
            (counted-IsCoherent (add_inactive s.session.diagnostics))
      | inl on ↦ elim (Bool-cases (is_stale_observation a action.part observation s.session)) [
        | inl old ↦
            rw (act_stale a action observation s named on old)
              (counted-IsCoherent (add_stale s.session.diagnostics))
        | inr fresh ↦ rw (act_sending a action observation s named on fresh) transmit-IsCoherent
      ]
    ]
  ]
