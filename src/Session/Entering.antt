-- ===== src/Session/Entering.antt =====
-- `Session.__enter__` of session.py: a claim, the wait for authority, and the clean-up.
use mathlib.Core.Path.{subst}
use physical_ai_runtime.Common.{
  Bool, Dict, Error, Exec, List, Result, Result-cases, String, ap, arith, bind-err, bind-ok, err,
  false, inl, inr, is_past, ok, raise, refl, some, sym, timeout_error, true, ℕ, ◌>>=◌, ◌>>◌, ◌∙◌,
  ◌∷◌, ◌≡◌,
}
use physical_ai_runtime.Waiting.{Wait, expired, ready, stuck}
use physical_ai_runtime.Waiting.Bounds.{Ends}
use physical_ai_runtime.Authority.{LeaseGrant}
use physical_ai_runtime.World.{Environment, World, release_request}
use physical_ai_runtime.World.Clock.{Advances, Since, wait-Ends}
use physical_ai_runtime.Selection.{RoleSpec, claim, claim_of, parse_role, require_execution_manager}
use physical_ai_runtime.Selection.Claims.{call_claim-Sent}
use physical_ai_runtime.Provider.{bind}
use physical_ai_runtime.Provider.Sending.{bind-IsLinked, bound_to}
use physical_ai_runtime.Agent.{Agent}
use physical_ai_runtime.Session.{
  Scope, Session, active, held_lease, push_control, release_claim, select_resources,
}
use physical_ai_runtime.Session.Calls.{
  abandon_entry, await_authority, enter, entry_result, in_scope, install_grant, leave, schedule,
}
use physical_ai_runtime.Session.Acting.{IsCoherent}
use physical_ai_runtime.Session.Leaving.{
  leave_top, left, release_claim-Kept, requests-release_claim,
}

-- How the wait for authority ends, for a session that has just been pushed on `rest`.
pub data Awaited (env : Environment) (rest : List ℕ) (s : Scope)
    : Result (Unit {0}) × Scope → Type 0 where
  -- The status shows the session as the owner of all its parts.
  granted :
      (t : World)
      → Since s.world t
      → active s.session t ≡ true
      → Awaited env rest s (ok tt, record { session = schedule s.session t; world = t })
  -- The deadline has passed: the lease is given back and the scope is left.
  given_up :
      (t : World) (s' : Scope)
      → Since s.world t
      → is_past s.world.now s.session.acquire_timeout t.now ≡ true
      → s'.session ≡ left s.session
      → s'.world.stack ≡ rest
      → s'.world.outbox ≡ s.world.outbox
      → ((l : String)
          → held_lease s.session ≡ some l
          → env.service_up t.now ≡ true
          → s'.world.requests ≡ release_request l ∷ s.world.requests)
      → Awaited env rest s (err timeout_error, s')

module _ (env : Environment) (rest : List ℕ) (s : Scope)
    (top : s.world.stack ≡ s.session.id ∷ rest) where
  abandoned : World → Scope
  abandoned t =
      let (e, w) = release_claim env s.session t in
      record { session = left s.session; world = record w { stack = rest } }

  abandon_entry_lem :
      (t : World)
      → Since s.world t
      → abandon_entry env (record { session = s.session; world = t })
        ≡ (err timeout_error, abandoned t)
  unfolding abandon_entry abandoned
  abandon_entry_lem t since =
      let (e, w) = release_claim env s.session t in
      let kept = release_claim-Kept env s.session t in
      let l =
        leave_top (record { session = s.session; world = w }) rest
          (kept.0 ∙ since.same.stack ∙ top) in
      bind-ok leave (λ _. raise timeout_error) (record { session = s.session; world = w })
        (ap (λ (r : Result (Unit {0}) × Scope). r.0) l)
      ∙ ap (λ (r : Result (Unit {0}) × Scope). (err timeout_error, r.1)) l

  entry_result-Awaited :
      (r : Wait World)
      → Ends
          (λ t. Since s.world t × (active s.session t ≡ true))
          (λ t.
            Since s.world t
            × (active s.session t ≡ false)
            × (is_past s.world.now s.session.acquire_timeout t.now ≡ true))
          r
      → Awaited env rest s (entry_result env s.session r)
  unfolding abandoned
  entry_result-Awaited (ready t) h = granted t h.0 h.1
  entry_result-Awaited (expired t) h =
      let kept = release_claim-Kept env s.session t in
      subst (Awaited env rest s) (sym (abandon_entry_lem t h.0)) (
        given_up t (abandoned t) h.0 h.2 refl refl (kept.1 ∙ h.0.same.outbox) (λ l held up.
          requests-release_claim env s.session t held up
          ∙ ap (λ q. release_request l ∷ q) h.0.same.requests))
  entry_result-Awaited (stuck t) h = absurd h

  -- Where the clock advances, the wait for authority ends: with the status showing the session as
  -- the owner of all its parts, or, after the deadline, with a TimeoutError, the scope left as it
  -- was before, and, with the service up, the release of exactly this lease.
  pub await_authority-Awaited : Advances env → Awaited env rest s (await_authority env s)
  unfolding await_authority
  await_authority-Awaited advances =
      entry_result-Awaited _
        (wait-Ends env advances (λ w. active s.session w) s.world s.session.acquire_timeout)

abbrev pub installed : LeaseGrant → Session → Session
installed g s = record s {
  lease_id = some g.lease_id;
  commands = bound_to g s.commands;
  entered = true;
}

pub installed-IsCoherent :
    (g : LeaseGrant) (s : Session) → IsCoherent s → s.entered ≡ false → IsCoherent (installed g s)
installed-IsCoherent g s coherent out = record {
  linked = bind-IsLinked g s.commands coherent.linked (coherent.unbound out);
  leased = λ _. refl;
  unbound = λ h. cc;
}

-- How an entry ends: it is refused and the session and the stack are as they were; or the claim was
-- granted, and the wait for authority ended.
pub data Entered (env : Environment) (a : Agent) (s : Scope)
    : Result (Unit {0}) × Scope → Type 0 where
  refused :
      (e : Error) (s' : Scope)
      → s'.session ≡ s.session
      → s'.world.stack ≡ s.world.stack
      → s'.world.outbox ≡ s.world.outbox
      → Entered env a s (err e, s')
  claimed :
      (g : LeaseGrant) (resources : Dict String) (w : World) (r : Result (Unit {0}) × Scope)
      → select_resources a.resources s.session.parts ≡ ok resources
      → claim env a.source_role a.source_instance resources s.session.preempt a.metadata s.world
        ≡ (ok g, w)
      → Awaited env w.stack
          (record { session = installed g s.session; world = push_control s.session.id w })
          r
      → Entered env a s r

claim-Kept :
    (env : Environment) (spec : RoleSpec) (i : String) (resources : Dict String) (preempt : Bool)
    (metadata : Dict String) (w : World)
    → let w' = (claim env spec i resources preempt metadata w).1 in
      (w'.stack ≡ w.stack) × (w'.outbox ≡ w.outbox)
unfolding claim require_execution_manager
claim-Kept env spec i resources preempt metadata w =
    elim (Result-cases (parse_role env.role_code spec)) [
      | inl (r, p) ↦
          ground (arith, call_claim-Sent env (claim_of env r i resources preempt metadata) w)
      | inr (e, p) ↦ ground arith
    ]

module _ (env : Environment) (advances : Advances env) (a : Agent) (s : Scope)
    (coherent : IsCoherent s.session) (out : s.session.entered ≡ false) where
  install_grant_lem :
      (g : LeaseGrant) (w : World)
      → install_grant g (record s { world = w })
        ≡ (ok tt, record { session = installed g s.session; world = push_control s.session.id w })
  unfolding install_grant bind
  install_grant_lem g w = ground (arith, coherent.unbound out)

  -- The rest of an entry, once the resources are selected.
  abbrev claim_and_wait : Dict String → Exec Scope (Unit {0})
  claim_and_wait resources =
      in_scope (claim env a.source_role a.source_instance resources s.session.preempt a.metadata)
      >>= λ g. install_grant g >> await_authority env

  claim_and_wait-Entered :
      (resources : Dict String)
      → select_resources a.resources s.session.parts ≡ ok resources
      → Entered env a s (claim_and_wait resources s)
  unfolding push_control
  claim_and_wait-Entered resources selected =
      let m = claim env a.source_role a.source_instance resources s.session.preempt a.metadata in
      let c = m s.world in
      let kept =
        claim-Kept env a.source_role a.source_instance resources s.session.preempt a.metadata
          s.world in
      elim (Result-cases c.0) [
        | inr (e, h) ↦
            subst (Entered env a s)
              (sym (bind-err (in_scope m) (λ g. install_grant g >> await_authority env) s h))
              (refused e (record s { world = c.1 }) refl kept.0 kept.1)
        | inl (g, h) ↦
            let l = install_grant_lem g c.1 in
            subst (Entered env a s)
              (sym (
                bind-ok (in_scope m) (λ g. install_grant g >> await_authority env) s h
                ∙ bind-ok (install_grant g) (λ _. await_authority env) (record s { world = c.1 })
                    (ap (λ (r : Result (Unit {0}) × Scope). r.0) l)
                ∙ ap (λ (r : Result (Unit {0}) × Scope). await_authority env r.1) l))
              (claimed g resources c.1 _ selected (λ i. (h i, c.1))
                (await_authority-Awaited env c.1.stack _ refl advances))
      ]

  enter_selected :
      (resources : Dict String)
      → select_resources a.resources s.session.parts ≡ ok resources
      → enter env a s ≡ claim_and_wait resources s
  unfolding enter
  enter_selected resources selected = rw (out, enter) (rw selected)

  enter_unselected :
      (e : Error)
      → select_resources a.resources s.session.parts ≡ err e
      → enter env a s ≡ (err e, s)
  unfolding enter
  enter_unselected e h = rw (out, enter) (rw h)

  -- Where the clock advances, entering a coherent session from outside its scope ends. Either it is
  -- refused, and the session, the control stack and the sent commands are as before; or the claim
  -- of its parts is granted and the wait for authority ends as `Awaited` says.
  pub enter-Entered : Entered env a s (enter env a s)
  enter-Entered = elim (Result-cases (select_resources a.resources s.session.parts)) [
    | inl (resources, h) ↦
        subst (Entered env a s) (sym (enter_selected resources h))
          (claim_and_wait-Entered resources h)
    | inr (e, h) ↦ subst (Entered env a s) (sym (enter_unselected e h)) (refused e s refl refl refl)
  ]
