-- ===== src/Session/Histories.antt =====
-- The histories of one session: the calls of its methods, in any order and with any results.
use mathlib.Core.Bool.{false≢true}
use mathlib.Core.Path.{subst}
use physical_ai_runtime.Common.{
  Bool, Bool-cases, Dict, Exec, List, Option, Result, Result-cases, String, ap, arith, bind-err,
  bind-ok, err, false, inl, inr, lift, ok, refl, runtime_error, sym, true, ℕ, ℤ, ◌==◌, ◌∙◌, ◌≡◌,
}
use physical_ai_runtime.Messages.{Action, Value}
use physical_ai_runtime.Authority.{Allocation}
use physical_ai_runtime.World.{Environment, World}
use physical_ai_runtime.World.Clock.{Advances}
use physical_ai_runtime.Provider.{CommandClient, fork, unbind}
use physical_ai_runtime.Provider.Sending.{fork-IsLinked, unbind-IsLinked}
use physical_ai_runtime.Agent.{Agent, PlanExecution}
use physical_ai_runtime.Session.{Scope, Session, new_session, pop_control, push_control}
use physical_ai_runtime.Session.Calls.{
  act, enter, execute, exit, leave, raise_release, settle_lease, wait_period,
}
use physical_ai_runtime.Session.Acting.{IsCoherent}
use physical_ai_runtime.Session.Acting.Executing.{execute-IsCoherent, wait_period-IsCoherent}
use physical_ai_runtime.Session.Acting.Coherence.{act-IsCoherent}
use physical_ai_runtime.Session.Entering.{
  Awaited, Entered, claimed, enter-Entered, given_up, granted, installed, installed-IsCoherent,
}
use physical_ai_runtime.Session.Leaving.{left, left-IsCoherent}

-- One call on the session, or a change of the world that other code makes.
pub data Step (env : Environment) (a : Agent) (s : Scope) : Scope → Type 0 where
  enters : (r : Result (Unit {0})) (s' : Scope) → enter env a s ≡ (r, s') → Step env a s s'
  acts :
      (action : Action) (observation : Option (Dict Allocation)) (r : Result (Unit {0}))
      (s' : Scope)
      → act a action observation s ≡ (r, s')
      → Step env a s s'
  leaves :
      (failed_body : Bool) (r : Result (Unit {0})) (s' : Scope)
      → exit env failed_body s ≡ (r, s')
      → Step env a s s'
  executes :
      (part : String) (v : Value) (observation : Option (Dict Allocation))
      (r : Result PlanExecution) (s' : Scope)
      → execute env a part v observation s ≡ (r, s')
      → Step env a s s'
  waits :
      (delay : ℤ) (t : Session) (w : World) (s' : Scope)
      → wait_period s.session s.world.now ≡ ok (delay, t)
      → s' ≡ record { session = t; world = w }
      → Step env a s s'
  elsewhere : (w : World) (s' : Scope) → s' ≡ record s { world = w } → Step env a s s'

pub data Reach (env : Environment) (a : Agent) (s : Scope) : Scope → Type 0 where
  here : Reach env a s s
  next : {t u : Scope} → Reach env a s t → Step env a t u → Reach env a s u

fork-lease : (c : CommandClient) → ((fork c).lease_id == "") ≡ true
unfolding fork
fork-lease c = refl

fork-unleased : (c : CommandClient) → ((fork c).lease_id == "") ≡ false → ⊥
fork-unleased c h = false≢true (sym h ∙ fork-lease c)

new_session-commands :
    (id : ℕ) (parts : List String) (preempt : Bool) (timeout : ℤ) (period : Option ℤ)
    (client : CommandClient) (s : Session)
    → new_session id parts preempt timeout period client ≡ ok s
    → (s.commands ≡ fork client) × (s.entered ≡ false)
unfolding new_session
new_session-commands id parts preempt timeout period client s h = ground arith

-- A new session is coherent.
pub new_session-IsCoherent :
    (id : ℕ) (parts : List String) (preempt : Bool) (timeout : ℤ) (period : Option ℤ)
    (client : CommandClient) (s : Session)
    → new_session id parts preempt timeout period client ≡ ok s
    → IsCoherent s
new_session-IsCoherent id parts preempt timeout period client s h =
    let same = new_session-commands id parts preempt timeout period client s h in
    record {
      linked = rw same.0 (fork-IsLinked client);
      leased = λ e.
          absurd
            (fork-unleased client (ap (λ (c : CommandClient). c.lease_id == "") (sym same.0) ∙ e));
      unbound = λ _. rw same.0 (fork-lease client);
    }

unbound-IsCoherent :
    (s : Session) (e : Bool) → IsCoherent (record s { commands = unbind s.commands; entered = e })
unbound-IsCoherent s e = record {
  linked = unbind-IsLinked s.commands;
  leased = λ h. absurd (false≢true (sym h ∙ unbind-lease s.commands));
  unbound = λ _. unbind-lease s.commands;
}
  where
    unbind-lease : (c : CommandClient) → ((unbind c).lease_id == "") ≡ true
    unbind-lease c = unfold unbind in refl

abbrev popped : Session → Result (Unit {0}) → Session
popped s (ok u) = left s
popped s (err e) = record s { commands = unbind s.commands }

leave-session :
    (s : Scope) → (leave s).1.session ≡ popped s.session (pop_control s.session.id s.world).0
unfolding leave
leave-session s = ground arith

popped-IsCoherent : (s : Session) (r : Result (Unit {0})) → IsCoherent (popped s r)
popped-IsCoherent s (ok u) = unbound-IsCoherent s false
popped-IsCoherent s (err e) = unbound-IsCoherent s s.entered

leave-IsCoherent : (s : Scope) → IsCoherent (leave s).1.session
leave-IsCoherent s = rw (leave-session s) (popped-IsCoherent s.session _)

-- However a scope is left, also out of order, its session is coherent afterwards.
exit-IsCoherent : (env : Environment) (b : Bool) (s : Scope) → IsCoherent (exit env b s).1.session
unfolding exit
exit-IsCoherent env b s =
    let (e, t) = settle_lease env s in
    let rest : Exec Scope (Unit {0}) = lift (raise_release b e) in
    elim (Result-cases (leave t).0) [
      | inl (u, h) ↦
          subst (λ (r : Result (Unit {0}) × Scope). IsCoherent r.1.session)
            (sym (bind-ok leave (λ _. rest) t h)) (leave-IsCoherent t)
      | inr (x, h) ↦
          subst (λ (r : Result (Unit {0}) × Scope). IsCoherent r.1.session)
            (sym (bind-err leave (λ _. rest) t h)) (leave-IsCoherent t)
    ]

Awaited-IsCoherent :
    (env : Environment) (rest : List ℕ) (s : Scope) {r : Result (Unit {0}) × Scope}
    → IsCoherent s.session
    → Awaited env rest s r
    → IsCoherent r.1.session
Awaited-IsCoherent env rest s coherent (granted t since on) = record {
  linked = coherent.linked;
  leased = coherent.leased;
  unbound = coherent.unbound;
}
Awaited-IsCoherent env rest s coherent (given_up t s' since late same stack outbox released) =
    rw same (left-IsCoherent s.session)

Entered-IsCoherent :
    (env : Environment) (a : Agent) (s : Scope) {r : Result (Unit {0}) × Scope}
    → IsCoherent s.session
    → s.session.entered ≡ false
    → Entered env a s r
    → IsCoherent r.1.session
Entered-IsCoherent env a s coherent out (Entered.refused e s' same stack outbox) = rw same coherent
Entered-IsCoherent env a s coherent out (claimed g resources w r selected c awaited) =
    Awaited-IsCoherent env w.stack
      (record { session = installed g s.session; world = push_control s.session.id w })
      (installed-IsCoherent g s.session coherent out) awaited

enter_again :
    (env : Environment) (a : Agent) (s : Scope)
    → s.session.entered ≡ true
    → enter env a s ≡ (err runtime_error, s)
unfolding enter
enter_again env a s inside = rw (inside, enter)

enter-IsCoherent :
    (env : Environment) (a : Agent) (s : Scope)
    → Advances env
    → IsCoherent s.session
    → IsCoherent (enter env a s).1.session
enter-IsCoherent env a s advances coherent = elim (Bool-cases s.session.entered) [
  | inl inside ↦ rw (enter_again env a s inside) coherent
  | inr out ↦ Entered-IsCoherent env a s coherent out (enter-Entered env advances a s coherent out)
]

Step-IsCoherent :
    (env : Environment) (a : Agent) (s : Scope) {t : Scope}
    → Advances env
    → Step env a s t
    → IsCoherent s.session
    → IsCoherent t.session
Step-IsCoherent env a s advances (enters r s' e) h =
    subst (λ (q : Result (Unit {0}) × Scope). IsCoherent q.1.session) e
      (enter-IsCoherent env a s advances h)
Step-IsCoherent env a s advances (acts action observation r s' e) h =
    subst (λ (q : Result (Unit {0}) × Scope). IsCoherent q.1.session) e
      (act-IsCoherent a action observation s h)
Step-IsCoherent env a s advances (leaves failed_body r s' e) h =
    subst (λ (q : Result (Unit {0}) × Scope). IsCoherent q.1.session) e
      (exit-IsCoherent env failed_body s)
Step-IsCoherent env a s advances (executes part v observation r s' e) h =
    subst (λ (q : Result PlanExecution × Scope). IsCoherent q.1.session) e
      (execute-IsCoherent env a part v observation s h)
Step-IsCoherent env a s advances (waits delay t w s' p e) h =
    rw e (wait_period-IsCoherent s.session s.world.now p h)
Step-IsCoherent env a s advances (elsewhere w s' e) h = rw e h

-- Where the clock advances, and however often a session was entered, acted, executed plans, waited
-- for its period and was left since it was coherent, while other code changed the world, it is
-- coherent: its command client holds the lease of the session or none, none outside the scope, and
-- publishes only to endpoints that this lease binds.
pub Reach-IsCoherent :
    (env : Environment) (a : Agent) (s : Scope) {t : Scope}
    → Advances env
    → IsCoherent s.session
    → Reach env a s t
    → IsCoherent t.session
Reach-IsCoherent env a s advances h here = h
Reach-IsCoherent env a s advances h (next r st) =
    Step-IsCoherent env a _ advances st (Reach-IsCoherent env a s advances h r)
