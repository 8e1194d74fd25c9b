-- ===== src/Session/Leaving.antt =====
-- `Session.__exit__`, and the clean-up that it shares with a failed entry.
use mathlib.Core.Path.{subst}
use physical_ai_runtime.Common.{
  Bool, Bool-cases, Error, List, Option, Option-cases, Result, String, ap, arith, bind-ok, false,
  inl, inr, lift, none, ok, refl, some, sym, true, ℕ, ◌∙◌, ◌∷◌, ◌≡◌,
}
use physical_ai_runtime.World.{Environment, World, release_request}
use physical_ai_runtime.Selection.{release}
use physical_ai_runtime.Selection.Claims.{call_release-Sent}
use physical_ai_runtime.Provider.{unbind}
use physical_ai_runtime.Provider.Sending.{unbind-IsLinked}
use physical_ai_runtime.Session.{
  Scope, Session, held_lease, is_explicitly_displaced, pop_control, release_claim,
}
use physical_ai_runtime.Session.Calls.{count_displaced, exit, leave, raise_release, settle_lease}
use physical_ai_runtime.Session.Acting.{IsCoherent}

-- The session after a clean-up that could pop it.
abbrev pub left : Session → Session
left s = record s { commands = unbind s.commands; entered = false }

pub leave_top :
    (s : Scope) (rest : List ℕ)
    → s.world.stack ≡ s.session.id ∷ rest
    → leave s
      ≡ (ok tt, record { session = left s.session; world = record s.world { stack = rest } })
unfolding leave pop_control
leave_top s rest h = ground arith

pub left-IsCoherent : (s : Session) → IsCoherent (left s)
unfolding unbind
left-IsCoherent s = record {
  linked = unbind-IsLinked s.commands;
  leased = λ h. cc;
  unbound = λ _. refl;
}

-- A release changes the requests, the clock and the cache.
pub release-Kept :
    (env : Environment) (l : String) (w : World)
    → ((release env l w).1.stack ≡ w.stack) × ((release env l w).1.outbox ≡ w.outbox)
unfolding release
release-Kept env l w = ground (arith, call_release-Sent env l w)

pub release_claim-Kept :
    (env : Environment) (s : Session) (w : World)
    → ((release_claim env s w).1.stack ≡ w.stack) × ((release_claim env s w).1.outbox ≡ w.outbox)
unfolding release_claim
release_claim-Kept env s w = elim (Option-cases (held_lease s)) [
  | inl h ↦ ground arith
  | inr (l, h) ↦ ground (arith, release-Kept env l w)
]

-- The release names exactly the lease that is held, and leaves if the service is up.
pub requests-release_claim :
    (env : Environment) (s : Session) (w : World) {l : String}
    → held_lease s ≡ some l
    → env.service_up w.now ≡ true
    → (release_claim env s w).1.requests ≡ release_request l ∷ w.requests
unfolding release_claim release
requests-release_claim env s w {l} h up = ground (arith, call_release-Sent env l w)

settle_displaced :
    (env : Environment) (s : Scope)
    → is_explicitly_displaced s.session s.world ≡ true
    → settle_lease env s ≡ (none, record s { session = count_displaced s.session })
unfolding settle_lease
settle_displaced env s h = rw (h, settle_lease)

settle_released :
    (env : Environment) (s : Scope)
    → is_explicitly_displaced s.session s.world ≡ false
    → let (e, w) = release_claim env s.session s.world in
      settle_lease env s ≡ (e, record s { world = w })
unfolding settle_lease
settle_released env s h = rw (h, settle_lease)

-- What every settlement leaves alone.
settle_lease-Kept :
    (env : Environment) (s : Scope)
    → let s' = (settle_lease env s).1 in
      (s'.world.stack ≡ s.world.stack)
      × (s'.world.outbox ≡ s.world.outbox)
      × (s'.session.id ≡ s.session.id)
settle_lease-Kept env s = elim (Bool-cases (is_explicitly_displaced s.session s.world)) [
  | inl h ↦ rw (settle_displaced env s h) (refl, refl, refl)
  | inr h ↦
      let kept = release_claim-Kept env s.session s.world in
      rw (settle_released env s h) (kept.0, kept.1, refl)
]

-- How a scope that is on the top of the control stack is left.
pub record Exited (env : Environment) (failed_body : Bool) (rest : List ℕ) (s : Scope)
    (r : Result (Unit {0}) × Scope) : Type 0 where
  pub stack : r.1.world.stack ≡ rest
  pub outbox : r.1.world.outbox ≡ s.world.outbox
  pub entered : r.1.session.entered ≡ false
  pub coherent : IsCoherent r.1.session
  pub displaced :
      is_explicitly_displaced s.session s.world ≡ true
      → (r.0 ≡ ok tt) × (r.1.world.requests ≡ s.world.requests)
  pub released :
      {l : String}
      → is_explicitly_displaced s.session s.world ≡ false
      → held_lease s.session ≡ some l
      → env.service_up s.world.now ≡ true
      → r.1.world.requests ≡ release_request l ∷ s.world.requests
  pub quiet : failed_body ≡ true → r.0 ≡ ok tt

raise_release-quiet : (b : Bool) (e : Option Error) → b ≡ true → raise_release b e ≡ ok tt
raise_release-quiet b e h = ground arith

module _ (env : Environment) (failed_body : Bool) (rest : List ℕ) (s : Scope)
    (top : s.world.stack ≡ s.session.id ∷ rest) where
  -- The scope that the settlement leaves, popped.
  abbrev closed : Scope → Scope
  closed t = record { session = left t.session; world = record t.world { stack = rest } }

  exit-closed :
      let (e, t) = settle_lease env s in
      exit env failed_body s ≡ (raise_release failed_body e, closed t)
  unfolding exit
  exit-closed =
      let (e, t) = settle_lease env s in
      let (kept, sent, same) = settle_lease-Kept env s in
      let l = leave_top t rest (kept ∙ top ∙ ap (λ i. i ∷ rest) (sym same)) in
      bind-ok leave (λ _. lift (raise_release failed_body e)) t
        (ap (λ (r : Result (Unit {0}) × Scope). r.0) l)
      ∙ ap (λ (r : Result (Unit {0}) × Scope). (raise_release failed_body e, r.1)) l

  -- Leaving a scope that is on the top of the control stack pops it, unbinds its command client and
  -- sends no command. A displaced session releases nothing and leaves without an exception; another
  -- one, with the service up, releases exactly its own lease. Where the body has raised, the exit
  -- raises nothing of its own.
  pub exit-Exited : Exited env failed_body rest s (exit env failed_body s)
  exit-Exited =
      let (e, t) = settle_lease env s in
      subst (Exited env failed_body rest s) (sym exit-closed) (record {
        stack = refl;
        outbox = (settle_lease-Kept env s).1;
        entered = refl;
        coherent = left-IsCoherent t.session;
        displaced = λ h. rw (settle_displaced env s h) (refl, refl);
        released = λ {l} h held up.
            rw (settle_released env s h) (requests-release_claim env s.session s.world held up);
        quiet = λ h. raise_release-quiet failed_body e h;
      })
