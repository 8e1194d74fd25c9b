-- ===== src/Selection/Claims.antt =====
-- `claim` and `release` of selection.py: what they give and send.
use mathlib.Core.Path.{subst}
use physical_ai_runtime.Common.{
  Bool, Dict, List, Option, Result, Result-cases, String, [], all_of, and_left, and_right, ap,
  arith, eq_iff, err, false, get_elem?, inl, inr, is_past, is_some, lookup, none, ok, some, suc,
  timeout_error, true, zero, ℕ, ℤ, ◌++◌, ◌==◌, ◌∷◌, ◌≡◌,
}
use physical_ai_runtime.Waiting.{Future, Wait, expired, ready, stuck}
use physical_ai_runtime.Waiting.Bounds.{Ends}
use physical_ai_runtime.Authority.{Bindings, EndpointBinding, LeaseGrant, SourceRole, find_binding}
use physical_ai_runtime.World.{
  ClaimResponse, Environment, Request, World, finish_wait, release_request, send_request,
  wait_future,
}
use physical_ai_runtime.World.Clock.{Advances, Since, wait-Ends, wait_future-SameButCache}
use physical_ai_runtime.Selection.{
  RoleSpec, accept_claim, call_claim, call_release, claim, claim_of, is_complete, parse_role,
  require_execution_manager,
}

-- How a service call ended: with the outcome of its future, or with a timeout once the future was
-- still open at the deadline.
pub data CallEnds {A : Type 0} (w : World) (timeout : ℤ) (future : Future A)
    : Result A × World → Type 0 where
  answered :
      (t : World)
      → Since w t
      → future.done_at t.now ≡ true
      → CallEnds w timeout future (future.outcome, t)
  timed_out :
      (t : World)
      → Since w t
      → future.done_at t.now ≡ false
      → is_past w.now timeout t.now ≡ true
      → CallEnds w timeout future (err timeout_error, t)

finish_wait-CallEnds :
    {A : Type 0} (w : World) (timeout : ℤ) (future : Future A) (r : Wait World)
    → Ends
        (λ t. Since w t × (future.done_at t.now ≡ true))
        (λ t. Since w t × (future.done_at t.now ≡ false) × (is_past w.now timeout t.now ≡ true))
        r
    → CallEnds w timeout future (finish_wait future.outcome r)
finish_wait-CallEnds w timeout future (ready t) h = answered t h.0 h.1
finish_wait-CallEnds w timeout future (expired t) h = timed_out t h.0 h.1 h.2
finish_wait-CallEnds w timeout future (stuck t) h = absurd h

-- Where the clock advances, every wait for a future ends: either the future is done and the result
-- is its outcome, or the deadline has passed and the result is a timeout. Only the cache changed.
pub wait_future-CallEnds :
    {A : Type 0} (env : Environment) (timeout : ℤ) (future : Future A) (w : World)
    → Advances env
    → CallEnds w timeout future (wait_future env timeout future w)
unfolding wait_future
wait_future-CallEnds env timeout future w advances =
    finish_wait-CallEnds w timeout future _
      (wait-Ends env advances (λ v. future.done_at v.now) w timeout)

-- The keys of a dictionary of bindings.
has_binding : String → String → Bindings → Bool
unfolding find_binding
has_binding part command bs = is_some (find_binding part command bs)

all_of-mem :
    {A : Type 0} (p : A → Bool) (xs : List A) (i : ℕ) {x : A}
    → all_of p xs ≡ true
    → get_elem? xs i ≡ some x
    → p x ≡ true
all_of-mem p [] i h e = cc
all_of-mem p (y ∷ ys) zero h e = ground arith
all_of-mem p (y ∷ ys) (suc i) h e = all_of-mem p ys i (ground arith) e

-- The grant of an accepted claim is exact: every (resource, contract) pair that was asked for has
-- a binding, and every binding is for a pair that was asked for.
pub record IsExact (resources : Dict String) (bs : Bindings) : Type 0 where
  pub bound :
      (i : ℕ) (part command : String)
      → get_elem? resources i ≡ some (part, command)
      → is_some (find_binding part command bs) ≡ true
  pub asked :
      (i : ℕ) (b : EndpointBinding)
      → get_elem? bs i ≡ some b
      → lookup b.resource resources ≡ some b.command_contract

asked_one :
    (b : EndpointBinding) (o : Option String)
    → Path Bool (elim o [ none ↦ false | some c ↦ c == b.command_contract ]) true
    → o ≡ some b.command_contract
asked_one b none p = cc
asked_one b (some c) p = ap some ((eq_iff c b.command_contract).0 p)

is_complete-IsExact :
    (resources : Dict String) (bs : Bindings)
    → is_complete resources bs ≡ true
    → IsExact resources bs
unfolding is_complete find_binding
is_complete-IsExact resources bs h = record {
  bound = λ i part command e. all_of-mem _ resources i (and_left _ _ h) e;
  asked =
      λ i b e. asked_one b (lookup b.resource resources) (all_of-mem _ bs i (and_right _ _ h) e);
}

accept_claim-eq-ok :
    (resources : Dict String) (r : Option ClaimResponse) (g : LeaseGrant)
    → accept_claim resources r ≡ ok g
    → is_complete resources g.endpoints ≡ true
unfolding accept_claim
accept_claim-eq-ok resources none g h = cc
accept_claim-eq-ok resources (some r) g h = ground arith

-- A world that differs by requests, and by the clock and the cache.
pub record Sent (new : List Request) (v w : World) : Type 0 where
  pub requests : w.requests ≡ new ++ v.requests
  pub outbox : w.outbox ≡ v.outbox
  pub stack : w.stack ≡ v.stack

pub call_claim-Sent :
    (env : Environment) (r : Request) (w : World) → Sent (r ∷ []) w (call_claim env r w).1
unfolding call_claim send_request
call_claim-Sent env r w =
    let h =
      wait_future-SameButCache env w.client.timeout (env.claim_reply (r ∷ w.requests))
        (send_request r w) in
    record { requests = h.requests; outbox = h.outbox; stack = h.stack }

pub call_release-Sent :
    (env : Environment) (l : String) (w : World)
    → Sent (release_request l ∷ []) w (call_release env l w).1
unfolding call_release send_request
call_release-Sent env l w =
    let h =
      wait_future-SameButCache env w.client.timeout
        (env.release_reply (release_request l ∷ w.requests)) (send_request (release_request l) w) in
    record { requests = h.requests; outbox = h.outbox; stack = h.stack }

-- What an accepted claim has done.
pub record Claimed (env : Environment) (spec : RoleSpec) (source_instance : String)
    (resources : Dict String) (preempt : Bool) (metadata : Dict String) (w : World) (g : LeaseGrant)
    (w' : World) : Type 0 where
  pub role_of : SourceRole
  pub parsed : parse_role env.role_code spec ≡ ok role_of
  pub sent : Sent (claim_of env role_of source_instance resources preempt metadata ∷ []) w w'
  pub exact : IsExact resources g.endpoints

-- The steps of a claim that returns.
claim_steps :
    (env : Environment) (spec : RoleSpec) (source_instance : String) (resources : Dict String)
    (preempt : Bool) (metadata : Dict String) (w : World) {g : LeaseGrant} {w' : World}
    → claim env spec source_instance resources preempt metadata w ≡ (ok g, w')
    → (r : SourceRole) × (response : Option ClaimResponse) × (parse_role env.role_code spec ≡ ok r)
      × ((call_claim env (claim_of env r source_instance resources preempt metadata) w).1 ≡ w')
      × (accept_claim resources response ≡ ok g)
unfolding claim require_execution_manager
claim_steps env spec source_instance resources preempt metadata w {g} {w'} h =
    elim (Result-cases (parse_role env.role_code spec)) [
      | inl (r, p) ↦
          let m = call_claim env (claim_of env r source_instance resources preempt metadata) w in
          elim (Result-cases m.0) [
            | inl (response, q) ↦ (r, response, p, ground arith, ground arith)
            | inr (e, q) ↦ absurd (ground arith)
          ]
      | inr (e, p) ↦ absurd (ground arith)
    ]

-- A claim that returns has sent one request, for exactly the resources, role, instance and preempt
-- flag that it was given, and its grant binds exactly those resources.
pub claim-Claimed :
    (env : Environment) (spec : RoleSpec) (source_instance : String) (resources : Dict String)
    (preempt : Bool) (metadata : Dict String) (w : World) {g : LeaseGrant} {w' : World}
    → claim env spec source_instance resources preempt metadata w ≡ (ok g, w')
    → Claimed env spec source_instance resources preempt metadata w g w'
claim-Claimed env spec source_instance resources preempt metadata w {g} {w'} h =
    let (r, response, p, q, a) =
      claim_steps env spec source_instance resources preempt metadata w h in
    record {
      role_of = r;
      parsed = p;
      sent =
          subst (Sent (claim_of env r source_instance resources preempt metadata ∷ []) w) q
            (call_claim-Sent env _ w);
      exact = is_complete-IsExact resources g.endpoints (accept_claim-eq-ok resources response g a);
    }
