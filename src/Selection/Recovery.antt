-- ===== src/Selection/Recovery.antt =====
-- `clear_fault` of selection.py.
use physical_ai_runtime.Common.{
  Bool, Bool-cases, Dict, List, Result, Result-cases, String, [], ap, arith, false, inl, inr,
  is_empty, ok, refl, sym, true, ◌∙◌, ◌∷◌, ◌≡◌,
}
use physical_ai_runtime.Authority.{Allocation, LeaseGrant, SourceRole}
use physical_ai_runtime.World.{Environment, World, pause, release_request, rounds}
use physical_ai_runtime.World.Clock.{
  SameButCache, SameButCache-refl, SameButCache-trans, pause-SameButCache,
}
use physical_ai_runtime.Waiting.{Wait, expired, ready, stuck, wait_state}
use physical_ai_runtime.Waiting.Bounds.{wait_loop-keeps}
use physical_ai_runtime.Selection.{
  RoleSpec, await_cleared, call_release, claim, claim_of, clear_fault, clear_reason, clear_targets,
  fault_targets, get_allocations, latest, parse_role, release,
}
use physical_ai_runtime.Selection.Claims.{Sent, call_release-Sent, claim-Claimed}

-- What a `clear_fault` that returns has sent: nothing, if there was no target; otherwise one
-- preempting claim of the targets, and then the release of the lease that it was granted.
pub data Cleared (env : Environment) (spec : RoleSpec) (source_instance : String)
    (targets : Dict String) (w w' : World) : Type 0 where
  no_target : targets ≡ [] → w' ≡ w → Cleared env spec source_instance targets w w'
  claimed :
      (r : SourceRole) (g : LeaseGrant)
      → parse_role env.role_code spec ≡ ok r
      → (claim env spec source_instance targets true clear_reason w).0 ≡ ok g
      → w'.requests
        ≡ release_request g.lease_id
          ∷ claim_of env r source_instance targets true clear_reason
          ∷ w.requests
      → w'.outbox ≡ w.outbox
      → Cleared env spec source_instance targets w w'

pub latest-state : (r : Wait World) → (latest r).1 ≡ wait_state r
latest-state (ready w) = refl
latest-state (expired w) = refl
latest-state (stuck w) = refl

await_cleared-SameButCache :
    (env : Environment) (source_instance : String) (targets : Dict String) (w : World)
    → SameButCache w (await_cleared env source_instance targets w).1
unfolding await_cleared
await_cleared-SameButCache env source_instance targets w = rw latest-state (
    wait_loop-keeps (SameButCache w) _ _ (pause env)
      (λ t h. SameButCache-trans h (pause-SameButCache env t)) (rounds w.client.timeout) w
      (SameButCache-refl w))

-- A release that leaves the process is the service call.
pub release_state :
    (env : Environment) (l : String) (w : World)
    → (release env l w).0 ≡ ok tt
    → (release env l w).1 ≡ (call_release env l w).1
unfolding release
release_state env l w h = ground arith

pub release-Sent :
    (env : Environment) (l : String) (w : World)
    → (release env l w).0 ≡ ok tt
    → Sent (release_request l ∷ []) w (release env l w).1
release-Sent env l w h = rw (release_state env l w h) (call_release-Sent env l w)

clear_targets-steps :
    (env : Environment) (spec : RoleSpec) (source_instance : String) (targets : Dict String)
    (w : World) {snapshot : Dict Allocation}
    → (clear_targets env spec source_instance targets w).0 ≡ ok snapshot
    → (g : LeaseGrant) × (let c = claim env spec source_instance targets true clear_reason w in
        let r = release env g.lease_id c.1 in
        (c.0 ≡ ok g)
        × (r.0 ≡ ok tt)
        × ((clear_targets env spec source_instance targets w).1
            ≡ (await_cleared env source_instance targets r.1).1))
unfolding clear_targets
clear_targets-steps env spec source_instance targets w h =
    let c = claim env spec source_instance targets true clear_reason w in
    elim (Result-cases c.0) [
      | inl (g, p) ↦ elim (Result-cases (release env g.lease_id c.1).0) [
        | inl (u, q) ↦ (g, (p, q, ground arith))
        | inr (e, q) ↦ absurd (ground arith)
      ]
      | inr (e, p) ↦ absurd (ground arith)
    ]

clear_targets-Cleared :
    (env : Environment) (spec : RoleSpec) (source_instance : String) (targets : Dict String)
    (w : World) {snapshot : Dict Allocation}
    → (clear_targets env spec source_instance targets w).0 ≡ ok snapshot
    → Cleared env spec source_instance targets w
        (clear_targets env spec source_instance targets w).1
clear_targets-Cleared env spec source_instance targets w h =
    let (g, steps) = clear_targets-steps env spec source_instance targets w h in
    let (p, q, e) = steps in
    let c = claim env spec source_instance targets true clear_reason w in
    let first =
      claim-Claimed env spec source_instance targets true clear_reason w {g = g} {w' = c.1}
        (λ i. (p i, c.1)) in
    let second = release-Sent env g.lease_id c.1 q in
    let last =
      await_cleared-SameButCache env source_instance targets (release env g.lease_id c.1).1 in
    claimed first.role_of g first.parsed p
      (rw e (
        last.requests
        ∙ second.requests
        ∙ ap (λ l. release_request g.lease_id ∷ l) first.sent.requests))
      (rw e (last.outbox ∙ second.outbox ∙ first.sent.outbox))

pub is_empty-eq-nil : {A : Type 0} (xs : List A) → is_empty xs ≡ true → xs ≡ []
is_empty-eq-nil [] h = refl
is_empty-eq-nil (x ∷ xs) h = cc

module _ (env : Environment) (resources : Dict String) (spec : RoleSpec) (source_instance : String)
    (force : Bool) (w : World) {snapshot : Dict Allocation}
    (returned : (clear_fault env resources spec source_instance force w).0 ≡ ok snapshot) where
  clear_fault_nothing :
      is_empty (fault_targets force resources (get_allocations w)) ≡ true
      → (clear_fault env resources spec source_instance force w).1 ≡ w
  unfolding clear_fault
  clear_fault_nothing h = ground arith

  clear_fault_targets :
      is_empty (fault_targets force resources (get_allocations w)) ≡ false
      → clear_fault env resources spec source_instance force w
        ≡ clear_targets env spec source_instance
            (fault_targets force resources (get_allocations w))
            w
  unfolding clear_fault
  clear_fault_targets h = ground arith

  -- A `clear_fault` that returns has claimed exactly its targets, by preemption, and then released
  -- the lease that it was granted; without targets it has changed nothing. Unless forced, the
  -- targets are the requested resources that the status shows in FAULT.
  pub clear_fault-Cleared :
      Cleared env spec source_instance
        (fault_targets force resources (get_allocations w))
        w
        (clear_fault env resources spec source_instance force w).1
  clear_fault-Cleared =
      let targets = fault_targets force resources (get_allocations w) in
      elim (Bool-cases (is_empty targets)) [
        | inl nothing_to_do ↦
            no_target (is_empty-eq-nil targets nothing_to_do) (clear_fault_nothing nothing_to_do)
        | inr some_targets ↦
            let e = clear_fault_targets some_targets in
            rw e (
              clear_targets-Cleared env spec source_instance targets w
                (sym (ap (λ (r : Result (Dict Allocation) × World). r.0) e) ∙ returned))
      ]
