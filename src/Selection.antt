-- ===== src/Selection.antt =====
-- src/interfaces/rmi/rmi/selection.py: the client of the Execution Manager. Its proofs are in the
-- child modules.
pub mod Claims
pub mod Status
pub mod Recovery
use physical_ai_runtime.Common.{
  Bool, Dict, Exec, List, Option, Result, String, [], all_of, any_of, eqb, err, false, gets,
  if◌then◌else◌, is_empty, is_past, is_some, keep, lift, lookup, ltb, ltb_ℤ, neg_part, none, not,
  ok, pos, pos_part, pure, raise_if, runtime_error, some, stuck_error, true, unavailable_error,
  value_error, ℕ, ℤ, ◌&&◌, ◌+◌, ◌==◌, ◌>>=◌, ◌>>◌, ◌||◌, ◌∷◌,
}
use physical_ai_runtime.Waiting.{Wait, expired, ready, stuck, wait_loop}
use physical_ai_runtime.Authority.{
  Allocation, AuthorityEvent, Bindings, LeaseGrant, SourceRole, bind_endpoints, fault, find_binding,
  is_state, owned, planner, policy, teleop,
}
use physical_ai_runtime.World.{
  ClaimResponse, Environment, ManagerClient, Request, World, claim_request, pause, release_request,
  rounds, send_request, wait_future,
}

-- What SourceRole.parse takes: a member, a text that is stripped and upper-cased already, a number.
pub data RoleSpec : Type 0 where
  role : SourceRole → RoleSpec
  text : String → RoleSpec
  number : ℕ → RoleSpec

unfoldable pub parse_role : (SourceRole → ℕ) → RoleSpec → Result SourceRole
parse_role code (role r) = ok r
parse_role code (text s) =
    if s == "POLICY"
    then ok policy
    else if s == "TELEOP"
    then ok teleop
    else if s == "PLANNER"
    then ok planner
    else err value_error
parse_role code (number n) =
    if eqb n (code policy)
    then ok policy
    else if eqb n (code teleop)
    then ok teleop
    else if eqb n (code planner)
    then ok planner
    else err value_error

abbrev is_positive : ℤ → Bool
is_positive t = ltb_ℤ (pos 0) t

-- ExecutionManagerClient.__init__
unfoldable pub init_client : ℤ → ℤ → Result ManagerClient
init_client timeout status_timeout =
    if not (is_positive timeout)
    then err value_error
    else if not (is_positive status_timeout)
    then err value_error
    else ok (record {
      timeout = timeout;
      status_timeout = status_timeout;
      last_status = none;
      allocations = [];
      events = [];
    })

-- The timeout is the client's own where none is given.
unfoldable pub require_execution_manager : Environment → Option ℤ → Exec World (Unit {0})
require_execution_manager env timeout w =
    let t : ℤ = elim timeout [ none ↦ w.client.timeout | some t ↦ t ] in
    if not (is_positive t)
    then (err value_error, w)
    else if env.service_up w.now
    then (ok tt, w)
    else (err unavailable_error, w)

-- `set(bindings) == {(name, contract) ...}`
unfoldable pub is_complete : Dict String → Bindings → Bool
unfolding find_binding
is_complete resources bs =
    all_of (λ r. is_some (find_binding r.0 r.1 bs)) resources
    && all_of
        (λ b. elim (lookup b.resource resources) [
          | none ↦ false
          | some c ↦ c == b.command_contract
        ])
        bs

-- The end of `claim`: the response is checked, and its bindings must be those that were asked for.
unfoldable pub accept_claim : Dict String → Option ClaimResponse → Result LeaseGrant
accept_claim resources none = err runtime_error
accept_claim resources (some r) =
    let bs = bind_endpoints r.endpoints [] in
    if not r.success
    then err runtime_error
    else if not (is_complete resources bs)
    then err runtime_error
    else ok (record { lease_id = r.lease_id; endpoints = bs })

-- The request of `claim`.
abbrev pub claim_of : Environment → SourceRole → String → Dict String → Bool → Dict String → Request
claim_of env r source_instance resources preempt metadata =
    claim_request (env.role_code r) source_instance resources preempt metadata

-- The service call: the request leaves, and the future is awaited.
unfoldable pub call_claim : Environment → Request → Exec World (Option ClaimResponse)
call_claim env request w =
    let w' = send_request request w in
    wait_future env w.client.timeout (env.claim_reply w'.requests) w'

unfoldable pub claim :
    Environment → RoleSpec → String → Dict String → Bool → Dict String → Exec World LeaseGrant
claim env spec source_instance resources preempt metadata = do
  raise_if (source_instance == "") value_error
  raise_if (is_empty resources) value_error
  require_execution_manager env none
  r ← lift (parse_role env.role_code spec)
  response ← call_claim env (claim_of env r source_instance resources preempt metadata)
  lift (accept_claim resources response)

abbrev accept_release : Option Bool → Result (Unit {0})
accept_release none = err runtime_error
accept_release (some true) = ok tt
accept_release (some false) = err runtime_error

unfoldable pub call_release : Environment → String → Exec World (Option Bool)
call_release env lease_id w =
    let w' = send_request (release_request lease_id) w in
    wait_future env w.client.timeout (env.release_reply w'.requests) w'

unfoldable pub release : Environment → String → Exec World (Unit {0})
release env lease_id = do
  raise_if (lease_id == "") value_error
  up ← gets (λ w. env.service_up w.now)
  raise_if (not up) unavailable_error
  response ← call_release env lease_id
  lift (accept_release response)

-- No status, or one that is older than the status timeout.
unfoldable pub is_stale : World → Bool
is_stale w = elim w.client.last_status [
  | none ↦ true
  | some t ↦ ltb (t + pos_part w.client.status_timeout) (w.now + neg_part w.client.status_timeout)
]

-- `get_allocations`, and `describe_authority`, which wraps it
unfoldable pub get_allocations : World → Dict Allocation
unfolding is_stale
get_allocations w = if is_stale w then [] else w.client.allocations

unfoldable pub get_events : Option String → World → List AuthorityEvent
get_events none w = w.client.events
get_events (some lease_id) w = keep (λ (e : AuthorityEvent). e.lease_id == lease_id) w.client.events

unfoldable pub is_faulted : Dict Allocation → String → Bool
unfolding is_state
is_faulted snapshot name = elim (lookup name snapshot) [
  | none ↦ false
  | some a ↦ is_state a.authority_state fault
]

-- The resources that `clear_fault` claims.
unfoldable pub fault_targets : Bool → Dict String → Dict Allocation → Dict String
unfolding is_faulted
fault_targets force resources snapshot =
    if force then resources else keep (λ r. is_faulted snapshot r.0) resources

-- Whether the loop of `clear_fault` goes on: a target is in FAULT, or owned by the clearing source.
unfoldable pub is_pending : String → Dict Allocation → Dict String → Bool
unfolding is_state
is_pending source_instance snapshot targets =
    any_of
      (λ t. elim (lookup t.0 snapshot) [
        | none ↦ false
        | some a ↦
            is_state a.authority_state fault
            || (is_state a.authority_state owned && a.source_instance == source_instance)
      ])
      targets

-- The snapshot after the wait, whichever way it ended.
abbrev pub latest : Wait World → Result (Dict Allocation) × World
latest (ready w) = (ok (get_allocations w), w)
latest (expired w) = (ok (get_allocations w), w)
latest (stuck w) = (err stuck_error, w)

unfoldable pub await_cleared : Environment → String → Dict String → Exec World (Dict Allocation)
await_cleared env source_instance targets w = latest (
    wait_loop (rounds w.client.timeout)
      (λ v. not (is_pending source_instance (get_allocations v) targets))
      (λ v. is_past w.now w.client.timeout v.now) (pause env) w)

abbrev pub clear_reason : Dict String
clear_reason = ("reason", "clear_fault") ∷ []

unfoldable pub clear_targets :
    Environment → RoleSpec → String → Dict String → Exec World (Dict Allocation)
clear_targets env spec source_instance targets = do
  grant ← claim env spec source_instance targets true clear_reason
  release env grant.lease_id
  await_cleared env source_instance targets

unfoldable pub clear_fault :
    Environment → Dict String → RoleSpec → String → Bool → Exec World (Dict Allocation)
clear_fault env resources spec source_instance force = do
  raise_if (is_empty resources) value_error
  raise_if (source_instance == "") value_error
  snapshot ← gets get_allocations
  let targets = fault_targets force resources snapshot
  if is_empty targets then pure snapshot else clear_targets env spec source_instance targets
