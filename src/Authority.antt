-- ===== src/Authority.antt =====
-- The data of the authority protocol between the RMI and the Execution Manager:
-- src/interfaces/rmi/rmi/selection.py, its messages and its snapshot.
use physical_ai_runtime.Common.{
  Bool, Dict, List, Option, String, [], eqb, false, if◌then◌else◌, lookup, none, some, true, ℕ,
  ◌&&◌, ◌==◌, ◌∷◌,
}

-- ResourceAuthority.authority_state; `other_state` is any further number that a message may hold
pub data AuthorityState : Type 0 where
  unowned transitioning owned fault : AuthorityState
  other_state : ℕ → AuthorityState

pub data SourceRole : Type 0 where
  policy teleop planner : SourceRole

-- AuthorityEvent.type
pub data EventType : Type 0 where
  preempted : EventType
  other_event : ℕ → EventType

pub record AuthorityEvent : Type 0 where
  pub type : EventType
  pub lease_id : String

-- One entry of the cache `_allocations`.
pub record Allocation : Type 0 where
  pub authority_state : AuthorityState
  pub lease_id : String
  pub source_role : ℕ
  pub source_instance : String
  pub command_contract : String
  pub requested_controller : String
  pub observed_controllers : List String

-- An AuthorityStatus message: its resources, and their names.
abbrev pub AuthorityStatus : Type 0
AuthorityStatus = List (String × Allocation)

pub record EndpointBinding : Type 0 where
  pub resource : String
  pub command_contract : String
  pub endpoint : String
  pub is_action : Bool

-- The dictionary of bindings by (resource, command contract); a binding holds its own key.
abbrev pub Bindings : Type 0
Bindings = List EndpointBinding

pub record LeaseGrant : Type 0 where
  pub lease_id : String
  pub endpoints : Bindings

unfoldable pub has_binding_key : String → String → EndpointBinding → Bool
has_binding_key part command b = b.resource == part && b.command_contract == command

unfoldable pub find_binding : String → String → Bindings → Option EndpointBinding
find_binding part command [] = none
find_binding part command (b ∷ bs) =
    if has_binding_key part command b then some b else find_binding part command bs

unfoldable pub put_binding : EndpointBinding → Bindings → Bindings
put_binding b [] = b ∷ []
put_binding b (c ∷ bs) =
    if has_binding_key b.resource b.command_contract c then b ∷ bs else c ∷ put_binding b bs

-- The dict comprehension over `response.endpoints`: the last of two items with one key stays.
unfoldable pub bind_endpoints : List EndpointBinding → Bindings → Bindings
bind_endpoints [] acc = acc
bind_endpoints (b ∷ bs) acc = bind_endpoints bs (put_binding b acc)

unfoldable pub is_state : AuthorityState → AuthorityState → Bool
is_state unowned unowned = true
is_state transitioning transitioning = true
is_state owned owned = true
is_state fault fault = true
is_state (other_state n) (other_state m) = eqb n m
is_state _ _ = false

-- AuthoritySnapshot: the resources in a given state, in the order of the status.
unfoldable pub in_state : AuthorityState → Dict Allocation → List String
unfolding is_state
in_state s [] = []
in_state s ((name, a) ∷ d) =
    let rest = in_state s d in if is_state a.authority_state s then name ∷ rest else rest

unfoldable pub faults : Dict Allocation → List String
unfolding in_state
faults = in_state fault

unfoldable pub owned_resources : Dict Allocation → List String
unfolding in_state
owned_resources = in_state owned

unfoldable pub unowned_resources : Dict Allocation → List String
unfolding in_state
unowned_resources = in_state unowned

abbrev name_of : AuthorityState → String
name_of unowned = "UNOWNED"
name_of transitioning = "TRANSITIONING"
name_of owned = "OWNED"
name_of fault = "FAULT"
name_of (other_state n) = "UNKNOWN"

unfoldable pub state_name : String → Dict Allocation → String
state_name resource d = elim (lookup resource d) [
  | none ↦ "UNKNOWN"
  | some a ↦ name_of a.authority_state
]
