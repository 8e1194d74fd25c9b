-- ===== src/Provider/Sending.antt =====
-- The binding of a command client in provider.py, and its publishers.
pub mod Deliveries
use mathlib.Core.Path.{subst₂}
use physical_ai_runtime.Common.{
  Dict, Option, String, [], ap, arith, eq_iff, false, none, ok, refl, some, sym, true, ℕ, ℤ, ◌++◌,
  ◌==◌, ◌∙◌, ◌∷◌, ◌≡◌, ◌⊎◌,
}
use physical_ai_runtime.Messages.{Payload, Value}
use physical_ai_runtime.Authority.{
  Bindings, EndpointBinding, LeaseGrant, find_binding, has_binding_key,
}
use physical_ai_runtime.Commands.{check_kind, is_invalid}
use physical_ai_runtime.Provider.{
  CommandClient, PartFrames, checked_payload, fork, new_client, payload_of, require_binding, unbind,
}

-- Every publisher that exists goes to the endpoint that the present lease binds, and there is none
-- without a lease.
pub record IsLinked (c : CommandClient) : Type 0 where
  pub bound :
      (part command : String) (p : EndpointBinding)
      → find_binding part command c.publishers ≡ some p
      → find_binding part command c.bindings ≡ some p
  pub idle : (c.lease_id == "") ≡ true → c.publishers ≡ []

pub find_binding-key :
    (part command : String) (bs : Bindings) {b : EndpointBinding}
    → find_binding part command bs ≡ some b
    → has_binding_key part command b ≡ true
unfolding find_binding
find_binding-key part command [] h = cc
find_binding-key part command (b ∷ bs) {b = x} h =
    ground (arith, find_binding-key part command bs {b = x})

pub find_binding-append_one :
    (part command : String) (bs : Bindings) (b : EndpointBinding) {p : EndpointBinding}
    → find_binding part command (bs ++ b ∷ []) ≡ some p
    → (find_binding part command bs ≡ some p) ⊎ ((has_binding_key part command b ≡ true) × (p ≡ b))
unfolding find_binding
find_binding-append_one part command [] b h = ground arith
find_binding-append_one part command (c ∷ bs) b {p = p} h =
    ground (arith, find_binding-append_one part command bs b {p = p})

-- Two keys that one binding has are one key.
pub has_binding_key_unique :
    (part command part' command' : String) (b : EndpointBinding)
    → has_binding_key part command b ≡ true
    → has_binding_key part' command' b ≡ true
    → (part ≡ part') × (command ≡ command')
unfolding has_binding_key
has_binding_key_unique part command part' command' b h h' = ground (
  arith,
  eq_iff b.resource part,
  eq_iff b.resource part',
  eq_iff b.command_contract command,
  eq_iff b.command_contract command',
)

new_client-IsLinked :
    (resources : Dict String) (profile : Option (Dict PartFrames)) (timeout : ℤ)
    → IsLinked (new_client resources profile timeout)
unfolding find_binding
new_client-IsLinked resources profile timeout = record {
  bound = λ part command p h. cc;
  idle = λ _. refl;
}

pub fork-IsLinked : (c : CommandClient) → IsLinked (fork c)
unfolding fork
fork-IsLinked c = new_client-IsLinked c.resources c.profile c.timeout

pub unbind-IsLinked : (c : CommandClient) → IsLinked (unbind c)
unfolding unbind find_binding
unbind-IsLinked c = record { bound = λ part command p h. cc; idle = λ _. refl }

-- The client that a grant is bound to.
abbrev pub bound_to : LeaseGrant → CommandClient → CommandClient
bound_to g c = record c { lease_id = g.lease_id; bindings = g.endpoints }

pub bind-IsLinked :
    (g : LeaseGrant) (c : CommandClient)
    → IsLinked c
    → (c.lease_id == "") ≡ true
    → IsLinked (bound_to g c)
unfolding find_binding
bind-IsLinked g c linked unbound =
    let no_publisher = linked.idle unbound in
    record {
      bound = λ part command p h.
          absurd (none_found (ap (find_binding part command) (sym no_publisher) ∙ h));
      idle = λ _. no_publisher;
    }
  where
    none_found : {p : EndpointBinding} → ◌≡◌ {A = Option EndpointBinding} none (some p) → ⊥
    none_found h = cc

pub require_binding-found :
    (c : CommandClient) (part command : String) {b : EndpointBinding}
    → require_binding c part command ≡ ok b
    → find_binding part command c.bindings ≡ some b
unfolding require_binding
require_binding-found c part command h = ground arith

pub require_binding-leased :
    (c : CommandClient) (part command : String) {b : EndpointBinding}
    → require_binding c part command ≡ ok b
    → (c.lease_id == "") ≡ true
    → ⊥
unfolding require_binding
require_binding-leased c part command h e = ground arith

pub checked_payload-parts :
    (c : CommandClient) (part command : String) (v : Value) (now : ℕ) {b : EndpointBinding}
    {p : Payload}
    → checked_payload c part command v now ≡ ok (b, p)
    → (require_binding c part command ≡ ok b)
      × (is_invalid v ≡ false)
      × (check_kind v command ≡ ok tt)
      × (payload_of c part command v now ≡ ok p)
unfolding checked_payload
checked_payload-parts c part command v now h = ground arith
