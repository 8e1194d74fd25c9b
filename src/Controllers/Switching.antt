-- ===== src/Controllers/Switching.antt =====
-- ControllerManagerClient of controllers.py: bounded switches, verified by a second listing. The
-- answers of the controller manager are arguments, in the order in which they are asked for.
pub mod Verified
use physical_ai_runtime.Common.{
  Bool, Dict, List, Option, Result, String, [], all_of, eqb, err, false, has_key, has_name,
  if◌then◌else◌, insert, is_empty, keep, lookup, ltb_ℤ, manager_error, map, none, not, ok, pos,
  some, true, value_error, ℕ, ℤ, ◌&&◌, ◌++◌, ◌==◌, ◌∷◌,
}

-- `list_controllers`: names and states.
abbrev pub Listing : Type 0
Listing = List (String × String)

pub record SwitchRequest : Type 0 where
  pub activate : List String
  pub deactivate : List String
  pub strict : Bool

-- What the manager answers: the listing before, the response to the switch, the listing after. Each
-- call may raise (a timeout, or the exception of its future).
pub record Manager : Type 0 where
  pub before : Result Listing
  pub switch : SwitchRequest → Result Bool
  pub after : Result Listing

-- `{controller.name: controller.state for controller in listed.controller}`: the last entry counts.
abbrev pub states_of : Listing → Dict String → Dict String
states_of [] d = d
states_of ((name, state) ∷ rest) d = states_of rest (insert name state d)

abbrev pub listed : Listing → String → Bool
listed l name = has_key name (states_of l [])

abbrev pub is_active : Dict String → String → Bool
is_active d name = elim (lookup name d) [ none ↦ false | some s ↦ s == "active" ]

-- The verification: what should be active and is not, then what should not be and is.
unfoldable pub invalid_names : List String → List String → Listing → List String
invalid_names activate deactivate l =
    let d = states_of l [] in
    keep (λ name. not (is_active d name)) activate ++ keep (λ name. is_active d name) deactivate

unfoldable pub verify_switch : List String → List String → Result Listing → Result (Unit {0})
verify_switch activate deactivate (err e) = err e
verify_switch activate deactivate (ok l) =
    if is_empty (invalid_names activate deactivate l) then ok tt else err manager_error

-- The request that leaves, if one does, comes back beside the result.
abbrev pub after_switch :
    Manager → SwitchRequest → Result Bool → Result (Unit {0}) × Option SwitchRequest
after_switch m r (err e) = (err e, some r)
after_switch m r (ok false) = (err manager_error, some r)
after_switch m r (ok true) = (verify_switch r.activate r.deactivate m.after, some r)

abbrev pub request_of : List String → List String → Bool → Listing → SwitchRequest
request_of activate deactivate strict l = record {
  activate = keep (listed l) activate;
  deactivate = keep (listed l) deactivate;
  strict = strict;
}

abbrev pub nothing_loaded : List String → Listing → Result (Unit {0})
nothing_loaded activate l =
    if is_empty (keep (λ name. not (listed l name)) activate) then err value_error else ok tt

abbrev pub with_listing :
    Manager
    → List String
    → List String
    → Bool
    → Result Listing
    → Result (Unit {0}) × Option SwitchRequest
with_listing m activate deactivate strict (err e) = (err e, none)
with_listing m activate deactivate strict (ok l) =
    let r = request_of activate deactivate strict l in
    if is_empty r.activate && is_empty r.deactivate
    then (nothing_loaded activate l, none)
    else after_switch m r (m.switch r)

unfoldable pub switch_controller :
    Manager → List String → List String → Bool → Result (Unit {0}) × Option SwitchRequest
switch_controller m activate deactivate strict =
    if is_empty activate && is_empty deactivate
    then (err value_error, none)
    else with_listing m activate deactivate strict m.before

-- `active_controllers`
unfoldable pub active_controllers : Listing → List String → List String
active_controllers [] candidates = []
active_controllers ((name, state) ∷ rest) candidates =
    let others = active_controllers rest candidates in
    if has_name name candidates && state == "active" then name ∷ others else others

-- `get_hardware_diagnostics`: the components that are not active; no client, a service that does
-- not come up and a call that raises all give no diagnostics.
unfoldable pub hardware_diagnostics : Option (Result Listing) → List String
hardware_diagnostics none = []
hardware_diagnostics (some (err e)) = []
hardware_diagnostics (some (ok l)) =
    map (λ c. c.0) (keep (λ (c : String × String). not (c.1 == "active")) l)

-- `controller_manager.rstrip("/")`, over the characters of the name, must leave something.
abbrev pub is_slash : ℕ → Bool
is_slash c = eqb c b'/'

unfoldable pub init_manager : ℤ → List ℕ → Result (Unit {0})
init_manager timeout name =
    if not (ltb_ℤ (pos 0) timeout)
    then err value_error
    else if all_of is_slash name
    then err value_error
    else ok tt
