-- ===== src/Config/Agents.antt =====
-- `_agents` of config.py: the agents of a profile and the commands that their parts offer.
use physical_ai_runtime.Common.Try.{refuse_if, ◌>>=◌, ◌>>◌}
use physical_ai_runtime.Common.{
  Bool, Dict, List, Option, Result, String, [], any_of, err, false, has_key, has_name,
  if◌then◌else◌, is_empty, leb_ℤ, lookup, none, not, ok, pos, pos_part, some, value_error, values,
  ℤ, ◌&&◌, ◌*◌, ◌==◌, ◌||◌, ◌∷◌,
}
use physical_ai_runtime.Config.{
  Json, PartConfig, as_mapping, as_string, decimal, get, integer, null, traverse_dict,
}

-- AgentConfig
pub record AgentConfig : Type 0 where
  pub name : String
  pub source_role : String
  pub resources : Dict String
  pub frequency : Option ℤ

-- Whether a part has a topic of this name, or a trajectory action for "joint_trajectory".
unfoldable pub is_available : String → PartConfig → Bool
is_available command p =
    let controllers = values p.controllers in
    any_of (λ c. has_key command c.ros_topics) controllers
    || (command == "joint_trajectory"
        && any_of (λ c. has_key "follow_joint_trajectory" c.ros_actions) controllers)

-- Whether a part exists and has the command.
unfoldable pub offers : Dict PartConfig → String → String → Bool
offers parts resource command = elim (lookup resource parts) [
  | none ↦ false
  | some p ↦ is_available command p
]

unfoldable pub as_resource : Dict PartConfig → String → Json → Result String
as_resource parts resource v = do
  command ← as_string v
  refuse_if (not (offers parts resource command)) value_error
  ok command

-- A frequency in 10^-9, if one is given: a number above 0, and no Boolean.
unfoldable pub as_frequency : Json → Result (Option ℤ)
as_frequency null = ok none
as_frequency (integer n) =
    if leb_ℤ n (pos 0) then err value_error else ok (some (pos (pos_part n * 1000000000)))
as_frequency (decimal t) = if leb_ℤ t (pos 0) then err value_error else ok (some t)
as_frequency _ = err value_error

abbrev pub source_roles : List String
source_roles = "POLICY" ∷ "TELEOP" ∷ "PLANNER" ∷ []

-- `upper` is `str.upper`.
unfoldable pub as_agent : (String → String) → Dict PartConfig → String → Json → Result AgentConfig
as_agent upper parts name v = do
  d ← as_mapping v
  given ← as_string (get "source_role" d)
  refuse_if (not (has_name (upper given) source_roles)) value_error
  raw ← as_mapping (get "resources" d)
  refuse_if (is_empty raw) value_error
  resources ← traverse_dict (as_resource parts) raw
  frequency ← as_frequency (get "frequency" d)
  ok (record {
    name = name;
    source_role = upper given;
    resources = resources;
    frequency = frequency;
  })

unfoldable pub as_agents : (String → String) → Json → Dict PartConfig → Result (Dict AgentConfig)
as_agents upper v parts = as_mapping v >>= traverse_dict (as_agent upper parts)
