-- ===== src/Config/Valid.antt =====
-- `EmbodimentConfig.from_dict` of config.py: the profiles that it accepts.
use physical_ai_runtime.Common.Try.{>>=-eq-ok, refuse_if, ◌>>=◌}
use physical_ai_runtime.Common.{
  Dict, List, Result, String, any_of, arith, err-ne-ok, false, has_key, has_name, is_empty, ok,
  ok-injective, true, type_error, value_error, values, ◌∙◌, ◌≡◌,
}
use physical_ai_runtime.Config.{
  Fields, Json, PartConfig, as_mapping, as_part, as_string, fields_of, get, get_or_empty, mapping,
  text_value, traverse_dict,
}
use physical_ai_runtime.Config.Loops.{All, traverse-All, traverse-is_empty, traverse_dict-All}
use physical_ai_runtime.Config.Parts.{IsPart, as_part-IsPart}
use physical_ai_runtime.Config.Agents.{
  AgentConfig, as_agent, as_agents, as_resource, offers, source_roles,
}
use physical_ai_runtime.Config.Profile.{
  EmbodimentConfig, Loader, as_group, as_groups, as_member, as_members, as_parts, bind_contract,
  bind_routing, from_dict, is_orphan, is_unhashable, with_parts,
}
use mathlib.Core.Path.{subst}

-- An agent that a program can start: its role is known, and each of its resources is a part that
-- offers the command.
pub record IsAgent (parts : Dict PartConfig) (e : String × AgentConfig) : Type 0 where
  pub name : e.1.name ≡ e.0
  pub source_role : has_name e.1.source_role source_roles ≡ true
  pub claims : is_empty e.1.resources ≡ false
  pub resources : All (λ (resource, command). offers parts resource command ≡ true) e.1.resources

as_resource-offers :
    (parts : Dict PartConfig) (resource : String) (v : Json) (command : String)
    → as_resource parts resource v ≡ ok command
    → offers parts resource command ≡ true
unfolding as_resource
as_resource-offers parts resource v command h = ground arith

filled_loop :
    {A B : Type 0} (f : String → A → Result B) (d : Dict A) {d' : Dict B}
    → (refuse_if (is_empty d) value_error >>= λ u. traverse_dict f d) ≡ ok d'
    → (is_empty d' ≡ false) × (traverse_dict f d ≡ ok d')
filled_loop f d {d' = d'} h =
    let (u, e1, e2) = >>=-eq-ok (refuse_if (is_empty d) value_error) (λ u. traverse_dict f d) h in
    (traverse-is_empty (λ (k, a). f k a >>= λ b. ok (k, b)) d d' e2 ∙ ground (arith, e1), e2)

as_agent-parts :
    (upper : String → String) (parts : Dict PartConfig) (name : String) (fs : Fields)
    (a : AgentConfig)
    → as_agent upper parts name (mapping fs) ≡ ok a
    → (a.name ≡ name)
      × (has_name a.source_role source_roles ≡ true)
      × (as_mapping (get "resources" (fields_of fs)) >>= λ raw.
          refuse_if (is_empty raw) value_error >>= λ u. traverse_dict (as_resource parts) raw)
        ≡ ok a.resources
unfolding as_agent as_mapping
as_agent-parts upper parts name fs a h = (ground arith, ground arith, ground arith)

as_agent-IsAgent :
    (upper : String → String) (parts : Dict PartConfig) (name : String) (v : Json) (a : AgentConfig)
    → as_agent upper parts name v ≡ ok a
    → IsAgent parts (name, a)
unfolding as_agent as_mapping
as_agent-IsAgent upper parts name (mapping fs) a h =
    let (named, known, read) = as_agent-parts upper parts name fs a h in
    let (raw, e1, e2) = >>=-eq-ok (as_mapping (get "resources" (fields_of fs))) _ read in
    let (filled, e3) = filled_loop (as_resource parts) raw e2 in
    record {
      name = named;
      source_role = known;
      claims = filled;
      resources =
          traverse_dict-All (λ (resource, command). offers parts resource command ≡ true)
            (as_resource parts) (as_resource-offers parts) raw e3;
    }
as_agent-IsAgent upper parts name _ a h = absurd (err-ne-ok h)

-- Every member of a group is a part.
abbrev pub HasMembers : Dict PartConfig → String × List String → Type 0
HasMembers parts (name, ms) = All (λ m. has_key m parts ≡ true) ms

-- A profile that programs can use.
pub record IsProfile (c : EmbodimentConfig) : Type 0 where
  pub populated : is_empty c.parts ≡ false
  pub parts : All IsPart c.parts
  pub parents : any_of (is_orphan c.parts) (values c.parts) ≡ false
  pub groups : All (HasMembers c.parts) c.groups
  pub agents : All (IsAgent c.parts) c.agents

as_member-has_key :
    (parts : Dict PartConfig) (v : Json) (m : String)
    → as_member parts v ≡ ok m
    → has_key m parts ≡ true
unfolding as_member
as_member-has_key parts (text_value s) m h = ground arith
as_member-has_key parts _ m h = absurd (err-ne-ok h)

as_group-HasMembers :
    (parts : Dict PartConfig) (name : String) (v : Json) (ms : List String)
    → as_group parts name v ≡ ok ms
    → HasMembers parts (name, ms)
unfolding as_group as_mapping
as_group-HasMembers parts name v ms h =
    let (d, e1, e2) = >>=-eq-ok (as_mapping v) _ h in
    let (members, e3, e4) = >>=-eq-ok (as_members (get "included_groups" d)) _ e2 in
    let (u, e5, e6) = >>=-eq-ok (refuse_if (any_of is_unhashable members) type_error) _ e4 in
    traverse-All (λ m. has_key m parts ≡ true) (as_member parts) (as_member-has_key parts) members
      e6

as_parts-parts :
    (root : Dict Json) (parts : Dict PartConfig)
    → as_parts root ≡ ok parts
    → (is_empty parts ≡ false)
      × All IsPart parts
      × (any_of (is_orphan parts) (values parts) ≡ false)
unfolding as_parts
as_parts-parts root parts h =
    let (raw, e1, e2) = >>=-eq-ok (as_mapping (get "groups" root)) _ h in
    let (u, e3, e4) = >>=-eq-ok (refuse_if (is_empty raw) value_error) _ e2 in
    let (ps, e5, e6) = >>=-eq-ok (traverse_dict as_part raw) _ e4 in
    let rooted = refuse_if (any_of (is_orphan ps) (values ps)) value_error in
    let (u', e7, e8) = >>=-eq-ok rooted (λ w. ok ps) e6 in
    subst
      (λ qs. (is_empty qs ≡ false) × All IsPart qs × (any_of (is_orphan qs) (values qs) ≡ false))
      (ok-injective e8)
      (
        traverse-is_empty (λ (k, a). as_part k a >>= λ b. ok (k, b)) raw ps e5 ∙ ground (arith, e3),
        traverse_dict-All IsPart as_part as_part-IsPart raw e5,
        ground (arith, e7),
      )

with_parts-parts :
    (loader : Loader) (root metadata : Dict Json) (name : String) (parts : Dict PartConfig)
    {c : EmbodimentConfig}
    → with_parts loader root metadata name parts ≡ ok c
    → (c.parts ≡ parts)
      × (as_groups parts root ≡ ok c.groups)
      × (as_agents loader.upper (get_or_empty "agents" root) parts ≡ ok c.agents)
unfolding with_parts
with_parts-parts loader root metadata name parts h = (ground arith, ground arith, ground arith)

from_dict-parts :
    (loader : Loader) (v : Json) {c : EmbodimentConfig}
    → from_dict loader v ≡ ok c
    → (root metadata : Dict Json) × (name : String) × (parts : Dict PartConfig) × (as_parts root
        ≡ ok parts)
      × (with_parts loader root metadata name parts ≡ ok c)
unfolding from_dict
from_dict-parts loader v h =
    let (given, e1, h1) = >>=-eq-ok (as_mapping v) _ h in
    let (u, e2, h2) = >>=-eq-ok (refuse_if (has_key "provider_selection" given) value_error) _ h1 in
    let (routed, e3, h3) = >>=-eq-ok (bind_routing loader given) _ h2 in
    let (root, e4, h4) = >>=-eq-ok (bind_contract loader routed) _ h3 in
    let (metadata, e5, h5) = >>=-eq-ok (as_mapping (get "metadata" root)) _ h4 in
    let (name, e6, h6) = >>=-eq-ok (as_string (get "name" metadata)) _ h5 in
    let (parts, e7, h7) = >>=-eq-ok (as_parts root) _ h6 in (root, metadata, name, parts, e7, h7)

as_groups-HasMembers :
    (parts : Dict PartConfig) (root : Dict Json) {groups : Dict (List String)}
    → as_groups parts root ≡ ok groups
    → All (HasMembers parts) groups
unfolding as_groups
as_groups-HasMembers parts root h =
    let (raw, e1, e2) = >>=-eq-ok (as_mapping (get_or_empty "compound_groups" root)) _ h in
    traverse_dict-All (HasMembers parts) (as_group parts) (as_group-HasMembers parts) raw e2

as_agents-IsAgent :
    (upper : String → String) (v : Json) (parts : Dict PartConfig) {agents : Dict AgentConfig}
    → as_agents upper v parts ≡ ok agents
    → All (IsAgent parts) agents
unfolding as_agents
as_agents-IsAgent upper v parts h =
    let (raw, e1, e2) = >>=-eq-ok (as_mapping v) _ h in
    traverse_dict-All (IsAgent parts) (as_agent upper parts) (as_agent-IsAgent upper parts) raw e2

-- A profile that is read is one that programs can use: it has parts, each with a default controller
-- among its connected controllers, named joints, and a parent among the parts; every compound group
-- consists of parts; and every agent has a known role and claims commands that existing parts
-- offer.
pub from_dict-IsProfile :
    (loader : Loader) (v : Json) {c : EmbodimentConfig} → from_dict loader v ≡ ok c → IsProfile c
from_dict-IsProfile loader v h =
    let (root, metadata, name, parts, read, rest) = from_dict-parts loader v h in
    let (populated, are_parts, parents) = as_parts-parts root parts read in
    let (same, grouped, acting) = with_parts-parts loader root metadata name parts rest in
    rw same (record {
      populated = populated;
      parts = are_parts;
      parents = parents;
      groups = as_groups-HasMembers parts root grouped;
      agents = as_agents-IsAgent loader.upper (get_or_empty "agents" root) parts acting;
    })
