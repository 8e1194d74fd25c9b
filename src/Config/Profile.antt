-- ===== src/Config/Profile.antt =====
-- `EmbodimentConfig.from_dict` of config.py, and what is read from the profile. The files that it
-- may name are read by parameters.
use physical_ai_runtime.Common.Try.{refuse_if, traverse, ◌>>=◌, ◌>>◌}
use physical_ai_runtime.Common.{
  Bool, Dict, List, Option, Result, String, [], any_of, err, false, has_key, if◌then◌else◌, insert,
  is_empty, key_error, leb_ℤ, lookup, none, not, ok, or_raise, pos, some, suc, true, type_error,
  value_error, values, zero, ℕ, ℤ, ◌++◌, ◌==◌, ◌∷◌,
}
use physical_ai_runtime.Config.{
  Fields, Json, PartConfig, as_mapping, as_part, as_string, boolean, decimal, field, fields_of, get,
  get_or_empty, integer, item, items_of, mapping, no_fields, no_items, null, sequence, text_value,
  traverse_dict,
}
use physical_ai_runtime.Config.Agents.{AgentConfig, as_agents}

-- CameraSensorConfig
pub record CameraConfig : Type 0 where
  pub name : String
  pub ros_topic : String
  pub encoding : String
  pub fps : ℤ
  pub resolution : ℤ × ℤ
  pub qos_profile : String

-- EmbodimentConfig
pub record EmbodimentConfig : Type 0 where
  pub name : String
  pub parts : Dict PartConfig
  pub groups : Dict (List String)
  pub metadata : Dict Json
  pub host_roles : Dict Json
  pub cameras : Dict CameraConfig
  pub agents : Dict AgentConfig
  pub recording : Dict Json
  pub features : Dict Json
  pub calibration : Dict Json
  pub streams : Dict Json
  pub raw_data : Dict Json

-- What the loader takes from Python and from the files: `str.upper`, `str`, `int`, the groups of an
-- Execution Manager file, and the path of a recorder contract.
pub record Loader : Type 0 where
  pub upper : String → String
  pub str_of : Json → String
  pub int_of : Json → Result ℤ
  pub load_groups : Json → Result Json
  pub resolve_contract : Json → Result String

-- Whether `if d.get(k):` is taken.
abbrev is_truthy : Json → Bool
is_truthy null = false
is_truthy (boolean b) = b
is_truthy (integer (pos zero)) = false
is_truthy (decimal (pos zero)) = false
is_truthy (text_value s) = not (s == "")
is_truthy (sequence no_items) = false
is_truthy (mapping no_fields) = false
is_truthy _ = true

-- `_bind_execution_manager_routing`: the groups come from the named file, and only from there.
unfoldable pub bind_routing : Loader → Dict Json → Result (Dict Json)
bind_routing loader root = elim (get "execution_manager_config" root) [
  | null ↦ ok root
  | reference ↦
      if is_truthy (get "groups" root)
      then err value_error
      else loader.load_groups reference >>= λ groups. ok (insert "groups" groups root)
]

abbrev fields_from : Dict Json → Fields
fields_from [] = no_fields
fields_from ((k, v) ∷ d) = field k v (fields_from d)

-- `_bind_recorder_stream_contract`
unfoldable pub bind_contract : Loader → Dict Json → Result (Dict Json)
bind_contract loader root = elim (get "recorder" root) [
  | mapping fs ↦ elim (lookup "config" (fields_of fs)) [
    | none ↦ ok root
    | some reference ↦ loader.resolve_contract reference >>= λ path. ok (
        insert "recorder"
          (mapping (fields_from (insert "contract_path" (text_value path) (fields_of fs)))) root)
  ]
  | _ ↦ ok root
]

-- `part.parent is not None and part.parent not in parts`
abbrev pub is_orphan : Dict PartConfig → PartConfig → Bool
is_orphan parts p = elim p.parent [ none ↦ false | some parent ↦ not (has_key parent parts) ]

-- A list or a dictionary cannot be looked up in a dictionary.
abbrev pub is_unhashable : Json → Bool
is_unhashable (sequence vs) = true
is_unhashable (mapping fs) = true
is_unhashable _ = false

unfoldable pub as_member : Dict PartConfig → Json → Result String
as_member parts (text_value s) = if has_key s parts then ok s else err value_error
as_member parts _ = err value_error

unfoldable pub as_members : Json → Result (List Json)
as_members (sequence no_items) = err type_error
as_members (sequence vs) = ok (items_of vs)
as_members _ = err type_error

unfoldable pub as_group : Dict PartConfig → String → Json → Result (List String)
as_group parts name v = do
  d ← as_mapping v
  members ← as_members (get "included_groups" d)
  refuse_if (any_of is_unhashable members) type_error
  traverse (as_member parts) members

-- A resolution is two integers above 0. A Boolean is an integer.
abbrev as_extent : Json → Result ℤ
as_extent (integer n) = if leb_ℤ n (pos 0) then err type_error else ok n
as_extent (boolean true) = ok (pos 1)
as_extent _ = err type_error

unfoldable pub as_resolution : Option Json → Result (ℤ × ℤ)
as_resolution none = ok (pos 480, pos 640)
as_resolution (some (sequence (item h (item w no_items)))) = do
  height ← as_extent h
  width ← as_extent w
  ok (height, width)
as_resolution _ = err type_error

unfoldable pub as_camera : Loader → String → Json → Result CameraConfig
as_camera loader name v = do
  d ← as_mapping v
  resolution ← as_resolution (lookup "resolution" d)
  topic ← as_string (get "ros_topic" d)
  fps ← elim (lookup "fps" d) [ none ↦ ok (pos 30) | some n ↦ loader.int_of n ]
  ok (record {
    name = name;
    ros_topic = topic;
    encoding = elim (lookup "encoding" d) [ none ↦ "rgb8" | some e ↦ loader.str_of e ];
    fps = fps;
    resolution = resolution;
    qos_profile = elim (lookup "qos_profile" d) [ none ↦ "sensor_data" | some q ↦ loader.str_of q ];
  })

unfoldable pub as_cameras : Loader → Dict Json → Result (Dict CameraConfig)
as_cameras loader root = do
  sensors ← as_mapping (get_or_empty "sensors" root)
  raw ← as_mapping (get_or_empty "cameras" sensors)
  traverse_dict (as_camera loader) raw

-- The parts of the profile, each with a parent among them.
unfoldable pub as_parts : Dict Json → Result (Dict PartConfig)
as_parts root = do
  raw ← as_mapping (get "groups" root)
  refuse_if (is_empty raw) value_error
  parts ← traverse_dict as_part raw
  refuse_if (any_of (is_orphan parts) (values parts)) value_error
  ok parts

unfoldable pub as_groups : Dict PartConfig → Dict Json → Result (Dict (List String))
as_groups parts root =
    as_mapping (get_or_empty "compound_groups" root) >>= traverse_dict (as_group parts)

-- The rest of the profile, once the parts are read.
unfoldable pub with_parts :
    Loader → Dict Json → Dict Json → String → Dict PartConfig → Result EmbodimentConfig
with_parts loader root metadata name parts = do
  groups ← as_groups parts root
  host_roles ← as_mapping (get_or_empty "host_roles" root)
  agents ← as_agents loader.upper (get_or_empty "agents" root) parts
  recording ← as_mapping (get_or_empty "recorder" root)
  features ← as_mapping (get_or_empty "features" root)
  calibration ← as_mapping (get_or_empty "calibration" root)
  streams ← as_mapping (get_or_empty "streams" root)
  cameras ← as_cameras loader root
  ok (record {
    name = name;
    parts = parts;
    groups = groups;
    metadata = metadata;
    host_roles = host_roles;
    cameras = cameras;
    agents = agents;
    recording = recording;
    features = features;
    calibration = calibration;
    streams = streams;
    raw_data = root;
  })

unfoldable pub from_dict : Loader → Json → Result EmbodimentConfig
from_dict loader data_value = do
  given ← as_mapping data_value
  refuse_if (has_key "provider_selection" given) value_error
  routed ← bind_routing loader given
  root ← bind_contract loader routed
  metadata ← as_mapping (get "metadata" root)
  name ← as_string (get "name" metadata)
  parts ← as_parts root
  with_parts loader root metadata name parts

-- `host_role`
unfoldable pub host_role : EmbodimentConfig → String → Result Json
host_role config name = or_raise (lookup name config.host_roles) key_error

-- The joints of some members in turn.
abbrev pub joints_of_members : (String → Option (List String)) → List String → Option (List String)
joints_of_members f [] = some []
joints_of_members f (m ∷ ms) = elim (f m) [
  | none ↦ none
  | some xs ↦ elim (joints_of_members f ms) [ none ↦ none | some ys ↦ some (xs ++ ys) ]
]

-- `get_part_joints`, to a depth: `none` where the recursion goes deeper.
unfoldable pub get_part_joints : ℕ → EmbodimentConfig → String → Option (List String)
get_part_joints zero config name = none
get_part_joints (suc depth) config name =
    let of_member = get_part_joints depth config in
    elim (lookup name config.parts) [
      | some p ↦ some p.joint_names
      | none ↦ elim (lookup name config.groups) [
        | none ↦ some []
        | some members ↦ joints_of_members of_member members
      ]
    ]
