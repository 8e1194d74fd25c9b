-- ===== src/Config/Parts.antt =====
-- The parts of a profile that was read.
use physical_ai_runtime.Common.Try.{>>=-eq-ok, ◌>>=◌}
use physical_ai_runtime.Common.{
  List, String, arith, err-ne-ok, false, has_key, is_empty, ok, true, ◌&&◌, ◌==◌, ◌≡◌,
}
use physical_ai_runtime.Controllers.Factory.{ControllerConfig}
use physical_ai_runtime.Config.{
  Fields, Json, PartConfig, as_controller, as_joint_names, as_mapping, as_part, as_string,
  fields_of, get, items_of, mapping, sequence, traverse_dict,
}
use physical_ai_runtime.Config.Loops.{All, traverse-All, traverse_dict-All}

-- A name is a text that is not empty.
abbrev pub IsName : String → Type 0
IsName s = (s == "") ≡ false

as_string-IsName : (v : Json) {s : String} → as_string v ≡ ok s → IsName s
unfolding as_string
as_string-IsName v h = ground arith

-- A controller has a name, and an action or a topic.
abbrev pub IsConnected : String × ControllerConfig → Type 0
IsConnected (contract, c) =
    ((is_empty c.ros_actions && is_empty c.ros_topics) ≡ false) × IsName c.name

as_controller-IsConnected :
    (contract : String) (v : Json) (c : ControllerConfig)
    → as_controller contract v ≡ ok c
    → IsConnected (contract, c)
unfolding as_controller as_mapping
as_controller-IsConnected contract (mapping fs) c h =
    ground (arith, as_string-IsName (get "name" (fields_of fs)) {s = c.name})
as_controller-IsConnected contract _ c h = absurd (err-ne-ok h)

as_part-default :
    (name : String) (v : Json) (p : PartConfig)
    → as_part name v ≡ ok p
    → has_key p.default_controller p.controllers ≡ true
unfolding as_part as_mapping
as_part-default name (mapping fs) p h = ground arith
as_part-default name _ p h = absurd (err-ne-ok h)

as_part-controllers :
    (name : String) (fs : Fields) (p : PartConfig)
    → as_part name (mapping fs) ≡ ok p
    → (as_mapping (get "controllers" (fields_of fs)) >>= traverse_dict as_controller)
      ≡ ok p.controllers
unfolding as_part as_mapping
as_part-controllers name fs p h = ground arith

as_part-joints :
    (name : String) (fs : Fields) (p : PartConfig)
    → as_part name (mapping fs) ≡ ok p
    → as_joint_names (get "joint_names" (fields_of fs)) ≡ ok p.joint_names
unfolding as_part as_mapping
as_part-joints name fs p h = ground arith

as_joint_names-All :
    (v : Json) {names : List String} → as_joint_names v ≡ ok names → All IsName names
unfolding as_joint_names
as_joint_names-All (sequence vs) h =
    traverse-All IsName as_string (λ v s e. as_string-IsName v e) (items_of vs) h
as_joint_names-All _ h = absurd (err-ne-ok h)

-- A part that a program can use: it is stored under its name, its default controller is one of its
-- controllers, which are all connected, and its joints have names.
pub record IsPart (e : String × PartConfig) : Type 0 where
  pub name : e.1.name ≡ e.0
  pub default : has_key e.1.default_controller e.1.controllers ≡ true
  pub connected : All IsConnected e.1.controllers
  pub joints : All IsName e.1.joint_names

as_part-name : (name : String) (v : Json) (p : PartConfig) → as_part name v ≡ ok p → p.name ≡ name
unfolding as_part as_mapping
as_part-name name (mapping fs) p h = ground arith
as_part-name name _ p h = absurd (err-ne-ok h)

pub as_part-IsPart :
    (name : String) (v : Json) (p : PartConfig) → as_part name v ≡ ok p → IsPart (name, p)
unfolding as_part as_mapping
as_part-IsPart name (mapping fs) p h =
    let (raw, e1, e2) =
      >>=-eq-ok (as_mapping (get "controllers" (fields_of fs))) (traverse_dict as_controller)
        (as_part-controllers name fs p h) in
    record {
      name = as_part-name name (mapping fs) p h;
      default = as_part-default name (mapping fs) p h;
      connected = traverse_dict-All IsConnected as_controller as_controller-IsConnected raw e2;
      joints = as_joint_names-All (get "joint_names" (fields_of fs)) (as_part-joints name fs p h);
    }
as_part-IsPart name _ p h = absurd (err-ne-ok h)
