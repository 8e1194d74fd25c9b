-- ===== src/Context.antt =====
-- src/interfaces/rmi/rmi/context.py: the factories of one application, and the recovery of
-- authority when it starts. Python compares robots, sensors and message types by identity: they are
-- numbers. `V` is the type of the samples of its sensors.
pub mod Factories
pub mod Startup
pub mod Lifecycle
pub mod Files
pub mod Readiness
use physical_ai_runtime.Common.{
  Bool, Dict, List, Option, Result, String, [], eqb, err, false, if◌then◌else◌, insert, key_error,
  leb_ℤ, lookup, none, not, ok, pos, some, true, value_error, ℕ, ℤ, ◌&&◌, ◌==◌, ◌∷◌,
}
use physical_ai_runtime.Selection.{text}
use physical_ai_runtime.Agent.{Agent}
use physical_ai_runtime.Provider.{CommandClient, PartFrames, new_client}
use physical_ai_runtime.Sensing.{Sensor, new_sensor}
use physical_ai_runtime.Config.{PartConfig}
use physical_ai_runtime.Config.Agents.{AgentConfig}
use physical_ai_runtime.Config.Profile.{EmbodimentConfig}

-- An agent with its own command client, robot and sensors.
pub record MadeAgent : Type 0 where
  pub agent : Agent
  pub client : CommandClient
  pub robot : ℕ
  pub sensors : List ℕ

-- What a sensor was made from: its topic, its message type and its history size.
pub record SensorSpec : Type 0 where
  pub topic : String
  pub message_type : ℕ
  pub history_size : ℤ

-- Context, less its node, its executor and its recorder
pub record Context {ℓ} (V : Type ℓ) : Type ℓ where
  pub config : EmbodimentConfig
  pub timeout : ℤ
  pub robot : ℕ
  pub prepared : Bool
  pub agents : Dict MadeAgent
  pub cameras : Dict (Sensor V × ℤ)
  pub sensors : Dict (Sensor V × SensorSpec)

-- `_profile_command_contracts`: of the agents that name a resource, the last one decides.
abbrev update_all : Dict String → Dict String → Dict String
update_all [] d = d
update_all ((k, v) ∷ more) d = update_all more (insert k v d)

abbrev contracts_from : Dict AgentConfig → Dict String → Dict String
contracts_from [] d = d
contracts_from ((name, a) ∷ more) d = contracts_from more (update_all a.resources d)

unfoldable pub command_contracts : EmbodimentConfig → Dict String
command_contracts config = contracts_from config.agents []

-- `a == b` of two dictionaries, whose keys are different
abbrev pub holds_all : Dict String → Dict String → Bool
holds_all a [] = true
holds_all a ((k, v) ∷ b) = elim (lookup k a) [ none ↦ false | some w ↦ w == v ] && holds_all a b

abbrev pub same_dict : Dict String → Dict String → Bool
same_dict a b = holds_all a b && holds_all b a

abbrev pub same_ids : List ℕ → List ℕ → Bool
same_ids [] [] = true
same_ids (x ∷ xs) (y ∷ ys) = eqb x y && same_ids xs ys
same_ids xs ys = false

abbrev pub same_time : Option ℤ → Option ℤ → Bool
same_time none none = true
same_time (some a) (some b) = leb_ℤ a b && leb_ℤ b a
same_time a b = false

-- `a or b` of texts
abbrev pub or_name : Option String → String → String
or_name none d = d
or_name (some s) d = if s == "" then d else s

-- What `make_agent` is asked for.
pub record AgentRequest : Type 0 where
  pub name : String
  pub robot : Option ℕ
  pub sensors : List ℕ
  pub frequency : Option ℤ
  pub source_instance : Option String
  pub metadata : Dict String

abbrev pub or_given : {A : Type 0} → Option A → Option A → Option A
or_given (some a) d = some a
or_given none d = d

abbrev frames_of : PartConfig → PartFrames
frames_of p = record {
  joint_names = p.joint_names;
  base_frame = p.base_frame;
  tcp_frame = p.tcp_frame;
}

abbrev frames_in : Dict PartConfig → Dict PartFrames
frames_in [] = []
frames_in ((k, p) ∷ parts) = (k, frames_of p) ∷ frames_in parts

abbrev pub is_spec : SensorSpec → SensorSpec → Bool
is_spec a b =
    a.topic == b.topic
    && eqb a.message_type b.message_type
    && leb_ℤ a.history_size b.history_size
    && leb_ℤ b.history_size a.history_size

module _ {ℓ} {V : Type ℓ} where
  abbrev pub robot_of : AgentRequest → Context V → ℕ
  robot_of r c = elim r.robot [ none ↦ c.robot | some i ↦ i ]

  -- Whether an agent that exists is the one that is asked for.
  unfoldable pub is_same_agent : AgentRequest → AgentConfig → Context V → MadeAgent → Bool
  is_same_agent r a c m =
      eqb m.robot (robot_of r c)
      && same_ids m.sensors r.sensors
      && same_time m.agent.frequency (or_given r.frequency a.frequency)
      && m.agent.source_instance == or_name r.source_instance r.name
      && same_dict m.agent.metadata r.metadata

  unfoldable pub new_agent : AgentRequest → AgentConfig → Context V → Result MadeAgent
  new_agent r a c =
      let frequency = or_given r.frequency a.frequency in
      let frames = frames_in c.config.parts in
      let made : MadeAgent = record {
        agent = record {
          name = r.name;
          source_role = text a.source_role;
          source_instance = or_name r.source_instance r.name;
          metadata = r.metadata;
          resources = a.resources;
          frequency = frequency;
          config = some frames;
        };
        client = new_client a.resources (some frames) c.timeout;
        robot = robot_of r c;
        sensors = r.sensors;
      } in
      elim frequency [
        | none ↦ ok made
        | some f ↦ if leb_ℤ f (pos 0) then err value_error else ok made
      ]

  unfoldable pub make_agent : AgentRequest → Context V → Result MadeAgent × Context V
  make_agent r c = elim (lookup r.name c.config.agents) [
    | none ↦ (err key_error, c)
    | some a ↦ elim (lookup r.name c.agents) [
      | some m ↦ (if is_same_agent r a c m then ok m else err value_error, c)
      | none ↦ elim (new_agent r a c) [
        | err e ↦ (err e, c)
        | ok m ↦ (ok m, record c { agents = insert r.name m c.agents })
      ]
    ]
  ]

  unfoldable pub make_camera : String → Bool → ℤ → Context V → Result (Sensor V) × Context V
  make_camera name converted history_size c = elim (lookup name c.cameras) [
    | some (s, size) ↦ (
      if converted
          then err value_error
          else if leb_ℤ size history_size && leb_ℤ history_size size
          then ok s
          else err value_error,
      c,
    )
    | none ↦ elim (lookup name c.config.cameras) [
      | none ↦ (err key_error, c)
      | some config ↦ elim (new_sensor {V = V} config.name config.ros_topic history_size) [
        | err e ↦ (err e, c)
        | ok s ↦ (ok s, record c { cameras = insert name (s, history_size) c.cameras })
      ]
    ]
  ]

  unfoldable pub make_sensor :
      String → SensorSpec → Bool → Context V → Result (Sensor V) × Context V
  make_sensor name spec converted c = elim (lookup name c.sensors) [
    | some (s, old) ↦ (
      if not (is_spec spec old)
          then err value_error
          else if converted
          then err value_error
          else ok s,
      c,
    )
    | none ↦ elim (new_sensor {V = V} name spec.topic spec.history_size) [
      | err e ↦ (err e, c)
      | ok s ↦ (ok s, record c { sensors = insert name (s, spec) c.sensors })
    ]
  ]
