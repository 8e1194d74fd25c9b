-- ===== src/Provider.antt =====
-- src/interfaces/rmi/rmi/provider.py: the command client that holds one lease. Its trajectory goals
-- are in Actions, the proofs in Sending and Goals.
pub mod Actions
pub mod Sending
pub mod Goals
use physical_ai_runtime.Common.{
  Dict, Exec, List, Option, Result, String, [], eqb, err, false, if◌then◌else◌, index_error,
  key_error, length, lookup, none, not, ok, or_raise, runtime_error, some, value_error, ℕ, ℤ, ◌++◌,
  ◌==◌, ◌||◌, ◌∷◌,
}
use physical_ai_runtime.Messages.{
  CartesianPoint, CartesianTrajectory, Envelope, JointPoint, JointTrajectory, Payload, Twist, Value,
  cartesian_trajectory, joint_payload, joint_trajectory, pose_payload, twist_payload, twist_stamped,
}
use physical_ai_runtime.Authority.{Bindings, EndpointBinding, LeaseGrant, find_binding}
use physical_ai_runtime.World.{World}
use physical_ai_runtime.Commands.{
  cartesian_trajectory_from_spec, check_kind, is_invalid, joint_trajectory_from_spec, set_duration,
  twist_stamped_from_spec,
}

-- What the client reads of the profile, for each part.
pub record PartFrames : Type 0 where
  pub joint_names : List String
  pub base_frame : Option String
  pub tcp_frame : Option String

-- ActionProviderClient. An empty `lease_id` means that no lease is bound. `publishers` are the
-- (part, command) pairs for which a publisher exists, with its endpoint.
pub record CommandClient : Type 0 where
  pub resources : Dict String
  pub profile : Option (Dict PartFrames)
  pub timeout : ℤ
  pub lease_id : String
  pub bindings : Bindings
  pub publishers : Bindings
  pub action_clients : Dict String
  pub goal_handles : Dict ℕ

abbrev pub new_client : Dict String → Option (Dict PartFrames) → ℤ → CommandClient
new_client resources profile timeout = record {
  resources = resources;
  profile = profile;
  timeout = timeout;
  lease_id = "";
  bindings = [];
  publishers = [];
  action_clients = [];
  goal_handles = [];
}

-- An independent client for a concurrent session.
unfoldable pub fork : CommandClient → CommandClient
fork c = new_client c.resources c.profile c.timeout

unfoldable pub bind : LeaseGrant → CommandClient → Result CommandClient
bind grant c =
    if c.lease_id == ""
    then ok (record c { lease_id = grant.lease_id; bindings = grant.endpoints })
    else err runtime_error

unfoldable pub unbind : CommandClient → CommandClient
unbind c = record c {
  lease_id = "";
  bindings = [];
  publishers = [];
  action_clients = [];
  goal_handles = [];
}

unfoldable pub require_binding : CommandClient → String → String → Result EndpointBinding
require_binding c part command =
    if c.lease_id == ""
    then err runtime_error
    else or_raise (find_binding part command c.bindings) key_error

abbrev pub frames_of : CommandClient → String → Result (Option PartFrames)
frames_of c part = elim c.profile [
  | none ↦ ok none
  | some parts ↦ elim (lookup part parts) [ none ↦ err key_error | some f ↦ ok (some f) ]
]

abbrev pub joint_names_of : Option PartFrames → List String
joint_names_of none = []
joint_names_of (some f) = f.joint_names

-- `base_frame or "base_link"`
abbrev pub or_text : Option String → String → String
or_text none d = d
or_text (some s) d = if s == "" then d else s

abbrev pub base_frame_of : Option PartFrames → String
base_frame_of none = "base_link"
base_frame_of (some f) = or_text f.base_frame "base_link"

abbrev pub tcp_frame_of : Option PartFrames → String
tcp_frame_of none = ""
tcp_frame_of (some f) = or_text f.tcp_frame ""

-- The branches of `send`: the payload of each streaming command; a native message is sent as it is.
unfoldable pub joint_payload_of : CommandClient → String → Value → Result JointTrajectory
joint_payload_of c part (joint_trajectory m) = ok m
joint_payload_of c part v = elim (frames_of c part) [
  | err e ↦ err e
  | ok f ↦ joint_trajectory_from_spec v (joint_names_of f) false
]

unfoldable pub pose_payload_of : CommandClient → String → Value → Result CartesianTrajectory
pose_payload_of c part (cartesian_trajectory m) = ok m
pose_payload_of c part v = elim (frames_of c part) [
  | err e ↦ err e
  | ok f ↦ cartesian_trajectory_from_spec v (base_frame_of f) (tcp_frame_of f)
]

unfoldable pub twist_payload_of : CommandClient → String → Value → Result Twist
twist_payload_of c part (twist_stamped m) = ok m
twist_payload_of c part v = elim (frames_of c part) [
  | err e ↦ err e
  | ok f ↦ twist_stamped_from_spec v (base_frame_of f)
]

-- The payload, its header stamped with the time of sending.
abbrev pub stamped : {A : Type 0} → Result A → (A → Payload) → Result Payload
stamped (ok m) f = ok (f m)
stamped (err e) f = err e

unfoldable pub payload_of : CommandClient → String → String → Value → ℕ → Result Payload
payload_of c part command v now =
    if command == "joint_reference"
    then stamped (joint_payload_of c part v) (λ m. joint_payload (record m { stamp = now }))
    else if command == "pose_reference"
    then stamped (pose_payload_of c part v) (λ m. pose_payload (record m { stamp = now }))
    else if command == "twist_reference"
    then stamped (twist_payload_of c part v) (λ m. twist_payload (record m { stamp = now }))
    else err key_error

-- A command client in its process.
pub record Link : Type 0 where
  pub commands : CommandClient
  pub world : World

-- `_publisher`: a publisher is created on its first use, at the endpoint of the binding.
unfoldable pub publisher : EndpointBinding → String → String → Bindings → EndpointBinding × Bindings
publisher b part command publishers = elim (find_binding part command publishers) [
  | none ↦ (b, publishers ++ b ∷ [])
  | some p ↦ (p, publishers)
]

abbrev pub envelope : String → ℕ → String → Payload → Envelope
envelope endpoint now lease_id payload = record {
  endpoint = endpoint;
  stamp = now;
  lease_id = lease_id;
  payload = payload;
}

unfoldable pub publish : EndpointBinding → String → String → Payload → Exec Link (Unit {0})
publish b part command payload s =
    let (p, publishers) = publisher b part command s.commands.publishers in
    let e = envelope p.endpoint s.world.now s.commands.lease_id payload in
    (
      ok tt,
      record {
        commands = record s.commands { publishers = publishers };
        world = record s.world { outbox = e ∷ s.world.outbox };
      },
    )

unfoldable pub checked_payload :
    CommandClient → String → String → Value → ℕ → Result (EndpointBinding × Payload)
checked_payload c part command v now = elim (require_binding c part command) [
  | err e ↦ err e
  | ok b ↦ if is_invalid v then err value_error else elim (check_kind v command) [
    | err e ↦ err e
    | ok u ↦ elim (payload_of c part command v now) [ err e ↦ err e | ok p ↦ ok (b, p) ]
  ]
]

unfoldable pub send : String → String → Value → Exec Link (Unit {0})
send part command v s = elim (checked_payload s.commands part command v s.world.now) [
  | err e ↦ (err e, s)
  | ok (b, payload) ↦ publish b part command payload s
]

-- `send_joint_reference`: one point for each pair of positions and a time.
abbrev pub joint_points : List (List ℤ) → List ℤ → List JointPoint
joint_points [] ts = []
joint_points (p ∷ ps) [] = []
joint_points (p ∷ ps) (t ∷ ts) =
    record { positions = p; velocities = []; accelerations = []; time_from_start = set_duration t }
    ∷ joint_points ps ts

unfoldable pub send_joint_reference :
    String → List String → List (List ℤ) → List ℤ → Exec Link (Unit {0})
send_joint_reference part joint_names positions times = send part "joint_reference" (
    joint_trajectory
      (record { stamp = 0; joint_names = joint_names; points = joint_points positions times }))

-- `position[0], position[1], position[2]`, where what follows is not read
abbrev pub first_three : List ℤ → Result (List ℤ)
first_three (x ∷ y ∷ z ∷ rest) = ok (x ∷ y ∷ z ∷ [])
first_three _ = err index_error

abbrev pub first_four : List ℤ → Result (List ℤ)
first_four (x ∷ y ∷ z ∷ w ∷ rest) = ok (x ∷ y ∷ z ∷ w ∷ [])
first_four _ = err index_error

abbrev pub cartesian_point : List ℤ → List ℤ → ℤ → Result CartesianPoint
cartesian_point position orientation t = elim (first_three position) [
  | err e ↦ err e
  | ok xyz ↦ elim (first_four orientation) [
    | err e ↦ err e
    | ok xyzw ↦ ok (record { position = xyz; orientation = xyzw; time_from_start = set_duration t })
  ]
]

-- The loop over the zipped lists ends at the first point that raises.
unfoldable pub cartesian_points :
    List (List ℤ) → List (List ℤ) → List ℤ → Result (List CartesianPoint)
cartesian_points (p ∷ ps) (o ∷ os) (t ∷ ts) =
    let rest = cartesian_points ps os ts in
    elim (cartesian_point p o t) [
      | err e ↦ err e
      | ok c ↦ elim rest [ err e ↦ err e | ok cs ↦ ok (c ∷ cs) ]
    ]
cartesian_points ps os ts = ok []

unfoldable pub send_pose_reference :
    String → List (List ℤ) → List (List ℤ) → List ℤ → String → Exec Link (Unit {0})
send_pose_reference part positions orientations times frame_id s =
    elim (cartesian_points positions orientations times) [
      | err e ↦ (err e, s)
      | ok cs ↦
          send part "pose_reference"
            (cartesian_trajectory
              (record { stamp = 0; frame_id = frame_id; tracked_frame = ""; points = cs }))
            s
    ]

unfoldable pub send_twist_reference : String → List ℤ → List ℤ → String → Exec Link (Unit {0})
send_twist_reference part linear angular frame_id s =
    if not (eqb (length linear) 3) || not (eqb (length angular) 3)
    then (err value_error, s)
    else send part "twist_reference"
        (twist_stamped
          (record { stamp = 0; frame_id = frame_id; linear = linear; angular = angular }))
        s
