-- ===== src/Apps/Replay.antt =====
-- apps/replay.py: a recorded episode becomes a timeline of frames, which is replayed at its own
-- pace. What the MCAP reader and the deserializers give for each message is data of the model.
-- Times are in nanoseconds; the rounding of the rate for display is not modelled.
pub mod Timeline
pub mod Homing
pub mod Playing
use Prim.Native.String.{◌++◌ as text_append}
use text.Mathlib.Text.{find?}
use physical_ai_runtime.Common.Sorting.{sort_by}
use physical_ai_runtime.Common.{
  Bool, Dict, List, Option, Result, String, [], err, has_key, if◌then◌else◌, insert, is_empty,
  is_some, last?, length, lookup, ltb, ltb_ℤ, none, ok, pos, runtime_error, some, ℕ, ℤ, ◌&&◌, ◌++◌,
  ◌+◌, ◌-ℤ◌, ◌==◌, ◌||◌, ◌∷◌,
}
use physical_ai_runtime.Config.{PartConfig}

-- One message of the file: what each of the three deserializers gives for its bytes. A trajectory
-- is the positions of its points.
pub record Recorded : Type 0 where
  pub topic : String
  pub log_time : ℕ
  pub as_trajectory : Result (List (List ℤ))
  pub as_array : Result (List ℤ)
  pub as_state : Result (List String × List ℤ)

pub record ActionEvent : Type 0 where
  pub time : ℕ
  pub part : String
  pub positions : List ℤ

pub record StateEvent : Type 0 where
  pub time : ℕ
  pub positions : Dict ℤ

pub record Frame : Type 0 where
  pub time : ℤ
  pub poses : Dict (List ℤ)

-- What `load_mcap_trajectory` returns. The native rate is a number of frames in a duration.
pub record Episode : Type 0 where
  pub timeline : List Frame
  pub frames : ℕ
  pub duration : ℤ
  pub start_poses : Dict (List ℤ)

-- `s in text`
abbrev contains : String → String → Bool
contains s t = is_some (find? t s)

abbrev pub action_topic : String → String
action_topic part = text_append (text_append "/execution/" part) "/joint_reference"

abbrev is_action_part : String → Bool
is_action_part part = contains "arm" part || contains "gripper" part || part == "end_effector"

-- `part_to_action_topic`. Its fallback for a part "arm" is never taken, since that name has "arm".
unfoldable pub action_topics : Dict PartConfig → Dict String
action_topics [] = []
action_topics ((name, p) ∷ parts) =
    let rest = action_topics parts in
    if is_action_part name then insert name (action_topic name) rest else rest

-- `topic_to_part`
unfoldable pub parts_by_topic : Dict String → Dict String → Dict String
parts_by_topic [] d = d
parts_by_topic ((part, topic) ∷ rest) d = parts_by_topic rest (insert topic part d)

-- `dict(zip(names, positions))`
abbrev pub zip_into : List String → List ℤ → Dict ℤ → Dict ℤ
zip_into [] ps d = d
zip_into (n ∷ ns) [] d = d
zip_into (n ∷ ns) (p ∷ ps) d = zip_into ns ps (insert n p d)

-- A trajectory gives its last point. What is no trajectory may be an array.
unfoldable pub read_action : String → Recorded → List ActionEvent
read_action part m = elim m.as_trajectory [
  | ok points ↦ elim (last? points) [
    | none ↦ []
    | some p ↦ record { time = m.log_time; part = part; positions = p } ∷ []
  ]
  | err e ↦ elim m.as_array [
    | err f ↦ []
    | ok xs ↦
        if is_empty xs then [] else record { time = m.log_time; part = part; positions = xs } ∷ []
  ]
]

unfoldable pub read_state : Recorded → List StateEvent
read_state m = elim m.as_state [
  | err e ↦ []
  | ok (names, positions) ↦
      if is_empty names || is_empty positions
      then []
      else record { time = m.log_time; positions = zip_into names positions [] } ∷ []
]

abbrev is_state_topic : String → Bool
is_state_topic topic = topic == "/joint_states" || topic == "/robot/joint_states"

-- The loop over the messages: `action_events` and `state_events`, in the order of the file.
unfoldable pub read_messages : Dict String → List Recorded → List ActionEvent × List StateEvent
read_messages topics [] = ([], [])
read_messages topics (m ∷ ms) =
    let (actions, states) = read_messages topics ms in
    elim (lookup m.topic topics) [
      | some part ↦ (read_action part m ++ actions, states)
      | none ↦
          if is_state_topic m.topic then (actions, read_state m ++ states) else (actions, states)
    ]

-- Every frame holds the poses of all parts that have had an action.
unfoldable pub merge_actions : ℕ → Dict (List ℤ) → List ActionEvent → List Frame
merge_actions start poses [] = []
merge_actions start poses (e ∷ es) =
    let now = insert e.part e.positions poses in
    record { time = pos e.time -ℤ pos start; poses = now } ∷ merge_actions start now es

abbrev pub insert_new : String → List ℤ → Dict (List ℤ) → Dict (List ℤ)
insert_new part p d = if has_key part d then d else insert part p d

unfoldable pub first_poses : Dict (List ℤ) → List ActionEvent → Dict (List ℤ)
first_poses d [] = d
first_poses d (e ∷ es) = first_poses (insert_new e.part e.positions d) es

-- `part_counts`, and the count of the primary part
abbrev count_of : Option ℕ → ℕ
count_of none = 0
count_of (some n) = n

unfoldable pub part_counts : Dict ℕ → List ActionEvent → Dict ℕ
part_counts d [] = d
part_counts d (e ∷ es) = part_counts (insert e.part (count_of (lookup e.part d) + 1) d) es

unfoldable pub largest_count : Dict ℕ → ℕ
largest_count [] = 0
largest_count ((part, n) ∷ d) = let m = largest_count d in if ltb n m then m else n

abbrev last_time : ℕ → List ActionEvent → ℕ
last_time t [] = t
last_time t (e ∷ es) = last_time e.time es

abbrev at_least : ℤ → ℤ → ℤ
at_least low x = if ltb_ℤ x low then low else x

-- The positions of all joints of a part, where the state has them all.
abbrev pub joints_in : Dict ℤ → List String → Option (List ℤ)
joints_in d [] = some []
joints_in d (j ∷ js) = elim (lookup j d) [
  | none ↦ none
  | some x ↦ elim (joints_in d js) [ none ↦ none | some xs ↦ some (x ∷ xs) ]
]

abbrev add_pose : String → Option (List ℤ) → Dict (List ℤ) → Dict (List ℤ)
add_pose part none d = d
add_pose part (some p) d = insert part p d

abbrev add_new_pose : String → Option (List ℤ) → Dict (List ℤ) → Dict (List ℤ)
add_new_pose part none d = d
add_new_pose part (some p) d = insert_new part p d

-- One state, and one pass over the parts of the profile.
unfoldable pub state_poses : Dict PartConfig → Dict ℤ → Dict (List ℤ) → Dict (List ℤ)
state_poses [] s d = d
state_poses ((name, p) ∷ parts) s d =
    state_poses parts s (add_pose name (joints_in s p.joint_names) d)

unfoldable pub state_starts : Dict PartConfig → Dict ℤ → Dict (List ℤ) → Dict (List ℤ)
state_starts [] s d = d
state_starts ((name, p) ∷ parts) s d =
    state_starts parts s (add_new_pose name (joints_in s p.joint_names) d)

unfoldable pub merge_states : Dict PartConfig → ℕ → List StateEvent → List Frame
merge_states parts start [] = []
merge_states parts start (e ∷ es) =
    record { time = pos e.time -ℤ pos start; poses = state_poses parts e.positions [] }
    ∷ merge_states parts start es

unfoldable pub first_states : Dict PartConfig → Dict (List ℤ) → List StateEvent → Dict (List ℤ)
first_states parts d [] = d
first_states parts d (e ∷ es) = first_states parts (state_starts parts e.positions d) es

abbrev last_frame : ℤ → List Frame → ℤ
last_frame t [] = t
last_frame t (f ∷ fs) = last_frame f.time fs

-- The timeline from actions, that are sorted by time.
abbrev pub episode_of : ActionEvent → List ActionEvent → Episode
episode_of e es = record {
  timeline = merge_actions e.time [] (e ∷ es);
  frames = largest_count (part_counts [] (e ∷ es));
  duration = at_least (pos 10000000) (pos (last_time e.time es) -ℤ pos e.time);
  start_poses = first_poses [] (e ∷ es);
}

unfoldable pub from_actions : List ActionEvent → Result Episode
from_actions [] = err runtime_error
from_actions (e ∷ es) = ok (episode_of e es)

-- The fallback to joint states, sorted by time. At 10 ms or below, or with one frame, it is 50 Hz.
unfoldable pub from_states : Dict PartConfig → List StateEvent → Result Episode
from_states parts [] = err runtime_error
from_states parts (e ∷ es) =
    let timeline = merge_states parts e.time (e ∷ es) in
    let duration = last_frame (pos 0) timeline in
    let measured = ltb_ℤ (pos 10000000) duration && ltb 1 (length timeline) in
    ok (record {
      timeline = timeline;
      frames = if measured then length es else 50;
      duration = if measured then duration else pos 1000000000;
      start_poses = first_states parts [] (e ∷ es);
    })

-- `load_mcap_trajectory`
unfoldable pub load_trajectory : Dict PartConfig → List Recorded → Result Episode
load_trajectory parts messages =
    let (actions, states) = read_messages (parts_by_topic (action_topics parts) []) messages in
    if is_empty actions
    then from_states parts (sort_by (λ (e : StateEvent). e.time) states)
    else from_actions (sort_by (λ (e : ActionEvent). e.time) actions)
