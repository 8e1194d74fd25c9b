-- ===== src/Examples/Replays.antt =====
-- Examples of the replay script.
use physical_ai_runtime.Common.{Dict, List, [], err, ok, other_error, pos, refl, ℕ, ℤ, ◌∷◌, ◌≡◌}
use physical_ai_runtime.Config.{PartConfig}
use physical_ai_runtime.Apps.Replay.{
  ActionEvent, Episode, Frame, Recorded, action_topics, load_trajectory, parts_by_topic,
  read_action, read_messages,
}
use physical_ai_runtime.Apps.Replay.Timeline.{Loaded, load_trajectory-Loaded}
use physical_ai_runtime.Apps.Replay.Playing.{replay_frames}
use physical_ai_runtime.Apps.Replay.Playing.Paced.{Replayed, replay_frames-Replayed}
use physical_ai_runtime.Examples.{arm_agent, env, running_scope, running_scope-IsCoherent}
use physical_ai_runtime.Examples.Profiles.{arm_part}

abbrev arm_parts : Dict PartConfig
arm_parts = ("arm", arm_part) ∷ []

abbrev arm_message : ℕ → List ℤ → Recorded
arm_message t p = record {
  topic = "/execution/arm/joint_reference";
  log_time = t;
  as_trajectory = ok (p ∷ []);
  as_array = err other_error;
  as_state = err other_error;
}

-- The file holds the later message first.
abbrev arm_file : List Recorded
arm_file = arm_message 20 (pos 2 ∷ []) ∷ arm_message 10 (pos 1 ∷ []) ∷ []

abbrev arm_event : ℕ → List ℤ → ActionEvent
arm_event t p = record { time = t; part = "arm"; positions = p }

abbrev arm_events : List ActionEvent
arm_events = arm_event 20 (pos 2 ∷ []) ∷ arm_event 10 (pos 1 ∷ []) ∷ []

arm_file_events :
    read_messages (parts_by_topic (action_topics arm_parts) []) arm_file ≡ (arm_events, [])
unfolding read_messages parts_by_topic action_topics read_action
arm_file_events = refl

load_trajectory-Loaded_example :
    (e : Episode) × (load_trajectory arm_parts arm_file ≡ ok e) × Loaded arm_events e
load_trajectory-Loaded_example = load_trajectory-Loaded arm_parts arm_file arm_file_events refl

abbrev arm_frames : List Frame
arm_frames = record { time = pos 0; poses = ("arm", pos 1 ∷ []) ∷ [] } ∷ []

replay_frames-Replayed_example :
    (n : ℕ) × ((replay_frames env arm_agent (pos 100) arm_frames running_scope).0 ≡ ok tt → n ≡ 1)
    × Replayed
        (pos 100)
        arm_frames
        n
        running_scope
        (replay_frames env arm_agent (pos 100) arm_frames running_scope).1
replay_frames-Replayed_example =
    replay_frames-Replayed env arm_agent (pos 100) arm_frames running_scope running_scope-IsCoherent
