-- ===== src/Examples/Records.antt =====
-- Examples of the sensors, of the recorder, of the replay buffer and of a replay.
use physical_ai_runtime.Common.{
  List, Result, [], arith, false, none, ok, pos, refl, some, true, ℕ, ℤ, ◌+◌, ◌∷◌, ◌≡◌,
}
use physical_ai_runtime.Sensing.{Sensor, latest, no_header, on_sensor_message, stamped, wait_from}
use physical_ai_runtime.Sensing.Samples.{IsFilled, on_sensor_message-IsFilled}
use physical_ai_runtime.Sensing.Waits.{Next, Stream, Watch, wait_next, wait_next-Next}
use physical_ai_runtime.Recording.{
  EpisodeScope, RecorderCall, activate, by_interrupt, discard_episode, discard_now, end_episode,
  enter_episode, exit_episode, normally, send_call,
}
use physical_ai_runtime.Recording.Episodes.{
  Closed, discards, episode-finished_once, exit_episode-Closed, finished_calls,
}
use physical_ai_runtime.Recording.Memory.{
  MemoryBuffer, enter_memory, exit_memory, last_episode, steps, steps-Recorded,
}
use physical_ai_runtime.Replay.{RecordedAction, play, supported}
use physical_ai_runtime.Replay.Timeline.{AllOnTime, IsTimeline, play-OnTime}

abbrev force_sensor : Sensor ℕ
force_sensor = record {
  name = "force";
  topic = "/force";
  buffer = record { capacity = 2; samples = [] };
  sequence = 0;
}

force_sensor-IsFilled : IsFilled force_sensor
force_sensor-IsFilled = record { room = omega arith; bounded = omega arith; numbered = tt }

on_sensor_message-IsFilled_example :
    IsFilled (on_sensor_message (pos 9) (stamped (pos 8) "tool") (ok 3) force_sensor)
on_sensor_message-IsFilled_example =
    on_sensor_message-IsFilled (pos 9) (stamped (pos 8) "tool") (ok 3) force_sensor
      force_sensor-IsFilled

-- One message in every wait of ten.
abbrev force_stream : Stream ℕ
force_stream = record {
  wake = λ t. t + 10;
  arrivals = λ t. record { receive_time = pos 9; header = no_header; value = ok t } ∷ [];
}

abbrev force_watch : Watch ℕ
force_watch = record { now = 3; sensor = force_sensor }

wait_next-Next_example :
    Next 0 (pos 50) force_watch (wait_next force_stream none (pos 50) force_watch)
unfolding wait_from latest
wait_next-Next_example =
    wait_next-Next force_stream (λ t. omega arith) (pos 50) force_watch none force_sensor-IsFilled

-- A service that accepts every call.
abbrev accepts_all : List (RecorderCall × Result ℕ) → RecorderCall → Result ℕ
accepts_all calls c = ok 0

abbrev open_episode : EpisodeScope ℕ
open_episode = record {
  recorder = record { active = true; in_loop = false; calls = [] };
  task = "pick";
  stop_timeout = pos 300;
  started_status = some 0;
  final_status = none;
  entered = true;
  discarded = false;
}

exit_episode-Closed_example :
    Closed accepts_all open_episode by_interrupt
      (exit_episode accepts_all by_interrupt open_episode)
exit_episode-Closed_example = exit_episode-Closed accepts_all by_interrupt open_episode

abbrev fresh_episode : EpisodeScope ℕ
fresh_episode = record open_episode { started_status = none; entered = false }

episode-finished_once_example :
    let t = (enter_episode accepts_all fresh_episode).1 in
    let s' = (exit_episode accepts_all normally (discards accepts_all 2 t)).1 in
    (s'.entered ≡ false) × (finished_calls s'.recorder.calls ≡ 1)
unfolding enter_episode activate exit_episode end_episode discard_episode discard_now send_call
episode-finished_once_example = episode-finished_once accepts_all 2 fresh_episode refl refl

abbrev small_memory : MemoryBuffer ℕ
small_memory = record { capacity = 2; transitions = 1 ∷ 2 ∷ []; current_episode = 2 ∷ [] }

steps-Recorded_example :
    let b' = exit_memory (steps (3 ∷ 4 ∷ 5 ∷ []) (enter_memory small_memory)) in
    (last_episode b' ≡ 3 ∷ 4 ∷ 5 ∷ []) × (b'.transitions ≡ 4 ∷ 5 ∷ [])
steps-Recorded_example = steps-Recorded (3 ∷ 4 ∷ 5 ∷ []) small_memory (omega arith)

abbrev first_action : RecordedAction ℕ
first_action = record { source_time = pos 100; payload = supported 1 }

abbrev later_actions : List (RecordedAction ℕ × ℤ)
later_actions = (record { source_time = pos 150; payload = supported 2 }, pos 20) ∷ []

later_actions-IsTimeline : IsTimeline (pos 100) ((first_action, pos 7) ∷ later_actions)
later_actions-IsTimeline = (omega arith, (λ h. cc), (omega arith, (λ h. cc), tt))

play-OnTime_example :
    let p = play true (pos 5000) (pos 7) ((first_action, pos 7) ∷ later_actions) in
    (p.1 ≡ none)
    × AllOnTime (pos 100) (pos 5000) (pos 7) ((first_action, pos 7) ∷ later_actions) p.0
play-OnTime_example =
    play-OnTime (pos 5000) (pos 7) first_action (pos 7) later_actions (omega arith) (omega arith)
      (omega arith) later_actions-IsTimeline
