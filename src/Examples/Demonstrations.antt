-- ===== src/Examples/Demonstrations.antt =====
-- Examples of the recording script.
use physical_ai_runtime.Common.{
  List, [], arith, false, leb, none, ok, pos, refl, some, true, ◌==◌, ◌↔◌, ◌∷◌, ◌≡◌,
}
use physical_ai_runtime.Apps.Record.Capture.{Ended, Pace, capture, capture-Ended}
use physical_ai_runtime.Recording.{
  activate, end_episode, enter_episode, exit_episode, finish_episode, new_episode, normally,
}
use physical_ai_runtime.Apps.Teleop.{
  Leader, Press, ask_leaders, confirmed, enter_sessions, enters, set_teleop_preempt,
}
use physical_ai_runtime.Apps.Record.Tasks.{normalize_task_name, strip}
use physical_ai_runtime.Apps.Record.Tasks.Names.{IsDirectoryName, normalize_task_name_lem}
use physical_ai_runtime.Apps.Record.Tasks.Stripping.{IsStripped}
use physical_ai_runtime.Apps.Record.{
  Attempt, Station, Surroundings, attempt, demonstrate, finalized_directory, record_episode,
  record_session,
}
use physical_ai_runtime.Apps.Record.Saved.{IsKept, record_session-IsKept}
use physical_ai_runtime.Apps.Record.Demonstrated.{Demonstrated, attempt-Demonstrated}

normalize_task_name_lem_example :
    (normalize_task_name " cup " ≡ ok "cup" ↔ (("cup" ≡ strip " cup ") × IsDirectoryName "cup"))
    × (normalize_task_name " cup " ≡ ok "cup"
        → IsStripped "cup" × (normalize_task_name "cup" ≡ ok "cup"))
normalize_task_name_lem_example = normalize_task_name_lem " cup " "cup"

-- A recorder that accepts every call, and one directory.
abbrev disk : Surroundings
disk = record {
  reply = λ calls c. ok (record { episode_path = "/d/episode_1" });
  is_dir = λ p. p == "/d/episode_1";
  parent = λ p. "/d";
  name = λ p. "episode_1";
  lower = λ s. s;
}

abbrev left_leader : List Leader
left_leader = record { name = "left"; service = some "/left/preempt" } ∷ []

abbrev willing : Press
willing = record {
  context_ok = true;
  entering = λ name. enters;
  reply = λ asked service. confirmed;
}

-- The operator discards the first demonstration and saves the second.
abbrev first_try : Attempt
first_try = record {
  staging = none;
  gate = none;
  press = willing;
  demonstration = normally;
  lines = "d" ∷ [];
}

abbrev bench : Station
bench = record {
  recorder = record { active = true; in_loop = false; calls = [] };
  requests = [];
  current = 1;
  saved = [];
  folders = [];
}

bench-IsKept : IsKept 2 bench
bench-IsKept = record { on_disk = tt; counted = omega arith; bounded = omega arith }

record_session-IsKept_example :
    IsKept 2 (record_session disk left_leader "cup" 2 willing (first_try ∷ []) bench).1
record_session-IsKept_example =
    record_session-IsKept disk left_leader "cup" 2 willing (first_try ∷ []) bench
      (λ dir h. (refl, λ c. tt)) bench-IsKept

attempt-Demonstrated_example :
    Demonstrated disk first_try left_leader "/d/episode_1" bench
      (attempt disk first_try left_leader "cup" bench).1
unfolding attempt record_episode demonstrate set_teleop_preempt ask_leaders enter_sessions
    new_episode enter_episode activate exit_episode end_episode finish_episode finalized_directory
attempt-Demonstrated_example =
    attempt-Demonstrated disk first_try left_leader bench "cup" "/d/episode_1" refl

-- Ten frames a second, and Enter after 250 ms.
abbrev ten_hertz : Pace
ten_hertz = record {
  period = 100;
  max_duration = pos 1000;
  start_time = 5;
  stop_event = λ t. leb 250 t;
  spent = λ t. 1;
  overslept = λ t. 2;
}

capture-Ended_example : Ended ten_hertz (record { now = 7; step_count = 0 }) (capture ten_hertz 7)
capture-Ended_example = capture-Ended ten_hertz 7 (omega arith) (omega arith)
