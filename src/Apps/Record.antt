-- ===== src/Apps/Record.antt =====
-- apps/record.py: demonstrations of one task are recorded, and saved or discarded by the operator.
-- The task name and the recorder configuration are in Tasks, the motion to the staging pose in
-- Staging, the loop over the frames in Capture. Here is the loop of `main`: what the operator
-- types, how the homings end and what the leaders answer are data of each attempt; the recorder
-- service is a parameter.
pub mod Tasks
pub mod Staging
pub mod Course
pub mod Saved
pub mod Demonstrated
pub mod Capture
use physical_ai_runtime.Common.{
  Bool, Error, List, Option, Result, String, [], err, false, if◌then◌else◌, is_some, keep, leb,
  none, not, ok, pos, runtime_error, some, true, ℕ, ◌&&◌, ◌+◌, ◌==◌, ◌||◌, ◌∷◌,
}
use text.Mathlib.Text.{find?}
use physical_ai_runtime.Recording.{
  Ending, EpisodeScope, Recorder, RecorderCall, by_exception, by_interrupt, enter_episode,
  exit_episode, new_episode, normally,
}
use physical_ai_runtime.Apps.Teleop.{
  Leader, Press, breaks_off, enter_sessions, enters, refuses, set_teleop_preempt,
}
use physical_ai_runtime.Apps.Record.Tasks.{strip}

-- The status of the recorder, as far as the script reads it.
pub record EpisodeStatus : Type 0 where
  pub episode_path : String

-- What ends the session early: an exception, or Ctrl+C and the end of the input.
pub data Stop : Type 0 where
  raised : Error → Stop
  interrupted : Stop

-- One round of the loop: how the staging and the prompt end, what the leaders do, how the
-- demonstration ends once they are engaged, and the lines that are typed afterwards. A
-- demonstration is cut off by Ctrl+C, or it ends, and then the exit of a session may raise an
-- exception or not.
pub record Attempt : Type 0 where
  pub staging : Option Stop
  pub gate : Option Stop
  pub press : Press
  pub demonstration : Ending
  pub lines : List String

-- The recorder service, the file system and `str.lower`.
pub record Surroundings : Type 0 where
  pub reply : List (RecorderCall × Result EpisodeStatus) → RecorderCall → Result EpisodeStatus
  pub is_dir : String → Bool
  pub parent : String → String
  pub name : String → String
  pub lower : String → String

-- The variables of `main`, and the directories on the disk. The newest are first.
pub record Station : Type 0 where
  pub recorder : Recorder EpisodeStatus
  pub requests : List (String × Bool)
  pub current : ℕ
  pub saved : List String
  pub folders : List String

-- The body of the recorder's `with` block: the sessions are entered, the leaders engaged, and
-- released again after the demonstration. Sessions are left in any case. The loop in between is
-- in Capture; here it ends, or Ctrl+C cuts it off. Where the exit of a session raises, so does the
-- block.
unfoldable pub demonstrate :
    Press → Ending → List Leader → List (String × Bool) → Ending × List (String × Bool)
demonstrate p ending leaders requests =
    let (last, names) = enter_sessions p leaders [] in
    let (engaged, asked) = set_teleop_preempt p true leaders requests in
    let released = (set_teleop_preempt p false leaders asked).1 in
    elim last [
      | refuses ↦ (by_exception, requests)
      | breaks_off ↦ (by_interrupt, requests)
      | enters ↦ if not engaged then (by_exception, released) else elim ending [
        | by_interrupt ↦ (by_interrupt, asked)
        | by_exception ↦ (by_exception, released)
        | normally ↦ (normally, released)
      ]
    ]

-- What an attempt comes to: the directory of a finished episode, or the end of the program.
pub data Attempted : Type 0 where
  finished : String → Attempted
  halted : Stop → Attempted

-- `_finalized_episode_directory`
unfoldable pub finalized_directory : Surroundings → Option EpisodeStatus → Result String
finalized_directory w none = err runtime_error
finalized_directory w (some status) =
    if status.episode_path == ""
    then err runtime_error
    else if w.is_dir status.episode_path
    then ok status.episode_path
    else ok (w.parent status.episode_path)

abbrev outcome_of : Result String → Attempted
outcome_of (err e) = halted (raised e)
outcome_of (ok dir) = finished dir

-- After the `with` block: its own exception, or that of its exit.
abbrev pub after_block :
    Surroundings → Ending → Result (Unit {0}) → Option EpisodeStatus → Attempted
after_block w ending (err e) status = halted (raised e)
after_block w by_exception (ok u) status = halted (raised runtime_error)
after_block w by_interrupt (ok u) status = halted interrupted
after_block w normally (ok u) status = outcome_of (finalized_directory w status)

-- `with recorder.episode(...) as ep:` around the body, with a stop timeout of 300 seconds
abbrev pub in_episode :
    Surroundings
    → Attempt
    → List Leader
    → EpisodeScope EpisodeStatus
    → Station
    → Attempted × Station
in_episode w a leaders scope s =
    let (r, opened) = enter_episode w.reply scope in
    let (ending, requests) = demonstrate a.press a.demonstration leaders s.requests in
    let (x, closed) = exit_episode w.reply ending opened in
    elim r [
      | err e ↦ (halted (raised e), record s { recorder = opened.recorder })
      | ok u ↦ (
        after_block w ending x closed.final_status,
        record s { recorder = closed.recorder; requests = requests },
      )
    ]

unfoldable pub record_episode :
    Surroundings → Attempt → List Leader → String → Station → Attempted × Station
record_episode w a leaders task s = elim (new_episode w.reply s.recorder task (pos 300000000000)) [
  | err e ↦ (halted (raised e), s)
  | ok scope ↦ in_episode w a leaders scope s
]

-- One round up to the question. A finished episode has its directory on the disk.
abbrev pub with_folder : Attempted × Station → Attempted × Station
with_folder (finished dir, s) = (finished dir, record s { folders = dir ∷ s.folders })
with_folder (halted x, s) = (halted x, s)

-- What comes before may end the program.
abbrev pub unless : Option Stop → Station → Attempted × Station → Attempted × Station
unless (some x) s rest = (halted x, s)
unless none s rest = rest

unfoldable pub attempt :
    Surroundings → Attempt → List Leader → String → Station → Attempted × Station
attempt w a leaders task s =
    unless a.staging s (unless a.gate s (with_folder (record_episode w a leaders task s)))

pub data Choice : Type 0 where
  save discard again quit : Choice

-- A replay, or an answer that means nothing, asks once more.
unfoldable pub read_choice : Surroundings → String → Choice
read_choice w line =
    let c = w.lower (strip line) in
    if c == "" || c == "s" || c == "save"
    then save
    else if c == "d" || c == "discard"
    then discard
    else if c == "q" || c == "quit"
    then quit
    else again

-- The loop of the question: `none` is the end of the input.
unfoldable pub ask_choice : Surroundings → List String → Option Choice
ask_choice w [] = none
ask_choice w (line ∷ lines) =
    let more = ask_choice w lines in
    elim (read_choice w line) [
      | save ↦ some save
      | discard ↦ some discard
      | quit ↦ some quit
      | again ↦ more
    ]

-- `shutil.rmtree`, for a directory that is named like an episode
unfoldable pub remove_folder : Surroundings → String → List String → List String
remove_folder w dir folders =
    if not (dir == "") && (w.is_dir dir && is_some (find? (w.name dir) "episode_"))
    then keep (λ f. not (f == dir)) folders
    else folders

unfoldable pub apply_choice : Surroundings → ℕ → Choice → String → Station → Station
apply_choice w target save dir s = record s { saved = dir ∷ s.saved; current = s.current + 1 }
apply_choice w target discard dir s = record s { folders = remove_folder w dir s.folders }
apply_choice w target again dir s = s
apply_choice w target quit dir s = record s { current = target + 1 }

-- The `finally` of the session: the leaders are released.
unfoldable pub close_session : Press → List Leader → Station → Station
close_session p leaders s = record s {
  requests = (set_teleop_preempt p false leaders s.requests).1;
}

-- The loop of `main`, up to the staging after these attempts. The answer says how the session
-- ended, or `none` where it goes on; `true` is the normal end, and Ctrl+C is one too.
pub data Closed : Type 0 where
  complete cancelled : Closed
  failed : Error → Closed

abbrev pub closed_by : Stop → Closed
closed_by (raised e) = failed e
closed_by interrupted = cancelled

-- What follows an attempt: the question, and the next round.
abbrev pub next_round :
    Surroundings
    → List String
    → Press
    → List Leader
    → (Choice → String → Station → Option Closed × Station)
    → Attempted × Station
    → Option Closed × Station
next_round w lines last leaders go_on (halted x, t) =
    (some (closed_by x), close_session last leaders t)
next_round w lines last leaders go_on (finished dir, t) = elim (ask_choice w lines) [
  | none ↦ (some cancelled, close_session last leaders t)
  | some c ↦ go_on c dir t
]

unfoldable pub record_session :
    Surroundings
    → List Leader
    → String
    → ℕ
    → Press
    → List Attempt
    → Station
    → Option Closed × Station
record_session w leaders task target last [] s =
    if leb s.current target then (none, s) else (some complete, close_session last leaders s)
record_session w leaders task target last (a ∷ as') s =
    let rest =
      next_round w a.lines last leaders
        (λ c dir t. record_session w leaders task target last as' (apply_choice w target c dir t))
        (attempt w a leaders task s) in
    if leb s.current target then rest else (some complete, close_session last leaders s)
