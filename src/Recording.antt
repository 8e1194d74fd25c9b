-- ===== src/Recording.antt =====
-- src/interfaces/rmi/rmi/recording.py: the client of the episode recorder service, and the scope of
-- one recorded episode. The service is not in the repository: `reply` is its answer, which depends
-- on the calls before. Console output, log lines and the spinner are not modelled.
pub mod Memory
pub mod Exits
pub mod Episodes
use physical_ai_runtime.Common.{
  Bool, Error, Exec, List, Option, Result, String, cancelled_error, catch, err, false, finally,
  gets, if◌then◌else◌, leb_ℤ, lift, modify, none, not, ok, pos, runtime_error, some, true,
  value_error, ℤ, ◌==◌, ◌>>=◌, ◌>>◌, ◌∷◌,
}

-- RecorderServiceClient
pub data RecorderCall : Type 0 where
  activate_call prepare_call status_call discard_call close_call : RecorderCall
  ready_call : ℤ → RecorderCall
  start_call : String → RecorderCall
  stop_call : ℤ → RecorderCall

-- How a `with` block ends.
pub data Ending : Type 0 where
  -- an exception below `Exception`, or KeyboardInterrupt
  by_exception by_interrupt normally : Ending

-- EpisodeRecorder
pub record Recorder (Status : Type 0) : Type 0 where
  pub active : Bool
  -- whether the thread of the caller runs an asyncio loop, in which `_run_sync` refuses every call
  pub in_loop : Bool
  -- the calls sent and their answers, the newest first
  pub calls : List (RecorderCall × Result Status)

-- EpisodeScope, beside the recorder it holds
pub record EpisodeScope (Status : Type 0) : Type 0 where
  pub recorder : Recorder Status
  pub task : String
  pub stop_timeout : ℤ
  pub started_status : Option Status
  pub final_status : Option Status
  pub entered : Bool
  pub discarded : Bool

-- `except Exception` logs an exception; a cancellation is none.
abbrev pub logged : Error → Result (Unit {0})
logged cancelled_error = err cancelled_error
logged _ = ok tt

module _ {Status : Type 0}
    (reply : List (RecorderCall × Result Status) → RecorderCall → Result Status) where
  unfoldable pub send_call : RecorderCall → Exec (Recorder Status) Status
  send_call call r =
      let answer = if r.in_loop then err runtime_error else reply r.calls call in
      (answer, record r { calls = if r.in_loop then r.calls else (call, answer) ∷ r.calls })

  unfoldable pub activate : Exec (Recorder Status) (Unit {0})
  unfolding send_call
  activate r =
      let start = do
        u ← send_call activate_call
        v ← send_call prepare_call
        modify (λ q. record q { active = true })
      in if r.active then (ok tt, r) else start r

  unfoldable pub recorder_wait_ready : ℤ → Exec (Recorder Status) Status
  recorder_wait_ready timeout = do activate; send_call (ready_call timeout)

  unfoldable pub recorder_status : Exec (Recorder Status) Status
  recorder_status = do activate; send_call status_call

  unfoldable pub recorder_discard : Exec (Recorder Status) Status
  recorder_discard = do activate; send_call discard_call

  unfoldable pub recorder_close : Exec (Recorder Status) (Unit {0})
  recorder_close r =
      let stop = do u ← send_call close_call; modify (λ q. record q { active = false })
      in if r.active then stop r else (ok tt, r)

  unfoldable pub new_episode : Recorder Status → String → ℤ → Result (EpisodeScope Status)
  new_episode r task stop_timeout =
      if task == ""
      then err value_error
      else if leb_ℤ stop_timeout (pos 0)
      then err value_error
      else ok (record {
        recorder = r;
        task = task;
        stop_timeout = stop_timeout;
        started_status = none;
        final_status = none;
        entered = false;
        discarded = false;
      })

  -- A call of the scope's recorder.
  abbrev pub on_recorder : {A : Type 0} → Exec (Recorder Status) A → Exec (EpisodeScope Status) A
  on_recorder m s = let (r, q) = m s.recorder in (r, record s { recorder = q })

  unfoldable pub enter_episode : Exec (EpisodeScope Status) (Unit {0})
  enter_episode = do
    raise_if_entered
    on_recorder activate
    answer ← on_recorder_start
    modify (λ s. record s { started_status = some answer; entered = true })
    where
      raise_if_entered : Exec (EpisodeScope Status) (Unit {0})
      raise_if_entered s = (if s.entered then err runtime_error else ok tt, s)

      on_recorder_start : Exec (EpisodeScope Status) Status
      on_recorder_start s = on_recorder (send_call (start_call s.task)) s

  -- The discard itself: the answer becomes the final status.
  unfoldable pub discard_now : Exec (EpisodeScope Status) (Unit {0})
  discard_now = do
    answer ← on_recorder (send_call discard_call)
    modify (λ s. record s { final_status = some answer; discarded = true })

  unfoldable pub discard_episode : Exec (EpisodeScope Status) (Option Status)
  discard_episode s =
      if not s.entered
      then (err runtime_error, s)
      else if s.discarded
      then (ok s.final_status, s)
      else (do discard_now; gets (λ t. t.final_status)) s

  unfoldable pub finish_episode : Exec (EpisodeScope Status) (Unit {0})
  finish_episode s =
      (do
        answer ← on_recorder (send_call (stop_call s.stop_timeout))
        modify (λ t. record t { final_status = some answer }))
        s

  -- The body of `__exit__`.
  unfoldable pub end_episode : Ending → Exec (EpisodeScope Status) (Unit {0})
  end_episode ending s =
      let dropped = catch discard_now (λ e. lift (logged e)) s in
      let finished = finish_episode s in
      if s.discarded
      then (ok tt, s)
      else elim ending [ normally ↦ finished | by_exception ↦ dropped | by_interrupt ↦ dropped ]

  -- `__exit__`: the scope is left whatever happens.
  unfoldable pub exit_episode : Ending → Exec (EpisodeScope Status) (Unit {0})
  exit_episode ending = finally (end_episode ending) (modify (λ s. record s { entered = false }))
