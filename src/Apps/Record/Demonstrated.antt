-- ===== src/Apps/Record/Demonstrated.antt =====
-- One attempt of apps/record.py, up to the question whether its episode is saved.
use physical_ai_runtime.Common.{
  Bool, List, Option, Result, Result-cases, String, [], arith, err, false, inl, inr, none, ok, pos,
  refl, some, sym, true, ℤ, ◌∙◌, ◌∷◌, ◌≡◌,
}
use mathlib.Core.Path.{subst}
use physical_ai_runtime.Recording.{
  Ending, EpisodeScope, Recorder, RecorderCall, activate, by_exception, by_interrupt, end_episode,
  enter_episode, exit_episode, finish_episode, new_episode, normally, send_call, stop_call,
}
use physical_ai_runtime.Apps.Teleop.{Leader, Press, enter_sessions, enters, set_teleop_preempt}
use physical_ai_runtime.Apps.Record.{
  Attempt, Attempted, EpisodeStatus, Station, Stop, Surroundings, after_block, attempt, demonstrate,
  finalized_directory, finished, halted, in_episode, record_episode, unless, with_folder,
}

module _ {Status : Type 0}
    (reply : List (RecorderCall × Result Status) → RecorderCall → Result Status) where
  enter_episode-discarded :
      (s : EpisodeScope Status) → (enter_episode reply s).1.discarded ≡ s.discarded
  unfolding enter_episode activate send_call
  enter_episode-discarded s = ground arith

  enter_episode-timeout :
      (s : EpisodeScope Status) → (enter_episode reply s).1.stop_timeout ≡ s.stop_timeout
  unfolding enter_episode activate send_call
  enter_episode-timeout s = ground arith

  -- The stop that ends an episode without an exception.
  exit_episode-stopped :
      (s : EpisodeScope Status) {u : Unit {0}}
      → s.discarded ≡ false
      → (exit_episode reply normally s).0 ≡ ok u
      → (status : Status) × ((exit_episode reply normally s).1.recorder.calls
          ≡ (stop_call s.stop_timeout, ok status) ∷ s.recorder.calls)
        × ((exit_episode reply normally s).1.final_status ≡ some status)
  unfolding exit_episode end_episode finish_episode send_call
  exit_episode-stopped s h e =
      elim (Result-cases (reply s.recorder.calls (stop_call s.stop_timeout))) [
        | inl (status, q) ↦ (status, ground arith, ground arith)
        | inr (x, q) ↦ absurd (ground arith)
      ]

after_block-finished :
    (w : Surroundings) (ending : Ending) (x : Result (Unit {0})) (status : Option EpisodeStatus)
    {dir : String}
    → after_block w ending x status ≡ finished dir
    → (ending ≡ normally) × (x ≡ ok tt) × (finalized_directory w status ≡ ok dir)
after_block-finished w ending (err e) status h = cc
after_block-finished w by_exception (ok u) status h = cc
after_block-finished w by_interrupt (ok u) status h = cc
after_block-finished w normally (ok u) status h =
    elim (Result-cases (finalized_directory w status)) [
      | inl (d, e) ↦ (refl, refl, ground arith)
      | inr (x, e) ↦ absurd (ground arith)
    ]

demonstrate-normally :
    (p : Press) (ending : Ending) (leaders : List Leader) (requests : List (String × Bool))
    → (demonstrate p ending leaders requests).0 ≡ normally
    → ((enter_sessions p leaders []).0 ≡ enters)
      × ((set_teleop_preempt p true leaders requests).0 ≡ true)
      × ((demonstrate p ending leaders requests).1
          ≡ (set_teleop_preempt p false leaders (set_teleop_preempt p true leaders requests).1).1)
unfolding demonstrate
demonstrate-normally p ending leaders requests h = ground arith

-- What a finished episode has behind it.
pub record Demonstrated (w : Surroundings) (a : Attempt) (leaders : List Leader) (dir : String)
    (s t : Station) : Type 0 where
  pub entered : (enter_sessions a.press leaders []).0 ≡ enters
  pub engaged : (set_teleop_preempt a.press true leaders s.requests).0 ≡ true
  pub released :
      t.requests
      ≡ (set_teleop_preempt a.press false leaders
          (set_teleop_preempt a.press true leaders s.requests).1).1
  pub status : EpisodeStatus
  pub earlier : List (RecorderCall × Result EpisodeStatus)
  pub recorded : t.recorder.calls ≡ (stop_call (pos 300000000000), ok status) ∷ earlier
  pub named : finalized_directory w (some status) ≡ ok dir

halted_ne_finished : {x : Stop} {dir : String} → halted x ≡ finished dir → ⊥
halted_ne_finished h = cc

unless-finished :
    (o : Option Stop) (s : Station) (x : Attempted × Station) {dir : String}
    → (unless o s x).0 ≡ finished dir
    → unless o s x ≡ x
unless-finished none s x h = refl
unless-finished (some e) s x h = absurd (halted_ne_finished h)

new_episode-fresh :
    (reply : List (RecorderCall × Result EpisodeStatus) → RecorderCall → Result EpisodeStatus)
    (r : Recorder EpisodeStatus) (task : String) (timeout : ℤ) (scope : EpisodeScope EpisodeStatus)
    → new_episode reply r task timeout ≡ ok scope
    → (scope.discarded ≡ false) × (scope.stop_timeout ≡ timeout)
unfolding new_episode
new_episode-fresh reply r task timeout scope h = ground arith

module _ (w : Surroundings) (a : Attempt) (leaders : List Leader) (s : Station) where
  closed_scope :
      (opened : EpisodeScope EpisodeStatus) {dir : String}
      → opened.discarded ≡ false
      → opened.stop_timeout ≡ pos 300000000000
      → (let (ending, requests) = demonstrate a.press a.demonstration leaders s.requests in
          let (x, closed) = exit_episode w.reply ending opened in
          after_block w ending x closed.final_status ≡ finished dir
          → Demonstrated w a leaders dir s
              (record s { recorder = closed.recorder; requests = requests }))
  closed_scope opened {dir} fresh timeout h =
      let (ending, requests) = demonstrate a.press a.demonstration leaders s.requests in
      let (x, closed) = exit_episode w.reply ending opened in
      let (normal, fine, named) = after_block-finished w ending x closed.final_status h in
      let (entered, engaged, released) =
        demonstrate-normally a.press a.demonstration leaders s.requests normal in
      let (status, calls, final) =
        exit_episode-stopped w.reply opened fresh
          (subst (λ (e : Ending). (exit_episode w.reply e opened).0 ≡ ok tt) normal fine) in
      record {
        entered = entered;
        engaged = engaged;
        released = released;
        status = status;
        earlier = opened.recorder.calls;
        recorded =
            subst
              (λ (e : Ending).
                (exit_episode w.reply e opened).1.recorder.calls
                ≡ (stop_call (pos 300000000000), ok status) ∷ opened.recorder.calls)
              (sym normal)
              (subst
                (λ t.
                  (exit_episode w.reply normally opened).1.recorder.calls
                  ≡ (stop_call t, ok status) ∷ opened.recorder.calls)
                timeout calls);
        named =
            subst (λ (o : Option EpisodeStatus). finalized_directory w o ≡ ok dir)
              (subst (λ (e : Ending). (exit_episode w.reply e opened).1.final_status ≡ some status)
                (sym normal) final)
              named;
      }

  in_episode-Demonstrated :
      (scope : EpisodeScope EpisodeStatus) {dir : String}
      → scope.discarded ≡ false
      → scope.stop_timeout ≡ pos 300000000000
      → (in_episode w a leaders scope s).0 ≡ finished dir
      → Demonstrated w a leaders dir s (in_episode w a leaders scope s).1
  in_episode-Demonstrated scope {dir} fresh timeout h =
      elim (Result-cases (enter_episode w.reply scope).0) [
        | inr (e, shut) ↦ absurd (halted_ne_finished (rw (shut, in_episode) at h))
        | inl (u, entered) ↦
            rw (entered, in_episode)
              (closed_scope (enter_episode w.reply scope).1
                (enter_episode-discarded w.reply scope ∙ fresh)
                (enter_episode-timeout w.reply scope ∙ timeout) (rw (entered, in_episode) at h))
      ]

  record_episode-Demonstrated :
      (task : String) {dir : String}
      → (record_episode w a leaders task s).0 ≡ finished dir
      → Demonstrated w a leaders dir s (record_episode w a leaders task s).1
  unfolding record_episode
  record_episode-Demonstrated task h =
      elim (Result-cases (new_episode w.reply s.recorder task (pos 300000000000))) [
        | inr (e, refused) ↦ absurd (halted_ne_finished (rw (refused, record_episode) at h))
        | inl (scope, made) ↦
            let (fresh, timeout) = new_episode-fresh w.reply s.recorder task _ scope made in
            rw (made, record_episode)
              (in_episode-Demonstrated scope fresh timeout (rw (made, record_episode) at h))
      ]

  -- An attempt that comes to the question has had all sessions entered and all leaders engaged, and
  -- has asked the leaders to release. The last call of the recorder was a stop that it accepted,
  -- and the directory is the one that its status names.
  pub attempt-Demonstrated :
      (task dir : String)
      → (attempt w a leaders task s).0 ≡ finished dir
      → Demonstrated w a leaders dir s (attempt w a leaders task s).1
  unfolding attempt
  attempt-Demonstrated task dir h =
      let inner = with_folder (record_episode w a leaders task s) in
      let same = unless-finished a.staging s (unless a.gate s inner) h in
      let same' = unless-finished a.gate s inner (subst (λ y. y.0 ≡ finished dir) same h) in
      subst (λ y. Demonstrated w a leaders dir s y.1) (sym (same ∙ same'))
        (with_folder-Demonstrated (record_episode w a leaders task s)
          (subst (λ y. y.0 ≡ finished dir) (same ∙ same') h) (record_episode-Demonstrated task))
    where
      with_folder-Demonstrated :
          (x : Attempted × Station)
          → (with_folder x).0 ≡ finished dir
          → (x.0 ≡ finished dir → Demonstrated w a leaders dir s x.1)
          → Demonstrated w a leaders dir s (with_folder x).1
      with_folder-Demonstrated (finished d, t) h known =
          let d' = known h in
          record {
            entered = d'.entered;
            engaged = d'.engaged;
            released = d'.released;
            status = d'.status;
            earlier = d'.earlier;
            recorded = d'.recorded;
            named = d'.named;
          }
      with_folder-Demonstrated (halted x, t) h known = absurd (halted_ne_finished h)
