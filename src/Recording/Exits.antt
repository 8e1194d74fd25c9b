-- ===== src/Recording/Exits.antt =====
-- `EpisodeScope.__exit__` of recording.py, branch by branch.
use physical_ai_runtime.Common.{
  Bool, List, Result, arith, cancelled_error, err, false, ok, refl, runtime_error, some, true, ◌∷◌,
  ◌≡◌,
}
use physical_ai_runtime.Recording.{
  Ending, EpisodeScope, RecorderCall, by_exception, by_interrupt, discard_call, discard_now,
  end_episode, exit_episode, finish_episode, logged, normally, send_call, stop_call,
}

module _ {Status : Type 0} where
  abbrev pub is_ok : Result Status → Bool
  is_ok (ok a) = true
  is_ok (err e) = false

  abbrev pub after_stop :
      EpisodeScope Status → Result Status → Result (Unit {0}) × EpisodeScope Status
  after_stop s r = (
    elim r [ ok a ↦ ok tt | err e ↦ err e ],
    record s {
      recorder = record s.recorder { calls = (stop_call s.stop_timeout, r) ∷ s.recorder.calls };
      final_status = elim r [ ok a ↦ some a | err e ↦ s.final_status ];
      entered = false;
    },
  )

  abbrev pub after_drop :
      EpisodeScope Status → Result Status → Result (Unit {0}) × EpisodeScope Status
  after_drop s r = (
    elim r [ ok a ↦ ok tt | err e ↦ logged e ],
    record s {
      recorder = record s.recorder { calls = (discard_call, r) ∷ s.recorder.calls };
      final_status = elim r [ ok a ↦ some a | err e ↦ s.final_status ];
      discarded = is_ok r;
      entered = false;
    },
  )

module _ {Status : Type 0}
    (reply : List (RecorderCall × Result Status) → RecorderCall → Result Status) where
  pub exit_episode-discarded :
      (e : Ending) (s : EpisodeScope Status)
      → s.discarded ≡ true
      → exit_episode reply e s ≡ (ok tt, record s { entered = false })
  unfolding exit_episode end_episode
  exit_episode-discarded e s h = rw (h, exit_episode) refl

  pub exit_episode-stops :
      (s : EpisodeScope Status) (r : Result Status)
      → s.discarded ≡ false
      → s.recorder.in_loop ≡ false
      → reply s.recorder.calls (stop_call s.stop_timeout) ≡ r
      → exit_episode reply normally s ≡ after_stop s r
  unfolding exit_episode end_episode finish_episode send_call
  exit_episode-stops s (ok a) h l e = ground arith
  exit_episode-stops s (err x) h l e = ground arith

  pub exit_episode-drops :
      (e : Ending) (s : EpisodeScope Status) (r : Result Status)
      → s.discarded ≡ false
      → s.recorder.in_loop ≡ false
      → (e ≡ normally → ⊥)
      → reply s.recorder.calls discard_call ≡ r
      → exit_episode reply e s ≡ after_drop s r
  unfolding exit_episode end_episode discard_now send_call
  exit_episode-drops normally s r h l n e = absurd (n refl)
  exit_episode-drops by_exception s (ok a) h l n e = ground arith
  exit_episode-drops by_exception s (err cancelled_error) h l n e = ground arith
  exit_episode-drops by_exception s (err _) h l n e = ground arith
  exit_episode-drops by_interrupt s (ok a) h l n e = ground arith
  exit_episode-drops by_interrupt s (err cancelled_error) h l n e = ground arith
  exit_episode-drops by_interrupt s (err _) h l n e = ground arith

  pub exit_episode-stop_refused :
      (s : EpisodeScope Status)
      → s.discarded ≡ false
      → s.recorder.in_loop ≡ true
      → exit_episode reply normally s ≡ (err runtime_error, record s { entered = false })
  unfolding exit_episode end_episode finish_episode send_call
  exit_episode-stop_refused s h l = ground arith

  pub exit_episode-drop_refused :
      (e : Ending) (s : EpisodeScope Status)
      → s.discarded ≡ false
      → s.recorder.in_loop ≡ true
      → (e ≡ normally → ⊥)
      → exit_episode reply e s ≡ (ok tt, record s { entered = false })
  unfolding exit_episode end_episode discard_now send_call
  exit_episode-drop_refused normally s h l n = absurd (n refl)
  exit_episode-drop_refused by_exception s h l n = ground arith
  exit_episode-drop_refused by_interrupt s h l n = ground arith
