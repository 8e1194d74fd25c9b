-- ===== src/Recording/Episodes.antt =====
-- The end of a recorded episode in recording.py: the calls that leave for the recorder service.
use physical_ai_runtime.Common.{
  Bool, Bool-cases, List, Result, [], ap, arith, err, err-ne-ok, false, if◌then◌else◌, inl, inr, ok,
  refl, runtime_error, suc, sym, true, zero, ℕ, ◌&&◌, ◌+◌, ◌∙◌, ◌∷◌, ◌≡◌,
}
use physical_ai_runtime.Recording.{
  Ending, EpisodeScope, RecorderCall, activate, by_exception, by_interrupt, discard_call,
  discard_episode, discard_now, enter_episode, exit_episode, normally, send_call, stop_call,
}
use physical_ai_runtime.Recording.Exits.{
  after_drop, after_stop, exit_episode-discarded, exit_episode-drop_refused, exit_episode-drops,
  exit_episode-stop_refused, exit_episode-stops, is_ok,
}
use mathlib.Core.Path.{subst}

abbrev finishes : RecorderCall → Bool
finishes discard_call = true
finishes (stop_call t) = true
finishes c = false

module _ {Status : Type 0} where
  -- How many of the calls to stop or to discard the service accepted.
  abbrev pub finished_calls : List (RecorderCall × Result Status) → ℕ
  finished_calls [] = 0
  finished_calls ((c, r) ∷ cs) = (if finishes c && is_ok r then 1 else 0) + finished_calls cs

module _ {Status : Type 0}
    (reply : List (RecorderCall × Result Status) → RecorderCall → Result Status) where
  -- The body of a `with` block that discards its episode a number of times, catching what it
  -- raises.
  abbrev pub discards : ℕ → EpisodeScope Status → EpisodeScope Status
  discards zero s = s
  discards (suc n) s = discards n (discard_episode reply s).1

  -- An entered scope whose episode has been finished by one accepted call or, not yet discarded,
  -- by none, since `n` calls were accepted.
  record IsOpen (n : ℕ) (s : EpisodeScope Status) : Type 0 where
    pub entered : s.entered ≡ true
    pub counted : finished_calls s.recorder.calls ≡ n + (if s.discarded then 1 else 0)

  discard_episode-IsOpen :
      (n : ℕ) (s : EpisodeScope Status) → IsOpen n s → IsOpen n (discard_episode reply s).1
  unfolding discard_episode discard_now send_call
  discard_episode-IsOpen n s o = ground arith

  discards-IsOpen : (n k : ℕ) (s : EpisodeScope Status) → IsOpen n s → IsOpen n (discards k s)
  discards-IsOpen n zero s o = o
  discards-IsOpen n (suc k) s o =
      discards-IsOpen n k (discard_episode reply s).1 (discard_episode-IsOpen n s o)

  -- What leaving does: a scope that was discarded sends nothing more. One that ends normally sends
  -- one stop, and raises what it raises. One that ends with an exception sends one discard, and
  -- raises no failure of the discard but a cancellation. Inside a running loop nothing is sent,
  -- which raises a RuntimeError where a stop was due.
  pub data Closed (s : EpisodeScope Status)
      : Ending → Result (Unit {0}) × EpisodeScope Status → Type 0 where
    kept : {e : Ending} → s.discarded ≡ true → Closed s e (ok tt, record s { entered = false })
    stopped :
        (r : Result Status)
        → s.discarded ≡ false
        → s.recorder.in_loop ≡ false
        → reply s.recorder.calls (stop_call s.stop_timeout) ≡ r
        → Closed s normally (after_stop s r)
    dropped :
        {e : Ending} (r : Result Status)
        → s.discarded ≡ false
        → s.recorder.in_loop ≡ false
        → (e ≡ normally → ⊥)
        → reply s.recorder.calls discard_call ≡ r
        → Closed s e (after_drop s r)
    stop_refused :
        s.discarded ≡ false
        → s.recorder.in_loop ≡ true
        → Closed s normally (err runtime_error, record s { entered = false })
    drop_refused :
        {e : Ending}
        → s.discarded ≡ false
        → s.recorder.in_loop ≡ true
        → (e ≡ normally → ⊥)
        → Closed s e (ok tt, record s { entered = false })

  drop_open :
      (e : Ending) (s : EpisodeScope Status)
      → s.discarded ≡ false
      → (e ≡ normally → ⊥)
      → Closed s e (exit_episode reply e s)
  drop_open e s h n =
      let r = reply s.recorder.calls discard_call in
      elim (Bool-cases s.recorder.in_loop) [
        | inl l ↦
            subst (Closed s e) (sym (exit_episode-drop_refused reply e s h l n))
              (drop_refused h l n)
        | inr l ↦
            subst (Closed s e) (sym (exit_episode-drops reply e s r h l n refl))
              (dropped r h l n refl)
      ]

  exit_open :
      (e : Ending) (s : EpisodeScope Status)
      → s.discarded ≡ false
      → Closed s e (exit_episode reply e s)
  exit_open normally s h =
      let r = reply s.recorder.calls (stop_call s.stop_timeout) in
      elim (Bool-cases s.recorder.in_loop) [
        | inl l ↦
            subst (Closed s normally) (sym (exit_episode-stop_refused reply s h l))
              (stop_refused h l)
        | inr l ↦
            subst (Closed s normally) (sym (exit_episode-stops reply s r h l refl))
              (stopped r h l refl)
      ]
  exit_open by_exception s h = drop_open by_exception s h (λ n. cc)
  exit_open by_interrupt s h = drop_open by_interrupt s h (λ n. cc)

  -- However its block ends, leaving a scope that was discarded sends nothing. Otherwise, a block
  -- that ends normally sends one stop, and raises what it raises; one that ends with an exception
  -- sends one discard, and a failure of the discard is raised only if it is a cancellation. Inside
  -- a running asyncio loop neither is sent, and a missing stop raises a RuntimeError. The scope is
  -- then not entered.
  pub exit_episode-Closed :
      (e : Ending) (s : EpisodeScope Status) → Closed s e (exit_episode reply e s)
  exit_episode-Closed e s = elim (Bool-cases s.discarded) [
    | inl h ↦ subst (Closed s e) (sym (exit_episode-discarded reply e s h)) (kept h)
    | inr h ↦ exit_open e s h
  ]

  finished_of :
      (n : ℕ) (e : Ending) (s : EpisodeScope Status)
      → IsOpen n s
      → (p : Result (Unit {0}) × EpisodeScope Status) → Closed s e p
      → e ≡ normally
      → p.0 ≡ ok tt
      → (p.1.entered ≡ false) × (finished_calls p.1.recorder.calls ≡ n + 1)
  finished_of n e s o p (kept d) h i = (refl, ground arith)
  finished_of n e s o p (stopped (ok a) d l q) h i = (refl, ground arith)
  finished_of n e s o p (stopped (err x) d l q) h i = absurd (err-ne-ok i)
  finished_of n e s o p (dropped r d l x q) h i = absurd (x h)
  finished_of n e s o p (stop_refused d l) h i = absurd (err-ne-ok i)
  finished_of n e s o p (drop_refused d l x) h i = absurd (x h)

  discards-discarded :
      (k : ℕ) (s : EpisodeScope Status) → s.entered ≡ true → s.discarded ≡ true → discards k s ≡ s
  unfolding discard_episode
  discards-discarded zero s e d = refl
  discards-discarded (suc k) s e d = ap (discards k) (once s e d) ∙ discards-discarded k s e d
    where
      once :
          (s : EpisodeScope Status)
          → s.entered ≡ true
          → s.discarded ≡ true
          → (discard_episode reply s).1 ≡ s
      once s e d = unfold discard_episode in rw (e, d) refl

  -- What an entry that returned has changed: no call finished an episode.
  enter_episode-open :
      (s : EpisodeScope Status) {t : EpisodeScope Status}
      → enter_episode reply s ≡ (ok tt, t)
      → (t.entered ≡ true)
        × (t.discarded ≡ s.discarded)
        × (finished_calls t.recorder.calls ≡ finished_calls s.recorder.calls)
  unfolding enter_episode activate send_call
  enter_episode-open s h = ground arith

  -- A scope is entered, discards its episode any number of times, and its block ends normally. If
  -- leaving it raises nothing, then the service has accepted exactly one more call that stops or
  -- discards an episode; but none, if the scope had been discarded before it was entered.
  pub episode-finished_once :
      (k : ℕ) (s : EpisodeScope Status) {t : EpisodeScope Status}
      → enter_episode reply s ≡ (ok tt, t)
      → (exit_episode reply normally (discards k t)).0 ≡ ok tt
      → let s' = (exit_episode reply normally (discards k t)).1 in
        (s'.entered ≡ false)
        × (finished_calls s'.recorder.calls
            ≡ finished_calls s.recorder.calls + (if s.discarded then 0 else 1))
  episode-finished_once k s {t} entering h =
      let (entered, same, calls) = enter_episode-open s entering in
      let u = discards k t in
      elim (Bool-cases s.discarded) [
        | inr fresh ↦
            let o : IsOpen (finished_calls s.recorder.calls) t = record {
              entered = entered;
              counted = calls ∙ rw (same ∙ fresh) (omega arith);
            } in
            rw fresh (
              finished_of (finished_calls s.recorder.calls) normally u
                (discards-IsOpen (finished_calls s.recorder.calls) k t o)
                (exit_episode reply normally u) (exit_episode-Closed normally u) refl h)
        | inl again ↦
            let left =
              ap (exit_episode reply normally) (discards-discarded k t entered (same ∙ again))
              ∙ exit_episode-discarded reply normally t (same ∙ again) in
            (
              ap (λ (p : Result (Unit {0}) × EpisodeScope Status). p.1.entered) left,
              ap
                    (λ (p : Result (Unit {0}) × EpisodeScope Status).
                      finished_calls p.1.recorder.calls)
                    left
                  ∙ calls
                  ∙ rw again (omega arith),
            )
      ]
