-- ===== src/Sensing/Waits.antt =====
-- The blocking waits of src/interfaces/rmi/rmi/sensing.py: SampleBuffer.wait_next, and the
-- Sensor.wait_until_ready and Sensor.wait_next that call it. The condition variable wakes the
-- waiter at some later time, after the messages that came in between.
use physical_ai_runtime.Common.{
  Exec, List, Option, Option-cases, Result, [], arith, err, false, if◌then◌else◌, inl, inr, is_past,
  none, ok, pos_part, some, stuck_error, timeout_error, true, ℕ, ℤ, ◌+◌, ◌<◌, ◌∷◌, ◌≡◌, ◌≤◌,
}
use physical_ai_runtime.Waiting.Bounds.{Ends, wait_loop-Ends}
use physical_ai_runtime.World.{rounds}
use physical_ai_runtime.Sensing.{
  Header, Sample, SampleBuffer, Sensor, has_sample, is_new, latest, latest_sample,
  on_sensor_message, wait_from,
}
use physical_ai_runtime.Sensing.Samples.{IsFilled, on_sensor_message-IsFilled}
use mathlib.Core.List.{foldl}
use physical_ai_runtime.Waiting.{Wait, expired, ready, stuck, wait_loop}

-- A message as `_on_message` receives it: its time, its header and what the converter gives for it.
pub record Arrival (V : Type 0) : Type 0 where
  pub receive_time : ℤ
  pub header : Header
  pub value : Result V

-- When a wait on the condition that begins at a time ends, and what arrives until then.
pub record Stream (V : Type 0) : Type 0 where
  pub wake : ℕ → ℕ
  pub arrivals : ℕ → List (Arrival V)

-- A sensor and the steady clock.
pub record Watch (V : Type 0) : Type 0 where
  pub now : ℕ
  pub sensor : Sensor V

module _ {V : Type 0} where
  abbrev receive : Sensor V → Arrival V → Sensor V
  receive s a = on_sensor_message a.receive_time a.header a.value s

  -- `self._condition.wait(remaining)`
  unfoldable pub condition_wait : Stream V → Watch V → Watch V
  condition_wait st w = record {
    now = st.wake w.now;
    sensor = foldl receive w.sensor (st.arrivals w.now);
  }

  abbrev waited : Wait (Watch V) → Result (Sample V) × Watch V
  waited (ready w) = (latest_sample w.sensor, w)
  waited (expired w) = (err timeout_error, w)
  waited (stuck w) = (err stuck_error, w)

  unfoldable pub wait_next : Stream V → Option ℕ → ℤ → Exec (Watch V) (Sample V)
  wait_next st after timeout w =
      let n = wait_from after w.sensor.buffer in
      waited (
        wait_loop (rounds timeout) (λ v. is_new n v.sensor.buffer)
          (λ v. is_past w.now timeout v.now) (condition_wait st) w)

  -- `Sensor.wait_until_ready`
  unfoldable pub wait_sensor_until_ready : Stream V → ℤ → Exec (Watch V) (Unit {0})
  wait_sensor_until_ready st timeout w =
      let (r, v) = wait_next st none timeout w in
      if has_sample w.sensor then (ok tt, w) else elim r [ ok s ↦ (ok tt, v) | err e ↦ (err e, v) ]

  -- What a wait keeps: the sensor is in order, and the clock does not go back.
  pub record Watched (w v : Watch V) : Type 0 where
    pub filled : IsFilled v.sensor
    pub later : w.now ≤ v.now

  -- How a wait for a sample after number `n` ends.
  pub data Next (n : ℕ) (timeout : ℤ) (w : Watch V) : Result (Sample V) × Watch V → Type 0 where
    arrived :
        (x : Sample V) (v : Watch V)
        → latest v.sensor.buffer ≡ some x
        → n < x.sequence
        → Watched w v
        → Next n timeout w (ok x, v)
    missed :
        (v : Watch V)
        → is_new n v.sensor.buffer ≡ false
        → is_past w.now timeout v.now ≡ true
        → Watched w v
        → Next n timeout w (err timeout_error, v)

  foldl-receive-IsFilled :
      (as' : List (Arrival V)) (s : Sensor V) → IsFilled s → IsFilled (foldl receive s as')
  foldl-receive-IsFilled [] s f = f
  foldl-receive-IsFilled (a ∷ as') s f =
      foldl-receive-IsFilled as' (receive s a)
        (on_sensor_message-IsFilled a.receive_time a.header a.value s f)

  some_new :
      (n : ℕ) (b : SampleBuffer V)
      → is_new n b ≡ true
      → (x : Sample V) × (latest b ≡ some x) × (n < x.sequence)
  some_new n b h = elim (Option-cases (latest b)) [
    | inl e ↦ absurd (ground arith)
    | inr (x, e) ↦ (x, e, ground arith)
  ]

  module _ (st : Stream V) (wakes : (t : ℕ) → t < st.wake t) (timeout : ℤ) (w : Watch V) where
    condition_wait-Watched : (v : Watch V) → Watched w v → Watched w (condition_wait st v)
    unfolding condition_wait
    condition_wait-Watched v h = record {
      filled = foldl-receive-IsFilled (st.arrivals v.now) v.sensor h.filled;
      later = omega (arith, h.later, wakes v.now);
    }

    condition_wait-later : (v : Watch V) → v.now < (condition_wait st v).now
    unfolding condition_wait
    condition_wait-later v = wakes v.now

    waited-Next :
        (n : ℕ) (x : Wait (Watch V))
        → Ends
            (λ v. Watched w v × (is_new n v.sensor.buffer ≡ true))
            (λ v.
              Watched w v
              × (is_new n v.sensor.buffer ≡ false)
              × (is_past w.now timeout v.now ≡ true))
            x
        → Next n timeout w (waited x)
    unfolding latest_sample
    waited-Next n (ready v) (h, fresh) =
        let (x, e, newer) = some_new n v.sensor.buffer fresh in rw e (arrived x v e newer h)
    waited-Next n (expired v) (h, old, past) = missed v old past h
    waited-Next n (stuck v) h = absurd h

    -- Where the waiter wakes up after some time, a wait on a sensor in order ends: with the latest
    -- sample, whose number is above the given one or else above the latest at the beginning; or
    -- with a TimeoutError once the time is over and no such sample has come.
    pub wait_next-Next :
        (after : Option ℕ)
        → IsFilled w.sensor
        → Next (wait_from after w.sensor.buffer) timeout w (wait_next st after timeout w)
    unfolding wait_next
    wait_next-Next after f =
        let n = wait_from after w.sensor.buffer in
        waited-Next n _ (
          wait_loop-Ends (λ v. v.now) (λ v. is_new n v.sensor.buffer)
            (λ v. is_past w.now timeout v.now) (condition_wait st) (Watched w)
            condition_wait-Watched (λ v h. condition_wait-later v) (w.now + pos_part timeout)
            (rounds timeout) w (λ v h past. ground arith) (omega arith)
            (record { filled = f; later = omega arith }))
