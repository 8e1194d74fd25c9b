-- ===== src/Apps/Record/Capture.antt =====
-- The loop of `main` in apps/record.py that runs while the operator demonstrates: it counts frames
-- at the recording rate until Enter is pressed or the time is over. Times are in nanoseconds of the
-- steady clock.
use physical_ai_runtime.Common.{
  Bool, Bool-cases, arith, false, if◌then◌else◌, inl, inr, is_past, ltb, pos_part, suc, true, zero,
  ℕ, ℤ, ◌*◌, ◌+◌, ◌-◌, ◌<◌, ◌≡◌, ◌≤◌,
}

-- The period of a frame, the limit, the clock before the block was entered; when Enter has been
-- pressed, how long the body of a round takes, and how much longer than asked a sleep lasts.
pub record Pace : Type 0 where
  pub period : ℕ
  pub max_duration : ℤ
  pub start_time : ℕ
  pub stop_event : ℕ → Bool
  pub spent : ℕ → ℕ
  pub overslept : ℕ → ℕ

pub record Capture : Type 0 where
  pub now : ℕ
  pub step_count : ℕ

-- How the loop ended. `stuck` stands for a loop whose rounds ran out.
pub data Captured : Type 0 where
  finished timed_out stuck : Capture → Captured

-- `if t_spent < dt: time.sleep(dt - t_spent)`
unfoldable pub round_end : Pace → ℕ → ℕ
round_end p now =
    if ltb (p.spent now) p.period then now + p.period + p.overslept now else now + p.spent now

abbrev pub count_frame : Capture → Capture
count_frame c = record c { step_count = c.step_count + 1 }

abbrev pub next_frame : Pace → Capture → Capture
next_frame p c = record { now = round_end p c.now; step_count = c.step_count + 1 }

unfoldable pub capture_frames : ℕ → Pace → Capture → Captured
capture_frames zero p c = stuck c
capture_frames (suc f) p c =
    let rest = capture_frames f p (next_frame p c) in
    if p.stop_event c.now
    then finished c
    else if is_past p.start_time p.max_duration c.now
    then timed_out (count_frame c)
    else rest

-- The loop from its first reading of the clock.
unfoldable pub capture : Pace → ℕ → Captured
capture p now =
    capture_frames (pos_part p.max_duration + 2) p (record { now = now; step_count = 0 })

round_end-later : (p : Pace) (now : ℕ) → now + p.period ≤ round_end p now
unfolding round_end
round_end-later p now = ground arith

-- The frames from `c` to `d` take a period each, but for `extra` of them.
abbrev InPace : Pace → ℕ → Capture → Capture → Type 0
InPace p extra c d = c.now + d.step_count * p.period ≤ d.now + (c.step_count + extra) * p.period

-- What the loop may end in, from a round that begins with `c`.
abbrev pub Ended : Pace → Capture → Captured → Type 0
Ended p c (finished d) = (p.stop_event d.now ≡ true) × (c.now ≤ d.now) × InPace p 0 c d
Ended p c (timed_out d) =
    (p.stop_event d.now ≡ false)
    × (is_past p.start_time p.max_duration d.now ≡ true)
    × (c.now ≤ d.now)
    × InPace p 1 c d
Ended p c (stuck d) = ⊥

InPace-next :
    (p : Pace) (extra : ℕ) (c d : Capture) → InPace p extra (next_frame p c) d → InPace p extra c d
InPace-next p extra c d h = omega (arith, h, round_end-later p c.now)

Ended-next : (p : Pace) (c : Capture) (x : Captured) → Ended p (next_frame p c) x → Ended p c x
Ended-next p c (finished d) (on, later, pace) =
    (on, omega (arith, later, round_end-later p c.now), InPace-next p 0 c d pace)
Ended-next p c (timed_out d) (off, past, later, pace) =
    (off, past, omega (arith, later, round_end-later p c.now), InPace-next p 1 c d pace)
Ended-next p c (stuck d) h = h

capture_frames-Ended :
    (p : Pace)
    → 0 < p.period
    → (f : ℕ) (c : Capture) → p.start_time + pos_part p.max_duration + 1 - c.now < f
    → Ended p c (capture_frames f p c)
unfolding capture_frames
capture_frames-Ended p positive zero c room = absurd (omega arith)
capture_frames-Ended p positive (suc f) c room = elim (Bool-cases (p.stop_event c.now)) [
  | inl on ↦ rw on (on, omega arith, omega arith)
  | inr off ↦ elim (Bool-cases (is_past p.start_time p.max_duration c.now)) [
    | inl past ↦ rw off (rw past (off, past, omega arith, omega arith))
    | inr early ↦ rw off (
        rw early
          (Ended-next p c _ (capture_frames-Ended p positive f (next_frame p c) (shorter early))))
  ]
]
  where
    shorter :
        is_past p.start_time p.max_duration c.now ≡ false
        → p.start_time + pos_part p.max_duration + 1 - (next_frame p c).now < f
    shorter early = grind (arith, round_end-later p c.now)

-- At a positive rate the loop ends, whether Enter is pressed or not. It ends because Enter has been
-- pressed, or, where it has not, because the maximal duration has passed since the start; and it
-- never counts frames faster than one in a period, but for the last one of a loop that timed out.
pub capture-Ended :
    (p : Pace) (now : ℕ)
    → 0 < p.period
    → p.start_time ≤ now
    → Ended p (record { now = now; step_count = 0 }) (capture p now)
unfolding capture
capture-Ended p now positive began = capture_frames-Ended p positive _ _ (omega arith)
