-- ===== src/Apps/Replay/Homing.antt =====
-- `generate_quintic_transition` of apps/replay.py: a plan from one pose to another. The arithmetic
-- of Python's floats is an argument.
use physical_ai_runtime.Common.Try.{◌>>=◌}
use physical_ai_runtime.Common.{
  List, Option, Result, String, [], err, if◌then◌else◌, index_error, ltb, ltb_ℤ, ok, pos, some, suc,
  true, zero, ℕ, ℤ, ◌∷◌,
}
use physical_ai_runtime.Messages.{PlanPoint, PlanResult}

-- The operations of floats, on the integers that stand for them: `number` is the float of an `int`,
-- `seconds` the float of a time in nanoseconds, and `nanoseconds` the time of such a float.
pub record Floats : Type 0 where
  pub number : ℕ → ℤ
  pub add : ℤ → ℤ → ℤ
  pub subtract : ℤ → ℤ → ℤ
  pub multiply : ℤ → ℤ → ℤ
  pub divide : ℤ → ℤ → ℤ
  pub power : ℤ → ℕ → ℤ
  pub seconds : ℤ → ℤ
  pub nanoseconds : ℤ → ℤ

abbrev pub times : Floats → ℕ → ℤ → ℤ
times f k x = f.multiply (f.number k) x

-- `s = i / steps`
abbrev pub phase : Floats → ℕ → ℕ → ℤ
phase f n i = f.divide (f.number i) (f.number n)

-- `10.0 * (s**3) - 15.0 * (s**4) + 6.0 * (s**5)`
unfoldable pub blend : Floats → ℤ → ℤ
blend f s =
    f.add (f.subtract (times f 10 (f.power s 3)) (times f 15 (f.power s 4)))
      (times f 6 (f.power s 5))

-- `30.0 * (s**2) - 60.0 * (s**3) + 30.0 * (s**4)`
unfoldable pub blend_rate : Floats → ℤ → ℤ
blend_rate f s =
    f.add (f.subtract (times f 30 (f.power s 2)) (times f 60 (f.power s 3)))
      (times f 30 (f.power s 4))

-- `[... for j in range(len(q_start))]`: a goal that is too short raises.
unfoldable pub joint_wise : (ℤ → ℤ → ℤ) → List ℤ → List ℤ → Result (List ℤ)
joint_wise f [] bs = ok []
joint_wise f (a ∷ as') [] = err index_error
joint_wise f (a ∷ as') (b ∷ bs) = joint_wise f as' bs >>= λ xs. ok (f a b ∷ xs)

abbrev pub not_below : ℤ → ℤ → ℤ
not_below low x = if ltb_ℤ x low then low else x

-- One entry of `pos`, and of `vel`
unfoldable pub position_of : Floats → ℕ → ℕ → ℤ → ℤ → ℤ
position_of f n i a b = f.add a (f.multiply (blend f (phase f n i)) (f.subtract b a))

unfoldable pub velocity_of : Floats → ℤ → ℕ → ℕ → ℤ → ℤ → ℤ
velocity_of f duration n i a b =
    let scale =
      f.divide (blend_rate f (phase f n i)) (f.seconds (not_below (pos 100000000) duration)) in
    f.multiply scale (f.subtract b a)

module _ (f : Floats) (start goal : List ℤ) (duration : ℤ) (n : ℕ) where
  abbrev pub point_of : ℕ → List ℤ → List ℤ → PlanPoint
  point_of i ps vs = record {
    positions = ps;
    velocities = some vs;
    accelerations = Option.none;
    time_from_start = f.nanoseconds (f.multiply (phase f n i) (f.seconds duration));
  }

  unfoldable pub quintic_point : ℕ → Result PlanPoint
  quintic_point i = joint_wise (position_of f n i) start goal >>= λ ps.
      joint_wise (velocity_of f duration n i) start goal >>= λ vs. ok (point_of i ps vs)

  -- `for i in range(steps + 1)`, with the rounds that are left
  unfoldable pub quintic_points : ℕ → ℕ → Result (List PlanPoint)
  quintic_points zero i = quintic_point i >>= λ p. ok (p ∷ [])
  quintic_points (suc d) i =
      let rest = quintic_points d (suc i) in quintic_point i >>= λ p. rest >>= λ ps. ok (p ∷ ps)

-- `max(steps, 10)`
abbrev pub step_count : ℕ → ℕ
step_count steps = if ltb steps 10 then 10 else steps

unfoldable pub generate_quintic_transition :
    Floats → List String → List ℤ → List ℤ → ℤ → ℕ → Result PlanResult
generate_quintic_transition f names start goal duration steps =
    quintic_points f start goal duration (step_count steps) (step_count steps) 0 >>= λ ps.
    ok (record { valid = true; joint_names = some names; points = ps })
