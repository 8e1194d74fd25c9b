-- ===== src/Sensing.antt =====
-- src/interfaces/rmi/rmi/sensing.py: timestamped samples in a bounded buffer, and the sensors that
-- fill it. Times are in nanoseconds.
pub mod Samples
pub mod Waits
use physical_ai_runtime.Common.{
  Bool, List, Option, Result, String, [], err, false, has_name, if◌then◌else◌, is_some, last?,
  leb_ℤ, ltb, none, ok, or_raise, pos, pos_part, push_bounded, runtime_error, some, value_error, ℕ,
  ℤ, ◌+◌, ◌==◌, ◌∷◌,
}

-- TimestampedSample
pub record Sample {ℓ} (V : Type ℓ) : Type ℓ where
  pub value : V
  pub source_time : ℤ
  pub receive_time : ℤ
  pub sequence : ℕ
  pub frame_id : String

-- SampleBuffer, less its condition variable
pub record SampleBuffer {ℓ} (V : Type ℓ) : Type ℓ where
  pub capacity : ℕ
  pub samples : List (Sample V)

module _ {ℓ} {V : Type ℓ} where
  unfoldable pub new_buffer : ℤ → Result (SampleBuffer V)
  new_buffer capacity =
      if leb_ℤ capacity (pos 0)
      then err value_error
      else ok (record { capacity = pos_part capacity; samples = [] })

  unfoldable pub add : Sample V → SampleBuffer V → SampleBuffer V
  add s b = record b { samples = push_bounded b.capacity b.samples s }

  unfoldable pub latest : SampleBuffer V → Option (Sample V)
  latest b = last? b.samples

-- The header of a message: none, one without a stamp, or a stamp and a frame.
pub data Header : Type 0 where
  no_header : Header
  no_stamp : String → Header
  stamped : ℤ → String → Header

-- `_header_metadata`
unfoldable pub header_metadata : Header → ℤ → ℤ × String
header_metadata no_header receive_time = (receive_time, "")
header_metadata (no_stamp frame) receive_time = (receive_time, frame)
header_metadata (stamped t frame) receive_time =
    (if leb_ℤ t (pos 0) then receive_time else t, frame)

-- Sensor: `M` is the type of its messages.
pub record Sensor {ℓ} (V : Type ℓ) : Type ℓ where
  pub name : String
  pub topic : String
  pub buffer : SampleBuffer V
  pub sequence : ℕ

module _ {ℓ} {V : Type ℓ} where
  unfoldable pub new_sensor : String → String → ℤ → Result (Sensor V)
  unfolding new_buffer
  new_sensor name topic history_size =
      if name == ""
      then err value_error
      else if topic == ""
      then err value_error
      else elim (new_buffer {V = V} history_size) [
        | err e ↦ err e
        | ok b ↦ ok (record { name = name; topic = topic; buffer = b; sequence = 0 })
      ]

  -- The sample that `_on_message` makes of a message that arrives at `receive_time`.
  abbrev pub sample_of : ℤ → Header → V → ℕ → Sample V
  sample_of receive_time h v n =
      let (t, frame) = header_metadata h receive_time in
      record {
        value = v;
        source_time = t;
        receive_time = receive_time;
        sequence = n;
        frame_id = frame;
      }

  -- The converter may raise, and then nothing changes.
  unfoldable pub on_sensor_message : ℤ → Header → Result V → Sensor V → Sensor V
  unfolding add
  on_sensor_message receive_time h (err e) s = s
  on_sensor_message receive_time h (ok v) s = record s {
    sequence = s.sequence + 1;
    buffer = add (sample_of receive_time h v (s.sequence + 1)) s.buffer;
  }

  unfoldable pub latest_sample : Sensor V → Result (Sample V)
  latest_sample s = or_raise (latest s.buffer) runtime_error

  abbrev pub has_sample : Sensor V → Bool
  has_sample s = is_some (latest s.buffer)

  -- `wait_next`: the number after which a sample counts as new, fixed when the wait begins.
  unfoldable pub wait_from : Option ℕ → SampleBuffer V → ℕ
  wait_from (some n) b = n
  wait_from none b = elim (latest b) [ none ↦ 0 | some s ↦ s.sequence ]

  abbrev pub is_new : ℕ → SampleBuffer V → Bool
  is_new after b = elim (latest b) [ none ↦ false | some s ↦ ltb after s.sequence ]

-- `encoding.lower() in {"jpeg", "jpg", "mjpeg"}`, over an encoding in lower case
abbrev pub is_compressed : String → Bool
is_compressed encoding = has_name encoding ("jpeg" ∷ "jpg" ∷ "mjpeg" ∷ [])
