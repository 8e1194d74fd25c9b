-- ===== src/Sensing/Samples.antt =====
-- What a sensor of sensing.py keeps of the samples that it received.
use physical_ai_runtime.Common.{
  List, Option, Result, String, [], arith, drop, err, last?, last?-push_bounded, length,
  length-append, length-push_bounded, ltb-true, none, ok, refl, some, suc, true, zero, ℕ, ℤ, ◌++◌,
  ◌+◌, ◌-◌, ◌<◌, ◌∷◌, ◌≡◌, ◌≤◌,
}
use physical_ai_runtime.Sensing.{
  Header, Sample, Sensor, is_new, latest, latest_sample, new_sensor, on_sensor_message, sample_of,
  wait_from,
}

module _ {ℓ} {V : Type ℓ} where
  -- The numbers of the samples rise by one from the oldest to the newest.
  abbrev pub IsNumbered : ℕ → List (Sample V) → Type 0
  IsNumbered n [] = Unit
  IsNumbered n (s ∷ ss) = (s.sequence + length ss ≡ n) × IsNumbered n ss

  pub record IsFilled (s : Sensor V) : Type 0 where
    pub room : 0 < s.buffer.capacity
    pub bounded : length s.buffer.samples ≤ s.buffer.capacity
    pub numbered : IsNumbered s.sequence s.buffer.samples

  IsNumbered-append_one :
      (n : ℕ) (ss : List (Sample V)) (x : Sample V)
      → IsNumbered n ss
      → x.sequence ≡ n + 1
      → IsNumbered (n + 1) (ss ++ x ∷ [])
  IsNumbered-append_one n [] x h e = (omega arith, tt)
  IsNumbered-append_one n (s ∷ ss) x h e =
      (omega (arith, length-append ss (x ∷ [])), IsNumbered-append_one n ss x h.1 e)

  IsNumbered-drop : (n k : ℕ) (ss : List (Sample V)) → IsNumbered n ss → IsNumbered n (drop k ss)
  IsNumbered-drop n zero ss h = h
  IsNumbered-drop n (suc k) [] h = h
  IsNumbered-drop n (suc k) (s ∷ ss) h = IsNumbered-drop n k ss h.1

  none-ne-some : {y : Sample V} → none ≡ some y → ⊥
  none-ne-some e = cc

  ap-sequence : (s y : Sample V) → some s ≡ some y → s.sequence ≡ y.sequence
  ap-sequence s y e = cc

  IsNumbered-last :
      (n : ℕ) (ss : List (Sample V)) (y : Sample V)
      → IsNumbered n ss
      → last? ss ≡ some y
      → y.sequence ≤ n
  IsNumbered-last n [] y h e = absurd (none-ne-some e)
  IsNumbered-last n (s ∷ []) y h e = omega (arith, ap-sequence s y e)
  IsNumbered-last n (s ∷ t ∷ ts) y h e = IsNumbered-last n (t ∷ ts) y h.1 e

  wait_from-bound : (s : Sensor V) → IsFilled s → wait_from none s.buffer ≤ s.sequence
  unfolding wait_from latest
  wait_from-bound s f =
      let go = λ (o : Option (Sample V)) (h : last? s.buffer.samples ≡ o).
        ((elim o
            as (λ o'.
              last? s.buffer.samples ≡ o'
              → elim o' [ none ↦ 0 | some y ↦ y.sequence ] ≤ s.sequence) [
                | none ↦ λ h'. omega arith
                | some y ↦ λ h'. IsNumbered-last s.sequence s.buffer.samples y f.numbered h'
              ])
          h) in
      go (last? s.buffer.samples) refl

  -- A sensor that holds at most its history of samples, with numbers that rise by one up to the
  -- number of the last message, is again such a sensor after a message, whether it converts or not.
  pub on_sensor_message-IsFilled :
      (t : ℤ) (h : Header) (v : Result V) (s : Sensor V)
      → IsFilled s
      → IsFilled (on_sensor_message t h v s)
  unfolding on_sensor_message
  on_sensor_message-IsFilled t h (err e) s f = f
  on_sensor_message-IsFilled t h (ok v) s f =
      let x = sample_of t h v (s.sequence + 1) in
      record {
        room = f.room;
        bounded = length-push_bounded s.buffer.capacity s.buffer.samples x f.bounded;
        numbered =
            IsNumbered-drop (s.sequence + 1) (length s.buffer.samples + 1 - s.buffer.capacity)
              (s.buffer.samples ++ x ∷ [])
              (IsNumbered-append_one s.sequence s.buffer.samples x f.numbered refl);
      }

  pub new_sensor-IsFilled :
      (name topic : String) (size : ℤ) {s : Sensor V}
      → new_sensor name topic size ≡ ok s
      → IsFilled s
  unfolding new_sensor
  new_sensor-IsFilled name topic size h = ground arith

  -- After a message that converts, the latest sample is the one of that message, with the next
  -- number and the stamp of its header, or the time of receipt if the stamp is not positive. A wait
  -- for a sample newer than the last one then ends with it.
  pub latest-on_sensor_message :
      (t : ℤ) (h : Header) (v : V) (s : Sensor V)
      → IsFilled s
      → let s' = on_sensor_message t h (ok v) s in
        (latest_sample s' ≡ ok (sample_of t h v (s.sequence + 1)))
        × (is_new (wait_from none s.buffer) s'.buffer ≡ true)
  unfolding on_sensor_message latest_sample latest
  latest-on_sensor_message t h v s f =
      let x = sample_of t h v (s.sequence + 1) in
      let e = last?-push_bounded s.buffer.capacity s.buffer.samples x f.room in
      (
        rw e refl,
        rw (e, is_new)
            (ltb-true (wait_from none s.buffer) (s.sequence + 1)
              (omega (arith, wait_from-bound s f))),
      )
