-- ===== src/Replay.antt =====
-- src/interfaces/rmi/rmi/replay.py: recorded actions, their new times, and the pace of a replay.
-- The bag reader is not in the repository: an episode is given as its topics and its records, and
-- `deserialize` is a parameter. A payload of a type that cannot be replayed is `unsupported`.
pub mod Timeline
use physical_ai_runtime.Common.{
  Bool, Error, List, Option, Result, String, [], err, false, has_name, if◌then◌else◌, keep, ltb_ℤ,
  none, not, ok, pos, pos_part, runtime_error, some, type_error, value_error, ℕ, ℤ, ◌%◌, ◌+ℤ◌, ◌-ℤ◌,
  ◌/◌, ◌==◌, ◌||◌, ◌∷◌,
}

pub data Decoded (M : Type 0) : Type 0 where
  supported : M → Decoded M
  unsupported : Decoded M

-- RecordedAction
pub record RecordedAction (M : Type 0) : Type 0 where
  pub source_time : ℤ
  pub payload : Decoded M

-- ActionTimestampRebaser
pub record Rebaser : Type 0 where
  pub source_origin : Option ℤ
  pub ros_origin : ℤ
  pub steady_origin : ℤ
  pub last_source : Option ℤ

abbrev pub new_rebaser : Rebaser
new_rebaser = record {
  source_origin = none;
  ros_origin = pos 0;
  steady_origin = pos 0;
  last_source = none;
}

abbrev is_negative : ℤ → Bool
is_negative t = ltb_ℤ t (pos 0)

unfoldable pub start_rebaser : ℤ → ℤ → ℤ → Rebaser → Result Rebaser
start_rebaser source_origin ros_origin steady_origin r =
    if is_negative source_origin || is_negative ros_origin || is_negative steady_origin
    then err value_error
    else ok (record {
      source_origin = some source_origin;
      ros_origin = ros_origin;
      steady_origin = steady_origin;
      last_source = none;
    })

-- A message with its new stamp, and the time at which it is due on the steady clock.
pub record Rewritten (M : Type 0) : Type 0 where
  pub message : M
  pub stamp_sec : ℕ
  pub stamp_nanosec : ℕ
  pub deadline : ℤ

-- `t // 10**9` and `t % 10**9` of a time that is not negative
abbrev sec_of : ℤ → ℕ
sec_of t = pos_part t / 1000000000

abbrev nanosec_of : ℤ → ℕ
nanosec_of t = pos_part t % 1000000000

abbrev precedes : ℤ → Option ℤ → Bool
precedes t none = false
precedes t (some last) = ltb_ℤ t last

module _ {M : Type 0} where
  unfoldable pub rewrite : Decoded M → ℤ → Rebaser → Result (Rewritten M × Rebaser)
  rewrite payload t r = elim r.source_origin [
    | none ↦ err runtime_error
    | some origin ↦
        if ltb_ℤ t origin
        then err value_error
        else if precedes t r.last_source
        then err value_error
        else elim payload [
          | unsupported ↦ err type_error
          | supported m ↦
              let stamp = r.ros_origin +ℤ (t -ℤ origin) in
              ok (
                record {
                  message = m;
                  stamp_sec = sec_of stamp;
                  stamp_nanosec = nanosec_of stamp;
                  deadline = r.steady_origin +ℤ (t -ℤ origin);
                },
                record r { last_source = some t },
              )
        ]
  ]

-- One record of a bag: its topic, its bytes and the time it was recorded.
pub record BagRecord (B : Type 0) : Type 0 where
  pub topic : String
  pub bytes : B
  pub record_time : ℤ

-- McapActionSource; `reader` holds the records that an open reader has still to give.
pub record ActionSource (B : Type 0) : Type 0 where
  pub topic : String
  pub reader : Option (List (BagRecord B))

module _ {B M : Type 0} (deserialize : B → Decoded M) where
  -- `_open_reader`, of an episode with these topics and records
  unfoldable pub open_reader :
      List String → List (BagRecord B) → ActionSource B → Result (ActionSource B)
  open_reader topics records s =
      if not (has_name s.topic topics)
      then err value_error
      else ok (record s { reader = some (keep (λ r. r.topic == s.topic) records) })

  abbrev pub close_source : ActionSource B → ActionSource B
  close_source s = record s { reader = none }

  abbrev decode_all : String → List (BagRecord B) → List (RecordedAction M)
  decode_all topic [] = []
  decode_all topic (r ∷ rs) =
      let rest = decode_all topic rs in
      if r.topic == topic
      then record { source_time = r.record_time; payload = deserialize r.bytes } ∷ rest
      else rest

  unfoldable pub actions : ActionSource B → Result (List (RecordedAction M))
  actions s = elim s.reader [ none ↦ err runtime_error | some rs ↦ ok (decode_all s.topic rs) ]

-- How long the player sleeps before a message that is due at `deadline`: not at all if it is late.
abbrev pub delay_of : ℤ → ℤ → ℕ
delay_of deadline now = pos_part (deadline -ℤ now)

-- What a replay gives: its messages, each with the sleep before it, and the exception that ended
-- it.
abbrev pub Playback : Type 0 → Type 0
Playback M = List (Rewritten M × ℕ) × Option Error

module _ {M : Type 0} where
  -- The turns of the loop, each action with the reading of the steady clock at its turn.
  unfoldable pub play_turns : List (RecordedAction M × ℤ) → Rebaser → Playback M
  play_turns [] r = ([], none)
  play_turns ((a, now) ∷ rest) r = elim (rewrite a.payload a.source_time r) [
    | err e ↦ ([], some e)
    | ok (m, r') ↦ let (ms, e) = play_turns rest r' in ((m, delay_of m.deadline now) ∷ ms, e)
  ]

  -- `__iter__`: the first action gives the origin of the recorded times, and the two clocks are
  -- read once for theirs.
  unfoldable pub play : Bool → ℤ → ℤ → List (RecordedAction M × ℤ) → Playback M
  play opened ros_now steady_now [] = ([], if opened then none else some runtime_error)
  play opened ros_now steady_now ((a, now) ∷ rest) =
      if not opened
      then ([], some runtime_error)
      else elim (start_rebaser a.source_time ros_now steady_now new_rebaser) [
        | err e ↦ ([], some e)
        | ok r ↦ play_turns ((a, now) ∷ rest) r
      ]
