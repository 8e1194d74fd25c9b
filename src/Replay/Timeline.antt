-- ===== src/Replay/Timeline.antt =====
-- replay.py: the recorded distances in time and those of the replay, on both clocks.
use physical_ai_runtime.Common.{
  +ℤ_nonneg, List, Option, [], ap, arith, le-add_difference, ltb_ℤ-false, none, ok, pos,
  pos-pos_part, pos_part, refl, some, sym, true, ℕ, ℤ, ◌%◌, ◌*◌, ◌+ℤ◌, ◌+◌, ◌-ℤ◌, ◌/◌, ◌<◌, ◌∙◌,
  ◌∷◌, ◌≡◌, ◌≤ℤ◌,
}
use physical_ai_runtime.Replay.{
  Decoded, Rebaser, RecordedAction, Rewritten, delay_of, play, play_turns, rewrite, start_rebaser,
  supported, unsupported,
}
use mathlib.Core.Path.{subst}

abbrev running : ℤ → ℤ → ℤ → Option ℤ → Rebaser
running origin ros steady t = record {
  source_origin = some origin;
  ros_origin = ros;
  steady_origin = steady;
  last_source = t;
}

abbrev IsLast : ℤ → Option ℤ → Type 0
IsLast t none = Unit
IsLast t (some u) = u ≡ t

module _ {M : Type 0} where
  -- The times of a recording do not fall, and every payload can be replayed.
  abbrev pub IsTimeline : ℤ → List (RecordedAction M × ℤ) → Type 0
  IsTimeline t [] = Unit
  IsTimeline t ((a, now) ∷ rest) =
      (t ≤ℤ a.source_time) × (¬ (a.payload ≡ unsupported)) × IsTimeline a.source_time rest

  -- A message is stamped, and due, as long after its origin as its action was recorded after the
  -- first one, and the sleep before it lasts until it is due.
  pub record OnTime (origin ros steady : ℤ) (a : RecordedAction M) (now : ℤ) (m : Rewritten M)
      (delay : ℕ) : Type 0 where
    pub payload : a.payload ≡ supported m.message
    pub stamp : pos (m.stamp_sec * 1000000000 + m.stamp_nanosec) ≡ ros +ℤ (a.source_time -ℤ origin)
    pub nanosec : m.stamp_nanosec < 1000000000
    pub deadline : m.deadline ≡ steady +ℤ (a.source_time -ℤ origin)
    pub waits : m.deadline ≤ℤ now +ℤ pos delay

  abbrev pub AllOnTime : ℤ → ℤ → ℤ → List (RecordedAction M × ℤ) → List (Rewritten M × ℕ) → Type 0
  AllOnTime origin ros steady [] [] = Unit
  AllOnTime origin ros steady ((a, now) ∷ rest) ((m, d) ∷ ms) =
      OnTime origin ros steady a now m d × AllOnTime origin ros steady rest ms
  AllOnTime origin ros steady acts ms = ⊥

  abbrev rewritten : ℤ → ℤ → ℤ → ℤ → M → Rewritten M
  rewritten origin ros steady u m = record {
    message = m;
    stamp_sec = pos_part (ros +ℤ (u -ℤ origin)) / 1000000000;
    stamp_nanosec = pos_part (ros +ℤ (u -ℤ origin)) % 1000000000;
    deadline = steady +ℤ (u -ℤ origin);
  }

  rewrite-ok :
      (origin ros steady t u : ℤ) (last : Option ℤ) (m : M)
      → IsLast t last
      → origin ≤ℤ t
      → t ≤ℤ u
      → rewrite (supported m) u (running origin ros steady last)
        ≡ ok (rewritten origin ros steady u m, running origin ros steady (some u))
  unfolding rewrite
  rewrite-ok origin ros steady t u none m h o l = rw (ltb_ℤ-false u origin (omega arith)) refl
  rewrite-ok origin ros steady t u (some v) m h o l =
      rw (ltb_ℤ-false u origin (omega arith), ltb_ℤ-false u v (subst (λ x. x ≤ℤ u) (sym h) l)) refl

  rewritten-OnTime :
      (origin ros steady u : ℤ) (a : RecordedAction M) (now : ℤ) (m : M)
      → a.payload ≡ supported m
      → a.source_time ≡ u
      → pos 0 ≤ℤ ros
      → origin ≤ℤ u
      → let r = rewritten origin ros steady u m in
        OnTime origin ros steady a now r (delay_of r.deadline now)
  rewritten-OnTime origin ros steady u a now m p e h o = record {
    payload = p;
    stamp =
        ap pos (omega arith)
        ∙ pos-pos_part (ros +ℤ (u -ℤ origin)) (+ℤ_nonneg ros u origin h o)
        ∙ ap (λ t. ros +ℤ (t -ℤ origin)) (sym e);
    nanosec = omega arith;
    deadline = ap (λ t. steady +ℤ (t -ℤ origin)) (sym e);
    waits = le-add_difference (steady +ℤ (u -ℤ origin)) now;
  }

  play_turns-OnTime :
      (origin ros steady t : ℤ) (last : Option ℤ) (acts : List (RecordedAction M × ℤ))
      → IsLast t last
      → origin ≤ℤ t
      → pos 0 ≤ℤ ros
      → IsTimeline t acts
      → let p = play_turns acts (running origin ros steady last) in
        (p.1 ≡ none) × AllOnTime origin ros steady acts p.0
  unfolding play_turns
  play_turns-OnTime origin ros steady t last [] i o h l = (refl, tt)
  play_turns-OnTime origin ros steady t last ((a, now) ∷ rest) i o h l =
      let u = a.source_time in
      let later =
        play_turns-OnTime origin ros steady u (some u) rest refl (omega (arith, o, l.0)) h l.2 in
      turn a.payload refl later
    where
      turn :
          (d : Decoded M)
          → a.payload ≡ d
          → (let p = play_turns rest (running origin ros steady (some a.source_time)) in
              (p.1 ≡ none) × AllOnTime origin ros steady rest p.0)
          → let p = play_turns ((a, now) ∷ rest) (running origin ros steady last) in
            (p.1 ≡ none) × AllOnTime origin ros steady ((a, now) ∷ rest) p.0
      turn unsupported e later = absurd (l.1 e)
      turn (supported m) e later =
          let u = a.source_time in
          let step =
            ap (λ d. rewrite d u (running origin ros steady last)) e
            ∙ rewrite-ok origin ros steady t u last m i o l.0 in
          rw (step, play_turns)
            (
              later.0,
              (
                rewritten-OnTime origin ros steady u a now m e refl h (omega (arith, o, l.0)),
                later.1,
              ),
            )

  -- A recording whose times do not fall from a first one that is not negative, and whose payloads
  -- can all be replayed, is replayed whole and without an exception, if the clocks are not
  -- negative. Every message keeps its payload, is stamped by the ROS clock and due by the steady
  -- clock as long after the start as its action was recorded after the first one, and the sleep
  -- before it lasts until it is due.
  pub play-OnTime :
      (ros steady : ℤ) (a : RecordedAction M) (now : ℤ) (rest : List (RecordedAction M × ℤ))
      → pos 0 ≤ℤ ros
      → pos 0 ≤ℤ steady
      → pos 0 ≤ℤ a.source_time
      → IsTimeline a.source_time ((a, now) ∷ rest)
      → let p = play true ros steady ((a, now) ∷ rest) in
        (p.1 ≡ none) × AllOnTime a.source_time ros steady ((a, now) ∷ rest) p.0
  unfolding play start_rebaser
  play-OnTime ros steady a now rest h k o l =
      rw
        (
          ltb_ℤ-false a.source_time (pos 0) o,
          ltb_ℤ-false ros (pos 0) h,
          ltb_ℤ-false steady (pos 0) k,
        )
        (play_turns-OnTime a.source_time ros steady a.source_time none ((a, now) ∷ rest) tt
          (omega arith) h l)
