-- ===== src/Apps/Replay/Playing/Paced.antt =====
-- The replay phase of `main` in apps/replay.py: the times of the frames, and the count of the
-- poses.
use physical_ai_runtime.Common.{
  Bool-cases, List, Option, Result-cases, String, [], ap, arith, bind-err, bind-ok, inl, inr,
  length, ltb_ℤ, ok, pos, refl, some, ℕ, ℤ, ◌++◌, ◌+ℤ◌, ◌+◌, ◌∙◌, ◌∷◌, ◌≡◌, ◌≤ℤ◌,
}
use mathlib.Core.Path.{subst}
use physical_ai_runtime.Messages.{Envelope}
use physical_ai_runtime.World.{Environment, World}
use physical_ai_runtime.Agent.{Agent}
use physical_ai_runtime.Session.{Scope}
use physical_ai_runtime.Session.Acting.{IsCoherent}
use physical_ai_runtime.Apps.Replay.{Frame}
use physical_ai_runtime.World.Clock.{pause-SameButCache}
use physical_ai_runtime.Apps.Replay.Playing.{replay_frames, send_poses, sleep_until}
use physical_ai_runtime.Apps.Replay.Playing.Sent.{AllSent, SentPoses, send_poses-SentPoses}

-- After the sleep it is the time of the frame, and nothing was sent.
sleep_until-due : (env : Environment) (due : ℤ) (w : World) → due ≤ℤ pos (sleep_until env due w).now
unfolding sleep_until
sleep_until-due env due w = ground arith

sleep_until-outbox :
    (env : Environment) (due : ℤ) (w : World) → (sleep_until env due w).outbox ≡ w.outbox
unfolding sleep_until
sleep_until-outbox env due w = elim (Bool-cases (ltb_ℤ (pos w.now) due)) [
  | inl early ↦ rw early (pause-SameButCache env w).outbox
  | inr late ↦ rw late refl
]

-- Commands under a lease, none of them before a time.
abbrev pub AllDue : Option String → ℤ → List Envelope → Type 0
AllDue lease due [] = Unit
AllDue lease due (e ∷ es) = (lease ≡ some e.lease_id) × (due ≤ℤ pos e.stamp) × AllDue lease due es

AllSent-AllDue :
    (lease : Option String) (now : ℕ) (due : ℤ) (es : List Envelope)
    → due ≤ℤ pos now
    → AllSent lease now es
    → AllDue lease due es
AllSent-AllDue lease now due [] h p = tt
AllSent-AllDue lease now due (e ∷ es) h p = (p.0, rw p.1 h, AllSent-AllDue lease now due es h p.2)

-- The commands of each frame that was reached.
abbrev pub IsPaced : Option String → ℤ → List Frame → List (List Envelope) → Type 0
IsPaced lease start fs [] = Unit
IsPaced lease start [] (g ∷ gs) = ⊥
IsPaced lease start (f ∷ fs) (g ∷ gs) = AllDue lease (start +ℤ f.time) g × IsPaced lease start fs gs

abbrev pub outbox_after : List (List Envelope) → List Envelope → List Envelope
outbox_after [] es = es
outbox_after (g ∷ gs) es = outbox_after gs (g ++ es)

abbrev pub total : List (List Envelope) → ℕ
total [] = 0
total (g ∷ gs) = length g + total gs

abbrev pub pose_count : List Frame → ℕ
pose_count [] = 0
pose_count (f ∷ fs) = length f.poses + pose_count fs

-- What a replay has sent, in groups that belong to its first frames in turn, with `n` poses sent or
-- counted as dropped.
pub record Replayed (start : ℤ) (fs : List Frame) (n : ℕ) (s s' : Scope) : Type 0 where
  pub groups : List (List Envelope)
  pub outbox : s'.world.outbox ≡ outbox_after groups s.world.outbox
  pub paced : IsPaced s.session.lease_id start fs groups
  pub sent : s'.session.diagnostics.sent ≡ s.session.diagnostics.sent + total groups
  pub tallied :
      s'.session.diagnostics.sent + s'.session.diagnostics.inactive_drops
      ≡ s.session.diagnostics.sent + s.session.diagnostics.inactive_drops + n
  pub coherent : IsCoherent s'.session

abbrev awake : Environment → ℤ → Scope → Scope
awake env due s = record s { world = sleep_until env due s.world }

-- One frame, and what follows it.
Replayed-cons :
    (env : Environment) {start : ℤ} (f : Frame) {fs : List Frame} {m n : ℕ} {s t u : Scope}
    → SentPoses m (awake env (start +ℤ f.time) s) t
    → Replayed start fs n t u
    → Replayed start (f ∷ fs) (m + n) s u
Replayed-cons env {start} f {fs} {m} {n} {s} {t} {u} p q = record {
  groups = p.group ∷ q.groups;
  outbox =
      q.outbox
      ∙ ap (outbox_after q.groups)
          (p.outbox ∙ ap (λ o. p.group ++ o) (sleep_until-outbox env (start +ℤ f.time) s.world));
  paced = (
    AllSent-AllDue s.session.lease_id _ (start +ℤ f.time) p.group
        (sleep_until-due env (start +ℤ f.time) s.world) p.each,
    subst (λ l. IsPaced l start fs q.groups) p.lease q.paced,
  );
  sent = omega (arith, p.sent, q.sent);
  tallied = omega (arith, p.tallied, q.tallied);
  coherent = q.coherent;
}

Replayed-stopped :
    (env : Environment) {start : ℤ} (f : Frame) {fs : List Frame} {m : ℕ} {s t : Scope}
    → SentPoses m (awake env (start +ℤ f.time) s) t
    → Replayed start (f ∷ fs) m s t
Replayed-stopped env {start} f {fs} {m} {s} {t} p =
    let nothing : Replayed start fs 0 t t = record {
      groups = [];
      outbox = refl;
      paced = tt;
      sent = omega arith;
      tallied = omega arith;
      coherent = p.coherent;
    } in
    subst (λ (k : ℕ). Replayed start (f ∷ fs) k s t) (omega arith) (Replayed-cons env f p nothing)

-- In a coherent session a replay sends only under the lease of the session, and nothing of a frame
-- before its time. Of the poses, some are sent and the others counted as dropped for want of
-- authority; where the replay ends without an exception these are all poses of the timeline.
pub replay_frames-Replayed :
    (env : Environment) (a : Agent) (start : ℤ) (fs : List Frame) (s : Scope)
    → IsCoherent s.session
    → (n : ℕ) × ((replay_frames env a start fs s).0 ≡ ok tt → n ≡ pose_count fs)
      × Replayed start fs n s (replay_frames env a start fs s).1
unfolding replay_frames
replay_frames-Replayed env a start [] s c = (
  0,
  λ h. refl,
  record {
    groups = [];
    outbox = refl;
    paced = tt;
    sent = omega arith;
    tallied = omega arith;
    coherent = c;
  },
)
replay_frames-Replayed env a start (f ∷ fs) s c =
    let (m, one, first) = send_poses-SentPoses a f.poses (awake env (start +ℤ f.time) s) c in
    elim (Result-cases (send_poses a f.poses (awake env (start +ℤ f.time) s)).0) [
      | inl (u, h) ↦
          let (n, all, rest) =
            replay_frames-Replayed env a start fs
              (send_poses a f.poses (awake env (start +ℤ f.time) s)).1 first.coherent in
          rw
            (bind-ok (send_poses a f.poses) (λ _. replay_frames env a start fs)
              (awake env (start +ℤ f.time) s) h)
            (m + n, λ e. omega (arith, one h, all e), Replayed-cons env f first rest)
      | inr (e, h) ↦
          rw
            (bind-err (send_poses a f.poses) (λ _. replay_frames env a start fs)
              (awake env (start +ℤ f.time) s) h)
            (m, λ g. cc, Replayed-stopped env f first)
    ]
