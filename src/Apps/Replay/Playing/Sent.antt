-- ===== src/Apps/Replay/Playing/Sent.antt =====
-- The poses of one frame of a replay: what leaves, and what is counted as dropped.
use physical_ai_runtime.Common.{
  Bool-cases, Dict, List, Option, Result, Result-cases, String, [], ap, arith, bind-err, bind-ok,
  false, has_name, inl, inr, length, length-append, none, ok, refl, some, sym, true_ne_false, ℕ, ℤ,
  ◌++◌, ◌+◌, ◌∙◌, ◌∷◌, ◌≡◌,
}
use mathlib.Core.Path.{subst}
use mathlib.Core.List.{append_assoc}
use physical_ai_runtime.Provider.{envelope}
use physical_ai_runtime.Messages.{Action, Envelope}
use physical_ai_runtime.Authority.{Allocation}
use physical_ai_runtime.World.{World}
use physical_ai_runtime.Agent.{Agent, agent_send}
use physical_ai_runtime.Session.{Diagnostics, Scope, Session, active_for}
use physical_ai_runtime.Session.Calls.{act, is_stale_observation}
use physical_ai_runtime.Session.Acting.{
  Acted, IsCoherent, act-Acted, act_foreign, act_inactive, act_sending, act_stale, counted,
  delivered, inactive, link_of, refused, stale, transmit, transmit_ok, transmit_refused,
}
use physical_ai_runtime.Session.Acting.Coherence.{act-IsCoherent}
use physical_ai_runtime.Apps.Replay.Playing.{joint_reference, send_poses}

transmit-lease :
    (action : Action) (s : Scope) → (transmit action s).1.session.lease_id ≡ s.session.lease_id
transmit-lease action s = elim (Result-cases (agent_send action (link_of s)).0) [
  | inl (u, h) ↦ rw (transmit_ok action s h) refl
  | inr (e, h) ↦ rw (transmit_refused action s h) refl
]

act-lease :
    (a : Agent) (action : Action) (o : Option (Dict Allocation)) (s : Scope)
    → (act a action o s).1.session.lease_id ≡ s.session.lease_id
act-lease a action o s = elim (Bool-cases (has_name action.part s.session.parts)) [
  | inr other ↦ rw (act_foreign a action o s other) refl
  | inl named ↦ elim (Bool-cases (active_for action.part s.session s.world)) [
    | inr off ↦ rw (act_inactive a action o s named off) refl
    | inl on ↦ elim (Bool-cases (is_stale_observation a action.part o s.session)) [
      | inl old ↦ rw (act_stale a action o s named on old) refl
      | inr fresh ↦ rw (act_sending a action o s named on fresh) (transmit-lease action s)
    ]
  ]
]

-- Commands that left at one time, the newest first, under a lease.
abbrev pub AllSent : Option String → ℕ → List Envelope → Type 0
AllSent lease now [] = Unit
AllSent lease now (e ∷ es) = (lease ≡ some e.lease_id) × (e.stamp ≡ now) × AllSent lease now es

AllSent-append :
    (lease : Option String) (now : ℕ) (xs ys : List Envelope)
    → AllSent lease now xs
    → AllSent lease now ys
    → AllSent lease now (xs ++ ys)
AllSent-append lease now [] ys p q = q
AllSent-append lease now (x ∷ xs) ys p q = (p.0, p.1, AllSent-append lease now xs ys p.2 q)

abbrev pub tally : Session → ℕ
tally s = s.diagnostics.sent + s.diagnostics.inactive_drops

-- The poses of a frame, with `n` of them sent or counted as dropped.
pub record SentPoses (n : ℕ) (s s' : Scope) : Type 0 where
  pub group : List Envelope
  pub outbox : s'.world.outbox ≡ group ++ s.world.outbox
  pub each : AllSent s.session.lease_id s.world.now group
  pub now : s'.world.now ≡ s.world.now
  pub lease : s'.session.lease_id ≡ s.session.lease_id
  pub coherent : IsCoherent s'.session
  pub sent : s'.session.diagnostics.sent ≡ s.session.diagnostics.sent + length group
  pub tallied : tally s'.session ≡ tally s.session + n

not_stale : (a : Agent) (part : String) (s : Session) → is_stale_observation a part none s ≡ false
unfolding is_stale_observation
not_stale a part s = refl

act-SentPoses :
    (a : Agent) (action : Action) (s : Scope)
    → IsCoherent s.session
    → (n : ℕ) × ((act a action none s).0 ≡ ok tt → n ≡ 1) × SentPoses n s (act a action none s).1
act-SentPoses a action s coherent =
    from_outcome (act a action none s) (act-Acted a action none s coherent)
      (act-lease a action none s) (act-IsCoherent a action none s coherent)
  where
    from_outcome :
        (x : Result (Unit {0}) × Scope)
        → Acted a action none s x
        → x.1.session.lease_id ≡ s.session.lease_id
        → IsCoherent x.1.session
        → (n : ℕ) × (x.0 ≡ ok tt → n ≡ 1) × SentPoses n s x.1
    from_outcome x (refused e) l c = (
      0,
      λ h. cc,
      record {
        group = [];
        outbox = refl;
        each = tt;
        now = refl;
        lease = l;
        coherent = c;
        sent = omega arith;
        tallied = omega arith;
      },
    )
    from_outcome x (inactive off) l c = (
      1,
      λ h. refl,
      record {
        group = [];
        outbox = refl;
        each = tt;
        now = refl;
        lease = l;
        coherent = c;
        sent = omega arith;
        tallied = omega arith;
      },
    )
    from_outcome x (stale on old) l c =
        absurd (true_ne_false (sym old ∙ not_stale a action.part s.session))
    from_outcome x (delivered s' b lease payload on fresh leased bound sent counted) l c = (
      1,
      λ h. refl,
      record {
        group = envelope b.endpoint s.world.now lease payload ∷ [];
        outbox = ap (λ (w : World). w.outbox) sent;
        each = (leased, refl, tt);
        now = ap (λ (w : World). w.now) sent;
        lease = l;
        coherent = c;
        sent = ap (λ (d : Diagnostics). d.sent) counted ∙ (omega arith);
        tallied = ap (λ (d : Diagnostics). d.sent + d.inactive_drops) counted ∙ (omega arith);
      },
    )

-- Poses that are sent in turn.
SentPoses-trans :
    {m n : ℕ} {s t u : Scope} → SentPoses m s t → SentPoses n t u → SentPoses (m + n) s u
SentPoses-trans {m} {n} {s} {t} {u} p q = record {
  group = q.group ++ p.group;
  outbox =
      q.outbox
      ∙ ap (λ o. q.group ++ o) p.outbox
      ∙ sym (append_assoc q.group p.group s.world.outbox);
  each =
      AllSent-append s.session.lease_id s.world.now q.group p.group
        (subst (λ l. AllSent l s.world.now q.group) p.lease
          (subst (λ n. AllSent t.session.lease_id n q.group) p.now q.each))
        p.each;
  now = q.now ∙ p.now;
  lease = q.lease ∙ p.lease;
  coherent = q.coherent;
  sent = omega (arith, p.sent, q.sent, length-append q.group p.group);
  tallied = omega (arith, p.tallied, q.tallied);
}

pub send_poses-SentPoses :
    (a : Agent) (poses : Dict (List ℤ)) (s : Scope)
    → IsCoherent s.session
    → (n : ℕ) × ((send_poses a poses s).0 ≡ ok tt → n ≡ length poses)
      × SentPoses n s (send_poses a poses s).1
unfolding send_poses
send_poses-SentPoses a [] s c = (
  0,
  λ h. refl,
  record {
    group = [];
    outbox = refl;
    each = tt;
    now = refl;
    lease = refl;
    coherent = c;
    sent = omega arith;
    tallied = omega arith;
  },
)
send_poses-SentPoses a ((part, p) ∷ poses) s c =
    let (n, one, first) = act-SentPoses a (joint_reference part p) s c in
    elim (Result-cases (act a (joint_reference part p) none s).0) [
      | inl (u, h) ↦
          let (m, all, rest) =
            send_poses-SentPoses a poses (act a (joint_reference part p) none s).1 first.coherent in
          rw (bind-ok (act a (joint_reference part p) none) (λ _. send_poses a poses) s h)
            (n + m, λ e. omega (arith, one h, all e), SentPoses-trans first rest)
      | inr (e, h) ↦
          rw (bind-err (act a (joint_reference part p) none) (λ _. send_poses a poses) s h)
            (n, λ g. cc, first)
    ]
