-- ===== src/Apps/Teleop/Asking.antt =====
-- apps/teleop.py: the requests to the leaders, and the sessions that are entered for them.
use physical_ai_runtime.Common.{
  Bool, Bool-cases, List, Option-cases, String, [], ap, arith, inl, inr, refl, some, sym, true,
  true_ne_false, ◌==◌, ◌∙◌, ◌∷◌, ◌≡◌, ◌⊎◌,
}
use physical_ai_runtime.Apps.Teleop.{
  Entering, Leader, LeaderReply, Press, ask_leaders, breaks_off, confirmed, enter_sessions, enters,
  refuses, set_teleop_preempt, unavailable, unconfirmed,
}
use mathlib.Core.Path.{subst}

abbrev pub names_of : List Leader → List String
names_of [] = []
names_of (l ∷ ls) = l.name ∷ names_of ls

abbrev pub reverse_onto : List String → List String → List String
reverse_onto [] acc = acc
reverse_onto (x ∷ xs) acc = reverse_onto xs (x ∷ acc)

-- One of the presses
abbrev pub OneOf : Press → List Press → Type 0
OneOf p [] = ⊥
OneOf p (q ∷ qs) = (p ≡ q) ⊎ OneOf p qs

-- The newest requests are one for each leader, and in the press `p` every leader confirmed its own.
abbrev pub HasConfirmed :
    Press → Bool → List Leader → List (String × Bool) → List (String × Bool) → Type 0
HasConfirmed p mode [] before after = after ≡ before
HasConfirmed p mode (l ∷ ls) before after =
    (service : String) × (l.service ≡ some service)
    × (p.reply before service ≡ confirmed)
    × HasConfirmed p mode ls ((service, mode) ∷ before) after

LeaderReply-cases : (r : LeaderReply) → (r ≡ confirmed) ⊎ ((r ≡ unavailable) ⊎ (r ≡ unconfirmed))
LeaderReply-cases confirmed = inl refl
LeaderReply-cases unavailable = inr (inl refl)
LeaderReply-cases unconfirmed = inr (inr refl)

-- A leader did not fail only if it has a service that confirmed.
ask_leaders-confirmed :
    (p : Press) (mode : Bool) (l : Leader) (ls : List Leader) (q : List (String × Bool))
    → (ask_leaders p mode (l ∷ ls) q).0 ≡ true
    → (service : String) × (l.service ≡ some service)
      × (p.reply q service ≡ confirmed)
      × (ask_leaders p mode (l ∷ ls) q ≡ ask_leaders p mode ls ((service, mode) ∷ q))
unfolding ask_leaders
ask_leaders-confirmed p mode l ls q h = elim (Option-cases l.service) [
  | inl e ↦ absurd (true_ne_false (sym h ∙ rw (e, ask_leaders) refl))
  | inr (service, e) ↦ elim (Bool-cases (service == "")) [
    | inl b ↦ absurd (true_ne_false (sym h ∙ rw (e, b, ask_leaders) refl))
    | inr b ↦ elim (LeaderReply-cases (p.reply q service)) [
      | inl r ↦ (service, e, r, rw (e, b, r, ask_leaders) refl)
      | inr (inl r) ↦ absurd (true_ne_false (sym h ∙ rw (e, b, r, ask_leaders) refl))
      | inr (inr r) ↦ absurd (true_ne_false (sym h ∙ rw (e, b, r, ask_leaders) refl))
    ]
  ]
]

ask_leaders-HasConfirmed :
    (p : Press) (mode : Bool) (ls : List Leader) (q : List (String × Bool))
    → (ask_leaders p mode ls q).0 ≡ true
    → HasConfirmed p mode ls q (ask_leaders p mode ls q).1
unfolding ask_leaders
ask_leaders-HasConfirmed p mode [] q h = refl
ask_leaders-HasConfirmed p mode (l ∷ ls) q h =
    let (service, e, r, same) = ask_leaders-confirmed p mode l ls q h in
    (
      service,
      e,
      r,
      subst (λ (r : Bool × List (String × Bool)). HasConfirmed p mode ls ((service, mode) ∷ q) r.1)
          (sym same)
          (ask_leaders-HasConfirmed p mode ls ((service, mode) ∷ q)
            (sym (ap (λ (r : Bool × List (String × Bool)). r.0) same) ∙ h)),
    )

set_teleop_preempt-asks :
    (p : Press) (mode : Bool) (l : Leader) (ls : List Leader) (q : List (String × Bool))
    → p.context_ok ≡ true
    → set_teleop_preempt p mode (l ∷ ls) q ≡ ask_leaders p mode (l ∷ ls) q
unfolding set_teleop_preempt
set_teleop_preempt-asks p mode l ls q e = rw (e, set_teleop_preempt) refl

pub set_teleop_preempt-HasConfirmed :
    (p : Press) (mode : Bool) (ls : List Leader) (q : List (String × Bool))
    → (set_teleop_preempt p mode ls q).0 ≡ true
    → HasConfirmed p mode ls q (set_teleop_preempt p mode ls q).1
unfolding set_teleop_preempt
set_teleop_preempt-HasConfirmed p mode [] q h = refl
set_teleop_preempt-HasConfirmed p mode (l ∷ ls) q h = elim (Bool-cases p.context_ok) [
  | inl e ↦
      let same = set_teleop_preempt-asks p mode l ls q e in
      subst (λ (r : Bool × List (String × Bool)). HasConfirmed p mode (l ∷ ls) q r.1) (sym same)
        (ask_leaders-HasConfirmed p mode (l ∷ ls) q
          (sym (ap (λ (r : Bool × List (String × Bool)). r.0) same) ∙ h))
  | inr e ↦ absurd (true_ne_false (sym h ∙ rw (e, set_teleop_preempt) refl))
]

pub enter_sessions-all :
    (p : Press) (ls : List Leader) (acc : List String)
    → (enter_sessions p ls acc).0 ≡ enters
    → (enter_sessions p ls acc).1 ≡ reverse_onto (names_of ls) acc
unfolding enter_sessions
enter_sessions-all p [] acc h = refl
enter_sessions-all p (l ∷ ls) acc h = ground (arith, enter_sessions-all p ls (l.name ∷ acc))

pub Entering-cases : (r : Entering) → (r ≡ enters) ⊎ ((r ≡ refuses) ⊎ (r ≡ breaks_off))
Entering-cases enters = inl refl
Entering-cases refuses = inr (inl refl)
Entering-cases breaks_off = inr (inr refl)
