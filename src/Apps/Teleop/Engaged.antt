-- ===== src/Apps/Teleop/Engaged.antt =====
-- The state of apps/teleop.py between the presses of its key.
use physical_ai_runtime.Common.{
  Bool, Bool-cases, List, String, [], ap, false, if◌then◌else◌, inl, inr, refl, sym, true, ◌∙◌, ◌∷◌,
  ◌≡◌, ◌⊎◌,
}
use physical_ai_runtime.Apps.Teleop.{
  Leader, Press, Pressed, Teleop, breaks_off, engage, enter_sessions, goes_on, raises,
  release_teleop, run_presses, set_teleop_preempt, stops, toggle,
}
use physical_ai_runtime.Apps.Teleop.Asking.{
  Entering-cases, HasConfirmed, OneOf, enter_sessions-all, names_of, reverse_onto,
  set_teleop_preempt-HasConfirmed,
}
use mathlib.Core.Path.{subst}

-- Off, no session is entered or relays commands. On, the session of every leader is entered and
-- relays, and the last requests asked every leader to engage, which it confirmed in one of the
-- presses.
pub data IsConsistent (leaders : List Leader) (seen : List Press) (s : Teleop) : Type 0 where
  off :
      s.is_active ≡ false
      → s.sessions ≡ []
      → s.stack ≡ false
      → s.entered ≡ []
      → IsConsistent leaders seen s
  on :
      (p : Press) (before : List (String × Bool))
      → OneOf p seen
      → s.is_active ≡ true
      → s.sessions ≡ reverse_onto (names_of leaders) []
      → s.stack ≡ true
      → s.entered ≡ reverse_onto (names_of leaders) []
      → HasConfirmed p true leaders before s.requests
      → IsConsistent leaders seen s

-- Where Ctrl+C broke off the entry of a session in the press `p`, nothing relays any more, but the
-- sessions entered before it are still in their scopes.
pub record IsBrokenOff (leaders : List Leader) (p : Press) (s : Teleop) : Type 0 where
  pub broken : (enter_sessions p leaders []).0 ≡ breaks_off
  pub inactive : s.is_active ≡ false
  pub silent : s.sessions ≡ []
  pub kept : s.entered ≡ (enter_sessions p leaders []).1

-- What the presses lead to.
abbrev pub Ran : List Leader → List Press → Teleop → Type 0
Ran leaders seen s =
    IsConsistent leaders seen s ⊎ ((p : Press) × OneOf p seen × IsBrokenOff leaders p s)

release_teleop-off :
    (p : Press) (leaders : List Leader) (seen : List Press) (s : Teleop)
    → (s.stack ≡ true) ⊎ (s.entered ≡ [])
    → IsConsistent leaders seen (release_teleop p leaders s)
unfolding release_teleop
release_teleop-off p leaders seen s (inl h) = off refl refl refl (rw (h, release_teleop) refl)
release_teleop-off p leaders seen s (inr h) = off refl refl refl (all_left s.stack)
  where
    all_left : (b : Bool) → (if b then [] else s.entered) ≡ []
    all_left true = refl
    all_left false = h

IsConsistent-stack :
    (leaders : List Leader) (seen : List Press) (s : Teleop)
    → IsConsistent leaders seen s
    → (s.stack ≡ true) ⊎ (s.entered ≡ [])
IsConsistent-stack leaders seen s (off a b c d) = inr d
IsConsistent-stack leaders seen s (on p q m a b c d e) = inl c

IsConsistent-later :
    (leaders : List Leader) (seen : List Press) (p : Press) (s : Teleop)
    → IsConsistent leaders seen s
    → IsConsistent leaders (p ∷ seen) s
IsConsistent-later leaders seen p s (off a b c d) = off a b c d
IsConsistent-later leaders seen p s (on q r m a b c d e) = on q r (inr m) a b c d e

-- What a press has done, before an exception or Ctrl+C releases the leaders.
data AfterPress (leaders : List Leader) (seen : List Press) (p : Press)
    : Pressed × Teleop → Type 0 where
  still : (t : Teleop) → IsConsistent leaders (p ∷ seen) t → AfterPress leaders seen p (goes_on, t)
  failed : (t : Teleop) → IsConsistent leaders (p ∷ seen) t → AfterPress leaders seen p (raises, t)
  broken_off :
      (t : Teleop)
      → (enter_sessions p leaders []).0 ≡ breaks_off
      → t.stack ≡ false
      → t.entered ≡ (enter_sessions p leaders []).1
      → AfterPress leaders seen p (stops, t)

module _ (p : Press) (leaders : List Leader) (seen : List Press) (s : Teleop) where
  engage-AfterPress :
      s.is_active ≡ false
      → s.sessions ≡ []
      → s.stack ≡ false
      → s.entered ≡ []
      → AfterPress leaders seen p (engage p leaders s)
  unfolding engage
  engage-AfterPress a b c d =
      let names = (enter_sessions p leaders s.entered).1 in
      let requests = (set_teleop_preempt p true leaders s.requests).1 in
      let running : Teleop = record {
        is_active = true;
        sessions = names;
        stack = true;
        entered = names;
        requests = requests;
      } in
      elim (Entering-cases (enter_sessions p leaders s.entered).0) [
        | inr (inl e) ↦
            rw (e, engage)
              (failed (record s { is_active = false; sessions = [] }) (off refl refl c d))
        | inr (inr e) ↦
            rw (e, engage)
              (broken_off (record s { is_active = true; sessions = names; entered = names })
                (ap (λ n. (enter_sessions p leaders n).0) (sym d) ∙ e) c
                (ap (λ n. (enter_sessions p leaders n).1) d))
        | inl e ↦
            let all_names =
              enter_sessions-all p leaders s.entered e ∙ ap (reverse_onto (names_of leaders)) d in
            elim (Bool-cases (set_teleop_preempt p true leaders s.requests).0) [
              | inr f ↦
                  rw (e, f, engage)
                    (still (release_teleop p leaders running)
                      (release_teleop-off p leaders (p ∷ seen) running (inl refl)))
              | inl f ↦
                  rw (e, f, engage)
                    (still running (
                      on p s.requests (inl refl) refl all_names refl all_names
                        (set_teleop_preempt-HasConfirmed p true leaders s.requests f)))
            ]
      ]

  toggle-releases : s.is_active ≡ true → toggle p leaders s ≡ (goes_on, release_teleop p leaders s)
  unfolding toggle
  toggle-releases h = rw (h, toggle) refl

  toggle-engages : s.is_active ≡ false → toggle p leaders s ≡ engage p leaders s
  unfolding toggle
  toggle-engages h = rw (h, toggle) refl

  toggle-AfterPress : IsConsistent leaders seen s → AfterPress leaders seen p (toggle p leaders s)
  toggle-AfterPress (off a b c d) =
      subst (AfterPress leaders seen p) (sym (toggle-engages a)) (engage-AfterPress a b c d)
  toggle-AfterPress (on q r m a b c d e) =
      subst (AfterPress leaders seen p) (sym (toggle-releases a))
        (still (release_teleop p leaders s) (release_teleop-off p leaders (p ∷ seen) s (inl c)))

release_teleop-kept :
    (p : Press) (leaders : List Leader) (t : Teleop)
    → t.stack ≡ false
    → (release_teleop p leaders t).entered ≡ t.entered
unfolding release_teleop
release_teleop-kept p leaders t c = rw c refl

-- The presses so far, the newest first.
abbrev pub seen_after : List Press → List Press → List Press
seen_after seen [] = seen
seen_after seen (p ∷ ps) = seen_after (p ∷ seen) ps

seen_after-OneOf : (q : Press) (seen ps : List Press) → OneOf q seen → OneOf q (seen_after seen ps)
seen_after-OneOf q seen [] m = m
seen_after-OneOf q seen (p ∷ ps) m = seen_after-OneOf q (p ∷ seen) ps (inr m)

IsConsistent-after :
    (leaders : List Leader) (seen ps : List Press) (s : Teleop)
    → IsConsistent leaders seen s
    → IsConsistent leaders (seen_after seen ps) s
IsConsistent-after leaders seen [] s h = h
IsConsistent-after leaders seen (p ∷ ps) s h =
    IsConsistent-after leaders (p ∷ seen) ps s (IsConsistent-later leaders seen p s h)

-- From a consistent state, whatever the surroundings of the presses are, teleoperation ends in one:
-- off, no session is entered or relays; on, the sessions of all leaders are entered and relay, and
-- the last requests asked every leader to engage, which each of them confirmed in one of the
-- presses. Or Ctrl+C broke off the entry of the sessions: then nothing relays, but the sessions
-- that had been entered are still in their scopes.
pub run_presses-Ran :
    (leaders : List Leader) (seen ps : List Press) (s : Teleop)
    → IsConsistent leaders seen s
    → Ran leaders (seen_after seen ps) (run_presses leaders ps s)
unfolding run_presses
run_presses-Ran leaders seen [] s c = inl c
run_presses-Ran leaders seen (p ∷ ps) s c =
    after (λ t h. run_presses-Ran leaders (p ∷ seen) ps t h) (toggle p leaders s)
      (toggle-AfterPress p leaders seen s c)
  where
    after :
        ((t : Teleop)
          → IsConsistent leaders (p ∷ seen) t
          → Ran leaders (seen_after (p ∷ seen) ps) (run_presses leaders ps t))
        → (x : Pressed × Teleop) → AfterPress leaders seen p x
        → Ran leaders (seen_after (p ∷ seen) ps) (elim x.0 [
          | goes_on ↦ run_presses leaders ps x.1
          | raises ↦ release_teleop p leaders x.1
          | stops ↦ release_teleop p leaders x.1
        ])
    after rest x (still t h) = rest t h
    after rest x (failed t h) = inl (
        IsConsistent-after leaders (p ∷ seen) ps (release_teleop p leaders t)
          (release_teleop-off p leaders (p ∷ seen) t (IsConsistent-stack leaders (p ∷ seen) t h)))
    after rest x (broken_off t e c d) = inr (
      p,
      seen_after-OneOf p (p ∷ seen) ps (inl refl),
      record {
        broken = e;
        inactive = unfold release_teleop in refl;
        silent = unfold release_teleop in refl;
        kept = release_teleop-kept p leaders t c ∙ d;
      },
    )
