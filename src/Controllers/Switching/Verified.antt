-- ===== src/Controllers/Switching/Verified.antt =====
-- `switch_controller` of ControllerManagerClient in controllers.py.
use physical_ai_runtime.Common.{
  Bool, Bool-cases, Dict, List, Option, Result, String, [], all_of, and_left, and_right, any_of, ap,
  arith, err, err-ne-ok, false, has_key, inl, inr, insert, is_empty, keep, lookup-insert, none, not,
  ok, refl, some, sym, true, ◌&&◌, ◌++◌, ◌==◌, ◌||◌, ◌∙◌, ◌∷◌, ◌≡◌,
}
use physical_ai_runtime.Controllers.Switching.{
  Listing, Manager, SwitchRequest, after_switch, invalid_names, is_active, listed, nothing_loaded,
  request_of, states_of, switch_controller, verify_switch, with_listing,
}

-- What a request must have reached in the last listing.
abbrev pub Reached : SwitchRequest → Listing → Type 0
Reached r l =
    (all_of (is_active (states_of l [])) r.activate ≡ true)
    × (any_of (is_active (states_of l [])) r.deactivate ≡ false)

keep-empty-append :
    {A : Type 0} (xs ys : List A)
    → is_empty (xs ++ ys) ≡ true
    → (is_empty xs ≡ true) × (is_empty ys ≡ true)
keep-empty-append [] ys h = (refl, h)
keep-empty-append (x ∷ xs) ys h = cc

all_of-keep-not :
    {A : Type 0} (p : A → Bool) (xs : List A)
    → is_empty (keep (λ x. not (p x)) xs) ≡ true
    → all_of p xs ≡ true
all_of-keep-not p [] h = refl
all_of-keep-not p (x ∷ xs) h = ground (arith, all_of-keep-not p xs)

any_of-keep :
    {A : Type 0} (p : A → Bool) (xs : List A) → is_empty (keep p xs) ≡ true → any_of p xs ≡ false
any_of-keep p [] h = refl
any_of-keep p (x ∷ xs) h = ground (arith, any_of-keep p xs)

verify_switch-Reached :
    (r : SwitchRequest) (after : Result Listing)
    → verify_switch r.activate r.deactivate after ≡ ok tt
    → (l : Listing) × (after ≡ ok l) × Reached r l
unfolding verify_switch invalid_names
verify_switch-Reached r (err e) h = absurd (err-ne-ok h)
verify_switch-Reached r (ok l) h =
    let d = states_of l [] in
    let (a, b) =
      keep-empty-append (keep (λ name. not (is_active d name)) r.activate)
        (keep (λ name. is_active d name) r.deactivate) (ground arith) in
    (
      l,
      refl,
      (all_of-keep-not (is_active d) r.activate a, any_of-keep (is_active d) r.deactivate b),
    )

-- The manager lists a controller of this name.
abbrev pub is_listed : Listing → String → Bool
is_listed l name = any_of (λ (c : String × String). c.0 == name) l

-- A request asks for the listed ones of the controllers, in their order, as strictly as was said.
pub record IsRequest (activate deactivate : List String) (strict : Bool) (l : Listing)
    (r : SwitchRequest) : Type 0 where
  pub activated : r.activate ≡ keep (is_listed l) activate
  pub deactivated : r.deactivate ≡ keep (is_listed l) deactivate
  pub strictly : r.strict ≡ strict

-- How a switch that returned came about: there was one to activate, but none of its controllers is
-- listed, and nothing was asked of the manager; or a request for the listed ones was granted, and
-- the listing after it verified.
pub data Switched (m : Manager) (activate deactivate : List String) (strict : Bool)
    : Option SwitchRequest → Type 0 where
  skipped :
      (l : Listing)
      → m.before ≡ ok l
      → is_empty activate ≡ false
      → is_empty (keep (is_listed l) activate) ≡ true
      → is_empty (keep (is_listed l) deactivate) ≡ true
      → Switched m activate deactivate strict none
  verified :
      (l l' : Listing) (r : SwitchRequest)
      → m.before ≡ ok l
      → IsRequest activate deactivate strict l r
      → m.switch r ≡ ok true
      → m.after ≡ ok l'
      → Reached r l'
      → Switched m activate deactivate strict (some r)

has_key-states_of :
    (l : Listing) (name : String) (d : Dict String)
    → has_key name (states_of l d) ≡ (is_listed l name || has_key name d)
has_key-states_of [] name d = refl
has_key-states_of ((n, state) ∷ rest) name d =
    has_key-states_of rest name (insert n state d) ∙ ground (arith, lookup-insert n name state d)

listed-is_listed : (l : Listing) (name : String) → listed l name ≡ is_listed l name
listed-is_listed l name = has_key-states_of l name [] ∙ or_false (is_listed l name)
  where
    or_false : (b : Bool) → (b || false) ≡ b
    or_false true = refl
    or_false false = refl

keep-listed : (l : Listing) (names : List String) → keep (listed l) names ≡ keep (is_listed l) names
keep-listed l [] = refl
keep-listed l (n ∷ ns) = rw (listed-is_listed l n, keep-listed l ns) refl

request_of-IsRequest :
    (activate deactivate : List String) (strict : Bool) (l : Listing)
    → IsRequest activate deactivate strict l (request_of activate deactivate strict l)
request_of-IsRequest activate deactivate strict l = record {
  activated = keep-listed l activate;
  deactivated = keep-listed l deactivate;
  strictly = refl;
}

after_switch-Reached :
    (m : Manager) (r : SwitchRequest) (answer : Result Bool)
    → (after_switch m r answer).0 ≡ ok tt
    → (answer ≡ ok true) × (l : Listing) × (m.after ≡ ok l) × Reached r l
after_switch-Reached m r (err e) h = absurd (err-ne-ok h)
after_switch-Reached m r (ok false) h = absurd (err-ne-ok h)
after_switch-Reached m r (ok true) h =
    let (l, after, reached) = verify_switch-Reached r m.after h in (refl, l, after, reached)

after_switch-request :
    (m : Manager) (r : SwitchRequest) (answer : Result Bool) → (after_switch m r answer).1 ≡ some r
after_switch-request m r (err e) = refl
after_switch-request m r (ok false) = refl
after_switch-request m r (ok true) = refl

nothing_loaded-missing :
    (activate : List String) (l : Listing)
    → nothing_loaded activate l ≡ ok tt
    → is_empty activate ≡ false
nothing_loaded-missing [] l h = absurd (err-ne-ok h)
nothing_loaded-missing (n ∷ ns) l h = refl

with_listing-Switched :
    (m : Manager) (activate deactivate : List String) (strict : Bool) (before : Result Listing)
    → m.before ≡ before
    → (with_listing m activate deactivate strict before).0 ≡ ok tt
    → Switched m activate deactivate strict (with_listing m activate deactivate strict before).1
with_listing-Switched m activate deactivate strict (err e) same h = absurd (err-ne-ok h)
with_listing-Switched m activate deactivate strict (ok l) same h =
    let r = request_of activate deactivate strict l in
    let P =
      λ (q : Result (Unit {0}) × Option SwitchRequest). Switched m activate deactivate strict q.1 in
    elim (Bool-cases (is_empty r.activate && is_empty r.deactivate)) [
      | inl none_loaded ↦ rw none_loaded (
          skipped l same (nothing_loaded-missing activate l (rw none_loaded at h))
            (ap is_empty (sym (keep-listed l activate))
              ∙ and_left (is_empty r.activate) (is_empty r.deactivate) none_loaded)
            (ap is_empty (sym (keep-listed l deactivate))
              ∙ and_right (is_empty r.activate) (is_empty r.deactivate) none_loaded))
      | inr some_loaded ↦
          let (granted, l', after, reached) =
            after_switch-Reached m r (m.switch r) (rw some_loaded at h) in
          rw some_loaded (
            rw (after_switch-request m r (m.switch r)) (
              verified l l' r same (request_of-IsRequest activate deactivate strict l) granted after
                reached))
    ]

-- A switch that returns either had one to activate, found none of its controllers listed and asked
-- for nothing; or the manager granted a request, as strict as was said, to activate those to
-- activate and to deactivate those to deactivate that its listing names, and in the listing after
-- it every one of the former is active and none of the latter is.
pub switch_controller-Switched :
    (m : Manager) (activate deactivate : List String) (strict : Bool)
    → (switch_controller m activate deactivate strict).0 ≡ ok tt
    → Switched m activate deactivate strict (switch_controller m activate deactivate strict).1
unfolding switch_controller
switch_controller-Switched m activate deactivate strict h =
    elim (Bool-cases (is_empty activate && is_empty deactivate)) [
      | inl nothing ↦ absurd (err-ne-ok (rw nothing at h))
      | inr something ↦
          rw (something, switch_controller)
            (with_listing-Switched m activate deactivate strict m.before refl (rw something at h))
    ]
