-- ===== src/Common/Calls.antt =====
-- Calls that may raise. An exception is its class; messages are not modelled. State written before
-- a raise stays written, so the state comes back beside the exception too.
use mathlib.Core.Bool.{Bool}
use mathlib.Core.Path.{◌≡◌, refl, ap}
use mathlib.Core.Logic.{◌⊎◌, inl, inr}
use mathlib.Core.Option.{Option, none, some}
use physical_ai_runtime.Common.Tests.{if◌then◌else◌}

pub data Error : Type 0 where
  value_error type_error key_error index_error runtime_error timeout_error : Error
  not_implemented_error file_not_found_error : Error
  -- ExecutionManagerUnavailableError, ControllerClientError, TrajectoryCanceledError,
  -- ControllerManagerError
  unavailable_error controller_error canceled_error manager_error : Error
  -- asyncio.CancelledError
  cancelled_error : Error
  -- no exception of the program: the rounds of a loop ran out (World.Clock shows that they do not)
  stuck_error : Error
  -- any other exception that foreign code raises
  other_error : Error

pub data Result {ℓ} (A : Type ℓ) : Type ℓ where
  ok : A → Result A
  err : Error → Result A

abbrev pub Exec : Type 0 → Type 0 → Type 0
Exec S A = S → Result A × S

module _ {S A : Type 0} where
  abbrev pub pure : A → Exec S A
  pure a s = (ok a, s)

  abbrev pub raise : Error → Exec S A
  raise e s = (err e, s)

  abbrev pub lift : Result A → Exec S A
  lift r s = (r, s)

  abbrev pub gets : (S → A) → Exec S A
  gets f s = (ok (f s), s)

abbrev pub raise_if : {S : Type 0} → Bool → Error → Exec S (Unit {0})
raise_if b e s = (if b then err e else ok tt, s)

abbrev pub modify : {S : Type 0} → (S → S) → Exec S (Unit {0})
modify f s = (ok tt, f s)

infixl 5 ◌>>=◌ ◌>>◌
abbrev pub ◌>>=◌ : {S A B : Type 0} → Exec S A → (A → Exec S B) → Exec S B
◌>>=◌ m f s = let (r, s') = m s in elim r [ ok a ↦ f a s' | err e ↦ (err e, s') ]

abbrev pub ◌>>◌ : {S A B : Type 0} → Exec S A → Exec S B → Exec S B
m >> k = m >>= λ _. k

abbrev pub or_raise {ℓ} : {A : Type ℓ} → Option A → Error → Result A
or_raise none e = err e
or_raise (some a) e = ok a

-- `try: m except Exception: handler`
abbrev pub catch : {S A : Type 0} → Exec S A → (Error → Exec S A) → Exec S A
catch m handler s = let (r, s') = m s in elim r [ ok a ↦ (ok a, s') | err e ↦ handler e s' ]

-- `try: m finally: cleanup`. An exception of the clean-up replaces the one of the body.
abbrev pub finally : {S A : Type 0} → Exec S A → Exec S (Unit {0}) → Exec S A
finally m cleanup s =
    let (r, s') = m s in
    let (c, s'') = cleanup s' in elim c [ ok u ↦ (r, s'') | err e ↦ (err e, s'') ]

pub Result-cases {ℓ} :
    {A : Type ℓ} (r : Result A) → ((a : A) × (r ≡ ok a)) ⊎ ((e : Error) × (r ≡ err e))
Result-cases (ok a) = inl (a, refl)
Result-cases (err e) = inr (e, refl)

pub ok-injective {ℓ} : {A : Type ℓ} {a b : A} → ok a ≡ ok b → a ≡ b
ok-injective h = cc

pub err-injective {ℓ} : {A : Type ℓ} {d e : Error} → ◌≡◌ {A = Result A} (err d) (err e) → d ≡ e
err-injective h = cc

resume-ok :
    {S A B : Type 0} (f : A → Exec S B) (r : Result A) (t : S) {a : A}
    → r ≡ ok a
    → Path (Result B × S) (elim r [ ok x ↦ f x t | err e ↦ (err e, t) ]) (f a t)
resume-ok f (ok x) t h = ap (λ y. f y t) (ok-injective h)
resume-ok f (err e) t h = cc

resume-err :
    {S A B : Type 0} (f : A → Exec S B) (r : Result A) (t : S) {e : Error}
    → r ≡ err e
    → Path (Result B × S) (elim r [ ok x ↦ f x t | err e ↦ (err e, t) ]) (err e, t)
resume-err f (ok x) t h = cc
resume-err f (err d) t h = ap (λ y. (err y, t)) (err-injective h)

-- A chain goes on from a step that returned, and ends at a step that raised.
pub bind-ok :
    {S A B : Type 0} (m : Exec S A) (f : A → Exec S B) (s : S) {a : A}
    → (m s).0 ≡ ok a
    → (m >>= f) s ≡ f a (m s).1
bind-ok m f s h = resume-ok f (m s).0 (m s).1 h

pub bind-err :
    {S A B : Type 0} (m : Exec S A) (f : A → Exec S B) (s : S) {e : Error}
    → (m s).0 ≡ err e
    → (m >>= f) s ≡ (err e, (m s).1)
bind-err m f s h = resume-err f (m s).0 (m s).1 h

ended-ok :
    {S A B : Type 0} (f : A → Exec S B) (r : Result A) (t : S) {b : B} {u : S}
    → Path (Result B × S) (elim r [ ok x ↦ f x t | err e ↦ (err e, t) ]) (ok b, u)
    → (a : A) × (r ≡ ok a) × (f a t ≡ (ok b, u))
ended-ok f (ok a) t h = (a, refl, h)
ended-ok f (err e) t h = cc

-- A chain that returned has had its first step return.
pub bind-eq-ok :
    {S A B : Type 0} (m : Exec S A) (f : A → Exec S B) (s : S) {b : B} {u : S}
    → (m >>= f) s ≡ (ok b, u)
    → (a : A) × ((m s).0 ≡ ok a) × (f a (m s).1 ≡ (ok b, u))
bind-eq-ok m f s h = ended-ok f (m s).0 (m s).1 h

pub err-ne-ok {ℓ} : {A : Type ℓ} {e : Error} {a : A} → err e ≡ ok a → ⊥
err-ne-ok h = cc
