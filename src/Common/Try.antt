-- ===== src/Common/Try.antt =====
-- The `do` notation of pure calls that may raise: a chain of `Result`s stops at the first error.
use mathlib.Core.Path.{◌≡◌, refl}
use mathlib.Core.Bool.{Bool}
use mathlib.Core.List.{List, [], ◌∷◌}
use physical_ai_runtime.Common.Tests.{if◌then◌else◌}
use physical_ai_runtime.Common.Calls.{Error, Result, err, err-ne-ok, ok}

infixl 5 ◌>>◌ ◌>>=◌
abbrev pub ◌>>=◌ {ℓ μ} : {X : Type ℓ} {Y : Type μ} → Result X → (X → Result Y) → Result Y
err x >>= next = err x
ok v >>= next = next v

abbrev pub ◌>>◌ {μ} : {Y : Type μ} → Result (Unit {0}) → Result Y → Result Y
first >> second = first >>= λ u. second

-- `if b: raise e`
abbrev pub refuse_if : Bool → Error → Result (Unit {0})
refuse_if b e = if b then err e else ok tt

-- A loop that maps each item and stops at the first exception.
abbrev pub traverse {ℓ κ} : {A : Type ℓ} {B : Type κ} → (A → Result B) → List A → Result (List B)
traverse f [] = ok []
traverse f (x ∷ xs) = f x >>= λ y. traverse f xs >>= λ ys. ok (y ∷ ys)

pub >>=-eq-ok {ℓ μ} :
    {X : Type ℓ} {Y : Type μ} (r : Result X) (next : X → Result Y) {y : Y}
    → (r >>= next) ≡ ok y
    → (x : X) × (r ≡ ok x) × (next x ≡ ok y)
>>=-eq-ok (err e) next h = absurd (err-ne-ok h)
>>=-eq-ok (ok x) next h = (x, refl, h)
