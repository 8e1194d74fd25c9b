-- ===== src/Common/Sorting.antt =====
-- Python's `list.sort(key=...)`: a stable sort by a number.
use physical_ai_runtime.Common.Lists.{is_empty, keep}
use physical_ai_runtime.Common.Tests.{Bool-cases, eqb, if◌then◌else◌, leb, leb→le, leb→lt}
use Prim.Native.Nat.{ℕ, ◌≤◌}
use mathlib.Core.Path.{◌≡◌, refl}
use mathlib.Core.Logic.{inl, inr}
use mathlib.Core.Bool.{false}
use mathlib.Core.List.{List, [], ◌∷◌}
use native.Mathlib.Omega.{arith}

module _ {ℓ} {A : Type ℓ} (key : A → ℕ) where
  unfoldable pub place : A → List A → List A
  place x [] = x ∷ []
  place x (y ∷ ys) = let rest = place x ys in if leb (key x) (key y) then x ∷ y ∷ ys else y ∷ rest

  unfoldable pub sort_by : List A → List A
  sort_by [] = []
  sort_by (x ∷ xs) = place x (sort_by xs)

  -- No key is below the one before it.
  abbrev pub IsSortedFrom : ℕ → List A → Type 0
  IsSortedFrom k [] = Unit
  IsSortedFrom k (x ∷ xs) = (k ≤ key x) × IsSortedFrom (key x) xs

  IsSortedFrom-place :
      (k : ℕ) (x : A) (xs : List A) → k ≤ key x → IsSortedFrom k xs → IsSortedFrom k (place x xs)
  unfolding place
  IsSortedFrom-place k x [] h s = (h, tt)
  IsSortedFrom-place k x (y ∷ ys) h s = elim (Bool-cases (leb (key x) (key y))) [
    | inl le ↦ rw le (h, (leb→le (key x) (key y) le, s.1))
    | inr gt ↦
        rw gt (s.0, IsSortedFrom-place (key y) x ys (omega (arith, leb→lt (key x) (key y) gt)) s.1)
  ]

  pub sort_by-IsSortedFrom : (xs : List A) → IsSortedFrom 0 (sort_by xs)
  unfolding sort_by
  sort_by-IsSortedFrom [] = tt
  sort_by-IsSortedFrom (x ∷ xs) =
      IsSortedFrom-place 0 x (sort_by xs) (omega arith) (sort_by-IsSortedFrom xs)

  abbrev pub at_key : ℕ → List A → List A
  at_key k = keep (λ x. eqb (key x) k)

  at_key-place : (k : ℕ) (x : A) (xs : List A) → at_key k (place x xs) ≡ at_key k (x ∷ xs)
  unfolding place
  at_key-place k x [] = refl
  at_key-place k x (y ∷ ys) = ground (arith, at_key-place k x ys)

  -- The sort keeps every item, and the order of those with equal keys.
  pub at_key-sort_by : (k : ℕ) (xs : List A) → at_key k (sort_by xs) ≡ at_key k xs
  unfolding sort_by
  at_key-sort_by k [] = refl
  at_key-sort_by k (x ∷ xs) = ground (arith, at_key-place k x (sort_by xs), at_key-sort_by k xs)

  is_empty-place : (x : A) (xs : List A) → is_empty (place x xs) ≡ false
  unfolding place
  is_empty-place x [] = refl
  is_empty-place x (y ∷ ys) = elim (Bool-cases (leb (key x) (key y))) [
    | inl le ↦ rw le refl
    | inr gt ↦ rw gt refl
  ]

  pub is_empty-sort_by : (xs : List A) → is_empty xs ≡ false → is_empty (sort_by xs) ≡ false
  unfolding sort_by
  is_empty-sort_by [] h = cc
  is_empty-sort_by (x ∷ xs) h = is_empty-place x (sort_by xs)
