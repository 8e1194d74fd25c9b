-- ===== src/Common/Lists.antt =====
-- Lists measured by native numbers, Boolean quantifiers over lists, and Python's bounded deque.
use Prim.Native.Nat.{ℕ, zero, suc, ◌+◌, ◌-◌, ◌≤◌, ◌<◌}
use Prim.Native.String.{String}
use mathlib.Core.Path.{◌≡◌, refl}
use mathlib.Core.Bool.{Bool, true, false, ◌&&◌, ◌||◌}
use mathlib.Core.Option.{Option, none, some}
use mathlib.Core.List.{List, [], ◌∷◌, ◌++◌}
use native.Mathlib.Omega.{arith}
use text.Mathlib.Text.{◌==◌}
use physical_ai_runtime.Common.Tests.{if◌then◌else◌}

module _ {ℓ} {A : Type ℓ} where
  abbrev pub length : List A → ℕ
  length [] = 0
  length (x ∷ xs) = suc (length xs)

  abbrev pub take : ℕ → List A → List A
  take zero xs = []
  take (suc n) [] = []
  take (suc n) (x ∷ xs) = x ∷ take n xs

  abbrev pub drop : ℕ → List A → List A
  drop zero xs = xs
  drop (suc n) [] = []
  drop (suc n) (x ∷ xs) = drop n xs

  abbrev pub get_elem? : List A → ℕ → Option A
  get_elem? [] i = none
  get_elem? (x ∷ xs) zero = some x
  get_elem? (x ∷ xs) (suc i) = get_elem? xs i

  -- `xs[-1] if xs else None`
  abbrev pub last? : List A → Option A
  last? [] = none
  last? (x ∷ []) = some x
  last? (x ∷ y ∷ ys) = last? (y ∷ ys)

  abbrev pub is_empty : List A → Bool
  is_empty [] = true
  is_empty (x ∷ xs) = false

  -- `all(p(x) for x in xs)`
  abbrev pub all_of : (A → Bool) → List A → Bool
  all_of p [] = true
  all_of p (x ∷ xs) = p x && all_of p xs

  -- `any(p(x) for x in xs)`
  abbrev pub any_of : (A → Bool) → List A → Bool
  any_of p [] = false
  any_of p (x ∷ xs) = p x || any_of p xs

  -- `[x for x in xs if p(x)]`
  abbrev pub keep : (A → Bool) → List A → List A
  keep p [] = []
  keep p (x ∷ xs) = let rest = keep p xs in if p x then x ∷ rest else rest

  -- `deque(maxlen=n).append(x)`: the oldest items leave on the left.
  abbrev pub push_bounded : ℕ → List A → A → List A
  push_bounded n xs x = drop (length xs + 1 - n) (xs ++ x ∷ [])

  pub length-append : (xs ys : List A) → length (xs ++ ys) ≡ length xs + length ys
  length-append [] ys = omega arith
  length-append (x ∷ xs) ys = omega (arith, length-append xs ys)

  pub length-drop : (n : ℕ) (xs : List A) → length (drop n xs) ≡ length xs - n
  length-drop zero xs = omega arith
  length-drop (suc n) [] = omega arith
  length-drop (suc n) (x ∷ xs) = omega (arith, length-drop n xs)

  pub last?-append : (xs : List A) (x : A) → last? (xs ++ x ∷ []) ≡ some x
  last?-append [] x = refl
  last?-append (y ∷ []) x = refl
  last?-append (y ∷ z ∷ zs) x = last?-append (z ∷ zs) x

  pub drop-append_one :
      (n : ℕ) (xs : List A) (x : A) → n ≤ length xs → drop n (xs ++ x ∷ []) ≡ drop n xs ++ x ∷ []
  drop-append_one zero xs x h = refl
  drop-append_one (suc n) [] x h = absurd (omega arith)
  drop-append_one (suc n) (y ∷ ys) x h = drop-append_one n ys x (omega arith)

-- `s in names`
abbrev pub has_name : String → List String → Bool
has_name s [] = false
has_name s (x ∷ xs) = s == x || has_name s xs

module _ {ℓ} {A : Type ℓ} where
  pub length-push_bounded :
      (n : ℕ) (xs : List A) (x : A) → length xs ≤ n → length (push_bounded n xs x) ≤ n
  length-push_bounded n xs x h =
      omega (arith, length-drop (length xs + 1 - n) (xs ++ x ∷ []), length-append xs (x ∷ []))

  pub last?-push_bounded :
      (n : ℕ) (xs : List A) (x : A) → 0 < n → last? (push_bounded n xs x) ≡ some x
  last?-push_bounded n xs x h =
      rw (drop-append_one (length xs + 1 - n) xs x (omega arith))
        (last?-append (drop (length xs + 1 - n) xs) x)
