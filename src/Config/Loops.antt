-- ===== src/Config/Loops.antt =====
-- Loops over the values of a profile: what they build has what each step gives.
use physical_ai_runtime.Common.Try.{>>=-eq-ok, traverse, ◌>>=◌}
use physical_ai_runtime.Common.{
  Dict, List, Result, String, [], ap, is_empty, ok, ok-injective, sym, ◌∷◌, ◌≡◌,
}
use physical_ai_runtime.Config.{traverse_dict}
use mathlib.Core.Path.{subst}

abbrev pub All {ℓ κ} : {A : Type ℓ} → (A → Type κ) → List A → Type κ
All P [] = Unit
All P (x ∷ xs) = P x × All P xs

-- What a mapped loop builds has a property in each item that the call gives to its value.
pub traverse_dict-All :
    {A B : Type 0} (P : String × B → Type 0) (f : String → A → Result B)
    → ((k : String) (a : A) (b : B) → f k a ≡ ok b → P (k, b))
    → (d : Dict A) {d' : Dict B} → traverse_dict f d ≡ ok d'
    → All P d'
traverse_dict-All P f h [] e = subst (All P) (ok-injective e) tt
traverse_dict-All P f h ((k, a) ∷ d) e =
    let (p, e1, e2) =
      >>=-eq-ok (f k a >>= λ b. ok (k, b)) (λ y. traverse_dict f d >>= λ ys. ok (y ∷ ys)) e in
    let (b, e3, e4) = >>=-eq-ok (f k a) (λ b. ok (k, b)) e1 in
    let (ps, e5, e6) = >>=-eq-ok (traverse_dict f d) (λ ys. ok (p ∷ ys)) e2 in
    subst (All P) (ok-injective e6)
      (subst P (ok-injective e4) (h k a b e3), traverse_dict-All P f h d e5)

pub traverse-All :
    {A B : Type 0} (P : B → Type 0) (f : A → Result B)
    → ((a : A) (b : B) → f a ≡ ok b → P b)
    → (xs : List A) {ys : List B} → traverse f xs ≡ ok ys
    → All P ys
traverse-All P f h [] e = subst (All P) (ok-injective e) tt
traverse-All P f h (x ∷ xs) e =
    let (y, e1, e2) = >>=-eq-ok (f x) (λ y. traverse f xs >>= λ ys. ok (y ∷ ys)) e in
    let (ys, e3, e4) = >>=-eq-ok (traverse f xs) (λ ys. ok (y ∷ ys)) e2 in
    subst (All P) (ok-injective e4) (h x y e1, traverse-All P f h xs e3)

pub traverse-is_empty :
    {A B : Type 0} (f : A → Result B) (xs : List A) (ys : List B)
    → traverse f xs ≡ ok ys
    → is_empty ys ≡ is_empty xs
traverse-is_empty f [] ys e = ap is_empty (sym (ok-injective e))
traverse-is_empty f (x ∷ xs) ys e =
    let (y, e1, e2) = >>=-eq-ok (f x) (λ y. traverse f xs >>= λ ys. ok (y ∷ ys)) e in
    let (zs, e3, e4) = >>=-eq-ok (traverse f xs) (λ ys. ok (y ∷ ys)) e2 in
    ap is_empty (sym (ok-injective e4))
