-- ===== src/Apps/Eval/Verdict.antt =====
-- The verdict of apps/eval.py: `_EvaluationResult` and the loop that fills it.
use physical_ai_runtime.Common.Try.{>>=-eq-ok, traverse}
use physical_ai_runtime.Common.{
  Bool, Bool-cases, List, Option, Result, String, [], all_of, ap, arith, err-ne-ok, false,
  if◌then◌else◌, inl, inr, is_empty, leb_ℤ, ltb_ℤ, none, not, ok, ok-injective, pos, refl, some,
  sym, true, ℤ, ◌&&◌, ◌||◌, ◌∙◌, ◌∷◌, ◌≡◌,
}
use physical_ai_runtime.Apps.Eval.{Observed, age_of, ages_of, evaluate, judge, max_age, passed}

-- The largest of some ages is within a limit if all are.
abbrev within : ℤ → Option ℤ → Bool
within limit none = true
within limit (some m) = leb_ℤ m limit

within-larger :
    (limit a : ℤ) (o : Option ℤ)
    → within limit (elim o [ none ↦ some a | some m ↦ some (if ltb_ℤ m a then a else m) ])
      ≡ (leb_ℤ a limit && within limit o)
within-larger limit a none = ground arith
within-larger limit a (some m) = ground arith

within-max_age :
    (limit : ℤ) (os : List Observed)
    → within limit (max_age (ages_of os)) ≡ all_of (λ (o : Observed). leb_ℤ (age_of o) limit) os
unfolding max_age
within-max_age limit [] = refl
within-max_age limit (o ∷ os) =
    within-larger limit (age_of o) (max_age (ages_of os))
    ∙ ap (λ b. leb_ℤ (age_of o) limit && b) (within-max_age limit os)

judge-within :
    (limit : ℤ) (diagnostics : List String) (a : ℤ) (o : Option ℤ)
    → judge limit diagnostics
        (elim o [ none ↦ some a | some m ↦ some (if ltb_ℤ m a then a else m) ])
      ≡ (within limit (elim o [ none ↦ some a | some m ↦ some (if ltb_ℤ m a then a else m) ])
          && is_empty diagnostics)
judge-within limit diagnostics a none = refl
judge-within limit diagnostics a (some m) = refl

passed-all :
    (limit : ℤ) (os : List Observed) (diagnostics : List String)
    → passed limit (ages_of os) diagnostics ≡ (
        not (is_empty os)
        && (all_of (λ (o : Observed). leb_ℤ (age_of o) limit) os && is_empty diagnostics))
unfolding passed max_age
passed-all limit [] diagnostics = refl
passed-all limit (o ∷ os) diagnostics =
    judge-within limit diagnostics (age_of o) (max_age (ages_of os))
    ∙ ap (λ b. b && is_empty diagnostics) (within-max_age limit (o ∷ os))

-- An evaluation that ends has positive arguments and an observation in every round. It passes
-- exactly if there was one, all are at most as old as the limit, and nothing is wrong with the
-- hardware.
pub evaluate-verdict :
    (duration rate limit : ℤ) (rounds : List (Result Observed)) (diagnostics : List String)
    {verdict : Bool}
    → evaluate duration rate limit rounds diagnostics ≡ ok verdict
    → (os : List Observed) × (traverse (λ (o : Result Observed). o) rounds ≡ ok os)
      × ((leb_ℤ duration (pos 0) || leb_ℤ rate (pos 0) || leb_ℤ limit (pos 0)) ≡ false)
      × (verdict ≡ (
          not (is_empty os)
          && (all_of (λ (o : Observed). leb_ℤ (age_of o) limit) os && is_empty diagnostics)))
unfolding evaluate
evaluate-verdict duration rate limit rounds diagnostics h =
    elim (Bool-cases (leb_ℤ duration (pos 0) || leb_ℤ rate (pos 0) || leb_ℤ limit (pos 0))) [
      | inl bad ↦ absurd (err-ne-ok (rw (bad, evaluate) at h))
      | inr fine ↦
          let (os, all, same) =
            >>=-eq-ok (traverse (λ (o : Result Observed). o) rounds)
              (λ os. ok (passed limit (ages_of os) diagnostics)) (rw (fine, evaluate) at h) in
          (os, all, fine, sym (ok-injective same) ∙ passed-all limit os diagnostics)
    ]
