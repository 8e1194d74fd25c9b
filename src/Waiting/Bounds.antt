-- ===== src/Waiting/Bounds.antt =====
-- The polling loops of the RMI: the clock in a wait, and the rounds up to the deadline.
use physical_ai_runtime.Common.{
  Bool, Bool-cases, arith, false, inl, inr, keep, suc, true, zero, ℕ, ◌+◌, ◌-◌, ◌<◌, ◌≡◌, ◌≤◌,
}
use physical_ai_runtime.Waiting.{Wait, expired, ready, stuck, wait_loop, wait_state}

-- What a wait may end in.
abbrev pub Ends : {S : Type 0} → (S → Type 0) → (S → Type 0) → Wait S → Type 0
Ends R E (ready s) = R s
Ends R E (expired s) = E s
Ends R E (stuck s) = ⊥

module _ {S : Type 0} (now : S → ℕ) (done past : S → Bool) (pause : S → S) (P : S → Type 0)
    (keep : (s : S) → P s → P (pause s)) (later : (s : S) → P s → now s < now (pause s)) where
  -- With more rounds than the clock can tick before `deadline`, the loop ends by its test or by
  -- its deadline, and the invariant holds there.
  pub wait_loop-Ends :
      (deadline f : ℕ) (s : S)
      → ((t : S) → P t → deadline ≤ now t → past t ≡ true)
      → deadline + 1 - now s < f
      → P s
      → Ends
          (λ t. P t × (done t ≡ true))
          (λ t. P t × (done t ≡ false) × (past t ≡ true))
          (wait_loop f done past pause s)
  unfolding wait_loop
  wait_loop-Ends deadline zero s late room h = absurd (omega arith)
  wait_loop-Ends deadline (suc f) s late room h = elim (Bool-cases (done s)) [
    | inl finished ↦ rw finished (h, finished)
    | inr open_still ↦ elim (Bool-cases (past s)) [
      | inl gone ↦ rw open_still (rw gone (h, open_still, gone))
      | inr early ↦
          rw open_still
            (rw early (wait_loop-Ends deadline f (pause s) late (shorter early) (keep s h)))
    ]
  ]
    where
      shorter : past s ≡ false → deadline + 1 - now (pause s) < f
      shorter early = grind (arith, late s h, later s h)

-- Where a wait did not run out of rounds, its last test was met, or its deadline.
abbrev pub Exits : {S : Type 0} → (S → Bool) → (S → Bool) → Wait S → Type 0
Exits done past (ready s) = done s ≡ true
Exits done past (expired s) = past s ≡ true
Exits done past (stuck s) = Unit

pub wait_loop-Exits :
    {S : Type 0} (done past : S → Bool) (pause : S → S) (f : ℕ) (s : S)
    → Exits done past (wait_loop f done past pause s)
unfolding wait_loop
wait_loop-Exits done past pause zero s = tt
wait_loop-Exits done past pause (suc f) s = elim (Bool-cases (done s)) [
  | inl finished ↦ rw finished finished
  | inr open_still ↦ elim (Bool-cases (past s)) [
    | inl gone ↦ rw open_still (rw gone gone)
    | inr early ↦ rw open_still (rw early (wait_loop-Exits done past pause f (pause s)))
  ]
]

-- However a wait ends, what its pauses keep holds at the end.
pub wait_loop-keeps :
    {S : Type 0} (P : S → Type 0) (done past : S → Bool) (pause : S → S)
    → ((s : S) → P s → P (pause s))
    → (f : ℕ) (s : S) → P s
    → P (wait_state (wait_loop f done past pause s))
unfolding wait_loop
wait_loop-keeps P done past pause keep zero s h = h
wait_loop-keeps P done past pause keep (suc f) s h = elim (Bool-cases (done s)) [
  | inl finished ↦ rw finished h
  | inr open_still ↦ elim (Bool-cases (past s)) [
    | inl gone ↦ rw open_still (rw gone h)
    | inr early ↦
        rw open_still (rw early (wait_loop-keeps P done past pause keep f (pause s) (keep s h)))
  ]
]
