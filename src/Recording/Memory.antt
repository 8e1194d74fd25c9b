-- ===== src/Recording/Memory.antt =====
-- src/interfaces/rmi/rmi/recording.py: the replay buffer in memory. `T` is the type of a
-- transition.
use physical_ai_runtime.Common.{
  List, Result, [], ap, arith, drop, err, if◌then◌else◌, length, length-append, length-drop,
  length-push_bounded, ltb, ok, push_bounded, refl, suc, sym, value_error, zero, ℕ, ◌++◌, ◌+◌, ◌-◌,
  ◌∙◌, ◌∷◌, ◌≡◌, ◌≤◌,
}

-- MemoryReplayBuffer
pub record MemoryBuffer {ℓ} (T : Type ℓ) : Type ℓ where
  pub capacity : ℕ
  pub transitions : List T
  pub current_episode : List T

module _ {ℓ} {T : Type ℓ} where
  abbrev pub new_memory : ℕ → MemoryBuffer T
  new_memory capacity = record { capacity = capacity; transitions = []; current_episode = [] }

  unfoldable pub step : T → MemoryBuffer T → MemoryBuffer T
  step t b = record b {
    transitions = push_bounded b.capacity b.transitions t;
    current_episode = b.current_episode ++ t ∷ [];
  }

  -- MemoryEpisodeScope.__enter__
  unfoldable pub enter_memory : MemoryBuffer T → MemoryBuffer T
  enter_memory b = record b { current_episode = [] }

  -- MemoryEpisodeScope.__exit__ changes nothing.
  abbrev pub exit_memory : MemoryBuffer T → MemoryBuffer T
  exit_memory b = b

  abbrev pub last_episode : MemoryBuffer T → List T
  last_episode b = b.current_episode

  -- `draw` is `random.sample`.
  unfoldable pub sample : (ℕ → List T → List T) → ℕ → MemoryBuffer T → Result (List T)
  sample draw batch_size b =
      if ltb (length b.transitions) batch_size
      then err value_error
      else ok (draw batch_size b.transitions)

  abbrev pub steps : List T → MemoryBuffer T → MemoryBuffer T
  steps [] b = b
  steps (t ∷ ts) b = steps ts (step t b)

  drop-eq : (m n : ℕ) (xs : List T) → m ≡ n → drop m xs ≡ drop n xs
  drop-eq m n xs e = ap (λ k. drop k xs) e

  drop-drop_append :
      (i j : ℕ) (xs ys : List T)
      → i ≤ length xs
      → drop j (drop i xs ++ ys) ≡ drop (i + j) (xs ++ ys)
  drop-drop_append zero j xs ys h = ap (λ n. drop n (xs ++ ys)) (omega arith)
  drop-drop_append (suc i) j [] ys h = absurd (omega arith)
  drop-drop_append (suc i) j (x ∷ xs) ys h =
      drop-drop_append i j xs ys (omega arith)
      ∙ drop-eq (suc (i + j)) (suc i + j) (x ∷ xs ++ ys) (omega arith)

  append_one-append : (xs ys : List T) (x : T) → (xs ++ x ∷ []) ++ ys ≡ xs ++ x ∷ ys
  append_one-append [] ys x = refl
  append_one-append (z ∷ zs) ys x = ap (λ l. z ∷ l) (append_one-append zs ys x)

  append_nil : (xs : List T) → xs ++ [] ≡ xs
  append_nil [] = refl
  append_nil (x ∷ xs) = ap (λ l. x ∷ l) (append_nil xs)

  steps-transitions :
      (ts : List T) (b : MemoryBuffer T)
      → length b.transitions ≤ b.capacity
      → (steps ts b).transitions
        ≡ drop (length b.transitions + length ts - b.capacity) (b.transitions ++ ts)
  unfolding step
  steps-transitions [] b h =
      rw (append_nil b.transitions)
        (drop-eq 0 (length b.transitions + 0 - b.capacity) b.transitions (omega arith))
  steps-transitions (t ∷ ts) b h =
      let old = b.transitions in
      let i = length old + 1 - b.capacity in
      let size = length-append old (t ∷ []) in
      steps-transitions ts (step t b) (length-push_bounded b.capacity old t h)
      ∙ drop-drop_append i (length (drop i (old ++ t ∷ [])) + length ts - b.capacity)
          (old ++ t ∷ []) ts (omega (arith, size))
      ∙ rw (append_one-append old ts t)
          (ap (λ n. drop n (old ++ t ∷ ts)) (omega (arith, size, length-drop i (old ++ t ∷ []))))

  steps-current :
      (ts : List T) (b : MemoryBuffer T) → (steps ts b).current_episode ≡ b.current_episode ++ ts
  unfolding step
  steps-current [] b = sym (append_nil b.current_episode)
  steps-current (t ∷ ts) b = steps-current ts (step t b) ∙ append_one-append b.current_episode ts t

  -- After a scope is entered, transitions are taken and the scope is closed, the last episode is
  -- exactly those, in order. The buffer holds the newest of its old transitions and the new ones,
  -- in order, as many as its capacity allows.
  pub steps-Recorded :
      (ts : List T) (b : MemoryBuffer T)
      → length b.transitions ≤ b.capacity
      → let b' = exit_memory (steps ts (enter_memory b)) in
        (last_episode b' ≡ ts)
        × (b'.transitions
            ≡ drop (length b.transitions + length ts - b.capacity) (b.transitions ++ ts))
  unfolding enter_memory
  steps-Recorded ts b h =
      let b' = enter_memory b in (steps-current ts b', steps-transitions ts b' h)
