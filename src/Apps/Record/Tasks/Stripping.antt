-- ===== src/Apps/Record/Tasks/Stripping.antt =====
-- `str.strip` as the scripts use it: what it leaves, and what it leaves as it is.
use Prim.Native.Char.{Char}
use physical_ai_runtime.Common.{Bool-cases, String, false, inl, inr, refl, true, ◌≡◌}
use physical_ai_runtime.Apps.Record.Tasks.{is_blank, is_space, lstrip, rstrip, strip}

-- The first character, and the last one, is not white.
abbrev pub StartsPlain : String → Type 0
StartsPlain String.[] = Unit
StartsPlain (String.◌∷◌ c s) = is_space c ≡ false

abbrev pub EndsPlain : String → Type 0
EndsPlain String.[] = Unit
EndsPlain (String.◌∷◌ c String.[]) = is_space c ≡ false
EndsPlain (String.◌∷◌ c (String.◌∷◌ d s)) = EndsPlain (String.◌∷◌ d s)

lstrip-StartsPlain : (s : String) → StartsPlain (lstrip s)
unfolding lstrip
lstrip-StartsPlain String.[] = tt
lstrip-StartsPlain (String.◌∷◌ c s) = elim (Bool-cases (is_space c)) [
  | inl white ↦ rw white (lstrip-StartsPlain s)
  | inr plain ↦ rw plain plain
]

rstrip-StartsPlain : (s : String) → StartsPlain s → StartsPlain (rstrip s)
unfolding rstrip
rstrip-StartsPlain String.[] h = tt
rstrip-StartsPlain (String.◌∷◌ c s) h = elim (Bool-cases (is_blank (rstrip s))) [
  | inl blank ↦ rw blank (rw h h)
  | inr more ↦ rw more h
]

EndsPlain-cons :
    (c : Char) (s : String) → is_blank s ≡ false → EndsPlain s → EndsPlain (String.◌∷◌ c s)
EndsPlain-cons c String.[] h p = cc
EndsPlain-cons c (String.◌∷◌ d s) h p = p

EndsPlain-one :
    (c : Char) (s : String) → is_blank s ≡ true → is_space c ≡ false → EndsPlain (String.◌∷◌ c s)
EndsPlain-one c String.[] h p = p
EndsPlain-one c (String.◌∷◌ d s) h p = cc

rstrip-EndsPlain : (s : String) → EndsPlain (rstrip s)
unfolding rstrip
rstrip-EndsPlain String.[] = tt
rstrip-EndsPlain (String.◌∷◌ c s) = elim (Bool-cases (is_blank (rstrip s))) [
  | inr more ↦ rw more (EndsPlain-cons c (rstrip s) more (rstrip-EndsPlain s))
  | inl blank ↦ elim (Bool-cases (is_space c)) [
    | inl white ↦ rw blank (rw white tt)
    | inr plain ↦ rw blank (rw plain (EndsPlain-one c (rstrip s) blank plain))
  ]
]

lstrip-plain : (s : String) → StartsPlain s → lstrip s ≡ s
unfolding lstrip
lstrip-plain String.[] h = refl
lstrip-plain (String.◌∷◌ c s) h = rw h refl

rstrip-plain : (s : String) → EndsPlain s → rstrip s ≡ s
unfolding rstrip
rstrip-plain String.[] h = refl
rstrip-plain (String.◌∷◌ c String.[]) h = rw h refl
rstrip-plain (String.◌∷◌ c (String.◌∷◌ d s)) h = rw (rstrip-plain (String.◌∷◌ d s) h) refl

-- A text that `strip` leaves as it is.
pub record IsStripped (s : String) : Type 0 where
  pub starts : StartsPlain s
  pub ends : EndsPlain s

pub strip-IsStripped : (s : String) → IsStripped (strip s)
unfolding strip
strip-IsStripped s = record {
  starts = rstrip-StartsPlain (lstrip s) (lstrip-StartsPlain s);
  ends = rstrip-EndsPlain (lstrip s);
}

pub strip-stripped : (s : String) → IsStripped s → strip s ≡ s
unfolding strip
strip-stripped s h = rw (lstrip-plain s h.starts) (rstrip-plain s h.ends)
