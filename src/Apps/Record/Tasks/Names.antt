-- ===== src/Apps/Record/Tasks/Names.antt =====
-- `_normalize_task_name` of apps/record.py: the task names.
use Prim.Native.Char.{code}
use mathlib.Core.Path.{subst}
use physical_ai_runtime.Common.{
  Bool, String, ap, arith, eq_iff, err, false, if◌then◌else◌, ok, refl, sym, true_ne_false,
  value_error, ℕ, ◌==◌, ◌||◌, ◌↔◌, ◌∙◌, ◌≡◌, ◌≢◌,
}
use physical_ai_runtime.Apps.Record.Tasks.{
  breaks_path, has_char, is_blank, normalize_task_name, strip,
}
use physical_ai_runtime.Apps.Record.Tasks.Stripping.{IsStripped, strip-IsStripped, strip-stripped}

-- No character has this code.
abbrev pub Lacks : ℕ → String → Type 0
Lacks n String.[] = Unit
Lacks n (String.◌∷◌ c s) = (code c ≢ n) × Lacks n s

-- One component of a path, which names neither this directory nor its parent.
pub record IsDirectoryName (s : String) : Type 0 where
  pub some_text : s ≢ ""
  pub not_here : s ≢ "."
  pub not_parent : s ≢ ".."
  pub no_slash : Lacks 47 s
  pub no_backslash : Lacks 92 s
  pub no_nul : Lacks 0 s

has_char-false : (n : ℕ) (s : String) → has_char n s ≡ false → Lacks n s
has_char-false n String.[] h = tt
has_char-false n (String.◌∷◌ c s) h = (ground arith, has_char-false n s (ground arith))

Lacks-has_char : (n : ℕ) (s : String) → Lacks n s → has_char n s ≡ false
Lacks-has_char n String.[] h = refl
Lacks-has_char n (String.◌∷◌ c s) h = ground (arith, Lacks-has_char n s h.1)

is_blank-false : (s : String) → s ≢ "" → is_blank s ≡ false
is_blank-false String.[] h = absurd (h refl)
is_blank-false (String.◌∷◌ c s) h = refl

-- The tests of the function, and what they stand for.
abbrev is_refused : String → Bool
is_refused t = t == "." || t == ".." || breaks_path t

passed_tests : (t : String) → is_blank t ≡ false → is_refused t ≡ false → IsDirectoryName t
passed_tests t b h = record {
  some_text = λ e. true_ne_false (sym (ap is_blank e) ∙ b);
  not_here = λ e. ground (arith, eq_iff t ".");
  not_parent = λ e. ground (arith, eq_iff t "..");
  no_slash = has_char-false 47 t (ground arith);
  no_backslash = has_char-false 92 t (ground arith);
  no_nul = has_char-false 0 t (ground arith);
}

directory_name-passes : (t : String) → IsDirectoryName t → is_refused t ≡ false
directory_name-passes t h = ground (
  arith,
  eq_iff t ".",
  eq_iff t "..",
  h.not_here,
  h.not_parent,
  Lacks-has_char 47 t h.no_slash,
  Lacks-has_char 92 t h.no_backslash,
  Lacks-has_char 0 t h.no_nul,
)

two_tests :
    (b c : Bool) (t u : String)
    → (if b then err value_error else if c then err value_error else ok t) ≡ ok u
    → (b ≡ false) × (c ≡ false) × (t ≡ u)
two_tests b c t u h = ground arith

accepted_name :
    (value : String) {task : String}
    → normalize_task_name value ≡ ok task
    → (task ≡ strip value) × IsDirectoryName (strip value)
unfolding normalize_task_name
accepted_name value h =
    let (filled, fine, same) =
      two_tests (is_blank (strip value)) (is_refused (strip value)) _ _ h in
    (sym same, passed_tests (strip value) filled fine)

directory_name-accepted :
    (value : String) → IsDirectoryName (strip value) → normalize_task_name value ≡ ok (strip value)
unfolding normalize_task_name
directory_name-accepted value h =
    rw (is_blank-false (strip value) h.some_text) (rw (directory_name-passes (strip value) h) refl)

-- A task name is accepted exactly if what `strip` leaves of it is one directory component, and that
-- is the task. It has no white space around it, and is accepted again as it is.
pub normalize_task_name_lem :
    (value task : String)
    → (normalize_task_name value ≡ ok task ↔ ((task ≡ strip value) × IsDirectoryName task))
      × (normalize_task_name value ≡ ok task
          → IsStripped task × (normalize_task_name task ≡ ok task))
normalize_task_name_lem value task = ((accepts, accepted), again)
  where
    accepts : normalize_task_name value ≡ ok task → (task ≡ strip value) × IsDirectoryName task
    accepts h = let (e, d) = accepted_name value h in (e, subst IsDirectoryName (sym e) d)

    accepted : (task ≡ strip value) × IsDirectoryName task → normalize_task_name value ≡ ok task
    accepted (e, d) =
        directory_name-accepted value (subst IsDirectoryName e d) ∙ ap (λ t. ok t) (sym e)

    again :
        normalize_task_name value ≡ ok task → IsStripped task × (normalize_task_name task ≡ ok task)
    again h =
        let (e, d) = accepts h in
        let plain = subst IsStripped (sym e) (strip-IsStripped value) in
        let same = strip-stripped task plain in
        (
          plain,
          directory_name-accepted task (subst IsDirectoryName (sym same) d) ∙ ap (λ t. ok t) same,
        )
