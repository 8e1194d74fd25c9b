-- ===== src/Apps/Record/Tasks.antt =====
-- `_normalize_task_name` and `_task_recorder_config` of apps/record.py: one task label that is also
-- the name of a directory, and the recorder configuration that carries it.
pub mod Stripping
pub mod Names
pub mod Configured
use Prim.Native.Char.{Char, code}
use physical_ai_runtime.Common.Try.{◌>>=◌}
use physical_ai_runtime.Common.{
  Bool, Dict, List, Option, Result, String, [], eqb, err, false, has_name, if◌then◌else◌, insert,
  leb, lookup, none, ok, pos, some, true, value_error, ℕ, ℤ, ◌&&◌, ◌==◌, ◌||◌, ◌∷◌,
}
use physical_ai_runtime.Config.{Json, decimal, text_value}

-- The characters that `str.strip` removes.
abbrev pub is_space : Char → Bool
is_space c =
    let n = code c in
    (leb 9 n && leb n 13)
    || (leb 28 n && leb n 32)
    || eqb n 133
    || eqb n 160
    || eqb n 5760
    || (leb 8192 n && leb n 8202)
    || eqb n 8232
    || eqb n 8233
    || eqb n 8239
    || eqb n 8287
    || eqb n 12288

abbrev pub is_blank : String → Bool
is_blank String.[] = true
is_blank (String.◌∷◌ c s) = false

unfoldable pub lstrip : String → String
lstrip String.[] = ""
lstrip (String.◌∷◌ c s) = let rest = lstrip s in if is_space c then rest else String.◌∷◌ c s

unfoldable pub rstrip : String → String
rstrip String.[] = ""
rstrip (String.◌∷◌ c s) =
    let rest = rstrip s in if is_blank rest && is_space c then "" else String.◌∷◌ c rest

-- `str.strip`
unfoldable pub strip : String → String
strip s = rstrip (lstrip s)

-- `c in s` for a character, by its code
abbrev pub has_char : ℕ → String → Bool
has_char n String.[] = false
has_char n (String.◌∷◌ c s) = eqb (code c) n || has_char n s

-- '/', '\' and NUL
abbrev pub breaks_path : String → Bool
breaks_path s = has_char 47 s || has_char 92 s || has_char 0 s

unfoldable pub normalize_task_name : String → Result String
normalize_task_name value =
    let task = strip value in
    if is_blank task
    then err value_error
    else if task == "." || task == ".." || breaks_path task
    then err value_error
    else ok task

-- `{key: value for key, value in recorder_values.items() if key in valid_names}`
unfoldable pub known_values : List String → Dict Json → Dict Json
known_values valid [] = []
known_values valid ((k, v) ∷ d) =
    let rest = known_values valid d in if has_name k valid then (k, v) ∷ rest else rest

abbrev pub or_zero : Option Json → Json
or_zero none = decimal (pos 0)
or_zero (some v) = v

-- `values.update({...})`
abbrev pub with_task : ℤ → String → String → Dict Json → Dict Json
with_task duration task operator d = insert "max_episode_duration" (decimal duration) (
    insert "operator_name" (text_value operator)
      (insert "task" (text_value task) (insert "experiment_name" (text_value task) d)))

-- The arguments of `RecorderConfig`, whose fields are `valid`; `float_of` is Python's `float`.
unfoldable pub task_recorder_config :
    (Json → Result ℤ) → List String → Dict Json → String → String → Result (Dict Json)
task_recorder_config float_of valid recorder_values task operator =
    float_of (or_zero (lookup "max_duration_s" recorder_values)) >>= λ duration.
    ok (with_task duration task operator (known_values valid recorder_values))
