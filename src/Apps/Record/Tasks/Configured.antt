-- ===== src/Apps/Record/Tasks/Configured.antt =====
-- `_task_recorder_config` of apps/record.py: the task and its operator in the configuration.
use mathlib.Core.Path.{subst}
use physical_ai_runtime.Common.Try.{>>=-eq-ok}
use physical_ai_runtime.Common.{
  Bool, Dict, List, Result, String, [], arith, eq_iff, false, has_name, if◌then◌else◌, insert,
  lookup, lookup-insert, none, ok, ok-injective, some, sym, values, ℤ, ◌==◌, ◌||◌, ◌∙◌, ◌∷◌, ◌≡◌,
}
use physical_ai_runtime.Config.{Json, decimal, text_value}
use physical_ai_runtime.Apps.Record.Tasks.{known_values, or_zero, task_recorder_config, with_task}

-- The keys that the configuration of a task sets itself.
abbrev pub is_task_key : String → Bool
is_task_key k =
    k == "experiment_name" || k == "task" || k == "operator_name" || k == "max_episode_duration"

lookup-known_values :
    (valid : List String) (k : String) (d : Dict Json)
    → lookup k (known_values valid d) ≡ (if has_name k valid then lookup k d else none)
unfolding known_values
lookup-known_values valid k [] = ground arith
lookup-known_values valid k ((j, v) ∷ d) = ground (arith, eq_iff j k, lookup-known_values valid k d)

lookup-with_task :
    (k task operator : String) (duration : ℤ) (d : Dict Json)
    → lookup k (with_task duration task operator d) ≡ (
        if "max_episode_duration" == k
        then some (decimal duration)
        else if "operator_name" == k
        then some (text_value operator)
        else if "task" == k
        then some (text_value task)
        else if "experiment_name" == k
        then some (text_value task)
        else lookup k d)
lookup-with_task k task operator duration d =
    let d1 : Dict Json = insert "experiment_name" (text_value task) d in
    let d2 : Dict Json = insert "task" (text_value task) d1 in
    let d3 : Dict Json = insert "operator_name" (text_value operator) d2 in
    rw (sym (lookup-insert "experiment_name" k (text_value task) d)) (
      rw (sym (lookup-insert "task" k (text_value task) d1)) (
        rw (sym (lookup-insert "operator_name" k (text_value operator) d2))
          (lookup-insert "max_episode_duration" k (decimal duration) d3)))

-- A key that the task does not set.
lookup-with_task_other :
    (k task operator : String) (duration : ℤ) (d : Dict Json)
    → is_task_key k ≡ false
    → lookup k (with_task duration task operator d) ≡ lookup k d
lookup-with_task_other k task operator duration d h =
    lookup-with_task k task operator duration d
    ∙ ground (
      arith,
      eq_iff "max_episode_duration" k,
      eq_iff "operator_name" k,
      eq_iff "task" k,
      eq_iff "experiment_name" k,
      eq_iff k "max_episode_duration",
      eq_iff k "operator_name",
      eq_iff k "task",
      eq_iff k "experiment_name",
    )

-- The directory of the dataset and the task of its episodes are the given task, whatever the
-- profile says; all other arguments are the values that the profile has for fields of the
-- configuration.
pub task_recorder_config-aligned :
    (float_of : Json → Result ℤ) (valid : List String) (values : Dict Json) (task operator : String)
    {r : Dict Json}
    → task_recorder_config float_of valid values task operator ≡ ok r
    → (lookup "experiment_name" r ≡ some (text_value task))
      × (lookup "task" r ≡ some (text_value task))
      × (lookup "operator_name" r ≡ some (text_value operator))
      × ((k : String)
          → is_task_key k ≡ false
          → lookup k r ≡ (if has_name k valid then lookup k values else none))
unfolding task_recorder_config
task_recorder_config-aligned float_of valid values task operator h =
    let (duration, _, same) =
      >>=-eq-ok (float_of (or_zero (lookup "max_duration_s" values)))
        (λ duration. ok (with_task duration task operator (known_values valid values))) h in
    subst
      (λ (r : Dict Json).
        (lookup "experiment_name" r ≡ some (text_value task))
        × (lookup "task" r ≡ some (text_value task))
        × (lookup "operator_name" r ≡ some (text_value operator))
        × ((k : String)
            → is_task_key k ≡ false
            → lookup k r ≡ (if has_name k valid then lookup k values else none)))
      (ok-injective same)
      (
        lookup-with_task "experiment_name" task operator duration (known_values valid values),
        lookup-with_task "task" task operator duration (known_values valid values),
        lookup-with_task "operator_name" task operator duration (known_values valid values),
        λ k other.
            lookup-with_task_other k task operator duration (known_values valid values) other
            ∙ lookup-known_values valid k values,
      )
