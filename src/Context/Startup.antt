-- ===== src/Context/Startup.antt =====
-- `prepare_execution` of context.py: the one recovery of authority when an application starts.
pub mod Recoveries
use physical_ai_runtime.Common.{
  Bool, Dict, Exec, Option, String, err, false, if◌then◌else◌, is_empty, is_past, keep, leb_ℤ, none,
  not, ok, pos, some, true, value_error, ℤ, ◌>>=◌, ◌>>◌,
}
use physical_ai_runtime.Waiting.{wait_loop}
use physical_ai_runtime.Authority.{Allocation, policy}
use physical_ai_runtime.World.{Environment, World, pause, rounds}
use physical_ai_runtime.Selection.{
  clear_fault, get_allocations, is_faulted, latest, require_execution_manager, role,
}
use physical_ai_runtime.Config.Profile.{EmbodimentConfig}
use physical_ai_runtime.Context.{Context, command_contracts}
use mathlib.Core.Path.{subst, subst₂}

-- A context in its process, reduced to what the recovery uses.
pub record Startup : Type 0 where
  pub config : EmbodimentConfig
  pub timeout : ℤ
  pub prepared : Bool
  pub world : World

abbrev pub startup_of {ℓ} : {V : Type ℓ} → Context V → World → Startup
startup_of c w = record { config = c.config; timeout = c.timeout; prepared = c.prepared; world = w }

-- The first snapshot with a resource, or the last one when the time is up.
unfoldable pub await_snapshot : Environment → ℤ → Exec World (Dict Allocation)
await_snapshot env timeout w = latest (
    wait_loop (rounds timeout) (λ v. not (is_empty (get_allocations v)))
      (λ v. is_past w.now timeout v.now) (pause env) w)

-- The commands of the profile whose resources the snapshot shows in FAULT.
unfoldable pub faulted_contracts : EmbodimentConfig → Dict Allocation → Dict String
faulted_contracts config snapshot = keep (λ r. is_faulted snapshot r.0) (command_contracts config)

abbrev pub default_instance : String
default_instance = "rmi_clear_fault"

-- The faulted commands of the profile are cleared, if there are any.
unfoldable pub clear_faulted :
    Environment → EmbodimentConfig → Dict Allocation → Exec World (Dict Allocation)
clear_faulted env config snapshot w =
    let faulted = faulted_contracts config snapshot in
    if is_empty faulted
    then (ok snapshot, w)
    else clear_fault env faulted (role policy) default_instance false w

unfoldable pub recover : Environment → EmbodimentConfig → ℤ → Exec World (Dict Allocation)
recover env config timeout = do
  require_execution_manager env (some timeout)
  snapshot ← await_snapshot env timeout
  clear_faulted env config snapshot

abbrev pub timeout_of : Option ℤ → Startup → ℤ
timeout_of none s = s.timeout
timeout_of (some t) s = t

unfoldable pub prepare_execution : Environment → Option ℤ → Exec Startup (Dict Allocation)
prepare_execution env timeout s =
    let t = timeout_of timeout s in
    let (r, w) = recover env s.config t s.world in
    if leb_ℤ t (pos 0)
    then (err value_error, s)
    else if s.prepared
    then (ok (get_allocations s.world), s)
    else elim r [
      | err e ↦ (err e, record s { world = w })
      | ok snapshot ↦ (ok snapshot, record s { prepared = true; world = w })
    ]
