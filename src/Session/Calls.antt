-- ===== src/Session/Calls.antt =====
-- src/interfaces/rmi/rmi/session.py: what a session does, from its entry to its exit.
use physical_ai_runtime.Common.{
  Bool, Dict, Error, Exec, Option, Result, String, err, false, gets, has_name, if◌then◌else◌,
  is_past, lift, lookup, none, not, ok, pos, pure, raise, raise_if, runtime_error, some,
  stuck_error, timeout_error, true, value_error, ℕ, ℤ, ◌+ℤ◌, ◌+◌, ◌-ℤ◌, ◌==◌, ◌>>=◌, ◌>>◌,
}
use physical_ai_runtime.Waiting.{Wait, expired, ready, stuck, wait_loop}
use physical_ai_runtime.Messages.{Action, Value}
use physical_ai_runtime.Authority.{Allocation, LeaseGrant}
use physical_ai_runtime.World.{Environment, World, pause, rounds}
use physical_ai_runtime.Selection.{claim}
use physical_ai_runtime.Provider.{Link, bind, unbind}
use physical_ai_runtime.Agent.{Agent, PlanExecution, agent_execute, agent_send}
use physical_ai_runtime.Session.{
  Diagnostics, Scope, Session, active, active_for, is_explicitly_displaced, pop_control,
  push_control, release_claim, select_resources,
}

-- The end of a scope: unbind, pop, and only then the session counts as left.
unfoldable pub leave : Exec Scope (Unit {0})
leave s =
    let session = record s.session { commands = unbind s.session.commands } in
    let (r, w) = pop_control s.session.id s.world in
    elim r [
      | err e ↦ (err e, record { session = session; world = w })
      | ok u ↦ (ok tt, record { session = record session { entered = false }; world = w })
    ]

-- The timeout of `__enter__`: the claim is released, the scope is left, and a TimeoutError raised.
unfoldable pub abandon_entry : Environment → Exec Scope (Unit {0})
abandon_entry env s =
    let (e, w) = release_claim env s.session s.world in
    (leave >> raise timeout_error) (record s { world = w })

-- The deadline of the next `wait`, where the session has a period.
abbrev pub schedule : Session → World → Session
schedule s w = record s {
  next_deadline = elim s.period [ none ↦ s.next_deadline | some p ↦ some (pos w.now +ℤ p) ];
}

abbrev pub entry_result : Environment → Session → Wait World → Result (Unit {0}) × Scope
entry_result env s (ready w) = (ok tt, record { session = schedule s w; world = w })
entry_result env s (expired w) = abandon_entry env (record { session = s; world = w })
entry_result env s (stuck w) = (err stuck_error, record { session = s; world = w })

unfoldable pub await_authority : Environment → Exec Scope (Unit {0})
await_authority env s = entry_result env s.session (
    wait_loop (rounds s.session.acquire_timeout) (λ w. active s.session w)
      (λ w. is_past s.world.now s.session.acquire_timeout w.now) (pause env) s.world)

-- What a grant changes before the wait: the lease is stored, bound, and the session pushed.
unfoldable pub install_grant : LeaseGrant → Exec Scope (Unit {0})
install_grant g s =
    let held = record s.session { lease_id = some g.lease_id } in
    elim (bind g held.commands) [
      | err e ↦ (err e, record s { session = held })
      | ok c ↦ (
        ok tt,
        record {
          session = record held { commands = c; entered = true };
          world = push_control held.id s.world;
        },
      )
    ]

abbrev pub in_scope : {A : Type 0} → Exec World A → Exec Scope A
in_scope m s = let (r, w) = m s.world in (r, record s { world = w })

unfoldable pub enter : Environment → Agent → Exec Scope (Unit {0})
enter env a = do
  s ← gets (λ s. s.session)
  raise_if s.entered runtime_error
  resources ← lift (select_resources a.resources s.parts)
  g ← in_scope (claim env a.source_role a.source_instance resources s.preempt a.metadata)
  install_grant g
  await_authority env

-- `Session.__exit__`. `failed_body` says whether the body of the `with` block raised.
abbrev pub count_displaced : Session → Session
count_displaced s = record s {
  diagnostics = record s.diagnostics { displaced_exits = s.diagnostics.displaced_exits + 1 };
}

-- The release that the exit owes: none for a displaced session.
unfoldable pub settle_lease : Environment → Scope → Option Error × Scope
settle_lease env s =
    if is_explicitly_displaced s.session s.world
    then (none, record s { session = count_displaced s.session })
    else let (e, w) = release_claim env s.session s.world in (e, record s { world = w })

abbrev pub raise_release : Bool → Option Error → Result (Unit {0})
raise_release failed_body none = ok tt
raise_release failed_body (some e) = if failed_body then ok tt else err e

unfoldable pub exit : Environment → Bool → Exec Scope (Unit {0})
exit env failed_body s =
    let (e, s') = settle_lease env s in (leave >> lift (raise_release failed_body e)) s'

-- contracts.Observation.allocation_lease
unfoldable pub allocation_lease : Dict Allocation → String → String → Option String
allocation_lease allocations part source_instance = elim (lookup part allocations) [
  | none ↦ none
  | some a ↦
      if not (a.source_instance == source_instance)
      then none
      else if a.lease_id == ""
      then none
      else some a.lease_id
]

abbrev same_lease : Option String → Option String → Bool
same_lease none none = true
same_lease none (some m) = false
same_lease (some l) none = false
same_lease (some l) (some m) = l == m

-- An observation, by its authority snapshot, that was read under another lease.
unfoldable pub is_stale_observation : Agent → String → Option (Dict Allocation) → Session → Bool
is_stale_observation a part observation s = elim observation [
  | none ↦ false
  | some snapshot ↦ not (same_lease (allocation_lease snapshot part a.source_instance) s.lease_id)
]

-- An action on the link of the session: its command client and the world.
abbrev pub on_link : {A : Type 0} → Exec Link A → Exec Scope A
on_link m s =
    let (r, l) = m (record { commands = s.session.commands; world = s.world }) in
    (r, record { session = record s.session { commands = l.commands }; world = l.world })

abbrev pub count : (Diagnostics → Diagnostics) → Exec Scope (Unit {0})
count f s =
    (ok tt, record s { session = record s.session { diagnostics = f s.session.diagnostics } })

abbrev pub add_sent : Diagnostics → Diagnostics
add_sent d = record d { sent = d.sent + 1 }

abbrev pub add_inactive : Diagnostics → Diagnostics
add_inactive d = record d { inactive_drops = d.inactive_drops + 1 }

abbrev pub add_stale : Diagnostics → Diagnostics
add_stale d = record d { stale_observation_drops = d.stale_observation_drops + 1 }

unfoldable pub act : Agent → Action → Option (Dict Allocation) → Exec Scope (Unit {0})
act a action observation s =
    if not (has_name action.part s.session.parts)
    then (err value_error, s)
    else if not (active_for action.part s.session s.world)
    then count add_inactive s
    else if is_stale_observation a action.part observation s.session
    then count add_stale s
    else (on_link (agent_send action) >> count add_sent) s

unfoldable pub execute :
    Environment → Agent → String → Value → Option (Dict Allocation) → Exec Scope PlanExecution
execute env a part v observation s =
    if not (has_name part s.session.parts)
    then (err value_error, s)
    else if not (active_for part s.session s.world)
    then (err runtime_error, s)
    else if is_stale_observation a part observation s.session
    then (err runtime_error, s)
    else (on_link (agent_execute env a part v) >>= λ x. count add_sent >> pure x) s

-- `Session.wait`: the sleep that it asks for, in nanoseconds, and the next deadline.
unfoldable pub wait_period : Session → ℕ → Result (ℤ × Session)
wait_period s now = elim s.period [
  | none ↦ err runtime_error
  | some p ↦
      let deadline : ℤ = elim s.next_deadline [ none ↦ pos now +ℤ p | some d ↦ d ] in
      ok (deadline -ℤ pos now, record s { next_deadline = some (deadline +ℤ p) })
]
