-- ===== src/Context/Startup/Recoveries.antt =====
-- `prepare_execution` of context.py: the targets, the claims and the releases of its recovery.
use physical_ai_runtime.Common.{
  Bool, Bool-cases, Dict, List, Option, Result, [], ap, arith, bind-eq-ok, err-ne-ok, false, inl,
  inr, is_empty, is_past, keep, not, ok, ok-injective, refl, some, sym, true, ℤ, ◌>>=◌, ◌∙◌, ◌∷◌,
  ◌≡◌, ◌⊎◌,
}
use physical_ai_runtime.Waiting.{Wait, expired, ready, stuck, wait_loop}
use physical_ai_runtime.Waiting.Bounds.{Exits, wait_loop-Exits, wait_loop-keeps}
use physical_ai_runtime.Authority.{Allocation, policy}
use physical_ai_runtime.World.{Environment, World, pause, rounds}
use physical_ai_runtime.World.Clock.{
  SameButCache, SameButCache-refl, SameButCache-trans, pause-SameButCache,
}
use physical_ai_runtime.Selection.{
  clear_fault, fault_targets, get_allocations, is_faulted, latest, require_execution_manager, role,
}
use physical_ai_runtime.Selection.Recovery.{
  Cleared, clear_fault-Cleared, is_empty-eq-nil, latest-state, no_target,
}
use physical_ai_runtime.Config.Profile.{EmbodimentConfig}
use physical_ai_runtime.Context.{command_contracts}
use mathlib.Core.Path.{subst₂}
use physical_ai_runtime.Context.Startup.{
  Startup, await_snapshot, clear_faulted, default_instance, faulted_contracts, prepare_execution,
  recover, timeout_of,
}

-- What a recovery did: the wait for a snapshot ended, with one that has a resource or after the
-- timeout, and there it cleared the commands of the profile that were in FAULT, with one preempting
-- claim and the release of its lease, or changed nothing more where none was.
pub record Recovered (env : Environment) (config : EmbodimentConfig) (timeout : ℤ) (w w' : World)
    : Type 0 where
  pub unsent : SameButCache w (await_snapshot env timeout w).1
  pub seen :
      (is_empty (get_allocations (await_snapshot env timeout w).1) ≡ false)
      ⊎ (is_past w.now timeout (await_snapshot env timeout w).1.now ≡ true)
  pub cleared :
      let v = (await_snapshot env timeout w).1 in
      Cleared env (role policy) default_instance (faulted_contracts config (get_allocations v)) v w'

keep-keep : {A : Type 0} (p : A → Bool) (xs : List A) → keep p (keep p xs) ≡ keep p xs
keep-keep p [] = refl
keep-keep p (x ∷ xs) = ground (arith, keep-keep p xs)

await_snapshot-SameButCache :
    (env : Environment) (timeout : ℤ) (w : World) → SameButCache w (await_snapshot env timeout w).1
unfolding await_snapshot
await_snapshot-SameButCache env timeout w =
    let done = λ (v : World). not (is_empty (get_allocations v)) in
    let late = λ (v : World). is_past w.now timeout v.now in
    rw latest-state (
      wait_loop-keeps (SameButCache w) done late (pause env)
        (λ t h. SameButCache-trans h (pause-SameButCache env t)) (rounds timeout) w
        (SameButCache-refl w))

await_snapshot-allocations :
    (env : Environment) (timeout : ℤ) (w : World) {snapshot : Dict Allocation}
    → (await_snapshot env timeout w).0 ≡ ok snapshot
    → snapshot ≡ get_allocations (await_snapshot env timeout w).1
unfolding await_snapshot
await_snapshot-allocations env timeout w h =
    let done = λ (v : World). not (is_empty (get_allocations v)) in
    let late = λ (v : World). is_past w.now timeout v.now in
    latest-allocations (wait_loop (rounds timeout) done late (pause env) w) h
  where
    latest-allocations :
        (r : Wait World) {d : Dict Allocation}
        → (latest r).0 ≡ ok d
        → d ≡ get_allocations (latest r).1
    latest-allocations (ready v) h = sym (ok-injective h)
    latest-allocations (expired v) h = sym (ok-injective h)
    latest-allocations (stuck v) h = absurd (err-ne-ok h)

await_snapshot-seen :
    (env : Environment) (timeout : ℤ) (w : World) {snapshot : Dict Allocation}
    → (await_snapshot env timeout w).0 ≡ ok snapshot
    → (is_empty (get_allocations (await_snapshot env timeout w).1) ≡ false)
      ⊎ (is_past w.now timeout (await_snapshot env timeout w).1.now ≡ true)
unfolding await_snapshot
await_snapshot-seen env timeout w h =
    let done = λ (v : World). not (is_empty (get_allocations v)) in
    let late = λ (v : World). is_past w.now timeout v.now in
    latest-seen (wait_loop (rounds timeout) done late (pause env) w)
      (wait_loop-Exits done late (pause env) (rounds timeout) w) h
  where
    latest-seen :
        (r : Wait World) {d : Dict Allocation}
        → Exits
            (λ (v : World). not (is_empty (get_allocations v)))
            (λ v. is_past w.now timeout v.now)
            r
        → (latest r).0 ≡ ok d
        → (is_empty (get_allocations (latest r).1) ≡ false)
          ⊎ (is_past w.now timeout (latest r).1.now ≡ true)
    latest-seen (ready v) e h = inl (ground arith)
    latest-seen (expired v) e h = inr e
    latest-seen (stuck v) e h = absurd (err-ne-ok h)

pub require_execution_manager-state :
    (env : Environment) (timeout : Option ℤ) (w : World)
    → (require_execution_manager env timeout w).1 ≡ w
unfolding require_execution_manager
require_execution_manager-state env timeout w = ground arith

clear_faulted-nothing :
    (env : Environment) (config : EmbodimentConfig) (v : World) {snapshot : Dict Allocation}
    {w' : World}
    → is_empty (faulted_contracts config (get_allocations v)) ≡ true
    → clear_faulted env config (get_allocations v) v ≡ (ok snapshot, w')
    → w' ≡ v
unfolding clear_faulted
clear_faulted-nothing env config v e h = ground arith

clear_faulted-some :
    (env : Environment) (config : EmbodimentConfig) (v : World) {snapshot : Dict Allocation}
    {w' : World}
    → is_empty (faulted_contracts config (get_allocations v)) ≡ false
    → clear_faulted env config (get_allocations v) v ≡ (ok snapshot, w')
    → clear_fault env
        (faulted_contracts config (get_allocations v))
        (role policy)
        default_instance
        false
        v
      ≡ (ok snapshot, w')
unfolding clear_faulted
clear_faulted-some env config v e h = ground arith

faulted_contracts-targets :
    (config : EmbodimentConfig) (d : Dict Allocation)
    → fault_targets false (faulted_contracts config d) d ≡ faulted_contracts config d
unfolding fault_targets faulted_contracts
faulted_contracts-targets config d = keep-keep (λ r. is_faulted d r.0) (command_contracts config)

clear_faulted-Cleared :
    (env : Environment) (config : EmbodimentConfig) (v : World) {snapshot : Dict Allocation}
    {w' : World}
    → clear_faulted env config (get_allocations v) v ≡ (ok snapshot, w')
    → Cleared env (role policy) default_instance (faulted_contracts config (get_allocations v)) v w'
unfolding clear_faulted
clear_faulted-Cleared env config v h =
    let faulted = faulted_contracts config (get_allocations v) in
    elim (Bool-cases (is_empty faulted)) [
      | inl e ↦ no_target (is_empty-eq-nil faulted e) (clear_faulted-nothing env config v e h)
      | inr e ↦
          let cleared = clear_faulted-some env config v e h in
          subst₂ (λ targets w'. Cleared env (role policy) default_instance targets v w')
            (faulted_contracts-targets config (get_allocations v))
            (ap (λ (p : Result (Dict Allocation) × World). p.1) cleared)
            (clear_fault-Cleared env faulted (role policy) default_instance false v
              (ap (λ (p : Result (Dict Allocation) × World). p.0) cleared))
    ]

recover-Recovered :
    (env : Environment) (config : EmbodimentConfig) (timeout : ℤ) (w : World)
    {snapshot : Dict Allocation} {w' : World}
    → recover env config timeout w ≡ (ok snapshot, w')
    → Recovered env config timeout w w'
unfolding recover
recover-Recovered env config timeout w {w' = w'} h =
    let require = require_execution_manager env (some timeout) in
    let clear = clear_faulted env config in
    let await = await_snapshot env timeout in
    let (u, e1, h1) = bind-eq-ok require (λ u. await >>= clear) w h in
    let h2 =
      ap (await >>= clear) (sym (require_execution_manager-state env (some timeout) w)) ∙ h1 in
    let (d, e2, h3) = bind-eq-ok await clear w h2 in
    record {
      unsent = await_snapshot-SameButCache env timeout w;
      seen = await_snapshot-seen env timeout w e2;
      cleared =
          clear_faulted-Cleared env config (await w).1 (
            ap (λ x. clear x (await w).1) (sym (await_snapshot-allocations env timeout w e2)) ∙ h3);
    }

module _ (env : Environment) (timeout : Option ℤ) (s : Startup) {snapshot : Dict Allocation}
    {s' : Startup} where
  prepare_execution-prepared :
      prepare_execution env timeout s ≡ (ok snapshot, s') → s'.prepared ≡ true
  unfolding prepare_execution
  prepare_execution-prepared h = ground arith

  prepare_execution-first :
      s.prepared ≡ false
      → prepare_execution env timeout s ≡ (ok snapshot, s')
      → recover env s.config (timeout_of timeout s) s.world ≡ (ok snapshot, s'.world)
  unfolding prepare_execution
  prepare_execution-first first h = ground arith

  prepare_execution-again :
      s.prepared ≡ true → prepare_execution env timeout s ≡ (ok snapshot, s') → s' ≡ s
  unfolding prepare_execution
  prepare_execution-again again h = ground arith

  prepare_execution-repeated :
      prepare_execution env timeout s ≡ (ok snapshot, s')
      → prepare_execution env timeout s' ≡ (ok (get_allocations s'.world), s')
  unfolding prepare_execution
  prepare_execution-repeated h = ground arith

-- What a preparation did: the first one recovered the authority, a later one changed nothing.
pub data Prepared (env : Environment) (timeout : ℤ) (s s' : Startup) : Type 0 where
  prepared_first :
      s.prepared ≡ false
      → Recovered env s.config timeout s.world s'.world
      → Prepared env timeout s s'
  prepared_again : s.prepared ≡ true → s' ≡ s → Prepared env timeout s s'

-- The first preparation that returns leaves the context prepared: its wait for a snapshot ended
-- with a resource or after the timeout, and of the profile's commands it cleared those that the
-- status then showed in FAULT. A later one changes nothing and gives the present authority.
pub prepare_execution-Prepared :
    (env : Environment) (timeout : Option ℤ) (s : Startup) {snapshot : Dict Allocation}
    {s' : Startup}
    → prepare_execution env timeout s ≡ (ok snapshot, s')
    → (s'.prepared ≡ true)
      × Prepared env (timeout_of timeout s) s s'
      × (prepare_execution env timeout s' ≡ (ok (get_allocations s'.world), s'))
prepare_execution-Prepared env timeout s {s' = s'} h = (
  prepare_execution-prepared env timeout s h,
  elim (Bool-cases s.prepared) [
    | inl again ↦ prepared_again again (prepare_execution-again env timeout s again h)
    | inr first ↦ prepared_first first (
        recover-Recovered env s.config (timeout_of timeout s) s.world
          (prepare_execution-first env timeout s first h))
  ],
  prepare_execution-repeated env timeout s h,
)
