-- ===== src/Session.antt =====
-- src/interfaces/rmi/rmi/session.py: the scope of one lease. What a session does is in Calls, the
-- proofs are in the other child modules.
pub mod Calls
pub mod Acting
pub mod Entering
pub mod Leaving
pub mod Histories
use physical_ai_runtime.Common.{
  Bool, Dict, Error, List, Option, Result, String, [], all_of, any_of, eqb, err, false, has_name,
  if◌then◌else◌, key_error, lookup, ltb_ℤ, none, not, ok, pos, runtime_error, some, true,
  value_error, ℕ, ℤ, ◌&&◌, ◌==◌, ◌||◌, ◌∷◌,
}
use physical_ai_runtime.Authority.{
  Allocation, AuthorityEvent, is_state, other_event, owned, preempted,
}
use physical_ai_runtime.World.{Environment, World}
use physical_ai_runtime.Selection.{get_allocations, get_events, release}
use physical_ai_runtime.Provider.{CommandClient, fork}

-- contracts.ControlDiagnostics
pub record Diagnostics : Type 0 where
  pub sent : ℕ
  pub inactive_drops : ℕ
  pub stale_observation_drops : ℕ
  pub displaced_exits : ℕ

-- Session. `id` is the identity of the object, by which the control stack compares sessions.
pub record Session : Type 0 where
  pub id : ℕ
  pub parts : List String
  pub preempt : Bool
  pub acquire_timeout : ℤ
  pub period : Option ℤ
  pub lease_id : Option String
  pub diagnostics : Diagnostics
  pub entered : Bool
  pub commands : CommandClient
  pub next_deadline : Option ℤ

-- A session in its process.
pub record Scope : Type 0 where
  pub session : Session
  pub world : World

abbrev pub no_diagnostics : Diagnostics
no_diagnostics = record {
  sent = 0;
  inactive_drops = 0;
  stale_observation_drops = 0;
  displaced_exits = 0;
}

abbrev pub is_positive : ℤ → Bool
is_positive t = ltb_ℤ (pos 0) t

abbrev pub is_positive_or_none : Option ℤ → Bool
is_positive_or_none none = true
is_positive_or_none (some t) = is_positive t

-- Session.__init__: a period takes the place of the frequency. The command client is a fork.
unfoldable pub new_session : ℕ → List String → Bool → ℤ → Option ℤ → CommandClient → Result Session
new_session id parts preempt acquire_timeout period client =
    if not (is_positive acquire_timeout)
    then err value_error
    else if not (is_positive_or_none period)
    then err value_error
    else ok (record {
      id = id;
      parts = parts;
      preempt = preempt;
      acquire_timeout = acquire_timeout;
      period = period;
      lease_id = none;
      diagnostics = no_diagnostics;
      entered = false;
      commands = fork client;
      next_deadline = none;
    })

-- `self.lease_id`, as a truth value
abbrev pub held_lease : Session → Option String
held_lease s = elim s.lease_id [ none ↦ none | some l ↦ if l == "" then none else some l ]

unfoldable pub owns : String → String → Dict Allocation → Bool
unfolding is_state
owns lease part allocations = elim (lookup part allocations) [
  | none ↦ false
  | some a ↦ is_state a.authority_state owned && a.lease_id == lease
]

-- `Session.active` and `Session.active_for`
unfoldable pub active : Session → World → Bool
active s w = s.entered && elim (held_lease s) [
  | none ↦ false
  | some l ↦ all_of (λ part. owns l part (get_allocations w)) s.parts
]

unfoldable pub active_for : String → Session → World → Bool
active_for part s w =
    has_name part s.parts
    && (s.entered
        && elim (held_lease s) [ none ↦ false | some l ↦ owns l part (get_allocations w) ])

-- A part that the status gives to another lease.
unfoldable pub is_taken : String → Dict Allocation → String → Bool
is_taken lease allocations part = elim (lookup part allocations) [
  | none ↦ false
  | some a ↦ not (a.lease_id == "") && not (a.lease_id == lease)
]

abbrev pub is_preempted : AuthorityEvent → Bool
is_preempted e = elim e.type [ preempted ↦ true | other_event n ↦ false ]

unfoldable pub is_explicitly_displaced : Session → World → Bool
is_explicitly_displaced s w = elim (held_lease s) [
  | none ↦ true
  | some l ↦
      any_of (is_taken l (get_allocations w)) s.parts || any_of is_preempted (get_events (some l) w)
]

-- `_release_claim` catches what the release raises and returns it.
unfoldable pub release_claim : Environment → Session → World → Option Error × World
release_claim env s w = elim (held_lease s) [
  | none ↦ (none, w)
  | some l ↦ let (r, w') = release env l w in elim r [ ok u ↦ (none, w') | err e ↦ (some e, w') ]
]

-- Robot._push_control and Robot._pop_control
unfoldable pub push_control : ℕ → World → World
push_control id w = record w { stack = id ∷ w.stack }

unfoldable pub pop_control : ℕ → World → Result (Unit {0}) × World
pop_control id w = elim w.stack [
  | [] ↦ (err runtime_error, w)
  | top ∷ rest ↦ if eqb top id then (ok tt, record w { stack = rest }) else (err runtime_error, w)
]

-- `{part: self.source.resources[part] for part in self.parts}`
unfoldable pub select_resources : Dict String → List String → Result (Dict String)
select_resources resources [] = ok []
select_resources resources (part ∷ parts) =
    let rest = select_resources resources parts in
    elim (lookup part resources) [
      | none ↦ err key_error
      | some c ↦ elim rest [ err e ↦ err e | ok d ↦ ok ((part, c) ∷ d) ]
    ]
