-- ===== src/Controllers/Guard/Interleavings.antt =====
-- The guard under any interleaving of a send with the heartbeat timer and with the tasks that wait
-- for or cancel goals.
use physical_ai_runtime.Common.{
  Bool, arith, controller_error, err, false, if◌then◌else◌, is_some, none, not, ok, true, ℕ, ◌||◌,
  ◌≡◌,
}
use physical_ai_runtime.Controllers.Guard.{
  Guard, abandon, arm, beat, dispatch_failed, goal_accepted, goal_rejected, heartbeat,
  mark_terminal, new_guard, reserve, unreserve,
}

-- Where the send that has reserved the client is.
pub data Phase : Type 0 where
  idle waiting dispatching : Phase

pub record State : Type 0 where
  pub guard : Guard
  pub phase : Phase

abbrev pub at : Guard → Phase → State
at g p = record { guard = g; phase = p }

-- One section under the lock, of any task.
pub data Step : State → State → Type 0 where
  reserves : (s : State) (g : Guard) → reserve s.guard ≡ ok g → Step s (at g waiting)
  gives_up : (s : State) → s.phase ≡ waiting → Step s (at (unreserve s.guard) idle)
  arms : (s : State) → s.phase ≡ waiting → Step s (at (arm s.guard) dispatching)
  fails : (s : State) → s.phase ≡ dispatching → Step s (at (dispatch_failed s.guard) idle)
  rejects : (s : State) → s.phase ≡ dispatching → Step s (at (goal_rejected s.guard) idle)
  accepts : (s : State) (h : ℕ) → s.phase ≡ dispatching → Step s (at (goal_accepted h s.guard) idle)
  ends : (s : State) (h : ℕ) → Step s (at (mark_terminal h s.guard) s.phase)
  abandons : (s : State) (h : ℕ) → Step s (at (abandon h s.guard) s.phase)
  beats : (s : State) → Step s (at (heartbeat s.guard) s.phase)

pub data Reach (s : State) : State → Type 0 where
  here : Reach s s
  next : {t u : State} → Reach s t → Step t u → Reach s u

abbrev is_idle : Phase → Bool
is_idle idle = true
is_idle _ = false

abbrev is_dispatching : Phase → Bool
is_dispatching dispatching = true
is_dispatching _ = false

-- A send is under way exactly while the client is reserved, and then no goal is tracked; and the
-- guard is armed only while a goal is being dispatched or is tracked.
pub record IsGuarded (s : State) : Type 0 where
  pub reserved : s.guard.goal_pending ≡ not (is_idle s.phase)
  pub exclusive : s.guard.goal_pending ≡ true → s.guard.goal_handle ≡ none
  pub armed :
      s.guard.guard_active ≡ true → (is_dispatching s.phase || is_some s.guard.goal_handle) ≡ true

Step-IsGuarded : {s t : State} → Step s t → IsGuarded s → IsGuarded t
unfolding reserve unreserve arm dispatch_failed goal_rejected goal_accepted mark_terminal abandon
    heartbeat beat
Step-IsGuarded (reserves s g e) h = ground arith
Step-IsGuarded (gives_up s e) h = ground arith
Step-IsGuarded (arms s e) h = ground arith
Step-IsGuarded (fails s e) h = ground arith
Step-IsGuarded (rejects s e) h = ground arith
Step-IsGuarded (accepts s k e) h = ground arith
Step-IsGuarded (ends s k) h = ground arith
Step-IsGuarded (abandons s k) h = ground arith
Step-IsGuarded (beats s) h = ground arith

new_guard-IsGuarded : (p : Bool) → IsGuarded (at (new_guard p) idle)
new_guard-IsGuarded p = ground arith

-- From a new client, under any interleaving, a send is under way exactly while the client is
-- reserved, no goal is tracked meanwhile, and the guard is armed only while a goal is being
-- dispatched or is tracked.
pub Reach-IsGuarded : (p : Bool) {s : State} → Reach (at (new_guard p) idle) s → IsGuarded s
Reach-IsGuarded p here = new_guard-IsGuarded p
Reach-IsGuarded p (next r st) = Step-IsGuarded st (Reach-IsGuarded p r)

abbrev is_occupied : State → Bool
is_occupied s = not (is_idle s.phase) || is_some s.guard.goal_handle

-- From a new client, under any interleaving, a second goal is refused while another is under way or
-- tracked, and accepted otherwise.
pub reserve_exclusive :
    (p : Bool) (s : State)
    → Reach (at (new_guard p) idle) s
    → reserve s.guard ≡ (
        if is_occupied s then err controller_error else ok (record s.guard { goal_pending = true }))
unfolding reserve
reserve_exclusive p s r = let h = Reach-IsGuarded p r in ground (arith, h.reserved)
