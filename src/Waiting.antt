-- ===== src/Waiting.antt =====
-- The polling loops of the RMI (`while not done(): ... time.sleep(...)`): one loop over any state
-- with a clock. src/interfaces/rmi/rmi/selection.py, provider.py, controllers.py and robot.py all
-- wait in this form.
pub mod Bounds
use physical_ai_runtime.Common.{Bool, Result, if◌then◌else◌, suc, zero, ℕ}

-- How a bounded wait ended. `stuck` stands for a loop whose rounds ran out.
pub data Wait (S : Type 0) : Type 0 where
  ready expired stuck : S → Wait S

-- `while not done(): if now >= deadline: break; sleep()`
unfoldable pub wait_loop : {S : Type 0} → ℕ → (S → Bool) → (S → Bool) → (S → S) → S → Wait S
wait_loop zero done past pause s = stuck s
wait_loop (suc f) done past pause s =
    let rest = wait_loop f done past pause (pause s) in
    if done s then ready s else if past s then expired s else rest

-- An `rclpy` or `asyncio` future: the times at which it is done, and what it then holds.
pub record Future (A : Type 0) : Type 0 where
  pub done_at : ℕ → Bool
  pub outcome : Result A

abbrev pub wait_state : {S : Type 0} → Wait S → S
wait_state (ready s) = s
wait_state (expired s) = s
wait_state (stuck s) = s
