-- ===== src/Apps.antt =====
-- apps/: the scripts of the operator.
pub mod Teleop
pub mod Replay
pub mod Record
pub mod Eval
