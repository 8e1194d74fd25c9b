-- ===== src/Controllers.antt =====
-- src/interfaces/rmi/rmi/controllers.py: the ros2_control clients. Trajectory goals with their
-- guard are in Guard, strict switches in Switching, and the choice of a client in Factory.
pub mod Guard
pub mod Switching
pub mod Factory
