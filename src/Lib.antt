-- ===== src/Lib.antt =====
-- The Robot Middleware Interface (RMI) of the repository: the Python client through which
-- applications observe a robot and command it under leases that the C++ Execution Manager grants.
--
-- Parts and files. A path names the source, the module models it.
--   src/interfaces/rmi/rmi/selection.py   Authority, World, Selection: the Execution Manager client,
--     its cache of statuses and events, claim, release, clear_fault and the authority snapshot.
--   src/interfaces/rmi/rmi/contracts.py   Messages: actions, plans, horizons, observations.
--   src/interfaces/rmi/rmi/provider.py    Commands, Provider: conversion of values to payloads, and
--     the command client of one lease with its publishers and trajectory goals (Actions).
--   src/interfaces/rmi/rmi/agent.py       Agent: checks of actions and plans, executed plans.
--   src/interfaces/rmi/rmi/session.py     Session: the scope of one lease; enter, act, execute
--     and exit are in Session.Calls.
--   src/interfaces/rmi/rmi/robot.py       Robot: joint state, control stack, routing of commands, and
--     the wait until sensors and joints have data (Readiness).
--   src/interfaces/rmi/rmi/controllers.py Controllers: the guarded trajectory client (Guard), the
--     controller manager client (Switching) and the other clients with their factory (Factory).
--   src/interfaces/rmi/rmi/sensing.py     Sensing: sample buffers, sensors and their waits (Waits).
--   src/interfaces/rmi/rmi/recording.py   Recording: episode scopes and the replay buffer (Memory).
--   src/interfaces/rmi/rmi/replay.py      Replay: new time stamps and the pace of a replay.
--   src/interfaces/rmi/rmi/config.py      Config: the profile and all checks on it.
--   src/interfaces/rmi/rmi/context.py     Context: the factories of an application, and the recovery
--     of authority at its start (Startup), the wait until it is ready (Readiness), the search for a
--     profile and the recorder (Files), and the end of an application's context (Lifecycle).
--   apps/teleop.py                        Apps.Teleop: the key loop that engages the leader arms.
--   apps/record.py                        Apps.Record: names and folders of tasks (Tasks), the motion to
--     the staging pose (Staging), the frames of a demonstration (Capture), and the loop that records
--     attempts and keeps or discards them.
--   apps/replay.py                        Apps.Replay: the timeline read from a recording, the
--     homing motion (Homing), and the loop that plays the frames at their times (Playing).
--   apps/eval.py                          Apps.Eval: the episode of a policy and its verdict.
-- Common holds what the parts share, Waiting the polling loop, and Examples runs the properties on
-- concrete data.
--
-- State and calls. A call is a function from a state to a result and a state (Common.Calls.Exec), so
-- what was written before an exception stays written; an exception is its class. World holds the
-- clock, the cache of the Execution Manager client, the requests and envelopes that left, newest
-- first, and the control stack of the robot. A session, an agent's command client and a robot are
-- records beside it; the control stack holds the numbers of sessions. A robot routes an action to a
-- session, which checks its authority and its lease and sends by its command client.
--
-- The Execution Manager, the ROS graph, the recorder service and the controller manager are not in
-- the repository. They are arguments: World.Environment answers by the requests that it has seen,
-- delivers messages in every sleep, and moves the clock; a property that needs it says that the
-- clock advances.
--
-- Loops. Every polling loop of the RMI is Waiting.wait_loop, on fuel. World.rounds gives one round
-- for each nanosecond of the timeout and two more, which is enough where the clock advances; a loop
-- that ran out would raise stuck_error, and World.Clock.wait-Ends excludes it. get_part_joints is on
-- a depth, and a depth of two is enough for a profile that was read.
--
-- Numbers. Times are integers in nanoseconds. Positions and other floats are integers of a fixed
-- scale, since the code compares them or passes them on; a time that becomes a ROS duration is
-- rounded to nanoseconds before the model. The quintic of the homing motion computes with floats,
-- and their arithmetic is an argument (Apps.Replay.Homing.Floats). Keys of a profile are texts.
--
-- Not modelled: creation and destruction of ROS entities, quality of service, log lines and console
-- output, the asyncio loop thread, Ctrl+C but where a script catches it or enters its sessions, and
-- a cancellation but where a context closes; reading of files, hashes; the construction of a context
-- from its profile and of the recorder's client, and the cameras in its wait; the check of the
-- cameras, the progress bar and the arguments of the scripts; launch files, drivers and tests.
pub mod Common
pub mod Waiting
pub mod Messages
pub mod Authority
pub mod World
pub mod Selection
pub mod Commands
pub mod Provider
pub mod Agent
pub mod Session
pub mod Robot
pub mod Controllers
pub mod Sensing
pub mod Recording
pub mod Replay
pub mod Config
pub mod Context
pub mod Apps
pub mod Examples
