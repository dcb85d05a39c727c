-- ===== src/Task.antt =====
-- offboard/include/offboard/test_task_controller.hpp and offboard/src/test_task_controller.cpp: the
-- mission node, by parts.
pub mod State
pub mod Stuck
pub mod Mission
pub mod TiltLand
pub mod Switch
pub mod Tick
pub mod Compress
pub mod Frame
pub mod Phases
pub mod Output
pub mod WarmUp
pub mod Sends
pub mod Streaming
pub mod Requests
pub mod CompressLaws
pub mod Waypoints
pub mod Landing
pub mod Total
pub mod StuckLaws
pub mod Authorised
