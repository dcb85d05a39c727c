-- ===== src/Offboard.antt =====
-- offboard/include/offboard/base_controller.hpp and offboard/src/base_controller.cpp: the base class
-- of the flight node, by parts. The mission node derives from it, see Task.antt.
pub mod State
pub mod Setpoints
pub mod Services
pub mod Hover
pub mod Angles
pub mod HoverLaws
pub mod Pid
pub mod HoverFor
