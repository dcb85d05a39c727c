-- ===== src/Platform.antt =====
-- What the flight code takes from outside the repository: `double` arithmetic and the functions of
-- <cmath>, the seconds between two readings of the ROS clock, and tf2's angles, as a record of
-- operations. A theorem that needs a law of them has it as a hypothesis.
mod Defs
pub mod Millis
pub use Defs.*
