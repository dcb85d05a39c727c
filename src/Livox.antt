-- ===== src/Livox.antt =====
-- The lidar driver, src/livox_ros_driver2: from the packets of a lidar to the messages that
-- livox_to_pcl takes. Its data, the packet queue, the index table, the storage, the frames and the
-- messages.
pub mod Data
pub mod Ldq
pub mod Cache
pub mod Config
pub mod Lds
pub mod Settings
pub mod Messages
pub mod Lddc
pub mod Pipeline
pub mod Frames
pub mod Init
pub mod Topics
pub mod Node
