-- ===== src/FastLio.antt =====
-- FAST_LIO_ROS2/src/laserMapping.cpp, the node that makes odometry of the lidar's and the IMU's
-- messages: the part before the filter.
pub mod Sync
pub mod Preprocess
pub mod Clouds
pub mod Spinning
pub mod Split
pub mod Stream
pub mod LoopBack
