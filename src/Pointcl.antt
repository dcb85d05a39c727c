-- ===== src/Pointcl.antt =====
-- pointcl/src: the point-cloud filter (livox_to_pcl.cpp) and the pole detector
-- (pole_detection.cpp).
pub mod Pcl
pub mod Cloud
pub mod Detect
pub mod Track
pub mod Node
pub mod Ids
pub mod Lost
pub mod Matching
pub mod Nearest
pub mod CloudLaws
pub mod NodeLaws
