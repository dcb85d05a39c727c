-- ===== src/Odom.antt =====
-- offboard/src/odom_to_pose_node.cpp: the definitions of the node, and its laws.
pub mod Defs
pub mod Laws
