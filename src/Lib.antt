-- ===== src/Lib.antt =====
-- The flight software of an indoor drone: the mission node that steers an autopilot through its
-- setpoint topics, the node that turns lidar odometry into the autopilot's vision pose, the lidar's
-- driver, and the two point-cloud nodes that take the driver's messages and find and track poles.
--
-- The parts and their files:
-- - Offboard: class BaseController of src/offboard (include/offboard/base_controller.hpp and
--   src/base_controller.cpp). State has the data; Setpoints the publishers, the line follower
--   publish_position_setpoint_trajectory() and the angle loops; Services the requests to the
--   autopilot (arm, engage_offboard_mode, auto_land, land) with their replies and the callbacks of
--   the subscriptions; Hover the hover state machine. HoverLaws, HoverFor and Angles are about these.
--   Pid is class PIDController (include/offboard/pid_controller.hpp), which nothing instantiates.
-- - Task: class TaskController, its subclass (src/offboard/src/test_task_controller.cpp). State has
--   the fields and waypoint_generate(); Stuck the position-stuck protection; Mission
--   execute_waypoint_mission(); TiltLand tilt_land(); Switch check_task_switch_conditions(); Tick
--   timer_callback(), and the node as a system: an `Event` is a message, a reply or a tick of the
--   timer, `handle` is its callback and `run` takes a list of them, since the node's executor runs
--   one callback at a time. Compress is compress_waypoints(). Frame, Output, Sends, Phases,
--   Authorised, Waypoints, Landing, Streaming, Requests, WarmUp, Total, StuckLaws and
--   CompressLaws are about these.
-- - Odom: class OdomToPoseNode (src/offboard/src/odom_to_pose_node.cpp).
-- - Pointcl: Cloud is class LivoxToPointCloud2 (src/pointcl/src/livox_to_pcl.cpp); Detect, Track and
--   Node are class PoleDetectionNode (src/pointcl/src/pole_detection.cpp), from a cluster to a
--   candidate, from candidates to the list of poles, and the callbacks. CloudLaws, Ids, Lost,
--   Matching, Nearest and NodeLaws are about these.
-- - Livox: the lidar driver of src/livox_ros_driver2/src, in the order of the data. Frames is
--   comm/pub_handler.cpp: Callback takes the SDK's packets, Handler keeps the points of one lidar,
--   Timer publishes frames, and Queue has the packets between the SDK's thread and that of
--   RawDataProcess. Lds is lds.cpp with its semaphores and the two callbacks of
--   call_back/lidar_common_callback.cpp: StoragePointData finds a lidar's device through the index
--   table (Cache, comm/cache_index.cpp) and PushLidarData puts the packet into the device's ring of
--   packets (Ldq, comm/ldq.cpp). Lddc is lddc.cpp, whose loops take the packets out again and
--   publish the messages that Messages makes; Pipeline follows one of these into Pointcl.Cloud.
--   Settings is call_back/livox_lidar_callback.cpp, the requests to a lidar and its answers. Data
--   is comm/comm.h. Ldq.Queue is what the ring is to be: a bounded queue. Init, Ring, Refine,
--   Collect, Conserve, Step, Run, Bits, Handshake, Distribute, Live and the Laws modules are about
--   these. Config is parse_cfg_file, what is read from the configuration file. Init is
--   lds_lidar.cpp: the start, which gives each configured lidar its device (Init.Devices) and which
--   Init.Laws follows into the handshake. Topics has the publishers of lddc.cpp and their topics,
--   with the text functions of comm/comm.cpp. Node is livox_ros_driver2.cpp and driver_node.cpp:
--   the two poll threads and the destructor as a step relation, with Node.Exit and Node.Asleep
--   about its end.
-- - FastLio: the odometry node of src/FAST_LIO_ROS2. Sync is the callbacks of src/laserMapping.cpp that
--   buffer scans and IMU readings, and sync_packages(), which takes a scan and its readings out. Split,
--   Stream and LoopBack are about one call, a run, and a run in which the time goes back. Preprocess,
--   Clouds and Spinning are src/preprocess.cpp: which points of a message make
--   the scan, for the driver's message (avia_handler) and for PointCloud2 (mid360_handler and
--   default_handler in Clouds; oust64_handler, velodyne_handler and process in Spinning).
-- - Examples: the theorems at concrete inputs.
--
-- What stands outside the repository is a parameter. Platform is the arithmetic of `double`, the
-- functions of <cmath>, the seconds between two clock readings and tf2's angles, with no laws: a
-- theorem that needs one has it as a hypothesis. Platform.Millis instantiates it with thousandths.
-- Pcl is the point-cloud library: two filters, the bounding box and the clustering. A value that the
-- code keeps as a `float` goes through `to_float` wherever the code stores it as one.
--
-- How state and effects are modelled: a node is a record of its fields, and a method a function from
-- record to record. What a node sends is the list `out`, the last first, and logging, message headers
-- and time stamps are left out. Clock readings are nanoseconds, given to the callback that takes them
-- (`Readings`), as are the answers of wait_for_service and service_is_ready (`Services`). The static
-- variables of tilt_land() are fields. Counters and sizes are natural numbers without a bound; the
-- longest run that they count is far below 2^31.
--
-- In the driver an unsigned integer has its wrap-around written out (Prelude.Words), a pointer to an
-- array says whether the array is live (Storage), and `none` is a fault: a read or a write outside an
-- array or in a deleted one, or a division by 0. The conversions between `double`, `float` and
-- integers are parameters. The threads of the driver are steps: a callback of the SDK, a round of
-- RawDataProcess or a call that distributes runs as a whole, and what its thread waits for is a value
-- (the semaphores' counts). The loop of a publishing function takes the number of stored packets and
-- one as its fuel, and the loop around it 2 rounds, which are enough as long as no other thread stores
-- a packet meanwhile.
--
-- rapidjson is a record of the operations that the driver calls (Json), in which `none` is a failed
-- assertion. inet_addr and inet_ntoa are functions; a theorem on topics has as hypothesis what
-- inet_ntoa writes (IsAddress). In Node a step is one statement that another thread can see, and
-- `Run` counts the steps of the node's own threads. In FastLio the stamps' order is a hypothesis where
-- it matters (IsOrder); the scan is the argument of a callback, which process_custom makes of the
-- driver's message; atan2, the conversion from integers and pcl::fromROSMsg are parameters. The
-- branches of the handlers for features are arguments too (Features), since they are not modelled.
--
-- The loops on angles take fuel, and `none` is a loop that the fuel does not cover. A round is taken
-- for each turn, and one more: the fuel that Task.Total asks for is above the turns between each
-- waypoint's heading and the vehicle's.
--
-- Not modelled: the wiring of the nodes and their main functions; the clock types of rclcpp, which
-- refuses to subtract times of two clocks; message definitions and launch scripts; of the driver
-- its branches for ROS 1, the declaration of its parameters and the interleavings inside a method;
-- rapidjson; of FAST-LIO the features, the filter, the map and their libraries, copies of other
-- projects.
pub mod Prelude
pub mod Platform
pub mod Offboard
pub mod Task
pub mod Odom
pub mod Pointcl
pub mod Livox
pub mod FastLio
pub mod Examples
