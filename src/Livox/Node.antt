-- ===== src/Livox/Node.antt =====
-- livox_ros_driver2.cpp, as built for ROS 2, and driver_node.cpp: the driver's node with its two poll
-- threads, and its destruction. The threads are a step relation: each step is one statement that
-- other threads can see.
pub mod Exit
pub mod Asleep
use firt_version_ws.Prelude.{
  ℕ, suc, Bool, true, false, not, if◌then◌else◌, ◌≡◌, Option, none, some, ◌==◌, ◌>>=◌, List, ℤ, pos,
  negsuc, eqb_ℤ,
}
use firt_version_ws.Platform.{Platform, lt, dec}
use firt_version_ws.Livox.Lds.{LidarDevice, Lds, semaphore_wait}
use firt_version_ws.Livox.Lddc.{Settings, Sent, distribute_from, distribute_imu_from}

-- The publishing frequency of the constructor.
unfoldable pub limit_publish_freq : {R : Type 0} ⦃p : Platform R⦄ → R → R
limit_publish_freq publish_freq =
    if lt (dec 100 0) publish_freq
    then dec 100 0
    else if lt publish_freq (dec 5 1)
    then dec 5 1
    else publish_freq

-- kSourceRawLidar
abbrev pub source_raw_lidar : ℤ
source_raw_lidar = pos 0

-- Where a poll thread is: before a call of Distribute…, inside its semaphore's Wait, before it asks
-- for the exit signal, or at its end.
pub data PollThread : Type 0 where
  calling waiting asking ended : PollThread

-- `while (status == std::future_status::timeout)`
unfoldable pub ask_exit : Bool → PollThread
ask_exit signal = if signal then ended else calling

-- Where the destructor is: not begun, after RequestExit, after set_value, after each join.
pub data Destructor : Type 0 where
  running requested signalled points_joined destroyed : Destructor

-- DriverNode with what it owns. `lds` is the Lddc's pointer, `none` if it is null.
pub record DriverNode (R : Type 0) : Type 0 where
  pub lds : Option (Lds R)
  pub exit_signal : Bool
  pub points_thread : PollThread
  pub imu_thread : PollThread
  pub destructor : Destructor

module _ {R : Type 0} where
  -- The end of the constructor: only for raw lidar data is an Lds registered. `lds` is the one that
  -- GetInstance gives, started or not.
  unfoldable pub new_driver_node : ℤ → Lds R → DriverNode R
  new_driver_node data_src lds = record {
    lds = if eqb_ℤ data_src source_raw_lidar then some lds else none;
    exit_signal = false;
    points_thread = calling;
    imu_thread = calling;
    destructor = running;
  }

  -- RegisterLds: the result and the pointer.
  unfoldable pub register_lds : Lds R → Option (Lds R) → ℤ × Option (Lds R)
  register_lds lds none = (pos 0, some lds)
  register_lds lds (some old) = (negsuc 0, some old)

  unfoldable pub request_exit : Lds R → Lds R
  request_exit s = record s { request_exit = true }

  -- A call of Distribute… up to its Wait: it returns at once without an Lds and after RequestExit.
  unfoldable pub call_distribute : Option (Lds R) → PollThread
  call_distribute none = asking
  call_distribute (some s) = if s.request_exit then asking else waiting

-- The steps of the node's own threads. `fuel` is that of the publishing loops.
module _ {R : Type 0} (to_uint8 : R → ℕ) (to_double : ℕ → R) (settings : Settings) (fuel : ℕ) where
  pub data Step : DriverNode R → DriverNode R → Type 0 where
    points_call :
        (n : DriverNode R)
        → n.points_thread ≡ calling
        → Step n (record n { points_thread = call_distribute n.lds })
    -- the rest of DistributePointCloudData, from its Wait on
    points_wake :
        (n : DriverNode R) (s : Lds R) (count : ℕ) (sent : Sent R) (lidars : List (LidarDevice R))
        → n.points_thread ≡ waiting
        → n.lds ≡ some s
        → semaphore_wait s.pcd_semaphore ≡ some count
        → distribute_from to_uint8 to_double settings s.request_exit fuel 0 s.lidars
          ≡ some (sent, lidars)
        → Step n (record n {
          points_thread = asking;
          lds = some (record s { lidars = lidars; pcd_semaphore = count });
        })
    points_ask :
        (n : DriverNode R)
        → n.points_thread ≡ asking
        → Step n (record n { points_thread = ask_exit n.exit_signal })
    imu_call :
        (n : DriverNode R)
        → n.imu_thread ≡ calling
        → Step n (record n { imu_thread = call_distribute n.lds })
    imu_wake :
        (n : DriverNode R) (s : Lds R) (count : ℕ) (sent : Sent R) (lidars : List (LidarDevice R))
        → n.imu_thread ≡ waiting
        → n.lds ≡ some s
        → semaphore_wait s.imu_semaphore ≡ some count
        → distribute_imu_from settings s.request_exit fuel 0 s.lidars ≡ some (sent, lidars)
        → Step n (record n {
          imu_thread = asking;
          lds = some (record s { lidars = lidars; imu_semaphore = count });
        })
    imu_ask :
        (n : DriverNode R)
        → n.imu_thread ≡ asking
        → Step n (record n { imu_thread = ask_exit n.exit_signal })
    -- ~DriverNode: without an Lds its first statement is a fault, which is no step
    ask_to_exit :
        (n : DriverNode R) (s : Lds R)
        → n.destructor ≡ running
        → n.lds ≡ some s
        → Step n (record n { destructor = requested; lds = some (request_exit s) })
    set_value :
        (n : DriverNode R)
        → n.destructor ≡ requested
        → Step n (record n { destructor = signalled; exit_signal = true })
    join_points :
        (n : DriverNode R)
        → n.destructor ≡ signalled
        → n.points_thread ≡ ended
        → Step n (record n { destructor = points_joined })
    join_imu :
        (n : DriverNode R)
        → n.destructor ≡ points_joined
        → n.imu_thread ≡ ended
        → Step n (record n { destructor = destroyed })

  -- A run of the node's own threads, with its number of steps.
  pub data Run (n : DriverNode R) : ℕ → DriverNode R → Type 0 where
    no_step : Run n 0 n
    then_step : {k : ℕ} {m l : DriverNode R} → Run n k m → Step m l → Run n (suc k) l
