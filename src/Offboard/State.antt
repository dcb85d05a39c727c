-- ===== src/Offboard/State.antt =====
-- The data of base_controller.hpp: the state enumerations, the hover configuration, the node's
-- fields, and what the node sends. Messages are modelled without their headers.
use firt_version_ws.Prelude.{
  ℕ, suc, Bool, true, false, Option, none, List, [], ◌∷◌, String, ℤ, pos, negsuc,
}
use firt_version_ws.Platform.{Platform, Quaternion, dec, neg}

-- enum class FlightState
pub data FlightState : Type 0 where
  init takeoff waypoint approach tiltland land : FlightState

-- enum class HoverState
pub data HoverState : Type 0 where
  idle positioning hovering completed : HoverState

-- struct HoverConfig. The exit condition, if there is one, is asked at a clock reading.
pub record HoverConfig (R : Type 0) : Type 0 where
  pub x : R
  pub y : R
  pub z : R
  pub yaw : R
  pub duration : R
  pub position_tolerance : R
  pub yaw_tolerance : R
  pub use_current_position : Bool
  pub exit_condition : Option (ℕ → Bool)

-- The fields of mavros_msgs/State that the node reads.
pub record VehicleState : Type 0 where
  pub armed : Bool
  pub mode : String

-- geometry_msgs/Point and geometry_msgs/Pose.
pub record Point (R : Type 0) : Type 0 where
  pub x : R
  pub y : R
  pub z : R

pub record Pose (R : Type 0) : Type 0 where
  pub position : Point R
  pub orientation : Quaternion R

-- What the node publishes on its topics, and the requests that it sends to the autopilot.
pub data Command (R : Type 0) : Type 0 where
  position_setpoint : R → R → R → Quaternion R → Command R
  velocity_setpoint : R → R → R → R → Command R
  arming_request : Bool → Command R
  set_mode_request : String → Command R
  task_reply : String → ℤ → Command R

-- What a service call ends in: a response with its success flag, or an exception.
pub data Reply : Type 0 where
  answered : Bool → Reply
  failed : Reply

-- The fields of class BaseController that its code reads, and `out`, what it has sent so far, the
-- last first. Clock readings are nanoseconds.
pub record Base (R : Type 0) : Type 0 where
  pub apply_offboard_flag : Bool
  pub apply_arm_flag : Bool
  pub apply_disarm_flag : Bool
  pub flight_state : FlightState
  pub current_state : VehicleState
  pub local_position : Pose R
  pub launch_flag : Bool
  pub current_task_id : ℤ
  pub current_roll : R
  pub current_pitch : R
  pub current_yaw : R
  pub max_linear_velocity : R
  pub max_angular_velocity : R
  pub kp_yaw : R
  pub last_cross_err_x : R
  pub last_cross_err_y : R
  pub last_cross_time : ℕ
  pub hover_state : HoverState
  pub hover_config : HoverConfig R
  pub hover_start_time : ℕ
  pub out : List (Command R)

abbrev pub send : {R : Type 0} → Command R → Base R → Base R
send c b = record b { out = c ∷ b.out }

-- An `int` that is used as a `double`.
abbrev pub of_int : {R : Type 0} ⦃p : Platform R⦄ → ℤ → R
of_int (pos n) = dec n 0
of_int (negsuc n) = neg (dec (suc n) 0)

-- HoverConfig() with every default argument.
unfoldable pub default_hover_config : {R : Type 0} ⦃p : Platform R⦄ → HoverConfig R
default_hover_config = record {
  x = dec 0 0;
  y = dec 0 0;
  z = dec 0 0;
  yaw = dec 0 0;
  duration = neg (dec 1 0);
  position_tolerance = dec 5 2;
  yaw_tolerance = dec 5 2;
  use_current_position = true;
  exit_condition = none;
}

-- A node as its constructor leaves it, with the two parameters, the clock readings that the header's
-- initialisers take, and the messages not yet received at their zero values.
unfoldable pub new_base : {R : Type 0} ⦃p : Platform R⦄ → R → R → ℕ → Base R
unfolding default_hover_config
new_base linear angular now = record {
  apply_offboard_flag = false;
  apply_arm_flag = false;
  apply_disarm_flag = false;
  flight_state = FlightState.init;
  current_state = record { armed = false; mode = "" };
  local_position = record {
    position = record { x = dec 0 0; y = dec 0 0; z = dec 0 0 };
    orientation = record { qx = dec 0 0; qy = dec 0 0; qz = dec 0 0; qw = dec 1 0 };
  };
  launch_flag = false;
  current_task_id = pos 1;
  current_roll = dec 0 0;
  current_pitch = dec 0 0;
  current_yaw = dec 0 0;
  max_linear_velocity = linear;
  max_angular_velocity = angular;
  kp_yaw = dec 1 0;
  last_cross_err_x = dec 0 0;
  last_cross_err_y = dec 0 0;
  last_cross_time = now;
  hover_state = idle;
  hover_config = default_hover_config;
  hover_start_time = 0;
  out = [];
}
