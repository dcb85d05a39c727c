-- ===== src/Offboard/Services.antt =====
-- The subscriptions and the services of base_controller.cpp: requests, their replies, landing.

use firt_version_ws.Prelude.{Bool, true, false, not, ◌||◌, if◌then◌else◌, String, ℤ, pos, eqb_ℤ}
use firt_version_ws.Platform.{Platform, dec, neg, lt}
use firt_version_ws.Offboard.State.{
  Base, FlightState, takeoff, waypoint, tiltland, VehicleState, Pose, Reply, answered, failed,
  arming_request, set_mode_request, task_reply, send,
}
use firt_version_ws.Offboard.Setpoints.{publish_velocity_body}

-- flightStateToString, with the strings as they are written.
unfoldable pub flight_state_to_string : FlightState → String
flight_state_to_string FlightState.init = "INIT"
flight_state_to_string takeoff = "TAKEOFF"
flight_state_to_string waypoint = "WAYPOINT"
flight_state_to_string tiltland = "TITLELAND"
flight_state_to_string FlightState.land = "LAND"
flight_state_to_string _ = "UNKNOWN"

module _ {R : Type 0} where
  -- `available`: wait_for_service returned true.
  unfoldable pub arm : Bool → Base R → Base R
  arm available b =
      if available then record (send (arming_request true) b) { apply_arm_flag = true } else b

  unfoldable pub arm_callback : Reply → Base R → Base R
  arm_callback (answered success) b = record b { apply_arm_flag = false }
  arm_callback failed b = record b { apply_arm_flag = false }

  unfoldable pub engage_offboard_mode : Bool → Base R → Base R
  engage_offboard_mode available b =
      if available
      then record (send (set_mode_request "OFFBOARD") b) { apply_offboard_flag = true }
      else b

  unfoldable pub set_mode_callback : Reply → Base R → Base R
  set_mode_callback (answered mode_sent) b = record b { apply_offboard_flag = false }
  set_mode_callback failed b = record b { apply_offboard_flag = false }

  -- The reply to its request is only logged.
  unfoldable pub auto_land : Bool → Base R → Base R
  auto_land available b = if available then send (set_mode_request "AUTO.LAND") b else b

  unfoldable pub launch_callback : Bool → Base R → Base R
  launch_callback flag b =
      if flag then record b { launch_flag = true } else record b { launch_flag = false }

  unfoldable pub task_callback : ℤ → Base R → Base R
  task_callback new_task_id b =
      if eqb_ℤ new_task_id (pos 1) || eqb_ℤ new_task_id (pos 2)
      then if not (eqb_ℤ new_task_id b.current_task_id)
        then record b { current_task_id = new_task_id }
        else b
      else b

  unfoldable pub vehicle_state_callback : VehicleState → Base R → Base R
  vehicle_state_callback msg b = record b { current_state = msg }

  unfoldable pub task_state_pub : Base R → Base R
  unfolding flight_state_to_string
  task_state_pub b = send (task_reply (flight_state_to_string b.flight_state) b.current_task_id) b

  -- The lambda of land(): a refused or failed request may be repeated, a granted one is not.
  unfoldable pub disarm_callback : Reply → Base R → Base R
  disarm_callback (answered success) b =
      if success then b else record b { apply_disarm_flag = false }
  disarm_callback failed b = record b { apply_disarm_flag = false }

module _ {R : Type 0} ⦃p : Platform R⦄ where
  unfoldable pub local_position_callback : Pose R → Base R → Base R
  local_position_callback msg b =
      let euler = p.get_rpy msg.orientation in
      record b {
        local_position = msg;
        current_roll = euler.roll;
        current_pitch = euler.pitch;
        current_yaw = euler.yaw;
      }

  -- The part of land() below the velocity command. `ready`: service_is_ready().
  unfoldable pub request_disarm : Bool → Base R → Base R
  request_disarm ready b =
      if lt b.local_position.position.z (dec 3 2)
      then if ready
        then if b.apply_disarm_flag
          then b
          else send (arming_request false) (record b { apply_disarm_flag = true })
        else b
      else b

  unfoldable pub land : Bool → Base R → Base R
  unfolding request_disarm publish_velocity_body
  land ready b =
      if b.current_state.armed
      then request_disarm ready
          (publish_velocity_body (dec 0 0) (dec 0 0) (neg (dec 3 1)) (dec 0 0) b)
      else record (publish_velocity_body (dec 0 0) (dec 0 0) (dec 0 0) (dec 0 0) b) {
        apply_disarm_flag = false;
      }
